-- ===== src/OrderedMap/Sorted.antt =====
-- Maps whose keys ascend, and relations between any two of their values.
use mdds.Base.{
  ◌≡◌, ◌≢◌, refl, ap, subst, sym, ◌∙◌, Bool, true, false, ◌||◌, some, List, [], ◌∷◌, All,
  All-weaken, Bool-cases, inl, inr, arith,
}
use mathlib.Core.Option.{some-injective}
use mdds.OrderedMap.{find, put}
use mdds.OrderedMap.Laws.{IsOrder, All-put, find-All}

module _ {K V : Type 0} (less : K → K → Bool) where
  abbrev pub IsSorted : List (K × V) → Type 0
  IsSorted [] = Unit {0}
  IsSorted ((k, v) ∷ m) = All (λ kv. less k kv.0 ≡ true) m × IsSorted m

-- `R` holds between the value of each entry and those behind it.
module _ {K V : Type 0} (R : V → V → Type 0) where
  abbrev pub Pairwise : List (K × V) → Type 0
  Pairwise [] = Unit {0}
  Pairwise ((k, v) ∷ m) = All (λ kv. R v kv.1) m × Pairwise m

module _ {K : Type 0} (less : K → K → Bool) (o : IsOrder less) where
  pub ne_above : (k j : K) → less k j ≡ true → j ≢ k
  ne_above k j h e = let no_less = o.irrefl k in let loop : less k k ≡ true = rw e at h in cc

module _ {K V : Type 0} (less : K → K → Bool) where
  All-others :
      (Q : V → Type 0) (k j : K) (m : List (K × V))
      → All (λ kv. less j kv.0 ≡ true) m
      → All (λ kv. kv.0 ≢ k → Q kv.1) m
      → ((i : K) → less j i ≡ true → i ≢ k)
      → All (λ kv. Q kv.1) m
  All-others Q k j [] b a far = tt
  All-others Q k j (x ∷ m) (b, bs) (a, as') far = (a (far x.0 b), All-others Q k j m bs as' far)

module _ {K V : Type 0} (less : K → K → Bool) (o : IsOrder less) where
  pub IsSorted-put :
      (k : K) (v : V) (m : List (K × V)) → IsSorted less m → IsSorted less (put less k v m)
  unfolding put
  IsSorted-put k v [] s = (tt, tt)
  IsSorted-put k v ((j, w) ∷ m) (b, s) = elim (Bool-cases (less k j)) [
    | inl kj ↦ rw kj ((kj, All-weaken _ _ m (λ kv h. o.trans k j kv.0 kj h) b), (b, s))
    | inr e ↦ rw e (elim (Bool-cases (less j k)) [
      | inl jk ↦ rw jk (All-put less (λ kv. less j kv.0 ≡ true) k v m jk b, IsSorted-put k v m s)
      | inr jk ↦ let same : k ≡ j = o.connex k j e jk in rw jk (rw same b, s)
    ])
  ]

  -- What holds of the entries under other keys, and of the new one.
  pub All-put_at :
      (Q : V → Type 0) (k : K) (v : V) (m : List (K × V))
      → IsSorted less m
      → All (λ kv. kv.0 ≢ k → Q kv.1) m
      → Q v
      → All (λ kv. Q kv.1) (put less k v m)
  unfolding put
  All-put_at Q k v [] s a q = (q, tt)
  All-put_at Q k v ((j, w) ∷ m) (b, s) (c, a) q = elim (Bool-cases (less k j)) [
    | inl kj ↦ rw kj (
      q,
      (
        c (ne_above less o k j kj),
        All-others less Q k j m b a (λ i ji. ne_above less o k i (o.trans k j i kj ji)),
      ),
    )
    | inr e ↦ rw e (elim (Bool-cases (less j k)) [
      | inl jk ↦ rw jk (c (λ same. ne_above less o j k jk (sym same)), All-put_at Q k v m s a q)
      | inr jk ↦
          let same : k ≡ j = o.connex k j e jk in
          rw jk (q, All-others less Q k j m b a (λ i ji. rw same (ne_above less o j i ji)))
    ])
  ]

  module _ (R : V → V → Type 0) (flip : (u v : V) → R u v → R v u) where
    pub Pairwise-put_at :
        (k : K) (v : V) (m : List (K × V))
        → IsSorted less m
        → All (λ kv. kv.0 ≢ k → R v kv.1) m
        → Pairwise R m
        → Pairwise R (put less k v m)
    unfolding put
    Pairwise-put_at k v [] s a p = (tt, tt)
    Pairwise-put_at k v ((j, w) ∷ m) (b, s) (c, a) (r, p) = elim (Bool-cases (less k j)) [
      | inl kj ↦ rw kj (
        (
          c (ne_above less o k j kj),
          All-others less (R v) k j m b a (λ i ji. ne_above less o k i (o.trans k j i kj ji)),
        ),
        (r, p),
      )
      | inr e ↦ rw e (elim (Bool-cases (less j k)) [
        | inl jk ↦ rw jk (
          All-put_at (R w) k v m s (All-weaken _ _ m (λ kv h ne. h) r)
              (flip v w (c (λ same. ne_above less o j k jk (sym same)))),
          Pairwise-put_at k v m s a p,
        )
        | inr jk ↦
            let same : k ≡ j = o.connex k j e jk in
            rw jk (All-others less (R v) k j m b a (λ i ji. rw same (ne_above less o j i ji)), p)
      ])
    ]

    -- The value under a key is related to those under the others.
    pub Pairwise-find :
        (k : K) (v : V) (m : List (K × V))
        → find less k m ≡ some v
        → Pairwise R m
        → All (λ kv. kv.0 ≢ k → R v kv.1) m
    unfolding find
    Pairwise-find k v [] e p = tt
    Pairwise-find k v ((j, w) ∷ m) e (r, p) = elim (Bool-cases (less k j)) [
      | inl kj ↦ absurd (cc)
      | inr t ↦ elim (Bool-cases (less j k)) [
        | inl jk ↦
            let there = rw (t, jk) at e in
            (λ ne. flip w v (find-All less (R w) k v m there r), Pairwise-find k v m there p)
        | inr jk ↦
            let here : w ≡ v = some-injective w v (rw (t, jk) at e) in
            (
              λ ne. absurd (ne (sym (o.connex k j t jk))),
              All-weaken _ _ m (λ kv h ne. subst (λ u. R u kv.1) here h) r,
            )
      ]
    ]

-- Whether some entry passes the test.
module _ {K V : Type 0} (test : V → Bool) where
  unfoldable pub any_value : List (K × V) → Bool
  any_value [] = false
  any_value ((k, v) ∷ m) = test v || any_value m

  -- An entry that did not pass, if any, gives way to the new one.
  pub any_value-put :
      (less : K → K → Bool) (k : K) (v : V) (m : List (K × V))
      → ((w : V) → find less k m ≡ some w → test w ≡ false)
      → any_value (put less k v m) ≡ (test v || any_value m)
  unfolding any_value put
  any_value-put less k v [] h = refl
  any_value-put less k v ((j, w) ∷ m) h = elim (Bool-cases (less k j)) [
    | inl kj ↦ rw kj refl
    | inr e ↦ rw e (elim (Bool-cases (less j k)) [
      | inl jk ↦
          let rest = any_value-put less k v m (λ u f. h u (unfold find in rw (e, jk) f)) in
          rw jk (ground (arith, rest))
      | inr jk ↦
          let off : test w ≡ false = h w (unfold find in rw (e, jk) refl) in rw (jk, off) refl
    ])
  ]

  -- An entry gives way to one that fares like it.
  pub any_value-put_found :
      (less : K → K → Bool) (k : K) (v w : V) (m : List (K × V))
      → find less k m ≡ some w
      → test v ≡ test w
      → any_value (put less k v m) ≡ any_value m
  unfolding any_value put
  any_value-put_found less k v w [] e h = unfold find in absurd (cc)
  any_value-put_found less k v w ((j, u) ∷ m) e h = elim (Bool-cases (less k j)) [
    | inl kj ↦ unfold find in absurd (cc)
    | inr t ↦ elim (Bool-cases (less j k)) [
      | inl jk ↦
          let there : find less k m ≡ some w = unfold find in rw (t, jk) at e in
          rw (t, jk) (ap (λ b. test u || b) (any_value-put_found less k v w m there h))
      | inr jk ↦
          let here : u ≡ w = some-injective u w (unfold find in rw (t, jk) at e) in
          rw (t, jk) (ap (λ b. b || any_value m) (h ∙ sym (ap test here)))
    ]
  ]

  pub any_value-find :
      (less : K → K → Bool) (k : K) (w : V) (m : List (K × V))
      → find less k m ≡ some w
      → test w ≡ true
      → any_value m ≡ true
  unfolding any_value find
  any_value-find less k w [] e h = absurd (cc)
  any_value-find less k w ((j, u) ∷ m) e h = elim (Bool-cases (less k j)) [
    | inl kj ↦ absurd (cc)
    | inr t ↦ elim (Bool-cases (less j k)) [
      | inl jk ↦ let rest = any_value-find less k w m (rw (t, jk) at e) h in ground (arith, rest)
      | inr jk ↦
          let here : u ≡ w = some-injective u w (rw (t, jk) at e) in
          let on : test u ≡ true = ap test here ∙ h in rw on refl
    ]
  ]
