-- ===== src/OrderedMap/Laws.antt =====
-- Looking up what was put, under a strict total order of the keys.
use mdds.Base.{
  ℕ, ◌≡◌, ◌≢◌, refl, ap, Bool, true, false, Option, none, some, List, [], ◌∷◌, All, subst, ltb,
  if◌then◌else◌, Bool-cases, inl, inr, arith,
}
use mdds.Guid.{Guid, guid_lt, bytes_lt}
use mathlib.Core.Option.{some-injective}
use mdds.OrderedMap.{find, put, erase}

-- Neither of two keys is less exactly when they are the same.
pub record IsOrder {ℓ} {K : Type ℓ} (less : K → K → Bool) : Type ℓ where
  pub irrefl : (a : K) → less a a ≡ false
  pub trans : (a b c : K) → less a b ≡ true → less b c ≡ true → less a c ≡ true
  pub connex : (a b : K) → less a b ≡ false → less b a ≡ false → a ≡ b

pub ltb-IsOrder : IsOrder ltb
ltb-IsOrder = record {
  irrefl = λ a. ground arith;
  trans = λ a b c h k. ground arith;
  connex = λ a b h k. ground arith;
}

bytes_lt_irrefl : (xs : List ℕ) → bytes_lt xs xs ≡ false
unfolding bytes_lt
bytes_lt_irrefl [] = refl
bytes_lt_irrefl (x ∷ xs) = ground (arith, bytes_lt_irrefl xs)

bytes_lt_trans :
    (xs ys zs : List ℕ) → bytes_lt xs ys ≡ true → bytes_lt ys zs ≡ true → bytes_lt xs zs ≡ true
unfolding bytes_lt
bytes_lt_trans [] [] zs h k = k
bytes_lt_trans [] (y ∷ ys) [] h k = absurd (cc)
bytes_lt_trans [] (y ∷ ys) (z ∷ zs) h k = refl
bytes_lt_trans (x ∷ xs) [] zs h k = absurd (cc)
bytes_lt_trans (x ∷ xs) (y ∷ ys) [] h k = absurd (cc)
bytes_lt_trans (x ∷ xs) (y ∷ ys) (z ∷ zs) h k = ground (arith, bytes_lt_trans xs ys zs)

bytes_lt_connex : (xs ys : List ℕ) → bytes_lt xs ys ≡ false → bytes_lt ys xs ≡ false → xs ≡ ys
unfolding bytes_lt
bytes_lt_connex [] [] h k = refl
bytes_lt_connex [] (y ∷ ys) h k = absurd (cc)
bytes_lt_connex (x ∷ xs) [] h k = absurd (cc)
bytes_lt_connex (x ∷ xs) (y ∷ ys) h k = ground (arith, bytes_lt_connex xs ys)

pub bytes_lt-IsOrder : IsOrder bytes_lt
bytes_lt-IsOrder = record {
  irrefl = bytes_lt_irrefl;
  trans = bytes_lt_trans;
  connex = bytes_lt_connex;
}

pub guid_lt-IsOrder : IsOrder guid_lt
unfolding guid_lt
guid_lt-IsOrder = record {
  irrefl = λ a. bytes_lt_irrefl a.bytes;
  trans = λ a b c h k. bytes_lt_trans a.bytes b.bytes c.bytes h k;
  connex = λ a b h k.
      ap (λ (b : List ℕ). let g : Guid = record { bytes = b } in g)
        (bytes_lt_connex a.bytes b.bytes h k);
}

module _ {ℓ κ} {K : Type ℓ} {V : Type κ} (less : K → K → Bool) (o : IsOrder less) where
  pub find-put_self : (k : K) (v : V) (m : List (K × V)) → find less k (put less k v m) ≡ some v
  unfolding find put
  find-put_self k v [] = rw (o.irrefl k) refl
  find-put_self k v ((j, w) ∷ m) = elim (Bool-cases (less k j)) [
    | inl before ↦ rw (before, o.irrefl k) refl
    | inr e ↦ rw e (elim (Bool-cases (less j k)) [
      | inl behind ↦ rw (behind, e, behind) (find-put_self k v m)
      | inr same ↦ rw (same, o.irrefl k) refl
    ])
  ]

  -- The head of the new map decides as the old head did.
  pub find-put_ne :
      (k j : K) (v : V) (m : List (K × V)) → k ≢ j → find less j (put less k v m) ≡ find less j m
  unfolding find put
  find-put_ne k j v [] ne = elim (Bool-cases (less j k)) [
    | inl a ↦ rw a refl
    | inr a ↦ rw a (elim (Bool-cases (less k j)) [
      | inl b ↦ rw b refl
      | inr b ↦ absurd (ne (o.connex k j b a))
    ])
  ]
  find-put_ne k j v ((i, w) ∷ m) ne = elim (Bool-cases (less k i)) [
    | inl ki ↦ rw ki (elim (Bool-cases (less j k)) [
      | inl jk ↦ rw (jk, o.trans j k i jk ki) refl
      | inr jk ↦ rw jk (elim (Bool-cases (less k j)) [
        | inl kj ↦ rw kj refl
        | inr kj ↦ absurd (ne (o.connex k j kj jk))
      ])
    ])
    | inr ki ↦ rw ki (elim (Bool-cases (less i k)) [
      | inl ik ↦ rw ik (
          ap (λ (t : Option V). if less j i then none else if less i j then t else some w)
            (find-put_ne k j v m ne))
      | inr ik ↦
          let same : k ≡ i = o.connex k i ki ik in
          rw ik (elim (Bool-cases (less j k)) [
            | inl jk ↦ rw (← same, jk) refl
            | inr jk ↦
                rw (← same, jk)
                  (elim (Bool-cases (less k j)) [
                    | inl kj ↦ rw kj refl
                    | inr kj ↦ absurd (ne (o.connex k j kj jk))
                  ])
          ])
    ])
  ]

-- What holds of all entries, under any test.
module _ {ℓ κ μ} {K : Type ℓ} {V : Type κ} (less : K → K → Bool) (Q : K × V → Type μ) where
  pub All-put : (k : K) (v : V) (m : List (K × V)) → Q (k, v) → All Q m → All Q (put less k v m)
  unfolding put
  All-put k v [] q a = (q, tt)
  All-put k v ((j, w) ∷ m) q (b, a) = elim (Bool-cases (less k j)) [
    | inl before ↦ rw before (q, (b, a))
    | inr e ↦ rw e (elim (Bool-cases (less j k)) [
      | inl behind ↦ rw behind (b, All-put k v m q a)
      | inr same ↦ rw same (q, a)
    ])
  ]

  pub All-erase : (k : K) (m : List (K × V)) → All Q m → All Q (erase less k m)
  unfolding erase
  All-erase k [] a = a
  All-erase k ((j, w) ∷ m) (b, a) = elim (Bool-cases (less k j)) [
    | inl before ↦ rw before (b, a)
    | inr e ↦ rw e (elim (Bool-cases (less j k)) [
      | inl behind ↦ rw behind (b, All-erase k m a)
      | inr same ↦ rw same a
    ])
  ]

module _ {ℓ κ μ} {K : Type ℓ} {V : Type κ} (less : K → K → Bool) (Q : V → Type μ) where
  pub find-All :
      (k : K) (v : V) (m : List (K × V)) → find less k m ≡ some v → All (λ kv. Q kv.1) m → Q v
  unfolding find
  find-All k v [] e a = absurd (cc)
  find-All k v ((j, w) ∷ m) e (b, a) = elim (Bool-cases (less k j)) [
    | inl before ↦ absurd (cc)
    | inr t ↦ elim (Bool-cases (less j k)) [
      | inl behind ↦ find-All k v m (rw (t, behind) at e) a
      | inr same ↦ subst Q (some-injective w v (rw (t, same) at e)) b
    ]
  ]
