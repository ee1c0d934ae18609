-- ===== src/OrderedMap/Ids.antt =====
-- A set of ids as a list in ascending order.
use mdds.Base.{
  ℕ, ◌<◌, ◌≡◌, refl, ap, true, false, not, ◌&&◌, ◌||◌, List, [], ◌∷◌, All, All-weaken, ltb, ◌==◌,
  Bool-cases, inl, inr, arith, ==→eq,
}
use mdds.OrderedMap.{has_id, insert_id, erase_id}

-- The set's list is in ascending order.
abbrev pub Ascending : List ℕ → Type 0
Ascending [] = Unit {0}
Ascending (p ∷ s) = All (λ q. p < q) s × Ascending s

pub has_id_below : (p : ℕ) (s : List ℕ) → All (λ q. p < q) s → has_id p s ≡ false
unfolding has_id
has_id_below p [] a = refl
has_id_below p (q ∷ s) (b, a) = ground (arith, has_id_below p s a)

pub All-insert_id : (Q : ℕ → Type 0) (p : ℕ) (s : List ℕ) → Q p → All Q s → All Q (insert_id p s)
unfolding insert_id
All-insert_id Q p [] q a = (q, tt)
All-insert_id Q p (r ∷ s) q (b, a) = elim (Bool-cases (ltb p r)) [
  | inl before ↦ rw before (q, (b, a))
  | inr e ↦ rw e (elim (Bool-cases (ltb r p)) [
    | inl behind ↦ rw behind (b, All-insert_id Q p s q a)
    | inr same ↦ rw same (b, a)
  ])
]

pub Ascending-insert_id : (p : ℕ) (s : List ℕ) → Ascending s → Ascending (insert_id p s)
unfolding insert_id
Ascending-insert_id p [] a = (tt, tt)
Ascending-insert_id p (q ∷ s) (b, a) = elim (Bool-cases (ltb p q)) [
  | inl before ↦
      let lt : p < q = ground arith in
      rw before ((lt, All-weaken _ _ s (λ r h. omega arith) b), (b, a))
  | inr e ↦ rw e (elim (Bool-cases (ltb q p)) [
    | inl behind ↦
        let lt : q < p = ground arith in
        rw behind (All-insert_id (λ r. q < r) p s lt b, Ascending-insert_id p s a)
    | inr same ↦ rw same (b, a)
  ])
]

pub insert_id_again : (p : ℕ) (s : List ℕ) → Ascending s → has_id p s ≡ true → insert_id p s ≡ s
unfolding insert_id has_id
insert_id_again p [] a h = absurd (cc)
insert_id_again p (q ∷ s) (b, a) h = elim (Bool-cases (p == q)) [
  | inl same ↦
      let not_less : ltb p q ≡ false = ground arith in
      let not_more : ltb q p ≡ false = ground arith in rw (not_less, not_more) refl
  | inr other ↦
      let within : has_id p s ≡ true = rw other at h in
      elim (Bool-cases (ltb p q)) [
        | inl before ↦
            let absent = has_id_below p s (All-weaken _ _ s (λ r k. ground arith) b) in absurd (cc)
        | inr e ↦
            let behind : ltb q p ≡ true = ground arith in
            rw (e, behind) (ap (λ r. q ∷ r) (insert_id_again p s a within))
      ]
]

pub has_id-insert_id : (q p : ℕ) (s : List ℕ) → has_id q (insert_id p s) ≡ ((q == p) || has_id q s)
unfolding has_id insert_id
has_id-insert_id q p [] = ground arith
has_id-insert_id q p (r ∷ s) = ground (arith, has_id-insert_id q p s)

All-erase_id : (Q : ℕ → Type 0) (p : ℕ) (s : List ℕ) → All Q s → All Q (erase_id p s)
unfolding erase_id
All-erase_id Q p [] a = tt
All-erase_id Q p (r ∷ s) (b, a) = elim (Bool-cases (ltb p r)) [
  | inl before ↦ rw before (b, a)
  | inr e ↦ rw e (elim (Bool-cases (ltb r p)) [
    | inl behind ↦ rw behind (b, All-erase_id Q p s a)
    | inr same ↦ rw same a
  ])
]

pub Ascending-erase_id : (p : ℕ) (s : List ℕ) → Ascending s → Ascending (erase_id p s)
unfolding erase_id
Ascending-erase_id p [] a = tt
Ascending-erase_id p (r ∷ s) (b, a) = elim (Bool-cases (ltb p r)) [
  | inl before ↦ rw before (b, a)
  | inr e ↦ rw e (elim (Bool-cases (ltb r p)) [
    | inl behind ↦ rw behind (All-erase_id (λ q. r < q) p s b, Ascending-erase_id p s a)
    | inr same ↦ rw same a
  ])
]

pub has_id-erase_id :
    (q p : ℕ) (s : List ℕ) → Ascending s → has_id q (erase_id p s) ≡ (has_id q s && not (q == p))
unfolding has_id erase_id
has_id-erase_id q p [] a = refl
has_id-erase_id q p (r ∷ s) (b, a) = elim (Bool-cases (ltb p r)) [
  | inl before ↦
      let absent = has_id_below p s (All-weaken _ _ s (λ t k. ground arith) b) in
      rw before (elim (Bool-cases (q == p)) [
        | inl same ↦ rw (==→eq q p same) (ground (arith, absent))
        | inr other ↦ rw other (ground arith)
      ])
  | inr e ↦ rw e (elim (Bool-cases (ltb r p)) [
    | inl behind ↦ let rest = has_id-erase_id q p s a in rw behind (ground (arith, rest))
    | inr same ↦
        let absent = has_id_below r s b in
        rw same (elim (Bool-cases (q == r)) [
          | inl at ↦ rw (==→eq q r at) (ground (arith, absent))
          | inr other ↦ ground arith
        ])
  ])
]
