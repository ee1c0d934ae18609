-- ===== src/Udp/Table.antt =====
-- The table of the peers in src/transport_udp.cpp as a set: its keys, in ascending order.
use mdds.Base.{
  ℕ, ◌-◌, ◌<◌, ◌≡◌, refl, ap, true, false, List, [], ◌∷◌, All, All-weaken, ltb, ◌==◌, Bool-cases,
  inl, inr, arith,
}
use mdds.OrderedMap.{find, put, has_id, insert_id}
use mdds.OrderedMap.Ids.{Ascending, has_id_below}
use mdds.Udp.{is_known, sweep_table}

abbrev pub keys : List (ℕ × ℕ) → List ℕ
keys [] = []
keys ((p, t) ∷ m) = p ∷ keys m

pub has_id-keys :
    (p : ℕ) (m : List (ℕ × ℕ)) → Ascending (keys m) → has_id p (keys m) ≡ is_known (find ltb p m)
unfolding has_id find
has_id-keys p [] a = refl
has_id-keys p ((q, t) ∷ m) (b, a) = elim (Bool-cases (ltb p q)) [
  | inl before ↦
      let other : (p == q) ≡ false = ground arith in
      rw (before, other) (has_id_below p (keys m) (All-weaken _ _ (keys m) (λ r h. ground arith) b))
  | inr t' ↦ rw t' (elim (Bool-cases (ltb q p)) [
    | inl behind ↦
        let other : (p == q) ≡ false = ground arith in rw (behind, other) (has_id-keys p m a)
    | inr same ↦ let at : (p == q) ≡ true = ground arith in rw (same, at) refl
  ])
]

pub keys-put : (p t : ℕ) (m : List (ℕ × ℕ)) → keys (put ltb p t m) ≡ insert_id p (keys m)
unfolding put insert_id
keys-put p t [] = refl
keys-put p t ((q, t') ∷ m) = elim (Bool-cases (ltb p q)) [
  | inl before ↦ rw before refl
  | inr e ↦ rw e (elim (Bool-cases (ltb q p)) [
    | inl behind ↦ rw behind (ap (λ s. q ∷ s) (keys-put p t m))
    | inr same ↦ let at : p ≡ q = ground arith in rw same (ap (λ r. r ∷ keys m) at)
  ])
]

-- What a sweep keeps and what it gives up were both in the table.
pub All-sweep_table :
    (Q : ℕ → Type 0) (timeout now : ℕ) (m : List (ℕ × ℕ))
    → All Q (keys m)
    → All Q (keys (sweep_table timeout now m).0) × All Q (sweep_table timeout now m).1
unfolding sweep_table
All-sweep_table Q timeout now [] a = (tt, tt)
All-sweep_table Q timeout now ((p, t) ∷ m) (b, a) =
    let rest = All-sweep_table Q timeout now m a in
    elim (Bool-cases (ltb timeout (now - t))) [
      | inl dead ↦ rw dead (rest.0, (b, rest.1))
      | inr stays ↦ rw stays ((b, rest.0), rest.1)
    ]

pub Ascending-sweep_table :
    (timeout now : ℕ) (m : List (ℕ × ℕ))
    → Ascending (keys m)
    → Ascending (keys (sweep_table timeout now m).0)
unfolding sweep_table
Ascending-sweep_table timeout now [] a = tt
Ascending-sweep_table timeout now ((p, t) ∷ m) (b, a) = elim (Bool-cases (ltb timeout (now - t))) [
  | inl dead ↦ rw dead (Ascending-sweep_table timeout now m a)
  | inr stays ↦
      rw stays
        ((All-sweep_table (λ q. p < q) timeout now m b).0, Ascending-sweep_table timeout now m a)
]
