-- ===== src/OrderedMap/Erased.antt =====
-- What is gone from a map of std::map behind an `erase`.
use mdds.Base.{◌≡◌, ◌≢◌, sym, Bool, true, List, [], ◌∷◌, All, All-weaken, Bool-cases, inl, inr}
use mdds.OrderedMap.{erase}
use mdds.OrderedMap.Laws.{IsOrder, All-erase}
use mdds.OrderedMap.Sorted.{IsSorted, ne_above}

module _ {K V : Type 0} (less : K → K → Bool) (o : IsOrder less) where
  pub IsSorted-erase : (k : K) (m : List (K × V)) → IsSorted less m → IsSorted less (erase less k m)
  unfolding erase
  IsSorted-erase k [] s = tt
  IsSorted-erase k ((j, w) ∷ m) (b, s) = elim (Bool-cases (less k j)) [
    | inl kj ↦ rw kj (b, s)
    | inr e ↦ rw e (elim (Bool-cases (less j k)) [
      | inl jk ↦ rw jk (All-erase less (λ kv. less j kv.0 ≡ true) k m b, IsSorted-erase k m s)
      | inr jk ↦ rw jk s
    ])
  ]

  -- No entry is under the key any more.
  pub erase-All_others :
      (k : K) (m : List (K × V)) → IsSorted less m → All (λ kv. kv.0 ≢ k) (erase less k m)
  unfolding erase
  erase-All_others k [] s = tt
  erase-All_others k ((j, w) ∷ m) (b, s) = elim (Bool-cases (less k j)) [
    | inl kj ↦ rw kj (
      ne_above less o k j kj,
      All-weaken _ _ m (λ kv h. ne_above less o k kv.0 (o.trans k j kv.0 kj h)) b,
    )
    | inr e ↦ rw e (elim (Bool-cases (less j k)) [
      | inl jk ↦ rw jk ((λ same. ne_above less o j k jk (sym same)), erase-All_others k m s)
      | inr jk ↦
          let same : k ≡ j = o.connex k j e jk in
          rw jk (All-weaken _ _ m (λ kv h. ne_above less o k kv.0 (rw same h)) b)
    ])
  ]
