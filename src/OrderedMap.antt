-- ===== src/OrderedMap.antt =====
-- std::map, as src/participant.cpp uses it: entries in the order of their keys, and two keys are the same
-- when neither is less.
pub mod Laws
pub mod Sorted
pub mod Ids
pub mod Erased
use mdds.Base.{ℕ, Bool, true, false, ◌==◌, Option, none, some, List, [], ◌∷◌, ltb, if◌then◌else◌}

module _ {ℓ κ} {K : Type ℓ} {V : Type κ} (less : K → K → Bool) where
  unfoldable pub find : K → List (K × V) → Option V
  find k [] = none
  find k ((j, v) ∷ m) = if less k j then none else if less j k then find k m else some v

  -- `m[k] = v`
  unfoldable pub put : K → V → List (K × V) → List (K × V)
  put k v [] = (k, v) ∷ []
  put k v ((j, w) ∷ m) =
      if less k j then (k, v) ∷ (j, w) ∷ m else if less j k then (j, w) ∷ put k v m else (k, v) ∷ m

  unfoldable pub erase : K → List (K × V) → List (K × V)
  erase k [] = []
  erase k ((j, v) ∷ m) = if less k j then (j, v) ∷ m else if less j k then (j, v) ∷ erase k m else m

-- std::set<PeerId>
unfoldable pub insert_id : ℕ → List ℕ → List ℕ
insert_id p [] = p ∷ []
insert_id p (q ∷ s) = if ltb p q then p ∷ q ∷ s else if ltb q p then q ∷ insert_id p s else q ∷ s

unfoldable pub erase_id : ℕ → List ℕ → List ℕ
erase_id p [] = []
erase_id p (q ∷ s) = if ltb p q then q ∷ s else if ltb q p then q ∷ erase_id p s else s

unfoldable pub has_id : ℕ → List ℕ → Bool
has_id p [] = false
has_id p (q ∷ s) = if p == q then true else has_id p s
