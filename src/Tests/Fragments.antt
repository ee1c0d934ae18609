-- ===== src/Tests/Fragments.antt =====
-- src/fragment.cpp: a message of three bytes, in two fragments.
use mdds.Base.{ℕ, ◌≤◌, ◌≡◌, refl, true, some, List, [], ◌∷◌, All, length, replicate, arith}
use mdds.Guid.{Guid}
use mdds.Fragment.{Partial, Reassembler, merge, partial_of, split, fragment, find_partial}
use mdds.Fragment.Intervals.{covers, covers-merge}
use mdds.Fragment.Reassembly.{IsPartOf}
use mdds.Fragment.Delivery.{zeroed-IsPartOf, filled}
use mdds.Fragment.Split.{split_fuel, fragment-All}

abbrev message : List ℕ
message = 5 ∷ 6 ∷ 7 ∷ []

abbrev sender : Guid
sender = record { bytes = replicate 16 7 }

abbrev no_partials : Reassembler
no_partials = record { partials = []; timeout = 5000 }

fresh-IsPartOf : IsPartOf message (partial_of no_partials (sender, 1) 3 0)
unfolding partial_of find_partial
fresh-IsPartOf = zeroed-IsPartOf message 0

abbrev after : Partial
after =
    filled message no_partials sender 1 1 2 0 fresh-IsPartOf (omega arith) (omega arith)
      (omega arith)

covers-merge_example : covers (merge 2 4 ((0, 2) ∷ (6, 8) ∷ [])) 3 ≡ true
covers-merge_example =
    covers-merge 0 2 4 ((0, 2) ∷ (6, 8) ∷ []) 3 (omega arith)
      (omega arith, omega arith, (omega arith, omega arith, tt))

split_fuel_example :
    split 3 0 sender 1 9 (some message) 3 2 0 ≡ split 5 0 sender 1 9 (some message) 3 2 0
split_fuel_example =
    split_fuel 3 5 0 sender 1 9 (some message) 3 2 0 (omega arith) (omega arith) (omega arith)
      (omega arith)

fragment-All_example :
    All (λ f. length f ≤ 57) (fragment sender 1 9 (some (replicate 40 1)) 40 57 0)
fragment-All_example = fragment-All sender 1 9 (some (replicate 40 1)) 40 57 0 refl
