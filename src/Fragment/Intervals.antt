-- ===== src/Fragment/Intervals.antt =====
-- The interval list of a partial message, as the set of bytes that it covers.
use mdds.Base.{
  ℕ, suc, ◌≤◌, ◌<◌, ◌≡◌, refl, min, max, Bool, true, false, ◌&&◌, ◌||◌, List, [], ◌∷◌, ltb, leb,
  Bool-cases, inl, inr, arith, ltb→lt, ◌↔◌,
}
use mdds.Fragment.{merge, is_exactly}

-- Byte `x` lies in one of the intervals.
unfoldable pub covers : List (ℕ × ℕ) → ℕ → Bool
covers [] x = false
covers ((begin, end) ∷ rest) x = (leb begin x && ltb x end) || covers rest x

-- The intervals begin at `lo` or later, in order, and do not touch.
abbrev pub AllFrom : ℕ → List (ℕ × ℕ) → Type 0
AllFrom lo [] = Unit {0}
AllFrom lo ((begin, end) ∷ rest) = (lo ≤ begin) × (begin ≤ end) × AllFrom (suc end) rest

abbrev pub AllWithin : ℕ → List (ℕ × ℕ) → Type 0
AllWithin hi [] = Unit {0}
AllWithin hi ((begin, end) ∷ rest) = (end ≤ hi) × AllWithin hi rest

AllFrom-le : (lo hi : ℕ) (ivs : List (ℕ × ℕ)) → lo ≤ hi → AllFrom hi ivs → AllFrom lo ivs
AllFrom-le lo hi [] h v = tt
AllFrom-le lo hi ((begin, end) ∷ rest) h (a, b, c) = (omega arith, b, c)

-- Merging an interval into a list adds exactly its bytes to those that are covered. The list is in
-- order without touching intervals, and the interval does not end before it begins.
pub covers-merge :
    (lo begin end : ℕ) (ivs : List (ℕ × ℕ)) (x : ℕ)
    → begin ≤ end
    → AllFrom lo ivs
    → covers (merge begin end ivs) x ≡ ((leb begin x && ltb x end) || covers ivs x)
unfolding covers merge
covers-merge lo begin end [] x h v = refl
covers-merge lo begin end ((first, second) ∷ rest) x h (a, b, c) =
    let apart = covers-merge (suc second) begin end rest x h c in
    let passed = covers-merge (suc second) first second rest x b c in
    let joined =
      covers-merge (suc second) (min begin first) (max end second) rest x (omega arith) c in
    ground (arith, apart, passed, joined)

-- The merged list is again in order without touching intervals.
pub merge-AllFrom :
    (lo begin end : ℕ) (ivs : List (ℕ × ℕ))
    → lo ≤ begin
    → begin ≤ end
    → AllFrom lo ivs
    → AllFrom lo (merge begin end ivs)
unfolding merge
merge-AllFrom lo begin end [] p h v = (p, h, tt)
merge-AllFrom lo begin end ((first, second) ∷ rest) p h (a, b, c) =
    elim (Bool-cases (ltb second begin)) [
      | inl e ↦
          rw e (a, b, merge-AllFrom (suc second) begin end rest (omega (arith, ltb→lt _ _ e)) h c)
      | inr e ↦ rw e (elim (Bool-cases (ltb end first)) [
        | inl f ↦
            let before = ltb→lt _ _ f in
            rw f (
              p,
              h,
              merge-AllFrom (suc end) first second rest (omega arith) b
                  (AllFrom-le (suc end) (suc second) rest (omega arith) c),
            )
        | inr f ↦ rw f (
            merge-AllFrom lo (min begin first) (max end second) rest (omega arith) (omega arith)
              (AllFrom-le lo (suc second) rest (omega arith) c))
      ])
    ]

-- The merged list stays below a bound that both were below.
pub merge-AllWithin :
    (hi begin end : ℕ) (ivs : List (ℕ × ℕ))
    → end ≤ hi
    → AllWithin hi ivs
    → AllWithin hi (merge begin end ivs)
unfolding merge
merge-AllWithin hi begin end [] h v = (h, tt)
merge-AllWithin hi begin end ((first, second) ∷ rest) h (a, c) =
    elim (Bool-cases (ltb second begin)) [
      | inl e ↦ rw e (a, merge-AllWithin hi begin end rest h c)
      | inr e ↦ rw e (elim (Bool-cases (ltb end first)) [
        | inl f ↦ rw f (h, merge-AllWithin hi first second rest a c)
        | inr f ↦ rw f (merge-AllWithin hi (min begin first) (max end second) rest (omega arith) c)
      ])
    ]

covers-below : (lo x : ℕ) (ivs : List (ℕ × ℕ)) → x < lo → AllFrom lo ivs → covers ivs x ≡ false
unfolding covers
covers-below lo x [] h v = refl
covers-below lo x ((begin, end) ∷ rest) h (a, b, c) =
    let later = covers-below (suc end) x rest (omega arith) c in ground (arith, later)

-- What covers byte 0 begins there.
first_zero :
    (begin end : ℕ) (rest : List (ℕ × ℕ))
    → AllFrom 0 ((begin, end) ∷ rest)
    → covers ((begin, end) ∷ rest) 0 ≡ true
    → begin ≡ 0
unfolding covers
first_zero begin end rest (a, b, c) h =
    let later = covers-below (suc end) 0 rest (omega arith) c in ground (arith, later)

-- The byte behind an interval is not covered.
end_free :
    (begin end : ℕ) (rest : List (ℕ × ℕ))
    → AllFrom 0 ((begin, end) ∷ rest)
    → covers ((begin, end) ∷ rest) end ≡ false
unfolding covers
end_free begin end rest (a, b, c) =
    let later = covers-below (suc end) end rest (omega arith) c in ground (arith, later)

reaches :
    (total begin end : ℕ) (rest : List (ℕ × ℕ))
    → AllFrom 0 ((begin, end) ∷ rest)
    → ((x : ℕ) → x < total → covers ((begin, end) ∷ rest) x ≡ true)
    → total ≤ end
reaches total begin end rest v all = elim (Bool-cases (ltb end total)) [
  | inl e ↦ let free = end_free begin end rest v in let hit = all end (ltb→lt _ _ e) in absurd (cc)
  | inr e ↦ ground arith
]

-- A list in order without touching intervals, within a message that is not empty, is the one interval
-- of the whole message exactly when it covers each of its bytes.
pub is_exactly_iff :
    (total : ℕ) (ivs : List (ℕ × ℕ))
    → 0 < total
    → AllFrom 0 ivs
    → AllWithin total ivs
    → (is_exactly total ivs ≡ true) ↔ ((x : ℕ) → x < total → covers ivs x ≡ true)
unfolding is_exactly covers
is_exactly_iff total [] h v w = (λ e. absurd (cc), λ all. all 0 h)
is_exactly_iff total ((begin, end) ∷ []) h v w = (
  λ e x l. ground arith,
  λ all.
      let low = first_zero begin end [] v (all 0 h) in
      let high = reaches total begin end [] v all in ground (arith, w.0),
)
is_exactly_iff total ((begin, end) ∷ ((first, second) ∷ rest)) h v w = (
  λ p. absurd (cc),
  λ all.
      let high = reaches total begin end ((first, second) ∷ rest) v all in
      absurd (omega (arith, v.2.0, v.2.1, w.1.0)),
)
