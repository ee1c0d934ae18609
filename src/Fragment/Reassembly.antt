-- ===== src/Fragment/Reassembly.antt =====
-- The buffer of a partial message holds the bytes of the message where its intervals say so.
use mdds.Base.{
  ℕ, zero, suc, ◌+◌, ◌-◌, ◌≤◌, ◌<◌, ◌≡◌, ◌↔◌, refl, sym, ap, ap₂, ◌∙◌, true, ◌&&◌, ◌||◌, some, List,
  [], ◌∷◌, ◌++◌, length, get_or, take, drop, length-append, length-take, length-drop, ltb, leb,
  if◌then◌else◌, Bool-cases, inl, inr, arith, ltb→lt,
}
use mdds.Wire.{u32, IsU32}
use mdds.Fragment.{Partial, fill, write_at, is_whole}
use mdds.Fragment.Intervals.{
  covers, AllFrom, AllWithin, covers-merge, merge-AllFrom, merge-AllWithin, is_exactly_iff,
}

get_or-append :
    (xs ys : List ℕ) (i : ℕ)
    → get_or (xs ++ ys) i 0
      ≡ (if ltb i (length xs) then get_or xs i 0 else get_or ys (i - length xs) 0)
get_or-append [] ys i = ground arith
get_or-append (x ∷ xs) ys zero = ground arith
get_or-append (x ∷ xs) ys (suc i) = let rest = get_or-append xs ys i in ground (arith, rest)

get_or-drop : (n : ℕ) (xs : List ℕ) (i : ℕ) → get_or (drop n xs) i 0 ≡ get_or xs (n + i) 0
get_or-drop zero xs i = ap (λ (k : ℕ). get_or xs k 0) {x = i} {y = 0 + i} (omega arith)
get_or-drop (suc n) [] i = refl
get_or-drop (suc n) (x ∷ xs) i =
    get_or-drop n xs i
    ∙ ap (λ (k : ℕ). get_or (x ∷ xs) k 0) {x = suc (n + i)} {y = suc n + i} (omega arith)

get_or-take : (n : ℕ) (xs : List ℕ) (i : ℕ) → i < n → get_or (take n xs) i 0 ≡ get_or xs i 0
get_or-take zero xs i h = absurd (omega arith)
get_or-take (suc n) [] i h = refl
get_or-take (suc n) (x ∷ xs) zero h = refl
get_or-take (suc n) (x ∷ xs) (suc i) h = get_or-take n xs i (omega arith)

same_bytes :
    (xs ys : List ℕ)
    → length xs ≡ length ys
    → ((i : ℕ) → i < length ys → get_or xs i 0 ≡ get_or ys i 0)
    → xs ≡ ys
same_bytes [] [] h e = refl
same_bytes [] (y ∷ ys) h e = absurd (omega arith)
same_bytes (x ∷ xs) [] h e = absurd (omega arith)
same_bytes (x ∷ xs) (y ∷ ys) h e =
    ap₂ (λ (b : ℕ) (bs : List ℕ). b ∷ bs) (e 0 (omega arith))
      (same_bytes xs ys (omega arith) (λ i l. e (suc i) (omega arith)))

length-write_at :
    (offset : ℕ) (chunk buffer : List ℕ)
    → offset + length chunk ≤ length buffer
    → length (write_at offset chunk buffer) ≡ length buffer
unfolding write_at
length-write_at offset chunk buffer h = omega (
  arith,
  length-append (take offset buffer) (chunk ++ drop (offset + length chunk) buffer),
  length-append chunk (drop (offset + length chunk) buffer),
  length-take offset buffer,
  length-drop (offset + length chunk) buffer,
)

-- A write changes the bytes of its range and no other.
get_or-write_at :
    (offset : ℕ) (chunk buffer : List ℕ) (i : ℕ)
    → offset + length chunk ≤ length buffer
    → get_or (write_at offset chunk buffer) i 0 ≡ (
        if leb offset i && ltb i (offset + length chunk)
        then get_or chunk (i - offset) 0
        else get_or buffer i 0)
unfolding write_at
get_or-write_at offset chunk buffer i h =
    let tail = chunk ++ drop (offset + length chunk) buffer in
    let front : length (take offset buffer) ≡ offset = omega (arith, length-take offset buffer) in
    get_or-append (take offset buffer) tail i
    ∙ rw front (elim (Bool-cases (ltb i offset)) [
      | inl e ↦ let l = ltb→lt _ _ e in rw e (get_or-take offset buffer i l ∙ ground arith)
      | inr e ↦ rw e (
          get_or-append chunk (drop (offset + length chunk) buffer) (i - offset)
          ∙ rw (get_or-drop (offset + length chunk) buffer (i - offset - length chunk)) (
              ground (
                arith,
                ap (λ (k : ℕ). get_or buffer k 0)
                    {x = offset + length chunk + (i - offset - length chunk)} {y = i},
              )))
    ])

-- The partial has received bytes of `payload`, and they stand in their places.
pub record IsPartOf (payload : List ℕ) (p : Partial) : Type 0 where
  pub total : p.total_size ≡ length payload
  pub sized : length p.buffer ≡ length payload
  pub ordered : AllFrom 0 p.intervals
  pub within : AllWithin (length payload) p.intervals
  pub agrees : (i : ℕ) → covers p.intervals i ≡ true → get_or p.buffer i 0 ≡ get_or payload i 0

-- What the proofs share: a message below 2 ^ 32 bytes and a slice of it.
module _ (payload : List ℕ) (offset len now : ℕ) (p : Partial) (v : IsPartOf payload p)
    (inside : offset + len ≤ length payload) (word : IsU32 (length payload)) where
  slice : List ℕ
  slice = take len (drop offset payload)

  length-slice : length slice ≡ len
  unfolding slice
  length-slice = omega (arith, length-take len (drop offset payload), length-drop offset payload)

  get_or-slice : (i : ℕ) → i < len → get_or slice i 0 ≡ get_or payload (offset + i) 0
  unfolding slice
  get_or-slice i h = get_or-take len (drop offset payload) i h ∙ get_or-drop offset payload i

  -- A slice of the message that comes in, at its offset, keeps the partial a part of the message.
  pub fill-IsPartOf : IsPartOf payload (fill offset (some (drop offset payload)) len now p)
  unfolding fill slice
  fill-IsPartOf =
      let sum : u32 (offset + len) ≡ offset + len = omega arith in
      let fits : offset + length slice ≤ length p.buffer = omega (arith, length-slice, v.sized) in
      rw sum (record {
        total = v.total;
        sized = length-write_at offset slice p.buffer fits ∙ v.sized;
        ordered =
            merge-AllFrom 0 offset (offset + len) p.intervals (omega arith) (omega arith) v.ordered;
        within = merge-AllWithin (length payload) offset (offset + len) p.intervals inside v.within;
        agrees = λ i e.
            agree i fits (
              sym (covers-merge 0 offset (offset + len) p.intervals i (omega arith) v.ordered) ∙ e);
      })
    where
      agree :
          (i : ℕ)
          → offset + length slice ≤ length p.buffer
          → ((leb offset i && ltb i (offset + len)) || covers p.intervals i) ≡ true
          → get_or (write_at offset slice p.buffer) i 0 ≡ get_or payload i 0
      agree i fits e =
          get_or-write_at offset slice p.buffer i fits
          ∙ rw length-slice (elim (Bool-cases (leb offset i && ltb i (offset + len))) [
            | inl t ↦ rw t (
                get_or-slice (i - offset) (ground arith)
                ∙ ap (λ (k : ℕ). get_or payload k 0) {x = offset + (i - offset)} {y = i}
                    (ground arith))
            | inr t ↦ rw t (v.agrees i (ground arith))
          ])

-- A partial is whole exactly when every byte of its message has been received, and then its buffer is
-- the message.
pub is_whole_iff :
    (payload : List ℕ) (p : Partial)
    → IsPartOf payload p
    → 0 < length payload
    → ((is_whole p ≡ true) ↔ ((i : ℕ) → i < length payload → covers p.intervals i ≡ true))
      × (is_whole p ≡ true → p.buffer ≡ payload)
unfolding is_whole
is_whole_iff payload p v h =
    let whole = is_exactly_iff (length payload) p.intervals h v.ordered v.within in
    rw v.total (whole, λ e. same_bytes p.buffer payload v.sized (λ i l. v.agrees i (whole.0 e i l)))
