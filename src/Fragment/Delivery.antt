-- ===== src/Fragment/Delivery.antt =====
-- The reassembler as a whole: what it hands out is the message.
use mdds.Base.{
  ℕ, ◌+◌, ◌≤◌, ◌<◌, ◌≡◌, refl, ap, true, false, none, some, List, [], ◌∷◌, length, drop,
  length-replicate, eq→==, Bool-cases, inl, inr, arith,
}
use mdds.Wire.{u32, IsU32}
use mdds.Guid.{Guid, guid_eq_refl}
use mdds.Fragment.{
  Partial, Reassembler, fill, is_whole, partial_of, store, add_fragment, key_eq, find_partial,
  set_partial, or_zeroed,
}
use mdds.Fragment.Intervals.{covers}
use mdds.Fragment.Reassembly.{IsPartOf, fill-IsPartOf}

key_eq_refl : (key : Guid × ℕ) → key_eq key key ≡ true
unfolding key_eq
key_eq_refl (g, s) = rw (guid_eq_refl g, eq→== s s refl) refl

find_partial-set_partial :
    (key : Guid × ℕ) (p : Partial) (ps : List ((Guid × ℕ) × Partial))
    → find_partial key (set_partial key p ps) ≡ some p
unfolding find_partial set_partial
find_partial-set_partial key p [] = rw (key_eq_refl key) refl
find_partial-set_partial key p ((k, old) ∷ rest) = elim (Bool-cases (key_eq k key)) [
  | inl e ↦ rw (e, key_eq_refl key) refl
  | inr e ↦ rw (e, e) (find_partial-set_partial key p rest)
]

partial_of-set :
    (r : Reassembler) (key : Guid × ℕ) (p : Partial) (total now : ℕ)
    → partial_of (record r { partials = set_partial key p r.partials }) key total now ≡ p
unfolding partial_of
partial_of-set r key p total now =
    ap (or_zeroed total now) (find_partial-set_partial key p r.partials)

-- What is not whole is kept.
pub partial_of-store :
    (r : Reassembler) (key : Guid × ℕ) (p : Partial) (total now : ℕ)
    → is_whole p ≡ false
    → partial_of (store r key p).0 key total now ≡ p
unfolding store
partial_of-store r key p total now e = rw e (partial_of-set r key p total now)

module _ (payload : List ℕ) (r : Reassembler) (writer : Guid) (seq offset len now : ℕ)
    (v : IsPartOf payload (partial_of r (writer, seq) (length payload) now))
    (inside : offset + len ≤ length payload) (some_bytes : 0 < length payload)
    (word : IsU32 (length payload)) where
  abbrev pub filled : Partial
  filled =
      fill offset (some (drop offset payload)) len now
        (partial_of r (writer, seq) (length payload) now)

  pub add_fragment_slice :
      add_fragment r writer seq (length payload) offset (some (drop offset payload)) len now
      ≡ store r (writer, seq) filled
  unfolding add_fragment
  add_fragment_slice =
      let sum : u32 (offset + len) ≡ offset + len = omega arith in
      let same = v.total in rw (sum, same) (ground arith)

  pub filled-IsPartOf : IsPartOf payload filled
  filled-IsPartOf =
      fill-IsPartOf payload offset len now (partial_of r (writer, seq) (length payload) now) v
        inside word

-- The partial that is put in for a new message is a part of it.
pub zeroed-IsPartOf :
    (payload : List ℕ) (now : ℕ) → IsPartOf payload (or_zeroed (length payload) now none)
zeroed-IsPartOf payload now = record {
  total = refl;
  sized = length-replicate (length payload) 0;
  ordered = tt;
  within = tt;
  agrees = λ i e. absurd (unfold covers in cc);
}
