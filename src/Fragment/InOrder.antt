-- ===== src/Fragment/InOrder.antt =====
-- The fragments of a message, one after the other: the message is handed out with the last of them.
use mdds.Base.{
  ℕ, ◌+◌, ◌≤◌, ◌<◌, ◌≡◌, refl, ◌∙◌, ap, true, false, Option, none, some, List, length, drop, ltb,
  Bool-cases, inl, inr, arith, lt→ltb,
}
use mdds.Wire.{u32, IsU32}
use mdds.Guid.{Guid}
use mdds.Fragment.{
  Reassembler, Partial, add_fragment, partial_of, find_partial, store, is_whole, fill,
}
use mdds.Fragment.Intervals.{covers, covers-merge}
use mdds.Fragment.Reassembly.{IsPartOf, is_whole_iff}
use mdds.Fragment.Delivery.{
  filled, filled-IsPartOf, add_fragment_slice, partial_of-store, zeroed-IsPartOf,
}

module _ (payload : List ℕ) (writer : Guid) (seq : ℕ) where
  -- The reassembler has the first `k` bytes of the message and no other byte of it.
  pub record HasPrefix (k : ℕ) (r : Reassembler) : Type 0 where
    pub part : (now : ℕ) → IsPartOf payload (partial_of r (writer, seq) (length payload) now)
    pub upto :
        (now i : ℕ) → covers (partial_of r (writer, seq) (length payload) now).intervals i ≡ ltb i k

  pub HasPrefix-zero :
      (r : Reassembler) → find_partial (writer, seq) r.partials ≡ none → HasPrefix 0 r
  unfolding partial_of
  HasPrefix-zero r h = record {
    part = λ now. rw h (zeroed-IsPartOf payload now);
    upto = λ now i. rw h (unfold covers in ground arith);
  }

  module _ (k c now : ℕ) (r : Reassembler) (v : HasPrefix k r) (inside : k + c ≤ length payload)
      (some_bytes : 0 < length payload) (word : IsU32 (length payload)) where
    abbrev after : Partial
    after = filled payload r writer seq k c now (v.part now) inside some_bytes word

    after-IsPartOf : IsPartOf payload after
    after-IsPartOf =
        filled-IsPartOf payload r writer seq k c now (v.part now) inside some_bytes word

    covers-after : (i : ℕ) → covers after.intervals i ≡ ltb i (k + c)
    unfolding fill
    covers-after i =
        let p = partial_of r (writer, seq) (length payload) now in
        let sum : u32 (k + c) ≡ k + c = omega arith in
        let old = v.part now in
        let before = v.upto now i in
        rw sum (
          covers-merge 0 k (k + c) p.intervals i (omega arith) old.ordered
          ∙ rw before (ground arith))

    abbrev result : Reassembler × Option (List ℕ)
    result = add_fragment r writer seq (length payload) k (some (drop k payload)) c now

    result-store : result ≡ store r (writer, seq) after
    result-store =
        add_fragment_slice payload r writer seq k c now (v.part now) inside some_bytes word

    pub last_slice : k + c ≡ length payload → result.1 ≡ some payload
    last_slice e =
        let whole = is_whole_iff payload after after-IsPartOf some_bytes in
        let yes_whole : is_whole after ≡ true =
          (whole.0).1 (λ i l. covers-after i ∙ lt→ltb i (k + c) (omega arith)) in
        rw result-store (unfold store in rw yes_whole (ap some (whole.1 yes_whole)))

    not_whole : k + c < length payload → is_whole after ≡ false
    not_whole l = elim (Bool-cases (is_whole after)) [
      | inl e ↦
          let whole = is_whole_iff payload after after-IsPartOf some_bytes in
          let hit = (whole.0).0 e (k + c) l in
          let miss = covers-after (k + c) in absurd (ground arith)
      | inr e ↦ e
    ]

    pub inner_slice : k + c < length payload → (result.1 ≡ none) × HasPrefix (k + c) result.0
    inner_slice l =
        let e = not_whole l in
        let kept = λ (t : ℕ). partial_of-store r (writer, seq) after (length payload) t e in
        rw result-store (
          unfold store in rw e refl,
          record {
            part = λ t. rw (kept t) after-IsPartOf;
            upto = λ t i. rw (kept t) (covers-after i);
          },
        )
