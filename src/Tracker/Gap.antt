-- ===== src/Tracker/Gap.antt =====
-- `gap` against its specification: everything up to the end of the gap becomes accounted for.
use mdds.Base.{
  ℕ, ◌+◌, ◌-◌, ◌/◌, ◌^◌, ◌<◌, ◌≡◌, sym, ◌∙◌, false, ◌||◌, inl, inr, Bool-cases, leb, if◌then◌else◌,
  arith,
}
use mdds.Base.Bits.{bit, bit-zero, bit-shift, bit-beyond}
use mdds.Wire.{IsU64}
use mdds.Tracker.{WriterRxState, gap, IsRx, seen}
use mdds.Tracker.Seen.{place, seen_below, seen_above}
use native.Mathlib.Nat.{div-le_self}

-- The window after the baseline has moved up by `span`.
abbrev slid : ℕ → ℕ → ℕ
slid w span = if leb 64 span then 0 else w / 2 ^ span

bit-slid : (w span i : ℕ) → IsU64 w → bit (slid w span) i ≡ bit w (span + i)
bit-slid w span i h = elim (Bool-cases (leb 64 span)) [
  | inl e ↦ rw e (bit-zero i ∙ sym (bit-beyond w 64 (span + i) h (ground arith)))
  | inr e ↦ rw e (bit-shift w span i)
]

slid-IsU64 : (w span : ℕ) → IsU64 w → IsU64 (slid w span)
slid-IsU64 w span h = elim (Bool-cases (leb 64 span)) [
  | inl e ↦ rw e (omega arith)
  | inr e ↦ rw e (omega (arith, div-le_self w (2 ^ span)))
]

abbrev moved : WriterRxState → ℕ → WriterRxState
moved st gap_end = record { last_seq = gap_end; window = slid st.window (gap_end - st.last_seq) }

seen-moved :
    (st : WriterRxState) (gap_end s : ℕ)
    → IsRx st
    → st.last_seq < gap_end
    → seen (moved st gap_end) s ≡ (seen st s || leb s gap_end)
seen-moved st gap_end s v h = elim (place (moved st gap_end) s) [
  | inl p ↦ rw (seen_below (moved st gap_end) s p) (ground arith)
  | inr (d, e) ↦ ground (
    arith,
    seen_above (moved st gap_end) d s e,
    seen_above st (gap_end - st.last_seq + d) s (omega arith),
    bit-slid st.window (gap_end - st.last_seq) d v.window_word,
  )
]

-- A gap adds to the set exactly the numbers up to its end.
pub seen-gap :
    (st : WriterRxState) (gap_end s : ℕ)
    → IsRx st
    → seen (gap st gap_end).0 s ≡ (seen st s || leb s gap_end)
unfolding gap
seen-gap st gap_end s v = elim (Bool-cases (leb gap_end st.last_seq)) [
  | inl old ↦ rw old (ground (arith, seen_below st s))
  | inr new ↦ rw new (seen-moved st gap_end s v (ground arith))
]

pub gap-IsRx :
    (st : WriterRxState) (gap_end : ℕ) → IsRx st → IsU64 gap_end → IsRx (gap st gap_end).0
unfolding gap
gap-IsRx st gap_end v w = elim (Bool-cases (leb gap_end st.last_seq)) [
  | inl old ↦ rw old v
  | inr new ↦ rw new (record {
    last_word = w;
    window_word = slid-IsU64 st.window (gap_end - st.last_seq) v.window_word;
    marks = λ i e. omega (
      arith,
      below,
      v.marks (gap_end - st.last_seq + i)
          (sym (bit-slid st.window (gap_end - st.last_seq) i v.window_word) ∙ e),
    );
  })
]
  where
    below : (leb gap_end st.last_seq ≡ false) → st.last_seq < gap_end
    below e = ground arith
