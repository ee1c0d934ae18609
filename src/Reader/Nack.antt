-- ===== src/Reader/Nack.antt =====
-- What a reader asks for behind a GAP, in src/participant.cpp: apply_gap, and nack_state behind it.
use mdds.Base.{ℕ, ◌+◌, ◌^◌, ◌<◌, ◌≡◌, refl, max, true, inl, inr, Option-cases, arith}
use mdds.Wire.{u64}
use mdds.Guid.{Guid, guid_eq, guid_eq_iff}
use mdds.Tracker.{WriterRxState, gap, has_bit, seen}
use mdds.Tracker.Seen.{has_bit-bit, seen_above}
use mdds.Tracker.Gap.{seen-gap}
use mdds.Reader.{Reader, find_rx, rx_state, nack_state, apply_gap}
use mdds.Reader.Dedup.{IsReader, rx_state-apply_gap}

nack_state-rx :
    (r : Reader) (g : Guid)
    → nack_state r g ≡ (u64 ((rx_state r g).last_seq + 1), (rx_state r g).window)
unfolding nack_state rx_state
nack_state-rx r g = elim (Option-cases (find_rx g r.rx)) [
  | inl e ↦ rw (e, nack_state, rx_state) refl
  | inr (st, e) ↦ rw (e, nack_state, rx_state) refl
]

last_seq-gap : (st : WriterRxState) (e : ℕ) → (gap st e).0.last_seq ≡ max e st.last_seq
unfolding gap
last_seq-gap st e = ground arith

-- Behind a GAP the reader asks for what follows the end of the gap, or its own last number in sequence where
-- that is higher, and bit i of the bitmap says whether the number at place i was received already: also for
-- i = 0, so the base of the NACK need not be missing. The base does not wrap.
pub nack_state-apply_gap :
    (r : Reader) (g : Guid) (gap_start gap_end i : ℕ)
    → IsReader r
    → gap_end + 1 < 2 ^ 64
    → (rx_state r g).last_seq + 1 < 2 ^ 64
    → let nack = nack_state (apply_gap r g gap_start gap_end) g in
      (nack.0 ≡ max gap_end (rx_state r g).last_seq + 1)
      × (has_bit nack.1 i ≡ seen (rx_state r g) (nack.0 + i))
nack_state-apply_gap r g gap_start gap_end i v h k =
    let st = rx_state r g in
    let self : guid_eq g g ≡ true = (guid_eq_iff g g).1 refl in
    let now : rx_state (apply_gap r g gap_start gap_end) g ≡ (gap st gap_end).0 =
      rw self at (rx_state-apply_gap r g g gap_start gap_end) in
    let base = last_seq-gap st gap_end in
    let fits : u64 ((gap st gap_end).0.last_seq + 1) ≡ max gap_end st.last_seq + 1 = omega arith in
    rw (nack_state-rx (apply_gap r g gap_start gap_end) g, now, fits)
      (
        refl,
        ground (
          arith,
          has_bit-bit (gap st gap_end).0.window i,
          seen_above (gap st gap_end).0 i (max gap_end st.last_seq + 1 + i) (omega (arith, base)),
          seen-gap st gap_end (max gap_end st.last_seq + 1 + i) (v g),
        ),
      )
