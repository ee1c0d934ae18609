-- ===== src/Tracker/Lost.antt =====
-- What is counted as lost: by a gap the numbers that were not accounted for, each once; by a jump these
-- and, a second time, those that were received out of order.
use mdds.Base.{
  ℕ, zero, suc, ◌+◌, ◌-◌, ◌^◌, ◌≤◌, ◌<◌, ◌≡◌, refl, ap, sym, ◌∙◌, min, true, false, inl, inr,
  Bool-cases, leb, if◌then◌else◌, arith,
}
use mdds.Base.Bits.{bit, bit-beyond}
use mdds.Tracker.{WriterRxState, received_bits, track, out_of_order, contiguous, gap, IsRx, seen}
use mdds.Tracker.Seen.{has_bit-bit, seen_above}

-- How many of the `n` numbers behind the baseline are not accounted for.
unfoldable pub unseen : WriterRxState → ℕ → ℕ
unseen st zero = 0
unseen st (suc n) = unseen st n + (if seen st (st.last_seq + 1 + n) then 0 else 1)

unseen-received : (st : WriterRxState) (n : ℕ) → unseen st n + received_bits st.window n ≡ n
unfolding unseen received_bits
unseen-received st zero = omega arith
unseen-received st (suc n) = ground (
  arith,
  unseen-received st n,
  seen_above st n (st.last_seq + 1 + n) refl,
  has_bit-bit st.window n,
)

received_bits-unmarked : (w n : ℕ) → bit w n ≡ 0 → received_bits w (suc n) ≡ received_bits w n
unfolding received_bits
received_bits-unmarked w n h = ground (arith, has_bit-bit w n)

-- Behind the window no bit is set.
received_bits-beyond : (w lim k : ℕ) → w < 2 ^ lim → received_bits w (lim + k) ≡ received_bits w lim
received_bits-beyond w lim zero h = ap (received_bits w) {x = lim + 0} {y = lim} (omega arith)
received_bits-beyond w lim (suc k) h =
    ap (received_bits w) {x = lim + suc k} {y = suc (lim + k)} (omega arith)
    ∙ received_bits-unmarked w (lim + k) (bit-beyond w lim (lim + k) h (omega arith))
    ∙ received_bits-beyond w lim k h

received_bits-min : (w lim n : ℕ) → w < 2 ^ lim → received_bits w (min n lim) ≡ received_bits w n
received_bits-min w lim n h = elim (Bool-cases (leb lim n)) [
  | inl e ↦
      ap (received_bits w) {x = min n lim} {y = lim} (ground arith)
      ∙ sym (received_bits-beyond w lim (n - lim) h)
      ∙ ap (received_bits w) {x = lim + (n - lim)} {y = n} (ground arith)
  | inr e ↦ ap (received_bits w) {x = min n lim} {y = n} (ground arith)
]

-- A gap counts as lost exactly the numbers up to its end that were not accounted for.
pub gap-lost :
    (st : WriterRxState) (gap_end : ℕ)
    → IsRx st
    → (gap st gap_end).1 ≡ unseen st (gap_end - st.last_seq)
unfolding gap
gap-lost st gap_end v = elim (Bool-cases (leb gap_end st.last_seq)) [
  | inl old ↦
      rw old (unfold unseen in ap (unseen st) {x = 0} {y = gap_end - st.last_seq} (ground arith))
  | inr new ↦ rw new (
      omega (
        arith,
        received_bits-min st.window 64 (gap_end - st.last_seq) v.window_word,
        unseen-received st (gap_end - st.last_seq),
      ))
]

-- The numbers of the window that are marked, counted over its 64 places.
abbrev pub out_of_order_count : WriterRxState → ℕ
out_of_order_count st = received_bits st.window 64

-- A jump counts as lost every number in between that was not accounted for, and also every number that
-- had been received out of order, which is not lost.
pub jump_overcounts :
    (st : WriterRxState) (seq : ℕ)
    → IsRx st
    → st.last_seq + 65 ≤ seq
    → (track st seq).lost ≡ unseen st (seq - st.last_seq - 1) + out_of_order_count st
unfolding track
jump_overcounts st seq v h =
    let far : leb 64 (seq - st.last_seq - 1) ≡ true = ground arith in
    let new : leb seq st.last_seq ≡ false = ground arith in
    rw (new, far)
      (omega (
        arith,
        unseen-received st (seq - st.last_seq - 1),
        received_bits-beyond st.window 64 (seq - st.last_seq - 1 - 64) v.window_word,
        ap (received_bits st.window) {x = 64 + (seq - st.last_seq - 1 - 64)}
            {y = seq - st.last_seq - 1} (omega arith),
      ))

-- No other arrival counts anything as lost.
pub track-lost_near :
    (st : WriterRxState) (seq : ℕ) → seq < st.last_seq + 65 → (track st seq).lost ≡ 0
unfolding track out_of_order contiguous
track-lost_near st seq h = ground arith
