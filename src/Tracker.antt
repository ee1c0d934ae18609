-- ===== src/Tracker.antt =====
-- The per-writer receive state of ReaderImpl in src/participant.cpp: a contiguous baseline with a window
-- of 64 sequence numbers received out of order. `track` is what `enqueue` does to it for one arrival,
-- and `gap` what `apply_gap` does.
pub mod Seen
pub mod Refine
pub mod Gap
pub mod Trace
pub mod Lost
use mdds.Base.{
  ℕ, zero, suc, ◌+◌, ◌-◌, ◌/◌, ◌^◌, ◌<◌, ◌≡◌, bit_and, bit_or, min, Bool, true, false, not, Option,
  none, some, ltb, leb, ◌==◌, if◌then◌else◌,
}
use mdds.Base.Bits.{bit}
use mdds.Wire.{u64, IsU64}

pub record WriterRxState : Type 0 where
  pub last_seq : ℕ
  pub window : ℕ

-- `rx_[writer_guid]` of a writer that was never heard of.
abbrev pub fresh_state : WriterRxState
fresh_state = record { last_seq = 0; window = 0 }

-- What one arrival does: whether the sample is new, how many sequence numbers are given up, and the
-- base and the bitmap for a NACK where there is a hole.
pub record Arrival : Type 0 where
  pub state : WriterRxState
  pub fresh : Bool
  pub lost : ℕ
  pub hole : Option (ℕ × ℕ)

-- `window & (1ULL << i)`
unfoldable pub has_bit : ℕ → ℕ → Bool
has_bit w i = not (bit_and w (2 ^ i) == 0)

-- `while (st.window & 1ULL) {++st.last_seq; st.window >>= 1;}`; the fuel is the number of rounds allowed.
unfoldable pub slide : ℕ → WriterRxState → WriterRxState
slide zero st = st
slide (suc fuel) st =
    let rest = slide fuel (record { last_seq = u64 (st.last_seq + 1); window = st.window / 2 }) in
    if has_bit st.window 0 then rest else st

-- The window has 64 bits, so 64 rounds are enough.
unfoldable pub contiguous : WriterRxState → Arrival
contiguous st = record {
  state = slide 64 (record { last_seq = u64 (st.last_seq + 1); window = st.window / 2 });
  fresh = not (has_bit st.window 0);
  lost = 0;
  hole = none;
}

abbrev pub duplicate : WriterRxState → Arrival
duplicate st = record { state = st; fresh = false; lost = 0; hole = none }

abbrev pub jump : ℕ → ℕ → Arrival
jump seq offset = record {
  state = record { last_seq = seq; window = 0 };
  fresh = true;
  lost = offset;
  hole = none;
}

unfoldable pub out_of_order : WriterRxState → ℕ → Arrival
out_of_order st offset =
    let window' = bit_or st.window (2 ^ offset) in
    if has_bit st.window offset then duplicate st else record {
      state = record st { window = window' };
      fresh = true;
      lost = 0;
      hole = some (st.last_seq + 1, window');
    }

unfoldable pub track : WriterRxState → ℕ → Arrival
track st seq =
    let offset = seq - st.last_seq - 1 in
    if leb seq st.last_seq
    then duplicate st
    else if leb 64 offset
    then jump seq offset
    else if ltb 0 offset
    then out_of_order st offset
    else contiguous st

-- The loop of `apply_gap` over the first `n` places of the window.
unfoldable pub received_bits : ℕ → ℕ → ℕ
received_bits w zero = 0
received_bits w (suc n) = received_bits w n + (if has_bit w n then 1 else 0)

-- The new state, and how many sequence numbers are given up.
unfoldable pub gap : WriterRxState → ℕ → WriterRxState × ℕ
gap st gap_end =
    let span = gap_end - st.last_seq in
    if leb gap_end st.last_seq then (st, 0) else (
      record { last_seq = gap_end; window = if leb 64 span then 0 else st.window / 2 ^ span },
      span - received_bits st.window (min span 64),
    )

-- The state is in the range of its types, and what the window marks are sequence numbers.
pub record IsRx (st : WriterRxState) : Type 0 where
  pub last_word : IsU64 st.last_seq
  pub window_word : IsU64 st.window
  pub marks : (i : ℕ) → bit st.window i ≡ 1 → IsU64 (st.last_seq + 1 + i)

-- The abstract view: the set of sequence numbers that are accounted for.
unfoldable pub seen : WriterRxState → ℕ → Bool
seen st s = if leb s st.last_seq then true else bit st.window (s - st.last_seq - 1) == 1
