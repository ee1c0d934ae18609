-- ===== src/Tracker/Refine.antt =====
-- `track` against its specification: insertion into the set of sequence numbers accounted for.
use mdds.Base.{
  ℕ, ◌+◌, ◌-◌, ◌^◌, ◌≤◌, ◌<◌, ◌≡◌, ◌≢◌, ap, ◌∙◌, bit_or, Bool, true, not, ◌||◌, inl, inr, leb→le,
  Bool-cases, ltb, leb, ◌==◌, ==→eq, if◌then◌else◌, arith,
}
use mdds.Base.Bits.{
  bit, bit-le-one, bit-zero, bit-bit_or, bit-pow_self, bit-pow_ne, bit-beyond, bit_or-lt,
}
use mdds.Wire.{IsU64}
use mdds.Tracker.{
  WriterRxState, Arrival, has_bit, contiguous, duplicate, jump, out_of_order, track, IsRx, seen,
}
use native.Mathlib.Nat.{pow-le-pow_right}
use mdds.Tracker.Seen.{
  has_bit-bit, place, seen_below, seen_above, shift_one, seen-shift_one, shift_one-IsRx, seen-slide,
  slide-IsRx,
}

bit-mark_ne : (w off d : ℕ) → off ≢ d → bit (bit_or w (2 ^ off)) d ≡ bit w d
bit-mark_ne w off d h = omega (arith, bit-bit_or w (2 ^ off) d, bit-pow_ne off d h)

bit-mark_self : (w off : ℕ) → bit (bit_or w (2 ^ off)) off ≡ 1
bit-mark_self w off = omega (arith, bit-bit_or w (2 ^ off) off, bit-pow_self off, bit-le-one w off)

abbrev marked : WriterRxState → ℕ → WriterRxState
marked st off = record st { window = bit_or st.window (2 ^ off) }

bit-marked : (w off d : ℕ) → (bit (bit_or w (2 ^ off)) d == 1) ≡ ((bit w d == 1) || (d == off))
bit-marked w off d = elim (Bool-cases (d == off)) [
  | inl e ↦ ground (arith, bit-mark_self w off, ap (bit (bit_or w (2 ^ off))) (==→eq d off e))
  | inr e ↦ ground (arith, bit-mark_ne w off d (λ k. ground arith))
]

seen-marked :
    (st : WriterRxState) (off seq s : ℕ)
    → seq ≡ st.last_seq + 1 + off
    → seen (marked st off) s ≡ (seen st s || (s == seq))
seen-marked st off seq s e = elim (place st s) [
  | inl p ↦ rw (seen_below (marked st off) s p, seen_below st s p)
  | inr (d, k) ↦
      ground
        (arith, seen_above (marked st off) d s k, seen_above st d s k, bit-marked st.window off d)
]

marked-IsRx :
    (st : WriterRxState) (off : ℕ)
    → off < 64
    → IsU64 (st.last_seq + 1 + off)
    → IsRx st
    → IsRx (marked st off)
marked-IsRx st off lo h v = record {
  last_word = v.last_word;
  window_word =
      bit_or-lt st.window (2 ^ off) 64 v.window_word
        (omega (arith, pow-le-pow_right {n = 2} (omega arith) {i = off} {j = 63} (omega arith)));
  marks = λ i e. ground (arith, v.marks i, bit-marked st.window off i);
}

-- The set after an arrival: beyond the window the source gives up everything before the number.
abbrev pub seen_after : WriterRxState → ℕ → ℕ → Bool
seen_after st seq s = if leb (st.last_seq + 65) seq then leb s seq else (seen st s || (s == seq))

-- Insertion: the answer and the new set.
pub record Tracks (st : WriterRxState) (seq : ℕ) (a : Arrival) : Type 0 where
  pub is_fresh : a.fresh ≡ not (seen st seq)
  pub members : (s : ℕ) → seen a.state s ≡ seen_after st seq s
  pub in_range : IsRx a.state

duplicate-Tracks :
    (st : WriterRxState) (seq : ℕ)
    → IsRx st
    → seen st seq ≡ true
    → seq < st.last_seq + 65
    → Tracks st seq (duplicate st)
duplicate-Tracks st seq v e h = record {
  is_fresh = rw e;
  members = λ s. ground (arith, ap (seen st) {x = s} {y = seq});
  in_range = v;
}

jump-Tracks :
    (st : WriterRxState) (seq offset : ℕ)
    → IsRx st
    → IsU64 seq
    → st.last_seq + 65 ≤ seq
    → Tracks st seq (jump seq offset)
jump-Tracks st seq offset v w h = record {
  is_fresh =
      rw (seen_above st (seq - st.last_seq - 1) seq (omega arith)) (
        ground
          (arith, bit-beyond st.window 64 (seq - st.last_seq - 1) v.window_word (omega arith)));
  members = λ s. elim (place (record { last_seq = seq; window = 0 }) s) [
    | inl p ↦ rw (seen_below (record { last_seq = seq; window = 0 }) s p) (ground arith)
    | inr (d, k) ↦
        rw (seen_above (record { last_seq = seq; window = 0 }) d s k) (ground (arith, bit-zero d))
  ];
  in_range = record {
    last_word = w;
    window_word = omega arith;
    marks = λ i e. absurd (omega (arith, bit-zero i));
  };
}

out_of_order-Tracks :
    (st : WriterRxState) (seq off : ℕ)
    → IsRx st
    → IsU64 seq
    → off < 64
    → seq ≡ st.last_seq + 1 + off
    → Tracks st seq (out_of_order st off)
unfolding out_of_order
out_of_order-Tracks st seq off v w h e = elim (Bool-cases (has_bit st.window off)) [
  | inl old ↦ rw old (
      duplicate-Tracks st seq v (ground (arith, seen_above st off seq e, has_bit-bit st.window off))
        (omega arith))
  | inr new ↦ rw new (record {
    is_fresh = ground (arith, seen_above st off seq e, has_bit-bit st.window off);
    members = λ s. ground (arith, seen-marked st off seq s e);
    in_range = marked-IsRx st off h (omega arith) v;
  })
]

contiguous-Tracks :
    (st : WriterRxState) (seq : ℕ)
    → IsRx st
    → IsU64 seq
    → seq ≡ st.last_seq + 1
    → Tracks st seq (contiguous st)
unfolding contiguous
contiguous-Tracks st seq v w e =
    let fits : IsU64 (st.last_seq + 1) = omega arith in
    let v' : IsRx (shift_one st) = shift_one-IsRx st fits v in
    record {
      is_fresh = ground (arith, seen_above st 0 seq, has_bit-bit st.window 0);
      members = λ s. seen-slide 64 (shift_one st) s v' ∙ seen-shift_one st s fits ∙ ground arith;
      in_range = slide-IsRx 64 (shift_one st) v';
    }

-- An arrival is delivered as new exactly when its sequence number was not accounted for, and then
-- exactly it is added to the set, except that a number 65 or more past the baseline replaces the set
-- by all numbers up to it. The state stays in range.
pub track-Tracks :
    (st : WriterRxState) (seq : ℕ) → IsRx st → IsU64 seq → Tracks st seq (track st seq)
unfolding track
track-Tracks st seq v w = elim (Bool-cases (leb seq st.last_seq)) [
  | inl old ↦ rw old (duplicate-Tracks st seq v (seen_below st seq (leb→le _ _ old)) (ground arith))
  | inr ahead ↦ rw ahead (elim (Bool-cases (leb 64 (seq - st.last_seq - 1))) [
    | inl far ↦ rw far (jump-Tracks st seq _ v w (ground arith))
    | inr near ↦ rw near (elim (Bool-cases (ltb 0 (seq - st.last_seq - 1))) [
      | inl gap ↦ rw gap (out_of_order-Tracks st seq _ v w (ground arith) (ground arith))
      | inr next ↦ rw next (contiguous-Tracks st seq v w (ground arith))
    ])
  ])
]
