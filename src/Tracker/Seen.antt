-- ===== src/Tracker/Seen.antt =====
-- An arrival adds its sequence number to the set of those accounted for, and is new exactly when it
-- was not in it.
use mdds.Base.{
  ℕ, zero, suc, ◌+◌, ◌-◌, ◌/◌, ◌^◌, ◌≤◌, ◌<◌, ◌≡◌, refl, ◌∙◌, true, false, ◌||◌, inl, inr, leb→le,
  ◌⊎◌, Bool-cases, leb, ◌==◌, arith,
}
use mdds.Base.Bits.{bit, bit-le-one, bit_and-pow, bit-beyond}
use mdds.Wire.{u64, IsU64}
use mdds.Tracker.{WriterRxState, has_bit, slide, IsRx, seen}
use native.Mathlib.Nat.{one-le-pow, pow-suc}

pub has_bit-bit : (w i : ℕ) → has_bit w i ≡ (bit w i == 1)
unfolding has_bit
has_bit-bit w i = elim (Bool-cases (bit w i == 1)) [
  | inl e ↦ ground (arith, bit_and-pow w i, one-le-pow i 2)
  | inr e ↦ ground (arith, bit_and-pow w i, bit-le-one w i)
]

-- A sequence number is at the baseline or below it, or at place `d` of the window.
pub place : (st : WriterRxState) (s : ℕ) → (s ≤ st.last_seq) ⊎ ((d : ℕ) × (s ≡ st.last_seq + 1 + d))
place st s = elim (Bool-cases (leb s st.last_seq)) [
  | inl e ↦ inl (leb→le s st.last_seq e)
  | inr e ↦ inr (s - st.last_seq - 1, ground arith)
]

pub seen_below : (st : WriterRxState) (s : ℕ) → s ≤ st.last_seq → seen st s ≡ true
unfolding seen
seen_below st s h = ground arith

pub seen_above :
    (st : WriterRxState) (d s : ℕ) → s ≡ st.last_seq + 1 + d → seen st s ≡ (bit st.window d == 1)
unfolding seen
seen_above st d s e =
    let at : s - st.last_seq - 1 ≡ d = omega arith in
    let over : leb s st.last_seq ≡ false = ground arith in rw (over, at)

-- Moving the baseline over the next number, which becomes accounted for.
abbrev pub shift_one : WriterRxState → WriterRxState
shift_one st = record { last_seq = u64 (st.last_seq + 1); window = st.window / 2 }

seen-shift_one_above :
    (st : WriterRxState) (d s : ℕ)
    → IsU64 (st.last_seq + 1)
    → s ≡ st.last_seq + 1 + d
    → seen (shift_one st) s ≡ (seen st s || (s == st.last_seq + 1))
seen-shift_one_above st zero s h e = rw (seen_below (shift_one st) s (omega arith)) (ground arith)
seen-shift_one_above st (suc d) s h e =
    rw (seen_above (shift_one st) d s (omega arith), seen_above st (suc d) s e) (ground arith)

pub seen-shift_one :
    (st : WriterRxState) (s : ℕ)
    → IsU64 (st.last_seq + 1)
    → seen (shift_one st) s ≡ (seen st s || (s == st.last_seq + 1))
seen-shift_one st s h = elim (place st s) [
  | inl p ↦ rw (seen_below (shift_one st) s (omega arith), seen_below st s p)
  | inr (d, e) ↦ seen-shift_one_above st d s h e
]

pub shift_one-IsRx : (st : WriterRxState) → IsU64 (st.last_seq + 1) → IsRx st → IsRx (shift_one st)
shift_one-IsRx st h v = record {
  last_word = omega arith;
  window_word = omega (arith, v.window_word);
  marks = λ i e. omega (arith, v.marks (suc i) e);
}

-- While the loop runs, the number that it moves over is marked, so nothing new is accounted for.
pub seen-slide :
    (fuel : ℕ) (st : WriterRxState) (s : ℕ) → IsRx st → seen (slide fuel st) s ≡ seen st s
unfolding slide
seen-slide zero st s v = refl
seen-slide (suc fuel) st s v = elim (Bool-cases (has_bit st.window 0)) [
  | inl e ↦
      let marked : bit st.window 0 ≡ 1 = ground (arith, has_bit-bit st.window 0) in
      let fits : IsU64 (st.last_seq + 1) = omega (arith, v.marks 0 marked) in
      rw e (
        seen-slide fuel (shift_one st) s (shift_one-IsRx st fits v)
        ∙ seen-shift_one st s fits
        ∙ ground (arith, seen_above st 0 s))
  | inr e ↦ rw e
]

pub slide-IsRx : (fuel : ℕ) (st : WriterRxState) → IsRx st → IsRx (slide fuel st)
unfolding slide
slide-IsRx zero st v = v
slide-IsRx (suc fuel) st v = elim (Bool-cases (has_bit st.window 0)) [
  | inl e ↦
      let marked : bit st.window 0 ≡ 1 = ground (arith, has_bit-bit st.window 0) in
      rw e (slide-IsRx fuel (shift_one st) (shift_one-IsRx st (omega (arith, v.marks 0 marked)) v))
  | inr e ↦ rw e v
]

-- With a round for each bit the loop ends by its own test: the next number is missing.
pub slide_done :
    (fuel : ℕ) (st : WriterRxState)
    → st.window < 2 ^ fuel
    → has_bit (slide fuel st).window 0 ≡ false
unfolding slide
slide_done zero st h = ground (arith, has_bit-bit st.window 0)
slide_done (suc fuel) st h = elim (Bool-cases (has_bit st.window 0)) [
  | inl e ↦ rw e (slide_done fuel (shift_one st) (omega (arith, pow-suc 2 fuel)))
  | inr e ↦ rw e e
]

-- Nothing past the window is accounted for.
pub seen_near : (st : WriterRxState) (s : ℕ) → IsRx st → st.last_seq + 64 < s → seen st s ≡ false
seen_near st s v h =
    rw (seen_above st (s - st.last_seq - 1) s (omega arith))
      (ground (arith, bit-beyond st.window 64 (s - st.last_seq - 1) v.window_word (omega arith)))
