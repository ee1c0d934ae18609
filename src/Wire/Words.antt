-- ===== src/Wire/Words.antt =====
-- The readers undo the writers, and every word that is read is in the range of its type.
use mdds.Base.{
  ℕ, ◌+◌, ◌*◌, ◌/◌, ◌%◌, ◌^◌, ◌<◌, ◌≡◌, refl, ap, bit_and, bit_or, List, [], ◌∷◌, ◌++◌, length, All,
  drop, drop-append, All-drop, zero, suc, arith, append_assoc,
}
use mdds.Base.Bits.{bit_and_low, bit_or_fields}
use mdds.Wire.{
  u8, u32, IsU8, IsU16, IsU32, IsU64, byte_at, put_u16, put_u32, put_u64, get_u16, get_u32, get_u64,
}

low_byte : (v : ℕ) → u8 (bit_and v 0xff) ≡ v % 256
low_byte v = omega (arith, bit_and_low 8 v)

join_two : (a b : ℕ) → b < 256 → bit_or (a * 2 ^ 8) b ≡ a * 2 ^ 8 + b
join_two a b h = bit_or_fields 8 a b h

-- Four bytes, the highest first, as one number.
pub join_four :
    (a b c d : ℕ)
    → IsU8 b
    → IsU8 c
    → IsU8 d
    → bit_or (bit_or (bit_or (a * 2 ^ 24) (b * 2 ^ 16)) (c * 2 ^ 8)) d
      ≡ a * 2 ^ 24 + b * 2 ^ 16 + c * 2 ^ 8 + d
join_four a b c d hb hc hd = omega (
  arith,
  bit_or_fields 24 a (b * 2 ^ 16) (omega arith),
  ap (λ (t : ℕ). bit_or (bit_or t (c * 2 ^ 8)) d) (bit_or_fields 24 a (b * 2 ^ 16) (omega arith)),
  ap (λ (t : ℕ). bit_or (bit_or t (c * 2 ^ 8)) d) {x = a * 2 ^ 24 + b * 2 ^ 16}
      {y = (a * 2 ^ 8 + b) * 2 ^ 16} (omega arith),
  ap (λ (t : ℕ). bit_or t d) (bit_or_fields 16 (a * 2 ^ 8 + b) (c * 2 ^ 8) (omega arith)),
  ap (λ (t : ℕ). bit_or t d) {x = (a * 2 ^ 8 + b) * 2 ^ 16 + c * 2 ^ 8}
      {y = (a * 2 ^ 16 + b * 2 ^ 8 + c) * 2 ^ 8} (omega arith),
  bit_or_fields 8 (a * 2 ^ 16 + b * 2 ^ 8 + c) d hd,
)

pub length-put_u16 : (v : ℕ) → length (put_u16 v) ≡ 2
unfolding put_u16
length-put_u16 v = refl

pub length-put_u32 : (v : ℕ) → length (put_u32 v) ≡ 4
unfolding put_u32
length-put_u32 v = refl

pub length-put_u64 : (v : ℕ) → length (put_u64 v) ≡ 8
unfolding put_u64 put_u32
length-put_u64 v = refl

pub get_u16-put_u16 : (v : ℕ) (rest : List ℕ) → IsU16 v → get_u16 (put_u16 v ++ rest) ≡ v
unfolding get_u16 put_u16
get_u16-put_u16 v rest h =
    omega (arith, low_byte v, join_two (u8 (v / 2 ^ 8)) (u8 (bit_and v 0xff)) (omega arith))

pub get_u32-put_u32 : (v : ℕ) (rest : List ℕ) → IsU32 v → get_u32 (put_u32 v ++ rest) ≡ v
unfolding get_u32 put_u32
get_u32-put_u32 v rest h = omega (
  arith,
  low_byte v,
  low_byte (v / 2 ^ 8),
  low_byte (v / 2 ^ 16),
  join_four (u8 (v / 2 ^ 24)) (u8 (bit_and (v / 2 ^ 16) 0xff)) (u8 (bit_and (v / 2 ^ 8) 0xff))
      (u8 (bit_and v 0xff)) (omega arith) (omega arith) (omega arith),
)

pub get_u64-put_u64 : (v : ℕ) (rest : List ℕ) → IsU64 v → get_u64 (put_u64 v ++ rest) ≡ v
unfolding get_u64 put_u64
get_u64-put_u64 v rest h =
    rw (high_word, low_word) (omega (arith, bit_or_fields 32 hi lo (omega arith), bit_and_low 32 v))
  where
    hi : ℕ
    hi = u32 (v / 2 ^ 32)

    lo : ℕ
    lo = u32 (bit_and v 0xffff_ffff)

    high_word : get_u32 ((put_u32 hi ++ put_u32 lo) ++ rest) ≡ hi
    high_word = rw append_assoc (get_u32-put_u32 hi (put_u32 lo ++ rest) (omega arith))

    low_word : get_u32 (drop 4 ((put_u32 hi ++ put_u32 lo) ++ rest)) ≡ lo
    low_word = rw append_assoc (
        rw (drop-append 4 (put_u32 hi) (put_u32 lo ++ rest) (length-put_u32 hi))
          (get_u32-put_u32 lo rest (omega arith)))

byte_at-IsU8 : (buf : List ℕ) (i : ℕ) → All IsU8 buf → IsU8 (byte_at buf i)
byte_at-IsU8 [] i h = omega arith
byte_at-IsU8 (b ∷ bs) zero h = h.0
byte_at-IsU8 (b ∷ bs) (suc i) h = byte_at-IsU8 bs i h.1

pub get_u32-IsU32 : (buf : List ℕ) → All IsU8 buf → IsU32 (get_u32 buf)
unfolding get_u32
get_u32-IsU32 buf h = omega (
  arith,
  byte_at-IsU8 buf 0 h,
  byte_at-IsU8 buf 1 h,
  byte_at-IsU8 buf 2 h,
  byte_at-IsU8 buf 3 h,
  join_four (byte_at buf 0) (byte_at buf 1) (byte_at buf 2) (byte_at buf 3) (byte_at-IsU8 buf 1 h)
      (byte_at-IsU8 buf 2 h) (byte_at-IsU8 buf 3 h),
)

pub get_u64-IsU64 : (buf : List ℕ) → All IsU8 buf → IsU64 (get_u64 buf)
unfolding get_u64
get_u64-IsU64 buf h = omega (
  arith,
  get_u32-IsU32 buf h,
  get_u32-IsU32 (drop 4 buf) (All-drop IsU8 4 buf h),
  bit_or_fields 32 (get_u32 buf) (get_u32 (drop 4 buf))
      (get_u32-IsU32 (drop 4 buf) (All-drop IsU8 4 buf h)),
)
