-- ===== src/Wire.antt =====
-- The big-endian words of the wire format: put_u16, put_u32, put_u64 and their readers, which
-- src/frame.cpp and src/qos.cpp each have in an anonymous namespace.
pub mod Words
use mdds.Base.{ℕ, ◌+◌, ◌*◌, ◌/◌, ◌%◌, ◌^◌, ◌<◌, bit_and, bit_or, List, [], ◌∷◌, ◌++◌, get_or, drop}

-- `static_cast<uint8_t>`, and so on.
abbrev pub u8 : ℕ → ℕ
u8 v = v % 2 ^ 8

abbrev pub u16 : ℕ → ℕ
u16 v = v % 2 ^ 16

abbrev pub u32 : ℕ → ℕ
u32 v = v % 2 ^ 32

abbrev pub u64 : ℕ → ℕ
u64 v = v % 2 ^ 64

abbrev pub IsU8 : ℕ → Type 0
IsU8 v = v < 2 ^ 8

abbrev pub IsU16 : ℕ → Type 0
IsU16 v = v < 2 ^ 16

abbrev pub IsU32 : ℕ → Type 0
IsU32 v = v < 2 ^ 32

abbrev pub IsU64 : ℕ → Type 0
IsU64 v = v < 2 ^ 64

-- `in[i]`; every reader is called behind a check that the place is inside the buffer.
abbrev pub byte_at : List ℕ → ℕ → ℕ
byte_at buf i = get_or buf i 0

unfoldable pub put_u16 : ℕ → List ℕ
put_u16 v = u8 (v / 2 ^ 8) ∷ u8 (bit_and v 0xff) ∷ []

unfoldable pub put_u32 : ℕ → List ℕ
put_u32 v =
    u8 (v / 2 ^ 24)
    ∷ u8 (bit_and (v / 2 ^ 16) 0xff)
    ∷ u8 (bit_and (v / 2 ^ 8) 0xff)
    ∷ u8 (bit_and v 0xff)
    ∷ []

unfoldable pub put_u64 : ℕ → List ℕ
put_u64 v = put_u32 (u32 (v / 2 ^ 32)) ++ put_u32 (u32 (bit_and v 0xffff_ffff))

unfoldable pub get_u16 : List ℕ → ℕ
get_u16 buf = u16 (bit_or (byte_at buf 0 * 2 ^ 8) (byte_at buf 1))

unfoldable pub get_u32 : List ℕ → ℕ
get_u32 buf =
    bit_or
      (bit_or (bit_or (byte_at buf 0 * 2 ^ 24) (byte_at buf 1 * 2 ^ 16)) (byte_at buf 2 * 2 ^ 8))
      (byte_at buf 3)

unfoldable pub get_u64 : List ℕ → ℕ
get_u64 buf = bit_or (get_u32 buf * 2 ^ 32) (get_u32 (drop 4 buf))
