-- ===== src/Guid.antt =====
-- include/mdds/guid.hpp: 16-byte identifiers.
pub mod Identity
use mdds.Base.{
  ℕ, zero, suc, ◌+◌, ◌*◌, ◌/◌, ◌%◌, ◌^◌, ◌<◌, ◌≡◌, refl, ap, ap₂, ◌∙◌, ◌↔◌, inl, inr, bit_and, Bool,
  true, false, not, ◌&&◌, List, [], ◌∷◌, ◌++◌, length, take, take_all, length-append, All,
  All-append, ◌==◌, ltb, ==→eq, eq→==, Bool-cases, if◌then◌else◌, get_or, arith,
}
use mdds.Base.Bits.{bit_and_low}
use mdds.Wire.{u8, IsU8, IsU32}

pub record Guid : Type 0 where
  pub bytes : List ℕ

-- An array of 16 bytes.
abbrev pub IsGuid : Guid → Type 0
IsGuid g = (length g.bytes ≡ 16) × All IsU8 g.bytes

-- `std::array`'s comparison, byte by byte.
unfoldable pub bytes_eq : List ℕ → List ℕ → Bool
bytes_eq [] [] = true
bytes_eq [] (y ∷ ys) = false
bytes_eq (x ∷ xs) [] = false
bytes_eq (x ∷ xs) (y ∷ ys) = x == y && bytes_eq xs ys

unfoldable pub guid_eq : Guid → Guid → Bool
unfolding bytes_eq
guid_eq g h = bytes_eq g.bytes h.bytes

-- std::array's operator<, by the first byte that differs.
unfoldable pub bytes_lt : List ℕ → List ℕ → Bool
bytes_lt [] [] = false
bytes_lt [] (y ∷ ys) = true
bytes_lt (x ∷ xs) [] = false
bytes_lt (x ∷ xs) (y ∷ ys) = if ltb x y then true else if ltb y x then false else bytes_lt xs ys

unfoldable pub guid_lt : Guid → Guid → Bool
unfolding bytes_lt
guid_lt g h = bytes_lt g.bytes h.bytes

pub all_zero : List ℕ → Bool
all_zero [] = true
all_zero (b ∷ bs) = if not (b == 0) then false else all_zero bs

pub is_zero : Guid → Bool
unfolding all_zero
is_zero g = all_zero g.bytes

-- "0123456789abcdef"
abbrev hex : List ℕ
hex =
    b'0' ∷ b'1' ∷ b'2' ∷ b'3' ∷ b'4' ∷ b'5' ∷ b'6' ∷ b'7' ∷ b'8' ∷ b'9' ∷ b'a' ∷ b'b' ∷ b'c' ∷ b'd'
    ∷ b'e' ∷ b'f' ∷ []

hex_bytes : List ℕ → List ℕ
hex_bytes [] = []
hex_bytes (b ∷ bs) = get_or hex (b / 2 ^ 4) 0 ∷ get_or hex (bit_and b 0x0f) 0 ∷ hex_bytes bs

-- The characters of the text, as bytes.
pub to_string : Guid → List ℕ
unfolding hex_bytes
to_string g = hex_bytes g.bytes

pub data EntityKind : Type 0 where
  participant writer reader : EntityKind

pub kind_code : EntityKind → ℕ
kind_code participant = 0
kind_code writer = 1
kind_code reader = 2

-- The prefix is 12 bytes, and `serial` a uint32_t.
pub make_guid : List ℕ → EntityKind → ℕ → Guid
unfolding kind_code
make_guid prefix kind serial = record {
  bytes =
      take 12 prefix
      ++ (u8 (kind_code kind)
          ∷ u8 (bit_and (serial / 2 ^ 16) 0xff)
          ∷ u8 (bit_and (serial / 2 ^ 8) 0xff)
          ∷ u8 (bit_and serial 0xff)
          ∷ []);
}

pub bytes_eq_refl : (xs : List ℕ) → bytes_eq xs xs ≡ true
unfolding bytes_eq
bytes_eq_refl [] = refl
bytes_eq_refl (x ∷ xs) = rw (eq→== x x refl) (bytes_eq_refl xs)

pub bytes_eq→eq : (xs ys : List ℕ) → bytes_eq xs ys ≡ true → xs ≡ ys
unfolding bytes_eq
bytes_eq→eq [] [] h = refl
bytes_eq→eq [] (y ∷ ys) h = cc
bytes_eq→eq (x ∷ xs) [] h = cc
bytes_eq→eq (x ∷ xs) (y ∷ ys) h = ground (arith, bytes_eq→eq xs ys)

pub guid_eq_iff : (g h : Guid) → (guid_eq g h ≡ true) ↔ (g ≡ h)
unfolding guid_eq
guid_eq_iff g h = (
  λ e.
      ap (λ (b : List ℕ). let r : Guid = record { bytes = b } in r) (bytes_eq→eq g.bytes h.bytes e),
  λ e. rw e (bytes_eq_refl h.bytes),
)

pub guid_eq_refl : (g : Guid) → guid_eq g g ≡ true
guid_eq_refl g = (guid_eq_iff g g).1 refl
