-- ===== src/Guid/Identity.antt =====
-- What identifies an endpoint: the GUIDs of include/mdds/guid.hpp, injective up to the serial's width.
use mdds.Base.{
  ℕ, ◌/◌, ◌%◌, ◌^◌, ◌≤◌, ◌≡◌, refl, ap, ap₂, ◌↔◌, bit_and, List, [], ◌∷◌, ◌++◌, length, take,
  take_all, length-append, All, All-append, arith,
}
use mdds.Base.Bits.{bit_and_low}
use mdds.Wire.{u8, IsU8}
use mdds.Guid.{Guid, IsGuid, EntityKind, kind_code, make_guid}

kind_code-injective : (k l : EntityKind) → kind_code k ≡ kind_code l → k ≡ l
unfolding kind_code
kind_code-injective k l h = ground arith

append-injective :
    (xs ys us vs : List ℕ) → length xs ≡ length ys → xs ++ us ≡ ys ++ vs → (xs ≡ ys) × (us ≡ vs)
append-injective [] [] us vs n e = (refl, e)
append-injective [] (y ∷ ys) us vs n e = absurd (omega arith)
append-injective (x ∷ xs) [] us vs n e = absurd (omega arith)
append-injective (x ∷ xs) (y ∷ ys) us vs n e =
    let (p, q) = append-injective xs ys us vs (omega arith) (cc) in (cc, q)

-- The four bytes behind the prefix.
abbrev tail_bytes : EntityKind → ℕ → List ℕ
tail_bytes kind serial =
    u8 (kind_code kind)
    ∷ u8 (bit_and (serial / 2 ^ 16) 0xff)
    ∷ u8 (bit_and (serial / 2 ^ 8) 0xff)
    ∷ u8 (bit_and serial 0xff)
    ∷ []

kind_code-le : (k : EntityKind) → kind_code k ≤ 2
unfolding kind_code
kind_code-le k = ground arith

low_byte : (v : ℕ) → u8 (bit_and v 0xff) ≡ v % 256
low_byte v = omega (arith, bit_and_low 8 v)

tail_bytes-injective :
    (k l : EntityKind) (s t : ℕ)
    → tail_bytes k s ≡ tail_bytes l t
    → (k ≡ l) × (s % 2 ^ 24 ≡ t % 2 ^ 24)
tail_bytes-injective k l s t e =
    let a : u8 (kind_code k) ≡ u8 (kind_code l) = cc in
    let b : u8 (bit_and (s / 2 ^ 16) 0xff) ≡ u8 (bit_and (t / 2 ^ 16) 0xff) = cc in
    let c : u8 (bit_and (s / 2 ^ 8) 0xff) ≡ u8 (bit_and (t / 2 ^ 8) 0xff) = cc in
    let d : u8 (bit_and s 0xff) ≡ u8 (bit_and t 0xff) = cc in
    (
      kind_code-injective k l (omega (arith, kind_code-le k, kind_code-le l, a)),
      omega (
        arith,
        low_byte (s / 2 ^ 16),
        low_byte (t / 2 ^ 16),
        low_byte (s / 2 ^ 8),
        low_byte (t / 2 ^ 8),
        low_byte s,
        low_byte t,
        b,
        c,
        d,
      ),
    )

tail_bytes_eq :
    (k l : EntityKind) (s t : ℕ) → k ≡ l → s % 2 ^ 24 ≡ t % 2 ^ 24 → tail_bytes k s ≡ tail_bytes l t
tail_bytes_eq k l s t e h =
    let b : bit_and (s / 2 ^ 16) 0xff ≡ bit_and (t / 2 ^ 16) 0xff =
      omega (arith, bit_and_low 8 (s / 2 ^ 16), bit_and_low 8 (t / 2 ^ 16)) in
    let c : bit_and (s / 2 ^ 8) 0xff ≡ bit_and (t / 2 ^ 8) 0xff =
      omega (arith, bit_and_low 8 (s / 2 ^ 8), bit_and_low 8 (t / 2 ^ 8)) in
    let d : bit_and s 0xff ≡ bit_and t 0xff = omega (arith, bit_and_low 8 s, bit_and_low 8 t) in
    rw (e, b, c, d)

-- A GUID is 16 bytes.
pub make_guid-IsGuid :
    (prefix : List ℕ) (kind : EntityKind) (serial : ℕ)
    → length prefix ≡ 12
    → All IsU8 prefix
    → IsGuid (make_guid prefix kind serial)
unfolding make_guid
make_guid-IsGuid prefix kind serial n h = rw (take_all 12 prefix (omega arith)) (
  omega (arith, length-append prefix (tail_bytes kind serial)),
  All-append IsU8 prefix (tail_bytes kind serial) h (omega arith),
)

-- Two GUIDs made from prefixes of 12 bytes agree exactly when the prefixes and the kinds agree and
-- the serial numbers agree in their low 24 bits.
pub make_guid_eq_iff :
    (p q : List ℕ) (k l : EntityKind) (s t : ℕ)
    → length p ≡ 12
    → length q ≡ 12
    → (make_guid p k s ≡ make_guid q l t) ↔ ((p ≡ q) × (k ≡ l) × (s % 2 ^ 24 ≡ t % 2 ^ 24))
unfolding make_guid
make_guid_eq_iff p q k l s t hp hq = (
  λ e. parts e,
  λ h.
      ap₂ (λ (pre post : List ℕ). let g : Guid = record { bytes = pre ++ post } in g)
        (ap (take 12) h.0) (same_tail h.1 h.2),
)
  where
    parts : make_guid p k s ≡ make_guid q l t → (p ≡ q) × (k ≡ l) × (s % 2 ^ 24 ≡ t % 2 ^ 24)
    parts e =
        let e' : take 12 p ++ tail_bytes k s ≡ take 12 q ++ tail_bytes l t =
          ap (λ (g : Guid). g.bytes) e in
        let (front, back) =
          append-injective p q (tail_bytes k s) (tail_bytes l t) (omega arith)
            (rw (take_all 12 p (omega arith), take_all 12 q (omega arith)) at e') in
        let (kinds, serials) = tail_bytes-injective k l s t back in (front, kinds, serials)

    same_tail : k ≡ l → s % 2 ^ 24 ≡ t % 2 ^ 24 → tail_bytes k s ≡ tail_bytes l t
    same_tail = tail_bytes_eq k l s t
