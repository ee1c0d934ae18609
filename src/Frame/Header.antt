-- ===== src/Frame/Header.antt =====
-- Reading back a header, and reading fields that lie behind a GUID.
use mdds.Base.{
  ℕ, ◌+◌, ◌≤◌, ◌≡◌, refl, ap, sym, ◌∙◌, Option, some, List, ◌++◌, length, drop, drop-append,
  drop-drop, take-append, arith,
}
use mdds.Wire.{IsU8, IsU16, IsU32, put_u16, put_u32}
use mdds.Wire.Words.{get_u16-put_u16, get_u32-put_u32}
use mdds.Guid.{Guid}
use mdds.Frame.{get_guid, FrameHeader, encode_header, decode_header, header_size, ◌>>=◌}

-- A header is read back from in front of at least `body_len` bytes.
pub decode_header-encode_header :
    (type flags body_len : ℕ) (rest : List ℕ)
    → IsU8 type
    → IsU16 flags
    → IsU32 body_len
    → body_len ≤ length rest
    → decode_header (encode_header type flags body_len ++ rest)
      ≡ some (record { frame_type = type; flags = flags; body_len = body_len })
unfolding encode_header decode_header put_u16 put_u32
decode_header-encode_header type flags body_len rest ht hf hn hr =
    ground
      (arith, get_u16-put_u16 flags (put_u32 body_len ++ rest) hf, get_u32-put_u32 body_len rest hn)

-- What lies behind the header.
pub drop-encode_header :
    (type flags body_len : ℕ) (rest : List ℕ)
    → drop header_size (encode_header type flags body_len ++ rest) ≡ rest
unfolding encode_header put_u16 put_u32
drop-encode_header type flags body_len rest = refl

pub length-encode_header :
    (type flags body_len : ℕ) → length (encode_header type flags body_len) ≡ header_size
unfolding encode_header put_u16 put_u32
length-encode_header type flags body_len = refl

-- A body begins with a GUID, and its other fields lie behind it.
pub get_guid-append :
    (g : Guid) (rest : List ℕ) → length g.bytes ≡ 16 → get_guid (g.bytes ++ rest) ≡ g
get_guid-append g rest h =
    ap (λ (b : List ℕ). let r : Guid = record { bytes = b } in r) (take-append 16 g.bytes rest h)

pub drop-behind_guid :
    (g : Guid) (n : ℕ) (rest : List ℕ)
    → length g.bytes ≡ 16
    → drop (16 + n) (g.bytes ++ rest) ≡ drop n rest
drop-behind_guid g n rest h =
    sym (drop-drop 16 n (g.bytes ++ rest)) ∙ ap (drop n) (drop-append 16 g.bytes rest h)

-- A decoder that gets past its header goes on with the body.
pub header-then :
    {B : Type 0} (decode : FrameHeader → List ℕ → Option B) (type flags body_len : ℕ)
    (body : List ℕ)
    → IsU8 type
    → IsU16 flags
    → IsU32 body_len
    → body_len ≤ length body
    → (decode_header (encode_header type flags body_len ++ body) >>= λ hdr.
        decode hdr (drop header_size (encode_header type flags body_len ++ body)))
      ≡ decode (record { frame_type = type; flags = flags; body_len = body_len }) body
header-then decode type flags body_len body ht hf hn hb = rw (
  decode_header-encode_header type flags body_len body ht hf hn hb,
  drop-encode_header type flags body_len body,
)
