-- ===== src/Frame.antt =====
-- src/frame.cpp and include/mdds/frame.hpp: the frame header, the five fixed frame types and the TLV
-- trailer. A buffer is the list of its bytes, and a null buffer is the empty list. A decoder's `none`
-- is the source's `false`.
pub mod Frag
pub mod Control
pub mod Header
pub mod Trailer
pub mod Bodies
pub mod RoundTrip
pub mod ControlRoundTrip
use mdds.Base.{
  ℕ, zero, suc, ◌+◌, ◌-◌, ◌≡◌, Bool, true, false, not, ◌&&◌, ◌||◌, Option, none, some, List, [],
  ◌∷◌, ◌++◌, length, take, drop, replicate, ltb, ◌==◌, if◌then◌else◌,
}
use mdds.Wire.{u8, u32, byte_at, put_u16, put_u32, put_u64, get_u16, get_u32, get_u64}
use mdds.Guid.{Guid}

-- `static_cast<FrameType>` takes any byte, so a frame type is its number.
abbrev pub data_type : ℕ
data_type = 1

abbrev pub data_frag_type : ℕ
data_frag_type = 2

abbrev pub acknack_type : ℕ
acknack_type = 3

abbrev pub heartbeat_type : ℕ
heartbeat_type = 4

abbrev pub announce_type : ℕ
announce_type = 5

abbrev pub gap_type : ℕ
gap_type = 6

abbrev pub protocol_version : ℕ
protocol_version = 4

abbrev pub flag_reliable : ℕ
flag_reliable = 1

abbrev pub header_size : ℕ
header_size = 12

abbrev pub data_body_fixed_size : ℕ
data_body_fixed_size = 36

abbrev pub data_frag_body_fixed_size : ℕ
data_frag_body_fixed_size = 44

abbrev pub acknack_body_size : ℕ
acknack_body_size = 48

abbrev pub heartbeat_body_size : ℕ
heartbeat_body_size = 32

abbrev pub gap_body_size : ℕ
gap_body_size = 48

abbrev pub tlv_origin_guid : ℕ
tlv_origin_guid = 1

abbrev pub tlv_origin_seq : ℕ
tlv_origin_seq = 2

pub record DataTrailer : Type 0 where
  pub has_origin : Bool
  pub origin_guid : Guid
  pub origin_seq : ℕ

abbrev pub empty_trailer : DataTrailer
empty_trailer = record {
  has_origin = false;
  origin_guid = record { bytes = replicate 16 0 };
  origin_seq = 0;
}

pub record FrameHeader : Type 0 where
  pub frame_type : ℕ
  pub flags : ℕ
  pub body_len : ℕ

pub record DataBody : Type 0 where
  pub writer : Guid
  pub seq : ℕ
  pub pub_time_ms : ℕ
  pub payload : List ℕ
  pub payload_len : ℕ
  pub trailer : DataTrailer

pub record DataFragBody : Type 0 where
  pub writer : Guid
  pub seq : ℕ
  pub pub_time_ms : ℕ
  pub total_size : ℕ
  pub frag_offset : ℕ
  pub payload : List ℕ
  pub payload_len : ℕ
  pub trailer : DataTrailer

pub record AckNackBody : Type 0 where
  pub reader : Guid
  pub writer : Guid
  pub base_seq : ℕ
  pub bitmap : ℕ

pub record HeartbeatBody : Type 0 where
  pub writer : Guid
  pub first_seq : ℕ
  pub last_seq : ℕ

pub record GapBody : Type 0 where
  pub writer : Guid
  pub reader : Guid
  pub gap_start : ℕ
  pub gap_end : ℕ

-- memcpy of the 16 bytes, both ways.
abbrev pub put_guid : Guid → List ℕ
put_guid g = g.bytes

abbrev pub get_guid : List ℕ → Guid
get_guid buf = record { bytes = take 16 buf }

-- The `switch` of `parse_trailer` on one whole entry.
unfoldable pub parse_entry : ℕ → ℕ → List ℕ → DataTrailer → DataTrailer
parse_entry type tlen value out =
    if type == tlv_origin_guid
    then (if tlen == 16
        then record out { origin_guid = get_guid value; has_origin = true }
        else out)
    else if type == tlv_origin_seq
    then (if tlen == 8 then record out { origin_seq = get_u64 value } else out)
    else out

-- The list is what lies behind `pos`. The fuel is the number of rounds allowed: a round takes two
-- bytes at least.
unfoldable pub parse_trailer : ℕ → List ℕ → DataTrailer → DataTrailer × Bool
parse_trailer zero buf out = (out, false)
parse_trailer (suc fuel) [] out = (out, true)
parse_trailer (suc fuel) (type ∷ []) out = (out, false)
parse_trailer (suc fuel) (type ∷ tlen ∷ value) out =
    let rest = parse_trailer fuel (drop tlen value) (parse_entry type tlen value out) in
    if ltb (length value) tlen then (out, false) else rest

unfoldable pub encode_header : ℕ → ℕ → ℕ → List ℕ
encode_header type flags body_len =
    b'M' ∷ b'D' ∷ b'D' ∷ b'S' ∷ protocol_version ∷ u8 type ∷ (put_u16 flags ++ put_u32 body_len)

unfoldable pub decode_header : List ℕ → Option FrameHeader
decode_header buf =
    if ltb (length buf) header_size
    then none
    else if not (byte_at buf 0 == b'M')
        || (not (byte_at buf 1 == b'D')
            || (not (byte_at buf 2 == b'D') || not (byte_at buf 3 == b'S')))
    then none
    else if not (byte_at buf 4 == protocol_version)
    then none
    else if ltb (length buf - header_size) (get_u32 (drop 8 buf))
    then none
    else some (record {
      frame_type = byte_at buf 5;
      flags = get_u16 (drop 6 buf);
      body_len = get_u32 (drop 8 buf);
    })

unfoldable pub encode_trailer : DataTrailer → List ℕ
encode_trailer trailer =
    if not trailer.has_origin
    then []
    else tlv_origin_guid
      ∷ 16
      ∷ (put_guid trailer.origin_guid ++ (tlv_origin_seq ∷ 8 ∷ put_u64 trailer.origin_seq))

-- A null trailer gives no bytes.
unfoldable pub trailer_bytes : Option DataTrailer → List ℕ
trailer_bytes none = []
trailer_bytes (some trailer) = encode_trailer trailer

-- The payload's place in a zeroed buffer, after the memcpy that a null pointer skips.
unfoldable pub payload_bytes : Option (List ℕ) → ℕ → List ℕ
payload_bytes none len = replicate len 0
payload_bytes (some payload) len = take len payload

unfoldable pub encode_data : Guid → ℕ → ℕ → Option (List ℕ) → ℕ → ℕ → Option DataTrailer → List ℕ
encode_data writer seq pub_time_ms payload payload_len flags trailer =
    let tail = trailer_bytes trailer in
    encode_header data_type flags (u32 (data_body_fixed_size + payload_len + length tail))
    ++ (put_guid writer
        ++ (put_u64 seq
            ++ (put_u64 pub_time_ms
                ++ (put_u32 payload_len ++ (payload_bytes payload payload_len ++ tail)))))

-- `out.trailer` of both data decoders: what follows the payload inside the body.
unfoldable pub body_trailer : List ℕ → ℕ → ℕ → DataTrailer
body_trailer body body_len tail_off =
    let tail = take (body_len - tail_off) (drop tail_off body) in
    if ltb tail_off body_len
    then (parse_trailer (suc (length tail)) tail empty_trailer).0
    else empty_trailer

unfoldable pub data_body : FrameHeader → List ℕ → Option DataBody
data_body hdr body =
    let payload_len = get_u32 (drop 32 body) in
    if not (hdr.frame_type == data_type)
    then none
    else if ltb hdr.body_len data_body_fixed_size
    then none
    else if ltb (hdr.body_len - data_body_fixed_size) payload_len
    then none
    else some (record {
      writer = get_guid body;
      seq = get_u64 (drop 16 body);
      pub_time_ms = get_u64 (drop 24 body);
      payload = take payload_len (drop data_body_fixed_size body);
      payload_len = payload_len;
      trailer = body_trailer body hdr.body_len (data_body_fixed_size + payload_len);
    })

infixl 5 ◌>>=◌
abbrev pub ◌>>=◌ : {A B : Type 0} → Option A → (A → Option B) → Option B
none >>= f = none
some a >>= f = f a

unfoldable pub decode_data : List ℕ → Option DataBody
decode_data buf = do hdr ← decode_header buf; data_body hdr (drop header_size buf)
