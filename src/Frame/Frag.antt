-- ===== src/Frame/Frag.antt =====
-- The DATA_FRAG frame of src/frame.cpp.
use mdds.Base.{
  ℕ, ◌+◌, ◌-◌, not, Option, none, some, List, ◌++◌, length, take, drop, ltb, ◌==◌, if◌then◌else◌,
}
use mdds.Wire.{u32, put_u32, put_u64, get_u32, get_u64}
use mdds.Guid.{Guid}
use mdds.Frame.{
  data_frag_type, header_size, data_frag_body_fixed_size, DataTrailer, FrameHeader, DataFragBody,
  put_guid, get_guid, encode_header, decode_header, trailer_bytes, payload_bytes, body_trailer,
  ◌>>=◌,
}

unfoldable pub encode_data_frag :
    Guid → ℕ → ℕ → ℕ → ℕ → Option (List ℕ) → ℕ → ℕ → Option DataTrailer → List ℕ
encode_data_frag writer seq pub_time_ms total_size frag_offset payload payload_len flags trailer =
    let tail = trailer_bytes trailer in
    encode_header data_frag_type flags (u32 (data_frag_body_fixed_size + payload_len + length tail))
    ++ (put_guid writer
        ++ (put_u64 seq
            ++ (put_u64 pub_time_ms
                ++ (put_u32 total_size
                    ++ (put_u32 frag_offset
                        ++ (put_u32 payload_len ++ (payload_bytes payload payload_len ++ tail)))))))

-- The last check is in 64 bits, so the sum does not wrap.
unfoldable pub data_frag_body : FrameHeader → List ℕ → Option DataFragBody
data_frag_body hdr body =
    let payload_len = get_u32 (drop 40 body) in
    if not (hdr.frame_type == data_frag_type)
    then none
    else if ltb hdr.body_len data_frag_body_fixed_size
    then none
    else if ltb (hdr.body_len - data_frag_body_fixed_size) payload_len
    then none
    else if ltb (get_u32 (drop 32 body)) (get_u32 (drop 36 body) + payload_len)
    then none
    else some (record {
      writer = get_guid body;
      seq = get_u64 (drop 16 body);
      pub_time_ms = get_u64 (drop 24 body);
      total_size = get_u32 (drop 32 body);
      frag_offset = get_u32 (drop 36 body);
      payload = take payload_len (drop data_frag_body_fixed_size body);
      payload_len = payload_len;
      trailer = body_trailer body hdr.body_len (data_frag_body_fixed_size + payload_len);
    })

unfoldable pub decode_data_frag : List ℕ → Option DataFragBody
decode_data_frag buf = do hdr ← decode_header buf; data_frag_body hdr (drop header_size buf)
