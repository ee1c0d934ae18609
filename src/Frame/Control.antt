-- ===== src/Frame/Control.antt =====
-- The ACKNACK, HEARTBEAT and GAP frames of src/frame.cpp.
use mdds.Base.{ℕ, not, Option, none, some, List, ◌++◌, drop, ltb, ◌==◌, if◌then◌else◌}
use mdds.Wire.{put_u64, get_u64}
use mdds.Guid.{Guid}
use mdds.Frame.{
  acknack_type, heartbeat_type, gap_type, header_size, acknack_body_size, heartbeat_body_size,
  gap_body_size, FrameHeader, AckNackBody, HeartbeatBody, GapBody, put_guid, get_guid,
  encode_header, decode_header, ◌>>=◌,
}

unfoldable pub encode_acknack : Guid → Guid → ℕ → ℕ → List ℕ
encode_acknack reader writer base_seq bitmap =
    encode_header acknack_type 0 acknack_body_size
    ++ (put_guid reader ++ (put_guid writer ++ (put_u64 base_seq ++ put_u64 bitmap)))

unfoldable pub acknack_body : FrameHeader → List ℕ → Option AckNackBody
acknack_body hdr body =
    if not (hdr.frame_type == acknack_type)
    then none
    else if ltb hdr.body_len acknack_body_size
    then none
    else some (record {
      reader = get_guid body;
      writer = get_guid (drop 16 body);
      base_seq = get_u64 (drop 32 body);
      bitmap = get_u64 (drop 40 body);
    })

unfoldable pub decode_acknack : List ℕ → Option AckNackBody
decode_acknack buf = do hdr ← decode_header buf; acknack_body hdr (drop header_size buf)

unfoldable pub encode_heartbeat : Guid → ℕ → ℕ → List ℕ
encode_heartbeat writer first_seq last_seq =
    encode_header heartbeat_type 0 heartbeat_body_size
    ++ (put_guid writer ++ (put_u64 first_seq ++ put_u64 last_seq))

unfoldable pub heartbeat_body : FrameHeader → List ℕ → Option HeartbeatBody
heartbeat_body hdr body =
    if not (hdr.frame_type == heartbeat_type)
    then none
    else if ltb hdr.body_len heartbeat_body_size
    then none
    else some (record {
      writer = get_guid body;
      first_seq = get_u64 (drop 16 body);
      last_seq = get_u64 (drop 24 body);
    })

unfoldable pub decode_heartbeat : List ℕ → Option HeartbeatBody
decode_heartbeat buf = do hdr ← decode_header buf; heartbeat_body hdr (drop header_size buf)

unfoldable pub encode_gap : Guid → Guid → ℕ → ℕ → List ℕ
encode_gap writer reader gap_start gap_end =
    encode_header gap_type 0 gap_body_size
    ++ (put_guid writer ++ (put_guid reader ++ (put_u64 gap_start ++ put_u64 gap_end)))

unfoldable pub gap_body : FrameHeader → List ℕ → Option GapBody
gap_body hdr body =
    if not (hdr.frame_type == gap_type)
    then none
    else if ltb hdr.body_len gap_body_size
    then none
    else some (record {
      writer = get_guid body;
      reader = get_guid (drop 16 body);
      gap_start = get_u64 (drop 32 body);
      gap_end = get_u64 (drop 40 body);
    })

unfoldable pub decode_gap : List ℕ → Option GapBody
decode_gap buf = do hdr ← decode_header buf; gap_body hdr (drop header_size buf)
