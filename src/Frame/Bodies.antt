-- ===== src/Frame/Bodies.antt =====
-- The bodies of a DATA and of a DATA_FRAG frame, field by field.
use mdds.Base.{
  drop-drop, if◌then◌else◌, ℕ, ◌+◌, ◌≡◌, refl, ap, sym, ◌∙◌, none, some, List, ◌++◌, length, drop,
  ltb, length-append, take-append, arith,
}
use mdds.Wire.{IsU32, IsU64, put_u64, put_u32, get_u64, get_u32}
use mdds.Wire.Words.{get_u64-put_u64, get_u32-put_u32, length-put_u64, length-put_u32}
use mdds.Guid.{Guid}
use mdds.Frame.{data_type, data_frag_type, empty_trailer, data_body}
use mdds.Frame.Frag.{data_frag_body}
use mdds.Frame.Header.{get_guid-append, drop-behind_guid}
use mdds.Frame.Trailer.{parsed, body_trailer-tail}

-- Both bodies begin with the writer, the sequence number and the publication time.
abbrev stamped : Guid → ℕ → ℕ → List ℕ → List ℕ
stamped w seq time more = w.bytes ++ (put_u64 seq ++ (put_u64 time ++ more))

module _ (w : Guid) (seq time : ℕ) (more : List ℕ) (hw : length w.bytes ≡ 16) where
  length-stamped : length (stamped w seq time more) ≡ 32 + length more
  length-stamped = omega (
    arith,
    length-append w.bytes (put_u64 seq ++ (put_u64 time ++ more)),
    length-append (put_u64 seq) (put_u64 time ++ more),
    length-append (put_u64 time) more,
    length-put_u64 seq,
    length-put_u64 time,
  )

  seq_field : IsU64 seq → get_u64 (drop 16 (stamped w seq time more)) ≡ seq
  seq_field h = rw (drop-behind_guid w 0 _ hw) (get_u64-put_u64 seq _ h)

  time_field : IsU64 time → get_u64 (drop 24 (stamped w seq time more)) ≡ time
  unfolding put_u64 put_u32
  time_field h =
      rw (drop-behind_guid w 8 (put_u64 seq ++ (put_u64 time ++ more)) hw)
        (get_u64-put_u64 time more h)

  behind_stamp : (n : ℕ) → drop (32 + n) (stamped w seq time more) ≡ drop n more
  unfolding put_u64 put_u32
  behind_stamp n =
      sym (drop-drop 32 n (stamped w seq time more))
      ∙ ap (drop n) (drop-behind_guid w 16 (put_u64 seq ++ (put_u64 time ++ more)) hw)

-- The bodies, with any bytes behind the payload.
abbrev pub data_fields : Guid → ℕ → ℕ → List ℕ → List ℕ → List ℕ
data_fields w seq time payload more =
    stamped w seq time (put_u32 (length payload) ++ (payload ++ more))

abbrev pub data_frag_fields : Guid → ℕ → ℕ → ℕ → ℕ → List ℕ → List ℕ → List ℕ
data_frag_fields w seq time total offset payload more =
    stamped w seq time
      (put_u32 total ++ (put_u32 offset ++ (put_u32 (length payload) ++ (payload ++ more))))

module _ (w : Guid) (seq time : ℕ) (payload more : List ℕ) (hw : length w.bytes ≡ 16) where
  pub length-data_fields :
      length (data_fields w seq time payload more) ≡ 36 + length payload + length more
  length-data_fields = omega (
    arith,
    length-stamped w seq time (put_u32 (length payload) ++ (payload ++ more)) hw,
    length-append (put_u32 (length payload)) (payload ++ more),
    length-append payload more,
    length-put_u32 (length payload),
  )

  len_field :
      IsU32 (length payload)
      → get_u32 (drop 32 (data_fields w seq time payload more)) ≡ length payload
  len_field h = rw (behind_stamp w seq time _ hw 0) (get_u32-put_u32 (length payload) _ h)

  payload_field : drop 36 (data_fields w seq time payload more) ≡ payload ++ more
  unfolding put_u32
  payload_field = behind_stamp w seq time (put_u32 (length payload) ++ (payload ++ more)) hw 4

module _ (w : Guid) (seq time total offset : ℕ) (payload more : List ℕ)
    (hw : length w.bytes ≡ 16) where
  behind_offset : List ℕ
  behind_offset = put_u32 (length payload) ++ (payload ++ more)

  pub length-data_frag_fields :
      length (data_frag_fields w seq time total offset payload more)
      ≡ 44 + length payload + length more
  unfolding behind_offset
  length-data_frag_fields = omega (
    arith,
    length-stamped w seq time (put_u32 total ++ (put_u32 offset ++ behind_offset)) hw,
    length-append (put_u32 total) (put_u32 offset ++ behind_offset),
    length-append (put_u32 offset) behind_offset,
    length-append (put_u32 (length payload)) (payload ++ more),
    length-append payload more,
    length-put_u32 total,
    length-put_u32 offset,
    length-put_u32 (length payload),
  )

  total_field :
      IsU32 total
      → get_u32 (drop 32 (data_frag_fields w seq time total offset payload more)) ≡ total
  total_field h = rw (behind_stamp w seq time _ hw 0) (get_u32-put_u32 total _ h)

  offset_field :
      IsU32 offset
      → get_u32 (drop 36 (data_frag_fields w seq time total offset payload more)) ≡ offset
  unfolding put_u32 behind_offset
  offset_field h =
      rw (behind_stamp w seq time (put_u32 total ++ (put_u32 offset ++ behind_offset)) hw 4)
        (get_u32-put_u32 offset behind_offset h)

  frag_len_field :
      IsU32 (length payload)
      → get_u32 (drop 40 (data_frag_fields w seq time total offset payload more)) ≡ length payload
  unfolding put_u32 behind_offset
  frag_len_field h =
      rw (behind_stamp w seq time (put_u32 total ++ (put_u32 offset ++ behind_offset)) hw 8)
        (get_u32-put_u32 (length payload) (payload ++ more) h)

  frag_payload_field :
      drop 44 (data_frag_fields w seq time total offset payload more) ≡ payload ++ more
  unfolding put_u32 behind_offset
  frag_payload_field =
      behind_stamp w seq time (put_u32 total ++ (put_u32 offset ++ behind_offset)) hw 12

-- A DATA body is read back whatever the tail is: a malformed trailer costs no payload.
pub data_body-fields :
    (w : Guid) (seq time flags : ℕ) (payload tail rest : List ℕ)
    → length w.bytes ≡ 16
    → IsU64 seq
    → IsU64 time
    → IsU32 (length payload)
    → data_body
        (record {
          frame_type = data_type;
          flags = flags;
          body_len = 36 + length payload + length tail;
        })
        (data_fields w seq time payload (tail ++ rest))
      ≡ some (record {
        writer = w;
        seq = seq;
        pub_time_ms = time;
        payload = payload;
        payload_len = length payload;
        trailer = (parsed tail empty_trailer).0;
      })
unfolding data_body
data_body-fields w seq time flags payload tail rest hw hs ht hp =
    rw
      (
        len_field w seq time payload (tail ++ rest) hw hp,
        get_guid-append w _ hw,
        seq_field w seq time _ hw hs,
        time_field w seq time _ hw ht,
        body_trailer-tail 36 (length payload) (data_fields w seq time payload (tail ++ rest))
            payload tail rest (payload_field w seq time payload (tail ++ rest) hw) refl,
        payload_field w seq time payload (tail ++ rest) hw,
        take-append (length payload) payload (tail ++ rest) refl,
      )
      (ground arith)

pub data_frag_body-fields :
    (w : Guid) (seq time total offset flags : ℕ) (payload tail rest : List ℕ)
    → length w.bytes ≡ 16
    → IsU64 seq
    → IsU64 time
    → IsU32 total
    → IsU32 offset
    → IsU32 (length payload)
    → data_frag_body
        (record {
          frame_type = data_frag_type;
          flags = flags;
          body_len = 44 + length payload + length tail;
        })
        (data_frag_fields w seq time total offset payload (tail ++ rest))
      ≡ (if ltb total (offset + length payload)
          then none
          else some (record {
            writer = w;
            seq = seq;
            pub_time_ms = time;
            total_size = total;
            frag_offset = offset;
            payload = payload;
            payload_len = length payload;
            trailer = (parsed tail empty_trailer).0;
          }))
unfolding data_frag_body
data_frag_body-fields w seq time total offset flags payload tail rest hw hs ht hto ho hp =
    rw
      (
        frag_len_field w seq time total offset payload (tail ++ rest) hw hp,
        total_field w seq time total offset payload (tail ++ rest) hw hto,
        offset_field w seq time total offset payload (tail ++ rest) hw ho,
        get_guid-append w _ hw,
        seq_field w seq time _ hw hs,
        time_field w seq time _ hw ht,
        body_trailer-tail 44 (length payload)
            (data_frag_fields w seq time total offset payload (tail ++ rest)) payload tail rest
            (frag_payload_field w seq time total offset payload (tail ++ rest) hw) refl,
        frag_payload_field w seq time total offset payload (tail ++ rest) hw,
        take-append (length payload) payload (tail ++ rest) refl,
      )
      (ground arith)
