-- ===== src/Frame/RoundTrip.antt =====
-- The receiver of a DATA or DATA_FRAG frame reads what the sender wrote.
use mdds.Base.{
  Bool, if◌then◌else◌, ℕ, ◌+◌, ◌≡◌, ap, sym, ◌∙◌, Option, none, some, List, ◌++◌, length, ltb,
  length-append, append_assoc, take_all, arith,
}
use mdds.Wire.{u32, IsU16, IsU32, IsU64}
use mdds.Guid.{Guid}
use mdds.Frame.{
  DataTrailer, data_type, data_frag_type, encode_header, payload_bytes, trailer_bytes,
  empty_trailer, encode_data, data_body, decode_data,
}
use mdds.Frame.Frag.{encode_data_frag, data_frag_body, decode_data_frag}
use mdds.Frame.Header.{header-then}
use mdds.Frame.Trailer.{parsed, carried, IsTrailer, parsed-trailer_bytes}
use mdds.Frame.Bodies.{
  length-data_fields, length-data_frag_fields, data_fields, data_frag_fields, data_body-fields,
  data_frag_body-fields,
}

-- Whatever bytes stand behind the payload inside the body, a DATA frame is accepted and its payload
-- and fixed fields are read back; the bytes behind the body are not looked at.
pub decode_data_any_tail :
    (w : Guid) (seq time flags : ℕ) (payload tail rest : List ℕ)
    → length w.bytes ≡ 16
    → IsU64 seq
    → IsU64 time
    → IsU16 flags
    → IsU32 (36 + length payload + length tail)
    → decode_data (
        encode_header data_type flags (36 + length payload + length tail)
        ++ data_fields w seq time payload (tail ++ rest))
      ≡ some (record {
        writer = w;
        seq = seq;
        pub_time_ms = time;
        payload = payload;
        payload_len = length payload;
        trailer = (parsed tail empty_trailer).0;
      })
unfolding decode_data
decode_data_any_tail w seq time flags payload tail rest hw hs ht hf hn =
    header-then data_body data_type flags (36 + length payload + length tail)
      (data_fields w seq time payload (tail ++ rest)) (omega arith) hf hn
      (omega
        (arith, length-data_fields w seq time payload (tail ++ rest) hw, length-append tail rest))
    ∙ data_body-fields w seq time flags payload tail rest hw hs ht (omega arith)

wrapped : (n : ℕ) → IsU32 n → u32 n ≡ n
wrapped n h = omega arith

-- A DATA frame is read back whole, its trailer included, whatever bytes follow it. The body must be
-- shorter than 2 ^ 32 bytes, and the payload is the buffer that the length names.
pub decode_data-encode_data :
    (w : Guid) (seq time flags : ℕ) (payload : List ℕ) (trailer : Option DataTrailer)
    (rest : List ℕ)
    → length w.bytes ≡ 16
    → IsU64 seq
    → IsU64 time
    → IsU16 flags
    → IsTrailer trailer
    → IsU32 (36 + length payload + length (trailer_bytes trailer))
    → decode_data (encode_data w seq time (some payload) (length payload) flags trailer ++ rest)
      ≡ some (record {
        writer = w;
        seq = seq;
        pub_time_ms = time;
        payload = payload;
        payload_len = length payload;
        trailer = carried trailer;
      })
unfolding encode_data payload_bytes
decode_data-encode_data w seq time flags payload trailer rest hw hs ht hf htr hn =
    rw (wrapped _ hn, take_all (length payload) payload (omega arith))
      (simp append_assoc (
        rw (sym (ap (λ (p : DataTrailer × Bool). p.0) (parsed-trailer_bytes trailer htr))) (
          decode_data_any_tail w seq time flags payload (trailer_bytes trailer) rest hw hs ht hf
            hn)))

-- A DATA_FRAG frame that lies inside its message is read back whole, and one that does not is refused,
-- whatever bytes follow it. The fields are in the range of their types, and the body is shorter than
-- 2 ^ 32 bytes.
pub decode_data_frag-encode_data_frag :
    (w : Guid) (seq time total offset flags : ℕ) (payload : List ℕ) (trailer : Option DataTrailer)
    (rest : List ℕ)
    → length w.bytes ≡ 16
    → IsU64 seq
    → IsU64 time
    → IsU32 total
    → IsU32 offset
    → IsU16 flags
    → IsTrailer trailer
    → IsU32 (44 + length payload + length (trailer_bytes trailer))
    → decode_data_frag (
        encode_data_frag w seq time total offset (some payload) (length payload) flags trailer
        ++ rest)
      ≡ (if ltb total (offset + length payload)
          then none
          else some (record {
            writer = w;
            seq = seq;
            pub_time_ms = time;
            total_size = total;
            frag_offset = offset;
            payload = payload;
            payload_len = length payload;
            trailer = carried trailer;
          }))
unfolding encode_data_frag decode_data_frag payload_bytes
decode_data_frag-encode_data_frag w seq time total offset flags payload trailer rest hw hs ht hto ho
      hf htr hn =
    rw (wrapped _ hn, take_all (length payload) payload (omega arith))
      (simp append_assoc (
        header-then data_frag_body data_frag_type flags (44 + length payload + length tail) body
          (omega arith) hf hn
          (omega (
            arith,
            length-data_frag_fields w seq time total offset payload (tail ++ rest) hw,
            length-append tail rest,
          ))
        ∙ data_frag_body-fields w seq time total offset flags payload tail rest hw hs ht hto ho
            (omega arith)
        ∙ rw (parsed-trailer_bytes trailer htr)))
  where
    tail : List ℕ
    tail = trailer_bytes trailer

    body : List ℕ
    body = data_frag_fields w seq time total offset payload (tail ++ rest)
