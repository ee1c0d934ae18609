-- ===== src/Qos/Codec.antt =====
-- The wire form of a profile: encode_qos and decode_qos of src/qos.cpp.
use mdds.Base.{ℕ, ◌≡◌, some, List, ◌++◌, length, length-append, arith}
use mdds.Wire.{put_u32, put_u64}
use mdds.Wire.Words.{length-put_u32, length-put_u64, get_u32-put_u32, get_u64-put_u64}
use mdds.Qos.{QosProfile, IsProfile, encode_qos, decode_qos}

pub length-encode_qos : (q : QosProfile) → length (encode_qos q) ≡ 32
unfolding encode_qos
length-encode_qos q = omega (
  arith,
  length-append (put_u32 q.depth)
      (put_u64 q.deadline_ms ++ (put_u64 q.lifespan_ms ++ put_u64 q.liveliness_lease_ms)),
  length-append (put_u64 q.deadline_ms) (put_u64 q.lifespan_ms ++ put_u64 q.liveliness_lease_ms),
  length-append (put_u64 q.lifespan_ms) (put_u64 q.liveliness_lease_ms),
  length-put_u32 q.depth,
  length-put_u64 q.deadline_ms,
  length-put_u64 q.lifespan_ms,
  length-put_u64 q.liveliness_lease_ms,
)

-- Whatever follows the 32 bytes, `decode_qos` reads back the profile that `encode_qos` wrote.
pub decode_qos-encode_qos :
    (q : QosProfile) (rest : List ℕ) → IsProfile q → decode_qos (encode_qos q ++ rest) ≡ some q
unfolding decode_qos encode_qos put_u64 put_u32
decode_qos-encode_qos q rest h = ground (
  arith,
  get_u32-put_u32 q.depth
      (put_u64 q.deadline_ms ++ (put_u64 q.lifespan_ms ++ (put_u64 q.liveliness_lease_ms ++ rest)))
      h.depth_word,
  get_u64-put_u64 q.deadline_ms (put_u64 q.lifespan_ms ++ (put_u64 q.liveliness_lease_ms ++ rest))
      h.deadline_word,
  get_u64-put_u64 q.lifespan_ms (put_u64 q.liveliness_lease_ms ++ rest) h.lifespan_word,
  get_u64-put_u64 q.liveliness_lease_ms rest h.lease_word,
)
