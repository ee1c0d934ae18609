-- ===== src/Discovery.antt =====
-- src/discovery.cpp and include/mdds/discovery.hpp: the ANNOUNCE frame. The buffer of a reader is what
-- lies behind its position, and `none` is the source's `false`.
pub mod RoundTrip
use mdds.Base.{
  ℕ, zero, suc, ◌+◌, ◌*◌, ◌/◌, ◌^◌, bit_and, bit_or, not, Option, none, some, List, [], ◌∷◌, ◌++◌,
  length, take, drop, ltb, ◌==◌, if◌then◌else◌,
}
use mdds.Wire.{u8, u16, u32, u64, byte_at}
use mdds.Guid.{Guid}
use mdds.Qos.{QosProfile, encode_qos, decode_qos}
use mdds.Frame.{
  FrameHeader, announce_type, header_size, put_guid, encode_header, decode_header, ◌>>=◌,
}

-- Texts are lists of bytes.
pub record NodeInfo : Type 0 where
  pub ns : List ℕ
  pub name : List ℕ

-- `kind` is the number of an EntityKind: the decoder casts any byte.
pub record EndpointRecord : Type 0 where
  pub guid : Guid
  pub kind : ℕ
  pub topic : List ℕ
  pub type_name : List ℕ
  pub qos : QosProfile
  pub birth_us : ℕ

pub record ParticipantSnapshot : Type 0 where
  pub participant_guid : Guid
  pub nodes : List NodeInfo
  pub endpoints : List EndpointRecord

-- put_u16, put_u64 and put_string of src/discovery.cpp, as what they append.
unfoldable pub append_u16 : ℕ → List ℕ
append_u16 v = u8 (v / 2 ^ 8) ∷ u8 (bit_and v 0xff) ∷ []

-- The rounds of the loop for `i` below `n`.
unfoldable pub append_bytes : ℕ → ℕ → List ℕ
append_bytes zero v = []
append_bytes (suc i) v = u8 (bit_and (v / 2 ^ (i * 8)) 0xff) ∷ append_bytes i v

unfoldable pub append_u64 : ℕ → List ℕ
append_u64 v = append_bytes 8 v

unfoldable pub append_string : List ℕ → List ℕ
append_string s = append_u16 (u16 (length s)) ++ s

unfoldable pub read_u16 : List ℕ → Option (ℕ × List ℕ)
read_u16 buf =
    if ltb (length buf) 2
    then none
    else some (u16 (bit_or (byte_at buf 0 * 2 ^ 8) (byte_at buf 1)), drop 2 buf)

-- `n` rounds of `v = (v << 8) | buf_[pos_++]`
unfoldable pub shift_in : ℕ → ℕ → List ℕ → ℕ
shift_in zero v buf = v
shift_in (suc n) v buf = shift_in n (bit_or (u64 (v * 2 ^ 8)) (byte_at buf 0)) (drop 1 buf)

unfoldable pub read_u64 : List ℕ → Option (ℕ × List ℕ)
read_u64 buf = if ltb (length buf) 8 then none else some (shift_in 8 0 buf, drop 8 buf)

unfoldable pub read_bytes : ℕ → List ℕ → Option (List ℕ × List ℕ)
read_bytes n buf = if ltb (length buf) n then none else some (take n buf, drop n buf)

unfoldable pub read_string : List ℕ → Option (List ℕ × List ℕ)
read_string buf = do n ← read_u16 buf; read_bytes n.0 n.1

unfoldable pub node_bytes : List NodeInfo → List ℕ
node_bytes [] = []
node_bytes (n ∷ rest) = append_string n.ns ++ (append_string n.name ++ node_bytes rest)

unfoldable pub endpoint_bytes : List EndpointRecord → List ℕ
endpoint_bytes [] = []
endpoint_bytes (e ∷ rest) =
    put_guid e.guid
    ++ (u8 e.kind
        ∷ (append_string e.topic
            ++ (append_string e.type_name
                ++ (encode_qos e.qos ++ (append_u64 e.birth_us ++ endpoint_bytes rest)))))

unfoldable pub announce_body : ParticipantSnapshot → ℕ → List ℕ
announce_body snap announce_seq =
    put_guid snap.participant_guid
    ++ (append_u64 announce_seq
        ++ (append_u16 (u16 (length snap.nodes))
            ++ (node_bytes snap.nodes
                ++ (append_u16 (u16 (length snap.endpoints)) ++ endpoint_bytes snap.endpoints))))

unfoldable pub encode_announce : ParticipantSnapshot → ℕ → List ℕ
encode_announce snap announce_seq =
    encode_header announce_type 0 (u32 (length (announce_body snap announce_seq)))
    ++ announce_body snap announce_seq

unfoldable pub read_nodes : ℕ → List ℕ → Option (List NodeInfo × List ℕ)
read_nodes zero buf = some ([], buf)
read_nodes (suc count) buf = do
  ns ← read_string buf
  name ← read_string ns.1
  rest ← read_nodes count name.1
  some (record { ns = ns.0; name = name.0 } ∷ rest.0, rest.1)

unfoldable pub read_endpoint : List ℕ → Option (EndpointRecord × List ℕ)
read_endpoint buf = do
  guid ← read_bytes 16 buf
  kind ← read_bytes 1 guid.1
  topic ← read_string kind.1
  type_name ← read_string topic.1
  qos_buf ← read_bytes 32 type_name.1
  qos ← decode_qos qos_buf.0
  birth ← read_u64 qos_buf.1
  some (
    record {
      guid = record { bytes = guid.0 };
      kind = byte_at kind.0 0;
      topic = topic.0;
      type_name = type_name.0;
      qos = qos;
      birth_us = birth.0;
    },
    birth.1,
  )

unfoldable pub read_endpoints : ℕ → List ℕ → Option (List EndpointRecord × List ℕ)
read_endpoints zero buf = some ([], buf)
read_endpoints (suc count) buf = do
  e ← read_endpoint buf
  rest ← read_endpoints count e.1
  some (e.0 ∷ rest.0, rest.1)

unfoldable pub read_announce : List ℕ → Option (ParticipantSnapshot × ℕ)
read_announce buf = do
  guid ← read_bytes 16 buf
  seq ← read_u64 guid.1
  node_count ← read_u16 seq.1
  nodes ← read_nodes node_count.0 node_count.1
  ep_count ← read_u16 nodes.1
  endpoints ← read_endpoints ep_count.0 ep_count.1
  some (
    record {
      participant_guid = record { bytes = guid.0 };
      nodes = nodes.0;
      endpoints = endpoints.0;
    },
    seq.0,
  )

unfoldable pub announce_of : FrameHeader → List ℕ → Option (ParticipantSnapshot × ℕ)
announce_of hdr body =
    if not (hdr.frame_type == announce_type) then none else read_announce (take hdr.body_len body)

unfoldable pub decode_announce : List ℕ → Option (ParticipantSnapshot × ℕ)
decode_announce buf = do hdr ← decode_header buf; announce_of hdr (drop header_size buf)
