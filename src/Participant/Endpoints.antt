-- ===== src/Participant/Endpoints.antt =====
-- The endpoints of a participant: its own and those it has discovered, and which of them match.
use mdds.Base.{
  ℕ, ◌+◌, Bool, true, false, not, ◌&&◌, Option, none, some, List, [], ◌∷◌, ◌++◌, map, count, ltb,
  ◌==◌, if◌then◌else◌,
}
use mdds.Wire.{u32}
use mdds.Guid.{Guid, EntityKind, guid_eq, bytes_eq, make_guid}
use mdds.Qos.{QosProfile, qos_valid, qos_compatible, qos_accepted_by_reader}
use mdds.Discovery.{NodeInfo, EndpointRecord, ParticipantSnapshot}
use mdds.Reader.{Reader}
use mdds.Writer.{Writer}
use mdds.OrderedMap.{put, erase, insert_id}
use mdds.Participant.{Participant, RemoteParticipant, Output, announce_wanted}

abbrev pub writer_kind : ℕ
writer_kind = 1

abbrev pub reader_kind : ℕ
reader_kind = 2

unfoldable pub endpoints_match : List ℕ → List ℕ → QosProfile → EndpointRecord → Bool
endpoints_match reader_topic reader_type reader_qos writer_ep =
    bytes_eq writer_ep.topic reader_topic
    && (bytes_eq writer_ep.type_name reader_type && qos_accepted_by_reader reader_qos writer_ep.qos)

unfoldable pub find_writer : Guid → List (ℕ × Writer) → Option (ℕ × Writer)
find_writer g [] = none
find_writer g ((h, w) ∷ rest) = if guid_eq w.guid g then some (h, w) else find_writer g rest

unfoldable pub find_reader : Guid → List (ℕ × Reader) → Option (ℕ × Reader)
find_reader g [] = none
find_reader g ((h, r) ∷ rest) = if guid_eq r.guid g then some (h, r) else find_reader g rest

unfoldable pub find_endpoint : Guid → List EndpointRecord → Option EndpointRecord
find_endpoint g [] = none
find_endpoint g (ep ∷ rest) = if guid_eq ep.guid g then some ep else find_endpoint g rest

unfoldable pub find_remote_endpoint : Guid → List (Guid × RemoteParticipant) → Option EndpointRecord
find_remote_endpoint g [] = none
find_remote_endpoint g ((k, rp) ∷ rest) = elim (find_endpoint g rp.snap.endpoints) [
  | none ↦ find_remote_endpoint g rest
  | some ep ↦ some ep
]

abbrev pub writer_endpoint : ℕ × Writer → EndpointRecord
writer_endpoint (h, w) = record {
  guid = w.guid;
  kind = writer_kind;
  topic = w.topic;
  type_name = w.type_name;
  qos = w.qos;
  birth_us = w.birth_us;
}

abbrev pub reader_endpoint : ℕ × Reader → EndpointRecord
reader_endpoint (h, r) = record {
  guid = r.guid;
  kind = reader_kind;
  topic = r.topic;
  type_name = r.type_name;
  qos = r.qos;
  birth_us = r.birth_us;
}

unfoldable pub snapshot : Participant → ParticipantSnapshot
snapshot p = record {
  participant_guid = p.guid;
  nodes = p.nodes;
  endpoints = map writer_endpoint p.writers ++ map reader_endpoint p.readers;
}

-- A remote reader that takes the writer's samples, by the lenient rule.
unfoldable pub is_target : Writer → EndpointRecord → Bool
is_target w ep =
    ep.kind == reader_kind
    && (bytes_eq ep.topic w.topic
        && (bytes_eq ep.type_name w.type_name && qos_accepted_by_reader ep.qos w.qos))

unfoldable pub has_target : Writer → List EndpointRecord → Bool
has_target w [] = false
has_target w (ep ∷ rest) = if is_target w ep then true else has_target w rest

unfoldable pub send_targets : Writer → List (Guid × RemoteParticipant) → List ℕ
send_targets w [] = []
send_targets w ((k, rp) ∷ rest) =
    let others = send_targets w rest in
    if has_target w rp.snap.endpoints then insert_id rp.peer others else others

-- The inner loops of `recompute_matches`, over the endpoints of all remote participants.
unfoldable pub count_remote : (EndpointRecord → Bool) → List (Guid × RemoteParticipant) → ℕ
count_remote test [] = 0
count_remote test ((k, rp) ∷ rest) = count test rp.snap.endpoints + count_remote test rest

unfoldable pub writer_matches : Participant → Writer → ℕ
writer_matches p w =
    count_remote
      (λ ep.
        ep.kind == reader_kind
        && (bytes_eq ep.topic w.topic
            && (bytes_eq ep.type_name w.type_name && qos_compatible ep.qos w.qos)))
      p.remote
    + count
        (λ (kv : ℕ × Reader).
          bytes_eq kv.1.topic w.topic
          && (bytes_eq kv.1.type_name w.type_name && qos_compatible kv.1.qos w.qos))
        p.readers

unfoldable pub reader_matches : Participant → Reader → ℕ
reader_matches p r =
    count_remote (λ ep. ep.kind == writer_kind && endpoints_match r.topic r.type_name r.qos ep)
      p.remote
    + count
        (λ (kv : ℕ × Writer).
          bytes_eq kv.1.topic r.topic
          && (bytes_eq kv.1.type_name r.type_name && qos_accepted_by_reader r.qos kv.1.qos))
        p.writers

-- No count depends on another, so the order of the assignments is immaterial.
unfoldable pub recompute_matches : Participant → Participant
recompute_matches p = record p {
  writers =
      map (λ (kv : ℕ × Writer). (kv.0, record kv.1 { matched_count = writer_matches p kv.1 }))
        p.writers;
  readers =
      map (λ (kv : ℕ × Reader). (kv.0, record kv.1 { matched_count = reader_matches p kv.1 }))
        p.readers;
}

-- `h` is the address that the allocation gives. `none` is the null pointer.
unfoldable pub create_writer :
    Participant → ℕ → List ℕ → List ℕ → QosProfile → ℕ → Participant × Option ℕ × List Output
create_writer p h topic type_name qos now_us =
    let serial = u32 (p.entity_serial + 1) in
    let w : Writer = record {
      guid = make_guid p.prefix EntityKind.writer serial;
      topic = topic;
      type_name = type_name;
      qos = qos;
      seq = 0;
      matched_count = 0;
      birth_us = now_us;
      history = [];
    } in
    let p' = record p { entity_serial = serial; writers = put ltb h w p.writers } in
    if not (qos_valid qos)
    then (p, none, [])
    else (recompute_matches p', some h, announce_wanted ∷ [])

-- `create_reader` up to the replay of local history.
unfoldable pub add_reader :
    Participant → ℕ → List ℕ → List ℕ → QosProfile → Bool → ℕ → Participant × Option ℕ × List Output
add_reader p h topic type_name qos ignore_local now_us =
    let serial = u32 (p.entity_serial + 1) in
    let r : Reader = record {
      guid = make_guid p.prefix EntityKind.reader serial;
      topic = topic;
      type_name = type_name;
      qos = qos;
      ignore_local = ignore_local;
      matched_count = 0;
      birth_us = now_us;
      queue = [];
      rx = [];
      lost_count = 0;
    } in
    let p' = record p { entity_serial = serial; readers = put ltb h r p.readers } in
    if not (qos_valid qos)
    then (p, none, [])
    else (recompute_matches p', some h, announce_wanted ∷ [])

unfoldable pub destroy_writer : Participant → ℕ → Participant × List Output
destroy_writer p h =
    (recompute_matches (record p { writers = erase ltb h p.writers }), announce_wanted ∷ [])

unfoldable pub destroy_reader : Participant → ℕ → Participant × List Output
destroy_reader p h =
    (recompute_matches (record p { readers = erase ltb h p.readers }), announce_wanted ∷ [])

unfoldable pub node_eq : NodeInfo → NodeInfo → Bool
node_eq m n = bytes_eq m.ns n.ns && bytes_eq m.name n.name

unfoldable pub has_node : NodeInfo → List NodeInfo → Bool
has_node n [] = false
has_node n (m ∷ rest) = if node_eq m n then true else has_node n rest

unfoldable pub without_node : NodeInfo → List NodeInfo → List NodeInfo
without_node n [] = []
without_node n (m ∷ rest) = if node_eq m n then without_node n rest else m ∷ without_node n rest

unfoldable pub add_node : Participant → NodeInfo → Participant × List Output
add_node p n = (
  record p { nodes = if has_node n p.nodes then p.nodes else p.nodes ++ (n ∷ []) },
  announce_wanted ∷ [],
)

unfoldable pub remove_node : Participant → NodeInfo → Participant × List Output
remove_node p n = (record p { nodes = without_node n p.nodes }, announce_wanted ∷ [])
