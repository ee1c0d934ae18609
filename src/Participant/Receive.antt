-- ===== src/Participant/Receive.antt =====
-- What a participant does with the frames of its peers, in src/participant.cpp: handle_bytes and the
-- handlers that it calls, and handle_peer_down.
use mdds.Base.{
  ℕ, Bool, true, false, not, ◌&&◌, Option, none, some, List, [], ◌∷◌, ◌++◌, ltb, leb, ◌==◌,
  if◌then◌else◌,
}
use mdds.Guid.{Guid, guid_eq, guid_lt, bytes_eq}
use mdds.Qos.{volatile}
use mdds.Frame.{
  FrameHeader, DataBody, DataFragBody, AckNackBody, data_type, data_frag_type, acknack_type,
  heartbeat_type, announce_type, gap_type, decode_header, decode_data,
}
use mdds.Frame.Frag.{decode_data_frag}
use mdds.Frame.Control.{encode_gap, decode_acknack}
use mdds.Discovery.{EndpointRecord, ParticipantSnapshot, decode_announce}
use mdds.Writer.{Writer}
use mdds.Writer.Acknack.{Request, Reply, answer}
use mdds.Fragment.{Reassembler, add_fragment_body}
use mdds.OrderedMap.{find, put, erase, erase_id}
use mdds.Participant.{Participant, RemoteParticipant, Output, graph_changed, Link, send_frame}
use mdds.Participant.Endpoints.{
  find_writer, find_remote_endpoint, find_endpoint, node_eq, recompute_matches, reader_kind,
}
use mdds.Participant.Deliver.{Clock, deliver_sample, handle_gap, handle_heartbeat}
use mdds.Participant.Send.{send_entries, replay_history_to_peer}

abbrev pub lists_eq {ℓ} : {A : Type ℓ} → (A → A → Bool) → List A → List A → Bool
lists_eq eq [] [] = true
lists_eq eq [] (y ∷ ys) = false
lists_eq eq (x ∷ xs) [] = false
lists_eq eq (x ∷ xs) (y ∷ ys) = eq x y && lists_eq eq xs ys

-- `EndpointRecord::operator==`, which leaves the QoS and the birth out.
unfoldable pub endpoint_eq : EndpointRecord → EndpointRecord → Bool
endpoint_eq a b =
    guid_eq a.guid b.guid
    && (a.kind == b.kind && (bytes_eq a.topic b.topic && bytes_eq a.type_name b.type_name))

unfoldable pub same_graph : ParticipantSnapshot → ParticipantSnapshot → Bool
same_graph a b = lists_eq node_eq a.nodes b.nodes && lists_eq endpoint_eq a.endpoints b.endpoints

abbrev pub is_some {ℓ} : {A : Type ℓ} → Option A → Bool
is_some none = false
is_some (some a) = true

-- The readers among `eps` that are not among `known`.
unfoldable pub new_readers : List EndpointRecord → List EndpointRecord → List EndpointRecord
new_readers known [] = []
new_readers known (ep ∷ eps) =
    if ep.kind == reader_kind && not (is_some (find_endpoint ep.guid known))
    then ep ∷ new_readers known eps
    else new_readers known eps

abbrev pub known_endpoints : Option RemoteParticipant → List EndpointRecord
known_endpoints none = []
known_endpoints (some rp) = rp.snap.endpoints

-- Whether the announce is stale, and whether it changes the graph.
abbrev pub is_stale : Option RemoteParticipant → ℕ → Bool
is_stale none seq = false
is_stale (some rp) seq = leb seq rp.announce_seq

abbrev pub changes_graph : Option RemoteParticipant → ParticipantSnapshot → Bool
changes_graph none snap = true
changes_graph (some rp) snap = not (same_graph rp.snap snap)

-- Any announce, a stale one too, proves that the participant is alive.
abbrev pub heard : ℕ → Option RemoteParticipant → Guid → Participant → Participant
heard steady_ms none g p = p
heard steady_ms (some rp) g p = record p {
  remote = put guid_lt g (record rp { last_announce_ms = steady_ms }) p.remote;
}

unfoldable pub accept_announce : Participant → ℕ → ParticipantSnapshot → ℕ → ℕ → Participant
accept_announce p peer snap seq steady_ms =
    let rp : RemoteParticipant = record {
      peer = peer;
      announce_seq = seq;
      snap = snap;
      last_announce_ms = steady_ms;
    } in
    record p { remote = put guid_lt snap.participant_guid rp p.remote }

-- `heard_at` and `stored_at` are readings of the steady clock, `replay_at` of the system clock.
unfoldable pub announce_received :
    Participant → Link → ℕ → ParticipantSnapshot → ℕ → ℕ → ℕ → ℕ → Participant × List Output
announce_received p link peer snap seq heard_at stored_at replay_at =
    let old = find guid_lt snap.participant_guid p.remote in
    let p' = accept_announce p peer snap seq stored_at in
    let replays =
      replay_history_to_peer p' link peer (new_readers (known_endpoints old) snap.endpoints)
        replay_at in
    if is_stale old seq
    then (heard heard_at old snap.participant_guid p, [])
    else if changes_graph old snap
    then (recompute_matches p', replays ++ (graph_changed ∷ []))
    else (p', replays)

unfoldable pub handle_announce :
    Participant → Link → ℕ → List ℕ → ℕ → ℕ → ℕ → Participant × List Output
handle_announce p link peer bytes heard_at stored_at replay_at = elim (decode_announce bytes) [
  | none ↦ (p, [])
  | some (snap, seq) ↦ announce_received p link peer snap seq heard_at stored_at replay_at
]

abbrev pub request_of : Writer → EndpointRecord → AckNackBody → Request
request_of w ep body = record {
  history = w.history;
  base_seq = body.base_seq;
  bitmap = body.bitmap;
  clamp_pre_join = ep.qos.durability == volatile;
  reader_birth_us = ep.birth_us;
}

-- The retransmits, and behind them the GAP for the reader that asked.
unfoldable pub send_reply : Link → ℕ → Writer → AckNackBody → Reply → List Output
send_reply link peer w body reply =
    send_entries link peer w reply.resend
    ++ (if ltb 0 reply.unavail_end
        then (send_frame link peer
            (encode_gap body.writer body.reader body.base_seq reply.unavail_end)).1
        else [])

unfoldable pub acknack_received : Participant → Link → ℕ → AckNackBody → List Output
acknack_received p link peer body = elim (find_writer body.writer p.writers) [
  | none ↦ []
  | some (h, w) ↦ (elim (find_remote_endpoint body.reader p.remote) [
    | none ↦ []
    | some ep ↦ send_reply link peer w body (answer (request_of w ep body))
  ])
]

unfoldable pub handle_acknack : Participant → Link → ℕ → List ℕ → List Output
handle_acknack p link peer bytes = elim (decode_acknack bytes) [
  | none ↦ []
  | some body ↦ acknack_received p link peer body
]

-- `reassemblers_[peer]`
abbrev pub default_timeout_ms : ℕ
default_timeout_ms = 5000

abbrev pub or_new : Option Reassembler → Reassembler
or_new none = record { partials = []; timeout = default_timeout_ms }
or_new (some r) = r

-- The clock readings of a call: `steady_ms` also for an announce that is heard, `gathered_at` by the
-- reassembler, `stored_at` for an announce that is stored, `replay_at` by the system clock, and `enqueue` by
-- each reader.
pub record Readings : Type 0 where
  pub steady_ms : ℕ
  pub gathered_at : ℕ
  pub stored_at : ℕ
  pub replay_at : ℕ
  pub enqueue : Clock

unfoldable pub deliver_data :
    Participant → Link → ℕ → Option DataBody → Readings → Participant × List Output
deliver_data p link peer none t = (p, [])
deliver_data p link peer (some body) t =
    deliver_sample p link peer body.writer body.seq body.pub_time_ms body.payload t.steady_ms
      t.enqueue

-- A message that is whole is delivered as if it had come in one frame.
unfoldable pub deliver_whole :
    Participant → Link → ℕ → DataFragBody → Readings → Option (List ℕ) → Participant × List Output
deliver_whole p link peer body t none = (p, [])
deliver_whole p link peer body t (some payload) =
    deliver_sample p link peer body.writer body.seq body.pub_time_ms payload t.steady_ms t.enqueue

unfoldable pub deliver_frag :
    Participant → Link → ℕ → Option DataFragBody → Readings → Participant × List Output
deliver_frag p link peer none t = (p, [])
deliver_frag p link peer (some body) t =
    let (r, full) = add_fragment_body (or_new (find ltb peer p.reassemblers)) body t.gathered_at in
    deliver_whole (record p { reassemblers = put ltb peer r p.reassemblers }) link peer body t full

unfoldable pub dispatch :
    Participant → Link → ℕ → FrameHeader → List ℕ → Readings → Participant × List Output
dispatch p link peer hdr bytes t =
    if hdr.frame_type == announce_type
    then handle_announce p link peer bytes t.steady_ms t.stored_at t.replay_at
    else if hdr.frame_type == data_type
    then deliver_data p link peer (decode_data bytes) t
    else if hdr.frame_type == data_frag_type
    then deliver_frag p link peer (decode_data_frag bytes) t
    else if hdr.frame_type == acknack_type
    then (p, handle_acknack p link peer bytes)
    else if hdr.frame_type == heartbeat_type
    then handle_heartbeat p link peer bytes t.steady_ms
    else if hdr.frame_type == gap_type
    then (handle_gap p bytes, [])
    else (p, [])

unfoldable pub handle_bytes : Participant → Link → ℕ → List ℕ → Readings → Participant × List Output
handle_bytes p link peer bytes t = elim (decode_header bytes) [
  | none ↦ (p, [])
  | some hdr ↦ dispatch p link peer hdr bytes t
]

-- The participants that are reached through other peers, and whether there were any through this one.
unfoldable pub drop_peer :
    ℕ → List (Guid × RemoteParticipant) → List (Guid × RemoteParticipant) × Bool
drop_peer peer [] = ([], false)
drop_peer peer ((g, rp) ∷ rest) =
    let (kept, gone) = drop_peer peer rest in
    if rp.peer == peer then (kept, true) else ((g, rp) ∷ kept, gone)

unfoldable pub handle_peer_down : Participant → ℕ → Participant × List Output
handle_peer_down p peer =
    let (kept, gone) = drop_peer peer p.remote in
    let p' = record p {
      peers = erase_id peer p.peers;
      reassemblers = erase ltb peer p.reassemblers;
      remote = kept;
    } in
    if gone then (recompute_matches p', graph_changed ∷ []) else (p', [])

-- The queries.
unfoldable pub remote_participants : List (Guid × RemoteParticipant) → List ParticipantSnapshot
remote_participants [] = []
remote_participants ((g, rp) ∷ rest) = rp.snap ∷ remote_participants rest

unfoldable pub remote_writer_last_seen_ms : Participant → Guid → Option ℕ
remote_writer_last_seen_ms p g = find guid_lt g p.writer_last_seen

abbrev pub announced_at : Option RemoteParticipant → Option ℕ
announced_at none = none
announced_at (some rp) = if rp.last_announce_ms == 0 then none else some rp.last_announce_ms

unfoldable pub remote_participant_last_seen_ms : Participant → Guid → Option ℕ
remote_participant_last_seen_ms p g = announced_at (find guid_lt g p.remote)
