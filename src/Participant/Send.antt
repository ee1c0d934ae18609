-- ===== src/Participant/Send.antt =====
-- What a participant sends, in src/participant.cpp: write_sample, replays to a peer, announcements and
-- heartbeats.
use mdds.Base.{
  ℕ, ◌+◌, Bool, false, not, ◌&&◌, ◌||◌, Option, none, some, List, [], ◌∷◌, ◌++◌, map, ltb, ◌==◌,
  if◌then◌else◌,
}
use mdds.Wire.{u64}
use mdds.Guid.{Guid, bytes_eq}
use mdds.Qos.{QosProfile, reliable, transient_local, qos_accepted_by_reader}
use mdds.Frame.{flag_reliable}
use mdds.Frame.Control.{encode_heartbeat}
use mdds.Discovery.{EndpointRecord, encode_announce}
use mdds.Lifespan.{lifespan_expired}
use mdds.Reader.{Reader}
use mdds.Writer.{Writer, CachedSample, claim}
use mdds.Writer.Acknack.{first_avail}
use mdds.Fragment.{Reassembler, sweep_partials, is_null, chunk_bytes}
use mdds.OrderedMap.{put, insert_id}
use mdds.Participant.{
  Participant, Output, data_ready, Link, send_frame, send_sample_to, broadcast, is_empty,
}
use mdds.Participant.Endpoints.{snapshot, send_targets}
use mdds.Participant.Deliver.{Incoming, Clock, deliver_to}

abbrev pub reliable_flag : QosProfile → ℕ
reliable_flag q = if q.reliability == reliable then flag_reliable else 0

-- A local reader that gets a local writer's samples with no frame in between.
unfoldable pub is_local_target : Writer → Reader → Bool
is_local_target w r =
    not r.ignore_local
    && (bytes_eq r.topic w.topic
        && (bytes_eq r.type_name w.type_name && qos_accepted_by_reader r.qos w.qos))

-- Whether any peer took the sample.
unfoldable pub send_to_all : Link → List ℕ → Guid → ℕ → ℕ → List ℕ → ℕ → Bool × List Output
send_to_all link [] g seq time payload flags = (false, [])
send_to_all link (p ∷ ps) g seq time payload flags =
    let (ok, out) = send_sample_to link p g seq time payload flags in
    let (rest_ok, rest_out) = send_to_all link ps g seq time payload flags in
    (ok || rest_ok, out ++ rest_out)

-- `write_sample` behind the claim of the number, for the writer as it was before the claim.
unfoldable pub publish :
    Participant → Link → Writer → CachedSample → Clock → Participant × Bool × List Output
publish p link w sample clock =
    let x : Incoming = record {
      writer = w.guid;
      seq = sample.seq;
      payload = sample.payload;
      writer_qos = w.qos;
      pub_time_ms = sample.pub_time_ms;
    } in
    let d = deliver_to (is_local_target w) clock x p.readers in
    let targets = send_targets w p.remote in
    let (any, out) =
      send_to_all link targets w.guid sample.seq sample.pub_time_ms sample.payload
        (reliable_flag w.qos) in
    (
      record p { readers = d.readers },
      any || is_empty targets,
      map (λ h. data_ready h) d.to_notify ++ out,
    )

-- `h` is the writer's address; `now_us` is the publication time, and `swept_at` is read by the sweep of
-- its history.
unfoldable pub write_sample :
    Participant → Link → ℕ → Writer → List ℕ → ℕ → ℕ → Clock → Participant × Bool × List Output
write_sample p link h w payload now_us swept_at clock =
    let (w', claimed) = claim w payload now_us swept_at in
    elim claimed [
      | none ↦ (p, false, [])
      | some sample ↦ publish (record p { writers = put ltb h w' p.writers }) link w sample clock
    ]

-- `WriterImpl::write`; a writer always has an owner.
unfoldable pub write :
    Participant
    → Link
    → ℕ
    → Writer
    → Option (List ℕ)
    → ℕ
    → ℕ
    → ℕ
    → Clock
    → Participant × Bool × List Output
write p link h w buf len now_us swept_at clock =
    if is_null buf && ltb 0 len
    then (p, false, [])
    else write_sample p link h w (chunk_bytes buf len) now_us swept_at clock

-- The entries of a transient_local writer's history that have not expired.
unfoldable pub replayable : ℕ → Writer → List CachedSample → List CachedSample
replayable now w [] = []
replayable now w (e ∷ es) =
    if lifespan_expired w.qos.lifespan_ms e.pub_time_ms now
    then replayable now w es
    else e ∷ replayable now w es

unfoldable pub send_entries : Link → ℕ → Writer → List CachedSample → List Output
send_entries link peer w [] = []
send_entries link peer w (e ∷ es) =
    (send_sample_to link peer w.guid e.seq e.pub_time_ms e.payload (reliable_flag w.qos)).1
    ++ send_entries link peer w es

unfoldable pub replays_remote : EndpointRecord → Writer → Bool
replays_remote ep w =
    w.qos.durability == transient_local
    && (bytes_eq ep.topic w.topic
        && (bytes_eq ep.type_name w.type_name && qos_accepted_by_reader ep.qos w.qos))

unfoldable pub replay_to_reader : Link → ℕ → ℕ → EndpointRecord → List (ℕ × Writer) → List Output
replay_to_reader link peer now ep [] = []
replay_to_reader link peer now ep ((h, w) ∷ ws) =
    (if replays_remote ep w then send_entries link peer w (replayable now w w.history) else [])
    ++ replay_to_reader link peer now ep ws

-- The samples are gathered under the mutex and sent behind it, in the same order.
unfoldable pub replay_history_to_peer :
    Participant → Link → ℕ → List EndpointRecord → ℕ → List Output
replay_history_to_peer p link peer [] now = []
replay_history_to_peer p link peer (ep ∷ eps) now =
    (if ep.qos.durability == transient_local
      then replay_to_reader link peer now ep p.writers
      else [])
    ++ replay_history_to_peer p link peer eps now

unfoldable pub send_announce : Participant → Link → ℕ → List Output
send_announce p link peer = (send_frame link peer (encode_announce (snapshot p) p.announce_seq)).1

unfoldable pub broadcast_announce : Participant → Link → List Output
broadcast_announce p link = broadcast link p.peers (encode_announce (snapshot p) p.announce_seq)

-- The frames of `send_heartbeats`, for each reliable writer that has a history.
unfoldable pub heartbeats : List (ℕ × Writer) → List (List ℕ)
heartbeats [] = []
heartbeats ((h, w) ∷ ws) =
    if not (w.qos.reliability == reliable) || is_empty w.history
    then heartbeats ws
    else encode_heartbeat w.guid (first_avail w.history) w.seq ∷ heartbeats ws

unfoldable pub send_each : Link → ℕ → List (List ℕ) → List Output
send_each link peer [] = []
send_each link peer (f ∷ fs) = (send_frame link peer f).1 ++ send_each link peer fs

unfoldable pub send_all : Link → List ℕ → List (List ℕ) → List Output
send_all link [] fs = []
send_all link (p ∷ ps) fs = send_each link p fs ++ send_all link ps fs

unfoldable pub send_heartbeats : Participant → Link → List Output
send_heartbeats p link = send_all link p.peers (heartbeats p.writers)

-- `assert_liveliness` of a writer.
unfoldable pub broadcast_writer_heartbeat : Participant → Link → Writer → List Output
broadcast_writer_heartbeat p link w =
    broadcast link p.peers
      (encode_heartbeat w.guid (if is_empty w.history then w.seq else first_avail w.history) w.seq)

unfoldable pub sweep_reassemblers : ℕ → List (ℕ × Reassembler) → List (ℕ × Reassembler)
sweep_reassemblers now [] = []
sweep_reassemblers now ((peer, r) ∷ rest) =
    (peer, record r { partials = (sweep_partials r.timeout now r.partials).0 })
    ∷ sweep_reassemblers now rest

-- One round of `announce_loop`.
unfoldable pub announce_round : Participant → Link → ℕ → Participant × List Output
announce_round p link now =
    let p' = record p {
      announce_seq = u64 (p.announce_seq + 1);
      reassemblers = sweep_reassemblers now p.reassemblers;
    } in
    (p', broadcast_announce p' link ++ send_heartbeats p' link)

unfoldable pub handle_peer_up : Participant → Link → ℕ → Participant × List Output
handle_peer_up p link peer =
    let p' = record p { peers = insert_id peer p.peers } in (p', send_announce p' link peer)
