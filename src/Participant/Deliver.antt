-- ===== src/Participant/Deliver.antt =====
-- Samples on their way into local readers, in src/participant.cpp: deliver_sample, handle_gap,
-- handle_heartbeat and replay_local_history.
use mdds.Base.{
  ℕ, Bool, false, not, ◌&&◌, ◌||◌, Option, none, some, List, [], ◌∷◌, ◌++◌, map, ltb, leb, ◌==◌,
  if◌then◌else◌,
}
use mdds.Guid.{Guid, guid_lt, bytes_eq}
use mdds.Qos.{QosProfile, reliable, transient_local, qos_accepted_by_reader}
use mdds.Frame.{AckNackBody, HeartbeatBody, GapBody}
use mdds.Frame.Control.{encode_acknack, decode_heartbeat, decode_gap}
use mdds.Discovery.{EndpointRecord}
use mdds.Lifespan.{lifespan_expired}
use mdds.Reader.{Reader, Enqueued, enqueue, nack_state, apply_gap}
use mdds.Writer.{Writer, CachedSample}
use mdds.OrderedMap.{find, put}
use mdds.Participant.{Participant, Output, data_ready, Link, send_frame}
use mdds.Participant.Endpoints.{add_reader, endpoints_match, find_reader, find_remote_endpoint}

-- A sample as it comes to a reader.
pub record Incoming : Type 0 where
  pub writer : Guid
  pub seq : ℕ
  pub payload : List ℕ
  pub writer_qos : QosProfile
  pub pub_time_ms : ℕ

-- The two readings of the clock in the `enqueue` of the reader with a given address.
abbrev pub Clock : Type 0
Clock = ℕ → ℕ × ℕ

abbrev pub enqueue_at : Clock → Incoming → ℕ → Reader → Enqueued
enqueue_at clock x h r =
    enqueue r x.writer x.seq x.payload x.writer_qos x.pub_time_ms (clock h).0 (clock h).1

-- What the loops over the readers gather: the readers after it, whom to notify, and the NACKs.
pub record Delivered : Type 0 where
  pub readers : List (ℕ × Reader)
  pub to_notify : List ℕ
  pub nacks : List AckNackBody

unfoldable pub deliver_one : Clock → Incoming → ℕ → Reader → Delivered → Delivered
deliver_one clock x h r rest =
    let e = enqueue_at clock x h r in
    record {
      readers = (h, e.reader) ∷ rest.readers;
      to_notify = if e.queued then h ∷ rest.to_notify else rest.to_notify;
      nacks =
          if e.gap_detected
          then record {
            reader = r.guid;
            writer = x.writer;
            base_seq = e.gap_base;
            bitmap = e.gap_bitmap;
          }
            ∷ rest.nacks
          else rest.nacks;
    }

-- `enqueue` on every reader that passes the test.
unfoldable pub deliver_to : (Reader → Bool) → Clock → Incoming → List (ℕ × Reader) → Delivered
deliver_to test clock x [] = record { readers = []; to_notify = []; nacks = [] }
deliver_to test clock x ((h, r) ∷ rs) =
    let rest = deliver_to test clock x rs in
    if test r then deliver_one clock x h r rest else record rest { readers = (h, r) ∷ rest.readers }

unfoldable pub send_nacks : Link → ℕ → List AckNackBody → List Output
send_nacks link peer [] = []
send_nacks link peer (n ∷ ns) =
    (send_frame link peer (encode_acknack n.reader n.writer n.base_seq n.bitmap)).1
    ++ send_nacks link peer ns

abbrev pub takes_from : EndpointRecord → Reader → Bool
takes_from ep r = endpoints_match r.topic r.type_name r.qos ep

abbrev pub incoming : Guid → ℕ → ℕ → List ℕ → EndpointRecord → Incoming
incoming writer seq pub_time_ms payload ep = record {
  writer = writer;
  seq = seq;
  payload = payload;
  writer_qos = ep.qos;
  pub_time_ms = pub_time_ms;
}

-- `steady_ms` is read for the writer's liveliness.
unfoldable pub deliver_sample :
    Participant → Link → ℕ → Guid → ℕ → ℕ → List ℕ → ℕ → Clock → Participant × List Output
deliver_sample p link peer writer seq pub_time_ms payload steady_ms clock =
    let p' = record p { writer_last_seen = put guid_lt writer steady_ms p.writer_last_seen } in
    elim (find_remote_endpoint writer p.remote) [
      | none ↦ (p', [])
      | some ep ↦
          let d =
            deliver_to (takes_from ep) clock (incoming writer seq pub_time_ms payload ep)
              p.readers in
          (
            record p' { readers = d.readers },
            send_nacks link peer d.nacks ++ map (λ h. data_ready h) d.to_notify,
          )
    ]

unfoldable pub gap_received : Participant → GapBody → Participant
gap_received p body = elim (find_reader body.reader p.readers) [
  | none ↦ p
  | some (h, r) ↦ record p {
    readers = put ltb h (apply_gap r body.writer body.gap_start body.gap_end) p.readers;
  }
]

unfoldable pub handle_gap : Participant → List ℕ → Participant
handle_gap p bytes = elim (decode_gap bytes) [
  | none ↦ p
  | some body ↦ if ltb body.gap_end body.gap_start then p else gap_received p body
]

-- The NACKs of the reliable readers that match the writer and are behind.
unfoldable pub nacks_for : EndpointRecord → HeartbeatBody → List (ℕ × Reader) → List AckNackBody
nacks_for ep body [] = []
nacks_for ep body ((h, r) ∷ rs) =
    let (base, bitmap) = nack_state r body.writer in
    if (r.qos.reliability == reliable && takes_from ep r) && leb base body.last_seq
    then record { reader = r.guid; writer = body.writer; base_seq = base; bitmap = bitmap }
      ∷ nacks_for ep body rs
    else nacks_for ep body rs

unfoldable pub heartbeat_received :
    Participant → Link → ℕ → HeartbeatBody → ℕ → Participant × List Output
heartbeat_received p link peer body steady_ms =
    let p' = record p { writer_last_seen = put guid_lt body.writer steady_ms p.writer_last_seen } in
    elim (find_remote_endpoint body.writer p.remote) [
      | none ↦ (p', [])
      | some ep ↦ (p', send_nacks link peer (nacks_for ep body p.readers))
    ]

unfoldable pub handle_heartbeat : Participant → Link → ℕ → List ℕ → ℕ → Participant × List Output
handle_heartbeat p link peer bytes steady_ms = elim (decode_heartbeat bytes) [
  | none ↦ (p, [])
  | some body ↦ heartbeat_received p link peer body steady_ms
]

-- The two readings of the clock in the `enqueue` of an entry, by its writer's address and its number.
abbrev pub ReplayClock : Type 0
ReplayClock = ℕ → ℕ → ℕ × ℕ

abbrev pub cached_sample : Writer → CachedSample → Incoming
cached_sample w e = record {
  writer = w.guid;
  seq = e.seq;
  payload = e.payload;
  writer_qos = w.qos;
  pub_time_ms = e.pub_time_ms;
}

-- The inner loop of `replay_local_history`; `now` is read once, and `clock` by each `enqueue`.
unfoldable pub replay_entries :
    ℕ → ReplayClock → ℕ → Writer → List CachedSample → Reader × Bool → Reader × Bool
replay_entries now clock h w [] acc = acc
replay_entries now clock h w (e ∷ es) (r, any) =
    let q = enqueue_at (clock h) (cached_sample w e) e.seq r in
    replay_entries now clock h w es (
      if lifespan_expired w.qos.lifespan_ms e.pub_time_ms now
      then (r, any)
      else (q.reader, any || q.queued))

unfoldable pub replays_to : Reader → Writer → Bool
replays_to r w =
    w.qos.durability == transient_local
    && (bytes_eq w.topic r.topic
        && (bytes_eq w.type_name r.type_name && qos_accepted_by_reader r.qos w.qos))

unfoldable pub replay_writers : ℕ → ReplayClock → List (ℕ × Writer) → Reader × Bool → Reader × Bool
replay_writers now clock [] acc = acc
replay_writers now clock ((h, w) ∷ ws) acc =
    let after : Reader × Bool =
      if replays_to acc.0 w then replay_entries now clock h w w.history acc else acc in
    replay_writers now clock ws after

unfoldable pub replay_local_history :
    Participant → ℕ → Reader → ℕ → ReplayClock → Participant × List Output
replay_local_history p h r now clock =
    let (r', any) = replay_writers now clock p.writers (r, false) in
    if not (r.qos.durability == transient_local) || r.ignore_local
    then (p, [])
    else (record p { readers = put ltb h r' p.readers }, if any then data_ready h ∷ [] else [])

-- The replay to the reader with this address, where there is one.
unfoldable pub replay_local : Participant → Option ℕ → ℕ → ReplayClock → Participant × List Output
replay_local p none now clock = (p, [])
replay_local p (some h) now clock = elim (find ltb h p.readers) [
  | none ↦ (p, [])
  | some r ↦ replay_local_history p h r now clock
]

-- `h` is the address of the new reader; `birth_us` is read for its birth and `now` by the replay.
unfoldable pub create_reader :
    Participant
    → ℕ
    → List ℕ
    → List ℕ
    → QosProfile
    → Bool
    → ℕ
    → ℕ
    → ReplayClock
    → Participant × Option ℕ × List Output
create_reader p h topic type_name qos ignore_local birth_us now clock =
    let (p', made, out) = add_reader p h topic type_name qos ignore_local birth_us in
    let (p'', out') = replay_local p' made now clock in (p'', made, out ++ out')
