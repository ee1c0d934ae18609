-- ===== src/Reader.antt =====
-- ReaderImpl of src/participant.cpp. Each call runs under `queue_mutex_`, so it is one step on the
-- reader; the clock readings of a call are its arguments.
pub mod Dedup
pub mod Exact
pub mod Nack
pub mod Queue
use mdds.Base.{
  ℕ, zero, suc, ◌+◌, max, Bool, true, false, not, ◌&&◌, Option, none, some, List, [], ◌∷◌, ◌++◌,
  length, ltb, ◌==◌, if◌then◌else◌,
}
use mdds.Wire.{u64}
use mdds.Guid.{Guid, guid_eq}
use mdds.Qos.{QosProfile, reliable, keep_last}
use mdds.Lifespan.{lifespan_expired, trim_front}
use mdds.Tracker.{WriterRxState, fresh_state, Arrival, track, gap}

pub record MessageInfo : Type 0 where
  pub writer_guid : Guid
  pub seq : ℕ
  pub pub_time_ms : ℕ

pub record QueuedSample : Type 0 where
  pub payload : List ℕ
  pub info : MessageInfo
  pub lifespan_ms : ℕ

-- Texts are lists of bytes. `queue` is oldest first.
pub record Reader : Type 0 where
  pub guid : Guid
  pub topic : List ℕ
  pub type_name : List ℕ
  pub qos : QosProfile
  pub ignore_local : Bool
  pub matched_count : ℕ
  pub birth_us : ℕ
  pub queue : List QueuedSample
  pub rx : List (Guid × WriterRxState)
  pub lost_count : ℕ

unfoldable pub find_rx : Guid → List (Guid × WriterRxState) → Option WriterRxState
find_rx g [] = none
find_rx g ((h, st) ∷ rest) = if guid_eq h g then some st else find_rx g rest

unfoldable pub set_rx :
    Guid → WriterRxState → List (Guid × WriterRxState) → List (Guid × WriterRxState)
set_rx g st [] = (g, st) ∷ []
set_rx g st ((h, old) ∷ rest) = if guid_eq h g then (g, st) ∷ rest else (h, old) ∷ set_rx g st rest

-- `rx_[writer_guid]` as a value.
unfoldable pub rx_state : Reader → Guid → WriterRxState
rx_state r g = elim (find_rx g r.rx) [ none ↦ fresh_state | some st ↦ st ]

unfoldable pub sweep_expired : ℕ → List QueuedSample → List QueuedSample
sweep_expired now [] = []
sweep_expired now (s ∷ rest) =
    if lifespan_expired s.lifespan_ms s.info.pub_time_ms now
    then sweep_expired now rest
    else s ∷ sweep_expired now rest

-- What `enqueue` leaves in its result and in its three reference arguments.
pub record Enqueued : Type 0 where
  pub reader : Reader
  pub queued : Bool
  pub gap_detected : Bool
  pub gap_base : ℕ
  pub gap_bitmap : ℕ

unfoldable pub append_sample : Reader → QueuedSample → ℕ → Reader
append_sample r sample now =
    let pushed = r.queue ++ (sample ∷ []) in
    let kept =
      if r.qos.history == keep_last then trim_front (max r.qos.depth 1) pushed else pushed in
    record r { queue = sweep_expired now kept }

abbrev pub hole_base : Option (ℕ × ℕ) → ℕ
hole_base none = 0
hole_base (some (base, bitmap)) = base

abbrev pub hole_bitmap : Option (ℕ × ℕ) → ℕ
hole_bitmap none = 0
hole_bitmap (some (base, bitmap)) = bitmap

abbrev pub is_hole : Option (ℕ × ℕ) → Bool
is_hole none = false
is_hole (some _) = true

-- The state after the bookkeeping of an arrival, before the sample is queued.
unfoldable pub account : Reader → Guid → Arrival → Reader
account r writer_guid a = record r {
  rx = set_rx writer_guid a.state r.rx;
  lost_count = u64 (r.lost_count + a.lost);
}

-- `now` is read for the arrival, and `swept_at` for the sweep behind it.
unfoldable pub enqueue : Reader → Guid → ℕ → List ℕ → QosProfile → ℕ → ℕ → ℕ → Enqueued
enqueue r writer_guid seq payload writer_qos pub_time_ms now swept_at =
    let a = track (rx_state r writer_guid) seq in
    let r' = account r writer_guid a in
    let sample : QueuedSample = record {
      payload = payload;
      info = record { writer_guid = writer_guid; seq = seq; pub_time_ms = pub_time_ms };
      lifespan_ms = writer_qos.lifespan_ms;
    } in
    let queued = a.fresh && not (lifespan_expired writer_qos.lifespan_ms pub_time_ms now) in
    record {
      reader = if queued then append_sample r' sample swept_at else r';
      queued = queued;
      gap_detected =
          is_hole a.hole && (r.qos.reliability == reliable && writer_qos.reliability == reliable);
      gap_base = hole_base a.hole;
      gap_bitmap = hole_bitmap a.hole;
    }

unfoldable pub pop_front : Reader → List QueuedSample → Option QueuedSample × Reader
pop_front r [] = (none, record r { queue = [] })
pop_front r (s ∷ rest) = (some s, record r { queue = rest })

unfoldable pub take : Reader → ℕ → Option QueuedSample × Reader
take r now = pop_front r (sweep_expired now r.queue)

unfoldable pub available : Reader → ℕ → ℕ × Reader
available r now =
    let swept = sweep_expired now r.queue in (length swept, record r { queue = swept })

pub messages_lost : Reader → ℕ
messages_lost r = r.lost_count

-- The base and the bitmap of the next NACK.
unfoldable pub nack_state : Reader → Guid → ℕ × ℕ
nack_state r writer_guid = elim (find_rx writer_guid r.rx) [
  | none ↦ (1, 0)
  | some st ↦ (u64 (st.last_seq + 1), st.window)
]

unfoldable pub apply_gap : Reader → Guid → ℕ → ℕ → Reader
apply_gap r writer_guid gap_start gap_end = elim (find_rx writer_guid r.rx) [
  | none ↦ record r { rx = set_rx writer_guid (record { last_seq = gap_end; window = 0 }) r.rx }
  | some st ↦
      let (st', lost) = gap st gap_end in
      record r { rx = set_rx writer_guid st' r.rx; lost_count = u64 (r.lost_count + lost) }
]
