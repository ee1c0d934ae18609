-- ===== src/Participant.antt =====
-- ParticipantImpl of src/participant.cpp: its state, what it hands to its transports, and how it sends.
-- A call is one step on the participant. What it does to the outside is the list of its outputs, in
-- order; a clock reading is an argument.
pub mod Endpoints
pub mod Deliver
pub mod Send
pub mod Receive
pub mod Dispatch
pub mod Transfer
pub mod Known
pub mod Announces
pub mod Targets
pub mod Relay
pub mod Reachable
pub mod PeerChanges
pub mod Following
pub mod Starting
pub mod OverDsoftbus
pub mod Samples
pub mod Identity
pub mod Lifecycle
pub mod Greeting
use mdds.Base.{
  ℕ, Bool, true, false, not, ◌&&◌, Option, none, some, List, [], ◌∷◌, ◌++◌, length, get_elem?, ◌==◌,
  if◌then◌else◌,
}
use mdds.Wire.{u32}
use mdds.Guid.{Guid}
use mdds.Discovery.{NodeInfo, ParticipantSnapshot}
use mdds.Reader.{Reader}
use mdds.Writer.{Writer}
use mdds.Fragment.{Reassembler, fragment}
use mdds.PeerId.{peer_transport_index, peer_backend_id}

pub record RemoteParticipant : Type 0 where
  pub peer : ℕ
  pub announce_seq : ℕ
  pub snap : ParticipantSnapshot
  pub last_announce_ms : ℕ

-- `writers` and `readers` are keyed by address, as the source's maps are.
pub record Participant : Type 0 where
  pub prefix : List ℕ
  pub guid : Guid
  pub entity_serial : ℕ
  pub writers : List (ℕ × Writer)
  pub readers : List (ℕ × Reader)
  pub nodes : List NodeInfo
  pub peers : List ℕ
  pub remote : List (Guid × RemoteParticipant)
  pub writer_last_seen : List (Guid × ℕ)
  pub reassemblers : List (ℕ × Reassembler)
  pub announce_seq : ℕ

-- What a transport answers in the course of one call.
pub record Transport : Type 0 where
  pub send : ℕ → List ℕ → Bool
  pub max_payload : ℕ → ℕ

-- `test_send_hook`, constantly false where it is null, and `transports_`.
pub record Link : Type 0 where
  pub hook : List ℕ → Bool
  pub transports : List Transport

pub data Output : Type 0 where
  -- A frame that is handed to the transport of a peer.
  frame : (peer : ℕ) → List ℕ → Output
  -- The data callback of the reader with this address.
  data_ready : (reader : ℕ) → Output
  graph_changed : Output
  -- `announce_cv_.notify_all()`
  announce_wanted : Output

unfoldable pub send_frame : Link → ℕ → List ℕ → Bool × List Output
send_frame link peer bytes =
    if link.hook bytes
    then (true, [])
    else (elim (get_elem? link.transports (peer_transport_index peer)) [
      | none ↦ (false, [])
      | some t ↦ (t.send (peer_backend_id peer) bytes, frame peer bytes ∷ [])
    ])

unfoldable pub max_payload : Link → ℕ → ℕ
max_payload link peer = elim (get_elem? link.transports (peer_transport_index peer)) [
  | none ↦ 0
  | some t ↦ t.max_payload (peer_backend_id peer)
]

-- One frame after the other, whatever the answers: whether all were accepted.
unfoldable pub send_frames : Link → ℕ → List (List ℕ) → Bool × List Output
send_frames link peer [] = (true, [])
send_frames link peer (f ∷ fs) =
    let (ok, out) = send_frame link peer f in
    let (rest_ok, rest_out) = send_frames link peer fs in (ok && rest_ok, out ++ rest_out)

abbrev pub is_empty {ℓ} : {A : Type ℓ} → List A → Bool
is_empty [] = true
is_empty (x ∷ xs) = false

unfoldable pub send_sample_to : Link → ℕ → Guid → ℕ → ℕ → List ℕ → ℕ → Bool × List Output
send_sample_to link peer writer seq pub_time_ms payload flags =
    let max_p = max_payload link peer in
    let frames =
      fragment writer seq pub_time_ms (some payload) (u32 (length payload)) max_p flags in
    let (ok, out) = send_frames link peer frames in
    if max_p == 0 then (false, []) else (ok && not (is_empty frames), out)

-- A frame for each peer in turn.
unfoldable pub broadcast : Link → List ℕ → List ℕ → List Output
broadcast link [] bytes = []
broadcast link (p ∷ ps) bytes = (send_frame link p bytes).1 ++ broadcast link ps bytes
