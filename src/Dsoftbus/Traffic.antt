-- ===== src/Dsoftbus/Traffic.antt =====
-- What src/transport_dsoftbus.cpp sends: send, max_payload, deliver and the lanes behind them, and stop.
use mdds.Base.{
  ℕ, Bool, false, not, ◌&&◌, Option, none, some, List, [], ◌∷◌, ◌++◌, length, take, ltb, ◌==◌,
  if◌then◌else◌,
}
use mdds.Wire.{u32}
use mdds.Guid.{bytes_lt}
use mdds.OrderedMap.{find}
use mdds.SendLane.{SendLane, SendBudget, push, next_frame, sent}
use mdds.Dsoftbus.{
  PeerLane, PeerState, Dsoftbus, Effect, default_max_payload, is_fd, is_open, first_with, set_peer,
  discard, shut_down, send_bytes,
}

abbrev pub set_lane : Dsoftbus → List ℕ → PeerState → PeerLane → SendLane → Dsoftbus
set_lane d nid st l lane' = set_peer d nid (record st { lane = some (record l { lane = lane' }) })

-- A push onto the lane of a peer.
unfoldable pub push_to : Dsoftbus → List ℕ → PeerState → Option PeerLane → List ℕ → Dsoftbus × Bool
push_to d nid st none bytes = (d, false)
push_to d nid st (some l) bytes =
    let (lane', budget', ok) = push l.lane d.budget bytes in
    (set_lane (record d { budget = budget' }) nid st l lane', ok)

unfoldable pub send : Dsoftbus → ℕ → List ℕ → Dsoftbus × Bool
send d peer bytes = elim (first_with (λ st. st.peer_id == peer && is_open st.lane) d.peers) [
  | none ↦ (d, false)
  | some (nid, st) ↦ push_to d nid st st.lane bytes
]

unfoldable pub max_payload : Dsoftbus → ℕ → ℕ
max_payload d peer = elim (first_with (λ st. st.peer_id == peer) d.peers) [
  | none ↦ default_max_payload
  | some (nid, st) ↦ if ltb 0 st.max_payload then st.max_payload else default_max_payload
]

-- Whether the channel is still the peer's.
unfoldable pub is_live : Dsoftbus → ℕ → ℕ → Bool
is_live d peer fd =
    d.running && is_open (first_with (λ st. st.peer_id == peer && is_fd fd st.socket_fd) d.peers)

-- `ok` is whether `SendBytes` succeeds.
unfoldable pub deliver : Dsoftbus → ℕ → ℕ → List ℕ → Bool → Bool × List Effect
deliver d peer fd bytes ok =
    if is_live d peer fd
    then (ok, send_bytes fd (take (u32 (length bytes)) bytes) ∷ [])
    else (false, [])

-- The sink of a lane with the frame that its worker took off the queue.
unfoldable pub sink :
    Dsoftbus
    → List ℕ
    → PeerState
    → PeerLane
    → SendLane
    → Option (List ℕ)
    → Bool
    → Dsoftbus × List Effect
sink d nid st l lane' none ok = (set_lane d nid st l lane', [])
sink d nid st l lane' (some frame) ok =
    let (sent_ok, out) = deliver d l.sink_peer l.sink_fd frame ok in
    (set_lane d nid st l (sent lane' sent_ok), out)

unfoldable pub work :
    Dsoftbus → List ℕ → PeerState → Option PeerLane → Bool → Dsoftbus × List Effect
work d nid st none ok = (d, [])
work d nid st (some l) ok =
    let (lane', budget', frame) = next_frame l.lane d.budget in
    sink (record d { budget = budget' }) nid st l lane' frame ok

-- A round of the worker of a peer's lane.
unfoldable pub lane_round : Dsoftbus → List ℕ → Bool → Dsoftbus × List Effect
lane_round d nid ok = elim (find bytes_lt nid d.peers) [
  | none ↦ (d, [])
  | some st ↦ work d nid st st.lane ok
]

abbrev pub shut_open : Option ℕ → List Effect
shut_open none = []
shut_open (some fd) = shut_down fd ∷ []

unfoldable pub shut_sockets : List (List ℕ × PeerState) → List Effect
shut_sockets [] = []
shut_sockets ((nid, st) ∷ rest) = shut_open st.socket_fd ++ shut_sockets rest

unfoldable pub discard_all : List (List ℕ × PeerState) → SendBudget → SendBudget
discard_all [] budget = budget
discard_all ((nid, st) ∷ rest) budget = discard_all rest (discard st.lane budget)

-- `DsoftbusTransport::stop`
unfoldable pub close : Dsoftbus → Dsoftbus × List Effect
close d = if not d.running then (d, []) else (
  record d {
    running = false;
    attached = false;
    polling = false;
    listen_fd = none;
    peers = [];
    budget = discard_all d.peers d.budget;
  },
  shut_sockets d.peers ++ shut_open d.listen_fd,
)
