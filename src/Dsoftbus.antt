-- ===== src/Dsoftbus.antt =====
-- DsoftbusTransport of src/transport_dsoftbus.cpp: the channels to its peers. The client library is a parameter:
-- what its calls answer comes as arguments, and what is asked of it is the list of effects. A descriptor below
-- zero is `none`.
pub mod Traffic
pub mod Channels
pub mod Known
pub mod Loops
pub mod Lost
pub mod Session
pub mod Lanes
pub mod Inputs
pub mod Ids
pub mod Run
pub mod Rounds
pub mod Sending
pub mod Ending
pub mod Stuck
use mdds.Base.{
  ℕ, ◌+◌, ◌*◌, Bool, true, false, not, ◌&&◌, ◌||◌, Option, none, some, List, [], ◌∷◌, ◌++◌, length,
  take, ltb, ◌==◌, if◌then◌else◌,
}
use mdds.Wire.{u32, u64}
use mdds.Guid.{bytes_lt}
use mdds.OrderedMap.{find, put}
use mdds.Listener.{ListenerCall, peer_up, peer_down, on_bytes}
use mdds.SendLane.{SendLane, SendBudget, push, stop, next_frame, sent}

-- A lane with what its sink captures.
pub record PeerLane : Type 0 where
  pub sink_peer : ℕ
  pub sink_fd : ℕ
  pub lane : SendLane

pub record PeerState : Type 0 where
  pub peer_id : ℕ
  pub network_id : List ℕ
  pub socket_fd : Option ℕ
  pub pending_fd : Option ℕ
  pub up_notified : Bool
  pub lane : Option PeerLane
  pub max_payload : ℕ

-- `attached` is whether `s_instance` is this transport, and `polling` whether `poll_thread_` is joinable.
pub record Dsoftbus : Type 0 where
  pub running : Bool
  pub attached : Bool
  pub polling : Bool
  pub listen_fd : Option ℕ
  pub peers : List (List ℕ × PeerState)
  pub next_peer_id : ℕ
  pub budget : SendBudget

pub data Effect : Type 0 where
  shut_down : (fd : ℕ) → Effect
  tells : ListenerCall → Effect
  send_bytes : (fd : ℕ) → List ℕ → Effect

abbrev pub lane_byte_budget : ℕ
lane_byte_budget = 8 * 1024 * 1024

abbrev pub global_byte_budget : ℕ
global_byte_budget = 32 * 1024 * 1024

abbrev pub default_max_payload : ℕ
default_max_payload = 3800

-- A transport that is not started.
abbrev pub new_dsoftbus : Dsoftbus
new_dsoftbus = record {
  running = false;
  attached = false;
  polling = false;
  listen_fd = none;
  peers = [];
  next_peer_id = 1;
  budget = record { limit = global_byte_budget; used = 0 };
}

abbrev pub is_fd : ℕ → Option ℕ → Bool
is_fd fd none = false
is_fd fd (some f) = f == fd

abbrev pub is_open {ℓ} : {A : Type ℓ} → Option A → Bool
is_open none = false
is_open (some f) = true

-- The loops over `peers_` that end at the first match.
unfoldable pub first_with :
    (PeerState → Bool) → List (List ℕ × PeerState) → Option (List ℕ × PeerState)
first_with test [] = none
first_with test ((nid, st) ∷ rest) = if test st then some (nid, st) else first_with test rest

abbrev pub new_peer : ℕ → List ℕ → PeerState
new_peer id nid = record {
  peer_id = id;
  network_id = nid;
  socket_fd = none;
  pending_fd = none;
  up_notified = false;
  lane = none;
  max_payload = 0;
}

abbrev pub set_peer : Dsoftbus → List ℕ → PeerState → Dsoftbus
set_peer d nid st = record d { peers = put bytes_lt nid st d.peers }

-- `started` is whether an instance stands already, `listen` what `Socket` gives, and `listens` whether `Listen`
-- succeeds.
unfoldable pub start : Dsoftbus → Bool → Option ℕ → Bool → Dsoftbus × Bool × List Effect
start d started none listens =
    (record d { listen_fd = if d.running || started then d.listen_fd else none }, false, [])
start d started (some fd) listens =
    if d.running || started
    then (d, false, [])
    else if not listens
    then (record d { listen_fd = none }, false, shut_down fd ∷ [])
    else (
      record d { listen_fd = some fd; attached = true; running = true; polling = true },
      true,
      [],
    )

-- The peer is in the table: a new one gets the next id.
unfoldable pub know_peer : Dsoftbus → List ℕ → Dsoftbus × PeerState
know_peer d nid = elim (find bytes_lt nid d.peers) [
  | none ↦ (
    set_peer (record d { next_peer_id = u64 (d.next_peer_id + 1) }) nid
        (new_peer d.next_peer_id nid),
    new_peer d.next_peer_id nid,
  )
  | some st ↦ (d, st)
]

-- The loop of `connect_online_peers` over the nodes that are online: the peers to bind.
unfoldable pub online : Dsoftbus → List (List ℕ) → Dsoftbus × List (List ℕ)
online d [] = (d, [])
online d (nid ∷ nids) =
    let (d', st) = know_peer d nid in
    let (d'', to_bind) = online d' nids in
    (d'', if is_open st.socket_fd || is_open st.pending_fd then to_bind else nid ∷ to_bind)

-- `bind_peer` up to its `BindAsync`, with what `Socket` gives.
unfoldable pub begin_bind : Dsoftbus → List ℕ → Option ℕ → Dsoftbus × List Effect
begin_bind d nid none = (d, [])
begin_bind d nid (some fd) = elim (find bytes_lt nid d.peers) [
  | none ↦ (d, shut_down fd ∷ [])
  | some st ↦ (set_peer d nid (record st { pending_fd = some fd }), [])
]

abbrev pub clear_pending : ℕ → PeerState → PeerState
clear_pending fd st = record st {
  pending_fd = if is_fd fd st.pending_fd then none else st.pending_fd;
}

-- `bind_peer` behind a `BindAsync` that fails.
unfoldable pub fail_bind : Dsoftbus → List ℕ → ℕ → Dsoftbus × List Effect
fail_bind d nid fd = elim (find bytes_lt nid d.peers) [
  | none ↦ (d, shut_down fd ∷ [])
  | some st ↦ (set_peer d nid (clear_pending fd st), shut_down fd ∷ [])
]

-- The channel is the peer's from now on. `limit` is what `GetSessionOption` gives, 0 where it fails.
abbrev pub connected : PeerState → ℕ → ℕ → PeerState
connected st fd limit = record st {
  socket_fd = some fd;
  up_notified = true;
  max_payload = limit;
  lane = some (record {
    sink_peer = st.peer_id;
    sink_fd = fd;
    lane = record {
      byte_limit = lane_byte_budget;
      queue = [];
      bytes = 0;
      stopping = false;
      drain = false;
      dropped = 0;
      failed = 0;
    };
  });
}

unfoldable pub bound : Dsoftbus → List ℕ → PeerState → ℕ → ℕ → Option ℕ → Dsoftbus × List Effect
bound d nid st fd limit none =
    (set_peer d nid (connected st fd limit), tells (peer_up st.peer_id) ∷ [])
bound d nid st fd limit (some f) = (set_peer d nid st, if f == fd then [] else shut_down fd ∷ [])

unfoldable pub on_bind : Dsoftbus → ℕ → List ℕ → ℕ → Dsoftbus × List Effect
on_bind d fd [] limit = (d, [])
on_bind d fd (c ∷ nid) limit =
    let (d', st) = know_peer d (c ∷ nid) in
    let st' = clear_pending fd st in bound d' (c ∷ nid) st' fd limit st'.socket_fd

-- What a lost descriptor does to one peer.
abbrev pub lost_channel : ℕ → PeerState → PeerState
lost_channel fd st =
    if is_fd fd st.socket_fd
    then record st { socket_fd = none; max_payload = 0; lane = none; up_notified = false }
    else clear_pending fd st

unfoldable pub lose : ℕ → List (List ℕ × PeerState) → List (List ℕ × PeerState)
lose fd [] = []
lose fd ((nid, st) ∷ rest) = (nid, lost_channel fd st) ∷ lose fd rest

-- The peer that the listener is told of: the last one that had the descriptor and was up; 0 for none.
unfoldable pub lost_peer : ℕ → List (List ℕ × PeerState) → ℕ
lost_peer fd [] = 0
lost_peer fd ((nid, st) ∷ rest) =
    let later = lost_peer fd rest in
    if not (later == 0)
    then later
    else if is_fd fd st.socket_fd && st.up_notified
    then st.peer_id
    else 0

-- `stop(false)` of a lane, to the end of its worker: the budget behind it.
unfoldable pub discard : Option PeerLane → SendBudget → SendBudget
discard none budget = budget
discard (some l) budget = (next_frame (stop l.lane false) budget).1

unfoldable pub discard_lost : ℕ → List (List ℕ × PeerState) → SendBudget → SendBudget
discard_lost fd [] budget = budget
discard_lost fd ((nid, st) ∷ rest) budget =
    discard_lost fd rest (discard (if is_fd fd st.socket_fd then st.lane else none) budget)

unfoldable pub on_shutdown : Dsoftbus → ℕ → Dsoftbus × List Effect
on_shutdown d fd =
    let lost = lost_peer fd d.peers in
    if is_fd fd d.listen_fd then (record d { running = false }, []) else (
      record d { peers = lose fd d.peers; budget = discard_lost fd d.peers d.budget },
      if lost == 0 then [] else tells (peer_down lost) ∷ [],
    )

-- The first peer that is binding with the descriptor.
unfoldable pub on_error : Dsoftbus → ℕ → Dsoftbus × List Effect
on_error d fd = elim (first_with (λ st. is_fd fd st.pending_fd) d.peers) [
  | none ↦ (d, [])
  | some (nid, st) ↦ (set_peer d nid (record st { pending_fd = none }), shut_down fd ∷ [])
]

abbrev pub peer_of : Option (List ℕ × PeerState) → ℕ
peer_of none = 0
peer_of (some (nid, st)) = st.peer_id

unfoldable pub on_bytes_received : Dsoftbus → ℕ → List ℕ → List Effect
on_bytes_received d fd bytes =
    let peer = peer_of (first_with (λ st. is_fd fd st.socket_fd) d.peers) in
    if peer == 0 then [] else tells (on_bytes peer bytes) ∷ []
