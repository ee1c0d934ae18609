-- ===== src/Dsoftbus/Channels.antt =====
-- The channels of src/transport_dsoftbus.cpp: each peer has an id of its own, a lane exactly while it has a socket,
-- and no two peers share a socket.
use mdds.Base.{
  ℕ, ◌<◌, ◌≡◌, ◌≢◌, refl, sym, subst, ◌∙◌, Bool, false, ◌&&◌, Option, none, some, List, [], ◌∷◌,
  All, All-weaken, ◌==◌, Bool-cases, inl, inr, arith,
}
use mathlib.Core.Option.{some-injective}
use mdds.Guid.{bytes_lt}
use mdds.OrderedMap.{find}
use mdds.OrderedMap.Laws.{bytes_lt-IsOrder, All-put, find-All}
use mdds.OrderedMap.Sorted.{
  IsSorted, Pairwise, IsSorted-put, Pairwise-put_at, Pairwise-find, any_value, any_value-put_found,
}
use mdds.SendLane.{SendBudget}
use mdds.Dsoftbus.{Dsoftbus, PeerState, PeerLane, is_open, set_peer}

-- A lane stands exactly where a socket does, and its sink captures the peer and that socket.
abbrev pub LaneFits : ℕ → Option ℕ → Option PeerLane → Type 0
LaneFits id none none = Unit {0}
LaneFits id none (some l) = ⊥
LaneFits id (some fd) none = ⊥
LaneFits id (some fd) (some l) = (l.sink_peer ≡ id) × (l.sink_fd ≡ fd)

pub record IsChannel (next : ℕ) (st : PeerState) : Type 0 where
  pub id_pos : 0 < st.peer_id
  pub id_used : st.peer_id < next
  pub up_open : st.up_notified ≡ is_open st.socket_fd
  pub lane_fits : LaneFits st.peer_id st.socket_fd st.lane

abbrev pub SocketsApart : Option ℕ → Option ℕ → Type 0
SocketsApart (some f) (some g) = f ≢ g
SocketsApart none g = Unit {0}
SocketsApart (some f) none = Unit {0}

abbrev pub IdApart : PeerState → PeerState → Type 0
IdApart u v = u.peer_id ≢ v.peer_id

abbrev pub FdApart : PeerState → PeerState → Type 0
FdApart u v = SocketsApart u.socket_fd v.socket_fd

pub record IsDsoftbus (d : Dsoftbus) : Type 0 where
  pub sorted : IsSorted bytes_lt d.peers
  pub channels : All (λ kv. IsChannel d.next_peer_id kv.1) d.peers
  pub ids : Pairwise IdApart d.peers
  pub sockets : Pairwise FdApart d.peers
  pub next_pos : 0 < d.next_peer_id

-- Whether the peer with this id is up.
abbrev pub is_up_as : ℕ → PeerState → Bool
is_up_as q st = st.up_notified && (q == st.peer_id)

unfoldable pub is_up : ℕ → List (List ℕ × PeerState) → Bool
is_up q m = any_value (is_up_as q) m

pub SocketsApart-flip : (f g : Option ℕ) → SocketsApart f g → SocketsApart g f
SocketsApart-flip none none h = tt
SocketsApart-flip none (some g) h = tt
SocketsApart-flip (some f) none h = tt
SocketsApart-flip (some f) (some g) h = λ e. h (sym e)

pub SocketsApart-none : (f : Option ℕ) → SocketsApart f none
SocketsApart-none none = tt
SocketsApart-none (some f) = tt

-- An entry is replaced by one with its id, whose socket is no other entry's.
pub IsDsoftbus-set_peer :
    (d : Dsoftbus) (nid : List ℕ) (st st' : PeerState)
    → IsDsoftbus d
    → find bytes_lt nid d.peers ≡ some st
    → st'.peer_id ≡ st.peer_id
    → IsChannel d.next_peer_id st'
    → All (λ kv. kv.0 ≢ nid → FdApart st' kv.1) d.peers
    → IsDsoftbus (set_peer d nid st')
IsDsoftbus-set_peer d nid st st' v e same ok apart = record {
  sorted = IsSorted-put bytes_lt bytes_lt-IsOrder nid st' d.peers v.sorted;
  channels = All-put bytes_lt (λ kv. IsChannel d.next_peer_id kv.1) nid st' d.peers ok v.channels;
  ids =
      Pairwise-put_at bytes_lt bytes_lt-IsOrder IdApart (λ a b h k. h (sym k)) nid st' d.peers
        v.sorted
        (All-weaken _ _ d.peers (λ kv h ne k. h ne (sym same ∙ k))
          (Pairwise-find bytes_lt bytes_lt-IsOrder IdApart (λ a b h k. h (sym k)) nid st d.peers e
            v.ids))
        v.ids;
  sockets =
      Pairwise-put_at bytes_lt bytes_lt-IsOrder FdApart
        (λ a b. SocketsApart-flip a.socket_fd b.socket_fd) nid st' d.peers v.sorted apart v.sockets;
  next_pos = v.next_pos;
}

pub IsChannel-find :
    (d : Dsoftbus) (nid : List ℕ) (st : PeerState)
    → IsDsoftbus d
    → find bytes_lt nid d.peers ≡ some st
    → IsChannel d.next_peer_id st
IsChannel-find d nid st v e =
    find-All bytes_lt (IsChannel d.next_peer_id) nid st d.peers e v.channels

pub FdApart-find :
    (d : Dsoftbus) (nid : List ℕ) (st : PeerState)
    → IsDsoftbus d
    → find bytes_lt nid d.peers ≡ some st
    → All (λ kv. kv.0 ≢ nid → FdApart st kv.1) d.peers
FdApart-find d nid st v e =
    Pairwise-find bytes_lt bytes_lt-IsOrder FdApart
      (λ a b. SocketsApart-flip a.socket_fd b.socket_fd) nid st d.peers e v.sockets

-- The same peer with another `pending_fd`.
pub IsChannel-pending :
    (next : ℕ) (st : PeerState) (f : Option ℕ)
    → IsChannel next st
    → IsChannel next (record st { pending_fd = f })
IsChannel-pending next st f c = record {
  id_pos = c.id_pos;
  id_used = c.id_used;
  up_open = c.up_open;
  lane_fits = c.lane_fits;
}

pub IsDsoftbus-pending :
    (d : Dsoftbus) (nid : List ℕ) (st : PeerState) (f : Option ℕ)
    → IsDsoftbus d
    → find bytes_lt nid d.peers ≡ some st
    → IsDsoftbus (set_peer d nid (record st { pending_fd = f }))
IsDsoftbus-pending d nid st f v e =
    IsDsoftbus-set_peer d nid st (record st { pending_fd = f }) v e refl
      (IsChannel-pending d.next_peer_id st f (IsChannel-find d nid st v e))
      (FdApart-find d nid st v e)

-- A change of an entry that leaves whether it is up and its id.
pub is_up-set_peer :
    (d : Dsoftbus) (nid : List ℕ) (st st' : PeerState) (q : ℕ)
    → find bytes_lt nid d.peers ≡ some st
    → is_up_as q st' ≡ is_up_as q st
    → is_up q (set_peer d nid st').peers ≡ is_up q d.peers
unfolding is_up
is_up-set_peer d nid st st' q e same =
    any_value-put_found (is_up_as q) bytes_lt nid st' st d.peers e same

-- The descriptors and ids stay as they are.
pub IsDsoftbus-with :
    (d : Dsoftbus) (on : Bool) (budget : SendBudget)
    → IsDsoftbus d
    → IsDsoftbus (record d { running = on; budget = budget })
IsDsoftbus-with d on budget v = record {
  sorted = v.sorted;
  channels = v.channels;
  ids = v.ids;
  sockets = v.sockets;
  next_pos = v.next_pos;
}

-- An id that no entry has is not up.
pub not_up :
    (q : ℕ) (m : List (List ℕ × PeerState)) → All (λ kv. q ≢ kv.1.peer_id) m → is_up q m ≡ false
unfolding is_up any_value
not_up q [] a = refl
not_up q ((k, st) ∷ m) (ne, a) = ground (arith, not_up q m a)

-- A peer that is not up is not up under its id.
pub is_down-find :
    (nid : List ℕ) (st : PeerState) (m : List (List ℕ × PeerState))
    → find bytes_lt nid m ≡ some st
    → st.up_notified ≡ false
    → Pairwise IdApart m
    → is_up st.peer_id m ≡ false
unfolding find is_up any_value
is_down-find nid st [] e off p = absurd (cc)
is_down-find nid st ((j, u) ∷ m) e off (r, p) = elim (Bool-cases (bytes_lt nid j)) [
  | inl kj ↦ absurd (cc)
  | inr t ↦ elim (Bool-cases (bytes_lt j nid)) [
    | inl jk ↦
        let there : find bytes_lt nid m ≡ some st = rw (t, jk) at e in
        let other : u.peer_id ≢ st.peer_id =
          find-All bytes_lt (λ w. u.peer_id ≢ w.peer_id) nid st m there r in
        let rest = is_down-find nid st m there off p in
        let differ : (st.peer_id == u.peer_id) ≡ false =
          ground (arith, λ (k : u.peer_id ≡ st.peer_id). other k) in
        rw differ (ground (arith, rest))
    | inr jk ↦
        let here : u ≡ st = some-injective u st (rw (t, jk) at e) in
        let rest =
          not_up st.peer_id m (subst (λ w. All (λ kv. w.peer_id ≢ kv.1.peer_id) m) here r) in
        rw here (rw off rest)
  ]
]
