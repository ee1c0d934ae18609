-- ===== src/Dsoftbus/Ids.antt =====
-- How many peer ids the transport of src/transport_dsoftbus.cpp gives out.
use mdds.Base.{
  ℕ, ◌+◌, ◌^◌, ◌≤◌, ◌<◌, ◌≡◌, refl, ◌∙◌, Bool, ◌&&◌, Option, none, some, List, [], ◌∷◌, length,
  ◌==◌, Bool-cases, Option-cases, inl, inr, arith,
}
use mdds.Guid.{bytes_lt}
use mdds.OrderedMap.{find}
use mdds.Dsoftbus.{
  Dsoftbus, PeerState, PeerLane, is_fd, is_open, know_peer, online, begin_bind, fail_bind,
  clear_pending, bound, on_bind, on_shutdown, first_with, on_error,
}
use mdds.Dsoftbus.Channels.{IsDsoftbus, is_up}
use mdds.Dsoftbus.Traffic.{push_to, send, sink, work, lane_round}
use mdds.Dsoftbus.Known.{know_peer-Knows}
use mdds.SendLane.{SendLane, next_frame}
use mdds.Dsoftbus.Inputs.{
  Input, are_online, begins, fails, binds, shuts, errs, receives, sends, works, input, ids_taken,
}

-- The peers that are online get their entries.
pub online-lem :
    (d : Dsoftbus) (nids : List (List ℕ))
    → IsDsoftbus d
    → d.next_peer_id + length nids < 2 ^ 64
    → IsDsoftbus (online d nids).0
      × ((q : ℕ) → is_up q (online d nids).0.peers ≡ is_up q d.peers)
      × ((online d nids).0.next_peer_id ≤ d.next_peer_id + length nids)
unfolding online
online-lem d [] v room = (v, λ q. refl, omega arith)
online-lem d (nid ∷ nids) v room =
    let k = know_peer-Knows d nid v (omega arith) in
    let more = k.one_more in
    let rest = online-lem (know_peer d nid).0 nids k.valid (omega arith) in
    (rest.0, λ q. rest.1 q ∙ k.same_up q, omega (arith, rest.2))

next_id-bound :
    (d : Dsoftbus) (nid : List ℕ) (st : PeerState) (fd limit : ℕ) (f : Option ℕ)
    → (bound d nid st fd limit f).0.next_peer_id ≡ d.next_peer_id
unfolding bound
next_id-bound d nid st fd limit none = refl
next_id-bound d nid st fd limit (some g) = refl

next_id-on_bind :
    (d : Dsoftbus) (fd : ℕ) (nid : List ℕ) (limit : ℕ)
    → IsDsoftbus d
    → d.next_peer_id + 1 < 2 ^ 64
    → (on_bind d fd nid limit).0.next_peer_id ≤ d.next_peer_id + 1
unfolding on_bind
next_id-on_bind d fd [] limit v room = omega arith
next_id-on_bind d fd (c ∷ nid) limit v room =
    let r = know_peer d (c ∷ nid) in
    let st = clear_pending fd r.1 in
    let same = next_id-bound r.0 (c ∷ nid) st fd limit st.socket_fd in
    rw same ((know_peer-Knows d (c ∷ nid) v room).one_more)

next_id-push_to :
    (d : Dsoftbus) (nid : List ℕ) (st : PeerState) (o : Option PeerLane) (bytes : List ℕ)
    → (push_to d nid st o bytes).0.next_peer_id ≡ d.next_peer_id
unfolding push_to
next_id-push_to d nid st none bytes = refl
next_id-push_to d nid st (some l) bytes = refl

next_id-sink :
    (d : Dsoftbus) (nid : List ℕ) (st : PeerState) (l : PeerLane) (lane' : SendLane)
    (frame : Option (List ℕ)) (ok : Bool)
    → (sink d nid st l lane' frame ok).0.next_peer_id ≡ d.next_peer_id
unfolding sink
next_id-sink d nid st l lane' none ok = refl
next_id-sink d nid st l lane' (some f) ok = refl

next_id-work :
    (d : Dsoftbus) (nid : List ℕ) (st : PeerState) (o : Option PeerLane) (ok : Bool)
    → (work d nid st o ok).0.next_peer_id ≡ d.next_peer_id
unfolding work
next_id-work d nid st none ok = refl
next_id-work d nid st (some l) ok =
    next_id-sink (record d { budget = (next_frame l.lane d.budget).1 }) nid st l _ _ ok

pub input-next_peer_id :
    (d : Dsoftbus) (x : Input)
    → IsDsoftbus d
    → d.next_peer_id + ids_taken x < 2 ^ 64
    → (input d x).0.next_peer_id ≤ d.next_peer_id + ids_taken x
unfolding input begin_bind fail_bind on_shutdown on_error send lane_round
input-next_peer_id d (are_online nids) v room = (online-lem d nids v room).2
input-next_peer_id d (begins nid none) v room = omega arith
input-next_peer_id d (begins nid (some fd)) v room =
    elim (Option-cases (find bytes_lt nid d.peers)) [
      | inl e ↦ rw (e, begin_bind) (omega arith)
      | inr (st, e) ↦ rw (e, begin_bind) (omega arith)
    ]
input-next_peer_id d (fails nid fd) v room = elim (Option-cases (find bytes_lt nid d.peers)) [
  | inl e ↦ rw (e, fail_bind) (omega arith)
  | inr (st, e) ↦ rw (e, fail_bind) (omega arith)
]
input-next_peer_id d (binds fd nid limit) v room = next_id-on_bind d fd nid limit v room
input-next_peer_id d (shuts fd) v room = elim (Bool-cases (is_fd fd d.listen_fd)) [
  | inl t ↦ rw t (omega arith)
  | inr t ↦ rw t (omega arith)
]
input-next_peer_id d (errs fd) v room =
    elim (Option-cases (first_with (λ st. is_fd fd st.pending_fd) d.peers)) [
      | inl e ↦ rw (e, on_error) (omega arith)
      | inr ((nid, st), e) ↦ rw (e, on_error) (omega arith)
    ]
input-next_peer_id d (receives fd bytes) v room = omega arith
input-next_peer_id d (sends peer bytes) v room =
    elim (Option-cases (first_with (λ st. st.peer_id == peer && is_open st.lane) d.peers)) [
      | inl e ↦ rw (e, send) (omega arith)
      | inr ((nid, st), e) ↦ rw (e, send) (omega (arith, next_id-push_to d nid st st.lane bytes))
    ]
input-next_peer_id d (works nid ok) v room = elim (Option-cases (find bytes_lt nid d.peers)) [
  | inl e ↦ rw (e, lane_round) (omega arith)
  | inr (st, e) ↦ rw (e, lane_round) (omega (arith, next_id-work d nid st st.lane ok))
]
