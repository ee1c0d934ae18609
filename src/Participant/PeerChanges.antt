-- ===== src/Participant/PeerChanges.antt =====
-- A peer of a participant of src/participant.cpp comes up or is lost.
use mdds.Base.{
  ℕ, ◌≡◌, ◌≢◌, refl, true, List, [], ◌∷◌, All, All-weaken, ltb, ◌==◌, Bool-cases, inl, inr, arith,
  All-both,
}
use mdds.Guid.{Guid}
use mdds.OrderedMap.{erase, has_id, insert_id, erase_id}
use mdds.OrderedMap.Laws.{ltb-IsOrder, All-erase}
use mdds.OrderedMap.Erased.{IsSorted-erase, erase-All_others}
use mdds.OrderedMap.Ids.{
  Ascending, Ascending-insert_id, Ascending-erase_id, has_id-insert_id, has_id-erase_id,
}
use mdds.Participant.{Participant, RemoteParticipant, Link}
use mdds.Participant.Receive.{handle_peer_down, drop_peer}
use mdds.Participant.Send.{handle_peer_up}
use mdds.Participant.Reachable.{IsReachable, Stays-recompute_matches}

stays_up :
    (q peer : ℕ) (s : List ℕ)
    → Ascending s
    → has_id q s ≡ true
    → q ≢ peer
    → has_id q (erase_id peer s) ≡ true
stays_up q peer s a on ne = rw (has_id-erase_id q peer s a) (ground (arith, on, ne))

comes_up : (q peer : ℕ) (s : List ℕ) → has_id q s ≡ true → has_id q (insert_id peer s) ≡ true
comes_up q peer s on = let more = has_id-insert_id q peer s in ground (arith, more, on)

drop_peer-up :
    (peer : ℕ) (s : List ℕ) (m : List (Guid × RemoteParticipant))
    → Ascending s
    → All (λ kv. has_id kv.1.peer s ≡ true) m
    → All (λ kv. has_id kv.1.peer (erase_id peer s) ≡ true) (drop_peer peer m).0
unfolding drop_peer
drop_peer-up peer s [] a r = tt
drop_peer-up peer s ((g, rp) ∷ m) a (on, r) = elim (Bool-cases (rp.peer == peer)) [
  | inl t ↦ rw t (drop_peer-up peer s m a r)
  | inr t ↦ rw t (stays_up rp.peer peer s a on (ground (arith, t)), drop_peer-up peer s m a r)
]

pub IsReachable-handle_peer_up :
    (p : Participant) (link : Link) (peer : ℕ)
    → IsReachable p
    → IsReachable (handle_peer_up p link peer).0
unfolding handle_peer_up
IsReachable-handle_peer_up p link peer v = record {
  ascending = Ascending-insert_id peer p.peers v.ascending;
  remote_up = All-weaken _ _ p.remote (λ kv on. comes_up kv.1.peer peer p.peers on) v.remote_up;
  reassembling_up =
      All-weaken _ _ p.reassemblers (λ kv on. comes_up kv.0 peer p.peers on) v.reassembling_up;
  sorted = v.sorted;
}

lost_peer-Stays :
    (p : Participant) (peer : ℕ)
    → IsReachable p
    → IsReachable (record p {
      peers = erase_id peer p.peers;
      reassemblers = erase ltb peer p.reassemblers;
      remote = (drop_peer peer p.remote).0;
    })
lost_peer-Stays p peer v = record {
  ascending = Ascending-erase_id peer p.peers v.ascending;
  remote_up = drop_peer-up peer p.peers p.remote v.ascending v.remote_up;
  reassembling_up =
      All-weaken _ _ (erase ltb peer p.reassemblers)
        (λ kv (on, ne). stays_up kv.0 peer p.peers v.ascending on ne)
        (All-both _ _ (erase ltb peer p.reassemblers)
          (All-erase ltb (λ kv. has_id kv.0 p.peers ≡ true) peer p.reassemblers v.reassembling_up)
          (erase-All_others ltb ltb-IsOrder peer p.reassemblers v.sorted));
  sorted = IsSorted-erase ltb ltb-IsOrder peer p.reassemblers v.sorted;
}

pub peer_down-Stays :
    (p : Participant) (peer : ℕ)
    → IsReachable p
    → ((handle_peer_down p peer).0.peers ≡ erase_id peer p.peers)
      × IsReachable (handle_peer_down p peer).0
unfolding handle_peer_down
peer_down-Stays p peer v =
    let p' : Participant = record p {
      peers = erase_id peer p.peers;
      reassemblers = erase ltb peer p.reassemblers;
      remote = (drop_peer peer p.remote).0;
    } in
    let gone = lost_peer-Stays p peer v in
    let k = Stays-recompute_matches p' p' (record { same_peers = refl; reachable = gone }) in
    elim (Bool-cases (drop_peer peer p.remote).1) [
      | inl t ↦ rw t (k.same_peers, k.reachable)
      | inr t ↦ rw t (refl, gone)
    ]
