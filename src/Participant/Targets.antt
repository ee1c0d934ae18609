-- ===== src/Participant/Targets.antt =====
-- Where a writer's samples go, and what the loss of a peer changes of it.
use mdds.Base.{ℕ, ◌≡◌, refl, not, ◌&&◌, List, [], ◌∷◌, ◌==◌, Bool-cases, inl, inr, arith}
use mdds.Guid.{Guid}
use mdds.Writer.{Writer}
use mdds.OrderedMap.{has_id}
use mdds.OrderedMap.Ids.{has_id-insert_id}
use mdds.Participant.{Participant, RemoteParticipant}
use mdds.Participant.Endpoints.{has_target, send_targets, recompute_matches}
use mdds.Participant.Receive.{drop_peer, handle_peer_down}

has_id-send_targets :
    (w : Writer) (q peer : ℕ) (remote : List (Guid × RemoteParticipant))
    → has_id q (send_targets w (drop_peer peer remote).0)
      ≡ (has_id q (send_targets w remote) && not (q == peer))
unfolding send_targets drop_peer
has_id-send_targets w q peer [] = unfold has_id in refl
has_id-send_targets w q peer ((g, rp) ∷ rest) =
    let others = has_id-send_targets w q peer rest in
    let with_all = has_id-insert_id q rp.peer (send_targets w rest) in
    let with_kept = has_id-insert_id q rp.peer (send_targets w (drop_peer peer rest).0) in
    elim (Bool-cases (rp.peer == peer)) [
      | inl gone ↦ rw gone (elim (Bool-cases (has_target w rp.snap.endpoints)) [
        | inl t ↦ rw t (ground (arith, others, with_all))
        | inr t ↦ rw t others
      ])
      | inr stays ↦ rw stays (elim (Bool-cases (has_target w rp.snap.endpoints)) [
        | inl t ↦ rw t (ground (arith, others, with_all, with_kept))
        | inr t ↦ rw t others
      ])
    ]

-- When a peer is lost, a writer's samples go where they went before, less that peer.
pub send_targets-handle_peer_down :
    (p : Participant) (peer : ℕ) (w : Writer) (q : ℕ)
    → has_id q (send_targets w (handle_peer_down p peer).0.remote)
      ≡ (has_id q (send_targets w p.remote) && not (q == peer))
unfolding handle_peer_down recompute_matches
send_targets-handle_peer_down p peer w q = elim (Bool-cases (drop_peer peer p.remote).1) [
  | inl t ↦ rw t (has_id-send_targets w q peer p.remote)
  | inr t ↦ rw t (has_id-send_targets w q peer p.remote)
]
