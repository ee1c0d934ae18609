-- ===== src/Participant/Starting.antt =====
-- What start_transport of src/participant.cpp does to the transports of a participant.
use mdds.Base.{
  ℕ, ◌^◌, ◌<◌, ◌≡◌, refl, ◌∙◌, true, false, some, List, [], ◌∷◌, ◌++◌, length, get_elem?, arith,
}
use mdds.PeerId.{make_peer_id, peer_id_parts, peer_backend_id}
use mdds.Listener.{ListenerCall}
use mdds.Participant.{Participant, Link, Transport, frame, send_frame}
use mdds.Participant.Receive.{Readings}
use mdds.Participant.Relay.{start_transport}

get_elem-append {ℓ} :
    {A : Type ℓ} (xs : List A) (x : A) → get_elem? (xs ++ (x ∷ [])) (length xs) ≡ some x
get_elem-append [] x = refl
get_elem-append (y ∷ xs) x = get_elem-append xs x

-- What the participant sends to a peer that a transport told of goes to that transport, under the id that the
-- transport gave, for every transport that started; one that did not start is not kept. The index is below
-- 256, the transport's id fits in 56 bits, and the hook takes no frame.
pub send_frame-start_transport :
    (p : Participant) (link : Link) (t : Transport) (calls : List (ListenerCall × Readings)) (q : ℕ)
    (bytes : List ℕ)
    → length link.transports < 2 ^ 8
    → q < 2 ^ 56
    → link.hook bytes ≡ false
    → ((start_transport p link t false calls).1 ≡ link)
      × (send_frame
            (start_transport p link t true calls).1
            (make_peer_id (length link.transports) q)
            bytes
          ≡ (t.send q bytes, frame (make_peer_id (length link.transports) q) bytes ∷ []))
unfolding start_transport send_frame
send_frame-start_transport p link t calls q bytes small short passes =
    let (index, own) = peer_id_parts (length link.transports) q small in
    let whole : peer_backend_id (make_peer_id (length link.transports) q) ≡ q = own ∙ omega arith in
    let there = get_elem-append link.transports t in
    (refl, rw passes (rw (index, there, send_frame) (rw whole refl)))
