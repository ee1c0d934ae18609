-- ===== src/Participant/Samples.antt =====
-- A sample on its way from one participant to another: send_sample_to on the one side, handle_bytes on the
-- other, in src/participant.cpp.
use mdds.Base.{
  ℕ, ◌+◌, ◌<◌, ◌≡◌, refl, ap, true, false, none, some, List, [], ◌∷◌, length, get_elem?, ltb, ◌==◌,
  if◌then◌else◌, inr, arith,
}
use mdds.Wire.{u32, IsU16, IsU32, IsU64}
use mdds.Guid.{Guid}
use mdds.Fragment.{fragment, find_partial}
use mdds.OrderedMap.{find}
use mdds.PeerId.{peer_transport_index, peer_backend_id}
use mdds.Participant.{
  Participant, Transport, Link, Output, frame, data_ready, graph_changed, announce_wanted,
  send_frame, send_frames, max_payload, send_sample_to,
}
use mdds.Participant.Receive.{Readings, or_new}
use mdds.Participant.Transfer.{receive_all, Delivers, fragments_received}

-- The frames for one peer, in order.
unfoldable pub frames_to : ℕ → List Output → List (List ℕ)
frames_to p [] = []
frames_to p (frame q bytes ∷ out) = if p == q then bytes ∷ frames_to p out else frames_to p out
frames_to p (data_ready r ∷ out) = frames_to p out
frames_to p (graph_changed ∷ out) = frames_to p out
frames_to p (announce_wanted ∷ out) = frames_to p out

module _ (link : Link) (peer : ℕ) (tr : Transport)
    (no_hook : (bytes : List ℕ) → link.hook bytes ≡ false)
    (there : get_elem? link.transports (peer_transport_index peer) ≡ some tr) where
  frames_to-send_frames : (fs : List (List ℕ)) → frames_to peer (send_frames link peer fs).1 ≡ fs
  unfolding frames_to send_frames send_frame
  frames_to-send_frames [] = refl
  frames_to-send_frames (f ∷ fs) =
      let self : (peer == peer) ≡ true = ground arith in
      rw (no_hook f, there) (rw self (ap (λ r. f ∷ r) (frames_to-send_frames fs)))

  max_payload_there : max_payload link peer ≡ tr.max_payload (peer_backend_id peer)
  unfolding max_payload
  max_payload_there = rw (there, max_payload) refl

  frames_to-send_sample_to :
      (g : Guid) (seq time : ℕ) (payload : List ℕ) (flags : ℕ)
      → 0 < tr.max_payload (peer_backend_id peer)
      → frames_to peer (send_sample_to link peer g seq time payload flags).1
        ≡ fragment g seq time
            (some payload)
            (u32 (length payload))
            (tr.max_payload (peer_backend_id peer))
            flags
  unfolding send_sample_to
  frames_to-send_sample_to g seq time payload flags some_room =
      let room : (tr.max_payload (peer_backend_id peer) == 0) ≡ false = ground arith in
      rw max_payload_there (rw room (frames_to-send_frames _))

  -- A sample that `send_sample_to` hands to a peer's transport reaches the participant that takes in these
  -- frames, one after the other and without another in between: together they are one `deliver_sample` of
  -- the sample as it was written, and leave nothing but the reassemblers otherwise. The transport takes
  -- frames of 57 bytes or more, and no older fragment of the sample waits.
  pub sample_transferred :
      (g : Guid) (seq time : ℕ) (payload : List ℕ) (flags : ℕ) (hg : length g.bytes ≡ 16)
      (hs : IsU64 seq) (ht : IsU64 time) (hf : IsU16 flags) (small : IsU32 (44 + length payload))
      (q : Participant) (link' : Link) (from : ℕ) (t : ℕ → Readings) (n : ℕ)
      → 56 < tr.max_payload (peer_backend_id peer)
      → find_partial (g, seq) (or_new (find ltb from q.reassemblers)).partials ≡ none
      → Delivers link' from t g seq time flags payload hg hs ht hf small q (
          receive_all q link' from t n
            (frames_to peer (send_sample_to link peer g seq time payload flags).1))
  sample_transferred g seq time payload flags hg hs ht hf small q link' from t n room fresh =
      let whole : u32 (length payload) ≡ length payload = omega arith in
      let sent : frames_to peer (send_sample_to link peer g seq time payload flags).1
          ≡ fragment g seq time (some payload) (length payload)
              (tr.max_payload (peer_backend_id peer)) flags =
        rw whole at (frames_to-send_sample_to g seq time payload flags (omega arith)) in
      rw sent (
        fragments_received link' from t g seq time flags payload hg hs ht hf small q n
          (tr.max_payload (peer_backend_id peer)) (inr room) fresh)
