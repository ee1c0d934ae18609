-- ===== src/Participant/Greeting.antt =====
-- The first announcement to a peer that came up, in src/participant.cpp: handle_peer_up on the one side,
-- handle_bytes on the other.
use mdds.Base.{
  ℕ, ◌≡◌, ◌⊎◌, refl, sym, ◌∙◌, ap, true, false, some, List, [], ◌∷◌, ◌++◌, map, All, All-weaken,
  length, ◌==◌, get_elem?, inl, inr, arith, append-nil,
}
use mdds.Wire.{IsU32, IsU64}
use mdds.Guid.{guid_eq, guid_eq_iff}
use mdds.Discovery.{
  EndpointRecord, ParticipantSnapshot, announce_body, encode_announce, decode_announce,
}
use mdds.Discovery.RoundTrip.{IsSnapshot, decode_announce-encode_announce}
use mdds.PeerId.{peer_transport_index}
use mdds.Writer.{Writer}
use mdds.Reader.{Reader}
use mdds.Participant.{Participant, Link, Transport, send_frame}
use mdds.Participant.Endpoints.{
  snapshot, writer_endpoint, reader_endpoint, writer_kind, reader_kind,
}
use mdds.Participant.Send.{handle_peer_up, send_announce}
use mdds.Participant.Receive.{Readings, handle_bytes}
use mdds.Participant.Dispatch.{handle_bytes-announce}
use mdds.Participant.Samples.{frames_to}
use mdds.Participant.Known.{Announce, known, newer, known-hear}

-- What a participant announces of itself, as it is heard through a peer.
abbrev pub own_announce : Participant → ℕ → Readings → Announce
own_announce a from t = record {
  peer = from;
  snap = snapshot a;
  seq = a.announce_seq;
  heard_at = t.steady_ms;
  stored_at = t.stored_at;
  replay_at = t.replay_at;
}

-- The endpoint is among those of the list.
abbrev pub HasEndpoint : (EndpointRecord → Type 0) → List EndpointRecord → Type 0
HasEndpoint P [] = ⊥
HasEndpoint P (ep ∷ eps) = P ep ⊎ HasEndpoint P eps

abbrev pub IsOfWriter : Writer → EndpointRecord → Type 0
IsOfWriter w ep =
    (ep.guid ≡ w.guid)
    × (ep.kind ≡ writer_kind)
    × (ep.topic ≡ w.topic)
    × (ep.type_name ≡ w.type_name)
    × (ep.qos ≡ w.qos)
    × (ep.birth_us ≡ w.birth_us)

abbrev pub IsOfReader : Reader → EndpointRecord → Type 0
IsOfReader r ep =
    (ep.guid ≡ r.guid)
    × (ep.kind ≡ reader_kind)
    × (ep.topic ≡ r.topic)
    × (ep.type_name ≡ r.type_name)
    × (ep.qos ≡ r.qos)
    × (ep.birth_us ≡ r.birth_us)

-- The snapshot tells of all nodes and all endpoints of the participant.
pub record Tells (a : Participant) (sn : ParticipantSnapshot) : Type 0 where
  pub of_it : sn.participant_guid ≡ a.guid
  pub nodes : sn.nodes ≡ a.nodes
  pub writers : All (λ kv. HasEndpoint (IsOfWriter kv.1) sn.endpoints) a.writers
  pub readers : All (λ kv. HasEndpoint (IsOfReader kv.1) sn.endpoints) a.readers

module _ (P : EndpointRecord → Type 0) where
  HasEndpoint-left : (xs ys : List EndpointRecord) → HasEndpoint P xs → HasEndpoint P (xs ++ ys)
  HasEndpoint-left [] ys h = absurd h
  HasEndpoint-left (x ∷ xs) ys (inl h) = inl h
  HasEndpoint-left (x ∷ xs) ys (inr h) = inr (HasEndpoint-left xs ys h)

  HasEndpoint-right : (xs ys : List EndpointRecord) → HasEndpoint P ys → HasEndpoint P (xs ++ ys)
  HasEndpoint-right [] ys h = h
  HasEndpoint-right (x ∷ xs) ys h = inr (HasEndpoint-right xs ys h)

-- Each entry of a table has its endpoint in the list of them.
map-HasEndpoint :
    {V : Type 0} (f : ℕ × V → EndpointRecord) (P : V → EndpointRecord → Type 0)
    → ((kv : ℕ × V) → P kv.1 (f kv))
    → (m : List (ℕ × V)) → All (λ kv. HasEndpoint (P kv.1) (map f m)) m
map-HasEndpoint f P ok [] = tt
map-HasEndpoint f P ok (kv ∷ m) =
    (inl (ok kv), All-weaken _ _ m (λ x h. inr h) (map-HasEndpoint f P ok m))

Tells-snapshot : (a : Participant) → Tells a (snapshot a)
unfolding snapshot
Tells-snapshot a =
    let ws = map writer_endpoint a.writers in
    let rs = map reader_endpoint a.readers in
    record {
      of_it = refl;
      nodes = refl;
      writers =
          All-weaken _ _ a.writers (λ kv h. HasEndpoint-left (IsOfWriter kv.1) ws rs h)
            (map-HasEndpoint writer_endpoint IsOfWriter (λ kv. (refl, refl, refl, refl, refl, refl))
              a.writers);
      readers =
          All-weaken _ _ a.readers (λ kv h. HasEndpoint-right (IsOfReader kv.1) ws rs h)
            (map-HasEndpoint reader_endpoint IsOfReader (λ kv. (refl, refl, refl, refl, refl, refl))
              a.readers);
    }

frames_to-send_frame :
    (link : Link) (peer : ℕ) (bytes : List ℕ) (tr : Transport)
    → link.hook bytes ≡ false
    → get_elem? link.transports (peer_transport_index peer) ≡ some tr
    → frames_to peer (send_frame link peer bytes).1 ≡ bytes ∷ []
unfolding frames_to send_frame
frames_to-send_frame link peer bytes tr passes there =
    let self : (peer == peer) ≡ true = ground arith in rw (passes, there, send_frame) (rw self refl)

module _ (a : Participant) (good : IsSnapshot (snapshot a)) (hs : IsU64 a.announce_seq)
    (hn : IsU32 (length (announce_body (snapshot a) a.announce_seq))) (b : Participant)
    (link' : Link) (from : ℕ) (t : Readings) where
  heard-own :
      known (handle_bytes b link' from (encode_announce (snapshot a) a.announce_seq) t).0 a.guid
      ≡ newer (known b a.guid) (own_announce a from t)
  unfolding snapshot
  heard-own =
      let bytes = encode_announce (snapshot a) a.announce_seq in
      let read : decode_announce bytes ≡ some (snapshot a, a.announce_seq) =
        sym (ap decode_announce (append-nil bytes))
        ∙ decode_announce-encode_announce (snapshot a) a.announce_seq [] good hs hn in
      let self : guid_eq a.guid a.guid ≡ true = (guid_eq_iff a.guid a.guid).1 refl in
      rw (handle_bytes-announce b link' from bytes t (snapshot a) a.announce_seq read)
        (rw self at (known-hear b link' (own_announce a from t) a.guid))

  -- A participant hands over exactly one frame for a peer that came up. The participant that takes it in
  -- knows all nodes and endpoints of the first one under the number of the announcement then, unless it knew
  -- of a number as high. The snapshot is in the range of the ANNOUNCE frame, the peer's transport is there, and
  -- the hook takes no frame.
  pub known-handle_peer_up :
      (link : Link) (peer : ℕ) (tr : Transport)
      → ((bytes : List ℕ) → link.hook bytes ≡ false)
      → get_elem? link.transports (peer_transport_index peer) ≡ some tr
      → (bytes : List ℕ) × (frames_to peer (handle_peer_up a link peer).1 ≡ bytes ∷ [])
        × (known (handle_bytes b link' from bytes t).0 a.guid
            ≡ newer (known b a.guid) (own_announce a from t))
        × Tells a (own_announce a from t).snap
  unfolding handle_peer_up send_announce snapshot
  known-handle_peer_up link peer tr passes there =
      let bytes = encode_announce (snapshot a) a.announce_seq in
      (
        bytes,
        frames_to-send_frame link peer bytes tr (passes bytes) there,
        heard-own,
        Tells-snapshot a,
      )
