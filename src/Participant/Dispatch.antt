-- ===== src/Participant/Dispatch.antt =====
-- A frame that its decoder reads reaches its handler.
use mdds.Base.{
  ℕ, ◌≡◌, refl, true, false, Option, none, some, List, drop, ◌==◌, Bool-cases, Option-cases, inl,
  inr, ==→eq, arith,
}
use mdds.Frame.{
  FrameHeader, DataBody, DataFragBody, data_type, data_frag_type, announce_type, header_size,
  decode_header, decode_data, data_body, ◌>>=◌,
}
use mdds.Frame.Frag.{decode_data_frag, data_frag_body}
use mdds.Discovery.{ParticipantSnapshot, decode_announce, announce_of}
use mdds.Participant.{Participant, Link}
use mdds.Participant.Receive.{
  Readings, handle_bytes, dispatch, deliver_data, deliver_frag, handle_announce, announce_received,
}

-- The header is read first, and has the type that the body's decoder asks for.
abbrev HasType : ℕ → List ℕ → Type 0
HasType type bytes =
    (hdr : FrameHeader) × (decode_header bytes ≡ some hdr) × ((hdr.frame_type == type) ≡ true)

typed :
    {B : Type 0} (type : ℕ) (bytes : List ℕ) (body : FrameHeader → Option B) (b : B)
    → ((hdr : FrameHeader) → (hdr.frame_type == type) ≡ false → body hdr ≡ none)
    → (decode_header bytes >>= body) ≡ some b
    → HasType type bytes
typed type bytes body b refuses h = elim (Option-cases (decode_header bytes)) [
  | inl e ↦ let h' : none ≡ some b = rw e at h in absurd (cc)
  | inr (hdr, e) ↦ (
    hdr,
    e,
    elim (Bool-cases (hdr.frame_type == type)) [
      | inl t ↦ t
      | inr t ↦ let h' : body hdr ≡ some b = rw e at h in let no_body = refuses hdr t in absurd (cc)
    ],
  )
]

data_typed : (bytes : List ℕ) (b : DataBody) → decode_data bytes ≡ some b → HasType data_type bytes
unfolding decode_data
data_typed bytes b =
    typed data_type bytes (λ hdr. data_body hdr (drop header_size bytes)) b
      (λ hdr t. unfold data_body in rw t refl)

frag_typed :
    (bytes : List ℕ) (b : DataFragBody)
    → decode_data_frag bytes ≡ some b
    → HasType data_frag_type bytes
unfolding decode_data_frag
frag_typed bytes b =
    typed data_frag_type bytes (λ hdr. data_frag_body hdr (drop header_size bytes)) b
      (λ hdr t. unfold data_frag_body in rw t refl)

announce_typed :
    (bytes : List ℕ) (b : ParticipantSnapshot × ℕ)
    → decode_announce bytes ≡ some b
    → HasType announce_type bytes
unfolding decode_announce
announce_typed bytes b =
    typed announce_type bytes (λ hdr. announce_of hdr (drop header_size bytes)) b
      (λ hdr t. unfold announce_of in rw t refl)

module _ (p : Participant) (link : Link) (peer : ℕ) (bytes : List ℕ) (t : Readings) where
  pub handle_bytes-data :
      (b : DataBody)
      → decode_data bytes ≡ some b
      → handle_bytes p link peer bytes t ≡ deliver_data p link peer (some b) t
  unfolding handle_bytes dispatch
  handle_bytes-data b h =
      let (hdr, e, k) = data_typed bytes b h in
      let type = ==→eq hdr.frame_type data_type k in
      let other : (hdr.frame_type == announce_type) ≡ false = ground arith in
      rw (e, handle_bytes) (rw (other, k, h) refl)

  pub handle_bytes-frag :
      (b : DataFragBody)
      → decode_data_frag bytes ≡ some b
      → handle_bytes p link peer bytes t ≡ deliver_frag p link peer (some b) t
  unfolding handle_bytes dispatch
  handle_bytes-frag b h =
      let (hdr, e, k) = frag_typed bytes b h in
      let type = ==→eq hdr.frame_type data_frag_type k in
      let other : (hdr.frame_type == announce_type) ≡ false = ground arith in
      let another : (hdr.frame_type == data_type) ≡ false = ground arith in
      rw (e, handle_bytes) (rw (other, another, k, h) refl)

  pub handle_bytes-announce :
      (snap : ParticipantSnapshot) (seq : ℕ)
      → decode_announce bytes ≡ some (snap, seq)
      → handle_bytes p link peer bytes t
        ≡ announce_received p link peer snap seq t.steady_ms t.stored_at t.replay_at
  unfolding handle_bytes dispatch handle_announce
  handle_bytes-announce snap seq h =
      let (hdr, e, k) = announce_typed bytes (snap, seq) h in
      rw (e, handle_bytes) (rw k (rw (h, handle_announce) refl))
