-- ===== src/Participant/Reachable.antt =====
-- A participant of src/participant.cpp knows others only through peers that are up.
use mdds.Base.{
  ℕ, ◌≡◌, refl, sym, ◌∙◌, subst, true, Option, none, some, List, All, ltb, ◌==◌, Bool-cases,
  Option-cases, inl, inr,
}
use mdds.Guid.{Guid, guid_lt}
use mdds.Discovery.{ParticipantSnapshot, decode_announce}
use mdds.Frame.{
  GapBody, DataBody, DataFragBody, FrameHeader, decode_header, announce_type, data_type,
  data_frag_type, acknack_type, heartbeat_type, gap_type, decode_data,
}
use mdds.Frame.Frag.{decode_data_frag}
use mdds.Frame.Control.{decode_gap, decode_heartbeat}
use mdds.Fragment.{add_fragment_body}
use mdds.OrderedMap.{find, put, has_id}
use mdds.OrderedMap.Laws.{ltb-IsOrder, All-put, find-All}
use mdds.OrderedMap.Sorted.{IsSorted, IsSorted-put}
use mdds.OrderedMap.Ids.{Ascending}
use mdds.Participant.{Participant, RemoteParticipant, Link}
use mdds.Participant.Endpoints.{recompute_matches, find_remote_endpoint, find_reader}
use mdds.Participant.Deliver.{
  Clock, deliver_sample, handle_gap, handle_heartbeat, heartbeat_received, gap_received,
}
use mdds.Participant.Receive.{
  Readings, handle_bytes, dispatch, handle_announce, announce_received, deliver_data, deliver_frag,
  deliver_whole, is_stale, changes_graph, heard, accept_announce, or_new,
}

-- Each participant that is known, and each message that is being put together, came through a peer that is up.
pub record IsReachable (p : Participant) : Type 0 where
  pub ascending : Ascending p.peers
  pub remote_up : All (λ kv. has_id kv.1.peer p.peers ≡ true) p.remote
  pub reassembling_up : All (λ kv. has_id kv.0 p.peers ≡ true) p.reassemblers
  pub sorted : IsSorted ltb p.reassemblers

-- The second participant has the peers of the first and is reachable.
pub record Stays (p p' : Participant) : Type 0 where
  pub same_peers : p'.peers ≡ p.peers
  pub reachable : IsReachable p'

Stays-same :
    (p p' : Participant)
    → IsReachable p
    → p'.peers ≡ p.peers
    → p'.remote ≡ p.remote
    → p'.reassemblers ≡ p.reassemblers
    → Stays p p'
Stays-same p p' v e r s = record {
  same_peers = e;
  reachable = record {
    ascending = subst Ascending (sym e) v.ascending;
    remote_up = rw (e, r) v.remote_up;
    reassembling_up = rw (e, s) v.reassembling_up;
    sorted = rw s v.sorted;
  };
}

pub Stays-recompute_matches : (p p' : Participant) → Stays p p' → Stays p (recompute_matches p')
unfolding recompute_matches
Stays-recompute_matches p p' k =
    let v = k.reachable in
    record {
      same_peers = k.same_peers;
      reachable = record {
        ascending = v.ascending;
        remote_up = v.remote_up;
        reassembling_up = v.reassembling_up;
        sorted = v.sorted;
      };
    }

module _ (p : Participant) (v : IsReachable p) (link : Link) (peer : ℕ) where
  Stays-deliver_sample :
      (writer : Guid) (seq at_ms : ℕ) (payload : List ℕ) (steady_ms : ℕ) (clock : Clock)
      → Stays p (deliver_sample p link peer writer seq at_ms payload steady_ms clock).0
  unfolding deliver_sample
  Stays-deliver_sample writer seq at_ms payload steady_ms clock =
      elim (Option-cases (find_remote_endpoint writer p.remote)) [
        | inl e ↦ rw (e, deliver_sample) (Stays-same p _ v refl refl refl)
        | inr (ep, e) ↦ rw (e, deliver_sample) (Stays-same p _ v refl refl refl)
      ]

  Stays-handle_heartbeat :
      (bytes : List ℕ) (steady_ms : ℕ) → Stays p (handle_heartbeat p link peer bytes steady_ms).0
  unfolding handle_heartbeat heartbeat_received
  Stays-handle_heartbeat bytes steady_ms = elim (Option-cases (decode_heartbeat bytes)) [
    | inl e ↦ rw (e, handle_heartbeat) (Stays-same p p v refl refl refl)
    | inr (body, e) ↦
        rw (e, handle_heartbeat)
          (elim (Option-cases (find_remote_endpoint body.writer p.remote)) [
            | inl k ↦ rw (k, heartbeat_received) (Stays-same p _ v refl refl refl)
            | inr (ep, k) ↦ rw (k, heartbeat_received) (Stays-same p _ v refl refl refl)
          ])
  ]

  Stays-gap_received : (body : GapBody) → Stays p (gap_received p body)
  unfolding gap_received
  Stays-gap_received body = elim (Option-cases (find_reader body.reader p.readers)) [
    | inl e ↦ rw (e, gap_received) (Stays-same p p v refl refl refl)
    | inr ((h, r), e) ↦ rw (e, gap_received) (Stays-same p _ v refl refl refl)
  ]

  Stays-handle_gap : (bytes : List ℕ) → Stays p (handle_gap p bytes)
  unfolding handle_gap
  Stays-handle_gap bytes = elim (Option-cases (decode_gap bytes)) [
    | inl e ↦ rw (e, handle_gap) (Stays-same p p v refl refl refl)
    | inr (body, e) ↦
        rw (e, handle_gap)
          (elim (Bool-cases (ltb body.gap_end body.gap_start)) [
            | inl t ↦ rw t (Stays-same p p v refl refl refl)
            | inr t ↦ rw t (Stays-gap_received body)
          ])
  ]

  Stays-deliver_data :
      (body : Option DataBody) (t : Readings) → Stays p (deliver_data p link peer body t).0
  unfolding deliver_data
  Stays-deliver_data none t = Stays-same p p v refl refl refl
  Stays-deliver_data (some body) t =
      Stays-deliver_sample body.writer body.seq body.pub_time_ms body.payload t.steady_ms t.enqueue

  Stays-deliver_whole :
      (body : DataFragBody) (t : Readings) (full : Option (List ℕ))
      → Stays p (deliver_whole p link peer body t full).0
  unfolding deliver_whole
  Stays-deliver_whole body t none = Stays-same p p v refl refl refl
  Stays-deliver_whole body t (some payload) =
      Stays-deliver_sample body.writer body.seq body.pub_time_ms payload t.steady_ms t.enqueue

Stays-of : (p p' p'' : Participant) → p'.peers ≡ p.peers → Stays p' p'' → Stays p p''
Stays-of p p' p'' e k = record { same_peers = k.same_peers ∙ e; reachable = k.reachable }

-- A frame of a peer that is up.
module _ (p : Participant) (v : IsReachable p) (link : Link) (peer : ℕ)
    (up : has_id peer p.peers ≡ true) where
  Stays-deliver_frag :
      (body : Option DataFragBody) (t : Readings) → Stays p (deliver_frag p link peer body t).0
  unfolding deliver_frag
  Stays-deliver_frag none t = Stays-same p p v refl refl refl
  Stays-deliver_frag (some body) t =
      let r = add_fragment_body (or_new (find ltb peer p.reassemblers)) body t.gathered_at in
      let p' : Participant = record p { reassemblers = put ltb peer r.0 p.reassemblers } in
      Stays-of p p' _ refl (
        Stays-deliver_whole p'
          (record {
            ascending = v.ascending;
            remote_up = v.remote_up;
            reassembling_up =
                All-put ltb (λ kv. has_id kv.0 p.peers ≡ true) peer r.0 p.reassemblers up
                  v.reassembling_up;
            sorted = IsSorted-put ltb ltb-IsOrder peer r.0 p.reassemblers v.sorted;
          })
          link peer body t r.1)

  Stays-put :
      (g : Guid) (rp : RemoteParticipant)
      → has_id rp.peer p.peers ≡ true
      → Stays p (record p { remote = put guid_lt g rp p.remote })
  Stays-put g rp on = record {
    same_peers = refl;
    reachable = record {
      ascending = v.ascending;
      remote_up =
          All-put guid_lt (λ kv. has_id kv.1.peer p.peers ≡ true) g rp p.remote on v.remote_up;
      reassembling_up = v.reassembling_up;
      sorted = v.sorted;
    };
  }

  Stays-heard :
      (steady_ms : ℕ) (o : Option RemoteParticipant) (g : Guid)
      → find guid_lt g p.remote ≡ o
      → Stays p (heard steady_ms o g p)
  Stays-heard steady_ms none g e = Stays-same p p v refl refl refl
  Stays-heard steady_ms (some rp) g e = Stays-put g _ (
      find-All guid_lt (λ (rp : RemoteParticipant). has_id rp.peer p.peers ≡ true) g rp p.remote e
        v.remote_up)

  Stays-announce_received :
      (snap : ParticipantSnapshot) (seq heard_at stored_at replay_at : ℕ)
      → Stays p (announce_received p link peer snap seq heard_at stored_at replay_at).0
  unfolding announce_received accept_announce
  Stays-announce_received snap seq heard_at stored_at replay_at =
      let old = find guid_lt snap.participant_guid p.remote in
      let stored =
        Stays-put snap.participant_guid
          (record { peer = peer; announce_seq = seq; snap = snap; last_announce_ms = stored_at })
          up in
      elim (Bool-cases (is_stale old seq)) [
        | inl t ↦ rw t (Stays-heard heard_at old snap.participant_guid refl)
        | inr t ↦ rw t (elim (Bool-cases (changes_graph old snap)) [
          | inl c ↦ rw c (Stays-recompute_matches p _ stored)
          | inr c ↦ rw c stored
        ])
      ]

  Stays-handle_announce :
      (bytes : List ℕ) (heard_at stored_at replay_at : ℕ)
      → Stays p (handle_announce p link peer bytes heard_at stored_at replay_at).0
  unfolding handle_announce
  Stays-handle_announce bytes heard_at stored_at replay_at =
      elim (Option-cases (decode_announce bytes)) [
        | inl e ↦ rw (e, handle_announce) (Stays-same p p v refl refl refl)
        | inr ((snap, seq), e) ↦
            rw (e, handle_announce) (Stays-announce_received snap seq heard_at stored_at replay_at)
      ]

  Stays-dispatch :
      (hdr : FrameHeader) (bytes : List ℕ) (t : Readings)
      → Stays p (dispatch p link peer hdr bytes t).0
  unfolding dispatch
  Stays-dispatch hdr bytes t =
      let same = Stays-same p p v refl refl refl in
      elim (Bool-cases (hdr.frame_type == announce_type)) [
        | inl e ↦ rw e (Stays-handle_announce bytes t.steady_ms t.stored_at t.replay_at)
        | inr e ↦ rw e (elim (Bool-cases (hdr.frame_type == data_type)) [
          | inl e ↦ rw e (Stays-deliver_data p v link peer (decode_data bytes) t)
          | inr e ↦ rw e (elim (Bool-cases (hdr.frame_type == data_frag_type)) [
            | inl e ↦ rw e (Stays-deliver_frag (decode_data_frag bytes) t)
            | inr e ↦ rw e (elim (Bool-cases (hdr.frame_type == acknack_type)) [
              | inl e ↦ rw e same
              | inr e ↦ rw e (elim (Bool-cases (hdr.frame_type == heartbeat_type)) [
                | inl e ↦ rw e (Stays-handle_heartbeat p v link peer bytes t.steady_ms)
                | inr e ↦ rw e (elim (Bool-cases (hdr.frame_type == gap_type)) [
                  | inl e ↦ rw e (Stays-handle_gap p v link peer bytes)
                  | inr e ↦ rw e same
                ])
              ])
            ])
          ])
        ])
      ]

  pub Stays-handle_bytes :
      (bytes : List ℕ) (t : Readings) → Stays p (handle_bytes p link peer bytes t).0
  unfolding handle_bytes
  Stays-handle_bytes bytes t = elim (Option-cases (decode_header bytes)) [
    | inl e ↦ rw (e, handle_bytes) (Stays-same p p v refl refl refl)
    | inr (hdr, e) ↦ rw (e, handle_bytes) (Stays-dispatch hdr bytes t)
  ]
