-- ===== src/Participant/Following.antt =====
-- The peers of a participant of src/participant.cpp follow what the transports tell their listeners.
use mdds.Base.{
  ℕ, ◌^◌, ◌<◌, ◌≡◌, ◌≢◌, refl, sym, ap, ap₂, ◌∙◌, true, not, ◌&&◌, ◌||◌, some, List, [], ◌∷◌, All,
  Bool-cases, inl, inr, arith,
}
use mathlib.Core.Option.{some-injective}
use mdds.PeerId.{make_peer_id, id_eq, id_apart}
use mdds.OrderedMap.{has_id, insert_id, erase_id}
use mdds.OrderedMap.Ids.{
  Ascending, Ascending-insert_id, Ascending-erase_id, has_id-insert_id, has_id-erase_id,
}
use mdds.Listener.{ListenerCall, peer_up, peer_down, on_bytes, follow, follow_first}
use mdds.Participant.{Participant, Link}
use mdds.Participant.Receive.{Readings, handle_bytes, handle_peer_down}
use mdds.Participant.Send.{handle_peer_up}
use mdds.Participant.Relay.{relay, relay_all, the_calls}
use mdds.Participant.Reachable.{IsReachable, Stays-handle_bytes}
use mdds.Participant.PeerChanges.{IsReachable-handle_peer_up, peer_down-Stays}

-- What a peer of the transport with an index is, and what one of another transport is.
pub record Moves (index : ℕ) (up' : List ℕ) (p p' : Participant) : Type 0 where
  pub reachable : IsReachable p'
  pub ascending : Ascending up'
  pub agrees : (q : ℕ) → q < 2 ^ 56 → has_id (make_peer_id index q) p'.peers ≡ has_id q up'
  pub others :
      (s q : ℕ)
      → s < 2 ^ 8
      → s ≢ index
      → has_id (make_peer_id s q) p'.peers ≡ has_id (make_peer_id s q) p.peers

-- The ids of a transport fit beside its index.
abbrev pub IsShort : ListenerCall → Type 0
IsShort (peer_up q) = q < 2 ^ 56
IsShort (peer_down q) = q < 2 ^ 56
IsShort (on_bytes q bytes) = q < 2 ^ 56

module _ (p : Participant) (link : Link) (index : ℕ) (up : List ℕ) (small : index < 2 ^ 8)
    (m : Moves index up p p) (q : ℕ) (short : q < 2 ^ 56) where
  Moves-peer_up : Moves index (insert_id q up) p (handle_peer_up p link (make_peer_id index q)).0
  unfolding handle_peer_up
  Moves-peer_up = record {
    reachable =
        unfold handle_peer_up in
        IsReachable-handle_peer_up p link (make_peer_id index q) m.reachable;
    ascending = Ascending-insert_id q up m.ascending;
    agrees = λ r hr.
        has_id-insert_id (make_peer_id index r) (make_peer_id index q) p.peers
        ∙ ap₂ (λ a b. a || b) (id_eq index r q small hr short) (m.agrees r hr)
        ∙ sym (has_id-insert_id r q up);
    others = λ s r hs ne.
        has_id-insert_id (make_peer_id s r) (make_peer_id index q) p.peers
        ∙ ap (λ a. a || has_id (make_peer_id s r) p.peers) (id_apart s index r q hs small ne);
  }

  Moves-peer_down : Moves index (erase_id q up) p (handle_peer_down p (make_peer_id index q)).0
  Moves-peer_down =
      let (gone, reachable) = peer_down-Stays p (make_peer_id index q) m.reachable in
      let asc = m.reachable.ascending in
      record {
        reachable = reachable;
        ascending = Ascending-erase_id q up m.ascending;
        agrees = λ r hr.
            ap (has_id (make_peer_id index r)) gone
            ∙ has_id-erase_id (make_peer_id index r) (make_peer_id index q) p.peers asc
            ∙ ap₂ (λ a b. a && not b) (m.agrees r hr) (id_eq index r q small hr short)
            ∙ sym (has_id-erase_id r q up m.ascending);
        others = λ s r hs ne.
            ap (has_id (make_peer_id s r)) gone
            ∙ has_id-erase_id (make_peer_id s r) (make_peer_id index q) p.peers asc
            ∙ ap (λ b. has_id (make_peer_id s r) p.peers && not b)
                (id_apart s index r q hs small ne)
            ∙ ground arith;
      }

  Moves-bytes :
      (bytes : List ℕ) (t : Readings)
      → has_id q up ≡ true
      → Moves index up p (handle_bytes p link (make_peer_id index q) bytes t).0
  Moves-bytes bytes t on =
      let k =
        Stays-handle_bytes p m.reachable link (make_peer_id index q) (m.agrees q short ∙ on) bytes
          t in
      record {
        reachable = k.reachable;
        ascending = m.ascending;
        agrees = λ r hr. ap (has_id (make_peer_id index r)) k.same_peers ∙ m.agrees r hr;
        others = λ s r hs ne. ap (has_id (make_peer_id s r)) k.same_peers;
      }

-- The first call, with the set behind it.
module _ (index : ℕ) (small : index < 2 ^ 8) (link : Link) where
  relay-Moves :
      (p : Participant) (up up' : List ℕ) (c : ListenerCall) (t : Readings)
      → Moves index up p p
      → IsShort c
      → follow up (c ∷ []) ≡ some up'
      → Moves index up' p (relay p link index c t).0
  unfolding follow relay
  relay-Moves p up up' (peer_up q) t m short e = elim (Bool-cases (has_id q up)) [
    | inl on ↦ absurd (cc)
    | inr off ↦
        rw⁻¹ (some-injective (insert_id q up) up' (rw off at e))
          (Moves-peer_up p link index up small m q short)
  ]
  relay-Moves p up up' (peer_down q) t m short e = elim (Bool-cases (has_id q up)) [
    | inl on ↦
        rw⁻¹ (some-injective (erase_id q up) up' (rw on at e))
          (Moves-peer_down p link index up small m q short)
    | inr off ↦ absurd (cc)
  ]
  relay-Moves p up up' (on_bytes q bytes) t m short e = elim (Bool-cases (has_id q up)) [
    | inl on ↦
        rw⁻¹ (some-injective up up' (rw on at e))
          (Moves-bytes p link index up small m q short bytes t on)
    | inr off ↦ absurd (cc)
  ]

  restart : (p p' : Participant) (up : List ℕ) → Moves index up p p' → Moves index up p' p'
  restart p p' up m = record {
    reachable = m.reachable;
    ascending = m.ascending;
    agrees = m.agrees;
    others = λ s q hs ne. refl;
  }

  -- Where what a transport tells its listener is a session, the participant's peers of that transport are at
  -- every time those that are up, the peers of the other transports stay, and each participant that is known
  -- and each message that is being put together came through a peer that is up. The transport's ids fit in
  -- 56 bits, and its index is below 256.
  pub relay_all-Moves :
      (p : Participant) (up up' : List ℕ) (calls : List (ListenerCall × Readings))
      → Moves index up p p
      → All IsShort (the_calls calls)
      → follow up (the_calls calls) ≡ some up'
      → Moves index up' p (relay_all p link index calls).0
  unfolding relay_all follow
  relay_all-Moves p up up' [] m short e = rw⁻¹ (some-injective up up' e) m
  relay_all-Moves p up up' ((c, t) ∷ calls) m (short, shorts) e =
      let (v, one, rest) = follow_first up up' c (the_calls calls) e in
      let p' = (relay p link index c t).0 in
      let first = relay-Moves p up v c t m short one in
      let later = relay_all-Moves p' v up' calls (restart p p' v first) shorts rest in
      record {
        reachable = later.reachable;
        ascending = later.ascending;
        agrees = later.agrees;
        others = λ s q hs ne. later.others s q hs ne ∙ first.others s q hs ne;
      }
