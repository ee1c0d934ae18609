-- ===== src/Participant/Known.antt =====
-- What a participant knows of another one, and what one announcement changes of it: handle_announce of
-- src/participant.cpp.
use mdds.Base.{
  ℕ, ◌≡◌, ◌≢◌, refl, sym, ap, ◌∙◌, subst, Bool, true, false, Option, none, some, leb, if◌then◌else◌,
  Bool-cases, inl, inr,
}
use mdds.Guid.{Guid, guid_eq, guid_lt, guid_eq_iff}
use mdds.Discovery.{ParticipantSnapshot}
use mdds.OrderedMap.{find, put}
use mdds.OrderedMap.Laws.{guid_lt-IsOrder, find-put_self, find-put_ne}
use mdds.Participant.{Participant, RemoteParticipant, Link}
use mdds.Participant.Endpoints.{recompute_matches}
use mdds.Participant.Receive.{announce_received, accept_announce, heard, is_stale, changes_graph}

pub record Announce : Type 0 where
  pub peer : ℕ
  pub snap : ParticipantSnapshot
  pub seq : ℕ
  pub heard_at : ℕ
  pub stored_at : ℕ
  pub replay_at : ℕ

abbrev pub is_from : Guid → Announce → Bool
is_from g a = guid_eq a.snap.participant_guid g

abbrev version : Option RemoteParticipant → Option (ℕ × ParticipantSnapshot)
version none = none
version (some rp) = some (rp.announce_seq, rp.snap)

-- The number and the snapshot that are kept of a participant.
unfoldable pub known : Participant → Guid → Option (ℕ × ParticipantSnapshot)
known p g = version (find guid_lt g p.remote)

abbrev pub hear : Participant → Link → Announce → Participant
hear p link a = (announce_received p link a.peer a.snap a.seq a.heard_at a.stored_at a.replay_at).0

abbrev pub newer : Option (ℕ × ParticipantSnapshot) → Announce → Option (ℕ × ParticipantSnapshot)
newer none a = some (a.seq, a.snap)
newer (some (s, sn)) a = if leb a.seq s then some (s, sn) else some (a.seq, a.snap)

known-put_self :
    (p : Participant) (g : Guid) (rp : RemoteParticipant)
    → known (record p { remote = put guid_lt g rp p.remote }) g ≡ some (rp.announce_seq, rp.snap)
unfolding known
known-put_self p g rp = ap version (find-put_self guid_lt guid_lt-IsOrder g rp p.remote)

known-put_ne :
    (p : Participant) (k g : Guid) (rp : RemoteParticipant)
    → k ≢ g
    → known (record p { remote = put guid_lt k rp p.remote }) g ≡ known p g
unfolding known
known-put_ne p k g rp ne = ap version (find-put_ne guid_lt guid_lt-IsOrder k g rp p.remote ne)

recompute-known : (p : Participant) (g : Guid) → known (recompute_matches p) g ≡ known p g
unfolding known recompute_matches
recompute-known p g = refl

newer_stale :
    (o : Option RemoteParticipant) (a : Announce)
    → is_stale o a.seq ≡ true
    → newer (version o) a ≡ version o
newer_stale none a h = absurd (cc)
newer_stale (some rp) a h = rw h refl

newer_fresh :
    (o : Option RemoteParticipant) (a : Announce)
    → is_stale o a.seq ≡ false
    → newer (version o) a ≡ some (a.seq, a.snap)
newer_fresh none a h = refl
newer_fresh (some rp) a h = rw h refl

known-heard_self :
    (p : Participant) (g : Guid) (time : ℕ) (o : Option RemoteParticipant)
    → find guid_lt g p.remote ≡ o
    → known (heard time o g p) g ≡ version o
known-heard_self p g time none h = unfold known in ap version h
known-heard_self p g time (some rp) h = known-put_self p g (record rp { last_announce_ms = time })

known-heard_ne :
    (p : Participant) (k g : Guid) (time : ℕ) (o : Option RemoteParticipant)
    → k ≢ g
    → known (heard time o k p) g ≡ known p g
known-heard_ne p k g time none ne = refl
known-heard_ne p k g time (some rp) ne =
    known-put_ne p k g (record rp { last_announce_ms = time }) ne

module _ (p : Participant) (link : Link) (a : Announce) where
  abbrev from : Guid
  from = a.snap.participant_guid

  abbrev old : Option RemoteParticipant
  old = find guid_lt from p.remote

  known-accept_self :
      known (accept_announce p a.peer a.snap a.seq a.stored_at) from ≡ some (a.seq, a.snap)
  unfolding accept_announce
  known-accept_self = known-put_self p from (record {
    peer = a.peer;
    announce_seq = a.seq;
    snap = a.snap;
    last_announce_ms = a.stored_at;
  })

  known-accept_ne :
      (g : Guid)
      → from ≢ g
      → known (accept_announce p a.peer a.snap a.seq a.stored_at) g ≡ known p g
  unfolding accept_announce
  known-accept_ne g ne =
      known-put_ne p from g
        (record {
          peer = a.peer;
          announce_seq = a.seq;
          snap = a.snap;
          last_announce_ms = a.stored_at;
        })
        ne

  -- A stale announcement leaves what is known; any other replaces it.
  known-hear_self : known (hear p link a) from ≡ newer (version old) a
  unfolding announce_received
  known-hear_self = elim (Bool-cases (is_stale old a.seq)) [
    | inl e ↦ rw (e, hear) (known-heard_self p from a.heard_at old refl ∙ sym (newer_stale old a e))
    | inr e ↦
        rw (e, hear)
          (elim (Bool-cases (changes_graph old a.snap)) [
            | inl f ↦
                rw (f, hear)
                  (recompute-known (accept_announce p a.peer a.snap a.seq a.stored_at) from
                    ∙ known-accept_self
                    ∙ sym (newer_fresh old a e))
            | inr f ↦ rw (f, hear) (known-accept_self ∙ sym (newer_fresh old a e))
          ])
  ]

  known-hear_ne : (g : Guid) → from ≢ g → known (hear p link a) g ≡ known p g
  unfolding announce_received
  known-hear_ne g ne = elim (Bool-cases (is_stale old a.seq)) [
    | inl e ↦ rw (e, hear) (known-heard_ne p from g a.heard_at old ne)
    | inr e ↦
        rw (e, hear)
          (elim (Bool-cases (changes_graph old a.snap)) [
            | inl f ↦
                rw (f, hear)
                  (recompute-known (accept_announce p a.peer a.snap a.seq a.stored_at) g
                    ∙ known-accept_ne g ne)
            | inr f ↦ rw (f, hear) (known-accept_ne g ne)
          ])
  ]

pub known-hear :
    (p : Participant) (link : Link) (a : Announce) (g : Guid)
    → known (hear p link a) g ≡ (if is_from g a then newer (known p g) a else known p g)
known-hear p link a g = elim (Bool-cases (is_from g a)) [
  | inl e ↦
      let same = (guid_eq_iff a.snap.participant_guid g).0 e in
      rw e (
        subst (λ (k : Guid). known (hear p link a) k ≡ newer (known p k) a) same
          (unfold known in known-hear_self p link a))
  | inr e ↦ rw e (
      known-hear_ne p link a g
        (λ same. let hit = (guid_eq_iff a.snap.participant_guid g).1 same in absurd (cc)))
]
