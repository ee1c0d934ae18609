-- ===== src/Participant/Lifecycle/Replays.antt =====
-- The replay of local history behind create_reader, in src/participant.cpp, and the GUIDs.
use mdds.Base.{
  ◌||◌, ◌==◌, Option-cases, ℕ, ◌≡◌, refl, sym, ◌∙◌, subst, Bool, true, false, not, Option, none,
  some, List, [], ◌∷◌, ltb, if◌then◌else◌, Bool-cases, inl, inr,
}
use mdds.Guid.{Guid, EntityKind}
use mdds.Qos.{transient_local}
use mdds.Reader.{Reader, enqueue, account, append_sample}
use mdds.Lifespan.{lifespan_expired}
use mdds.Writer.{Writer, CachedSample}
use mdds.OrderedMap.{put, find}
use mdds.OrderedMap.Laws.{All-put, find-All}
use mdds.Participant.{Participant}
use mdds.Participant.Deliver.{
  ReplayClock, Clock, Incoming, enqueue_at, cached_sample, replay_entries, replays_to,
  replay_writers, replay_local_history, replay_local,
}
use mdds.Participant.Identity.{Apart-put_found}
use mdds.Participant.Lifecycle.{IsMade, HasIds, reader_id}

-- A replay leaves the reader its GUID.
guid-enqueue_at :
    (clock : Clock) (x : Incoming) (h : ℕ) (r : Reader)
    → (enqueue_at clock x h r).reader.guid ≡ r.guid
unfolding enqueue account append_sample
guid-enqueue_at clock x h r = elim (Bool-cases (enqueue_at clock x h r).queued) [
  | inl t ↦ rw t refl
  | inr t ↦ rw t refl
]

guid_if :
    (b : Bool) (x y : Reader × Bool) (g : Guid)
    → x.0.guid ≡ g
    → y.0.guid ≡ g
    → (if b then x else y).0.guid ≡ g
guid_if true x y g e k = e
guid_if false x y g e k = k

guid-replay_entries :
    (now : ℕ) (clock : ReplayClock) (h : ℕ) (w : Writer) (es : List CachedSample)
    (acc : Reader × Bool)
    → (replay_entries now clock h w es acc).0.guid ≡ acc.0.guid
unfolding replay_entries
guid-replay_entries now clock h w [] acc = refl
guid-replay_entries now clock h w (e ∷ es) (r, any) =
    guid-replay_entries now clock h w es _
    ∙ guid_if (lifespan_expired w.qos.lifespan_ms e.pub_time_ms now) _ _ r.guid refl
        (guid-enqueue_at (clock h) (cached_sample w e) e.seq r)

guid-replay_writers :
    (now : ℕ) (clock : ReplayClock) (ws : List (ℕ × Writer)) (acc : Reader × Bool)
    → (replay_writers now clock ws acc).0.guid ≡ acc.0.guid
unfolding replay_writers
guid-replay_writers now clock [] acc = refl
guid-replay_writers now clock ((h, w) ∷ ws) acc =
    guid-replay_writers now clock ws _
    ∙ guid_if (replays_to acc.0 w) _ _ acc.0.guid (guid-replay_entries now clock h w w.history acc)
        refl

-- The reader keeps its place and its GUID.
HasIds-reader_put :
    (p : Participant) (h : ℕ) (r r' : Reader)
    → find ltb h p.readers ≡ some r
    → r'.guid ≡ r.guid
    → HasIds p
    → HasIds (record p { readers = put ltb h r' p.readers })
HasIds-reader_put p h r r' e same v = record {
  prefix_size = v.prefix_size;
  writers_made = v.writers_made;
  readers_made =
      All-put ltb _ h r' p.readers
        (subst (IsMade p.prefix EntityKind.reader p.entity_serial) (sym same) (
          find-All ltb (λ (u : Reader). IsMade p.prefix EntityKind.reader p.entity_serial u.guid) h
            r p.readers e v.readers_made))
        v.readers_made;
  writers_apart = v.writers_apart;
  readers_apart = Apart-put_found reader_id h r' r p.readers e same v.readers_apart;
}

HasIds-replay_local_history :
    (p : Participant) (h : ℕ) (r : Reader) (now : ℕ) (clock : ReplayClock)
    → find ltb h p.readers ≡ some r
    → HasIds p
    → HasIds (replay_local_history p h r now clock).0
unfolding replay_local_history
HasIds-replay_local_history p h r now clock e v =
    elim (Bool-cases (not (r.qos.durability == transient_local) || r.ignore_local)) [
      | inl t ↦ rw t v
      | inr t ↦
          rw t (HasIds-reader_put p h r _ e (guid-replay_writers now clock p.writers (r, false)) v)
    ]

pub HasIds-replay_local :
    (p : Participant) (made : Option ℕ) (now : ℕ) (clock : ReplayClock)
    → HasIds p
    → HasIds (replay_local p made now clock).0
unfolding replay_local
HasIds-replay_local p none now clock v = v
HasIds-replay_local p (some h) now clock v = elim (Option-cases (find ltb h p.readers)) [
  | inl e ↦ rw (e, replay_local) v
  | inr (r, e) ↦ rw (e, replay_local) (HasIds-replay_local_history p h r now clock e v)
]

pub replay_local_serial :
    (p : Participant) (made : Option ℕ) (now : ℕ) (clock : ReplayClock)
    → (replay_local p made now clock).0.entity_serial ≡ p.entity_serial
unfolding replay_local replay_local_history
replay_local_serial p none now clock = refl
replay_local_serial p (some h) now clock = elim (Option-cases (find ltb h p.readers)) [
  | inl e ↦ rw (e, replay_local) refl
  | inr (r, e) ↦
      rw (e, replay_local)
        (elim (Bool-cases (not (r.qos.durability == transient_local) || r.ignore_local)) [
          | inl t ↦ rw (t, replay_local_history) refl
          | inr t ↦ rw (t, replay_local_history) refl
        ])
]
