-- ===== src/Participant/Lifecycle.antt =====
-- A participant's endpoints come and go, in src/participant.cpp: create_writer, create_reader, destroy_writer
-- and destroy_reader, one after the other.
pub mod Replays
pub mod Acts
use mdds.Base.{
  ◌^◌, ◌||◌, ◌==◌, Option-cases, ℕ, suc, ◌+◌, ◌≤◌, ◌<◌, ◌≡◌, ◌≢◌, refl, sym, ◌∙◌, ap, subst, Bool,
  true, false, not, Option, none, some, List, [], ◌∷◌, All, All-weaken, map, ltb, if◌then◌else◌,
  Bool-cases, inl, inr, arith, length,
}
use mdds.Wire.{u32}
use mdds.Guid.{Guid, EntityKind, make_guid}
use mdds.Guid.Identity.{make_guid_eq_iff}
use mdds.Qos.{QosProfile, qos_valid, transient_local}
use mdds.Reader.{Reader, enqueue, account, append_sample}
use mdds.Lifespan.{lifespan_expired}
use mdds.Writer.{Writer, CachedSample}
use mdds.OrderedMap.{put, erase, find}
use mdds.OrderedMap.Laws.{All-put, All-erase, find-All}
use mdds.Participant.{Participant, Output}
use mdds.Participant.Endpoints.{
  create_writer, add_reader, destroy_writer, destroy_reader, recompute_matches, writer_matches,
  reader_matches,
}
use mdds.Participant.Deliver.{
  ReplayClock, create_reader, Clock, Incoming, enqueue_at, cached_sample, replay_entries,
  replays_to, replay_writers, replay_local_history, replay_local,
}
use mdds.Participant.Identity.{
  Apart, Apart-put, Apart-put_found, Apart-erase, Apart-map, All-map_ids,
}

-- One of the GUIDs that the participant has made so far, up to a serial number.
abbrev pub IsMade : List ℕ → EntityKind → ℕ → Guid → Type 0
IsMade prefix kind n g = (s : ℕ) × (s ≤ n) × (g ≡ make_guid prefix kind s)

pub record HasIds (p : Participant) : Type 0 where
  pub prefix_size : length p.prefix ≡ 12
  pub writers_made :
      All (λ kv. IsMade p.prefix EntityKind.writer p.entity_serial kv.1.guid) p.writers
  pub readers_made :
      All (λ kv. IsMade p.prefix EntityKind.reader p.entity_serial kv.1.guid) p.readers
  pub writers_apart : Apart (λ (w : Writer). w.guid) p.writers
  pub readers_apart : Apart (λ (r : Reader). r.guid) p.readers

IsMade-new :
    (prefix : List ℕ) (kind : EntityKind) (n : ℕ) (g : Guid)
    → length prefix ≡ 12
    → n + 1 < 2 ^ 24
    → IsMade prefix kind n g
    → make_guid prefix kind (n + 1) ≢ g
IsMade-new prefix kind n g size lt (s, le, e) same =
    let serials = (make_guid_eq_iff prefix prefix kind kind (n + 1) s size size).0 (same ∙ e) in
    absurd (omega (arith, serials.2))

-- The entries of one kind, before and after a serial number is taken.
module _ {V : Type 0} (id : V → Guid) (prefix : List ℕ) (kind : EntityKind) (n : ℕ)
    (m : List (ℕ × V)) (made : All (λ kv. IsMade prefix kind n (id kv.1)) m) where
  IsMade-before : All (λ kv. IsMade prefix kind (n + 1) (id kv.1)) m
  IsMade-before = All-weaken _ _ m (λ kv (s, le, e). (s, omega arith, e)) made

  made_another :
      length prefix ≡ 12 → n + 1 < 2 ^ 24 → All (λ kv. make_guid prefix kind (n + 1) ≢ id kv.1) m
  made_another size lt =
      All-weaken _ _ m (λ kv one. IsMade-new prefix kind n (id kv.1) size lt one) made

  IsMade-put :
      (h : ℕ) (v : V)
      → id v ≡ make_guid prefix kind (n + 1)
      → All (λ kv. IsMade prefix kind (n + 1) (id kv.1)) (put ltb h v m)
  IsMade-put h v e = All-put ltb _ h v m (n + 1, omega arith, e) IsMade-before

HasIds-recompute_matches : (p : Participant) → HasIds p → HasIds (recompute_matches p)
unfolding recompute_matches
HasIds-recompute_matches p v = record {
  prefix_size = v.prefix_size;
  writers_made =
      All-map_ids (λ (w : Writer). w.guid) _ (λ kv. refl)
        (IsMade p.prefix EntityKind.writer p.entity_serial) p.writers v.writers_made;
  readers_made =
      All-map_ids (λ (r : Reader). r.guid) _ (λ kv. refl)
        (IsMade p.prefix EntityKind.reader p.entity_serial) p.readers v.readers_made;
  writers_apart = Apart-map (λ (w : Writer). w.guid) _ (λ kv. refl) p.writers v.writers_apart;
  readers_apart = Apart-map (λ (r : Reader). r.guid) _ (λ kv. refl) p.readers v.readers_apart;
}

abbrev writer_id : Writer → Guid
writer_id w = w.guid

abbrev pub reader_id : Reader → Guid
reader_id r = r.guid

module _ (p : Participant) (v : HasIds p) (h : ℕ) (topic type_name : List ℕ) (qos : QosProfile)
    (lt : p.entity_serial + 1 < 2 ^ 24) where
  serial_fits : u32 (p.entity_serial + 1) ≡ p.entity_serial + 1
  serial_fits = omega arith

  pub HasIds-create_writer : (now_us : ℕ) → HasIds (create_writer p h topic type_name qos now_us).0
  unfolding create_writer
  HasIds-create_writer now_us = elim (Bool-cases (qos_valid qos)) [
    | inl t ↦
        rw (t, serial_fits)
          (HasIds-recompute_matches _ (record {
            prefix_size = v.prefix_size;
            writers_made =
                IsMade-put writer_id p.prefix EntityKind.writer p.entity_serial p.writers
                  v.writers_made h _ refl;
            readers_made =
                IsMade-before reader_id p.prefix EntityKind.reader p.entity_serial p.readers
                  v.readers_made;
            writers_apart =
                Apart-put writer_id h _ p.writers
                  (made_another writer_id p.prefix EntityKind.writer p.entity_serial p.writers
                    v.writers_made v.prefix_size lt)
                  v.writers_apart;
            readers_apart = v.readers_apart;
          }))
    | inr t ↦ rw t v
  ]

  pub HasIds-add_reader :
      (ignore_local : Bool) (now_us : ℕ)
      → HasIds (add_reader p h topic type_name qos ignore_local now_us).0
  unfolding add_reader
  HasIds-add_reader ignore_local now_us = elim (Bool-cases (qos_valid qos)) [
    | inl t ↦
        rw (t, serial_fits)
          (HasIds-recompute_matches _ (record {
            prefix_size = v.prefix_size;
            writers_made =
                IsMade-before writer_id p.prefix EntityKind.writer p.entity_serial p.writers
                  v.writers_made;
            readers_made =
                IsMade-put reader_id p.prefix EntityKind.reader p.entity_serial p.readers
                  v.readers_made h _ refl;
            writers_apart = v.writers_apart;
            readers_apart =
                Apart-put reader_id h _ p.readers
                  (made_another reader_id p.prefix EntityKind.reader p.entity_serial p.readers
                    v.readers_made v.prefix_size lt)
                  v.readers_apart;
          }))
    | inr t ↦ rw t v
  ]

pub HasIds-destroy_writer : (p : Participant) (h : ℕ) → HasIds p → HasIds (destroy_writer p h).0
unfolding destroy_writer
HasIds-destroy_writer p h v = HasIds-recompute_matches _ (record {
  prefix_size = v.prefix_size;
  writers_made = All-erase ltb _ h p.writers v.writers_made;
  readers_made = v.readers_made;
  writers_apart = Apart-erase writer_id h p.writers v.writers_apart;
  readers_apart = v.readers_apart;
})

pub HasIds-destroy_reader : (p : Participant) (h : ℕ) → HasIds p → HasIds (destroy_reader p h).0
unfolding destroy_reader
HasIds-destroy_reader p h v = HasIds-recompute_matches _ (record {
  prefix_size = v.prefix_size;
  writers_made = v.writers_made;
  readers_made = All-erase ltb _ h p.readers v.readers_made;
  writers_apart = v.writers_apart;
  readers_apart = Apart-erase reader_id h p.readers v.readers_apart;
})
