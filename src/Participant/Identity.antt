-- ===== src/Participant/Identity.antt =====
-- The GUIDs of a participant's own endpoints, which create_writer and create_reader of src/participant.cpp
-- make from one serial number.
use mdds.Base.{
  ℕ, ◌≡◌, ◌≢◌, sym, ◌∙◌, ap, subst, some, List, [], ◌∷◌, All, map, ltb, Bool-cases, inl, inr,
}
use mdds.Guid.{Guid}
use mathlib.Core.Option.{some-injective}
use mdds.OrderedMap.{put, erase, find}
use mdds.OrderedMap.Laws.{All-put, All-erase, find-All}

-- Entries of a map by address, of which each has a GUID.
module _ {V : Type 0} (id : V → Guid) where
  -- No two entries have the same GUID.
  abbrev pub Apart : List (ℕ × V) → Type 0
  Apart [] = Unit {0}
  Apart ((h, v) ∷ m) = All (λ kv. id v ≢ id kv.1) m × Apart m

  pub Apart-put :
      (k : ℕ) (v : V) (m : List (ℕ × V))
      → All (λ kv. id v ≢ id kv.1) m
      → Apart m
      → Apart (put ltb k v m)
  unfolding put
  Apart-put k v [] new a = (tt, tt)
  Apart-put k v ((j, w) ∷ m) (ne, new) (b, a) = elim (Bool-cases (ltb k j)) [
    | inl before ↦ rw before ((ne, new), (b, a))
    | inr e ↦ rw e (elim (Bool-cases (ltb j k)) [
      | inl behind ↦
          rw behind
            (All-put ltb (λ kv. id w ≢ id kv.1) k v m (λ e'. ne (sym e')) b, Apart-put k v m new a)
      | inr same ↦ rw same (new, a)
    ])
  ]

  pub Apart-erase : (k : ℕ) (m : List (ℕ × V)) → Apart m → Apart (erase ltb k m)
  unfolding erase
  Apart-erase k [] a = a
  Apart-erase k ((j, w) ∷ m) (b, a) = elim (Bool-cases (ltb k j)) [
    | inl before ↦ rw before (b, a)
    | inr e ↦ rw e (elim (Bool-cases (ltb j k)) [
      | inl behind ↦ rw behind (All-erase ltb (λ kv. id w ≢ id kv.1) k m b, Apart-erase k m a)
      | inr same ↦ rw same a
    ])
  ]

  -- An entry is replaced by one with its GUID.
  pub Apart-put_found :
      (k : ℕ) (v w : V) (m : List (ℕ × V))
      → find ltb k m ≡ some w
      → id v ≡ id w
      → Apart m
      → Apart (put ltb k v m)
  unfolding put find
  Apart-put_found k v w [] e same a = absurd (cc)
  Apart-put_found k v w ((j, x) ∷ m) e same (b, a) = elim (Bool-cases (ltb k j)) [
    | inl before ↦ absurd (cc)
    | inr t ↦ elim (Bool-cases (ltb j k)) [
      | inl behind ↦
          let there = rw (t, behind) at e in
          rw (t, behind)
            (
              All-put ltb (λ kv. id x ≢ id kv.1) k v m
                  (rw same (find-All ltb (λ u. id x ≢ id u) k w m there b)) b,
              Apart-put_found k v w m there same a,
            )
      | inr at ↦
          let here : x ≡ w = some-injective x w (rw (t, at) at e) in
          rw (t, at) (rw (same ∙ sym (ap id here)) b, a)
    ]
  ]

  -- An update of the entries that leaves their GUIDs.
  module _ (f : ℕ × V → ℕ × V) (keeps : (kv : ℕ × V) → id (f kv).1 ≡ id kv.1) where
    pub All-map_ids :
        (Q : Guid → Type 0) (m : List (ℕ × V))
        → All (λ kv. Q (id kv.1)) m
        → All (λ kv. Q (id kv.1)) (map f m)
    All-map_ids Q [] a = tt
    All-map_ids Q (x ∷ m) (b, a) = (subst Q (sym (keeps x)) b, All-map_ids Q m a)

    pub Apart-map : (m : List (ℕ × V)) → Apart m → Apart (map f m)
    Apart-map [] a = tt
    Apart-map (x ∷ m) (b, a) = (rw (keeps x) (All-map_ids (λ g. id x.1 ≢ g) m b), Apart-map m a)
