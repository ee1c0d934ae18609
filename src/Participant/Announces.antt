-- ===== src/Participant/Announces.antt =====
-- What a participant knows of another one: the newest announcement of it, whoever passed it on and in
-- whatever order.
use mdds.Base.{
  ℕ, ◌≤◌, ◌≡◌, ◌⊎◌, refl, ◌∙◌, true, Option, none, some, List, [], ◌∷◌, All, leb, if◌then◌else◌,
  Bool-cases, inl, inr, arith, leb→le,
}
use mdds.Guid.{Guid}
use mdds.Discovery.{ParticipantSnapshot}
use mdds.Participant.{Participant, Link}
use mdds.Participant.Known.{Announce, is_from, known, hear, newer, known-hear}

unfoldable pub hear_all : Participant → Link → List Announce → Participant
hear_all p link [] = p
hear_all p link (a ∷ as') = hear_all (hear p link a) link as'

-- The number that is known is at least `n`.
abbrev pub AtLeast : ℕ → Option (ℕ × ParticipantSnapshot) → Type 0
AtLeast n none = ⊥
AtLeast n (some (s, sn)) = n ≤ s

-- What is known was announced.
abbrev pub IsAnnounced : Guid → List Announce → Option (ℕ × ParticipantSnapshot) → Type 0
IsAnnounced g [] v = ⊥
IsAnnounced g (a ∷ as') v =
    ((is_from g a ≡ true) × (v ≡ some (a.seq, a.snap))) ⊎ IsAnnounced g as' v

AtLeast-newer :
    (n : ℕ) (v : Option (ℕ × ParticipantSnapshot)) (a : Announce)
    → AtLeast n v
    → AtLeast n (newer v a)
AtLeast-newer n none a h = absurd h
AtLeast-newer n (some (s, sn)) a h = elim (Bool-cases (leb a.seq s)) [
  | inl e ↦ rw e h
  | inr e ↦ rw e (ground (arith, e))
]

newer-AtLeast : (v : Option (ℕ × ParticipantSnapshot)) (a : Announce) → AtLeast a.seq (newer v a)
newer-AtLeast none a = omega arith
newer-AtLeast (some (s, sn)) a = elim (Bool-cases (leb a.seq s)) [
  | inl e ↦ rw e (leb→le _ _ e)
  | inr e ↦ rw e (omega arith)
]

keeps :
    (p : Participant) (link : Link) (as' : List Announce) (g : Guid) (n : ℕ)
    → AtLeast n (known p g)
    → AtLeast n (known (hear_all p link as') g)
unfolding hear_all
keeps p link [] g n h = h
keeps p link (a ∷ as') g n h = keeps (hear p link a) link as' g n (
    rw (known-hear p link a g) (elim (Bool-cases (is_from g a)) [
      | inl e ↦ rw e (AtLeast-newer n (known p g) a h)
      | inr e ↦ rw e h
    ]))

-- What is known after the first announcement is what was known, or that announcement.
source_of :
    (a : Announce) (v : Option (ℕ × ParticipantSnapshot)) (g : Guid) (as' : List Announce)
    (w : Option (ℕ × ParticipantSnapshot))
    → (w ≡ (if is_from g a then newer v a else v)) ⊎ IsAnnounced g as' w
    → (w ≡ v) ⊎ IsAnnounced g (a ∷ as') w
source_of a v g as' w (inr h) = inr (inr h)
source_of a v g as' w (inl h) = elim (Bool-cases (is_from g a)) [
  | inl e ↦ by_version v (h ∙ rw e refl) e
  | inr e ↦ inl (h ∙ rw e refl)
]
  where
    by_version :
        (u : Option (ℕ × ParticipantSnapshot))
        → w ≡ newer u a
        → is_from g a ≡ true
        → (w ≡ u) ⊎ IsAnnounced g (a ∷ as') w
    by_version none k e = inr (inl (e, k))
    by_version (some (s, sn)) k e = elim (Bool-cases (leb a.seq s)) [
      | inl old ↦ inl (k ∙ rw old refl)
      | inr new ↦ inr (inl (e, k ∙ rw new refl))
    ]

-- Whatever announcements come, from whichever peers and in whatever order, what is known of a
-- participant in the end has the highest number of all those about it, and is what it was at the start
-- or one of them.
pub known-hear_all :
    (p : Participant) (link : Link) (as' : List Announce) (g : Guid)
    → All (λ a. is_from g a ≡ true → AtLeast a.seq (known (hear_all p link as') g)) as'
      × ((known (hear_all p link as') g ≡ known p g)
          ⊎ IsAnnounced g as' (known (hear_all p link as') g))
unfolding hear_all
known-hear_all p link [] g = (tt, inl refl)
known-hear_all p link (a ∷ as') g =
    let (above, source) = known-hear_all (hear p link a) link as' g in
    let step = known-hear p link a g in
    (
      (
        λ e. keeps (hear p link a) link as' g a.seq (rw step (rw e (newer-AtLeast (known p g) a))),
        above,
      ),
      source_of a (known p g) g as' _ (rw (← step) source),
    )
