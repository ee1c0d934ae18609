-- ===== src/Participant/Lifecycle/Acts.antt =====
-- create_writer, create_reader, destroy_writer and destroy_reader of src/participant.cpp in any sequence.
use mdds.Base.{◌^◌, ℕ, ◌+◌, ◌≤◌, ◌<◌, Bool, List, [], ◌∷◌, Bool-cases, inl, inr, arith, length}
use mdds.Qos.{QosProfile, qos_valid}
use mdds.Participant.{Participant}
use mdds.Participant.Endpoints.{
  create_writer, add_reader, destroy_writer, destroy_reader, recompute_matches,
}
use mdds.Participant.Deliver.{ReplayClock, create_reader}
use mdds.Participant.Lifecycle.{
  HasIds, HasIds-create_writer, HasIds-add_reader, HasIds-destroy_writer, HasIds-destroy_reader,
}
use mdds.Participant.Lifecycle.Replays.{HasIds-replay_local, replay_local_serial}

-- What the application may ask of its endpoints, with the address of a new one and the clock readings.
pub data Act : Type 0 where
  make_writer : (h : ℕ) (topic type_name : List ℕ) → QosProfile → (now_us : ℕ) → Act
  make_reader :
      (h : ℕ) (topic type_name : List ℕ)
      → QosProfile
      → Bool
      → (birth_us now : ℕ) → ReplayClock
      → Act
  drop_writer : (h : ℕ) → Act
  drop_reader : (h : ℕ) → Act

unfoldable pub act : Participant → Act → Participant
act p (make_writer h topic type_name qos now_us) = (create_writer p h topic type_name qos now_us).0
act p (make_reader h topic type_name qos ignore_local birth_us now clock) =
    (create_reader p h topic type_name qos ignore_local birth_us now clock).0
act p (drop_writer h) = (destroy_writer p h).0
act p (drop_reader h) = (destroy_reader p h).0

unfoldable pub act_all : Participant → List Act → Participant
act_all p [] = p
act_all p (a ∷ as') = act_all (act p a) as'

HasIds-act :
    (p : Participant) (a : Act) → HasIds p → p.entity_serial + 1 < 2 ^ 24 → HasIds (act p a)
unfolding act create_reader
HasIds-act p (make_writer h topic type_name qos now_us) v lt =
    HasIds-create_writer p v h topic type_name qos lt now_us
HasIds-act p (make_reader h topic type_name qos ignore_local birth_us now clock) v lt =
    HasIds-replay_local _ _ now clock
      (HasIds-add_reader p v h topic type_name qos lt ignore_local birth_us)
HasIds-act p (drop_writer h) v lt = HasIds-destroy_writer p h v
HasIds-act p (drop_reader h) v lt = HasIds-destroy_reader p h v

create_writer_serial :
    (p : Participant) (h : ℕ) (topic type_name : List ℕ) (qos : QosProfile) (now_us : ℕ)
    → (create_writer p h topic type_name qos now_us).0.entity_serial ≤ p.entity_serial + 1
unfolding create_writer recompute_matches
create_writer_serial p h topic type_name qos now_us = elim (Bool-cases (qos_valid qos)) [
  | inl t ↦ rw t (omega arith)
  | inr t ↦ rw t (omega arith)
]

add_reader_serial :
    (p : Participant) (h : ℕ) (topic type_name : List ℕ) (qos : QosProfile) (ignore_local : Bool)
    (now_us : ℕ)
    → (add_reader p h topic type_name qos ignore_local now_us).0.entity_serial ≤ p.entity_serial + 1
unfolding add_reader recompute_matches
add_reader_serial p h topic type_name qos ignore_local now_us = elim (Bool-cases (qos_valid qos)) [
  | inl t ↦ rw t (omega arith)
  | inr t ↦ rw t (omega arith)
]

act_serial : (p : Participant) (a : Act) → (act p a).entity_serial ≤ p.entity_serial + 1
unfolding act create_reader destroy_writer destroy_reader recompute_matches
act_serial p (make_writer h topic type_name qos now_us) =
    create_writer_serial p h topic type_name qos now_us
act_serial p (make_reader h topic type_name qos ignore_local birth_us now clock) =
    rw
      (replay_local_serial (add_reader p h topic type_name qos ignore_local birth_us).0
        (add_reader p h topic type_name qos ignore_local birth_us).1 now clock)
      (add_reader_serial p h topic type_name qos ignore_local birth_us)
act_serial p (drop_writer h) = omega arith
act_serial p (drop_reader h) = omega arith

-- As long as a participant takes fewer than 2 ^ 24 serial numbers, its endpoints come and go with no two of a
-- kind under one GUID: each has one that was made for its kind from a serial number taken so far.
pub HasIds-act_all :
    (p : Participant) (as' : List Act)
    → HasIds p
    → p.entity_serial + length as' < 2 ^ 24
    → HasIds (act_all p as')
unfolding act_all
HasIds-act_all p [] v lt = v
HasIds-act_all p (a ∷ as') v lt =
    HasIds-act_all (act p a) as' (HasIds-act p a v (omega arith)) (omega (arith, act_serial p a))
