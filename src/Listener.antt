-- ===== src/Listener.antt =====
-- TransportListener of include/mdds/transport.hpp: the calls by which a transport tells the participant of its
-- peers, and what makes a sequence of them a session.
use mdds.Base.{
  ℕ, ◌≡◌, refl, Option, none, some, List, [], ◌∷◌, ◌++◌, if◌then◌else◌, Bool-cases, inl, inr,
}
use mathlib.Core.Option.{some-injective}
use mdds.OrderedMap.{has_id, insert_id, erase_id}

pub data ListenerCall : Type 0 where
  peer_up peer_down : (peer : ℕ) → ListenerCall
  on_bytes : (peer : ℕ) → List ℕ → ListenerCall

-- The set of the peers that are up, by what the listener was told; `none` once it was told something that
-- cannot be.
unfoldable pub follow : List ℕ → List ListenerCall → Option (List ℕ)
follow up [] = some up
follow up (peer_up p ∷ es) =
    let rest = follow (insert_id p up) es in if has_id p up then none else rest
follow up (peer_down p ∷ es) =
    let rest = follow (erase_id p up) es in if has_id p up then rest else none
follow up (on_bytes p buf ∷ es) = let rest = follow up es in if has_id p up then rest else none

pub follow-append :
    (up v w : List ℕ) (es fs : List ListenerCall)
    → follow up es ≡ some v
    → follow v fs ≡ some w
    → follow up (es ++ fs) ≡ some w
unfolding follow
follow-append up v w [] fs e k = rw (some-injective up v e) k
follow-append up v w (peer_up p ∷ es) fs e k = elim (Bool-cases (has_id p up)) [
  | inl t ↦ absurd (cc)
  | inr t ↦ rw t (follow-append (insert_id p up) v w es fs (rw t at e) k)
]
follow-append up v w (peer_down p ∷ es) fs e k = elim (Bool-cases (has_id p up)) [
  | inl t ↦ rw t (follow-append (erase_id p up) v w es fs (rw t at e) k)
  | inr t ↦ absurd (cc)
]
follow-append up v w (on_bytes p buf ∷ es) fs e k = elim (Bool-cases (has_id p up)) [
  | inl t ↦ rw t (follow-append up v w es fs (rw t at e) k)
  | inr t ↦ absurd (cc)
]

-- A session goes through the set behind its first call.
pub follow_first :
    (up w : List ℕ) (c : ListenerCall) (es : List ListenerCall)
    → follow up (c ∷ es) ≡ some w
    → (v : List ℕ) × (follow up (c ∷ []) ≡ some v) × (follow v es ≡ some w)
unfolding follow
follow_first up w (peer_up p) es k = elim (Bool-cases (has_id p up)) [
  | inl t ↦ absurd (cc)
  | inr t ↦ (insert_id p up, rw t refl, rw t at k)
]
follow_first up w (peer_down p) es k = elim (Bool-cases (has_id p up)) [
  | inl t ↦ (erase_id p up, rw t refl, rw t at k)
  | inr t ↦ absurd (cc)
]
follow_first up w (on_bytes p buf) es k = elim (Bool-cases (has_id p up)) [
  | inl t ↦ (up, rw t refl, rw t at k)
  | inr t ↦ absurd (cc)
]
