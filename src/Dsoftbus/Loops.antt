-- ===== src/Dsoftbus/Loops.antt =====
-- The loops over the peers of src/transport_dsoftbus.cpp that end at the first match.
use mdds.Base.{
  ℕ, ◌≡◌, refl, sym, ap, subst, ◌∙◌, Bool, true, Option, none, some, List, [], ◌∷◌, All, Bool-cases,
  inl, inr, arith,
}
use mathlib.Core.Option.{some-injective}
use mdds.Guid.{bytes_lt}
use mdds.OrderedMap.{find}
use mdds.OrderedMap.Laws.{bytes_lt-IsOrder}
use mdds.OrderedMap.Sorted.{IsSorted}
use mdds.Dsoftbus.{PeerState, is_fd, is_open, first_with}
use mdds.Dsoftbus.Channels.{is_up_as}

pub first_with-All :
    (Q : List ℕ × PeerState → Type 0) (test : PeerState → Bool) (nid : List ℕ) (st : PeerState)
    (m : List (List ℕ × PeerState))
    → All Q m
    → first_with test m ≡ some (nid, st)
    → Q (nid, st)
unfolding first_with
first_with-All Q test nid st [] a e = absurd (cc)
first_with-All Q test nid st ((j, u) ∷ m) (q, a) e = elim (Bool-cases (test u)) [
  | inl t ↦ subst Q (some-injective (j, u) (nid, st) (rw t at e)) q
  | inr t ↦ first_with-All Q test nid st m a (rw t at e)
]

pub first_with-test :
    (test : PeerState → Bool) (nid : List ℕ) (st : PeerState) (m : List (List ℕ × PeerState))
    → first_with test m ≡ some (nid, st)
    → test st ≡ true
unfolding first_with
first_with-test test nid st [] e = cc
first_with-test test nid st ((j, u) ∷ m) e = elim (Bool-cases (test u)) [
  | inl t ↦
      let same : (j, u) ≡ (nid, st) = some-injective (j, u) (nid, st) (rw t at e) in
      sym (ap (λ x. test x.1) same) ∙ t
  | inr t ↦ first_with-test test nid st m (rw t at e)
]

-- The entry that a loop ends at stands under its key.
pub find-first_with :
    (test : PeerState → Bool) (nid : List ℕ) (st : PeerState) (m : List (List ℕ × PeerState))
    → IsSorted bytes_lt m
    → first_with test m ≡ some (nid, st)
    → find bytes_lt nid m ≡ some st
unfolding find first_with
find-first_with test nid st [] s e = absurd (cc)
find-first_with test nid st ((j, u) ∷ m) (b, s) e = elim (Bool-cases (test u)) [
  | inl t ↦
      let same : (j, u) ≡ (nid, st) = some-injective (j, u) (nid, st) (rw t at e) in
      let key : j ≡ nid = ap (λ x. x.0) same in
      rw (key, bytes_lt-IsOrder.irrefl nid) (ap (λ x. some x.1) same)
  | inr t ↦
      let later : first_with test m ≡ some (nid, st) = rw t at e in
      let behind : bytes_lt j nid ≡ true =
        first_with-All (λ kv. bytes_lt j kv.0 ≡ true) test nid st m b later in
      let no_loop = bytes_lt-IsOrder.irrefl j in
      elim (Bool-cases (bytes_lt nid j)) [
        | inl before ↦ let loop = bytes_lt-IsOrder.trans j nid j behind before in absurd (cc)
        | inr e' ↦ rw (e', behind) (find-first_with test nid st m s later)
      ]
]

pub fd_open : (fd : ℕ) (f : Option ℕ) → is_fd fd f ≡ true → is_open f ≡ true
fd_open fd none h = cc
fd_open fd (some f) h = refl

pub is_up_self : (st : PeerState) → st.up_notified ≡ true → is_up_as st.peer_id st ≡ true
is_up_self st h = ground arith
