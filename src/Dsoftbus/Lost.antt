-- ===== src/Dsoftbus/Lost.antt =====
-- A lost descriptor in src/transport_dsoftbus.cpp: what `on_shutdown` does to the table.
use mdds.Base.{
  ◌⊎◌, ℕ, ◌<◌, ◌≡◌, ◌≢◌, refl, sym, ◌∙◌, Bool, true, false, not, ◌&&◌, ◌||◌, Option, none, some,
  List, [], ◌∷◌, All, All-weaken, ◌==◌, Bool-cases, inl, inr, arith, ==→eq,
}
use mdds.Guid.{bytes_lt}
use mdds.OrderedMap.Sorted.{IsSorted, Pairwise, any_value}
use mdds.SendLane.{SendBudget}
use mdds.Dsoftbus.{Dsoftbus, PeerState, is_fd, lost_channel, lose, lost_peer}
use mdds.Dsoftbus.Channels.{
  IsChannel, IsDsoftbus, IdApart, FdApart, SocketsApart, SocketsApart-flip, is_up, not_up,
  SocketsApart-none, IsChannel-pending,
}
use mdds.Dsoftbus.Loops.{fd_open}

-- What holds of each entry, and of it without the descriptor.
All-lose :
    (Q : List ℕ × PeerState → Type 0) (fd : ℕ) (m : List (List ℕ × PeerState))
    → ((kv : List ℕ × PeerState) → Q kv → Q (kv.0, lost_channel fd kv.1))
    → All Q m
    → All Q (lose fd m)
unfolding lose
All-lose Q fd [] h a = tt
All-lose Q fd (x ∷ m) h (q, a) = (h x q, All-lose Q fd m h a)

IsSorted-lose :
    (fd : ℕ) (m : List (List ℕ × PeerState)) → IsSorted bytes_lt m → IsSorted bytes_lt (lose fd m)
unfolding lose
IsSorted-lose fd [] s = tt
IsSorted-lose fd ((k, st) ∷ m) (b, s) =
    (All-lose (λ kv. bytes_lt k kv.0 ≡ true) fd m (λ kv h. h) b, IsSorted-lose fd m s)

peer_id-lost_channel : (fd : ℕ) (st : PeerState) → (lost_channel fd st).peer_id ≡ st.peer_id
peer_id-lost_channel fd st = elim (Bool-cases (is_fd fd st.socket_fd)) [
  | inl t ↦ rw t refl
  | inr t ↦ rw t refl
]

SocketsApart-lost :
    (fd : ℕ) (f : Option ℕ) (st : PeerState)
    → SocketsApart f st.socket_fd
    → SocketsApart f (lost_channel fd st).socket_fd
SocketsApart-lost fd f st h = elim (Bool-cases (is_fd fd st.socket_fd)) [
  | inl t ↦ rw t (SocketsApart-none f)
  | inr t ↦ rw t h
]

IsChannel-lost_channel :
    (next fd : ℕ) (st : PeerState) → IsChannel next st → IsChannel next (lost_channel fd st)
IsChannel-lost_channel next fd st c = elim (Bool-cases (is_fd fd st.socket_fd)) [
  | inl t ↦ rw t (record { id_pos = c.id_pos; id_used = c.id_used; up_open = refl; lane_fits = tt })
  | inr t ↦ rw t (IsChannel-pending next st _ c)
]

Pairwise-lose_ids :
    (fd : ℕ) (m : List (List ℕ × PeerState)) → Pairwise IdApart m → Pairwise IdApart (lose fd m)
unfolding lose
Pairwise-lose_ids fd [] p = tt
Pairwise-lose_ids fd ((k, st) ∷ m) (r, p) = (
  rw (peer_id-lost_channel fd st) (
      All-lose (λ kv. st.peer_id ≢ kv.1.peer_id) fd m
        (λ kv h e. h (e ∙ peer_id-lost_channel fd kv.1)) r),
  Pairwise-lose_ids fd m p,
)

Pairwise-lose_sockets :
    (fd : ℕ) (m : List (List ℕ × PeerState)) → Pairwise FdApart m → Pairwise FdApart (lose fd m)
unfolding lose
Pairwise-lose_sockets fd [] p = tt
Pairwise-lose_sockets fd ((k, st) ∷ m) (r, p) = (
  All-lose (λ kv. SocketsApart (lost_channel fd st).socket_fd kv.1.socket_fd) fd m
      (λ kv h. SocketsApart-lost fd (lost_channel fd st).socket_fd kv.1 h)
      (All-weaken _ _ m
        (λ kv h. SocketsApart-flip kv.1.socket_fd (lost_channel fd st).socket_fd (
          SocketsApart-lost fd kv.1.socket_fd st (SocketsApart-flip st.socket_fd kv.1.socket_fd h)))
        r),
  Pairwise-lose_sockets fd m p,
)

pub IsDsoftbus-lose :
    (d : Dsoftbus) (fd : ℕ) (budget : SendBudget)
    → IsDsoftbus d
    → IsDsoftbus (record d { peers = lose fd d.peers; budget = budget })
IsDsoftbus-lose d fd budget v = record {
  sorted = IsSorted-lose fd d.peers v.sorted;
  channels =
      All-lose (λ kv. IsChannel d.next_peer_id kv.1) fd d.peers
        (λ kv c. IsChannel-lost_channel d.next_peer_id fd kv.1 c) v.channels;
  ids = Pairwise-lose_ids fd d.peers v.ids;
  sockets = Pairwise-lose_sockets fd d.peers v.sockets;
  next_pos = v.next_pos;
}

not_fd : (fd : ℕ) (f g : Option ℕ) → is_fd fd f ≡ true → SocketsApart f g → is_fd fd g ≡ false
not_fd fd none g h r = absurd (cc)
not_fd fd (some f) none h r = refl
not_fd fd (some f) (some g) h r = ground (arith, λ (e : f ≡ g). r e)

none_lost :
    (fd : ℕ) (f : Option ℕ) (m : List (List ℕ × PeerState))
    → is_fd fd f ≡ true
    → All (λ kv. SocketsApart f kv.1.socket_fd) m
    → lost_peer fd m ≡ 0
unfolding lost_peer
none_lost fd f [] h a = refl
none_lost fd f ((k, st) ∷ m) h (r, a) = rw (none_lost fd f m h a, not_fd fd f st.socket_fd h r) refl

-- The peer that the listener is told of alone is no longer up.
abbrev pub UpLess : ℕ → List (List ℕ × PeerState) → ℕ → Type 0
UpLess fd m q = is_up q (lose fd m) ≡ (is_up q m && not (q == lost_peer fd m))

abbrev pub WasUp : ℕ → List (List ℕ × PeerState) → Type 0
WasUp fd m = (lost_peer fd m ≡ 0) ⊎ (is_up (lost_peer fd m) m ≡ true)

is_up-cons :
    (q : ℕ) (k : List ℕ) (st : PeerState) (m : List (List ℕ × PeerState))
    → is_up q ((k, st) ∷ m) ≡ ((st.up_notified && (q == st.peer_id)) || is_up q m)
unfolding is_up any_value
is_up-cons q k st m = refl

-- The two cases of the loop, on the Boolean values alone.
here_less :
    (q id : ℕ) (u u' : Bool)
    → u' ≡ (u && not (q == 0))
    → (q ≡ id → u ≡ false)
    → (q ≡ 0 → u ≡ false)
    → (false || u') ≡ (((true && (q == id)) || u) && not (q == id))
here_less q id u u' less off zero = elim (Bool-cases (q == id)) [
  | inl e ↦ let gone = off (==→eq q id e) in ground arith
  | inr e ↦ elim (Bool-cases (q == 0)) [
    | inl z ↦ let gone = zero (==→eq q 0 z) in ground arith
    | inr z ↦ ground arith
  ]
]

there_less :
    (q id lost : ℕ) (on u u' : Bool)
    → u' ≡ (u && not (q == lost))
    → id ≢ lost
    → ((on && (q == id)) || u') ≡ (((on && (q == id)) || u) && not (q == lost))
there_less q id lost on u u' less ne = ground arith

apart_lost :
    (id lost : ℕ) (m : List (List ℕ × PeerState))
    → 0 < id
    → is_up id m ≡ false
    → (lost ≡ 0) ⊎ (is_up lost m ≡ true)
    → id ≢ lost
apart_lost id lost m pos off (inl e) k = omega arith
apart_lost id lost m pos off (inr up) k = let same : is_up id m ≡ true = rw (sym k) at up in cc

pub lose-UpLess :
    (next fd : ℕ) (m : List (List ℕ × PeerState))
    → All (λ kv. IsChannel next kv.1) m
    → Pairwise IdApart m
    → Pairwise FdApart m
    → ((q : ℕ) → UpLess fd m q) × WasUp fd m
unfolding lose lost_peer
lose-UpLess next fd [] c i s = unfold is_up any_value in (λ q. refl, inl refl)
lose-UpLess next fd ((k, st) ∷ m) (c, cs) (i, is) (s, ss) =
    let (less, was) = lose-UpLess next fd m cs is ss in
    let id_off = not_up st.peer_id m i in
    let zero_off = not_up 0 m (All-weaken _ _ m (λ kv ch e. omega (arith, ch.id_pos, e)) cs) in
    elim (Bool-cases (is_fd fd st.socket_fd)) [
      | inl t ↦
          let none_else = none_lost fd st.socket_fd m t s in
          let on : st.up_notified ≡ true = c.up_open ∙ fd_open fd st.socket_fd t in
          (
            λ q.
                rw (is_up-cons q k (lost_channel fd st) (lose fd m), is_up-cons q k st m)
                  (rw (none_else, t, on)
                    (here_less q st.peer_id (is_up q m) (is_up q (lose fd m))
                      (rw none_else at (less q)) (λ e. rw e id_off) (λ e. rw e zero_off))),
            inr (
                rw (is_up-cons (lost_peer fd ((k, st) ∷ m)) k st m)
                  (rw (none_else, t, on) (ground arith))),
          )
      | inr t ↦
          let ne = apart_lost st.peer_id (lost_peer fd m) m c.id_pos id_off was in
          let there : lost_peer fd ((k, st) ∷ m) ≡ lost_peer fd m = rw t (ground arith) in
          (
            λ q.
                rw (is_up-cons q k (lost_channel fd st) (lose fd m), is_up-cons q k st m, there)
                  (rw t (
                    there_less q st.peer_id (lost_peer fd m) st.up_notified (is_up q m)
                      (is_up q (lose fd m)) (less q) ne)),
            rw there (rw (is_up-cons (lost_peer fd m) k st m) (ground (arith, was))),
          )
    ]

-- Where the listener is told nothing, the same peers are up.
pub lose_none :
    (next fd : ℕ) (m : List (List ℕ × PeerState))
    → All (λ kv. IsChannel next kv.1) m
    → ((q : ℕ) → UpLess fd m q)
    → lost_peer fd m ≡ 0
    → (q : ℕ) → is_up q (lose fd m) ≡ is_up q m
lose_none next fd m c less none_told q =
    let zero_off = not_up 0 m (All-weaken _ _ m (λ kv ch e. omega (arith, ch.id_pos, e)) c) in
    let here = less q in
    elim (Bool-cases (q == 0)) [
      | inl z ↦ let gone : is_up q m ≡ false = rw (==→eq q 0 z) zero_off in ground arith
      | inr z ↦ ground arith
    ]
