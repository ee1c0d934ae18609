-- ===== src/Dsoftbus/Rounds.antt =====
-- The rounds of the worker of a lane of src/transport_dsoftbus.cpp.
use mdds.Base.{
  ℕ, ◌^◌, ◌<◌, ◌≡◌, refl, sym, ap, subst, ◌∙◌, Bool, true, false, ◌&&◌, some, List, [], ◌∷◌, ◌++◌,
  length, All, ◌==◌, Bool-cases, inl, inr, arith, map, take_all,
}
use mathlib.Core.Option.{some-injective}
use mdds.Guid.{bytes_lt}
use mdds.OrderedMap.{find}
use mdds.OrderedMap.Laws.{bytes_lt-IsOrder, find-put_self}
use mdds.SendLane.{SendBudget, sent, next_of, SendLane, next_frame}
use mdds.Dsoftbus.{Dsoftbus, PeerState, PeerLane, Effect, send_bytes, is_fd, is_open, first_with}
use mdds.Dsoftbus.Traffic.{sink, work, lane_round, deliver, is_live}
use mdds.Wire.{u32}

-- The rounds of the worker of a peer's lane, by what `SendBytes` answers in each.
unfoldable pub lane_rounds : Dsoftbus → List ℕ → List Bool → Dsoftbus × List Effect
lane_rounds d nid [] = (d, [])
lane_rounds d nid (ok ∷ oks) =
    let (d', es) = lane_round d nid ok in let (d'', fs) = lane_rounds d' nid oks in (d'', es ++ fs)

-- The peer's channel is open, and its lane is not stopping: what the lane holds.
pub record Holds (d : Dsoftbus) (nid : List ℕ) (id fd : ℕ) (q : List (List ℕ)) : Type 0 where
  pub runs : d.running ≡ true
  pub st : PeerState
  pub lane : PeerLane
  pub there : find bytes_lt nid d.peers ≡ some st
  pub is_id : st.peer_id ≡ id
  pub is_fd : st.socket_fd ≡ some fd
  pub has : st.lane ≡ some lane
  pub to_peer : lane.sink_peer ≡ id
  pub to_fd : lane.sink_fd ≡ fd
  pub holds : lane.lane.queue ≡ q
  pub goes_on : lane.lane.stopping ≡ false

pub first_with-exists :
    (test : PeerState → Bool) (nid : List ℕ) (st : PeerState) (m : List (List ℕ × PeerState))
    → find bytes_lt nid m ≡ some st
    → test st ≡ true
    → is_open (first_with test m) ≡ true
unfolding find first_with
first_with-exists test nid st [] e t = absurd (cc)
first_with-exists test nid st ((j, u) ∷ m) e t = elim (Bool-cases (test u)) [
  | inl tu ↦ rw tu refl
  | inr tu ↦ rw tu (elim (Bool-cases (bytes_lt nid j)) [
    | inl kj ↦ absurd (cc)
    | inr kj ↦ elim (Bool-cases (bytes_lt j nid)) [
      | inl jk ↦ first_with-exists test nid st m (rw (kj, jk) at e) t
      | inr jk ↦ let here : u ≡ st = some-injective u st (rw (kj, jk) at e) in absurd (cc)
    ]
  ])
]

sent-lane :
    (l : SendLane) (ok : Bool) → ((sent l ok).queue ≡ l.queue) × ((sent l ok).stopping ≡ l.stopping)
unfolding sent
sent-lane l true = (refl, refl)
sent-lane l false = (refl, refl)

is_live-Holds :
    (d : Dsoftbus) (nid : List ℕ) (id fd : ℕ) (q : List (List ℕ))
    → Holds d nid id fd q
    → is_live d id fd ≡ true
unfolding is_live
is_live-Holds d nid id fd q h = rw (h.runs) (
    first_with-exists (λ st. st.peer_id == id && is_fd fd st.socket_fd) nid h.st d.peers h.there
      (rw (h.is_id, h.is_fd) (ground arith)))

next_of-going :
    (l : SendLane) (b : SendBudget) (f : List ℕ) (q : List (List ℕ))
    → l.stopping ≡ false
    → ((next_of l b (f ∷ q)).0.queue ≡ q)
      × ((next_of l b (f ∷ q)).0.stopping ≡ false)
      × ((next_of l b (f ∷ q)).2 ≡ some f)
unfolding next_of
next_of-going l b f q h = rw h (refl, refl, refl)

next_frame-going :
    (l : SendLane) (b : SendBudget) (f : List ℕ) (q : List (List ℕ))
    → l.queue ≡ f ∷ q
    → l.stopping ≡ false
    → ((next_frame l b).0.queue ≡ q)
      × ((next_frame l b).0.stopping ≡ false)
      × ((next_frame l b).2 ≡ some f)
unfolding next_frame
next_frame-going l b f q e h =
    subst
      (λ x.
        ((next_of l b x).0.queue ≡ q)
        × ((next_of l b x).0.stopping ≡ false)
        × ((next_of l b x).2 ≡ some f))
      (sym e) (next_of-going l b f q h)

deliver-live :
    (d : Dsoftbus) (peer fd : ℕ) (f : List ℕ) (ok : Bool)
    → is_live d peer fd ≡ true
    → length f < 2 ^ 32
    → deliver d peer fd f ok ≡ (ok, send_bytes fd f ∷ [])
unfolding deliver
deliver-live d peer fd f ok h short =
    let whole : u32 (length f) ≡ length f = omega arith in
    rw (h, whole, take_all (length f) f (omega arith)) refl

sink-Holds :
    (d : Dsoftbus) (nid : List ℕ) (id fd : ℕ) (f : List ℕ) (q q' : List (List ℕ))
    (h : Holds d nid id fd q') (budget : SendBudget) (lane' : SendLane) (ok : Bool)
    → lane'.queue ≡ q
    → lane'.stopping ≡ false
    → length f < 2 ^ 32
    → Holds (sink (record d { budget = budget }) nid h.st h.lane lane' (some f) ok).0 nid id fd q
      × ((sink (record d { budget = budget }) nid h.st h.lane lane' (some f) ok).1
          ≡ send_bytes fd f ∷ [])
unfolding sink
sink-Holds d nid id fd f q q' h budget lane' ok same on short =
    let answer : deliver (record d { budget = budget }) h.lane.sink_peer h.lane.sink_fd f ok
        ≡ (ok, send_bytes fd f ∷ []) =
      rw (h.to_peer, h.to_fd)
        (deliver-live (record d { budget = budget }) id fd f ok
          (unfold is_live in is_live-Holds d nid id fd q' h) short) in
    let (q_same, on_same) = sent-lane lane' ok in
    rw answer (
      record {
        runs = h.runs;
        st = _;
        lane = _;
        there = find-put_self bytes_lt bytes_lt-IsOrder nid _ d.peers;
        is_id = h.is_id;
        is_fd = h.is_fd;
        has = refl;
        to_peer = h.to_peer;
        to_fd = h.to_fd;
        holds = q_same ∙ same;
        goes_on = on_same ∙ on;
      },
      refl,
    )

lane_round-Holds :
    (d : Dsoftbus) (nid : List ℕ) (id fd : ℕ) (f : List ℕ) (q : List (List ℕ)) (ok : Bool)
    → Holds d nid id fd (f ∷ q)
    → length f < 2 ^ 32
    → Holds (lane_round d nid ok).0 nid id fd q × ((lane_round d nid ok).1 ≡ send_bytes fd f ∷ [])
unfolding lane_round work
lane_round-Holds d nid id fd f q ok h short =
    let (rest, on, took) = next_frame-going h.lane.lane d.budget f q h.holds h.goes_on in
    rw (h.there, lane_round)
      (rw (h.has, work) (rw took (sink-Holds d nid id fd f q (f ∷ q) h _ _ ok rest on short)))

pub lane_rounds-Holds :
    (q : List (List ℕ)) (d : Dsoftbus) (nid : List ℕ) (id fd : ℕ) (oks : List Bool)
    → Holds d nid id fd q
    → All (λ f. length f < 2 ^ 32) q
    → length oks ≡ length q
    → (lane_rounds d nid oks).1 ≡ map (send_bytes fd) q
unfolding lane_rounds
lane_rounds-Holds [] d nid id fd [] h a e = refl
lane_rounds-Holds [] d nid id fd (ok ∷ oks) h a e = absurd (omega arith)
lane_rounds-Holds (f ∷ q) d nid id fd [] h a e = absurd (omega arith)
lane_rounds-Holds (f ∷ q) d nid id fd (ok ∷ oks) h (short, a) e =
    let (h', out) = lane_round-Holds d nid id fd f q ok h short in
    rw out (
      ap (λ es. send_bytes fd f ∷ es)
        (lane_rounds-Holds q (lane_round d nid ok).0 nid id fd oks h' a (omega arith)))
