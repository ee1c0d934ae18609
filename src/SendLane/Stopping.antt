-- ===== src/SendLane/Stopping.antt =====
-- The worker of a lane of src/send_lane.hpp once `stop` was called.
use mdds.Base.{
  ℕ, zero, suc, ◌+◌, ◌^◌, ◌<◌, ◌≡◌, refl, sym, ap, ◌∙◌, subst, Bool, true, false, not, ◌&&◌, Option,
  none, some, List, [], ◌∷◌, length, if◌then◌else◌, Bool-cases, inl, inr, arith,
}
use mathlib.Core.Option.{some-injective}
use mdds.SendLane.{SendLane, SendBudget, next_frame, next_of, sent, stop}
use mdds.SendLane.Accounting.{IsAccounted, queue_bytes, release_all_lem, next_frame-IsAccounted}

-- What is left when the worker returns, and the frames that the sink was given.
pub record Ended : Type 0 where
  pub lane : SendLane
  pub global : SendBudget
  pub delivered : List (List ℕ)

unfoldable pub with_frame : List ℕ → Option Ended → Option Ended
with_frame frame none = none
with_frame frame (some r) = some (record r { delivered = frame ∷ r.delivered })

-- The loop of `run` while `stopping_` is set, so that it never waits: at most `fuel` rounds.
unfoldable pub run : ℕ → SendLane → SendBudget → (List ℕ → Bool) → Option Ended
run zero lane global sink = none
run (suc fuel) lane global sink =
    let (lane', global', taken) = next_frame lane global in
    elim taken [
      | none ↦ some (record { lane = lane'; global = global'; delivered = [] })
      | some frame ↦ with_frame frame (run fuel (sent lane' (sink frame)) global' sink)
    ]

-- The worker returned, with these frames given to the sink, an empty queue, and nothing of the budget held.
pub record Ends (others : ℕ) (q : List (List ℕ)) (o : Option Ended) : Type 0 where
  pub at_end : Ended
  pub returns : o ≡ some at_end
  pub delivers : at_end.delivered ≡ q
  pub empties : at_end.lane.queue ≡ []
  pub frees : at_end.lane.bytes ≡ 0
  pub gives_back : at_end.global.used ≡ others

Ends-with_frame :
    (others : ℕ) (q : List (List ℕ)) (f : List ℕ) (o : Option Ended)
    → Ends others q o
    → Ends others (f ∷ q) (with_frame f o)
unfolding with_frame
Ends-with_frame others q f none e = absurd (let k = e.returns in cc)
Ends-with_frame others q f (some r) e =
    let same : r ≡ e.at_end = some-injective r e.at_end e.returns in
    record {
      at_end = record r { delivered = f ∷ r.delivered };
      returns = refl;
      delivers = ap (λ fs. f ∷ fs) (ap (λ (x : Ended). x.delivered) same ∙ e.delivers);
      empties = ap (λ (x : Ended). x.lane.queue) same ∙ e.empties;
      frees = ap (λ (x : Ended). x.lane.bytes) same ∙ e.frees;
      gives_back = ap (λ (x : Ended). x.global.used) same ∙ e.gives_back;
    }

IsAccounted-sent :
    (others : ℕ) (lane : SendLane) (global : SendBudget) (ok : Bool)
    → IsAccounted others lane global
    → IsAccounted others (sent lane ok) global
unfolding sent
IsAccounted-sent others lane global true v = v
IsAccounted-sent others lane global false v = record {
  counted = v.counted;
  below = v.below;
  shared = v.shared;
  within = v.within;
  small_lane = v.small_lane;
  small_budget = v.small_budget;
}

IsAccounted-stop :
    (others : ℕ) (lane : SendLane) (global : SendBudget) (drain : Bool)
    → IsAccounted others lane global
    → IsAccounted others (stop lane drain) global
unfolding stop
IsAccounted-stop others lane global drain v = record {
  counted = v.counted;
  below = v.below;
  shared = v.shared;
  within = v.within;
  small_lane = v.small_lane;
  small_budget = v.small_budget;
}

sent-goes_on :
    (lane : SendLane) (ok : Bool)
    → ((sent lane ok).queue ≡ lane.queue)
      × ((sent lane ok).stopping ≡ lane.stopping)
      × ((sent lane ok).drain ≡ lane.drain)
unfolding sent
sent-goes_on lane true = (refl, refl, refl)
sent-goes_on lane false = (refl, refl, refl)

-- A round with a frame in the queue, and one with none, while the queue is to be drained.
abbrev Takes : SendLane → SendLane × SendBudget × Option (List ℕ) → List ℕ → List (List ℕ) → Type 0
Takes lane r f q =
    (r.0.queue ≡ q) × (r.0.stopping ≡ lane.stopping) × (r.0.drain ≡ true) × (r.2 ≡ some f)

next_of-Takes :
    (lane : SendLane) (global : SendBudget) (f : List ℕ) (q : List (List ℕ))
    → lane.drain ≡ true
    → Takes lane (next_of lane global (f ∷ q)) f q
unfolding next_of
next_of-Takes lane global f q d = elim (Bool-cases (lane.stopping && not lane.drain)) [
  | inl t ↦ absurd (ground (arith, d, t))
  | inr t ↦ rw t (refl, refl, d, refl)
]

next_frame-Takes :
    (lane : SendLane) (global : SendBudget) (f : List ℕ) (q : List (List ℕ))
    → lane.queue ≡ f ∷ q
    → lane.drain ≡ true
    → Takes lane (next_frame lane global) f q
unfolding next_frame
next_frame-Takes lane global f q e d =
    subst (λ x. Takes lane (next_of lane global x) f q) (sym e) (next_of-Takes lane global f q d)

next_frame-empty :
    (lane : SendLane) (global : SendBudget)
    → lane.queue ≡ []
    → next_frame lane global ≡ (lane, global, none)
unfolding next_frame
next_frame-empty lane global e =
    subst (λ x. next_of lane global x ≡ (lane, global, none)) (sym e) (unfold next_of in refl)

run-drain :
    (others : ℕ) (q : List (List ℕ)) (fuel : ℕ) (lane : SendLane) (global : SendBudget)
    (sink : List ℕ → Bool)
    → IsAccounted others lane global
    → lane.queue ≡ q
    → lane.drain ≡ true
    → length q < fuel
    → Ends others q (run fuel lane global sink)
unfolding run
run-drain others q zero lane global sink v e d h = absurd (omega arith)
run-drain others [] (suc fuel) lane global sink v e d h =
    let none_held : lane.bytes ≡ 0 = v.counted ∙ ap queue_bytes e ∙ unfold queue_bytes in refl in
    let share = v.shared in
    let same = next_frame-empty lane global e in
    rw (same, run)
      (record {
        at_end = _;
        returns = refl;
        delivers = refl;
        empties = ap (λ r. r.0.queue) same ∙ e;
        frees = ap (λ r. r.0.bytes) same ∙ none_held;
        gives_back = ap (λ r. r.1.used) same ∙ omega arith;
      })
run-drain others (f ∷ q) (suc fuel) lane global sink v e d h =
    let (rest, _, still, took) = next_frame-Takes lane global f q e d in
    let r = next_frame lane global in
    let goes_on = sent-goes_on r.0 (sink f) in
    rw (took, run)
      (Ends-with_frame others q f (run fuel (sent r.0 (sink f)) r.1 sink) (
        run-drain others q fuel (sent r.0 (sink f)) r.1 sink
          (IsAccounted-sent others r.0 r.1 (sink f) (next_frame-IsAccounted others lane global v))
          (goes_on.0 ∙ rest) (goes_on.2 ∙ still) (omega arith)))

next_of-discards :
    (others : ℕ) (q : List (List ℕ)) (lane : SendLane) (global : SendBudget)
    → lane.bytes ≡ queue_bytes q
    → lane.queue ≡ q
    → lane.stopping ≡ true
    → lane.drain ≡ false
    → global.used ≡ others + lane.bytes
    → global.used < 2 ^ 63
    → ((next_of lane global q).2 ≡ none)
      × ((next_of lane global q).0.queue ≡ [])
      × ((next_of lane global q).0.bytes ≡ 0)
      × ((next_of lane global q).1.used ≡ others)
unfolding next_of queue_bytes
next_of-discards others [] lane global b e s d u small = (refl, e, b, omega arith)
next_of-discards others (f ∷ q) lane global b e s d u small =
    let left = release_all_lem others lane.bytes global.used (f ∷ q) b u small in
    rw (s, d, left) (refl, refl, refl, refl)

run-discard :
    (others fuel : ℕ) (lane : SendLane) (global : SendBudget) (sink : List ℕ → Bool)
    → IsAccounted others lane global
    → lane.stopping ≡ true
    → lane.drain ≡ false
    → Ends others [] (run (suc fuel) lane global sink)
unfolding run next_frame
run-discard others fuel lane global sink v s d =
    let a = v.within in
    let b = v.small_budget in
    let (ends, empty, free, back) =
      next_of-discards others lane.queue lane global v.counted refl s d v.shared (omega arith) in
    rw (ends, run)
      (record {
        at_end = _;
        returns = refl;
        delivers = refl;
        empties = empty;
        frees = free;
        gives_back = back;
      })

-- `stop` lets the worker return: with `drain` it has given every frame of the queue to the sink, in order,
-- and without it none. Either way the queue is empty then, and the lane holds nothing of the shared budget.
-- It takes at most one round more than there are frames.
pub run-stop :
    (others : ℕ) (lane : SendLane) (global : SendBudget) (drain : Bool) (sink : List ℕ → Bool)
    → IsAccounted others lane global
    → Ends others
        (if drain then lane.queue else [])
        (run (suc (length lane.queue)) (stop lane drain) global sink)
unfolding stop
run-stop others lane global true sink v =
    run-drain others lane.queue (suc (length lane.queue)) _ global sink
      (IsAccounted-stop others lane global true v) refl refl (omega arith)
run-stop others lane global false sink v =
    run-discard others (length lane.queue) _ global sink
      (IsAccounted-stop others lane global false v) refl refl
