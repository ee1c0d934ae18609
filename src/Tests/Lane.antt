-- ===== src/Tests/Lane.antt =====
-- src/send_lane.hpp: a lane that holds one frame.
use mdds.Base.{ℕ, List, Option, none, some, refl, true, false, [], ◌∷◌, arith}
use mdds.SendLane.{SendLane, SendBudget, stop}
use mdds.SendLane.Stopping.{Ends, run, run-stop}
use mdds.SendLane.Interleaving.{
  Lanes, passes, idle, queued, tests, counts, Steps, none_yet, then_one, total,
}
use mdds.SendLane.Budget.{IsShared, Steps-IsShared}
use mdds.SendLane.Accounting.{queue_bytes, IsAccounted}

abbrev one_frame : SendLane
one_frame = record {
  byte_limit = 10;
  queue = (1 ∷ 2 ∷ 3 ∷ []) ∷ [];
  bytes = 3;
  stopping = false;
  drain = false;
  dropped = 0;
  failed = 0;
}

abbrev budget : SendBudget
budget = record { limit = 100; used = 8 }

one_frame-IsAccounted : IsAccounted 5 one_frame budget
unfolding queue_bytes
one_frame-IsAccounted = record {
  counted = refl;
  below = omega arith;
  shared = refl;
  within = omega arith;
  small_lane = omega arith;
  small_budget = omega arith;
}

run-stop_example : Ends 5 ((1 ∷ 2 ∷ 3 ∷ []) ∷ []) (run 2 (stop one_frame true) budget (λ f. true))
run-stop_example = run-stop 5 one_frame budget true (λ f. true) one_frame-IsAccounted

abbrev empty_lane : SendLane
empty_lane = record {
  byte_limit = 10;
  queue = [];
  bytes = 0;
  stopping = false;
  drain = false;
  dropped = 0;
  failed = 0;
}

abbrev frame : List ℕ
frame = 1 ∷ 2 ∷ 3 ∷ []

abbrev both : SendBudget → Option (List ℕ) → SendLane → Option (List ℕ) → SendLane → Lanes
both b o x o' y = record {
  global = b;
  lanes = record { lane = x; pending = o } ∷ record { lane = y; pending = o' } ∷ [];
}

abbrev small_budget : SendBudget
small_budget = record { limit = 5; used = 0 }

abbrev at_first : Lanes
at_first = both small_budget none empty_lane none empty_lane

abbrev one_more : ℕ → SendBudget
one_more n = record { limit = 5; used = n }

abbrev in_the_end : Lanes
in_the_end = both (one_more 6) none (queued empty_lane frame) none (queued empty_lane frame)

at_first-IsShared : IsShared 5 3 1 at_first
unfolding total
at_first-IsShared = record {
  same_limit = refl;
  size = refl;
  fits = (
    record {
      counted = unfold queue_bytes in refl;
      room = omega arith;
      small = omega arith;
      short = omega arith;
    },
    (
      record {
        counted = unfold queue_bytes in refl;
        room = omega arith;
        small = omega arith;
        short = omega arith;
      },
      tt,
    ),
  );
  shared = refl;
  bounded = omega arith;
  small = omega arith;
}

-- Both lanes test the budget before either counts its frame: 6 bytes of 5.
over_the_limit : Steps 3 at_first in_the_end
unfolding passes
over_the_limit =
    then_one
      (then_one
        (then_one
          (then_one none_yet
            (tests [] (idle empty_lane ∷ []) empty_lane frame refl (omega arith) refl))
          (tests (record { lane = empty_lane; pending = some frame } ∷ []) [] empty_lane frame refl
            (omega arith) refl))
        (counts [] (record { lane = empty_lane; pending = some frame } ∷ []) empty_lane frame refl))
      (counts (idle (queued empty_lane frame) ∷ []) [] empty_lane frame refl)

Steps-IsShared_example : IsShared 5 3 1 in_the_end
Steps-IsShared_example = Steps-IsShared 5 3 1 at_first in_the_end at_first-IsShared over_the_limit
