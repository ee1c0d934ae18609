-- ===== src/SendLane.antt =====
-- src/send_lane.hpp: the queue of frames for one peer, with its own byte limit and a budget that the
-- lanes of a transport share. Each step is what runs under `mutex_` in one go, while no other lane
-- touches the budget. The sink is the caller's.
pub mod Accounting
pub mod Stopping
pub mod Interleaving
pub mod Budget
use mdds.Base.{
  ℕ, suc, ◌+◌, ◌-◌, ◌^◌, ◌%◌, Bool, true, false, not, ◌&&◌, ◌||◌, Option, none, some, List, [], ◌∷◌,
  ◌++◌, length, ltb, if◌then◌else◌,
}
use mdds.Wire.{u64}

pub record SendBudget : Type 0 where
  pub limit : ℕ
  pub used : ℕ

pub record SendLane : Type 0 where
  pub byte_limit : ℕ
  pub queue : List (List ℕ)
  pub bytes : ℕ
  pub stopping : Bool
  pub drain : Bool
  pub dropped : ℕ
  pub failed : ℕ

-- A difference of two size_t, with its wrap.
abbrev pub size_minus : ℕ → ℕ → ℕ
size_minus a b = u64 (a + (2 ^ 64 - b))

-- `false` is the dropped frame.
unfoldable pub push : SendLane → SendBudget → List ℕ → SendLane × SendBudget × Bool
push lane global frame =
    let len = length frame in
    if lane.stopping
      || (ltb lane.byte_limit (u64 (lane.bytes + len))
          || ltb global.limit (u64 (global.used + len)))
    then (record lane { dropped = u64 (lane.dropped + 1) }, global, false)
    else (
      record lane { queue = lane.queue ++ (frame ∷ []); bytes = u64 (lane.bytes + len) },
      record global { used = u64 (global.used + len) },
      true,
    )

-- `stop` up to the join of the worker.
unfoldable pub stop : SendLane → Bool → SendLane
stop lane drain = record lane { stopping = true; drain = drain }

-- `release` for every frame of the queue: the new `bytes_` and `used`.
unfoldable pub release_all : List (List ℕ) → ℕ → ℕ → ℕ × ℕ
release_all [] bytes used = (bytes, used)
release_all (frame ∷ rest) bytes used =
    release_all rest (size_minus bytes (length frame)) (size_minus used (length frame))

-- The part of a round of `run` that holds the mutex, behind the wait: the frame for the sink, or `none`
-- where the worker returns.
unfoldable pub next_of :
    SendLane → SendBudget → List (List ℕ) → SendLane × SendBudget × Option (List ℕ)
next_of lane global [] = (lane, global, none)
next_of lane global (frame ∷ rest) =
    let left = release_all (frame ∷ rest) lane.bytes global.used in
    if lane.stopping && not lane.drain
    then (record lane { queue = []; bytes = left.0 }, record global { used = left.1 }, none)
    else (
      record lane { queue = rest; bytes = size_minus lane.bytes (length frame) },
      record global { used = size_minus global.used (length frame) },
      some frame,
    )

unfoldable pub next_frame : SendLane → SendBudget → SendLane × SendBudget × Option (List ℕ)
next_frame lane global = next_of lane global lane.queue

-- What the sink's answer does.
unfoldable pub sent : SendLane → Bool → SendLane
sent lane ok = if not ok then record lane { failed = u64 (lane.failed + 1) } else lane
