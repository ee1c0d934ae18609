-- ===== src/SendLane/Accounting.antt =====
-- The bytes of a lane are those of its queue, within its limit and within the shared budget.
use mdds.Base.{
  ℕ, ◌+◌, ◌^◌, ◌≤◌, ◌<◌, ◌≡◌, refl, not, ◌&&◌, ◌||◌, List, [], ◌∷◌, ◌++◌, length, ltb, Bool-cases,
  inl, inr, arith,
}
use mdds.Wire.{u64}
use mdds.SendLane.{SendLane, SendBudget, push, release_all, next_of, next_frame, size_minus}

-- The bytes of the frames of a queue.
unfoldable pub queue_bytes : List (List ℕ) → ℕ
queue_bytes [] = 0
queue_bytes (frame ∷ rest) = length frame + queue_bytes rest

pub queue_bytes-append :
    (fs : List (List ℕ)) (f : List ℕ) → queue_bytes (fs ++ (f ∷ [])) ≡ queue_bytes fs + length f
unfolding queue_bytes
queue_bytes-append [] f = omega arith
queue_bytes-append (g ∷ fs) f = omega (arith, queue_bytes-append fs f)

-- The accounting is right: `others` is what the other lanes hold of the budget. The limits leave room
-- for a frame below 2 ^ 63 bytes.
pub record IsAccounted (others : ℕ) (lane : SendLane) (global : SendBudget) : Type 0 where
  pub counted : lane.bytes ≡ queue_bytes lane.queue
  pub below : lane.bytes ≤ lane.byte_limit
  pub shared : global.used ≡ others + lane.bytes
  pub within : global.used ≤ global.limit
  pub small_lane : lane.byte_limit < 2 ^ 63
  pub small_budget : global.limit < 2 ^ 63

-- A push keeps the accounting: the lane holds the bytes of its queue, within its limit, and the budget is
-- not exceeded. The frame is shorter than 2 ^ 63 bytes.
pub push-IsAccounted :
    (others : ℕ) (lane : SendLane) (global : SendBudget) (frame : List ℕ)
    → IsAccounted others lane global
    → length frame < 2 ^ 63
    → IsAccounted others (push lane global frame).0 (push lane global frame).1
unfolding push
push-IsAccounted others lane global frame v h =
    elim (Bool-cases (
      lane.stopping
      || (ltb lane.byte_limit (u64 (lane.bytes + length frame))
          || ltb global.limit (u64 (global.used + length frame))))) [
            | inl e ↦ rw e (record {
              counted = v.counted;
              below = v.below;
              shared = v.shared;
              within = v.within;
              small_lane = v.small_lane;
              small_budget = v.small_budget;
            })
            | inr e ↦
                let a = v.counted in
                let b = v.below in
                let c = v.shared in
                let d = v.within in
                let p = v.small_lane in
                let q = v.small_budget in
                rw e (record {
                  counted = omega (arith, queue_bytes-append lane.queue frame);
                  below = ground arith;
                  shared = omega arith;
                  within = ground arith;
                  small_lane = p;
                  small_budget = q;
                })
          ]

pub release_all_lem :
    (others bytes used : ℕ) (fs : List (List ℕ))
    → bytes ≡ queue_bytes fs
    → used ≡ others + bytes
    → used < 2 ^ 63
    → release_all fs bytes used ≡ (0, others)
unfolding release_all queue_bytes
release_all_lem others bytes used [] h k l = rw (h, k) (ground arith)
release_all_lem others bytes used (f ∷ fs) h k l =
    release_all_lem others (size_minus bytes (length f)) (size_minus used (length f)) fs
      (omega arith) (omega arith) (omega arith)

pub next_of-IsAccounted :
    (others : ℕ) (lane : SendLane) (global : SendBudget) (q : List (List ℕ))
    → IsAccounted others lane global
    → lane.bytes ≡ queue_bytes q
    → IsAccounted others (next_of lane global q).0 (next_of lane global q).1
unfolding next_of queue_bytes
next_of-IsAccounted others lane global [] v a = v
next_of-IsAccounted others lane global (f ∷ fs) v a =
    let b = v.below in
    let c = v.shared in
    let d = v.within in
    let p = v.small_lane in
    let q = v.small_budget in
    let left = release_all_lem others lane.bytes global.used (f ∷ fs) a c (omega arith) in
    elim (Bool-cases (lane.stopping && not lane.drain)) [
      | inl t ↦
          rw (t, left)
            (record {
              counted = refl;
              below = omega arith;
              shared = omega arith;
              within = omega arith;
              small_lane = p;
              small_budget = q;
            })
      | inr t ↦ rw t (record {
        counted = omega arith;
        below = omega arith;
        shared = omega arith;
        within = omega arith;
        small_lane = p;
        small_budget = q;
      })
    ]

-- A round of the worker keeps the accounting, also where it discards the whole queue.
pub next_frame-IsAccounted :
    (others : ℕ) (lane : SendLane) (global : SendBudget)
    → IsAccounted others lane global
    → IsAccounted others (next_frame lane global).0 (next_frame lane global).1
unfolding next_frame
next_frame-IsAccounted others lane global v =
    next_of-IsAccounted others lane global lane.queue v v.counted
