-- ===== src/SendLane/Interleaving.antt =====
-- Several lanes of src/send_lane.hpp that share a budget, in any order. A `push` holds the mutex of its lane
-- alone, so that other lanes come between its test of the shared budget and its `fetch_add`.
use mdds.Base.{
  ℕ, ◌+◌, ◌≤◌, ◌≡◌, refl, Bool, true, false, not, ◌||◌, Option, none, some, List, [], ◌∷◌, ◌++◌,
  length, if◌then◌else◌, Bool-cases, inl, inr, ltb,
}
use mdds.Wire.{u64}
use mdds.SendLane.{SendLane, SendBudget, push, size_minus, sent, stop}

-- A lane, and the frame of a `push` that passed its test and is not counted yet.
pub record Busy : Type 0 where
  pub lane : SendLane
  pub pending : Option (List ℕ)

pub record Lanes : Type 0 where
  pub global : SendBudget
  pub lanes : List Busy

-- The test of `push`, and the two ends of it.
unfoldable pub passes : SendLane → SendBudget → List ℕ → Bool
passes lane global frame = not (
    lane.stopping
    || (ltb lane.byte_limit (u64 (lane.bytes + length frame))
        || ltb global.limit (u64 (global.used + length frame))))

abbrev pub refused : SendLane → SendLane
refused lane = record lane { dropped = u64 (lane.dropped + 1) }

abbrev pub queued : SendLane → List ℕ → SendLane
queued lane frame = record lane {
  queue = lane.queue ++ (frame ∷ []);
  bytes = u64 (lane.bytes + length frame);
}

abbrev pub used_more : SendBudget → List ℕ → SendBudget
used_more global frame = record global { used = u64 (global.used + length frame) }

push-halves :
    (lane : SendLane) (global : SendBudget) (frame : List ℕ)
    → push lane global frame ≡ (
        if passes lane global frame
        then (queued lane frame, used_more global frame, true)
        else (refused lane, global, false))
unfolding push passes
push-halves lane global frame =
    elim (Bool-cases (
      lane.stopping
      || (ltb lane.byte_limit (u64 (lane.bytes + length frame))
          || ltb global.limit (u64 (global.used + length frame))))) [
            | inl t ↦ rw t refl
            | inr t ↦ rw t refl
          ]

abbrev pub idle : SendLane → Busy
idle lane = record { lane = lane; pending = none }

-- One lane moves. Frames have at most `most` bytes.
pub data Step (most : ℕ) (s : Lanes) : Lanes → Type 0 where
  tests :
      (pre post : List Busy) (lane : SendLane) (frame : List ℕ)
      → s.lanes ≡ pre ++ (idle lane ∷ post)
      → length frame ≤ most
      → passes lane s.global frame ≡ true
      → Step most s
          (record s { lanes = pre ++ (record { lane = lane; pending = some frame } ∷ post) })
  refuses :
      (pre post : List Busy) (lane : SendLane) (frame : List ℕ)
      → s.lanes ≡ pre ++ (idle lane ∷ post)
      → passes lane s.global frame ≡ false
      → Step most s (record s { lanes = pre ++ (idle (refused lane) ∷ post) })
  counts :
      (pre post : List Busy) (lane : SendLane) (frame : List ℕ)
      → s.lanes ≡ pre ++ (record { lane = lane; pending = some frame } ∷ post)
      → Step most s (record {
        global = used_more s.global frame;
        lanes = pre ++ (idle (queued lane frame) ∷ post);
      })
  -- The worker takes a frame off the queue, for the sink or to discard it.
  releases :
      (pre post : List Busy) (lane : SendLane) (frame : List ℕ) (rest : List (List ℕ))
      → s.lanes ≡ pre ++ (idle lane ∷ post)
      → lane.queue ≡ frame ∷ rest
      → Step most s (record {
        global = record s.global { used = size_minus s.global.used (length frame) };
        lanes =
            pre
            ++ (idle (record lane { queue = rest; bytes = size_minus lane.bytes (length frame) })
                ∷ post);
      })
  delivers :
      (pre post : List Busy) (lane : SendLane) (pending : Option (List ℕ)) (ok : Bool)
      → s.lanes ≡ pre ++ (record { lane = lane; pending = pending } ∷ post)
      → Step most s
          (record s { lanes = pre ++ (record { lane = sent lane ok; pending = pending } ∷ post) })
  stops :
      (pre post : List Busy) (lane : SendLane) (drain : Bool)
      → s.lanes ≡ pre ++ (idle lane ∷ post)
      → Step most s (record s { lanes = pre ++ (idle (stop lane drain) ∷ post) })

pub data Steps (most : ℕ) (s : Lanes) : Lanes → Type 0 where
  none_yet : Steps most s s
  then_one : {t u : Lanes} → Steps most s t → Step most t u → Steps most s u

abbrev pub pending_bytes : Busy → ℕ
pending_bytes b = elim b.pending [ none ↦ 0 | some frame ↦ length frame ]

unfoldable pub total : (Busy → ℕ) → List Busy → ℕ
total f [] = 0
total f (b ∷ bs) = f b + total f bs

abbrev pub bytes_of : Busy → ℕ
bytes_of b = b.lane.bytes
