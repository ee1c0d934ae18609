-- ===== src/SendLane/Budget.antt =====
-- The budget that the lanes of src/send_lane.hpp share, whatever the order of their steps.
use mdds.Base.{
  ℕ, suc, ◌+◌, ◌*◌, ◌^◌, ◌≤◌, ◌<◌, ◌≡◌, ◌⊎◌, refl, sym, ap, ◌∙◌, subst, Bool, true, false, Option,
  none, some, List, [], ◌∷◌, ◌++◌, length, inl, inr, arith, All,
}
use mdds.SendLane.{SendLane, SendBudget, size_minus, sent, stop}
use mdds.SendLane.Accounting.{queue_bytes, queue_bytes-append}
use mdds.SendLane.Interleaving.{
  Busy, Lanes, passes, queued, used_more, idle, Step, tests, refuses, counts, releases, delivers,
  stops, Steps, none_yet, then_one, pending_bytes, total, bytes_of,
}

total-at :
    (f : Busy → ℕ) (pre post : List Busy) (b : Busy)
    → total f (pre ++ (b ∷ post)) ≡ f b + (total f pre + total f post)
unfolding total
total-at f [] post b = omega arith
total-at f (x ∷ pre) post b = omega (arith, total-at f pre post b)

length-at :
    (pre post : List Busy) (b : Busy) → length (pre ++ (b ∷ post)) ≡ suc (length pre + length post)
length-at [] post b = omega arith
length-at (x ∷ pre) post b = omega (arith, length-at pre post b)

module _ (P : Busy → Type 0) where
  All-at : (pre post : List Busy) (b : Busy) → All P (pre ++ (b ∷ post)) → P b × All P (pre ++ post)
  All-at [] post b a = a
  All-at (x ∷ pre) post b (p, a) = let (q, as') = All-at pre post b a in (q, (p, as'))

  at-All : (pre post : List Busy) (b : Busy) → P b → All P (pre ++ post) → All P (pre ++ (b ∷ post))
  at-All [] post b q a = (q, a)
  at-All (x ∷ pre) post b q (p, a) = (p, at-All pre post b q a)

-- A lane counts the bytes of its queue, and its own limit holds for the frame that is pending, too.
pub record Fits (most : ℕ) (b : Busy) : Type 0 where
  pub counted : b.lane.bytes ≡ queue_bytes b.lane.queue
  pub room : b.lane.bytes + pending_bytes b ≤ b.lane.byte_limit
  pub small : b.lane.byte_limit < 2 ^ 63
  pub short : pending_bytes b ≤ most

-- The budget counts the bytes of the lanes, and is exceeded by at most a frame for each lane but one.
pub record IsShared (limit most others : ℕ) (s : Lanes) : Type 0 where
  pub same_limit : s.global.limit ≡ limit
  pub size : length s.lanes ≡ suc others
  pub fits : All (Fits most) s.lanes
  pub shared : s.global.used ≡ total bytes_of s.lanes
  pub bounded : s.global.used + total pending_bytes s.lanes ≤ limit + others * most
  pub small : limit + suc others * most < 2 ^ 63

total-most :
    (most : ℕ) (bs : List Busy) → All (Fits most) bs → total pending_bytes bs ≤ length bs * most
unfolding total
total-most most [] a = omega arith
total-most most (b ∷ bs) (f, a) = let short = f.short in grind (arith, total-most most bs a)

total-append : (f : Busy → ℕ) (xs ys : List Busy) → total f (xs ++ ys) ≡ total f xs + total f ys
unfolding total
total-append f [] ys = omega arith
total-append f (x ∷ xs) ys = omega (arith, total-append f xs ys)

length-both : (xs ys : List Busy) → length (xs ++ ys) ≡ length xs + length ys
length-both [] ys = omega arith
length-both (x ∷ xs) ys = omega (arith, length-both xs ys)

-- One lane changes, and the budget with it.
module _ (limit most others : ℕ) (s : Lanes) (v : IsShared limit most others s)
    (pre post : List Busy) (b b' : Busy) (e : s.lanes ≡ pre ++ (b ∷ post)) where
  at_lane : Fits most b × All (Fits most) (pre ++ post)
  at_lane = All-at (Fits most) pre post b (subst (All (Fits most)) e v.fits)

  others_pending : total pending_bytes pre + total pending_bytes post ≤ others * most
  others_pending =
      let held = total-most most (pre ++ post) at_lane.1 in
      let size = v.size in
      let count : length (pre ++ post) ≡ others =
        omega (arith, size, ap length e, length-at pre post b, length-both pre post) in
      let sum = total-append pending_bytes pre post in
      let within : total pending_bytes (pre ++ post) ≤ others * most = rw count at held in
      omega (arith, sum, within)

  -- The new pending bytes are within the limit, or no more than the old.
  replaced :
      (global' : SendBudget)
      → Fits most b'
      → global'.limit ≡ limit
      → global'.used + b.lane.bytes ≡ s.global.used + b'.lane.bytes
      → (global'.used + pending_bytes b' ≤ limit)
        ⊎ (global'.used + pending_bytes b' ≤ s.global.used + pending_bytes b)
      → IsShared limit most others (record { global = global'; lanes = pre ++ (b' ∷ post) })
  replaced global' fits same moved within =
      let bytes = total-at bytes_of pre post b in
      let bytes' = total-at bytes_of pre post b' in
      let pend = total-at pending_bytes pre post b in
      let pend' = total-at pending_bytes pre post b' in
      let share = v.shared ∙ ap (total bytes_of) e in
      let size = v.size in
      let bounded : s.global.used + total pending_bytes (pre ++ (b ∷ post))
          ≤ limit + others * most =
        rw e at v.bounded in
      let rest = others_pending in
      record {
        same_limit = same;
        size = omega (arith, size, ap length e, length-at pre post b, length-at pre post b');
        fits = at-All (Fits most) pre post b' fits at_lane.1;
        shared = omega (arith, bytes, bytes', share, moved);
        bounded = elim within [
          | inl low ↦ omega (arith, pend', rest, low)
          | inr low ↦ omega (arith, pend, pend', bounded, low)
        ];
        small = v.small;
      }

module _ (limit most others : ℕ) (s : Lanes) (v : IsShared limit most others s) where
  used_small : s.global.used < 2 ^ 63
  used_small = let a = v.bounded in let b = v.small in grind arith

  step-tests :
      (pre post : List Busy) (lane : SendLane) (frame : List ℕ)
      → s.lanes ≡ pre ++ (idle lane ∷ post)
      → length frame ≤ most
      → passes lane s.global frame ≡ true
      → IsShared limit most others
          (record s { lanes = pre ++ (record { lane = lane; pending = some frame } ∷ post) })
  unfolding passes
  step-tests pre post lane frame e h ok =
      let b' : Busy = record { lane = lane; pending = some frame } in
      let (f, _) = at_lane limit most others s v pre post (idle lane) b' e in
      let a = v.bounded in
      let sm = v.small in
      let lim = v.same_limit in
      let room = f.room in
      let small = f.small in
      replaced limit most others s v pre post (idle lane) b' e s.global
        (record { counted = f.counted; room = ground (arith, ok); small = f.small; short = h })
        v.same_limit refl (inl (ground (arith, ok)))

  step-counts :
      (pre post : List Busy) (lane : SendLane) (frame : List ℕ)
      → s.lanes ≡ pre ++ (record { lane = lane; pending = some frame } ∷ post)
      → IsShared limit most others (record {
        global = used_more s.global frame;
        lanes = pre ++ (idle (queued lane frame) ∷ post);
      })
  step-counts pre post lane frame e =
      let b : Busy = record { lane = lane; pending = some frame } in
      let (f, _) = at_lane limit most others s v pre post b (idle (queued lane frame)) e in
      let a = v.bounded in
      let sm = v.small in
      let room = f.room in
      let small = f.small in
      let counted = f.counted in
      let short = f.short in
      let grown = queue_bytes-append lane.queue frame in
      replaced limit most others s v pre post b (idle (queued lane frame)) e
        (used_more s.global frame)
        (record { counted = omega arith; room = omega arith; small = f.small; short = omega arith })
        v.same_limit (omega (arith, used_small)) (inr (omega (arith, used_small)))

  -- A change of a lane that neither its bytes nor the budget see.
  step-quietly :
      (pre post : List Busy) (lane lane' : SendLane) (o : Option (List ℕ))
      → s.lanes ≡ pre ++ (record { lane = lane; pending = o } ∷ post)
      → lane'.queue ≡ lane.queue
      → lane'.bytes ≡ lane.bytes
      → lane'.byte_limit ≡ lane.byte_limit
      → IsShared limit most others
          (record s { lanes = pre ++ (record { lane = lane'; pending = o } ∷ post) })
  step-quietly pre post lane lane' o e same_queue same_bytes same_limit =
      let b : Busy = record { lane = lane; pending = o } in
      let b' : Busy = record { lane = lane'; pending = o } in
      let (f, _) = at_lane limit most others s v pre post b b' e in
      let room = f.room in
      let small = f.small in
      replaced limit most others s v pre post b b' e s.global
        (record {
          counted = same_bytes ∙ f.counted ∙ sym (ap queue_bytes same_queue);
          room = rw (same_bytes, same_limit) room;
          small = rw same_limit small;
          short = f.short;
        })
        v.same_limit (ap (λ n. s.global.used + n) (sym same_bytes)) (inr (omega arith))

  step-releases :
      (pre post : List Busy) (lane : SendLane) (frame : List ℕ) (rest : List (List ℕ))
      → s.lanes ≡ pre ++ (idle lane ∷ post)
      → lane.queue ≡ frame ∷ rest
      → IsShared limit most others (record {
        global = record s.global { used = size_minus s.global.used (length frame) };
        lanes =
            pre
            ++ (idle (record lane { queue = rest; bytes = size_minus lane.bytes (length frame) })
                ∷ post);
      })
  unfolding queue_bytes
  step-releases pre post lane frame rest e q =
      let b' = idle (record lane { queue = rest; bytes = size_minus lane.bytes (length frame) }) in
      let (f, _) = at_lane limit most others s v pre post (idle lane) b' e in
      let room = f.room in
      let small = f.small in
      let counted : lane.bytes ≡ length frame + queue_bytes rest = f.counted ∙ ap queue_bytes q in
      let share = v.shared ∙ ap (total bytes_of) e in
      let sum = total-at bytes_of pre post (idle lane) in
      replaced limit most others s v pre post (idle lane) b' e
        (record s.global { used = size_minus s.global.used (length frame) })
        (record { counted = omega arith; room = omega arith; small = f.small; short = omega arith })
        v.same_limit (omega (arith, used_small)) (inr (omega (arith, used_small)))

sent-quietly :
    (lane : SendLane) (ok : Bool)
    → ((sent lane ok).queue ≡ lane.queue)
      × ((sent lane ok).bytes ≡ lane.bytes)
      × ((sent lane ok).byte_limit ≡ lane.byte_limit)
unfolding sent
sent-quietly lane true = (refl, refl, refl)
sent-quietly lane false = (refl, refl, refl)

Step-IsShared :
    (limit most others : ℕ) (s t : Lanes)
    → IsShared limit most others s
    → Step most s t
    → IsShared limit most others t
Step-IsShared limit most others s t v (tests pre post lane frame e h ok) =
    step-tests limit most others s v pre post lane frame e h ok
Step-IsShared limit most others s t v (refuses pre post lane frame e fails) =
    step-quietly limit most others s v pre post lane _ none e refl refl refl
Step-IsShared limit most others s t v (counts pre post lane frame e) =
    step-counts limit most others s v pre post lane frame e
Step-IsShared limit most others s t v (releases pre post lane frame rest e q) =
    step-releases limit most others s v pre post lane frame rest e q
Step-IsShared limit most others s t v (delivers pre post lane o ok e) =
    let (a, b, c) = sent-quietly lane ok in
    step-quietly limit most others s v pre post lane _ o e a b c
Step-IsShared limit most others s t v (stops pre post lane drain e) =
    step-quietly limit most others s v pre post lane _ none e (unfold stop in refl)
      (unfold stop in refl) (unfold stop in refl)

-- However the calls of the lanes and their workers interleave, the shared budget counts exactly the bytes in
-- the queues, each lane keeps to its own limit, and the shared limit is exceeded by no more than a frame for
-- each lane but one. Frames have at most `most` bytes, and the limits leave room for one frame of each lane
-- below 2 ^ 63.
pub Steps-IsShared :
    (limit most others : ℕ) (s t : Lanes)
    → IsShared limit most others s
    → Steps most s t
    → IsShared limit most others t
Steps-IsShared limit most others s t v none_yet = v
Steps-IsShared limit most others s t v (then_one {t = u} steps step) =
    Step-IsShared limit most others u t (Steps-IsShared limit most others s u v steps) step
