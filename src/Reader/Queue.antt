-- ===== src/Reader/Queue.antt =====
-- The reader's queue: its bound, its order, and the lifespan of what it hands out.
use mdds.Base.{
  ℕ, ◌≤◌, ◌≡◌, refl, ap, subst, ◌∙◌, max, false, none, some, List, [], ◌∷◌, ◌++◌, length, inl, inr,
  Bool-cases, ◌==◌, if◌then◌else◌, arith, All,
}
use mdds.Qos.{QosProfile, keep_last}
use mdds.Lifespan.{lifespan_expired, trim_front, length-trim_front}
use mdds.Tracker.{track}
use mdds.Reader.{
  rx_state, Reader, QueuedSample, sweep_expired, append_sample, account, enqueue, take, pop_front,
  available, apply_gap,
}
use mdds.Reader.Dedup.{Call, enqueues, applies_gap, takes, asks_available, step}

length-sweep : (now : ℕ) (q : List QueuedSample) → length (sweep_expired now q) ≤ length q
unfolding sweep_expired
length-sweep now [] = omega arith
length-sweep now (s ∷ rest) = ground (arith, length-sweep now rest)

-- The queue of a KEEP_LAST reader fits its depth, which counts as 1 at least.
abbrev IsBounded : Reader → Type 0
IsBounded r = r.qos.history ≡ keep_last → length r.queue ≤ max r.qos.depth 1

append_sample-IsBounded :
    (r : Reader) (s : QueuedSample) (now : ℕ) → IsBounded (append_sample r s now)
unfolding append_sample
append_sample-IsBounded r s now h = ground (
  arith,
  length-sweep now (
      if r.qos.history == keep_last
      then trim_front (max r.qos.depth 1) (r.queue ++ (s ∷ []))
      else r.queue ++ (s ∷ [])),
  length-trim_front (max r.qos.depth 1) (r.queue ++ (s ∷ [])),
)

step-IsBounded : (r : Reader) (c : Call) → IsBounded r → IsBounded (step r c)
unfolding step enqueue account apply_gap take pop_front available
step-IsBounded r (enqueues g seq payload qos time now swept_at) b =
    elim (Bool-cases (enqueue r g seq payload qos time now swept_at).queued) [
      | inl e ↦ rw e (
          append_sample-IsBounded (account r g (track (rx_state r g) seq))
            (record {
              payload = payload;
              info = record { writer_guid = g; seq = seq; pub_time_ms = time };
              lifespan_ms = qos.lifespan_ms;
            })
            swept_at)
      | inr e ↦ rw e b
    ]
step-IsBounded r (applies_gap g gap_start gap_end) b = λ h. ground arith
step-IsBounded r (takes now) b = λ h. ground (arith, length-sweep now r.queue)
step-IsBounded r (asks_available now) b = λ h. ground (arith, length-sweep now r.queue)

step-qos : (r : Reader) (c : Call) → (step r c).qos ≡ r.qos
unfolding step enqueue account append_sample apply_gap take pop_front available
step-qos r (enqueues g seq payload qos time now swept_at) = ground arith
step-qos r (applies_gap g gap_start gap_end) = ground arith
step-qos r (takes now) = ground arith
step-qos r (asks_available now) = ground arith

-- No call makes the queue of a KEEP_LAST reader longer than its depth, or than 1 where the depth is 0.
pub step-queue_bound :
    (r : Reader) (c : Call)
    → r.qos.history ≡ keep_last
    → length r.queue ≤ max r.qos.depth 1
    → length (step r c).queue ≤ max r.qos.depth 1
step-queue_bound r c h b =
    subst (λ (q : QosProfile). length (step r c).queue ≤ max q.depth 1) (step-qos r c)
      (step-IsBounded r c (λ _. b) (ap (λ (q : QosProfile). q.history) (step-qos r c) ∙ h))

abbrev Live : ℕ → QueuedSample → Type 0
Live now s = lifespan_expired s.lifespan_ms s.info.pub_time_ms now ≡ false

sweep-Live : (now : ℕ) (q : List QueuedSample) → All (Live now) (sweep_expired now q)
unfolding sweep_expired
sweep-Live now [] = tt
sweep-Live now (s ∷ rest) =
    elim (Bool-cases (lifespan_expired s.lifespan_ms s.info.pub_time_ms now)) [
      | inl e ↦ rw e (sweep-Live now rest)
      | inr e ↦ rw e (e, sweep-Live now rest)
    ]

-- `take` hands out the oldest sample that has not expired, and leaves the others that have not in their
-- order; it finds none exactly when all have expired.
pub take-sweep :
    (r : Reader) (now : ℕ)
    → sweep_expired now r.queue
      ≡ (elim (take r now).0 [ none ↦ [] | some s ↦ s ∷ (take r now).1.queue ])
unfolding take
take-sweep r now = by_queue r (sweep_expired now r.queue)
  where
    by_queue :
        (r : Reader) (q : List QueuedSample)
        → q ≡ (elim (pop_front r q).0 [ none ↦ [] | some s ↦ s ∷ (pop_front r q).1.queue ])
    by_queue r [] = unfold pop_front in refl
    by_queue r (s ∷ rest) = unfold pop_front in refl

-- What `take` hands out has not expired at the clock reading of the call.
pub take-Live :
    (r : Reader) (now : ℕ) (s : QueuedSample)
    → (take r now).0 ≡ some s
    → lifespan_expired s.lifespan_ms s.info.pub_time_ms now ≡ false
take-Live r now s h =
    let split : sweep_expired now r.queue ≡ s ∷ (take r now).1.queue = rw h at (take-sweep r now) in
    (subst (All (Live now)) split (sweep-Live now r.queue)).0
