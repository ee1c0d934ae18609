-- ===== src/Reader/Dedup.antt =====
-- The reader as a whole: samples of many writers, gaps and takes in any order.
use mdds.Base.{
  ℕ, ◌+◌, ◌≤◌, ◌≡◌, refl, ap, sym, ◌∙◌, true, false, ◌&&◌, Option, none, some, List, [], ◌∷◌, All,
  inl, inr, Bool-cases, Option-cases, ◌==◌, if◌then◌else◌, arith,
}
use mdds.Wire.{IsU64}
use mdds.Guid.{Guid, guid_eq, guid_eq_iff}
use mdds.Qos.{QosProfile}
use mdds.Tracker.{WriterRxState, fresh_state, track, gap, IsRx, seen}
use mdds.Tracker.Trace.{
  arrive, give_up, next_state, fresh_numbers, occurs, unless_seen, event-IsRx, event_once,
}
use mdds.Reader.{
  Reader, QueuedSample, find_rx, set_rx, rx_state, append_sample, account, enqueue, take, pop_front,
  available, apply_gap,
}

pub find-set :
    (g h : Guid) (st : WriterRxState) (m : List (Guid × WriterRxState))
    → find_rx h (set_rx g st m) ≡ (if guid_eq g h then some st else find_rx h m)
unfolding find_rx set_rx
find-set g h st [] = refl
find-set g h st ((k, old) ∷ m) = elim (Bool-cases (guid_eq k g)) [
  | inl e ↦
      let same : guid_eq k h ≡ guid_eq g h =
        ap (λ (x : Guid). guid_eq x h) ((guid_eq_iff k g).0 e) in
      rw e (ground (arith, same))
  | inr e ↦ rw e (elim (Bool-cases (guid_eq k h)) [
    | inl f ↦ let apart : guid_eq g h ≡ false = ne-guid k g h e f in rw (f, apart)
    | inr f ↦ rw f (find-set g h st m)
  ])
]
  where
    ne-guid : (k g h : Guid) → guid_eq k g ≡ false → guid_eq k h ≡ true → guid_eq g h ≡ false
    ne-guid k g h e f = elim (Bool-cases (guid_eq g h)) [
      | inl q ↦
          let kg : k ≡ g = (guid_eq_iff k h).0 f ∙ sym ((guid_eq_iff g h).0 q) in
          let t : guid_eq k g ≡ true = (guid_eq_iff k g).1 kg in cc
      | inr q ↦ q
    ]

-- The state of one writer, as an option.
abbrev or_fresh : Option WriterRxState → WriterRxState
or_fresh o = elim o [ none ↦ fresh_state | some st ↦ st ]

pub rx_state-set :
    (g h : Guid) (st : WriterRxState) (m : List (Guid × WriterRxState))
    → or_fresh (find_rx h (set_rx g st m)) ≡ (if guid_eq g h then st else or_fresh (find_rx h m))
rx_state-set g h st m = rw (find-set g h st m) (ground arith)

rx-append_sample : (r : Reader) (s : QueuedSample) (now : ℕ) → (append_sample r s now).rx ≡ r.rx
unfolding append_sample
rx-append_sample r s now = refl

-- The calls of a reader that change its state, with their arguments and clock readings.
pub data Call : Type 0 where
  enqueues : Guid → ℕ → List ℕ → QosProfile → ℕ → ℕ → ℕ → Call
  applies_gap : Guid → ℕ → ℕ → Call
  takes : ℕ → Call
  asks_available : ℕ → Call

unfoldable pub step : Reader → Call → Reader
step r (enqueues g seq payload qos time now swept_at) =
    (enqueue r g seq payload qos time now swept_at).reader
step r (applies_gap g gap_start gap_end) = apply_gap r g gap_start gap_end
step r (takes now) = (take r now).1
step r (asks_available now) = (available r now).1

abbrev pub IsCall : Call → Type 0
IsCall (enqueues g seq payload qos time now swept_at) = IsU64 seq
IsCall (applies_gap g gap_start gap_end) = IsU64 gap_end
IsCall (takes now) = Unit {0}
IsCall (asks_available now) = Unit {0}

-- 1 when the call queues sample `s` of writer `w`, and 0 otherwise.
unfoldable pub queues : Guid → ℕ → Reader → Call → ℕ
queues w s r (enqueues g seq payload qos time now swept_at) =
    if (enqueue r g seq payload qos time now swept_at).queued && (guid_eq g w && s == seq)
    then 1
    else 0
queues w s r (applies_gap g gap_start gap_end) = 0
queues w s r (takes now) = 0
queues w s r (asks_available now) = 0

-- How often sample `s` of writer `w` is queued in the course of the calls.
unfoldable pub times_queued : Guid → ℕ → Reader → List Call → ℕ
times_queued w s r [] = 0
times_queued w s r (c ∷ cs) = queues w s r c + times_queued w s (step r c) cs

abbrev pub IsReader : Reader → Type 0
IsReader r = (g : Guid) → IsRx (rx_state r g)

rx-enqueue :
    (r : Reader) (g : Guid) (seq : ℕ) (payload : List ℕ) (qos : QosProfile) (time now swept_at : ℕ)
    → (enqueue r g seq payload qos time now swept_at).reader.rx
      ≡ set_rx g (track (rx_state r g) seq).state r.rx
unfolding enqueue account append_sample
rx-enqueue r g seq payload qos time now swept_at = ground arith

pub rx_state-enqueue :
    (r : Reader) (g w : Guid) (seq : ℕ) (payload : List ℕ) (qos : QosProfile)
    (time now swept_at : ℕ)
    → rx_state (enqueue r g seq payload qos time now swept_at).reader w
      ≡ (if guid_eq g w then (track (rx_state r g) seq).state else rx_state r w)
unfolding rx_state
rx_state-enqueue r g w seq payload qos time now swept_at =
    ap (λ (m : List (Guid × WriterRxState)). or_fresh (find_rx w m))
      (rx-enqueue r g seq payload qos time now swept_at)
    ∙ rx_state-set g w (track (rx_state r g) seq).state r.rx

-- To a reader that never heard of the writer, a gap does what it does to a fresh state.
gap-fresh : (e : ℕ) → (gap fresh_state e).0 ≡ record { last_seq = e; window = 0 }
unfolding gap
gap-fresh e = ground arith

pub rx_state-apply_gap :
    (r : Reader) (g w : Guid) (gap_start gap_end : ℕ)
    → rx_state (apply_gap r g gap_start gap_end) w
      ≡ (if guid_eq g w then (gap (rx_state r g) gap_end).0 else rx_state r w)
unfolding rx_state apply_gap
rx_state-apply_gap r g w gap_start gap_end = elim (Option-cases (find_rx g r.rx)) [
  | inl e ↦
      rw (e, rx_state, apply_gap)
        (rx_state-set g w (record { last_seq = gap_end; window = 0 }) r.rx
          ∙ ap (λ (st : WriterRxState). if guid_eq g w then st else or_fresh (find_rx w r.rx))
              (sym (gap-fresh gap_end)))
  | inr (st, e) ↦ rw (e, rx_state, apply_gap) (rx_state-set g w (gap st gap_end).0 r.rx)
]

rx-take : (r : Reader) (now : ℕ) → (take r now).1.rx ≡ r.rx
unfolding take pop_front
rx-take r now = ground arith

pub rx_state-take : (r : Reader) (now : ℕ) (w : Guid) → rx_state (take r now).1 w ≡ rx_state r w
unfolding rx_state
rx_state-take r now w =
    ap (λ (m : List (Guid × WriterRxState)). or_fresh (find_rx w m)) (rx-take r now)

pub rx_state-available :
    (r : Reader) (now : ℕ) (w : Guid) → rx_state (available r now).1 w ≡ rx_state r w
unfolding available rx_state
rx_state-available r now w = refl

-- Queued samples are new ones.
queued-fresh :
    (r : Reader) (g : Guid) (seq : ℕ) (payload : List ℕ) (qos : QosProfile) (time now swept_at : ℕ)
    → (enqueue r g seq payload qos time now swept_at).queued ≡ true
    → (track (rx_state r g) seq).fresh ≡ true
unfolding enqueue
queued-fresh r g seq payload qos time now swept_at h = ground arith

-- Every call keeps the states of all writers in range.
pub step-IsReader : (r : Reader) (c : Call) → IsReader r → IsCall c → IsReader (step r c)
unfolding step
step-IsReader r (enqueues g seq payload qos time now swept_at) v h w =
    rw (rx_state-enqueue r g w seq payload qos time now swept_at) (elim (Bool-cases (guid_eq g w)) [
      | inl e ↦ rw e (unfold next_state in event-IsRx (rx_state r g) (arrive seq) (v g) h)
      | inr e ↦ rw e (v w)
    ])
step-IsReader r (applies_gap g gap_start gap_end) v h w =
    rw (rx_state-apply_gap r g w gap_start gap_end) (elim (Bool-cases (guid_eq g w)) [
      | inl e ↦ rw e (unfold next_state in event-IsRx (rx_state r g) (give_up gap_end) (v g) h)
      | inr e ↦ rw e (v w)
    ])
step-IsReader r (takes now) v h w = rw (rx_state-take r now w) (v w)
step-IsReader r (asks_available now) v h w = rw (rx_state-available r now w) (v w)

-- One call.
step_once :
    (w : Guid) (s : ℕ) (r : Reader) (c : Call)
    → IsReader r
    → IsCall c
    → queues w s r c + unless_seen (rx_state (step r c) w) s ≤ unless_seen (rx_state r w) s
unfolding step queues
step_once w s r (enqueues g seq payload qos time now swept_at) v h =
    rw (rx_state-enqueue r g w seq payload qos time now swept_at) (elim (Bool-cases (guid_eq g w)) [
      | inl e ↦
          let same : rx_state r g ≡ rx_state r w = ap (rx_state r) ((guid_eq_iff g w).0 e) in
          rw e (
            unfold next_state fresh_numbers occurs in
            ground (
              arith,
              event_once s (rx_state r g) (arrive seq) (v g) h,
              queued-fresh r g seq payload qos time now swept_at,
              ap (λ (st : WriterRxState). unless_seen st s) same,
            ))
      | inr e ↦ rw e (ground arith)
    ])
step_once w s r (applies_gap g gap_start gap_end) v h =
    rw (rx_state-apply_gap r g w gap_start gap_end) (elim (Bool-cases (guid_eq g w)) [
      | inl e ↦
          let same : rx_state r g ≡ rx_state r w = ap (rx_state r) ((guid_eq_iff g w).0 e) in
          rw e (
            unfold next_state fresh_numbers occurs in
            ground (
              arith,
              event_once s (rx_state r g) (give_up gap_end) (v g) h,
              ap (λ (st : WriterRxState). unless_seen st s) same,
            ))
      | inr e ↦ rw e (omega arith)
    ])
step_once w s r (takes now) v h =
    omega (arith, ap (λ (st : WriterRxState). unless_seen st s) (rx_state-take r now w))
step_once w s r (asks_available now) v h =
    omega (arith, ap (λ (st : WriterRxState). unless_seen st s) (rx_state-available r now w))

-- Whatever the calls are and in whatever order they come, a sample of a writer is queued at most once,
-- and not at all when it is accounted for at the start.
pub times_queued_once :
    (w : Guid) (s : ℕ) (r : Reader) (cs : List Call)
    → IsReader r
    → All IsCall cs
    → times_queued w s r cs ≤ (if seen (rx_state r w) s then 0 else 1)
unfolding times_queued
times_queued_once w s r [] v h = omega arith
times_queued_once w s r (c ∷ cs) v h = omega (
  arith,
  step_once w s r c v h.0,
  times_queued_once w s (step r c) cs (step-IsReader r c v h.0) h.1,
)
