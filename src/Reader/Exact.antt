-- ===== src/Reader/Exact.antt =====
-- The samples of a writer that a reader of src/participant.cpp gets in time: each is queued exactly once.
use mdds.Base.{
  ℕ, ◌+◌, ◌<◌, ◌≡◌, refl, ap, subst, sym, Bool, true, false, ◌&&◌, ◌||◌, List, [], ◌∷◌, All, inl,
  inr, Bool-cases, ◌==◌, ==→eq, if◌then◌else◌, arith,
}
use mdds.Wire.{IsU64}
use mdds.Guid.{Guid, guid_eq, guid_eq_iff}
use mdds.Qos.{QosProfile}
use mdds.Lifespan.{lifespan_expired}
use mdds.Tracker.{WriterRxState, track, seen, IsRx}
use mdds.Tracker.Refine.{track-Tracks}
use mdds.Tracker.Trace.{unless_seen}
use mdds.Reader.{Reader, rx_state, enqueue}
use mdds.Reader.Dedup.{
  Call, enqueues, applies_gap, takes, asks_available, IsCall, IsReader, step, queues, times_queued,
  step-IsReader, rx_state-enqueue, rx_state-apply_gap, rx_state-take, rx_state-available,
}

-- Whether sample `s` of writer `w` comes in.
abbrev pub comes_in : Guid → ℕ → Call → Bool
comes_in w s (enqueues g seq payload qos time now swept_at) = guid_eq g w && s == seq
comes_in w s (applies_gap g gap_start gap_end) = false
comes_in w s (takes now) = false
comes_in w s (asks_available now) = false

unfoldable pub ever_comes : Guid → ℕ → List Call → Bool
ever_comes w s [] = false
ever_comes w s (c ∷ cs) = comes_in w s c || ever_comes w s cs

-- A sample of writer `w` comes at most 64 past the baseline that it finds and before its lifespan ends, and
-- no GAP of this writer comes. Nothing is asked of the other writers.
abbrev pub IsTimely : Guid → Reader → Call → Type 0
IsTimely w r (enqueues g seq payload qos time now swept_at) =
    guid_eq g w ≡ true
    → (seq < (rx_state r w).last_seq + 65) × (lifespan_expired qos.lifespan_ms time now ≡ false)
IsTimely w r (applies_gap g gap_start gap_end) = guid_eq g w ≡ false
IsTimely w r (takes now) = Unit {0}
IsTimely w r (asks_available now) = Unit {0}

abbrev pub AllTimely : Guid → Reader → List Call → Type 0
AllTimely w r [] = Unit {0}
AllTimely w r (c ∷ cs) = IsTimely w r c × AllTimely w (step r c) cs

-- One call: how often it queues the sample, and what the reader has accounted for behind it.
abbrev Once : Guid → ℕ → Reader → Call → Type 0
Once w s r c =
    (queues w s r c ≡ (if comes_in w s c then unless_seen (rx_state r w) s else 0))
    × (seen (rx_state (step r c) w) s ≡ (seen (rx_state r w) s || comes_in w s c))

-- A fresh sample that has not expired is queued.
queued-alive :
    (r : Reader) (g : Guid) (seq : ℕ) (payload : List ℕ) (qos : QosProfile) (time now swept_at : ℕ)
    → lifespan_expired qos.lifespan_ms time now ≡ false
    → (enqueue r g seq payload qos time now swept_at).queued ≡ (track (rx_state r g) seq).fresh
unfolding enqueue
queued-alive r g seq payload qos time now swept_at alive = rw alive (ground arith)

module _ (s : ℕ) (st : WriterRxState) (seq : ℕ) (v : IsRx st) (h : IsU64 seq)
    (near : seq < st.last_seq + 65) where
  near_fresh :
      (if (track st seq).fresh && (s == seq) then 1 else 0)
      ≡ (if s == seq then unless_seen st s else 0)
  near_fresh =
      let t = track-Tracks st seq v h in
      ground (arith, t.is_fresh, ==→eq s seq, ap (seen st) {x = s} {y = seq})

  near_members : seen (track st seq).state s ≡ (seen st s || (s == seq))
  near_members = let t = track-Tracks st seq v h in ground (arith, t.members s)

enqueue-Once :
    (w : Guid) (s : ℕ) (r : Reader) (seq : ℕ) (payload : List ℕ) (qos : QosProfile)
    (time now swept_at : ℕ)
    → IsReader r
    → IsU64 seq
    → seq < (rx_state r w).last_seq + 65
    → lifespan_expired qos.lifespan_ms time now ≡ false
    → Once w s r (enqueues w seq payload qos time now swept_at)
unfolding step queues
enqueue-Once w s r seq payload qos time now swept_at v h near alive =
    let self : guid_eq w w ≡ true = (guid_eq_iff w w).1 refl in
    rw
      (
        rx_state-enqueue r w w seq payload qos time now swept_at,
        queued-alive r w seq payload qos time now swept_at alive,
      )
      (rw self (
        near_fresh s (rx_state r w) seq (v w) h near,
        near_members s (rx_state r w) seq (v w) h near,
      ))

step-Once :
    (w : Guid) (s : ℕ) (r : Reader) (c : Call)
    → IsReader r
    → IsCall c
    → IsTimely w r c
    → Once w s r c
unfolding step queues
step-Once w s r (enqueues g seq payload qos time now swept_at) v h timely =
    elim (Bool-cases (guid_eq g w)) [
      | inl e ↦
          let (near, alive) = timely e in
          subst (λ k. Once w s r (enqueues k seq payload qos time now swept_at))
            (sym ((guid_eq_iff g w).0 e))
            (enqueue-Once w s r seq payload qos time now swept_at v h near alive)
      | inr e ↦
          rw (rx_state-enqueue r g w seq payload qos time now swept_at)
            (rw e (ground arith, ground arith))
    ]
step-Once w s r (applies_gap g gap_start gap_end) v h other =
    rw (rx_state-apply_gap r g w gap_start gap_end) (rw other (refl, ground arith))
step-Once w s r (takes now) v h timely = rw (rx_state-take r now w) (refl, ground arith)
step-Once w s r (asks_available now) v h timely =
    rw (rx_state-available r now w) (refl, ground arith)

-- Over any calls of a reader, in any order and with samples of other writers among them: a sample of the
-- writer that comes in, however often, is queued exactly once, unless it was accounted for at the start, and
-- one that does not come in is not queued. The samples of this writer come at most 64 past the baseline that
-- they find and before their lifespan ends, and no GAP of this writer comes.
pub times_queued_exact :
    (w : Guid) (s : ℕ) (r : Reader) (cs : List Call)
    → IsReader r
    → All IsCall cs
    → AllTimely w r cs
    → times_queued w s r cs
      ≡ (if ever_comes w s cs then (if seen (rx_state r w) s then 0 else 1) else 0)
unfolding times_queued ever_comes
times_queued_exact w s r [] v h timely = refl
times_queued_exact w s r (c ∷ cs) v h timely =
    let (now, then_on) = step-Once w s r c v h.0 timely.0 in
    ground (
      arith,
      now,
      then_on,
      times_queued_exact w s (step r c) cs (step-IsReader r c v h.0) h.1 timely.1,
    )
