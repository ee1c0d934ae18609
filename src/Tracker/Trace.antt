-- ===== src/Tracker/Trace.antt =====
-- An arrival or a gap from one writer, and the numbers that it newly accounts for by an arrival: `track` and
-- `gap` without the queue, which has its own test behind them.
use mdds.Base.{ℕ, ◌+◌, ◌≤◌, ap, List, [], ◌∷◌, ◌==◌, ==→eq, if◌then◌else◌, arith}
use mdds.Wire.{IsU64}
use mdds.Tracker.{WriterRxState, track, gap, IsRx, seen}
use mdds.Tracker.Seen.{seen_near}
use mdds.Tracker.Refine.{track-Tracks}
use mdds.Tracker.Gap.{seen-gap, gap-IsRx}

pub data Event : Type 0 where
  arrive : ℕ → Event
  give_up : ℕ → Event

abbrev pub IsEvent : Event → Type 0
IsEvent (arrive seq) = IsU64 seq
IsEvent (give_up gap_end) = IsU64 gap_end

unfoldable pub next_state : WriterRxState → Event → WriterRxState
next_state st (arrive seq) = (track st seq).state
next_state st (give_up gap_end) = (gap st gap_end).0

-- The number that `track` reports as fresh, if any.
unfoldable pub fresh_numbers : WriterRxState → Event → List ℕ
fresh_numbers st (arrive seq) = if (track st seq).fresh then seq ∷ [] else []
fresh_numbers st (give_up gap_end) = []

unfoldable pub occurs : ℕ → List ℕ → ℕ
occurs s [] = 0
occurs s (x ∷ xs) = (if s == x then 1 else 0) + occurs s xs

abbrev pub unless_seen : WriterRxState → ℕ → ℕ
unless_seen st s = if seen st s then 0 else 1

pub event-IsRx : (st : WriterRxState) (e : Event) → IsRx st → IsEvent e → IsRx (next_state st e)
unfolding next_state
event-IsRx st (arrive seq) v h = (track-Tracks st seq v h).in_range
event-IsRx st (give_up gap_end) v h = gap-IsRx st gap_end v h

-- One event: what is fresh in it leaves the set of the numbers that may still come.
pub event_once :
    (s : ℕ) (st : WriterRxState) (e : Event)
    → IsRx st
    → IsEvent e
    → occurs s (fresh_numbers st e) + unless_seen (next_state st e) s ≤ unless_seen st s
unfolding fresh_numbers next_state occurs
event_once s st (arrive seq) v h =
    let t = track-Tracks st seq v h in
    ground (
      arith,
      t.is_fresh,
      t.members s,
      ==→eq s seq,
      ap (seen st) {x = s} {y = seq},
      seen_near st s v,
    )
event_once s st (give_up gap_end) v h = ground (arith, seen-gap st gap_end s v)
