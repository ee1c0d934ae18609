-- ===== src/Writer/Acknack/Heals.antt =====
-- One round of a NACK that loses no frame: the reader asks for what it lacks, the writer answers, and the
-- reader takes in the samples and then the GAP.
use mdds.Base.{
  ℕ, zero, suc, ◌+◌, ◌≤◌, ◌<◌, ◌≡◌, ◌≢◌, ◌∙◌, ◌⊎◌, true, List, [], ◌∷◌, All, All-append, ltb, ◌==◌,
  if◌then◌else◌, Bool-cases, inl, inr, arith, Option-cases, subst, sym, ==→eq,
}
use mdds.Wire.{u64, IsU64}
use mdds.Tracker.{WriterRxState, IsRx, seen, has_bit, track, gap}
use mdds.Tracker.Seen.{has_bit-bit, seen_above, seen_near}
use mdds.Tracker.Refine.{track-Tracks}
use mdds.Tracker.Gap.{seen-gap}
use mdds.Writer.{CachedSample}
use mdds.Writer.History.{EndsAt}
use mdds.Writer.Acknack.{
  Reply, Request, find_entry, answer_found, answer_place, answer_places, answer, pre_join, evicted,
}
use mdds.Writer.Acknack.Answer.{resends, find_entry-seq, answer_complete}

unfoldable pub track_all : WriterRxState → List CachedSample → WriterRxState
track_all st [] = st
track_all st (e ∷ es) = track_all (track st e.seq).state es

-- The samples come before the GAP, as `handle_acknack` sends them.
unfoldable pub take_in : WriterRxState → Reply → WriterRxState
take_in st r =
    let st' = track_all st r.resend in
    if ltb 0 r.unavail_end then (gap st' r.unavail_end).0 else st'

abbrev AllWords : List CachedSample → Type 0
AllWords es = All (λ e. IsU64 e.seq) es

-- A number that is accounted for stays so.
seen-track_mono :
    (st : WriterRxState) (seq s : ℕ)
    → IsRx st
    → IsU64 seq
    → seen st s ≡ true
    → seen (track st seq).state s ≡ true
seen-track_mono st seq s v w h =
    let t = track-Tracks st seq v w in
    let near = seen_near st s v in ground (arith, t.members s, near)

seen-track_self :
    (st : WriterRxState) (seq : ℕ) → IsRx st → IsU64 seq → seen (track st seq).state seq ≡ true
seen-track_self st seq v w = let t = track-Tracks st seq v w in ground (arith, t.members seq)

seen-track_all_mono :
    (st : WriterRxState) (es : List CachedSample) (s : ℕ)
    → IsRx st
    → AllWords es
    → seen st s ≡ true
    → seen (track_all st es) s ≡ true
unfolding track_all
seen-track_all_mono st [] s v w h = h
seen-track_all_mono st (e ∷ es) s v (w, ws) h =
    seen-track_all_mono (track st e.seq).state es s ((track-Tracks st e.seq v w).in_range) ws
      (seen-track_mono st e.seq s v w h)

track_all-IsRx :
    (st : WriterRxState) (es : List CachedSample) → IsRx st → AllWords es → IsRx (track_all st es)
unfolding track_all
track_all-IsRx st [] v w = v
track_all-IsRx st (e ∷ es) v (w, ws) =
    track_all-IsRx (track st e.seq).state es ((track-Tracks st e.seq v w).in_range) ws

seen-track_all-resends :
    (st : WriterRxState) (es : List CachedSample) (s : ℕ)
    → IsRx st
    → AllWords es
    → resends s es ≡ true
    → seen (track_all st es) s ≡ true
unfolding track_all resends
seen-track_all-resends st [] s v w h = absurd (cc)
seen-track_all-resends st (e ∷ es) s v (w, ws) h =
    let v' = (track-Tracks st e.seq v w).in_range in
    elim (Bool-cases (e.seq == s)) [
      | inl t ↦
          let same = ==→eq e.seq s t in
          seen-track_all_mono (track st e.seq).state es s v' ws (
            subst (λ (x : ℕ). seen (track st e.seq).state x ≡ true) same
              (seen-track_self st e.seq v w))
      | inr t ↦ seen-track_all-resends (track st e.seq).state es s v' ws (rw t at h)
    ]

-- What is sent again stands in the history under a number of 64 bits.
AllWords-answer_found :
    (q : Request) (seq : ℕ) (r : Reply)
    → IsU64 seq
    → AllWords r.resend
    → AllWords (answer_found q seq (find_entry seq q.history) r).resend
unfolding answer_found
AllWords-answer_found q seq r w h = elim (Option-cases (find_entry seq q.history)) [
  | inl e ↦ rw e (elim (Bool-cases (evicted q seq)) [ inl t ↦ rw t h | inr t ↦ rw t h ])
  | inr (x, e) ↦ rw e (elim (Bool-cases (pre_join q x)) [
    | inl t ↦ rw t h
    | inr t ↦ rw t (
        All-append (λ e'. IsU64 e'.seq) r.resend (x ∷ []) h
          (subst IsU64 (sym (find_entry-seq seq q.history x e)) w, tt))
  ])
]

AllWords-answer_places : (q : Request) (n : ℕ) → AllWords (answer_places q n).resend
unfolding answer_places answer_place
AllWords-answer_places q zero = tt
AllWords-answer_places q (suc n) = elim (Bool-cases (has_bit q.bitmap n)) [
  | inl t ↦ rw t (AllWords-answer_places q n)
  | inr t ↦ rw t (
      AllWords-answer_found q (u64 (q.base_seq + n)) (answer_places q n) (omega arith)
        (AllWords-answer_places q n))
]

seen-take_in :
    (st : WriterRxState) (r : Reply) (s : ℕ)
    → IsRx st
    → AllWords r.resend
    → (seen (track_all st r.resend) s ≡ true) ⊎ ((0 < s) × (s ≤ r.unavail_end))
    → seen (take_in st r) s ≡ true
unfolding take_in
seen-take_in st r s v w h =
    let covered =
      seen-gap (track_all st r.resend) r.unavail_end s (track_all-IsRx st r.resend v w) in
    elim h [ inl had ↦ ground (arith, covered) | inr up ↦ ground (arith, covered) ]

-- A reader asks with its own window for what follows the last number in sequence, and the writer's history
-- is unbroken, not empty and ends at `last`. Once the reader has taken in the samples and then the GAP of the
-- answer, each of the 64 numbers it asked about, up to `last`, is accounted for: it has the
-- sample or knows that it will not come. The 64 numbers do not wrap.
pub nack_round_heals :
    (st : WriterRxState) (q : Request) (last i : ℕ)
    → IsRx st
    → EndsAt last q.history
    → q.history ≢ []
    → q.base_seq ≡ st.last_seq + 1
    → q.bitmap ≡ st.window
    → IsU64 (q.base_seq + 63)
    → i < 64
    → q.base_seq + i ≤ last
    → seen (take_in st (answer q)) (q.base_seq + i) ≡ true
unfolding answer
nack_round_heals st q last i v ends ne base bits fits lt le =
    let s = q.base_seq + i in
    let w : AllWords (answer q).resend = AllWords-answer_places q 64 in
    elim (Bool-cases (has_bit q.bitmap i)) [
      | inl t ↦
          let had : seen st s ≡ true =
            seen_above st i s (omega arith) ∙ sym (has_bit-bit st.window i) ∙ (rw bits at t) in
          seen-take_in st (answer q) s v w
            (inl (seen-track_all_mono st (answer q).resend s v w had))
      | inr t ↦ elim (answer_complete q last ends fits i ne lt t le) [
        | inl again ↦
            seen-take_in st (answer q) s v w
              (inl (seen-track_all-resends st (answer q).resend s v w again))
        | inr given_up ↦ seen-take_in st (answer q) s v w (inr (omega arith, given_up))
      ]
    ]
