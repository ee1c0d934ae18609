-- ===== src/Writer/Acknack.antt =====
-- The loop of `handle_acknack` in src/participant.cpp: what a writer answers to a NACK. It works on the
-- writer's history, under `mutex_`.
pub mod Answer
pub mod Order
pub mod Heals
use mdds.Base.{
  ℕ, zero, suc, ◌+◌, Bool, true, false, ◌&&◌, Option, none, some, List, [], ◌∷◌, ◌++◌, ltb, ◌==◌,
  if◌then◌else◌,
}
use mdds.Wire.{u64}
use mdds.Tracker.{has_bit}
use mdds.Writer.{CachedSample}

-- The samples to send again, and the highest number that this reader will never get (0 for none).
pub record Reply : Type 0 where
  pub resend : List CachedSample
  pub unavail_end : ℕ

-- What the loop reads of the request, the reader's endpoint record and the history.
pub record Request : Type 0 where
  pub history : List CachedSample
  pub base_seq : ℕ
  pub bitmap : ℕ
  pub clamp_pre_join : Bool
  pub reader_birth_us : ℕ

unfoldable pub find_entry : ℕ → List CachedSample → Option CachedSample
find_entry seq [] = none
find_entry seq (e ∷ rest) = if e.seq == seq then some e else find_entry seq rest

unfoldable pub first_avail : List CachedSample → ℕ
first_avail [] = 0
first_avail (e ∷ rest) = e.seq

unfoldable pub pre_join : Request → CachedSample → Bool
pre_join q e = q.clamp_pre_join && ltb e.pub_time_us q.reader_birth_us

unfoldable pub evicted : Request → ℕ → Bool
evicted q seq = ltb 0 (first_avail q.history) && ltb seq (first_avail q.history)

unfoldable pub answer_found : Request → ℕ → Option CachedSample → Reply → Reply
answer_found q seq none r = if evicted q seq then record r { unavail_end = seq } else r
answer_found q seq (some e) r =
    if pre_join q e
    then record r { unavail_end = seq }
    else record r { resend = r.resend ++ (e ∷ []) }

-- One round of the loop, for place `i` of the bitmap.
unfoldable pub answer_place : Request → ℕ → Reply → Reply
answer_place q i r =
    let seq = u64 (q.base_seq + i) in
    if has_bit q.bitmap i then r else answer_found q seq (find_entry seq q.history) r

-- The first `n` rounds.
unfoldable pub answer_places : Request → ℕ → Reply
answer_places q zero = record { resend = []; unavail_end = 0 }
answer_places q (suc n) = answer_place q n (answer_places q n)

unfoldable pub answer : Request → Reply
answer q = answer_places q 64
