-- ===== src/Writer.antt =====
-- WriterImpl of src/participant.cpp, and the part of `write_sample` that runs under `mutex_`.
pub mod History
pub mod Backpressure
pub mod Acknack
use mdds.Base.{
  ℕ, zero, suc, ◌+◌, ◌-◌, ◌/◌, ◌<◌, max, Bool, true, false, not, ◌&&◌, ◌||◌, Option, none, some,
  List, [], ◌∷◌, ◌++◌, length, ltb, leb, ◌==◌, if◌then◌else◌,
}
use mdds.Wire.{u64}
use mdds.Guid.{Guid}
use mdds.Qos.{QosProfile, reliable, transient_local, keep_all}
use mdds.Lifespan.{lifespan_expired, trim_front}

pub record CachedSample : Type 0 where
  pub seq : ℕ
  pub pub_time_ms : ℕ
  pub pub_time_us : ℕ
  pub payload : List ℕ

-- `history` is oldest first.
pub record Writer : Type 0 where
  pub guid : Guid
  pub topic : List ℕ
  pub type_name : List ℕ
  pub qos : QosProfile
  pub seq : ℕ
  pub matched_count : ℕ
  pub birth_us : ℕ
  pub history : List CachedSample

abbrev pub keep_all_cap : ℕ
keep_all_cap = 256

-- A writer caches for retransmission or for late joiners.
unfoldable pub caches : QosProfile → Bool
caches qos = qos.reliability == reliable || qos.durability == transient_local

unfoldable pub history_cap : QosProfile → ℕ
history_cap qos = if qos.history == keep_all then keep_all_cap else max qos.depth 1

-- Expired entries sit at the front; the sweep stops at the first that has not expired.
unfoldable pub drop_expired : ℕ → ℕ → List CachedSample → List CachedSample
drop_expired lifespan_ms now [] = []
drop_expired lifespan_ms now (e ∷ rest) =
    if lifespan_expired lifespan_ms e.pub_time_ms now
    then drop_expired lifespan_ms now rest
    else e ∷ rest

-- `cache_sample`; `now` is the clock reading of its sweep. `false` is backpressure.
unfoldable pub cache_sample : Writer → CachedSample → ℕ → Writer × Bool
cache_sample w sample now =
    if not (caches w.qos)
    then (w, true)
    else if w.qos.history == keep_all && leb (history_cap w.qos) (length w.history)
    then (w, false)
    else (
      record w {
        history =
            drop_expired w.qos.lifespan_ms now
              (trim_front (history_cap w.qos) (w.history ++ (sample ∷ [])));
      },
      true,
    )

-- `write_sample` up to the point where the sample is cached and its number taken: `now_us` is the
-- publication time. `none` is the rejected write, which takes no number.
unfoldable pub claim : Writer → List ℕ → ℕ → ℕ → Writer × Option CachedSample
claim w payload now_us now =
    let sample : CachedSample = record {
      seq = u64 (w.seq + 1);
      pub_time_ms = now_us / 1000;
      pub_time_us = now_us;
      payload = payload;
    } in
    let (w', cached) = cache_sample w sample now in
    if not cached then (w, none) else (record w' { seq = sample.seq }, some sample)
