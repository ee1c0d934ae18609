-- ===== src/Tests/Send.antt =====
-- The send side of src/participant.cpp: the writer's history and its answers to a NACK.
use mdds.Base.{
  ℕ, zero, suc, ◌*◌, ◌≤◌, ◌<◌, ◌≡◌, refl, ◌⊎◌, true, false, none, some, List, [], ◌∷◌, ◌++◌, All,
  replicate, arith,
}
use mdds.Qos.{preset_default, preset_bulk_data}
use mdds.Tracker.{has_bit}
use mdds.Writer.{Writer, CachedSample, caches, history_cap, claim}
use mdds.Writer.History.{IsWriter, claim-IsWriter}
use mdds.Writer.Backpressure.{Write, write_all, sample_of, numbered, AllAlive, write_all-fills}
use mdds.Lifespan.{lifespan_expired}
use mdds.Writer.Acknack.{
  Request, find_entry, first_avail, evicted, answer_found, answer_place, answer_places, pre_join,
  answer,
}
use mdds.Writer.Acknack.Answer.{resends, answer_complete}
use mdds.Writer.Acknack.Order.{answer_entitled}

abbrev cached : ℕ → CachedSample
cached n = record { seq = n; pub_time_ms = n; pub_time_us = 1000 * n; payload = n ∷ [] }

abbrev writer_at : ℕ → List CachedSample → Writer
writer_at n history = record {
  guid = record { bytes = replicate 16 7 };
  topic = b'c' ∷ [];
  type_name = b't' ∷ [];
  qos = preset_default;
  seq = n;
  matched_count = 0;
  birth_us = 0;
  history = history;
}

two_cached-IsWriter : IsWriter (writer_at 5 (cached 4 ∷ cached 5 ∷ []))
two_cached-IsWriter = record {
  bounded = unfold history_cap in omega arith;
  unbroken = (refl, (refl, tt));
  uncached = unfold caches in λ e. cc;
}

claim-IsWriter_example : IsWriter (claim (writer_at 5 (cached 4 ∷ cached 5 ∷ [])) (6 ∷ []) 6000 7).0
claim-IsWriter_example =
    claim-IsWriter (writer_at 5 (cached 4 ∷ cached 5 ∷ [])) (6 ∷ []) 6000 7 two_cached-IsWriter
      (omega arith)

-- Room for one more.
abbrev nearly_full : Writer
nearly_full = record (writer_at 255 (replicate 255 (cached 5))) {
  qos = record preset_bulk_data { lifespan_ms = 10 };
}

abbrev last_write : Write
last_write = record { payload = 8 ∷ []; now_us = 6000; swept_at = 7 }

abbrev late_write : Write
late_write = record { payload = 9 ∷ []; now_us = 9_000_000; swept_at = 9000 }

all_alive :
    (n : ℕ) (e : CachedSample)
    → AllAlive 10 7 (e ∷ [])
    → AllAlive 10 7 (replicate n (cached 5) ++ (e ∷ []))
all_alive zero e h = h
all_alive (suc n) e h = (unfold lifespan_expired in refl, all_alive n e h)

write_all-fills_example : write_all nearly_full (last_write ∷ late_write ∷ late_write ∷ []) ≡ (
  record nearly_full {
    seq = 256;
    history = nearly_full.history ++ (sample_of 256 last_write ∷ []);
  },
  some (sample_of 256 last_write) ∷ none ∷ none ∷ [],
)
unfolding numbered
write_all-fills_example =
    write_all-fills nearly_full (last_write ∷ []) (late_write ∷ late_write ∷ [])
      (unfold caches in refl) refl refl (omega arith)
      (all_alive 255 (sample_of 256 last_write) (unfold lifespan_expired in refl, tt), tt)

-- Samples 4 and 5 are cached; a volatile reader born after 4 was published asks for 3, 4 and 5.
abbrev request : Request
request = record {
  history = cached 4 ∷ cached 5 ∷ [];
  base_seq = 3;
  bitmap = 0;
  clamp_pre_join = true;
  reader_birth_us = 4500;
}

answer_run : answer request ≡ record { resend = cached 5 ∷ []; unavail_end = 4 }
unfolding answer answer_places answer_place answer_found evicted pre_join find_entry first_avail
    has_bit
answer_run = refl

answer_complete_example :
    (resends 4 (answer request).resend ≡ true) ⊎ (4 ≤ (answer request).unavail_end)
answer_complete_example =
    answer_complete request 5 (refl, (refl, tt)) (omega arith) 1 (λ e. cc) (omega arith)
      (unfold has_bit in refl) (omega arith)

answer_entitled_example :
    All
      (λ e.
        ((answer request).unavail_end < e.seq)
        × (find_entry e.seq request.history ≡ some e)
        × (pre_join request e ≡ false))
      (answer request).resend
answer_entitled_example =
    answer_entitled request 5 (refl, (refl, tt)) (omega arith) (omega arith) (omega arith)
