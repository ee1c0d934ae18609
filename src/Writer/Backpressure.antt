-- ===== src/Writer/Backpressure.antt =====
-- KEEP_ALL backpressure in src/participant.cpp: a full history refuses samples, and goes on doing so.
use mdds.Base.{
  ℕ, suc, ap₂, append-nil, ◌+◌, ◌/◌, ◌^◌, ◌≤◌, ◌<◌, ◌≡◌, refl, sym, ap, ◌∙◌, true, false, Option,
  none, some, List, [], ◌∷◌, ◌++◌, map, All, length, length-append, append_assoc, ltb, leb, ◌==◌,
  arith,
}
use mdds.Qos.{keep_all}
use mdds.Writer.{
  Writer, CachedSample, caches, history_cap, keep_all_cap, cache_sample, claim, drop_expired,
}
use mdds.Wire.{u64}
use mdds.Lifespan.{lifespan_expired, trim_front}

-- A write, with its payload and its two clock readings.
pub record Write : Type 0 where
  pub payload : List ℕ
  pub now_us : ℕ
  pub swept_at : ℕ

unfoldable pub write_all : Writer → List Write → Writer × List (Option CachedSample)
write_all w [] = (w, [])
write_all w (x ∷ xs) =
    let (w', r) = claim w x.payload x.now_us x.swept_at in
    let (w'', rs) = write_all w' xs in (w'', r ∷ rs)

-- A caching KEEP_ALL writer whose history holds 256 samples.
abbrev pub IsFull : Writer → Type 0
IsFull w = (caches w.qos ≡ true) × (w.qos.history ≡ keep_all) × (keep_all_cap ≤ length w.history)

claim-IsFull :
    (w : Writer) (payload : List ℕ) (now_us now : ℕ)
    → IsFull w
    → claim w payload now_us now ≡ (w, none)
unfolding claim cache_sample history_cap
claim-IsFull w payload now_us now h = ground arith

write_all-IsFull :
    (w : Writer) (xs : List Write) → IsFull w → write_all w xs ≡ (w, map (λ x. none) xs)
unfolding write_all
write_all-IsFull w [] h = refl
write_all-IsFull w (x ∷ xs) h =
    rw (claim-IsFull w x.payload x.now_us x.swept_at h, write_all-IsFull w xs h) refl

abbrev pub sample_of : ℕ → Write → CachedSample
sample_of seq x = record {
  seq = seq;
  pub_time_ms = x.now_us / 1000;
  pub_time_us = x.now_us;
  payload = x.payload;
}

-- The samples of the writes, numbered from the one behind `seq` on.
unfoldable pub numbered : ℕ → List Write → List CachedSample
numbered seq [] = []
numbered seq (x ∷ xs) = sample_of (seq + 1) x ∷ numbered (seq + 1) xs

-- No entry of the history has expired at the time.
abbrev pub AllAlive : ℕ → ℕ → List CachedSample → Type 0
AllAlive lifespan_ms now es = All (λ e. lifespan_expired lifespan_ms e.pub_time_ms now ≡ false) es

-- No entry expires before the sweep of the write that it is in the history at.
abbrev pub AllInTime : Writer → List Write → Type 0
AllInTime w [] = Unit {0}
AllInTime w (x ∷ xs) =
    AllAlive w.qos.lifespan_ms x.swept_at (w.history ++ (sample_of (w.seq + 1) x ∷ []))
    × AllInTime
        (record w { seq = w.seq + 1; history = w.history ++ (sample_of (w.seq + 1) x ∷ []) }) xs

drop_expired-AllAlive :
    (lifespan_ms now : ℕ) (es : List CachedSample)
    → AllAlive lifespan_ms now es
    → drop_expired lifespan_ms now es ≡ es
unfolding drop_expired
drop_expired-AllAlive lifespan_ms now [] a = refl
drop_expired-AllAlive lifespan_ms now (e ∷ es) (h, a) = rw h refl

trim_front-short : (cap : ℕ) (es : List CachedSample) → length es ≤ cap → trim_front cap es ≡ es
unfolding trim_front
trim_front-short cap [] h = refl
trim_front-short cap (e ∷ es) h =
    let short : ltb cap (length (e ∷ es)) ≡ false = ground arith in rw short refl

-- A KEEP_ALL writer that caches and has room for one more sample takes it.
claim-room :
    (w : Writer) (x : Write)
    → caches w.qos ≡ true
    → w.qos.history ≡ keep_all
    → length w.history < keep_all_cap
    → w.seq + 1 < 2 ^ 64
    → AllAlive w.qos.lifespan_ms x.swept_at (w.history ++ (sample_of (w.seq + 1) x ∷ []))
    → claim w x.payload x.now_us x.swept_at ≡ (
      record w { seq = w.seq + 1; history = w.history ++ (sample_of (w.seq + 1) x ∷ []) },
      some (sample_of (w.seq + 1) x),
    )
unfolding claim cache_sample history_cap
claim-room w x c k room fits alive =
    let word : u64 (w.seq + 1) ≡ w.seq + 1 = omega arith in
    let keeps : (w.qos.history == keep_all) ≡ true = rw k (ground arith) in
    let free : leb keep_all_cap (length w.history) ≡ false = ground arith in
    let long = length-append w.history (sample_of (w.seq + 1) x ∷ []) in
    let kept =
      ap (drop_expired w.qos.lifespan_ms x.swept_at)
        (trim_front-short keep_all_cap (w.history ++ (sample_of (w.seq + 1) x ∷ [])) (omega arith))
      ∙ drop_expired-AllAlive w.qos.lifespan_ms x.swept_at
          (w.history ++ (sample_of (w.seq + 1) x ∷ [])) alive in
    rw (word, c) (rw (keeps, free) (rw kept refl))

abbrev grown : Writer → ℕ → List CachedSample → Writer
grown w n es = record w { seq = n; history = es }

write_all-first :
    (w : Writer) (x : Write) (xs : List Write) (w' : Writer) (r : Option CachedSample)
    (rest : Writer × List (Option CachedSample))
    → claim w x.payload x.now_us x.swept_at ≡ (w', r)
    → write_all w' xs ≡ rest
    → write_all w (x ∷ xs) ≡ (rest.0, r ∷ rest.1)
unfolding write_all
write_all-first w x xs w' r rest one e = rw (one, e) refl

-- A KEEP_ALL writer that caches takes writes until its history holds 256 samples: these writes get the next
-- numbers and are all kept, in order. From then on every write is refused and changes nothing, whatever the
-- lifespan and however late the write. None of the kept samples expires before the history is full, and the
-- numbers do not wrap.
pub write_all-fills :
    (w : Writer) (early late : List Write)
    → caches w.qos ≡ true
    → w.qos.history ≡ keep_all
    → length w.history + length early ≡ keep_all_cap
    → w.seq + length early < 2 ^ 64
    → AllInTime w early
    → write_all w (early ++ late) ≡ (
      record w { seq = w.seq + length early; history = w.history ++ numbered w.seq early },
      map some (numbered w.seq early) ++ map (λ x. none) late,
    )
unfolding numbered
write_all-fills w [] late c k full fits alive =
    let same_seq : w.seq ≡ w.seq + 0 = omega arith in
    write_all-IsFull w late (c, k, omega arith)
    ∙ ap₂ (λ n es. (grown w n es, map (λ x. none) late)) same_seq (sym (append-nil w.history))
write_all-fills w (x ∷ early) late c k full fits (now, later) =
    let s = sample_of (w.seq + 1) x in
    let w' = grown w (w.seq + 1) (w.history ++ (s ∷ [])) in
    let long = length-append w.history (s ∷ []) in
    let one = claim-room w x c k (omega arith) (omega arith) now in
    let rest = write_all-fills w' early late c k (omega arith) (omega arith) later in
    let same_seq : w.seq + 1 + length early ≡ w.seq + suc (length early) = omega arith in
    write_all-first w x (early ++ late) w' (some s) _ one rest
    ∙ (ap₂
        (λ n es.
          (grown w n es, some s ∷ (map some (numbered (w.seq + 1) early) ++ map (λ x. none) late)))
        same_seq (append_assoc w.history (s ∷ []) (numbered (w.seq + 1) early)))
