-- ===== src/Writer/History.antt =====
-- The writer's history: its bound, and that it is an unbroken run of numbers up to the last one taken.
use mdds.Base.{
  ℕ, ◌+◌, ◌≤◌, ◌≡◌, subst, sym, false, ◌&&◌, ◌/◌, List, [], ◌∷◌, ◌++◌, length, length-append, leb,
  ltb, ◌==◌, inl, inr, Bool-cases, arith,
}
use mdds.Wire.{u64, IsU64}
use mdds.Qos.{keep_all}
use mdds.Lifespan.{lifespan_expired, trim_front, length-trim_front}
use mdds.Writer.{Writer, CachedSample, caches, history_cap, drop_expired, cache_sample, claim}

-- The numbers of the list run without a break up to `last`.
abbrev pub EndsAt : ℕ → List CachedSample → Type 0
EndsAt last [] = Unit {0}
EndsAt last (e ∷ es) = (e.seq + length es ≡ last) × EndsAt last es

EndsAt-snoc :
    (last : ℕ) (es : List CachedSample) (e : CachedSample)
    → EndsAt last es
    → e.seq ≡ last + 1
    → EndsAt (last + 1) (es ++ (e ∷ []))
EndsAt-snoc last [] e h p = (omega arith, tt)
EndsAt-snoc last (x ∷ es) e h p =
    (omega (arith, h.0, length-append es (e ∷ [])), EndsAt-snoc last es e h.1 p)

EndsAt-trim :
    (last lim : ℕ) (es : List CachedSample) → EndsAt last es → EndsAt last (trim_front lim es)
unfolding trim_front
EndsAt-trim last lim [] h = tt
EndsAt-trim last lim (e ∷ es) h = elim (Bool-cases (ltb lim (length (e ∷ es)))) [
  | inl t ↦ rw t (EndsAt-trim last lim es h.1)
  | inr t ↦ rw t h
]

EndsAt-drop_expired :
    (last lifespan now : ℕ) (es : List CachedSample)
    → EndsAt last es
    → EndsAt last (drop_expired lifespan now es)
unfolding drop_expired
EndsAt-drop_expired last lifespan now [] h = tt
EndsAt-drop_expired last lifespan now (e ∷ es) h =
    elim (Bool-cases (lifespan_expired lifespan e.pub_time_ms now)) [
      | inl t ↦ rw t (EndsAt-drop_expired last lifespan now es h.1)
      | inr t ↦ rw t h
    ]

length-drop_expired :
    (lifespan now : ℕ) (es : List CachedSample) → length (drop_expired lifespan now es) ≤ length es
unfolding drop_expired
length-drop_expired lifespan now [] = omega arith
length-drop_expired lifespan now (e ∷ es) = ground (arith, length-drop_expired lifespan now es)

-- The history fits its cap and runs up to the last number taken; a writer that does not cache has none.
pub record IsWriter (w : Writer) : Type 0 where
  pub bounded : length w.history ≤ history_cap w.qos
  pub unbroken : EndsAt w.seq w.history
  pub uncached : caches w.qos ≡ false → w.history ≡ []

-- A write keeps the history within its cap, unbroken up to the writer's last number. The number must
-- not wrap around.
pub claim-IsWriter :
    (w : Writer) (payload : List ℕ) (now_us now : ℕ)
    → IsWriter w
    → IsU64 (w.seq + 1)
    → IsWriter (claim w payload now_us now).0
unfolding claim cache_sample
claim-IsWriter w payload now_us now v h = elim (Bool-cases (caches w.qos)) [
  | inr e ↦ rw e (record {
    bounded = v.bounded;
    unbroken = subst (EndsAt (u64 (w.seq + 1))) (sym (v.uncached e)) tt;
    uncached = v.uncached;
  })
  | inl e ↦
      elim (Bool-cases (w.qos.history == keep_all && leb (history_cap w.qos) (length w.history))) [
        | inl f ↦ rw (e, f) v
        | inr f ↦
            rw (e, f)
              (record {
                bounded = omega (
                  arith,
                  length-drop_expired w.qos.lifespan_ms now
                      (trim_front (history_cap w.qos) (w.history ++ (next ∷ []))),
                  length-trim_front (history_cap w.qos) (w.history ++ (next ∷ [])),
                );
                unbroken = EndsAt-drop_expired (u64 (w.seq + 1)) w.qos.lifespan_ms now _ (
                    EndsAt-trim (u64 (w.seq + 1)) (history_cap w.qos) _ (
                      subst (λ (n : ℕ). EndsAt n (w.history ++ (next ∷ []))) exact
                        (EndsAt-snoc w.seq w.history next v.unbroken (sym exact))));
                uncached = λ g. cc;
              })
      ]
]
  where
    exact : w.seq + 1 ≡ u64 (w.seq + 1)
    exact = omega arith

    next : CachedSample
    next = record {
      seq = u64 (w.seq + 1);
      pub_time_ms = now_us / 1000;
      pub_time_us = now_us;
      payload = payload;
    }
