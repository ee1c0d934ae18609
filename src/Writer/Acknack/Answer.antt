-- ===== src/Writer/Acknack/Answer.antt =====
-- Every number that is requested is answered: the sample is sent again, or the GAP covers it.
use mdds.Base.{
  ℕ, zero, suc, ◌+◌, ◌≤◌, ◌<◌, ◌≡◌, refl, Bool, true, false, ◌⊎◌, Option, none, some, List, [], ◌∷◌,
  ◌++◌, ltb, ltb→lt, ==→eq, ◌≢◌, ◌==◌, if◌then◌else◌, inl, inr, Bool-cases, Option-cases, arith,
}
use mdds.Wire.{u64, IsU64}
use mdds.Tracker.{has_bit}
use mdds.Writer.{CachedSample}
use mdds.Writer.History.{EndsAt}
use mdds.Writer.Acknack.{
  Reply, Request, find_entry, first_avail, evicted, answer_found, answer_place, answer_places,
  answer,
}

-- Whether the number is among those sent again.
unfoldable pub resends : ℕ → List CachedSample → Bool
resends s [] = false
resends s (e ∷ rest) = if e.seq == s then true else resends s rest

resends-snoc :
    (s : ℕ) (es : List CachedSample) (e : CachedSample)
    → (resends s es ≡ true) ⊎ (e.seq ≡ s)
    → resends s (es ++ (e ∷ [])) ≡ true
unfolding resends
resends-snoc s [] e h = ground arith
resends-snoc s (x ∷ es) e h = ground (arith, resends-snoc s es e)

pub find_entry-seq :
    (seq : ℕ) (h : List CachedSample) (e : CachedSample) → find_entry seq h ≡ some e → e.seq ≡ seq
unfolding find_entry
find_entry-seq seq [] e p = cc
find_entry-seq seq (x ∷ h) e p = ground (arith, find_entry-seq seq h e)

-- In an unbroken history that ends at `last`, a number up to `last` is found unless it is evicted.
found_or_evicted :
    (seq last : ℕ) (h : List CachedSample)
    → EndsAt last h
    → find_entry seq h ≡ none
    → seq ≤ last
    → first_avail h ≤ seq
    → h ≡ []
unfolding find_entry first_avail
found_or_evicted seq last [] v p le q = refl
found_or_evicted seq last (e ∷ []) v p le q = absurd (ground arith)
found_or_evicted seq last (e ∷ x ∷ h) v p le q =
    let rest = found_or_evicted seq last (x ∷ h) v.1 in ground (arith, rest)

-- The number is answered.
abbrev pub Answered : Reply → ℕ → Type 0
Answered r s = (resends s r.resend ≡ true) ⊎ (s ≤ r.unavail_end)

-- What the proofs share: an unbroken history that ends at `last`, and 64 numbers that do not wrap.
module _ (q : Request) (last : ℕ) (v : EndsAt last q.history) (fits : IsU64 (q.base_seq + 63)) where
  number : (i : ℕ) → i < 64 → u64 (q.base_seq + i) ≡ q.base_seq + i
  number i h = omega arith

  below_base : (n : ℕ) → n ≤ 64 → (answer_places q n).unavail_end ≤ q.base_seq + n
  unfolding answer_places answer_place
  below_base zero h = omega arith
  below_base (suc n) h = elim (Bool-cases (has_bit q.bitmap n)) [
    | inl e ↦ rw e (omega (arith, below_base n (omega arith)))
    | inr e ↦
        rw e (by_entry (find_entry (u64 (q.base_seq + n)) q.history) (below_base n (omega arith)))
  ]
    where
      by_entry :
          (o : Option CachedSample)
          → (answer_places q n).unavail_end ≤ q.base_seq + n
          → (answer_found q (u64 (q.base_seq + n)) o (answer_places q n)).unavail_end
            ≤ q.base_seq + suc n
      by_entry none k = unfold answer_found in ground (arith, number n (omega arith))
      by_entry (some e) k = unfold answer_found in ground (arith, number n (omega arith))

  -- A round keeps what is answered.
  found_keeps :
      (o : Option CachedSample) (seq s : ℕ) (r : Reply)
      → r.unavail_end ≤ seq
      → Answered r s
      → Answered (answer_found q seq o r) s
  unfolding answer_found
  found_keeps none seq s r h a = ground arith
  found_keeps (some e) seq s r h (inl a) = ground (arith, resends-snoc s r.resend e (inl a))
  found_keeps (some e) seq s r h (inr a) = ground arith

  -- A round answers its own number.
  found_answers :
      (seq : ℕ) (r : Reply)
      → q.history ≢ []
      → seq ≤ last
      → Answered (answer_found q seq (find_entry seq q.history) r) seq
  unfolding answer_found
  found_answers seq r ne le = elim (Option-cases (find_entry seq q.history)) [
    | inl e ↦
        let gone : seq < first_avail q.history = early e in rw e (unfold evicted in ground arith)
    | inr (x, e) ↦ rw e (
        ground (
          arith,
          find_entry-seq seq q.history x e,
          resends-snoc seq r.resend x (inr (find_entry-seq seq q.history x e)),
        ))
  ]
    where
      early : find_entry seq q.history ≡ none → seq < first_avail q.history
      early e = elim (Bool-cases (ltb seq (first_avail q.history))) [
        | inl t ↦ ltb→lt seq _ t
        | inr t ↦ absurd (ne (found_or_evicted seq last q.history v e le (ground arith)))
      ]

  Answered-places :
      (n i : ℕ)
      → q.history ≢ []
      → n ≤ 64
      → i < n
      → has_bit q.bitmap i ≡ false
      → q.base_seq + i ≤ last
      → Answered (answer_places q n) (q.base_seq + i)
  unfolding answer_places answer_place
  Answered-places zero i ne h lt miss le = absurd (omega arith)
  Answered-places (suc n) i ne h lt miss le = elim (Bool-cases (i == n)) [
    | inl same ↦
        let at : i ≡ n = ==→eq i n same in
        let miss' : has_bit q.bitmap n ≡ false = rw (← at) miss in
        rw (miss', number n (omega arith), at)
          (found_answers (q.base_seq + n) (answer_places q n) ne (omega arith))
    | inr other ↦
        let before : i < n = ground arith in
        elim (Bool-cases (has_bit q.bitmap n)) [
          | inl e ↦ rw e (Answered-places n i ne (omega arith) before miss le)
          | inr e ↦
              rw (e, number n (omega arith))
                (found_keeps (find_entry (q.base_seq + n) q.history) (q.base_seq + n)
                  (q.base_seq + i) (answer_places q n) (below_base n (omega arith))
                  (Answered-places n i ne (omega arith) before miss le))
        ]
  ]

  -- Each requested number up to the last one published is answered: its sample is sent again, or it
  -- lies within the GAP. The history is unbroken and not empty, and the 64 numbers do not wrap.
  pub answer_complete :
      (i : ℕ)
      → q.history ≢ []
      → i < 64
      → has_bit q.bitmap i ≡ false
      → q.base_seq + i ≤ last
      → (resends (q.base_seq + i) (answer q).resend ≡ true)
        ⊎ (q.base_seq + i ≤ (answer q).unavail_end)
  unfolding answer
  answer_complete i ne h miss le = Answered-places 64 i ne (omega arith) h miss le
