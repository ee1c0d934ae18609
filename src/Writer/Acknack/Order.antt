-- ===== src/Writer/Acknack/Order.antt =====
-- The GAP of an answer covers no sample that is sent again, and only samples that the reader is
-- entitled to are sent.
use mdds.Base.{
  ℕ, zero, suc, ◌+◌, ◌≤◌, ◌<◌, ◌≡◌, refl, sym, subst, true, false, Option, none, some, List, [],
  ◌∷◌, All, All-append, All-weaken, ◌==◌, inl, inr, Bool-cases, arith,
}
use mathlib.Core.Option.{some-injective}
use mdds.Wire.{u64, IsU64}
use mdds.Tracker.{has_bit}
use mdds.Writer.{CachedSample}
use mdds.Writer.History.{EndsAt}
use mdds.Writer.Acknack.{
  Reply, Request, find_entry, first_avail, pre_join, evicted, answer_found, answer_place,
  answer_places, answer,
}
use mdds.Writer.Acknack.Answer.{find_entry-seq}

-- Later entries were published no earlier.
abbrev pub Monotone : List CachedSample → Type 0
Monotone [] = Unit {0}
Monotone (e ∷ es) = All (λ x. e.pub_time_us ≤ x.pub_time_us) es × Monotone es

find_entry-All :
    (P : CachedSample → Type 0) (s : ℕ) (h : List CachedSample) (e : CachedSample)
    → All P h
    → find_entry s h ≡ some e
    → P e
unfolding find_entry
find_entry-All P s [] e a p = absurd (cc)
find_entry-All P s (x ∷ h) e a p = elim (Bool-cases (x.seq == s)) [
  | inl t ↦ subst P (some-injective x e (rw t at p)) a.0
  | inr t ↦ find_entry-All P s h e a.1 (rw t at p)
]

first-le :
    (s last : ℕ) (h : List CachedSample) (e : CachedSample)
    → EndsAt last h
    → find_entry s h ≡ some e
    → first_avail h ≤ s
unfolding find_entry first_avail
first-le s last [] e v p = cc
first-le s last (x ∷ []) e v p = ground arith
first-le s last (x ∷ y ∷ h) e v p = let rest = first-le s last (y ∷ h) e v.1 in ground (arith, rest)

head-lt :
    (s last : ℕ) (x : CachedSample) (h : List CachedSample) (a : CachedSample)
    → EndsAt last (x ∷ h)
    → find_entry s h ≡ some a
    → x.seq < s
head-lt s last x [] a v p = unfold find_entry in cc
head-lt s last x (y ∷ h) a v p =
    unfold first_avail in omega (arith, first-le s last (y ∷ h) a v.1 p)

find_entry_mono :
    (s t last : ℕ) (h : List CachedSample) (a b : CachedSample)
    → EndsAt last h
    → Monotone h
    → find_entry s h ≡ some a
    → find_entry t h ≡ some b
    → s ≤ t
    → a.pub_time_us ≤ b.pub_time_us
unfolding find_entry
find_entry_mono s t last [] a b v m p q le = cc
find_entry_mono s t last (x ∷ h) a b v m p q le = elim (Bool-cases (x.seq == s)) [
  | inl i ↦ elim (Bool-cases (x.seq == t)) [
    | inl j ↦ ground arith
    | inr j ↦
        let later : x.pub_time_us ≤ b.pub_time_us =
          find_entry-All (λ y. x.pub_time_us ≤ y.pub_time_us) t h b m.0 (rw j at q) in
        ground arith
  ]
  | inr i ↦
      let p' : find_entry s h ≡ some a = rw i at p in
      elim (Bool-cases (x.seq == t)) [
        | inl j ↦ absurd (ground (arith, head-lt s last x h a v p'))
        | inr j ↦ find_entry_mono s t last h a b v.1 m.1 p' (rw j at q) le
      ]
]

-- What is known of a sample that is sent again, after the first `n` rounds.
record Entitled (q : Request) (n unavail : ℕ) (e : CachedSample) : Type 0 where
  above : unavail < e.seq
  cached : find_entry e.seq q.history ≡ some e
  joined : pre_join q e ≡ false
  before : e.seq < q.base_seq + n

module _ (q : Request) (last : ℕ) (v : EndsAt last q.history) (m : Monotone q.history)
    (fits : IsU64 (q.base_seq + 63)) (pos : 0 < q.base_seq) where
  abbrev AllEntitled : ℕ → Reply → Type 0
  AllEntitled n r = All (Entitled q n r.unavail_end) r.resend × (r.unavail_end < q.base_seq + n)

  -- A number that will never be sent lies below those that were: it is older.
  evicted-below :
      (n : ℕ) (e : CachedSample) (u : ℕ) → evicted q (q.base_seq + n) ≡ true → Entitled q n u e → ⊥
  unfolding evicted
  evicted-below n e u h t = ground (arith, first-le e.seq last q.history e v t.cached)

  pre_join-below :
      (n : ℕ) (x e : CachedSample) (u : ℕ)
      → find_entry (q.base_seq + n) q.history ≡ some x
      → pre_join q x ≡ true
      → Entitled q n u e
      → ⊥
  unfolding pre_join
  pre_join-below n x e u f h t =
      let b = t.before in
      let j = t.joined in
      ground (
        arith,
        find_entry_mono e.seq (q.base_seq + n) last q.history e x v m t.cached f (omega arith),
      )

  place_keeps :
      (n : ℕ) (r : Reply) → n < 64 → AllEntitled n r → AllEntitled (suc n) (answer_place q n r)
  unfolding answer_place answer_found
  place_keeps n r h a = elim (Bool-cases (has_bit q.bitmap n)) [
    | inl e ↦ rw e (same, omega (arith, a.1))
    | inr e ↦ rw (e, number) (by_entry (find_entry (q.base_seq + n) q.history) refl)
  ]
    where
      number : u64 (q.base_seq + n) ≡ q.base_seq + n
      number = omega arith

      wider : (e : CachedSample) → Entitled q n r.unavail_end e → Entitled q (suc n) r.unavail_end e
      wider e t = record {
        above = t.above;
        cached = t.cached;
        joined = t.joined;
        before = omega (arith, t.before);
      }

      same : All (Entitled q (suc n) r.unavail_end) r.resend
      same =
          All-weaken (Entitled q n r.unavail_end) (Entitled q (suc n) r.unavail_end) r.resend wider
            a.0

      vacuous :
          (u : ℕ)
          → ((e : CachedSample) → Entitled q n r.unavail_end e → ⊥)
          → All (Entitled q (suc n) u) r.resend
      vacuous u no_such =
          All-weaken (Entitled q n r.unavail_end) (Entitled q (suc n) u) r.resend
            (λ e t. absurd (no_such e t)) a.0

      by_entry :
          (o : Option CachedSample)
          → find_entry (q.base_seq + n) q.history ≡ o
          → All
              (Entitled q (suc n) (answer_found q (q.base_seq + n) o r).unavail_end)
              (answer_found q (q.base_seq + n) o r).resend
            × ((answer_found q (q.base_seq + n) o r).unavail_end < q.base_seq + suc n)
      by_entry none f = elim (Bool-cases (evicted q (q.base_seq + n))) [
        | inl g ↦
            rw g
              (vacuous (q.base_seq + n) (λ e t. evicted-below n e r.unavail_end g t), omega arith)
        | inr g ↦ rw g (same, omega (arith, a.1))
      ]
      by_entry (some x) f = elim (Bool-cases (pre_join q x)) [
        | inl g ↦ rw g (
          vacuous (q.base_seq + n) (λ e t. pre_join-below n x e r.unavail_end f g t),
          omega arith,
        )
        | inr g ↦
            let at : x.seq ≡ q.base_seq + n = find_entry-seq (q.base_seq + n) q.history x f in
            let new : Entitled q (suc n) r.unavail_end x = record {
              above = omega (arith, a.1);
              cached = subst (λ (s : ℕ). find_entry s q.history ≡ some x) (sym at) f;
              joined = g;
              before = omega arith;
            } in
            rw g (
              All-append (Entitled q (suc n) r.unavail_end) r.resend (x ∷ []) same (new, tt),
              omega (arith, a.1),
            )
      ]

  places_keep : (n : ℕ) → n ≤ 64 → AllEntitled n (answer_places q n)
  unfolding answer_places
  places_keep zero h = (tt, omega arith)
  places_keep (suc n) h = place_keeps n (answer_places q n) h (places_keep n (omega arith))

  -- Every sample that is sent again lies above the GAP, stands in the history, and was not published
  -- before a volatile reader's birth. The history is unbroken, in the order of publication, and the
  -- requested numbers begin at 1 or later and do not wrap.
  pub answer_entitled :
      All
        (λ e.
          ((answer q).unavail_end < e.seq)
          × (find_entry e.seq q.history ≡ some e)
          × (pre_join q e ≡ false))
        (answer q).resend
  unfolding answer
  answer_entitled =
      All-weaken (Entitled q 64 (answer_places q 64).unavail_end) _ (answer_places q 64).resend
        (λ e t. (t.above, t.cached, t.joined)) (places_keep 64 (omega arith)).0
