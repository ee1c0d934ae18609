-- ===== src/Lifespan.antt =====
-- lifespan_expired of src/participant.cpp, and the queue trims that the writer and the reader share.
use mdds.Base.{
  ℕ, suc, ◌+◌, ◌≤◌, ◌<◌, ◌≡◌, Bool, ◌&&◌, List, [], ◌∷◌, length, drop, drop-nil, sym, ltb, leb,
  if◌then◌else◌, arith, inl, inr, Bool-cases, ◌-◌, ltb→lt,
}
use mdds.Wire.{u64}

-- The sum is a uint64_t.
unfoldable pub lifespan_expired : ℕ → ℕ → ℕ → Bool
lifespan_expired lifespan_ms pub_time_ms now_ms =
    ltb 0 lifespan_ms && (ltb 0 pub_time_ms && leb (u64 (pub_time_ms + lifespan_ms)) now_ms)

module _ {ℓ} {A : Type ℓ} where
  -- `while (queue.size() > cap) {queue.pop_front();}`
  unfoldable pub trim_front : ℕ → List A → List A
  trim_front cap [] = []
  trim_front cap (x ∷ xs) = if ltb cap (length (x ∷ xs)) then trim_front cap xs else x ∷ xs

  pub length-trim_front : (cap : ℕ) (xs : List A) → length (trim_front cap xs) ≤ cap
  unfolding trim_front
  length-trim_front cap [] = omega arith
  length-trim_front cap (x ∷ xs) = ground (arith, length-trim_front cap xs)

  -- The trim keeps the newest entries.
  pub trim_front_lem : (cap : ℕ) (xs : List A) → trim_front cap xs ≡ drop (length xs - cap) xs
  unfolding trim_front
  trim_front_lem cap [] = sym (drop-nil (0 - cap))
  trim_front_lem cap (x ∷ xs) = elim (Bool-cases (ltb cap (length (x ∷ xs)))) [
    | inl e ↦ rw (e, over (ltb→lt _ _ e)) (trim_front_lem cap xs)
    | inr e ↦ rw (e, under (ground arith))
  ]
    where
      over : cap < suc (length xs) → suc (length xs) - cap ≡ suc (length xs - cap)
      over h = omega arith

      under : suc (length xs) ≤ cap → suc (length xs) - cap ≡ 0
      under h = omega arith
