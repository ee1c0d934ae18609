-- ===== src/Base/Bits.antt =====
-- The bits of a machine word, and what `&`, `|` and the shifts do to them. The native operations
-- have no laws at variables but their definition by binary digits, so the laws are proved here.
use Prim.Native.Nat.{
  ℕ, zero, suc, ◌+◌, ◌-◌, ◌*◌, ◌/◌, ◌%◌, ◌^◌, ◌≤◌, ◌<◌, min, max, digits, bitwise, bit_and, bit_or,
  bit_and-bitwise, bit_or-bitwise,
}
use mathlib.Core.Path.{◌≡◌, refl, sym, ap, ap₂, ◌∙◌}
use mathlib.Core.Logic.{◌≢◌}
use native.Mathlib.Nat.{pow-suc, one-le-pow, div-add-mod', mod-lt, div-div-eq-div-mul}
use native.Mathlib.Omega.{arith}

-- The fuel of the digit recursion does not matter once it is enough.
digits_enough :
    (z : ℕ → ℕ) (f : ℕ → ℕ → ℕ) (m n a b : ℕ) → a ≤ m → a ≤ n → digits z f m a b ≡ digits z f n a b
digits_enough z f zero zero a b p q = refl
digits_enough z f (suc m) zero zero b p q = refl
digits_enough z f zero (suc n) zero b p q = refl
digits_enough z f (suc m) (suc n) zero b p q = refl
digits_enough z f zero n (suc a) b p q = absurd (omega arith)
digits_enough z f (suc m) zero (suc a) b p q = absurd (omega arith)
digits_enough z f (suc m) (suc n) (suc a) b p q =
    rw (digits_enough z f m n (suc a / 2) (b / 2) (omega arith) (omega arith))

one_digit :
    (z : ℕ → ℕ) (f : ℕ → ℕ → ℕ) (a b : ℕ)
    → bitwise z f (suc a) b ≡ bitwise z f (suc a / 2) (b / 2) * 2 + f (suc a % 2) (b % 2)
one_digit z f a b =
    omega (arith, digits_enough z f a (suc a / 2) (suc a / 2) (b / 2) (omega arith) (omega arith))

pub bit_and_half : (a b : ℕ) → bit_and a b ≡ bit_and (a / 2) (b / 2) * 2 + min (a % 2) (b % 2)
bit_and_half zero b = simp bit_and-bitwise (omega arith)
bit_and_half (suc a) b = simp bit_and-bitwise (one_digit _ min a b)

pub bit_or_half : (a b : ℕ) → bit_or a b ≡ bit_or (a / 2) (b / 2) * 2 + max (a % 2) (b % 2)
bit_or_half zero b = simp bit_or-bitwise (omega arith)
bit_or_half (suc a) b = simp bit_or-bitwise (one_digit _ max a b)

-- The bit of `w` at place `i`, 0 or 1.
abbrev pub bit : ℕ → ℕ → ℕ
bit w zero = w % 2
bit w (suc i) = bit (w / 2) i

pub bit-le-one : (w i : ℕ) → bit w i ≤ 1
bit-le-one w zero = omega arith
bit-le-one w (suc i) = bit-le-one (w / 2) i

pub bit-zero : (i : ℕ) → bit 0 i ≡ 0
bit-zero zero = refl
bit-zero (suc i) = bit-zero i

pub bit-bit_or : (a b i : ℕ) → bit (bit_or a b) i ≡ max (bit a i) (bit b i)
bit-bit_or a b zero = omega (arith, bit_or_half a b)
bit-bit_or a b (suc i) = ap (λ (t : ℕ). bit t i) (half-of a b) ∙ bit-bit_or (a / 2) (b / 2) i
  where
    half-of : (a b : ℕ) → bit_or a b / 2 ≡ bit_or (a / 2) (b / 2)
    half-of a b = omega (arith, bit_or_half a b)

double : (i : ℕ) → 2 ^ suc i ≡ 2 * 2 ^ i
double i = omega (arith, pow-suc 2 i)

half_pow : (i : ℕ) → 2 ^ suc i / 2 ≡ 2 ^ i
half_pow i = omega (arith, double i)

pub bit-pow_self : (i : ℕ) → bit (2 ^ i) i ≡ 1
bit-pow_self zero = refl
bit-pow_self (suc i) = ap (λ (t : ℕ). bit t i) (half_pow i) ∙ bit-pow_self i

pub bit-pow_ne : (i j : ℕ) → i ≢ j → bit (2 ^ i) j ≡ 0
bit-pow_ne zero zero h = absurd (h refl)
bit-pow_ne zero (suc j) h = bit-zero j
bit-pow_ne (suc i) zero h = omega (arith, double i)
bit-pow_ne (suc i) (suc j) h =
    ap (λ (t : ℕ). bit t j) (half_pow i) ∙ bit-pow_ne i j (λ e. h (ap suc e))

pub bit_and-zero : (a n : ℕ) → a ≤ n → bit_and a 0 ≡ 0
bit_and-zero zero n h = refl
bit_and-zero (suc a) zero h = absurd (omega arith)
bit_and-zero (suc a) (suc n) h =
    omega (arith, bit_and_half (suc a) 0, bit_and-zero (suc a / 2) n (omega arith))

-- Masking with one bit.
pub bit_and-pow : (w i : ℕ) → bit_and w (2 ^ i) ≡ bit w i * 2 ^ i
bit_and-pow w zero = omega (arith, bit_and_half w 1, bit_and-zero (w / 2) (w / 2) (omega arith))
bit_and-pow w (suc i) = omega (
  arith,
  bit_and_half w (2 ^ suc i),
  double i,
  ap (λ (t : ℕ). bit_and (w / 2) t) (half_pow i),
  bit_and-pow (w / 2) i,
  ap (λ (t : ℕ). bit (w / 2) i * t) (double i),
)

pub bit-beyond : (w k i : ℕ) → w < 2 ^ k → k ≤ i → bit w i ≡ 0
bit-beyond w zero i h p = ap (λ (t : ℕ). bit t i) (omega arith) ∙ bit-zero i
bit-beyond w (suc k) zero h p = absurd (omega arith)
bit-beyond w (suc k) (suc i) h p = bit-beyond (w / 2) k i (omega (arith, double k)) (omega arith)

pub bit_or-lt : (a b k : ℕ) → a < 2 ^ k → b < 2 ^ k → bit_or a b < 2 ^ k
bit_or-lt a b zero p q =
    omega
      (arith, ap (λ (t : ℕ). bit_or t b) (zero-of a p), ap (λ (t : ℕ). bit_or 0 t) (zero-of b q))
  where
    zero-of : (x : ℕ) → x < 1 → x ≡ 0
    zero-of x h = omega arith
bit_or-lt a b (suc k) p q = omega (
  arith,
  double k,
  bit_or_half a b,
  bit_or-lt (a / 2) (b / 2) k (omega (arith, double k)) (omega (arith, double k)),
)

-- A word cut at bit `k` into a high and a low field.
abbrev pub fields : ℕ → ℕ → ℕ → ℕ
fields k q r = q * 2 ^ k + r

fields-suc : (k q r : ℕ) → fields (suc k) q r ≡ 2 * fields k q (r / 2) + r % 2
fields-suc k q r = omega (arith, ap (λ (t : ℕ). q * t) (double k))

bit_and-fields : (k q r : ℕ) → r < 2 ^ k → bit_and (fields k q r) (2 ^ k - 1) ≡ r
bit_and-fields zero q r h = omega (arith, bit_and-zero (fields 0 q r) (fields 0 q r) (omega arith))
bit_and-fields (suc k) q r h = omega (
  arith,
  bit_and_half (fields (suc k) q r) (2 ^ suc k - 1),
  fields-suc k q r,
  double k,
  one-le-pow k 2 (omega arith),
  ap₂ bit_and (half-of (fields (suc k) q r) (fields k q (r / 2)) r (fields-suc k q r))
      (mask_half k),
  bit_and-fields k q (r / 2) (omega (arith, double k)),
)
  where
    half-of : (w v b : ℕ) → w ≡ 2 * v + b % 2 → w / 2 ≡ v
    half-of w v b e = omega arith

    mask_half : (j : ℕ) → (2 ^ suc j - 1) / 2 ≡ 2 ^ j - 1
    mask_half j = omega (arith, double j)

-- Masking with the `k` low bits is the remainder by `2 ^ k`.
pub bit_and_low : (k a : ℕ) → bit_and a (2 ^ k - 1) ≡ a % 2 ^ k
bit_and_low k a =
    ap (λ (t : ℕ). bit_and t (2 ^ k - 1)) (sym (div-add-mod' a (2 ^ k)))
    ∙ bit_and-fields k (a / 2 ^ k) (a % 2 ^ k) (mod-lt a (one-le-pow k 2 (omega arith)))

bit_or-zero : (a n : ℕ) → a ≤ n → bit_or a 0 ≡ a
bit_or-zero zero n h = refl
bit_or-zero (suc a) zero h = absurd (omega arith)
bit_or-zero (suc a) (suc n) h =
    omega (arith, bit_or_half (suc a) 0, bit_or-zero (suc a / 2) n (omega arith))

-- Joining a shifted word with one that fits below the shift is their sum.
pub bit_or_fields : (k q r : ℕ) → r < 2 ^ k → bit_or (q * 2 ^ k) r ≡ q * 2 ^ k + r
bit_or_fields zero q r h = omega (
  arith,
  ap (λ (t : ℕ). bit_or (q * 1) t) (zero-of r h),
  bit_or-zero (q * 1) (q * 1) (omega arith),
)
  where
    zero-of : (x : ℕ) → x < 1 → x ≡ 0
    zero-of x h = omega arith
bit_or_fields (suc k) q r h = omega (
  arith,
  bit_or_half (q * 2 ^ suc k) r,
  ap (λ (t : ℕ). q * t) (double k),
  ap (λ (t : ℕ). bit_or t (r / 2)) (half-of (q * 2 ^ suc k) (q * 2 ^ k) (fields-suc k q 0)),
  bit_or_fields k q (r / 2) (omega (arith, double k)),
)
  where
    half-of : (w v : ℕ) → w + 0 ≡ 2 * (v + 0 / 2) + 0 % 2 → w / 2 ≡ v
    half-of w v e = omega arith

-- Shifting right by `k` moves bit `k + i` to place `i`.
pub bit-shift : (w k i : ℕ) → bit (w / 2 ^ k) i ≡ bit w (k + i)
bit-shift w zero i = ap₂ bit {x = w / 2 ^ 0} {y = w} {u = i} {v = 0 + i} (omega arith) (omega arith)
bit-shift w (suc k) i =
    ap (λ (t : ℕ). bit t i)
      (ap (λ (t : ℕ). w / t) (double k) ∙ sym (div-div-eq-div-mul w 2 (2 ^ k)))
    ∙ bit-shift (w / 2) k i
    ∙ ap (bit w) {x = suc (k + i)} {y = suc k + i} (omega arith)

-- A word below `2 ^ k` with no bit set below `k` is zero.
pub zero_of_bits : (k w : ℕ) → w < 2 ^ k → ((i : ℕ) → i < k → bit w i ≡ 0) → w ≡ 0
zero_of_bits zero w h z = omega arith
zero_of_bits (suc k) w h z = omega (
  arith,
  z 0 (omega arith),
  zero_of_bits k (w / 2) (omega (arith, double k)) (λ i p. z (suc i) (omega arith)),
)
