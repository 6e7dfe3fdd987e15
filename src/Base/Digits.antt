-- ===== src/Base/Digits.antt =====
-- Binary digits: `test_bit`, and the native bit operations digit by digit.
use Prim.Native.Nat.{
  ℕ, zero, suc, ◌+◌, ◌-◌, ◌*◌, ◌/◌, ◌%◌, ◌^◌, ◌≤◌, ◌<◌, min, max, bit_and, bit_or, bit_xor, differ,
  digits, bitwise, bit_and-bitwise, bit_or-bitwise, bit_xor-bitwise,
}
use mathlib.Core.Path.{◌≡◌, refl, ◌∙◌}
use mathlib.Core.Bool.{Bool, false, ◌&&◌, ◌||◌, not}
use native.Mathlib.Nat.{le_refl, pow-suc, one-le-pow}
use native.Mathlib.Omega.{arith}
use truth.Base.Tests.{◌==◌, ltb}

-- `k` more than `n`, in a form on which a recursion on fuel computes.
raise : ℕ → ℕ → ℕ
raise zero n = n
raise (suc k) n = suc (raise k n)

raise-eq-add : (k n : ℕ) → raise k n ≡ n + k
unfolding raise
raise-eq-add zero n = omega arith
raise-eq-add (suc k) n = omega (arith, raise-eq-add k n)

-- The native bit operations are recursions on digits with fuel; `rest` and `pair` say which.
module _ (rest : ℕ → ℕ) (pair : ℕ → ℕ → ℕ) where
  spare_step :
      (fuel x y : ℕ) → x ≤ fuel → digits rest pair (suc fuel) x y ≡ digits rest pair fuel x y
  spare_step zero zero y h = refl
  spare_step zero (suc x) y h = absurd (omega arith)
  spare_step (suc fuel) zero y h = refl
  spare_step (suc fuel) (suc x) y h = rw (spare_step fuel (suc x / 2) (y / 2) (omega arith))

  spare_steps :
      (k fuel x y : ℕ) → x ≤ fuel → digits rest pair (raise k fuel) x y ≡ digits rest pair fuel x y
  unfolding raise
  spare_steps zero fuel x y h = refl
  spare_steps (suc k) fuel x y h =
      spare_step (raise k fuel) x y (omega (arith, raise-eq-add k fuel)) ∙ spare_steps k fuel x y h

  -- The lowest digits are paired, and the others are as of the halves.
  low_digit :
      (x y : ℕ)
      → bitwise rest pair (suc x) y
        ≡ bitwise rest pair (suc x / 2) (y / 2) * 2 + pair (suc x % 2) (y % 2)
  low_digit x y =
      let half = suc x / 2 in
      let k = x - half in
      let fuel : raise k half ≡ x = omega (arith, raise-eq-add k half) in
      let same = rw fuel at (spare_steps k half half (y / 2) (le_refl half)) in omega (arith, same)

zero-bit_and : (y : ℕ) → bit_and 0 y ≡ 0
zero-bit_and y = bit_and-bitwise 0 y

zero-bit_or : (y : ℕ) → bit_or 0 y ≡ y
zero-bit_or y = bit_or-bitwise 0 y

pub bit_and_step : (x y : ℕ) → bit_and x y ≡ bit_and (x / 2) (y / 2) * 2 + min (x % 2) (y % 2)
bit_and_step zero y = omega (arith, zero-bit_and y, zero-bit_and (y / 2))
bit_and_step (suc x) y = simp bit_and-bitwise (low_digit (λ _. 0) min x y)

pub bit_or_step : (x y : ℕ) → bit_or x y ≡ bit_or (x / 2) (y / 2) * 2 + max (x % 2) (y % 2)
bit_or_step zero y = omega (arith, zero-bit_or y, zero-bit_or (y / 2))
bit_or_step (suc x) y = simp bit_or-bitwise (low_digit (λ y'. y') max x y)

bit_and-zero_below : (bound x : ℕ) → x < bound → bit_and x 0 ≡ 0
bit_and-zero_below zero x h = elim h [ ]
bit_and-zero_below (suc bound) zero h = zero-bit_and 0
bit_and-zero_below (suc bound) (suc x) h =
    omega (arith, bit_and_step (suc x) 0, bit_and-zero_below bound (suc x / 2) (omega arith))

pub bit_and-zero : (x : ℕ) → bit_and x 0 ≡ 0
bit_and-zero x = bit_and-zero_below (suc x) x (omega arith)

-- Digit `i` of a number.
unfoldable pub test_bit : ℕ → ℕ → Bool
test_bit a zero = a % 2 == 1
test_bit a (suc i) = test_bit (a / 2) i

pub test_bit-and : (a b i : ℕ) → test_bit (bit_and a b) i ≡ (test_bit a i && test_bit b i)
unfolding test_bit
test_bit-and a b zero = ground (arith, bit_and_step a b)
test_bit-and a b (suc i) =
    let e : bit_and a b / 2 ≡ bit_and (a / 2) (b / 2) = omega (arith, bit_and_step a b) in
    rw e (test_bit-and (a / 2) (b / 2) i)

pub test_bit-or : (a b i : ℕ) → test_bit (bit_or a b) i ≡ (test_bit a i || test_bit b i)
unfolding test_bit
test_bit-or a b zero = ground (arith, bit_or_step a b)
test_bit-or a b (suc i) =
    let e : bit_or a b / 2 ≡ bit_or (a / 2) (b / 2) = omega (arith, bit_or_step a b) in
    rw e (test_bit-or (a / 2) (b / 2) i)

pub test_bit-zero : (i : ℕ) → test_bit 0 i ≡ false
unfolding test_bit
test_bit-zero zero = refl
test_bit-zero (suc i) = test_bit-zero i

pub test_bit-two_pow : (n i : ℕ) → test_bit (2 ^ n) i ≡ (n == i)
unfolding test_bit
test_bit-two_pow zero zero = refl
test_bit-two_pow zero (suc i) = test_bit-zero i ∙ (ground arith)
test_bit-two_pow (suc n) zero = ground (arith, pow-suc 2 n)
test_bit-two_pow (suc n) (suc i) =
    let e : 2 ^ suc n / 2 ≡ 2 ^ n = omega (arith, pow-suc 2 n) in
    rw e (test_bit-two_pow n i ∙ (ground arith))

-- Two numbers below `2 ^ n` with the same first `n` digits are equal.
pub test_bit_ext :
    (n a b : ℕ) → a < 2 ^ n → b < 2 ^ n → ((i : ℕ) → i < n → test_bit a i ≡ test_bit b i) → a ≡ b
unfolding test_bit
test_bit_ext zero a b p q h = omega arith
test_bit_ext (suc n) a b p q h =
    let low = h 0 (omega arith) in
    let e : 2 ^ suc n ≡ 2 ^ n * 2 = pow-suc 2 n in
    let high : a / 2 ≡ b / 2 =
      test_bit_ext n (a / 2) (b / 2) (omega arith) (omega arith) (λ i k. h (suc i) (omega arith)) in
    ground arith

-- The complement within `n` digits.
pub test_bit-sub : (n a i : ℕ) → a < 2 ^ n → i < n → test_bit (2 ^ n - 1 - a) i ≡ not (test_bit a i)
unfolding test_bit
test_bit-sub zero a i p q = absurd (omega arith)
test_bit-sub (suc n) a zero p q = ground (arith, pow-suc 2 n)
test_bit-sub (suc n) a (suc i) p q =
    let e : 2 ^ suc n ≡ 2 ^ n * 2 = pow-suc 2 n in
    let half : (2 ^ suc n - 1 - a) / 2 ≡ 2 ^ n - 1 - a / 2 = omega arith in
    rw half (test_bit-sub n (a / 2) i (omega arith) (omega arith))

pub test_bit_mask : (n i : ℕ) → test_bit (2 ^ n - 1) i ≡ ltb i n
unfolding test_bit
test_bit_mask zero i = test_bit-zero i ∙ (ground arith)
test_bit_mask (suc n) zero = ground (arith, pow-suc 2 n, one-le-pow n 2)
test_bit_mask (suc n) (suc i) =
    let half : (2 ^ suc n - 1) / 2 ≡ 2 ^ n - 1 = omega (arith, pow-suc 2 n, one-le-pow n 2) in
    rw half (test_bit_mask n i ∙ (ground arith))

pub test_bit_large : (n a i : ℕ) → a < 2 ^ n → n ≤ i → test_bit a i ≡ false
unfolding test_bit
test_bit_large zero a i p q = let e : a ≡ 0 = omega arith in rw e (test_bit-zero i)
test_bit_large (suc n) a zero p q = absurd (omega arith)
test_bit_large (suc n) a (suc i) p q =
    test_bit_large n (a / 2) i (omega (arith, pow-suc 2 n)) (omega arith)

pub bit_and-lt : (n a b : ℕ) → a < 2 ^ n → bit_and a b < 2 ^ n
bit_and-lt zero a b p = let e : a ≡ 0 = omega arith in rw (e, zero-bit_and) (omega arith)
bit_and-lt (suc n) a b p = omega (
  arith,
  pow-suc 2 n,
  bit_and_step a b,
  bit_and-lt n (a / 2) (b / 2) (omega (arith, pow-suc 2 n)),
)

pub bit_or-lt : (n a b : ℕ) → a < 2 ^ n → b < 2 ^ n → bit_or a b < 2 ^ n
bit_or-lt zero a b p q = let e : a ≡ 0 = omega arith in rw (e, zero-bit_or) q
bit_or-lt (suc n) a b p q = omega (
  arith,
  pow-suc 2 n,
  bit_or_step a b,
  bit_or-lt n (a / 2) (b / 2) (omega (arith, pow-suc 2 n)) (omega (arith, pow-suc 2 n)),
)

-- Masking by a power of two leaves that digit alone.
pub bit_and-two_pow : (a n : ℕ) → (bit_and a (2 ^ n) == 0) ≡ not (test_bit a n)
unfolding test_bit
bit_and-two_pow a zero = ground (arith, bit_and_step a 1, bit_and-zero (a / 2))
bit_and-two_pow a (suc n) =
    let e : 2 ^ suc n / 2 ≡ 2 ^ n = omega (arith, pow-suc 2 n) in
    let step : bit_and a (2 ^ suc n) ≡ bit_and (a / 2) (2 ^ n) * 2 =
      rw (← e) (omega (arith, pow-suc 2 n, bit_and_step a (2 ^ suc n))) in
    ground (arith, step, bit_and-two_pow (a / 2) n)

pub bit_and-lt_right : (n a b : ℕ) → b < 2 ^ n → bit_and a b < 2 ^ n
bit_and-lt_right zero a b p = let e : b ≡ 0 = omega arith in rw (e, bit_and-zero) (omega arith)
bit_and-lt_right (suc n) a b p = omega (
  arith,
  pow-suc 2 n,
  bit_and_step a b,
  bit_and-lt_right n (a / 2) (b / 2) (omega (arith, pow-suc 2 n)),
)

zero-bit_xor : (y : ℕ) → bit_xor 0 y ≡ y
zero-bit_xor y = bit_xor-bitwise 0 y

pub bit_xor_step : (x y : ℕ) → bit_xor x y ≡ bit_xor (x / 2) (y / 2) * 2 + differ (x % 2) (y % 2)
bit_xor_step zero y = omega (arith, zero-bit_xor y, zero-bit_xor (y / 2))
bit_xor_step (suc x) y = simp bit_xor-bitwise (low_digit (λ y'. y') differ x y)

differ-le : (x y : ℕ) → differ x y ≤ max x y
differ-le zero y = omega arith
differ-le (suc x) zero = omega arith
differ-le (suc x) (suc y) = omega (arith, differ-le x y)

pub bit_xor-lt : (n a b : ℕ) → a < 2 ^ n → b < 2 ^ n → bit_xor a b < 2 ^ n
bit_xor-lt zero a b p q = let e : a ≡ 0 = omega arith in rw (e, zero-bit_xor) q
bit_xor-lt (suc n) a b p q = omega (
  arith,
  pow-suc 2 n,
  bit_xor_step a b,
  differ-le (a % 2) (b % 2),
  bit_xor-lt n (a / 2) (b / 2) (omega (arith, pow-suc 2 n)) (omega (arith, pow-suc 2 n)),
)
