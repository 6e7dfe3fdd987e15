-- ===== src/Int32.antt =====
-- The arithmetic of `i32` that the constant evaluator uses. A value is its bit pattern, a number below
-- 2 ^ 32; what the pattern stands for is `to_int`.
use truth.Base.{
  ℕ, ◌+◌, ◌-◌, ◌*◌, ◌/◌, ◌%◌, ◌^◌, Bool, true, false, Option, none, some, ltb, leb, ◌==◌,
  if◌then◌else◌,
}

abbrev pub modulus : ℕ
modulus = 2 ^ 32

abbrev pub sign_bit : ℕ
sign_bit = 2 ^ 31

abbrev pub is_negative : ℕ → Bool
is_negative a = leb sign_bit a

abbrev pub wrapping_neg : ℕ → ℕ
wrapping_neg a = (modulus - a) % modulus

abbrev pub wrapping_add : ℕ → ℕ → ℕ
wrapping_add a b = (a + b) % modulus

abbrev pub wrapping_sub : ℕ → ℕ → ℕ
wrapping_sub a b = (a + modulus - b) % modulus

abbrev pub wrapping_mul : ℕ → ℕ → ℕ
wrapping_mul a b = a * b % modulus

-- The magnitude of a value, as an unsigned number.
abbrev pub magnitude : ℕ → ℕ
magnitude a = if is_negative a then modulus - a else a

-- `-q` or `q`, wrapped.
abbrev pub with_sign : Bool → ℕ → ℕ
with_sign true q = (modulus - q) % modulus
with_sign false q = q % modulus

abbrev pub signs_differ : Bool → Bool → Bool
signs_differ true b = if b then false else true
signs_differ false b = b

-- `none` is the panic on a divisor of zero. The quotient is rounded towards zero and the remainder has
-- the sign of the dividend.
unfoldable pub wrapping_div : ℕ → ℕ → Option ℕ
wrapping_div a b =
    if b == 0
    then none
    else some (with_sign (signs_differ (is_negative a) (is_negative b)) (magnitude a / magnitude b))

unfoldable pub wrapping_rem : ℕ → ℕ → Option ℕ
wrapping_rem a b =
    if b == 0 then none else some (with_sign (is_negative a) (magnitude a % magnitude b))

-- Signed comparison: both patterns are moved by 2 ^ 31.
abbrev pub biased : ℕ → ℕ
biased a = (a + sign_bit) % modulus

abbrev pub lt_i32 : ℕ → ℕ → Bool
lt_i32 a b = ltb (biased a) (biased b)

abbrev pub le_i32 : ℕ → ℕ → Bool
le_i32 a b = leb (biased a) (biased b)

abbrev pub not_i32 : ℕ → ℕ
not_i32 a = modulus - 1 - a

abbrev pub shl_i32 : ℕ → ℕ → ℕ
shl_i32 a k = a * 2 ^ k % modulus

-- `>>` on `i32` copies the sign bit; on `u32` it shifts zeros in.
abbrev pub shr_i32 : ℕ → ℕ → ℕ
shr_i32 a k = if is_negative a then not_i32 (not_i32 a / 2 ^ k) else a / 2 ^ k

abbrev pub shr_u32 : ℕ → ℕ → ℕ
shr_u32 a k = a / 2 ^ k
