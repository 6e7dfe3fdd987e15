-- ===== src/BitSet/Steps.antt =====
-- The zeros below the lowest one, and single steps of the iterator of a `BitSet32`.
use native.Mathlib.Nat.{pow-suc, div-div-eq-div-mul}
use truth.Base.{
  ℕ, zero, suc, ◌+◌, ◌*◌, ◌/◌, ◌%◌, ◌^◌, ◌≤◌, ◌<◌, ◌≡◌, ◌≢◌, sym, ◌∙◌, ap, arith, refl, none, some,
  ◌⊎◌,
}
use truth.BitSet.{shr32, low_zeros, trailing_zeros, next}

pub low_zeros-lt : (n k m : ℕ) → k ≤ n → m ≢ 0 → m < 2 ^ k → low_zeros n m < k
unfolding low_zeros
low_zeros-lt n zero m p h q = absurd (h (omega arith))
low_zeros-lt zero (suc k) m p h q = absurd (omega arith)
low_zeros-lt (suc n) (suc k) m p h q = ground (arith, pow-suc 2 k, low_zeros-lt n k (m / 2))

pub low_zeros-zero : (n : ℕ) → low_zeros n 0 ≡ n
unfolding low_zeros
low_zeros-zero zero = refl
low_zeros-zero (suc n) = ap suc (low_zeros-zero n)

low_zeros-even : (n m : ℕ) → m % 2 ≡ 0 → low_zeros (suc n) m ≡ suc (low_zeros n (m / 2))
unfolding low_zeros
low_zeros-even n m e = ground arith

low_zeros-odd : (n m : ℕ) → m % 2 ≡ 1 → low_zeros (suc n) m ≡ 0
unfolding low_zeros
low_zeros-odd n m e = ground arith

mul_two : (z : ℕ) → 2 ^ suc (suc z) ≡ 2 * 2 ^ suc z
mul_two z = omega (arith, pow-suc 2 (suc z))

-- More digits change nothing once there is a one.
pub low_zeros_fuel : (n m : ℕ) → low_zeros n m < n → low_zeros (suc n) m ≡ low_zeros n m
unfolding low_zeros
low_zeros_fuel zero m h = absurd (omega arith)
low_zeros_fuel (suc n) m h = ground (arith, low_zeros_fuel n (m / 2))

trailing_zeros-zero : trailing_zeros 0 ≡ 32
unfolding trailing_zeros
trailing_zeros-zero = low_zeros-zero 32

trailing_zeros-even :
    (m : ℕ) → m % 2 ≡ 0 → m ≢ 0 → m < 2 ^ 32 → trailing_zeros m ≡ suc (trailing_zeros (m / 2))
unfolding trailing_zeros
trailing_zeros-even m e h p =
    let half : low_zeros 31 (m / 2) < 31 =
      low_zeros-lt 31 31 (m / 2) (omega arith) (omega arith) (omega arith) in
    low_zeros-even 31 m e ∙ ap suc (sym (low_zeros_fuel 31 (m / 2) half))

trailing_zeros-odd : (m : ℕ) → m % 2 ≡ 1 → trailing_zeros m ≡ 0
unfolding trailing_zeros
trailing_zeros-odd m e = low_zeros-odd 31 m e

pub trailing_zeros-lt : (k m : ℕ) → k ≤ 32 → m ≢ 0 → m < 2 ^ k → trailing_zeros m < k
unfolding trailing_zeros
trailing_zeros-lt k m = low_zeros-lt 32 k m

-- What a step yields when the lowest one is at `z` and the shift stays below the width.
next-yields :
    (i m z : ℕ)
    → trailing_zeros m ≡ z
    → z < 31
    → i + z + 1 < 2 ^ 32
    → next (record { index = i; mask = m })
      ≡ some (i + z, record { index = i + z + 1; mask = m / 2 ^ suc z })
unfolding next shr32
next-yields i m z e h p =
    let no_wrap : (i + (z + 1)) % 2 ^ 32 ≡ i + z + 1 = omega arith in
    let amount : (z + 1) % 32 ≡ suc z = omega arith in rw (e, no_wrap, amount) (ground arith)

pub next-zero : (i : ℕ) → next (record { index = i; mask = 0 }) ≡ none
unfolding next
next-zero i = rw trailing_zeros-zero

-- An odd mask yields the current position and moves by one.
pub next-odd :
    (i m : ℕ)
    → m % 2 ≡ 1
    → i + 1 < 2 ^ 32
    → next (record { index = i; mask = m }) ≡ some (i, record { index = i + 1; mask = m / 2 })
next-odd i m e h =
    rw (next-yields i m 0 (trailing_zeros-odd m e) (omega arith) (omega arith)) (ground arith)

-- An even mask yields what the halved mask yields one position further on.
pub next-even :
    (i m : ℕ)
    → m % 2 ≡ 0
    → m ≢ 0
    → m < 2 ^ 32
    → trailing_zeros m < 31
    → i + 32 < 2 ^ 32
    → next (record { index = i; mask = m }) ≡ next (record { index = i + 1; mask = m / 2 })
next-even i m e h p q r =
    let z = trailing_zeros (m / 2) in
    let ez : trailing_zeros m ≡ suc z = trailing_zeros-even m e h p in
    let shift : m / 2 ^ suc (suc z) ≡ m / 2 / 2 ^ suc z =
      ap (λ t. m / t) (mul_two z) ∙ sym (div-div-eq-div-mul m 2 (2 ^ suc z)) in
    rw
      (
        next-yields i m (suc z) ez (omega arith) (omega arith),
        next-yields (i + 1) (m / 2) z refl (omega arith) (omega arith),
        shift,
      )
      (ground arith)

pub ℕ-cases : (m : ℕ) → (m ≡ 0) ⊎ ((m % 2 ≡ 1) ⊎ ((m % 2 ≡ 0) × (m ≢ 0)))
ℕ-cases m = ground arith

-- The iterator's shift is in range: every mask but the one with only the top bit.
abbrev pub IsIterable : ℕ → Type 0
IsIterable m = (m ≡ 0) ⊎ (trailing_zeros m < 31)
