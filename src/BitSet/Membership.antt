-- ===== src/BitSet/Membership.antt =====
-- Which numbers a `BitSet32` contains after each operation.
use native.Mathlib.Nat.{pow-le-pow_right, one-le-pow, pow-suc}
use native.Mathlib.Decide.{dec_lt}
use truth.Base.{suc, List, [], ◌∷◌, All, refl}
use truth.Base.{
  ℕ, ◌+◌, ◌-◌, ◌%◌, ◌^◌, ◌≤◌, ◌<◌, ◌≡◌, sym, ◌∙◌, ap, arith, Bool, true, false, ◌&&◌, ◌||◌, not,
  ltb, ◌==◌, bit_and, ==_iff, ==_refl, lt→ltb, if◌then◌else◌, Bool-cases, inl, inr,
}
use truth.Base.Digits.{test_bit_large}
use truth.Base.Digits.{
  test_bit, test_bit-and, test_bit-or, test_bit-two_pow, test_bit_ext, test_bit-sub, test_bit_mask,
  bit_and-lt, bit_or-lt, bit_and-two_pow,
}
use truth.Base.Members.{member}
use truth.BitSet.{extend, remove}
use truth.BitSet.{
  BitSet32, shl32, not32, with_bit, without_bit, contains, insert, set_bit, bitand, complement,
  with_upper_bound,
}

-- A mask that fits its `u32`.
abbrev pub IsMask : BitSet32 → Type 0
IsMask s = s < 2 ^ 32

-- A bit index of a `u32`.
pub two_pow-lt : (i : ℕ) → i < 32 → 2 ^ i < 2 ^ 32
two_pow-lt i h =
    omega (arith, pow-le-pow_right {n = 2} (omega arith) {i = i} {j = 31} (omega arith))

pub shl32-one : (i : ℕ) → i < 32 → shl32 1 i ≡ 2 ^ i
unfolding shl32
shl32-one i h = let e : i % 32 ≡ i = omega arith in rw e (omega (arith, two_pow-lt i h))

pub contains-eq-test_bit : (s i : ℕ) → i < 32 → contains s i ≡ test_bit s i
unfolding contains
contains-eq-test_bit s i h = rw (shl32-one i h, bit_and-two_pow) (ground arith)

pub with_bit-IsMask : (s i : ℕ) → IsMask s → i < 32 → IsMask (with_bit s i)
unfolding with_bit
with_bit-IsMask s i p h = rw (shl32-one i h) (bit_or-lt 32 s (2 ^ i) p (two_pow-lt i h))

pub without_bit-IsMask : (s i : ℕ) → IsMask s → IsMask (without_bit s i)
unfolding without_bit
without_bit-IsMask s i p = bit_and-lt 32 s _ p

two_pow_mono : (i n : ℕ) → i < n → 2 ^ i < 2 ^ n
two_pow_mono i n h = omega (
  arith,
  pow-suc 2 i,
  one-le-pow i 2,
  pow-le-pow_right {n = 2} (omega arith) {i = suc i} {j = n} h,
)

-- A set whose members lie below `n` stays one when a number below `n` is set or cleared.
pub set_bit-lt :
    (n s i : ℕ) (enabled : Bool) → n ≤ 32 → s < 2 ^ n → i < n → set_bit s i enabled < 2 ^ n
unfolding set_bit insert remove with_bit without_bit
set_bit-lt n s i true w p h =
    rw (shl32-one i (omega arith)) (bit_or-lt n s (2 ^ i) p (two_pow_mono i n h))
set_bit-lt n s i false w p h = bit_and-lt n s _ p

-- Adding a number adds that number and no other.
pub contains-with_bit :
    (s i j : ℕ) → i < 32 → j < 32 → contains (with_bit s i) j ≡ (i == j || contains s j)
unfolding with_bit
contains-with_bit s i j p q = ground (
  arith,
  contains-eq-test_bit (with_bit s i) j q,
  contains-eq-test_bit s j q,
  shl32-one i p,
  test_bit-or s (2 ^ i) j,
  test_bit-two_pow i j,
)

pub contains-without_bit :
    (s i j : ℕ) → i < 32 → j < 32 → contains (without_bit s i) j ≡ (not (i == j) && contains s j)
unfolding without_bit not32
contains-without_bit s i j p q = ground (
  arith,
  contains-eq-test_bit (without_bit s i) j q,
  contains-eq-test_bit s j q,
  shl32-one i p,
  test_bit-and s (2 ^ 32 - 1 - 2 ^ i) j,
  test_bit-sub 32 (2 ^ i) j (two_pow-lt i p) q,
  test_bit-two_pow i j,
)

-- Setting or clearing a number decides that number and no other.
pub contains-set_bit :
    (s i j : ℕ) (enabled : Bool)
    → i < 32
    → j < 32
    → contains (set_bit s i enabled) j ≡ (if i == j then enabled else contains s j)
unfolding set_bit
contains-set_bit s i j true p q = rw (contains-with_bit s i j p q) (ground arith)
contains-set_bit s i j false p q = rw (contains-without_bit s i j p q) (ground arith)

pub set_bit-IsMask : (s i : ℕ) (enabled : Bool) → IsMask s → i < 32 → IsMask (set_bit s i enabled)
unfolding set_bit
set_bit-IsMask s i true p h = with_bit-IsMask s i p h
set_bit-IsMask s i false p h = without_bit-IsMask s i p

pub contains-bitand :
    (s t i : ℕ) → i < 32 → contains (bitand s t) i ≡ (contains s i && contains t i)
unfolding bitand
contains-bitand s t i h = ground (
  arith,
  contains-eq-test_bit (bit_and s t) i h,
  contains-eq-test_bit s i h,
  contains-eq-test_bit t i h,
  test_bit-and s t i,
)

-- Two sets with the same members are equal.
pub contains_ext :
    (s t : ℕ) → IsMask s → IsMask t → ((i : ℕ) → i < 32 → contains s i ≡ contains t i) → s ≡ t
contains_ext s t p q h =
    test_bit_ext 32 s t p q
      λ i k. sym (contains-eq-test_bit s i k) ∙ h i k ∙ contains-eq-test_bit t i k

absorb : (s i j : ℕ) → contains s i ≡ true → (i == j || contains s j) ≡ contains s j
absorb s i j h = elim (Bool-cases (i == j)) [
  | inl e ↦ let same : i ≡ j = (==_iff i j).0 e in rw (e, ← same, h)
  | inr e ↦ rw e
]

-- `insert` reports a change exactly when the number is new.
pub insert-changed : (s i : ℕ) → IsMask s → i < 32 → (insert s i).1 ≡ not (contains s i)
unfolding insert
insert-changed s i p h = elim (Bool-cases (contains s i)) [
  | inl old ↦
      let e : with_bit s i ≡ s =
        contains_ext (with_bit s i) s (with_bit-IsMask s i p h) p
          (λ j k. contains-with_bit s i j h k ∙ absorb s i j old) in
      rw (e, old) (ap not (==_refl s))
  | inr new ↦
      ground (arith, contains-with_bit s i i h h, ap (λ t. contains t i) {x = s} {y = with_bit s i})
]

upper_bound_mask :
    (n : ℕ) → n ≤ 32 → ((if ltb n 32 then 2 ^ n else 0) + 2 ^ 32 - 1) % 2 ^ 32 ≡ 2 ^ n - 1
upper_bound_mask n p = elim (dec_lt n 32) [
  | yes h ↦ rw (lt→ltb n 32 h) (omega (arith, two_pow-lt n h, one-le-pow n 2))
  | no h ↦ let e : n ≡ 32 = omega arith in rw e
]

pub contains-with_upper_bound :
    (s n i : ℕ) → n ≤ 32 → i < 32 → contains (with_upper_bound s n) i ≡ (contains s i && ltb i n)
unfolding with_upper_bound
contains-with_upper_bound s n i p h =
    let mask : ((if ltb n 32 then 2 ^ n else 0) + 2 ^ 32 - 1) % 2 ^ 32 ≡ 2 ^ n - 1 =
      upper_bound_mask n p in
    ground (
      arith,
      mask,
      contains-eq-test_bit s i h,
      contains-eq-test_bit (bit_and s (2 ^ n - 1)) i h,
      test_bit-and s (2 ^ n - 1) i,
      test_bit_mask n i,
    )

-- The complement of a set within the numbers below `n`.
pub contains-complement :
    (s n i : ℕ)
    → IsMask s
    → n ≤ 32
    → i < 32
    → contains (complement s n) i ≡ (not (contains s i) && ltb i n)
unfolding complement not32
contains-complement s n i m p h = ground (
  arith,
  contains-with_upper_bound (2 ^ 32 - 1 - s) n i p h,
  contains-eq-test_bit s i h,
  contains-eq-test_bit (2 ^ 32 - 1 - s) i h,
  test_bit-sub 32 s i m h,
)

-- Collecting numbers gives the set of those numbers.
pub contains-extend :
    (s : ℕ) (xs : List ℕ) (j : ℕ)
    → All (λ x. x < 32) xs
    → j < 32
    → contains (extend s xs) j ≡ (member j xs || contains s j)
unfolding extend member
contains-extend s [] j h q = refl
contains-extend s (x ∷ xs) j h q =
    ground (arith, contains-extend (with_bit s x) xs j h.1 q, contains-with_bit s x j h.0 q)

pub extend-IsMask : (s : ℕ) (xs : List ℕ) → IsMask s → All (λ x. x < 32) xs → IsMask (extend s xs)
unfolding extend
extend-IsMask s [] p h = p
extend-IsMask s (x ∷ xs) p h = extend-IsMask (with_bit s x) xs (with_bit-IsMask s x p h.0) h.1

-- A set with a mask below `2 ^ n` has no member from `n` on.
pub contains_large : (s n j : ℕ) → s < 2 ^ n → n ≤ j → j < 32 → contains s j ≡ false
contains_large s n j p q r = contains-eq-test_bit s j r ∙ test_bit_large n s j p q

pub bitand-lt : (n s t : ℕ) → s < 2 ^ n → bitand s t < 2 ^ n
unfolding bitand
bitand-lt n s t p = bit_and-lt n s t p
