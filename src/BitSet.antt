-- ===== src/BitSet.antt =====
-- src/bitset.rs: `BitSet32`, a set of numbers below 32 held in one `u32`, and its iterator.
-- A `BitSet32` is its mask. A shift by 32 or more is the wrapping one of a release build (the amount
-- is taken modulo 32); a debug build panics there.
pub mod Membership
pub mod Steps
pub mod Iteration
mod Tests
use truth.Base.{
  ℕ, zero, suc, ◌+◌, ◌-◌, ◌*◌, ◌/◌, ◌%◌, ◌^◌, bit_and, bit_or, Bool, not, Option, none, some, List,
  [], ◌∷◌, ltb, ◌==◌, if◌then◌else◌,
}
use truth.Base.Digits.{test_bit}

-- The intrinsics of `u32`.
unfoldable pub shl32 : ℕ → ℕ → ℕ
shl32 x k = x * 2 ^ (k % 32) % 2 ^ 32

unfoldable pub shr32 : ℕ → ℕ → ℕ
shr32 x k = x / 2 ^ (k % 32)

unfoldable pub not32 : ℕ → ℕ
not32 x = 2 ^ 32 - 1 - x

-- The zeros below the lowest one among `n` digits.
unfoldable pub low_zeros : ℕ → ℕ → ℕ
low_zeros zero m = 0
low_zeros (suc n) m = if m % 2 == 1 then 0 else suc (low_zeros n (m / 2))

unfoldable pub trailing_zeros : ℕ → ℕ
trailing_zeros m = low_zeros 32 m

-- The zeros above the highest one among `n` digits.
unfoldable pub high_zeros : ℕ → ℕ → ℕ
high_zeros zero m = 0
high_zeros (suc n) m = if test_bit m n then 0 else suc (high_zeros n m)

unfoldable pub leading_zeros : ℕ → ℕ
leading_zeros m = high_zeros 32 m

unfoldable pub ones_below : ℕ → ℕ → ℕ
ones_below zero m = 0
ones_below (suc n) m = m % 2 + ones_below n (m / 2)

unfoldable pub count_ones : ℕ → ℕ
count_ones m = ones_below 32 m

abbrev pub BitSet32 : Type 0
BitSet32 = ℕ

abbrev pub empty : BitSet32
empty = 0

unfoldable pub with_bit : BitSet32 → ℕ → BitSet32
unfolding shl32
with_bit s index = bit_or s (shl32 1 index)

unfoldable pub from_bit : ℕ → BitSet32
unfolding with_bit
from_bit index = with_bit empty index

unfoldable pub len : BitSet32 → ℕ
len s = count_ones s

unfoldable pub is_empty : BitSet32 → Bool
is_empty s = s == 0

unfoldable pub contains : BitSet32 → ℕ → Bool
unfolding shl32
contains s index = not (bit_and s (shl32 1 index) == 0)

unfoldable pub without_bit : BitSet32 → ℕ → BitSet32
unfolding shl32 not32
without_bit s index = bit_and s (not32 (shl32 1 index))

unfoldable pub first : BitSet32 → Option ℕ
first s = let count = trailing_zeros s in if count == 32 then none else some count

unfoldable pub last : BitSet32 → Option ℕ
last s = let count = leading_zeros s in if count == 32 then none else some (32 - 1 - count)

-- `insert` and `remove` return the new set and whether it changed.
unfoldable pub insert : BitSet32 → ℕ → BitSet32 × Bool
unfolding with_bit
insert s index = let new = with_bit s index in (new, not (s == new))

unfoldable pub remove : BitSet32 → ℕ → BitSet32 × Bool
unfolding without_bit
remove s index = let new = without_bit s index in (new, not (s == new))

unfoldable pub set_bit : BitSet32 → ℕ → Bool → BitSet32
unfolding insert remove
set_bit s index enabled = if enabled then (insert s index).0 else (remove s index).0

unfoldable pub with_upper_bound : BitSet32 → ℕ → BitSet32
with_upper_bound s n = bit_and s (((if ltb n 32 then 2 ^ n else 0) + 2 ^ 32 - 1) % 2 ^ 32)

unfoldable pub complement : BitSet32 → ℕ → BitSet32
unfolding with_upper_bound not32
complement s n = with_upper_bound (not32 s) n

unfoldable pub bitand : BitSet32 → BitSet32 → BitSet32
bitand s t = bit_and s t

unfoldable pub bitor : BitSet32 → BitSet32 → BitSet32
bitor s t = bit_or s t

-- `FromIterator` and `Extend`.
unfoldable pub extend : BitSet32 → List ℕ → BitSet32
unfolding insert
extend s [] = s
extend s (index ∷ rest) = extend (insert s index).0 rest

unfoldable pub from_iter : List ℕ → BitSet32
unfolding extend
from_iter xs = extend empty xs

pub record IntoIter32 : Type 0 where
  pub index : ℕ
  pub mask : ℕ

abbrev pub into_iter : BitSet32 → IntoIter32
into_iter s = record { index = 0; mask = s }

unfoldable pub next : IntoIter32 → Option (ℕ × IntoIter32)
unfolding shr32
next it =
    let zeros = trailing_zeros it.mask in
    if zeros == 32
    then none
    else (let index' = (it.index + (zeros + 1)) % 2 ^ 32 in
        some (
          (index' + 2 ^ 32 - 1) % 2 ^ 32,
          record { index = index'; mask = shr32 it.mask (zeros + 1) },
        ))

-- `ExactSizeIterator::len`.
unfoldable pub remaining : IntoIter32 → ℕ
remaining it = count_ones it.mask

-- `for x in it`, with fuel; `none` when the fuel ran out before the iterator ended.
unfoldable pub collect : ℕ → IntoIter32 → Option (List ℕ)
collect zero it = none
collect (suc fuel) it = elim (next it) [
  | none ↦ some []
  | some (x, it') ↦ elim (collect fuel it') [ none ↦ none | some xs ↦ some (x ∷ xs) ]
]
