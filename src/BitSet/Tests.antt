-- ===== src/BitSet/Tests.antt =====
-- The unit tests of src/bitset.rs, and the theorems at concrete sets.
use truth.Base.{
  none, ℕ, ◌^◌, ◌<◌, ◌≡◌, refl, arith, true, ◌&&◌, ◌||◌, not, some, List, [], ◌∷◌, length, ltb,
  ◌==◌, if◌then◌else◌, All,
}
use truth.Base.Digits.{test_bit}
use truth.BitSet.{
  remaining, BitSet32, shr32, low_zeros, trailing_zeros, high_zeros, leading_zeros, ones_below,
  count_ones, contains, insert, remove, set_bit, first, last, len, complement, extend, from_iter,
  into_iter, next, collect,
}
use truth.Base.Members.{member}
use truth.BitSet.Membership.{contains-set_bit, contains-complement, contains-extend, insert-changed}
use truth.BitSet.Iteration.{Ascending, collect-into_iter, collect-top}

sample : BitSet32
unfolding from_iter extend
sample = from_iter (1 ∷ 7 ∷ 2 ∷ 7 ∷ 31 ∷ [])

sample-mask : sample ≡ 0x8000_0086
unfolding sample
sample-mask = refl

sample-iter : collect 33 (into_iter 0x8000_0086) ≡ some (1 ∷ 2 ∷ 7 ∷ 31 ∷ [])
unfolding collect next trailing_zeros low_zeros shr32
sample-iter = refl

sample_ends : (first 0x8000_0086 ≡ some 1) × (last 0x8000_0086 ≡ some 31) × (len 0x8000_0086 ≡ 4)
unfolding first last len trailing_zeros leading_zeros count_ones low_zeros high_zeros ones_below
    test_bit
sample_ends = (refl, refl, refl)

complements : (complement 0xC1 8 ≡ 0x3E) × (complement 0 32 ≡ 0xFFFF_FFFF)
unfolding complement
complements = (refl, refl)

removes : remove 0b100010 1 ≡ (0b100000, true)
unfolding remove
removes = refl

contains-set_bit_example :
    contains (set_bit 0b1001 2 true) 3 ≡ (if 2 == 3 then true else contains 0b1001 3)
contains-set_bit_example = contains-set_bit 0b1001 2 3 true (omega arith) (omega arith)

contains-complement_example : contains (complement 0xC1 8) 1 ≡ (not (contains 0xC1 1) && ltb 1 8)
contains-complement_example = contains-complement 0xC1 8 1 (omega arith) (omega arith) (omega arith)

contains-extend_example :
    contains (extend 4 (1 ∷ 7 ∷ [])) 7 ≡ (member 7 (1 ∷ 7 ∷ []) || contains 4 7)
contains-extend_example = contains-extend 4 (1 ∷ 7 ∷ []) 7 (omega arith) (omega arith)

insert-changed_example : (insert 0b1001 2).1 ≡ not (contains 0b1001 2)
insert-changed_example = insert-changed 0b1001 2 (omega arith) (omega arith)

collect-into_iter_example :
    (xs : List ℕ) × (collect 33 (into_iter 0x8000_0086) ≡ some xs)
    × Ascending 0 xs
    × All (λ x. x < 32) xs
    × (length xs ≡ len 0x8000_0086)
    × ((j : ℕ) → j < 32 → member j xs ≡ contains 0x8000_0086 j)
collect-into_iter_example = collect-into_iter 0x8000_0086 (omega arith) (omega arith)

collect-top_example :
    (collect 1000 (into_iter (2 ^ 31)) ≡ none) × (remaining (into_iter (2 ^ 31)) ≡ 1)
collect-top_example = collect-top 1000 (omega arith)
