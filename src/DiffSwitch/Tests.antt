-- ===== src/DiffSwitch/Tests.antt =====
-- The unit tests of src/diff_switch_utils.rs, and the theorems at concrete switches.
use truth.Base.{ℕ, ◌≤◌, ◌<◌, ◌≡◌, refl, arith, some, none, List, [], ◌∷◌}
use truth.BitSet.{
  BitSet32, shr32, low_zeros, trailing_zeros, ones_below, count_ones, len, from_bit, insert, extend,
  from_iter, next, collect,
}
use truth.DiffSwitch.{
  DiffSwitchVec, new_meta, update, select_diff_switch_case, explicit_loop,
  explicit_difficulty_cases, explicit_case_bitmasks, switch_from_explicit_cases,
}
use truth.DiffSwitch.Cases.{owners, owners-explicit_difficulty_cases}

abbrev two_cases : DiffSwitchVec ℕ
two_cases = some 10 ∷ none ∷ none ∷ some 30 ∷ none ∷ []

difficulty_cases : explicit_difficulty_cases two_cases ≡ some ((0b111, 10) ∷ (0b11000, 30) ∷ [])
unfolding explicit_difficulty_cases explicit_loop from_bit insert
difficulty_cases = refl

case_bitmasks : explicit_case_bitmasks (update new_meta two_cases) ≡ some (0b111 ∷ 0b11000 ∷ [])
unfolding explicit_case_bitmasks update insert collect next trailing_zeros low_zeros shr32 from_iter
    extend
case_bitmasks = refl

switch_back : switch_from_explicit_cases (update new_meta two_cases) (10 ∷ 30 ∷ []) ≡ some two_cases
unfolding switch_from_explicit_cases update insert collect next trailing_zeros low_zeros shr32 len
    count_ones ones_below
switch_back = refl

owners-explicit_difficulty_cases_example :
    (out : List (BitSet32 × ℕ)) × (explicit_difficulty_cases two_cases ≡ some out)
    × ((d : ℕ)
        → d ≤ 4
        → (v : ℕ) × (select_diff_switch_case two_cases d ≡ some v) × (owners d out ≡ v ∷ []))
    × ((d : ℕ) → 4 < d → d < 32 → owners d out ≡ [])
owners-explicit_difficulty_cases_example =
    owners-explicit_difficulty_cases 10 (none ∷ none ∷ some 30 ∷ none ∷ []) (omega arith)
