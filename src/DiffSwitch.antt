-- ===== src/DiffSwitch.antt =====
-- src/diff_switch_utils.rs: the cases of a difficulty switch such as `(a:b::d)`, which difficulties
-- they are written for, and the masks of the difficulties that each written case stands for.
pub mod Cases
pub mod Related
mod Tests
use truth.Base.{
  ℕ, zero, suc, ◌+◌, ◌-◌, max, Bool, true, false, Option, none, some, List, [], ◌∷◌, ◌++◌, length,
  get_elem?, set, replicate, ltb, ◌==◌, if◌then◌else◌,
}
use truth.BitSet.{BitSet32, empty, from_bit, insert, from_iter, collect, into_iter, len}

-- A missing case is `none`.
abbrev pub DiffSwitchVec {ℓ} : Type ℓ → Type ℓ
DiffSwitchVec T = List (Option T)

pub record DiffSwitchMeta : Type 0 where
  pub num_difficulties : ℕ
  pub explicit_difficulties : BitSet32

abbrev pub new_meta : DiffSwitchMeta
new_meta = record { num_difficulties = 0; explicit_difficulties = empty }

-- The loop of `DiffSwitchMeta::update`, from `difficulty` on.
unfoldable pub insert_explicit {ℓ} : {T : Type ℓ} → BitSet32 → ℕ → DiffSwitchVec T → BitSet32
insert_explicit s difficulty [] = s
insert_explicit s difficulty (none ∷ cases) = insert_explicit s (difficulty + 1) cases
insert_explicit s difficulty (some _ ∷ cases) =
    insert_explicit (insert s difficulty).0 (difficulty + 1) cases

unfoldable pub update {ℓ} : {T : Type ℓ} → DiffSwitchMeta → DiffSwitchVec T → DiffSwitchMeta
unfolding insert_explicit
update m cases = record {
  num_difficulties = max m.num_difficulties (length cases);
  explicit_difficulties = insert_explicit m.explicit_difficulties 0 cases;
}

-- The first written case at `i`, `i - 1`, and so on down to 0.
unfoldable pub look_back {ℓ} : {T : Type ℓ} → DiffSwitchVec T → ℕ → Option T
look_back cases zero = elim (get_elem? cases 0) [ some (some x) ↦ some x | _ ↦ none ]
look_back cases (suc i) =
    let below = look_back cases i in
    elim (get_elem? cases (suc i)) [ some (some x) ↦ some x | _ ↦ below ]

-- `none` is a panic: the assertion fails, or there is no written case.
unfoldable pub select_diff_switch_case {ℓ} : {T : Type ℓ} → DiffSwitchVec T → ℕ → Option T
unfolding look_back
select_diff_switch_case cases difficulty =
    if ltb difficulty (length cases) then look_back cases difficulty else none

-- The loop of `explicit_difficulty_cases` and the final push.
unfoldable pub explicit_loop {ℓ} :
    {T : Type ℓ} → DiffSwitchVec T → BitSet32 → T → ℕ → List (BitSet32 × T)
explicit_loop [] cur_mask cur_case difficulty = (cur_mask, cur_case) ∷ []
explicit_loop (none ∷ cases) cur_mask cur_case difficulty =
    explicit_loop cases (insert cur_mask difficulty).0 cur_case (difficulty + 1)
explicit_loop (some c ∷ cases) cur_mask cur_case difficulty =
    (cur_mask, cur_case) ∷ explicit_loop cases (insert empty difficulty).0 c (difficulty + 1)

-- `none` is a panic: no case at all, or no first case.
unfoldable pub explicit_difficulty_cases {ℓ} :
    {T : Type ℓ} → DiffSwitchVec T → Option (List (BitSet32 × T))
unfolding explicit_loop
explicit_difficulty_cases [] = none
explicit_difficulty_cases (none ∷ cases) = none
explicit_difficulty_cases (some c ∷ cases) = some (explicit_loop cases (from_bit 0) c 1)

-- `prev..stop`, as `n` numbers from `prev` on.
unfoldable pub range_from : ℕ → ℕ → List ℕ
range_from prev zero = []
range_from prev (suc n) = prev ∷ range_from (prev + 1) n

-- The `map` of `explicit_case_bitmasks`: a mask from each stop to the next one.
unfoldable pub bitmasks_from : ℕ → List ℕ → List BitSet32
unfolding range_from
bitmasks_from prev [] = []
bitmasks_from prev (stop ∷ stops) =
    from_iter (range_from prev (stop - prev)) ∷ bitmasks_from stop stops

-- The stops are the explicit difficulties and, last, the number of difficulties; the first one is
-- where the first mask starts.
unfoldable pub bitmasks : List ℕ → List BitSet32
unfolding bitmasks_from
bitmasks [] = []
bitmasks (prev ∷ stops) = bitmasks_from prev stops

-- `none`: the iterator of the set did not end.
unfoldable pub explicit_case_bitmasks : DiffSwitchMeta → Option (List BitSet32)
unfolding bitmasks
explicit_case_bitmasks m = elim (collect 33 (into_iter m.explicit_difficulties)) [
  | none ↦ none
  | some difficulties ↦ some (bitmasks (difficulties ++ m.num_difficulties ∷ []))
]

-- The writes of `switch_from_explicit_cases`; `none` is a panic by a write out of bounds.
unfoldable pub place_cases {ℓ} :
    {T : Type ℓ} → List ℕ → List T → DiffSwitchVec T → Option (DiffSwitchVec T)
place_cases [] values out = some out
place_cases (difficulty ∷ difficulties) [] out = some out
place_cases (difficulty ∷ difficulties) (value ∷ values) out =
    let rest = place_cases difficulties values (set out difficulty (some value)) in
    if ltb difficulty (length out) then rest else none

unfoldable pub switch_from_explicit_cases {ℓ} :
    {T : Type ℓ} → DiffSwitchMeta → List T → Option (DiffSwitchVec T)
unfolding place_cases
switch_from_explicit_cases {T} m explicit_cases =
    if length explicit_cases == len m.explicit_difficulties
    then elim (collect 33 (into_iter m.explicit_difficulties)) [
      | none ↦ none
      | some difficulties ↦
          place_cases difficulties explicit_cases (replicate m.num_difficulties none)
    ]
    else none
