-- ===== src/DiffSwitch/Cases.antt =====
-- Each difficulty belongs to exactly one of the masks of `explicit_difficulty_cases`, and the value
-- there is the one that `select_diff_switch_case` finds.
use native.Mathlib.Nat.{add-zero}
use truth.Base.{
  ℕ, zero, suc, ◌+◌, ◌≤◌, ◌<◌, ◌≡◌, refl, sym, subst, ◌∙◌, arith, true, false, none, some, List, [],
  ◌∷◌, length, if◌then◌else◌,
}
use truth.BitSet.{BitSet32, empty, from_bit, with_bit, insert, contains}
use truth.BitSet.Membership.{contains-with_bit, contains-eq-test_bit}
use truth.Base.Digits.{test_bit-zero}
use truth.DiffSwitch.{
  DiffSwitchVec, look_back, select_diff_switch_case, explicit_loop, explicit_difficulty_cases,
}

-- The values whose mask has the difficulty `d`.
unfoldable pub owners {ℓ} : {T : Type ℓ} → ℕ → List (BitSet32 × T) → List T
owners d [] = []
owners d ((mask, value) ∷ entries) =
    let rest = owners d entries in if contains mask d then value ∷ rest else rest

-- A mask all of whose members lie below `bound`.
abbrev IsBelow : ℕ → BitSet32 → Type 0
IsBelow bound mask = (j : ℕ) → bound ≤ j → j < 32 → contains mask j ≡ false

contains-empty : (j : ℕ) → j < 32 → contains empty j ≡ false
contains-empty j h = contains-eq-test_bit 0 j h ∙ test_bit-zero j

with_bit-IsBelow :
    (d : ℕ) (mask : BitSet32) → d < 32 → IsBelow d mask → IsBelow (d + 1) (with_bit mask d)
with_bit-IsBelow d mask p h j q r = ground (arith, contains-with_bit mask d j p r, h j)

-- Below `d` the bit `d` changes nothing.
contains-with_bit_below :
    (d j : ℕ) (mask : BitSet32) → d < 32 → j < d → contains (with_bit mask d) j ≡ contains mask j
contains-with_bit_below d j mask p q = ground (arith, contains-with_bit mask d j p (omega arith))

contains-with_bit_self : (d : ℕ) (mask : BitSet32) → d < 32 → contains (with_bit mask d) d ≡ true
contains-with_bit_self d mask p = ground (arith, contains-with_bit mask d d p p)

add_shift : (d k : ℕ) → d + suc k ≡ d + 1 + k
add_shift d k = omega arith

from_bit-IsBelow : IsBelow 1 (from_bit 0)
unfolding from_bit
from_bit-IsBelow = with_bit-IsBelow 0 empty (omega arith) (λ j _ r. contains-empty j r)

module _ {ℓ} {T : Type ℓ} where
  -- The last written case among the first `suc k`, or `cur`.
  pick : T → DiffSwitchVec T → ℕ → T
  pick cur [] k = cur
  pick cur (none ∷ cases) zero = cur
  pick cur (some c ∷ cases) zero = c
  pick cur (none ∷ cases) (suc k) = pick cur cases k
  pick cur (some c ∷ cases) (suc k) = pick c cases k

  look_back-none :
      (cur : T) (cases : DiffSwitchVec T) (k : ℕ)
      → look_back (some cur ∷ none ∷ cases) (suc k) ≡ look_back (some cur ∷ cases) k
  unfolding look_back
  look_back-none cur cases zero = refl
  look_back-none cur cases (suc k) = ground (arith, look_back-none cur cases k)

  look_back-some :
      (cur c : T) (cases : DiffSwitchVec T) (k : ℕ)
      → look_back (some cur ∷ some c ∷ cases) (suc k) ≡ look_back (some c ∷ cases) k
  unfolding look_back
  look_back-some cur c cases zero = refl
  look_back-some cur c cases (suc k) = ground (arith, look_back-some cur c cases k)

  look_back-nil : (cur : T) (k : ℕ) → look_back (some cur ∷ []) k ≡ some cur
  unfolding look_back
  look_back-nil cur zero = refl
  look_back-nil cur (suc k) = look_back-nil cur k

  look_back-pick :
      (cur : T) (cases : DiffSwitchVec T) (k : ℕ)
      → look_back (some cur ∷ cases) (suc k) ≡ some (pick cur cases k)
  unfolding pick look_back
  look_back-pick cur [] k = look_back-nil cur (suc k)
  look_back-pick cur (none ∷ cases) zero = look_back-none cur cases zero
  look_back-pick cur (some c ∷ cases) zero = look_back-some cur c cases zero
  look_back-pick cur (none ∷ cases) (suc k) =
      look_back-none cur cases (suc k) ∙ look_back-pick cur cases k
  look_back-pick cur (some c ∷ cases) (suc k) =
      look_back-some cur c cases (suc k) ∙ look_back-pick c cases k

  owners-skip :
      (d : ℕ) (mask : BitSet32) (v : T) (entries : List (BitSet32 × T))
      → contains mask d ≡ false
      → owners d ((mask, v) ∷ entries) ≡ owners d entries
  unfolding owners
  owners-skip d mask v entries h = ground arith

  owners-before :
      (j : ℕ) (cases : DiffSwitchVec T) (mask : BitSet32) (cur : T) (d : ℕ)
      → j < d
      → d + length cases ≤ 32
      → owners j (explicit_loop cases mask cur d) ≡ (if contains mask j then cur ∷ [] else [])
  unfolding owners explicit_loop insert
  owners-before j [] mask cur d h p = refl
  owners-before j (none ∷ cases) mask cur d h p =
      owners-before j cases (with_bit mask d) cur (d + 1) (omega arith) (omega arith)
      ∙ (rw (contains-with_bit_below d j mask (omega arith) h))
  owners-before j (some c ∷ cases) mask cur d h p = rw (
    owners-before j cases (with_bit empty d) c (d + 1) (omega arith) (omega arith),
    contains-with_bit_below d j empty (omega arith) h,
    contains-empty j (omega arith),
  )

  owners-at :
      (k : ℕ) (cases : DiffSwitchVec T) (mask : BitSet32) (cur : T) (d : ℕ)
      → k < length cases
      → d + length cases ≤ 32
      → IsBelow d mask
      → owners (d + k) (explicit_loop cases mask cur d) ≡ pick cur cases k ∷ []
  unfolding owners explicit_loop insert pick
  owners-at k [] mask cur d h p q = absurd (omega arith)
  owners-at zero (none ∷ cases) mask cur d h p q = rw (
    add-zero,
    owners-before d cases (with_bit mask d) cur (d + 1) (omega arith) (omega arith),
    contains-with_bit_self d mask (omega arith),
  )
  owners-at zero (some c ∷ cases) mask cur d h p q =
      subst (λ j. owners j (explicit_loop (some c ∷ cases) mask cur d) ≡ c ∷ []) (sym (add-zero d))
        (owners-skip d mask cur _ (q d (omega arith) (omega arith))
          ∙ owners-before d cases (with_bit empty d) c (d + 1) (omega arith) (omega arith)
          ∙ (rw (contains-with_bit_self d empty (omega arith))))
  owners-at (suc k) (none ∷ cases) mask cur d h p q = rw (add_shift d k) (
      owners-at k cases (with_bit mask d) cur (d + 1) (omega arith) (omega arith)
        (with_bit-IsBelow d mask (omega arith) q))
  owners-at (suc k) (some c ∷ cases) mask cur d h p q =
      owners-skip (d + suc k) mask cur _ (q (d + suc k) (omega arith) (omega arith))
      ∙ (rw (add_shift d k) (
          owners-at k cases (with_bit empty d) c (d + 1) (omega arith) (omega arith)
            (with_bit-IsBelow d empty (omega arith) (λ j _ r. contains-empty j r))))

  owners-after :
      (j : ℕ) (cases : DiffSwitchVec T) (mask : BitSet32) (cur : T) (d : ℕ)
      → j < 32
      → d + length cases ≤ j
      → IsBelow d mask
      → owners j (explicit_loop cases mask cur d) ≡ []
  unfolding owners explicit_loop insert
  owners-after j [] mask cur d h p q = rw (q j (omega arith) h)
  owners-after j (none ∷ cases) mask cur d h p q =
      owners-after j cases (with_bit mask d) cur (d + 1) h (omega arith)
        (with_bit-IsBelow d mask (omega arith) q)
  owners-after j (some c ∷ cases) mask cur d h p q = rw (q j (omega arith) h) (
      owners-after j cases (with_bit empty d) c (d + 1) h (omega arith)
        (with_bit-IsBelow d empty (omega arith) (λ i _ r. contains-empty i r)))

  owner-selected :
      (c : T) (cases : DiffSwitchVec T) (d : ℕ)
      → length cases < 32
      → d ≤ length cases
      → (v : T) × (select_diff_switch_case (some c ∷ cases) d ≡ some v)
        × (owners d (explicit_loop cases (from_bit 0) c 1) ≡ v ∷ [])
  unfolding select_diff_switch_case look_back from_bit
  owner-selected c cases zero h p = (
    c,
    ground arith,
    rw (
      owners-before 0 cases (with_bit empty 0) c 1 (omega arith) (omega arith),
      contains-with_bit_self 0 empty (omega arith),
    ),
  )
  owner-selected c cases (suc k) h p =
      let shift : suc k ≡ 1 + k = omega arith in
      (
        pick c cases k,
        ground (arith, look_back-pick c cases k),
        rw shift (owners-at k cases (from_bit 0) c 1 (omega arith) (omega arith) from_bit-IsBelow),
      )

  -- A switch with a first case and at most 32 difficulties has a list of explicit cases. Each of its
  -- difficulties is in the mask of exactly one of them, whose value is the one that is selected for
  -- the difficulty; no other number below 32 is in any mask.
  pub owners-explicit_difficulty_cases :
      (c : T) (cases : DiffSwitchVec T)
      → length cases < 32
      → (out : List (BitSet32 × T)) × (explicit_difficulty_cases (some c ∷ cases) ≡ some out)
        × ((d : ℕ)
            → d ≤ length cases
            → (v : T) × (select_diff_switch_case (some c ∷ cases) d ≡ some v)
              × (owners d out ≡ v ∷ []))
        × ((d : ℕ) → length cases < d → d < 32 → owners d out ≡ [])
  unfolding explicit_difficulty_cases
  owners-explicit_difficulty_cases c cases h = (
    explicit_loop cases (from_bit 0) c 1,
    refl,
    λ d p. owner-selected c cases d h p,
    λ d p q. owners-after d cases (from_bit 0) c 1 q (omega arith) from_bit-IsBelow,
  )
