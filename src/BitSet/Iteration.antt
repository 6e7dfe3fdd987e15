-- ===== src/BitSet/Iteration.antt =====
-- The iterator of a `BitSet32`.
use native.Mathlib.Nat.{pow-suc, pow-le-pow_right}
use truth.Base.{All}
use truth.Base.{
  ℕ, zero, suc, ◌+◌, ◌*◌, ◌/◌, ◌%◌, ◌^◌, ◌≤◌, ◌<◌, ◌≡◌, ◌≢◌, sym, ◌∙◌, arith, false, List, [], ◌∷◌,
  ◌==◌, refl, ==_iff, if◌then◌else◌, Bool-cases, inl, inr, none, some, length,
}
use truth.Base.Digits.{test_bit}
use truth.BitSet.Steps.{trailing_zeros-lt, next-zero, next-odd, next-even, IsIterable, ℕ-cases}
use truth.BitSet.{
  BitSet32, shr32, low_zeros, trailing_zeros, contains, IntoIter32, into_iter, next, collect, len,
  remaining, count_ones, ones_below,
}
use truth.Base.Members.{member}
use truth.BitSet.Membership.{IsMask, contains-eq-test_bit}

-- The positions of the ones among the lowest `n` digits of `m`, where the first position is `i`.
unfoldable pub ones_from : ℕ → ℕ → ℕ → List ℕ
ones_from zero i m = []
ones_from (suc n) i m =
    let rest = ones_from n (i + 1) (m / 2) in if m % 2 == 1 then i ∷ rest else rest

module _ (f : ℕ) (it : IntoIter32) where
  collect-none : next it ≡ none → collect (suc f) it ≡ some []
  unfolding collect
  collect-none h = ground arith

  collect-more :
      (x : ℕ) (it' : IntoIter32)
      → next it ≡ some (x, it')
      → collect f it' ≡ none
      → collect (suc f) it ≡ none
  unfolding collect
  collect-more x it' h k = ground arith

  collect-some :
      (x : ℕ) (it' : IntoIter32) (xs : List ℕ)
      → next it ≡ some (x, it')
      → collect f it' ≡ some xs
      → collect (suc f) it ≡ some (x ∷ xs)
  unfolding collect
  collect-some x it' xs h k = ground arith

  collect_congr : (it' : IntoIter32) → next it ≡ next it' → collect (suc f) it ≡ collect (suc f) it'
  unfolding collect
  collect_congr it' h = ground arith

half-IsIterable : (m : ℕ) → m < 2 ^ 32 → IsIterable (m / 2)
half-IsIterable m h = elim (Bool-cases (m / 2 == 0)) [
  | inl e ↦ inl ((==_iff (m / 2) 0).0 e)
  | inr e ↦ inr (trailing_zeros-lt 31 (m / 2) (omega arith) (ground arith) (omega arith))
]

ones_from-zero : (n i : ℕ) → ones_from n i 0 ≡ []
unfolding ones_from
ones_from-zero zero i = refl
ones_from-zero (suc n) i = ones_from-zero n (i + 1)

ones_from-odd : (n i m : ℕ) → m % 2 ≡ 1 → ones_from (suc n) i m ≡ i ∷ ones_from n (i + 1) (m / 2)
unfolding ones_from
ones_from-odd n i m h = ground arith

ones_from-even : (n i m : ℕ) → m % 2 ≡ 0 → ones_from (suc n) i m ≡ ones_from n (i + 1) (m / 2)
unfolding ones_from
ones_from-even n i m h = ground arith

pub collect-ones_from :
    (n fuel i m : ℕ)
    → m < 2 ^ n
    → n < fuel
    → i + n ≤ 32
    → IsIterable m
    → collect fuel (record { index = i; mask = m }) ≡ some (ones_from n i m)
collect-ones_from n zero i m p r s t = absurd (omega arith)
collect-ones_from zero (suc f) i m p r s t =
    let e : m ≡ 0 = omega arith in rw (e, ones_from-zero) (collect-none f _ (next-zero i))
collect-ones_from (suc n) (suc f) i m p r s t =
    let width : 2 ^ suc n ≤ 2 ^ 32 =
      pow-le-pow_right {n = 2} (omega arith) {j = 32} (omega arith) in
    let small : m / 2 < 2 ^ n = omega (arith, pow-suc 2 n) in
    let rest = λ (g : ℕ) (h : n < g).
      collect-ones_from n g (i + 1) (m / 2) small h (omega arith)
        (half-IsIterable m (omega arith)) in
    elim (ℕ-cases m) [
      | inl empty ↦ rw (empty, ones_from-zero) (collect-none f _ (next-zero i))
      | inr (inl odd) ↦
          rw (ones_from-odd n i m odd)
            (collect-some f _ i _ _ (next-odd i m odd (omega arith)) (rest f (omega arith)))
      | inr (inr (even, ne)) ↦ rw (ones_from-even n i m even) (
          collect_congr f _ _ (next-even i m even ne (omega arith) (ground (arith)) (omega arith))
          ∙ rest (suc f) (omega arith))
    ]

-- The lowest one is below the top digit unless it is the only one.
low_zeros-top : (n m : ℕ) → m < 2 ^ suc n → m ≢ 0 → m ≢ 2 ^ n → low_zeros (suc n) m < n
unfolding low_zeros
low_zeros-top zero m p q r = absurd (r (omega arith))
low_zeros-top (suc n) m p q r =
    ground (arith, pow-suc 2 n, pow-suc 2 (suc n), low_zeros-top n (m / 2))

set-IsIterable : (s : BitSet32) → IsMask s → s ≢ 2 ^ 31 → IsIterable s
unfolding trailing_zeros
set-IsIterable s m h = elim (Bool-cases (s == 0)) [
  | inl e ↦ inl ((==_iff s 0).0 e)
  | inr e ↦ inr (low_zeros-top 31 s m (λ z. cc (rw z at e)) h)
]

-- Strictly ascending, from `low` on.
abbrev pub Ascending : ℕ → List ℕ → Type 0
Ascending low [] = Unit
Ascending low (x ∷ xs) = (low ≤ x) × Ascending (x + 1) xs

Ascending-weaken : (a b : ℕ) (xs : List ℕ) → a ≤ b → Ascending b xs → Ascending a xs
Ascending-weaken a b [] h k = tt
Ascending-weaken a b (x ∷ xs) h k = (omega arith, k.1)

ones_from-Ascending : (n i m : ℕ) → Ascending i (ones_from n i m)
ones_from-Ascending zero i m = unfold ones_from in tt
ones_from-Ascending (suc n) i m = elim (Bool-cases (m % 2 == 1)) [
  | inl odd ↦
      rw (ones_from-odd n i m ((==_iff _ _).0 odd))
        (omega arith, ones_from-Ascending n (i + 1) (m / 2))
  | inr even ↦
      rw (ones_from-even n i m (ground arith))
        (Ascending-weaken i (i + 1) _ (omega arith) (ones_from-Ascending n (i + 1) (m / 2)))
]

ones_from-lt : (n i m b : ℕ) → i + n ≤ b → All (λ x. x < b) (ones_from n i m)
ones_from-lt zero i m b h = unfold ones_from in tt
ones_from-lt (suc n) i m b h = elim (Bool-cases (m % 2 == 1)) [
  | inl odd ↦
      rw (ones_from-odd n i m ((==_iff _ _).0 odd))
        (omega arith, ones_from-lt n (i + 1) (m / 2) b (omega arith))
  | inr even ↦
      rw (ones_from-even n i m (ground arith)) (ones_from-lt n (i + 1) (m / 2) b (omega arith))
]

member_below : (j low : ℕ) (xs : List ℕ) → j < low → Ascending low xs → member j xs ≡ false
unfolding member
member_below j low [] h k = refl
member_below j low (x ∷ xs) h k = ground (arith, member_below j (x + 1) xs)

member-ones_from : (n i j m : ℕ) → j < n → member (i + j) (ones_from n i m) ≡ test_bit m j
unfolding member test_bit
member-ones_from zero i j m h = absurd (omega arith)
member-ones_from (suc n) i zero m h = elim (Bool-cases (m % 2 == 1)) [
  | inl odd ↦ ground (arith, ones_from-odd n i m)
  | inr even ↦ ground (
    arith,
    ones_from-even n i m,
    member_below (i + 0) (i + 1) (ones_from n (i + 1) (m / 2)) (omega arith)
        (ones_from-Ascending n (i + 1) (m / 2)),
  )
]
member-ones_from (suc n) i (suc j) m h =
    let shift : i + suc j ≡ i + 1 + j = omega arith in
    let ih = member-ones_from n (i + 1) j (m / 2) (omega arith) in
    elim (Bool-cases (m % 2 == 1)) [
      | inl odd ↦ rw (shift) (ground (arith, ones_from-odd n i m, ih))
      | inr even ↦ rw (shift) (ground (arith, ones_from-even n i m, ih))
    ]

length-ones_from : (n i m : ℕ) → length (ones_from n i m) ≡ ones_below n m
unfolding ones_below ones_from
length-ones_from zero i m = refl
length-ones_from (suc n) i m = ground (arith, length-ones_from n (i + 1) (m / 2))

-- Iterating over a set other than `{31}` ends, and yields its members, which are numbers below 32, in
-- strictly ascending order and as many as the set's length.
pub collect-into_iter :
    (s : BitSet32)
    → IsMask s
    → s ≢ 2 ^ 31
    → (xs : List ℕ) × (collect 33 (into_iter s) ≡ some xs)
      × Ascending 0 xs
      × All (λ x. x < 32) xs
      × (length xs ≡ len s)
      × ((j : ℕ) → j < 32 → member j xs ≡ contains s j)
unfolding len count_ones
collect-into_iter s m h = (
  ones_from 32 0 s,
  collect-ones_from 32 33 0 s m (omega arith) (omega arith) (set-IsIterable s m h),
  ones_from-Ascending 32 0 s,
  ones_from-lt 32 0 s 32 (omega arith),
  length-ones_from 32 0 s,
  λ j k.
      let start : 0 + j ≡ j = omega arith in
      rw start at (member-ones_from 32 0 j s k) ∙ sym (contains-eq-test_bit s j k),
)

-- One step of the iterator of `{31}`: the shift by 32 leaves the mask as it is.
next_top :
    (i : ℕ)
    → i + 32 < 2 ^ 32
    → next (record { index = i; mask = 2 ^ 31 })
      ≡ some (i + 31, record { index = i + 32; mask = 2 ^ 31 })
unfolding next trailing_zeros low_zeros shr32
next_top i h = ground arith

collect-from :
    (fuel i : ℕ)
    → i + 32 * fuel < 2 ^ 32
    → collect fuel (record { index = i; mask = 2 ^ 31 }) ≡ none
unfolding collect
collect-from zero i h = refl
collect-from (suc fuel) i h =
    collect-more fuel (record { index = i; mask = 2 ^ 31 }) (i + 31)
      (record { index = i + 32; mask = 2 ^ 31 }) (next_top i (omega arith))
      (collect-from fuel (i + 32) (omega arith))

-- Iterating over the set `{31}` does not end in any number of steps below 2 ^ 27, at which the index
-- would overflow, although the set has one member.
pub collect-top :
    (fuel : ℕ)
    → fuel < 2 ^ 27
    → (collect fuel (into_iter (2 ^ 31)) ≡ none) × (remaining (into_iter (2 ^ 31)) ≡ 1)
unfolding remaining count_ones ones_below
collect-top fuel h = (collect-from fuel 0 (omega arith), refl)
