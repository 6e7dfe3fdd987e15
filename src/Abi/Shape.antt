-- ===== src/Abi/Shape.antt =====
-- What a valid signature looks like, read from its first encoding on.
use truth.Base.{
  ◌+◌, ◌≤◌, ◌≡◌, refl, sym, ap, ◌∙◌, ◌⊎◌, arith, Bool, true, false, ◌||◌, not, List, [], ◌∷◌, ◌++◌,
  Bool-cases, inl, inr, ltb, ◌==◌, if◌then◌else◌, All, ◌&&◌,
}
use truth.Base.Run.{Run, ok, err}
use truth.Abi.{
  ArgEncoding, is_jump_offset, is_jump_time, is_padding, is_arg0, is_block, count_if, any,
  count_while, skip1, rev, validate,
}

-- At every position, what follows an encoding has the property.
abbrev pub Followed : (ArgEncoding → List ArgEncoding → Type 0) → List ArgEncoding → Type 0
Followed P [] = Unit
Followed P (e ∷ encodings) = P e encodings × Followed P encodings

abbrev pub EndsBlock : ArgEncoding → List ArgEncoding → Type 0
EndsBlock e encodings = is_block e ≡ true → encodings ≡ []

skip1-snoc :
    (r : List ArgEncoding) (y x : ArgEncoding)
    → skip1 ((r ++ y ∷ []) ++ x ∷ []) ≡ skip1 (r ++ y ∷ []) ++ x ∷ []
unfolding skip1
skip1-snoc [] y x = refl
skip1-snoc (z ∷ r) y x = refl

any-append :
    (p : ArgEncoding → Bool) (xs ys : List ArgEncoding) → any p (xs ++ ys) ≡ (any p xs || any p ys)
unfolding any
any-append p [] ys = refl
any-append p (x ∷ xs) ys = ground (arith, any-append p xs ys)

any-last :
    (p : ArgEncoding → Bool) (y : ArgEncoding) (xs : List ArgEncoding)
    → any p (rev (y ∷ xs)) ≡ false
    → p y ≡ false
unfolding any rev
any-last p y xs h = ground (arith, any-append p (rev xs) (y ∷ []))

or-false : (a b : Bool) → (a || b) ≡ false → (a ≡ false) × (b ≡ false)
or-false a b h = ground arith

no_block : (e : ArgEncoding) (P : Type 0) → is_block e ≡ false → is_block e ≡ true → P
no_block e P h k = absurd (ground arith)

-- `.rev().skip(1).any(..)` finds what is followed by something.
no_inner_block :
    (encodings : List ArgEncoding)
    → any is_block (skip1 (rev encodings)) ≡ false
    → Followed EndsBlock encodings
unfolding any rev
no_inner_block [] h = tt
no_inner_block (x ∷ []) h = (λ _. refl, tt)
no_inner_block (x ∷ y ∷ xs) h =
    let split = or-false (any is_block (skip1 (rev (y ∷ xs)))) (is_block x || false) (
      sym (any-append is_block (skip1 (rev (y ∷ xs))) (x ∷ []))
      ∙ ap (any is_block) (sym (skip1-snoc (rev xs) y x))
      ∙ h) in
    (no_block x _ (or-false (is_block x) false split.1).0, no_inner_block (y ∷ xs) split.0)

abbrev pub NotArg0 : ArgEncoding → Type 0
NotArg0 e = is_arg0 e ≡ false

no_later_arg0 :
    (encodings : List ArgEncoding) → any is_arg0 encodings ≡ false → All NotArg0 encodings
unfolding any
no_later_arg0 [] h = tt
no_later_arg0 (e ∷ encodings) h =
    let split = or-false (is_arg0 e) (any is_arg0 encodings) h in
    (split.0, no_later_arg0 encodings split.1)

abbrev pub IsPadding : ArgEncoding → Type 0
IsPadding e = is_padding e ≡ true

abbrev pub OnlyPadding : ArgEncoding → List ArgEncoding → Type 0
OnlyPadding e encodings = IsPadding e → All IsPadding encodings

count_if-append :
    (xs ys : List ArgEncoding)
    → count_if is_padding (xs ++ ys) ≡ count_if is_padding xs + count_if is_padding ys
unfolding count_if
count_if-append [] ys = omega arith
count_if-append (x ∷ xs) ys = ground (arith, count_if-append xs ys)

count_if-rev : (xs : List ArgEncoding) → count_if is_padding (rev xs) ≡ count_if is_padding xs
unfolding count_if rev
count_if-rev [] = refl
count_if-rev (x ∷ xs) = ground (arith, count_if-rev xs, count_if-append (rev xs) (x ∷ []))

count_while-le : (xs : List ArgEncoding) → count_while is_padding xs ≤ count_if is_padding xs
unfolding count_if count_while
count_while-le [] = omega arith
count_while-le (x ∷ xs) = ground (arith, count_while-le xs)

-- One more element at the end is counted only when all before it is padding.
count_while-snoc :
    (r : List ArgEncoding) (x : ArgEncoding)
    → (count_while is_padding (r ++ x ∷ []) ≡ count_while is_padding r)
      ⊎ (All IsPadding r × IsPadding x)
unfolding count_while
count_while-snoc [] x = elim (Bool-cases (is_padding x)) [
  | inl e ↦ inr (tt, e)
  | inr e ↦ inl (rw e refl)
]
count_while-snoc (y ∷ r) x = elim (Bool-cases (is_padding y)) [
  | inl e ↦ elim (count_while-snoc r x) [
    | inl k ↦ inl (rw (e, k) refl)
    | inr k ↦ inr ((e, k.0), k.1)
  ]
  | inr e ↦ inl (rw e refl)
]

All-split :
    (xs ys : List ArgEncoding) → All IsPadding (xs ++ ys) → All IsPadding xs × All IsPadding ys
All-split [] ys h = (tt, h)
All-split (x ∷ xs) ys h = let split = All-split xs ys h.1 in ((h.0, split.0), split.1)

All-rev : (xs : List ArgEncoding) → All IsPadding (rev xs) → All IsPadding xs
unfolding rev
All-rev [] h = tt
All-rev (x ∷ xs) h = let split = All-split (rev xs) (x ∷ []) h in (split.1.0, All-rev xs split.0)

All-Followed : (xs : List ArgEncoding) → All IsPadding xs → Followed OnlyPadding xs
All-Followed [] h = tt
All-Followed (x ∷ xs) h = (λ _. h.1, All-Followed xs h.1)

count_if-step :
    (x : ArgEncoding) (xs : List ArgEncoding)
    → count_if is_padding (x ∷ xs) ≡ count_while is_padding (rev xs)
    → (is_padding x ≡ false) × (count_if is_padding xs ≡ count_while is_padding (rev xs))
unfolding count_if
count_if-step x xs h = elim (Bool-cases (is_padding x)) [
  | inl e ↦ absurd (ground (arith, count_while-le (rev xs), count_if-rev xs))
  | inr e ↦ (e, ground arith)
]

only_trailing_padding :
    (xs : List ArgEncoding)
    → count_if is_padding xs ≡ count_while is_padding (rev xs)
    → Followed OnlyPadding xs
unfolding rev
only_trailing_padding [] h = tt
only_trailing_padding (x ∷ xs) h = elim (count_while-snoc (rev xs) x) [
  | inl k ↦
      let step = count_if-step x xs (h ∙ k) in
      (λ e. absurd (ground arith), only_trailing_padding xs step.1)
  | inr k ↦ (λ _. All-rev xs k.0, All-Followed xs (All-rev xs k.0))
]

guard-passed :
    (b : Bool) (m : Run {0} Unit) → (if b then err else m) ≡ ok tt → (b ≡ false) × (m ≡ ok tt)
guard-passed true m h = absurd (ground arith)
guard-passed false m h = (refl, h)

-- A signature that passes the validation has at most one jump offset and at most one jump time, the
-- latter only with the former; only its first encoding can be `arg0`; a string in blocks is its last
-- encoding; and only padding follows padding.
pub validate-Shape :
    (encodings : List ArgEncoding)
    → validate encodings ≡ ok tt
    → (count_if is_jump_offset encodings ≤ 1)
      × (count_if is_jump_time encodings ≤ count_if is_jump_offset encodings)
      × All NotArg0 (skip1 encodings)
      × Followed EndsBlock encodings
      × Followed OnlyPadding encodings
unfolding validate
validate-Shape encodings h =
    let o_count = count_if is_jump_offset encodings in
    let t_count = count_if is_jump_time encodings in
    let counts = guard-passed (ltb 1 o_count || ltb 1 t_count) _ h in
    let time = guard-passed (t_count == 1 && o_count == 0) _ counts.1 in
    let arg0 = guard-passed (any is_arg0 (skip1 encodings)) _ time.1 in
    let blocks = guard-passed (any is_block (skip1 (rev encodings))) _ arg0.1 in
    let pads =
      guard-passed (not (count_if is_padding encodings == count_while is_padding (rev encodings))) _
        blocks.1 in
    let few : (ltb 1 o_count || ltb 1 t_count) ≡ false = counts.0 in
    let paired : (t_count == 1 && o_count == 0) ≡ false = time.0 in
    let trailing : not (count_if is_padding encodings == count_while is_padding (rev encodings))
        ≡ false =
      pads.0 in
    (
      ground arith,
      ground arith,
      no_later_arg0 (skip1 encodings) arg0.0,
      no_inner_block encodings blocks.0,
      only_trailing_padding encodings (ground arith),
    )
