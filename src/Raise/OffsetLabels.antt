-- ===== src/Raise/OffsetLabels.antt =====
-- src/llir/raise/early.rs: the labels of the offsets that jumps go to. A time is the bit pattern of
-- an `i32`; a set of times is a sorted list.
pub mod Bounds
use truth.Base.{
  ℕ, zero, suc, ◌+◌, ◌%◌, ◌^◌, ◌≡◌, refl, sym, ap, subst, ◌∙◌, arith, Bool, true, false, Option,
  none, some, List, [], ◌∷◌, length, All, ltb, ◌==◌, if◌then◌else◌, Bool-cases, inl, inr, ◌⊎◌,
}
use truth.Base.Run.{Run, ok, err, panic, ◌>>=◌}
use truth.Lower.{Language, RawInstr}
use truth.Raise.{EarlyRaiseInstr}

-- The two texts of a label: `label_{offset}` and `label_{offset}r`.
pub data LabelName : Type 0 where
  label_at : ℕ → LabelName
  label_after : ℕ → LabelName

pub record Label : Type 0 where
  pub time_label : ℕ
  pub label : LabelName

-- `i32` `<` on bit patterns.
unfoldable pub time_lt : ℕ → ℕ → Bool
time_lt a b = ltb ((a + 2 ^ 31) % 2 ^ 32) ((b + 2 ^ 31) % 2 ^ 32)

-- `BTreeSet::insert`
unfoldable pub insert_time : ℕ → List ℕ → List ℕ
unfolding time_lt
insert_time t [] = t ∷ []
insert_time t (u ∷ us) =
    let rest = insert_time t us in
    if t == u then u ∷ us else (if time_lt t u then t ∷ u ∷ us else u ∷ rest)

-- `x.unwrap_or(next_time)`
unfoldable pub jump_time : ℕ → Option ℕ → ℕ
jump_time next_time none = next_time
jump_time next_time (some t) = t

unfoldable pub collect_times : ℕ → List (Option ℕ) → List ℕ
unfolding insert_time jump_time
collect_times next_time [] = []
collect_times next_time (x ∷ xs) = insert_time (jump_time next_time x) (collect_times next_time xs)

-- The set has one time, and that is `t`.
unfoldable pub is_only : ℕ → List ℕ → Bool
is_only t (u ∷ []) = u == t
is_only t [] = false
is_only t (_ ∷ _ ∷ _) = false

unfoldable pub generate_label_at_offset : ℕ × ℕ → ℕ × ℕ → List (Option ℕ) → Label
unfolding collect_times is_only time_lt
generate_label_at_offset prev next time_args =
    if time_lt prev.1 next.1
    then (if is_only prev.1 (collect_times next.1 time_args)
        then record { label = label_after prev.0; time_label = prev.1 }
        else record { label = label_at next.0; time_label = next.1 })
    else record { label = label_at next.0; time_label = next.1 }

unfoldable pub element {ℓ} : {A : Type ℓ} → List A → ℕ → Run A
element [] i = panic
element (x ∷ xs) zero = ok x
element (x ∷ xs) (suc i) = element xs i

-- `instr_offsets.binary_search(&offset)`: the offsets go up, so that one element at most is equal.
unfoldable pub search_offset : List ℕ → ℕ → Run ℕ
search_offset [] offset = err
search_offset (x ∷ xs) offset =
    let rest = search_offset xs offset >>= (λ i. ok (suc i)) in if x == offset then ok 0 else rest

-- The time of the instruction at the index, or that of the last one.
unfoldable pub dest_time : {F : Type 0} → List (EarlyRaiseInstr F) → ℕ → Run ℕ
dest_time [] dest_index = panic
dest_time (instr ∷ []) dest_index = ok instr.time
dest_time (instr ∷ _ ∷ _) zero = ok instr.time
dest_time (_ ∷ next ∷ script) (suc dest_index) = dest_time (next ∷ script) dest_index

unfoldable pub prev_instr : {F : Type 0} → List (EarlyRaiseInstr F) → List ℕ → ℕ → Run (ℕ × ℕ)
unfolding element
prev_instr script instr_offsets zero = ok (0, 0)
prev_instr script instr_offsets (suc i) =
    element instr_offsets i >>= (λ offset. element script i >>= (λ instr. ok (offset, instr.time)))

unfoldable pub label_of_offset :
    {F : Type 0} → List (EarlyRaiseInstr F) → List ℕ → ℕ → List (Option ℕ) → Run Label
unfolding search_offset dest_time prev_instr generate_label_at_offset
label_of_offset script instr_offsets offset time_args =
    search_offset instr_offsets offset >>= (λ dest_index. dest_time script dest_index >>= (λ time.
      element instr_offsets dest_index >>= (λ next_offset.
        prev_instr script instr_offsets dest_index
        >>= (λ prev. ok (generate_label_at_offset prev (next_offset, time) time_args)))))

-- Jumps and labels by their offsets, in the order of the offsets.
unfoldable pub generate_offset_labels :
    {F : Type 0}
    → List (EarlyRaiseInstr F)
    → List ℕ
    → List (ℕ × List (Option ℕ))
    → Run (List (ℕ × Label))
unfolding label_of_offset
generate_offset_labels script instr_offsets [] = ok []
generate_offset_labels script instr_offsets (jump ∷ jumps) =
    label_of_offset script instr_offsets jump.0 jump.1 >>= (λ label.
      generate_offset_labels script instr_offsets jumps
      >>= (λ labels. ok ((jump.0, label) ∷ labels)))

unfoldable pub offsets_from : {F : Type 0} → Language F → ℕ → List RawInstr → List ℕ
offsets_from lang offset [] = []
offsets_from lang offset (instr ∷ script) =
    let next = offset + (lang.instr_header_size + length instr.args_blob) in
    next ∷ offsets_from lang next script

unfoldable pub gather_instr_offsets : {F : Type 0} → Language F → List RawInstr → List ℕ
unfolding offsets_from
gather_instr_offsets lang script = 0 ∷ offsets_from lang 0 script

All-inserted :
    (P : ℕ → Type 0) (t u : ℕ) (us rest : List ℕ) (same less : Bool)
    → (same ≡ true → t ≡ u)
    → (All P rest → P t × All P us)
    → All P (if same then u ∷ us else (if less then t ∷ u ∷ us else u ∷ rest))
    → P t × All P (u ∷ us)
All-inserted P t u us rest true less e f h = (subst P (sym (e refl)) h.0, h)
All-inserted P t u us rest false true e f h = h
All-inserted P t u us rest false false e f h = let r = f h.1 in (r.0, (h.0, r.1))

All-insert_time : (P : ℕ → Type 0) (t : ℕ) (us : List ℕ) → All P (insert_time t us) → P t × All P us
unfolding insert_time
All-insert_time P t [] h = (h.0, tt)
All-insert_time P t (u ∷ us) h =
    All-inserted P t u us (insert_time t us) (t == u) (time_lt t u) (λ e. ground arith)
      (All-insert_time P t us) h

All-collect_times :
    (P : ℕ → Type 0) (next_time : ℕ) (xs : List (Option ℕ))
    → All P (collect_times next_time xs)
    → All (λ x. P (jump_time next_time x)) xs
unfolding collect_times
All-collect_times P next_time [] h = tt
All-collect_times P next_time (x ∷ xs) h =
    let parts = All-insert_time P (jump_time next_time x) (collect_times next_time xs) h in
    (parts.0, All-collect_times P next_time xs parts.1)

is_only-All : (t : ℕ) (us : List ℕ) → is_only t us ≡ true → All (λ u. u ≡ t) us
unfolding is_only
is_only-All t [] e = tt
is_only-All t (u ∷ []) e = (ground arith, tt)
is_only-All t (u ∷ v ∷ us) e = absurd (ground arith)

-- The plain label, or the one after the instruction before.
abbrev pub Labels : ℕ × ℕ → ℕ × ℕ → List (Option ℕ) → Label → Type 0
Labels prev next time_args l =
    (l ≡ record { label = label_at next.0; time_label = next.1 })
    ⊎ ((l ≡ record { label = label_after prev.0; time_label = prev.1 })
        × ((time_lt prev.1 next.1 ≡ true) × All (λ x. jump_time next.1 x ≡ l.time_label) time_args))

-- The label that is generated is the plain one, with the offset and the time of the instruction that
-- it stands before; or it is named after the offset of the previous instruction and has its time, time
-- goes up between the two, and every jump to it has the time of the label.
pub generate_label_at_offset-Labels :
    (prev next : ℕ × ℕ) (time_args : List (Option ℕ))
    → Labels prev next time_args (generate_label_at_offset prev next time_args)
unfolding generate_label_at_offset
generate_label_at_offset-Labels prev next time_args = elim (Bool-cases (time_lt prev.1 next.1)) [
  | inr f ↦ inl (rw f refl)
  | inl t ↦ elim (Bool-cases (is_only prev.1 (collect_times next.1 time_args))) [
    | inr f ↦ inl (rw (t, f) refl)
    | inl o ↦
        let times =
          All-collect_times (λ u. u ≡ prev.1) next.1 time_args
            (is_only-All prev.1 (collect_times next.1 time_args) o) in
        rw (t, o) (inr (refl, (refl, times)))
  ]
]
