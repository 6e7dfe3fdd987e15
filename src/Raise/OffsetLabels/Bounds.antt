-- ===== src/Raise/OffsetLabels/Bounds.antt =====
-- src/llir/raise/early.rs: the indices of `generate_offset_labels` are in range.
use truth.Base.{
  ℕ, zero, suc, ◌+◌, ◌<◌, ◌≡◌, refl, ap, ◌∙◌, arith, Bool, true, false, Option, List, [], ◌∷◌,
  length, ◌==◌, if◌then◌else◌,
}
use truth.Base.Run.{Run, ok, err, panic, out_of_fuel, ◌>>=◌}
use truth.Lower.{Language, RawInstr}
use truth.Raise.{EarlyRaiseInstr}
use truth.Raise.OffsetLabels.{
  element, search_offset, dest_time, prev_instr, label_of_offset, generate_offset_labels,
  offsets_from, gather_instr_offsets,
}

-- A value for which `P` holds, or an error that is reported: neither a panic nor exhausted fuel.
abbrev pub NoPanic {ℓ} : {A : Type ℓ} → (A → Type 0) → Run A → Type 0
NoPanic P (ok a) = P a
NoPanic P err = Unit
NoPanic P panic = ⊥
NoPanic P out_of_fuel = ⊥

NoPanic-bind {ℓ κ} :
    {A : Type ℓ} {B : Type κ} (Q : A → Type 0) (P : B → Type 0) (m : Run A) (f : A → Run B)
    → NoPanic Q m
    → ((a : A) → Q a → NoPanic P (f a))
    → NoPanic P (m >>= f)
NoPanic-bind Q P (ok a) f h k = k a h
NoPanic-bind Q P err f h k = tt
NoPanic-bind Q P panic f h k = absurd h
NoPanic-bind Q P out_of_fuel f h k = absurd h

-- No condition on the value.
abbrev pub Any {ℓ} : {A : Type ℓ} → A → Type 0
Any _ = Unit

element-NoPanic {ℓ} :
    {A : Type ℓ} (xs : List A) (i : ℕ) → i < length xs → NoPanic Any (element xs i)
unfolding element
element-NoPanic [] i h = absurd (omega arith)
element-NoPanic (x ∷ xs) zero h = tt
element-NoPanic (x ∷ xs) (suc i) h = element-NoPanic xs i (omega arith)

found-NoPanic :
    (found : Bool) (n : ℕ) (rest : Run ℕ)
    → NoPanic (λ i. i < suc n) rest
    → NoPanic (λ i. i < suc n) (if found then ok 0 else rest)
found-NoPanic true n rest h = omega arith
found-NoPanic false n rest h = h

search_offset-NoPanic :
    (xs : List ℕ) (offset : ℕ) → NoPanic (λ i. i < length xs) (search_offset xs offset)
unfolding search_offset
search_offset-NoPanic [] offset = tt
search_offset-NoPanic (x ∷ xs) offset =
    let later =
      NoPanic-bind (λ i. i < length xs) (λ i. i < suc (length xs)) (search_offset xs offset)
        (λ i. ok (suc i)) (search_offset-NoPanic xs offset) (λ i h. omega arith) in
    found-NoPanic (x == offset) (length xs) (search_offset xs offset >>= (λ i. ok (suc i))) later

dest_time-NoPanic :
    {F : Type 0} (script : List (EarlyRaiseInstr F)) (i : ℕ)
    → zero < length script
    → NoPanic Any (dest_time script i)
unfolding dest_time
dest_time-NoPanic [] i h = absurd (omega arith)
dest_time-NoPanic (instr ∷ []) i h = tt
dest_time-NoPanic (instr ∷ next ∷ script) zero h = tt
dest_time-NoPanic (instr ∷ next ∷ script) (suc i) h =
    dest_time-NoPanic (next ∷ script) i (omega arith)

prev_instr-NoPanic :
    {F : Type 0} (script : List (EarlyRaiseInstr F)) (offsets : List ℕ) (i : ℕ)
    → length offsets ≡ suc (length script)
    → i < length offsets
    → NoPanic Any (prev_instr script offsets i)
unfolding prev_instr
prev_instr-NoPanic script offsets zero e h = tt
prev_instr-NoPanic script offsets (suc i) e h =
    NoPanic-bind Any Any (element offsets i)
      (λ offset. element script i >>= (λ instr. ok (offset, instr.time)))
      (element-NoPanic offsets i (omega arith))
      (λ offset _.
        NoPanic-bind Any Any (element script i) (λ instr. ok (offset, instr.time))
          (element-NoPanic script i (omega arith)) (λ instr _. tt))

label_of_offset-NoPanic :
    {F : Type 0} (script : List (EarlyRaiseInstr F)) (offsets : List ℕ) (offset : ℕ)
    (time_args : List (Option ℕ))
    → zero < length script
    → length offsets ≡ suc (length script)
    → NoPanic Any (label_of_offset script offsets offset time_args)
unfolding label_of_offset
label_of_offset-NoPanic script offsets offset time_args p e =
    NoPanic-bind (λ i. i < length offsets) Any (search_offset offsets offset) _
      (search_offset-NoPanic offsets offset)
      (λ i h. NoPanic-bind Any Any (dest_time script i) _ (dest_time-NoPanic script i p) (λ time _.
        NoPanic-bind Any Any (element offsets i) _ (element-NoPanic offsets i h) (λ next _.
          NoPanic-bind Any Any (prev_instr script offsets i) _
            (prev_instr-NoPanic script offsets i e h) (λ prev _. tt))))

labels-NoPanic :
    {F : Type 0} (script : List (EarlyRaiseInstr F)) (offsets : List ℕ)
    (jumps : List (ℕ × List (Option ℕ)))
    → zero < length script
    → length offsets ≡ suc (length script)
    → NoPanic Any (generate_offset_labels script offsets jumps)
unfolding generate_offset_labels
labels-NoPanic script offsets [] p e = tt
labels-NoPanic script offsets (jump ∷ jumps) p e =
    NoPanic-bind Any Any (label_of_offset script offsets jump.0 jump.1) _
      (label_of_offset-NoPanic script offsets jump.0 jump.1 p e)
      (λ label _.
        NoPanic-bind Any Any (generate_offset_labels script offsets jumps) _
          (labels-NoPanic script offsets jumps p e) (λ labels _. tt))

length-offsets_from :
    {F : Type 0} (lang : Language F) (offset : ℕ) (script : List RawInstr)
    → length (offsets_from lang offset script) ≡ length script
unfolding offsets_from
length-offsets_from lang offset [] = refl
length-offsets_from lang offset (instr ∷ script) =
    ap suc
      (length-offsets_from lang (offset + (lang.instr_header_size + length instr.args_blob)) script)

-- For a script with an instruction, as many decoded instructions as raw ones and any jumps, the labels
-- are generated with the offsets that are gathered from it, or a bad jump offset is reported: there is
-- no panic.
pub generate_offset_labels-NoPanic :
    {F : Type 0} (lang : Language F) (raw : List RawInstr) (script : List (EarlyRaiseInstr F))
    (jumps : List (ℕ × List (Option ℕ)))
    → zero < length script
    → length raw ≡ length script
    → NoPanic Any (generate_offset_labels script (gather_instr_offsets lang raw) jumps)
unfolding gather_instr_offsets
generate_offset_labels-NoPanic lang raw script jumps p e =
    labels-NoPanic script (gather_instr_offsets lang raw) jumps p
      (ap suc (length-offsets_from lang 0 raw ∙ e))
