-- ===== src/Lower/Labels/Versions.antt =====
-- The two encodings of an instruction, with placeholders and with the numbers of its labels.
use truth.Base.{ℕ, ◌≡◌, refl, ap₂, arith, Bool, true, false, Option, none, some, List, [], ◌∷◌, All}
use truth.Base.Run.{ok, Ensures, Ensures-bind, Ensures-weaken, Both, Both-refl}
use truth.Base.Assoc.{Assoc, get}
use truth.Value.{ScalarValue}
use truth.Lower.{
  LowerArg, raw, diff_switch, local, label, time_of, LowerArgs, known, unknown, LowerInstr,
  LowerStmt, Language, immediate,
}
use truth.Lower.Encode.{ArgEncodingState, encode_args}
use truth.Lower.Labels.{
  RawLabelInfo, substitute_dummy_arg, substitute_each, substitute_args, encode_offset, encode_time,
  encode_label_arg, encode_label_args, encode_instr_labels,
}
use truth.Lower.Labels.SameSize.{
  Slot, same, numbers, first_arg, second_arg, first_args, second_args, SameInstr, encode_args-same,
}

module _ {F : Type 0} where
  -- An argument that needs no register any more, and no choice of a difficulty.
  unfoldable pub is_final : LowerArg F → Bool
  is_final (raw _) = true
  is_final (label _) = true
  is_final (time_of _) = true
  is_final (local _ _) = false
  is_final (diff_switch _) = false

  abbrev pub FinalArgs : LowerArgs F → Type 0
  FinalArgs (known args) = All (λ a. is_final a ≡ true) args
  FinalArgs (unknown blob) = Unit

  abbrev pub FinalStmt : LowerStmt F → Type 0
  FinalStmt (LowerStmt.instr i) = FinalArgs i.args
  FinalStmt _ = Unit

module _ {F : Type 0} (lang : Language F) where
  -- Both versions of an argument.
  abbrev Versions : LowerArg F → LowerArg F → Type 0
  Versions a b =
      (slot : Slot F) × ((substitute_dummy_arg lang a ≡ ok (raw (first_arg slot)))
        × (b ≡ raw (second_arg slot)))

  encode_offset-number :
      (cur : ℕ) (info : Option RawLabelInfo)
      → Ensures
          (λ b. (x : ℕ) × (b ≡ raw (immediate (ScalarValue.int x))))
          (encode_offset lang cur info)
  unfolding encode_offset
  encode_offset-number cur none = tt
  encode_offset-number cur (some info) = (_, refl)

  encode_time-number :
      (info : Option RawLabelInfo)
      → Ensures (λ b. (x : ℕ) × (b ≡ raw (immediate (ScalarValue.int x)))) (encode_time lang info)
  unfolding encode_time
  encode_time-number none = tt
  encode_time-number (some info) = (_, refl)

  encode_label_arg-Versions :
      (labels : Assoc RawLabelInfo) (cur : ℕ) (a : LowerArg F)
      → is_final a ≡ true
      → Ensures (Versions a) (encode_label_arg lang labels cur a)
  unfolding encode_label_arg substitute_dummy_arg first_arg second_arg is_final
  encode_label_arg-Versions labels cur (raw a) h = (same a, (refl, refl))
  encode_label_arg-Versions labels cur (label name) h =
      Ensures-weaken _ (Versions (label name)) (encode_offset lang cur (get name labels))
        (λ b q. (numbers 0 q.0, (refl, q.1))) (encode_offset-number cur (get name labels))
  encode_label_arg-Versions labels cur (time_of name) h =
      Ensures-weaken _ (Versions (time_of name)) (encode_time lang (get name labels))
        (λ b q. (numbers 0 q.0, (refl, q.1))) (encode_time-number (get name labels))
  encode_label_arg-Versions labels cur (local _ _) h = absurd (ground arith)
  encode_label_arg-Versions labels cur (diff_switch _) h = absurd (ground arith)

  abbrev AllVersions : List (LowerArg F) → List (LowerArg F) → Type 0
  AllVersions args encoded =
      (slots : List (Slot F)) × ((substitute_each lang args ≡ ok (first_args slots))
        × (encoded ≡ second_args slots))

  encode_label_args-AllVersions :
      (labels : Assoc RawLabelInfo) (cur : ℕ) (args : List (LowerArg F))
      → All (λ a. is_final a ≡ true) args
      → Ensures (AllVersions args) (encode_label_args lang labels cur args)
  unfolding encode_label_args substitute_each
  encode_label_args-AllVersions labels cur [] h = ([], (refl, refl))
  encode_label_args-AllVersions labels cur (a ∷ args) h =
      Ensures-bind (Versions a) (AllVersions (a ∷ args)) (encode_label_arg lang labels cur a) _
        (encode_label_arg-Versions labels cur a h.0)
        (λ b v.
          Ensures-bind (AllVersions args) (AllVersions (a ∷ args))
            (encode_label_args lang labels cur args) _
            (encode_label_args-AllVersions labels cur args h.1)
            (λ rest w. (v.0 ∷ w.0, (rw (v.1.0, w.1.0) refl, ap₂ (λ x xs. x ∷ xs) v.1.1 w.1.1))))

  -- Both encodings of an instruction end in the same way.
  abbrev pub BothEncode : ArgEncodingState → LowerInstr F → LowerArgs F → LowerArgs F → Type 0
  BothEncode state i dummies args =
      Both (SameInstr lang) (encode_args lang state (record i { args = dummies }))
        (encode_args lang state (record i { args = args }))

  pub instr_versions :
      (state : ArgEncodingState) (i : LowerInstr F) (labels : Assoc RawLabelInfo) (cur : ℕ)
      (args : LowerArgs F)
      → FinalArgs args
      → Ensures
          (λ encoded.
            (dummies : LowerArgs F) × ((substitute_args lang args ≡ ok dummies)
              × BothEncode state i dummies encoded))
          (encode_instr_labels lang labels cur args)
  unfolding encode_instr_labels substitute_args
  instr_versions state i labels cur (unknown blob) h = (
    unknown blob,
    (
      refl,
      Both-refl _ (encode_args lang state (record i { args = unknown blob })) (λ r. (refl, refl)),
    ),
  )
  instr_versions state i labels cur (known args) h =
      Ensures-bind (AllVersions args) _ (encode_label_args lang labels cur args) _
        (encode_label_args-AllVersions labels cur args h)
        (λ rest v. (
          known (first_args v.0),
          (rw (v.1.0) refl, rw (v.1.1) (encode_args-same lang state i v.0)),
        ))
