-- ===== src/Lower/Tests.antt =====
-- A sub with a label, a jump to it and a difficulty switch, through the last steps of the lowering.
use truth.Base.{ℕ, ◌≡◌, refl, false, none, some, List, [], ◌∷◌, get_elem?, All}
use truth.Base.Run.{ok, Ensures}
use truth.Base.Assoc
use truth.Value.{ScalarValue}
use truth.Abi.{ArgEncoding}
use truth.DiffFlags.Naming.{digit_flags}
use truth.Lower.{
  Language, LowerArg, raw, label, time_of, diff_switch, present, missing, no_cases, LowerInstr,
  known, LowerStmt, immediate, RawInstr,
}
use truth.Lower.DiffSwitches.{elaborate_diff_switches}
use truth.Lower.DiffSwitches.Final.{AssignedStmt, elaborate_diff_switches-Final}
use truth.Lower.Labels.{
  LabelInfoverse, RawLabelInfo, gather_label_info, encode_labels, emit_from, instr_size,
}
use truth.Lower.Labels.Versions.{FinalStmt}
use truth.Lower.Labels.Layout.{layout, emit_from-layout}
use truth.Lower.Labels.Positions.{gather_label_info-Placed}

abbrev language : Language (Unit {0})
language = record {
  has_registers = false;
  instr_header_size = 8;
  encode_label = λ cur dest. dest;
  ins_abi =
      λ opcode. some (ArgEncoding.jump_offset ∷ ArgEncoding.jump_time ∷ ArgEncoding.color ∷ []);
  value_is_reg = none;
  strings = record { encode_text = λ s. some s; decode_bytes = λ bytes. some bytes };
  to_bits = λ x. 0;
  from_bits = λ bits. tt;
}

abbrev number : ℕ → LowerArg (Unit {0})
number x = raw (record { value = ScalarValue.int x; is_reg = false })

abbrev jump_with : LowerArg (Unit {0}) → ℕ → LowerStmt (Unit {0})
jump_with color mask = LowerStmt.instr (record {
  stmt_data = record { stmt_time = 10; difficulty_mask = mask };
  opcode = 3;
  explicit_extra_arg = none;
  user_param_mask = none;
  args = known (label 77 ∷ time_of 77 ∷ color ∷ []);
})

-- The color is 1 on the first two difficulties and 2 on the third.
abbrev switched : List (LowerStmt (Unit {0}))
switched =
    LowerStmt.label 5 78
    ∷ jump_with (diff_switch (present (number 1) (missing (present (number 2) no_cases)))) 0xff
    ∷ LowerStmt.label 5 77
    ∷ []

abbrev elaborated : List (LowerStmt (Unit {0}))
elaborated =
    LowerStmt.label 5 78
    ∷ jump_with (number 1) 0b11
    ∷ jump_with (number 2) 0b100
    ∷ LowerStmt.label 5 77
    ∷ []

elaborate_test : elaborate_diff_switches digit_flags switched ≡ ok elaborated
unfolding elaborate_diff_switches truth.BitSet.collect truth.BitSet.trailing_zeros
    truth.BitSet.low_zeros truth.BitSet.insert truth.BitSet.complement truth.BitSet.from_iter
elaborate_test = refl

switched-Assigned : All AssignedStmt switched
unfolding truth.Lower.DiffSwitches.Final.is_assigned
switched-Assigned = (tt, ((refl, (refl, (refl, tt))), (tt, tt)))

elaborate_diff_switches-Final_example :
    Ensures (λ out. All FinalStmt out) (elaborate_diff_switches digit_flags switched)
elaborate_diff_switches-Final_example =
    elaborate_diff_switches-Final digit_flags switched switched-Assigned

-- Each instruction takes 20 bytes.
abbrev label_info : LabelInfoverse
label_info = record {
  stmt_offsets = 0 ∷ 0 ∷ 20 ∷ 40 ∷ [];
  labels = (78, record { time = 5; offset = 0 }) ∷ (77, record { time = 5; offset = 40 }) ∷ [];
}

gather_test : gather_label_info language 0 elaborated ≡ ok label_info
unfolding gather_label_info
gather_test = refl

abbrev encoded_with : ℕ → ℕ → LowerStmt (Unit {0})
encoded_with color mask = LowerStmt.instr (record {
  stmt_data = record { stmt_time = 10; difficulty_mask = mask };
  opcode = 3;
  explicit_extra_arg = none;
  user_param_mask = none;
  args = known (number 40 ∷ number 5 ∷ number color ∷ []);
})

abbrev encoded : List (LowerStmt (Unit {0}))
encoded =
    LowerStmt.label 5 78 ∷ encoded_with 1 0b11 ∷ encoded_with 2 0b100 ∷ LowerStmt.label 5 77 ∷ []

encode_labels_test : encode_labels language label_info elaborated ≡ ok encoded
unfolding encode_labels
encode_labels_test = refl

elaborated-Final : All FinalStmt elaborated
unfolding truth.Lower.Labels.Versions.is_final
elaborated-Final = (tt, ((refl, (refl, (refl, tt))), ((refl, (refl, (refl, tt))), (tt, tt))))

emit_from-layout_example :
    (instrs : List RawInstr) × ((emit_from language none encoded ≡ ok instrs)
      × (layout language 0 encoded instrs ≡ label_info.stmt_offsets))
emit_from-layout_example =
    emit_from-layout language elaborated encoded 0 label_info elaborated-Final gather_test
      encode_labels_test

gather_label_info-Placed_example :
    (offset : ℕ) × ((Assoc.get 77 label_info.labels ≡ some (record { time = 5; offset = offset }))
      × (get_elem? label_info.stmt_offsets 3 ≡ some offset))
gather_label_info-Placed_example =
    gather_label_info-Placed language elaborated 0 3 label_info 5 77 gather_test refl
