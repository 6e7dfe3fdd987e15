-- ===== src/Lower/DiffSwitches.antt =====
-- `elaborate_diff_switches` of src/llir/lower.rs: an instruction with difficulty switches becomes one
-- instruction for each of their explicit cases.
pub mod Final
use truth.Base.{ℕ, Bool, true, false, Option, none, some, List, [], ◌∷◌, ◌++◌, ltb, if◌then◌else◌}
use truth.Base.Run.{Run, ok, panic, ◌>>=◌, expect}
use truth.BitSet.{BitSet32, bitand, bitor, is_empty, into_iter, next}
use truth.DiffSwitch.{
  DiffSwitchVec, DiffSwitchMeta, new_meta, update, select_diff_switch_case, explicit_case_bitmasks,
}
use truth.DiffFlags.{DiffFlagDefs, difficulty_bits, aux_bits}
use truth.Vm.Exec.{TimeAndDifficulty}
use truth.Lower.{
  LowerArg, raw, diff_switch, local, label, time_of, LowerCases, no_cases, missing, present,
  LowerArgs, known, unknown, LowerInstr, LowerStmt,
}

module _ {F : Type 0} where
  unfoldable pub to_vec : LowerCases F → DiffSwitchVec (LowerArg F)
  to_vec no_cases = []
  to_vec (missing cases) = none ∷ to_vec cases
  to_vec (present a cases) = some a ∷ to_vec cases

  -- The first loop: the largest number of cases, and the explicit ones.
  unfoldable pub update_arg : DiffSwitchMeta → LowerArg F → DiffSwitchMeta
  unfolding update to_vec
  update_arg m (diff_switch cases) = update m (to_vec cases)
  update_arg m _ = m

  unfoldable pub update_args : DiffSwitchMeta → List (LowerArg F) → DiffSwitchMeta
  unfolding update_arg
  update_args m [] = m
  update_args m (a ∷ args) = update_args (update_arg m a) args

  unfoldable pub flatten_case : Option (Option (LowerArg F)) → Option (LowerArg F)
  flatten_case none = none
  flatten_case (some a) = a

  -- The selected case of a switch is selected from in turn; here all cases are selected from, and then
  -- one of them is taken. `none` is a panic.
  unfoldable mutual
    unfolding select_diff_switch_case flatten_case

    pub select_diff_for_lower_arg : ℕ → LowerArg F → Option (LowerArg F)
    select_diff_for_lower_arg difficulty (diff_switch cases) =
        flatten_case (select_diff_switch_case (select_each_case difficulty cases) difficulty)
    select_diff_for_lower_arg difficulty (raw a) = some (raw a)
    select_diff_for_lower_arg difficulty (local def storage_ty) = some (local def storage_ty)
    select_diff_for_lower_arg difficulty (label name) = some (label name)
    select_diff_for_lower_arg difficulty (time_of name) = some (time_of name)

    pub select_each_case : ℕ → LowerCases F → DiffSwitchVec (Option (LowerArg F))
    select_each_case difficulty no_cases = []
    select_each_case difficulty (missing cases) = none ∷ select_each_case difficulty cases
    select_each_case difficulty (present a cases) =
        some (select_diff_for_lower_arg difficulty a) ∷ select_each_case difficulty cases

  unfoldable pub select_diff_for_lower_args : ℕ → List (LowerArg F) → Run (List (LowerArg F))
  unfolding select_diff_for_lower_arg
  select_diff_for_lower_args difficulty [] = ok []
  select_diff_for_lower_args difficulty (a ∷ args) =
      expect (select_diff_for_lower_arg difficulty a)
      >>= (λ b. select_diff_for_lower_args difficulty args >>= (λ rest. ok (b ∷ rest)))

  unfoldable pub with_args_and_mask : LowerInstr F → List (LowerArg F) → BitSet32 → LowerStmt F
  with_args_and_mask i new_args new_mask = LowerStmt.instr (record i {
    stmt_data = record { stmt_time = i.stmt_data.stmt_time; difficulty_mask = new_mask };
    args = known new_args;
  })

  -- The loop over the masks of the explicit cases.
  unfoldable pub elaborate_masks :
      LowerInstr F
      → List (LowerArg F)
      → BitSet32
      → BitSet32
      → List BitSet32
      → Run (List (LowerStmt F))
  unfolding bitand bitor is_empty next select_diff_for_lower_args with_args_and_mask
  elaborate_masks i args instr_diff_mask instr_aux_mask [] = ok []
  elaborate_masks i args instr_diff_mask instr_aux_mask (case_diff_mask ∷ masks) =
      let rest = elaborate_masks i args instr_diff_mask instr_aux_mask masks in
      let new_diff_mask = bitand instr_diff_mask case_diff_mask in
      let elaborated =
        expect (next (into_iter case_diff_mask))
        >>= (λ first. select_diff_for_lower_args first.0 args)
        >>= (λ new_args. rest >>= (λ stmts.
            ok (with_args_and_mask i new_args (bitor new_diff_mask instr_aux_mask) ∷ stmts))) in
      if is_empty new_diff_mask then rest else elaborated

  unfoldable pub elaborate_known :
      DiffFlagDefs → LowerInstr F → List (LowerArg F) → Run (List (LowerStmt F))
  unfolding update_args explicit_case_bitmasks elaborate_masks difficulty_bits aux_bits bitand
  elaborate_known defs i args =
      let switch_props = update_args new_meta args in
      let elaborated =
        expect (explicit_case_bitmasks switch_props)
        >>= elaborate_masks i args (bitand i.stmt_data.difficulty_mask (difficulty_bits defs))
            (bitand i.stmt_data.difficulty_mask (aux_bits defs)) in
      if ltb switch_props.num_difficulties 2
      then ok (LowerStmt.instr (record i { args = known args }) ∷ [])
      else elaborated

  unfoldable pub elaborate_args :
      DiffFlagDefs → LowerInstr F → LowerArgs F → Run (List (LowerStmt F))
  unfolding elaborate_known
  elaborate_args defs i (known args) = elaborate_known defs i args
  elaborate_args defs i (unknown blob) =
      ok (LowerStmt.instr (record i { args = unknown blob }) ∷ [])

  unfoldable pub elaborate_stmt : DiffFlagDefs → LowerStmt F → Run (List (LowerStmt F))
  unfolding elaborate_args
  elaborate_stmt defs (LowerStmt.instr i) = elaborate_args defs i i.args
  elaborate_stmt defs stmt = ok (stmt ∷ [])

  unfoldable pub elaborate_diff_switches :
      DiffFlagDefs → List (LowerStmt F) → Run (List (LowerStmt F))
  unfolding elaborate_stmt
  elaborate_diff_switches defs [] = ok []
  elaborate_diff_switches defs (stmt ∷ stmts) =
      elaborate_stmt defs stmt
      >>= (λ first. elaborate_diff_switches defs stmts >>= (λ rest. ok (first ++ rest)))
