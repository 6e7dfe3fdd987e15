-- ===== src/Lower/DiffSwitches/Final.antt =====
-- No difficulty switch is left after the elaboration.
use truth.Base.{
  ℕ, ◌≤◌, ◌≡◌, refl, arith, Bool, true, false, ◌&&◌, Option, none, some, List, [], ◌∷◌, length, ltb,
  All, All-append, Bool-cases, inl, inr,
}
use truth.Base.Run.{◌>>=◌, expect, Ensures, Ensures-bind, Ensures-self, Ensures-weaken}
use truth.BitSet.{BitSet32, bitand, is_empty, into_iter, next}
use truth.DiffSwitch.{
  DiffSwitchVec, DiffSwitchMeta, new_meta, update, select_diff_switch_case, explicit_case_bitmasks,
}
use truth.DiffSwitch.Related.{RelatedCases, select_diff_switch_case-Related}
use truth.DiffFlags.{DiffFlagDefs, difficulty_bits, aux_bits}
use truth.Lower.{
  LowerArg, raw, diff_switch, local, label, time_of, LowerCases, no_cases, missing, present,
  LowerArgs, known, unknown, LowerInstr, LowerStmt,
}
use truth.Lower.Labels.Versions.{is_final, FinalStmt}
use truth.Lower.DiffSwitches.{
  to_vec, update_arg, update_args, flatten_case, select_diff_for_lower_arg, select_each_case,
  select_diff_for_lower_args, with_args_and_mask, elaborate_masks, elaborate_known, elaborate_args,
  elaborate_stmt, elaborate_diff_switches,
}

both : (a b : Bool) → (a && b) ≡ true → (a ≡ true) × (b ≡ true)
both a b h = ground arith

module _ {F : Type 0} where
  -- Every local has its register, and every switch has at least two cases.
  unfoldable mutual
    unfolding to_vec

    pub is_assigned : LowerArg F → Bool
    is_assigned (raw _) = true
    is_assigned (label _) = true
    is_assigned (time_of _) = true
    is_assigned (local _ _) = false
    is_assigned (diff_switch cases) = ltb 1 (length (to_vec cases)) && all_assigned cases

    pub all_assigned : LowerCases F → Bool
    all_assigned no_cases = true
    all_assigned (missing cases) = all_assigned cases
    all_assigned (present a cases) = is_assigned a && all_assigned cases

  abbrev pub AssignedArgs : LowerArgs F → Type 0
  AssignedArgs (known args) = All (λ a. is_assigned a ≡ true) args
  AssignedArgs (unknown blob) = Unit

  abbrev pub AssignedStmt : LowerStmt F → Type 0
  AssignedStmt (LowerStmt.instr i) = AssignedArgs i.args
  AssignedStmt _ = Unit

  abbrev FinalIfAny : Option (LowerArg F) → Type 0
  FinalIfAny none = Unit
  FinalIfAny (some a) = is_final a ≡ true

  flatten_case-Final :
      (x : Option (Option (LowerArg F)))
      → truth.DiffSwitch.Related.Related? (λ a b. FinalIfAny a) x x
      → FinalIfAny (flatten_case x)
  unfolding flatten_case
  flatten_case-Final none h = tt
  flatten_case-Final (some a) h = h

  mutual
    unfolding select_diff_for_lower_arg is_assigned is_final

    select_arg-Final :
        (d : ℕ) (a : LowerArg F) → is_assigned a ≡ true → FinalIfAny (select_diff_for_lower_arg d a)
    select_arg-Final d (raw a) h = refl
    select_arg-Final d (label name) h = refl
    select_arg-Final d (time_of name) h = refl
    select_arg-Final d (local def ty) h = absurd (ground arith)
    select_arg-Final d (diff_switch cases) h =
        flatten_case-Final (select_diff_switch_case (select_each_case d cases) d) (
          select_diff_switch_case-Related (λ a b. FinalIfAny a) (select_each_case d cases)
            (select_each_case d cases) d
            (select_cases-Final d cases
              (both (ltb 1 (length (to_vec cases))) (all_assigned cases) h).1))

    select_cases-Final :
        (d : ℕ) (cases : LowerCases F)
        → all_assigned cases ≡ true
        → RelatedCases (λ a b. FinalIfAny a) (select_each_case d cases) (select_each_case d cases)
    select_cases-Final d no_cases h = tt
    select_cases-Final d (missing cases) h = (tt, select_cases-Final d cases h)
    select_cases-Final d (present a cases) h =
        let parts = both (is_assigned a) (all_assigned cases) h in
        (select_arg-Final d a parts.0, select_cases-Final d cases parts.1)

  expect-Final :
      (x : Option (LowerArg F)) → FinalIfAny x → Ensures (λ b. is_final b ≡ true) (expect x)
  expect-Final none h = tt
  expect-Final (some a) h = h

  select_args-Final :
      (d : ℕ) (args : List (LowerArg F))
      → All (λ a. is_assigned a ≡ true) args
      → Ensures (λ new. All (λ a. is_final a ≡ true) new) (select_diff_for_lower_args d args)
  unfolding select_diff_for_lower_args
  select_args-Final d [] h = tt
  select_args-Final d (a ∷ args) h =
      Ensures-bind (λ b. is_final b ≡ true) _ (expect (select_diff_for_lower_arg d a)) _
        (expect-Final (select_diff_for_lower_arg d a) (select_arg-Final d a h.0))
        (λ b k.
          Ensures-bind (λ new. All (λ a. is_final a ≡ true) new) _
            (select_diff_for_lower_args d args) _ (select_args-Final d args h.1) (λ rest r. (k, r)))

  elaborate_masks-Final :
      (i : LowerInstr F) (args : List (LowerArg F)) (diff aux : BitSet32) (masks : List BitSet32)
      → All (λ a. is_assigned a ≡ true) args
      → Ensures (λ stmts. All FinalStmt stmts) (elaborate_masks i args diff aux masks)
  unfolding elaborate_masks with_args_and_mask
  elaborate_masks-Final i args diff aux [] h = tt
  elaborate_masks-Final i args diff aux (m ∷ masks) h =
      elim (Bool-cases (is_empty (bitand diff m))) [
        | inl e ↦ rw e (elaborate_masks-Final i args diff aux masks h)
        | inr e ↦ rw e (
            Ensures-bind (λ new. All (λ a. is_final a ≡ true) new) _
              (expect (next (into_iter m)) >>= (λ first. select_diff_for_lower_args first.0 args)) _
              (Ensures-bind (λ _. Unit {0}) _ (expect (next (into_iter m))) _
                (Ensures-weaken _ _ (expect (next (into_iter m))) (λ _ _. tt) (Ensures-self _))
                (λ first _. select_args-Final first.0 args h))
              (λ new k.
                Ensures-bind (λ stmts. All FinalStmt stmts) _
                  (elaborate_masks i args diff aux masks) _
                  (elaborate_masks-Final i args diff aux masks h) (λ stmts r. (k, r))))
      ]

  update_args-le :
      (m : DiffSwitchMeta) (args : List (LowerArg F))
      → m.num_difficulties ≤ (update_args m args).num_difficulties
  unfolding update_args update_arg update
  update_args-le m [] = omega arith
  update_args-le m (raw a ∷ args) = update_args-le m args
  update_args-le m (label _ ∷ args) = update_args-le m args
  update_args-le m (time_of _ ∷ args) = update_args-le m args
  update_args-le m (local _ _ ∷ args) = update_args-le m args
  update_args-le m (diff_switch cases ∷ args) =
      omega (arith, update_args-le (update_arg m (diff_switch cases)) args)

  -- Without two difficulties there is no switch.
  no_switch-Final :
      (m : DiffSwitchMeta) (args : List (LowerArg F))
      → ltb (update_args m args).num_difficulties 2 ≡ true
      → All (λ a. is_assigned a ≡ true) args
      → All (λ a. is_final a ≡ true) args
  unfolding update_args update_arg update is_assigned is_final
  no_switch-Final m [] h k = tt
  no_switch-Final m (raw a ∷ args) h k = (refl, no_switch-Final m args h k.1)
  no_switch-Final m (label _ ∷ args) h k = (refl, no_switch-Final m args h k.1)
  no_switch-Final m (time_of _ ∷ args) h k = (refl, no_switch-Final m args h k.1)
  no_switch-Final m (local _ _ ∷ args) h k = absurd (let no = k.0 in ground arith)
  no_switch-Final m (diff_switch cases ∷ args) h k =
      let two = (both (ltb 1 (length (to_vec cases))) (all_assigned cases) k.0).0 in
      let grows = update_args-le (update m (to_vec cases)) args in absurd (ground arith)

  elaborate_args-Final :
      (defs : DiffFlagDefs) (i : LowerInstr F) (args : LowerArgs F)
      → AssignedArgs args
      → Ensures (λ stmts. All FinalStmt stmts) (elaborate_args defs i args)
  unfolding elaborate_args elaborate_known
  elaborate_args-Final defs i (unknown blob) h = (tt, tt)
  elaborate_args-Final defs i (known args) h =
      elim (Bool-cases (ltb (update_args new_meta args).num_difficulties 2)) [
        | inl e ↦ rw e (no_switch-Final new_meta args e h, tt)
        | inr e ↦
            let masks = expect (explicit_case_bitmasks (update_args new_meta args)) in
            rw e (
              Ensures-bind (λ _. Unit {0}) _ masks _
                (Ensures-weaken _ _ masks (λ _ _. tt) (Ensures-self masks))
                (λ ms _.
                  elaborate_masks-Final i args
                    (bitand i.stmt_data.difficulty_mask (difficulty_bits defs))
                    (bitand i.stmt_data.difficulty_mask (aux_bits defs)) ms h))
      ]

  elaborate_stmt-Final :
      (defs : DiffFlagDefs) (stmt : LowerStmt F)
      → AssignedStmt stmt
      → Ensures (λ stmts. All FinalStmt stmts) (elaborate_stmt defs stmt)
  unfolding elaborate_stmt
  elaborate_stmt-Final defs (LowerStmt.instr i) h = elaborate_args-Final defs i i.args h
  elaborate_stmt-Final defs (LowerStmt.label _ _) h = (tt, tt)
  elaborate_stmt-Final defs (LowerStmt.reg_alloc _) h = (tt, tt)
  elaborate_stmt-Final defs (LowerStmt.reg_free _) h = (tt, tt)

  -- When every local has its register and every switch has at least two cases, the elaborated
  -- statements have only immediates, registers and labels for arguments.
  pub elaborate_diff_switches-Final :
      (defs : DiffFlagDefs) (stmts : List (LowerStmt F))
      → All AssignedStmt stmts
      → Ensures (λ out. All FinalStmt out) (elaborate_diff_switches defs stmts)
  unfolding elaborate_diff_switches
  elaborate_diff_switches-Final defs [] h = tt
  elaborate_diff_switches-Final defs (stmt ∷ stmts) h =
      Ensures-bind (λ out. All FinalStmt out) _ (elaborate_stmt defs stmt) _
        (elaborate_stmt-Final defs stmt h.0)
        (λ first k.
          Ensures-bind (λ out. All FinalStmt out) _ (elaborate_diff_switches defs stmts) _
            (elaborate_diff_switches-Final defs stmts h.1)
            (λ rest r. All-append FinalStmt first rest k r))
