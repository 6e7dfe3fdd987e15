-- ===== src/Vm/Exec.antt =====
-- src/vm.rs, `AstVm::_run` and what it calls: the machine on statements. `stmt_data` is the result of
-- the analysis of times and difficulties. A nested run is the parameter `rec`, and fuel is given for the
-- number of statements and turns of loops.
use truth.Base.{
  ℕ, suc, Bool, true, false, not, Option, none, some, List, [], ◌∷◌, ◌==◌, if◌then◌else◌,
}
use truth.Base.Run.{Run, ok, panic, ◌>>=◌, expect}
use truth.BitSet.{BitSet32}
use truth.Ast.{Expr, call, Pseudos, no_pseudos, Args, Var, CallableName, Resolutions}
use truth.Ast.Ops.{AssignOpKind, corresponding_binop}
use truth.Ast.Stmt.{
  CondKeyword, if_keyword, unless_keyword, StmtGoto, StmtJumpKind, goto, break_continue, stmt,
  StmtKind, Stmts, no_stmts, and_then, start_node_id, end_node_id,
}
use truth.Value.{FloatOps, ScalarValue}
use truth.ConstEval.{binop_const_eval}
use truth.Vm.{AstVm, log_instruction, read_var_by_ast, write_var_by_ast, eval, eval_args}

pub record TimeAndDifficulty : Type 0 where
  pub stmt_time : ℕ
  pub difficulty_mask : BitSet32

pub data RunResult (F : Type 0) : Type 0 where
  nominal breaking : RunResult F
  returning : Option (ScalarValue F) → RunResult F
  jumping : StmtGoto → RunResult F

-- What follows a statement: the next one, another one of the block, or the end of the block's run.
pub data Flow (F : Type 0) : Type 0 where
  next : Flow F
  to_index : ℕ → Flow F
  leave : RunResult F → Flow F

unfoldable pub takes_branch : CondKeyword → Bool → Bool
takes_branch if_keyword b = b
takes_branch unless_keyword b = not b

unfoldable pub unwrap_or : Option ℕ → ℕ → ℕ
unwrap_or none d = d
unwrap_or (some t) d = t

unfoldable pub is_block : {F : Type 0} → StmtKind F → Bool
is_block (StmtKind.block _) = true
is_block _ = false

module _ (fl : FloatOps) (resolutions : Resolutions)
    (stmt_data : ℕ → Option TimeAndDifficulty) where
  open fl use {Float}

  abbrev pub Vm : Type 0
  Vm = AstVm Float

  unfoldable pub time_of : ℕ → Run ℕ
  time_of id = do d ← expect (stmt_data id); ok d.stmt_time

  unfoldable pub start_time : Stmts Float → Run ℕ
  unfolding time_of
  start_time b = do id ← expect (start_node_id b); time_of id

  unfoldable pub end_time : Stmts Float → Run ℕ
  unfolding time_of
  end_time b = do id ← expect (end_node_id b); time_of id

  abbrev pub at_time : Vm → ℕ → Vm
  at_time vm t = record vm { time = t }

  -- `try_goto`, from the statement number `index` on.
  unfoldable pub try_goto : Stmts Float → ℕ → StmtGoto → Vm → Run (Option ℕ × Vm)
  unfolding time_of unwrap_or
  try_goto no_stmts index g vm = ok (none, vm)
  try_goto (and_then (stmt id diff_label (StmtKind.label l)) stmts) index g vm =
      let rest = try_goto stmts (suc index) g vm in
      if l == g.destination
      then (do t ← time_of id; ok (some index, at_time vm (unwrap_or g.time t)))
      else rest
  try_goto (and_then (stmt id diff_label _) stmts) index g vm = try_goto stmts (suc index) g vm

  unfoldable pub handle_goto : Stmts Float → StmtGoto → Vm → Run (Flow Float × Vm)
  unfolding try_goto
  handle_goto stmts g vm = do
    (found, vm₁) ← try_goto stmts 0 g vm
    ok (elim found [ none ↦ leave (jumping g) | some i ↦ to_index i ], vm₁)

  unfoldable pub handle_jump : Stmts Float → StmtJumpKind → Vm → Run (Flow Float × Vm)
  unfolding handle_goto
  handle_jump stmts break_continue vm = ok (leave breaking, vm)
  handle_jump stmts (goto g) vm = handle_goto stmts g vm

  -- `handle_block!`: what is done with the result of a nested run; `k` goes on after a nominal one.
  unfoldable pub handle_block :
      Stmts Float → (Vm → Run (Flow Float × Vm)) → RunResult Float → Vm → Run (Flow Float × Vm)
  unfolding handle_goto
  handle_block stmts k nominal vm = k vm
  handle_block stmts k breaking vm = ok (leave breaking, vm)
  handle_block stmts k (returning v) vm = ok (leave (returning v), vm)
  handle_block stmts k (jumping g) vm = handle_goto stmts g vm

  -- `handle_block_of_breakable_stmt!`: a `break` ends the statement.
  unfoldable pub handle_breakable :
      Stmts Float
      → Stmts Float
      → (Vm → Run (Flow Float × Vm))
      → RunResult Float
      → Vm
      → Run (Flow Float × Vm)
  unfolding handle_goto end_time
  handle_breakable stmts b k nominal vm = k vm
  handle_breakable stmts b k breaking vm = do t ← end_time b; ok (next, at_time vm t)
  handle_breakable stmts b k (returning v) vm = ok (leave (returning v), vm)
  handle_breakable stmts b k (jumping g) vm = handle_goto stmts g vm

  unfoldable pub exec_declaration : List (Var × Option (Expr Float)) → Vm → Run Vm
  exec_declaration [] vm = ok vm
  exec_declaration ((v, none) ∷ vars) vm = exec_declaration vars vm
  exec_declaration ((v, some e) ∷ vars) vm = do
    (x, vm₁) ← eval fl resolutions e vm
    vm₂ ← write_var_by_ast fl resolutions v x vm₁
    exec_declaration vars vm₂

  unfoldable pub exec_assignment : Var → AssignOpKind → Expr Float → Vm → Run Vm
  exec_assignment v AssignOpKind.assign e vm = do
    (x, vm₁) ← eval fl resolutions e vm
    write_var_by_ast fl resolutions v x vm₁
  exec_assignment v op e vm = do
    binop ← expect (corresponding_binop op)
    (old, vm₁) ← read_var_by_ast fl resolutions v vm
    (x, vm₂) ← eval fl resolutions e vm₁
    y ← binop_const_eval fl binop old x
    write_var_by_ast fl resolutions v y vm₂

  -- An expression statement: a call of an instruction, without pseudo-arguments, is logged.
  unfoldable pub exec_call : CallableName → Pseudos Float → Args Float → Vm → Run Vm
  exec_call (CallableName.ins opcode) no_pseudos args vm = do
    (vs, vm₁) ← eval_args fl resolutions args vm
    ok (log_instruction vm₁ opcode vs)
  exec_call _ _ args vm = panic

  unfoldable pub exec_expr : Expr Float → Vm → Run Vm
  unfolding exec_call
  exec_expr (call name pseudos args) vm = exec_call name pseudos args vm
  exec_expr _ vm = panic
