-- ===== src/Vm/Tests.antt =====
-- The machine evaluates `REG[100]++ + A` before and after its simplification, when `A` is the constant 5,
-- and runs a loop.
use truth.Base.{
  ℕ, ◌≡◌, ◌==◌, if◌then◌else◌, refl, arith, true, false, List, ◌++◌, Option, none, some, [], ◌∷◌,
}
use truth.Base.Assoc
use truth.Base.Run.{Run, ok}
use truth.Ast.{
  Expr, bin_op, var, xcrement_op, diff_switch, call, arg, no_args, no_pseudos, present, missing,
  no_cases, lit_int, IntRadix, Var, VarName, CallableName,
}
use truth.Ast.Ops.{BinOpKind, XcrementOpKind, XcrementOpOrder}
use truth.Value.{ScalarValue}
use truth.Value.WholeFloats.{whole_floats}
use truth.ConstSimplify.{Context, visit_expr}
use truth.Vm.{
  LoggedCall, VarId, reg, other, VarValue, value, AstVm, new_vm, with_max_iterations,
  with_difficulty, set_var, eval, same_var,
}
use truth.Ast.Stmt.{Stmts, stmt, StmtKind, and_then, no_stmts}
use truth.Vm.Exec.{TimeAndDifficulty}
use truth.Vm.Loops.{run, run_from}
use truth.Vm.Limit.{Ends, Within}
use truth.Vm.Limit.Runs.{run-Ends}
use truth.Vm.LogGrows.{LogExtends, run_from-LogExtends}
use truth.Base.Run.{Ensures}
use truth.Vm.Refines.{Agrees}
use truth.Vm.Constants.{assignable}
use truth.Vm.Simplified.{visit_expr-eval}

abbrev context : Context ℕ
context = record {
  resolutions = some 7 ∷ [];
  values = (7, ScalarValue.int 5) ∷ [];
  const_params = λ name. none;
}

abbrev plain_var : VarName → Var
plain_var name = record { ty_sigil = none; name = name }

abbrev incremented : Expr ℕ
incremented = xcrement_op XcrementOpKind.inc XcrementOpOrder.post (plain_var (VarName.reg 100))

abbrev constant_sum : Expr ℕ
constant_sum = bin_op incremented BinOpKind.add (var (plain_var (VarName.normal 0)))

abbrev literal_sum : Expr ℕ
literal_sum = bin_op incremented BinOpKind.add (lit_int 5 IntRadix.dec)

abbrev start : AstVm ℕ
start =
    set_var (set_var new_vm (reg 100) (value (ScalarValue.int 2))) (other 7)
      (value (ScalarValue.int 5))

abbrev finish : AstVm ℕ
finish = set_var start (reg 100) (value (ScalarValue.int 3))

constant_sum_simplified : visit_expr whole_floats context constant_sum ≡ ok (literal_sum, false)
unfolding visit_expr truth.Ast.expect_def Assoc.get truth.Value.cast_by_ty_sigil
    truth.Value.to_literal truth.ConstEval.to_const
constant_sum_simplified = refl

constant_sum_evaluated :
    eval whole_floats context.resolutions constant_sum start ≡ ok (ScalarValue.int 7, finish)
unfolding eval truth.Ast.expect_def truth.Value.cast_by_ty_sigil truth.Vm.set_var same_var
    truth.ConstEval.binop_const_eval
constant_sum_evaluated = refl

constant_sum-assignable : assignable whole_floats context constant_sum ≡ true
unfolding assignable
constant_sum-assignable = refl

start-Agrees : Agrees whole_floats context start
unfolding Assoc.get set_var same_var
start-Agrees def x h = ground arith

-- The case for difficulty 2 is the one written for difficulty 1.
diff_switch_test :
    eval whole_floats []
      (diff_switch
        (present (lit_int 3 IntRadix.dec) (present (lit_int 4 IntRadix.dec) (missing no_cases))))
      (with_difficulty new_vm 2)
    ≡ ok (ScalarValue.int 4, with_difficulty new_vm 2)
unfolding eval with_difficulty truth.DiffSwitch.select_diff_switch_case
diff_switch_test = refl

visit_expr-eval_example :
    Agrees whole_floats context finish
    × (eval whole_floats context.resolutions literal_sum start ≡ ok (ScalarValue.int 7, finish))
visit_expr-eval_example =
    visit_expr-eval whole_floats context constant_sum literal_sum false start finish
      (ScalarValue.int 7) constant_sum-assignable constant_sum_simplified start-Agrees
      constant_sum_evaluated

-- `times(x = 3) { ins_7(x); }` between times 0 and 10, with x in REG[1].
abbrev counter_var : Expr ℕ
counter_var = var (plain_var (VarName.reg 1))

abbrev times_body : Stmts ℕ
times_body = and_then (stmt 1 none StmtKind.no_instruction) (
    and_then
      (stmt 2 none (StmtKind.expr (call (CallableName.ins 7) no_pseudos (arg counter_var no_args))))
      (and_then (stmt 3 none StmtKind.no_instruction) no_stmts))

abbrev times_block : Stmts ℕ
times_block =
    and_then
      (stmt 0 none
        (StmtKind.times (some (plain_var (VarName.reg 1))) (lit_int 3 IntRadix.dec) times_body))
      no_stmts

abbrev times_data : ℕ → Option TimeAndDifficulty
times_data id = some (record { stmt_time = if id == 3 then 10 else 0; difficulty_mask = 255 })

abbrev concat_args : List (LoggedCall ℕ) → List (ScalarValue ℕ)
concat_args [] = []
concat_args (c ∷ cs) = c.args ++ concat_args cs

abbrev logged_values : Run (Option (ScalarValue ℕ) × AstVm ℕ) → List (ScalarValue ℕ)
logged_values (ok (_, vm)) = concat_args vm.instr_log
logged_values _ = []

-- The log of the run has the counter's values.
times_test :
    logged_values (run whole_floats [] times_data 20 times_block new_vm)
    ≡ ScalarValue.int 3 ∷ ScalarValue.int 2 ∷ ScalarValue.int 1 ∷ []
unfolding run truth.Ast.Stmt.nth_stmt truth.Vm.eval_int eval truth.Ast.Stmt.end_node_id
    truth.Ast.Stmt.start_node_id set_var truth.Vm.Exec.exec_expr truth.Vm.eval_args same_var
    truth.Value.cast_by_ty_sigil truth.Vm.log_instruction
times_test = refl

run_from-LogExtends_example :
    Ensures
      (λ r. LogExtends new_vm r.1)
      (run_from whole_floats [] times_data 20 times_block 0 new_vm)
run_from-LogExtends_example = run_from-LogExtends whole_floats [] times_data 20 times_block 0 new_vm

-- `loop { ins_7(); }` never ends by itself.
abbrev endless_block : Stmts ℕ
endless_block =
    and_then
      (stmt 0 none (
        StmtKind.loop (
          and_then (stmt 1 none (StmtKind.expr (call (CallableName.ins 7) no_pseudos no_args)))
            no_stmts)))
      no_stmts

run-Ends_example :
    Ends
      (λ r. Within 1000 0 r.1)
      (run whole_floats [] times_data 1001 endless_block (with_max_iterations new_vm 1000))
unfolding with_max_iterations
run-Ends_example =
    run-Ends whole_floats [] times_data 1000 1001 endless_block (with_max_iterations new_vm 1000)
      refl (omega arith) (omega arith)
