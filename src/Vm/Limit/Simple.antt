-- ===== src/Vm/Limit/Simple.antt =====
-- src/vm.rs: jumps and statements without a block under a limit of iterations.
use truth.Base.{ℕ, suc, ◌==◌, Option, none, some, List, [], ◌∷◌}
use truth.Base.Run.{Run, ◌>>=◌, expect}
use truth.Consts.Fuel.{binop-Finishes}
use truth.Ast.{
  Expr, call, Args, no_args, arg, Pseudos, no_pseudos, pseudo, Var, CallableName, Resolutions,
}
use truth.Ast.Ops.{AssignOpKind, corresponding_binop}
use truth.Ast.Stmt.{
  StmtGoto, StmtJumpKind, goto, break_continue, stmt, StmtKind, Stmts, no_stmts, and_then,
  start_node_id, end_node_id,
}
use truth.Value.{FloatOps}
use truth.ConstEval.{binop_const_eval}
use truth.Vm.{
  AstVm, log_instruction, expect_int, read_var_by_ast, write_var_by_ast, eval, eval_args, eval_int,
  eval_cond,
}
use truth.Vm.Exec.{
  TimeAndDifficulty, time_of, start_time, end_time, try_goto, handle_goto, handle_jump,
  exec_declaration, exec_assignment, exec_call, exec_expr,
}
use truth.Vm.Loops.{then_next}
use truth.Vm.Limit.{
  Ends, Ends-bind, Any, Finishes-Ends, expect-Ends, Ends-if, Within, Keeps, KeepsVm,
  expect_int-Ends, eval-Keeps, read_var-Keeps, write_var-Keeps,
}

module _ (fl : FloatOps) (rs : Resolutions) (data_ : ℕ → Option TimeAndDifficulty)
    (limit low : ℕ) where
  open fl use {Float}

  abbrev In : AstVm Float → Type 0
  In vm = Within limit low vm

  eval_args-Keeps :
      (args : Args Float) (vm : AstVm Float) → In vm → Keeps limit low (eval_args fl rs args vm)
  unfolding eval_args
  eval_args-Keeps no_args vm h = h
  eval_args-Keeps (arg e args) vm h =
      Ends-bind _ _ (eval fl rs e vm) _ (eval-Keeps fl rs limit low e vm h) (λ (v, vm₁) p.
        Ends-bind _ _ (eval_args fl rs args vm₁) _ (eval_args-Keeps args vm₁ p) (λ (vs, vm₂) q. q))

  pub eval_int-Keeps :
      (e : Expr Float) (vm : AstVm Float) → In vm → Keeps limit low (eval_int fl rs e vm)
  unfolding eval_int
  eval_int-Keeps e vm h =
      Ends-bind _ _ (eval fl rs e vm) _ (eval-Keeps fl rs limit low e vm h) (λ (v, vm₁) p.
        Ends-bind Any _ (expect_int v) _ (expect_int-Ends fl rs limit low v) (λ _ _. p))

  pub eval_cond-Keeps :
      (e : Expr Float) (vm : AstVm Float) → In vm → Keeps limit low (eval_cond fl rs e vm)
  unfolding eval_cond
  eval_cond-Keeps e vm h =
      Ends-bind _ _ (eval fl rs e vm) _ (eval-Keeps fl rs limit low e vm h) (λ (v, vm₁) p.
        Ends-bind Any _ (expect_int v) _ (expect_int-Ends fl rs limit low v) (λ _ _. p))

  pub time_of-Ends : (id : ℕ) → Ends Any (time_of fl rs data_ id)
  unfolding time_of
  time_of-Ends id = Ends-bind Any Any (expect (data_ id)) _ (expect-Ends _) (λ _ _. tt)

  pub end_time-Ends : (b : Stmts Float) → Ends Any (end_time fl rs data_ b)
  unfolding end_time
  end_time-Ends b =
      Ends-bind Any Any (expect (end_node_id b)) _ (expect-Ends _) (λ id _. time_of-Ends id)

  pub start_time-Ends : (b : Stmts Float) → Ends Any (start_time fl rs data_ b)
  unfolding start_time
  start_time-Ends b =
      Ends-bind Any Any (expect (start_node_id b)) _ (expect-Ends _) (λ id _. time_of-Ends id)

  try_goto-Keeps :
      (stmts : Stmts Float) (index : ℕ) (g : StmtGoto) (vm : AstVm Float)
      → In vm
      → Keeps limit low (try_goto fl rs data_ stmts index g vm)
  unfolding try_goto
  try_goto-Keeps no_stmts index g vm h = h
  try_goto-Keeps (and_then (stmt id l₀ (StmtKind.label l)) stmts) index g vm h =
      Ends-if _ (l == g.destination) _ _
        (Ends-bind Any _ (time_of fl rs data_ id) _ (time_of-Ends id) (λ _ _. h))
        (try_goto-Keeps stmts (suc index) g vm h)
  try_goto-Keeps (and_then (stmt id l₀ _) stmts) index g vm h =
      try_goto-Keeps stmts (suc index) g vm h

  pub handle_goto-Keeps :
      (stmts : Stmts Float) (g : StmtGoto) (vm : AstVm Float)
      → In vm
      → Keeps limit low (handle_goto fl rs data_ stmts g vm)
  unfolding handle_goto
  handle_goto-Keeps stmts g vm h =
      Ends-bind _ _ (try_goto fl rs data_ stmts 0 g vm) _ (try_goto-Keeps stmts 0 g vm h)
        (λ (found, vm₁) p. p)

  pub handle_jump-Keeps :
      (stmts : Stmts Float) (j : StmtJumpKind) (vm : AstVm Float)
      → In vm
      → Keeps limit low (handle_jump fl rs data_ stmts j vm)
  unfolding handle_jump
  handle_jump-Keeps stmts break_continue vm h = h
  handle_jump-Keeps stmts (goto g) vm h = handle_goto-Keeps stmts g vm h

  pub exec_declaration-Keeps :
      (vars : List (Var × Option (Expr Float))) (vm : AstVm Float)
      → In vm
      → KeepsVm limit low (exec_declaration fl rs data_ vars vm)
  unfolding exec_declaration
  exec_declaration-Keeps [] vm h = h
  exec_declaration-Keeps ((v, none) ∷ vars) vm h = exec_declaration-Keeps vars vm h
  exec_declaration-Keeps ((v, some e) ∷ vars) vm h =
      Ends-bind _ _ (eval fl rs e vm) _ (eval-Keeps fl rs limit low e vm h) (λ (x, vm₁) p.
        Ends-bind _ _ (write_var_by_ast fl rs v x vm₁) _ (write_var-Keeps fl rs limit low v x vm₁ p)
          (λ vm₂ q. exec_declaration-Keeps vars vm₂ q))

  updated-Keeps :
      (v : Var) (op : AssignOpKind) (e : Expr Float) (vm : AstVm Float)
      → In vm
      → KeepsVm limit low (do
        binop ← expect (corresponding_binop op)
        (old, vm₁) ← read_var_by_ast fl rs v vm
        (x, vm₂) ← eval fl rs e vm₁
        y ← binop_const_eval fl binop old x
        write_var_by_ast fl rs v y vm₂)
  updated-Keeps v op e vm h =
      Ends-bind Any _ (expect (corresponding_binop op)) _ (expect-Ends _) (λ binop _.
        Ends-bind _ _ (read_var_by_ast fl rs v vm) _ (read_var-Keeps fl rs limit low v vm h)
          (λ (old, vm₁) p.
            Ends-bind _ _ (eval fl rs e vm₁) _ (eval-Keeps fl rs limit low e vm₁ p) (λ (x, vm₂) q.
              Ends-bind Any _ (binop_const_eval fl binop old x) _
                (Finishes-Ends _ (binop-Finishes fl binop old x))
                (λ y _. write_var-Keeps fl rs limit low v y vm₂ q))))

  pub exec_assignment-Keeps :
      (v : Var) (op : AssignOpKind) (e : Expr Float) (vm : AstVm Float)
      → In vm
      → KeepsVm limit low (exec_assignment fl rs data_ v op e vm)
  unfolding exec_assignment
  exec_assignment-Keeps v AssignOpKind.assign e vm h =
      Ends-bind _ _ (eval fl rs e vm) _ (eval-Keeps fl rs limit low e vm h)
        (λ (x, vm₁) p. write_var-Keeps fl rs limit low v x vm₁ p)
  exec_assignment-Keeps v op e vm h = updated-Keeps v op e vm h

  exec_call-Keeps :
      (name : CallableName) (pseudos : Pseudos Float) (args : Args Float) (vm : AstVm Float)
      → In vm
      → KeepsVm limit low (exec_call fl rs data_ name pseudos args vm)
  unfolding exec_call log_instruction
  exec_call-Keeps (CallableName.ins opcode) no_pseudos args vm h =
      Ends-bind _ _ (eval_args fl rs args vm) _ (eval_args-Keeps args vm h) (λ (vs, vm₁) p. p)
  exec_call-Keeps (CallableName.ins opcode) (pseudo _ _ _) args vm h = tt
  exec_call-Keeps _ _ args vm h = tt

  pub exec_expr-Keeps :
      (e : Expr Float) (vm : AstVm Float) → In vm → KeepsVm limit low (exec_expr fl rs data_ e vm)
  unfolding exec_expr
  exec_expr-Keeps (call name pseudos args) vm h = exec_call-Keeps name pseudos args vm h
  exec_expr-Keeps _ vm h = tt

  pub then_next-Keeps :
      (m : Run (AstVm Float)) → KeepsVm limit low m → Keeps limit low (then_next fl rs data_ m)
  unfolding then_next
  then_next-Keeps m h = Ends-bind _ _ m _ h (λ vm p. p)
