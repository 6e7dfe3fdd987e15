-- ===== src/Vm/Runs.antt =====
-- src/vm.rs, `AstVm::_run`: a relation that every change of the machine respects is respected by a run.
use truth.Base.{ℕ, suc, ◌==◌, Option, none, some, List, [], ◌∷◌, Bool-cases, inl, inr}
use truth.Base.Run.{Run, Ensures-bind, Ensures-self, Ensures-weaken}
use truth.Ast.{
  Expr, call, Args, no_args, arg, Pseudos, no_pseudos, pseudo, Var, CallableName, Resolutions,
}
use truth.Ast.Stmt.{
  StmtGoto, StmtJumpKind, goto, break_continue, stmt, StmtKind, Stmts, no_stmts, and_then,
}
use truth.Value.{FloatOps}
use truth.Vm.{
  AstVm, log_instruction, expect_int, write_var_by_ast, eval, eval_args, eval_int, eval_cond,
}
use truth.Vm.Exec.{
  TimeAndDifficulty, RunResult, nominal, breaking, returning, jumping, time_of, end_time, try_goto,
  handle_goto, handle_jump, handle_block, handle_breakable, exec_declaration, exec_call, exec_expr,
  unwrap_or,
}
use truth.Vm.Loops.{Exec}
use truth.Vm.Steps.{StepRelation, Respects, RespectsVm, eval-Respects, write_var_by_ast-Respects}

module _ (fl : FloatOps) (rs : Resolutions) (data_ : ℕ → Option TimeAndDifficulty)
    (steps : StepRelation fl.Float) where
  open fl use {Float}
  open steps use {Rel, same, follows, moves, logs}

  -- Respect carries over to what comes after.
  pub after {ℓ} :
      {A : Type ℓ} (vm vm₁ : AstVm Float) (m : Run (A × AstVm Float))
      → Rel vm vm₁
      → Respects fl rs steps vm₁ m
      → Respects fl rs steps vm m
  after vm vm₁ m p h = Ensures-weaken _ (λ r. Rel vm r.1) m (λ r q. follows vm vm₁ r.1 p q) h

  eval_args-Respects :
      (args : Args Float) (vm : AstVm Float) → Respects fl rs steps vm (eval_args fl rs args vm)
  unfolding eval_args
  eval_args-Respects no_args vm = same vm
  eval_args-Respects (arg e args) vm =
      Ensures-bind _ _ (eval fl rs e vm) _ (eval-Respects fl rs steps e vm) (λ (v, vm₁) p.
        Ensures-bind _ _ (eval_args fl rs args vm₁) _ (eval_args-Respects args vm₁)
          (λ (vs, vm₂) q. follows vm vm₁ vm₂ p q))

  pub eval_int-Respects :
      (e : Expr Float) (vm : AstVm Float) → Respects fl rs steps vm (eval_int fl rs e vm)
  unfolding eval_int
  eval_int-Respects e vm =
      Ensures-bind _ _ (eval fl rs e vm) _ (eval-Respects fl rs steps e vm)
        (λ (v, vm₁) p. Ensures-bind _ _ (expect_int v) _ (Ensures-self _) (λ _ _. p))

  pub eval_cond-Respects :
      (e : Expr Float) (vm : AstVm Float) → Respects fl rs steps vm (eval_cond fl rs e vm)
  unfolding eval_cond
  eval_cond-Respects e vm =
      Ensures-bind _ _ (eval fl rs e vm) _ (eval-Respects fl rs steps e vm)
        (λ (v, vm₁) p. Ensures-bind _ _ (expect_int v) _ (Ensures-self _) (λ _ _. p))

  try_goto-Respects :
      (stmts : Stmts Float) (index : ℕ) (g : StmtGoto) (vm : AstVm Float)
      → Respects fl rs steps vm (try_goto fl rs data_ stmts index g vm)
  unfolding try_goto
  try_goto-Respects no_stmts index g vm = same vm
  try_goto-Respects (and_then (stmt id b (StmtKind.label l)) stmts) index g vm =
      elim (Bool-cases (l == g.destination)) [
        | inl e ↦ rw e (
            Ensures-bind _ (λ r. Rel vm r.1) (time_of fl rs data_ id) _ (Ensures-self _)
              (λ t _. moves vm (unwrap_or g.time t)))
        | inr e ↦ rw e (try_goto-Respects stmts (suc index) g vm)
      ]
  try_goto-Respects (and_then (stmt id b _) stmts) index g vm =
      try_goto-Respects stmts (suc index) g vm

  handle_goto-Respects :
      (stmts : Stmts Float) (g : StmtGoto) (vm : AstVm Float)
      → Respects fl rs steps vm (handle_goto fl rs data_ stmts g vm)
  unfolding handle_goto
  handle_goto-Respects stmts g vm =
      Ensures-bind _ _ (try_goto fl rs data_ stmts 0 g vm) _ (try_goto-Respects stmts 0 g vm)
        (λ (o, vm₁) p. p)

  pub handle_jump-Respects :
      (stmts : Stmts Float) (j : StmtJumpKind) (vm : AstVm Float)
      → Respects fl rs steps vm (handle_jump fl rs data_ stmts j vm)
  unfolding handle_jump
  handle_jump-Respects stmts break_continue vm = same vm
  handle_jump-Respects stmts (goto g) vm = handle_goto-Respects stmts g vm

  -- What goes on after a block respects the relation.
  abbrev pub Continues : Exec fl rs data_ → Type 0
  Continues k = (vm : AstVm Float) → Respects fl rs steps vm (k vm)

  pub handle_block-Respects :
      (stmts : Stmts Float) (k : Exec fl rs data_) (r : RunResult Float)
      → Continues k
      → Continues (handle_block fl rs data_ stmts k r)
  unfolding handle_block
  handle_block-Respects stmts k nominal h vm = h vm
  handle_block-Respects stmts k breaking h vm = same vm
  handle_block-Respects stmts k (returning v) h vm = same vm
  handle_block-Respects stmts k (jumping g) h vm = handle_goto-Respects stmts g vm

  pub handle_breakable-Respects :
      (stmts b : Stmts Float) (k : Exec fl rs data_) (r : RunResult Float)
      → Continues k
      → Continues (handle_breakable fl rs data_ stmts b k r)
  unfolding handle_breakable
  handle_breakable-Respects stmts b k nominal h vm = h vm
  handle_breakable-Respects stmts b k breaking h vm =
      Ensures-bind _ (λ w. Rel vm w.1) (end_time fl rs data_ b) _ (Ensures-self _)
        (λ t _. moves vm t)
  handle_breakable-Respects stmts b k (returning v) h vm = same vm
  handle_breakable-Respects stmts b k (jumping g) h vm = handle_goto-Respects stmts g vm

  pub exec_declaration-Respects :
      (vars : List (Var × Option (Expr Float))) (vm : AstVm Float)
      → RespectsVm fl rs steps vm (exec_declaration fl rs data_ vars vm)
  unfolding exec_declaration
  exec_declaration-Respects [] vm = same vm
  exec_declaration-Respects ((v, none) ∷ vars) vm = exec_declaration-Respects vars vm
  exec_declaration-Respects ((v, some e) ∷ vars) vm =
      Ensures-bind _ _ (eval fl rs e vm) _ (eval-Respects fl rs steps e vm) (λ (x, vm₁) p.
        Ensures-bind _ _ (write_var_by_ast fl rs v x vm₁) _
          (write_var_by_ast-Respects fl rs steps v x vm₁)
          (λ vm₂ q.
            Ensures-weaken _ (Rel vm) (exec_declaration fl rs data_ vars vm₂)
              (λ vm₃ s. follows vm vm₁ vm₃ p (follows vm₁ vm₂ vm₃ q s))
              (exec_declaration-Respects vars vm₂)))

  exec_call-Respects :
      (name : CallableName) (pseudos : Pseudos Float) (args : Args Float) (vm : AstVm Float)
      → RespectsVm fl rs steps vm (exec_call fl rs data_ name pseudos args vm)
  unfolding exec_call
  exec_call-Respects (CallableName.ins op) no_pseudos args vm =
      Ensures-bind _ _ (eval_args fl rs args vm) _ (eval_args-Respects args vm)
        (λ (vs, vm₁) p. follows vm vm₁ (log_instruction vm₁ op vs) p (logs vm₁ op vs))
  exec_call-Respects (CallableName.ins op) (pseudo _ _ _) args vm = tt
  exec_call-Respects (CallableName.normal i) _ args vm = tt

  pub exec_expr-Respects :
      (e : Expr Float) (vm : AstVm Float) → RespectsVm fl rs steps vm (exec_expr fl rs data_ e vm)
  unfolding exec_expr
  exec_expr-Respects (call name pseudos args) vm = exec_call-Respects name pseudos args vm
  exec_expr-Respects _ vm = tt
