-- ===== src/Vm/Repeats.antt =====
-- src/vm.rs, `AstVm::_run`: the assignments, chains and loops respect a relation that every change of the
-- machine respects.
use truth.Base.{ℕ, zero, suc, Bool, ◌==◌, Option, if◌then◌else◌, Bool-cases, inl, inr}
use truth.Base.Run.{Run, ok, ◌>>=◌, expect, Ensures-bind, Ensures-self, Ensures-weaken}
use truth.Int32.{wrapping_sub}
use truth.Ast.{Expr, Var, Resolutions}
use truth.Ast.Ops.{AssignOpKind, corresponding_binop}
use truth.Ast.Stmt.{Stmts, CondBlocks, no_blocks, cond_block}
use truth.Value.{FloatOps, ScalarValue}
use truth.ConstEval.{binop_const_eval}
use truth.Vm.{AstVm, expect_int, read_var_by_ast, write_var_by_ast, eval, eval_cond}
use truth.Vm.Exec.{
  TimeAndDifficulty, RunResult, next, takes_branch, start_time, end_time, at_time, handle_block,
  handle_breakable, exec_assignment,
}
use truth.Vm.Loops.{
  Exec, RunBlock, then_next, enter_block, exec_cond_blocks, end_chain, exec_loop, exec_while,
  exec_times, exec_times_clobber,
}
use truth.Vm.Steps.{
  StepRelation, Respects, RespectsVm, eval-Respects, read_var_by_ast-Respects,
  write_var_by_ast-Respects,
}
use truth.Vm.Runs.{
  eval_cond-Respects, Continues, handle_block-Respects, handle_breakable-Respects, after,
}

module _ (fl : FloatOps) (rs : Resolutions) (data_ : ℕ → Option TimeAndDifficulty)
    (steps : StepRelation fl.Float) where
  open fl use {Float}
  open steps use {Rel, same, follows, moves, waits, counts, logs}

  pub exec_assignment-Respects :
      (v : Var) (op : AssignOpKind) (e : Expr Float) (vm : AstVm Float)
      → RespectsVm fl rs steps vm (exec_assignment fl rs data_ v op e vm)
  unfolding exec_assignment
  exec_assignment-Respects v AssignOpKind.assign e vm =
      Ensures-bind _ _ (eval fl rs e vm) _ (eval-Respects fl rs steps e vm) (λ (x, vm₁) p.
        Ensures-weaken _ (Rel vm) (write_var_by_ast fl rs v x vm₁) (λ vm₂ q. follows vm vm₁ vm₂ p q)
          (write_var_by_ast-Respects fl rs steps v x vm₁))
  exec_assignment-Respects v op e vm =
      Ensures-bind _ _ (expect (corresponding_binop op)) _ (Ensures-self _) (λ binop _.
        Ensures-bind _ _ (read_var_by_ast fl rs v vm) _ (read_var_by_ast-Respects fl rs steps v vm)
          (λ (old, vm₁) p.
            Ensures-bind _ _ (eval fl rs e vm₁) _ (eval-Respects fl rs steps e vm₁) (λ (x, vm₂) q.
              Ensures-bind _ _ (binop_const_eval fl binop old x) _ (Ensures-self _) (λ y _.
                Ensures-weaken _ (Rel vm) (write_var_by_ast fl rs v y vm₂)
                  (λ vm₃ s. follows vm vm₁ vm₃ p (follows vm₁ vm₂ vm₃ q s))
                  (write_var_by_ast-Respects fl rs steps v y vm₂)))))

  abbrev pub Good : Exec fl rs data_ → Type 0
  Good k = Continues fl rs data_ steps k

  pub then_next-Respects :
      (m : Run (AstVm Float)) (vm : AstVm Float)
      → RespectsVm fl rs steps vm m
      → Respects fl rs steps vm (then_next fl rs data_ m)
  unfolding then_next
  then_next-Respects m vm h = Ensures-bind _ (λ r. Rel vm r.1) m _ h (λ vm₁ p. p)

  module _ (rec : RunBlock fl rs data_)
      (good : (b : Stmts Float) (vm : AstVm Float) → Respects fl rs steps vm (rec b vm))
      (stmts : Stmts Float) where
    -- A block that is entered at some time, and what goes on after it.
    block_at-Respects :
        (b : Stmts Float) (t : ℕ) (k : RunResult Float → Exec fl rs data_)
        → ((r : RunResult Float) → Good (k r))
        → (vm : AstVm Float)
        → Respects fl rs steps vm (rec b (at_time fl rs data_ vm t) >>= λ w. k w.0 w.1)
    block_at-Respects b t k h vm =
        Ensures-bind _ (λ w. Rel vm w.1) (rec b (at_time fl rs data_ vm t)) _
          (good b (at_time fl rs data_ vm t))
          (λ (r, vm₁) p.
            after fl rs data_ steps vm vm₁ (k r vm₁)
              (follows vm (at_time fl rs data_ vm t) vm₁ (moves vm t) p) (h r vm₁))

    pub enter_block-Respects :
        (b : Stmts Float) (k : Exec fl rs data_)
        → Good k
        → Good (enter_block fl rs data_ rec stmts b k)
    unfolding enter_block
    enter_block-Respects b k h vm =
        Ensures-bind _ (λ w. Rel vm w.1) (start_time fl rs data_ b) _ (Ensures-self _)
          (λ t _.
            block_at-Respects b t (handle_block fl rs data_ stmts k)
              (λ r. handle_block-Respects fl rs data_ steps stmts k r h) vm)

    pub end_chain-Respects : (o : Option (Stmts Float)) → Good (end_chain fl rs data_ o)
    unfolding end_chain
    end_chain-Respects o vm =
        Ensures-bind _ (λ w. Rel vm w.1) (expect o) _ (Ensures-self _)
          (λ b _.
            Ensures-bind _ (λ w. Rel vm w.1) (end_time fl rs data_ b) _ (Ensures-self _)
              (λ t _. moves vm t))

    -- A condition is evaluated, and one of two things goes on.
    pub choice-Respects :
        (cond : Expr Float) (f : Bool → Bool) (k l : Exec fl rs data_)
        → Good k
        → Good l
        → (vm : AstVm Float)
        → Respects fl rs steps vm (eval_cond fl rs cond vm >>= λ w. if f w.0 then k w.1 else l w.1)
    choice-Respects cond f k l h i vm =
        Ensures-bind _ (λ w. Rel vm w.1) (eval_cond fl rs cond vm) _
          (eval_cond-Respects fl rs data_ steps cond vm)
          (λ (c, vm₁) p. elim (Bool-cases (f c)) [
            | inl e ↦ rw e (after fl rs data_ steps vm vm₁ (k vm₁) p (h vm₁))
            | inr e ↦ rw e (after fl rs data_ steps vm vm₁ (l vm₁) p (i vm₁))
          ])

    pub exec_cond_blocks-Respects :
        (blocks : CondBlocks Float) (otherwise k : Exec fl rs data_)
        → Good otherwise
        → Good k
        → Good (exec_cond_blocks fl rs data_ rec stmts blocks otherwise k)
    unfolding exec_cond_blocks
    exec_cond_blocks-Respects no_blocks otherwise k h i vm = h vm
    exec_cond_blocks-Respects (cond_block keyword cond b blocks) otherwise k h i vm =
        choice-Respects cond (takes_branch keyword) (enter_block fl rs data_ rec stmts b k)
          (exec_cond_blocks fl rs data_ rec stmts blocks otherwise k) (enter_block-Respects b k i)
          (exec_cond_blocks-Respects blocks otherwise k h i) vm

    pub exec_loop-Respects :
        (fuel : ℕ) (b : Stmts Float) → Good (exec_loop fl rs data_ fuel rec stmts b)
    unfolding exec_loop
    exec_loop-Respects zero b vm = tt
    exec_loop-Respects (suc fuel) b vm =
        Ensures-bind _ (λ w. Rel vm w.1) (rec b vm) _ (good b vm)
          (λ (r, vm₁) p. after fl rs data_ steps vm vm₁ _ p (
            handle_breakable-Respects fl rs data_ steps stmts b _ r
              (λ vm₂.
                Ensures-bind _ (λ w. Rel vm₂ w.1) (start_time fl rs data_ b) _ (Ensures-self _)
                  (λ t _.
                    after fl rs data_ steps vm₂ (at_time fl rs data_ vm₂ t) _ (moves vm₂ t)
                      (exec_loop-Respects fuel b (at_time fl rs data_ vm₂ t))))
              vm₁))

    pub exec_times-Respects :
        (n : ℕ) (b : Stmts Float) → Good (exec_times fl rs data_ n rec stmts b)
    unfolding exec_times
    exec_times-Respects zero b vm = same vm
    exec_times-Respects (suc n) b vm =
        Ensures-bind _ (λ w. Rel vm w.1) (start_time fl rs data_ b) _ (Ensures-self _)
          (λ t _.
            block_at-Respects b t
              (handle_breakable fl rs data_ stmts b (exec_times fl rs data_ n rec stmts b))
              (λ r.
                handle_breakable-Respects fl rs data_ steps stmts b _ r (exec_times-Respects n b))
              vm)

    pub exec_while-Respects :
        (fuel : ℕ) (cond : Expr Float) (b : Stmts Float)
        → Good (exec_while fl rs data_ fuel rec stmts cond b)
    unfolding exec_while
    exec_while-Respects zero cond b vm = tt
    exec_while-Respects (suc fuel) cond b vm =
        Ensures-bind _ (λ w. Rel vm w.1) (rec b vm) _ (good b vm)
          (λ (r, vm₁) p. after fl rs data_ steps vm vm₁ _ p (
            handle_breakable-Respects fl rs data_ steps stmts b _ r
              (choice-Respects cond (λ c. c)
                (λ vm₃. start_time fl rs data_ b >>= λ t.
                  exec_while fl rs data_ fuel rec stmts cond b (at_time fl rs data_ vm₃ t))
                (λ vm₃. ok (next, vm₃))
                (λ vm₃.
                  Ensures-bind _ (λ w. Rel vm₃ w.1) (start_time fl rs data_ b) _ (Ensures-self _)
                    (λ t _.
                      after fl rs data_ steps vm₃ (at_time fl rs data_ vm₃ t) _ (moves vm₃ t)
                        (exec_while-Respects fuel cond b (at_time fl rs data_ vm₃ t))))
                (λ vm₃. same vm₃))
              vm₁))

    pub exec_times_clobber-Respects :
        (fuel : ℕ) (v : Var) (b : Stmts Float)
        → Good (exec_times_clobber fl rs data_ fuel rec stmts v b)
    unfolding exec_times_clobber
    exec_times_clobber-Respects zero v b vm = tt
    exec_times_clobber-Respects (suc fuel) v b vm =
        Ensures-bind _ (λ w. Rel vm w.1) (start_time fl rs data_ b) _ (Ensures-self _)
          (λ t _.
            block_at-Respects b t (handle_breakable fl rs data_ stmts b _)
              (λ r. handle_breakable-Respects fl rs data_ steps stmts b _ r (λ vm₂.
                Ensures-bind _ (λ w. Rel vm₂ w.1) (read_var_by_ast fl rs v vm₂) _
                  (read_var_by_ast-Respects fl rs steps v vm₂)
                  (λ (count, vm₃) p.
                    Ensures-bind _ (λ w. Rel vm₂ w.1) (expect_int count) _ (Ensures-self _)
                      (λ x _.
                        Ensures-bind _ (λ w. Rel vm₂ w.1)
                          (write_var_by_ast fl rs v (ScalarValue.int (wrapping_sub x 1)) vm₃) _
                          (write_var_by_ast-Respects fl rs steps v
                            (ScalarValue.int (wrapping_sub x 1)) vm₃)
                          (λ vm₄ q. elim (Bool-cases (wrapping_sub x 1 == 0)) [
                            | inl e ↦ rw e (follows vm₂ vm₃ vm₄ p q)
                            | inr e ↦ rw e (
                                after fl rs data_ steps vm₂ vm₄ _ (follows vm₂ vm₃ vm₄ p q)
                                  (exec_times_clobber-Respects fuel v b vm₄))
                          ])))))
              vm)
