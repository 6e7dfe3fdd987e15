-- ===== src/Vm/LogGrows.antt =====
-- src/vm.rs, `AstVm::_run`: a run respects a relation that every change of the machine respects; for one,
-- the log of calls only grows.
use truth.Base.{
  ℕ, zero, suc, ◌+◌, ◌≡◌, refl, sym, ap, ◌∙◌, true, false, ◌==◌, Option, none, some, List, [], ◌∷◌,
  ◌++◌, if◌then◌else◌, Bool-cases, inl, inr,
}
use truth.Base.Run.{Run, ok, expect, Ensures, Ensures-bind, Ensures-self}
use truth.Int32.{lt_i32, is_negative}
use truth.Ast.{Resolutions}
use truth.Ast.Stmt.{Stmt, stmt, StmtKind, Stmts, nth_stmt, last_block}
use truth.Value.{FloatOps, ScalarValue}
use truth.Vm.{
  LoggedCall, VarId, VarValue, set_var, log_instruction, AstVm, write_var_by_ast, eval, eval_int,
}
use truth.Vm.Exec.{
  TimeAndDifficulty, RunResult, Flow, next, to_index, leave, takes_branch, end_time, at_time,
  handle_jump,
}
use truth.Vm.Loops.{
  Exec, RunBlock, end_chain, exec_while, exec_kind, wait_until, is_skipped, at_limit,
  lacks_difficulty, exec_at, exec_stmt, run_from, run_at, follow_flow,
}
use truth.Vm.Steps.{StepRelation, Respects, eval-Respects, write_var_by_ast-Respects}
use truth.Vm.Repeats.{
  exec_assignment-Respects, Good, then_next-Respects, enter_block-Respects, end_chain-Respects,
  choice-Respects, exec_cond_blocks-Respects, exec_loop-Respects, exec_times-Respects,
  exec_while-Respects, exec_times_clobber-Respects,
}
use truth.Vm.Runs.{
  eval_int-Respects, handle_jump-Respects, handle_block-Respects, exec_declaration-Respects,
  exec_expr-Respects, after,
}

module _ (fl : FloatOps) (rs : Resolutions) (data_ : ℕ → Option TimeAndDifficulty)
    (steps : StepRelation fl.Float) where
  open fl use {Float}
  open steps use {Rel, same, follows, moves, waits, counts, logs}

  module _ (rec : RunBlock fl rs data_)
      (good : (b : Stmts Float) (vm : AstVm Float) → Respects fl rs steps vm (rec b vm))
      (stmts : Stmts Float) where
    exec_kind-Respects :
        (fuel : ℕ) (kind : StmtKind Float)
        → Good fl rs data_ steps (exec_kind fl rs data_ fuel rec stmts kind)
    unfolding exec_kind
    exec_kind-Respects fuel (StmtKind.block b) vm =
        Ensures-bind _ (λ w. Rel vm w.1) (rec b vm) _ (good b vm)
          (λ (r, vm₁) p. after fl rs data_ steps vm vm₁ _ p (
            handle_block-Respects fl rs data_ steps stmts (λ vm₂. ok (next, vm₂)) r
              (λ vm₂. same vm₂) vm₁))
    exec_kind-Respects fuel (StmtKind.jump j) vm = handle_jump-Respects fl rs data_ steps stmts j vm
    exec_kind-Respects fuel (StmtKind.cond_jump keyword cond j) vm =
        choice-Respects fl rs data_ steps rec good stmts cond (takes_branch keyword)
          (handle_jump fl rs data_ stmts j) (λ vm₁. ok (next, vm₁))
          (handle_jump-Respects fl rs data_ steps stmts j) (λ vm₁. same vm₁) vm
    exec_kind-Respects fuel (StmtKind.return none) vm = same vm
    exec_kind-Respects fuel (StmtKind.return (some e)) vm =
        Ensures-bind _ (λ w. Rel vm w.1) (eval fl rs e vm) _ (eval-Respects fl rs steps e vm)
          (λ _ p. p)
    exec_kind-Respects fuel (StmtKind.cond_chain blocks) vm =
        exec_cond_blocks-Respects fl rs data_ steps rec good stmts blocks _ _
          (end_chain-Respects fl rs data_ steps rec good stmts (last_block blocks))
          (end_chain-Respects fl rs data_ steps rec good stmts (last_block blocks)) vm
    exec_kind-Respects fuel (StmtKind.cond_chain_else blocks b) vm =
        exec_cond_blocks-Respects fl rs data_ steps rec good stmts blocks _ _
          (enter_block-Respects fl rs data_ steps rec good stmts b _
            (end_chain-Respects fl rs data_ steps rec good stmts (some b)))
          (end_chain-Respects fl rs data_ steps rec good stmts (some b)) vm
    exec_kind-Respects fuel (StmtKind.loop b) vm =
        exec_loop-Respects fl rs data_ steps rec good stmts fuel b vm
    exec_kind-Respects fuel (StmtKind.while true cond b) vm =
        exec_while-Respects fl rs data_ steps rec good stmts fuel cond b vm
    exec_kind-Respects fuel (StmtKind.while false cond b) vm =
        choice-Respects fl rs data_ steps rec good stmts cond (λ c. c)
          (exec_while fl rs data_ fuel rec stmts cond b) (end_chain fl rs data_ (some b))
          (exec_while-Respects fl rs data_ steps rec good stmts fuel cond b)
          (end_chain-Respects fl rs data_ steps rec good stmts (some b)) vm
    exec_kind-Respects fuel (StmtKind.times none count b) vm =
        Ensures-bind _ (λ w. Rel vm w.1) (end_time fl rs data_ b) _ (Ensures-self _)
          (λ t _. after fl rs data_ steps vm (at_time fl rs data_ vm t) _ (moves vm t) (
            Ensures-bind _ (λ w. Rel (at_time fl rs data_ vm t) w.1)
              (eval_int fl rs count (at_time fl rs data_ vm t)) _
              (eval_int-Respects fl rs data_ steps count (at_time fl rs data_ vm t))
              (λ (n, vm₁) p. after fl rs data_ steps (at_time fl rs data_ vm t) vm₁ _ p (
                exec_times-Respects fl rs data_ steps rec good stmts
                  (if is_negative n then 0 else n) b vm₁))))
    exec_kind-Respects fuel (StmtKind.times (some v) count b) vm =
        Ensures-bind _ (λ w. Rel vm w.1) (eval_int fl rs count vm) _
          (eval_int-Respects fl rs data_ steps count vm)
          (λ (n, vm₁) p.
            Ensures-bind _ (λ w. Rel vm w.1) (write_var_by_ast fl rs v (ScalarValue.int n) vm₁) _
              (write_var_by_ast-Respects fl rs steps v (ScalarValue.int n) vm₁)
              (λ vm₂ q.
                Ensures-bind _ (λ w. Rel vm w.1) (end_time fl rs data_ b) _ (Ensures-self _)
                  (λ t _.
                    let vm₃ = at_time fl rs data_ vm₂ t in
                    let s = follows vm vm₂ vm₃ (follows vm vm₁ vm₂ p q) (moves vm₂ t) in
                    elim (Bool-cases (n == 0)) [
                      | inl e ↦ rw e s
                      | inr e ↦ rw e (
                          after fl rs data_ steps vm vm₃ _ s (
                            exec_times_clobber-Respects fl rs data_ steps rec good stmts fuel v b
                              vm₃))
                    ])))
    exec_kind-Respects fuel (StmtKind.expr e) vm =
        then_next-Respects fl rs data_ steps _ vm (exec_expr-Respects fl rs data_ steps e vm)
    exec_kind-Respects fuel (StmtKind.assignment v op e) vm =
        then_next-Respects fl rs data_ steps _ vm
          (exec_assignment-Respects fl rs data_ steps v op e vm)
    exec_kind-Respects fuel (StmtKind.declaration _ vars) vm =
        then_next-Respects fl rs data_ steps _ vm
          (exec_declaration-Respects fl rs data_ steps vars vm)
    exec_kind-Respects fuel (StmtKind.call_sub _) vm = tt
    exec_kind-Respects fuel _ vm = same vm

    wait_until-Respects : (t : ℕ) (vm : AstVm Float) → Rel vm (wait_until fl rs data_ t vm)
    unfolding wait_until
    wait_until-Respects t vm = elim (Bool-cases (lt_i32 vm.time t)) [
      | inl e ↦ rw e (waits vm _ _)
      | inr e ↦ rw e (same vm)
    ]

    exec_at-Respects :
        (fuel id : ℕ) (kind : StmtKind Float)
        → Good fl rs data_ steps (exec_at fl rs data_ fuel rec stmts id kind)
    unfolding exec_at
    exec_at-Respects fuel id kind vm =
        Ensures-bind _ (λ w. Rel vm w.1) (expect (data_ id)) _ (Ensures-self _)
          (λ d _.
            let vm₁ = wait_until fl rs data_ d.stmt_time vm in
            let p = wait_until-Respects d.stmt_time vm in
            elim (Bool-cases (is_skipped fl rs data_ vm.difficulty d.difficulty_mask kind)) [
              | inl e ↦ rw e p
              | inr e ↦ rw e (after fl rs data_ steps vm vm₁ _ p (exec_kind-Respects fuel kind vm₁))
            ])

    exec_stmt-Respects :
        (fuel : ℕ) (s : Stmt Float)
        → Good fl rs data_ steps (exec_stmt fl rs data_ fuel rec stmts s)
    unfolding exec_stmt
    exec_stmt-Respects fuel (stmt id diff_label kind) vm =
        elim (Bool-cases (at_limit fl rs data_ vm)) [
          | inl e ↦ rw e tt
          | inr e ↦ elim (Bool-cases (lacks_difficulty fl rs data_ diff_label vm.difficulty)) [
            | inl f ↦ rw (e, f) tt
            | inr f ↦
                rw (e, f)
                  (after fl rs data_ steps vm (record vm { iterations = vm.iterations + 1 }) _
                    (counts vm (vm.iterations + 1))
                    (exec_at-Respects fuel id kind (record vm { iterations = vm.iterations + 1 })))
          ]
        ]

  follow_flow-Respects :
      (go : ℕ → AstVm Float → Run (RunResult Float × AstVm Float)) (index : ℕ) (flow : Flow Float)
      (vm : AstVm Float)
      → ((i : ℕ) (ws : AstVm Float) → Respects fl rs steps ws (go i ws))
      → Respects fl rs steps vm (follow_flow fl rs data_ go index flow vm)
  unfolding follow_flow
  follow_flow-Respects go index next vm h = h (suc index) vm
  follow_flow-Respects go index (to_index i) vm h = h i vm
  follow_flow-Respects go index (leave r) vm h = same vm

  run_at-Respects :
      (go : ℕ → AstVm Float → Run (RunResult Float × AstVm Float))
      (step : Stmt Float → Exec fl rs data_) (index : ℕ) (o : Option (Stmt Float))
      (vm : AstVm Float)
      → ((i : ℕ) (ws : AstVm Float) → Respects fl rs steps ws (go i ws))
      → ((s : Stmt Float) → Good fl rs data_ steps (step s))
      → Respects fl rs steps vm (run_at fl rs data_ go step index o vm)
  unfolding run_at
  run_at-Respects go step index none vm h k = same vm
  run_at-Respects go step index (some s) vm h k =
      Ensures-bind _ (λ w. Rel vm w.1) (step s vm) _ (k s vm)
        (λ (flow, vm₁) p.
          after fl rs data_ steps vm vm₁ _ p (follow_flow-Respects go index flow vm₁ h))

  run_from-Respects :
      (fuel : ℕ) (stmts : Stmts Float) (index : ℕ) (vm : AstVm Float)
      → Respects fl rs steps vm (run_from fl rs data_ fuel stmts index vm)
  unfolding run_from
  run_from-Respects zero stmts index vm = tt
  run_from-Respects (suc fuel) stmts index vm =
      run_at-Respects (run_from fl rs data_ fuel stmts) _ index (nth_stmt stmts index) vm
        (run_from-Respects fuel stmts)
        (exec_stmt-Respects (λ b vm'. run_from fl rs data_ fuel b 0 vm')
          (λ b vm'. run_from-Respects fuel b 0 vm') stmts fuel)

-- The difficulty and the limit of the machine stay, and its log is extended.
abbrev pub LogExtends : {F : Type 0} → AstVm F → AstVm F → Type 0
LogExtends {F = F} vm vm' =
    (vm'.difficulty ≡ vm.difficulty)
    × (vm'.max_iterations ≡ vm.max_iterations)
    × ((calls : List (LoggedCall F)) × (vm'.instr_log ≡ vm.instr_log ++ calls))

append_assoc {ℓ} : {A : Type ℓ} (xs ys zs : List A) → (xs ++ ys) ++ zs ≡ xs ++ (ys ++ zs)
append_assoc [] ys zs = refl
append_assoc (x ∷ xs) ys zs = ap (λ l. x ∷ l) (append_assoc xs ys zs)

append_nil {ℓ} : {A : Type ℓ} (xs : List A) → xs ++ [] ≡ xs
append_nil [] = refl
append_nil (x ∷ xs) = ap (λ l. x ∷ l) (append_nil xs)

LogExtends-trans :
    (F : Type 0) (vm vm₁ vm₂ : AstVm F) → LogExtends vm vm₁ → LogExtends vm₁ vm₂ → LogExtends vm vm₂
LogExtends-trans F vm vm₁ vm₂ (p, q, (cs, r)) (p', q', (ds, r')) =
    (p' ∙ p, q' ∙ q, (cs ++ ds, r' ∙ ap (λ xs. xs ++ ds) r ∙ append_assoc vm.instr_log cs ds))

kept :
    (F : Type 0) (vm vm' : AstVm F)
    → vm'.difficulty ≡ vm.difficulty
    → vm'.max_iterations ≡ vm.max_iterations
    → vm'.instr_log ≡ vm.instr_log
    → LogExtends vm vm'
kept F vm vm' p q r = (p, q, ([], r ∙ sym (append_nil vm.instr_log)))

set_var-kept :
    (F : Type 0) (vm : AstVm F) (id : VarId) (v : VarValue F) → LogExtends vm (set_var vm id v)
unfolding set_var
set_var-kept F vm id v = kept F vm (set_var vm id v) refl refl refl

log_instruction-extends :
    (F : Type 0) (vm : AstVm F) (op : ℕ) (vs : List (ScalarValue F))
    → LogExtends vm (log_instruction vm op vs)
unfolding log_instruction
log_instruction-extends F vm op vs = (refl, refl, (_, refl))

abbrev log_steps : (F : Type 0) → StepRelation F
log_steps F = record {
  Rel = LogExtends;
  same = λ vm. kept F vm vm refl refl refl;
  follows = LogExtends-trans F;
  sets = set_var-kept F;
  moves = λ vm t. kept F vm (record vm { time = t }) refl refl refl;
  waits = λ vm t r. kept F vm (record vm { time = t; real_time = r }) refl refl refl;
  counts = λ vm n. kept F vm (record vm { iterations = n }) refl refl refl;
  logs = log_instruction-extends F;
}

-- Whatever statements a run executes, with any jumps and loops, where it ends without a panic the machine
-- has kept its difficulty and its limit of iterations, and the log of calls is the earlier log with
-- calls added at its end.
pub run_from-LogExtends :
    (fl : FloatOps) (rs : Resolutions) (stmt_data : ℕ → Option TimeAndDifficulty) (fuel : ℕ)
    (stmts : Stmts fl.Float) (index : ℕ) (vm : AstVm fl.Float)
    → Ensures (λ r. LogExtends vm r.1) (run_from fl rs stmt_data fuel stmts index vm)
run_from-LogExtends fl rs stmt_data fuel stmts index vm =
    run_from-Respects fl rs stmt_data (log_steps fl.Float) fuel stmts index vm
