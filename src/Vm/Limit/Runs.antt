-- ===== src/Vm/Limit/Runs.antt =====
-- src/vm.rs, `AstVm::_run` under `with_max_iterations`.
use truth.Base.{
  ℕ, zero, suc, ◌+◌, ◌≤◌, ◌<◌, ◌≡◌, refl, Bool, true, false, Bool-cases, inl, inr, Option, none,
  some, ◌==◌, leb, subst, sym, if◌then◌else◌, arith,
}
use truth.Base.Run.{Run, ok, expect}
use truth.Int32.{lt_i32, is_negative}
use truth.Ast.{Resolutions}
use truth.Ast.Stmt.{Stmt, stmt, StmtKind, Stmts, no_stmts, and_then, last_block, nth_stmt}
use truth.Value.{FloatOps, ScalarValue}
use truth.Vm.{AstVm, eval, eval_int, eval_cond, write_var_by_ast}
use truth.Vm.Exec.{
  TimeAndDifficulty, RunResult, nominal, breaking, returning, jumping, Flow, next, to_index, leave,
  takes_branch, end_time,
}
use truth.Vm.Loops.{
  exec_kind, at_limit, wait_until, is_skipped, lacks_difficulty, exec_at, exec_stmt, follow_flow,
  run_at, run_from, finish_run, run,
}
use truth.Vm.Limit.{
  Ends, Ends-bind, Any, expect-Ends, Ends-if, Within, Keeps, eval-Keeps, write_var-Keeps,
}
use truth.Vm.Limit.Simple.{
  eval_int-Keeps, eval_cond-Keeps, end_time-Ends, handle_jump-Keeps, exec_declaration-Keeps,
  exec_assignment-Keeps, exec_expr-Keeps, then_next-Keeps,
}
use truth.Vm.Limit.Loops.{
  after, Keeps-weaken, beyond, Counts, handle_block-Keeps, end_chain-Keeps, rec-Keeps,
  enter_block-Keeps, cond_blocks-Keeps, loop-Keeps, while-Keeps, times-Keeps, times_clobber-Keeps,
}

limit-not_reached :
    (limit i : ℕ) (o : Option ℕ)
    → o ≡ some limit
    → (elim o [ none ↦ false | some n ↦ leb n i ]) ≡ false
    → suc i ≤ limit
limit-not_reached limit i none h p = absurd (cc h)
limit-not_reached limit i (some n) h p = ground arith

-- A panic behind a test.
Ends-guard {ℓ} :
    {A : Type ℓ} (P : A → Type 0) (b : Bool) (m : Run A)
    → (b ≡ false → Ends P m)
    → Ends P (if b then Run.panic else m)
Ends-guard P true m h = tt
Ends-guard P false m h = h refl

module _ (fl : FloatOps) (rs : Resolutions) (data_ : ℕ → Option TimeAndDifficulty) (limit : ℕ) where
  open fl use {Float}

  abbrev Vm : Type 0
  Vm = AstVm Float

  counted-Within :
      (low : ℕ) (vm : Vm)
      → at_limit fl rs data_ vm ≡ false
      → Within limit low vm
      → Within limit (suc low) (record vm { iterations = vm.iterations + 1 })
  unfolding at_limit
  counted-Within low vm p (e, (q, r)) =
      let s = limit-not_reached limit vm.iterations vm.max_iterations e p in
      (e, (omega arith, omega arith))

  wait_until-Within :
      (low t : ℕ) (vm : Vm) → Within limit low vm → Within limit low (wait_until fl rs data_ t vm)
  unfolding wait_until
  wait_until-Within low t vm h = elim (Bool-cases (lt_i32 vm.time t)) [
    | inl e ↦ rw e h
    | inr e ↦ rw e h
  ]

  module _ (base : ℕ) (rec : Stmts Float → Vm → Run (RunResult Float × Vm))
      (counts : Counts fl rs data_ limit base rec) (stmts : Stmts Float) where
    kind-Keeps :
        (n low : ℕ) (kind : StmtKind Float) (vm : Vm)
        → base ≤ low
        → limit < n + low
        → Within limit low vm
        → Keeps limit low (exec_kind fl rs data_ n rec stmts kind vm)
    unfolding exec_kind
    kind-Keeps n low (StmtKind.block b) vm p q h =
        rec-Keeps fl rs data_ limit base rec counts stmts low b vm _ p h (λ r vm₁ h₁.
          handle_block-Keeps fl rs data_ limit (after low b) stmts (λ vm₂. ok (next, vm₂)) r vm₁ h₁
            (λ vm₂ h₂. h₂))
    kind-Keeps n low (StmtKind.cond_chain blocks) vm p q h =
        cond_blocks-Keeps fl rs data_ limit base rec counts stmts low blocks _ _ vm p h
          (end_chain-Keeps fl rs data_ limit low (last_block blocks))
          (λ l. end_chain-Keeps fl rs data_ limit l (last_block blocks))
    kind-Keeps n low (StmtKind.cond_chain_else blocks b) vm p q h =
        cond_blocks-Keeps fl rs data_ limit base rec counts stmts low blocks _ _ vm p h
          (λ vm₁ h₁.
            enter_block-Keeps fl rs data_ limit base rec counts stmts low b _ vm₁ p h₁
              (λ l. end_chain-Keeps fl rs data_ limit l (some b)))
          (λ l. end_chain-Keeps fl rs data_ limit l (some b))
    kind-Keeps n low (StmtKind.loop b) vm p q h =
        loop-Keeps fl rs data_ limit base rec counts stmts n low b vm p q h
    kind-Keeps n low (StmtKind.while true cond b) vm p q h =
        while-Keeps fl rs data_ limit base rec counts stmts n low cond b vm p q h
    kind-Keeps n low (StmtKind.while false cond b) vm p q h =
        Ends-bind _ _ (eval_cond fl rs cond vm) _ (eval_cond-Keeps fl rs data_ limit low cond vm h)
          (λ (c, vm₁) h₁.
            Ends-if _ c _ _
              (while-Keeps fl rs data_ limit base rec counts stmts n low cond b vm₁ p q h₁)
              (end_chain-Keeps fl rs data_ limit low (some b) vm₁ h₁))
    kind-Keeps n low (StmtKind.times none count b) vm p q h =
        Ends-bind Any _ (end_time fl rs data_ b) _ (end_time-Ends fl rs data_ limit low b) (λ t _.
          Ends-bind _ _ (eval_int fl rs count _) _ (eval_int-Keeps fl rs data_ limit low count _ h)
            (λ (x, vm₁) h₁.
              times-Keeps fl rs data_ limit base rec counts stmts (if is_negative x then 0 else x)
                low b vm₁ p h₁))
    kind-Keeps n low (StmtKind.times (some clobber) count b) vm p q h =
        Ends-bind _ _ (eval_int fl rs count vm) _ (eval_int-Keeps fl rs data_ limit low count vm h)
          (λ (x, vm₁) h₁.
            Ends-bind _ _ (write_var_by_ast fl rs clobber (ScalarValue.int x) vm₁) _
              (write_var-Keeps fl rs limit low clobber _ vm₁ h₁)
              (λ vm₂ h₂.
                Ends-bind Any _ (end_time fl rs data_ b) _ (end_time-Ends fl rs data_ limit low b)
                  (λ t _. Ends-if _ (x == 0) _ _ h₂ (
                    times_clobber-Keeps fl rs data_ limit base rec counts stmts n low clobber b _ p
                      q h₂))))
    kind-Keeps n low (StmtKind.jump j) vm p q h =
        handle_jump-Keeps fl rs data_ limit low stmts j vm h
    kind-Keeps n low (StmtKind.cond_jump k cond j) vm p q h =
        Ends-bind _ _ (eval_cond fl rs cond vm) _ (eval_cond-Keeps fl rs data_ limit low cond vm h)
          (λ (c, vm₁) h₁.
            Ends-if _ (takes_branch k c) _ _
              (handle_jump-Keeps fl rs data_ limit low stmts j vm₁ h₁) h₁)
    kind-Keeps n low (StmtKind.return none) vm p q h = h
    kind-Keeps n low (StmtKind.return (some e)) vm p q h =
        Ends-bind _ _ (eval fl rs e vm) _ (eval-Keeps fl rs limit low e vm h) (λ (v, vm₁) h₁. h₁)
    kind-Keeps n low (StmtKind.expr e) vm p q h =
        then_next-Keeps fl rs data_ limit low _ (exec_expr-Keeps fl rs data_ limit low e vm h)
    kind-Keeps n low (StmtKind.assignment v op e) vm p q h =
        then_next-Keeps fl rs data_ limit low _
          (exec_assignment-Keeps fl rs data_ limit low v op e vm h)
    kind-Keeps n low (StmtKind.declaration k vars) vm p q h =
        then_next-Keeps fl rs data_ limit low _
          (exec_declaration-Keeps fl rs data_ limit low vars vm h)
    kind-Keeps n low (StmtKind.call_sub _) vm p q h = tt
    kind-Keeps n low _ vm p q h = h

    at-Keeps :
        (n low id : ℕ) (kind : StmtKind Float) (vm : Vm)
        → base ≤ low
        → limit < n + low
        → Within limit low vm
        → Keeps limit low (exec_at fl rs data_ n rec stmts id kind vm)
    unfolding exec_at
    at-Keeps n low id kind vm p q h = Ends-bind Any _ (expect (data_ id)) _ (expect-Ends _) (λ d _.
        Ends-if _ (is_skipped fl rs data_ vm.difficulty d.difficulty_mask kind) _ _
          (wait_until-Within low d.stmt_time vm h)
          (kind-Keeps n low kind _ p q (wait_until-Within low d.stmt_time vm h)))

    -- A statement ends and counts an iteration.
    stmt-Keeps :
        (n low : ℕ) (s : Stmt Float) (vm : Vm)
        → base ≤ suc low
        → limit < suc n + low
        → Within limit low vm
        → Keeps limit (suc low) (exec_stmt fl rs data_ n rec stmts s vm)
    unfolding exec_stmt
    stmt-Keeps n low (stmt id label kind) vm p q h = Ends-guard _ (at_limit fl rs data_ vm) _ (λ e.
        Ends-if _ (lacks_difficulty fl rs data_ label vm.difficulty) _ _ tt
          (at-Keeps n (suc low) id kind _ p (omega arith) (counted-Within low vm e h)))

  flow-Keeps :
      (low : ℕ) (go : ℕ → Vm → Run (RunResult Float × Vm)) (index : ℕ) (flow : Flow Float) (vm : Vm)
      → ((i : ℕ) → Keeps limit low (go i vm))
      → Within limit low vm
      → Keeps limit low (follow_flow fl rs data_ go index flow vm)
  unfolding follow_flow
  flow-Keeps low go index next vm h p = h (suc index)
  flow-Keeps low go index (to_index i) vm h p = h i
  flow-Keeps low go index (leave r) vm h p = p

  -- A run that is at a statement counts an iteration.
  abbrev turned : ℕ → Option (Stmt Float) → ℕ
  turned low none = low
  turned low (some _) = suc low

  run_at-Keeps :
      (n low : ℕ) (rec : Stmts Float → Vm → Run (RunResult Float × Vm))
      (go : ℕ → Vm → Run (RunResult Float × Vm)) (stmts : Stmts Float) (index : ℕ)
      (s : Option (Stmt Float)) (vm : Vm)
      → Counts fl rs data_ limit (suc low) rec
      → ((i : ℕ) (vm₁ : Vm) → Within limit (suc low) vm₁ → Keeps limit (suc low) (go i vm₁))
      → limit < suc n + low
      → Within limit low vm
      → Keeps limit
          (turned low s)
          (run_at fl rs data_ go (exec_stmt fl rs data_ n rec stmts) index s vm)
  unfolding run_at
  run_at-Keeps n low rec go stmts index none vm c g p h = h
  run_at-Keeps n low rec go stmts index (some s) vm c g p h =
      Ends-bind _ _ (exec_stmt fl rs data_ n rec stmts s vm) _
        (stmt-Keeps (suc low) rec c stmts n low s vm (omega arith) p h)
        (λ (flow, vm₁) h₁. flow-Keeps (suc low) go index flow vm₁ (λ i. g i vm₁ h₁) h₁)

  after-turned : (low : ℕ) (b : Stmts Float) → after low b ≡ turned low (nth_stmt b 0)
  unfolding nth_stmt
  after-turned low no_stmts = refl
  after-turned low (and_then s b) = refl

  low-turned : (low : ℕ) (s : Option (Stmt Float)) → low ≤ turned low s
  low-turned low none = omega arith
  low-turned low (some s) = omega arith

  run_from-Keeps :
      (n low : ℕ) (stmts : Stmts Float) (index : ℕ) (vm : Vm)
      → limit < n + low
      → Within limit low vm
      → Keeps limit (turned low (nth_stmt stmts index)) (run_from fl rs data_ n stmts index vm)
  unfolding run_from
  run_from-Keeps zero low stmts index vm p h = absurd (beyond limit low vm p h)
  run_from-Keeps (suc n) low stmts index vm p h =
      run_at-Keeps n low _ _ stmts index (nth_stmt stmts index) vm
        (λ l b vm₁ q h₁.
          subst (λ m. Keeps limit m (run_from fl rs data_ n b 0 vm₁)) (sym (after-turned l b))
            (run_from-Keeps n l b 0 vm₁ (omega arith) h₁))
        (λ i vm₁ h₁.
          Keeps-weaken limit (suc low) _ _ (low-turned (suc low) (nth_stmt stmts i))
            (run_from-Keeps n (suc low) stmts i vm₁ (omega arith) h₁))
        p h

  finish_run-Ends : (r : RunResult Float) → Ends Any (finish_run fl rs data_ r)
  unfolding finish_run
  finish_run-Ends nominal = tt
  finish_run-Ends (returning v) = tt
  finish_run-Ends breaking = tt
  finish_run-Ends (jumping g) = tt

  -- With a limit of iterations that is not passed yet, and with more fuel than the iterations that are
  -- left, a run ends, with a value, an error or a panic; after a value the iterations are at most the
  -- limit, and not fewer than before.
  pub run-Ends :
      (fuel : ℕ) (stmts : Stmts Float) (vm : AstVm Float)
      → vm.max_iterations ≡ some limit
      → vm.iterations ≤ limit
      → limit < fuel + vm.iterations
      → Ends (λ r. Within limit vm.iterations r.1) (run fl rs data_ fuel stmts vm)
  unfolding run
  run-Ends fuel stmts vm e p q =
      Ends-bind _ _ (run_from fl rs data_ fuel stmts 0 vm) _
        (Keeps-weaken limit vm.iterations _ _ (low-turned vm.iterations (nth_stmt stmts 0))
          (run_from-Keeps fuel vm.iterations stmts 0 vm q (e, (omega arith, p))))
        (λ (r, vm₁) h. Ends-bind Any _ (finish_run fl rs data_ r) _ (finish_run-Ends r) (λ _ _. h))
