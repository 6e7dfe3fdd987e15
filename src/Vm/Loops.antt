-- ===== src/Vm/Loops.antt =====
-- src/vm.rs, `AstVm::_run`: chains of conditions and loops, the step at a statement, and the run.
use truth.Base.{
  ℕ, zero, suc, ◌+◌, Bool, true, false, ◌&&◌, not, Option, none, some, ◌==◌, leb, if◌then◌else◌,
}
use truth.Base.Run.{Run, ok, panic, out_of_fuel, ◌>>=◌, expect}
use truth.BitSet.{BitSet32, contains}
use truth.Int32.{wrapping_add, wrapping_sub, lt_i32, is_negative}
use truth.Ast.{Expr, Var, Resolutions}
use truth.Ast.Stmt.{
  DiffLabel, Stmt, stmt, StmtKind, Stmts, CondBlocks, no_blocks, cond_block, nth_stmt, last_block,
}
use truth.Value.{FloatOps, ScalarValue}
use truth.Vm.{AstVm, expect_int, read_var_by_ast, write_var_by_ast, eval, eval_int, eval_cond}
use truth.Vm.Exec.{
  TimeAndDifficulty, RunResult, nominal, breaking, returning, jumping, Flow, next, to_index, leave,
  takes_branch, is_block, start_time, end_time, at_time, handle_jump, handle_block,
  handle_breakable, exec_declaration, exec_assignment, exec_expr,
}

module _ (fl : FloatOps) (resolutions : Resolutions)
    (stmt_data : ℕ → Option TimeAndDifficulty) where
  open fl use {Float}

  abbrev pub Machine : Type 0
  Machine = AstVm Float

  -- What a statement does to the machine, and the nested run of a block.
  abbrev pub Exec : Type 0
  Exec = Machine → Run (Flow Float × Machine)

  abbrev pub RunBlock : Type 0
  RunBlock = Stmts Float → Machine → Run (RunResult Float × Machine)

  -- An operation after which the next statement follows.
  unfoldable pub then_next : Run Machine → Run (Flow Float × Machine)
  then_next m = do vm ← m; ok (next, vm)

  -- A block that is entered at its start time; `k` goes on after it.
  unfoldable pub enter_block : RunBlock → Stmts Float → Stmts Float → Exec → Exec
  unfolding start_time handle_block
  enter_block rec stmts b k vm = do
    t ← start_time fl resolutions stmt_data b
    (r, vm₁) ← rec b (at_time fl resolutions stmt_data vm t)
    handle_block fl resolutions stmt_data stmts k r vm₁

  -- A chain of conditional blocks; `otherwise` is what happens when no condition takes its branch.
  unfoldable pub exec_cond_blocks : RunBlock → Stmts Float → CondBlocks Float → Exec → Exec → Exec
  unfolding takes_branch enter_block
  exec_cond_blocks rec stmts no_blocks otherwise k vm = otherwise vm
  exec_cond_blocks rec stmts (cond_block keyword cond b blocks) otherwise k vm = do
    (c, vm₁) ← eval_cond fl resolutions cond vm
    let others = exec_cond_blocks rec stmts blocks otherwise k vm₁
    if takes_branch keyword c then enter_block rec stmts b k vm₁ else others

  -- The time is set to the end of the chain's last block.
  unfoldable pub end_chain : Option (Stmts Float) → Exec
  unfolding end_time
  end_chain o vm = do
    b ← expect o
    t ← end_time fl resolutions stmt_data b
    ok (next, at_time fl resolutions stmt_data vm t)

  unfoldable pub exec_loop : ℕ → RunBlock → Stmts Float → Stmts Float → Exec
  unfolding handle_breakable start_time
  exec_loop zero rec stmts b vm = out_of_fuel
  exec_loop (suc fuel) rec stmts b vm = do
    (r, vm₁) ← rec b vm
    handle_breakable fl resolutions stmt_data stmts b
        (λ vm₂. do
          t ← start_time fl resolutions stmt_data b
          exec_loop fuel rec stmts b (at_time fl resolutions stmt_data vm₂ t))
        r vm₁

  -- The turns of a `while`, the first of which is taken.
  unfoldable pub exec_while : ℕ → RunBlock → Stmts Float → Expr Float → Stmts Float → Exec
  unfolding handle_breakable start_time
  exec_while zero rec stmts cond b vm = out_of_fuel
  exec_while (suc fuel) rec stmts cond b vm = do
    (r, vm₁) ← rec b vm
    handle_breakable fl resolutions stmt_data stmts b
        (λ vm₂. do
          (c, vm₃) ← eval_cond fl resolutions cond vm₂
          let again = do
            t ← start_time fl resolutions stmt_data b
            exec_while fuel rec stmts cond b (at_time fl resolutions stmt_data vm₃ t)
          if c then again else ok (next, vm₃))
        r vm₁

  -- `n` turns of a `times` without a clobbered variable.
  unfoldable pub exec_times : ℕ → RunBlock → Stmts Float → Stmts Float → Exec
  unfolding handle_breakable start_time
  exec_times zero rec stmts b vm = ok (next, vm)
  exec_times (suc n) rec stmts b vm = do
    t ← start_time fl resolutions stmt_data b
    (r, vm₁) ← rec b (at_time fl resolutions stmt_data vm t)
    handle_breakable fl resolutions stmt_data stmts b (λ vm₂. exec_times n rec stmts b vm₂) r vm₁

  -- The turns of a `times` whose counter is a variable, predecremented after each turn.
  unfoldable pub exec_times_clobber : ℕ → RunBlock → Stmts Float → Var → Stmts Float → Exec
  unfolding handle_breakable start_time
  exec_times_clobber zero rec stmts clobber b vm = out_of_fuel
  exec_times_clobber (suc fuel) rec stmts clobber b vm = do
    t ← start_time fl resolutions stmt_data b
    (r, vm₁) ← rec b (at_time fl resolutions stmt_data vm t)
    handle_breakable fl resolutions stmt_data stmts b
        (λ vm₂. do
          (count, vm₃) ← read_var_by_ast fl resolutions clobber vm₂
          x ← expect_int count
          let predecremented = wrapping_sub x 1
          vm₄ ← write_var_by_ast fl resolutions clobber (ScalarValue.int predecremented) vm₃
          let again = exec_times_clobber fuel rec stmts clobber b vm₄
          if predecremented == 0 then ok (next, vm₄) else again)
        r vm₁

  -- The statements by kind.
  unfoldable pub exec_kind : ℕ → RunBlock → Stmts Float → StmtKind Float → Exec
  unfolding then_next enter_block exec_cond_blocks end_chain exec_loop exec_while exec_times
      exec_times_clobber handle_jump handle_block takes_branch
  exec_kind fuel rec stmts (StmtKind.block b) vm = do
    (r, vm₁) ← rec b vm
    handle_block fl resolutions stmt_data stmts (λ vm₂. ok (next, vm₂)) r vm₁
  exec_kind fuel rec stmts (StmtKind.jump j) vm = handle_jump fl resolutions stmt_data stmts j vm
  exec_kind fuel rec stmts (StmtKind.cond_jump keyword cond j) vm = do
    (c, vm₁) ← eval_cond fl resolutions cond vm
    if takes_branch keyword c
        then handle_jump fl resolutions stmt_data stmts j vm₁
        else ok (next, vm₁)
  exec_kind fuel rec stmts (StmtKind.return none) vm = ok (leave (returning none), vm)
  exec_kind fuel rec stmts (StmtKind.return (some e)) vm = do
    (v, vm₁) ← eval fl resolutions e vm
    ok (leave (returning (some v)), vm₁)
  exec_kind fuel rec stmts (StmtKind.cond_chain blocks) vm =
      exec_cond_blocks rec stmts blocks (end_chain (last_block blocks))
        (end_chain (last_block blocks)) vm
  exec_kind fuel rec stmts (StmtKind.cond_chain_else blocks else_block) vm =
      exec_cond_blocks rec stmts blocks
        (enter_block rec stmts else_block (end_chain (some else_block)))
        (end_chain (some else_block)) vm
  exec_kind fuel rec stmts (StmtKind.loop b) vm = exec_loop fuel rec stmts b vm
  exec_kind fuel rec stmts (StmtKind.while true cond b) vm = exec_while fuel rec stmts cond b vm
  exec_kind fuel rec stmts (StmtKind.while false cond b) vm = do
    (c, vm₁) ← eval_cond fl resolutions cond vm
    if c then exec_while fuel rec stmts cond b vm₁ else end_chain (some b) vm₁
  exec_kind fuel rec stmts (StmtKind.times none count b) vm = do
    t ← end_time fl resolutions stmt_data b
    (n, vm₁) ← eval_int fl resolutions count (at_time fl resolutions stmt_data vm t)
    exec_times (if is_negative n then 0 else n) rec stmts b vm₁
  exec_kind fuel rec stmts (StmtKind.times (some clobber) count b) vm = do
    (n, vm₁) ← eval_int fl resolutions count vm
    vm₂ ← write_var_by_ast fl resolutions clobber (ScalarValue.int n) vm₁
    t ← end_time fl resolutions stmt_data b
    let vm₃ = at_time fl resolutions stmt_data vm₂ t
    if n == 0 then ok (next, vm₃) else exec_times_clobber fuel rec stmts clobber b vm₃
  exec_kind fuel rec stmts (StmtKind.expr e) vm =
      then_next (exec_expr fl resolutions stmt_data e vm)
  exec_kind fuel rec stmts (StmtKind.assignment v op e) vm =
      then_next (exec_assignment fl resolutions stmt_data v op e vm)
  exec_kind fuel rec stmts (StmtKind.declaration _ vars) vm =
      then_next (exec_declaration fl resolutions stmt_data vars vm)
  exec_kind fuel rec stmts (StmtKind.call_sub _) vm = panic
  exec_kind fuel rec stmts _ vm = ok (next, vm)

  -- The limit of iterations is reached.
  unfoldable pub at_limit : Machine → Bool
  at_limit vm = elim vm.max_iterations [ none ↦ false | some n ↦ leb n vm.iterations ]

  -- The machine waits until the time of a statement.
  unfoldable pub wait_until : ℕ → Machine → Machine
  wait_until t vm =
      if lt_i32 vm.time t
      then record vm {
        time = wrapping_add vm.time (wrapping_sub t vm.time);
        real_time = wrapping_add vm.real_time (wrapping_sub t vm.time);
      }
      else vm

  -- A statement is skipped when the machine's difficulty is not in its mask; a block never is.
  unfoldable pub is_skipped : Option ℕ → BitSet32 → StmtKind Float → Bool
  unfolding is_block
  is_skipped none mask kind = false
  is_skipped (some d) mask kind = not (is_block kind) && not (contains mask d)

  unfoldable pub lacks_difficulty : Option DiffLabel → Option ℕ → Bool
  lacks_difficulty (some _) none = true
  lacks_difficulty _ _ = false

  -- The machine waits for a statement, then skips or runs it.
  unfoldable pub exec_at : ℕ → RunBlock → Stmts Float → ℕ → StmtKind Float → Exec
  unfolding wait_until is_skipped exec_kind
  exec_at fuel rec stmts id kind vm = do
    d ← expect (stmt_data id)
    let vm₁ = wait_until d.stmt_time vm
    if is_skipped vm.difficulty d.difficulty_mask kind
        then ok (next, vm₁)
        else exec_kind fuel rec stmts kind vm₁

  -- One turn of the loop of `_run`.
  unfoldable pub exec_stmt : ℕ → RunBlock → Stmts Float → Stmt Float → Exec
  unfolding at_limit lacks_difficulty exec_at
  exec_stmt fuel rec stmts (stmt id diff_label kind) vm =
      let counted = record vm { iterations = vm.iterations + 1 } in
      let waited = exec_at fuel rec stmts id kind counted in
      if at_limit vm
      then panic
      else if lacks_difficulty diff_label vm.difficulty
      then panic
      else waited

  -- Where the run of a block goes on after a statement; `go` runs it from a statement on.
  unfoldable pub follow_flow :
      (ℕ → Machine → Run (RunResult Float × Machine))
      → ℕ
      → Flow Float
      → Machine
      → Run (RunResult Float × Machine)
  follow_flow go index next vm = go (suc index) vm
  follow_flow go index (to_index i) vm = go i vm
  follow_flow go index (leave r) vm = ok (r, vm)

  unfoldable pub run_at :
      (ℕ → Machine → Run (RunResult Float × Machine))
      → (Stmt Float → Exec)
      → ℕ
      → Option (Stmt Float)
      → Machine
      → Run (RunResult Float × Machine)
  unfolding follow_flow
  run_at go step index none vm = ok (nominal, vm)
  run_at go step index (some s) vm = do (flow, vm₁) ← step s vm; follow_flow go index flow vm₁

  -- `_run` from the statement number `index` on.
  unfoldable pub run_from : ℕ → Stmts Float → ℕ → Machine → Run (RunResult Float × Machine)
  unfolding exec_stmt run_at
  run_from zero stmts index vm = out_of_fuel
  run_from (suc fuel) stmts index vm =
      run_at (run_from fuel stmts) (exec_stmt fuel (λ b vm'. run_from fuel b 0 vm') stmts) index
        (nth_stmt stmts index) vm

  -- `run`, after the analysis of times.
  unfoldable pub finish_run : RunResult Float → Run (Option (ScalarValue Float))
  finish_run nominal = ok none
  finish_run (returning v) = ok v
  finish_run breaking = panic
  finish_run (jumping g) = panic

  unfoldable pub run : ℕ → Stmts Float → Machine → Run (Option (ScalarValue Float) × Machine)
  unfolding run_from finish_run
  run fuel stmts vm = do (r, vm₁) ← run_from fuel stmts 0 vm; v ← finish_run r; ok (v, vm₁)
