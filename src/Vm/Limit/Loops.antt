-- ===== src/Vm/Limit/Loops.antt =====
-- src/vm.rs: loops under a limit of iterations. Each turn runs the first statement of its block, which is
-- where an iteration is counted.
use truth.Base.{ℕ, zero, suc, ◌+◌, ◌≤◌, ◌<◌, ◌≡◌, refl, Option, ◌==◌, arith}
use truth.Base.Run.{Run, ok, ◌>>=◌, expect}
use truth.Ast.{Expr, Var, Resolutions}
use truth.Ast.Stmt.{Stmts, no_stmts, and_then, start_node_id, CondBlocks, no_blocks, cond_block}
use truth.Int32.{wrapping_sub}
use truth.Value.{FloatOps, ScalarValue}
use truth.Vm.{AstVm, expect_int, read_var_by_ast, write_var_by_ast, eval_cond}
use truth.Vm.Exec.{
  TimeAndDifficulty, RunResult, nominal, breaking, returning, jumping, Flow, takes_branch,
  start_time, end_time, handle_block, handle_breakable,
}
use truth.Vm.Loops.{
  enter_block, exec_cond_blocks, end_chain, exec_loop, exec_while, exec_times, exec_times_clobber,
}
use truth.Vm.Limit.{
  Ends, Ends-bind, Any, expect-Ends, Ends-if, Within, Keeps, expect_int-Ends, read_var-Keeps,
  write_var-Keeps,
}
use truth.Vm.Limit.Simple.{handle_goto-Keeps, eval_cond-Keeps, start_time-Ends, end_time-Ends}

-- The number of iterations after a block: one more than before, but for a block without statements.
abbrev pub after : {F : Type 0} → ℕ → Stmts F → ℕ
after low no_stmts = low
after low (and_then _ _) = suc low

after-grows : {F : Type 0} (low : ℕ) (b : Stmts F) → low ≤ after low b
after-grows low no_stmts = omega arith
after-grows low (and_then _ _) = omega arith

pub Keeps-weaken {ℓ} :
    {F : Type 0} {A : Type ℓ} (limit low l : ℕ) (m : Run (A × AstVm F))
    → low ≤ l
    → Keeps limit l m
    → Keeps limit low m
Keeps-weaken limit low l (ok (a, vm)) p (e, (q, r)) = (e, (omega arith, r))
Keeps-weaken limit low l Run.err p h = tt
Keeps-weaken limit low l Run.panic p h = tt
Keeps-weaken limit low l Run.out_of_fuel p h = h

-- No number of iterations is within a limit below it.
pub beyond : {F : Type 0} (limit low : ℕ) (vm : AstVm F) → limit < 0 + low → Within limit low vm → ⊥
beyond limit low vm p (e, (q, r)) = omega arith

module _ (fl : FloatOps) (rs : Resolutions) (data_ : ℕ → Option TimeAndDifficulty) (limit : ℕ) where
  open fl use {Float}

  abbrev Vm : Type 0
  Vm = AstVm Float

  -- A nested run, from some number of iterations on, ends and counts an iteration.
  abbrev pub Counts : ℕ → (Stmts Float → Vm → Run (RunResult Float × Vm)) → Type 0
  Counts base rec =
      (low : ℕ) (b : Stmts Float) (vm : Vm)
      → base ≤ low
      → Within limit low vm
      → Keeps limit (after low b) (rec b vm)

  -- Only a block with a statement has a start time.
  Ends-start {ℓ} :
      {A : Type ℓ} (P : A → Type 0) (low : ℕ) (b : Stmts Float) (f : ℕ → Run A)
      → ((t : ℕ) → after low b ≡ suc low → Ends P (f t))
      → Ends P (start_time fl rs data_ b >>= f)
  unfolding start_time start_node_id
  Ends-start P low no_stmts f h = tt
  Ends-start P low (and_then s b) f h =
      Ends-bind Any P (start_time fl rs data_ (and_then s b)) f
        (start_time-Ends fl rs data_ limit low (and_then s b)) (λ t _. h t refl)

  pub handle_block-Keeps :
      (low : ℕ) (stmts : Stmts Float) (k : Vm → Run (Flow Float × Vm)) (r : RunResult Float)
      (vm : Vm)
      → Within limit low vm
      → ((vm₁ : Vm) → Within limit low vm₁ → Keeps limit low (k vm₁))
      → Keeps limit low (handle_block fl rs data_ stmts k r vm)
  unfolding handle_block
  handle_block-Keeps low stmts k nominal vm h p = p vm h
  handle_block-Keeps low stmts k breaking vm h p = h
  handle_block-Keeps low stmts k (returning v) vm h p = h
  handle_block-Keeps low stmts k (jumping g) vm h p =
      handle_goto-Keeps fl rs data_ limit low stmts g vm h

  handle_breakable-Keeps :
      (low : ℕ) (stmts b : Stmts Float) (k : Vm → Run (Flow Float × Vm)) (r : RunResult Float)
      (vm : Vm)
      → Within limit low vm
      → ((vm₁ : Vm) → Within limit low vm₁ → Keeps limit low (k vm₁))
      → Keeps limit low (handle_breakable fl rs data_ stmts b k r vm)
  unfolding handle_breakable
  handle_breakable-Keeps low stmts b k nominal vm h p = p vm h
  handle_breakable-Keeps low stmts b k breaking vm h p =
      Ends-bind Any _ (end_time fl rs data_ b) _ (end_time-Ends fl rs data_ limit low b) (λ _ _. h)
  handle_breakable-Keeps low stmts b k (returning v) vm h p = h
  handle_breakable-Keeps low stmts b k (jumping g) vm h p =
      handle_goto-Keeps fl rs data_ limit low stmts g vm h

  pub end_chain-Keeps :
      (low : ℕ) (o : Option (Stmts Float)) (vm : Vm)
      → Within limit low vm
      → Keeps limit low (end_chain fl rs data_ o vm)
  unfolding end_chain
  end_chain-Keeps low o vm h = Ends-bind Any _ (expect o) _ (expect-Ends o) (λ b _.
      Ends-bind Any _ (end_time fl rs data_ b) _ (end_time-Ends fl rs data_ limit low b) (λ _ _. h))

  module _ (base : ℕ) (rec : Stmts Float → Vm → Run (RunResult Float × Vm))
      (counts : Counts base rec) (stmts : Stmts Float) where
    -- What follows the nested run of a block, at the number of iterations after it.
    pub rec-Keeps {ℓ} :
        {A : Type ℓ} (low : ℕ) (b : Stmts Float) (vm : Vm) (f : RunResult Float × Vm → Run (A × Vm))
        → base ≤ low
        → Within limit low vm
        → ((r : RunResult Float) (vm₁ : Vm)
            → Within limit (after low b) vm₁
            → Keeps limit (after low b) (f (r, vm₁)))
        → Keeps limit low (rec b vm >>= f)
    rec-Keeps low b vm f p h k =
        Keeps-weaken limit low (after low b) _ (after-grows low b)
          (Ends-bind _ _ (rec b vm) f (counts low b vm p h) (λ (r, vm₁) q. k r vm₁ q))

    pub enter_block-Keeps :
        (low : ℕ) (b : Stmts Float) (k : Vm → Run (Flow Float × Vm)) (vm : Vm)
        → base ≤ low
        → Within limit low vm
        → ((l : ℕ) (vm₁ : Vm) → Within limit l vm₁ → Keeps limit l (k vm₁))
        → Keeps limit low (enter_block fl rs data_ rec stmts b k vm)
    unfolding enter_block
    enter_block-Keeps low b k vm p h q =
        Ends-bind Any _ (start_time fl rs data_ b) _ (start_time-Ends fl rs data_ limit low b)
          (λ t _. rec-Keeps low b _ _ p h (λ r vm₁ h₁. handle_block-Keeps _ stmts k r vm₁ h₁ (q _)))

    pub cond_blocks-Keeps :
        (low : ℕ) (blocks : CondBlocks Float) (o k : Vm → Run (Flow Float × Vm)) (vm : Vm)
        → base ≤ low
        → Within limit low vm
        → ((vm₁ : Vm) → Within limit low vm₁ → Keeps limit low (o vm₁))
        → ((l : ℕ) (vm₁ : Vm) → Within limit l vm₁ → Keeps limit l (k vm₁))
        → Keeps limit low (exec_cond_blocks fl rs data_ rec stmts blocks o k vm)
    unfolding exec_cond_blocks
    cond_blocks-Keeps low no_blocks o k vm p h q q' = q vm h
    cond_blocks-Keeps low (cond_block keyword cond b blocks) o k vm p h q q' =
        Ends-bind _ _ (eval_cond fl rs cond vm) _ (eval_cond-Keeps fl rs data_ limit low cond vm h)
          (λ (c, vm₁) h₁.
            Ends-if _ (takes_branch keyword c) _ _ (enter_block-Keeps low b k vm₁ p h₁ q')
              (cond_blocks-Keeps low blocks o k vm₁ p h₁ q q'))

    pub loop-Keeps :
        (n low : ℕ) (b : Stmts Float) (vm : Vm)
        → base ≤ low
        → limit < n + low
        → Within limit low vm
        → Keeps limit low (exec_loop fl rs data_ n rec stmts b vm)
    unfolding exec_loop
    loop-Keeps zero low b vm p q h = absurd (beyond limit low vm q h)
    loop-Keeps (suc n) low b vm p q h = rec-Keeps low b vm _ p h (λ r vm₁ h₁.
        handle_breakable-Keeps (after low b) stmts b _ r vm₁ h₁ (λ vm₂ h₂.
          Ends-start _ low b _
            (λ t e. loop-Keeps n (after low b) b _ (omega arith) (omega arith) h₂)))

    pub while-Keeps :
        (n low : ℕ) (cond : Expr Float) (b : Stmts Float) (vm : Vm)
        → base ≤ low
        → limit < n + low
        → Within limit low vm
        → Keeps limit low (exec_while fl rs data_ n rec stmts cond b vm)
    unfolding exec_while
    while-Keeps zero low cond b vm p q h = absurd (beyond limit low vm q h)
    while-Keeps (suc n) low cond b vm p q h = rec-Keeps low b vm _ p h (λ r vm₁ h₁.
        handle_breakable-Keeps (after low b) stmts b _ r vm₁ h₁ (λ vm₂ h₂.
          Ends-bind _ _ (eval_cond fl rs cond vm₂) _
            (eval_cond-Keeps fl rs data_ limit (after low b) cond vm₂ h₂)
            (λ (c, vm₃) h₃.
              Ends-if _ c _ _
                (Ends-start _ low b _
                  (λ t e. while-Keeps n (after low b) cond b _ (omega arith) (omega arith) h₃))
                h₃)))

    pub times-Keeps :
        (n low : ℕ) (b : Stmts Float) (vm : Vm)
        → base ≤ low
        → Within limit low vm
        → Keeps limit low (exec_times fl rs data_ n rec stmts b vm)
    unfolding exec_times
    times-Keeps zero low b vm p h = h
    times-Keeps (suc n) low b vm p h = Ends-start _ low b _ (λ t e.
        rec-Keeps low b _ _ p h (λ r vm₁ h₁.
          handle_breakable-Keeps (after low b) stmts b _ r vm₁ h₁
            (λ vm₂ h₂. times-Keeps n (after low b) b vm₂ (omega arith) h₂)))

    pub times_clobber-Keeps :
        (n low : ℕ) (clobber : Var) (b : Stmts Float) (vm : Vm)
        → base ≤ low
        → limit < n + low
        → Within limit low vm
        → Keeps limit low (exec_times_clobber fl rs data_ n rec stmts clobber b vm)
    unfolding exec_times_clobber
    times_clobber-Keeps zero low clobber b vm p q h = absurd (beyond limit low vm q h)
    times_clobber-Keeps (suc n) low clobber b vm p q h = Ends-start _ low b _ (λ t e.
        rec-Keeps low b _ _ p h (λ r vm₁ h₁.
          handle_breakable-Keeps (after low b) stmts b _ r vm₁ h₁ (λ vm₂ h₂.
            Ends-bind _ _ (read_var_by_ast fl rs clobber vm₂) _
              (read_var-Keeps fl rs limit (after low b) clobber vm₂ h₂)
              (λ (count, vm₃) h₃.
                Ends-bind Any _ (expect_int count) _ (expect_int-Ends fl rs limit low count) (λ x _.
                  Ends-bind _ _
                    (write_var_by_ast fl rs clobber (ScalarValue.int (wrapping_sub x 1)) vm₃) _
                    (write_var-Keeps fl rs limit (after low b) clobber _ vm₃ h₃)
                    (λ vm₄ h₄. Ends-if _ (wrapping_sub x 1 == 0) _ _ h₄ (
                      times_clobber-Keeps n (after low b) clobber b vm₄ (omega arith) (omega arith)
                        h₄)))))))
