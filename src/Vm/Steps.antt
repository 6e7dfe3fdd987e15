-- ===== src/Vm/Steps.antt =====
-- src/vm.rs: a relation between machines that every change of the machine respects is respected by the
-- evaluation of expressions and by simple statements.
use truth.Base.{ℕ, ◌==◌, Option, none, some, List, Bool-cases, inl, inr}
use truth.Base.Run.{Run, ◌>>=◌, expect, Ensures, Ensures-bind, Ensures-self, Ensures-weaken}
use truth.DiffSwitch.{select_diff_switch_case}
use truth.DiffSwitch.Related.{Related?, RelatedCases, select_diff_switch_case-Related}
use truth.Ast.{
  Expr, ternary, bin_op, un_op, xcrement_op, var, call, diff_switch, lit_int, lit_float, lit_string,
  label_property, enum_const, Cases, no_cases, missing, present, Var, Resolutions,
}
use truth.Ast.Ops.{VarSigil, as_ty_sigil}
use truth.Value.{FloatOps, ScalarValue, cast_by_ty_sigil}
use truth.ConstEval.{binop_const_eval}
use truth.Vm.{
  VarId, VarValue, value, special, AstVm, Eval, set_var, log_instruction, expect_int,
  var_id_from_name, read_as_type, read_held, read_var_by_ast, write_var_by_ast, eval_un_op, eval,
  eval_cases, xcremented,
}

pub record StepRelation (F : Type 0) : Type 1 where
  pub Rel : AstVm F → AstVm F → Type 0
  pub same : (vm : AstVm F) → Rel vm vm
  pub follows : (vm vm₁ vm₂ : AstVm F) → Rel vm vm₁ → Rel vm₁ vm₂ → Rel vm vm₂
  pub sets : (vm : AstVm F) (id : VarId) (v : VarValue F) → Rel vm (set_var vm id v)
  pub moves : (vm : AstVm F) (t : ℕ) → Rel vm (record vm { time = t })
  pub waits : (vm : AstVm F) (t r : ℕ) → Rel vm (record vm { time = t; real_time = r })
  pub counts : (vm : AstVm F) (n : ℕ) → Rel vm (record vm { iterations = n })
  pub logs :
      (vm : AstVm F) (opcode : ℕ) (vs : List (ScalarValue F))
      → Rel vm (log_instruction vm opcode vs)

module _ (fl : FloatOps) (rs : Resolutions) (steps : StepRelation fl.Float) where
  open fl use {Float}
  open steps use {Rel, same, follows, sets, logs}

  -- A result beside which there is a machine that the first one is related to.
  abbrev pub Respects {ℓ} : {A : Type ℓ} → AstVm Float → Run (A × AstVm Float) → Type 0
  Respects vm m = Ensures (λ r. Rel vm r.1) m

  abbrev pub RespectsVm : AstVm Float → Run (AstVm Float) → Type 0
  RespectsVm vm m = Ensures (Rel vm) m

  read_held-Respects :
      (sigil : Option VarSigil) (id : VarId) (vm : AstVm Float) (o : Option (VarValue Float))
      → Respects vm (read_held fl rs sigil id vm o)
  unfolding read_held
  read_held-Respects sigil id vm none = tt
  read_held-Respects sigil id vm (some (value v)) =
      Ensures-bind _ (λ r. Rel vm r.1) (expect (cast_by_ty_sigil fl v sigil)) _ (Ensures-self _)
        (λ _ _. same vm)
  read_held-Respects sigil id vm (some (special d)) =
      Ensures-bind _ (λ r. Rel vm r.1) (read_as_type fl rs d sigil) _ (Ensures-self _)
        (λ (v, d') _. sets vm id (special d'))

  pub read_var_by_ast-Respects :
      (v : Var) (vm : AstVm Float) → Respects vm (read_var_by_ast fl rs v vm)
  unfolding read_var_by_ast
  read_var_by_ast-Respects v vm =
      Ensures-bind _ _ (var_id_from_name fl rs v.name) _ (Ensures-self _)
        (λ id _. read_held-Respects v.ty_sigil id vm (vm.var_values id))

  pub write_var_by_ast-Respects :
      (v : Var) (x : ScalarValue Float) (vm : AstVm Float)
      → RespectsVm vm (write_var_by_ast fl rs v x vm)
  unfolding write_var_by_ast
  write_var_by_ast-Respects v x vm =
      Ensures-bind _ _ (var_id_from_name fl rs v.name) _ (Ensures-self _)
        (λ id _. sets vm id (value x))

  -- Every evaluation does.
  abbrev Good : Eval fl rs → Eval fl rs → Type 0
  Good f g = (vm : AstVm Float) → Respects vm (f vm)

  selected-Respects :
      (o : Option (Eval fl rs))
      → Related? Good o o
      → (vm : AstVm Float) → Respects vm (expect o >>= λ case. case vm)
  selected-Respects none h vm = tt
  selected-Respects (some f) h vm = h vm

  mutual
    unfolding eval eval_cases

    pub eval-Respects : (e : Expr Float) (vm : AstVm Float) → Respects vm (eval fl rs e vm)
    eval-Respects (ternary c l r) vm =
        Ensures-bind _ (λ w. Rel vm w.1) (eval fl rs c vm) _ (eval-Respects c vm)
          (λ (x, vm₁) p.
            Ensures-bind _ (λ w. Rel vm w.1) (expect_int x) _ (Ensures-self _)
              (λ n _. elim (Bool-cases (n == 0)) [
                | inl e ↦ rw e (
                    Ensures-weaken _ (λ w. Rel vm w.1) (eval fl rs r vm₁)
                      (λ w q. follows vm vm₁ w.1 p q) (eval-Respects r vm₁))
                | inr e ↦ rw e (
                    Ensures-weaken _ (λ w. Rel vm w.1) (eval fl rs l vm₁)
                      (λ w q. follows vm vm₁ w.1 p q) (eval-Respects l vm₁))
              ]))
    eval-Respects (bin_op a op b) vm =
        Ensures-bind _ _ (eval fl rs a vm) _ (eval-Respects a vm) (λ (x, vm₁) p.
          Ensures-bind _ _ (eval fl rs b vm₁) _ (eval-Respects b vm₁) (λ (y, vm₂) q.
            Ensures-bind _ _ (binop_const_eval fl op x y) _ (Ensures-self _)
              (λ _ _. follows vm vm₁ vm₂ p q)))
    eval-Respects (un_op op b) vm =
        Ensures-bind _ _ (eval fl rs b vm) _ (eval-Respects b vm) (λ (x, vm₁) p.
          Ensures-bind _ _ (eval_un_op fl rs op (as_ty_sigil op) x) _ (Ensures-self _) (λ _ _. p))
    eval-Respects (xcrement_op op order v) vm =
        Ensures-bind _ _ (read_var_by_ast fl rs v vm) _ (read_var_by_ast-Respects v vm)
          (λ (x, vm₁) p. Ensures-bind _ _ (expect_int x) _ (Ensures-self _) (λ n _.
            Ensures-bind _ _ (write_var_by_ast fl rs v (ScalarValue.int (xcremented op n)) vm₁) _
              (write_var_by_ast-Respects v (ScalarValue.int (xcremented op n)) vm₁)
              (λ vm₂ q. follows vm vm₁ vm₂ p q)))
    eval-Respects (var v) vm = read_var_by_ast-Respects v vm
    eval-Respects (call _ _ _) vm = tt
    eval-Respects (diff_switch cases) vm =
        Ensures-bind _ _ (expect vm.difficulty) _ (Ensures-self _) (λ d _.
          selected-Respects (select_diff_switch_case (eval_cases fl rs cases) d)
            (select_diff_switch_case-Related Good (eval_cases fl rs cases) (eval_cases fl rs cases)
              d (eval_cases-Respects cases))
            vm)
    eval-Respects (lit_int _ _) vm = same vm
    eval-Respects (lit_float _) vm = same vm
    eval-Respects (lit_string _) vm = same vm
    eval-Respects (label_property _ _) vm = tt
    eval-Respects (enum_const _ _) vm = tt

    eval_cases-Respects :
        (cases : Cases Float) → RelatedCases Good (eval_cases fl rs cases) (eval_cases fl rs cases)
    eval_cases-Respects no_cases = tt
    eval_cases-Respects (missing cases) = (tt, eval_cases-Respects cases)
    eval_cases-Respects (present e cases) = (eval-Respects e, eval_cases-Respects cases)
