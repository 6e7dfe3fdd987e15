-- ===== src/Vm/Simplified.antt =====
-- Constant simplification (src/passes/const_simplify.rs) does not change what an expression does when the
-- machine (src/vm.rs) evaluates it.
use truth.Base.{ℕ, ◌≡◌, refl, sym, subst, Bool, true, some, List}
use truth.Base.Run.{ok, Ensures, Ensures-bind, Ensures-self, Ensures-ok, Ensures-weaken}
use truth.DiffSwitch.Related.{RelatedCases}
use truth.Ast.{
  Expr, ternary, bin_op, un_op, xcrement_op, var, call, diff_switch, lit_int, lit_float, lit_string,
  label_property, enum_const, Cases, no_cases, missing, present, IntRadix, Var, CallableName, Args,
  Pseudos,
}
use truth.Ast.Ops.{BinOpKind, UnOpKind, LabelPropertyKeyword}
use truth.Value.{FloatOps, ScalarValue}
use truth.ConstEval.{to_const}
use truth.ConstSimplify.{
  Context, fold_ternary, fold_bin_op, fold_un_op, visit_expr, visit_cases, visit_args,
  visit_pseudos, simplify_named, simplify_var, simplify_enum_const, simplify_un_op, simplify_bin_op,
  simplify_ternary, validate_call_const_args,
}
use truth.Vm.{AstVm, Eval, eval, eval_cases}
use truth.Vm.Refines.{
  Agrees, Refines, run, to_const-eval, Refines-same, Refines-self, ternary-Refines, bin_op-Refines,
  un_op-Refines, diff_switch-Refines, simplify_bin_op-eval, simplify_ternary-eval,
  simplify_un_op-eval, simplify_named-eval,
}
use truth.Vm.Constants.{
  assignable, all_assignable, var-Refines, xcrement-Refines, ternary-assignable, bin_op-assignable,
  un_op-assignable, xcrement-assignable, diff_switch-assignable, missing-assignable,
  present-assignable,
}

module _ (fl : FloatOps) (ctx : Context fl.Float) where
  open fl use {Float}

  enum_const-Refines :
      (i j : ℕ) (g : Eval fl ctx.resolutions) → Refines fl ctx (run fl ctx (enum_const i j)) g
  unfolding eval
  enum_const-Refines i j g vm a = tt

  literal-Refines :
      (e : Expr Float) (v : ScalarValue Float)
      → to_const e ≡ some v
      → Refines fl ctx (run fl ctx e) (run fl ctx e)
  literal-Refines e v p =
      Refines-self fl ctx (run fl ctx e)
        (λ vm a. subst (Ensures (λ r. Agrees fl ctx r.1)) (sym (to_const-eval fl ctx e v p vm)) a)

  int_literal-Refines :
      (x : ℕ) (radix : IntRadix)
      → Refines fl ctx (run fl ctx (lit_int x radix)) (run fl ctx (lit_int x radix))
  unfolding to_const
  int_literal-Refines x radix = literal-Refines (lit_int x radix) (ScalarValue.int x) refl

  float_literal-Refines :
      (x : Float) → Refines fl ctx (run fl ctx (lit_float x)) (run fl ctx (lit_float x))
  unfolding to_const
  float_literal-Refines x = literal-Refines (lit_float x) (ScalarValue.float x) refl

  string_literal-Refines :
      (x : List ℕ) → Refines fl ctx (run fl ctx (lit_string x)) (run fl ctx (lit_string x))
  unfolding to_const
  string_literal-Refines x = literal-Refines (lit_string x) (ScalarValue.string x) refl

  label_property-Refines :
      (i : ℕ) (k : LabelPropertyKeyword) (g : Eval fl ctx.resolutions)
      → Refines fl ctx (run fl ctx (label_property i k)) g
  unfolding eval
  label_property-Refines i k g vm a = tt

  call-Refines :
      (name : CallableName) (ps : Pseudos Float) (args : Args Float) (g : Eval fl ctx.resolutions)
      → Refines fl ctx (run fl ctx (call name ps args)) g
  unfolding eval
  call-Refines name ps args g vm a = tt

  simplified_ternary :
      (c l r c' l' r' : Expr Float)
      → Refines fl ctx (run fl ctx c) (run fl ctx c')
      → Refines fl ctx (run fl ctx l) (run fl ctx l')
      → Refines fl ctx (run fl ctx r) (run fl ctx r')
      → Ensures
          (λ e. Refines fl ctx (run fl ctx (ternary c l r)) (run fl ctx e))
          (simplify_ternary fl ctx c' l' r')
  unfolding simplify_ternary
  simplified_ternary c l r c' l' r' p q s =
      Ensures-weaken _ _ (fold_ternary fl ctx c' l' r' (to_const c'))
        (λ e k. Refines-same fl ctx _ _ _ (ternary-Refines fl ctx c l r c' l' r' p q s) k)
        (simplify_ternary-eval fl ctx c' l' r' (to_const c') refl)

  simplified_bin_op :
      (a b a' b' : Expr Float) (op : BinOpKind)
      → Refines fl ctx (run fl ctx a) (run fl ctx a')
      → Refines fl ctx (run fl ctx b) (run fl ctx b')
      → Ensures
          (λ e. Refines fl ctx (run fl ctx (bin_op a op b)) (run fl ctx e))
          (simplify_bin_op fl ctx a' op b')
  unfolding simplify_bin_op
  simplified_bin_op a b a' b' op p q =
      Ensures-weaken _ _ (fold_bin_op fl ctx a' op b' (to_const a') (to_const b'))
        (λ e k. Refines-same fl ctx _ _ _ (bin_op-Refines fl ctx a b a' b' op p q) k)
        (simplify_bin_op-eval fl ctx a' b' op (to_const a') (to_const b') refl refl)

  simplified_un_op :
      (b b' : Expr Float) (op : UnOpKind)
      → Refines fl ctx (run fl ctx b) (run fl ctx b')
      → Ensures
          (λ e. Refines fl ctx (run fl ctx (un_op op b)) (run fl ctx e))
          (simplify_un_op fl ctx op b')
  unfolding simplify_un_op
  simplified_un_op b b' op p =
      Ensures-weaken _ _ (fold_un_op fl ctx op b' (to_const b'))
        (λ e k. Refines-same fl ctx _ _ _ (un_op-Refines fl ctx b b' op p) k)
        (simplify_un_op-eval fl ctx op b' (to_const b') refl)

  simplified_var :
      (v : Var)
      → Ensures (λ e. Refines fl ctx (run fl ctx (var v)) (run fl ctx e)) (simplify_var fl ctx v)
  unfolding simplify_var
  simplified_var v =
      Ensures-weaken _ _ (simplify_named fl ctx v v.name)
        (λ e k. Refines-same fl ctx _ _ _ (var-Refines fl ctx v) k)
        (simplify_named-eval fl ctx v v.name refl)

  -- The cases of two switches, side by side.
  abbrev CasesRefine : Cases Float → Cases Float → Type 0
  CasesRefine cases cases' =
      RelatedCases (Refines fl ctx) (eval_cases fl ctx.resolutions cases)
        (eval_cases fl ctx.resolutions cases')

  nil-Related : CasesRefine no_cases no_cases
  unfolding eval_cases
  nil-Related = tt

  missing-Related :
      (cases cases' : Cases Float)
      → CasesRefine cases cases'
      → CasesRefine (missing cases) (missing cases')
  unfolding eval_cases
  missing-Related cases cases' h = (tt, h)

  present-Related :
      (e e' : Expr Float) (cases cases' : Cases Float)
      → Refines fl ctx (run fl ctx e) (run fl ctx e')
      → CasesRefine cases cases'
      → CasesRefine (present e cases) (present e' cases')
  unfolding eval_cases
  present-Related e e' cases cases' p q = (p, q)

  mutual
    unfolding visit_expr visit_cases

    visit_expr-Refines_lem :
        (e : Expr Float)
        → assignable fl ctx e ≡ true
        → Ensures (λ r. Refines fl ctx (run fl ctx e) (run fl ctx r.0)) (visit_expr fl ctx e)
    visit_expr-Refines_lem (ternary c l r) h =
        Ensures-bind _ _ (visit_expr fl ctx c) _
          (visit_expr-Refines_lem c (ternary-assignable fl ctx c l r h).0)
          (λ (c', _) p.
            Ensures-bind _ _ (visit_expr fl ctx l) _
              (visit_expr-Refines_lem l (ternary-assignable fl ctx c l r h).1)
              (λ (l', _) q.
                Ensures-bind _ _ (visit_expr fl ctx r) _
                  (visit_expr-Refines_lem r (ternary-assignable fl ctx c l r h).2)
                  (λ (r', _) s.
                    Ensures-bind _ _ (simplify_ternary fl ctx c' l' r') _
                      (simplified_ternary c l r c' l' r' p q s) (λ _ k. k))))
    visit_expr-Refines_lem (bin_op a op b) h =
        Ensures-bind _ _ (visit_expr fl ctx a) _
          (visit_expr-Refines_lem a (bin_op-assignable fl ctx a b op h).0)
          (λ (a', _) p.
            Ensures-bind _ _ (visit_expr fl ctx b) _
              (visit_expr-Refines_lem b (bin_op-assignable fl ctx a b op h).1)
              (λ (b', _) q.
                Ensures-bind _ _ (simplify_bin_op fl ctx a' op b') _
                  (simplified_bin_op a b a' b' op p q) (λ _ k. k)))
    visit_expr-Refines_lem (un_op op b) h =
        Ensures-bind _ _ (visit_expr fl ctx b) _
          (visit_expr-Refines_lem b (un_op-assignable fl ctx b op h))
          (λ (b', _) p.
            Ensures-bind _ _ (simplify_un_op fl ctx op b') _ (simplified_un_op b b' op p)
              (λ _ k. k))
    visit_expr-Refines_lem (xcrement_op op order v) h =
        xcrement-Refines fl ctx op order v (xcrement-assignable fl ctx op order v h)
    visit_expr-Refines_lem (var v) h =
        Ensures-bind _ _ (simplify_var fl ctx v) _ (simplified_var v) (λ _ k. k)
    visit_expr-Refines_lem (call name pseudos args) h =
        Ensures-bind _ _ (visit_pseudos fl ctx pseudos) _ (Ensures-self _) (λ (ps, _) _.
          Ensures-bind _ _ (visit_args fl ctx args) _ (Ensures-self _) (λ (as', _) _.
            Ensures-bind _ _ (validate_call_const_args ctx name ps as') _ (Ensures-self _)
              (λ _ _. call-Refines name pseudos args (run fl ctx (call name ps as')))))
    visit_expr-Refines_lem (diff_switch cases) h =
        Ensures-bind _ _ (visit_cases fl ctx cases) _
          (visit_cases-Refines cases (diff_switch-assignable fl ctx cases h))
          (λ (cases', _) p. diff_switch-Refines fl ctx cases cases' p)
    visit_expr-Refines_lem (lit_int x radix) h = int_literal-Refines x radix
    visit_expr-Refines_lem (lit_float x) h = float_literal-Refines x
    visit_expr-Refines_lem (lit_string x) h = string_literal-Refines x
    visit_expr-Refines_lem (label_property label keyword) h =
        label_property-Refines label keyword (run fl ctx (label_property label keyword))
    visit_expr-Refines_lem (enum_const i j) h =
        Ensures-bind _ _ (simplify_enum_const fl ctx i j) _ (Ensures-self _)
          (λ e _. enum_const-Refines i j (run fl ctx e))

    visit_cases-Refines :
        (cases : Cases Float)
        → all_assignable fl ctx cases ≡ true
        → Ensures (λ r. CasesRefine cases r.0) (visit_cases fl ctx cases)
    visit_cases-Refines no_cases h = nil-Related
    visit_cases-Refines (missing cases) h =
        Ensures-bind _ _ (visit_cases fl ctx cases) _
          (visit_cases-Refines cases (missing-assignable fl ctx cases h))
          (λ (cases', _) p. missing-Related cases cases' p)
    visit_cases-Refines (present e cases) h =
        Ensures-bind _ _ (visit_expr fl ctx e) _
          (visit_expr-Refines_lem e (present-assignable fl ctx e cases h).0)
          (λ (e', _) p.
            Ensures-bind _ _ (visit_cases fl ctx cases) _
              (visit_cases-Refines cases (present-assignable fl ctx e cases h).1)
              (λ (cases', _) q. present-Related e e' cases cases' p q))

  -- When the simplification pass turns an expression into another without a panic, the machine does the
  -- same for both. Let the machine hold the value of every cached constant and the expression increment
  -- none of them. If the evaluation of the expression gives a value and a machine, the evaluation of the
  -- simplified expression gives the same value and the same machine, which still holds the constants.
  pub visit_expr-eval :
      (e e' : Expr Float) (b : Bool) (vm vm' : AstVm Float) (v : ScalarValue Float)
      → assignable fl ctx e ≡ true
      → visit_expr fl ctx e ≡ ok (e', b)
      → Agrees fl ctx vm
      → eval fl ctx.resolutions e vm ≡ ok (v, vm')
      → Agrees fl ctx vm' × (eval fl ctx.resolutions e' vm ≡ ok (v, vm'))
  visit_expr-eval e e' b vm vm' v h p a q =
      Ensures-ok _ (eval fl ctx.resolutions e vm) (v, vm')
        (Ensures-ok (λ r. Refines fl ctx (run fl ctx e) (run fl ctx r.0)) (visit_expr fl ctx e)
          (e', b) (visit_expr-Refines_lem e h) p vm a)
        q
