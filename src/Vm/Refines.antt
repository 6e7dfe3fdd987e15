-- ===== src/Vm/Refines.antt =====
-- When the evaluation of one expression by the machine (src/vm.rs) refines that of another, and that it
-- does so for the rewritings of src/passes/const_simplify.rs.
use truth.Base.{
  ℕ, ◌≡◌, refl, sym, ◌∙◌, arith, ◌==◌, Option, none, some, if◌then◌else◌, Bool-cases, inl, inr,
}
use truth.Base.Assoc
use truth.Base.Run.{
  ok, ◌>>=◌, expect, Ensures, Ensures-bind, Ensures-self, Ensures-both, Ensures-weaken,
}
use truth.DiffSwitch.{select_diff_switch_case}
use truth.DiffSwitch.Related.{Related?, RelatedCases, select_diff_switch_case-Related}
use truth.Ast.{
  Expr, ternary, bin_op, un_op, var, diff_switch, lit_int, lit_float, lit_string, Cases, Var,
  VarName, expect_def,
}
use truth.Ast.Ops.{UnOpKind, BinOpKind, as_ty_sigil}
use truth.Value.{FloatOps, ScalarValue, to_literal, cast_by_ty_sigil}
use truth.ConstEval.{to_const, unop_const_eval, binop_const_eval}
use truth.ConstSimplify.{
  fold_bin_op, fold_un_op, out_or, fold_ternary, known_var, Context, simplify_named,
}
use truth.Vm.{
  other, value, AstVm, Eval, expect_int, var_id_from_name, read_held, read_var_by_ast, eval_un_op,
  eval, eval_cases,
}

module _ (fl : FloatOps) (ctx : Context fl.Float) where
  open fl use {Float}

  -- The machine holds the value of every cached constant.
  abbrev pub Agrees : AstVm Float → Type 0
  Agrees vm =
      (def : ℕ) (x : ScalarValue Float)
      → Assoc.get def ctx.values ≡ some x
      → vm.var_values (other def) ≡ some (value x)

  -- Where the first evaluation gives a value and a machine, the second gives the same ones, and the
  -- constants are still there.
  abbrev pub Refines : Eval fl ctx.resolutions → Eval fl ctx.resolutions → Type 0
  Refines f g = (vm : AstVm Float) → Agrees vm → Ensures (λ r. Agrees r.1 × (g vm ≡ ok r)) (f vm)

  -- Both evaluations do the same.
  abbrev pub SameResult : Eval fl ctx.resolutions → Eval fl ctx.resolutions → Type 0
  SameResult f g = (vm : AstVm Float) → Agrees vm → f vm ≡ g vm

  pub Refines-same : (f g h : Eval fl ctx.resolutions) → Refines f g → SameResult g h → Refines f h
  Refines-same f g h p q vm a =
      Ensures-weaken _ _ (f vm) (λ r k. (k.0, sym (q vm a) ∙ k.1)) (p vm a)

  pub Refines-self :
      (f : Eval fl ctx.resolutions)
      → ((vm : AstVm Float) → Agrees vm → Ensures (λ r. Agrees r.1) (f vm))
      → Refines f f
  Refines-self f h vm a = Ensures-both _ _ (f vm) (h vm a) (Ensures-self (f vm))

  abbrev pub run : Expr Float → Eval fl ctx.resolutions
  run e = eval fl ctx.resolutions e

  pub ternary-Refines :
      (c l r c' l' r' : Expr Float)
      → Refines (run c) (run c')
      → Refines (run l) (run l')
      → Refines (run r) (run r')
      → Refines (run (ternary c l r)) (run (ternary c' l' r'))
  unfolding eval
  ternary-Refines c l r c' l' r' p q s vm agr =
      Ensures-bind _ _ (run c vm) _ (p vm agr) (λ (x, vm₁) h.
        Ensures-bind _ _ (expect_int x) _ (Ensures-self _) (λ n m. elim (Bool-cases (n == 0)) [
          | inl e ↦
              rw e (Ensures-weaken _ _ (run r vm₁) (λ w k. (k.0, rw (h.1, m, e) k.1)) (s vm₁ h.0))
          | inr e ↦
              rw e (Ensures-weaken _ _ (run l vm₁) (λ w k. (k.0, rw (h.1, m, e) k.1)) (q vm₁ h.0))
        ]))

  pub bin_op-Refines :
      (a b a' b' : Expr Float) (op : BinOpKind)
      → Refines (run a) (run a')
      → Refines (run b) (run b')
      → Refines (run (bin_op a op b)) (run (bin_op a' op b'))
  unfolding eval
  bin_op-Refines a b a' b' op p q vm agr = Ensures-bind _ _ (run a vm) _ (p vm agr) (λ (x, vm₁) h.
      Ensures-bind _ _ (run b vm₁) _ (q vm₁ h.0) (λ (y, vm₂) k.
        Ensures-bind _ _ (binop_const_eval fl op x y) _ (Ensures-self _)
          (λ v m. (k.0, rw (h.1, k.1, m)))))

  pub un_op-Refines :
      (b b' : Expr Float) (op : UnOpKind)
      → Refines (run b) (run b')
      → Refines (run (un_op op b)) (run (un_op op b'))
  unfolding eval
  un_op-Refines b b' op p vm agr = Ensures-bind _ _ (run b vm) _ (p vm agr) (λ (x, vm₁) h.
      Ensures-bind _ _ (eval_un_op fl ctx.resolutions op (as_ty_sigil op) x) _ (Ensures-self _)
        (λ v m. (h.0, rw (h.1, m))))

  selected-Refines :
      (o o' : Option (Eval fl ctx.resolutions))
      → Related? Refines o o'
      → (vm : AstVm Float) → Agrees vm
      → Ensures
          (λ r. Agrees r.1 × ((expect o' >>= λ case. case vm) ≡ ok r))
          (expect o >>= λ case. case vm)
  selected-Refines none none h vm agr = tt
  selected-Refines (some f) (some g) h vm agr = h vm agr
  selected-Refines none (some _) h vm agr = absurd h
  selected-Refines (some _) none h vm agr = absurd h

  pub diff_switch-Refines :
      (cases cases' : Cases Float)
      → RelatedCases Refines
          (eval_cases fl ctx.resolutions cases)
          (eval_cases fl ctx.resolutions cases')
      → Refines (run (diff_switch cases)) (run (diff_switch cases'))
  unfolding eval
  diff_switch-Refines cases cases' h vm agr =
      Ensures-bind _ _ (expect vm.difficulty) _ (Ensures-self _) (λ d m.
        Ensures-weaken _ (λ r. Agrees r.1 × (run (diff_switch cases') vm ≡ ok r)) _
          (λ r k. (k.0, rw m k.1))
          (selected-Refines (select_diff_switch_case (eval_cases fl ctx.resolutions cases) d)
            (select_diff_switch_case (eval_cases fl ctx.resolutions cases') d)
            (select_diff_switch_case-Related Refines _ _ d h) vm agr))

  pub to_const-eval :
      (e : Expr Float) (x : ScalarValue Float)
      → to_const e ≡ some x
      → (vm : AstVm Float) → run e vm ≡ ok (x, vm)
  unfolding eval to_const
  to_const-eval (lit_int n radix) x h vm = ground arith
  to_const-eval (lit_float n) x h vm = ground arith
  to_const-eval (lit_string n) x h vm = ground arith
  to_const-eval _ x h vm = absurd (cc)

  to_literal-eval : (x : ScalarValue Float) (vm : AstVm Float) → run (to_literal x) vm ≡ ok (x, vm)
  unfolding eval to_literal
  to_literal-eval (ScalarValue.int n) vm = refl
  to_literal-eval (ScalarValue.float n) vm = refl
  to_literal-eval (ScalarValue.string n) vm = refl

  bin_op_folded :
      (a b : Expr Float) (op : BinOpKind) (x y v : ScalarValue Float)
      → to_const a ≡ some x
      → to_const b ≡ some y
      → binop_const_eval fl op x y ≡ ok v
      → (vm : AstVm Float) → run (bin_op a op b) vm ≡ ok (v, vm)
  unfolding eval
  bin_op_folded a b op x y v p q m vm = rw (to_const-eval a x p vm, to_const-eval b y q vm, m)

  ternary_folded :
      (c l r : Expr Float) (n : ℕ)
      → to_const c ≡ some (ScalarValue.int n)
      → (vm : AstVm Float) → run (ternary c l r) vm ≡ run (if n == 0 then r else l) vm
  unfolding eval expect_int
  ternary_folded c l r n p vm = elim (Bool-cases (n == 0)) [
    | inl e ↦ rw (to_const-eval c (ScalarValue.int n) p vm, e)
    | inr e ↦ rw (to_const-eval c (ScalarValue.int n) p vm, e)
  ]

  -- An operator with a constant value is no type sigil.
  eval_un_op-constant :
      (op : UnOpKind) (x v : ScalarValue Float)
      → unop_const_eval fl op x ≡ ok (some v)
      → eval_un_op fl ctx.resolutions op (as_ty_sigil op) x ≡ ok v
  unfolding eval_un_op as_ty_sigil unop_const_eval
  eval_un_op-constant UnOpKind.encode_i (ScalarValue.int n) v h = absurd (cc)
  eval_un_op-constant UnOpKind.encode_i (ScalarValue.float n) v h = absurd (cc)
  eval_un_op-constant UnOpKind.encode_i (ScalarValue.string n) v h = absurd (cc)
  eval_un_op-constant UnOpKind.encode_f (ScalarValue.int n) v h = absurd (cc)
  eval_un_op-constant UnOpKind.encode_f (ScalarValue.float n) v h = absurd (cc)
  eval_un_op-constant UnOpKind.encode_f (ScalarValue.string n) v h = absurd (cc)
  eval_un_op-constant _ x v h = rw h

  -- The simplification of an operator whose operands are simplified.
  pub simplify_bin_op-eval :
      (a b : Expr Float) (op : BinOpKind) (o o' : Option (ScalarValue Float))
      → to_const a ≡ o
      → to_const b ≡ o'
      → Ensures (λ e. SameResult (run (bin_op a op b)) (run e)) (fold_bin_op fl ctx a op b o o')
  unfolding fold_bin_op
  simplify_bin_op-eval a b op none o' p q = λ vm agr. refl
  simplify_bin_op-eval a b op (some x) none p q = λ vm agr. refl
  simplify_bin_op-eval a b op (some x) (some y) p q =
      Ensures-bind _ (λ e. SameResult (run (bin_op a op b)) (run e)) (binop_const_eval fl op x y)
        (λ v. ok (to_literal v)) (Ensures-self _)
        (λ v m vm agr. bin_op_folded a b op x y v p q m vm ∙ sym (to_literal-eval v vm))

  pub simplify_ternary-eval :
      (c l r : Expr Float) (o : Option (ScalarValue Float))
      → to_const c ≡ o
      → Ensures (λ e. SameResult (run (ternary c l r)) (run e)) (fold_ternary fl ctx c l r o)
  unfolding fold_ternary
  simplify_ternary-eval c l r none p = λ vm agr. refl
  simplify_ternary-eval c l r (some (ScalarValue.int n)) p = λ vm agr. ternary_folded c l r n p vm
  simplify_ternary-eval c l r (some (ScalarValue.float n)) p = tt
  simplify_ternary-eval c l r (some (ScalarValue.string n)) p = tt

  out_or-eval :
      (op : UnOpKind) (b : Expr Float) (x : ScalarValue Float) (o : Option (ScalarValue Float))
      → to_const b ≡ some x
      → unop_const_eval fl op x ≡ ok o
      → SameResult (run (un_op op b)) (run (out_or fl ctx (un_op op b) o))
  unfolding eval out_or
  out_or-eval op b x none p m = λ vm agr. refl
  out_or-eval op b x (some v) p m =
      λ vm agr. rw (to_const-eval b x p vm, eval_un_op-constant op x v m, to_literal-eval v vm)

  pub simplify_un_op-eval :
      (op : UnOpKind) (b : Expr Float) (o : Option (ScalarValue Float))
      → to_const b ≡ o
      → Ensures (λ e. SameResult (run (un_op op b)) (run e)) (fold_un_op fl ctx op b o)
  unfolding fold_un_op
  simplify_un_op-eval op b none p = λ vm agr. refl
  simplify_un_op-eval op b (some x) p =
      Ensures-bind _ (λ e. SameResult (run (un_op op b)) (run e)) (unop_const_eval fl op x) _
        (Ensures-self _) (λ o m. out_or-eval op b x o p m)

  var_read :
      (v : Var) (ident def : ℕ) (x c : ScalarValue Float)
      → v.name ≡ VarName.normal ident
      → expect_def ctx.resolutions ident ≡ ok def
      → expect (cast_by_ty_sigil fl x v.ty_sigil) ≡ ok c
      → (vm : AstVm Float) → vm.var_values (other def) ≡ some (value x)
      → run (var v) vm ≡ ok (c, vm)
  unfolding eval read_var_by_ast var_id_from_name read_held
  var_read v ident def x c h p m vm q = rw (h, p, q, m)

  -- A constant that the machine holds is read as the literal that replaces it.
  known_var-eval :
      (v : Var) (ident def : ℕ) (o : Option (ScalarValue Float))
      → v.name ≡ VarName.normal ident
      → expect_def ctx.resolutions ident ≡ ok def
      → Assoc.get def ctx.values ≡ o
      → Ensures (λ e. SameResult (run (var v)) (run e)) (known_var fl ctx v o)
  unfolding known_var
  known_var-eval v ident def none h p q = λ vm agr. refl
  known_var-eval v ident def (some x) h p q =
      Ensures-bind _ (λ e. SameResult (run (var v)) (run e))
        (expect (cast_by_ty_sigil fl x v.ty_sigil)) _ (Ensures-self _)
        (λ c m vm agr. var_read v ident def x c h p m vm (agr def x q) ∙ sym (to_literal-eval c vm))

  pub simplify_named-eval :
      (v : Var) (name : VarName)
      → v.name ≡ name
      → Ensures (λ e. SameResult (run (var v)) (run e)) (simplify_named fl ctx v name)
  unfolding simplify_named
  simplify_named-eval v (VarName.reg r) h = λ vm agr. refl
  simplify_named-eval v (VarName.normal ident) h =
      Ensures-bind _ _ (expect_def ctx.resolutions ident) _ (Ensures-self _)
        (λ def p. known_var-eval v ident def (Assoc.get def ctx.values) h p refl)
