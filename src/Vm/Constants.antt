-- ===== src/Vm/Constants.antt =====
-- The variables of the machine (src/vm.rs) that hold constants are not written by expressions that
-- increment no constant.
use truth.Base.{
  ℕ, ◌≡◌, refl, ap, ◌∙◌, arith, Bool, true, false, ◌&&◌, ◌==◌, ==_iff, Option, none, some,
  if◌then◌else◌, Bool-cases, inl, inr,
}
use truth.Base.Assoc
use truth.Base.Run.{ok, expect, Ensures, Ensures-bind, Ensures-self}
use truth.Ast.{
  Expr, ternary, bin_op, un_op, xcrement_op, var, diff_switch, Cases, no_cases, missing, present,
  Var, VarName, expect_def,
}
use truth.Ast.Ops.{VarSigil, BinOpKind, UnOpKind, XcrementOpKind, XcrementOpOrder}
use truth.Value.{FloatOps, ScalarValue, cast_by_ty_sigil}
use truth.ConstSimplify.{Context}
use truth.Vm.{
  VarId, reg, other, VarValue, value, special, SpecialVarKind, AstVm, same_var, set_var, expect_int,
  var_id_from_name, read_held, read_as_type, read_var_by_ast, write_var_by_ast, eval, xcremented,
}
use truth.Vm.Refines.{Agrees, Refines, run, Refines-self}

and_both : (a b : Bool) → (a && b) ≡ true → (a ≡ true) × (b ≡ true)
and_both true b h = (refl, h)
and_both false b h = absurd (cc)

module _ (fl : FloatOps) (ctx : Context fl.Float) where
  open fl use {Float}

  -- The variable of a name is no constant.
  unfoldable pub not_const : VarName → Bool
  not_const (VarName.reg _) = true
  not_const (VarName.normal ident) = elim (expect_def ctx.resolutions ident) [
    | ok def ↦ elim (Assoc.get def ctx.values) [ none ↦ true | some _ ↦ false ]
    | _ ↦ true
  ]

  -- No constant is incremented.
  unfoldable mutual
    unfolding not_const

    pub assignable : Expr Float → Bool
    assignable (ternary c l r) = assignable c && assignable l && assignable r
    assignable (bin_op a _ b) = assignable a && assignable b
    assignable (un_op _ b) = assignable b
    assignable (xcrement_op _ _ v) = not_const v.name
    assignable (diff_switch cases) = all_assignable cases
    assignable _ = true

    pub all_assignable : Cases Float → Bool
    all_assignable no_cases = true
    all_assignable (missing cases) = all_assignable cases
    all_assignable (present e cases) = assignable e && all_assignable cases

  constant_clash :
      (ident d def : ℕ) (x : ScalarValue Float)
      → not_const (VarName.normal ident) ≡ true
      → expect_def ctx.resolutions ident ≡ ok d
      → (d == def) ≡ true
      → Assoc.get def ctx.values ≡ some x
      → ⊥
  unfolding not_const
  constant_clash ident d def x h p e q = ground (arith, ==_iff d def)

  set_var-other :
      (vm : AstVm Float) (id k : VarId) (w : VarValue Float)
      → same_var id k ≡ false
      → (set_var vm id w).var_values k ≡ vm.var_values k
  unfolding set_var
  set_var-other vm id k w h = ap (λ b. if b then some w else vm.var_values k) h

  -- A variable that holds no constant is written without harm.
  set_var-Agrees :
      (vm : AstVm Float) (id : VarId) (w : VarValue Float)
      → ((def : ℕ) (x : ScalarValue Float)
          → Assoc.get def ctx.values ≡ some x
          → same_var id (other def) ≡ false)
      → Agrees fl ctx vm
      → Agrees fl ctx (set_var vm id w)
  set_var-Agrees vm id w h a def x p = set_var-other vm id (other def) w (h def x p) ∙ a def x p

  var_id_from_name-NotConst :
      (name : VarName)
      → not_const name ≡ true
      → Ensures
          (λ id.
            (def : ℕ) (x : ScalarValue Float)
            → Assoc.get def ctx.values ≡ some x
            → same_var id (other def) ≡ false)
          (var_id_from_name fl ctx.resolutions name)
  unfolding var_id_from_name same_var
  var_id_from_name-NotConst (VarName.reg r) h = λ def x p. refl
  var_id_from_name-NotConst (VarName.normal ident) h =
      Ensures-bind _ _ (expect_def ctx.resolutions ident) _ (Ensures-self _) (λ d p def x q.
        elim (Bool-cases (d == def)) [
          | inl e ↦ absurd (constant_clash ident d def x h p e q)
          | inr e ↦ e
        ])

  write_var_by_ast-Agrees :
      (v : Var) (x : ScalarValue Float) (vm : AstVm Float)
      → not_const v.name ≡ true
      → Agrees fl ctx vm
      → Ensures (Agrees fl ctx) (write_var_by_ast fl ctx.resolutions v x vm)
  unfolding write_var_by_ast
  write_var_by_ast-Agrees v x vm h a =
      Ensures-bind _ _ (var_id_from_name fl ctx.resolutions v.name) _
        (var_id_from_name-NotConst v.name h) (λ id k. set_var-Agrees vm id (value x) k a)

  -- A special variable is no constant.
  special_differs :
      (vm : AstVm Float) (id : VarId) (d : SpecialVarKind Float) (def : ℕ) (x : ScalarValue Float)
      → Agrees fl ctx vm
      → vm.var_values id ≡ some (special d)
      → Assoc.get def ctx.values ≡ some x
      → same_var id (other def) ≡ false
  unfolding same_var
  special_differs vm (reg r) d def x a h p = refl
  special_differs vm (other j) d def x a h p = elim (Bool-cases (j == def)) [
    | inl e ↦ absurd (ground (arith, a def x p, ==_iff j def))
    | inr e ↦ e
  ]

  read_held-Agrees :
      (sigil : Option VarSigil) (id : VarId) (vm : AstVm Float) (o : Option (VarValue Float))
      → vm.var_values id ≡ o
      → Agrees fl ctx vm
      → Ensures (λ r. Agrees fl ctx r.1) (read_held fl ctx.resolutions sigil id vm o)
  unfolding read_held
  read_held-Agrees sigil id vm none h a = tt
  read_held-Agrees sigil id vm (some (value v)) h a =
      Ensures-bind _ (λ r. Agrees fl ctx r.1) (expect (cast_by_ty_sigil fl v sigil)) _
        (Ensures-self _) (λ _ _. a)
  read_held-Agrees sigil id vm (some (special d)) h a =
      Ensures-bind _ (λ r. Agrees fl ctx r.1) (read_as_type fl ctx.resolutions d sigil) _
        (Ensures-self _)
        (λ (v, d') _.
          set_var-Agrees vm id (special d') (λ def x p. special_differs vm id d def x a h p) a)

  read_var_by_ast-Agrees :
      (v : Var) (vm : AstVm Float)
      → Agrees fl ctx vm
      → Ensures (λ r. Agrees fl ctx r.1) (read_var_by_ast fl ctx.resolutions v vm)
  unfolding read_var_by_ast
  read_var_by_ast-Agrees v vm a =
      Ensures-bind _ _ (var_id_from_name fl ctx.resolutions v.name) _ (Ensures-self _)
        (λ id _. read_held-Agrees v.ty_sigil id vm (vm.var_values id) refl a)

  pub var-Refines : (v : Var) → Refines fl ctx (run fl ctx (var v)) (run fl ctx (var v))
  unfolding eval
  var-Refines v = Refines-self fl ctx (run fl ctx (var v)) (λ vm a. read_var_by_ast-Agrees v vm a)

  pub xcrement-Refines :
      (op : XcrementOpKind) (order : XcrementOpOrder) (v : Var)
      → not_const v.name ≡ true
      → Refines fl ctx (run fl ctx (xcrement_op op order v)) (run fl ctx (xcrement_op op order v))
  unfolding eval
  xcrement-Refines op order v h = Refines-self fl ctx (run fl ctx (xcrement_op op order v)) (λ vm a.
      Ensures-bind _ (λ r. Agrees fl ctx r.1) (read_var_by_ast fl ctx.resolutions v vm) _
        (read_var_by_ast-Agrees v vm a)
        (λ (old, vm₁) a₁.
          Ensures-bind _ (λ r. Agrees fl ctx r.1) (expect_int old) _ (Ensures-self _)
            (λ n _.
              Ensures-bind _ (λ r. Agrees fl ctx r.1)
                (write_var_by_ast fl ctx.resolutions v (ScalarValue.int (xcremented op n)) vm₁) _
                (write_var_by_ast-Agrees v (ScalarValue.int (xcremented op n)) vm₁ h a₁)
                (λ vm₂ a₂. a₂))))

  pub ternary-assignable :
      (c l r : Expr Float)
      → assignable (ternary c l r) ≡ true
      → (assignable c ≡ true) × (assignable l ≡ true) × (assignable r ≡ true)
  unfolding assignable
  ternary-assignable c l r h =
      let p = and_both (assignable c && assignable l) (assignable r) h in
      let q = and_both (assignable c) (assignable l) p.0 in (q.0, q.1, p.1)

  pub bin_op-assignable :
      (a b : Expr Float) (op : BinOpKind)
      → assignable (bin_op a op b) ≡ true
      → (assignable a ≡ true) × (assignable b ≡ true)
  unfolding assignable
  bin_op-assignable a b op h = and_both (assignable a) (assignable b) h

  pub un_op-assignable :
      (b : Expr Float) (op : UnOpKind) → assignable (un_op op b) ≡ true → assignable b ≡ true
  unfolding assignable
  un_op-assignable b op h = h

  pub xcrement-assignable :
      (op : XcrementOpKind) (order : XcrementOpOrder) (v : Var)
      → assignable (xcrement_op op order v) ≡ true
      → not_const v.name ≡ true
  unfolding assignable
  xcrement-assignable op order v h = h

  pub diff_switch-assignable :
      (cases : Cases Float) → assignable (diff_switch cases) ≡ true → all_assignable cases ≡ true
  unfolding assignable
  diff_switch-assignable cases h = h

  pub missing-assignable :
      (cases : Cases Float) → all_assignable (missing cases) ≡ true → all_assignable cases ≡ true
  unfolding all_assignable
  missing-assignable cases h = h

  pub present-assignable :
      (e : Expr Float) (cases : Cases Float)
      → all_assignable (present e cases) ≡ true
      → (assignable e ≡ true) × (all_assignable cases ≡ true)
  unfolding all_assignable
  present-assignable e cases h = and_both (assignable e) (all_assignable cases) h
