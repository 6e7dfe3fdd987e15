-- ===== src/TypeCheck/Consistent.antt =====
-- The type that a check finds is the one that is computed later, as `check_expr` asserts.
use truth.Base.{
  ℕ, ◌≡◌, refl, sym, ap, ◌∙◌, Bool, true, false, ◌&&◌, Option, none, some, Bool-cases, inl, inr,
  leb, length,
}
use truth.Base.Run.{
  Run, ok, err, panic, out_of_fuel, ◌>>=◌, Ensures, Ensures-bind, Ensures-self, Ensures-weaken,
}
use truth.Ast.{
  Expr, ternary, bin_op, un_op, xcrement_op, var, call, diff_switch, lit_int, lit_float, lit_string,
  label_property, enum_const, Cases, no_cases, missing, present, Args, Pseudos, Var, CallableName,
  actually_has_args,
}
use truth.Ast.Ops.{BinOpKind, UnOpKind}
use truth.Value.{ScalarType, ExprType, as_known_ty}
use truth.TypeCheck.{
  TypeContext, Signature, same_ty, and_also, require, require_int, require_same, require_value,
  binop_check, unop_check, binop_ty, unop_ty, known_or_err, var_read_ty, check_var_weak, check_var,
  value_ty, signature_ty, signature_or_err, compute_ty, check_expr, check_others, check_args,
  check_each, check_pseudos, min_args, count_args, has_pseudos, finish_call, call_ty,
}

-- What holds of every value holds of the value of a result.
any_result {ℓ} : {A : Type ℓ} (P : A → Type 0) (m : Run A) → ((a : A) → P a) → Ensures P m
any_result P m h = Ensures-weaken (λ a. m ≡ ok a) P m (λ a _. h a) (Ensures-self m)

and_also-Ensures :
    {A : Type 0} {B : Type 0} (P : A → Type 0) (m : Run A) (n : Run B)
    → Ensures P m
    → Ensures (λ p. P p.0) (and_also m n)
unfolding and_also
and_also-Ensures P (ok a) (ok b) h = h
and_also-Ensures P (ok a) err h = tt
and_also-Ensures P (ok a) panic h = tt
and_also-Ensures P (ok a) out_of_fuel h = tt
and_also-Ensures P err (ok b) h = tt
and_also-Ensures P err err h = tt
and_also-Ensures P err panic h = tt
and_also-Ensures P err out_of_fuel h = tt
and_also-Ensures P panic n h = tt
and_also-Ensures P out_of_fuel n h = tt

require_value-Ensures : (t : ExprType) → Ensures (λ ty. t ≡ ExprType.value ty) (require_value t)
unfolding require_value
require_value-Ensures (ExprType.value ty) = refl
require_value-Ensures ExprType.void = tt

require_int-Ensures : (ty : ScalarType) → Ensures (λ _. ty ≡ ScalarType.int) (require_int ty)
unfolding require_int require same_ty
require_int-Ensures ScalarType.int = refl
require_int-Ensures ScalarType.float = tt
require_int-Ensures ScalarType.string = tt

known_or_err-Ensures :
    (ctx : TypeContext) (o : Option ScalarType) → Ensures (λ ty. o ≡ some ty) (known_or_err ctx o)
unfolding known_or_err
known_or_err-Ensures ctx none = tt
known_or_err-Ensures ctx (some ty) = refl

signature_or_err-Ensures :
    (ctx : TypeContext) (o : Option Signature) → Ensures (λ s. o ≡ some s) (signature_or_err ctx o)
unfolding signature_or_err
signature_or_err-Ensures ctx none = tt
signature_or_err-Ensures ctx (some s) = refl

module _ (ctx : TypeContext) where
  check_var-Ensures :
      (v : Var) → Ensures (λ ty. as_known_ty (var_read_ty ctx v) ≡ some ty) (check_var ctx v)
  unfolding check_var
  check_var-Ensures v =
      Ensures-bind (λ _. Unit {0}) _ (check_var_weak ctx v) _
        (any_result _ (check_var_weak ctx v) (λ _. tt))
        (λ _ _. known_or_err-Ensures ctx (as_known_ty (var_read_ty ctx v)))

  module _ (F : Type 0) where
    abbrev Agrees : Expr F → ExprType → Type 0
    Agrees e t = compute_ty ctx e ≡ ok t

    -- A value of the type that is computed.
    value-Agrees :
        (e : Expr F)
        → Ensures (Agrees e) (check_expr ctx e)
        → Ensures (λ ty. Agrees e (ExprType.value ty)) (check_expr ctx e >>= require_value)
    value-Agrees e h = Ensures-bind (Agrees e) _ (check_expr ctx e) require_value h (λ t k.
        Ensures-weaken (λ ty. t ≡ ExprType.value ty) (λ ty. Agrees e (ExprType.value ty))
          (require_value t) (λ ty q. k ∙ ap ok q) (require_value-Ensures t))

    var-Agrees : (v : Var) → Ensures (Agrees (var v)) (check_expr ctx {F = F} (var v))
    unfolding check_expr compute_ty
    var-Agrees v =
        Ensures-bind _ (Agrees (var v)) (check_var ctx v) _ (check_var-Ensures v)
          (λ ty k. rw k refl)

    xcrement-Agrees :
        (op : truth.Ast.Ops.XcrementOpKind) (order : truth.Ast.Ops.XcrementOpOrder) (v : Var)
        → Ensures
            (Agrees (xcrement_op op order v))
            (check_expr ctx {F = F} (xcrement_op op order v))
    unfolding check_expr compute_ty
    xcrement-Agrees op order v =
        Ensures-bind (λ _. Unit {0}) (Agrees (xcrement_op op order v)) (check_var ctx v) _
          (any_result _ (check_var ctx v) (λ _. tt))
          (λ ty _.
            Ensures-bind (λ _. ty ≡ ScalarType.int) (Agrees (xcrement_op op order v))
              (require_int ty) _ (require_int-Ensures ty)
              (λ _ k. ap (λ t. ok (ExprType.value t)) (sym k)))

    -- The last step of an operator is the computation of its type.
    operator-Agrees :
        (e : Expr F) (m : Run ScalarType)
        → compute_ty ctx e ≡ (m >>= (λ ty. ok (ExprType.value ty)))
        → Ensures (Agrees e) (m >>= (λ ty. ok (ExprType.value ty)))
    operator-Agrees e m h = Ensures-weaken _ (Agrees e) _ (λ t k. h ∙ k) (Ensures-self _)

    bin_op-Agrees :
        (a : Expr F) (op : BinOpKind) (b : Expr F)
        → Ensures (Agrees (bin_op a op b)) (check_expr ctx (bin_op a op b))
    unfolding check_expr compute_ty
    bin_op-Agrees a op b =
        let operands =
          and_also (check_expr ctx a >>= require_value) (check_expr ctx b >>= require_value) in
        Ensures-bind (λ _. Unit {0}) (Agrees (bin_op a op b)) operands _
          (any_result _ operands (λ _. tt))
          (λ tys _.
            Ensures-bind (λ _. Unit {0}) (Agrees (bin_op a op b)) (binop_check op tys) _
              (any_result _ (binop_check op tys) (λ _. tt))
              (λ _ _.
                operator-Agrees (bin_op a op b) (binop_ty op (compute_ty ctx a >>= value_ty ctx))
                  refl))

    un_op-Agrees :
        (op : UnOpKind) (x : Expr F) → Ensures (Agrees (un_op op x)) (check_expr ctx (un_op op x))
    unfolding check_expr compute_ty
    un_op-Agrees op x =
        Ensures-bind (λ _. Unit {0}) (Agrees (un_op op x)) (check_expr ctx x >>= require_value) _
          (any_result _ (check_expr ctx x >>= require_value) (λ _. tt))
          (λ ty _.
            Ensures-bind (λ _. Unit {0}) (Agrees (un_op op x)) (unop_check op ty) _
              (any_result _ (unop_check op ty) (λ _. tt))
              (λ _ _.
                operator-Agrees (un_op op x) (unop_ty op (compute_ty ctx x >>= value_ty ctx)) refl))

    ternary-Agrees :
        (cond left right : Expr F)
        → Ensures (Agrees left) (check_expr ctx left)
        → Ensures (Agrees (ternary cond left right)) (check_expr ctx (ternary cond left right))
    unfolding check_expr compute_ty
    ternary-Agrees cond left right h =
        let l = check_expr ctx left >>= require_value in
        let r = check_expr ctx right >>= require_value in
        let c = check_expr ctx cond >>= require_value in
        Ensures-bind (λ tys. Agrees left (ExprType.value tys.0.0)) (Agrees left)
          (and_also (and_also l r) c) _
          (and_also-Ensures (λ tys. Agrees left (ExprType.value tys.0)) (and_also l r) c
            (and_also-Ensures (λ ty. Agrees left (ExprType.value ty)) l r (value-Agrees left h)))
          (λ tys k.
            Ensures-bind (λ _. Unit {0}) (Agrees left) (require_int tys.1) _
              (any_result _ (require_int tys.1) (λ _. tt))
              (λ _ _.
                Ensures-bind (λ _. Unit {0}) (Agrees left) (require_same tys.0) _
                  (any_result _ (require_same tys.0) (λ _. tt)) (λ _ _. k)))

    switch-Agrees :
        (first : Expr F) (cases : Cases F)
        → Ensures (Agrees first) (check_expr ctx first)
        → Ensures
            (Agrees (diff_switch (present first cases)))
            (check_expr ctx (diff_switch (present first cases)))
    unfolding check_expr compute_ty
    switch-Agrees first cases h =
        let ty = check_expr ctx first >>= require_value in
        Ensures-bind (λ _. Unit {0}) (Agrees (diff_switch (present first cases)))
          (check_others ctx ty cases) _ (any_result _ (check_others ctx ty cases) (λ _. tt))
          (λ _ _.
            Ensures-bind (λ t. Agrees first (ExprType.value t))
              (Agrees (diff_switch (present first cases))) ty _ (value-Agrees first h) (λ t k. k))

    -- The return type of the signature is the type of the call.
    finish_call-Ensures :
        (siggy : Signature) (num_args : ℕ) (params each : Run {0} Unit)
        → Ensures (λ t. siggy.return_ty ≡ t) (finish_call ctx siggy num_args params each)
    unfolding finish_call
    finish_call-Ensures siggy num_args params each =
        elim (Bool-cases
          (leb (min_args ctx siggy.params) num_args && leb num_args (length siggy.params))) [
            | inr b ↦ rw b tt
            | inl b ↦ rw b (
                Ensures-bind (λ _. Unit {0}) (λ t. siggy.return_ty ≡ t) params _
                  (any_result _ params (λ _. tt))
                  (λ _ _.
                    Ensures-bind (λ _. Unit {0}) (λ t. siggy.return_ty ≡ t) each _
                      (any_result _ each (λ _. tt)) (λ _ _. refl)))
          ]

    call_ty-Ensures :
        (P : ExprType → Type 0) (instr pseudo takes_args given : Bool) (m : Run ExprType)
        → (takes_args ≡ false → P ExprType.void)
        → (takes_args ≡ true → Ensures P m)
        → Ensures P (call_ty ctx instr pseudo takes_args given m)
    unfolding call_ty
    call_ty-Ensures P false true takes_args given m h k = tt
    call_ty-Ensures P true pseudo false true m h k = tt
    call_ty-Ensures P true pseudo false false m h k = h refl
    call_ty-Ensures P true pseudo true given m h k = k refl
    call_ty-Ensures P false false false true m h k = tt
    call_ty-Ensures P false false false false m h k = h refl
    call_ty-Ensures P false false true given m h k = k refl

    signature-Agrees :
        (name : CallableName) (ps : Pseudos F) (args : Args F)
        → actually_has_args ps ≡ true
        → (siggy : Signature) → ctx.signature name ≡ some siggy
        → (t : ExprType) → siggy.return_ty ≡ t
        → Agrees (call name ps args) t
    unfolding compute_ty signature_ty
    signature-Agrees name ps args b siggy s t r = rw (b, s) (ap ok r)

    blob-Agrees :
        (name : CallableName) (ps : Pseudos F) (args : Args F)
        → actually_has_args ps ≡ false
        → Agrees (call name ps args) ExprType.void
    unfolding compute_ty
    blob-Agrees name ps args b = rw b refl

    call-Agrees :
        (name : CallableName) (ps : Pseudos F) (args : Args F)
        → Ensures (Agrees (call name ps args)) (check_expr ctx (call name ps args))
    unfolding check_expr
    call-Agrees name ps args =
        let P : ExprType → Type 0 = Agrees (call name ps args) in
        Ensures-bind (λ _. Unit {0}) P (check_pseudos ctx ps) _
          (any_result _ (check_pseudos ctx ps) (λ _. tt))
          (λ _ _.
            call_ty-Ensures P (ctx.is_instruction name) (has_pseudos ctx ps) (actually_has_args ps)
              (leb 1 (count_args ctx args)) _ (blob-Agrees name ps args)
              (λ b.
                Ensures-bind (λ s. ctx.signature name ≡ some s) P
                  (signature_or_err ctx (ctx.signature name)) _
                  (signature_or_err-Ensures ctx (ctx.signature name))
                  (λ siggy s.
                    Ensures-weaken (λ t. siggy.return_ty ≡ t) P _
                      (signature-Agrees name ps args b siggy s)
                      (finish_call-Ensures siggy (count_args ctx args)
                        (check_args ctx siggy.params args) (check_each ctx args)))))

  -- The type that the check of an expression finds is the type that `compute_ty` gives for it, so that
  -- the assertion of the check holds.
  pub check_expr-compute_ty :
      {F : Type 0} (e : Expr F) → Ensures (λ t. compute_ty ctx e ≡ ok t) (check_expr ctx e)
  unfolding check_expr compute_ty
  check_expr-compute_ty (lit_float _) = refl
  check_expr-compute_ty (lit_int _ _) = refl
  check_expr-compute_ty (lit_string _) = refl
  check_expr-compute_ty (enum_const _ _) = refl
  check_expr-compute_ty (label_property _ _) = refl
  check_expr-compute_ty {F} (var v) = var-Agrees F v
  check_expr-compute_ty {F} (xcrement_op op order v) = xcrement-Agrees F op order v
  check_expr-compute_ty {F} (bin_op a op b) = bin_op-Agrees F a op b
  check_expr-compute_ty {F} (un_op op x) = un_op-Agrees F op x
  check_expr-compute_ty {F} (ternary cond left right) =
      ternary-Agrees F cond left right (check_expr-compute_ty left)
  check_expr-compute_ty (diff_switch no_cases) = tt
  check_expr-compute_ty (diff_switch (missing cases)) = tt
  check_expr-compute_ty {F} (diff_switch (present first cases)) =
      switch-Agrees F first cases (check_expr-compute_ty first)
  check_expr-compute_ty {F} (call name ps args) = call-Agrees F name ps args
