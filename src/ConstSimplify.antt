-- ===== src/ConstSimplify.antt =====
-- src/passes/const_simplify.rs, lines 182 to 279: the pass that replaces constant subexpressions by
-- literals. A visit returns the new expression and whether an error was reported.
pub mod Evaluated
mod Tests
use truth.Base.{
  ℕ, Bool, true, false, ◌||◌, ◌&&◌, not, Option, none, some, List, [], ◌∷◌, ◌==◌, if◌then◌else◌,
}
use truth.Base.Assoc
use truth.Base.Assoc.{Assoc}
use truth.Base.Run.{Run, ok, panic, ◌>>=◌, expect}
use truth.Ast.{
  Expr, ternary, bin_op, un_op, xcrement_op, var, call, diff_switch, lit_int, lit_float, lit_string,
  label_property, enum_const, Cases, no_cases, missing, present, Args, no_args, arg, Pseudos,
  no_pseudos, pseudo, Var, VarName, CallableName, actually_has_args, can_lower_to_immediate,
  Resolutions, expect_def,
}
use truth.Ast.Ops.{BinOpKind, UnOpKind}
use truth.Value.{FloatOps, ScalarValue, to_literal, cast_by_ty_sigil}
use truth.ConstEval.{to_const, unop_const_eval, binop_const_eval}

-- What the pass reads of the `CompilerContext`: the resolved names, the cached values of constants, and
-- of each function, which of its parameters must be constant.
pub record Context (F : Type 0) : Type 0 where
  pub resolutions : Resolutions
  pub values : Assoc (ScalarValue F)
  pub const_params : CallableName → Option (List Bool)

-- Whether some argument of a constant parameter is no immediate.
unfoldable pub bad_const_arg : {F : Type 0} → List Bool → Args F → Bool
bad_const_arg [] args = false
bad_const_arg (is_const ∷ params) no_args = false
bad_const_arg (is_const ∷ params) (arg e args) =
    (is_const && not (can_lower_to_immediate e)) || bad_const_arg params args

unfoldable pub validate_call_const_args :
    {F : Type 0} → Context F → CallableName → Pseudos F → Args F → Run Bool
unfolding bad_const_arg
validate_call_const_args ctx name pseudos args =
    if actually_has_args pseudos
    then (do params ← expect (ctx.const_params name); ok (bad_const_arg params args))
    else ok false

module _ (fl : FloatOps) (ctx : Context fl.Float) where
  open fl use {Float}

  -- The cases of `visit_expr` after the subexpressions have been visited; the `Option` is the cached
  -- value of the constant, or the constant value of an operand.
  unfoldable pub known_var : Var → Option (ScalarValue Float) → Run (Expr Float)
  known_var v none = ok (var v)
  known_var v (some value) = do
    cast ← expect (cast_by_ty_sigil fl value v.ty_sigil)
    ok (to_literal cast)

  unfoldable pub simplify_named : Var → VarName → Run (Expr Float)
  unfolding known_var
  simplify_named v (VarName.normal ident) = do
    def ← expect_def ctx.resolutions ident
    known_var v (Assoc.get def ctx.values)
  simplify_named v (VarName.reg _) = ok (var v)

  unfoldable pub simplify_var : Var → Run (Expr Float)
  unfolding simplify_named
  simplify_var v = simplify_named v v.name

  unfoldable pub simplify_enum_const : ℕ → ℕ → Run (Expr Float)
  simplify_enum_const enum_name ident = do
    def ← expect_def ctx.resolutions ident
    elim (Assoc.get def ctx.values) [
      | none ↦ ok (enum_const enum_name ident)
      | some value ↦ ok (to_literal value)
    ]

  unfoldable pub out_or : Expr Float → Option (ScalarValue Float) → Expr Float
  out_or e none = e
  out_or e (some out_value) = to_literal out_value

  unfoldable pub fold_un_op : UnOpKind → Expr Float → Option (ScalarValue Float) → Run (Expr Float)
  unfolding out_or
  fold_un_op op b none = ok (un_op op b)
  fold_un_op op b (some b_value) = do
    out ← unop_const_eval fl op b_value
    ok (out_or (un_op op b) out)

  unfoldable pub simplify_un_op : UnOpKind → Expr Float → Run (Expr Float)
  unfolding fold_un_op
  simplify_un_op op b = fold_un_op op b (to_const b)

  unfoldable pub fold_bin_op :
      Expr Float
      → BinOpKind
      → Expr Float
      → Option (ScalarValue Float)
      → Option (ScalarValue Float)
      → Run (Expr Float)
  fold_bin_op a op b none _ = ok (bin_op a op b)
  fold_bin_op a op b (some _) none = ok (bin_op a op b)
  fold_bin_op a op b (some a_value) (some b_value) = do
    v ← binop_const_eval fl op a_value b_value
    ok (to_literal v)

  unfoldable pub simplify_bin_op : Expr Float → BinOpKind → Expr Float → Run (Expr Float)
  unfolding fold_bin_op
  simplify_bin_op a op b = fold_bin_op a op b (to_const a) (to_const b)

  unfoldable pub fold_ternary :
      Expr Float → Expr Float → Expr Float → Option (ScalarValue Float) → Run (Expr Float)
  fold_ternary cond left right none = ok (ternary cond left right)
  fold_ternary cond left right (some (ScalarValue.int x)) = ok (if x == 0 then right else left)
  fold_ternary cond left right (some (ScalarValue.float _)) = panic
  fold_ternary cond left right (some (ScalarValue.string _)) = panic

  unfoldable pub simplify_ternary : Expr Float → Expr Float → Expr Float → Run (Expr Float)
  unfolding fold_ternary
  simplify_ternary cond left right = fold_ternary cond left right (to_const cond)

  -- `visit_expr`, and the visits of lists of expressions that `walk_expr_mut` makes.
  unfoldable mutual
    unfolding simplify_var simplify_enum_const simplify_un_op simplify_bin_op simplify_ternary
        validate_call_const_args

    pub visit_expr : Expr Float → Run (Expr Float × Bool)
    visit_expr (ternary cond left right) = do
      (cond', e₁) ← visit_expr cond
      (left', e₂) ← visit_expr left
      (right', e₃) ← visit_expr right
      e ← simplify_ternary cond' left' right'
      ok (e, e₁ || e₂ || e₃)
    visit_expr (bin_op a op b) = do
      (a', e₁) ← visit_expr a
      (b', e₂) ← visit_expr b
      e ← simplify_bin_op a' op b'
      ok (e, e₁ || e₂)
    visit_expr (un_op op b) = do (b', e₁) ← visit_expr b; e ← simplify_un_op op b'; ok (e, e₁)
    visit_expr (xcrement_op op order v) = ok (xcrement_op op order v, false)
    visit_expr (var v) = do e ← simplify_var v; ok (e, false)
    visit_expr (call name pseudos args) = do
      (pseudos', e₁) ← visit_pseudos pseudos
      (args', e₂) ← visit_args args
      e₃ ← validate_call_const_args ctx name pseudos' args'
      ok (call name pseudos' args', e₁ || e₂ || e₃)
    visit_expr (diff_switch cases) = do
      (cases', e₁) ← visit_cases cases
      ok (diff_switch cases', e₁)
    visit_expr (lit_int x radix) = ok (lit_int x radix, false)
    visit_expr (lit_float x) = ok (lit_float x, false)
    visit_expr (lit_string x) = ok (lit_string x, false)
    visit_expr (label_property label keyword) = ok (label_property label keyword, false)
    visit_expr (enum_const enum_name ident) = do
      e ← simplify_enum_const enum_name ident
      ok (e, false)

    pub visit_cases : Cases Float → Run (Cases Float × Bool)
    visit_cases no_cases = ok (no_cases, false)
    visit_cases (missing cases) = do (cases', e₁) ← visit_cases cases; ok (missing cases', e₁)
    visit_cases (present e cases) = do
      (e', e₁) ← visit_expr e
      (cases', e₂) ← visit_cases cases
      ok (present e' cases', e₁ || e₂)

    pub visit_args : Args Float → Run (Args Float × Bool)
    visit_args no_args = ok (no_args, false)
    visit_args (arg e args) = do
      (e', e₁) ← visit_expr e
      (args', e₂) ← visit_args args
      ok (arg e' args', e₁ || e₂)

    pub visit_pseudos : Pseudos Float → Run (Pseudos Float × Bool)
    visit_pseudos no_pseudos = ok (no_pseudos, false)
    visit_pseudos (pseudo kind e pseudos) = do
      (e', e₁) ← visit_expr e
      (pseudos', e₂) ← visit_pseudos pseudos
      ok (pseudo kind e' pseudos', e₁ || e₂)
