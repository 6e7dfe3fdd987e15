-- ===== src/TypeCheck.antt =====
-- src/passes/type_check.rs: the types of expressions, checked once by `check_expr` and computed later by
-- `compute_ty`, and the checks of statements. The signatures and the types of variables are arguments.
pub mod Consistent
pub mod Operators
pub mod Stmts
mod Tests
use truth.Base.{
  ℕ, suc, Bool, true, false, ◌&&◌, not, Option, none, some, List, [], ◌∷◌, length, leb,
  if◌then◌else◌,
}
use truth.Base.Run.{Run, ok, err, panic, out_of_fuel, ◌>>=◌, expect}
use truth.Ast.{
  Expr, ternary, bin_op, un_op, xcrement_op, var, call, diff_switch, lit_int, lit_float, lit_string,
  label_property, enum_const, Cases, no_cases, missing, present, Args, no_args, arg, Pseudos,
  no_pseudos, pseudo, Var, VarName, CallableName, actually_has_args,
}
use truth.Ast.Ops.{
  BinOpKind, UnOpKind, OpClass, PseudoArgKind, AssignOpKind, VarSigil, binop_class,
  corresponding_binop,
}
use truth.Value.{ScalarType, VarType, ExprType, as_known_ty, as_value_ty, ty_of_sigil}

-- A parameter of a signature: its type and whether it has a default.
pub record SignatureParam : Type 0 where
  pub ty : VarType
  pub has_default : Bool

pub record Signature : Type 0 where
  pub params : List SignatureParam
  pub return_ty : ExprType

-- What the checker reads of the `CompilerContext`. There is no signature for an instruction whose
-- signature is not known.
pub record TypeContext : Type 0 where
  pub inherent_ty : VarName → VarType
  pub is_instruction : CallableName → Bool
  pub signature : CallableName → Option Signature

unfoldable pub same_ty : ScalarType → ScalarType → Bool
same_ty ScalarType.int ScalarType.int = true
same_ty ScalarType.float ScalarType.float = true
same_ty ScalarType.string ScalarType.string = true
same_ty _ _ = false

unfoldable pub same_expr_ty : ExprType → ExprType → Bool
unfolding same_ty
same_expr_ty ExprType.void ExprType.void = true
same_expr_ty (ExprType.value a) (ExprType.value b) = same_ty a b
same_expr_ty _ _ = false

-- Two results that are both computed before `?` is used on them, and `collect_with_recovery`.
unfoldable pub and_also : {A : Type 0} → {B : Type 0} → Run A → Run B → Run (A × B)
and_also (ok a) (ok b) = ok (a, b)
and_also (ok a) err = err
and_also (ok a) panic = panic
and_also (ok a) out_of_fuel = out_of_fuel
and_also err panic = panic
and_also err _ = err
and_also panic _ = panic
and_also out_of_fuel _ = out_of_fuel

unfoldable pub require : Bool → Run {0} Unit
require condition = if condition then ok tt else err

unfoldable pub require_same : ScalarType × ScalarType → Run ScalarType
unfolding same_ty
require_same types = if same_ty types.0 types.1 then ok types.0 else err

unfoldable pub require_exact : ScalarType → ScalarType → Run {0} Unit
unfolding require same_ty
require_exact ty expected = require (same_ty ty expected)

unfoldable pub require_exact_expr : ExprType → ExprType → Run {0} Unit
unfolding require same_expr_ty
require_exact_expr ty expected = require (same_expr_ty ty expected)

unfoldable pub require_int : ScalarType → Run {0} Unit
unfolding require_exact
require_int ty = require_exact ty ScalarType.int

unfoldable pub require_float : ScalarType → Run {0} Unit
unfolding require_exact
require_float ty = require_exact ty ScalarType.float

unfoldable pub require_string : ScalarType → Run {0} Unit
unfolding require_exact
require_string ty = require_exact ty ScalarType.string

unfoldable pub require_numeric : ScalarType → Run {0} Unit
require_numeric ScalarType.int = ok tt
require_numeric ScalarType.float = ok tt
require_numeric ScalarType.string = err

unfoldable pub require_value : ExprType → Run ScalarType
require_value (ExprType.value ty) = ok ty
require_value ExprType.void = err

unfoldable pub require_void : ExprType → Run {0} Unit
require_void (ExprType.value ty) = err
require_void ExprType.void = ok tt

-- The match of `binop_check` on the class of the operator.
unfoldable pub require_operand : OpClass → ScalarType → Run {0} Unit
unfolding require_numeric require_int
require_operand OpClass.arithmetic ty = require_numeric ty
require_operand OpClass.comparison ty = require_numeric ty
require_operand OpClass.bitwise ty = require_int ty
require_operand OpClass.logical ty = require_int ty
require_operand OpClass.shift ty = require_int ty
require_operand _ ty = panic

unfoldable pub binop_check : BinOpKind → ScalarType × ScalarType → Run {0} Unit
unfolding require_operand require_same binop_class
binop_check op arg_tys =
    require_operand (binop_class op) arg_tys.0 >>= (λ _. require_same arg_tys >>= (λ _. ok tt))

unfoldable pub unop_check : UnOpKind → ScalarType → Run {0} Unit
unfolding require_numeric require_int require_float
unop_check UnOpKind.neg ty = require_numeric ty
unop_check UnOpKind.encode_i ty = require_numeric ty
unop_check UnOpKind.encode_f ty = require_numeric ty
unop_check UnOpKind.cast_i ty = require_numeric ty
unop_check UnOpKind.cast_f ty = require_numeric ty
unop_check UnOpKind.not ty = require_int ty
unop_check UnOpKind.bit_not ty = require_int ty
unop_check UnOpKind.sin ty = require_float ty
unop_check UnOpKind.cos ty = require_float ty
unop_check UnOpKind.sqrt ty = require_float ty

unfoldable pub pseudo_check : PseudoArgKind → ScalarType → Run {0} Unit
unfolding require_int require_string
pseudo_check PseudoArgKind.pop ty = require_int ty
pseudo_check PseudoArgKind.extra_arg ty = require_int ty
pseudo_check PseudoArgKind.mask ty = require_int ty
pseudo_check PseudoArgKind.blob ty = require_string ty

-- `_binop_ty` and `_unop_ty`, at the result of `compute_arg_ty`.
unfoldable pub class_ty : OpClass → Run ScalarType → Run ScalarType
class_ty OpClass.arithmetic arg_ty = arg_ty
class_ty OpClass.comparison arg_ty = ok ScalarType.int
class_ty OpClass.bitwise arg_ty = ok ScalarType.int
class_ty OpClass.logical arg_ty = ok ScalarType.int
class_ty OpClass.shift arg_ty = ok ScalarType.int
class_ty _ arg_ty = panic

unfoldable pub binop_ty : BinOpKind → Run ScalarType → Run ScalarType
unfolding class_ty binop_class
binop_ty op arg_ty = class_ty (binop_class op) arg_ty

unfoldable pub unop_ty : UnOpKind → Run ScalarType → Run ScalarType
unop_ty UnOpKind.neg arg_ty = arg_ty
unop_ty UnOpKind.not arg_ty = ok ScalarType.int
unop_ty UnOpKind.bit_not arg_ty = ok ScalarType.int
unop_ty UnOpKind.sin arg_ty = ok ScalarType.float
unop_ty UnOpKind.cos arg_ty = ok ScalarType.float
unop_ty UnOpKind.sqrt arg_ty = ok ScalarType.float
unop_ty UnOpKind.encode_i arg_ty = ok ScalarType.int
unop_ty UnOpKind.encode_f arg_ty = ok ScalarType.float
unop_ty UnOpKind.cast_i arg_ty = ok ScalarType.int
unop_ty UnOpKind.cast_f arg_ty = ok ScalarType.float

module _ (ctx : TypeContext) where
  unfoldable pub read_ty_of : Option VarSigil → VarName → VarType
  unfolding ty_of_sigil
  read_ty_of (some sigil) name = VarType.typed (ty_of_sigil sigil)
  read_ty_of none name = ctx.inherent_ty name

  unfoldable pub var_read_ty : Var → VarType
  unfolding read_ty_of
  var_read_ty v = read_ty_of v.ty_sigil v.name

  -- Strings cannot have sigils.
  unfoldable pub sigil_allowed : VarType → Option VarSigil → Run {0} Unit
  sigil_allowed (VarType.typed ScalarType.string) (some read_ty) = err
  sigil_allowed _ _ = ok tt

  unfoldable pub check_var_weak : Var → Run {0} Unit
  unfolding sigil_allowed
  check_var_weak v = sigil_allowed (ctx.inherent_ty v.name) v.ty_sigil

  unfoldable pub known_or_err : Option ScalarType → Run ScalarType
  known_or_err none = err
  known_or_err (some ty) = ok ty

  unfoldable pub check_var : Var → Run ScalarType
  unfolding check_var_weak known_or_err as_known_ty var_read_ty
  check_var v = check_var_weak v >>= (λ _. known_or_err (as_known_ty (var_read_ty v)))

  unfoldable pub min_args : List SignatureParam → ℕ
  min_args [] = 0
  min_args (p ∷ params) = let rest = suc (min_args params) in if p.has_default then 0 else rest

  unfoldable pub count_args : {F : Type 0} → Args F → ℕ
  count_args no_args = 0
  count_args (arg e args) = suc (count_args args)

  -- A typed parameter requires its type.
  unfoldable pub check_param : VarType → ScalarType → Run {0} Unit
  unfolding require same_ty
  check_param (VarType.typed param_ty) arg_ty = require (same_ty arg_ty param_ty)
  check_param (VarType.untyped _) arg_ty = ok tt

  unfoldable pub has_pseudos : {F : Type 0} → Pseudos F → Bool
  has_pseudos no_pseudos = false
  has_pseudos (pseudo _ _ _) = true

  unfoldable pub signature_or_err : Option Signature → Run Signature
  signature_or_err none = err
  signature_or_err (some siggy) = ok siggy

  -- The number of arguments, then their types, then all of them once more.
  unfoldable pub finish_call : Signature → ℕ → Run {0} Unit → Run {0} Unit → Run ExprType
  unfolding min_args
  finish_call siggy num_args params each =
      let checked = params >>= (λ _. each >>= (λ _. ok siggy.return_ty)) in
      if leb (min_args siggy.params) num_args && leb num_args (length siggy.params)
      then checked
      else err

  -- Only instructions have pseudo-arguments, and a blob stands instead of arguments.
  unfoldable pub call_ty : Bool → Bool → Bool → Bool → Run ExprType → Run ExprType
  call_ty false true takes_args given from_signature = err
  call_ty _ _ false true from_signature = err
  call_ty _ _ false false from_signature = ok ExprType.void
  call_ty _ _ true given from_signature = from_signature

  unfoldable pub value_ty : ExprType → Run ScalarType
  unfolding as_value_ty
  value_ty ty = expect (as_value_ty ty)

  unfoldable pub signature_ty : Option Signature → Run ExprType
  signature_ty none = panic
  signature_ty (some siggy) = ok siggy.return_ty

  -- `Expr::compute_ty`; `first_case_ty` is the type of the first case of a switch.
  unfoldable mutual
    unfolding var_read_ty as_known_ty binop_ty unop_ty value_ty actually_has_args signature_ty

    pub compute_ty : {F : Type 0} → Expr F → Run ExprType
    compute_ty (lit_float _) = ok (ExprType.value ScalarType.float)
    compute_ty (lit_int _ _) = ok (ExprType.value ScalarType.int)
    compute_ty (lit_string _) = ok (ExprType.value ScalarType.string)
    compute_ty (enum_const _ _) = ok (ExprType.value ScalarType.int)
    compute_ty (var v) = expect (as_known_ty (var_read_ty v)) >>= (λ ty. ok (ExprType.value ty))
    compute_ty (bin_op a op _) =
        binop_ty op (compute_ty a >>= value_ty) >>= (λ ty. ok (ExprType.value ty))
    compute_ty (un_op op x) =
        unop_ty op (compute_ty x >>= value_ty) >>= (λ ty. ok (ExprType.value ty))
    compute_ty (xcrement_op _ _ _) = ok (ExprType.value ScalarType.int)
    compute_ty (ternary _ left _) = compute_ty left
    compute_ty (diff_switch cases) = first_case_ty cases
    compute_ty (label_property _ _) = ok (ExprType.value ScalarType.int)
    compute_ty (call name pseudos _) =
        if actually_has_args pseudos then signature_ty (ctx.signature name) else ok ExprType.void

    pub first_case_ty : {F : Type 0} → Cases F → Run ExprType
    first_case_ty no_cases = panic
    first_case_ty (missing cases) = panic
    first_case_ty (present e cases) = compute_ty e

  unfoldable mutual
    unfolding compute_ty check_var require_value binop_check unop_check pseudo_check require_int
        require_same and_also binop_ty unop_ty value_ty check_param signature_or_err min_args
        count_args has_pseudos actually_has_args finish_call call_ty

    -- `debug_assert_eq!` at the end of the function is left out here: it holds.
    pub check_expr : {F : Type 0} → Expr F → Run ExprType
    check_expr (lit_float _) = ok (ExprType.value ScalarType.float)
    check_expr (lit_int _ _) = ok (ExprType.value ScalarType.int)
    check_expr (lit_string _) = ok (ExprType.value ScalarType.string)
    check_expr (var v) = check_var v >>= (λ ty. ok (ExprType.value ty))
    check_expr (enum_const _ _) = ok (ExprType.value ScalarType.int)
    check_expr (bin_op a op b) =
        and_also (check_expr a >>= require_value) (check_expr b >>= require_value) >>= (λ tys.
          binop_check op tys
          >>= (λ _. binop_ty op (compute_ty a >>= value_ty) >>= (λ ty. ok (ExprType.value ty))))
    check_expr (un_op op x) = check_expr x >>= require_value >>= (λ x_ty.
        unop_check op x_ty
        >>= (λ _. unop_ty op (compute_ty x >>= value_ty) >>= (λ ty. ok (ExprType.value ty))))
    check_expr (xcrement_op _ _ v) =
        check_var v >>= (λ var_ty. require_int var_ty >>= (λ _. ok (ExprType.value var_ty)))
    check_expr (ternary cond left right) =
        and_also (and_also (check_expr left >>= require_value) (check_expr right >>= require_value))
          (check_expr cond >>= require_value)
        >>= (λ tys.
            require_int tys.1 >>= (λ _. require_same tys.0 >>= (λ _. ok (ExprType.value tys.0.0))))
    check_expr (diff_switch cases) = check_switch cases
    check_expr (label_property _ _) = ok (ExprType.value ScalarType.int)
    check_expr (call name pseudos args) =
        let params = λ (siggy : Signature). check_args siggy.params args in
        let each = check_each args in
        check_pseudos pseudos >>= (λ _.
          call_ty (ctx.is_instruction name) (has_pseudos pseudos) (actually_has_args pseudos)
            (leb 1 (count_args args))
            (signature_or_err (ctx.signature name)
              >>= (λ siggy. finish_call siggy (count_args args) (params siggy) each)))

    -- The cases of a switch; there is a panic where there is no first one.
    pub check_switch : {F : Type 0} → Cases F → Run ExprType
    check_switch no_cases = panic
    check_switch (missing cases) = panic
    check_switch (present e cases) =
        let first = check_expr e >>= require_value in
        check_others first cases >>= (λ _. first >>= (λ ty. ok (ExprType.value ty)))

    pub check_others : {F : Type 0} → Run ScalarType → Cases F → Run {0} Unit
    check_others first no_cases = ok tt
    check_others first (missing cases) = check_others first cases
    check_others first (present e cases) =
        let rest = check_others first cases in
        and_also first (check_expr e >>= require_value) >>= require_same >>= (λ _. rest)

    -- The arguments against the parameters, one by one.
    pub check_args : {F : Type 0} → List SignatureParam → Args F → Run {0} Unit
    check_args params no_args = ok tt
    check_args [] (arg e args) = ok tt
    check_args (p ∷ params) (arg e args) =
        and_also (check_expr e >>= require_value >>= check_param p.ty) (check_args params args)
        >>= (λ _. ok tt)

    pub check_each : {F : Type 0} → Args F → Run {0} Unit
    check_each no_args = ok tt
    check_each (arg e args) = and_also (check_expr e) (check_each args) >>= (λ _. ok tt)

    pub check_pseudos : {F : Type 0} → Pseudos F → Run {0} Unit
    check_pseudos no_pseudos = ok tt
    check_pseudos (pseudo kind e pseudos) =
        and_also (check_expr e >>= require_value >>= pseudo_check kind) (check_pseudos pseudos)
        >>= (λ _. ok tt)
