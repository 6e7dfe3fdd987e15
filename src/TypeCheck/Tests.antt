-- ===== src/TypeCheck/Tests.antt =====
-- Checks of `1 + x` and of statements, where `x` is an integer variable.
use truth.Base.{ℕ, ◌≡◌, refl, true, none, [], ◌∷◌}
use truth.Base.Run.{ok, err, Ensures}
use truth.Ast.{Expr, bin_op, var, lit_int, lit_string, IntRadix, Var, VarName}
use truth.Ast.Ops.{BinOpKind, AssignOpKind}
use truth.Ast.Stmt.{Stmts, stmt, StmtKind, and_then, no_stmts}
use truth.Value.{ScalarValue, ScalarType, VarType, ExprType, ty}
use truth.Value.WholeFloats.{whole_floats}
use truth.ConstEval.{binop_const_eval}
use truth.TypeCheck.{TypeContext, check_expr, compute_ty, binop_check, binop_ty}
use truth.TypeCheck.Consistent.{check_expr-compute_ty}
use truth.TypeCheck.Operators.{binop_check-Evaluates}
use truth.TypeCheck.Stmts.{check_stmts}

abbrev context : TypeContext
context = record {
  inherent_ty = λ name. VarType.typed ScalarType.int;
  is_instruction = λ name. true;
  signature = λ name. none;
}

abbrev x : Var
x = record { ty_sigil = none; name = VarName.normal 0 }

abbrev sum : Expr ℕ
sum = bin_op (lit_int 1 IntRadix.dec) BinOpKind.add (var x)

check_expr_test : check_expr context sum ≡ ok (ExprType.value ScalarType.int)
unfolding check_expr
check_expr_test = refl

check_expr-compute_ty_example :
    Ensures (λ t. compute_ty context sum ≡ ok t) (check_expr context sum)
check_expr-compute_ty_example = check_expr-compute_ty context sum

binop_check-Evaluates_example :
    (v : ScalarValue ℕ) × ((binop_const_eval whole_floats BinOpKind.div
          (ScalarValue.int 7)
          (ScalarValue.int 2)
        ≡ ok v)
      × (binop_ty BinOpKind.div (ok ScalarType.int) ≡ ok (ty v)))
unfolding ty
binop_check-Evaluates_example =
    binop_check-Evaluates whole_floats BinOpKind.div (ScalarValue.int 7) (ScalarValue.int 2)
      (unfold binop_check in refl) (unfold truth.TypeCheck.Operators.divides_by_zero in refl)

-- `x = "a";` is an error, but not inside a free-standing block.
abbrev bad_assignment : Stmts ℕ
bad_assignment =
    and_then (stmt 0 none (StmtKind.assignment x AssignOpKind.assign (lit_string (97 ∷ []))))
      no_stmts

bad_assignment_test : check_stmts context none bad_assignment ≡ err
unfolding check_stmts
bad_assignment_test = refl

unchecked_block_test :
    check_stmts context none (and_then (stmt 1 none (StmtKind.block bad_assignment)) no_stmts)
    ≡ ok tt
unfolding check_stmts
unchecked_block_test = refl
