-- ===== src/ConstEval/Tests.antt =====
-- Constant operators at concrete operands.
use truth.Base.{ℕ, ◌^◌, ◌-◌, some, ◌≡◌, ◌↔◌, refl, arith, Bool, not, bool_to_nat}
use truth.Base.Run.{ok, panic}
use truth.Int32.{wrapping_div}
use truth.Ast.Ops.{BinOpKind, negate_comparison}
use truth.Value.{ScalarValue}
use truth.Value.WholeFloats.{whole_floats}
use truth.ConstEval.{binop_const_eval, binop_const_eval_int, handle_shift_rhs}
use truth.ConstEval.Laws.{
  IsDivision, binop_const_eval-panic_iff, binop_const_eval-negate_comparison,
}

-- -7 / 2, rounded towards zero, is -3.
div_test :
    binop_const_eval whole_floats BinOpKind.div (ScalarValue.int (2 ^ 32 - 7)) (ScalarValue.int 2)
    ≡ ok (ScalarValue.int (2 ^ 32 - 3))
unfolding binop_const_eval binop_const_eval_int wrapping_div
div_test = refl

-- -1 < 1, and -1 >>> 28 is 15.
lt_test :
    binop_const_eval whole_floats BinOpKind.lt (ScalarValue.int (2 ^ 32 - 1)) (ScalarValue.int 1)
    ≡ ok (ScalarValue.int 1)
unfolding binop_const_eval binop_const_eval_int
lt_test = refl

shift_test :
    binop_const_eval whole_floats BinOpKind.shift_right_unsigned
      (ScalarValue.int (2 ^ 32 - 1))
      (ScalarValue.int 60)
    ≡ ok (ScalarValue.int 15)
unfolding binop_const_eval binop_const_eval_int handle_shift_rhs
shift_test = refl

binop_const_eval-panic_iff_example :
    (binop_const_eval whole_floats BinOpKind.rem (ScalarValue.int 5) (ScalarValue.int 0) ≡ panic)
    ↔ (IsDivision BinOpKind.rem × (◌≡◌ {A = ℕ} 0 0))
binop_const_eval-panic_iff_example = binop_const_eval-panic_iff whole_floats BinOpKind.rem 5 0

lt_negated : negate_comparison BinOpKind.lt ≡ some BinOpKind.ge
unfolding negate_comparison
lt_negated = refl

binop_const_eval-negate_comparison_example :
    (r : Bool) × (binop_const_eval whole_floats BinOpKind.lt
        (ScalarValue.int 3)
        (ScalarValue.int (2 ^ 31))
      ≡ ok (ScalarValue.int (bool_to_nat r)))
    × (binop_const_eval whole_floats BinOpKind.ge (ScalarValue.int 3) (ScalarValue.int (2 ^ 31))
        ≡ ok (ScalarValue.int (bool_to_nat (not r))))
binop_const_eval-negate_comparison_example =
    binop_const_eval-negate_comparison whole_floats BinOpKind.lt BinOpKind.ge 3 (2 ^ 31) lt_negated
      (omega arith) (omega arith)
