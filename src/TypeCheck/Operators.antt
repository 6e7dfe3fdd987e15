-- ===== src/TypeCheck/Operators.antt =====
-- Operators whose operands pass the check are evaluated, to a value of the type of the expression.
use native.Mathlib.Omega.{arith}
use truth.Base.{ℕ, ◌≡◌, refl, Bool, true, false, ◌==◌, if◌then◌else◌}
use truth.Base.Run.{ok, err, panic, ◌>>=◌, ok-IsOk, bind-inverse}
use truth.Int32.{wrapping_div, wrapping_rem}
use truth.Ast.Ops.{BinOpKind, OpClass, binop_class}
use truth.Value.{FloatOps, ScalarValue, ScalarType, ty}
use truth.ConstEval.{binop_const_eval}
use truth.TypeCheck.{
  require, require_exact, require_same, require_int, require_operand, binop_check, binop_ty,
  same_ty,
}

-- A division of integers by zero, which panics.
unfoldable pub divides_by_zero : {F : Type 0} → BinOpKind → ScalarValue F → Bool
divides_by_zero BinOpKind.div (ScalarValue.int x) = x == 0
divides_by_zero BinOpKind.rem (ScalarValue.int x) = x == 0
divides_by_zero _ _ = false

require_operand-string : (c : OpClass) → require_operand c ScalarType.string ≡ ok tt → ⊥
unfolding require_operand require_int require_exact require same_ty
require_operand-string OpClass.arithmetic h = ok-IsOk err tt h
require_operand-string OpClass.comparison h = ok-IsOk err tt h
require_operand-string OpClass.bitwise h = ok-IsOk err tt h
require_operand-string OpClass.logical h = ok-IsOk err tt h
require_operand-string OpClass.shift h = ok-IsOk err tt h
require_operand-string OpClass.float_math h = ok-IsOk panic tt h
require_operand-string OpClass.ty_sigil h = ok-IsOk panic tt h
require_operand-string OpClass.cast h = ok-IsOk panic tt h
require_operand-string OpClass.direct_assignment h = ok-IsOk panic tt h

same_passed :
    (b : Bool) (s : ScalarType)
    → ((if b then ok s else err) >>= (λ _. ok (tt {0}))) ≡ ok tt
    → b ≡ true
same_passed true s h = refl
same_passed false s h = absurd (ok-IsOk err tt h)

different : false ≡ true → ⊥
different h = ground arith

-- The two parts of a check that passes.
binop_check-inverse :
    (op : BinOpKind) (s t : ScalarType)
    → binop_check op (s, t) ≡ ok tt
    → (require_operand (binop_class op) s ≡ ok tt) × (same_ty s t ≡ true)
unfolding binop_check require_same
binop_check-inverse op s t h =
    let first = bind-inverse (require_operand (binop_class op) s) _ tt h in
    (first.1.0, same_passed (same_ty s t) s first.1.1)

module _ (fl : FloatOps) where
  open fl use {Float}

  -- The operator has a value, of the type of the expression.
  abbrev Evaluates : BinOpKind → ScalarValue Float → ScalarValue Float → Type 0
  Evaluates op a b =
      (v : ScalarValue Float) × ((binop_const_eval fl op a b ≡ ok v)
        × (binop_ty op (ok (ty a)) ≡ ok (ty v)))

  ints-Evaluate :
      (op : BinOpKind) (a b : ℕ)
      → divides_by_zero {F = Float} op (ScalarValue.int b) ≡ false
      → Evaluates op (ScalarValue.int a) (ScalarValue.int b)
  unfolding binop_const_eval binop_ty binop_class ty divides_by_zero wrapping_div wrapping_rem
  ints-Evaluate BinOpKind.add a b z = (_, (refl, refl))
  ints-Evaluate BinOpKind.sub a b z = (_, (refl, refl))
  ints-Evaluate BinOpKind.mul a b z = (_, (refl, refl))
  ints-Evaluate BinOpKind.div a b z = rw z (_, (refl, refl))
  ints-Evaluate BinOpKind.rem a b z = rw z (_, (refl, refl))
  ints-Evaluate BinOpKind.eq a b z = (_, (refl, refl))
  ints-Evaluate BinOpKind.ne a b z = (_, (refl, refl))
  ints-Evaluate BinOpKind.lt a b z = (_, (refl, refl))
  ints-Evaluate BinOpKind.le a b z = (_, (refl, refl))
  ints-Evaluate BinOpKind.gt a b z = (_, (refl, refl))
  ints-Evaluate BinOpKind.ge a b z = (_, (refl, refl))
  ints-Evaluate BinOpKind.logic_or a b z = (_, (refl, refl))
  ints-Evaluate BinOpKind.logic_and a b z = (_, (refl, refl))
  ints-Evaluate BinOpKind.bit_xor a b z = (_, (refl, refl))
  ints-Evaluate BinOpKind.bit_and a b z = (_, (refl, refl))
  ints-Evaluate BinOpKind.bit_or a b z = (_, (refl, refl))
  ints-Evaluate BinOpKind.shift_left a b z = (_, (refl, refl))
  ints-Evaluate BinOpKind.shift_right_signed a b z = (_, (refl, refl))
  ints-Evaluate BinOpKind.shift_right_unsigned a b z = (_, (refl, refl))

  floats-Evaluate :
      (op : BinOpKind) (a b : Float)
      → require_operand (binop_class op) ScalarType.float ≡ ok tt
      → Evaluates op (ScalarValue.float a) (ScalarValue.float b)
  unfolding binop_const_eval binop_ty binop_class ty require_operand require_int require_exact
      require same_ty
  floats-Evaluate BinOpKind.add a b h = (_, (refl, refl))
  floats-Evaluate BinOpKind.sub a b h = (_, (refl, refl))
  floats-Evaluate BinOpKind.mul a b h = (_, (refl, refl))
  floats-Evaluate BinOpKind.div a b h = (_, (refl, refl))
  floats-Evaluate BinOpKind.rem a b h = (_, (refl, refl))
  floats-Evaluate BinOpKind.eq a b h = (_, (refl, refl))
  floats-Evaluate BinOpKind.ne a b h = (_, (refl, refl))
  floats-Evaluate BinOpKind.lt a b h = (_, (refl, refl))
  floats-Evaluate BinOpKind.le a b h = (_, (refl, refl))
  floats-Evaluate BinOpKind.gt a b h = (_, (refl, refl))
  floats-Evaluate BinOpKind.ge a b h = (_, (refl, refl))
  floats-Evaluate BinOpKind.logic_or a b h = absurd (ok-IsOk err tt h)
  floats-Evaluate BinOpKind.logic_and a b h = absurd (ok-IsOk err tt h)
  floats-Evaluate BinOpKind.bit_xor a b h = absurd (ok-IsOk err tt h)
  floats-Evaluate BinOpKind.bit_and a b h = absurd (ok-IsOk err tt h)
  floats-Evaluate BinOpKind.bit_or a b h = absurd (ok-IsOk err tt h)
  floats-Evaluate BinOpKind.shift_left a b h = absurd (ok-IsOk err tt h)
  floats-Evaluate BinOpKind.shift_right_signed a b h = absurd (ok-IsOk err tt h)
  floats-Evaluate BinOpKind.shift_right_unsigned a b h = absurd (ok-IsOk err tt h)

  -- A binary operator whose operand types pass the check has a value at constants of these types,
  -- unless integers are divided by zero, and the value has the type that `_binop_ty` gives.
  pub binop_check-Evaluates :
      (op : BinOpKind) (a b : ScalarValue Float)
      → binop_check op (ty a, ty b) ≡ ok tt
      → divides_by_zero op b ≡ false
      → (v : ScalarValue Float) × ((binop_const_eval fl op a b ≡ ok v)
          × (binop_ty op (ok (ty a)) ≡ ok (ty v)))
  unfolding ty same_ty
  binop_check-Evaluates op (ScalarValue.int a) (ScalarValue.int b) h z = ints-Evaluate op a b z
  binop_check-Evaluates op (ScalarValue.float a) (ScalarValue.float b) h z =
      floats-Evaluate op a b (binop_check-inverse op ScalarType.float ScalarType.float h).0
  binop_check-Evaluates op (ScalarValue.string a) b h z = absurd (
      require_operand-string (binop_class op) (binop_check-inverse op ScalarType.string (ty b) h).0)
  binop_check-Evaluates op (ScalarValue.int a) (ScalarValue.float b) h z =
      absurd (different (binop_check-inverse op ScalarType.int ScalarType.float h).1)
  binop_check-Evaluates op (ScalarValue.int a) (ScalarValue.string b) h z =
      absurd (different (binop_check-inverse op ScalarType.int ScalarType.string h).1)
  binop_check-Evaluates op (ScalarValue.float a) (ScalarValue.int b) h z =
      absurd (different (binop_check-inverse op ScalarType.float ScalarType.int h).1)
  binop_check-Evaluates op (ScalarValue.float a) (ScalarValue.string b) h z =
      absurd (different (binop_check-inverse op ScalarType.float ScalarType.string h).1)
