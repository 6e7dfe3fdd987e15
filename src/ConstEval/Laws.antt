-- ===== src/ConstEval/Laws.antt =====
-- Constant evaluation: negated comparisons and division by zero.
use mathlib.Core.Option.{some-injective}
use truth.Base.{ℕ, ◌^◌, ◌<◌, ◌≡◌, ◌↔◌, refl, arith, Bool, not, some, ◌==◌, bool_to_nat}
use truth.Base.Run.{ok, panic}
use truth.Int32.{wrapping_div, wrapping_rem, lt_i32, le_i32}
use truth.Ast.Ops.{BinOpKind, negate_comparison}
use truth.Value.{FloatOps, ScalarValue}
use truth.ConstEval.{binop_const_eval_int, binop_const_eval}

abbrev pub IsDivision : BinOpKind → Type 0
IsDivision BinOpKind.div = Unit
IsDivision BinOpKind.rem = Unit
IsDivision _ = ⊥

module _ (fl : FloatOps) where
  open fl use {Float}

  -- At two integers an operator fails exactly when it divides by zero: the compiler panics there.
  pub binop_const_eval-panic_iff :
      (op : BinOpKind) (a b : ℕ)
      → (binop_const_eval fl op (ScalarValue.int a) (ScalarValue.int b) ≡ panic)
        ↔ (IsDivision op × (b ≡ 0))
  unfolding binop_const_eval binop_const_eval_int wrapping_div wrapping_rem
  binop_const_eval-panic_iff BinOpKind.div a b = (λ h. (tt, ground arith), λ h. let e = h.1 in rw e)
  binop_const_eval-panic_iff BinOpKind.rem a b = (λ h. (tt, ground arith), λ h. let e = h.1 in rw e)
  binop_const_eval-panic_iff _ a b = (λ h. absurd (cc), λ h. absurd h.0)

  -- A comparison and its negation, at two `i32` patterns, give 0 and 1 or 1 and 0.
  pub binop_const_eval-negate_comparison :
      (op op' : BinOpKind) (a b : ℕ)
      → negate_comparison op ≡ some op'
      → a < 2 ^ 32
      → b < 2 ^ 32
      → (r : Bool) × (binop_const_eval fl op (ScalarValue.int a) (ScalarValue.int b)
          ≡ ok (ScalarValue.int (bool_to_nat r)))
        × (binop_const_eval fl op' (ScalarValue.int a) (ScalarValue.int b)
            ≡ ok (ScalarValue.int (bool_to_nat (not r))))
  unfolding binop_const_eval binop_const_eval_int negate_comparison
  binop_const_eval-negate_comparison BinOpKind.eq op' a b h p q =
      rw (← some-injective _ _ h) (a == b, refl, refl)
  binop_const_eval-negate_comparison BinOpKind.ne op' a b h p q =
      rw (← some-injective _ _ h) (not (a == b), refl, ground arith)
  binop_const_eval-negate_comparison BinOpKind.lt op' a b h p q =
      rw (← some-injective _ _ h) (lt_i32 a b, refl, ground arith)
  binop_const_eval-negate_comparison BinOpKind.le op' a b h p q =
      rw (← some-injective _ _ h) (le_i32 a b, refl, ground arith)
  binop_const_eval-negate_comparison BinOpKind.gt op' a b h p q =
      rw (← some-injective _ _ h) (lt_i32 b a, refl, ground arith)
  binop_const_eval-negate_comparison BinOpKind.ge op' a b h p q =
      rw (← some-injective _ _ h) (le_i32 b a, refl, ground arith)
  binop_const_eval-negate_comparison _ op' a b h p q = absurd (cc)
