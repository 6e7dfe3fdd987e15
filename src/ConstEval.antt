-- ===== src/ConstEval.antt =====
-- src/passes/const_simplify.rs, lines 38 to 180: the constant value of an operator at constant
-- operands. `panic` is `uncaught_type_error`, a `panic!` of the compiler, or the panic of `i32`
-- division by zero.
pub mod Laws
mod Tests
use truth.Base.{
  ℕ, ◌%◌, Bool, true, false, Option, none, some, List, bit_and, bit_or, bit_xor, ◌==◌, not,
  bool_to_nat, if◌then◌else◌,
}
use truth.Base.Run.{Run, ok, panic, ◌>>=◌, expect}
use truth.Int32.{
  wrapping_neg, wrapping_add, wrapping_sub, wrapping_mul, wrapping_div, wrapping_rem, lt_i32,
  le_i32, not_i32, shl_i32, shr_i32, shr_u32,
}
use truth.Ast.{Expr, lit_int, lit_float, lit_string}
use truth.Ast.Ops.{BinOpKind, UnOpKind}
use truth.Value.{FloatOps, ScalarValue}

unfoldable pub handle_shift_rhs : ℕ → ℕ
handle_shift_rhs x = x % 32

unfoldable pub to_const : {F : Type 0} → Expr F → Option (ScalarValue F)
to_const (lit_int x _) = some (ScalarValue.int x)
to_const (lit_float x) = some (ScalarValue.float x)
to_const (lit_string x) = some (ScalarValue.string x)
to_const _ = none

unfoldable pub as_const_int : {F : Type 0} → Expr F → Option ℕ
as_const_int (lit_int x _) = some x
as_const_int _ = none

module _ {F : Type 0} where
  -- A value of type integer, and the integer of a truth value.
  abbrev pub int_value : ℕ → Run (ScalarValue F)
  int_value x = ok (ScalarValue.int x)

  abbrev pub bool_value : Bool → Run (ScalarValue F)
  bool_value b = ok (ScalarValue.int (bool_to_nat b))

  -- `BinOpKind::const_eval` at two integers.
  unfoldable pub binop_const_eval_int : BinOpKind → ℕ → ℕ → Run (ScalarValue F)
  unfolding handle_shift_rhs
  binop_const_eval_int BinOpKind.add a b = int_value (wrapping_add a b)
  binop_const_eval_int BinOpKind.sub a b = int_value (wrapping_sub a b)
  binop_const_eval_int BinOpKind.mul a b = int_value (wrapping_mul a b)
  binop_const_eval_int BinOpKind.div a b = expect (wrapping_div a b) >>= int_value
  binop_const_eval_int BinOpKind.rem a b = expect (wrapping_rem a b) >>= int_value
  binop_const_eval_int BinOpKind.eq a b = bool_value (a == b)
  binop_const_eval_int BinOpKind.ne a b = bool_value (not (a == b))
  binop_const_eval_int BinOpKind.lt a b = bool_value (lt_i32 a b)
  binop_const_eval_int BinOpKind.le a b = bool_value (le_i32 a b)
  binop_const_eval_int BinOpKind.gt a b = bool_value (lt_i32 b a)
  binop_const_eval_int BinOpKind.ge a b = bool_value (le_i32 b a)
  binop_const_eval_int BinOpKind.logic_or a b = int_value (if a == 0 then b else a)
  binop_const_eval_int BinOpKind.logic_and a b = int_value (if a == 0 then 0 else b)
  binop_const_eval_int BinOpKind.bit_xor a b = int_value (bit_xor a b)
  binop_const_eval_int BinOpKind.bit_and a b = int_value (bit_and a b)
  binop_const_eval_int BinOpKind.bit_or a b = int_value (bit_or a b)
  binop_const_eval_int BinOpKind.shift_left a b = int_value (shl_i32 a (handle_shift_rhs b))
  binop_const_eval_int BinOpKind.shift_right_signed a b = int_value (shr_i32 a (handle_shift_rhs b))
  binop_const_eval_int BinOpKind.shift_right_unsigned a b =
      int_value (shr_u32 a (handle_shift_rhs b))

module _ (fl : FloatOps) where
  open fl use {Float}

  -- `BinOpKind::const_eval` at two floats.
  unfoldable pub binop_const_eval_float : BinOpKind → Float → Float → Run (ScalarValue Float)
  binop_const_eval_float BinOpKind.add a b = ok (ScalarValue.float (fl.add a b))
  binop_const_eval_float BinOpKind.sub a b = ok (ScalarValue.float (fl.sub a b))
  binop_const_eval_float BinOpKind.mul a b = ok (ScalarValue.float (fl.mul a b))
  binop_const_eval_float BinOpKind.div a b = ok (ScalarValue.float (fl.div a b))
  binop_const_eval_float BinOpKind.rem a b = ok (ScalarValue.float (fl.rem a b))
  binop_const_eval_float BinOpKind.eq a b = bool_value (fl.eq a b)
  binop_const_eval_float BinOpKind.ne a b = bool_value (not (fl.eq a b))
  binop_const_eval_float BinOpKind.lt a b = bool_value (fl.lt a b)
  binop_const_eval_float BinOpKind.le a b = bool_value (fl.le a b)
  binop_const_eval_float BinOpKind.gt a b = bool_value (fl.lt b a)
  binop_const_eval_float BinOpKind.ge a b = bool_value (fl.le b a)
  binop_const_eval_float _ a b = panic

  unfoldable pub binop_const_eval :
      BinOpKind → ScalarValue Float → ScalarValue Float → Run (ScalarValue Float)
  unfolding binop_const_eval_int binop_const_eval_float
  binop_const_eval op (ScalarValue.int a) (ScalarValue.int b) = binop_const_eval_int op a b
  binop_const_eval op (ScalarValue.float a) (ScalarValue.float b) = binop_const_eval_float op a b
  binop_const_eval op _ _ = panic

  -- `UnOpKind::const_eval` at an integer; `ok none` for the type sigils.
  unfoldable pub unop_const_eval_int : UnOpKind → ℕ → Run (Option (ScalarValue Float))
  unop_const_eval_int UnOpKind.neg x = ok (some (ScalarValue.int (wrapping_neg x)))
  unop_const_eval_int UnOpKind.not x = ok (some (ScalarValue.int (bool_to_nat (x == 0))))
  unop_const_eval_int UnOpKind.bit_not x = ok (some (ScalarValue.int (not_i32 x)))
  unop_const_eval_int UnOpKind.sin x = panic
  unop_const_eval_int UnOpKind.cos x = panic
  unop_const_eval_int UnOpKind.sqrt x = panic
  unop_const_eval_int UnOpKind.cast_i x = ok (some (ScalarValue.int x))
  unop_const_eval_int UnOpKind.cast_f x = ok (some (ScalarValue.float (fl.of_int x)))
  unop_const_eval_int UnOpKind.encode_i x = ok none
  unop_const_eval_int UnOpKind.encode_f x = ok none

  -- `UnOpKind::const_eval` at a float.
  unfoldable pub unop_const_eval_float : UnOpKind → Float → Run (Option (ScalarValue Float))
  unop_const_eval_float UnOpKind.neg x = ok (some (ScalarValue.float (fl.neg x)))
  unop_const_eval_float UnOpKind.not x = panic
  unop_const_eval_float UnOpKind.bit_not x = panic
  unop_const_eval_float UnOpKind.sin x = ok (some (ScalarValue.float (fl.sin x)))
  unop_const_eval_float UnOpKind.cos x = ok (some (ScalarValue.float (fl.cos x)))
  unop_const_eval_float UnOpKind.sqrt x = ok (some (ScalarValue.float (fl.sqrt x)))
  unop_const_eval_float UnOpKind.cast_i x = ok (some (ScalarValue.int (fl.to_int x)))
  unop_const_eval_float UnOpKind.cast_f x = ok (some (ScalarValue.float x))
  unop_const_eval_float UnOpKind.encode_i x = ok none
  unop_const_eval_float UnOpKind.encode_f x = ok none

  unfoldable pub unop_const_eval : UnOpKind → ScalarValue Float → Run (Option (ScalarValue Float))
  unfolding unop_const_eval_int unop_const_eval_float
  unop_const_eval op (ScalarValue.int x) = unop_const_eval_int op x
  unop_const_eval op (ScalarValue.float x) = unop_const_eval_float op x
  unop_const_eval op (ScalarValue.string _) = panic
