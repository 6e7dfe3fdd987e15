-- ===== src/Value.antt =====
-- src/value.rs: the values of expressions and their types. The floats of the language are a parameter:
-- a type with the operations of `f32` that the program uses.
pub mod WholeFloats
use truth.Base.{ℕ, ◌≡◌, Bool, Option, none, some, List}
use truth.Ast.{Expr, lit_int, lit_float, lit_string, IntRadix}
use truth.Ast.Ops.{VarSigil}

-- The operations of `f32`, on a type of their own. `of_int` and `to_int` are the casts `as f32` and
-- `as i32`, between floats and the bit patterns of `i32`.
pub record FloatOps : Type 1 where
  pub Float : Type 0
  pub neg : Float → Float
  pub sin : Float → Float
  pub cos : Float → Float
  pub sqrt : Float → Float
  pub add : Float → Float → Float
  pub sub : Float → Float → Float
  pub mul : Float → Float → Float
  pub div : Float → Float → Float
  pub rem : Float → Float → Float
  pub eq : Float → Float → Bool
  pub lt : Float → Float → Bool
  pub le : Float → Float → Bool
  pub of_int : ℕ → Float
  pub to_int : Float → ℕ

pub data ScalarValue (F : Type 0) : Type 0 where
  int : ℕ → ScalarValue F
  float : F → ScalarValue F
  string : List ℕ → ScalarValue F

pub data ScalarType : Type 0 where
  int float string : ScalarType

pub data VarType : Type 0 where
  untyped : Bool → VarType
  typed : ScalarType → VarType

pub data ExprType : Type 0 where
  void : ExprType
  value : ScalarType → ExprType

unfoldable pub as_known_ty : VarType → Option ScalarType
as_known_ty (typed ty) = some ty
as_known_ty (untyped _) = none

unfoldable pub as_value_ty : ExprType → Option ScalarType
as_value_ty (value ty) = some ty
as_value_ty void = none

unfoldable pub ty : {F : Type 0} → ScalarValue F → ScalarType
ty (ScalarValue.int _) = ScalarType.int
ty (ScalarValue.float _) = ScalarType.float
ty (ScalarValue.string _) = ScalarType.string

-- `VarSigil::from_ty` and the conversion back.
unfoldable pub sigil_from_ty : ScalarType → Option VarSigil
sigil_from_ty ScalarType.int = some VarSigil.int
sigil_from_ty ScalarType.float = some VarSigil.float
sigil_from_ty ScalarType.string = none

unfoldable pub ty_of_sigil : VarSigil → ScalarType
ty_of_sigil VarSigil.int = ScalarType.int
ty_of_sigil VarSigil.float = ScalarType.float

-- `impl From<ScalarValue> for ast::Expr`
unfoldable pub to_literal : {F : Type 0} → ScalarValue F → Expr F
to_literal (ScalarValue.int x) = lit_int x IntRadix.dec
to_literal (ScalarValue.float x) = lit_float x
to_literal (ScalarValue.string x) = lit_string x

module _ (fl : FloatOps) where
  -- `none` is a panic: there is no string of that value.
  unfoldable pub int_of_ty : ℕ → ScalarType → Option (ScalarValue fl.Float)
  int_of_ty x ScalarType.int = some (ScalarValue.int x)
  int_of_ty x ScalarType.float = some (ScalarValue.float (fl.of_int x))
  int_of_ty x ScalarType.string = none

  unfoldable pub read_as_int : ScalarValue fl.Float → Option ℕ
  read_as_int (ScalarValue.int x) = some x
  read_as_int (ScalarValue.float x) = some (fl.to_int x)
  read_as_int (ScalarValue.string _) = none

  unfoldable pub read_as_float : ScalarValue fl.Float → Option fl.Float
  read_as_float (ScalarValue.int x) = some (fl.of_int x)
  read_as_float (ScalarValue.float x) = some x
  read_as_float (ScalarValue.string _) = none

  unfoldable pub cast_by_ty_sigil :
      ScalarValue fl.Float → Option VarSigil → Option (ScalarValue fl.Float)
  unfolding read_as_int read_as_float
  cast_by_ty_sigil v none = some v
  cast_by_ty_sigil v (some VarSigil.int) = elim (read_as_int v) [
    | none ↦ none
    | some x ↦ some (ScalarValue.int x)
  ]
  cast_by_ty_sigil v (some VarSigil.float) = elim (read_as_float v) [
    | none ↦ none
    | some x ↦ some (ScalarValue.float x)
  ]
