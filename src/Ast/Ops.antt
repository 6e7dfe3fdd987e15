-- ===== src/Ast/Ops.antt =====
-- src/ast/mod.rs: the operators of the language and how they are classified.
use truth.Base.{Bool, true, false, Option, none, some}

pub data BinOpKind : Type 0 where
  add sub mul div rem eq ne lt le gt ge bit_or bit_xor bit_and logic_or logic_and : BinOpKind
  shift_left shift_right_signed shift_right_unsigned : BinOpKind

pub data UnOpKind : Type 0 where
  not neg bit_not sin cos sqrt encode_i encode_f cast_i cast_f : UnOpKind

pub data XcrementOpKind : Type 0 where
  inc dec : XcrementOpKind

pub data XcrementOpOrder : Type 0 where
  pre post : XcrementOpOrder

pub data VarSigil : Type 0 where
  int float : VarSigil

-- `var_keyword` and `void_keyword` are `var` and `void`.
pub data TypeKeyword : Type 0 where
  int float string var_keyword void_keyword : TypeKeyword

pub data LabelPropertyKeyword : Type 0 where
  offset_of time_of : LabelPropertyKeyword

pub data PseudoArgKind : Type 0 where
  mask pop blob extra_arg : PseudoArgKind

pub data AssignOpKind : Type 0 where
  assign add sub mul div rem bit_or bit_xor bit_and : AssignOpKind
  shift_left shift_right_signed shift_right_unsigned : AssignOpKind

pub data OpClass : Type 0 where
  arithmetic comparison bitwise shift logical float_math ty_sigil cast direct_assignment : OpClass

unfoldable pub assign_class : AssignOpKind → OpClass
assign_class AssignOpKind.assign = OpClass.direct_assignment
assign_class AssignOpKind.add = OpClass.arithmetic
assign_class AssignOpKind.sub = OpClass.arithmetic
assign_class AssignOpKind.mul = OpClass.arithmetic
assign_class AssignOpKind.div = OpClass.arithmetic
assign_class AssignOpKind.rem = OpClass.arithmetic
assign_class AssignOpKind.bit_or = OpClass.bitwise
assign_class AssignOpKind.bit_xor = OpClass.bitwise
assign_class AssignOpKind.bit_and = OpClass.bitwise
assign_class AssignOpKind.shift_left = OpClass.shift
assign_class AssignOpKind.shift_right_signed = OpClass.shift
assign_class AssignOpKind.shift_right_unsigned = OpClass.shift

unfoldable pub corresponding_binop : AssignOpKind → Option BinOpKind
corresponding_binop AssignOpKind.assign = none
corresponding_binop AssignOpKind.add = some BinOpKind.add
corresponding_binop AssignOpKind.sub = some BinOpKind.sub
corresponding_binop AssignOpKind.mul = some BinOpKind.mul
corresponding_binop AssignOpKind.div = some BinOpKind.div
corresponding_binop AssignOpKind.rem = some BinOpKind.rem
corresponding_binop AssignOpKind.bit_or = some BinOpKind.bit_or
corresponding_binop AssignOpKind.bit_xor = some BinOpKind.bit_xor
corresponding_binop AssignOpKind.bit_and = some BinOpKind.bit_and
corresponding_binop AssignOpKind.shift_left = some BinOpKind.shift_left
corresponding_binop AssignOpKind.shift_right_signed = some BinOpKind.shift_right_signed
corresponding_binop AssignOpKind.shift_right_unsigned = some BinOpKind.shift_right_unsigned

unfoldable pub binop_class : BinOpKind → OpClass
binop_class BinOpKind.add = OpClass.arithmetic
binop_class BinOpKind.sub = OpClass.arithmetic
binop_class BinOpKind.mul = OpClass.arithmetic
binop_class BinOpKind.div = OpClass.arithmetic
binop_class BinOpKind.rem = OpClass.arithmetic
binop_class BinOpKind.eq = OpClass.comparison
binop_class BinOpKind.ne = OpClass.comparison
binop_class BinOpKind.lt = OpClass.comparison
binop_class BinOpKind.le = OpClass.comparison
binop_class BinOpKind.gt = OpClass.comparison
binop_class BinOpKind.ge = OpClass.comparison
binop_class BinOpKind.bit_or = OpClass.bitwise
binop_class BinOpKind.bit_xor = OpClass.bitwise
binop_class BinOpKind.bit_and = OpClass.bitwise
binop_class BinOpKind.logic_or = OpClass.logical
binop_class BinOpKind.logic_and = OpClass.logical
binop_class BinOpKind.shift_left = OpClass.shift
binop_class BinOpKind.shift_right_signed = OpClass.shift
binop_class BinOpKind.shift_right_unsigned = OpClass.shift

unfoldable pub is_comparison : BinOpKind → Bool
unfolding binop_class
is_comparison op = elim (binop_class op) [ OpClass.comparison ↦ true | _ ↦ false ]

unfoldable pub negate_comparison : BinOpKind → Option BinOpKind
negate_comparison BinOpKind.eq = some BinOpKind.ne
negate_comparison BinOpKind.ne = some BinOpKind.eq
negate_comparison BinOpKind.le = some BinOpKind.gt
negate_comparison BinOpKind.ge = some BinOpKind.lt
negate_comparison BinOpKind.lt = some BinOpKind.ge
negate_comparison BinOpKind.gt = some BinOpKind.le
negate_comparison _ = none

unfoldable pub unop_class : UnOpKind → OpClass
unop_class UnOpKind.not = OpClass.logical
unop_class UnOpKind.neg = OpClass.arithmetic
unop_class UnOpKind.bit_not = OpClass.bitwise
unop_class UnOpKind.sin = OpClass.float_math
unop_class UnOpKind.cos = OpClass.float_math
unop_class UnOpKind.sqrt = OpClass.float_math
unop_class UnOpKind.cast_i = OpClass.cast
unop_class UnOpKind.cast_f = OpClass.cast
unop_class UnOpKind.encode_i = OpClass.ty_sigil
unop_class UnOpKind.encode_f = OpClass.ty_sigil

unfoldable pub as_ty_sigil : UnOpKind → Option VarSigil
as_ty_sigil UnOpKind.encode_i = some VarSigil.int
as_ty_sigil UnOpKind.encode_f = some VarSigil.float
as_ty_sigil _ = none

unfoldable pub as_ty_sigil_with_auto_cast : UnOpKind → Option VarSigil
unfolding as_ty_sigil
as_ty_sigil_with_auto_cast UnOpKind.cast_i = some VarSigil.int
as_ty_sigil_with_auto_cast UnOpKind.cast_f = some VarSigil.float
as_ty_sigil_with_auto_cast op = as_ty_sigil op
