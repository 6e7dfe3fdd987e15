-- ===== src/ConstSimplify/Tests.antt =====
-- The simplification of `A + 1`, when `A` is the constant 5.
use truth.Base.{ℕ, ◌≡◌, refl, Bool, true, false, Option, none, some, List, [], ◌∷◌}
use truth.Base.Assoc.{Assoc}
use truth.Base.Run.{ok}
use truth.Ast.{Expr, bin_op, var, lit_int, IntRadix, Var, VarName, CallableName, Resolutions}
use truth.Ast.Ops.{BinOpKind}
use truth.Value.{ScalarValue}
use truth.Value.WholeFloats.{whole_floats}
use truth.ConstSimplify.{visit_expr}
use truth.ConstSimplify.Evaluated.{BecomesLiteral, context_with, get_or_compute-SimplifiesTo}
use truth.Consts.{const_eval, get_or_compute}

abbrev resolutions : Resolutions
resolutions = some 7 ∷ []

abbrev sum : Expr ℕ
sum =
    bin_op (var (record { ty_sigil = none; name = VarName.normal 0 })) BinOpKind.add
      (lit_int 1 IntRadix.dec)

abbrev defs : Assoc (Expr ℕ)
defs = (7, lit_int 5 IntRadix.hex) ∷ []

abbrev no_params : CallableName → Option (List Bool)
no_params name = none

abbrev cached : Assoc (ScalarValue ℕ)
cached = (7, ScalarValue.int 5) ∷ []

visit_test :
    visit_expr whole_floats (context_with whole_floats resolutions defs no_params cached) sum
    ≡ ok (lit_int 6 IntRadix.dec, false)
unfolding visit_expr truth.Ast.expect_def truth.Base.Assoc.get truth.Value.cast_by_ty_sigil
    truth.ConstEval.to_const truth.Value.to_literal truth.ConstEval.binop_const_eval
visit_test = refl

sum_evaluated :
    const_eval whole_floats resolutions defs
      (get_or_compute whole_floats resolutions defs 2 [])
      sum
      []
    ≡ ok (ScalarValue.int 6, cached)
unfolding const_eval get_or_compute truth.Ast.expect_def truth.Base.Assoc.get
    truth.Base.Members.member truth.Value.cast_by_ty_sigil truth.ConstEval.binop_const_eval
    truth.Base.Assoc.insert
sum_evaluated = refl

get_or_compute-SimplifiesTo_example :
    BecomesLiteral whole_floats resolutions defs no_params cached sum (ScalarValue.int 6)
get_or_compute-SimplifiesTo_example =
    get_or_compute-SimplifiesTo whole_floats resolutions defs no_params 2 [] sum [] cached cached
      (ScalarValue.int 6) sum_evaluated (λ k v p. p)
