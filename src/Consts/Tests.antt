-- ===== src/Consts/Tests.antt =====
-- The evaluation of `const int A = B + 1; const int B = 5;` and of a cycle.
use truth.Base.{
  ℕ, ◌≡◌, refl, arith, Bool, true, false, Option, none, some, List, [], ◌∷◌, All, length,
  if◌then◌else◌,
}
use truth.Base.Assoc
use truth.Base.Assoc.{Assoc}
use truth.Base.Run.{ok, err, Ensures}
use truth.Ast.{Expr, bin_op, var, lit_int, IntRadix, Var, VarName, CallableName, Resolutions}
use truth.Ast.Ops.{BinOpKind}
use truth.Value.{ScalarValue}
use truth.Value.WholeFloats.{whole_floats}
use truth.Consts.{Consts, const_eval, get_or_compute, evaluate_all_deferred, evaluate_ids}
use truth.Consts.Fuel.{Finishes, evaluate_all_deferred-Finishes}
use truth.Consts.Cache.{Extends, Grows, get_or_compute-Caches, evaluate_ids-Caches}

abbrev resolutions : Resolutions
resolutions = some 0 ∷ some 1 ∷ []

abbrev plain_var : ℕ → Expr ℕ
plain_var id = var (record { ty_sigil = none; name = VarName.normal id })

abbrev defs : Assoc (Expr ℕ)
defs =
    (0, bin_op (plain_var 1) BinOpKind.add (lit_int 1 IntRadix.dec))
    ∷ (1, lit_int 5 IntRadix.dec)
    ∷ []

abbrev cycle : Assoc (Expr ℕ)
cycle = (0, plain_var 1) ∷ (1, plain_var 0) ∷ []

abbrev consts : Consts ℕ
consts = record {
  deferred_ids = 0 ∷ 1 ∷ [];
  deferred_equality_checks = (record { id_1 = 0; id_2 = 0 }) ∷ [];
  values = [];
}

evaluation_test :
    evaluate_ids whole_floats resolutions defs (0 ∷ 1 ∷ []) []
    ≡ ok ((1, ScalarValue.int 5) ∷ (0, ScalarValue.int 6) ∷ [])
unfolding evaluate_ids get_or_compute Assoc.get truth.Base.Members.member const_eval
    truth.Ast.expect_def truth.Value.cast_by_ty_sigil truth.ConstEval.binop_const_eval Assoc.insert
evaluation_test = refl

cycle_test : evaluate_ids whole_floats resolutions cycle (0 ∷ []) [] ≡ err
unfolding evaluate_ids get_or_compute Assoc.get truth.Base.Members.member const_eval
    truth.Ast.expect_def
cycle_test = refl

evaluate_all_deferred-Finishes_example :
    Finishes (evaluate_all_deferred whole_floats resolutions cycle consts)
evaluate_all_deferred-Finishes_example =
    evaluate_all_deferred-Finishes whole_floats resolutions cycle consts

get_or_compute-Caches_example :
    Ensures
      (λ (v, ws). Grows [] [] ws × (Assoc.get 0 ws ≡ some v))
      (get_or_compute whole_floats resolutions defs 3 [] 0 [])
get_or_compute-Caches_example = get_or_compute-Caches whole_floats resolutions defs 3 [] 0 []

evaluate_ids-Caches_example :
    Ensures
      (λ ws.
        Extends [] ws × All (λ id. (v : ScalarValue ℕ) × (Assoc.get id ws ≡ some v)) (0 ∷ 1 ∷ []))
      (evaluate_ids whole_floats resolutions defs (0 ∷ 1 ∷ []) [])
evaluate_ids-Caches_example = evaluate_ids-Caches whole_floats resolutions defs (0 ∷ 1 ∷ []) []
