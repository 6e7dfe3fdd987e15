-- ===== src/Consts.antt =====
-- src/context/consts.rs: the evaluator of constant definitions, which computes the constants that a
-- constant depends on when they are needed, caches every value and reports cycles.
-- A `ConstId` is the number of its `DefId`. The cache is threaded through as a value.
pub mod Fuel
pub mod Cache
mod Tests
use truth.Base.{
  ℕ, zero, suc, Bool, true, false, ◌&&◌, Option, none, some, List, [], ◌∷◌, ◌++◌, length, ◌==◌,
  if◌then◌else◌,
}
use truth.Base.Assoc
use truth.Base.Assoc.{Assoc}
use truth.Base.Run.{Run, ok, err, panic, out_of_fuel, ◌>>=◌, expect}
use truth.Base.Members.{member}
use truth.Ast.{
  Expr, ternary, bin_op, un_op, xcrement_op, var, call, diff_switch, lit_int, lit_float, lit_string,
  label_property, enum_const, Var, VarName, Resolutions, expect_def,
}
use truth.Ast.Ops.{VarSigil}
use truth.Value.{FloatOps, ScalarValue, cast_by_ty_sigil}
use truth.ConstEval.{unop_const_eval, binop_const_eval}

pub record EqualityCheck : Type 0 where
  pub id_1 : ℕ
  pub id_2 : ℕ

pub record Consts (F : Type 0) : Type 0 where
  pub deferred_ids : List ℕ
  pub deferred_equality_checks : List EqualityCheck
  pub values : Assoc (ScalarValue F)

module _ {F : Type 0} where
  unfoldable pub defer_evaluation_of : Consts F → ℕ → Consts F
  defer_evaluation_of consts def_id = record consts {
    deferred_ids = consts.deferred_ids ++ def_id ∷ [];
  }

  unfoldable pub defer_equality_check : Consts F → ℕ → ℕ → Consts F
  defer_equality_check consts id_1 id_2 = record consts {
    deferred_equality_checks =
        consts.deferred_equality_checks ++ record { id_1 = id_1; id_2 = id_2 } ∷ [];
  }

  unfoldable pub get_cached_value : Consts F → ℕ → Option (ScalarValue F)
  get_cached_value consts id = Assoc.get id consts.values

-- Equality of texts, code point by code point.
unfoldable pub same_text : List ℕ → List ℕ → Bool
same_text [] [] = true
same_text (c ∷ cs) (d ∷ ds) = c == d && same_text cs ds
same_text _ _ = false

-- `defs` holds the expression of each constant, `Defs::var_const_expr`.
module _ (fl : FloatOps) (resolutions : Resolutions) (defs : Assoc (Expr fl.Float)) where
  open fl use {Float}

  abbrev pub Values : Type 0
  Values = Assoc (ScalarValue Float)

  -- The branches of a ternary have both been evaluated.
  unfoldable pub choose_branch :
      ScalarValue Float → ScalarValue Float → ScalarValue Float → Run (ScalarValue Float)
  choose_branch (ScalarValue.int x) left right = ok (if x == 0 then right else left)
  choose_branch (ScalarValue.float _) left right = panic
  choose_branch (ScalarValue.string _) left right = panic

  -- `None` of `UnOpKind::const_eval` is an error here.
  unfoldable pub require_const : Option (ScalarValue Float) → Run (ScalarValue Float)
  require_const none = err
  require_const (some v) = ok v

  -- The value of a variable that is mentioned, cast by its type sigil.
  unfoldable pub const_eval_var :
      (ℕ → Values → Run (ScalarValue Float × Values))
      → Option VarSigil
      → VarName
      → Values
      → Run (ScalarValue Float × Values)
  const_eval_var compute ty_sigil (VarName.normal ident) vs = do
    def ← expect_def resolutions ident
    (inherent, vs') ← compute def vs
    cast ← expect (cast_by_ty_sigil fl inherent ty_sigil)
    ok (cast, vs')
  const_eval_var compute ty_sigil (VarName.reg _) vs = err

  -- `_const_eval`; `compute` is `_get_or_compute` for a constant that is mentioned.
  unfoldable pub const_eval :
      (ℕ → Values → Run (ScalarValue Float × Values))
      → Expr Float
      → Values
      → Run (ScalarValue Float × Values)
  unfolding choose_branch require_const const_eval_var
  const_eval compute (lit_int x _) vs = ok (ScalarValue.int x, vs)
  const_eval compute (lit_float x) vs = ok (ScalarValue.float x, vs)
  const_eval compute (lit_string x) vs = ok (ScalarValue.string x, vs)
  const_eval compute (var v) vs = const_eval_var compute v.ty_sigil v.name vs
  const_eval compute (enum_const _ ident) vs = do def ← expect_def resolutions ident; compute def vs
  const_eval compute (un_op op b) vs = do
    (b_value, vs') ← const_eval compute b vs
    out ← unop_const_eval fl op b_value
    v ← require_const out
    ok (v, vs')
  const_eval compute (bin_op a op b) vs = do
    (a_value, vs₁) ← const_eval compute a vs
    (b_value, vs₂) ← const_eval compute b vs₁
    v ← binop_const_eval fl op a_value b_value
    ok (v, vs₂)
  const_eval compute (ternary cond left right) vs = do
    (cond_value, vs₁) ← const_eval compute cond vs
    (left_value, vs₂) ← const_eval compute left vs₁
    (right_value, vs₃) ← const_eval compute right vs₂
    v ← choose_branch cond_value left_value right_value
    ok (v, vs₃)
  const_eval compute (xcrement_op _ _ _) vs = err
  const_eval compute (call _ _ _) vs = err
  const_eval compute (diff_switch _) vs = err
  const_eval compute (label_property _ _) vs = err

  -- What is done about a constant with no definition: an error inside another constant's definition, a
  -- panic at the root.
  unfoldable pub undefined_const : List ℕ → Run (ScalarValue Float × Values)
  undefined_const [] = panic
  undefined_const (_ ∷ _) = err

  -- The part of `_get_or_compute` that evaluates and caches a definition, if there is one; `rec` is the
  -- recursive call.
  unfoldable pub compute_definition :
      (List ℕ → ℕ → Values → Run (ScalarValue Float × Values))
      → List ℕ
      → ℕ
      → Values
      → Option (Expr Float)
      → Run (ScalarValue Float × Values)
  unfolding undefined_const
  compute_definition rec stack id vs none = undefined_const stack
  compute_definition rec stack id vs (some e) = do
    (v, vs') ← const_eval (rec (id ∷ stack)) e vs
    ok (v, Assoc.insert id v vs')

  -- A cached value is returned, and a constant that is being computed is a cycle.
  unfoldable pub unless_cached :
      Option (ScalarValue Float)
      → Bool
      → Values
      → Run (ScalarValue Float × Values)
      → Run (ScalarValue Float × Values)
  unless_cached (some v) is_cycle vs computed = ok (v, vs)
  unless_cached none true vs computed = err
  unless_cached none false vs computed = computed

  -- `_get_or_compute`, with fuel for the depth of constants that depend on one another.
  unfoldable pub get_or_compute : ℕ → List ℕ → ℕ → Values → Run (ScalarValue Float × Values)
  unfolding unless_cached compute_definition
  get_or_compute zero stack id vs = out_of_fuel
  get_or_compute (suc fuel) stack id vs =
      unless_cached (Assoc.get id vs) (member id stack) vs
        (compute_definition (get_or_compute fuel) stack id vs (Assoc.get id defs))

  -- `do_deferred_evaluations`: each deferred constant at the root, with fuel for every definition.
  unfoldable pub evaluate_ids : List ℕ → Values → Run Values
  evaluate_ids [] vs = ok vs
  evaluate_ids (id ∷ ids) vs = do
    (v, vs') ← get_or_compute (suc (length defs)) [] id vs
    evaluate_ids ids vs'

  unfoldable pub values_equal : ScalarValue Float → ScalarValue Float → Bool
  unfolding same_text
  values_equal (ScalarValue.int x) (ScalarValue.int y) = x == y
  values_equal (ScalarValue.float x) (ScalarValue.float y) = fl.eq x y
  values_equal (ScalarValue.string x) (ScalarValue.string y) = same_text x y
  values_equal _ _ = false

  -- `do_deferred_equality`
  unfoldable pub check_equalities : List EqualityCheck → Values → Run (Unit {0})
  unfolding values_equal
  check_equalities [] vs = ok tt
  check_equalities (check ∷ checks) vs = do
    value_1 ← expect (Assoc.get check.id_1 vs)
    value_2 ← expect (Assoc.get check.id_2 vs)
    let rest = check_equalities checks vs
    if values_equal value_1 value_2 then rest else err

  unfoldable pub evaluate_all_deferred : Consts Float → Run (Consts Float)
  evaluate_all_deferred consts = do
    vs ← evaluate_ids consts.deferred_ids consts.values
    _ ← check_equalities consts.deferred_equality_checks vs
    ok (record { deferred_ids = []; deferred_equality_checks = []; values = vs })
