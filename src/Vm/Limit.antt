-- ===== src/Vm/Limit.antt =====
-- src/vm.rs: expressions and variables under a limit of iterations.
pub mod Loops
pub mod Runs
pub mod Simple
use truth.Base.{ℕ, ◌≤◌, ◌≡◌, Bool, true, false, Option, none, some, ◌==◌, if◌then◌else◌, get_elem?}
use truth.Base.Run.{Run, ok, err, panic, out_of_fuel, ◌>>=◌, expect}
use truth.Consts.Fuel.{Finishes, binop-Finishes, unop-Finishes}
use truth.DiffSwitch.{select_diff_switch_case}
use truth.DiffSwitch.Related.{Related?, RelatedCases, select_diff_switch_case-Related}
use truth.Ast.{
  Expr, ternary, bin_op, un_op, xcrement_op, var, call, diff_switch, lit_int, lit_float, lit_string,
  label_property, enum_const, Cases, no_cases, missing, present, Var, VarName, Resolutions,
  expect_def,
}
use truth.Ast.Ops.{UnOpKind, VarSigil, as_ty_sigil}
use truth.Value.{FloatOps, ScalarValue, cast_by_ty_sigil}
use truth.ConstEval.{binop_const_eval, unop_const_eval}
use truth.Vm.{
  VarId, VarValue, value, special, SpecialVarKind, counter, type_volatile, AstVm, Eval, expect_int,
  var_id_from_name, read_as_type, read_held, read_var_by_ast, write_var_by_ast, eval_un_op, eval,
  eval_cases,
}

-- Not for want of fuel; a value has the property.
abbrev pub Ends {ℓ} : {A : Type ℓ} → (A → Type 0) → Run A → Type 0
Ends P (ok a) = P a
Ends P err = Unit
Ends P panic = Unit
Ends P out_of_fuel = ⊥

pub Ends-bind {ℓ κ} :
    {A : Type ℓ} {B : Type κ} (Q : A → Type 0) (P : B → Type 0) (m : Run A) (f : A → Run B)
    → Ends Q m
    → ((a : A) → Q a → Ends P (f a))
    → Ends P (m >>= f)
Ends-bind Q P (ok a) f h k = k a h
Ends-bind Q P err f h k = tt
Ends-bind Q P panic f h k = tt
Ends-bind Q P out_of_fuel f h k = absurd h

abbrev pub Any {ℓ} : {A : Type ℓ} → A → Type 0
Any _ = Unit

pub Finishes-Ends {ℓ} : {A : Type ℓ} (m : Run A) → Finishes m → Ends Any m
Finishes-Ends (ok a) h = tt
Finishes-Ends err h = tt
Finishes-Ends panic h = tt
Finishes-Ends out_of_fuel h = h

pub expect-Ends {ℓ} : {A : Type ℓ} (o : Option A) → Ends Any (expect o)
expect-Ends none = tt
expect-Ends (some a) = tt

pub Ends-if {ℓ} :
    {A : Type ℓ} (P : A → Type 0) (b : Bool) (m n : Run A)
    → Ends P m
    → Ends P n
    → Ends P (if b then m else n)
Ends-if P true m n p q = p
Ends-if P false m n p q = q

held-Ends : (o : Option (Option ℕ)) → Ends Any (elim o [ some (some def) ↦ ok def | _ ↦ panic ])
held-Ends none = tt
held-Ends (some none) = tt
held-Ends (some (some def)) = tt

expect_def-Ends : (rs : Resolutions) (id : ℕ) → Ends Any (expect_def rs id)
unfolding expect_def
expect_def-Ends rs id = held-Ends (get_elem? rs id)

-- The machine has a limit, and its iterations are between a number and the limit.
abbrev pub Within : {F : Type 0} → ℕ → ℕ → AstVm F → Type 0
Within limit low vm =
    (vm.max_iterations ≡ some limit) × ((low ≤ vm.iterations) × (vm.iterations ≤ limit))

-- The machine beside a result, and a machine that is the result, are within the limit.
abbrev pub Keeps {ℓ} : {F : Type 0} {A : Type ℓ} → ℕ → ℕ → Run (A × AstVm F) → Type 0
Keeps limit low m = Ends (λ r. Within limit low r.1) m

abbrev pub KeepsVm : {F : Type 0} → ℕ → ℕ → Run (AstVm F) → Type 0
KeepsVm limit low m = Ends (Within limit low) m

module _ (fl : FloatOps) (rs : Resolutions) (limit low : ℕ) where
  open fl use {Float}

  pub expect_int-Ends : (x : ScalarValue Float) → Ends Any (expect_int x)
  unfolding expect_int
  expect_int-Ends (ScalarValue.int _) = tt
  expect_int-Ends (ScalarValue.float _) = tt
  expect_int-Ends (ScalarValue.string _) = tt

  var_id-Ends : (x : VarName) → Ends Any (var_id_from_name fl rs x)
  unfolding var_id_from_name
  var_id-Ends (VarName.reg _) = tt
  var_id-Ends (VarName.normal id) =
      Ends-bind Any Any (expect_def rs id) _ (expect_def-Ends rs id) (λ _ _. tt)

  read_as_type-Ends :
      (d : SpecialVarKind Float) (sigil : Option VarSigil) → Ends Any (read_as_type fl rs d sigil)
  unfolding read_as_type
  read_as_type-Ends (counter n) sigil =
      Ends-bind Any Any (expect (cast_by_ty_sigil fl (ScalarValue.int n) sigil)) _ (expect-Ends _)
        (λ _ _. tt)
  read_as_type-Ends (type_volatile i f) none = tt
  read_as_type-Ends (type_volatile i f) (some VarSigil.int) = tt
  read_as_type-Ends (type_volatile i f) (some VarSigil.float) = tt

  read_held-Keeps :
      (sigil : Option VarSigil) (id : VarId) (vm : AstVm Float) (o : Option (VarValue Float))
      → Within limit low vm
      → Keeps limit low (read_held fl rs sigil id vm o)
  unfolding read_held truth.Vm.set_var
  read_held-Keeps sigil id vm none h = tt
  read_held-Keeps sigil id vm (some (value v)) h =
      Ends-bind Any _ (expect (cast_by_ty_sigil fl v sigil)) _ (expect-Ends _) (λ _ _. h)
  read_held-Keeps sigil id vm (some (special d)) h =
      Ends-bind Any _ (read_as_type fl rs d sigil) _ (read_as_type-Ends d sigil) (λ _ _. h)

  pub read_var-Keeps :
      (v : Var) (vm : AstVm Float)
      → Within limit low vm
      → Keeps limit low (read_var_by_ast fl rs v vm)
  unfolding read_var_by_ast
  read_var-Keeps v vm h =
      Ends-bind Any _ (var_id_from_name fl rs v.name) _ (var_id-Ends v.name)
        (λ id _. read_held-Keeps v.ty_sigil id vm (vm.var_values id) h)

  pub write_var-Keeps :
      (v : Var) (x : ScalarValue Float) (vm : AstVm Float)
      → Within limit low vm
      → KeepsVm limit low (write_var_by_ast fl rs v x vm)
  unfolding write_var_by_ast truth.Vm.set_var
  write_var-Keeps v x vm h =
      Ends-bind Any _ (var_id_from_name fl rs v.name) _ (var_id-Ends v.name) (λ id _. h)

  un_op-Ends :
      (op : UnOpKind) (sigil : Option VarSigil) (x : ScalarValue Float)
      → Ends Any (eval_un_op fl rs op sigil x)
  unfolding eval_un_op
  un_op-Ends op (some sigil) x = expect-Ends _
  un_op-Ends op none x =
      Ends-bind Any Any (unop_const_eval fl op x) _ (Finishes-Ends _ (unop-Finishes fl op x))
        (λ o _. expect-Ends o)

  abbrev Good : Eval fl rs → Eval fl rs → Type 0
  Good f g = (vm : AstVm Float) → Within limit low vm → Keeps limit low (f vm)

  selected-Keeps :
      (o : Option (Eval fl rs))
      → Related? Good o o
      → (vm : AstVm Float) → Within limit low vm
      → Keeps limit low (expect o >>= λ case. case vm)
  selected-Keeps none h vm p = tt
  selected-Keeps (some f) h vm p = h vm p

  mutual
    unfolding eval eval_cases

    expr-Keeps :
        (e : Expr Float) (vm : AstVm Float)
        → Within limit low vm
        → Keeps limit low (eval fl rs e vm)
    expr-Keeps (ternary c l r) vm h =
        Ends-bind _ _ (eval fl rs c vm) _ (expr-Keeps c vm h) (λ (x, vm₁) p.
          Ends-bind Any _ (expect_int x) _ (expect_int-Ends x)
            (λ n _. Ends-if _ (n == 0) _ _ (expr-Keeps r vm₁ p) (expr-Keeps l vm₁ p)))
    expr-Keeps (bin_op a op b) vm h =
        Ends-bind _ _ (eval fl rs a vm) _ (expr-Keeps a vm h) (λ (x, vm₁) p.
          Ends-bind _ _ (eval fl rs b vm₁) _ (expr-Keeps b vm₁ p) (λ (y, vm₂) q.
            Ends-bind Any _ (binop_const_eval fl op x y) _
              (Finishes-Ends _ (binop-Finishes fl op x y)) (λ _ _. q)))
    expr-Keeps (un_op op b) vm h =
        Ends-bind _ _ (eval fl rs b vm) _ (expr-Keeps b vm h) (λ (x, vm₁) p.
          Ends-bind Any _ (eval_un_op fl rs op (as_ty_sigil op) x) _ (un_op-Ends op _ x) (λ _ _. p))
    expr-Keeps (xcrement_op op order v) vm h =
        Ends-bind _ _ (read_var_by_ast fl rs v vm) _ (read_var-Keeps v vm h) (λ (x, vm₁) p.
          Ends-bind Any _ (expect_int x) _ (expect_int-Ends x) (λ n _.
            Ends-bind _ _ (write_var_by_ast fl rs v _ vm₁) _ (write_var-Keeps v _ vm₁ p)
              (λ vm₂ q. q)))
    expr-Keeps (var v) vm h = read_var-Keeps v vm h
    expr-Keeps (call _ _ _) vm h = tt
    expr-Keeps (diff_switch cases) vm h =
        Ends-bind Any _ (expect vm.difficulty) _ (expect-Ends _) (λ d _.
          selected-Keeps (select_diff_switch_case (eval_cases fl rs cases) d)
            (select_diff_switch_case-Related Good (eval_cases fl rs cases) (eval_cases fl rs cases)
              d (cases-Keeps cases))
            vm h)
    expr-Keeps (lit_int _ _) vm h = h
    expr-Keeps (lit_float _) vm h = h
    expr-Keeps (lit_string _) vm h = h
    expr-Keeps (label_property _ _) vm h = tt
    expr-Keeps (enum_const _ _) vm h = tt

    cases-Keeps :
        (cases : Cases Float) → RelatedCases Good (eval_cases fl rs cases) (eval_cases fl rs cases)
    cases-Keeps no_cases = tt
    cases-Keeps (missing cases) = (tt, cases-Keeps cases)
    cases-Keeps (present e cases) = (expr-Keeps e, cases-Keeps cases)

  pub eval-Keeps :
      (e : Expr Float) (vm : AstVm Float) → Within limit low vm → Keeps limit low (eval fl rs e vm)
  eval-Keeps e vm h = expr-Keeps e vm h
