-- ===== src/Vm.antt =====
-- src/vm.rs: the virtual machine that runs the syntax tree, with the state of the machine and the
-- evaluation of expressions; Vm/Exec runs statements. A panic is `panic`.
pub mod Exec
pub mod Loops
pub mod Refines
pub mod Constants
pub mod Simplified
pub mod Steps
pub mod Runs
pub mod Repeats
pub mod LogGrows
pub mod Limit
mod Tests
use truth.Base.{
  ℕ, ◌-◌, ◌^◌, Bool, true, false, not, Option, none, some, List, [], ◌∷◌, ◌++◌, ◌==◌, if◌then◌else◌,
}
use truth.Base.Run.{Run, ok, panic, ◌>>=◌, expect}
use truth.DiffSwitch.{select_diff_switch_case}
use truth.Int32.{wrapping_add}
use truth.Ast.{
  Expr, ternary, bin_op, un_op, xcrement_op, var, call, diff_switch, lit_int, lit_float, lit_string,
  label_property, enum_const, Cases, no_cases, missing, present, Args, no_args, arg, Var, VarName,
  Resolutions, expect_def,
}
use truth.Ast.Ops.{UnOpKind, XcrementOpKind, XcrementOpOrder, VarSigil, as_ty_sigil}
use truth.Value.{FloatOps, ScalarValue, cast_by_ty_sigil}
use truth.ConstEval.{unop_const_eval, binop_const_eval}

pub data VarId : Type 0 where
  reg other : ℕ → VarId

unfoldable pub same_var : VarId → VarId → Bool
same_var (reg i) (reg j) = i == j
same_var (other i) (other j) = i == j
same_var _ _ = false

-- A counter that grows when it is read, and a variable with different values as integer and float.
pub data SpecialVarKind (F : Type 0) : Type 0 where
  counter : ℕ → SpecialVarKind F
  type_volatile : ℕ → F → SpecialVarKind F

pub data VarValue (F : Type 0) : Type 0 where
  value : ScalarValue F → VarValue F
  special : SpecialVarKind F → VarValue F

pub record LoggedCall (F : Type 0) : Type 0 where
  pub call_real_time : ℕ
  pub opcode : ℕ
  pub args : List (ScalarValue F)

-- The machine. Times are `i32` patterns; the map of variables is a function.
pub record AstVm (F : Type 0) : Type 0 where
  pub time : ℕ
  pub difficulty : Option ℕ
  pub real_time : ℕ
  pub instr_log : List (LoggedCall F)
  pub iterations : ℕ
  pub max_iterations : Option ℕ
  pub var_values : VarId → Option (VarValue F)

module _ {F : Type 0} where
  abbrev pub new_vm : AstVm F
  new_vm = record {
    time = 0;
    difficulty = none;
    real_time = 0;
    instr_log = [];
    iterations = 0;
    max_iterations = none;
    var_values = λ id. none;
  }

  unfoldable pub with_max_iterations : AstVm F → ℕ → AstVm F
  with_max_iterations vm n = record vm { max_iterations = some n }

  unfoldable pub with_difficulty : AstVm F → ℕ → AstVm F
  with_difficulty vm d = record vm { difficulty = some d }

  unfoldable pub set_var : AstVm F → VarId → VarValue F → AstVm F
  set_var vm id v = record vm {
    var_values = λ k. if same_var id k then some v else vm.var_values k;
  }

  -- The panic is on special variables.
  unfoldable pub get_var : AstVm F → VarId → Run (Option (ScalarValue F))
  get_var vm id = elim (vm.var_values id) [
    | none ↦ ok none
    | some (value v) ↦ ok (some v)
    | some (special _) ↦ panic
  ]

  unfoldable pub log_instruction : AstVm F → ℕ → List (ScalarValue F) → AstVm F
  log_instruction vm opcode args = record vm {
    instr_log =
        vm.instr_log ++ record { call_real_time = vm.real_time; opcode = opcode; args = args } ∷ [];
  }

  -- The integer of a value, as `eval_int`, `eval_cond` and the counters of loops read it.
  unfoldable pub expect_int : ScalarValue F → Run ℕ
  expect_int (ScalarValue.int x) = ok x
  expect_int (ScalarValue.float _) = panic
  expect_int (ScalarValue.string _) = panic

unfoldable pub xcremented : XcrementOpKind → ℕ → ℕ
xcremented XcrementOpKind.inc x = wrapping_add x 1
xcremented XcrementOpKind.dec x = wrapping_add x (2 ^ 32 - 1)

unfoldable pub xcrement_result : XcrementOpOrder → ℕ → ℕ → ℕ
xcrement_result XcrementOpOrder.post old_value new_value = old_value
xcrement_result XcrementOpOrder.pre old_value new_value = new_value

module _ (fl : FloatOps) (resolutions : Resolutions) where
  open fl use {Float}

  unfoldable pub var_id_from_name : VarName → Run VarId
  var_id_from_name (VarName.normal ident) = do def ← expect_def resolutions ident; ok (other def)
  var_id_from_name (VarName.reg r) = ok (reg r)

  -- `SpecialVarKind::read_as_type`: the value that is read, and the variable after the read.
  unfoldable pub read_as_type :
      SpecialVarKind Float → Option VarSigil → Run (ScalarValue Float × SpecialVarKind Float)
  read_as_type (counter next) sigil = do
    v ← expect (cast_by_ty_sigil fl (ScalarValue.int next) sigil)
    ok (v, counter (wrapping_add next 1))
  read_as_type (type_volatile i f) none = panic
  read_as_type (type_volatile i f) (some VarSigil.int) = ok (ScalarValue.int i, type_volatile i f)
  read_as_type (type_volatile i f) (some VarSigil.float) =
      ok (ScalarValue.float f, type_volatile i f)

  -- The value of a variable that holds `held`.
  unfoldable pub read_held :
      Option VarSigil
      → VarId
      → AstVm Float
      → Option (VarValue Float)
      → Run (ScalarValue Float × AstVm Float)
  unfolding read_as_type
  read_held sigil id vm none = panic
  read_held sigil id vm (some (value v)) = do
    cast ← expect (cast_by_ty_sigil fl v sigil)
    ok (cast, vm)
  read_held sigil id vm (some (special data_)) = do
    (v, data') ← read_as_type data_ sigil
    ok (v, set_var vm id (special data'))

  unfoldable pub read_var_by_ast : Var → AstVm Float → Run (ScalarValue Float × AstVm Float)
  unfolding var_id_from_name read_held
  read_var_by_ast v vm = do
    id ← var_id_from_name v.name
    read_held v.ty_sigil id vm (vm.var_values id)

  unfoldable pub write_var_by_ast : Var → ScalarValue Float → AstVm Float → Run (AstVm Float)
  unfolding var_id_from_name
  write_var_by_ast v x vm = do id ← var_id_from_name v.name; ok (set_var vm id (value x))

  -- A unary operator at a value; a type sigil is a cast.
  unfoldable pub eval_un_op :
      UnOpKind → Option VarSigil → ScalarValue Float → Run (ScalarValue Float)
  eval_un_op op (some sigil) v = expect (cast_by_ty_sigil fl v (some sigil))
  eval_un_op op none v = do out ← unop_const_eval fl op v; expect out

  abbrev pub Eval : Type 0
  Eval = AstVm Float → Run (ScalarValue Float × AstVm Float)

  -- `AstVm::eval`. The cases of a difficulty switch are evaluated only when they are selected.
  unfoldable mutual
    unfolding xcremented xcrement_result read_var_by_ast write_var_by_ast eval_un_op expect_int

    pub eval : Expr Float → AstVm Float → Run (ScalarValue Float × AstVm Float)
    eval (ternary cond left right) vm = do
      (c, vm₁) ← eval cond vm
      x ← expect_int c
      let on_left = eval left vm₁
      let on_right = eval right vm₁
      if x == 0 then on_right else on_left
    eval (bin_op a op b) vm = do
      (x, vm₁) ← eval a vm
      (y, vm₂) ← eval b vm₁
      v ← binop_const_eval fl op x y
      ok (v, vm₂)
    eval (call _ _ _) vm = panic
    eval (un_op op b) vm = do
      (x, vm₁) ← eval b vm
      v ← eval_un_op op (as_ty_sigil op) x
      ok (v, vm₁)
    eval (xcrement_op op order v) vm = do
      (old, vm₁) ← read_var_by_ast v vm
      old_value ← expect_int old
      let new_value = xcremented op old_value
      vm₂ ← write_var_by_ast v (ScalarValue.int new_value) vm₁
      ok (ScalarValue.int (xcrement_result order old_value new_value), vm₂)
    eval (diff_switch cases) vm = do
      d ← expect vm.difficulty
      case ← expect (select_diff_switch_case (eval_cases cases) d)
      case vm
    eval (lit_int x _) vm = ok (ScalarValue.int x, vm)
    eval (lit_float x) vm = ok (ScalarValue.float x, vm)
    eval (lit_string x) vm = ok (ScalarValue.string x, vm)
    eval (label_property _ _) vm = panic
    eval (enum_const _ _) vm = panic
    eval (var v) vm = read_var_by_ast v vm

    pub eval_cases :
        Cases Float → List (Option (AstVm Float → Run (ScalarValue Float × AstVm Float)))
    eval_cases no_cases = []
    eval_cases (missing cases) = none ∷ eval_cases cases
    eval_cases (present e cases) = some (λ vm. eval e vm) ∷ eval_cases cases

  unfoldable pub eval_args : Args Float → AstVm Float → Run (List (ScalarValue Float) × AstVm Float)
  eval_args no_args vm = ok ([], vm)
  eval_args (arg e args) vm = do
    (v, vm₁) ← eval e vm
    (vs, vm₂) ← eval_args args vm₁
    ok (v ∷ vs, vm₂)

  unfoldable pub eval_int : Expr Float → AstVm Float → Run (ℕ × AstVm Float)
  unfolding expect_int
  eval_int e vm = do (v, vm₁) ← eval e vm; x ← expect_int v; ok (x, vm₁)

  unfoldable pub eval_cond : Expr Float → AstVm Float → Run (Bool × AstVm Float)
  unfolding expect_int
  eval_cond e vm = do (v, vm₁) ← eval e vm; x ← expect_int v; ok (not (x == 0), vm₁)
