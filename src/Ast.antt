-- ===== src/Ast.antt =====
-- src/ast/mod.rs: expressions. A string or a name is the list of its code points or its number, a
-- resolved identifier its `ResId`. Spans are left out.
pub mod Ops
pub mod Stmt
use truth.Base.{ℕ, Bool, true, false, ◌&&◌, Option, none, some, List, [], ◌∷◌, get_elem?}
use truth.Base.Run.{Run, ok, panic}
use Ops.{
  BinOpKind, UnOpKind, XcrementOpKind, XcrementOpOrder, VarSigil, LabelPropertyKeyword,
  PseudoArgKind,
}

pub data IntRadix : Type 0 where
  dec hex signed_hex bin bool : IntRadix

pub data VarName : Type 0 where
  -- a local, a parameter or a constant, by the `ResId` of its identifier
  normal : ℕ → VarName
  reg : ℕ → VarName

pub record Var : Type 0 where
  pub ty_sigil : Option VarSigil
  pub name : VarName

pub data CallableName : Type 0 where
  normal ins : ℕ → CallableName

-- The expressions over a type of floats. `Cases` are the optional cases of a difficulty switch,
-- `Args` the positional and `Pseudos` the `@`-arguments of a call.
mutual
  pub data Expr (F : Type 0) : Type 0 where
    ternary : Expr F → Expr F → Expr F → Expr F
    bin_op : Expr F → BinOpKind → Expr F → Expr F
    un_op : UnOpKind → Expr F → Expr F
    xcrement_op : XcrementOpKind → XcrementOpOrder → Var → Expr F
    var : Var → Expr F
    call : CallableName → Pseudos F → Args F → Expr F
    diff_switch : Cases F → Expr F
    lit_int : ℕ → IntRadix → Expr F
    lit_float : F → Expr F
    lit_string : List ℕ → Expr F
    label_property : ℕ → LabelPropertyKeyword → Expr F
    enum_const : ℕ → ℕ → Expr F

  pub data Cases (F : Type 0) : Type 0 where
    no_cases : Cases F
    missing : Cases F → Cases F
    present : Expr F → Cases F → Cases F

  pub data Args (F : Type 0) : Type 0 where
    no_args : Args F
    arg : Expr F → Args F → Args F

  pub data Pseudos (F : Type 0) : Type 0 where
    no_pseudos : Pseudos F
    pseudo : PseudoArgKind → Expr F → Pseudos F → Pseudos F

-- `ExprCall::blob().is_none()`: there is a list of arguments.
unfoldable pub actually_has_args : {F : Type 0} → Pseudos F → Bool
actually_has_args no_pseudos = true
actually_has_args (pseudo PseudoArgKind.blob e ps) = false
actually_has_args (pseudo _ e ps) = actually_has_args ps

-- `Expr::can_lower_to_immediate`
unfoldable mutual
  pub can_lower_to_immediate : {F : Type 0} → Expr F → Bool
  can_lower_to_immediate (label_property _ _) = true
  can_lower_to_immediate (lit_int _ _) = true
  can_lower_to_immediate (lit_float _) = true
  can_lower_to_immediate (lit_string _) = true
  can_lower_to_immediate (diff_switch cases) = can_lower_all cases
  can_lower_to_immediate _ = false

  pub can_lower_all : {F : Type 0} → Cases F → Bool
  can_lower_all no_cases = true
  can_lower_all (missing cases) = can_lower_all cases
  can_lower_all (present e cases) = can_lower_to_immediate e && can_lower_all cases

-- `Resolutions`: the definition that each `ResId` stands for. `expect_def` panics where there is none.
abbrev pub Resolutions : Type 0
Resolutions = List (Option ℕ)

unfoldable pub expect_def : Resolutions → ℕ → Run ℕ
expect_def resolutions id = elim (get_elem? resolutions id) [ some (some def) ↦ ok def | _ ↦ panic ]
