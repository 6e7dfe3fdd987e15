-- ===== src/Resolve/Ids.antt =====
-- src/resolve/mod.rs: what the names of a tree need, in the order in which they are visited.
use truth.Base.{ℕ, true, false, Option, none, some, List, [], ◌∷◌, ◌++◌}
use truth.Ast.{
  Expr, ternary, bin_op, un_op, xcrement_op, var, call, diff_switch, lit_int, lit_float, lit_string,
  label_property, enum_const, Cases, no_cases, missing, present, Args, no_args, arg, Pseudos,
  no_pseudos, pseudo, Var, VarName, CallableName,
}
use truth.Ast.Ops.{TypeKeyword}
use truth.Ast.Stmt.{
  Stmt, stmt, StmtKind, Item, func_declaration, func, anm_script, timeline, meta, const_var, Stmts,
  no_stmts, and_then, CondBlocks, no_blocks, cond_block,
}

-- A free place for a `ResId`, an enum that is declared, the definition of a function, and what the parser
-- does not make.
pub data Need : Type 0 where
  place declared function : ℕ → Need
  never : Need

abbrev pub Ids : Type 0
Ids = List Need

-- The types that can be computed: of variables, of results and of a `const`.
abbrev pub var_ty_ids : TypeKeyword → Ids
var_ty_ids TypeKeyword.void_keyword = never ∷ []
var_ty_ids _ = []

abbrev pub return_ty_ids : TypeKeyword → Ids
return_ty_ids TypeKeyword.var_keyword = never ∷ []
return_ty_ids _ = []

abbrev pub const_ty_ids : TypeKeyword → Ids
const_ty_ids TypeKeyword.void_keyword = never ∷ []
const_ty_ids TypeKeyword.var_keyword = never ∷ []
const_ty_ids _ = []

unfoldable pub params_ty_ids : List (TypeKeyword × Option ℕ) → Ids
params_ty_ids [] = []
params_ty_ids ((keyword, _) ∷ params) = var_ty_ids keyword ++ params_ty_ids params

unfoldable pub signature_ids : TypeKeyword → List (TypeKeyword × Option ℕ) → Ids
unfolding params_ty_ids
signature_ids keyword params = params_ty_ids params ++ return_ty_ids keyword

abbrev pub var_ids : Var → Ids
var_ids x = elim x.name [ VarName.normal res ↦ place res ∷ [] | VarName.reg _ ↦ [] ]

abbrev pub name_ids : CallableName → Ids
name_ids (CallableName.normal res) = place res ∷ []
name_ids (CallableName.ins _) = []

unfoldable pub param_ids : List (TypeKeyword × Option ℕ) → Ids
param_ids [] = []
param_ids ((_, none) ∷ params) = param_ids params
param_ids ((keyword, some res) ∷ params) =
    (var_ty_ids keyword ++ (place res ∷ [])) ++ param_ids params

module _ {F : Type 0} where
  unfoldable mutual
    pub expr_ids : Expr F → Ids
    expr_ids (ternary cond left right) = (expr_ids cond ++ expr_ids left) ++ expr_ids right
    expr_ids (bin_op a op b) = expr_ids a ++ expr_ids b
    expr_ids (un_op op x) = expr_ids x
    expr_ids (xcrement_op op order x) = var_ids x
    expr_ids (var x) = var_ids x
    expr_ids (call name ps args) = pseudos_ids ps ++ (name_ids name ++ args_ids args)
    expr_ids (diff_switch cases) = cases_ids cases
    expr_ids (lit_int _ _) = []
    expr_ids (lit_float _) = []
    expr_ids (lit_string _) = []
    expr_ids (label_property _ _) = []
    expr_ids (enum_const e res) = declared e ∷ place res ∷ []

    pub cases_ids : Cases F → Ids
    cases_ids no_cases = []
    cases_ids (missing cases) = cases_ids cases
    cases_ids (present x cases) = expr_ids x ++ cases_ids cases

    pub args_ids : Args F → Ids
    args_ids no_args = []
    args_ids (arg x args) = expr_ids x ++ args_ids args

    pub pseudos_ids : Pseudos F → Ids
    pseudos_ids no_pseudos = []
    pseudos_ids (pseudo _ x ps) = expr_ids x ++ pseudos_ids ps

  unfoldable pub exprs_ids : List (Expr F) → Ids
  unfolding expr_ids
  exprs_ids [] = []
  exprs_ids (x ∷ xs) = expr_ids x ++ exprs_ids xs

  unfoldable pub option_ids : Option (Expr F) → Ids
  unfolding expr_ids
  option_ids none = []
  option_ids (some x) = expr_ids x

  unfoldable pub declared_ids : VarName → Option (Expr F) → Ids
  unfolding option_ids
  declared_ids (VarName.normal res) value = option_ids value ++ (place res ∷ [])
  declared_ids (VarName.reg _) value = never ∷ []

  unfoldable pub declaration_ids : List (Var × Option (Expr F)) → Ids
  unfolding declared_ids
  declaration_ids [] = []
  declaration_ids ((x, value) ∷ xs) = declared_ids x.name value ++ declaration_ids xs

  unfoldable pub const_ids : List (ℕ × Expr F) → Ids
  const_ids [] = []
  const_ids ((res, _) ∷ consts) = place res ∷ const_ids consts

  unfoldable pub const_values_ids : List (ℕ × Expr F) → Ids
  unfolding expr_ids
  const_values_ids [] = []
  const_values_ids ((_, x) ∷ consts) = expr_ids x ++ const_values_ids consts

  -- What an item defines, where it stands.
  unfoldable pub defined_ids : Item F → Ids
  unfolding const_ids signature_ids
  defined_ids (func_declaration keyword res params) =
      signature_ids keyword params ++ (function res ∷ place res ∷ [])
  defined_ids (func keyword res params _) =
      signature_ids keyword params ++ (function res ∷ place res ∷ [])
  defined_ids (const_var keyword consts) = const_ty_ids keyword ++ const_ids consts
  defined_ids _ = []

  unfoldable pub block_items_ids : Stmts F → Ids
  unfolding defined_ids
  block_items_ids no_stmts = []
  block_items_ids (and_then (stmt _ _ (StmtKind.item x)) stmts) =
      defined_ids x ++ block_items_ids stmts
  block_items_ids (and_then _ stmts) = block_items_ids stmts

  unfoldable mutual
    unfolding expr_ids exprs_ids option_ids declaration_ids param_ids const_values_ids
        block_items_ids

    pub block_ids : Stmts F → Ids
    block_ids no_stmts = []
    block_ids (and_then s stmts) =
        (block_items_ids (and_then s stmts) ++ stmt_ids s) ++ stmts_ids stmts

    pub stmts_ids : Stmts F → Ids
    stmts_ids no_stmts = []
    stmts_ids (and_then s stmts) = stmt_ids s ++ stmts_ids stmts

    pub stmt_ids : Stmt F → Ids
    stmt_ids (stmt _ _ kind) = kind_ids kind

    pub kind_ids : StmtKind F → Ids
    kind_ids (StmtKind.item x) = item_ids x
    kind_ids (StmtKind.cond_jump _ cond _) = expr_ids cond
    kind_ids (StmtKind.return value) = option_ids value
    kind_ids (StmtKind.cond_chain blocks) = cond_blocks_ids blocks
    kind_ids (StmtKind.cond_chain_else blocks else_block) =
        cond_blocks_ids blocks ++ block_ids else_block
    kind_ids (StmtKind.loop body) = block_ids body
    kind_ids (StmtKind.while true cond body) = expr_ids cond ++ block_ids body
    kind_ids (StmtKind.while false cond body) = block_ids body ++ expr_ids cond
    kind_ids (StmtKind.times none count body) = expr_ids count ++ block_ids body
    kind_ids (StmtKind.times (some x) count body) = (var_ids x ++ expr_ids count) ++ block_ids body
    kind_ids (StmtKind.expr x) = expr_ids x
    kind_ids (StmtKind.block body) = block_ids body
    kind_ids (StmtKind.assignment x op value) = var_ids x ++ expr_ids value
    kind_ids (StmtKind.declaration keyword xs) = var_ty_ids keyword ++ declaration_ids xs
    kind_ids (StmtKind.call_sub args) = args_ids args
    kind_ids _ = []

    pub cond_blocks_ids : CondBlocks F → Ids
    cond_blocks_ids no_blocks = []
    cond_blocks_ids (cond_block _ cond b blocks) =
        (expr_ids cond ++ block_ids b) ++ cond_blocks_ids blocks

    pub item_ids : Item F → Ids
    item_ids (func_declaration _ _ _) = []
    item_ids (func _ _ params code) = param_ids params ++ block_ids code
    item_ids (const_var _ consts) = const_values_ids consts
    item_ids (anm_script code) = block_ids code
    item_ids (timeline code) = block_ids code
    item_ids (meta xs) = exprs_ids xs

  unfoldable pub items_defined_ids : List (Item F) → Ids
  unfolding defined_ids
  items_defined_ids [] = []
  items_defined_ids (x ∷ xs) = defined_ids x ++ items_defined_ids xs

  unfoldable pub items_ids : List (Item F) → Ids
  unfolding item_ids
  items_ids [] = []
  items_ids (x ∷ xs) = item_ids x ++ items_ids xs

  unfoldable pub file_ids : List (Item F) → Ids
  unfolding items_defined_ids items_ids
  file_ids script = items_defined_ids script ++ items_ids script
