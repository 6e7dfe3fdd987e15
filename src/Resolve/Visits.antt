-- ===== src/Resolve/Visits.antt =====
-- src/resolve/mod.rs: the visits of statements, blocks and items.
use truth.Base.{ℕ, true, false, Option, none, some, List, [], ◌∷◌, ◌++◌, refl, sym, subst}
use truth.Base.Run.{Run, ◌>>=◌}
use truth.Ast.{Expr, Var, VarName}
use truth.Ast.Stmt.{
  Stmt, stmt, StmtKind, Item, func_declaration, func, anm_script, timeline, meta, const_var, Stmts,
  no_stmts, and_then, CondBlocks, no_blocks, cond_block,
}
use truth.Resolve.{Namespace, RibKind, RibStacks}
use truth.Resolve.Names.{
  Context, Visitor, enter, leave, define, visit_expr, visit_var, visit_exprs, visit_option, declare,
  require_var_ty, visit_declaration, visit_consts, enter_block, leave_block, enter_func, leave_func,
  visit_block, visit_stmts, visit_stmt, visit_kind, visit_cond_blocks, visit_item,
}
use truth.Resolve.Ids.{
  Ids, place, var_ty_ids, var_ids, expr_ids, exprs_ids, option_ids, declared_ids, declaration_ids,
  param_ids, const_values_ids, block_items_ids, block_ids, stmts_ids, stmt_ids, kind_ids,
  cond_blocks_ids, item_ids,
}
use truth.Resolve.Fresh.{Step, Opens, Step-none, Step-then, Step-plain, define_var-Step}
use truth.Resolve.Types.{require_var_ty-Step}
use truth.Resolve.Exprs.{IsConsistent, visit_var-Step, visit_expr-Step, visit_args-Step}
use truth.Resolve.Blocks.{
  Exactly, InBlock, InFunc, InConst, locals-Opens, leave_block-Step, enter_block-Step,
  enter_func-Step, leave_func-Step, enter_const-Step, leave_const-Step,
}

-- A step that restores any stacks keeps what holds of them.
pub Step-restores :
    (ctx : Context) (S : RibStacks → Type 0) (ids : Ids) (f : Visitor → Run Visitor)
    → ((s : RibStacks) → Step ctx (Exactly s) (Exactly s) ids f)
    → Step ctx S S ids f
Step-restores ctx S ids f step v more s h =
    let r = step v.rib_stacks v more refl h in (r.0, (r.1.0, (subst S (sym r.1.1.0) s, r.1.1.1)))

-- A step with the stacks as before, and one after another.
abbrev pub Keeps : Context → (RibStacks → Type 0) → Ids → (Visitor → Run Visitor) → Type 0
Keeps ctx S ids f = Step ctx S S ids f

pub both :
    (ctx : Context) (S : RibStacks → Type 0) (a b : Ids) (f g : Visitor → Run Visitor)
    → Keeps ctx S a f
    → Keeps ctx S b g
    → Keeps ctx S (a ++ b) (λ v. f v >>= g)
both ctx S = Step-then ctx S S S

module _ (ctx : Context) (consistent : IsConsistent ctx) {F : Type 0} where
  exprs-Step :
      (S : RibStacks → Type 0) (xs : List (Expr F))
      → Keeps ctx S (exprs_ids xs) (visit_exprs ctx xs)
  unfolding visit_exprs exprs_ids
  exprs-Step S [] = Step-none ctx S []
  exprs-Step S (x ∷ xs) =
      both ctx S (expr_ids x) (exprs_ids xs) (visit_expr ctx none x) (visit_exprs ctx xs)
        (visit_expr-Step ctx consistent S x) (exprs-Step S xs)

  option-Step :
      (S : RibStacks → Type 0) (x : Option (Expr F))
      → Keeps ctx S (option_ids x) (visit_option ctx x)
  unfolding visit_option option_ids
  option-Step S none = Step-none ctx S []
  option-Step S (some x) = visit_expr-Step ctx consistent S x

  consts-Step :
      (S : RibStacks → Type 0) (consts : List (ℕ × Expr F))
      → Keeps ctx S (const_values_ids consts) (visit_consts ctx consts)
  unfolding visit_consts const_values_ids
  consts-Step S [] = Step-none ctx S []
  consts-Step S ((_, x) ∷ consts) =
      both ctx S (expr_ids x) (const_values_ids consts) (visit_expr ctx none x)
        (visit_consts ctx consts) (visit_expr-Step ctx consistent S x) (consts-Step S consts)

  declare-Step :
      (S : RibStacks → Type 0) (name : VarName) (value : Option (Expr F))
      → Opens Namespace.vars RibKind.locals S
      → Keeps ctx S (declared_ids name value) (declare ctx name value)
  unfolding declare declared_ids
  declare-Step S (VarName.normal res) value opens =
      both ctx S (option_ids value) (place res ∷ []) (visit_option ctx value)
        (define ctx Namespace.vars RibKind.locals res) (option-Step S value)
        (define_var-Step ctx S RibKind.locals res opens)
  declare-Step S (VarName.reg r) value opens = λ v more s h. absurd h.0

  declaration-Step :
      (S : RibStacks → Type 0) (xs : List (Var × Option (Expr F)))
      → Opens Namespace.vars RibKind.locals S
      → Keeps ctx S (declaration_ids xs) (visit_declaration ctx xs)
  unfolding visit_declaration declaration_ids
  declaration-Step S [] opens = Step-none ctx S []
  declaration-Step S ((x, value) ∷ xs) opens =
      both ctx S (declared_ids x.name value) (declaration_ids xs) (declare ctx x.name value)
        (visit_declaration ctx xs) (declare-Step S x.name value opens) (declaration-Step S xs opens)

  const_var-Step :
      (s : RibStacks) (consts : List (ℕ × Expr F))
      → Step ctx (Exactly s) (Exactly s) (const_values_ids consts) (λ v.
        visit_consts ctx consts (enter Namespace.vars RibKind.local_barrier_of_const v)
        >>= leave Namespace.vars RibKind.local_barrier_of_const)
  const_var-Step s consts =
      Step-plain ctx (Exactly s) (InConst s) (Exactly s) (const_values_ids consts) _ _
        (Step-then ctx (Exactly s) (InConst s) (InConst s) [] (const_values_ids consts) _
          (visit_consts ctx consts) (enter_const-Step s ctx) (consts-Step (InConst s) consts))
        (leave_const-Step s ctx)

  -- A block, which restores the stacks, where other things hold of them; and a condition before it.
  abbrev Restores : Stmts F → Type 0
  Restores b = (s : RibStacks) → Step ctx (Exactly s) (Exactly s) (block_ids b) (visit_block ctx b)

  nested :
      (S : RibStacks → Type 0) (b : Stmts F)
      → Restores b
      → Keeps ctx S (block_ids b) (visit_block ctx b)
  nested S b step = Step-restores ctx S (block_ids b) (visit_block ctx b) step

  with_cond :
      (S : RibStacks → Type 0) (cond : Expr F) (b : Stmts F)
      → Restores b
      → Keeps ctx S
          (expr_ids cond ++ block_ids b)
          (λ v. visit_expr ctx none cond v >>= visit_block ctx b)
  with_cond S cond b step =
      both ctx S (expr_ids cond) (block_ids b) (visit_expr ctx none cond) (visit_block ctx b)
        (visit_expr-Step ctx consistent S cond) (nested S b step)

  mutual
    unfolding visit_stmts stmts_ids

    pub block-Step :
        (s : RibStacks) (b : Stmts F)
        → Step ctx (Exactly s) (Exactly s) (block_ids b) (visit_block ctx b)
    block-Step s no_stmts =
        Step-plain ctx (Exactly s) (InBlock s) (Exactly s) (block_items_ids {F = F} no_stmts)
          (enter_block ctx {F = F} no_stmts) leave_block (enter_block-Step s ctx {F = F} no_stmts)
          (leave_block-Step s ctx)
    block-Step s (and_then x stmts) =
        Step-plain ctx (Exactly s) (InBlock s) (Exactly s) (block_ids (and_then x stmts)) _
          leave_block
          (Step-then ctx (Exactly s) (InBlock s) (InBlock s)
            (block_items_ids (and_then x stmts) ++ stmt_ids x) (stmts_ids stmts)
            (λ v. enter_block ctx (and_then x stmts) v >>= visit_stmt ctx x) (visit_stmts ctx stmts)
            (Step-then ctx (Exactly s) (InBlock s) (InBlock s) (block_items_ids (and_then x stmts))
              (stmt_ids x) (enter_block ctx (and_then x stmts)) (visit_stmt ctx x)
              (enter_block-Step s ctx (and_then x stmts)) (stmt-Step s x))
            (stmts-Step s stmts))
          (leave_block-Step s ctx)

    stmts-Step :
        (s : RibStacks) (b : Stmts F) → Keeps ctx (InBlock s) (stmts_ids b) (visit_stmts ctx b)
    stmts-Step s no_stmts = Step-none ctx (InBlock s) []
    stmts-Step s (and_then x stmts) =
        both ctx (InBlock s) (stmt_ids x) (stmts_ids stmts) (visit_stmt ctx x)
          (visit_stmts ctx stmts) (stmt-Step s x) (stmts-Step s stmts)

    stmt-Step : (s : RibStacks) (x : Stmt F) → Keeps ctx (InBlock s) (stmt_ids x) (visit_stmt ctx x)
    stmt-Step s (stmt _ _ kind) = kind-Step s kind

    kind-Step :
        (s : RibStacks) (kind : StmtKind F)
        → Keeps ctx (InBlock s) (kind_ids kind) (visit_kind ctx kind)
    kind-Step s (StmtKind.item x) =
        Step-restores ctx (InBlock s) (item_ids x) (visit_item ctx x) (λ t. item-Step t x)
    kind-Step s (StmtKind.cond_jump _ cond _) = visit_expr-Step ctx consistent (InBlock s) cond
    kind-Step s (StmtKind.return value) = option-Step (InBlock s) value
    kind-Step s (StmtKind.cond_chain blocks) = cond_blocks-Step s blocks
    kind-Step s (StmtKind.cond_chain_else blocks else_block) =
        both ctx (InBlock s) (cond_blocks_ids blocks) (block_ids else_block)
          (visit_cond_blocks ctx blocks) (visit_block ctx else_block) (cond_blocks-Step s blocks)
          (nested (InBlock s) else_block (λ t. block-Step t else_block))
    kind-Step s (StmtKind.loop body) = nested (InBlock s) body (λ t. block-Step t body)
    kind-Step s (StmtKind.while true cond body) =
        with_cond (InBlock s) cond body (λ t. block-Step t body)
    kind-Step s (StmtKind.while false cond body) =
        both ctx (InBlock s) (block_ids body) (expr_ids cond) (visit_block ctx body)
          (visit_expr ctx none cond) (nested (InBlock s) body (λ t. block-Step t body))
          (visit_expr-Step ctx consistent (InBlock s) cond)
    kind-Step s (StmtKind.times none count body) =
        with_cond (InBlock s) count body (λ t. block-Step t body)
    kind-Step s (StmtKind.times (some x) count body) =
        both ctx (InBlock s) (var_ids x ++ expr_ids count) (block_ids body)
          (λ v. visit_var ctx none x v >>= visit_expr ctx none count) (visit_block ctx body)
          (both ctx (InBlock s) (var_ids x) (expr_ids count) (visit_var ctx none x)
            (visit_expr ctx none count) (visit_var-Step ctx consistent (InBlock s) none x tt)
            (visit_expr-Step ctx consistent (InBlock s) count))
          (nested (InBlock s) body (λ t. block-Step t body))
    kind-Step s (StmtKind.expr x) = visit_expr-Step ctx consistent (InBlock s) x
    kind-Step s (StmtKind.block body) = nested (InBlock s) body (λ t. block-Step t body)
    kind-Step s (StmtKind.assignment x op value) =
        both ctx (InBlock s) (var_ids x) (expr_ids value) (visit_var ctx none x)
          (visit_expr ctx none value) (visit_var-Step ctx consistent (InBlock s) none x tt)
          (visit_expr-Step ctx consistent (InBlock s) value)
    kind-Step s (StmtKind.declaration keyword xs) =
        both ctx (InBlock s) (var_ty_ids keyword) (declaration_ids xs) (require_var_ty keyword)
          (visit_declaration ctx xs) (require_var_ty-Step ctx (InBlock s) keyword)
          (declaration-Step (InBlock s) xs (locals-Opens s))
    kind-Step s (StmtKind.call_sub args) = visit_args-Step ctx consistent (InBlock s) args
    kind-Step s (StmtKind.jump _) = Step-none ctx (InBlock s) []
    kind-Step s (StmtKind.interrupt_label _) = Step-none ctx (InBlock s) []
    kind-Step s (StmtKind.abs_time_label _) = Step-none ctx (InBlock s) []
    kind-Step s (StmtKind.rel_time_label _) = Step-none ctx (InBlock s) []
    kind-Step s (StmtKind.label _) = Step-none ctx (InBlock s) []
    kind-Step s (StmtKind.scope_end _) = Step-none ctx (InBlock s) []
    kind-Step s StmtKind.no_instruction = Step-none ctx (InBlock s) []

    cond_blocks-Step :
        (s : RibStacks) (blocks : CondBlocks F)
        → Keeps ctx (InBlock s) (cond_blocks_ids blocks) (visit_cond_blocks ctx blocks)
    cond_blocks-Step s no_blocks = Step-none ctx (InBlock s) []
    cond_blocks-Step s (cond_block _ cond b blocks) =
        both ctx (InBlock s) (expr_ids cond ++ block_ids b) (cond_blocks_ids blocks)
          (λ v. visit_expr ctx none cond v >>= visit_block ctx b) (visit_cond_blocks ctx blocks)
          (with_cond (InBlock s) cond b (λ t. block-Step t b)) (cond_blocks-Step s blocks)

    pub item-Step :
        (s : RibStacks) (x : Item F)
        → Step ctx (Exactly s) (Exactly s) (item_ids x) (visit_item ctx x)
    item-Step s (func_declaration _ _ _) = Step-none ctx (Exactly s) []
    item-Step s (func _ _ params code) =
        Step-plain ctx (Exactly s) (InFunc s) (Exactly s) (param_ids params ++ block_ids code)
          (λ v. enter_func ctx params v >>= visit_block ctx code) leave_func
          (Step-then ctx (Exactly s) (InFunc s) (InFunc s) (param_ids params) (block_ids code)
            (enter_func ctx params) (visit_block ctx code) (enter_func-Step s ctx params)
            (nested (InFunc s) code (λ t. block-Step t code)))
          (leave_func-Step s ctx)
    item-Step s (const_var _ consts) = const_var-Step s consts
    item-Step s (anm_script code) = block-Step s code
    item-Step s (timeline code) = block-Step s code
    item-Step s (meta xs) = exprs-Step (Exactly s) xs
