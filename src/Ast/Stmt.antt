-- ===== src/Ast/Stmt.antt =====
-- src/ast/mod.rs: statements, as the passes on statements see them. A label and a loop are numbers;
-- node ids are numbers and always present. Keyword spans and time comments are left out.
use truth.Base.{ℕ, Bool, Option, none, some, List, zero, suc}
use truth.BitSet.{BitSet32}
use truth.Ast.{Expr, Args, Var}
use truth.Ast.Ops.{AssignOpKind, TypeKeyword}

pub data CondKeyword : Type 0 where
  if_keyword unless_keyword : CondKeyword

pub record StmtGoto : Type 0 where
  pub destination : ℕ
  pub time : Option ℕ

pub data StmtJumpKind : Type 0 where
  goto : StmtGoto → StmtJumpKind
  break_continue : StmtJumpKind

-- `DiffLabel`: the mask is there when `compute_diff_label_masks` has run. The text is left out.
pub record DiffLabel : Type 0 where
  pub mask : Option BitSet32

-- `Stmts` is the list of the statements of a block, and `CondBlocks` that of the conditional blocks of
-- a chain. A statement has its node id and its difficulty
-- label. A function has the types and the names of its parameters; metadata is the list of the
-- expressions in it, in order.
mutual
  pub data Stmt (F : Type 0) : Type 0 where
    stmt : ℕ → Option DiffLabel → StmtKind F → Stmt F

  pub data StmtKind (F : Type 0) : Type 0 where
    item : Item F → StmtKind F
    jump : StmtJumpKind → StmtKind F
    cond_jump : CondKeyword → Expr F → StmtJumpKind → StmtKind F
    return : Option (Expr F) → StmtKind F
    cond_chain : CondBlocks F → StmtKind F
    cond_chain_else : CondBlocks F → Stmts F → StmtKind F
    loop : Stmts F → StmtKind F
    -- whether there is a `do`, the condition and the body
    while : Bool → Expr F → Stmts F → StmtKind F
    -- the clobbered variable, the count and the body
    times : Option Var → Expr F → Stmts F → StmtKind F
    expr : Expr F → StmtKind F
    block : Stmts F → StmtKind F
    assignment : Var → AssignOpKind → Expr F → StmtKind F
    declaration : TypeKeyword → List (Var × Option (Expr F)) → StmtKind F
    call_sub : Args F → StmtKind F
    interrupt_label : ℕ → StmtKind F
    abs_time_label : ℕ → StmtKind F
    rel_time_label : ℕ → StmtKind F
    label : ℕ → StmtKind F
    scope_end : ℕ → StmtKind F
    no_instruction : StmtKind F

  pub data Item (F : Type 0) : Type 0 where
    func_declaration : TypeKeyword → ℕ → List (TypeKeyword × Option ℕ) → Item F
    func : TypeKeyword → ℕ → List (TypeKeyword × Option ℕ) → Stmts F → Item F
    anm_script timeline : Stmts F → Item F
    meta : List (Expr F) → Item F
    const_var : TypeKeyword → List (ℕ × Expr F) → Item F

  pub data Stmts (F : Type 0) : Type 0 where
    no_stmts : Stmts F
    and_then : Stmt F → Stmts F → Stmts F

  pub data CondBlocks (F : Type 0) : Type 0 where
    no_blocks : CondBlocks F
    cond_block : CondKeyword → Expr F → Stmts F → CondBlocks F → CondBlocks F

module _ {F : Type 0} where
  unfoldable pub node_id : Stmt F → ℕ
  node_id (stmt id _ _) = id

  unfoldable pub nth_stmt : Stmts F → ℕ → Option (Stmt F)
  nth_stmt no_stmts i = none
  nth_stmt (and_then s stmts) zero = some s
  nth_stmt (and_then s stmts) (suc i) = nth_stmt stmts i

  -- `none` is a panic: a block is never empty.
  unfoldable pub start_node_id : Stmts F → Option ℕ
  unfolding node_id
  start_node_id no_stmts = none
  start_node_id (and_then s stmts) = some (node_id s)

  unfoldable pub end_node_id : Stmts F → Option ℕ
  unfolding node_id
  end_node_id no_stmts = none
  end_node_id (and_then s no_stmts) = some (node_id s)
  end_node_id (and_then s (and_then t stmts)) = end_node_id (and_then t stmts)

  -- The last block of a chain of conditional blocks without `else`.
  unfoldable pub last_block : CondBlocks F → Option (Stmts F)
  last_block no_blocks = none
  last_block (cond_block _ _ b no_blocks) = some b
  last_block (cond_block _ _ _ (cond_block k c b blocks)) = last_block (cond_block k c b blocks)
