-- ===== src/Times/Scopes.antt =====
-- src/passes/semantics/time_and_difficulty.rs: what the pass promises, without stacks. A difficulty
-- reaches what stands inside of its statement, a time goes on to the next statement wherever that stands,
-- and the body of an item starts anew.
use truth.Base.{ℕ, Option, none, some}
use truth.Base.Run.{Run, ok, ◌>>=◌, expect}
use truth.BitSet.{BitSet32}
use truth.Ast.Stmt.{
  Stmt, stmt, StmtKind, DiffLabel, Item, func, anm_script, timeline, Stmts, no_stmts, and_then,
  CondBlocks, no_blocks, cond_block,
}
use truth.Times.{Output, default_difficulty_mask, time_after, id_map_insert}

-- The time before the next statement, and the output.
abbrev pub Passed : Type 0
Passed = ℕ × Output

-- The difficulty of a statement is that of its label, or that of what it stands in.
abbrev pub labelled : BitSet32 → Option DiffLabel → Run BitSet32
labelled d none = ok d
labelled d (some l) = expect l.mask

abbrev pub assign : ℕ → BitSet32 → Passed → Passed
assign id d (t, out) = (t, id_map_insert id (record { stmt_time = t; difficulty_mask = d }) out)

abbrev pub anew : (Passed → Run Passed) → Passed → Run Passed
anew body (t, out) = do r ← body (0, out); ok (t, r.1)

unfoldable mutual
  unfolding time_after

  pub assign_stmts : {F : Type 0} → BitSet32 → Stmts F → Passed → Run Passed
  assign_stmts d no_stmts p = ok p
  assign_stmts d (and_then s stmts) p = assign_stmt d s p >>= assign_stmts d stmts

  pub assign_stmt : {F : Type 0} → BitSet32 → Stmt F → Passed → Run Passed
  assign_stmt d (stmt id label kind) p = do
    e ← labelled d label
    assign_kind e kind (assign id e (time_after kind p.0, p.1))

  pub assign_kind : {F : Type 0} → BitSet32 → StmtKind F → Passed → Run Passed
  assign_kind d (StmtKind.item x) p = assign_item x p
  assign_kind d (StmtKind.cond_chain blocks) p = assign_cond_blocks d blocks p
  assign_kind d (StmtKind.cond_chain_else blocks else_block) p =
      assign_cond_blocks d blocks p >>= assign_stmts d else_block
  assign_kind d (StmtKind.loop body) p = assign_stmts d body p
  assign_kind d (StmtKind.while _ _ body) p = assign_stmts d body p
  assign_kind d (StmtKind.times _ _ body) p = assign_stmts d body p
  assign_kind d (StmtKind.block body) p = assign_stmts d body p
  assign_kind d _ p = ok p

  pub assign_cond_blocks : {F : Type 0} → BitSet32 → CondBlocks F → Passed → Run Passed
  assign_cond_blocks d no_blocks p = ok p
  assign_cond_blocks d (cond_block _ _ b blocks) p =
      assign_stmts d b p >>= assign_cond_blocks d blocks

  pub assign_item : {F : Type 0} → Item F → Passed → Run Passed
  assign_item (func _ _ _ code) p = anew (assign_stmts default_difficulty_mask code) p
  assign_item (anm_script code) p = anew (assign_stmts default_difficulty_mask code) p
  assign_item (timeline code) p = anew (assign_stmts default_difficulty_mask code) p
  assign_item _ p = ok p
