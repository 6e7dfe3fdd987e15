-- ===== src/TypeCheck/Stmts.antt =====
-- src/passes/type_check.rs: the statements. The body of a nested item is not part of the tree here.
use truth.Base.{false, Option, none, some, List, [], ◌∷◌}
use truth.Base.Run.{Run, ok, panic, ◌>>=◌, expect}
use truth.Ast.{Expr, Var}
use truth.Ast.Ops.{AssignOpKind, TypeKeyword, BinOpKind, corresponding_binop}
use truth.Ast.Stmt.{
  Stmt, stmt, StmtKind, Stmts, no_stmts, and_then, CondBlocks, no_blocks, cond_block,
}
use truth.Value.{ScalarType, VarType, ExprType, as_known_ty}
use truth.TypeCheck.{
  TypeContext, and_also, require_same, require_exact, require_exact_expr, require_int,
  require_value, require_void, binop_check, var_read_ty, check_var, check_var_weak, check_expr,
}

-- `TypeKeyword::var_ty`; a variable of type `void` is a panic.
unfoldable pub keyword_var_ty : TypeKeyword → Run VarType
keyword_var_ty TypeKeyword.int = ok (VarType.typed ScalarType.int)
keyword_var_ty TypeKeyword.float = ok (VarType.typed ScalarType.float)
keyword_var_ty TypeKeyword.string = ok (VarType.typed ScalarType.string)
keyword_var_ty TypeKeyword.var_keyword = ok (VarType.untyped false)
keyword_var_ty TypeKeyword.void_keyword = panic

-- The match on the operator: a plain assignment has none.
unfoldable pub check_assigned : Option BinOpKind → ScalarType × ScalarType → Run {0} Unit
unfolding require_same binop_check
check_assigned none tys = require_same tys >>= (λ _. ok tt)
check_assigned (some binop) tys = binop_check binop tys

module _ (ctx : TypeContext) where
  unfoldable pub check_clobber : Option Var → ScalarType → Run {0} Unit
  unfolding check_var require_same
  check_clobber none count_ty = ok tt
  check_clobber (some v) count_ty =
      check_var ctx v >>= (λ clobber_ty. require_same (clobber_ty, count_ty) >>= (λ _. ok tt))

  -- `int %x` is forbidden.
  unfoldable pub check_declared : VarType → Var → Run {0} Unit
  unfolding require_exact as_known_ty var_read_ty
  check_declared (VarType.typed decl_ty) v =
      expect (as_known_ty (var_read_ty ctx v)) >>= (λ var_ty. require_exact decl_ty var_ty)
  check_declared (VarType.untyped _) v = ok tt

module _ (ctx : TypeContext) {F : Type 0} where
  unfoldable pub check_value : Expr F → Run ScalarType
  unfolding check_expr require_value
  check_value e = check_expr ctx e >>= require_value

  unfoldable pub check_stmt_assignment : Var → AssignOpKind → Expr F → Run {0} Unit
  unfolding and_also check_var check_value check_assigned corresponding_binop
  check_stmt_assignment v op value =
      and_also (check_var ctx v) (check_value value) >>= check_assigned (corresponding_binop op)

  unfoldable pub check_stmt_expr : Expr F → Run {0} Unit
  unfolding check_expr require_void
  check_stmt_expr e = check_expr ctx e >>= require_void

  unfoldable pub check_stmt_times : Option Var → Expr F → Run {0} Unit
  unfolding check_value require_int check_clobber
  check_stmt_times clobber count =
      check_value count
      >>= (λ count_ty. require_int count_ty >>= (λ _. check_clobber ctx clobber count_ty))

  unfoldable pub check_cond : Expr F → Run {0} Unit
  unfolding check_value require_int
  check_cond cond = check_value cond >>= require_int

  unfoldable pub returned_ty : Option (Expr F) → Run ExprType
  unfolding check_value
  returned_ty none = ok ExprType.void
  returned_ty (some value) = check_value value >>= (λ ty. ok (ExprType.value ty))

  -- The function that the statement is in has a return type; outside of functions there is a panic.
  unfoldable pub check_stmt_return : Option ExprType → Option (Expr F) → Run {0} Unit
  unfolding returned_ty require_exact_expr
  check_stmt_return func_ty value =
      expect func_ty
      >>= (λ return_ty. returned_ty value >>= (λ expr_ty. require_exact_expr expr_ty return_ty))

  unfoldable pub check_initial : Var → Option (Expr F) → Run {0} Unit
  unfolding check_var check_value require_exact
  check_initial v none = ok tt
  check_initial v (some value) =
      check_var ctx v
      >>= (λ var_ty. check_value value >>= (λ value_ty. require_exact value_ty var_ty))

  unfoldable pub check_single_var_decl : TypeKeyword → Var → Option (Expr F) → Run {0} Unit
  unfolding check_var_weak keyword_var_ty check_declared check_initial
  check_single_var_decl keyword v value = check_var_weak ctx v >>= (λ _.
      keyword_var_ty keyword
      >>= (λ decl_ty. check_declared ctx decl_ty v >>= (λ _. check_initial v value)))

  unfoldable pub check_stmt_declaration : TypeKeyword → List (Var × Option (Expr F)) → Run {0} Unit
  unfolding check_single_var_decl and_also
  check_stmt_declaration keyword [] = ok tt
  check_stmt_declaration keyword ((v, value) ∷ vars) =
      and_also (check_single_var_decl keyword v value) (check_stmt_declaration keyword vars)
      >>= (λ _. ok tt)

  -- `visit_stmt`, and the visits of the blocks that `walk_stmt` makes; the error flag is an error at the
  -- end. A free-standing block is not visited; what is inside items is left out.
  unfoldable mutual
    unfolding check_stmt_assignment check_stmt_expr check_stmt_times check_cond check_stmt_return
        check_stmt_declaration and_also

    pub check_stmt : Option ExprType → Stmt F → Run {0} Unit
    check_stmt func_ty (stmt _ _ kind) = check_kind func_ty kind

    pub check_kind : Option ExprType → StmtKind F → Run {0} Unit
    check_kind func_ty (StmtKind.item _) = ok tt
    check_kind func_ty (StmtKind.jump _) = ok tt
    check_kind func_ty (StmtKind.cond_jump _ cond _) = check_cond cond
    check_kind func_ty (StmtKind.return value) = check_stmt_return func_ty value
    check_kind func_ty (StmtKind.cond_chain blocks) = check_cond_blocks func_ty blocks
    check_kind func_ty (StmtKind.cond_chain_else blocks else_block) =
        and_also (check_cond_blocks func_ty blocks) (check_stmts func_ty else_block)
        >>= (λ _. ok tt)
    check_kind func_ty (StmtKind.loop body) = check_stmts func_ty body
    check_kind func_ty (StmtKind.while _ cond body) =
        and_also (check_cond cond) (check_stmts func_ty body) >>= (λ _. ok tt)
    check_kind func_ty (StmtKind.times clobber count body) =
        and_also (check_stmt_times clobber count) (check_stmts func_ty body) >>= (λ _. ok tt)
    check_kind func_ty (StmtKind.expr e) = check_stmt_expr e
    check_kind func_ty (StmtKind.block body) = ok tt
    check_kind func_ty (StmtKind.assignment v op value) = check_stmt_assignment v op value
    check_kind func_ty (StmtKind.declaration keyword vars) = check_stmt_declaration keyword vars
    check_kind func_ty (StmtKind.call_sub _) = panic
    check_kind func_ty (StmtKind.interrupt_label _) = ok tt
    check_kind func_ty (StmtKind.abs_time_label _) = ok tt
    check_kind func_ty (StmtKind.rel_time_label _) = ok tt
    check_kind func_ty (StmtKind.label _) = ok tt
    check_kind func_ty (StmtKind.scope_end _) = ok tt
    check_kind func_ty StmtKind.no_instruction = ok tt

    pub check_stmts : Option ExprType → Stmts F → Run {0} Unit
    check_stmts func_ty no_stmts = ok tt
    check_stmts func_ty (and_then s stmts) =
        and_also (check_stmt func_ty s) (check_stmts func_ty stmts) >>= (λ _. ok tt)

    pub check_cond_blocks : Option ExprType → CondBlocks F → Run {0} Unit
    check_cond_blocks func_ty no_blocks = ok tt
    check_cond_blocks func_ty (cond_block _ cond body blocks) =
        and_also (and_also (check_cond cond) (check_stmts func_ty body))
          (check_cond_blocks func_ty blocks)
        >>= (λ _. ok tt)
