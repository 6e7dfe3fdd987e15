-- ===== src/Resolve/Names.antt =====
-- src/resolve/mod.rs, `resolve_names`: the visitor that resolves the names of a tree. What a name carries
-- besides its `ResId`, the enums and the signatures are those of `Context`; the top of the stack of type
-- colors is the argument `color`. Definitions are recorded by their numbers alone.
use truth.Base.{ℕ, Bool, true, false, Option, none, some, List, [], ◌∷◌, if◌then◌else◌, ◌||◌, ◌==◌}
use truth.Base.Run.{Run, ok, panic, ◌>>=◌, expect}
use truth.Ast.{
  Expr, ternary, bin_op, un_op, xcrement_op, var, call, diff_switch, lit_int, lit_float, lit_string,
  label_property, enum_const, Cases, no_cases, missing, present, Args, no_args, arg, Pseudos,
  no_pseudos, pseudo, Var, VarName, CallableName, Resolutions, expect_def,
}
use truth.Ast.Ops.{TypeKeyword}
use truth.Ast.Stmt.{
  Stmt, stmt, StmtKind, Item, func_declaration, func, anm_script, timeline, meta, const_var, Stmts,
  no_stmts, and_then, CondBlocks, no_blocks, cond_block,
}
use truth.Game.{LanguageKey}
use truth.Value.{ScalarType, ExprType, as_known_ty}
use truth.TypeCheck.Stmts.{keyword_var_ty}
use truth.Resolve.{
  Namespace, RibKind, RibStacks, enter_new_rib, leave_rib, ribs_of, with_ribs, insert_on_top,
  resolve, record_resolution, record_self_resolution,
}

abbrev pub Colors : Type 0
Colors = List (Option ℕ)

pub record Context : Type 0 where
  -- the identifier and the language of the `ResIdent` of a number
  pub ident_of : ℕ → ℕ
  pub alias_language : ℕ → Option LanguageKey
  -- the definition that stands for every unqualified enum const
  pub enum_const_dummy : ℕ
  -- the enums that are declared, each with the definitions of its constants
  pub enums : ℕ → Option (ℕ → Option ℕ)
  -- the enum of the name of a constant, and `some none` for a name that several enums have
  pub unique_enums : ℕ → Option (Option ℕ)
  -- the pass `assign_languages` has run
  pub languages_assigned : Bool
  -- the type colors of the parameters of an instruction, where it has a signature, and of a function, by
  -- its definition
  pub instrs : ℕ → Option Colors
  pub funcs : ℕ → Option (Option Colors)

pub record Visitor : Type 0 where
  pub rib_stacks : RibStacks
  pub errors : Bool
  pub resolutions : Resolutions

unfoldable pub set_error : Visitor → Visitor
set_error v = record v { errors = true }

unfoldable pub enter : Namespace → RibKind → Visitor → Visitor
unfolding enter_new_rib
enter ns k v = record v { rib_stacks = enter_new_rib ns k v.rib_stacks }

unfoldable pub leave : Namespace → RibKind → Visitor → Run Visitor
unfolding leave_rib
leave ns k v = leave_rib ns k v.rib_stacks >>= (λ s. ok (record v { rib_stacks = s }))

unfoldable pub add_to_rib_with_redefinition_check :
    Namespace → RibKind → ℕ → ℕ → Visitor → Run Visitor
unfolding insert_on_top ribs_of with_ribs
add_to_rib_with_redefinition_check ns k ident def v = do
  (is_redefinition, ribs) ← insert_on_top k ident def (ribs_of ns v.rib_stacks)
  ok (record v {
    rib_stacks = with_ribs ns ribs v.rib_stacks;
    errors = v.errors || is_redefinition;
  })

unfoldable pub recorded : ℕ → ℕ → Visitor → Run Visitor
unfolding record_resolution
recorded res def v =
    record_resolution res def v.resolutions >>= (λ m. ok (record v { resolutions = m }))

-- What `visit_block` does after its statements.
unfoldable pub leave_block : Visitor → Run Visitor
unfolding leave
leave_block v =
    leave Namespace.vars RibKind.locals v
    >>= leave Namespace.vars RibKind.items
    >>= leave Namespace.funcs RibKind.items

unfoldable pub leave_func : Visitor → Run Visitor
unfolding leave
leave_func v =
    leave Namespace.vars RibKind.params v >>= leave Namespace.vars RibKind.local_barrier_of_function

-- `TypeKeyword::expr_ty`; a function that returns `var` is a panic.
unfoldable pub keyword_expr_ty : TypeKeyword → Run ExprType
keyword_expr_ty TypeKeyword.int = ok (ExprType.value ScalarType.int)
keyword_expr_ty TypeKeyword.float = ok (ExprType.value ScalarType.float)
keyword_expr_ty TypeKeyword.string = ok (ExprType.value ScalarType.string)
keyword_expr_ty TypeKeyword.void_keyword = ok ExprType.void
keyword_expr_ty TypeKeyword.var_keyword = panic

-- The types that are stored with definitions are left out; to compute them can panic.
unfoldable pub require_var_ty : TypeKeyword → Visitor → Run Visitor
unfolding keyword_var_ty
require_var_ty keyword v = keyword_var_ty keyword >>= (λ _. ok v)

unfoldable pub require_return_ty : TypeKeyword → Visitor → Run Visitor
unfolding keyword_expr_ty
require_return_ty keyword v = keyword_expr_ty keyword >>= (λ _. ok v)

unfoldable pub require_const_ty : TypeKeyword → Visitor → Run Visitor
unfolding keyword_var_ty as_known_ty
require_const_ty keyword v = do ty ← keyword_var_ty keyword; known ← expect (as_known_ty ty); ok v

unfoldable pub signature_params : List (TypeKeyword × Option ℕ) → Visitor → Run Visitor
unfolding require_var_ty
signature_params [] v = ok v
signature_params ((keyword, _) ∷ params) v = require_var_ty keyword v >>= signature_params params

unfoldable pub signature_from_func_ast :
    TypeKeyword → List (TypeKeyword × Option ℕ) → Visitor → Run Visitor
unfolding signature_params require_return_ty
signature_from_func_ast keyword params v = signature_params params v >>= require_return_ty keyword

module _ (ctx : Context) where
  open ctx use {
    ident_of, alias_language, enum_const_dummy, enums, unique_enums, languages_assigned, instrs,
    funcs,
  }

  -- An enum that is not declared is a panic, a constant that it does not have is `none`.
  unfoldable pub enum_const_def_id : ℕ → ℕ → Run (Option ℕ)
  enum_const_def_id e ident = expect (enums e) >>= (λ consts. ok (consts ident))

  unfoldable pub enum_name_for_unqualified_enum_const : ℕ → Run (Option ℕ)
  enum_name_for_unqualified_enum_const ident = expect (unique_enums ident)

  unfoldable pub func_signature_from_ast : Resolutions → CallableName → Run (Option Colors)
  unfolding expect_def
  func_signature_from_ast map (CallableName.ins opcode) =
      if languages_assigned then ok (instrs opcode) else panic
  func_signature_from_ast map (CallableName.normal res) =
      expect_def map res >>= (λ def. expect (funcs def))

  -- `define_local`, `define_user_func` and `define_const_var` with the addition to a rib.
  unfoldable pub define : Namespace → RibKind → ℕ → Visitor → Run Visitor
  unfolding record_self_resolution add_to_rib_with_redefinition_check
  define ns k res v = do
    m ← record_self_resolution res v.resolutions
    add_to_rib_with_redefinition_check ns k (ident_of res) res (record v { resolutions = m })

  -- The only enum with a name, `none` where there are several.
  unfoldable pub resolve_in_enum : ℕ → Visitor → Option ℕ → Run Visitor
  unfolding recorded set_error enum_const_def_id
  resolve_in_enum res v none = ok (set_error v)
  resolve_in_enum res v (some e) = do
    found ← enum_const_def_id e (ident_of res)
    def ← expect found
    recorded res def v

  -- Without a definition in the expected enum: that of the only enum with the name.
  unfoldable pub resolve_unambiguous : ℕ → Visitor → Run Visitor
  unfolding resolve_in_enum enum_name_for_unqualified_enum_const
  resolve_unambiguous res v =
      enum_name_for_unqualified_enum_const (ident_of res) >>= resolve_in_enum res v

  unfoldable pub recorded_or_unambiguous : ℕ → Visitor → Option ℕ → Run Visitor
  unfolding recorded resolve_unambiguous
  recorded_or_unambiguous res v none = resolve_unambiguous res v
  recorded_or_unambiguous res v (some def) = recorded res def v

  unfoldable pub resolve_unqualified_enum_const : Option ℕ → ℕ → Visitor → Run Visitor
  unfolding recorded_or_unambiguous enum_const_def_id
  resolve_unqualified_enum_const none res v = resolve_unambiguous res v
  resolve_unqualified_enum_const (some e) res v =
      enum_const_def_id e (ident_of res) >>= recorded_or_unambiguous res v

  unfoldable pub recorded_or_error : ℕ → Visitor → Option ℕ → Run Visitor
  unfolding recorded set_error
  recorded_or_error res v none = ok (set_error v)
  recorded_or_error res v (some def) = recorded res def v

  unfoldable pub resolve_qualified_enum_const : ℕ → ℕ → Visitor → Run Visitor
  unfolding recorded_or_error enum_const_def_id
  resolve_qualified_enum_const e res v =
      enum_const_def_id e (ident_of res) >>= recorded_or_error res v

  unfoldable pub resolve_var : Option ℕ → ℕ → Option ℕ → Visitor → Run Visitor
  unfolding resolve_unqualified_enum_const set_error
  resolve_var color res none v = ok (set_error v)
  resolve_var color res (some def) v =
      if def == enum_const_dummy
      then resolve_unqualified_enum_const color res v
      else recorded res def v

  unfoldable pub visit_var : Option ℕ → Var → Visitor → Run Visitor
  unfolding resolve resolve_var
  visit_var color x v = elim x.name [
    | VarName.normal res ↦
        resolve_var color res
          (resolve Namespace.vars (alias_language res) (ident_of res) v.rib_stacks) v
    | VarName.reg _ ↦ ok v
  ]

  -- Whether the name is resolved, and the visitor.
  unfoldable pub visit_callable_name : CallableName → Visitor → Run (Bool × Visitor)
  unfolding resolve recorded set_error
  visit_callable_name (CallableName.normal res) v =
      elim (resolve Namespace.funcs (alias_language res) (ident_of res) v.rib_stacks) [
        | none ↦ ok (false, set_error v)
        | some def ↦ recorded res def v >>= (λ w. ok (true, w))
      ]
  visit_callable_name (CallableName.ins _) v = ok (true, v)

  unfoldable pub signature_colors : Bool → CallableName → Visitor → Run (Option Colors)
  unfolding func_signature_from_ast
  signature_colors false name v = ok none
  signature_colors true name v = func_signature_from_ast v.resolutions name

  -- The name that is called is resolved, and gives the type colors.
  unfoldable pub visit_callee : CallableName → Visitor → Run (Option Colors × Visitor)
  unfolding visit_callable_name signature_colors
  visit_callee name v = do
    (found, w) ← visit_callable_name name v
    colors ← signature_colors found name w
    ok (colors, w)

  unfoldable mutual
    unfolding visit_var resolve_qualified_enum_const visit_callee

    pub visit_expr : {F : Type 0} → Option ℕ → Expr F → Visitor → Run Visitor
    visit_expr color (ternary cond left right) v =
        visit_expr color cond v >>= visit_expr color left >>= visit_expr color right
    visit_expr color (bin_op a op b) v = visit_expr color a v >>= visit_expr color b
    visit_expr color (un_op op x) v = visit_expr color x v
    visit_expr color (xcrement_op op order x) v = visit_var color x v
    visit_expr color (var x) v = visit_var color x v
    visit_expr color (call name ps args) v = do
      v₁ ← visit_pseudos color ps v
      (colors, v₂) ← visit_callee name v₁
      visit_args color colors args v₂
    visit_expr color (diff_switch cases) v = visit_cases color cases v
    visit_expr color (lit_int _ _) v = ok v
    visit_expr color (lit_float _) v = ok v
    visit_expr color (lit_string _) v = ok v
    visit_expr color (label_property _ _) v = ok v
    visit_expr color (enum_const e res) v = resolve_qualified_enum_const e res v

    pub visit_cases : {F : Type 0} → Option ℕ → Cases F → Visitor → Run Visitor
    visit_cases color no_cases v = ok v
    visit_cases color (missing cases) v = visit_cases color cases v
    visit_cases color (present x cases) v = visit_expr color x v >>= visit_cases color cases

    -- `visit_call_args_with_signature_info`: arguments beyond the parameters are not visited.
    pub visit_args : {F : Type 0} → Option ℕ → Option Colors → Args F → Visitor → Run Visitor
    visit_args color colors no_args v = ok v
    visit_args color none (arg x args) v = visit_expr color x v >>= visit_args color none args
    visit_args color (some []) (arg x args) v = ok v
    visit_args color (some (c ∷ colors)) (arg x args) v =
        visit_expr c x v >>= visit_args color (some colors) args

    pub visit_pseudos : {F : Type 0} → Option ℕ → Pseudos F → Visitor → Run Visitor
    visit_pseudos color no_pseudos v = ok v
    visit_pseudos color (pseudo _ x ps) v = visit_expr color x v >>= visit_pseudos color ps

  -- A statement is outside the arguments of calls, where no color is expected.
  abbrev visit : {F : Type 0} → Expr F → Visitor → Run Visitor
  visit x v = visit_expr none x v

  unfoldable pub visit_exprs : {F : Type 0} → List (Expr F) → Visitor → Run Visitor
  visit_exprs [] v = ok v
  visit_exprs (x ∷ xs) v = visit x v >>= visit_exprs xs

  unfoldable pub visit_option : {F : Type 0} → Option (Expr F) → Visitor → Run Visitor
  visit_option none v = ok v
  visit_option (some x) v = visit x v

  -- A variable that is declared is not visible in its own initializer.
  unfoldable pub declare : {F : Type 0} → VarName → Option (Expr F) → Visitor → Run Visitor
  unfolding visit_option define
  declare (VarName.normal res) value v =
      visit_option value v >>= define Namespace.vars RibKind.locals res
  declare (VarName.reg _) value v = panic

  unfoldable pub visit_declaration :
      {F : Type 0} → List (Var × Option (Expr F)) → Visitor → Run Visitor
  unfolding declare
  visit_declaration [] v = ok v
  visit_declaration ((x, value) ∷ xs) v = declare x.name value v >>= visit_declaration xs

  unfoldable pub define_params : List (TypeKeyword × Option ℕ) → Visitor → Run Visitor
  unfolding define require_var_ty
  define_params [] v = ok v
  define_params ((_, none) ∷ params) v = define_params params v
  define_params ((keyword, some res) ∷ params) v =
      require_var_ty keyword v >>= define Namespace.vars RibKind.params res >>= define_params params

  unfoldable pub define_consts : {F : Type 0} → List (ℕ × Expr F) → Visitor → Run Visitor
  unfolding define
  define_consts [] v = ok v
  define_consts ((res, _) ∷ consts) v =
      define Namespace.vars RibKind.items res v >>= define_consts consts

  unfoldable pub visit_consts : {F : Type 0} → List (ℕ × Expr F) → Visitor → Run Visitor
  visit_consts [] v = ok v
  visit_consts ((_, x) ∷ consts) v = visit x v >>= visit_consts consts

  unfoldable pub add_item_to_scope : {F : Type 0} → Item F → Visitor → Run Visitor
  unfolding define define_consts signature_from_func_ast require_const_ty
  add_item_to_scope (func_declaration keyword res params) v =
      signature_from_func_ast keyword params v >>= define Namespace.funcs RibKind.items res
  add_item_to_scope (func keyword res params _) v =
      signature_from_func_ast keyword params v >>= define Namespace.funcs RibKind.items res
  add_item_to_scope (const_var keyword consts) v =
      require_const_ty keyword v >>= define_consts consts
  add_item_to_scope _ v = ok v

  -- Those of the items of a block.
  unfoldable pub add_block_items : {F : Type 0} → Stmts F → Visitor → Run Visitor
  unfolding add_item_to_scope
  add_block_items no_stmts v = ok v
  add_block_items (and_then (stmt _ _ (StmtKind.item x)) stmts) v =
      add_item_to_scope x v >>= add_block_items stmts
  add_block_items (and_then _ stmts) v = add_block_items stmts v

  -- What `visit_block` does before its statements.
  unfoldable pub enter_block : {F : Type 0} → Stmts F → Visitor → Run Visitor
  unfolding enter add_block_items
  enter_block b v =
      add_block_items b (enter Namespace.vars RibKind.items (enter Namespace.funcs RibKind.items v))
      >>= (λ w. ok (enter Namespace.vars RibKind.locals w))

  unfoldable pub enter_func : List (TypeKeyword × Option ℕ) → Visitor → Run Visitor
  unfolding enter define_params
  enter_func params v = define_params params (
      enter Namespace.vars RibKind.params
        (enter Namespace.vars RibKind.local_barrier_of_function v))

  unfoldable mutual
    unfolding visit_exprs visit_option visit_declaration visit_consts enter_block leave_block
        enter_func leave_func require_var_ty

    -- The statements stand between the ribs of the block.
    pub visit_block : {F : Type 0} → Stmts F → Visitor → Run Visitor
    visit_block {F} no_stmts v = enter_block {F = F} no_stmts v >>= leave_block
    visit_block (and_then s stmts) v =
        enter_block (and_then s stmts) v >>= visit_stmt s >>= visit_stmts stmts >>= leave_block

    pub visit_stmts : {F : Type 0} → Stmts F → Visitor → Run Visitor
    visit_stmts no_stmts v = ok v
    visit_stmts (and_then s stmts) v = visit_stmt s v >>= visit_stmts stmts

    pub visit_stmt : {F : Type 0} → Stmt F → Visitor → Run Visitor
    visit_stmt (stmt _ _ kind) v = visit_kind kind v

    pub visit_kind : {F : Type 0} → StmtKind F → Visitor → Run Visitor
    visit_kind (StmtKind.item x) v = visit_item x v
    visit_kind (StmtKind.jump _) v = ok v
    visit_kind (StmtKind.cond_jump _ cond _) v = visit cond v
    visit_kind (StmtKind.return value) v = visit_option value v
    visit_kind (StmtKind.cond_chain blocks) v = visit_cond_blocks blocks v
    visit_kind (StmtKind.cond_chain_else blocks else_block) v =
        visit_cond_blocks blocks v >>= visit_block else_block
    visit_kind (StmtKind.loop body) v = visit_block body v
    -- with a `do`, the condition first
    visit_kind (StmtKind.while true cond body) v = visit cond v >>= visit_block body
    visit_kind (StmtKind.while false cond body) v = visit_block body v >>= visit cond
    visit_kind (StmtKind.times none count body) v = visit count v >>= visit_block body
    visit_kind (StmtKind.times (some x) count body) v =
        visit_var none x v >>= visit count >>= visit_block body
    visit_kind (StmtKind.expr x) v = visit x v
    visit_kind (StmtKind.block body) v = visit_block body v
    visit_kind (StmtKind.assignment x op value) v = visit_var none x v >>= visit value
    visit_kind (StmtKind.declaration keyword xs) v =
        require_var_ty keyword v >>= visit_declaration xs
    visit_kind (StmtKind.call_sub args) v = visit_args none none args v
    visit_kind _ v = ok v

    pub visit_cond_blocks : {F : Type 0} → CondBlocks F → Visitor → Run Visitor
    visit_cond_blocks no_blocks v = ok v
    visit_cond_blocks (cond_block _ cond b blocks) v =
        visit cond v >>= visit_block b >>= visit_cond_blocks blocks

    pub visit_item : {F : Type 0} → Item F → Visitor → Run Visitor
    visit_item (func_declaration _ _ _) v = ok v
    visit_item (func _ _ params code) v = enter_func params v >>= visit_block code >>= leave_func
    visit_item (const_var _ consts) v =
        visit_consts consts (enter Namespace.vars RibKind.local_barrier_of_const v)
        >>= leave Namespace.vars RibKind.local_barrier_of_const
    visit_item (anm_script code) v = visit_block code v
    visit_item (timeline code) v = visit_block code v
    visit_item (meta xs) v = visit_exprs xs v

  unfoldable pub add_items : {F : Type 0} → List (Item F) → Visitor → Run Visitor
  unfolding add_item_to_scope
  add_items [] v = ok v
  add_items (x ∷ xs) v = add_item_to_scope x v >>= add_items xs

  unfoldable pub visit_items : {F : Type 0} → List (Item F) → Visitor → Run Visitor
  unfolding visit_item
  visit_items [] v = ok v
  visit_items (x ∷ xs) v = visit_item x v >>= visit_items xs

  unfoldable pub visit_file : {F : Type 0} → List (Item F) → Visitor → Run Visitor
  unfolding enter add_items visit_items leave
  visit_file script v =
      add_items script (enter Namespace.funcs RibKind.items (enter Namespace.vars RibKind.items v))
      >>= visit_items script
      >>= leave Namespace.funcs RibKind.items
      >>= leave Namespace.vars RibKind.items
