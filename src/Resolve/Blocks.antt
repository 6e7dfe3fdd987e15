-- ===== src/Resolve/Blocks.antt =====
-- src/resolve/mod.rs: the ribs that the visits of blocks and items put on the stacks and take off.
use truth.Base.{ℕ, Bool, Option, none, some, List, [], ◌∷◌, ◌++◌, ◌≡◌, refl, sym, ap, subst, ◌∙◌}
use truth.Base.Assoc.{Assoc, get, insert}
use truth.Base.Run.{Run, ok, ◌>>=◌}
use truth.Ast.Ops.{TypeKeyword}
use truth.Ast.{Expr}
use truth.Ast.Stmt.{
  stmt, StmtKind, Item, func_declaration, func, anm_script, timeline, meta, const_var, Stmts,
  no_stmts, and_then,
}
use truth.Resolve.{
  Namespace, RibKind, Rib, RibStacks, enter_new_rib, new_rib, leave_rib, insert_on_top, is_some,
}
use truth.Resolve.Names.{
  Context, Visitor, enter, leave, define, define_params, define_consts, add_item_to_scope,
  require_var_ty, require_const_ty, signature_from_func_ast, add_block_items, enter_block,
  leave_block, enter_func, leave_func, add_items,
}
use truth.Resolve.Ids.{
  place, function, signature_ids, const_ty_ids, var_ty_ids, param_ids, const_ids, defined_ids,
  block_items_ids, items_defined_ids,
}
use truth.Resolve.Fresh.{
  Step, Opens, Step-none, Step-stacks, Step-then, Step-plain, define_var-Step, define_func-Step,
}
use truth.Resolve.Sound.{IsKnown, IsSound, no_defs}
use truth.Resolve.Types.{require_var_ty-Step, require_const_ty-Step, signature_from_func_ast-Step}

abbrev pub rib : RibKind → Assoc ℕ → Rib
rib k defs = record { kind = k; defs = defs }

abbrev pub stacks : List Rib → List Rib → RibStacks
stacks vars funcs = record { var_ribs = vars; func_ribs = funcs }

module _ (s₀ : RibStacks) where
  -- The stacks `s₀`, with the ribs of a block's items, of a block, of a function and of a `const`.
  abbrev pub Exactly : RibStacks → Type 0
  Exactly s = s ≡ s₀

  abbrev pub InItems : RibStacks → Type 0
  InItems s =
      (d : Assoc ℕ) × ((e : Assoc ℕ) × (s
          ≡ stacks (rib RibKind.items d ∷ s₀.var_ribs) (rib RibKind.items e ∷ s₀.func_ribs)))

  abbrev pub InBlock : RibStacks → Type 0
  InBlock s =
      (l : Assoc ℕ) × ((d : Assoc ℕ) × ((e : Assoc ℕ) × (s
            ≡ stacks (rib RibKind.locals l ∷ rib RibKind.items d ∷ s₀.var_ribs)
                (rib RibKind.items e ∷ s₀.func_ribs))))

  abbrev pub InFunc : RibStacks → Type 0
  InFunc s =
      (p : Assoc ℕ) × (s
        ≡ stacks (rib RibKind.params p ∷ rib RibKind.local_barrier_of_function [] ∷ s₀.var_ribs)
            s₀.func_ribs)

  abbrev pub InConst : RibStacks → Type 0
  InConst s = s ≡ stacks (rib RibKind.local_barrier_of_const [] ∷ s₀.var_ribs) s₀.func_ribs

  items-Opens : (ns : Namespace) → Opens ns RibKind.items InItems
  unfolding insert_on_top truth.Resolve.ribs_of truth.Resolve.with_ribs
  items-Opens Namespace.vars ident def s (d, (e, eq)) =
      subst
        (λ s.
          (r : Bool × List Rib) × ((insert_on_top RibKind.items ident def s.var_ribs ≡ ok r)
            × InItems (record s { var_ribs = r.1 })))
        (sym eq)
        (
          (is_some (get ident d), rib RibKind.items (insert ident def d) ∷ s₀.var_ribs),
          (refl, (insert ident def d, (e, refl))),
        )
  items-Opens Namespace.funcs ident def s (d, (e, eq)) =
      subst
        (λ s.
          (r : Bool × List Rib) × ((insert_on_top RibKind.items ident def s.func_ribs ≡ ok r)
            × InItems (record s { func_ribs = r.1 })))
        (sym eq)
        (
          (is_some (get ident e), rib RibKind.items (insert ident def e) ∷ s₀.func_ribs),
          (refl, (d, (insert ident def e, refl))),
        )

  pub locals-Opens : Opens Namespace.vars RibKind.locals InBlock
  unfolding insert_on_top truth.Resolve.ribs_of truth.Resolve.with_ribs
  locals-Opens ident def s (l, (d, (e, eq))) =
      subst
        (λ s.
          (r : Bool × List Rib) × ((insert_on_top RibKind.locals ident def s.var_ribs ≡ ok r)
            × InBlock (record s { var_ribs = r.1 })))
        (sym eq)
        (
          (
            is_some (get ident l),
            rib RibKind.locals (insert ident def l) ∷ rib RibKind.items d ∷ s₀.var_ribs,
          ),
          (refl, (insert ident def l, (d, (e, refl)))),
        )

  params-Opens : Opens Namespace.vars RibKind.params InFunc
  unfolding insert_on_top truth.Resolve.ribs_of truth.Resolve.with_ribs
  params-Opens ident def s (p, eq) =
      subst
        (λ s.
          (r : Bool × List Rib) × ((insert_on_top RibKind.params ident def s.var_ribs ≡ ok r)
            × InFunc (record s { var_ribs = r.1 })))
        (sym eq)
        (
          (
            is_some (get ident p),
            rib RibKind.params (insert ident def p)
                ∷ rib RibKind.local_barrier_of_function []
                ∷ s₀.var_ribs,
          ),
          (refl, (insert ident def p, refl)),
        )

-- Steps that change the stacks of any visitor in the same way.
pub put-Step :
    (ctx : Context) (S T : RibStacks → Type 0) (f : Visitor → Run Visitor)
    (g : RibStacks → RibStacks)
    → ((v : Visitor) → S v.rib_stacks → f v ≡ ok (record v { rib_stacks = g v.rib_stacks }))
    → ((s : RibStacks) → S s → T (g s))
    → ((s : RibStacks) → S s → IsSound ctx s → IsSound ctx (g s))
    → Step ctx S T [] f
put-Step ctx S T f g e t sound v more s h =
    let w =
      Step-stacks ctx T [] v (g v.rib_stacks) v.errors more (λ x. x) (t v.rib_stacks s)
        (sound v.rib_stacks s h.1) h.0 in
    (w.0, (e v s ∙ w.1.0, w.1.1))

module _ (s₀ : RibStacks) (ctx : Context) where
  abbrev KnownVar : ℕ → ℕ → Type 0
  KnownVar = IsKnown ctx Namespace.vars

  abbrev KnownFunc : ℕ → ℕ → Type 0
  KnownFunc = IsKnown ctx Namespace.funcs

  enter_items-Step :
      Step ctx
        (Exactly s₀)
        (InItems s₀)
        []
        (λ v. ok (enter Namespace.vars RibKind.items (enter Namespace.funcs RibKind.items v)))
  unfolding enter enter_new_rib new_rib truth.Resolve.enter_rib truth.Resolve.ribs_of
      truth.Resolve.with_ribs
  enter_items-Step =
      put-Step ctx (Exactly s₀) (InItems s₀) _ _ (λ v s. refl)
        (λ s eq. (
          [],
          (
            [],
            ap
                (λ x.
                  stacks (rib RibKind.items [] ∷ x.var_ribs) (rib RibKind.items [] ∷ x.func_ribs))
                eq,
          ),
        ))
        (λ s _ h. ((no_defs KnownVar, h.0), (no_defs KnownFunc, h.1)))

  pub leave_block-Step : Step ctx (InBlock s₀) (Exactly s₀) [] leave_block
  unfolding leave_block leave leave_rib truth.Resolve.ribs_of truth.Resolve.with_ribs
  leave_block-Step =
      put-Step ctx (InBlock s₀) (Exactly s₀) leave_block (λ _. s₀)
        (λ v (l, (d, (e, eq))). ap (λ s. leave_block (record v { rib_stacks = s })) eq)
        (λ s _. refl)
        (λ s (l, (d, (e, eq))) h. let k = subst (IsSound ctx) eq h in (k.0.1.1, k.1.1))

  enter_locals-Step :
      Step ctx (InItems s₀) (InBlock s₀) [] (λ v. ok (enter Namespace.vars RibKind.locals v))
  unfolding enter enter_new_rib new_rib truth.Resolve.enter_rib truth.Resolve.ribs_of
      truth.Resolve.with_ribs
  enter_locals-Step =
      put-Step ctx (InItems s₀) (InBlock s₀) _ _ (λ v s. refl)
        (λ s (d, (e, eq)).
          ([], (d, (e, ap (λ x. stacks (rib RibKind.locals [] ∷ x.var_ribs) x.func_ribs) eq))))
        (λ s _ h. ((no_defs KnownVar, h.0), h.1))

  enter_params-Step : Step ctx (Exactly s₀) (InFunc s₀) [] (λ v. ok (
      enter Namespace.vars RibKind.params
        (enter Namespace.vars RibKind.local_barrier_of_function v)))
  unfolding enter enter_new_rib new_rib truth.Resolve.enter_rib truth.Resolve.ribs_of
      truth.Resolve.with_ribs
  enter_params-Step =
      put-Step ctx (Exactly s₀) (InFunc s₀) _ _ (λ v s. refl)
        (λ s eq. (
          [],
          ap
              (λ x.
                stacks
                  (rib RibKind.params [] ∷ rib RibKind.local_barrier_of_function [] ∷ x.var_ribs)
                  x.func_ribs)
              eq,
        ))
        (λ s _ h. ((no_defs KnownVar, (no_defs KnownVar, h.0)), h.1))

  pub leave_func-Step : Step ctx (InFunc s₀) (Exactly s₀) [] leave_func
  unfolding leave_func leave leave_rib truth.Resolve.ribs_of truth.Resolve.with_ribs
  leave_func-Step =
      put-Step ctx (InFunc s₀) (Exactly s₀) leave_func (λ _. s₀)
        (λ v (p, eq). ap (λ s. leave_func (record v { rib_stacks = s })) eq) (λ s _. refl)
        (λ s (p, eq) h. let k = subst (IsSound ctx) eq h in (k.0.1.1, k.1))

  pub enter_const-Step :
      Step ctx
        (Exactly s₀)
        (InConst s₀)
        []
        (λ v. ok (enter Namespace.vars RibKind.local_barrier_of_const v))
  unfolding enter enter_new_rib new_rib truth.Resolve.enter_rib truth.Resolve.ribs_of
      truth.Resolve.with_ribs
  enter_const-Step =
      put-Step ctx (Exactly s₀) (InConst s₀) _ _ (λ v s. refl)
        (λ s eq.
          ap (λ x. stacks (rib RibKind.local_barrier_of_const [] ∷ x.var_ribs) x.func_ribs) eq)
        (λ s _ h. ((no_defs KnownVar, h.0), h.1))

  pub leave_const-Step :
      Step ctx (InConst s₀) (Exactly s₀) [] (leave Namespace.vars RibKind.local_barrier_of_const)
  unfolding leave leave_rib truth.Resolve.ribs_of truth.Resolve.with_ribs
  leave_const-Step =
      put-Step ctx (InConst s₀) (Exactly s₀) (leave Namespace.vars RibKind.local_barrier_of_const)
        (λ _. s₀)
        (λ v eq.
          ap
            (λ s. leave Namespace.vars RibKind.local_barrier_of_const (record v { rib_stacks = s }))
            eq)
        (λ s _. refl) (λ s eq h. let k = subst (IsSound ctx) eq h in (k.0.1, k.1))

  define_consts-Step :
      {F : Type 0} (consts : List (ℕ × Expr F))
      → Step ctx (InItems s₀) (InItems s₀) (const_ids consts) (define_consts ctx consts)
  unfolding define_consts const_ids
  define_consts-Step [] = Step-none ctx (InItems s₀) []
  define_consts-Step ((res, x) ∷ consts) =
      Step-then ctx (InItems s₀) (InItems s₀) (InItems s₀) (place res ∷ []) (const_ids consts)
        (define ctx Namespace.vars RibKind.items res) (define_consts ctx consts)
        (define_var-Step ctx (InItems s₀) RibKind.items res (items-Opens s₀ Namespace.vars))
        (define_consts-Step consts)

  define_func_item-Step :
      (keyword : TypeKeyword) (res : ℕ) (params : List (TypeKeyword × Option ℕ))
      → Step ctx
          (InItems s₀)
          (InItems s₀)
          (signature_ids keyword params ++ (function res ∷ place res ∷ []))
          (λ v.
            signature_from_func_ast keyword params v
            >>= define ctx Namespace.funcs RibKind.items res)
  define_func_item-Step keyword res params =
      Step-then ctx (InItems s₀) (InItems s₀) (InItems s₀) (signature_ids keyword params)
        (function res ∷ place res ∷ []) (signature_from_func_ast keyword params)
        (define ctx Namespace.funcs RibKind.items res)
        (signature_from_func_ast-Step ctx (InItems s₀) keyword params)
        (define_func-Step ctx (InItems s₀) RibKind.items res (items-Opens s₀ Namespace.funcs))

  add_item_to_scope-Step :
      {F : Type 0} (x : Item F)
      → Step ctx (InItems s₀) (InItems s₀) (defined_ids x) (add_item_to_scope ctx x)
  unfolding add_item_to_scope defined_ids
  add_item_to_scope-Step (func_declaration keyword res params) =
      define_func_item-Step keyword res params
  add_item_to_scope-Step (func keyword res params _) = define_func_item-Step keyword res params
  add_item_to_scope-Step (const_var keyword consts) =
      Step-then ctx (InItems s₀) (InItems s₀) (InItems s₀) (const_ty_ids keyword) (const_ids consts)
        (require_const_ty keyword) (define_consts ctx consts)
        (require_const_ty-Step ctx (InItems s₀) keyword) (define_consts-Step consts)
  add_item_to_scope-Step (anm_script _) = Step-none ctx (InItems s₀) []
  add_item_to_scope-Step (timeline _) = Step-none ctx (InItems s₀) []
  add_item_to_scope-Step (meta _) = Step-none ctx (InItems s₀) []

  pub add_items-Step :
      {F : Type 0} (xs : List (Item F))
      → Step ctx (InItems s₀) (InItems s₀) (items_defined_ids xs) (add_items ctx xs)
  unfolding add_items items_defined_ids
  add_items-Step [] = Step-none ctx (InItems s₀) []
  add_items-Step (x ∷ xs) =
      Step-then ctx (InItems s₀) (InItems s₀) (InItems s₀) (defined_ids x) (items_defined_ids xs)
        (add_item_to_scope ctx x) (add_items ctx xs) (add_item_to_scope-Step x) (add_items-Step xs)

  add_block_items-Step :
      {F : Type 0} (b : Stmts F)
      → Step ctx (InItems s₀) (InItems s₀) (block_items_ids b) (add_block_items ctx b)
  unfolding add_block_items block_items_ids
  add_block_items-Step no_stmts = Step-none ctx (InItems s₀) []
  add_block_items-Step (and_then (stmt _ _ (StmtKind.item x)) stmts) =
      Step-then ctx (InItems s₀) (InItems s₀) (InItems s₀) (defined_ids x) (block_items_ids stmts)
        (add_item_to_scope ctx x) (add_block_items ctx stmts) (add_item_to_scope-Step x)
        (add_block_items-Step stmts)
  add_block_items-Step (and_then _ stmts) = add_block_items-Step stmts

  pub enter_block-Step :
      {F : Type 0} (b : Stmts F)
      → Step ctx (Exactly s₀) (InBlock s₀) (block_items_ids b) (enter_block ctx b)
  unfolding enter_block
  enter_block-Step b =
      Step-plain ctx (Exactly s₀) (InItems s₀) (InBlock s₀) (block_items_ids b) _ _
        (Step-then ctx (Exactly s₀) (InItems s₀) (InItems s₀) [] (block_items_ids b) _
          (add_block_items ctx b) enter_items-Step (add_block_items-Step b))
        enter_locals-Step

  define_params-Step :
      (params : List (TypeKeyword × Option ℕ))
      → Step ctx (InFunc s₀) (InFunc s₀) (param_ids params) (define_params ctx params)
  unfolding define_params param_ids
  define_params-Step [] = Step-none ctx (InFunc s₀) []
  define_params-Step ((_, none) ∷ params) = define_params-Step params
  define_params-Step ((keyword, some res) ∷ params) =
      Step-then ctx (InFunc s₀) (InFunc s₀) (InFunc s₀) (var_ty_ids keyword ++ (place res ∷ []))
        (param_ids params)
        (λ v. require_var_ty keyword v >>= define ctx Namespace.vars RibKind.params res)
        (define_params ctx params)
        (Step-then ctx (InFunc s₀) (InFunc s₀) (InFunc s₀) (var_ty_ids keyword) (place res ∷ [])
          (require_var_ty keyword) (define ctx Namespace.vars RibKind.params res)
          (require_var_ty-Step ctx (InFunc s₀) keyword)
          (define_var-Step ctx (InFunc s₀) RibKind.params res (params-Opens s₀)))
        (define_params-Step params)

  pub enter_func-Step :
      (params : List (TypeKeyword × Option ℕ))
      → Step ctx (Exactly s₀) (InFunc s₀) (param_ids params) (enter_func ctx params)
  unfolding enter_func
  enter_func-Step params =
      Step-then ctx (Exactly s₀) (InFunc s₀) (InFunc s₀) [] (param_ids params) _
        (define_params ctx params) enter_params-Step (define_params-Step params)
