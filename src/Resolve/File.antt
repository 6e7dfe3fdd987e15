-- ===== src/Resolve/File.antt =====
-- src/resolve/mod.rs: name resolution of a whole file.
use truth.Base.{ℕ, List, [], ◌∷◌, ◌++◌, ◌≡◌, true, refl, sym, ap, subst, ◌∙◌}
use truth.Base.Assoc.{Assoc}
use truth.Base.Run.{ok}
use truth.Ast.Stmt.{Item}
use truth.Resolve.{Namespace, RibKind, RibStacks, enter_new_rib, new_rib, leave_rib}
use truth.Resolve.Names.{
  Context, Visitor, enter, leave, add_items, visit_item, visit_items, visit_file,
}
use truth.Resolve.Ids.{Ids, item_ids, items_defined_ids, items_ids, file_ids}
use truth.Resolve.Fresh.{Fresh, Extends, Step, Step-none, Step-then, Step-plain}
use truth.Resolve.Sound.{IsKnown, IsSound, no_defs}
use truth.Resolve.Exprs.{IsConsistent}
use truth.Resolve.Blocks.{rib, stacks, Exactly, InItems, put-Step, add_items-Step}
use truth.Resolve.Visits.{Step-restores, Keeps, both, item-Step}

-- The rib of the functions is off again.
abbrev InVarItems : RibStacks → RibStacks → Type 0
InVarItems s₀ s = (d : Assoc ℕ) × (s ≡ stacks (rib RibKind.items d ∷ s₀.var_ribs) s₀.func_ribs)

enter_file-Step :
    (ctx : Context) (s : RibStacks)
    → Step ctx
        (Exactly s)
        (InItems s)
        []
        (λ v. ok (enter Namespace.funcs RibKind.items (enter Namespace.vars RibKind.items v)))
unfolding enter enter_new_rib new_rib truth.Resolve.enter_rib truth.Resolve.ribs_of
    truth.Resolve.with_ribs
enter_file-Step ctx s =
    put-Step ctx (Exactly s) (InItems s) _ _ (λ v e. refl)
      (λ t eq. (
        [],
        (
          [],
          ap (λ x. stacks (rib RibKind.items [] ∷ x.var_ribs) (rib RibKind.items [] ∷ x.func_ribs))
              eq,
        ),
      ))
      (λ t _ h.
        ((no_defs (IsKnown ctx Namespace.vars), h.0), (no_defs (IsKnown ctx Namespace.funcs), h.1)))

leave_funcs-Step :
    (ctx : Context) (s : RibStacks)
    → Step ctx (InItems s) (InVarItems s) [] (leave Namespace.funcs RibKind.items)
unfolding leave leave_rib truth.Resolve.ribs_of truth.Resolve.with_ribs
leave_funcs-Step ctx s =
    put-Step ctx (InItems s) (InVarItems s) (leave Namespace.funcs RibKind.items)
      (λ t. record t { func_ribs = s.func_ribs })
      (λ v (d, (e, eq)).
        ap (λ t. leave Namespace.funcs RibKind.items (record v { rib_stacks = t })) eq
        ∙ ap (λ t. ok (record v { rib_stacks = record t { func_ribs = s.func_ribs } })) (sym eq))
      (λ t (d, (e, eq)). (d, ap (λ x. stacks x.var_ribs s.func_ribs) eq))
      (λ t (d, (e, eq)) h. let k = subst (IsSound ctx) eq h in (h.0, k.1.1))

leave_vars-Step :
    (ctx : Context) (s : RibStacks)
    → Step ctx (InVarItems s) (Exactly s) [] (leave Namespace.vars RibKind.items)
unfolding leave leave_rib truth.Resolve.ribs_of truth.Resolve.with_ribs
leave_vars-Step ctx s =
    put-Step ctx (InVarItems s) (Exactly s) (leave Namespace.vars RibKind.items) (λ _. s)
      (λ v (d, eq). ap (λ t. leave Namespace.vars RibKind.items (record v { rib_stacks = t })) eq)
      (λ t _. refl) (λ t (d, eq) h. let k = subst (IsSound ctx) eq h in (k.0.1, k.1))

append_nil : (ids : Ids) → ids ++ [] ≡ ids
append_nil [] = refl
append_nil (x ∷ ids) = ap (λ l. x ∷ l) (append_nil ids)

module _ {F : Type 0} (ctx : Context) (consistent : IsConsistent ctx) where
  items-Step :
      (S : RibStacks → Type 0) (xs : List (Item F))
      → Keeps ctx S (items_ids xs) (visit_items ctx xs)
  unfolding visit_items items_ids
  items-Step S [] = Step-none ctx S []
  items-Step S (x ∷ xs) =
      both ctx S (item_ids x) (items_ids xs) (visit_item ctx x) (visit_items ctx xs)
        (Step-restores ctx S (item_ids x) (visit_item ctx x) (λ s. item-Step ctx consistent s x))
        (items-Step S xs)

  file-Step :
      (s : RibStacks) (script : List (Item F))
      → Step ctx (Exactly s) (Exactly s) (file_ids script) (visit_file ctx script)
  unfolding visit_file file_ids
  file-Step s script =
      Step-plain ctx (Exactly s) (InVarItems s) (Exactly s) (file_ids script) _
        (leave Namespace.vars RibKind.items)
        (Step-plain ctx (Exactly s) (InItems s) (InVarItems s) (file_ids script) _
          (leave Namespace.funcs RibKind.items)
          (Step-then ctx (Exactly s) (InItems s) (InItems s) (items_defined_ids script)
            (items_ids script) _ (visit_items ctx script)
            (Step-then ctx (Exactly s) (InItems s) (InItems s) [] (items_defined_ids script) _
              (add_items ctx script) (enter_file-Step ctx s) (add_items-Step s ctx script))
            (items-Step (InItems s) script))
          (leave_funcs-Step ctx s))
        (leave_vars-Step ctx s)

  -- Let `assign_languages` have run, every name that only one enum has be a constant of that enum, which
  -- is declared, the enums of the type colors in signatures be declared, and the definitions in the ribs
  -- be known: functions have signatures, and only names of enum constants have the definition that stands
  -- for those. Let the enums of the file's qualified constants be declared, its functions have
  -- signatures, its types be what the parser makes, and the `ResId`s of its names have places that are
  -- free, different, and not that of the definition for enum constants. Then name resolution of the file
  -- ends, without a panic, and restores the stacks of ribs; an error that was reported stays reported,
  -- and what was resolved before is resolved as before.
  pub visit_file-Restores :
      (script : List (Item F)) (v : Visitor)
      → Fresh ctx v.resolutions (file_ids script)
      → IsSound ctx v.rib_stacks
      → (w : Visitor) × ((visit_file ctx script v ≡ ok w)
          × ((w.rib_stacks ≡ v.rib_stacks)
              × ((v.errors ≡ true → w.errors ≡ true) × Extends v.resolutions w.resolutions)))
  visit_file-Restores script v h sound =
      let r =
        file-Step v.rib_stacks script v [] refl
          (subst (Fresh ctx v.resolutions) (sym (append_nil (file_ids script))) h, sound) in
      (r.0, (r.1.0, (r.1.1.0, r.1.1.1.0)))
