-- ===== src/Resolve/Exprs.antt =====
-- src/resolve/mod.rs: the visits of expressions, whose stacks of ribs stay as they are.
use truth.Base.{
  ℕ, true, Option, none, some, [], ◌∷◌, ◌++◌, ◌≡◌, refl, ap, ◌∙◌, ◌==◌, Bool-cases, Option-cases,
  inl, inr, zero, suc, get_elem?, set, All, ==_iff,
}
use truth.Base.Run.{Run, ok, ◌>>=◌}
use truth.Ast.{
  Expr, ternary, bin_op, un_op, xcrement_op, var, call, diff_switch, lit_int, lit_float, lit_string,
  label_property, enum_const, Cases, no_cases, missing, present, Args, no_args, arg, Pseudos,
  no_pseudos, pseudo, Var, VarName, CallableName, Resolutions, expect_def,
}
use truth.Resolve.{Namespace, RibStacks, resolve}
use truth.Resolve.Names.{
  Context, Colors, Visitor, set_error, recorded, enum_const_def_id,
  enum_name_for_unqualified_enum_const, resolve_in_enum, resolve_unambiguous,
  recorded_or_unambiguous, resolve_unqualified_enum_const, recorded_or_error,
  resolve_qualified_enum_const, resolve_var, visit_var, visit_callable_name,
  func_signature_from_ast, signature_colors, visit_callee, visit_expr, visit_cases, visit_args,
  visit_pseudos,
}
use truth.Resolve.Ids.{
  Ids, place, declared, var_ids, name_ids, expr_ids, cases_ids, args_ids, pseudos_ids,
}
use truth.Resolve.Sound.{IsKnown, resolve-IsKnown}
use truth.Resolve.Fresh.{
  IsDeclared, Ready, Result, Step, Step-none, Step-then, recorded-Step, recorded-free, set-Ready,
  set_error-Step, Grows-trans,
}

abbrev pub ColorIsDeclared : Context → Option ℕ → Type 0
ColorIsDeclared ctx none = Unit
ColorIsDeclared ctx (some e) = IsDeclared ctx e

abbrev pub ColorsAreDeclared : Context → Option Colors → Type 0
ColorsAreDeclared ctx none = Unit
ColorsAreDeclared ctx (some colors) = All (ColorIsDeclared ctx) colors

-- `assign_languages` has run, the enum of a constant is declared and has it, and the type colors of
-- signatures are declared, which `validate_defs` sees to.
pub record IsConsistent (ctx : Context) : Type 0 where
  pub assigned : ctx.languages_assigned ≡ true
  pub unique :
      (ident e : ℕ)
      → ctx.unique_enums ident ≡ some (some e)
      → (consts : ℕ → Option ℕ) × ((ctx.enums e ≡ some consts)
          × ((def : ℕ) × (consts ident ≡ some def)))
  pub instr_colors : (opcode : ℕ) → ColorsAreDeclared ctx (ctx.instrs opcode)
  pub func_colors : (def : ℕ) (c : Option Colors) → ctx.funcs def ≡ some c → ColorsAreDeclared ctx c

get_elem?-set_held :
    (map : Resolutions) (i : ℕ) (x : Option ℕ) (def : ℕ)
    → get_elem? map i ≡ some x
    → get_elem? (set map i (some def)) i ≡ some (some def)
get_elem?-set_held [] i x def h = absurd cc
get_elem?-set_held (y ∷ map) zero x def h = refl
get_elem?-set_held (y ∷ map) (suc i) x def h = get_elem?-set_held map i x def h

module _ (ctx : Context) (consistent : IsConsistent ctx) (S : RibStacks → Type 0) where
  enum_found :
      (e ident : ℕ) (consts : ℕ → Option ℕ)
      → ctx.enums e ≡ some consts
      → enum_const_def_id ctx e ident ≡ ok (consts ident)
  unfolding enum_const_def_id
  enum_found e ident consts h = rw h refl

  -- A name of an enum constant is recorded where its enum is found.
  unambiguous-Step :
      (res : ℕ) (v : Visitor) (more : Ids)
      → S v.rib_stacks
      → (e : Option ℕ) × (ctx.unique_enums (ctx.ident_of res) ≡ some e)
      → Ready ctx v (place res ∷ more)
      → Result ctx S more v (resolve_unambiguous ctx res v)
  unfolding resolve_unambiguous resolve_in_enum enum_name_for_unqualified_enum_const
  unambiguous-Step res v more s (none, named) h =
      rw (resolve_unambiguous, named) (set_error-Step ctx S (place res ∷ []) v more s h)
  unambiguous-Step res v more s (some e, named) h =
      let held = consistent.unique (ctx.ident_of res) e named in
      rw (resolve_unambiguous, named, enum_found e (ctx.ident_of res) held.0 held.1.0, held.1.1.1)
        (recorded-Step ctx S res held.1.1.0 v more s h)

  unqualified-Step :
      (color : Option ℕ) (res : ℕ) (v : Visitor) (more : Ids)
      → ColorIsDeclared ctx color
      → S v.rib_stacks
      → (e : Option ℕ) × (ctx.unique_enums (ctx.ident_of res) ≡ some e)
      → Ready ctx v (place res ∷ more)
      → Result ctx S more v (resolve_unqualified_enum_const ctx color res v)
  unfolding resolve_unqualified_enum_const recorded_or_unambiguous
  unqualified-Step none res v more d s named h = unambiguous-Step res v more s named h
  unqualified-Step (some e) res v more (consts, d) s named h =
      elim (Option-cases (consts (ctx.ident_of res))) [
        | inl eq ↦
            rw (resolve_unqualified_enum_const, enum_found e (ctx.ident_of res) consts d, eq)
              (unambiguous-Step res v more s named h)
        | inr (def, eq) ↦
            rw (resolve_unqualified_enum_const, enum_found e (ctx.ident_of res) consts d, eq)
              (recorded-Step ctx S res def v more s h)
      ]

  qualified-Step :
      (e res : ℕ)
      → Step ctx S S (declared e ∷ place res ∷ []) (resolve_qualified_enum_const ctx e res)
  unfolding resolve_qualified_enum_const recorded_or_error
  qualified-Step e res v more s h =
      let (consts, d) = h.0.0 in
      elim (Option-cases (consts (ctx.ident_of res))) [
        | inl eq ↦
            rw (resolve_qualified_enum_const, enum_found e (ctx.ident_of res) consts d, eq)
              (set_error-Step ctx S (place res ∷ []) v more s (h.0.1, h.1))
        | inr (def, eq) ↦
            rw (resolve_qualified_enum_const, enum_found e (ctx.ident_of res) consts d, eq)
              (recorded-Step ctx S res def v more s (h.0.1, h.1))
      ]

  resolve_var-Step :
      (color : Option ℕ) (res : ℕ) (def : Option ℕ) (v : Visitor) (more : Ids)
      → ColorIsDeclared ctx color
      → S v.rib_stacks
      → ((d : ℕ) → def ≡ some d → IsKnown ctx Namespace.vars (ctx.ident_of res) d)
      → Ready ctx v (place res ∷ more)
      → Result ctx S more v (resolve_var ctx color res def v)
  unfolding resolve_var
  resolve_var-Step color res none v more d s known h =
      set_error-Step ctx S (place res ∷ []) v more s h
  resolve_var-Step color res (some def) v more d s known h =
      elim (Bool-cases (def == ctx.enum_const_dummy)) [
        | inl e ↦ rw e (
            unqualified-Step color res v more d s
              (known def refl ((==_iff def ctx.enum_const_dummy).0 e)) h)
        | inr e ↦ rw e (recorded-Step ctx S res def v more s h)
      ]

  named-Step :
      (color : Option ℕ) (name : VarName) (x : Var)
      → ColorIsDeclared ctx color
      → x.name ≡ name
      → Step ctx S S (var_ids x) (visit_var ctx color x)
  unfolding visit_var
  named-Step color (VarName.normal res) x d e v more s h = rw e (
      resolve_var-Step color res
        (resolve Namespace.vars (ctx.alias_language res) (ctx.ident_of res) v.rib_stacks) v more d s
        (λ def found.
          resolve-IsKnown ctx Namespace.vars (ctx.alias_language res) (ctx.ident_of res) def
            v.rib_stacks h.1 found)
        (rw e at h))
  named-Step color (VarName.reg r) x d e v more s h = rw e (Step-none ctx S (var_ids x) v more s h)

  pub visit_var-Step :
      (color : Option ℕ) (x : Var)
      → ColorIsDeclared ctx color
      → Step ctx S S (var_ids x) (visit_var ctx color x)
  visit_var-Step color x d = named-Step color x.name x d refl

  -- The signature of a function that has just been recorded is found.
  signature_found :
      (map : Resolutions) (res def : ℕ) (c : Option Colors)
      → get_elem? map res ≡ some none
      → ctx.funcs def ≡ some c
      → func_signature_from_ast ctx (set map res (some def)) (CallableName.normal res) ≡ ok c
  unfolding func_signature_from_ast expect_def
  signature_found map res def c free known =
      rw (func_signature_from_ast, expect_def, get_elem?-set_held map res none def free, known) refl

  callee_found :
      (res def : ℕ) (c : Option Colors) (v w : Visitor)
      → resolve Namespace.funcs (ctx.alias_language res) (ctx.ident_of res) v.rib_stacks ≡ some def
      → recorded res def v ≡ ok w
      → func_signature_from_ast ctx w.resolutions (CallableName.normal res) ≡ ok c
      → visit_callee ctx (CallableName.normal res) v ≡ ok (c, w)
  unfolding visit_callee visit_callable_name signature_colors
  callee_found res def c v w e f g = rw (visit_callee, visit_callable_name, e, f, g) refl

  -- What is called, and what follows with any type colors.
  callee-Step :
      (name : CallableName) (b : Ids) (g : Option Colors × Visitor → Run Visitor)
      → ((colors : Option Colors)
          → ColorsAreDeclared ctx colors
          → Step ctx S S b (λ v. g (colors, v)))
      → Step ctx S S (name_ids name ++ b) (λ v. visit_callee ctx name v >>= g)
  unfolding visit_callee visit_callable_name signature_colors func_signature_from_ast
  callee-Step (CallableName.ins opcode) b g k v more s h =
      rw (visit_callee, consistent.assigned)
        (k (ctx.instrs opcode) (consistent.instr_colors opcode) v more s h)
  callee-Step (CallableName.normal res) b g k v more s h =
      elim (Option-cases
        (resolve Namespace.funcs (ctx.alias_language res) (ctx.ident_of res) v.rib_stacks)) [
          | inl eq ↦
              rw (visit_callee, visit_callable_name, eq)
                (Step-then ctx S S S (place res ∷ []) b (λ w. ok (set_error w)) (λ w. g (none, w))
                  (set_error-Step ctx S (place res ∷ [])) (k none tt) v more s h)
          | inr (def, eq) ↦
              let (c, known) =
                resolve-IsKnown ctx Namespace.funcs (ctx.alias_language res) (ctx.ident_of res) def
                  v.rib_stacks h.1 eq in
              let w = record v { resolutions = set v.resolutions res (some def) } in
              let made = set-Ready ctx v res def (b ++ more) h in
              let rest = k c (consistent.func_colors def c known) w more s (made.1, h.1) in
              (
                rest.0,
                (
                  ap (λ m. m >>= g)
                        (callee_found res def c v w eq (recorded-free res def v h.0.0.0)
                          (signature_found v.resolutions res def c h.0.0.0 known))
                      ∙ rest.1.0,
                  (
                    rest.1.1.0,
                    (Grows-trans v w rest.0 (λ e. e, made.0) rest.1.1.1.0, rest.1.1.1.1),
                  ),
                ),
              )
        ]

  mutual
    unfolding visit_expr expr_ids

    expr-Step :
        {F : Type 0} (color : Option ℕ) (x : Expr F)
        → ColorIsDeclared ctx color
        → Step ctx S S (expr_ids x) (visit_expr ctx color x)
    expr-Step color (ternary cond left right) d =
        Step-then ctx S S S (expr_ids cond ++ expr_ids left) (expr_ids right)
          (λ v. visit_expr ctx color cond v >>= visit_expr ctx color left)
          (visit_expr ctx color right)
          (Step-then ctx S S S (expr_ids cond) (expr_ids left) (visit_expr ctx color cond)
            (visit_expr ctx color left) (expr-Step color cond d) (expr-Step color left d))
          (expr-Step color right d)
    expr-Step color (bin_op a op b) d =
        Step-then ctx S S S (expr_ids a) (expr_ids b) (visit_expr ctx color a)
          (visit_expr ctx color b) (expr-Step color a d) (expr-Step color b d)
    expr-Step color (un_op op x) d = expr-Step color x d
    expr-Step color (xcrement_op op order x) d = visit_var-Step color x d
    expr-Step color (var x) d = visit_var-Step color x d
    expr-Step color (call name ps args) d =
        let then_args : Option Colors × Visitor → Run Visitor =
          λ r. visit_args ctx color r.0 args r.1 in
        Step-then ctx S S S (pseudos_ids ps) (name_ids name ++ args_ids args)
          (visit_pseudos ctx color ps) (λ v. visit_callee ctx name v >>= then_args)
          (pseudos-Step color ps d)
          (callee-Step name (args_ids args) then_args
            (λ colors e v. args-Step color colors args d e v))
    expr-Step color (diff_switch cases) d = cases-Step color cases d
    expr-Step color (lit_int _ _) d = Step-none ctx S []
    expr-Step color (lit_float _) d = Step-none ctx S []
    expr-Step color (lit_string _) d = Step-none ctx S []
    expr-Step color (label_property _ _) d = Step-none ctx S []
    expr-Step color (enum_const e res) d = qualified-Step e res

    cases-Step :
        {F : Type 0} (color : Option ℕ) (cases : Cases F)
        → ColorIsDeclared ctx color
        → Step ctx S S (cases_ids cases) (visit_cases ctx color cases)
    cases-Step color no_cases d = Step-none ctx S []
    cases-Step color (missing cases) d = cases-Step color cases d
    cases-Step color (present x cases) d =
        Step-then ctx S S S (expr_ids x) (cases_ids cases) (visit_expr ctx color x)
          (visit_cases ctx color cases) (expr-Step color x d) (cases-Step color cases d)

    args-Step :
        {F : Type 0} (color : Option ℕ) (colors : Option Colors) (args : Args F)
        → ColorIsDeclared ctx color
        → ColorsAreDeclared ctx colors
        → Step ctx S S (args_ids args) (visit_args ctx color colors args)
    args-Step color colors no_args d e = Step-none ctx S []
    args-Step color none (arg x args) d e =
        Step-then ctx S S S (expr_ids x) (args_ids args) (visit_expr ctx color x)
          (visit_args ctx color none args) (expr-Step color x d) (args-Step color none args d tt)
    args-Step color (some []) (arg x args) d e = Step-none ctx S (args_ids (arg x args))
    args-Step color (some (c ∷ colors)) (arg x args) d e =
        Step-then ctx S S S (expr_ids x) (args_ids args) (visit_expr ctx c x)
          (visit_args ctx color (some colors) args) (expr-Step c x e.0)
          (args-Step color (some colors) args d e.1)

    pseudos-Step :
        {F : Type 0} (color : Option ℕ) (ps : Pseudos F)
        → ColorIsDeclared ctx color
        → Step ctx S S (pseudos_ids ps) (visit_pseudos ctx color ps)
    pseudos-Step color no_pseudos d = Step-none ctx S []
    pseudos-Step color (pseudo _ x ps) d =
        Step-then ctx S S S (expr_ids x) (pseudos_ids ps) (visit_expr ctx color x)
          (visit_pseudos ctx color ps) (expr-Step color x d) (pseudos-Step color ps d)

  -- Outside of calls no color is expected.
  pub visit_expr-Step :
      {F : Type 0} (x : Expr F) → Step ctx S S (expr_ids x) (visit_expr ctx none x)
  visit_expr-Step x = expr-Step none x tt

  pub visit_args-Step :
      {F : Type 0} (args : Args F) → Step ctx S S (args_ids args) (visit_args ctx none none args)
  visit_args-Step args = args-Step none none args tt tt
