-- ===== src/Resolve/Sound.antt =====
-- src/resolve/mod.rs: what is true of the definitions in the ribs, with the maps of src/context/defs.rs.
use mathlib.Core.Option.{some-injective}
use truth.Base.{
  ℕ, Bool, false, ◌&&◌, ◌||◌, Option, some, List, [], ◌∷◌, All, ◌≡◌, sym, subst, ◌∙◌, ◌==◌, ==_iff,
  Bool-cases, inl, inr,
}
use truth.Base.Assoc.{Assoc, get, insert, get-insert}
use truth.Base.Run.{ok, ok-injective}
use truth.Game.{LanguageKey}
use truth.Resolve.{
  Namespace, RibKind, Rib, RibStacks, ribs_of, with_ribs, is_local_barrier, holds_locals, is_usable,
  insert_on_top, same_kind, resolve_in, resolve,
}
use truth.Resolve.Names.{Context, Colors}
use truth.Resolve.Visible.{round}

-- A definition of the namespace that an identifier may have: a variable is not the one that stands for
-- enum constants, unless there is such a constant, and a function is known.
abbrev pub IsKnown : Context → Namespace → ℕ → ℕ → Type 0
IsKnown ctx Namespace.vars ident def =
    def ≡ ctx.enum_const_dummy → (e : Option ℕ) × (ctx.unique_enums ident ≡ some e)
IsKnown ctx Namespace.funcs ident def = (c : Option Colors) × (ctx.funcs def ≡ some c)

abbrev pub AllKnown : (ℕ → ℕ → Type 0) → List Rib → Type 0
AllKnown P = All (λ rib. (ident def : ℕ) → get ident rib.defs ≡ some def → P ident def)

-- All definitions in the ribs are known.
abbrev pub IsSound : Context → RibStacks → Type 0
IsSound ctx s =
    AllKnown (IsKnown ctx Namespace.vars) s.var_ribs
    × AllKnown (IsKnown ctx Namespace.funcs) s.func_ribs

pub no_defs : (P : ℕ → ℕ → Type 0) (ident def : ℕ) → get ident [] ≡ some def → P ident def
unfolding get
no_defs P ident def h = absurd cc

resolve_in-AllKnown :
    (P : ℕ → ℕ → Type 0) (l : Option LanguageKey) (ident def : ℕ) (crossed : Bool) (ribs : List Rib)
    → AllKnown P ribs
    → resolve_in l ident crossed ribs ≡ some def
    → P ident def
unfolding resolve_in
resolve_in-AllKnown P l ident def crossed [] h e = absurd cc
resolve_in-AllKnown P l ident def crossed (rib ∷ ribs) h e =
    let now = crossed || is_local_barrier rib.kind in
    elim (round (P ident def) (P ident def) (get ident rib.defs) (holds_locals rib.kind && now)
      (is_usable l rib.kind) (resolve_in l ident now ribs) def (λ g _. h.0 ident def g)
      (resolve_in-AllKnown P l ident def now ribs h.1) e) [ inl p ↦ p | inr p ↦ p ]

pub resolve-IsKnown :
    (ctx : Context) (ns : Namespace) (l : Option LanguageKey) (ident def : ℕ) (s : RibStacks)
    → IsSound ctx s
    → resolve ns l ident s ≡ some def
    → IsKnown ctx ns ident def
unfolding resolve ribs_of
resolve-IsKnown ctx Namespace.vars l ident def s h e =
    resolve_in-AllKnown (IsKnown ctx Namespace.vars) l ident def false s.var_ribs h.0 e
resolve-IsKnown ctx Namespace.funcs l ident def s h e =
    resolve_in-AllKnown (IsKnown ctx Namespace.funcs) l ident def false s.func_ribs h.1 e

insert-AllKnown :
    (P : ℕ → ℕ → Type 0) (k def : ℕ) (defs : Assoc ℕ)
    → P k def
    → ((ident d : ℕ) → get ident defs ≡ some d → P ident d)
    → (ident d : ℕ) → get ident (insert k def defs) ≡ some d
    → P ident d
insert-AllKnown P k def defs p h ident d e = elim (Bool-cases (k == ident)) [
  | inl same ↦
      let found : some def ≡ some d = rw same at (sym (get-insert k ident def defs) ∙ e) in
      subst (λ i. P i d) ((==_iff k ident).0 same) (subst (P k) (some-injective _ _ found) p)
  | inr other ↦ h ident d (rw other at (sym (get-insert k ident def defs) ∙ e))
]

on_top-AllKnown :
    (P : ℕ → ℕ → Type 0) (k : RibKind) (ident def : ℕ) (ribs : List Rib) (r : Bool × List Rib)
    → P ident def
    → AllKnown P ribs
    → insert_on_top k ident def ribs ≡ ok r
    → AllKnown P r.1
unfolding insert_on_top
on_top-AllKnown P k ident def [] r p h e = absurd cc
on_top-AllKnown P k ident def (rib ∷ ribs) r p h e = elim (Bool-cases (same_kind rib.kind k)) [
  | inl same ↦
      let made = rw same at e in
      subst (λ r. AllKnown P r.1) (ok-injective _ _ made)
        (insert-AllKnown P ident def rib.defs p h.0, h.1)
  | inr other ↦ absurd (let bad = rw other at e in cc)
]

pub define-IsSound :
    (ctx : Context) (ns : Namespace) (k : RibKind) (ident def : ℕ) (s : RibStacks)
    (r : Bool × List Rib)
    → IsKnown ctx ns ident def
    → IsSound ctx s
    → insert_on_top k ident def (ribs_of ns s) ≡ ok r
    → IsSound ctx (with_ribs ns r.1 s)
unfolding ribs_of with_ribs
define-IsSound ctx Namespace.vars k ident def s r p h e =
    (on_top-AllKnown (IsKnown ctx Namespace.vars) k ident def s.var_ribs r p h.0 e, h.1)
define-IsSound ctx Namespace.funcs k ident def s r p h e =
    (h.0, on_top-AllKnown (IsKnown ctx Namespace.funcs) k ident def s.func_ribs r p h.1 e)
