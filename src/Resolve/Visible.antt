-- ===== src/Resolve/Visible.antt =====
-- src/resolve/mod.rs: what `resolve` can find behind the barrier of a function or a `const`.
use truth.Base.{
  ℕ, Bool, true, false, ◌&&◌, ◌||◌, Option, none, some, List, [], ◌∷◌, ◌++◌, ◌≡◌, refl, sym, ap,
  subst, ◌∙◌, ◌⊎◌, inl, inr, if◌then◌else◌, arith,
}
use truth.Base.Assoc.{get}
use truth.Game.{LanguageKey}
use truth.Resolve.{
  Namespace, RibKind, Rib, RibStacks, is_local_barrier, holds_locals, is_usable, ribs_of,
  resolve_in, resolve,
}

-- One of the ribs that `P` holds of has the definition under the identifier.
abbrev pub DefinedIn : (Rib → Type 0) → ℕ → ℕ → List Rib → Type 0
DefinedIn P ident def [] = ⊥
DefinedIn P ident def (rib ∷ ribs) =
    (P rib × (get ident rib.defs ≡ some def)) ⊎ DefinedIn P ident def ribs

abbrev pub AnyRib : Rib → Type 0
AnyRib _ = Unit

abbrev pub NoLocals : RibKind → Type 0
NoLocals RibKind.locals = ⊥
NoLocals RibKind.params = ⊥
NoLocals _ = Unit

abbrev pub HoldsNoLocals : Rib → Type 0
HoldsNoLocals rib = NoLocals rib.kind

NoLocals-of : (k : RibKind) → holds_locals k ≡ false → NoLocals k
unfolding holds_locals
NoLocals-of RibKind.locals h = absurd cc
NoLocals-of RibKind.params h = absurd cc
NoLocals-of _ h = tt

-- One round of the loop, by what the rib has.
pub round :
    (P Q : Type 0) (found : Option ℕ) (hidden usable : Bool) (rest : Option ℕ) (def : ℕ)
    → (found ≡ some def → hidden ≡ false → P)
    → (rest ≡ some def → Q)
    → (elim found [
      | none ↦ rest
      | some d ↦ if hidden then none else (if usable then some d else rest)
    ])
      ≡ some def
    → P ⊎ Q
round P Q none hidden usable rest def p q e = inr (q e)
round P Q (some d) true usable rest def p q e = absurd cc
round P Q (some d) false true rest def p q e = inl (p e refl)
round P Q (some d) false false rest def p q e = inr (q e)

and_is_true : (a b : Bool) → b ≡ true → (a && b) ≡ false → a ≡ false
and_is_true a b t h = ground arith

or_true : (a b : Bool) → b ≡ true → (a || b) ≡ true
or_true a b h = ground arith

regroup : {P Q R : Type 0} → P ⊎ (Q ⊎ R) → (P ⊎ Q) ⊎ R
regroup (inl p) = inl (inl p)
regroup (inr (inl q)) = inl (inr q)
regroup (inr (inr r)) = inr r

module _ (alias_language : Option LanguageKey) (ident def : ℕ) where
  -- After a barrier no local is found.
  crossed-NoLocals :
      (ribs : List Rib)
      → resolve_in alias_language ident true ribs ≡ some def
      → DefinedIn HoldsNoLocals ident def ribs
  unfolding resolve_in
  crossed-NoLocals [] e = absurd cc
  crossed-NoLocals (rib ∷ ribs) e =
      round (HoldsNoLocals rib × (get ident rib.defs ≡ some def))
        (DefinedIn HoldsNoLocals ident def ribs) (get ident rib.defs)
        (holds_locals rib.kind && true) (is_usable alias_language rib.kind)
        (resolve_in alias_language ident true ribs) def
        (λ g h. (NoLocals-of rib.kind (and_is_true (holds_locals rib.kind) true refl h), g))
        (crossed-NoLocals ribs) e

  barrier-Scoped :
      (crossed : Bool) (above below : List Rib) (barrier : Rib)
      → is_local_barrier barrier.kind ≡ true
      → resolve_in alias_language ident crossed (above ++ (barrier ∷ below)) ≡ some def
      → DefinedIn AnyRib ident def above ⊎ DefinedIn HoldsNoLocals ident def (barrier ∷ below)
  unfolding resolve_in
  barrier-Scoped crossed [] below barrier b e =
      let now = crossed || is_local_barrier barrier.kind in
      let true_now = or_true crossed (is_local_barrier barrier.kind) b in
      inr (
        round (HoldsNoLocals barrier × (get ident barrier.defs ≡ some def))
          (DefinedIn HoldsNoLocals ident def below) (get ident barrier.defs)
          (holds_locals barrier.kind && now) (is_usable alias_language barrier.kind)
          (resolve_in alias_language ident now below) def
          (λ g h.
            (NoLocals-of barrier.kind (and_is_true (holds_locals barrier.kind) now true_now h), g))
          (λ x.
            crossed-NoLocals below
              (subst (λ c. resolve_in alias_language ident c below ≡ some def) true_now x))
          e)
  barrier-Scoped crossed (rib ∷ above) below barrier b e =
      let now = crossed || is_local_barrier rib.kind in
      regroup (
        round (AnyRib rib × (get ident rib.defs ≡ some def))
          (DefinedIn AnyRib ident def above ⊎ DefinedIn HoldsNoLocals ident def (barrier ∷ below))
          (get ident rib.defs) (holds_locals rib.kind && now) (is_usable alias_language rib.kind)
          (resolve_in alias_language ident now (above ++ (barrier ∷ below))) def (λ g h. (tt, g))
          (barrier-Scoped now above below barrier b) e)

-- A name that is resolved inside a function or a `const` has its definition in a rib above the barrier
-- of it, or in a rib that holds no locals and no parameters: those of what is around it are out of reach.
pub resolve-Scoped :
    (ns : Namespace) (alias_language : Option LanguageKey) (ident def : ℕ) (s : RibStacks)
    (above below : List Rib) (barrier : Rib)
    → ribs_of ns s ≡ above ++ (barrier ∷ below)
    → is_local_barrier barrier.kind ≡ true
    → resolve ns alias_language ident s ≡ some def
    → DefinedIn AnyRib ident def above ⊎ DefinedIn HoldsNoLocals ident def (barrier ∷ below)
unfolding resolve
resolve-Scoped ns alias_language ident def s above below barrier stack b e =
    barrier-Scoped alias_language ident def false above below barrier b
      (sym (ap (resolve_in alias_language ident false) stack) ∙ e)
