-- ===== src/Consts/Cache.antt =====
-- The cache of constant values: it only grows, and what the evaluator returns for a constant is what the
-- cache holds for it afterwards.
use truth.Base.{
  ℕ, zero, suc, ◌≡◌, refl, ◌∙◌, arith, Bool, true, false, Option, none, some, List, [], ◌∷◌, length,
  ◌==◌, Bool-cases, inl, inr, ==_iff, ==_refl, All,
}
use truth.Base.Assoc
use truth.Base.Assoc.{Assoc}
use truth.Base.Members.{member}
use truth.Base.Run.{Run, expect, Ensures, Ensures-bind, Ensures-self, Ensures-weaken}
use truth.Ast.{
  Expr, ternary, bin_op, un_op, xcrement_op, var, call, diff_switch, lit_int, lit_float, lit_string,
  label_property, enum_const, VarName, Resolutions, expect_def,
}
use truth.Ast.Ops.{VarSigil}
use truth.Value.{FloatOps, ScalarValue, cast_by_ty_sigil}
use truth.ConstEval.{unop_const_eval, binop_const_eval}
use truth.Consts.{
  const_eval, const_eval_var, get_or_compute, choose_branch, require_const, undefined_const,
  evaluate_ids, Values, compute_definition, unless_cached,
}

-- Every cached value stays.
abbrev pub Extends {ℓ} : {A : Type ℓ} → Assoc A → Assoc A → Type ℓ
Extends {A = A} vs vs' = (k : ℕ) (v : A) → Assoc.get k vs ≡ some v → Assoc.get k vs' ≡ some v

-- No constant that is being computed enters the cache.
abbrev pub Protects {ℓ} : {A : Type ℓ} → List ℕ → Assoc A → Assoc A → Type ℓ
Protects stack vs vs' =
    (k : ℕ) → member k stack ≡ true → Assoc.get k vs ≡ none → Assoc.get k vs' ≡ none

key-differs {ℓ} :
    {A : Type ℓ} (id k : ℕ) (vs : Assoc A) {v : A}
    → Assoc.get id vs ≡ none
    → Assoc.get k vs ≡ some v
    → (id == k) ≡ false
key-differs id k vs n p = elim (Bool-cases (id == k)) [
  | inl e ↦ absurd (ground (arith, ==_iff id k))
  | inr e ↦ e
]

member-differs :
    (id k : ℕ) (stack : List ℕ)
    → member id stack ≡ false
    → member k stack ≡ true
    → (id == k) ≡ false
member-differs id k stack m p = elim (Bool-cases (id == k)) [
  | inl e ↦ absurd (ground (arith, ==_iff id k))
  | inr e ↦ e
]

abbrev pub Grows {ℓ} : {A : Type ℓ} → List ℕ → Assoc A → Assoc A → Type ℓ
Grows stack vs vs' = Extends vs vs' × Protects stack vs vs'

Grows-refl {ℓ} : {A : Type ℓ} (stack : List ℕ) (vs : Assoc A) → Grows stack vs vs
Grows-refl stack vs = (λ k v h. h, λ k p h. h)

Grows-trans {ℓ} :
    {A : Type ℓ} (stack : List ℕ) (vs ws us : Assoc A)
    → Grows stack vs ws
    → Grows stack ws us
    → Grows stack vs us
Grows-trans stack vs ws us g h = (λ k v p. h.0 k v (g.0 k v p), λ k p q. h.1 k p (g.1 k p q))

-- A computed value is cached when its constant was protected.
Grows-insert {ℓ} :
    {A : Type ℓ} (stack : List ℕ) (id : ℕ) (v : A) (vs ws : Assoc A)
    → member id stack ≡ false
    → Assoc.get id vs ≡ none
    → Grows (id ∷ stack) vs ws
    → Grows stack vs (Assoc.insert id v ws) × (Assoc.get id (Assoc.insert id v ws) ≡ some v)
unfolding member
Grows-insert stack id v vs ws m n g =
    let none_before = g.1 id (ground arith) n in
    (
      (
        λ k w p. Assoc.get-insert id k v ws ∙ rw (key-differs id k vs n p, g.0 k w p),
        λ k p q.
            Assoc.get-insert id k v ws ∙ rw (member-differs id k stack m p, g.1 k (ground arith) q),
      ),
      Assoc.get-insert id id v ws ∙ rw (==_refl id),
    )

module _ (fl : FloatOps) (rs : Resolutions) (ds : Assoc (Expr fl.Float)) where
  open fl use {Float}

  -- A successful computation of a constant returns what is then cached.
  abbrev pub Caches :
      List ℕ → (ℕ → Values fl rs ds → Run (ScalarValue Float × Values fl rs ds)) → Type 0
  Caches stack compute =
      (id : ℕ) (vs : Values fl rs ds)
      → Ensures (λ (v, ws). Grows stack vs ws × (Assoc.get id ws ≡ some v)) (compute id vs)

  module _ (stack : List ℕ)
      (compute : ℕ → Values fl rs ds → Run (ScalarValue Float × Values fl rs ds))
      (h : Caches stack compute) where
    const_eval_var-Grows :
        (sigil : Option VarSigil) (name : VarName) (vs : Values fl rs ds)
        → Ensures (λ (v, ws). Grows stack vs ws) (const_eval_var fl rs ds compute sigil name vs)
    unfolding const_eval_var
    const_eval_var-Grows sigil (VarName.reg _) vs = tt
    const_eval_var-Grows sigil (VarName.normal ident) vs =
        Ensures-bind _ _ (expect_def rs ident) _ (Ensures-self _) (λ def _.
          Ensures-bind _ _ (compute def vs) _ (h def vs) (λ (x, us) g.
            Ensures-bind _ _ (expect (cast_by_ty_sigil fl x sigil)) _ (Ensures-self _)
              (λ _ _. g.0)))

    pub const_eval-Grows :
        (e : Expr Float) (vs : Values fl rs ds)
        → Ensures (λ (v, ws). Grows stack vs ws) (const_eval fl rs ds compute e vs)
    unfolding const_eval
    const_eval-Grows (ternary c l r) vs =
        Ensures-bind _ _ (const_eval fl rs ds compute c vs) _ (const_eval-Grows c vs)
          (λ (x, vs₁) g₁.
            Ensures-bind _ _ (const_eval fl rs ds compute l vs₁) _ (const_eval-Grows l vs₁)
              (λ (y, vs₂) g₂.
                Ensures-bind _ _ (const_eval fl rs ds compute r vs₂) _ (const_eval-Grows r vs₂)
                  (λ (z, vs₃) g₃.
                    Ensures-bind _ _ (choose_branch fl rs ds x y z) _ (Ensures-self _) (λ _ _.
                      Grows-trans stack vs vs₁ vs₃ g₁ (Grows-trans stack vs₁ vs₂ vs₃ g₂ g₃)))))
    const_eval-Grows (bin_op a op b) vs =
        Ensures-bind _ _ (const_eval fl rs ds compute a vs) _ (const_eval-Grows a vs)
          (λ (x, vs₁) g₁.
            Ensures-bind _ _ (const_eval fl rs ds compute b vs₁) _ (const_eval-Grows b vs₁)
              (λ (y, vs₂) g₂.
                Ensures-bind _ _ (binop_const_eval fl op x y) _ (Ensures-self _)
                  (λ _ _. Grows-trans stack vs vs₁ vs₂ g₁ g₂)))
    const_eval-Grows (un_op op b) vs =
        Ensures-bind _ _ (const_eval fl rs ds compute b vs) _ (const_eval-Grows b vs) (λ (x, vs₁) g.
          Ensures-bind _ _ (unop_const_eval fl op x) _ (Ensures-self _)
            (λ o _. Ensures-bind _ _ (require_const fl rs ds o) _ (Ensures-self _) (λ _ _. g)))
    const_eval-Grows (xcrement_op _ _ _) vs = tt
    const_eval-Grows (var v) vs = const_eval_var-Grows v.ty_sigil v.name vs
    const_eval-Grows (call _ _ _) vs = tt
    const_eval-Grows (diff_switch _) vs = tt
    const_eval-Grows (lit_int _ _) vs = Grows-refl stack vs
    const_eval-Grows (lit_float _) vs = Grows-refl stack vs
    const_eval-Grows (lit_string _) vs = Grows-refl stack vs
    const_eval-Grows (label_property _ _) vs = tt
    const_eval-Grows (enum_const _ ident) vs =
        Ensures-bind _ _ (expect_def rs ident) _ (Ensures-self _)
          (λ def _. Ensures-weaken _ _ (compute def vs) (λ _ g. g.0) (h def vs))

  undefined_const-Ensures :
      (P : ScalarValue Float × Values fl rs ds → Type 0) (stack : List ℕ)
      → Ensures P (undefined_const fl rs ds stack)
  unfolding undefined_const
  undefined_const-Ensures P [] = tt
  undefined_const-Ensures P (_ ∷ _) = tt

  compute_definition-Caches :
      (rec : List ℕ → ℕ → Values fl rs ds → Run (ScalarValue Float × Values fl rs ds))
      → (stack : List ℕ) (id : ℕ) (vs : Values fl rs ds) (o : Option (Expr Float))
      → Caches (id ∷ stack) (rec (id ∷ stack))
      → member id stack ≡ false
      → Assoc.get id vs ≡ none
      → Ensures
          (λ (v, ws). Grows stack vs ws × (Assoc.get id ws ≡ some v))
          (compute_definition fl rs ds rec stack id vs o)
  unfolding compute_definition
  compute_definition-Caches rec stack id vs none h m n = undefined_const-Ensures _ stack
  compute_definition-Caches rec stack id vs (some e) h m n =
      Ensures-bind _ _ (const_eval fl rs ds (rec (id ∷ stack)) e vs) _
        (const_eval-Grows (id ∷ stack) (rec (id ∷ stack)) h e vs)
        (λ (v, ws) g. Grows-insert stack id v vs ws m n g)

  unless_cached-Caches :
      (stack : List ℕ) (id : ℕ) (vs : Values fl rs ds) (o : Option (ScalarValue Float)) (b : Bool)
      (m : Run (ScalarValue Float × Values fl rs ds))
      → Assoc.get id vs ≡ o
      → (o ≡ none
          → b ≡ false
          → Ensures (λ (v, ws). Grows stack vs ws × (Assoc.get id ws ≡ some v)) m)
      → Ensures
          (λ (v, ws). Grows stack vs ws × (Assoc.get id ws ≡ some v))
          (unless_cached fl rs ds o b vs m)
  unfolding unless_cached
  unless_cached-Caches stack id vs (some v) b m p h = (Grows-refl stack vs, p)
  unless_cached-Caches stack id vs none true m p h = tt
  unless_cached-Caches stack id vs none false m p h = h refl refl

  -- When a constant is computed, every cached value stays, the constants that are being computed stay
  -- out of the cache, and the value that is returned is the one cached for the constant.
  pub get_or_compute-Caches :
      (fuel : ℕ) (stack : List ℕ) (id : ℕ) (vs : Values fl rs ds)
      → Ensures
          (λ (v, ws). Grows stack vs ws × (Assoc.get id ws ≡ some v))
          (get_or_compute fl rs ds fuel stack id vs)
  unfolding get_or_compute
  get_or_compute-Caches zero stack id vs = tt
  get_or_compute-Caches (suc fuel) stack id vs =
      unless_cached-Caches stack id vs (Assoc.get id vs) (member id stack) _ refl (λ n m.
        compute_definition-Caches (get_or_compute fl rs ds fuel) stack id vs (Assoc.get id ds)
          (get_or_compute-Caches fuel (id ∷ stack)) m n)

  -- Evaluating the deferred constants keeps what was cached, and caches a value for each of them.
  pub evaluate_ids-Caches :
      (ids : List ℕ) (vs : Values fl rs ds)
      → Ensures
          (λ ws.
            Extends vs ws × All (λ id. (v : ScalarValue Float) × (Assoc.get id ws ≡ some v)) ids)
          (evaluate_ids fl rs ds ids vs)
  unfolding evaluate_ids
  evaluate_ids-Caches [] vs = (λ k v p. p, tt)
  evaluate_ids-Caches (id ∷ ids) vs =
      Ensures-bind _ _ (get_or_compute fl rs ds (suc (length ds)) [] id vs) _
        (get_or_compute-Caches (suc (length ds)) [] id vs)
        (λ (v, us) g.
          Ensures-weaken _ _ (evaluate_ids fl rs ds ids us)
            (λ ws h. (λ k w p. h.0 k w (g.0.0 k w p), ((v, h.0 id v g.1), h.1)))
            (evaluate_ids-Caches ids us))
