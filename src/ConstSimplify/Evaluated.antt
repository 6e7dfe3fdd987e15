-- ===== src/ConstSimplify/Evaluated.antt =====
-- The two evaluators of constants, the one behind constant definitions (src/context/consts.rs) and the
-- simplification pass (src/passes/const_simplify.rs), agree.
use truth.Base.{
  ℕ, ◌≡◌, refl, ◌∙◌, Bool, false, Option, none, some, List, ◌==◌, arith, if◌then◌else◌,
}
use truth.Base.Assoc
use truth.Base.Assoc.{Assoc}
use truth.Base.Run.{
  Run, ok, expect, Ensures, Ensures-bind, Ensures-self, Ensures-ok, Ensures-both, Ensures-weaken,
}
use truth.Ast.{
  Expr, ternary, bin_op, un_op, xcrement_op, var, call, diff_switch, lit_int, lit_float, lit_string,
  label_property, enum_const, Var, VarName, IntRadix, CallableName, Resolutions, expect_def,
}
use truth.Ast.Ops.{BinOpKind, UnOpKind}
use truth.Value.{FloatOps, ScalarValue, to_literal, cast_by_ty_sigil}
use truth.ConstEval.{to_const, unop_const_eval, binop_const_eval}
use truth.ConstSimplify.{
  fold_bin_op, fold_un_op, out_or, fold_ternary, known_var, Context, visit_expr, simplify_named,
  simplify_var, simplify_enum_const, simplify_un_op, simplify_bin_op, simplify_ternary,
}
use truth.Consts.{const_eval, const_eval_var, get_or_compute, choose_branch, require_const, Values}
use truth.Consts.Cache.{Extends, Grows, Caches, const_eval-Grows, get_or_compute-Caches}

to_const-to_literal : {F : Type 0} (v : ScalarValue F) → to_const (to_literal v) ≡ some v
unfolding to_const to_literal
to_const-to_literal (ScalarValue.int x) = refl
to_const-to_literal (ScalarValue.float x) = refl
to_const-to_literal (ScalarValue.string x) = refl

module _ (fl : FloatOps) (ctx : Context fl.Float) where
  open fl use {Float}

  simplify_bin_op-constant :
      (op : BinOpKind) (a b : Expr Float) (x y v : ScalarValue Float)
      → to_const a ≡ some x
      → to_const b ≡ some y
      → binop_const_eval fl op x y ≡ ok v
      → simplify_bin_op fl ctx a op b ≡ ok (to_literal v)
  unfolding simplify_bin_op fold_bin_op
  simplify_bin_op-constant op a b x y v p q r = ground arith

  simplify_un_op-constant :
      (op : UnOpKind) (b : Expr Float) (x v : ScalarValue Float)
      → to_const b ≡ some x
      → unop_const_eval fl op x ≡ ok (some v)
      → simplify_un_op fl ctx op b ≡ ok (to_literal v)
  unfolding simplify_un_op fold_un_op out_or
  simplify_un_op-constant op b x v p q = ground arith

  simplify_ternary-constant :
      (cond left right : Expr Float) (x : ℕ)
      → to_const cond ≡ some (ScalarValue.int x)
      → simplify_ternary fl ctx cond left right ≡ ok (if x == 0 then right else left)
  unfolding simplify_ternary fold_ternary
  simplify_ternary-constant cond left right x p = ground arith

  simplify_named-constant :
      (v : Var) (ident def : ℕ) (x c : ScalarValue Float)
      → expect_def ctx.resolutions ident ≡ ok def
      → Assoc.get def ctx.values ≡ some x
      → expect (cast_by_ty_sigil fl x v.ty_sigil) ≡ ok c
      → simplify_named fl ctx v (VarName.normal ident) ≡ ok (to_literal c)
  unfolding simplify_named known_var
  simplify_named-constant v ident def x c p q r = ground arith

  simplify_enum_const-constant :
      (enum_name ident def : ℕ) (x : ScalarValue Float)
      → expect_def ctx.resolutions ident ≡ ok def
      → Assoc.get def ctx.values ≡ some x
      → simplify_enum_const fl ctx enum_name ident ≡ ok (to_literal x)
  unfolding simplify_enum_const
  simplify_enum_const-constant enum_name ident def x p q = ground arith

module _ (fl : FloatOps) (rs : Resolutions) (ds : Assoc (Expr fl.Float))
    (params : CallableName → Option (List Bool)) where
  open fl use {Float}

  -- The context in which some values are cached.
  abbrev pub context_with : Values fl rs ds → Context Float
  context_with known = record { resolutions = rs; values = known; const_params = params }

  -- The pass turns the expression into a literal of the value, and reports nothing.
  abbrev pub BecomesLiteral : Values fl rs ds → Expr Float → ScalarValue Float → Type 0
  BecomesLiteral known e v =
      (e' : Expr Float) × (visit_expr fl (context_with known) e ≡ ok (e', false))
      × (to_const e' ≡ some v)

  module _ (known : Values fl rs ds) where
    int_literal :
        (x : ℕ) (radix : IntRadix) → BecomesLiteral known (lit_int x radix) (ScalarValue.int x)
    unfolding visit_expr to_const
    int_literal x radix = (lit_int x radix, refl, refl)

    float_literal : (x : Float) → BecomesLiteral known (lit_float x) (ScalarValue.float x)
    unfolding visit_expr to_const
    float_literal x = (lit_float x, refl, refl)

    string_literal : (x : List ℕ) → BecomesLiteral known (lit_string x) (ScalarValue.string x)
    unfolding visit_expr to_const
    string_literal x = (lit_string x, refl, refl)

    var-constant :
        (v : Var) (x : ScalarValue Float)
        → simplify_named fl (context_with known) v v.name ≡ ok (to_literal x)
        → BecomesLiteral known (var v) x
    unfolding visit_expr simplify_var
    var-constant v x p = (to_literal x, rw p, to_const-to_literal x)

    enum_const-constant :
        (enum_name ident def : ℕ) (x : ScalarValue Float)
        → expect_def rs ident ≡ ok def
        → Assoc.get def known ≡ some x
        → BecomesLiteral known (enum_const enum_name ident) x
    unfolding visit_expr
    enum_const-constant enum_name ident def x p q = (
      to_literal x,
      rw (simplify_enum_const-constant fl (context_with known) enum_name ident def x p q),
      to_const-to_literal x,
    )

    un_op-constant :
        (op : UnOpKind) (b : Expr Float) (x : ScalarValue Float) (o : Option (ScalarValue Float))
        (v : ScalarValue Float)
        → unop_const_eval fl op x ≡ ok o
        → require_const fl rs ds o ≡ ok v
        → BecomesLiteral known b x
        → BecomesLiteral known (un_op op b) v
    unfolding visit_expr require_const
    un_op-constant op b x none v p q (b', h, t) = absurd (cc)
    un_op-constant op b x (some w) v p q (b', h, t) = (
      to_literal w,
      rw (h, simplify_un_op-constant fl (context_with known) op b' x w t p),
      to_const-to_literal w ∙ ground arith,
    )

    bin_op-constant :
        (a b : Expr Float) (op : BinOpKind) (x y v : ScalarValue Float)
        → binop_const_eval fl op x y ≡ ok v
        → BecomesLiteral known a x
        → BecomesLiteral known b y
        → BecomesLiteral known (bin_op a op b) v
    unfolding visit_expr
    bin_op-constant a b op x y v p (a', h, s) (b', k, t) = (
      to_literal v,
      rw (h, k, simplify_bin_op-constant fl (context_with known) op a' b' x y v s t p),
      to_const-to_literal v,
    )

    ternary-constant :
        (c l r : Expr Float) (x y z v : ScalarValue Float)
        → choose_branch fl rs ds x y z ≡ ok v
        → BecomesLiteral known c x
        → BecomesLiteral known l y
        → BecomesLiteral known r z
        → BecomesLiteral known (ternary c l r) v
    unfolding visit_expr choose_branch
    ternary-constant c l r (ScalarValue.int x) y z v p (c', hc, sc) (l', hl, sl) (r', hr, sr) = (
      if x == 0 then r' else l',
      rw (hc, hl, hr, simplify_ternary-constant fl (context_with known) c' l' r' x sc),
      ground arith,
    )
    ternary-constant c l r (ScalarValue.float x) y z v p _ _ _ = absurd (cc)
    ternary-constant c l r (ScalarValue.string x) y z v p _ _ _ = absurd (cc)

  -- Whenever the cache holds the values that an evaluation has used, the pass turns the expression into
  -- a literal of the value, and reports nothing.
  abbrev pub SimplifiesTo : Expr Float → ScalarValue Float × Values fl rs ds → Type 0
  SimplifiesTo e (v, ws) = (known : Values fl rs ds) → Extends ws known → BecomesLiteral known e v

  module _ (stack : List ℕ)
      (compute : ℕ → Values fl rs ds → Run (ScalarValue Float × Values fl rs ds))
      (h : Caches fl rs ds stack compute) where
    const_eval_var-SimplifiesTo :
        (v : Var) (name : VarName) (vs : Values fl rs ds)
        → Ensures
            (λ (x, ws).
              (known : Values fl rs ds)
              → Extends ws known
              → simplify_named fl (context_with known) v name ≡ ok (to_literal x))
            (const_eval_var fl rs ds compute v.ty_sigil name vs)
    unfolding const_eval_var
    const_eval_var-SimplifiesTo v (VarName.reg _) vs = tt
    const_eval_var-SimplifiesTo v (VarName.normal ident) vs =
        Ensures-bind _ _ (expect_def rs ident) _ (Ensures-self _) (λ def p.
          Ensures-bind _ _ (compute def vs) _ (h def vs) (λ (x, us) g.
            Ensures-bind _ _ (expect (cast_by_ty_sigil fl x v.ty_sigil)) _ (Ensures-self _)
              (λ c q known ext.
                simplify_named-constant fl (context_with known) v ident def x c p (ext def x g.1)
                  q)))

    both :
        (e : Expr Float) (vs : Values fl rs ds)
        → Ensures (SimplifiesTo e) (const_eval fl rs ds compute e vs)
        → Ensures (λ r. Grows stack vs r.1 × SimplifiesTo e r) (const_eval fl rs ds compute e vs)
    both e vs s =
        Ensures-both (λ r. Grows stack vs r.1) (SimplifiesTo e) _
          (const_eval-Grows fl rs ds stack compute h e vs) s

    -- A successful evaluation caches what the pass needs to find the same value.
    const_eval-SimplifiesTo :
        (e : Expr Float) (vs : Values fl rs ds)
        → Ensures (SimplifiesTo e) (const_eval fl rs ds compute e vs)
    unfolding const_eval
    const_eval-SimplifiesTo (ternary c l r) vs =
        Ensures-bind _ _ (const_eval fl rs ds compute c vs) _ (const_eval-SimplifiesTo c vs)
          (λ (x, vs₁) s₁.
            Ensures-bind _ _ (const_eval fl rs ds compute l vs₁) _
              (both l vs₁ (const_eval-SimplifiesTo l vs₁))
              (λ (y, vs₂) s₂.
                Ensures-bind _ _ (const_eval fl rs ds compute r vs₂) _
                  (both r vs₂ (const_eval-SimplifiesTo r vs₂))
                  (λ (z, vs₃) s₃.
                    Ensures-bind _ _ (choose_branch fl rs ds x y z) _ (Ensures-self _)
                      (λ v p known ext.
                        ternary-constant known c l r x y z v p
                          (s₁ known (λ k w q. ext k w (s₃.0.0 k w (s₂.0.0 k w q))))
                          (s₂.1 known (λ k w q. ext k w (s₃.0.0 k w q))) (s₃.1 known ext)))))
    const_eval-SimplifiesTo (bin_op a op b) vs =
        Ensures-bind _ _ (const_eval fl rs ds compute a vs) _ (const_eval-SimplifiesTo a vs)
          (λ (x, vs₁) s₁.
            Ensures-bind _ _ (const_eval fl rs ds compute b vs₁) _
              (both b vs₁ (const_eval-SimplifiesTo b vs₁))
              (λ (y, vs₂) s₂.
                Ensures-bind _ _ (binop_const_eval fl op x y) _ (Ensures-self _) (λ v p known ext.
                  bin_op-constant known a b op x y v p (s₁ known (λ k w q. ext k w (s₂.0.0 k w q)))
                    (s₂.1 known ext))))
    const_eval-SimplifiesTo (un_op op b) vs =
        Ensures-bind _ _ (const_eval fl rs ds compute b vs) _ (const_eval-SimplifiesTo b vs)
          (λ (x, vs₁) s. Ensures-bind _ _ (unop_const_eval fl op x) _ (Ensures-self _) (λ o p.
            Ensures-bind _ _ (require_const fl rs ds o) _ (Ensures-self _)
              (λ v q known ext. un_op-constant known op b x o v p q (s known ext))))
    const_eval-SimplifiesTo (xcrement_op _ _ _) vs = tt
    const_eval-SimplifiesTo (var v) vs =
        Ensures-weaken _ _ (const_eval_var fl rs ds compute v.ty_sigil v.name vs)
          (λ (x, ws) s known ext. var-constant known v x (s known ext))
          (const_eval_var-SimplifiesTo v v.name vs)
    const_eval-SimplifiesTo (call _ _ _) vs = tt
    const_eval-SimplifiesTo (diff_switch _) vs = tt
    const_eval-SimplifiesTo (lit_int x radix) vs = λ known ext. int_literal known x radix
    const_eval-SimplifiesTo (lit_float x) vs = λ known ext. float_literal known x
    const_eval-SimplifiesTo (lit_string x) vs = λ known ext. string_literal known x
    const_eval-SimplifiesTo (label_property _ _) vs = tt
    const_eval-SimplifiesTo (enum_const enum_name ident) vs =
        Ensures-bind _ _ (expect_def rs ident) _ (Ensures-self _) (λ def p.
          Ensures-weaken _ _ (compute def vs)
            (λ (x, ws) g known ext.
              enum_const-constant known enum_name ident def x p (ext def x g.1))
            (h def vs))

  -- An expression that the evaluator of constants has given a value is turned into a literal of the same
  -- value by the simplification pass, in every context whose cache holds the values that the evaluator
  -- has cached by then. The pass reports nothing.
  pub get_or_compute-SimplifiesTo :
      (fuel : ℕ) (stack : List ℕ) (e : Expr Float) (vs ws known : Values fl rs ds)
      (v : ScalarValue Float)
      → const_eval fl rs ds (get_or_compute fl rs ds fuel stack) e vs ≡ ok (v, ws)
      → Extends ws known
      → BecomesLiteral known e v
  get_or_compute-SimplifiesTo fuel stack e vs ws known v p ext =
      Ensures-ok (SimplifiesTo e) _ (v, ws)
        (const_eval-SimplifiesTo stack (get_or_compute fl rs ds fuel stack)
          (get_or_compute-Caches fl rs ds fuel stack) e vs)
        p known ext
