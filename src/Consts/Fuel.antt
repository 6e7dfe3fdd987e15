-- ===== src/Consts/Fuel.antt =====
-- The evaluator's fuel: one unit for each definition, and one more, is enough.
use truth.Base.{
  ℕ, zero, suc, ◌+◌, ◌≤◌, ◌<◌, ◌≡◌, refl, arith, Bool, true, false, Option, none, some, List, [],
  ◌∷◌, length, ◌==◌, if◌then◌else◌, Bool-cases, inl, inr,
}
use truth.Base.Assoc
use truth.Base.Assoc.{Assoc}
use truth.Base.Members.{member}
use truth.Base.Run.{Run, ok, err, panic, out_of_fuel, ◌>>=◌, expect}
use truth.Ast.{
  Expr, ternary, bin_op, un_op, xcrement_op, var, call, diff_switch, lit_int, lit_float, lit_string,
  label_property, enum_const, VarName, Resolutions, expect_def,
}
use truth.Ast.Ops.{BinOpKind, UnOpKind, VarSigil}
use truth.Int32.{wrapping_div, wrapping_rem}
use truth.Value.{FloatOps, ScalarValue, cast_by_ty_sigil}
use truth.ConstEval.{
  unop_const_eval, unop_const_eval_int, unop_const_eval_float, binop_const_eval,
  binop_const_eval_int, binop_const_eval_float,
}
use truth.Consts.{
  const_eval, const_eval_var, get_or_compute, choose_branch, require_const, undefined_const,
  evaluate_ids, Values, compute_definition, unless_cached, check_equalities, values_equal,
  evaluate_all_deferred, EqualityCheck, Consts,
}

-- The run did not stop for want of fuel.
abbrev pub Finishes {ℓ} : {A : Type ℓ} → Run A → Type 0
Finishes out_of_fuel = ⊥
Finishes _ = Unit

>>=-Finishes {ℓ κ} :
    {A : Type ℓ} {B : Type κ} (m : Run A) (f : A → Run B)
    → Finishes m
    → ((a : A) → Finishes (f a))
    → Finishes (m >>= f)
>>=-Finishes (ok a) f h k = k a
>>=-Finishes err f h k = tt
>>=-Finishes panic f h k = tt
>>=-Finishes out_of_fuel f h k = h

expect-Finishes {ℓ} : {A : Type ℓ} (o : Option A) → Finishes (expect o)
expect-Finishes none = tt
expect-Finishes (some a) = tt

expect_def-Finishes : (rs : Resolutions) (id : ℕ) → Finishes (expect_def rs id)
unfolding expect_def
expect_def-Finishes rs id = ground arith

binop_int-Finishes :
    (F : Type 0) (op : BinOpKind) (a b : ℕ) → Finishes (binop_const_eval_int {F = F} op a b)
unfolding binop_const_eval_int
binop_int-Finishes F BinOpKind.div a b =
    >>=-Finishes (expect (wrapping_div a b)) _ (expect-Finishes _) (λ _. tt)
binop_int-Finishes F BinOpKind.rem a b =
    >>=-Finishes (expect (wrapping_rem a b)) _ (expect-Finishes _) (λ _. tt)
binop_int-Finishes F _ a b = tt

module _ (fl : FloatOps) where
  open fl use {Float}

  pub binop-Finishes :
      (op : BinOpKind) (v w : ScalarValue Float) → Finishes (binop_const_eval fl op v w)
  unfolding binop_const_eval binop_const_eval_float
  binop-Finishes op (ScalarValue.int a) (ScalarValue.int b) = binop_int-Finishes Float op a b
  binop-Finishes op (ScalarValue.float a) (ScalarValue.float b) =
      elim op as (λ k. Finishes (binop_const_eval_float fl k a b)) [ BinOpKind.add ↦ tt | _ ↦ tt ]
  binop-Finishes op (ScalarValue.int _) (ScalarValue.float _) = tt
  binop-Finishes op (ScalarValue.int _) (ScalarValue.string _) = tt
  binop-Finishes op (ScalarValue.float _) (ScalarValue.int _) = tt
  binop-Finishes op (ScalarValue.float _) (ScalarValue.string _) = tt
  binop-Finishes op (ScalarValue.string _) _ = tt

  pub unop-Finishes : (op : UnOpKind) (v : ScalarValue Float) → Finishes (unop_const_eval fl op v)
  unfolding unop_const_eval unop_const_eval_int unop_const_eval_float
  unop-Finishes op (ScalarValue.int x) = elim op as (λ k. Finishes (unop_const_eval_int fl k x)) [
    | UnOpKind.neg ↦ tt
    | _ ↦ tt
  ]
  unop-Finishes op (ScalarValue.float x) =
      elim op as (λ k. Finishes (unop_const_eval_float fl k x)) [ UnOpKind.neg ↦ tt | _ ↦ tt ]
  unop-Finishes op (ScalarValue.string x) = tt

  require_const-Finishes :
      (rs : Resolutions) (ds : Assoc (Expr Float)) (o : Option (ScalarValue Float))
      → Finishes (require_const fl rs ds o)
  unfolding require_const
  require_const-Finishes rs ds none = tt
  require_const-Finishes rs ds (some v) = tt

  choose_branch-Finishes :
      (rs : Resolutions) (ds : Assoc (Expr Float)) (c l r : ScalarValue Float)
      → Finishes (choose_branch fl rs ds c l r)
  unfolding choose_branch
  choose_branch-Finishes rs ds (ScalarValue.int x) l r = tt
  choose_branch-Finishes rs ds (ScalarValue.float x) l r = tt
  choose_branch-Finishes rs ds (ScalarValue.string x) l r = tt

module _ (fl : FloatOps) (rs : Resolutions) (ds : Assoc (Expr fl.Float)) where
  open fl use {Float}

  const_eval_var-Finishes :
      (compute : ℕ → Values fl rs ds → Run (ScalarValue Float × Values fl rs ds))
      → ((id : ℕ) (vs : Values fl rs ds) → Finishes (compute id vs))
      → (sigil : Option VarSigil) (name : VarName) (vs : Values fl rs ds)
      → Finishes (const_eval_var fl rs ds compute sigil name vs)
  unfolding const_eval_var
  const_eval_var-Finishes compute h sigil (VarName.reg _) vs = tt
  const_eval_var-Finishes compute h sigil (VarName.normal ident) vs =
      >>=-Finishes (expect_def rs ident) _ (expect_def-Finishes rs ident) (λ def.
        >>=-Finishes (compute def vs) _ (h def vs) (λ (x, vs').
          >>=-Finishes (expect (cast_by_ty_sigil fl x sigil)) _ (expect-Finishes _) (λ _. tt)))

  -- An expression is evaluated if the constants that it mentions are.
  const_eval-Finishes :
      (compute : ℕ → Values fl rs ds → Run (ScalarValue Float × Values fl rs ds))
      → ((id : ℕ) (vs : Values fl rs ds) → Finishes (compute id vs))
      → (e : Expr Float) (vs : Values fl rs ds) → Finishes (const_eval fl rs ds compute e vs)
  unfolding const_eval
  const_eval-Finishes compute h (ternary c l r) vs =
      >>=-Finishes (const_eval fl rs ds compute c vs) _ (const_eval-Finishes compute h c vs)
        (λ (x, vs₁).
          >>=-Finishes (const_eval fl rs ds compute l vs₁) _ (const_eval-Finishes compute h l vs₁)
            (λ (y, vs₂).
              >>=-Finishes (const_eval fl rs ds compute r vs₂) _
                (const_eval-Finishes compute h r vs₂)
                (λ (z, vs₃).
                  >>=-Finishes (choose_branch fl rs ds x y z) _
                    (choose_branch-Finishes fl rs ds x y z) (λ _. tt))))
  const_eval-Finishes compute h (bin_op a op b) vs =
      >>=-Finishes (const_eval fl rs ds compute a vs) _ (const_eval-Finishes compute h a vs)
        (λ (x, vs₁).
          >>=-Finishes (const_eval fl rs ds compute b vs₁) _ (const_eval-Finishes compute h b vs₁)
            (λ (y, vs₂).
              >>=-Finishes (binop_const_eval fl op x y) _ (binop-Finishes fl op x y) (λ _. tt)))
  const_eval-Finishes compute h (un_op op b) vs =
      >>=-Finishes (const_eval fl rs ds compute b vs) _ (const_eval-Finishes compute h b vs)
        (λ (x, vs₁). >>=-Finishes (unop_const_eval fl op x) _ (unop-Finishes fl op x) (λ o.
          >>=-Finishes (require_const fl rs ds o) _ (require_const-Finishes fl rs ds o) (λ _. tt)))
  const_eval-Finishes compute h (xcrement_op _ _ _) vs = tt
  const_eval-Finishes compute h (var v) vs = const_eval_var-Finishes compute h v.ty_sigil v.name vs
  const_eval-Finishes compute h (call _ _ _) vs = tt
  const_eval-Finishes compute h (diff_switch _) vs = tt
  const_eval-Finishes compute h (lit_int _ _) vs = tt
  const_eval-Finishes compute h (lit_float _) vs = tt
  const_eval-Finishes compute h (lit_string _) vs = tt
  const_eval-Finishes compute h (label_property _ _) vs = tt
  const_eval-Finishes compute h (enum_const _ ident) vs =
      >>=-Finishes (expect_def rs ident) _ (expect_def-Finishes rs ident) (λ def. h def vs)

-- The number of definitions that are not being evaluated.
abbrev missing {ℓ} : {A : Type ℓ} → Assoc A → List ℕ → ℕ
missing [] stack = 0
missing ((k, _) ∷ ds) stack = (if member k stack then 0 else 1) + missing ds stack

missing-nil {ℓ} : {A : Type ℓ} (ds : Assoc A) → missing ds [] ≡ length ds
unfolding member
missing-nil [] = refl
missing-nil ((k, _) ∷ ds) = ground (arith, missing-nil ds)

-- One definition's part of the count.
abbrev weight : Bool → ℕ
weight b = if b then 0 else 1

weight-push : (k id : ℕ) (stack : List ℕ) → weight (member k (id ∷ stack)) ≤ weight (member k stack)
unfolding member
weight-push k id stack = ground arith

missing-push {ℓ} :
    {A : Type ℓ} (ds : Assoc A) (id : ℕ) (stack : List ℕ)
    → missing ds (id ∷ stack) ≤ missing ds stack
missing-push [] id stack = omega arith
missing-push ((k, _) ∷ ds) id stack =
    omega (arith, missing-push ds id stack, weight-push k id stack)

missing-push-get {ℓ} :
    {A : Type ℓ} (ds : Assoc A) (id : ℕ) (stack : List ℕ) {a : A}
    → Assoc.get id ds ≡ some a
    → member id stack ≡ false
    → missing ds (id ∷ stack) < missing ds stack
unfolding Assoc.get member
missing-push-get [] id stack h h' = absurd (cc)
missing-push-get ((k, x) ∷ ds) id stack {a = a} h h' = elim (Bool-cases (k == id)) [
  | inl e ↦ ground (arith, missing-push ds id stack)
  | inr e ↦
      ground (arith, missing-push-get ds id stack {a = a} (ground arith) h', weight-push k id stack)
]

module _ (fl : FloatOps) (rs : Resolutions) (ds : Assoc (Expr fl.Float)) where
  open fl use {Float}

  undefined_const-Finishes : (stack : List ℕ) → Finishes (undefined_const fl rs ds stack)
  unfolding undefined_const
  undefined_const-Finishes [] = tt
  undefined_const-Finishes (_ ∷ _) = tt

  compute_definition-Finishes :
      (rec : List ℕ → ℕ → Values fl rs ds → Run (ScalarValue Float × Values fl rs ds))
      → (stack : List ℕ) (id : ℕ) (vs : Values fl rs ds) (o : Option (Expr Float))
      → ((e : Expr Float)
          → o ≡ some e
          → (i : ℕ) (ws : Values fl rs ds) → Finishes (rec (id ∷ stack) i ws))
      → Finishes (compute_definition fl rs ds rec stack id vs o)
  unfolding compute_definition
  compute_definition-Finishes rec stack id vs none h = undefined_const-Finishes stack
  compute_definition-Finishes rec stack id vs (some e) h =
      >>=-Finishes (const_eval fl rs ds (rec (id ∷ stack)) e vs) _
        (const_eval-Finishes fl rs ds (rec (id ∷ stack)) (h e refl) e vs) (λ _. tt)

  unless_cached-Finishes :
      (o : Option (ScalarValue Float)) (b : Bool) (vs : Values fl rs ds)
      (m : Run (ScalarValue Float × Values fl rs ds))
      → (b ≡ false → Finishes m)
      → Finishes (unless_cached fl rs ds o b vs m)
  unfolding unless_cached
  unless_cached-Finishes (some v) b vs m h = tt
  unless_cached-Finishes none true vs m h = tt
  unless_cached-Finishes none false vs m h = h refl

  -- Fuel beyond the number of definitions that are not being evaluated is enough.
  pub get_or_compute-Finishes :
      (fuel : ℕ) (stack : List ℕ) (id : ℕ) (vs : Values fl rs ds)
      → missing ds stack < fuel
      → Finishes (get_or_compute fl rs ds fuel stack id vs)
  unfolding get_or_compute
  get_or_compute-Finishes zero stack id vs h = absurd (omega arith)
  get_or_compute-Finishes (suc fuel) stack id vs h =
      unless_cached-Finishes (Assoc.get id vs) (member id stack) vs _ (λ p.
        compute_definition-Finishes (get_or_compute fl rs ds fuel) stack id vs (Assoc.get id ds)
          (λ e q i ws.
            get_or_compute-Finishes fuel (id ∷ stack) i ws
              (omega (arith, missing-push-get ds id stack q p))))

  evaluate_ids-Finishes :
      (ids : List ℕ) (vs : Values fl rs ds) → Finishes (evaluate_ids fl rs ds ids vs)
  unfolding evaluate_ids
  evaluate_ids-Finishes [] vs = tt
  evaluate_ids-Finishes (id ∷ ids) vs =
      >>=-Finishes (get_or_compute fl rs ds (suc (length ds)) [] id vs) _
        (get_or_compute-Finishes (suc (length ds)) [] id vs (omega (arith, missing-nil ds)))
        (λ (v, vs'). evaluate_ids-Finishes ids vs')

  check_equalities-Finishes :
      (checks : List EqualityCheck) (vs : Values fl rs ds)
      → Finishes (check_equalities fl rs ds checks vs)
  unfolding check_equalities
  check_equalities-Finishes [] vs = tt
  check_equalities-Finishes (check ∷ checks) vs =
      >>=-Finishes (expect (Assoc.get check.id_1 vs)) _ (expect-Finishes _) (λ x.
        >>=-Finishes (expect (Assoc.get check.id_2 vs)) _ (expect-Finishes _) (λ y.
          elim (Bool-cases (values_equal fl rs ds x y)) [
            | inl e ↦ rw e (check_equalities-Finishes checks vs)
            | inr e ↦ rw e tt
          ]))

  -- The deferred evaluations and equality checks always end: whatever the definitions refer to, also to
  -- themselves, the depth of the evaluation stays within the number of definitions.
  pub evaluate_all_deferred-Finishes :
      (consts : Consts Float) → Finishes (evaluate_all_deferred fl rs ds consts)
  unfolding evaluate_all_deferred
  evaluate_all_deferred-Finishes consts =
      >>=-Finishes (evaluate_ids fl rs ds consts.deferred_ids consts.values) _
        (evaluate_ids-Finishes consts.deferred_ids consts.values)
        (λ vs.
          >>=-Finishes (check_equalities fl rs ds consts.deferred_equality_checks vs) _
            (check_equalities-Finishes consts.deferred_equality_checks vs) (λ _. tt))
