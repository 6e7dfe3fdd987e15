-- ===== src/Resolve/Fresh.antt =====
-- src/resolve/mod.rs: what a step of the visitor needs of the `ResId`s that it records, and what it leaves.
use truth.Base.{
  ℕ, Bool, true, false, ◌||◌, Option, none, some, List, [], ◌∷◌, ◌++◌, get_elem?, set, All,
  get_elem?-set_ne, ◌≡◌, refl, ap, subst, ◌∙◌, arith,
}
use truth.Base.Run.{Run, ok, ◌>>=◌}
use truth.Ast.{Resolutions}
use truth.Resolve.{
  Namespace, RibKind, Rib, RibStacks, ribs_of, with_ribs, insert_on_top, record_as,
  record_resolution, record_self_resolution,
}
use truth.Resolve.Names.{
  Visitor, Context, Colors, set_error, recorded, define, add_to_rib_with_redefinition_check,
}
use truth.Resolve.Ids.{Ids, Need, place, declared, function, never}
use truth.Resolve.Sound.{IsKnown, IsSound, define-IsSound}

abbrev pub Differs : ℕ → Need → Type 0
Differs i (place j) = i ≡ j → ⊥
Differs i _ = Unit

abbrev pub IsDeclared : Context → ℕ → Type 0
IsDeclared ctx e = (consts : ℕ → Option ℕ) × (ctx.enums e ≡ some consts)

abbrev pub IsFunction : Context → ℕ → Type 0
IsFunction ctx def = (c : Option Colors) × (ctx.funcs def ≡ some c)

-- The `ResId`s have places, which are free, no two are the same, and none is the one that stands for enum
-- constants; the enums are declared and the functions are known.
abbrev pub Fresh : Context → Resolutions → Ids → Type 0
Fresh ctx map [] = Unit
Fresh ctx map (never ∷ ids) = ⊥
Fresh ctx map (declared e ∷ ids) = IsDeclared ctx e × Fresh ctx map ids
Fresh ctx map (function def ∷ ids) = IsFunction ctx def × Fresh ctx map ids
Fresh ctx map (place i ∷ ids) =
    ((get_elem? map i ≡ some none) × (i ≡ ctx.enum_const_dummy → ⊥))
    × (All (Differs i) ids × Fresh ctx map ids)

Fresh-drop :
    (ctx : Context) (map : Resolutions) (ids more : Ids)
    → Fresh ctx map (ids ++ more)
    → Fresh ctx map more
Fresh-drop ctx map [] more h = h
Fresh-drop ctx map (never ∷ ids) more h = absurd h
Fresh-drop ctx map (declared _ ∷ ids) more h = Fresh-drop ctx map ids more h.1
Fresh-drop ctx map (function _ ∷ ids) more h = Fresh-drop ctx map ids more h.1
Fresh-drop ctx map (place i ∷ ids) more h = Fresh-drop ctx map ids more h.1.1

Fresh-set :
    (ctx : Context) (map : Resolutions) (i : ℕ) (x : Option ℕ) (ids : Ids)
    → All (Differs i) ids
    → Fresh ctx map ids
    → Fresh ctx (set map i x) ids
Fresh-set ctx map i x [] d h = tt
Fresh-set ctx map i x (never ∷ ids) d h = h
Fresh-set ctx map i x (declared e ∷ ids) d h = (h.0, Fresh-set ctx map i x ids d.1 h.1)
Fresh-set ctx map i x (function e ∷ ids) d h = (h.0, Fresh-set ctx map i x ids d.1 h.1)
Fresh-set ctx map i x (place j ∷ ids) d h =
    ((get_elem?-set_ne map x d.0 ∙ h.0.0, h.0.1), (h.1.0, Fresh-set ctx map i x ids d.1 h.1.1))

-- What the tree needs is there, and all definitions in the ribs are known.
abbrev pub Ready : Context → Visitor → Ids → Type 0
Ready ctx v ids = Fresh ctx v.resolutions ids × IsSound ctx v.rib_stacks

-- No definition is lost or replaced.
abbrev pub Extends : Resolutions → Resolutions → Type 0
Extends map later =
    (i def : ℕ) → get_elem? map i ≡ some (some def) → get_elem? later i ≡ some (some def)

Extends-set :
    (map : Resolutions) (i : ℕ) (x : Option ℕ)
    → get_elem? map i ≡ some none
    → Extends map (set map i x)
Extends-set map i x free j def e = get_elem?-set_ne map x (λ same. cc) ∙ e

-- Errors stay reported, and resolutions stay.
abbrev pub Grows : Visitor → Visitor → Type 0
Grows v w = (v.errors ≡ true → w.errors ≡ true) × Extends v.resolutions w.resolutions

Grows-refl : (v : Visitor) → Grows v v
Grows-refl v = (λ e. e, λ i def e. e)

pub Grows-trans : (u v w : Visitor) → Grows u v → Grows v w → Grows u w
Grows-trans u v w g h = (λ e. h.0 (g.0 e), λ i def e. h.1 i def (g.1 i def e))

-- From a visitor whose stacks are as `S` says and that is ready for `ids` and `more`, `f` gives one with
-- stacks as `T` says that is ready for `more`.
abbrev pub Result : Context → (RibStacks → Type 0) → Ids → Visitor → Run Visitor → Type 0
Result ctx T more v m =
    (w : Visitor) × ((m ≡ ok w) × (T w.rib_stacks × (Grows v w × Ready ctx w more)))

abbrev pub Step :
    Context → (RibStacks → Type 0) → (RibStacks → Type 0) → Ids → (Visitor → Run Visitor) → Type 0
Step ctx S T ids f =
    (v : Visitor) (more : Ids)
    → S v.rib_stacks
    → Ready ctx v (ids ++ more)
    → Result ctx T more v (f v)

pub Step-none : (ctx : Context) (S : RibStacks → Type 0) (ids : Ids) → Step ctx S S ids (λ v. ok v)
Step-none ctx S ids v more s h =
    (v, (refl, (s, (Grows-refl v, (Fresh-drop ctx v.resolutions ids more h.0, h.1)))))

-- A change of the stacks and the errors alone.
pub Step-stacks :
    (ctx : Context) (T : RibStacks → Type 0) (ids : Ids) (v : Visitor) (s : RibStacks)
    (errors : Bool) (more : Ids)
    → (v.errors ≡ true → errors ≡ true)
    → T s
    → IsSound ctx s
    → Fresh ctx v.resolutions (ids ++ more)
    → Result ctx T more v (ok (record v { rib_stacks = s; errors = errors }))
Step-stacks ctx T ids v s errors more e t sound h = (
  record v { rib_stacks = s; errors = errors },
  (refl, (t, ((e, λ i def x. x), (Fresh-drop ctx v.resolutions ids more h, sound)))),
)

join_assoc : (xs ys zs : Ids) → (xs ++ ys) ++ zs ≡ xs ++ (ys ++ zs)
join_assoc [] ys zs = refl
join_assoc (x ∷ xs) ys zs = ap (λ l. x ∷ l) (join_assoc xs ys zs)

-- One step after another.
pub Step-then :
    (ctx : Context) (S T U : RibStacks → Type 0) (a b : Ids) (f g : Visitor → Run Visitor)
    → Step ctx S T a f
    → Step ctx T U b g
    → Step ctx S U (a ++ b) (λ v. f v >>= g)
Step-then ctx S T U a b f g p q v more s h =
    let one = p v (b ++ more) s (subst (Ready ctx v) (join_assoc a b more) h) in
    let two = q one.0 more one.1.1.0 one.1.1.1.1 in
    (
      two.0,
      (
        ap (λ m. m >>= g) one.1.0 ∙ two.1.0,
        (two.1.1.0, (Grows-trans v one.0 two.0 one.1.1.1.0 two.1.1.1.0, two.1.1.1.1)),
      ),
    )

-- A step that records nothing, after another.
pub Step-plain :
    (ctx : Context) (S T U : RibStacks → Type 0) (a : Ids) (f g : Visitor → Run Visitor)
    → Step ctx S T a f
    → Step ctx T U [] g
    → Step ctx S U a (λ v. f v >>= g)
Step-plain ctx S T U a f g p q v more s h =
    let one = p v more s h in
    let two = q one.0 more one.1.1.0 one.1.1.1.1 in
    (
      two.0,
      (
        ap (λ m. m >>= g) one.1.0 ∙ two.1.0,
        (two.1.1.0, (Grows-trans v one.0 two.0 one.1.1.1.0 two.1.1.1.0, two.1.1.1.1)),
      ),
    )

record_as-free :
    (res def : ℕ) (self : Bool) (map : Resolutions)
    → get_elem? map res ≡ some none
    → record_as res def self map ≡ ok (set map res (some def))
unfolding record_as
record_as-free res def self map e = rw (record_as, e) refl

-- What is left when a free place has been recorded.
pub set-Ready :
    (ctx : Context) (v : Visitor) (res def : ℕ) (more : Ids)
    → Ready ctx v (place res ∷ more)
    → Extends v.resolutions (set v.resolutions res (some def))
      × Fresh ctx (set v.resolutions res (some def)) more
set-Ready ctx v res def more h = (
  Extends-set v.resolutions res (some def) h.0.0.0,
  Fresh-set ctx v.resolutions res (some def) more h.0.1.0 h.0.1.1,
)

pub recorded-free :
    (res def : ℕ) (v : Visitor)
    → get_elem? v.resolutions res ≡ some none
    → recorded res def v ≡ ok (record v { resolutions = set v.resolutions res (some def) })
unfolding recorded record_resolution
recorded-free res def v e =
    ap (λ m. m >>= (λ map. ok (record v { resolutions = map })))
      (record_as-free res def false v.resolutions e)

pub recorded-Step :
    (ctx : Context) (S : RibStacks → Type 0) (res def : ℕ)
    → Step ctx S S (place res ∷ []) (recorded res def)
recorded-Step ctx S res def v more s h =
    let made = set-Ready ctx v res def more h in
    (
      record v { resolutions = set v.resolutions res (some def) },
      (recorded-free res def v h.0.0.0, (s, ((λ e. e, made.0), (made.1, h.1)))),
    )

pub set_error-Step :
    (ctx : Context) (S : RibStacks → Type 0) (ids : Ids) → Step ctx S S ids (λ v. ok (set_error v))
unfolding set_error
set_error-Step ctx S ids v more s h =
    Step-stacks ctx S ids v v.rib_stacks true more (λ e. refl) s h.1 h.0

-- A name can be added to the top rib, which is of the kind `k`.
abbrev pub Opens : Namespace → RibKind → (RibStacks → Type 0) → Type 0
Opens ns k S =
    (ident def : ℕ) (s : RibStacks)
    → S s
    → (r : Bool × List Rib) × ((insert_on_top k ident def (ribs_of ns s) ≡ ok r)
        × S (with_ribs ns r.1 s))

module _ (ctx : Context) (S : RibStacks → Type 0) (k : RibKind) (res : ℕ) where
  -- A definition that is known is added.
  define-Step :
      (ns : Namespace) (v : Visitor) (more : Ids)
      → Opens ns k S
      → S v.rib_stacks
      → IsKnown ctx ns (ctx.ident_of res) res
      → Ready ctx v (place res ∷ more)
      → Result ctx S more v (define ctx ns k res v)
  unfolding define add_to_rib_with_redefinition_check record_self_resolution
  define-Step ns v more opens s known h =
      let put = opens (ctx.ident_of res) res v.rib_stacks s in
      let made = set-Ready ctx v res res more h in
      (
        record v {
          rib_stacks = with_ribs ns put.0.1 v.rib_stacks;
          resolutions = set v.resolutions res (some res);
          errors = v.errors || put.0.0;
        },
        (
          rw (record_as-free res res true v.resolutions h.0.0.0, put.1.0) refl,
          (
            put.1.1,
            (
              (λ e. ground arith, made.0),
              (
                made.1,
                define-IsSound ctx ns k (ctx.ident_of res) res v.rib_stacks put.0 known h.1 put.1.0,
              ),
            ),
          ),
        ),
      )

  pub define_var-Step :
      Opens Namespace.vars k S → Step ctx S S (place res ∷ []) (define ctx Namespace.vars k res)
  define_var-Step opens v more s h =
      define-Step Namespace.vars v more opens s (λ e. absurd (h.0.0.1 e)) h

  pub define_func-Step :
      Opens Namespace.funcs k S
      → Step ctx S S (function res ∷ place res ∷ []) (define ctx Namespace.funcs k res)
  define_func-Step opens v more s h = define-Step Namespace.funcs v more opens s h.0.0 (h.0.1, h.1)
