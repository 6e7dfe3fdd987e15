-- ===== src/Resolve/Tests.antt =====
-- Name resolution of `const int x = E.n; void f(int a) { int y = x + a; }`, and of a function in `f` that
-- uses a local of it.
use mathlib.Core.Option.{some-injective}
use truth.Base.{
  ℕ, Bool, true, false, Option, none, some, List, [], ◌∷◌, ◌++◌, get_elem?, ◌≡◌, refl, ◌⊎◌, ◌==◌,
  if◌then◌else◌, arith, ◌+◌, subst, Bool-cases, inl, inr,
}
use truth.Base.Run.{ok, panic}
use truth.Ast.{bin_op, var, enum_const, Var, VarName}
use truth.Ast.Ops.{BinOpKind, TypeKeyword}
use truth.Ast.Stmt.{stmt, StmtKind, Item, func, meta, const_var, no_stmts, and_then}
use truth.Resolve.{Namespace, RibKind, Rib, RibStacks, new_stacks, resolve}
use truth.Resolve.Names.{Context, Visitor, visit_file}
use truth.Resolve.Fresh.{Fresh, Extends}
use truth.Resolve.Ids.{file_ids}
use truth.Resolve.Sound.{AllKnown, no_defs}
use truth.Resolve.Exprs.{IsConsistent, ColorsAreDeclared}
use truth.Resolve.File.{visit_file-Restores}
use truth.Resolve.Visible.{DefinedIn, AnyRib, HoldsNoLocals, resolve-Scoped}

abbrev F : Type 0
F = Unit {0}

-- The names: x 1 5, f 2, a 3 6, y 4 8, g 7; the constant of the enum is 7.
abbrev name : ℕ → ℕ
name n = if n == 5 then 1 else (if n == 6 then 3 else (if n == 8 then 4 else n))

abbrev context : Context
context = record {
  ident_of = name;
  alias_language = λ _. none;
  enum_const_dummy = 0;
  enums = λ e. if e == 0 then some (λ ident. some (ident + 2)) else none;
  unique_enums = λ _. none;
  languages_assigned = true;
  instrs = λ _. none;
  funcs = λ def. if def == 2 then some (some (none ∷ [])) else none;
}

abbrev named : ℕ → Var
named res = record { ty_sigil = none; name = VarName.normal res }

abbrev script : List (Item F)
script =
    const_var TypeKeyword.int ((1, enum_const 0 7) ∷ [])
    ∷ func TypeKeyword.void_keyword 2 ((TypeKeyword.int, some 3) ∷ []) (
        and_then
          (stmt 1 none (
            StmtKind.declaration TypeKeyword.int
              ((named 4, some (bin_op (var (named 5)) BinOpKind.add (var (named 6)))) ∷ [])))
          no_stmts)
    ∷ []

abbrev places : ℕ → List (Option ℕ)
places ℕ.zero = []
places (ℕ.suc n) = none ∷ places n

abbrev start : ℕ → Visitor
start n = record { rib_stacks = new_stacks; errors = false; resolutions = places n }

visit_file_test :
    visit_file context script (start 8)
    ≡ ok (record {
      rib_stacks = new_stacks;
      errors = false;
      resolutions = none ∷ some 1 ∷ some 2 ∷ some 3 ∷ some 4 ∷ some 1 ∷ some 3 ∷ some 9 ∷ [];
    })
unfolding visit_file truth.Resolve.Names.visit_expr truth.Base.Assoc.get truth.Base.Assoc.insert
visit_file_test = refl

-- `void f() { int y; void g() { y; } }`
abbrev outer_local : List (Item F)
outer_local =
    func TypeKeyword.void_keyword 2 [] (
      and_then (stmt 1 none (StmtKind.declaration TypeKeyword.int ((named 4, none) ∷ []))) (
        and_then
          (stmt 2 none (
            StmtKind.item (
              func TypeKeyword.void_keyword 7 []
                (and_then (stmt 3 none (StmtKind.expr (var (named 8)))) no_stmts))))
          no_stmts))
    ∷ []

outer_local_test :
    visit_file context outer_local (start 9)
    ≡ ok (record {
      rib_stacks = new_stacks;
      errors = true;
      resolutions = none ∷ none ∷ some 2 ∷ none ∷ some 4 ∷ none ∷ none ∷ some 7 ∷ none ∷ [];
    })
unfolding visit_file truth.Resolve.Names.visit_expr truth.Base.Assoc.get truth.Base.Assoc.insert
outer_local_test = refl

-- `n` alone, where the ribs have the definition that stands for enum constants: that of its only enum, and
-- a panic where no enum has the name.
abbrev with_dummy : ℕ → Visitor
with_dummy ident = record {
  rib_stacks = record {
    var_ribs = record { kind = RibKind.enum_consts; defs = (ident, 0) ∷ [] } ∷ [];
    func_ribs = [];
  };
  errors = false;
  resolutions = places 8;
}

abbrev one_enum : Context
one_enum = record context { unique_enums = λ ident. if ident == 7 then some (some 0) else none }

unqualified_test :
    visit_file one_enum {F = F} (meta (var (named 7) ∷ []) ∷ []) (with_dummy 7)
    ≡ ok (record (with_dummy 7) {
      resolutions = none ∷ none ∷ none ∷ none ∷ none ∷ none ∷ none ∷ some 9 ∷ [];
    })
unfolding visit_file truth.Resolve.Names.visit_expr truth.Base.Assoc.get
unqualified_test = refl

not_an_enum_const_test :
    visit_file context {F = F} (meta (var (named 7) ∷ []) ∷ []) (with_dummy 7) ≡ panic
unfolding visit_file truth.Resolve.Names.visit_expr truth.Base.Assoc.get
not_an_enum_const_test = refl

-- An enum that is not declared.
undeclared_enum_test :
    visit_file context {F = F} (meta (enum_const 1 7 ∷ []) ∷ []) (start 8) ≡ panic
unfolding visit_file truth.Resolve.Names.visit_expr
undeclared_enum_test = refl

context-IsConsistent : IsConsistent context
context-IsConsistent = record {
  assigned = refl;
  unique = λ ident e h. absurd cc;
  instr_colors = λ opcode. tt;
  func_colors = λ def c h. elim (Bool-cases (def == 2)) [
    | inl e ↦ subst (ColorsAreDeclared context) (some-injective _ _ (rw e at h)) (tt, tt)
    | inr e ↦ absurd (let bad = rw e at h in cc)
  ];
}

script-Fresh : Fresh context (places 8) (file_ids script)
unfolding file_ids
script-Fresh = (
  (refl, λ e. omega arith),
  (
    (
      tt,
      (
        (λ e. omega arith),
        (
          tt,
          (
            (λ e. omega arith),
            (
              (λ e. omega arith),
              ((λ e. omega arith), ((λ e. omega arith), ((λ e. omega arith), tt))),
            ),
          ),
        ),
      ),
    ),
    (
      (_, refl),
      (
        (refl, λ e. omega arith),
        (
          (
            tt,
            (
              (λ e. omega arith),
              (
                (λ e. omega arith),
                ((λ e. omega arith), ((λ e. omega arith), ((λ e. omega arith), tt))),
              ),
            ),
          ),
          (
            (_, refl),
            (
              (refl, λ e. omega arith),
              (
                (
                  (λ e. omega arith),
                  ((λ e. omega arith), ((λ e. omega arith), ((λ e. omega arith), tt))),
                ),
                (
                  (refl, λ e. omega arith),
                  (
                    ((λ e. omega arith), ((λ e. omega arith), ((λ e. omega arith), tt))),
                    (
                      (refl, λ e. omega arith),
                      (
                        ((λ e. omega arith), ((λ e. omega arith), tt)),
                        (
                          (refl, λ e. omega arith),
                          (((λ e. omega arith), tt), ((refl, λ e. omega arith), (tt, tt))),
                        ),
                      ),
                    ),
                  ),
                ),
              ),
            ),
          ),
        ),
      ),
    ),
  ),
)

no_ribs : (P : ℕ → ℕ → Type 0) → AllKnown P (record { kind = RibKind.dummy_root; defs = [] } ∷ [])
no_ribs P = (no_defs P, tt)

visit_file-Restores_example :
    (w : Visitor) × ((visit_file context script (start 8) ≡ ok w)
      × ((w.rib_stacks ≡ new_stacks)
          × ((false ≡ true → w.errors ≡ true) × Extends (places 8) w.resolutions)))
visit_file-Restores_example =
    visit_file-Restores context context-IsConsistent script (start 8) script-Fresh
      (no_ribs _, no_ribs _)

-- Inside a function whose caller has a local, beside a `const`.
abbrev inside : RibStacks
inside = record {
  var_ribs =
      record { kind = RibKind.local_barrier_of_function; defs = [] }
      ∷ record { kind = RibKind.locals; defs = (4, 9) ∷ [] }
      ∷ record { kind = RibKind.items; defs = (1, 1) ∷ [] }
      ∷ [];
  func_ribs = [];
}

inside_test : resolve Namespace.vars none 4 inside ≡ none
unfolding resolve truth.Base.Assoc.get
inside_test = refl

const_found : resolve Namespace.vars none 1 inside ≡ some 1
unfolding resolve truth.Base.Assoc.get
const_found = refl

inside_ribs : truth.Resolve.ribs_of Namespace.vars inside ≡ [] ++ inside.var_ribs
unfolding truth.Resolve.ribs_of
inside_ribs = refl

barrier_is_one : truth.Resolve.is_local_barrier RibKind.local_barrier_of_function ≡ true
unfolding truth.Resolve.is_local_barrier
barrier_is_one = refl

resolve-Scoped_example : DefinedIn AnyRib 1 1 [] ⊎ DefinedIn HoldsNoLocals 1 1 inside.var_ribs
resolve-Scoped_example =
    resolve-Scoped Namespace.vars none 1 1 inside []
      (record { kind = RibKind.locals; defs = (4, 9) ∷ [] }
        ∷ record { kind = RibKind.items; defs = (1, 1) ∷ [] }
        ∷ [])
      (record { kind = RibKind.local_barrier_of_function; defs = [] }) inside_ribs barrier_is_one
      const_found
