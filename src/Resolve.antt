-- ===== src/Resolve.antt =====
-- src/resolve/mod.rs: the stacks of ribs, which are the scopes of name resolution, and what is recorded
-- of a name. An identifier is a number; the texts and the spans of diagnostics are left out.
pub mod Visible
pub mod Names
pub mod Ids
pub mod Sound
pub mod Fresh
pub mod Types
pub mod Exprs
pub mod Blocks
pub mod Visits
pub mod File
mod Tests
use truth.Base.{
  ℕ, ◌+◌, Bool, true, false, ◌&&◌, ◌||◌, Option, none, some, List, [], ◌∷◌, get_elem?, set, ◌==◌,
  if◌then◌else◌,
}
use truth.Base.Assoc.{Assoc, get, insert}
use truth.Base.Run.{Run, ok, panic, ◌>>=◌}
use truth.Ast.{Resolutions}
use truth.Game.{LanguageKey}

pub data Namespace : Type 0 where
  vars funcs : Namespace

pub data RibKind : Type 0 where
  locals params local_barrier_of_function local_barrier_of_const items : RibKind
  mapfile : LanguageKey → RibKind
  enum_consts builtin_consts dummy_root : RibKind

unfoldable pub language_code : LanguageKey → ℕ
language_code LanguageKey.ecl = 0
language_code LanguageKey.anm = 1
language_code LanguageKey.msg = 2
language_code LanguageKey.end = 3
language_code LanguageKey.std = 4
language_code LanguageKey.timeline = 5
language_code LanguageKey.dummy = 6

-- The equality of `RibKind`s compares these.
unfoldable pub kind_code : RibKind → ℕ
unfolding language_code
kind_code RibKind.locals = 0
kind_code RibKind.params = 1
kind_code RibKind.local_barrier_of_function = 2
kind_code RibKind.local_barrier_of_const = 3
kind_code RibKind.items = 4
kind_code (RibKind.mapfile l) = 8 + language_code l
kind_code RibKind.enum_consts = 5
kind_code RibKind.builtin_consts = 6
kind_code RibKind.dummy_root = 7

unfoldable pub same_kind : RibKind → RibKind → Bool
unfolding kind_code
same_kind a b = kind_code a == kind_code b

unfoldable pub is_local_barrier : RibKind → Bool
is_local_barrier RibKind.local_barrier_of_function = true
is_local_barrier RibKind.local_barrier_of_const = true
is_local_barrier _ = false

unfoldable pub holds_locals : RibKind → Bool
holds_locals RibKind.locals = true
holds_locals RibKind.params = true
holds_locals _ = false

-- The definitions by their identifiers.
pub record Rib : Type 0 where
  pub kind : RibKind
  pub defs : Assoc ℕ

unfoldable pub new_rib : RibKind → Rib
new_rib k = record { kind = k; defs = [] }

-- The stack of each namespace, its top first.
pub record RibStacks : Type 0 where
  pub var_ribs : List Rib
  pub func_ribs : List Rib

unfoldable pub ribs_of : Namespace → RibStacks → List Rib
ribs_of Namespace.vars s = s.var_ribs
ribs_of Namespace.funcs s = s.func_ribs

unfoldable pub with_ribs : Namespace → List Rib → RibStacks → RibStacks
with_ribs Namespace.vars ribs s = record s { var_ribs = ribs }
with_ribs Namespace.funcs ribs s = record s { func_ribs = ribs }

abbrev pub new_stacks : RibStacks
new_stacks = record {
  var_ribs = record { kind = RibKind.dummy_root; defs = [] } ∷ [];
  func_ribs = record { kind = RibKind.dummy_root; defs = [] } ∷ [];
}

unfoldable pub enter_rib : Namespace → Rib → RibStacks → RibStacks
unfolding ribs_of with_ribs
enter_rib ns rib s = with_ribs ns (rib ∷ ribs_of ns s) s

unfoldable pub enter_new_rib : Namespace → RibKind → RibStacks → RibStacks
unfolding enter_rib new_rib
enter_new_rib ns k s = enter_rib ns (new_rib k) s

unfoldable pub popped : RibKind → List Rib → Run (List Rib)
unfolding same_kind
popped k [] = panic
popped k (rib ∷ ribs) = if same_kind rib.kind k then ok ribs else panic

unfoldable pub leave_rib : Namespace → RibKind → RibStacks → Run RibStacks
unfolding ribs_of with_ribs popped
leave_rib ns k s = popped k (ribs_of ns s) >>= (λ ribs. ok (with_ribs ns ribs s))

unfoldable pub is_some {ℓ} : {A : Type ℓ} → Option A → Bool
is_some none = false
is_some (some _) = true

-- `top_rib` and `Rib::insert`: the new stack, and whether this is a redefinition.
unfoldable pub insert_on_top : RibKind → ℕ → ℕ → List Rib → Run (Bool × List Rib)
unfolding same_kind is_some
insert_on_top k ident def [] = panic
insert_on_top k ident def (rib ∷ ribs) =
    if same_kind rib.kind k
    then ok (is_some (get ident rib.defs), record rib { defs = insert ident def rib.defs } ∷ ribs)
    else panic

unfoldable pub is_language : LanguageKey → Option LanguageKey → Bool
unfolding language_code
is_language l none = false
is_language l (some k) = language_code l == language_code k

-- A mapfile's aliases are for its language.
unfoldable pub is_usable : Option LanguageKey → RibKind → Bool
unfolding is_language
is_usable alias_language (RibKind.mapfile l) = is_language l alias_language
is_usable alias_language _ = true

-- The loop of `resolve`; `crossed` tells whether a barrier has been crossed. `none` is an error.
unfoldable pub resolve_in : Option LanguageKey → ℕ → Bool → List Rib → Option ℕ
unfolding is_local_barrier holds_locals is_usable
resolve_in alias_language ident crossed [] = none
resolve_in alias_language ident crossed (rib ∷ ribs) =
    let now = crossed || is_local_barrier rib.kind in
    let rest = resolve_in alias_language ident now ribs in
    elim (get ident rib.defs) [
      | none ↦ rest
      | some def ↦
          if holds_locals rib.kind && now
          then none
          else (if is_usable alias_language rib.kind then some def else rest)
    ]

unfoldable pub resolve : Namespace → Option LanguageKey → ℕ → RibStacks → Option ℕ
unfolding resolve_in ribs_of
resolve ns alias_language ident s = resolve_in alias_language ident false (ribs_of ns s)

-- The place of a `ResId` is free, or the definition resolves to itself again.
unfoldable pub may_record : Option ℕ → ℕ → Bool → Bool
may_record none def is_self_resolution = true
may_record (some d) def is_self_resolution = (d == def) && is_self_resolution

-- `_record_resolution`
unfoldable pub record_as : ℕ → ℕ → Bool → Resolutions → Run Resolutions
unfolding may_record
record_as res def is_self_resolution map = elim (get_elem? map res) [
  | none ↦ panic
  | some dest ↦
      if may_record dest def is_self_resolution then ok (set map res (some def)) else panic
]

unfoldable pub record_resolution : ℕ → ℕ → Resolutions → Run Resolutions
unfolding record_as
record_resolution res def map = record_as res def false map

-- The new definition has the number of its `ResId`.
unfoldable pub record_self_resolution : ℕ → Resolutions → Run Resolutions
unfolding record_as
record_self_resolution res map = record_as res res true map
