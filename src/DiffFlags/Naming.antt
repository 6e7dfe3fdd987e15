-- ===== src/DiffFlags/Naming.antt =====
-- When the names of the flags are consistent, and which definitions keep them so.
use native.Mathlib.Decide.{ℕ_discrete}
use truth.Base.{
  ℕ, ◌+◌, ◌^◌, ◌<◌, ◌≡◌, ◌≢◌, refl, sym, subst, arith, Bool, true, some, [], ◌∷◌, lt→ltb,
}
use truth.Base.Assoc
use truth.Base.Assoc.{Assoc, get-insert}
use truth.BitSet.{set_bit}
use truth.BitSet.Membership.{set_bit-lt}
use truth.DiffFlags.{DiffFlagDefs, ok, num_bits, is_flag_char, define_flag, default}

-- Flag `bit` has a name, a valid character that names this flag.
pub record IsNamed (defs : DiffFlagDefs) (bit : ℕ) : Type 0 where
  pub name : ℕ
  pub shown : Assoc.get bit defs.by_flag ≡ some name
  pub read : Assoc.get name defs.by_name ≡ some bit
  pub valid : is_flag_char name ≡ true

-- Every flag is named, and the flags enabled by default fit eight bits.
pub record IsConsistent (defs : DiffFlagDefs) : Type 0 where
  pub named : (bit : ℕ) → bit < num_bits → IsNamed defs bit
  pub mask : defs.flag_default_enable < 2 ^ 8

stale :
    (bit index name name' : ℕ) (by_flag by_name : Assoc ℕ)
    → Assoc.get bit by_flag ≡ some name
    → Assoc.get bit by_flag ≡ some name'
    → Assoc.get name by_name ≡ some index
    → Assoc.get name' by_name ≡ some bit
    → bit ≡ index
stale bit index name name' f g a b c d = cc

module _ (defs : DiffFlagDefs) (name index : ℕ) (enable : Bool) (fits : index < num_bits)
    (valid : is_flag_char name ≡ true) where
  abbrev defined : DiffFlagDefs
  defined = record {
    flag_default_enable = set_bit defs.flag_default_enable index enable;
    by_name = Assoc.insert name index defs.by_name;
    by_flag = Assoc.insert index name defs.by_flag;
  }

  define_flag-ok : define_flag defs name index enable ≡ ok defined
  unfolding define_flag
  define_flag-ok = rw (lt→ltb index 8 fits, valid)

  defined-IsNamed_self : IsNamed defined index
  defined-IsNamed_self = record {
    name = name;
    shown = ground (arith, get-insert index index name defs.by_flag);
    read = ground (arith, get-insert name name index defs.by_name);
    valid = valid;
  }

  defined-IsNamed_other :
      (bit : ℕ) → bit ≢ index → (n : IsNamed defs bit) → n.name ≢ name → IsNamed defined bit
  defined-IsNamed_other bit ne n other = record {
    name = n.name;
    shown = ground (arith, get-insert index bit name defs.by_flag, n.shown);
    read = ground (arith, get-insert name n.name index defs.by_name, n.read);
    valid = n.valid;
  }

-- A definition of a valid name succeeds. If no other flag shows that name, the flags stay consistent.
pub define_flag-IsConsistent :
    (defs : DiffFlagDefs) (name index : ℕ) (enable : Bool)
    → IsConsistent defs
    → index < num_bits
    → is_flag_char name ≡ true
    → ((bit : ℕ) → bit < num_bits → Assoc.get bit defs.by_flag ≡ some name → bit ≡ index)
    → (defs' : DiffFlagDefs) × (define_flag defs name index enable ≡ ok defs')
      × IsConsistent defs'
      × (Assoc.get index defs'.by_flag ≡ some name)
unfolding defined-IsNamed_self
define_flag-IsConsistent defs name index enable c fits valid fresh = (
  defined defs name index enable fits valid,
  define_flag-ok defs name index enable fits valid,
  record {
    named = λ bit h. elim (ℕ_discrete bit index) [
      | yes e ↦
          subst (IsNamed (defined defs name index enable fits valid)) (sym e)
            (defined-IsNamed_self defs name index enable fits valid)
      | no ne ↦
          let n = c.named bit h in
          defined-IsNamed_other defs name index enable fits valid bit ne n
            (λ same. ne (fresh bit h (rw same at n.shown)))
    ];
    mask = set_bit-lt 8 defs.flag_default_enable index enable (omega arith) c.mask fits;
  },
  (defined-IsNamed_self defs name index enable fits valid).shown,
)

-- Giving a flag the name that another flag shows leaves that other flag with a name that no longer
-- reads as it.
pub define_flag-stale_name :
    (defs : DiffFlagDefs) (name index bit : ℕ) (enable : Bool)
    → index < num_bits
    → is_flag_char name ≡ true
    → bit ≢ index
    → Assoc.get bit defs.by_flag ≡ some name
    → (defs' : DiffFlagDefs) × (define_flag defs name index enable ≡ ok defs')
      × (Assoc.get bit defs'.by_flag ≡ some name)
      × (Assoc.get name defs'.by_name ≡ some index)
      × ¬ IsNamed defs' bit
define_flag-stale_name defs name index bit enable fits valid ne shown =
    let shown' : Assoc.get bit (Assoc.insert index name defs.by_flag) ≡ some name =
      ground (arith, get-insert index bit name defs.by_flag) in
    let read' : Assoc.get name (Assoc.insert name index defs.by_name) ≡ some index =
      ground (arith, get-insert name name index defs.by_name) in
    (
      defined defs name index enable fits valid,
      define_flag-ok defs name index enable fits valid,
      shown',
      read',
      λ n. ne (stale bit index name n.name _ _ shown' n.shown read' n.read),
    )

abbrev pub digit_flags : DiffFlagDefs
digit_flags = record {
  flag_default_enable = 0;
  by_name = (48, 0) ∷ (49, 1) ∷ (50, 2) ∷ (51, 3) ∷ (52, 4) ∷ (53, 5) ∷ (54, 6) ∷ (55, 7) ∷ [];
  by_flag = (0, 48) ∷ (1, 49) ∷ (2, 50) ∷ (3, 51) ∷ (4, 52) ∷ (5, 53) ∷ (6, 54) ∷ (7, 55) ∷ [];
}

default-digit_flags : default ≡ ok digit_flags
unfolding default define_flag Assoc.insert set_bit is_flag_char
default-digit_flags = refl

pub digit_flags-IsConsistent : IsConsistent digit_flags
unfolding Assoc.get is_flag_char
digit_flags-IsConsistent = record {
  named = λ bit h. record {
    name = bit + 48;
    shown = ground arith;
    read = ground arith;
    valid = ground arith;
  };
  mask = omega arith;
}
