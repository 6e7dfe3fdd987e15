-- ===== src/DiffFlags/Reading.antt =====
-- What the printed names of a set of flags read as.
use truth.Base.{
  ℕ, ◌^◌, ◌<◌, ◌≡◌, refl, sym, ◌∙◌, arith, Bool, true, ◌&&◌, some, List, [], ◌∷◌, ◌++◌, All, ltb,
  if◌then◌else◌, ltb→lt, Bool-cases, inl, inr,
}
use truth.Base.Digits.{bit_and-lt_right}
use truth.BitSet.{BitSet32, set_bit, contains, complement, with_upper_bound}
use truth.Base.Members.{member, All-member}
use truth.BitSet.Membership.{contains-set_bit, set_bit-lt, contains_large}
use truth.BitSet.Iteration.{collect-into_iter}
use truth.DiffFlags.{DiffFlagDefs, num_bits, is_flag_char, parse_chars, push_names, names_of}
use truth.DiffFlags.Naming.{IsNamed, IsConsistent}

-- Setting or clearing every flag of a list.
pub set_all : BitSet32 → List ℕ → Bool → BitSet32
set_all s [] enable = s
set_all s (bit ∷ bits) enable = set_all (set_bit s bit enable) bits enable

abbrev pub AreFlags : List ℕ → Type 0
AreFlags = All (λ bit. bit < num_bits)

pub contains-set_all :
    (s : BitSet32) (bits : List ℕ) (enable : Bool) (j : ℕ)
    → AreFlags bits
    → j < 32
    → contains (set_all s bits enable) j ≡ (if member j bits then enable else contains s j)
unfolding set_all member
contains-set_all s [] enable j h p = refl
contains-set_all s (bit ∷ bits) enable j h p = ground (
  arith,
  contains-set_all (set_bit s bit enable) bits enable j h.1 p,
  contains-set_bit s bit j enable (omega arith) p,
)

pub set_all-lt :
    (s : BitSet32) (bits : List ℕ) (enable : Bool)
    → s < 2 ^ 8
    → AreFlags bits
    → set_all s bits enable < 2 ^ 8
unfolding set_all
set_all-lt s [] enable p h = p
set_all-lt s (bit ∷ bits) enable p h =
    set_all-lt (set_bit s bit enable) bits enable (set_bit-lt 8 s bit enable (omega arith) p h.0)
      h.1

flag_below : (s x : ℕ) → s < 2 ^ 8 → x < 32 → contains s x ≡ true → x < num_bits
flag_below s x p q r = elim (Bool-cases (ltb x 8)) [
  | inl h ↦ ltb→lt x 8 h
  | inr h ↦ cc (contains_large s 8 x p (ground arith) q)
]

pub complement-lt : (mask : BitSet32) → complement mask num_bits < 2 ^ 8
unfolding complement with_upper_bound
complement-lt mask = bit_and-lt_right 8 _ 255 (omega arith)

-- A member of a set of flags is a flag.
pub contains_beyond : (s j : ℕ) → s < 2 ^ 8 → j < 32 → contains s j ≡ (contains s j && ltb j 8)
contains_beyond s j p q = elim (Bool-cases (ltb j 8)) [
  | inl h ↦ ground arith
  | inr h ↦ ground (arith, contains_large s 8 j p)
]

module _ (defs : DiffFlagDefs) (c : IsConsistent defs) where
  -- The name of a flag, when it is read, sets or clears that flag.
  parse-name :
      (bit : ℕ) (n : IsNamed defs bit) (cs : List ℕ) (out : BitSet32) (enable : Bool)
      → parse_chars defs.by_name (n.name ∷ cs) out enable
        ≡ parse_chars defs.by_name cs (set_bit out bit enable) enable
  unfolding parse_chars is_flag_char
  parse-name bit n cs out enable = ground (arith, n.read, n.valid)

  -- The names of a list of flags are found, and reading them sets or clears those flags.
  parse-push_names :
      (bits : List ℕ)
      → AreFlags bits
      → (cs : List ℕ) × (push_names defs.by_flag bits ≡ some cs)
        × ((rest : List ℕ) (out : BitSet32) (enable : Bool)
            → parse_chars defs.by_name (cs ++ rest) out enable
              ≡ parse_chars defs.by_name rest (set_all out bits enable) enable)
  unfolding push_names set_all
  parse-push_names [] h = ([], refl, λ rest out enable. refl)
  parse-push_names (bit ∷ bits) h =
      let n = c.named bit h.0 in
      let (cs, e, ih) = parse-push_names bits h.1 in
      (
        n.name ∷ cs,
        ground (arith, n.shown),
        λ rest out enable.
            parse-name bit n (cs ++ rest) out enable ∙ ih rest (set_bit out bit enable) enable,
      )

  -- What the names of a set of flags read as.
  pub names_of-lem :
      (s : BitSet32)
      → s < 2 ^ 8
      → (bits cs : List ℕ) × (names_of defs.by_flag s ≡ some cs)
        × AreFlags bits
        × ((j : ℕ) → j < 32 → member j bits ≡ contains s j)
        × ((rest : List ℕ) (out : BitSet32) (enable : Bool)
            → parse_chars defs.by_name (cs ++ rest) out enable
              ≡ parse_chars defs.by_name rest (set_all out bits enable) enable)
  unfolding names_of
  names_of-lem s h =
      let (bits, e, _, small, _, same) = collect-into_iter s (omega arith) (omega arith) in
      let flags : AreFlags bits =
        All-member (λ bit. bit < num_bits) 32 bits
          (λ x p q. flag_below s x h p (sym (same x p) ∙ q)) small in
      let (cs, f, g) = parse-push_names bits flags in
      (bits, cs, ground (arith, e, f), flags, same, g)
