-- ===== src/DiffFlags.antt =====
-- src/context/diff_flags.rs: the names of the eight difficulty flags, the parser of difficulty labels
-- such as "EN-4", and the printer of a mask as a label.
-- A character is its code point; a string is the list of them.
pub mod Naming
pub mod Reading
pub mod RoundTrip
mod Tests
use truth.Base.{
  ℕ, ◌+◌, ◌-◌, ◌*◌, ◌^◌, Bool, true, false, ◌&&◌, ◌||◌, not, Option, none, some, List, [], ◌∷◌,
  ◌++◌, ltb, leb, ◌==◌, if◌then◌else◌,
}
use truth.Base.Assoc
use truth.Base.Assoc.{Assoc}
use truth.BitSet.{BitSet32, empty, set_bit, complement, bitand, is_empty, collect, into_iter}

pub record DiffFlagDefs : Type 0 where
  pub flag_default_enable : BitSet32
  pub by_name : Assoc ℕ
  pub by_flag : Assoc ℕ

-- Why a definition of a flag or a label is refused.
pub data FlagError : Type 0 where
  index_out_of_range invalid_definition : FlagError
  unknown_flag invalid_character : ℕ → FlagError

pub data Outcome {ℓ} (A : Type ℓ) : Type ℓ where
  ok : A → Outcome A
  err : FlagError → Outcome A
  panic : Outcome A

abbrev pub num_bits : ℕ
num_bits = 8

-- `'0'..='9' | 'a'..='z' | 'A'..='Z'`
unfoldable pub is_flag_char : ℕ → Bool
is_flag_char c =
    (leb b'0' c && leb c b'9') || (leb b'a' c && leb c b'z') || (leb b'A' c && leb c b'Z')

-- The bytes of a character in UTF-8, and of a string.
unfoldable pub utf8_len : ℕ → ℕ
utf8_len c = if ltb c 0x80 then 1 else if ltb c 0x800 then 2 else if ltb c 0x10000 then 3 else 4

unfoldable pub str_len : List ℕ → ℕ
unfolding utf8_len
str_len [] = 0
str_len (c ∷ cs) = utf8_len c + str_len cs

-- `str.is_char_boundary(1)`
unfoldable pub is_char_boundary_one : List ℕ → Bool
unfolding utf8_len
is_char_boundary_one [] = false
is_char_boundary_one (c ∷ cs) = utf8_len c == 1

-- `panic` where an assertion fails.
unfoldable pub define_flag : DiffFlagDefs → ℕ → ℕ → Bool → Outcome DiffFlagDefs
define_flag defs name index enable =
    if ltb index num_bits
    then (if is_flag_char name
        then ok (record {
          flag_default_enable = set_bit defs.flag_default_enable index enable;
          by_name = Assoc.insert name index defs.by_name;
          by_flag = Assoc.insert index name defs.by_flag;
        })
        else panic)
    else panic

-- The second character of a definition.
unfoldable pub enable_of : ℕ → Option Bool
enable_of c = if c == b'-' then some false else if c == b'+' then some true else none

unfoldable pub define_flag_chars : DiffFlagDefs → ℕ → List ℕ → Outcome DiffFlagDefs
define_flag_chars defs index (name ∷ sign ∷ _) =
    if is_flag_char name
    then elim (enable_of sign) [
      | none ↦ err invalid_definition
      | some enable ↦ define_flag defs name index enable
    ]
    else err invalid_definition
define_flag_chars defs index _ = panic

-- `index` is the bit pattern of an `i32`.
unfoldable pub define_flag_from_mapfile : DiffFlagDefs → ℕ → List ℕ → Outcome DiffFlagDefs
unfolding str_len is_char_boundary_one define_flag_chars enable_of
define_flag_from_mapfile defs index str =
    if ltb index (2 ^ 31) && ltb index num_bits
    then (if not (str_len str == 2) || not (is_char_boundary_one str)
        then err invalid_definition
        else define_flag_chars defs index str)
    else err index_out_of_range

-- The loop of `Default::default`, from `bit` on.
unfoldable pub define_digits : DiffFlagDefs → ℕ → List ℕ → Outcome DiffFlagDefs
define_digits defs bit [] = ok defs
define_digits defs bit (c ∷ cs) = elim (define_flag defs c bit false) [
  | ok defs' ↦ define_digits defs' (bit + 1) cs
  | err e ↦ err e
  | panic ↦ panic
]

unfoldable pub default : Outcome DiffFlagDefs
unfolding define_digits
default =
    define_digits (record { flag_default_enable = empty; by_name = []; by_flag = [] }) 0
      (b'0' ∷ b'1' ∷ b'2' ∷ b'3' ∷ b'4' ∷ b'5' ∷ b'6' ∷ b'7' ∷ [])

-- The loop of `parse_diff_string`.
unfoldable pub parse_chars : Assoc ℕ → List ℕ → BitSet32 → Bool → Outcome BitSet32
parse_chars by_name [] out enable = ok out
parse_chars by_name (c ∷ cs) out enable =
    let minus = parse_chars by_name cs out false in
    let plus = parse_chars by_name cs out true in
    let star = parse_chars by_name cs (if enable then 2 ^ num_bits - 1 else 0) enable in
    if c == b'-'
    then minus
    else if c == b'+'
    then plus
    else if c == b'*'
    then star
    else if is_flag_char c
    then elim (Assoc.get c by_name) [
      | some index ↦ parse_chars by_name cs (set_bit out index enable) enable
      | none ↦ err (unknown_flag c)
    ]
    else err (invalid_character c)

unfoldable pub parse_diff_string : DiffFlagDefs → List ℕ → Outcome BitSet32
unfolding parse_chars
parse_diff_string defs str = parse_chars defs.by_name str defs.flag_default_enable true

-- The flags that are not enabled by default, and those that are.
unfoldable pub difficulty_bits : DiffFlagDefs → BitSet32
difficulty_bits defs = complement defs.flag_default_enable num_bits

unfoldable pub aux_bits : DiffFlagDefs → BitSet32
aux_bits defs = defs.flag_default_enable

-- `for bit in bits { out.push(self.by_flag[&bit]) }`; `none` is the panic on a missing key.
unfoldable pub push_names : Assoc ℕ → List ℕ → Option (List ℕ)
push_names by_flag [] = some []
push_names by_flag (bit ∷ bits) =
    let rest = push_names by_flag bits in
    elim (Assoc.get bit by_flag) [
      | none ↦ none
      | some c ↦ elim rest [ none ↦ none | some cs ↦ some (c ∷ cs) ]
    ]

unfoldable pub names_of : Assoc ℕ → BitSet32 → Option (List ℕ)
unfolding push_names
names_of by_flag bits = elim (collect 33 (into_iter bits)) [
  | none ↦ none
  | some xs ↦ push_names by_flag xs
]

-- The two parts of a label: what is enabled, and what is disabled after a `-`.
unfoldable pub enabled_part : DiffFlagDefs → BitSet32 → Option (List ℕ)
unfolding names_of
enabled_part defs must_enable =
    if must_enable == difficulty_bits defs
    then some (b'*' ∷ [])
    else names_of defs.by_flag must_enable

unfoldable pub disabled_part : DiffFlagDefs → BitSet32 → Option (List ℕ)
unfolding names_of
disabled_part defs must_disable =
    if is_empty must_disable
    then some []
    else elim (names_of defs.by_flag must_disable) [ none ↦ none | some cs ↦ some (b'-' ∷ cs) ]

unfoldable pub mask_to_diff_label : DiffFlagDefs → BitSet32 → Option (List ℕ)
unfolding enabled_part disabled_part difficulty_bits aux_bits
mask_to_diff_label defs mask =
    let must_enable = bitand mask (difficulty_bits defs) in
    let must_disable = bitand (complement mask num_bits) (aux_bits defs) in
    elim (enabled_part defs must_enable) [
      | none ↦ none
      | some on ↦ elim (disabled_part defs must_disable) [
        | none ↦ none
        | some off ↦ some (on ++ off)
      ]
    ]
