-- ===== src/DiffFlags/Tests.antt =====
-- The flags of EoSD-like maps, labels of them, and the theorems at them.
use truth.Base.{ℕ, ◌≡◌, refl, arith, false, some, List, [], ◌∷◌}
use truth.Base.Assoc
use truth.BitSet.{
  set_bit, shr32, low_zeros, trailing_zeros, complement, bitand, next, collect, is_empty,
}
use truth.DiffFlags.{
  DiffFlagDefs, ok, err, unknown_flag, invalid_definition, is_flag_char, define_flag,
  define_flag_from_mapfile, parse_diff_string, mask_to_diff_label,
}
use truth.DiffFlags.Naming.{
  IsNamed, IsConsistent, digit_flags, digit_flags-IsConsistent, define_flag-IsConsistent,
  define_flag-stale_name,
}
use truth.DiffFlags.RoundTrip.{parse_diff_string-mask_to_diff_label}

bad_definition : define_flag_from_mapfile digit_flags 3 (b'E' ∷ b'?' ∷ []) ≡ err invalid_definition
unfolding define_flag_from_mapfile is_flag_char
bad_definition = refl

label_of_mask : mask_to_diff_label digit_flags 0b101 ≡ some (b'0' ∷ b'2' ∷ [])
unfolding mask_to_diff_label complement bitand is_empty collect next trailing_zeros low_zeros shr32
    Assoc.get
label_of_mask = refl

unknown_name : parse_diff_string digit_flags (b'0' ∷ b'E' ∷ []) ≡ err (unknown_flag b'E')
unfolding parse_diff_string is_flag_char set_bit Assoc.get
unknown_name = refl

define_flag-IsConsistent_example :
    (defs : DiffFlagDefs) × (define_flag digit_flags b'E' 0 false ≡ ok defs)
    × IsConsistent defs
    × (Assoc.get 0 defs.by_flag ≡ some b'E')
define_flag-IsConsistent_example =
    define_flag-IsConsistent digit_flags b'E' 0 false digit_flags-IsConsistent (omega arith)
      (unfold is_flag_char in refl) (unfold Assoc.get in λ bit h e. absurd (ground arith))

define_flag-stale_name_example :
    (defs : DiffFlagDefs) × (define_flag digit_flags b'3' 0 false ≡ ok defs)
    × (Assoc.get 3 defs.by_flag ≡ some b'3')
    × (Assoc.get b'3' defs.by_name ≡ some 0)
    × ¬ IsNamed defs 3
define_flag-stale_name_example =
    define_flag-stale_name digit_flags b'3' 0 3 false (omega arith) (unfold is_flag_char in refl)
      (omega arith) (unfold Assoc.get in refl)

parse_diff_string-mask_to_diff_label_example :
    (label : List ℕ) × (mask_to_diff_label digit_flags 0b101 ≡ some label)
    × (parse_diff_string digit_flags label ≡ ok 0b101)
parse_diff_string-mask_to_diff_label_example =
    parse_diff_string-mask_to_diff_label digit_flags digit_flags-IsConsistent 0b101 (omega arith)
