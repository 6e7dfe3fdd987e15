-- ===== src/DiffFlags/RoundTrip.antt =====
-- A mask that is printed as a label reads back as the same mask.
use mathlib.Core.List.{append-nil}
use truth.Base.{
  ℕ, ◌-◌, ◌^◌, ◌<◌, ◌≡◌, refl, ◌∙◌, ap, arith, true, false, ◌&&◌, ◌||◌, not, some, List, [], ◌∷◌,
  ◌++◌, ltb, ◌==◌, if◌then◌else◌, ==_iff, Bool-cases, inl, inr,
}
use truth.Base.Digits.{test_bit_mask}
use truth.BitSet.{BitSet32, contains, complement, bitand, is_empty}
use truth.Base.Members.{member}
use truth.BitSet.Membership.{
  contains-eq-test_bit, contains-bitand, bitand-lt, contains-complement, contains_ext,
  contains_large,
}
use truth.DiffFlags.{
  DiffFlagDefs, ok, num_bits, parse_chars, parse_diff_string, difficulty_bits, aux_bits,
  enabled_part, disabled_part, mask_to_diff_label,
}
use truth.DiffFlags.Reading.{
  set_all, AreFlags, contains-set_all, set_all-lt, contains_beyond, complement-lt, names_of-lem,
}
use truth.DiffFlags.Naming.{IsConsistent}

module _ (defs : DiffFlagDefs) (c : IsConsistent defs) where
  -- What holds of a flag set between the two parts of a label.
  abbrev IsHalfway : BitSet32 → BitSet32 → Type 0
  IsHalfway mask out =
      (out < 2 ^ 8)
      × ((j : ℕ)
          → j < 32
          → contains out j ≡ ((contains defs.flag_default_enable j || contains mask j) && ltb j 8))

  module _ (mask : BitSet32) (fits : mask < 2 ^ 8) where
    abbrev default_mask : BitSet32
    default_mask = defs.flag_default_enable

    contains-must_enable :
        (j : ℕ)
        → j < 32
        → contains (bitand mask (difficulty_bits defs)) j
          ≡ (contains mask j && (not (contains default_mask j) && ltb j 8))
    unfolding difficulty_bits
    contains-must_enable j h =
        contains-bitand mask (complement default_mask 8) j h
        ∙ ap (λ b. contains mask j && b)
            (contains-complement default_mask 8 j (omega (arith, c.mask)) (omega arith) h)

    contains-must_disable :
        (j : ℕ)
        → j < 32
        → contains (bitand (complement mask num_bits) (aux_bits defs)) j
          ≡ ((not (contains mask j) && ltb j 8) && contains default_mask j)
    unfolding aux_bits
    contains-must_disable j h =
        contains-bitand (complement mask 8) default_mask j h
        ∙ ap (λ b. b && contains default_mask j)
            (contains-complement mask 8 j (omega arith) (omega arith) h)

    star-IsHalfway :
        bitand mask (difficulty_bits defs) ≡ difficulty_bits defs → IsHalfway mask (2 ^ 8 - 1)
    unfolding difficulty_bits
    star-IsHalfway e = (
      omega arith,
      λ j h. ground (
        arith,
        contains-eq-test_bit (2 ^ 8 - 1) j h,
        test_bit_mask 8 j,
        ap (λ s. contains s j) e,
        contains-must_enable j h,
        contains-complement default_mask 8 j (omega (arith, c.mask)) (omega arith) h,
      ),
    )

    names-IsHalfway :
        (bits : List ℕ)
        → AreFlags bits
        → ((j : ℕ) → j < 32 → member j bits ≡ contains (bitand mask (difficulty_bits defs)) j)
        → IsHalfway mask (set_all default_mask bits true)
    names-IsHalfway bits flags same = (
      set_all-lt default_mask bits true c.mask flags,
      λ j h. ground (
        arith,
        contains-set_all default_mask bits true j flags h,
        same j h,
        contains-must_enable j h,
        contains_beyond default_mask j c.mask h,
        contains_beyond mask j fits h,
      ),
    )

    -- The first part of a label is printed, and reads as a set between the two parts.
    enabled_part-lem :
        (on : List ℕ) × (half : BitSet32) × (enabled_part defs (bitand mask (difficulty_bits defs))
          ≡ some on)
        × IsHalfway mask half
        × ((rest : List ℕ)
            → parse_chars defs.by_name (on ++ rest) default_mask true
              ≡ parse_chars defs.by_name rest half true)
    unfolding enabled_part
    enabled_part-lem =
        let me = bitand mask (difficulty_bits defs) in
        elim (Bool-cases (me == difficulty_bits defs)) [
          | inl all ↦ (
            b'*' ∷ [],
            2 ^ 8 - 1,
            rw all,
            star-IsHalfway ((==_iff _ _).0 all),
            λ rest. unfold parse_chars in refl,
          )
          | inr some_missing ↦
              let (bits, cs, e, flags, same, read) =
                names_of-lem defs c me (bitand-lt 8 mask _ fits) in
              (
                cs,
                set_all default_mask bits true,
                ground (arith, e),
                names-IsHalfway bits flags same,
                λ rest. read rest default_mask true,
              )
        ]

    halfway_complete :
        (half : BitSet32)
        → IsHalfway mask half
        → (j : ℕ) → j < 32
        → (if contains (bitand (complement mask num_bits) (aux_bits defs)) j
            then false
            else contains half j)
          ≡ contains mask j
    halfway_complete half w j h =
        ground (arith, w.1 j h, contains-must_disable j h, contains_beyond mask j fits h)

    -- The second part of a label is printed, and reading it after the first part gives the mask.
    disabled_part-lem :
        (half : BitSet32)
        → IsHalfway mask half
        → (off : List ℕ) × (disabled_part defs (bitand (complement mask num_bits) (aux_bits defs))
            ≡ some off)
          × (parse_chars defs.by_name off half true ≡ ok mask)
    unfolding disabled_part is_empty
    disabled_part-lem half w =
        let md = bitand (complement mask num_bits) (aux_bits defs) in
        elim (Bool-cases (md == 0)) [
          | inl none_left ↦
              let zero_mask : md ≡ 0 = (==_iff md 0).0 none_left in
              let same : half ≡ mask =
                contains_ext half mask (omega (arith, w.0)) (omega arith) (λ j h. ground (
                  arith,
                  halfway_complete half w j h,
                  ap (λ s. contains s j) zero_mask,
                  contains_large 0 0 j,
                )) in
              ([], rw none_left, unfold parse_chars in ap ok same)
          | inr left ↦
              let (bits, cs, e, flags, same, read) =
                names_of-lem defs c md (bitand-lt 8 _ _ (complement-lt mask)) in
              let all : set_all half bits false ≡ mask =
                contains_ext (set_all half bits false) mask
                  (omega (arith, set_all-lt half bits false w.0 flags)) (omega arith)
                  (λ j h. ground (
                    arith,
                    halfway_complete half w j h,
                    contains-set_all half bits false j flags h,
                    same j h,
                  )) in
              (
                b'-' ∷ cs,
                ground (arith, e),
                unfold parse_chars in (rw (← append-nil cs) (read [] half false) ∙ ap ok all),
              )
        ]

  -- Let each of the eight flags show a valid name that leads back to it, and the flags enabled by default
  -- fit eight bits. Then a mask of eight flags is printed as a label, and the label reads back as that
  -- mask.
  pub parse_diff_string-mask_to_diff_label :
      (mask : BitSet32)
      → mask < 2 ^ 8
      → (label : List ℕ) × (mask_to_diff_label defs mask ≡ some label)
        × (parse_diff_string defs label ≡ ok mask)
  unfolding mask_to_diff_label parse_diff_string
  parse_diff_string-mask_to_diff_label mask fits =
      let (on, half, e, w, read) = enabled_part-lem mask fits in
      let (off, f, back) = disabled_part-lem mask fits half w in
      (on ++ off, ground (arith, e, f), read off ∙ back)
