-- ===== src/Raise/RoundTrip.antt =====
-- The arguments of an encoded instruction are decoded again.
use truth.Base.{
  ℕ, ◌≡◌, refl, sym, subst, arith, true, Option, none, List, [], ◌∷◌, ◌++◌, Bool-cases, inl, inr,
  All,
}
use truth.Base.Run.{ok, ◌>>=◌, Ensures, Ensures-bind, Ensures-both, Ensures-weaken, Ensures-self}
use truth.Value.{ScalarValue}
use truth.Io.{Encoded}
use truth.Abi.{ArgEncoding, is_padding, is_block}
use truth.Abi.Shape.{Followed, EndsBlock, IsPadding}
use truth.Lower.{SimpleArg, immediate, Language, LowerArg}
use truth.Lower.Encode.{ArgEncodingState, encode_simple, encode_each, encode_missing}
use truth.Raise.{decode_is_reg, decode_each}
use truth.Raise.Scalars.{KeepsFloats, FitsValue, DecodesTo, encode_simple-DecodesTo}
use truth.Raise.Masks.{raw_args, reg_mask, reg_mask_bit}

module _ {F : Type 0} where
  -- The arguments fit their encodings; only padding can be left without an argument.
  unfoldable pub FitsArgs : Language F → List (SimpleArg F) → List ArgEncoding → Type 0
  FitsArgs lang [] encodings = All IsPadding encodings
  FitsArgs lang (a ∷ args) [] = ⊥
  FitsArgs lang (a ∷ args) (e ∷ encodings) = FitsValue lang e a.value × FitsArgs lang args encodings

  -- The arguments, and zeros for the padding that has none.
  unfoldable pub with_padding : List (SimpleArg F) → List ArgEncoding → List (SimpleArg F)
  unfolding immediate
  with_padding [] [] = []
  with_padding [] (e ∷ encodings) = immediate (ScalarValue.int 0) ∷ with_padding [] encodings
  with_padding (a ∷ args) [] = a ∷ args
  with_padding (a ∷ args) (e ∷ encodings) = a ∷ with_padding args encodings

module _ {F : Type 0} (lang : Language F) (keeps : KeepsFloats lang)
    (by_mask : lang.value_is_reg ≡ none) where
  abbrev pub Reads : List ArgEncoding → Option ℕ → List (SimpleArg F) → Encoded → Type 0
  Reads encodings arg0 args bytes =
      decode_each lang encodings (record { mask = reg_mask args; blob = bytes; arg0 = arg0 })
      ≡ ok (with_padding args encodings, record { mask = 0; blob = []; arg0 = arg0 })

  padding_encoding : (e : ArgEncoding) → IsPadding e → e ≡ ArgEncoding.padding
  unfolding is_padding
  padding_encoding ArgEncoding.padding h = refl
  padding_encoding (ArgEncoding.integer _ _ _) h = absurd (ground arith)
  padding_encoding ArgEncoding.jump_offset h = absurd (ground arith)
  padding_encoding ArgEncoding.jump_time h = absurd (ground arith)
  padding_encoding ArgEncoding.color h = absurd (ground arith)
  padding_encoding ArgEncoding.float h = absurd (ground arith)
  padding_encoding (ArgEncoding.string _ _ _) h = absurd (ground arith)

  -- Four zeros are decoded to a zero.
  zero-Reads :
      (encodings : List ArgEncoding) (arg0 : Option ℕ) (bytes : Encoded)
      → Reads encodings arg0 [] bytes
      → Reads (ArgEncoding.padding ∷ encodings) arg0 [] (0 ∷ 0 ∷ 0 ∷ 0 ∷ bytes)
  unfolding decode_each with_padding reg_mask immediate
  zero-Reads encodings arg0 bytes h = rw (h, by_mask) refl

  encode_missing-Reads :
      (encodings : List ArgEncoding) (arg0 : Option ℕ)
      → All IsPadding encodings
      → Ensures (Reads encodings arg0 []) (encode_missing lang encodings)
  unfolding encode_missing reg_mask decode_each with_padding
  encode_missing-Reads [] arg0 h = refl
  encode_missing-Reads (e ∷ encodings) arg0 h = rw (h.0) (
      Ensures-bind (Reads encodings arg0 []) (Reads (e ∷ encodings) arg0 [])
        (encode_missing lang encodings) _ (encode_missing-Reads encodings arg0 h.1)
        (λ bytes k.
          subst (λ x. Reads (x ∷ encodings) arg0 [] (0 ∷ 0 ∷ 0 ∷ 0 ∷ bytes))
            (sym (padding_encoding e h.0)) (zero-Reads encodings arg0 bytes k)))

  encode_each-nil :
      (args : List (LowerArg F)) (encodings : List ArgEncoding) (state : ArgEncodingState)
      → encodings ≡ []
      → Ensures (λ r. r.0 ≡ []) (encode_each lang state args encodings)
  unfolding encode_each encode_missing
  encode_each-nil [] encodings state h = rw h refl
  encode_each-nil (a ∷ args) encodings state h = rw h refl

  step-Reads :
      (e : ArgEncoding) (encodings : List ArgEncoding) (arg0 : Option ℕ) (a : SimpleArg F)
      (args : List (SimpleArg F)) (first rest : Encoded)
      → DecodesTo lang e a.value first
      → (is_block e ≡ true → rest ≡ [])
      → Reads encodings arg0 args rest
      → Reads (e ∷ encodings) arg0 (a ∷ args) (first ++ rest)
  unfolding decode_each with_padding reg_mask decode_is_reg
  step-Reads e encodings arg0 a args first rest d last h =
      let bit = reg_mask_bit (reg_mask args) a.is_reg in
      rw (d rest arg0 last, bit.0, h, by_mask, bit.1) refl

  ends_after_block :
      (e : ArgEncoding) (encodings : List ArgEncoding) (args : List (LowerArg F))
      (state : ArgEncodingState)
      → EndsBlock e encodings
      → Ensures (λ r. is_block e ≡ true → r.0 ≡ []) (encode_each lang state args encodings)
  ends_after_block e encodings args state last =
      let m = encode_each lang state args encodings in
      elim (Bool-cases (is_block e)) [
        | inl b ↦ Ensures-weaken _ _ m (λ r q _. q) (encode_each-nil args encodings state (last b))
        | inr b ↦ Ensures-weaken _ _ m (λ r q t. absurd (ground arith)) (Ensures-self m)
      ]

  -- What follows the first argument is read after it.
  rest-Reads :
      (e : ArgEncoding) (encodings : List ArgEncoding) (arg0 : Option ℕ) (a : SimpleArg F)
      (args : List (SimpleArg F)) (first : Encoded × ArgEncodingState)
      → DecodesTo lang e a.value first.0
      → EndsBlock e encodings
      → Ensures
          (λ r. Reads encodings arg0 args r.0)
          (encode_each lang first.1 (raw_args args) encodings)
      → Ensures {A = Encoded × ArgEncodingState}
          (λ r. Reads (e ∷ encodings) arg0 (a ∷ args) r.0)
          (encode_each lang first.1 (raw_args args) encodings
            >>= (λ rest. ok (first.0 ++ rest.0, rest.1)))
  rest-Reads e encodings arg0 a args first d last h =
      let m = encode_each lang first.1 (raw_args args) encodings in
      Ensures-bind (λ r. Reads encodings arg0 args r.0 × (is_block e ≡ true → r.0 ≡ []))
        (λ r. Reads (e ∷ encodings) arg0 (a ∷ args) r.0) m _
        (Ensures-both _ _ m h (ends_after_block e encodings (raw_args args) first.1 last))
        (λ rest k. step-Reads e encodings arg0 a args first.0 rest.0 d k.1 k.0)

  pub encode_each-Reads :
      (args : List (SimpleArg F)) (encodings : List ArgEncoding) (arg0 : Option ℕ)
      (state : ArgEncodingState)
      → FitsArgs lang args encodings
      → Followed EndsBlock encodings
      → Ensures
          (λ r. Reads encodings arg0 args r.0)
          (encode_each lang state (raw_args args) encodings)
  unfolding encode_each FitsArgs
  encode_each-Reads [] encodings arg0 state h k =
      Ensures-bind (Reads encodings arg0 []) (λ r. Reads encodings arg0 [] r.0)
        (encode_missing lang encodings) _ (encode_missing-Reads encodings arg0 h) (λ bytes r. r)
  encode_each-Reads (a ∷ args) [] arg0 state h k = absurd h
  encode_each-Reads (a ∷ args) (e ∷ encodings) arg0 state h k =
      Ensures-bind (λ r. DecodesTo lang e a.value r.0)
        (λ r. Reads (e ∷ encodings) arg0 (a ∷ args) r.0) (encode_simple lang state e a) _
        (encode_simple-DecodesTo lang e a.value a.is_reg state keeps h.0)
        (λ first d.
          rest-Reads e encodings arg0 a args first d k.0
            (encode_each-Reads args encodings arg0 first.1 h.1 k.1))
