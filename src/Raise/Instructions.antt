-- ===== src/Raise/Instructions.antt =====
-- A whole instruction: what `decode_args` gives for the result of `encode_args`.
use truth.Base.{
  ℕ, ◌≡◌, refl, sym, subst, ap, ◌∙◌, arith, Bool, true, false, Option, none, some, List, [], ◌∷◌,
  length, ltb, if◌then◌else◌, Bool-cases, inl, inr,
}
use truth.Base.Run.{ok, panic, ◌>>=◌, Ensures, Ensures-bind, Ensures-weaken, Ensures-self}
use truth.Value.{ScalarValue}
use truth.Abi.{ArgEncoding, is_arg0, validate}
use truth.Abi.Shape.{Followed, EndsBlock, validate-Shape}
use truth.Lower.{SimpleArg, RawInstr, LowerInstr, known, raw, Language, LowerArg, expect_int}
use truth.Lower.Encode.{
  ArgEncodingState, encode_each, take_arg0, consume_arg0, arg0_value, encode_rest, encode_known,
  encode_with_args, encode_args, param_mask_or, check_registers, raw_instr,
}
use truth.Raise.{
  decode_value, decode_is_reg, decode_each, sign_extend, decode_arg0, decode_args_with_abi,
  decode_args_or_blob, decode_args, raise_instr, EarlyRaiseArgs,
}
use truth.Raise.Scalars.{KeepsFloats, FitsWord, FitsValue}
use truth.Raise.Masks.{raw_args, reg_mask, reg_mask_bit, compute_param_mask-Ensures}
use truth.Raise.RoundTrip.{FitsArgs, with_padding, encode_each-Reads}

unfoldable pub head_is_arg0 : List ArgEncoding → Bool
unfolding is_arg0
head_is_arg0 [] = false
head_is_arg0 (e ∷ encodings) = is_arg0 e

-- The extra argument is raised to `@arg0` where the signature does not take it.
unfoldable pub raised_arg0 : List ArgEncoding → Option ℕ → Option ℕ
unfolding head_is_arg0
raised_arg0 encodings extra = if head_is_arg0 encodings then none else extra

pub arg0_encoding :
    (e : ArgEncoding)
    → is_arg0 e ≡ true
    → (size : ℕ) × ((color : Option ℕ) × (e ≡ ArgEncoding.integer size color true))
unfolding is_arg0
arg0_encoding (ArgEncoding.integer size color true) h = (size, (color, refl))
arg0_encoding (ArgEncoding.integer _ _ false) h = absurd (ground arith)
arg0_encoding ArgEncoding.jump_offset h = absurd (ground arith)
arg0_encoding ArgEncoding.jump_time h = absurd (ground arith)
arg0_encoding ArgEncoding.color h = absurd (ground arith)
arg0_encoding ArgEncoding.padding h = absurd (ground arith)
arg0_encoding ArgEncoding.float h = absurd (ground arith)
arg0_encoding (ArgEncoding.string _ _ _) h = absurd (ground arith)

-- A short integer is found again from its low half.
arg0_value-Ensures :
    {F : Type 0} (lang : Language F) (is_reg : Bool) (v : ScalarValue F)
    → FitsWord v
    → Ensures
        (λ x. v ≡ ScalarValue.int (sign_extend x))
        (arg0_value lang (raw (record { value = v; is_reg = is_reg })))
unfolding arg0_value expect_int
arg0_value-Ensures lang true v h = tt
arg0_value-Ensures lang false (ScalarValue.int x) h = ap (λ y. ScalarValue.int y) (sym h)
arg0_value-Ensures lang false (ScalarValue.float x) h = tt
arg0_value-Ensures lang false (ScalarValue.string x) h = tt

module _ {F : Type 0} (lang : Language F) where
  pub take_arg0-plain :
      (extra : Option ℕ) (args : List (LowerArg F)) (encodings : List ArgEncoding)
      → head_is_arg0 encodings ≡ false
      → take_arg0 lang extra args encodings ≡ ok (extra, args, encodings)
  unfolding take_arg0 head_is_arg0
  take_arg0-plain extra args [] h = refl
  take_arg0-plain extra args (e ∷ encodings) h = rw h refl

module _ {F : Type 0} (lang : Language F) (keeps : KeepsFloats lang)
    (by_mask : lang.value_is_reg ≡ none) where
  -- The blob is read after a mask and an extra argument that are known.
  abbrev RestReads :
      ℕ → ℕ → Option ℕ → Option ℕ → List (SimpleArg F) → List ArgEncoding → RawInstr → Type 0
  RestReads opcode mask extra arg0 args encodings r =
      (r.param_mask ≡ mask)
      × (r.extra_arg ≡ extra)
      × (r.opcode ≡ opcode)
      × (decode_each lang encodings
            (record { mask = reg_mask args; blob = r.args_blob; arg0 = arg0 })
          ≡ ok (with_padding args encodings, record { mask = 0; blob = []; arg0 = arg0 }))

  encode_rest-RestReads :
      (state : ArgEncodingState) (instr : LowerInstr F) (all_args args : List (SimpleArg F))
      (encodings : List ArgEncoding) (extra arg0 : Option ℕ)
      → instr.user_param_mask ≡ none
      → FitsArgs lang args encodings
      → Followed EndsBlock encodings
      → Ensures
          (λ r. RestReads instr.opcode (reg_mask all_args) extra arg0 args encodings r.0)
          (encode_rest lang state instr (raw_args all_args) (extra, raw_args args, encodings))
  unfolding encode_rest param_mask_or raw_instr
  encode_rest-RestReads state instr all_args args encodings extra arg0 m h k =
      elim (Bool-cases (ltb (length encodings) (length (raw_args args)))) [
        | inl e ↦ rw e tt
        | inr e ↦ rw e (
            Ensures-bind _
              (λ r. RestReads instr.opcode (reg_mask all_args) extra arg0 args encodings r.0)
              (encode_each lang state (raw_args args) encodings) _
              (encode_each-Reads lang keeps by_mask args encodings arg0 state h k)
              (λ blob b.
                Ensures-bind (λ x. x ≡ reg_mask all_args) _
                  (param_mask_or lang instr.user_param_mask (raw_args all_args)) _
                  (rw m (compute_param_mask-Ensures lang all_args)) (λ mask q. (q, refl, refl, b))))
      ]

  -- An instruction that was encoded is read with the arguments, and zeros for the padding.
  abbrev InstrReads : ℕ → Option ℕ → List (SimpleArg F) → List ArgEncoding → RawInstr → Type 0
  InstrReads opcode arg0 args encodings r =
      (r.opcode ≡ opcode)
      × (decode_each lang encodings
            (record { mask = r.param_mask; blob = r.args_blob; arg0 = r.extra_arg })
          ≡ ok (with_padding args encodings, record { mask = 0; blob = []; arg0 = arg0 }))

  plain-InstrReads :
      (state : ArgEncodingState) (instr : LowerInstr F) (args : List (SimpleArg F))
      (encodings : List ArgEncoding)
      → instr.user_param_mask ≡ none
      → FitsArgs lang args encodings
      → Followed EndsBlock encodings
      → Ensures
          (λ r. InstrReads instr.opcode instr.explicit_extra_arg args encodings r.0)
          (encode_rest lang state instr
            (raw_args args)
            (instr.explicit_extra_arg, raw_args args, encodings))
  plain-InstrReads state instr args encodings m h k =
      Ensures-weaken
        (λ r.
          RestReads instr.opcode (reg_mask args) instr.explicit_extra_arg instr.explicit_extra_arg
            args encodings r.0)
        (λ r. InstrReads instr.opcode instr.explicit_extra_arg args encodings r.0) _
        (λ r q. (q.2, rw (q.0, q.1) (q.3)))
        (encode_rest-RestReads state instr args args encodings instr.explicit_extra_arg
          instr.explicit_extra_arg m h k)

  arg0-step :
      (opcode size : ℕ) (color : Option ℕ) (encodings : List ArgEncoding) (x : ℕ) (a : SimpleArg F)
      (args : List (SimpleArg F)) (r : RawInstr)
      → a.value ≡ ScalarValue.int (sign_extend x)
      → RestReads opcode (reg_mask (a ∷ args)) (some x) none args encodings r
      → InstrReads opcode none (a ∷ args) (ArgEncoding.integer size color true ∷ encodings) r
  unfolding decode_each decode_value decode_arg0 with_padding reg_mask decode_is_reg
  arg0-step opcode size color encodings x a args r v q =
      let bit = reg_mask_bit (reg_mask args) a.is_reg in
      (
        q.2,
        rw (q.1, q.0, bit.0, q.3, by_mask, bit.1)
            (ap
              (λ value. ok (
                record { value = value; is_reg = a.is_reg } ∷ with_padding args encodings,
                record { mask = 0; blob = []; arg0 = none },
              ))
              (sym v)),
      )

  -- The value of the first argument comes from the extra argument.
  abbrev Split :
      List (SimpleArg F)
      → List ArgEncoding
      → SimpleArg F
      → Option ℕ × List (LowerArg F) × List ArgEncoding
      → Type 0
  Split args encodings a split =
      (x : ℕ) × (a.value ≡ ScalarValue.int (sign_extend x))
      × (split ≡ (some x, raw_args args, encodings))

  abbrev Consumed : List (SimpleArg F) → SimpleArg F → Option ℕ × List (LowerArg F) → Type 0
  Consumed args a consumed =
      (x : ℕ) × (a.value ≡ ScalarValue.int (sign_extend x)) × (consumed ≡ (some x, raw_args args))

  take_arg0-Split :
      (e : ArgEncoding) (encodings : List ArgEncoding) (a : SimpleArg F) (args : List (SimpleArg F))
      → is_arg0 e ≡ true
      → FitsValue lang e a.value
      → Ensures (Split args encodings a) (take_arg0 lang none (raw_args (a ∷ args)) (e ∷ encodings))
  unfolding take_arg0 consume_arg0
  take_arg0-Split e encodings a args i h =
      let enc = arg0_encoding e i in
      let word : FitsWord a.value = subst (λ k. FitsValue lang k a.value) enc.1.1 h in
      rw i (
        Ensures-bind (Consumed args a) (Split args encodings a)
          (consume_arg0 lang none (raw_args (a ∷ args))) _
          (Ensures-bind _ (Consumed args a) (arg0_value lang (raw a)) _
            (arg0_value-Ensures lang a.is_reg a.value word) (λ x v. (x, v, refl)))
          (λ split q. (q.0, q.1, ap (λ s. (s.0, s.1, encodings)) q.2)))

  arg0-InstrReads :
      (state : ArgEncodingState) (instr : LowerInstr F) (e : ArgEncoding)
      (encodings : List ArgEncoding) (a : SimpleArg F) (args : List (SimpleArg F))
      → is_arg0 e ≡ true
      → instr.user_param_mask ≡ none
      → FitsArgs lang (a ∷ args) (e ∷ encodings)
      → Followed EndsBlock encodings
      → Ensures
          (λ r. InstrReads instr.opcode none (a ∷ args) (e ∷ encodings) r.0)
          (take_arg0 lang none (raw_args (a ∷ args)) (e ∷ encodings)
            >>= encode_rest lang state instr (raw_args (a ∷ args)))
  unfolding FitsArgs
  arg0-InstrReads state instr e encodings a args i m h k =
      let enc = arg0_encoding e i in
      Ensures-bind (Split args encodings a)
        (λ r. InstrReads instr.opcode none (a ∷ args) (e ∷ encodings) r.0)
        (take_arg0 lang none (raw_args (a ∷ args)) (e ∷ encodings)) _
        (take_arg0-Split e encodings a args i h.0)
        (λ split q. rw (q.2) (
          Ensures-weaken
            (λ r. RestReads instr.opcode (reg_mask (a ∷ args)) (some q.0) none args encodings r.0)
            (λ r. InstrReads instr.opcode none (a ∷ args) (e ∷ encodings) r.0) _
            (λ r rest.
              rw (enc.1.1) (arg0-step instr.opcode enc.0 enc.1.0 encodings q.0 a args r.0 q.1 rest))
            (encode_rest-RestReads state instr (a ∷ args) args encodings (some q.0) none m h.1 k)))

  take_arg0-missing :
      (extra : Option ℕ) (encodings : List ArgEncoding)
      → head_is_arg0 encodings ≡ true
      → take_arg0 lang extra [] encodings ≡ panic
  unfolding take_arg0 head_is_arg0 consume_arg0
  take_arg0-missing extra [] h = absurd (ground arith)
  take_arg0-missing extra (e ∷ encodings) h = rw h refl

  head-InstrReads :
      (state : ArgEncodingState) (instr : LowerInstr F) (args : List (SimpleArg F))
      (encodings : List ArgEncoding)
      → instr.user_param_mask ≡ none
      → FitsArgs lang args encodings
      → Followed EndsBlock encodings
      → head_is_arg0 encodings ≡ true
      → Ensures
          (λ r. InstrReads instr.opcode none args encodings r.0)
          (take_arg0 lang none (raw_args args) encodings
            >>= encode_rest lang state instr (raw_args args))
  unfolding head_is_arg0
  head-InstrReads state instr [] encodings m h k i = rw (take_arg0-missing none encodings i) tt
  head-InstrReads state instr (a ∷ args) [] m h k i = absurd (ground arith)
  head-InstrReads state instr (a ∷ args) (e ∷ encodings) m h k i =
      arg0-InstrReads state instr e encodings a args i m h k.1

  encode_known-InstrReads :
      (state : ArgEncodingState) (instr : LowerInstr F) (args : List (SimpleArg F))
      (encodings : List ArgEncoding)
      → instr.user_param_mask ≡ none
      → FitsArgs lang args encodings
      → Followed EndsBlock encodings
      → (head_is_arg0 encodings ≡ true → instr.explicit_extra_arg ≡ none)
      → Ensures
          (λ r.
            InstrReads instr.opcode
              (raised_arg0 encodings instr.explicit_extra_arg)
              args
              encodings
              r.0)
          (encode_known lang state instr (raw_args args) encodings)
  unfolding encode_known raised_arg0
  encode_known-InstrReads state instr args encodings m h k x =
      elim (Bool-cases (head_is_arg0 encodings)) [
        | inl i ↦ rw (i, x i) (head-InstrReads state instr args encodings m h k i)
        | inr i ↦
            rw (i, take_arg0-plain lang instr.explicit_extra_arg (raw_args args) encodings i)
              (plain-InstrReads state instr args encodings m h k)
      ]

  InstrReads-decode_args :
      (opcode : ℕ) (arg0 : Option ℕ) (args : List (SimpleArg F)) (encodings : List ArgEncoding)
      (r : RawInstr) (instr_offset : ℕ)
      → InstrReads opcode arg0 args encodings r
      → lang.ins_abi opcode ≡ some encodings
      → decode_args lang true r instr_offset
        ≡ ok (
            raise_instr lang r instr_offset arg0
              (EarlyRaiseArgs.decoded (with_padding args encodings)))
  unfolding decode_args decode_args_or_blob decode_args_with_abi
  InstrReads-decode_args opcode arg0 args encodings r instr_offset q s =
      let found : lang.ins_abi r.opcode ≡ some encodings = ap lang.ins_abi q.0 ∙ s in
      rw (found, q.1) refl

  -- Let an instruction have immediate and register arguments that fit the encodings of a valid
  -- signature, where only padding may lack an argument, no mask of its own, and no `@arg0` where the
  -- signature takes it, in a language that keeps floats by their bits and marks registers in the mask.
  -- Whenever `encode_args` gives an instruction, `decode_args` gives for it the same arguments, with
  -- zeros for the padding that had none, and the `@arg0` that the signature did not take.
  pub decode_args-encode_args :
      (state : ArgEncodingState) (instr : LowerInstr F) (args : List (SimpleArg F))
      (encodings : List ArgEncoding) (instr_offset : ℕ)
      → instr.args ≡ known (raw_args args)
      → instr.user_param_mask ≡ none
      → lang.ins_abi instr.opcode ≡ some encodings
      → validate encodings ≡ ok tt
      → FitsArgs lang args encodings
      → (head_is_arg0 encodings ≡ true → instr.explicit_extra_arg ≡ none)
      → Ensures
          (λ r.
            decode_args lang true r.0 instr_offset
            ≡ ok (
                raise_instr lang r.0 instr_offset
                  (raised_arg0 encodings instr.explicit_extra_arg)
                  (EarlyRaiseArgs.decoded (with_padding args encodings))))
          (encode_args lang state instr)
  unfolding encode_args encode_with_args decode_args
  decode_args-encode_args state instr args encodings instr_offset a m s v h x =
      let shape = validate-Shape encodings v in
      rw (a, s)
        (Ensures-bind (λ _. Unit {0}) _ (check_registers lang (raw_args args)) _
          (Ensures-weaken _ _ _ (λ u q. tt) (Ensures-self (check_registers lang (raw_args args))))
          (λ u w.
            Ensures-weaken
              (λ r.
                InstrReads instr.opcode (raised_arg0 encodings instr.explicit_extra_arg) args
                  encodings r.0)
              _ (encode_known lang state instr (raw_args args) encodings)
              (λ r q.
                InstrReads-decode_args instr.opcode (raised_arg0 encodings instr.explicit_extra_arg)
                  args encodings r.0 instr_offset q s)
              (encode_known-InstrReads state instr args encodings m h shape.3 x)))
