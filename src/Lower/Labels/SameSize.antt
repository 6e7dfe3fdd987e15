-- ===== src/Lower/Labels/SameSize.antt =====
-- The bytes that an instruction takes do not depend on the numbers among its arguments.
use truth.Base.{
  ℕ, ◌≡◌, refl, sym, ap₂, ◌∙◌, arith, true, false, Option, none, some, List, [], ◌∷◌, map, length,
  length-append, length-map, ltb, ◌==◌, Bool-cases, inl, inr,
}
use truth.Base.Run.{expect, Both, Both-bind, Both-refl}
use truth.Value.{ScalarValue}
use truth.Io.{Encoded, write_u16, write_u32}
use truth.Abi.{ArgEncoding, is_arg0}
use truth.Lower.{
  SimpleArg, RawInstr, LowerInstr, known, raw, Language, LowerArg, immediate, expect_int,
  expect_float, expect_string,
}
use truth.Lower.Encode.{
  ArgEncodingState, encode_int, encode_simple, encode_each, any_reg, arg0_value, consume_arg0,
  take_arg0, reg_bit, mask_bits, compute_param_mask, param_mask_or, raw_instr, encode_rest,
  encode_known, check_registers, encode_with_args, encode_args,
}

-- An argument of two versions of an instruction: the same one in both, or a number in each.
pub data Slot (F : Type 0) : Type 0 where
  same : SimpleArg F → Slot F
  numbers : ℕ → ℕ → Slot F

module _ {F : Type 0} where
  unfoldable pub first_arg : Slot F → SimpleArg F
  unfolding immediate
  first_arg (same a) = a
  first_arg (numbers x y) = immediate (ScalarValue.int x)

  unfoldable pub second_arg : Slot F → SimpleArg F
  unfolding immediate
  second_arg (same a) = a
  second_arg (numbers x y) = immediate (ScalarValue.int y)

  abbrev pub first_args : List (Slot F) → List (LowerArg F)
  first_args slots = map (λ s. raw (first_arg s)) slots

  abbrev pub second_args : List (Slot F) → List (LowerArg F)
  second_args slots = map (λ s. raw (second_arg s)) slots

-- As many bytes, and the same state.
abbrev pub SameShape : Encoded × ArgEncodingState → Encoded × ArgEncodingState → Type 0
SameShape a b = (length a.0 ≡ length b.0) × (a.1 ≡ b.1)

module _ {F : Type 0} (lang : Language F) where
  encode_int-SameShape :
      (size x y : ℕ) (state : ArgEncodingState)
      → Both SameShape
          (encode_int lang size state (immediate (ScalarValue.int x)))
          (encode_int lang size state (immediate (ScalarValue.int y)))
  unfolding encode_int expect_int immediate write_u16 write_u32
  encode_int-SameShape size x y state = elim (Bool-cases (size == 4)) [
    | inl e ↦ rw e (refl, refl)
    | inr e ↦ elim (Bool-cases (size == 2)) [
      | inl k ↦ rw (e, k) (refl, refl)
      | inr k ↦ rw (e, k) tt
    ]
  ]

  numbers-SameShape :
      (e : ArgEncoding) (x y : ℕ) (state : ArgEncodingState)
      → Both SameShape
          (encode_simple lang state e (immediate (ScalarValue.int x)))
          (encode_simple lang state e (immediate (ScalarValue.int y)))
  unfolding encode_simple expect_float expect_string immediate
  numbers-SameShape ArgEncoding.color x y state = encode_int-SameShape 4 x y state
  numbers-SameShape ArgEncoding.jump_offset x y state = encode_int-SameShape 4 x y state
  numbers-SameShape ArgEncoding.jump_time x y state = encode_int-SameShape 4 x y state
  numbers-SameShape ArgEncoding.padding x y state = encode_int-SameShape 4 x y state
  numbers-SameShape (ArgEncoding.integer size color true) x y state = tt
  numbers-SameShape (ArgEncoding.integer size color false) x y state =
      encode_int-SameShape size x y state
  numbers-SameShape ArgEncoding.float x y state = tt
  numbers-SameShape (ArgEncoding.string _ _ _) x y state = tt

  encode_simple-SameShape :
      (e : ArgEncoding) (slot : Slot F) (state : ArgEncodingState)
      → Both SameShape
          (encode_simple lang state e (first_arg slot))
          (encode_simple lang state e (second_arg slot))
  unfolding first_arg second_arg
  encode_simple-SameShape e (same a) state =
      Both-refl SameShape (encode_simple lang state e a) (λ r. (refl, refl))
  encode_simple-SameShape e (numbers x y) state = numbers-SameShape e x y state

  encode_each-SameShape :
      (slots : List (Slot F)) (encodings : List ArgEncoding) (state : ArgEncodingState)
      → Both SameShape
          (encode_each lang state (first_args slots) encodings)
          (encode_each lang state (second_args slots) encodings)
  unfolding encode_each
  encode_each-SameShape [] encodings state =
      Both-refl SameShape (encode_each lang state [] encodings) (λ r. (refl, refl))
  encode_each-SameShape (s ∷ slots) [] state = (refl, refl)
  encode_each-SameShape (s ∷ slots) (e ∷ encodings) state =
      Both-bind SameShape SameShape (encode_simple lang state e (first_arg s))
        (encode_simple lang state e (second_arg s)) _ _ (encode_simple-SameShape e s state)
        (λ a b h. rw (h.1) (
          Both-bind SameShape SameShape (encode_each lang b.1 (first_args slots) encodings)
            (encode_each lang b.1 (second_args slots) encodings) _ _
            (encode_each-SameShape slots encodings b.1)
            (λ c d k.
              let p = h.0 in
              let q = k.0 in (omega (arith, length-append a.0 c.0, length-append b.0 d.0), k.1))))

  any_reg-same :
      (slots : List (Slot F)) → any_reg lang (first_args slots) ≡ any_reg lang (second_args slots)
  unfolding any_reg first_arg second_arg immediate
  any_reg-same [] = refl
  any_reg-same (same a ∷ slots) = rw (any_reg-same slots) refl
  any_reg-same (numbers x y ∷ slots) = any_reg-same slots

  mask_bits-same :
      (slots : List (Slot F))
      → mask_bits lang (first_args slots) ≡ mask_bits lang (second_args slots)
  unfolding mask_bits reg_bit first_arg second_arg immediate
  mask_bits-same [] = refl
  mask_bits-same (same a ∷ slots) = rw (mask_bits-same slots) refl
  mask_bits-same (numbers x y ∷ slots) = rw (mask_bits-same slots) refl

  length-same : (slots : List (Slot F)) → length (first_args slots) ≡ length (second_args slots)
  length-same slots = length-map slots _ ∙ sym (length-map slots _)

  param_mask_or-same :
      (mask : Option ℕ) (slots : List (Slot F))
      → param_mask_or lang mask (first_args slots) ≡ param_mask_or lang mask (second_args slots)
  unfolding param_mask_or compute_param_mask
  param_mask_or-same (some mask) slots = refl
  param_mask_or-same none slots = rw (length-same slots, mask_bits-same slots) refl

  -- The arguments that are left for the blob are two versions of each other, too.
  abbrev SameSplit :
      Option ℕ × List (LowerArg F) × List ArgEncoding
      → Option ℕ × List (LowerArg F) × List ArgEncoding
      → Type 0
  SameSplit s t =
      (slots : List (Slot F)) × ((s.1 ≡ first_args slots) × (t.1 ≡ second_args slots) × (s.2 ≡ t.2))

  abbrev SameConsumed : Option ℕ × List (LowerArg F) → Option ℕ × List (LowerArg F) → Type 0
  SameConsumed s t =
      (slots : List (Slot F)) × ((s.1 ≡ first_args slots) × (t.1 ≡ second_args slots))

  arg0_value-same :
      (slot : Slot F)
      → Both
          (λ x y. Unit {0})
          (arg0_value lang (raw (first_arg slot)))
          (arg0_value lang (raw (second_arg slot)))
  unfolding arg0_value first_arg second_arg immediate expect_int
  arg0_value-same (same a) = Both-refl (λ x y. Unit) (arg0_value lang (raw a)) (λ r. tt)
  arg0_value-same (numbers x y) = tt

  consume_arg0-same :
      (extra : Option ℕ) (slots : List (Slot F))
      → Both SameConsumed
          (consume_arg0 lang extra (first_args slots))
          (consume_arg0 lang extra (second_args slots))
  unfolding consume_arg0
  consume_arg0-same extra [] = tt
  consume_arg0-same (some x) (s ∷ slots) = (slots, (refl, refl))
  consume_arg0-same none (s ∷ slots) =
      Both-bind (λ x y. Unit) SameConsumed (arg0_value lang (raw (first_arg s)))
        (arg0_value lang (raw (second_arg s))) _ _ (arg0_value-same s)
        (λ x y u. (slots, (refl, refl)))

  take_arg0-same :
      (extra : Option ℕ) (slots : List (Slot F)) (encodings : List ArgEncoding)
      → Both SameSplit
          (take_arg0 lang extra (first_args slots) encodings)
          (take_arg0 lang extra (second_args slots) encodings)
  unfolding take_arg0
  take_arg0-same extra slots [] = (slots, (refl, refl, refl))
  take_arg0-same extra slots (e ∷ encodings) = elim (Bool-cases (is_arg0 e)) [
    | inl i ↦ rw i (
        Both-bind SameConsumed SameSplit (consume_arg0 lang extra (first_args slots))
          (consume_arg0 lang extra (second_args slots)) _ _ (consume_arg0-same extra slots)
          (λ s t h. (h.0, (h.1.0, h.1.1, refl))))
    | inr i ↦ rw i (slots, (refl, refl, refl))
  ]

  -- Instructions of one size, after which the state is the same.
  abbrev pub SameInstr : RawInstr × ArgEncodingState → RawInstr × ArgEncodingState → Type 0
  SameInstr r t = (length r.0.args_blob ≡ length t.0.args_blob) × (r.1 ≡ t.1)

  abbrev with_args : LowerInstr F → List (LowerArg F) → LowerInstr F
  with_args i args = record i { args = known args }

  encode_rest-same :
      (state : ArgEncodingState) (i : LowerInstr F) (all_slots slots : List (Slot F))
      (extra extra' : Option ℕ) (encodings : List ArgEncoding)
      → Both SameInstr
          (encode_rest lang state
            (with_args i (first_args all_slots))
            (first_args all_slots)
            (extra, first_args slots, encodings))
          (encode_rest lang state
            (with_args i (second_args all_slots))
            (second_args all_slots)
            (extra', second_args slots, encodings))
  unfolding encode_rest raw_instr
  encode_rest-same state i all_slots slots extra extra' encodings =
      elim (Bool-cases (ltb (length encodings) (length (second_args slots)))) [
        | inl e ↦ rw (length-same slots, e) tt
        | inr e ↦
            rw (length-same slots, e)
              (Both-bind SameShape SameInstr (encode_each lang state (first_args slots) encodings)
                (encode_each lang state (second_args slots) encodings) _ _
                (encode_each-SameShape slots encodings state)
                (λ a b h. rw (param_mask_or-same i.user_param_mask all_slots) (
                  Both-bind (λ x y. Unit) SameInstr
                    (param_mask_or lang i.user_param_mask (second_args all_slots))
                    (param_mask_or lang i.user_param_mask (second_args all_slots)) _ _
                    (Both-refl _ (param_mask_or lang i.user_param_mask (second_args all_slots))
                      (λ r. tt))
                    (λ x y u. h))))
      ]

  split_parts :
      (s : Option ℕ × List (LowerArg F) × List ArgEncoding) (args : List (LowerArg F))
      (encodings : List ArgEncoding)
      → s.1 ≡ args
      → s.2 ≡ encodings
      → s ≡ (s.0, args, encodings)
  split_parts s args encodings h k = ap₂ (λ a b. (s.0, a, b)) h k

  encode_known-same :
      (state : ArgEncodingState) (i : LowerInstr F) (slots : List (Slot F))
      (encodings : List ArgEncoding)
      → Both SameInstr
          (encode_known lang state (with_args i (first_args slots)) (first_args slots) encodings)
          (encode_known lang state (with_args i (second_args slots)) (second_args slots) encodings)
  unfolding encode_known
  encode_known-same state i slots encodings =
      Both-bind SameSplit SameInstr
        (take_arg0 lang i.explicit_extra_arg (first_args slots) encodings)
        (take_arg0 lang i.explicit_extra_arg (second_args slots) encodings) _ _
        (take_arg0-same i.explicit_extra_arg slots encodings)
        (λ s t h.
          rw
            (
              split_parts s (first_args h.0) t.2 h.1.0 h.1.2,
              split_parts t (second_args h.0) t.2 h.1.1 refl,
            )
            (encode_rest-same state i slots h.0 s.0 t.0 t.2))

  -- Two versions of an instruction are encoded with the same outcome and the same size.
  pub encode_args-same :
      (state : ArgEncodingState) (i : LowerInstr F) (slots : List (Slot F))
      → Both SameInstr
          (encode_args lang state (with_args i (first_args slots)))
          (encode_args lang state (with_args i (second_args slots)))
  unfolding encode_args encode_with_args check_registers
  encode_args-same state i slots = rw (any_reg-same slots) (
      Both-bind (λ x y. Unit) SameInstr (check_registers lang (second_args slots))
        (check_registers lang (second_args slots)) _ _
        (Both-refl _ (check_registers lang (second_args slots)) (λ r. tt))
        (λ x y u.
          Both-bind (λ c d. c ≡ d) SameInstr (expect (lang.ins_abi i.opcode))
            (expect (lang.ins_abi i.opcode)) _ _
            (Both-refl _ (expect (lang.ins_abi i.opcode)) (λ r. refl))
            (λ c d e. rw e (encode_known-same state i slots d))))
