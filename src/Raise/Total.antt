-- ===== src/Raise/Total.antt =====
-- `encode_args` of src/llir/lower.rs gives an instruction whenever the arguments fit and have room.
use truth.Base.{
  ℕ, ◌%◌, ◌≤◌, ◌≡◌, refl, sym, subst, ap, ◌∙◌, arith, Bool, true, false, Option, none, some, List,
  [], ◌∷◌, ◌++◌, length, length-map, ltb, ◌==◌, Bool-cases, inl, inr, All,
}
use truth.Base.Run.{Run, ok, ◌>>=◌}
use truth.Value.{ScalarValue}
use truth.Io.{Encoded, Encoding, encode, ok_or_err, null_pad}
use truth.Abi.{
  ArgEncoding, StringArgSize, fixed, block, AcceleratingByteMask, is_arg0, is_padding, skip1,
  validate,
}
use truth.Abi.Shape.{NotArg0, IsPadding, validate-Shape}
use truth.Lower.{
  SimpleArg, LowerInstr, known, raw, Language, expect_int, expect_float, expect_string,
}
use truth.Lower.Encode.{
  ArgEncodingState, terminate, add_furibug, pad_to_size, encode_string, encode_int, encode_simple,
  encode_missing, encode_each, encode_args, encode_with_args, encode_known, encode_rest, take_arg0,
  consume_arg0, arg0_value, any_reg, check_registers, param_mask_or, compute_param_mask,
}
use truth.Raise.Values.{IsEncodable}
use truth.Raise.Scalars.{FitsValue, FitsInt, FitsDword, FitsWord, FitsFloat, FitsString}
use truth.Raise.Masks.{raw_args, mask_bits-reg_mask}
use truth.Raise.RoundTrip.{FitsArgs}
use truth.Raise.Instructions.{head_is_arg0, arg0_encoding, take_arg0-plain}

abbrev pub Succeeds {ℓ} : {A : Type ℓ} → Run A → Type ℓ
Succeeds {A} m = (a : A) × (m ≡ ok a)

Succeeds-bind {ℓ κ} :
    {A : Type ℓ} {B : Type κ} (m : Run A) (f : A → Run B)
    → Succeeds m
    → ((a : A) → Succeeds (f a))
    → Succeeds (m >>= f)
Succeeds-bind m f h k = ((k h.0).0, ap (λ r. r >>= f) h.1 ∙ (k h.0).1)

-- A buffer has room for the bytes and, where there is one, the terminator; a block is not empty.
abbrev pub HasRoomFor : StringArgSize → Encoded → Type 0
HasRoomFor (block block_size) bytes = (block_size == 0) ≡ false
HasRoomFor (fixed len nulless) bytes = length (terminate (fixed len nulless) bytes) ≤ len

module _ {F : Type 0} where
  abbrev HasRoomString : Language F → StringArgSize → Bool → ScalarValue F → Type 0
  HasRoomString lang size furibug (ScalarValue.string s) =
      (furibug ≡ false)
      × ((bytes : Encoded) → lang.strings.encode_text s ≡ some bytes → HasRoomFor size bytes)
  HasRoomString lang size furibug _ = Unit

  -- A string has room and is not in a furigana bug.
  abbrev pub HasRoom : Language F → ArgEncoding → ScalarValue F → Type 0
  HasRoom lang (ArgEncoding.string size _ furibug) v = HasRoomString lang size furibug v
  HasRoom lang _ v = Unit

  abbrev pub HaveRoom : Language F → List (SimpleArg F) → List ArgEncoding → Type 0
  HaveRoom lang [] encodings = Unit
  HaveRoom lang (a ∷ args) [] = Unit
  HaveRoom lang (a ∷ args) (e ∷ encodings) = HasRoom lang e a.value × HaveRoom lang args encodings

pad_to_size-Succeeds :
    (size : StringArgSize) (bytes : Encoded)
    → HasRoomFor size bytes
    → Succeeds (pad_to_size size (terminate size bytes))
unfolding pad_to_size null_pad terminate
pad_to_size-Succeeds (block b) bytes h = elim (Bool-cases (length (bytes ++ 0 ∷ []) % b == 0)) [
  | inl k ↦ rw (h, k) (_, refl)
  | inr k ↦ rw (h, k) (_, refl)
]
pad_to_size-Succeeds (fixed len nulless) bytes h =
    let fits : ltb len (length (terminate (fixed len nulless) bytes)) ≡ false = ground arith in
    rw fits (_, refl)

encode_string-Succeeds :
    (enc : Encoding) (state : ArgEncodingState) (size : StringArgSize) (mask : AcceleratingByteMask)
    (s : List ℕ)
    → IsEncodable enc s
    → ((bytes : Encoded) → enc.encode_text s ≡ some bytes → HasRoomFor size bytes)
    → Succeeds (encode_string enc state size mask false s)
unfolding encode_string encode ok_or_err add_furibug
encode_string-Succeeds enc state size mask s h room = rw (h.1) (
    Succeeds-bind (pad_to_size size (terminate size h.0)) _
      (pad_to_size-Succeeds size h.0 (room h.0 h.1)) (λ padded. (_, refl)))

module _ {F : Type 0} (lang : Language F) where
  dword-Succeeds :
      (v : ScalarValue F) (is_reg : Bool) (state : ArgEncodingState)
      → FitsDword v
      → Succeeds (encode_int lang 4 state (record { value = v; is_reg = is_reg }))
  unfolding encode_int expect_int
  dword-Succeeds (ScalarValue.int x) is_reg state h = (_, refl)
  dword-Succeeds (ScalarValue.float x) is_reg state h = absurd h
  dword-Succeeds (ScalarValue.string x) is_reg state h = absurd h

  word-Succeeds :
      (v : ScalarValue F) (is_reg : Bool) (state : ArgEncodingState)
      → FitsWord v
      → Succeeds (encode_int lang 2 state (record { value = v; is_reg = is_reg }))
  unfolding encode_int expect_int
  word-Succeeds (ScalarValue.int x) is_reg state h = (_, refl)
  word-Succeeds (ScalarValue.float x) is_reg state h = absurd h
  word-Succeeds (ScalarValue.string x) is_reg state h = absurd h

  int-Succeeds :
      (size : ℕ) (v : ScalarValue F) (is_reg : Bool) (state : ArgEncodingState)
      → FitsInt size v
      → Succeeds (encode_int lang size state (record { value = v; is_reg = is_reg }))
  int-Succeeds size v is_reg state (inl h) = rw (h.0) (dword-Succeeds v is_reg state h.1)
  int-Succeeds size v is_reg state (inr h) = rw (h.0) (word-Succeeds v is_reg state h.1)

  float-Succeeds :
      (v : ScalarValue F) (is_reg : Bool) (state : ArgEncodingState)
      → FitsFloat v
      → Succeeds
          (encode_simple lang state ArgEncoding.float (record { value = v; is_reg = is_reg }))
  unfolding encode_simple expect_float
  float-Succeeds (ScalarValue.float x) is_reg state h = (_, refl)
  float-Succeeds (ScalarValue.int x) is_reg state h = absurd h
  float-Succeeds (ScalarValue.string x) is_reg state h = absurd h

  string-Succeeds :
      (size : StringArgSize) (mask : AcceleratingByteMask) (furibug : Bool) (v : ScalarValue F)
      (is_reg : Bool) (state : ArgEncodingState)
      → FitsString lang size furibug v
      → HasRoomString lang size furibug v
      → Succeeds (
          encode_simple lang state
            (ArgEncoding.string size mask furibug)
            (record { value = v; is_reg = is_reg }))
  unfolding encode_simple expect_string
  string-Succeeds size mask furibug (ScalarValue.string s) is_reg state h room =
      rw (room.0) (encode_string-Succeeds lang.strings state size mask s h.0 room.1)
  string-Succeeds size mask furibug (ScalarValue.float x) is_reg state h room = absurd h
  string-Succeeds size mask furibug (ScalarValue.int x) is_reg state h room = absurd h

  encode_simple-Succeeds :
      (e : ArgEncoding) (v : ScalarValue F) (is_reg : Bool) (state : ArgEncodingState)
      → NotArg0 e
      → FitsValue lang e v
      → HasRoom lang e v
      → Succeeds (encode_simple lang state e (record { value = v; is_reg = is_reg }))
  unfolding encode_simple is_arg0
  encode_simple-Succeeds ArgEncoding.color v is_reg state n h r = dword-Succeeds v is_reg state h
  encode_simple-Succeeds ArgEncoding.jump_offset v is_reg state n h r =
      dword-Succeeds v is_reg state h
  encode_simple-Succeeds ArgEncoding.jump_time v is_reg state n h r =
      dword-Succeeds v is_reg state h
  encode_simple-Succeeds ArgEncoding.padding v is_reg state n h r = dword-Succeeds v is_reg state h
  encode_simple-Succeeds (ArgEncoding.integer size color true) v is_reg state n h r =
      absurd (ground arith)
  encode_simple-Succeeds (ArgEncoding.integer size color false) v is_reg state n h r =
      int-Succeeds size v is_reg state h
  encode_simple-Succeeds ArgEncoding.float v is_reg state n h r = float-Succeeds v is_reg state h
  encode_simple-Succeeds (ArgEncoding.string size mask furibug) v is_reg state n h r =
      string-Succeeds size mask furibug v is_reg state h r

  encode_missing-Succeeds :
      (encodings : List ArgEncoding)
      → All IsPadding encodings
      → Succeeds (encode_missing lang encodings)
  unfolding encode_missing
  encode_missing-Succeeds [] h = (_, refl)
  encode_missing-Succeeds (e ∷ encodings) h = rw (h.0) (
      Succeeds-bind (encode_missing lang encodings) _ (encode_missing-Succeeds encodings h.1)
        (λ bytes. (_, refl)))

  encode_each-Succeeds :
      (args : List (SimpleArg F)) (encodings : List ArgEncoding) (state : ArgEncodingState)
      → All NotArg0 encodings
      → FitsArgs lang args encodings
      → HaveRoom lang args encodings
      → Succeeds (encode_each lang state (raw_args args) encodings)
  unfolding encode_each FitsArgs
  encode_each-Succeeds [] encodings state n h r =
      Succeeds-bind (encode_missing lang encodings) _ (encode_missing-Succeeds encodings h)
        (λ bytes. (_, refl))
  encode_each-Succeeds (a ∷ args) [] state n h r = absurd h
  encode_each-Succeeds (a ∷ args) (e ∷ encodings) state n h r =
      Succeeds-bind (encode_simple lang state e a) _
        (encode_simple-Succeeds e a.value a.is_reg state n.0 h.0 r.0)
        (λ first.
          Succeeds-bind (encode_each lang first.1 (raw_args args) encodings) _
            (encode_each-Succeeds args encodings first.1 n.1 h.1 r.1) (λ rest. (_, refl)))

  length-FitsArgs :
      (args : List (SimpleArg F)) (encodings : List ArgEncoding)
      → FitsArgs lang args encodings
      → length (raw_args args) ≤ length encodings
  unfolding FitsArgs
  length-FitsArgs [] encodings h = omega arith
  length-FitsArgs (a ∷ args) [] h = absurd h
  length-FitsArgs (a ∷ args) (e ∷ encodings) h = omega (arith, length-FitsArgs args encodings h.1)

  param_mask_or-Succeeds :
      (mask : Option ℕ) (args : List (SimpleArg F))
      → length args ≤ 16
      → Succeeds (param_mask_or lang mask (raw_args args))
  unfolding param_mask_or compute_param_mask
  param_mask_or-Succeeds (some mask) args h = (mask, refl)
  param_mask_or-Succeeds none args h =
      let same : length (raw_args args) ≡ length args = length-map args _ in
      let few : ltb 16 (length (raw_args args)) ≡ false = ground arith in
      rw (few, mask_bits-reg_mask lang args h) (_, refl)

  encode_rest-Succeeds :
      (state : ArgEncodingState) (instr : LowerInstr F) (all_args args : List (SimpleArg F))
      (encodings : List ArgEncoding) (extra : Option ℕ)
      → length all_args ≤ 16
      → All NotArg0 encodings
      → FitsArgs lang args encodings
      → HaveRoom lang args encodings
      → Succeeds
          (encode_rest lang state instr (raw_args all_args) (extra, raw_args args, encodings))
  unfolding encode_rest
  encode_rest-Succeeds state instr all_args args encodings extra few n h r =
      let enough = length-FitsArgs args encodings h in
      let fine : ltb (length encodings) (length (raw_args args)) ≡ false = ground arith in
      rw fine (
        Succeeds-bind (encode_each lang state (raw_args args) encodings) _
          (encode_each-Succeeds args encodings state n h r)
          (λ blob.
            Succeeds-bind (param_mask_or lang instr.user_param_mask (raw_args all_args)) _
              (param_mask_or-Succeeds instr.user_param_mask all_args few) (λ mask. (_, refl))))

  -- Registers are used only where the language has them.
  abbrev pub RegistersAllowed : List (SimpleArg F) → Type 0
  RegistersAllowed args = All (λ a. a.is_reg ≡ true → lang.has_registers ≡ true) args

  not_reg :
      (b : Bool) → (b ≡ true → lang.has_registers ≡ true) → lang.has_registers ≡ false → b ≡ false
  not_reg true h k = absurd (let clash = h refl in ground arith)
  not_reg false h k = refl

  any_reg-none :
      (args : List (SimpleArg F))
      → lang.has_registers ≡ false
      → RegistersAllowed args
      → any_reg lang (raw_args args) ≡ ok false
  unfolding any_reg
  any_reg-none [] h k = refl
  any_reg-none (a ∷ args) h k = rw (not_reg a.is_reg k.0 h) (any_reg-none args h k.1)

  check_registers-ok :
      (args : List (SimpleArg F))
      → RegistersAllowed args
      → check_registers lang (raw_args args) ≡ ok tt
  unfolding check_registers
  check_registers-ok args h = elim (Bool-cases lang.has_registers) [
    | inl e ↦ rw e refl
    | inr e ↦ rw (e, any_reg-none args e h) refl
  ]

  arg0_value-Succeeds :
      (v : ScalarValue F) (is_reg : Bool)
      → is_reg ≡ false
      → FitsWord v
      → Succeeds (arg0_value lang (raw (record { value = v; is_reg = is_reg })))
  unfolding arg0_value expect_int
  arg0_value-Succeeds (ScalarValue.int x) is_reg r h = rw r (_, refl)
  arg0_value-Succeeds (ScalarValue.float x) is_reg r h = absurd h
  arg0_value-Succeeds (ScalarValue.string x) is_reg r h = absurd h

  -- The extra argument is there once the first argument is taken.
  consume_arg0-Succeeds :
      (extra : Option ℕ) (a : SimpleArg F) (args : List (SimpleArg F))
      → a.is_reg ≡ false
      → FitsWord a.value
      → (x : ℕ) × (consume_arg0 lang extra (raw_args (a ∷ args)) ≡ ok (some x, raw_args args))
  unfolding consume_arg0
  consume_arg0-Succeeds (some x) a args r h = (x, refl)
  consume_arg0-Succeeds none a args r h =
      let value = arg0_value-Succeeds a.value a.is_reg r h in (value.0, rw (value.1) refl)

  take_arg0-Succeeds :
      (extra : Option ℕ) (e : ArgEncoding) (encodings : List ArgEncoding) (a : SimpleArg F)
      (args : List (SimpleArg F))
      → is_arg0 e ≡ true
      → a.is_reg ≡ false
      → FitsValue lang e a.value
      → (x : ℕ) × (take_arg0 lang extra (raw_args (a ∷ args)) (e ∷ encodings)
          ≡ ok (some x, raw_args args, encodings))
  unfolding take_arg0
  take_arg0-Succeeds extra e encodings a args i r h =
      let word : FitsWord a.value =
        subst (λ k. FitsValue lang k a.value) (arg0_encoding e i).1.1 h in
      let consumed = consume_arg0-Succeeds extra a args r word in
      (consumed.0, rw (i, consumed.1) refl)

  padding-NotArg0 : (e : ArgEncoding) → IsPadding e → is_arg0 e ≡ true → ⊥
  unfolding is_padding
  padding-NotArg0 e h i =
      let both : true ≡ false = sym h ∙ ap is_padding (arg0_encoding e i).1.1 in ground arith

  head-Succeeds :
      (state : ArgEncodingState) (instr : LowerInstr F) (args : List (SimpleArg F))
      (encodings : List ArgEncoding)
      → length args ≤ 16
      → All NotArg0 (skip1 encodings)
      → FitsArgs lang args encodings
      → HaveRoom lang args encodings
      → RegistersAllowed args
      → head_is_arg0 encodings ≡ true
      → lang.has_registers ≡ false
      → Succeeds (encode_known lang state instr (raw_args args) encodings)
  unfolding encode_known head_is_arg0 FitsArgs skip1
  head-Succeeds state instr args [] few n h r k i l = absurd (ground arith)
  head-Succeeds state instr [] (e ∷ encodings) few n h r k i l = absurd (padding-NotArg0 e h.0 i)
  head-Succeeds state instr (a ∷ args) (e ∷ encodings) few n h r k i l =
      let split =
        take_arg0-Succeeds instr.explicit_extra_arg e encodings a args i (not_reg a.is_reg k.0 l)
          h.0 in
      rw (split.1)
        (encode_rest-Succeeds state instr (a ∷ args) args encodings (some split.0) few n h.1 r.1)

  All-NotArg0 :
      (encodings : List ArgEncoding)
      → head_is_arg0 encodings ≡ false
      → All NotArg0 (skip1 encodings)
      → All NotArg0 encodings
  unfolding head_is_arg0 skip1
  All-NotArg0 [] i n = tt
  All-NotArg0 (e ∷ encodings) i n = (i, n)

  plain-Succeeds :
      (state : ArgEncodingState) (instr : LowerInstr F) (args : List (SimpleArg F))
      (encodings : List ArgEncoding)
      → length args ≤ 16
      → All NotArg0 encodings
      → FitsArgs lang args encodings
      → HaveRoom lang args encodings
      → head_is_arg0 encodings ≡ false
      → Succeeds (encode_known lang state instr (raw_args args) encodings)
  unfolding encode_known
  plain-Succeeds state instr args encodings few n h r i =
      rw (take_arg0-plain lang instr.explicit_extra_arg (raw_args args) encodings i)
        (encode_rest-Succeeds state instr args args encodings instr.explicit_extra_arg few n h r)

  encode_known-Succeeds :
      (state : ArgEncodingState) (instr : LowerInstr F) (args : List (SimpleArg F))
      (encodings : List ArgEncoding)
      → length args ≤ 16
      → All NotArg0 (skip1 encodings)
      → FitsArgs lang args encodings
      → HaveRoom lang args encodings
      → RegistersAllowed args
      → (head_is_arg0 encodings ≡ true → lang.has_registers ≡ false)
      → Succeeds (encode_known lang state instr (raw_args args) encodings)
  encode_known-Succeeds state instr args encodings few n h r k l =
      elim (Bool-cases (head_is_arg0 encodings)) [
        | inl i ↦ head-Succeeds state instr args encodings few n h r k i (l i)
        | inr i ↦ plain-Succeeds state instr args encodings few (All-NotArg0 encodings i n) h r i
      ]

  -- `encode_args` gives an instruction for at most 16 arguments that fit the encodings of a valid
  -- signature, where every string has room, no string takes part in the furigana bug, registers are
  -- used only in a language that has them, and `arg0` only in one that has none.
  pub encode_args-Succeeds :
      (state : ArgEncodingState) (instr : LowerInstr F) (args : List (SimpleArg F))
      (encodings : List ArgEncoding)
      → instr.args ≡ known (raw_args args)
      → lang.ins_abi instr.opcode ≡ some encodings
      → validate encodings ≡ ok tt
      → length args ≤ 16
      → FitsArgs lang args encodings
      → HaveRoom lang args encodings
      → RegistersAllowed args
      → (head_is_arg0 encodings ≡ true → lang.has_registers ≡ false)
      → Succeeds (encode_args lang state instr)
  unfolding encode_args encode_with_args
  encode_args-Succeeds state instr args encodings a s v few h r k l =
      rw (a, s, check_registers-ok args k)
        (encode_known-Succeeds state instr args encodings few (validate-Shape encodings v).2 h r k
          l)
