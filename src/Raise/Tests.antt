-- ===== src/Raise/Tests.antt =====
-- The instruction `ins_3(7, REG[2], "ab")` with the signature `sSz(bs=4)`, of which one word is in the
-- header, and the theorems at it.
use truth.Base.{◌≡◌, refl, arith, true, false, none, some, List, [], ◌∷◌, inl, inr}
use truth.Base.Run.{ok, Ensures}
use truth.Value.{ScalarValue}
use truth.Io.{Encoding}
use truth.Abi.{ArgEncoding, fixed, block, AcceleratingByteMask, next, validate, rev, is_arg0}
use truth.Lower.{SimpleArg, RawInstr, Language, LowerInstr, known}
use truth.Lower.Encode.{encode_args}
use truth.Raise.{sign_extend, decode_args, raise_instr, EarlyRaiseArgs}
use truth.Raise.Scalars.{KeepsFloats}
use truth.Raise.Masks.{raw_args}
use truth.Raise.RoundTrip.{FitsArgs, with_padding}
use truth.Raise.Instructions.{raised_arg0, head_is_arg0, decode_args-encode_args}
use truth.Raise.OffsetLabels.{
  label_at, label_after, generate_label_at_offset, generate_label_at_offset-Labels, Labels,
  generate_offset_labels, gather_instr_offsets,
}
use truth.Raise.OffsetLabels.Bounds.{NoPanic, generate_offset_labels-NoPanic}
use truth.Raise.Total.{Succeeds, encode_args-Succeeds}

-- Text is encoded as its code points; the floats have one value.
abbrev plain_text : Encoding
plain_text = record { encode_text = λ s. some s; decode_bytes = λ bytes. some bytes }

abbrev signature : List ArgEncoding
signature =
    ArgEncoding.integer 4 none false
    ∷ ArgEncoding.integer 2 none false
    ∷ ArgEncoding.string (block 4) (record { mask = 0x77; vel = 7; accel = 16 }) false
    ∷ []

abbrev language : Language (Unit {0})
language = record {
  has_registers = true;
  instr_header_size = 8;
  encode_label = λ cur dest. dest;
  ins_abi = λ opcode. some signature;
  value_is_reg = none;
  strings = plain_text;
  to_bits = λ x. 0;
  from_bits = λ bits. tt;
}

abbrev args : List (SimpleArg (Unit {0}))
args =
    record { value = ScalarValue.int 7; is_reg = false }
    ∷ record { value = ScalarValue.int 2; is_reg = true }
    ∷ record { value = ScalarValue.string (97 ∷ 98 ∷ []); is_reg = false }
    ∷ []

abbrev instruction : LowerInstr (Unit {0})
instruction = record {
  stmt_data = record { stmt_time = 10; difficulty_mask = 255 };
  opcode = 3;
  explicit_extra_arg = none;
  user_param_mask = none;
  args = known (raw_args args);
}

abbrev instruction_bytes : RawInstr
instruction_bytes = record {
  time = 10;
  opcode = 3;
  param_mask = 2;
  args_blob = 7 ∷ 0 ∷ 0 ∷ 0 ∷ 2 ∷ 0 ∷ 0x16 ∷ 0x1c ∷ 0x95 ∷ 0xbc ∷ [];
  difficulty = 255;
  pop = 0;
  extra_arg = none;
}

encode_args_test : encode_args language none instruction ≡ ok (instruction_bytes, none)
unfolding encode_args
encode_args_test = refl

decode_args_test :
    decode_args language true instruction_bytes 0
    ≡ ok (raise_instr language instruction_bytes 0 none (EarlyRaiseArgs.decoded args))
unfolding decode_args
decode_args_test = refl

keeps : KeepsFloats language
keeps = λ x. (omega arith, refl)

args-Fit : FitsArgs language args signature
unfolding FitsArgs sign_extend
args-Fit = (
  inl (refl, omega arith),
  (inr (refl, refl), (((97 ∷ 98 ∷ [], refl, refl, (refl, (refl, tt))), tt), tt)),
)

signature_is_valid : validate signature ≡ ok tt
unfolding validate truth.Abi.is_jump_offset truth.Abi.is_jump_time truth.Abi.is_block
    truth.Abi.is_padding truth.Abi.is_arg0
signature_is_valid = refl

decode_args-encode_args_example :
    Ensures
      (λ r.
        decode_args language true r.0 0
        ≡ ok (raise_instr language r.0 0 none (EarlyRaiseArgs.decoded args)))
      (encode_args language none instruction)
unfolding raised_arg0 with_padding
decode_args-encode_args_example =
    decode_args-encode_args language keeps refl none instruction args signature 0 refl refl refl
      signature_is_valid args-Fit (unfold head_is_arg0 is_arg0 in λ h. refl)

encode_args-Succeeds_example : Succeeds (encode_args language none instruction)
encode_args-Succeeds_example =
    encode_args-Succeeds language none instruction args signature refl refl signature_is_valid
      (omega arith) args-Fit (tt, (tt, ((refl, λ bytes e. refl), tt)))
      (λ _. refl, (λ _. refl, (λ _. refl, tt)))
      (unfold head_is_arg0 is_arg0 in λ h. absurd (ground arith))

label_after_test :
    generate_label_at_offset (100, 10) (116, 20) (some 10 ∷ [])
    ≡ record { label = label_after 100; time_label = 10 }
unfolding generate_label_at_offset
label_after_test = refl

label_of_two_times_test :
    generate_label_at_offset (100, 10) (116, 20) (some 10 ∷ some 16 ∷ [])
    ≡ record { label = label_at 116; time_label = 20 }
unfolding generate_label_at_offset
label_of_two_times_test = refl

generate_label_at_offset-Labels_example :
    Labels
      (100, 10)
      (116, 20)
      (some 10 ∷ [])
      (generate_label_at_offset (100, 10) (116, 20) (some 10 ∷ []))
generate_label_at_offset-Labels_example =
    generate_label_at_offset-Labels (100, 10) (116, 20) (some 10 ∷ [])

generate_offset_labels-NoPanic_example :
    NoPanic
      (λ _. Unit {0})
      (generate_offset_labels
        (raise_instr language instruction_bytes 0 none (EarlyRaiseArgs.decoded args) ∷ [])
        (gather_instr_offsets language (instruction_bytes ∷ []))
        ((18, none ∷ []) ∷ []))
generate_offset_labels-NoPanic_example =
    generate_offset_labels-NoPanic language (instruction_bytes ∷ [])
      (raise_instr language instruction_bytes 0 none (EarlyRaiseArgs.decoded args) ∷ [])
      ((18, none ∷ []) ∷ []) (omega arith) refl
