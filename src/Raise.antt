-- ===== src/Raise.antt =====
-- src/llir/raise/early.rs: the bytes of an instruction become argument values again.
pub mod Masks
pub mod Values
pub mod Scalars
pub mod RoundTrip
pub mod Instructions
pub mod Total
pub mod OffsetLabels
mod Tests
use truth.Base.{
  ℕ, zero, suc, ◌+◌, ◌-◌, ◌*◌, ◌/◌, ◌%◌, ◌^◌, Bool, true, false, Option, none, some, List, [], ◌∷◌,
  ◌++◌, length, ltb, ◌==◌, if◌then◌else◌,
}
use truth.Base.Run.{Run, ok, err, panic, ◌>>=◌}
use truth.Value.{ScalarValue}
use truth.Io.{
  Encoded, Encoding, decode, apply_xor_mask, trim_first_nul, read_exact, read_u16, read_u32,
}
use truth.Abi.{ArgEncoding, StringArgSize, fixed, block, AcceleratingByteMask, next}
use truth.Lower.{SimpleArg, RawInstr, Language}

pub data EarlyRaiseArgs (F : Type 0) : Type 0 where
  decoded : List (SimpleArg F) → EarlyRaiseArgs F
  -- the mask of registers and the bytes
  unknown : ℕ → List ℕ → EarlyRaiseArgs F

pub record EarlyRaiseInstr (F : Type 0) : Type 0 where
  pub offset : ℕ
  pub time : ℕ
  pub difficulty_mask : ℕ
  pub opcode : ℕ
  pub args : EarlyRaiseArgs F
  pub pseudo_arg0 : Option ℕ

-- `x as i32` for an `i16`.
unfoldable pub sign_extend : ℕ → ℕ
sign_extend x = if ltb x (2 ^ 15) then x else x + (2 ^ 32 - 2 ^ 16)

unfoldable pub contains_nul : Encoded → Bool
contains_nul [] = false
contains_nul (b ∷ bytes) = let more = contains_nul bytes in if b == 0 then true else more

-- A terminator is added where the encoding does without one.
unfoldable pub add_terminator : StringArgSize → Encoded → Encoded
unfolding contains_nul
add_terminator (block _) bytes = bytes
add_terminator (fixed _ false) bytes = bytes
add_terminator (fixed _ true) bytes = if contains_nul bytes then bytes else bytes ++ 0 ∷ []

unfoldable pub read_len : StringArgSize → ℕ → ℕ
read_len (block _) remaining_len = remaining_len
read_len (fixed len _) remaining_len = len

-- The text of the bytes of a string argument.
unfoldable pub decode_string :
    Encoding → StringArgSize → AcceleratingByteMask → Encoded → Run (List ℕ)
unfolding decode add_terminator apply_xor_mask trim_first_nul next
decode_string enc size mask bytes =
    decode enc (trim_first_nul (add_terminator size (apply_xor_mask next mask bytes)))

-- What is left to read: the mask of registers, the bytes and the extra argument.
pub record Unread : Type 0 where
  pub mask : ℕ
  pub blob : List ℕ
  pub arg0 : Option ℕ

module _ {F : Type 0} (lang : Language F) where
  -- A value, the bytes that follow it and the extra argument.
  abbrev pub Decoded : Type 0
  Decoded = ScalarValue F × List ℕ × Option ℕ

  unfoldable pub decode_dword : (ℕ → ScalarValue F) → List ℕ → Option ℕ → Run Decoded
  unfolding read_u32
  decode_dword f blob arg0 = read_u32 blob >>= (λ r. ok (f r.0, r.1, arg0))

  -- The extra argument is taken; there is a panic where there is none.
  unfoldable pub decode_arg0 : List ℕ → Option ℕ → Run Decoded
  unfolding sign_extend
  decode_arg0 blob none = panic
  decode_arg0 blob (some x) = ok (ScalarValue.int (sign_extend x), blob, none)

  unfoldable pub decode_int : ℕ → List ℕ → Option ℕ → Run Decoded
  unfolding decode_dword read_u16 sign_extend
  decode_int size blob arg0 =
      let dword = decode_dword ScalarValue.int blob arg0 in
      let word = read_u16 blob >>= (λ r. ok (ScalarValue.int (sign_extend r.0), r.1, arg0)) in
      if size == 4 then dword else if size == 2 then word else panic

  unfoldable pub decode_value : ArgEncoding → List ℕ → Option ℕ → Run Decoded
  unfolding decode_arg0 decode_int decode_dword read_exact read_len decode_string
  decode_value (ArgEncoding.integer _ _ true) blob arg0 = decode_arg0 blob arg0
  decode_value (ArgEncoding.integer size _ false) blob arg0 = decode_int size blob arg0
  decode_value ArgEncoding.color blob arg0 = decode_dword ScalarValue.int blob arg0
  decode_value ArgEncoding.jump_offset blob arg0 = decode_dword ScalarValue.int blob arg0
  decode_value ArgEncoding.jump_time blob arg0 = decode_dword ScalarValue.int blob arg0
  decode_value ArgEncoding.padding blob arg0 = decode_dword ScalarValue.int blob arg0
  decode_value ArgEncoding.float blob arg0 =
      decode_dword (λ bits. ScalarValue.float (lang.from_bits bits)) blob arg0
  decode_value (ArgEncoding.string size mask _) blob arg0 =
      read_exact (read_len size (length blob)) blob >>= (λ r.
        decode_string lang.strings size mask r.0 >>= (λ s. ok (ScalarValue.string s, r.1, arg0)))

  -- `ByParamMask` or the style of EoSD.
  unfoldable pub decode_is_reg : Option (ScalarValue F → Bool) → Bool → ScalarValue F → Bool
  decode_is_reg none param_mask_bit value = param_mask_bit
  decode_is_reg (some looks_like_a_register) param_mask_bit value = looks_like_a_register value

  unfoldable pub decode_each : List ArgEncoding → Unread → Run (List (SimpleArg F) × Unread)
  unfolding decode_value decode_is_reg
  decode_each [] unread = ok ([], unread)
  decode_each (e ∷ encodings) unread = decode_value e unread.blob unread.arg0 >>= (λ r.
      decode_each encodings (record { mask = unread.mask / 2; blob = r.1; arg0 = r.2 }) >>= (λ rest.
        ok (
          record {
            value = r.0;
            is_reg = decode_is_reg lang.value_is_reg (unread.mask % 2 == 1) r.0;
          }
              ∷ rest.0,
          rest.1,
        )))

  unfoldable pub raise_instr : RawInstr → ℕ → Option ℕ → EarlyRaiseArgs F → EarlyRaiseInstr F
  raise_instr instr instr_offset pseudo_arg0 args = record {
    offset = instr_offset;
    time = instr.time;
    difficulty_mask = instr.difficulty;
    opcode = instr.opcode;
    args = args;
    pseudo_arg0 = pseudo_arg0;
  }

  unfoldable pub decode_args_with_abi : RawInstr → ℕ → List ArgEncoding → Run (EarlyRaiseInstr F)
  unfolding decode_each raise_instr
  decode_args_with_abi instr instr_offset siggy =
      decode_each siggy
        (record { mask = instr.param_mask; blob = instr.args_blob; arg0 = instr.extra_arg })
      >>= (λ r. ok (raise_instr instr instr_offset r.1.arg0 (EarlyRaiseArgs.decoded r.0)))

  unfoldable pub decode_args_or_blob :
      RawInstr → ℕ → Option (List ArgEncoding) → Run (EarlyRaiseInstr F)
  unfolding decode_args_with_abi raise_instr
  decode_args_or_blob instr instr_offset (some abi) = decode_args_with_abi instr instr_offset abi
  decode_args_or_blob instr instr_offset none = ok (
      raise_instr instr instr_offset instr.extra_arg
        (EarlyRaiseArgs.unknown instr.param_mask instr.args_blob))

  -- `Raiser::decode_args`, with the option `arguments`. The set of the opcodes without a signature,
  -- which is for a warning, is left out.
  unfoldable pub decode_args : Bool → RawInstr → ℕ → Run (EarlyRaiseInstr F)
  unfolding decode_args_or_blob
  decode_args arguments instr instr_offset =
      decode_args_or_blob instr instr_offset (if arguments then lang.ins_abi instr.opcode else none)
