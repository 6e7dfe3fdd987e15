-- ===== src/Lower/Encode.antt =====
-- `encode_args` of src/llir/lower.rs: the argument values of an instruction become its bytes.
use truth.Base.{
  ℕ, ◌+◌, ◌*◌, ◌%◌, ◌^◌, Bool, true, false, ◌&&◌, Option, none, some, List, [], ◌∷◌, ◌++◌, length,
  ltb, ◌==◌, if◌then◌else◌, bool_to_nat,
}
use truth.Base.Run.{Run, ok, err, panic, ◌>>=◌, expect}
use truth.Io.{Encoded, Encoding, encode, resize, apply_xor_mask, null_pad, write_u16, write_u32}
use truth.Abi.{
  ArgEncoding, StringArgSize, fixed, block, AcceleratingByteMask, next, is_arg0, is_padding,
}
use truth.Lower.{
  SimpleArg, RawInstr, LowerArg, raw, diff_switch, local, label, time_of, LowerArgs, known, unknown,
  LowerInstr, Language, expect_raw, expect_int, expect_float, expect_string,
}

-- `ArgEncodingState::furibug_bytes`
abbrev pub ArgEncodingState : Type 0
ArgEncodingState = Option Encoded

unfoldable pub terminate : StringArgSize → Encoded → Encoded
terminate (block _) bytes = bytes ++ 0 ∷ []
terminate (fixed _ false) bytes = bytes ++ 0 ∷ []
terminate (fixed _ true) bytes = bytes

-- The bytes of an earlier string are taken from the state and follow.
unfoldable pub add_furibug : Bool → ArgEncodingState → Encoded → Encoded × ArgEncodingState
add_furibug false state bytes = (bytes, state)
add_furibug true none bytes = (bytes, none)
add_furibug true (some furibug_bytes) bytes = (bytes ++ furibug_bytes, none)

unfoldable pub pad_to_size : StringArgSize → Encoded → Run Encoded
unfolding null_pad resize
pad_to_size (block block_size) bytes =
    let padded = null_pad block_size bytes in
    if block_size == 0 then panic else if length bytes % block_size == 0 then ok bytes else padded
pad_to_size (fixed len _) bytes = if ltb len (length bytes) then err else ok (resize len bytes)

unfoldable pub starts_with_bar : List ℕ → Bool
starts_with_bar [] = false
starts_with_bar (c ∷ _) = c == 124

unfoldable pub remember : Bool → List ℕ → Encoded → ArgEncodingState → ArgEncodingState
unfolding starts_with_bar
remember furibug s masked state = if furibug && starts_with_bar s then some masked else state

unfoldable pub encode_string :
    Encoding
    → ArgEncodingState
    → StringArgSize
    → AcceleratingByteMask
    → Bool
    → List ℕ
    → Run (Encoded × ArgEncodingState)
unfolding encode terminate add_furibug pad_to_size apply_xor_mask remember next
encode_string enc state size mask furibug s = encode enc s >>= (λ bytes.
    let extended = add_furibug furibug state (terminate size bytes) in
    pad_to_size size extended.0 >>= (λ padded.
      let masked = apply_xor_mask next mask padded in
      ok (masked, remember furibug s masked extended.1)))

module _ {F : Type 0} (lang : Language F) where
  -- `write_i32(arg.expect_raw().expect_int())`, and `write_i16` of the value cast to 16 bits.
  unfoldable pub encode_int : ℕ → ArgEncodingState → SimpleArg F → Run (Encoded × ArgEncodingState)
  unfolding expect_int write_u16 write_u32
  encode_int size state a = expect_int a >>= (λ x.
      if size == 4
      then ok (write_u32 x, state)
      else if size == 2
      then ok (write_u16 (x % 2 ^ 16), state)
      else panic)

  unfoldable pub encode_simple :
      ArgEncodingState → ArgEncoding → SimpleArg F → Run (Encoded × ArgEncodingState)
  unfolding encode_int expect_float expect_string encode_string write_u32
  encode_simple state ArgEncoding.color a = encode_int 4 state a
  encode_simple state ArgEncoding.jump_offset a = encode_int 4 state a
  encode_simple state ArgEncoding.jump_time a = encode_int 4 state a
  encode_simple state ArgEncoding.padding a = encode_int 4 state a
  encode_simple state (ArgEncoding.integer _ _ true) a = panic
  encode_simple state (ArgEncoding.integer size _ false) a = encode_int size state a
  encode_simple state ArgEncoding.float a =
      expect_float a >>= (λ x. ok (write_u32 (lang.to_bits x), state))
  encode_simple state (ArgEncoding.string size mask furibug) a =
      expect_string a >>= encode_string lang.strings state size mask furibug

  -- The encodings that have no argument left: the assertion is that they are padding.
  unfoldable pub encode_missing : List ArgEncoding → Run Encoded
  unfolding is_padding write_u32
  encode_missing [] = ok []
  encode_missing (e ∷ encodings) =
      let more = encode_missing encodings >>= (λ bytes. ok (write_u32 0 ++ bytes)) in
      if is_padding e then more else panic

  -- The loop over the arguments, then the one over the encodings that are left.
  unfoldable pub encode_each :
      ArgEncodingState → List (LowerArg F) → List ArgEncoding → Run (Encoded × ArgEncodingState)
  unfolding encode_simple encode_missing expect_raw
  encode_each state [] encodings = encode_missing encodings >>= (λ bytes. ok (bytes, state))
  encode_each state (a ∷ args) [] = ok ([], state)
  encode_each state (a ∷ args) (e ∷ encodings) =
      expect_raw a
      >>= encode_simple state e
      >>= (λ first. encode_each first.1 args encodings >>= (λ rest. ok (first.0 ++ rest.0, rest.1)))

  unfoldable pub any_reg : List (LowerArg F) → Run Bool
  unfolding expect_raw
  any_reg [] = ok false
  any_reg (a ∷ args) =
      let more = any_reg args in
      expect_raw a >>= (λ simple. if simple.is_reg then ok true else more)

  -- The first argument is cast to `i16`.
  unfoldable pub arg0_value : LowerArg F → Run ℕ
  unfolding expect_raw expect_int
  arg0_value a =
      expect_raw a
      >>= (λ simple. if simple.is_reg then panic else expect_int simple >>= (λ x. ok (x % 2 ^ 16)))

  unfoldable pub consume_arg0 : Option ℕ → List (LowerArg F) → Run (Option ℕ × List (LowerArg F))
  unfolding arg0_value
  consume_arg0 extra [] = panic
  consume_arg0 (some x) (a ∷ args) = ok (some x, args)
  consume_arg0 none (a ∷ args) = arg0_value a >>= (λ x. ok (some x, args))

  -- The extra argument, and the arguments and encodings that remain for the blob.
  unfoldable pub take_arg0 :
      Option ℕ
      → List (LowerArg F)
      → List ArgEncoding
      → Run (Option ℕ × List (LowerArg F) × List ArgEncoding)
  unfolding consume_arg0 is_arg0
  take_arg0 extra args [] = ok (extra, args, [])
  take_arg0 extra args (e ∷ encodings) =
      let consumed = consume_arg0 extra args >>= (λ r. ok (r.0, r.1, encodings)) in
      if is_arg0 e then consumed else ok (extra, args, e ∷ encodings)

  -- The bit of an argument in the mask of registers.
  unfoldable pub reg_bit : LowerArg F → Run ℕ
  reg_bit (raw a) = ok (bool_to_nat a.is_reg)
  reg_bit (time_of _) = ok 0
  reg_bit (label _) = ok 0
  reg_bit (local _ _) = ok 1
  reg_bit (diff_switch _) = panic

  -- The loop of `compute_param_mask`, from the last argument to the first.
  unfoldable pub mask_bits : List (LowerArg F) → Run ℕ
  unfolding reg_bit
  mask_bits [] = ok 0
  mask_bits (a ∷ args) =
      mask_bits args >>= (λ mask. reg_bit a >>= (λ bit. ok ((mask * 2 + bit) % 2 ^ 16)))

  unfoldable pub compute_param_mask : List (LowerArg F) → Run ℕ
  unfolding mask_bits
  compute_param_mask args = if ltb 16 (length args) then err else mask_bits args

  unfoldable pub param_mask_or : Option ℕ → List (LowerArg F) → Run ℕ
  unfolding compute_param_mask
  param_mask_or (some user_provided_mask) args = ok user_provided_mask
  param_mask_or none args = compute_param_mask args

  unfoldable pub raw_instr : LowerInstr F → ℕ → Encoded → Option ℕ → RawInstr
  raw_instr instr mask blob extra = record {
    time = instr.stmt_data.stmt_time;
    opcode = instr.opcode;
    param_mask = mask;
    args_blob = blob;
    difficulty = instr.stmt_data.difficulty_mask % 256;
    pop = 0;
    extra_arg = extra;
  }

  -- `u16` masks of the user are taken as they are; without one, 0 for a blob.
  unfoldable pub mask_or_zero : Option ℕ → ℕ
  mask_or_zero none = 0
  mask_or_zero (some mask) = mask

  -- What is left after `arg0`: the blob and the mask. The mask is computed from all of the arguments.
  unfoldable pub encode_rest :
      ArgEncodingState
      → LowerInstr F
      → List (LowerArg F)
      → Option ℕ × List (LowerArg F) × List ArgEncoding
      → Run (RawInstr × ArgEncodingState)
  unfolding encode_each param_mask_or raw_instr
  encode_rest state instr args split =
      let encoded = encode_each state split.1 split.2 >>= (λ blob.
        param_mask_or instr.user_param_mask args
        >>= (λ mask. ok (raw_instr instr mask blob.0 split.0, blob.1))) in
      if ltb (length split.2) (length split.1) then panic else encoded

  unfoldable pub encode_known :
      ArgEncodingState
      → LowerInstr F
      → List (LowerArg F)
      → List ArgEncoding
      → Run (RawInstr × ArgEncodingState)
  unfolding take_arg0 encode_rest
  encode_known state instr args encodings =
      take_arg0 instr.explicit_extra_arg args encodings >>= encode_rest state instr args

  -- A register in a language that has none is an error.
  unfoldable pub check_registers : List (LowerArg F) → Run {0} Unit
  unfolding any_reg
  check_registers args =
      let found = any_reg args >>= (λ reg. if reg then err else ok tt) in
      if lang.has_registers then ok tt else found

  unfoldable pub encode_with_args :
      ArgEncodingState → LowerInstr F → LowerArgs F → Run (RawInstr × ArgEncodingState)
  unfolding encode_known check_registers raw_instr mask_or_zero
  encode_with_args state instr (unknown blob) =
      ok (raw_instr instr (mask_or_zero instr.user_param_mask) blob instr.explicit_extra_arg, state)
  encode_with_args state instr (known args) =
      check_registers args
      >>= (λ _. expect (lang.ins_abi instr.opcode) >>= encode_known state instr args)

  unfoldable pub encode_args : ArgEncodingState → LowerInstr F → Run (RawInstr × ArgEncodingState)
  unfolding encode_with_args
  encode_args state instr = encode_with_args state instr instr.args
