-- ===== src/Abi/Tests.antt =====
-- Signatures of the tests of src/llir/abi.rs.
use truth.Base.{◌≤◌, ◌≡◌, refl, none, List, [], ◌∷◌, false, All}
use truth.Base.Run.{ok, err}
use truth.Abi.{
  ArgEncoding, fixed, block, AcceleratingByteMask, constant, dword, validate, count_if,
  is_jump_offset, is_jump_time, skip1,
}
use truth.Abi.Shape.{NotArg0, Followed, EndsBlock, OnlyPadding, validate-Shape}

-- `Sotz(bs=4)`
abbrev jump_signature : List ArgEncoding
jump_signature =
    ArgEncoding.integer 4 none false
    ∷ ArgEncoding.jump_offset
    ∷ ArgEncoding.jump_time
    ∷ ArgEncoding.string (block 4) (record { mask = 0; vel = 0; accel = 0 }) false
    ∷ []

-- `St`
time_without_offset : validate (dword ∷ ArgEncoding.jump_time ∷ []) ≡ err
unfolding validate dword is_jump_offset is_jump_time
time_without_offset = refl

-- `z(bs=4)S`
string_before_end : validate (ArgEncoding.string (block 4) (constant 0) false ∷ dword ∷ []) ≡ err
unfolding validate dword constant is_jump_offset is_jump_time truth.Abi.is_arg0 truth.Abi.is_block
string_before_end = refl

jump_signature_is_valid : validate jump_signature ≡ ok tt
unfolding validate truth.Abi.is_jump_offset truth.Abi.is_jump_time truth.Abi.is_block
    truth.Abi.is_padding truth.Abi.is_arg0
jump_signature_is_valid = refl

validate-Shape_example :
    (count_if is_jump_offset jump_signature ≤ 1)
    × (count_if is_jump_time jump_signature ≤ count_if is_jump_offset jump_signature)
    × All NotArg0 (skip1 jump_signature)
    × Followed EndsBlock jump_signature
    × Followed OnlyPadding jump_signature
validate-Shape_example = validate-Shape jump_signature jump_signature_is_valid
