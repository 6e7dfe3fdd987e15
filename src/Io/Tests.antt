-- ===== src/Io/Tests.antt =====
-- Runs of the functions on bytes: those of the test of src/io.rs.
use truth.Base.{◌≡◌, refl, [], ◌∷◌, ◌++◌, arith}
use truth.Base.Run.{ok, ◌>>=◌}
use truth.Io.{write_cstring, read_cstring_blockwise, apply_xor_mask}
use truth.Io.Cstring.{read_cstring_blockwise-write_cstring}
use truth.Io.Bytes.{apply_xor_mask-twice}
use truth.Abi.{AcceleratingByteMask, next}

write_cstring_test : write_cstring 4 (1 ∷ 2 ∷ 3 ∷ 4 ∷ []) ≡ ok (1 ∷ 2 ∷ 3 ∷ 4 ∷ 0 ∷ 0 ∷ 0 ∷ 0 ∷ [])
unfolding write_cstring truth.Io.resize
write_cstring_test = refl

read_cstring_blockwise_test :
    read_cstring_blockwise 4 (1 ∷ 2 ∷ 3 ∷ 0 ∷ 0 ∷ 0 ∷ []) ≡ ok (1 ∷ 2 ∷ 3 ∷ [], 0 ∷ 0 ∷ [])
unfolding read_cstring_blockwise
read_cstring_blockwise_test = refl

abbrev accelerating : AcceleratingByteMask
accelerating = record { mask = 0x77; vel = 7; accel = 16 }

apply_xor_mask-twice_example :
    apply_xor_mask next accelerating (apply_xor_mask next accelerating (97 ∷ 98 ∷ 0 ∷ []))
    ≡ 97 ∷ 98 ∷ 0 ∷ []
apply_xor_mask-twice_example = apply_xor_mask-twice next accelerating (97 ∷ 98 ∷ 0 ∷ [])

read_cstring_blockwise-write_cstring_example :
    (write_cstring 4 (1 ∷ 2 ∷ 3 ∷ 4 ∷ []) >>= (λ out. read_cstring_blockwise 4 (out ++ 9 ∷ [])))
    ≡ ok (1 ∷ 2 ∷ 3 ∷ 4 ∷ [], 9 ∷ [])
read_cstring_blockwise-write_cstring_example =
    read_cstring_blockwise-write_cstring 4 (1 ∷ 2 ∷ 3 ∷ 4 ∷ []) (9 ∷ []) (omega arith)
      (refl, (refl, (refl, (refl, tt))))
