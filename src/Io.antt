-- ===== src/Io.antt =====
-- src/io.rs: the bytes of strings and numbers in binary files. Bytes are numbers below 256; warnings
-- are left out. The encoding of strings (`encoding_rs`) is a parameter.
pub mod Bytes
pub mod Cstring
pub mod Padding
mod Tests
use truth.Base.{
  ℕ, zero, suc, ◌+◌, ◌-◌, ◌*◌, ◌/◌, ◌%◌, ◌^◌, bit_xor, Bool, true, false, Option, none, some, List,
  [], ◌∷◌, ◌++◌, length, ltb, leb, ◌==◌, if◌then◌else◌,
}
use truth.Base.Run.{Run, ok, err, panic, out_of_fuel, ◌>>=◌}

-- The encoder and the decoder of the user's encoding; `none` is text or bytes that it cannot represent.
-- Text is a list of code points.
pub record Encoding : Type 0 where
  pub encode_text : List ℕ → Option (List ℕ)
  pub decode_bytes : List ℕ → Option (List ℕ)

abbrev pub Encoded : Type 0
Encoded = List ℕ

-- `Encoded::encode` and `Encoded::decode`
unfoldable pub ok_or_err {ℓ} : {A : Type ℓ} → Option A → Run A
ok_or_err none = err
ok_or_err (some a) = ok a

unfoldable pub encode : Encoding → List ℕ → Run Encoded
unfolding ok_or_err
encode enc s = ok_or_err (enc.encode_text s)

unfoldable pub decode : Encoding → Encoded → Run (List ℕ)
unfolding ok_or_err
decode enc bytes = ok_or_err (enc.decode_bytes bytes)

-- `Vec::resize` with zeros.
unfoldable pub resize : ℕ → List ℕ → List ℕ
resize zero xs = []
resize (suc n) [] = 0 ∷ resize n []
resize (suc n) (x ∷ xs) = x ∷ resize n xs

unfoldable pub fit_buffer : ℕ → Encoded → Run Encoded
unfolding resize
fit_buffer buf_size encoded =
    if leb buf_size (length encoded) then err else ok (resize buf_size encoded)

unfoldable pub encode_fixed_size : Encoding → List ℕ → ℕ → Run Encoded
unfolding encode fit_buffer
encode_fixed_size enc s buf_size = encode enc s >>= fit_buffer buf_size

-- The mask is an endless iterator with state `S`.
unfoldable pub apply_xor_mask {ℓ} : {S : Type ℓ} → (S → ℕ × S) → S → Encoded → Encoded
apply_xor_mask next mask [] = []
apply_xor_mask next mask (b ∷ bytes) =
    bit_xor b (next mask).0 ∷ apply_xor_mask next (next mask).1 bytes

unfoldable pub trim_first_nul : Encoded → Encoded
trim_first_nul [] = []
trim_first_nul (b ∷ bytes) = let rest = b ∷ trim_first_nul bytes in if b == 0 then [] else rest

-- The ceiling of `min_size` among the multiples of the size of a block.
unfoldable pub padded_size : ℕ → ℕ → ℕ
padded_size min_size block_size =
    if min_size % block_size == 0 then min_size else min_size + block_size - min_size % block_size

-- The remainder by a block size of zero panics.
unfoldable pub null_pad : ℕ → Encoded → Run Encoded
unfolding padded_size
null_pad block_size encoded =
    if block_size == 0
    then panic
    else ok (resize (padded_size (length encoded + 1) block_size) encoded)

-- `BinWrite::write_cstring`: the bytes that are written.
unfoldable pub write_cstring : ℕ → Encoded → Run (List ℕ)
unfolding null_pad
write_cstring block_size s = null_pad block_size s

-- `read_exact`: the bytes that are read and what remains of the input.
unfoldable pub read_exact : ℕ → List ℕ → Run (List ℕ × List ℕ)
read_exact zero input = ok ([], input)
read_exact (suc n) [] = err
read_exact (suc n) (b ∷ input) = read_exact n input >>= (λ r. ok (b ∷ r.0, r.1))

unfoldable pub ends_with_nul : List ℕ → Bool
ends_with_nul [] = false
ends_with_nul (b ∷ []) = b == 0
ends_with_nul (_ ∷ b ∷ bytes) = ends_with_nul (b ∷ bytes)

-- The first loop of `read_cstring_blockwise`, on fuel: `out` has been read.
unfoldable pub read_blocks : ℕ → ℕ → List ℕ → List ℕ → Run (List ℕ × List ℕ)
unfolding read_exact ends_with_nul
read_blocks zero block_size out input = out_of_fuel
read_blocks (suc fuel) block_size out input =
    let more =
      read_exact block_size input >>= (λ r. read_blocks fuel block_size (out ++ r.0) r.1) in
    if ends_with_nul out then ok (out, input) else more

-- The second loop: zeros are popped from the end.
unfoldable pub pop_nuls : List ℕ → List ℕ
pop_nuls [] = []
pop_nuls (b ∷ bytes) = elim (pop_nuls bytes) [
  | [] ↦ if b == 0 then [] else b ∷ []
  | c ∷ rest ↦ b ∷ c ∷ rest
]

-- Each round reads at least one byte, so that the length of the input bounds the rounds.
unfoldable pub read_cstring_blockwise : ℕ → List ℕ → Run (Encoded × List ℕ)
unfolding read_blocks pop_nuls
read_cstring_blockwise block_size input =
    if block_size == 0
    then panic
    else read_blocks (length input + 2) block_size [] input >>= (λ r. ok (pop_nuls r.0, r.1))

unfoldable pub read_cstring_exact : ℕ → List ℕ → Run (Encoded × List ℕ)
unfolding read_exact trim_first_nul
read_cstring_exact num_bytes input =
    read_exact num_bytes input >>= (λ r. ok (trim_first_nul r.0, r.1))

unfoldable pub write_u8 : ℕ → List ℕ
write_u8 x = x % 256 ∷ []

unfoldable pub read_u8 : List ℕ → Run (ℕ × List ℕ)
read_u8 [] = err
read_u8 (b ∷ input) = ok (b, input)

-- `i16` and `i32` are bit patterns; a number is written with its lowest byte first.
unfoldable pub write_u16 : ℕ → List ℕ
write_u16 x = x % 256 ∷ x / 256 % 256 ∷ []

unfoldable pub write_u32 : ℕ → List ℕ
write_u32 x = x % 256 ∷ x / 256 % 256 ∷ x / 2 ^ 16 % 256 ∷ x / 2 ^ 24 % 256 ∷ []

unfoldable pub read_u16 : List ℕ → Run (ℕ × List ℕ)
read_u16 (a ∷ b ∷ input) = ok (a + b * 256, input)
read_u16 _ = err

unfoldable pub read_u32 : List ℕ → Run (ℕ × List ℕ)
read_u32 (a ∷ b ∷ c ∷ d ∷ input) = ok (a + b * 256 + c * 2 ^ 16 + d * 2 ^ 24, input)
read_u32 _ = err
