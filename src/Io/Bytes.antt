-- ===== src/Io/Bytes.antt =====
-- Numbers and masked bytes are read back as they were written.
use truth.Base.{
  ℕ, zero, suc, ◌+◌, ◌-◌, ◌*◌, ◌/◌, ◌%◌, ◌^◌, ◌<◌, ◌≤◌, bit_xor, ◌≡◌, refl, ap, ap₂, ◌∙◌, arith,
  false, List, [], ◌∷◌, ◌++◌, length, All, ◌==◌,
}
use truth.Base.Run.{ok}
use Prim.Native.Nat.{differ}
use truth.Base.Digits.{bit_xor_step}
use truth.Io.{
  apply_xor_mask, write_u16, write_u32, read_u16, read_u32, resize, trim_first_nul, read_exact,
}

differ_bit : (x y : ℕ) → x < 2 → y < 2 → (differ x y < 2) × (differ (differ x y) y ≡ x)
differ_bit zero zero p q = (omega arith, refl)
differ_bit zero (suc zero) p q = (omega arith, refl)
differ_bit (suc zero) zero p q = (omega arith, refl)
differ_bit (suc zero) (suc zero) p q = (omega arith, refl)
differ_bit (suc (suc x)) y p q = absurd (omega arith)
differ_bit zero (suc (suc y)) p q = absurd (omega arith)
differ_bit (suc zero) (suc (suc y)) p q = absurd (omega arith)

bit_xor-cancel_below : (bound b k : ℕ) → b + k < bound → bit_xor (bit_xor b k) k ≡ b
bit_xor-cancel_below zero b k p = absurd (omega arith)
bit_xor-cancel_below (suc n) zero zero p = refl
bit_xor-cancel_below (suc n) b k p =
    let low = differ_bit (b % 2) (k % 2) (omega arith) (omega arith) in
    let x = bit_xor b k in
    let half : x / 2 ≡ bit_xor (b / 2) (k / 2) = omega (arith, bit_xor_step b k) in
    let bit : x % 2 ≡ differ (b % 2) (k % 2) = omega (arith, bit_xor_step b k) in
    let ih = bit_xor-cancel_below n (b / 2) (k / 2) (omega arith) in
    bit_xor_step x k ∙ rw (half, bit, ih, low.1) (omega arith)

pub read_u16-write_u16 :
    (x : ℕ) (rest : List ℕ) → x < 2 ^ 16 → read_u16 (write_u16 x ++ rest) ≡ ok (x, rest)
unfolding read_u16 write_u16
read_u16-write_u16 x rest h =
    let e : x % 256 + x / 256 % 256 * 256 ≡ x = omega arith in ap (λ y. ok (y, rest)) e

pub read_u32-write_u32 :
    (x : ℕ) (rest : List ℕ) → x < 2 ^ 32 → read_u32 (write_u32 x ++ rest) ≡ ok (x, rest)
unfolding read_u32 write_u32
read_u32-write_u32 x rest h =
    let e : x % 256 + x / 256 % 256 * 256 + x / 2 ^ 16 % 256 * 2 ^ 16 + x / 2 ^ 24 % 256 * 2 ^ 24
        ≡ x =
      omega arith in
    ap (λ y. ok (y, rest)) e

-- A mask that is applied twice gives the bytes back.
pub apply_xor_mask-twice {ℓ} :
    {S : Type ℓ} (next : S → ℕ × S) (mask : S) (bytes : List ℕ)
    → apply_xor_mask next mask (apply_xor_mask next mask bytes) ≡ bytes
unfolding apply_xor_mask
apply_xor_mask-twice next mask [] = refl
apply_xor_mask-twice next mask (b ∷ bytes) =
    let k = (next mask).0 in
    ap₂ (λ x xs. x ∷ xs) (bit_xor-cancel_below (b + k + 1) b k (omega arith))
      (apply_xor_mask-twice next (next mask).1 bytes)

pub length-apply_xor_mask {ℓ} :
    {S : Type ℓ} (next : S → ℕ × S) (mask : S) (bytes : List ℕ)
    → length (apply_xor_mask next mask bytes) ≡ length bytes
unfolding apply_xor_mask
length-apply_xor_mask next mask [] = refl
length-apply_xor_mask next mask (b ∷ bytes) =
    ap suc (length-apply_xor_mask next (next mask).1 bytes)

pub length-resize : (n : ℕ) (xs : List ℕ) → length (resize n xs) ≡ n
unfolding resize
length-resize zero xs = refl
length-resize (suc n) [] = ap suc (length-resize n [])
length-resize (suc n) (x ∷ xs) = ap suc (length-resize n xs)

pub resize-append :
    (n : ℕ) (xs : List ℕ) → length xs ≤ n → resize n xs ≡ xs ++ resize (n - length xs) []
unfolding resize
resize-append n [] h = ap (λ m. resize m []) (omega arith)
resize-append zero (x ∷ xs) h = absurd (omega arith)
resize-append (suc n) (x ∷ xs) h =
    let e : suc n - suc (length xs) ≡ n - length xs = omega arith in
    rw (e, resize-append n xs (omega arith)) refl

pub read_exact-append : (xs rest : List ℕ) → read_exact (length xs) (xs ++ rest) ≡ ok (xs, rest)
unfolding read_exact
read_exact-append [] rest = refl
read_exact-append (x ∷ xs) rest = rw (read_exact-append xs rest) refl

-- Bytes none of which is a terminator.
abbrev pub NoNul : List ℕ → Type 0
NoNul bytes = All (λ b. (b == 0) ≡ false) bytes

pub trim_first_nul-terminated :
    (bytes rest : List ℕ) → NoNul bytes → trim_first_nul (bytes ++ 0 ∷ rest) ≡ bytes
unfolding trim_first_nul
trim_first_nul-terminated [] rest h = refl
trim_first_nul-terminated (b ∷ bytes) rest h =
    rw (h.0, trim_first_nul-terminated bytes rest h.1) refl

pub trim_first_nul-unterminated : (bytes : List ℕ) → NoNul bytes → trim_first_nul bytes ≡ bytes
unfolding trim_first_nul
trim_first_nul-unterminated [] h = refl
trim_first_nul-unterminated (b ∷ bytes) h = rw (h.0, trim_first_nul-unterminated bytes h.1) refl
