-- ===== src/Raise/Masks.antt =====
-- The mask of registers of a list of arguments, and how its bits are read.
use truth.Base.{
  ℕ, zero, suc, ◌+◌, ◌*◌, ◌/◌, ◌%◌, ◌^◌, ◌<◌, ◌≤◌, ◌≡◌, refl, ap, arith, Bool, true, false, List,
  [], ◌∷◌, map, length, length-map, ltb, ◌==◌, bool_to_nat, Bool-cases, inl, inr,
}
use native.Mathlib.Nat.{pow-suc}
use truth.Base.Run.{ok, Ensures}
use truth.Lower.{SimpleArg, LowerArg, raw, Language}
use truth.Lower.Encode.{mask_bits, reg_bit, compute_param_mask}

pub reg_mask_bit :
    (m : ℕ) (b : Bool)
    → ((m * 2 + bool_to_nat b) / 2 ≡ m) × (((m * 2 + bool_to_nat b) % 2 == 1) ≡ b)
reg_mask_bit m true = (omega arith, ground arith)
reg_mask_bit m false = (omega arith, ground arith)

positive_pow : (n : ℕ) → zero < 2 ^ n
positive_pow zero = omega arith
positive_pow (suc n) = omega (arith, positive_pow n, pow-suc 2 n)

module _ {F : Type 0} where
  abbrev pub raw_args : List (SimpleArg F) → List (LowerArg F)
  raw_args args = map (λ a. raw a) args

  -- The bit of the first argument is the lowest one.
  unfoldable pub reg_mask : List (SimpleArg F) → ℕ
  reg_mask [] = 0
  reg_mask (a ∷ args) = reg_mask args * 2 + bool_to_nat a.is_reg

  reg_mask-lt : (n : ℕ) (args : List (SimpleArg F)) → length args ≤ n → reg_mask args < 2 ^ n
  unfolding reg_mask
  reg_mask-lt n [] h = positive_pow n
  reg_mask-lt zero (a ∷ args) h = absurd (omega arith)
  reg_mask-lt (suc n) (a ∷ args) h =
      let small = reg_mask-lt n args (omega arith) in ground (arith, small, pow-suc 2 n)

  pub mask_bits-reg_mask :
      (lang : Language F) (args : List (SimpleArg F))
      → length args ≤ 16
      → mask_bits lang (raw_args args) ≡ ok (reg_mask args)
  unfolding mask_bits reg_bit reg_mask
  mask_bits-reg_mask lang [] h = refl
  mask_bits-reg_mask lang (a ∷ args) h =
      let small = reg_mask-lt 15 args (omega arith) in
      rw (mask_bits-reg_mask lang args (omega arith)) (ap ok (ground arith))

  pub compute_param_mask-Ensures :
      (lang : Language F) (args : List (SimpleArg F))
      → Ensures (λ m. m ≡ reg_mask args) (compute_param_mask lang (raw_args args))
  unfolding compute_param_mask
  compute_param_mask-Ensures lang args =
      let same : length (raw_args args) ≡ length args = length-map args _ in
      elim (Bool-cases (ltb 16 (length (raw_args args)))) [
        | inl e ↦ rw e tt
        | inr e ↦
            let few : length args ≤ 16 = ground arith in
            rw (e, mask_bits-reg_mask lang args few) refl
      ]
