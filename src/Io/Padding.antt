-- ===== src/Io/Padding.antt =====
-- The sizes of `null_pad` in src/io.rs: whole blocks with room for a terminator.
use native.Mathlib.Nat.{mod-lt, div-add-mod', suc-mul}
use truth.Base.{
  ℕ, zero, suc, ◌+◌, ◌-◌, ◌*◌, ◌/◌, ◌%◌, ◌<◌, ◌≤◌, ◌≡◌, sym, subst, ◌∙◌, arith, false, ◌==◌,
  Bool-cases, inl, inr,
}
use truth.Io.{padded_size}

-- `n` is `q + 1` times the size of a block.
abbrev pub IsBlocks : ℕ → ℕ → ℕ → Type 0
IsBlocks zero bs n = n ≡ bs
IsBlocks (suc q) bs n = (m : ℕ) × ((n ≡ bs + m) × IsBlocks q bs m)

pub IsBlocks-le : (q bs n : ℕ) → IsBlocks q bs n → bs ≤ n
IsBlocks-le zero bs n h = omega arith
IsBlocks-le (suc q) bs n h = let e = h.1.0 in omega arith

pub IsBlocks-count : (q bs n : ℕ) → zero < bs → IsBlocks q bs n → q < n
IsBlocks-count zero bs n p h = omega arith
IsBlocks-count (suc q) bs n p h =
    let e = h.1.0 in let rest = IsBlocks-count q bs h.0 p h.1.1 in omega arith

IsBlocks-multiple : (q bs : ℕ) → IsBlocks q bs (suc q * bs)
IsBlocks-multiple zero bs = omega arith
IsBlocks-multiple (suc q) bs =
    (suc q * bs, (suc-mul (suc q) bs ∙ omega arith, IsBlocks-multiple q bs))

-- A text of `len` bytes is padded with `k + 1` zeros to whole blocks.
abbrev pub Padding : ℕ → ℕ → Type 0
Padding len bs =
    (q : ℕ) × ((k : ℕ) × ((padded_size (len + 1) bs ≡ len + suc k)
        × ((suc k ≤ bs) × IsBlocks q bs (len + suc k))))

padding_exact : (len bs d : ℕ) → zero < bs → (len + 1) % bs ≡ 0 → len + 1 ≡ d * bs → Padding len bs
unfolding padded_size
padding_exact len bs zero p r e = absurd (omega arith)
padding_exact len bs (suc d) p r e =
    (d, (0, (rw r (omega arith), (p, subst (IsBlocks d bs) (sym e) (IsBlocks-multiple d bs)))))

padding_rest :
    (len bs d : ℕ)
    → ((len + 1) % bs == 0) ≡ false
    → (len + 1) % bs < bs
    → ((len + 1) % bs ≡ 0 → ⊥)
    → len + 1 ≡ d * bs + (len + 1) % bs
    → Padding len bs
unfolding padded_size
padding_rest len bs d r m ne e =
    let size : suc d * bs ≡ len + suc (bs - (len + 1) % bs) = suc-mul d bs ∙ omega arith in
    (
      d,
      (
        bs - (len + 1) % bs,
        (rw r (omega arith), (omega arith, subst (IsBlocks d bs) size (IsBlocks-multiple d bs))),
      ),
    )

pub padding : (len bs : ℕ) → zero < bs → Padding len bs
padding len bs p =
    let whole : len + 1 ≡ (len + 1) / bs * bs + (len + 1) % bs = sym (div-add-mod' (len + 1) bs) in
    elim (Bool-cases ((len + 1) % bs == 0)) [
      | inl t ↦
          let r : (len + 1) % bs ≡ 0 = ground arith in
          padding_exact len bs ((len + 1) / bs) p r (whole ∙ omega arith)
      | inr f ↦
          padding_rest len bs ((len + 1) / bs) f (mod-lt (len + 1) p) (λ r. ground arith) whole
    ]

pub padded_size-positive : (bs : ℕ) → zero < bs → (bs == 0) ≡ false
padded_size-positive bs p = ground arith
