-- ===== src/Io/Cstring.antt =====
-- A string that is written in blocks is read back by blocks.
use truth.Base.{
  ℕ, zero, suc, ◌+◌, ◌<◌, ◌≤◌, ◌≡◌, refl, sym, ap, subst, ◌∙◌, arith, true, false, List, [], ◌∷◌,
  ◌++◌, length, length-append, All-append, All-split, split_at, ◌==◌,
}
use truth.Base.Run.{ok, ◌>>=◌}
use truth.Io.{
  resize, read_exact, ends_with_nul, read_blocks, pop_nuls, padded_size, write_cstring,
  read_cstring_blockwise,
}
use truth.Io.Padding.{IsBlocks, IsBlocks-le, IsBlocks-count, padding, padded_size-positive}
use truth.Io.Bytes.{NoNul, length-resize, resize-append, read_exact-append}

abbrev nuls : ℕ → List ℕ
nuls k = resize k []

join_assoc : (xs ys zs : List ℕ) → (xs ++ ys) ++ zs ≡ xs ++ (ys ++ zs)
join_assoc [] ys zs = refl
join_assoc (x ∷ xs) ys zs = ap (λ l. x ∷ l) (join_assoc xs ys zs)

ends_with_nul-nuls : (k : ℕ) → ends_with_nul (nuls (suc k)) ≡ true
unfolding ends_with_nul resize
ends_with_nul-nuls zero = refl
ends_with_nul-nuls (suc k) = ends_with_nul-nuls k

ends_with_nul-padded : (xs : List ℕ) (k : ℕ) → ends_with_nul (xs ++ nuls (suc k)) ≡ true
unfolding ends_with_nul resize
ends_with_nul-padded [] k = ends_with_nul-nuls k
ends_with_nul-padded (x ∷ []) k = ends_with_nul-nuls k
ends_with_nul-padded (x ∷ y ∷ xs) k = ends_with_nul-padded (y ∷ xs) k

ends_with_nul-none : (xs : List ℕ) → NoNul xs → ends_with_nul xs ≡ false
unfolding ends_with_nul
ends_with_nul-none [] h = refl
ends_with_nul-none (x ∷ []) h = h.0
ends_with_nul-none (x ∷ y ∷ xs) h = ends_with_nul-none (y ∷ xs) h.1

pop_nuls-nuls : (k : ℕ) → pop_nuls (nuls k) ≡ []
unfolding pop_nuls resize
pop_nuls-nuls zero = refl
pop_nuls-nuls (suc k) = rw (pop_nuls-nuls k) refl

pop_nuls-last :
    (x : ℕ) (bytes : List ℕ)
    → pop_nuls bytes ≡ []
    → (x == 0) ≡ false
    → pop_nuls (x ∷ bytes) ≡ x ∷ []
unfolding pop_nuls
pop_nuls-last x bytes e h = rw (e, h) refl

pop_nuls-keep :
    (x y : ℕ) (bytes ys : List ℕ) → pop_nuls bytes ≡ y ∷ ys → pop_nuls (x ∷ bytes) ≡ x ∷ y ∷ ys
unfolding pop_nuls
pop_nuls-keep x y bytes ys e = rw e refl

pop_nuls-padded : (xs : List ℕ) (k : ℕ) → NoNul xs → pop_nuls (xs ++ nuls k) ≡ xs
pop_nuls-padded [] k h = pop_nuls-nuls k
pop_nuls-padded (x ∷ []) k h = pop_nuls-last x (nuls k) (pop_nuls-nuls k) h.0
pop_nuls-padded (x ∷ y ∷ xs) k h =
    pop_nuls-keep x y ((y ∷ xs) ++ nuls k) xs (pop_nuls-padded (y ∷ xs) k h.1)

-- A round that reads a block `u` after bytes without a terminator.
read_blocks-round :
    (fuel bs : ℕ) (acc u input : List ℕ)
    → NoNul acc
    → length u ≡ bs
    → read_blocks (suc fuel) bs acc (u ++ input) ≡ read_blocks fuel bs (acc ++ u) input
unfolding read_blocks
read_blocks-round fuel bs acc u input a e =
    let read : read_exact bs (u ++ input) ≡ ok (u, input) =
      ap (λ m. read_exact m (u ++ input)) (sym e) ∙ read_exact-append u input in
    rw (ends_with_nul-none acc a, read) refl

read_blocks-end :
    (fuel bs : ℕ) (acc input : List ℕ)
    → ends_with_nul acc ≡ true
    → read_blocks (suc fuel) bs acc input ≡ ok (acc, input)
unfolding read_blocks
read_blocks-end fuel bs acc input e = rw e refl

read_blocks-padded :
    (q fuel bs k : ℕ) (acc t rest : List ℕ)
    → NoNul acc
    → NoNul t
    → suc k ≤ bs
    → IsBlocks q bs (length t + suc k)
    → q + 2 ≤ fuel
    → read_blocks fuel bs acc ((t ++ nuls (suc k)) ++ rest) ≡ ok (acc ++ (t ++ nuls (suc k)), rest)
read_blocks-padded q zero bs k acc t rest a n s b f = absurd (omega arith)
read_blocks-padded zero (suc zero) bs k acc t rest a n s b f = absurd (omega arith)
read_blocks-padded zero (suc (suc fuel)) bs k acc t rest a n s b f =
    let size : length (t ++ nuls (suc k)) ≡ bs =
      omega (arith, length-append t (nuls (suc k)), length-resize (suc k) []) in
    let end : ends_with_nul (acc ++ (t ++ nuls (suc k))) ≡ true =
      ap ends_with_nul (sym (join_assoc acc t (nuls (suc k))))
      ∙ ends_with_nul-padded (acc ++ t) k in
    read_blocks-round (suc fuel) bs acc (t ++ nuls (suc k)) rest a size
    ∙ read_blocks-end fuel bs (acc ++ (t ++ nuls (suc k))) rest end
read_blocks-padded (suc q) (suc fuel) bs k acc t rest a n s b f =
    let e = b.1.0 in
    let enough = IsBlocks-le q bs b.0 b.1.1 in
    let parts = split_at bs t (omega arith) in
    let u = parts.0 in
    let v = parts.1.0 in
    let z = nuls (suc k) in
    let cut : t ≡ u ++ v = parts.1.1.0 in
    let size : length u ≡ bs = parts.1.1.1 in
    let clean = All-split (λ c. (c == 0) ≡ false) u v (subst NoNul cut n) in
    let left : length v + suc k ≡ b.0 = omega (arith, length-append u v, ap length cut) in
    let input : (t ++ z) ++ rest ≡ u ++ ((v ++ z) ++ rest) =
      ap (λ l. (l ++ z) ++ rest) cut
      ∙ (ap (λ l. l ++ rest) (join_assoc u v z) ∙ join_assoc u (v ++ z) rest) in
    let output : (acc ++ u) ++ (v ++ z) ≡ acc ++ (t ++ z) =
      join_assoc acc u (v ++ z)
      ∙ ap (λ l. acc ++ l) (sym (join_assoc u v z) ∙ ap (λ l. l ++ z) (sym cut)) in
    let later =
      read_blocks-padded q fuel bs k (acc ++ u) v rest
        (All-append (λ c. (c == 0) ≡ false) acc u a clean.0) clean.1 s
        (subst (IsBlocks q bs) (sym left) b.1.1) (omega arith) in
    ap (read_blocks (suc fuel) bs acc) input
    ∙ (read_blocks-round fuel bs acc u ((v ++ z) ++ rest) a size
        ∙ (later ∙ ap (λ l. ok (l, rest)) output))

write_cstring-padded :
    (bs k : ℕ) (s : List ℕ)
    → zero < bs
    → padded_size (length s + 1) bs ≡ length s + suc k
    → write_cstring bs s ≡ ok (s ++ nuls (suc k))
unfolding write_cstring
write_cstring-padded bs k s p e =
    rw (padded_size-positive bs p, e)
      (ap ok
        (resize-append (length s + suc k) s (omega arith) ∙ ap (λ n. s ++ nuls n) (omega arith)))

read_cstring_blockwise-padded :
    (q bs k : ℕ) (s rest : List ℕ)
    → zero < bs
    → NoNul s
    → suc k ≤ bs
    → IsBlocks q bs (length s + suc k)
    → read_cstring_blockwise bs ((s ++ nuls (suc k)) ++ rest) ≡ ok (s, rest)
unfolding read_cstring_blockwise
read_cstring_blockwise-padded q bs k s rest p n b h =
    let count = IsBlocks-count q bs (length s + suc k) p h in
    let enough : q + 2 ≤ length ((s ++ nuls (suc k)) ++ rest) + 2 = omega (
      arith,
      length-append (s ++ nuls (suc k)) rest,
      length-append s (nuls (suc k)),
      length-resize (suc k) [],
    ) in
    rw
      (
        padded_size-positive bs p,
        read_blocks-padded q (length ((s ++ nuls (suc k)) ++ rest) + 2) bs k [] s rest tt n b h
            enough,
      )
      (ap (λ l. ok (l, rest)) (pop_nuls-padded s (suc k) n))

-- A text without a zero byte that is written in blocks of a size above 0 is read back, and what
-- follows it in the input remains.
pub read_cstring_blockwise-write_cstring :
    (bs : ℕ) (s rest : List ℕ)
    → zero < bs
    → NoNul s
    → (write_cstring bs s >>= (λ out. read_cstring_blockwise bs (out ++ rest))) ≡ ok (s, rest)
read_cstring_blockwise-write_cstring bs s rest p n =
    let pad = padding (length s) bs p in
    ap (λ w. w >>= (λ out. read_cstring_blockwise bs (out ++ rest)))
      (write_cstring-padded bs pad.1.0 s p pad.1.1.0)
    ∙ read_cstring_blockwise-padded pad.0 bs pad.1.0 s rest p n pad.1.1.1.0 pad.1.1.1.1
