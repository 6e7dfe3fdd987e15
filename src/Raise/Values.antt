-- ===== src/Raise/Values.antt =====
-- One argument: its encoded bytes decode to its value.
use native.Mathlib.Nat.{mod-lt}
use truth.Base.{
  ℕ, zero, suc, ◌+◌, ◌-◌, ◌%◌, ◌<◌, ◌≤◌, ◌≡◌, refl, sym, ap, ◌∙◌, inl, inr, arith, Bool, true,
  false, ◌&&◌, none, some, List, [], ◌∷◌, ◌++◌, length, Bool-cases, ltb, ◌==◌,
}
use truth.Base.Run.{ok, Ensures, Ensures-bind}
use truth.Io.{
  Encoded, Encoding, encode, ok_or_err, apply_xor_mask, trim_first_nul, read_exact, read_u16,
  read_u32, resize, write_u16, write_u32, padded_size, null_pad,
}
use truth.Io.Bytes.{
  NoNul, apply_xor_mask-twice, length-apply_xor_mask, length-resize, resize-append,
  trim_first_nul-terminated,
}
use truth.Abi.{StringArgSize, fixed, block, AcceleratingByteMask, next}
use truth.Lower.Encode.{ArgEncodingState, terminate, add_furibug, pad_to_size, encode_string}
use truth.Raise.{contains_nul, add_terminator, read_len, decode_string}

-- The text has bytes, among them no terminator, that are read as the text again.
abbrev pub IsEncodable : Encoding → List ℕ → Type 0
IsEncodable enc s =
    (bytes : List ℕ) × (enc.encode_text s ≡ some bytes)
    × (enc.decode_bytes bytes ≡ some s)
    × NoNul bytes

-- The bytes of the furigana bug need a terminator before them.
abbrev pub FuribugTerminated : StringArgSize → Bool → Type 0
FuribugTerminated (block _) furibug = Unit
FuribugTerminated (fixed _ nulless) furibug = (furibug && nulless) ≡ false

contains_nul-append :
    (bytes rest : List ℕ) → NoNul bytes → contains_nul (bytes ++ rest) ≡ contains_nul rest
unfolding contains_nul
contains_nul-append [] rest h = refl
contains_nul-append (b ∷ bytes) rest h = rw (h.0) (contains_nul-append bytes rest h.1)

append_assoc : (xs ys zs : List ℕ) → (xs ++ ys) ++ zs ≡ xs ++ (ys ++ zs)
append_assoc [] ys zs = refl
append_assoc (x ∷ xs) ys zs = ap (λ l. x ∷ l) (append_assoc xs ys zs)

pub append-nil : (xs : List ℕ) → xs ++ [] ≡ xs
append-nil [] = refl
append-nil (x ∷ xs) = ap (λ l. x ∷ l) (append-nil xs)

-- Zeros alone behind the bytes: perhaps none.
trim_zeros :
    (bytes : List ℕ) (k : ℕ)
    → NoNul bytes
    → trim_first_nul (add_terminator (fixed 0 true) (bytes ++ resize k [])) ≡ bytes
unfolding add_terminator resize contains_nul
trim_zeros bytes zero h =
    rw (contains_nul-append bytes [] h, append-nil bytes) (trim_first_nul-terminated bytes [] h)
trim_zeros bytes (suc k) h =
    rw (contains_nul-append bytes (0 ∷ resize k []) h)
      (trim_first_nul-terminated bytes (resize k []) h)

terminated_zeros :
    (bytes rest : List ℕ) (k : ℕ)
    → NoNul bytes
    → trim_first_nul ((bytes ++ 0 ∷ rest) ++ resize k []) ≡ bytes
terminated_zeros bytes rest k h =
    ap trim_first_nul (append_assoc bytes (0 ∷ rest) (resize k []))
    ∙ trim_first_nul-terminated bytes (rest ++ resize k []) h

furibug_zeros :
    (bytes : List ℕ) (k : ℕ) (furibug : Bool) (state : ArgEncodingState)
    → NoNul bytes
    → trim_first_nul ((add_furibug furibug state (bytes ++ 0 ∷ [])).0 ++ resize k []) ≡ bytes
unfolding add_furibug
furibug_zeros bytes k false state h = terminated_zeros bytes [] k h
furibug_zeros bytes k true none h = terminated_zeros bytes [] k h
furibug_zeros bytes k true (some f) h =
    ap (λ l. trim_first_nul (l ++ resize k [])) (append_assoc bytes (0 ∷ []) f)
    ∙ terminated_zeros bytes f k h

-- However many zeros follow, the text ends where its bytes do.
trim-extended :
    (size : StringArgSize) (bytes : List ℕ) (k : ℕ) (furibug : Bool) (state : ArgEncodingState)
    → NoNul bytes
    → FuribugTerminated size furibug
    → trim_first_nul
        (add_terminator size ((add_furibug furibug state (terminate size bytes)).0 ++ resize k []))
      ≡ bytes
unfolding add_terminator terminate add_furibug
trim-extended (block _) bytes k furibug state h t = furibug_zeros bytes k furibug state h
trim-extended (fixed _ false) bytes k furibug state h t = furibug_zeros bytes k furibug state h
trim-extended (fixed _ true) bytes k false state h t = trim_zeros bytes k h
trim-extended (fixed _ true) bytes k true state h t = absurd (ground arith)

-- Zeros are appended, up to a length that can be read back.
Padded : StringArgSize → Encoded → Encoded → Type 0
Padded (block _) bytes padded = (k : ℕ) × (padded ≡ bytes ++ resize k [])
Padded (fixed len _) bytes padded =
    (length padded ≡ len) × ((k : ℕ) × (padded ≡ bytes ++ resize k []))

padded_size-le : (n b : ℕ) → (b == 0) ≡ false → n ≤ padded_size n b
unfolding padded_size
padded_size-le n b h =
    let positive : zero < b = ground arith in let small = mod-lt n positive in ground (arith, small)

resize_padding :
    (b : ℕ) (bytes : Encoded)
    → (b == 0) ≡ false
    → (k : ℕ) × (resize (padded_size (length bytes + 1) b) bytes ≡ bytes ++ resize k [])
resize_padding b bytes h =
    let enough = padded_size-le (length bytes + 1) b h in
    (
      padded_size (length bytes + 1) b - length bytes,
      resize-append (padded_size (length bytes + 1) b) bytes (omega arith),
    )

pad_to_size-Padded :
    (size : StringArgSize) (bytes : Encoded) → Ensures (Padded size bytes) (pad_to_size size bytes)
unfolding pad_to_size null_pad Padded
pad_to_size-Padded (block b) bytes = elim (Bool-cases (b == 0)) [
  | inl e ↦ rw e tt
  | inr e ↦ elim (Bool-cases (length bytes % b == 0)) [
    | inl k ↦ rw (e, k) (0, sym (append-nil bytes))
    | inr k ↦ rw (e, k) (resize_padding b bytes e)
  ]
]
pad_to_size-Padded (fixed len nulless) bytes = elim (Bool-cases (ltb len (length bytes))) [
  | inl e ↦ rw e tt
  | inr e ↦
      rw e (length-resize len bytes, (len - length bytes, resize-append len bytes (ground arith)))
]

Padded-trims :
    (size : StringArgSize) (bytes : List ℕ) (furibug : Bool) (state : ArgEncodingState)
    → NoNul bytes
    → FuribugTerminated size furibug
    → (padded : Encoded) → Padded size (add_furibug furibug state (terminate size bytes)).0 padded
    → (read_len size (length padded) ≡ length padded)
      × (trim_first_nul (add_terminator size padded) ≡ bytes)
unfolding Padded read_len
Padded-trims (block b) bytes furibug state h t padded p =
    (refl, rw (p.1) (trim-extended (block b) bytes p.0 furibug state h t))
Padded-trims (fixed len nulless) bytes furibug state h t padded p =
    (sym p.0, rw (p.1.1) (trim-extended (fixed len nulless) bytes p.1.0 furibug state h t))

-- The bytes of an encoded string are as many as are read, and decode to the string.
abbrev pub ReadsAs : Encoding → StringArgSize → AcceleratingByteMask → List ℕ → Encoded → Type 0
ReadsAs enc size mask s bytes =
    (read_len size (length bytes) ≡ length bytes) × (decode_string enc size mask bytes ≡ ok s)

pub encode_string-ReadsAs :
    (enc : Encoding) (state : ArgEncodingState) (size : StringArgSize) (mask : AcceleratingByteMask)
    (furibug : Bool) (s : List ℕ)
    → IsEncodable enc s
    → FuribugTerminated size furibug
    → Ensures (λ r. ReadsAs enc size mask s r.0) (encode_string enc state size mask furibug s)
unfolding encode_string encode decode_string truth.Io.decode ok_or_err
encode_string-ReadsAs enc state size mask furibug s h t =
    let extended = add_furibug furibug state (terminate size h.0) in
    rw (h.1) (
      Ensures-bind (Padded size extended.0) _ (pad_to_size size extended.0) _
        (pad_to_size-Padded size extended.0)
        (λ padded p.
          let trims = Padded-trims size h.0 furibug state h.3 t padded p in
          (
            rw (length-apply_xor_mask next mask padded) trims.0,
            rw (apply_xor_mask-twice next mask padded, trims.1, h.2) refl,
          )))
