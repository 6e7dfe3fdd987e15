-- ===== src/Raise/Scalars.antt =====
-- One argument: its encoded bytes decode to its value.
use truth.Base.{
  ℕ, ◌%◌, ◌^◌, ◌<◌, ◌≡◌, refl, sym, ap, ◌∙◌, ◌⊎◌, inl, inr, arith, Bool, true, false, Option, List,
  [], ◌++◌, length,
}
use truth.Base.Run.{Run, ok, ◌>>=◌, Ensures, Ensures-weaken}
use truth.Value.{ScalarValue}
use truth.Io.{Encoded, read_exact, write_u32}
use truth.Io.Bytes.{read_u16-write_u16, read_u32-write_u32, read_exact-append}
use truth.Abi.{ArgEncoding, is_block, fixed, block, StringArgSize, AcceleratingByteMask}
use truth.Lower.{Language, expect_int, expect_float, expect_string}
use truth.Lower.Encode.{encode_simple, encode_int, encode_string, ArgEncodingState}
use truth.Raise.{Decoded, sign_extend, decode_dword, decode_int, decode_value, read_len}
use truth.Raise.Values.{IsEncodable, FuribugTerminated, ReadsAs, encode_string-ReadsAs, append-nil}

-- The floats are kept by their bits.
abbrev pub KeepsFloats : {F : Type 0} → Language F → Type 0
KeepsFloats {F} lang = (x : F) → (lang.to_bits x < 2 ^ 32) × (lang.from_bits (lang.to_bits x) ≡ x)

-- An integer that is unchanged when it is cut to 16 bits and extended by its sign.
abbrev pub IsShort : ℕ → Type 0
IsShort x = sign_extend (x % 2 ^ 16) ≡ x

module _ {F : Type 0} where
  abbrev pub FitsDword : ScalarValue F → Type 0
  FitsDword (ScalarValue.int x) = x < 2 ^ 32
  FitsDword _ = ⊥

  abbrev pub FitsWord : ScalarValue F → Type 0
  FitsWord (ScalarValue.int x) = IsShort x
  FitsWord _ = ⊥

  abbrev pub FitsInt : ℕ → ScalarValue F → Type 0
  FitsInt size v = ((size ≡ 4) × FitsDword v) ⊎ ((size ≡ 2) × FitsWord v)

  abbrev pub FitsFloat : ScalarValue F → Type 0
  FitsFloat (ScalarValue.float x) = Unit
  FitsFloat _ = ⊥

  abbrev pub FitsString : Language F → StringArgSize → Bool → ScalarValue F → Type 0
  FitsString lang size furibug (ScalarValue.string s) =
      IsEncodable lang.strings s × FuribugTerminated size furibug
  FitsString lang size furibug _ = ⊥

  -- The value is of the type of the encoding and is one that it can represent.
  abbrev pub FitsValue : Language F → ArgEncoding → ScalarValue F → Type 0
  FitsValue lang ArgEncoding.color v = FitsDword v
  FitsValue lang ArgEncoding.jump_offset v = FitsDword v
  FitsValue lang ArgEncoding.jump_time v = FitsDword v
  FitsValue lang ArgEncoding.padding v = FitsDword v
  FitsValue lang (ArgEncoding.integer size _ true) v = FitsWord v
  FitsValue lang (ArgEncoding.integer size _ false) v = FitsInt size v
  FitsValue lang ArgEncoding.float v = FitsFloat v
  FitsValue lang (ArgEncoding.string size _ furibug) v = FitsString lang size furibug v

module _ {F : Type 0} (lang : Language F) where
  -- The bytes, with any bytes behind them that the encoding allows, decode to the value.
  abbrev pub DecodesTo : ArgEncoding → ScalarValue F → Encoded → Type 0
  DecodesTo e v bytes =
      (rest : List ℕ) (arg0 : Option ℕ)
      → (is_block e ≡ true → rest ≡ [])
      → decode_value lang e (bytes ++ rest) arg0 ≡ ok (v, rest, arg0)

  decode_dword-write_u32 :
      (f : ℕ → ScalarValue F) (x : ℕ) (rest : List ℕ) (arg0 : Option ℕ)
      → x < 2 ^ 32
      → decode_dword lang f (write_u32 x ++ rest) arg0 ≡ ok (f x, rest, arg0)
  unfolding decode_dword
  decode_dword-write_u32 f x rest arg0 h = rw (read_u32-write_u32 x rest h) refl

  dword-DecodesTo :
      (v : ScalarValue F) (is_reg : Bool) (state : ArgEncodingState)
      → FitsDword v
      → Ensures
          (λ r.
            (rest : List ℕ) (arg0 : Option ℕ)
            → decode_dword lang ScalarValue.int (r.0 ++ rest) arg0 ≡ ok (v, rest, arg0))
          (encode_int lang 4 state (record { value = v; is_reg = is_reg }))
  unfolding encode_int expect_int
  dword-DecodesTo (ScalarValue.int x) is_reg state h =
      λ rest arg0. decode_dword-write_u32 ScalarValue.int x rest arg0 h
  dword-DecodesTo (ScalarValue.float x) is_reg state h = tt
  dword-DecodesTo (ScalarValue.string x) is_reg state h = tt

  word-DecodesTo :
      (v : ScalarValue F) (is_reg : Bool) (state : ArgEncodingState)
      → FitsWord v
      → Ensures
          (λ r.
            (rest : List ℕ) (arg0 : Option ℕ)
            → decode_int lang 2 (r.0 ++ rest) arg0 ≡ ok (v, rest, arg0))
          (encode_int lang 2 state (record { value = v; is_reg = is_reg }))
  unfolding encode_int expect_int decode_int
  word-DecodesTo (ScalarValue.int x) is_reg state h = λ rest arg0.
      ap (λ m. m >>= (λ r. ok (ScalarValue.int (sign_extend r.0), r.1, arg0)))
        (read_u16-write_u16 (x % 2 ^ 16) rest (omega arith))
      ∙ ap (λ y. ok (ScalarValue.int y, rest, arg0)) h
  word-DecodesTo (ScalarValue.float x) is_reg state h = tt
  word-DecodesTo (ScalarValue.string x) is_reg state h = tt

  int-DecodesTo :
      (size : ℕ) (v : ScalarValue F) (is_reg : Bool) (state : ArgEncodingState)
      → FitsInt size v
      → Ensures
          (λ r.
            (rest : List ℕ) (arg0 : Option ℕ)
            → decode_int lang size (r.0 ++ rest) arg0 ≡ ok (v, rest, arg0))
          (encode_int lang size state (record { value = v; is_reg = is_reg }))
  unfolding decode_int
  int-DecodesTo size v is_reg state (inl h) = rw (h.0) (dword-DecodesTo v is_reg state h.1)
  int-DecodesTo size v is_reg state (inr h) = rw (h.0) (word-DecodesTo v is_reg state h.1)

  string-read :
      (size : StringArgSize) (mask : AcceleratingByteMask) (furibug : Bool) (bytes rest : List ℕ)
      → read_len size (length bytes) ≡ length bytes
      → (is_block (ArgEncoding.string size mask furibug) ≡ true → rest ≡ [])
      → read_exact (read_len size (length (bytes ++ rest))) (bytes ++ rest) ≡ ok (bytes, rest)
  unfolding read_len is_block
  string-read (block b) mask furibug bytes rest h k =
      rw (k refl, append-nil bytes)
        (ap (read_exact (length bytes)) (sym (append-nil bytes)) ∙ read_exact-append bytes [])
  string-read (fixed len nulless) mask furibug bytes rest h k = rw h (read_exact-append bytes rest)

  string-DecodesTo :
      (size : StringArgSize) (mask : AcceleratingByteMask) (furibug : Bool) (v : ScalarValue F)
      (is_reg : Bool) (state : ArgEncodingState)
      → FitsString lang size furibug v
      → Ensures
          (λ r. DecodesTo (ArgEncoding.string size mask furibug) v r.0)
          (encode_simple lang state
            (ArgEncoding.string size mask furibug)
            (record { value = v; is_reg = is_reg }))
  unfolding encode_simple expect_string decode_value
  string-DecodesTo size mask furibug (ScalarValue.string s) is_reg state h =
      Ensures-weaken (λ r. ReadsAs lang.strings size mask s r.0)
        (λ r. DecodesTo (ArgEncoding.string size mask furibug) (ScalarValue.string s) r.0)
        (encode_string lang.strings state size mask furibug s)
        (λ r reads rest arg0 last.
          rw (string-read size mask furibug r.0 rest reads.0 last, reads.1) refl)
        (encode_string-ReadsAs lang.strings state size mask furibug s h.0 h.1)
  string-DecodesTo size mask furibug (ScalarValue.int x) is_reg state h = tt
  string-DecodesTo size mask furibug (ScalarValue.float x) is_reg state h = tt

  float-DecodesTo :
      (v : ScalarValue F) (is_reg : Bool) (state : ArgEncodingState)
      → KeepsFloats lang
      → FitsFloat v
      → Ensures
          (λ r. DecodesTo ArgEncoding.float v r.0)
          (encode_simple lang state ArgEncoding.float (record { value = v; is_reg = is_reg }))
  unfolding encode_simple expect_float decode_value
  float-DecodesTo (ScalarValue.float x) is_reg state keeps h = λ rest arg0 last.
      decode_dword-write_u32 (λ bits. ScalarValue.float (lang.from_bits bits)) (lang.to_bits x) rest
        arg0 (keeps x).0
      ∙ ap (λ y. ok (ScalarValue.float y, rest, arg0)) (keeps x).1
  float-DecodesTo (ScalarValue.int x) is_reg state keeps h = tt
  float-DecodesTo (ScalarValue.string x) is_reg state keeps h = tt

  forget_last :
      (e : ArgEncoding) (v : ScalarValue F) (g : List ℕ → Option ℕ → Run (Decoded lang))
      (m : Run (Encoded × ArgEncodingState))
      → Ensures
          (λ r. (rest : List ℕ) (arg0 : Option ℕ) → g (r.0 ++ rest) arg0 ≡ ok (v, rest, arg0))
          m
      → Ensures
          (λ r.
            (rest : List ℕ) (arg0 : Option ℕ)
            → (is_block e ≡ true → rest ≡ [])
            → g (r.0 ++ rest) arg0 ≡ ok (v, rest, arg0))
          m
  forget_last e v g m h = Ensures-weaken _ _ m (λ r f rest arg0 last. f rest arg0) h

  -- An encoded argument, with the arguments behind it, is decoded to its value.
  pub encode_simple-DecodesTo :
      (e : ArgEncoding) (v : ScalarValue F) (is_reg : Bool) (state : ArgEncodingState)
      → KeepsFloats lang
      → FitsValue lang e v
      → Ensures
          (λ r. DecodesTo e v r.0)
          (encode_simple lang state e (record { value = v; is_reg = is_reg }))
  unfolding encode_simple decode_value
  encode_simple-DecodesTo ArgEncoding.color v is_reg state keeps h =
      forget_last ArgEncoding.color v (decode_dword lang ScalarValue.int) _
        (dword-DecodesTo v is_reg state h)
  encode_simple-DecodesTo ArgEncoding.jump_offset v is_reg state keeps h =
      forget_last ArgEncoding.jump_offset v (decode_dword lang ScalarValue.int) _
        (dword-DecodesTo v is_reg state h)
  encode_simple-DecodesTo ArgEncoding.jump_time v is_reg state keeps h =
      forget_last ArgEncoding.jump_time v (decode_dword lang ScalarValue.int) _
        (dword-DecodesTo v is_reg state h)
  encode_simple-DecodesTo ArgEncoding.padding v is_reg state keeps h =
      forget_last ArgEncoding.padding v (decode_dword lang ScalarValue.int) _
        (dword-DecodesTo v is_reg state h)
  encode_simple-DecodesTo (ArgEncoding.integer size color true) v is_reg state keeps h = tt
  encode_simple-DecodesTo (ArgEncoding.integer size color false) v is_reg state keeps h =
      forget_last (ArgEncoding.integer size color false) v (decode_int lang size) _
        (int-DecodesTo size v is_reg state h)
  encode_simple-DecodesTo ArgEncoding.float v is_reg state keeps h =
      float-DecodesTo v is_reg state keeps h
  encode_simple-DecodesTo (ArgEncoding.string size mask furibug) v is_reg state keeps h =
      string-DecodesTo size mask furibug v is_reg state h
