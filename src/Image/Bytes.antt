-- ===== src/Image/Bytes.antt =====
-- src/image/color.rs: whole images, as the bytes of their pixels.
use native.Mathlib.Nat.{suc-mul}
use truth.Base.{
  ℕ, zero, suc, ◌+◌, ◌*◌, ◌/◌, ◌%◌, ◌≡◌, refl, sym, ap, ap₂, ◌∙◌, arith, true, List, [], ◌∷◌, ◌++◌,
  length, length-append, All, All-split, split_at, subst, ◌==◌,
}
use truth.Base.Run.{ok, ◌>>=◌}
use truth.Image.{
  ColorFormat, Components, ColorBytes, read_pixels, decode, encode, argb_8888_impl, rgb_565_impl,
  argb_4444_impl, gray_8_impl, transcode_to_argb_8888, transcode_from_argb_8888, bytes_per_pixel_of,
}
use truth.Image.Pixels.{
  rgb_565-Pixel, argb_4444-Pixel, gray_8-Pixel, IsByte, IsColor, Pixel, argb_8888-written,
}

length-encode_argb : (xs : List Components) → length (encode argb_8888_impl xs) ≡ length xs * 4
unfolding encode argb_8888_impl truth.Io.write_u32
length-encode_argb [] = refl
length-encode_argb (x ∷ xs) = omega (arith, length-encode_argb xs)

read_pixels-encode :
    (xs : List Components)
    → All IsColor xs
    → read_pixels argb_8888_impl (length xs) (encode argb_8888_impl xs) ≡ ok xs
unfolding read_pixels encode
read_pixels-encode [] h = refl
read_pixels-encode (x ∷ xs) h =
    let one = argb_8888-written x (encode argb_8888_impl xs) h.0 in
    rw (one.1.0, one.1.1, read_pixels-encode xs h.1) refl

decode-whole :
    (c : ColorBytes) (bytes : List ℕ)
    → (length bytes % c.bytes_per_pixel == 0) ≡ true
    → decode c bytes ≡ read_pixels c (length bytes / c.bytes_per_pixel) bytes
unfolding decode
decode-whole c bytes h = rw h refl

argb_whole : (n : ℕ) → (n % 4 == 0) ≡ true → (n % argb_8888_impl.bytes_per_pixel == 0) ≡ true
unfolding argb_8888_impl
argb_whole n h = h

argb_count : (n : ℕ) → n / argb_8888_impl.bytes_per_pixel ≡ n / 4
unfolding argb_8888_impl
argb_count n = refl

-- What is written in the widest format is read back.
decode-encode_argb :
    (xs : List Components)
    → All IsColor xs
    → decode argb_8888_impl (encode argb_8888_impl xs) ≡ ok xs
unfolding decode
decode-encode_argb xs h =
    let size = length-encode_argb xs in
    let whole : (length (encode argb_8888_impl xs) % 4 == 0) ≡ true = ground arith in
    let count : length (encode argb_8888_impl xs) / 4 ≡ length xs = omega (arith, size) in
    decode-whole argb_8888_impl (encode argb_8888_impl xs) (argb_whole _ whole)
    ∙ (ap (λ n. read_pixels argb_8888_impl n (encode argb_8888_impl xs)) (argb_count _ ∙ count)
        ∙ read_pixels-encode xs h)

read_pixels-step :
    (c : ColorBytes) (n : ℕ) (px rest : List ℕ) (color : ℕ) (x : Components) (xs : List Components)
    → c.read_color_bytes (px ++ rest) ≡ ok (color, rest)
    → c.to_components color ≡ ok x
    → read_pixels c n rest ≡ ok xs
    → read_pixels c (suc n) (px ++ rest) ≡ ok (x ∷ xs)
unfolding read_pixels
read_pixels-step c n px rest color x xs e f g = rw (e, f, g) refl

-- The bytes of one pixel have a color, of which they are the bytes.
abbrev pub IsLawful : ColorBytes → Type 0
IsLawful c = (px rest : List ℕ) → length px ≡ c.bytes_per_pixel → All IsByte px → Pixel c px rest

module _ (c : ColorBytes) (law : IsLawful c) where
  -- The bytes of `n` pixels have colors, of which they are the bytes.
  read_pixels-All :
      (n : ℕ) (bytes : List ℕ)
      → length bytes ≡ n * c.bytes_per_pixel
      → All IsByte bytes
      → (xs : List Components) × ((read_pixels c n bytes ≡ ok xs)
          × (All IsColor xs × (encode c xs ≡ bytes)))
  unfolding read_pixels encode
  read_pixels-All zero [] e h = ([], (refl, (tt, refl)))
  read_pixels-All zero (b ∷ bytes) e h = absurd (omega arith)
  read_pixels-All (suc n) bytes e h =
      let size : length bytes ≡ c.bytes_per_pixel + n * c.bytes_per_pixel =
        e ∙ (suc-mul n c.bytes_per_pixel ∙ omega arith) in
      let parts = split_at c.bytes_per_pixel bytes (omega arith) in
      let px = parts.0 in
      let rest = parts.1.0 in
      let cut : bytes ≡ px ++ rest = parts.1.1.0 in
      let held = All-split IsByte px rest (subst (All IsByte) cut h) in
      let left : length rest ≡ n * c.bytes_per_pixel =
        omega (arith, length-append px rest, ap length cut, parts.1.1.1) in
      let one = law px rest parts.1.1.1 held.0 in
      let more = read_pixels-All n rest left held.1 in
      (
        one.1.0 ∷ more.0,
        (
          ap (read_pixels c (suc n)) cut
              ∙ read_pixels-step c n px rest one.0 one.1.0 more.0 one.1.1.0 one.1.1.1.0 more.1.0,
          (
            (one.1.1.1.1.0, more.1.1.0),
            ap₂ (λ l r. l ++ r) (sym one.1.1.1.1.1) more.1.1.1 ∙ sym cut,
          ),
        ),
      )

  -- Through the widest format and back.
  transcoded :
      (n : ℕ) (bytes : List ℕ)
      → length bytes ≡ n * c.bytes_per_pixel
      → (length bytes % c.bytes_per_pixel == 0) ≡ true
      → length bytes / c.bytes_per_pixel ≡ n
      → All IsByte bytes
      → ((decode c bytes >>= (λ xs. ok (encode argb_8888_impl xs)))
          >>= (λ wide. decode argb_8888_impl wide >>= (λ xs. ok (encode c xs))))
        ≡ ok bytes
  transcoded n bytes e whole count h =
      let all = read_pixels-All n bytes e h in
      let read : decode c bytes ≡ ok all.0 =
        decode-whole c bytes whole ∙ (ap (λ k. read_pixels c k bytes) count ∙ all.1.0) in
      rw (read, decode-encode_argb all.0 all.1.1.0) (ap ok all.1.1.1)

rgb_565-IsLawful : IsLawful rgb_565_impl
unfolding rgb_565_impl
rgb_565-IsLawful (a ∷ b ∷ []) rest e h = rgb_565-Pixel a b rest h.0 h.1.0
rgb_565-IsLawful [] rest e h = absurd (omega arith)
rgb_565-IsLawful (a ∷ []) rest e h = absurd (omega arith)
rgb_565-IsLawful (a ∷ b ∷ c ∷ px) rest e h = absurd (omega arith)

argb_4444-IsLawful : IsLawful argb_4444_impl
unfolding argb_4444_impl
argb_4444-IsLawful (a ∷ b ∷ []) rest e h = argb_4444-Pixel a b rest h.0 h.1.0
argb_4444-IsLawful [] rest e h = absurd (omega arith)
argb_4444-IsLawful (a ∷ []) rest e h = absurd (omega arith)
argb_4444-IsLawful (a ∷ b ∷ c ∷ px) rest e h = absurd (omega arith)

gray_8-IsLawful : IsLawful gray_8_impl
unfolding gray_8_impl
gray_8-IsLawful (a ∷ []) rest e h = gray_8-Pixel a rest h.0
gray_8-IsLawful [] rest e h = absurd (omega arith)
gray_8-IsLawful (a ∷ b ∷ px) rest e h = absurd (omega arith)

-- The bytes of an image are bytes and whole pixels of the format.
abbrev pub IsImage : ColorFormat → List ℕ → Type 0
IsImage format bytes = All IsByte bytes × (length bytes % bytes_per_pixel_of format ≡ 0)

-- An image that is transcoded to the widest format and back is unchanged, in every format: bytes that
-- are whole pixels of it come back.
pub transcode_from_argb_8888-transcode_to_argb_8888 :
    (format : ColorFormat) (bytes : List ℕ)
    → IsImage format bytes
    → (transcode_to_argb_8888 format bytes >>= (λ wide. transcode_from_argb_8888 format wide))
      ≡ ok bytes
unfolding transcode_to_argb_8888 transcode_from_argb_8888 bytes_per_pixel_of
transcode_from_argb_8888-transcode_to_argb_8888 ColorFormat.argb_8888 bytes h = refl
transcode_from_argb_8888-transcode_to_argb_8888 ColorFormat.rgb_565 bytes h =
    transcoded rgb_565_impl rgb_565-IsLawful (length bytes / 2) bytes (omega (arith, h.1))
      (ground arith) refl h.0
transcode_from_argb_8888-transcode_to_argb_8888 ColorFormat.argb_4444 bytes h =
    transcoded argb_4444_impl argb_4444-IsLawful (length bytes / 2) bytes (omega (arith, h.1))
      (ground arith) refl h.0
transcode_from_argb_8888-transcode_to_argb_8888 ColorFormat.gray_8 bytes h =
    transcoded gray_8_impl gray_8-IsLawful (length bytes) bytes (omega (arith, h.1)) (ground arith)
      (omega arith) h.0
