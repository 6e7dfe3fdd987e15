-- ===== src/Image.antt =====
-- src/image/color.rs: the pixels of the formats of colors and their transcoding. A pixel is the number
-- of its format's integer, a channel a number below 256.
pub mod Pixels
pub mod Bytes
mod Tests
use truth.Base.{
  ℕ, zero, suc, ◌+◌, ◌-◌, ◌*◌, ◌/◌, ◌%◌, ◌^◌, bit_or, Option, none, some, List, [], ◌∷◌, ◌++◌,
  length, leb, ltb, ◌&&◌, ◌==◌, if◌then◌else◌,
}
use truth.Base.Run.{Run, ok, err, panic, out_of_fuel, ◌>>=◌}
use truth.Io.{read_u8, read_u16, read_u32, write_u8, write_u16, write_u32}

pub data ColorFormat : Type 0 where
  argb_8888 rgb_565 argb_4444 gray_8 : ColorFormat

unfoldable pub format_num : ColorFormat → ℕ
format_num ColorFormat.argb_8888 = 1
format_num ColorFormat.rgb_565 = 3
format_num ColorFormat.argb_4444 = 5
format_num ColorFormat.gray_8 = 7

unfoldable pub from_format_num : ℕ → Option ColorFormat
from_format_num num =
    if num == 1
    then some ColorFormat.argb_8888
    else (if num == 3
        then some ColorFormat.rgb_565
        else (if num == 5
            then some ColorFormat.argb_4444
            else (if num == 7 then some ColorFormat.gray_8 else none)))

pub record Components : Type 0 where
  pub red : ℕ
  pub green : ℕ
  pub blue : ℕ
  pub alpha : ℕ

-- The trait `ColorBytes` with the conversions that it asks for.
pub record ColorBytes : Type 0 where
  pub bytes_per_pixel : ℕ
  pub read_color_bytes : List ℕ → Run (ℕ × List ℕ)
  pub write_color_bytes : ℕ → List ℕ
  pub to_components : ℕ → Run Components
  pub from_components : Components → ℕ

-- `unwrap` of a result.
unfoldable pub unwrap {ℓ} : {A : Type ℓ} → Run A → Run A
unwrap err = panic
unwrap m = m

module _ (c : ColorBytes) where
  open c use {bytes_per_pixel, read_color_bytes, write_color_bytes, to_components, from_components}

  unfoldable pub read_pixels : ℕ → List ℕ → Run (List Components)
  unfolding unwrap
  read_pixels zero bytes = ok []
  read_pixels (suc n) bytes = do
    (color, rest) ← unwrap (read_color_bytes bytes)
    x ← to_components color
    colors ← read_pixels n rest
    ok (x ∷ colors)

  unfoldable pub decode : List ℕ → Run (List Components)
  unfolding read_pixels
  decode bytes =
      if length bytes % bytes_per_pixel == 0
      then read_pixels (length bytes / bytes_per_pixel) bytes
      else panic

  unfoldable pub encode : List Components → List ℕ
  encode [] = []
  encode (x ∷ colors) = write_color_bytes (from_components x) ++ encode colors

-- Rescales a value of `input` bits to `output` bits, in a byte.
unfoldable pub change_bit_depth : ℕ → ℕ → ℕ → Run ℕ
change_bit_depth input output x =
    if leb output (input * 2)
    then ok (
        if leb output input
        then x / 2 ^ (input - output)
        else bit_or (x * 2 ^ (output - input) % 256) (x / 2 ^ (2 * input - output)))
    else panic

unfoldable pub argb_8888_impl : ColorBytes
unfolding read_u32 write_u32
argb_8888_impl = record {
  bytes_per_pixel = 4;
  read_color_bytes = read_u32;
  write_color_bytes = write_u32;
  to_components = λ color. ok (record {
    blue = color % 256;
    green = color / 2 ^ 8 % 256;
    red = color / 2 ^ 16 % 256;
    alpha = color / 2 ^ 24 % 256;
  });
  from_components = λ x. ((x.alpha * 256 + x.red) * 256 + x.green) * 256 + x.blue;
}

unfoldable pub rgb_565_impl : ColorBytes
unfolding read_u16 write_u16 change_bit_depth
rgb_565_impl = record {
  bytes_per_pixel = 2;
  read_color_bytes = read_u16;
  write_color_bytes = write_u16;
  to_components = λ color. do
    b ← change_bit_depth 5 8 (color % 32)
    g ← change_bit_depth 6 8 (color / 2 ^ 5 % 64)
    r ← change_bit_depth 5 8 (color / 2 ^ 11 % 32)
    ok (record { blue = b; green = g; red = r; alpha = 255 });
  from_components =
      λ x. (x.red / 2 ^ 3 * 2 ^ 11 + x.green / 2 ^ 2 * 2 ^ 5 + x.blue / 2 ^ 3) % 2 ^ 16;
}

unfoldable pub argb_4444_impl : ColorBytes
unfolding read_u16 write_u16 change_bit_depth
argb_4444_impl = record {
  bytes_per_pixel = 2;
  read_color_bytes = read_u16;
  write_color_bytes = write_u16;
  to_components = λ color. do
    b ← change_bit_depth 4 8 (color % 16)
    g ← change_bit_depth 4 8 (color / 2 ^ 4 % 16)
    r ← change_bit_depth 4 8 (color / 2 ^ 8 % 16)
    a ← change_bit_depth 4 8 (color / 2 ^ 12 % 256)
    ok (record { blue = b; green = g; red = r; alpha = a });
  from_components = λ x.
      (((x.alpha / 2 ^ 4 * 16 + x.red / 2 ^ 4) * 16 + x.green / 2 ^ 4) * 16 + x.blue / 2 ^ 4)
      % 2 ^ 16;
}

-- `f32`, for the numbers from 0 on: a multiple of 2 ^ -33 is given by its factor. All sums and products
-- of the luminosity are such numbers.
unfoldable shift_of : ℕ → ℕ → ℕ
shift_of zero n = 0
shift_of (suc fuel) n = let shift = shift_of fuel (n / 2) in if ltb n (2 ^ 24) then 0 else suc shift

-- The result of an operation has 24 bits; a number in the middle of two is rounded to the even one. The
-- numbers are below 2 ^ 44.
unfoldable pub round_f32 : ℕ → ℕ
unfolding shift_of
round_f32 n =
    let unit = 2 ^ shift_of 20 n in
    let down = n / unit in
    if ltb (2 * (n % unit)) unit
    then down * unit
    else (if (2 * (n % unit) == unit) && (down % 2 == 0) then down * unit else (down + 1) * unit)

unfoldable pub add_f32 : ℕ → ℕ → ℕ
unfolding round_f32
add_f32 x y = round_f32 (x + y)

-- A byte times a number.
unfoldable pub mul_byte : ℕ → ℕ → ℕ
unfolding round_f32
mul_byte byte x = round_f32 (byte * x)

-- `as u8` saturates.
unfoldable pub as_u8 : ℕ → ℕ
as_u8 x = if ltb (x / 2 ^ 33) 256 then x / 2 ^ 33 else 255

-- The literals 0.2126, 0.7152, 0.0722 and 0.001.
abbrev red_weight : ℕ
red_weight = 1826220032

abbrev green_weight : ℕ
green_weight = 6143521280

abbrev blue_weight : ℕ
blue_weight = 620193280

abbrev tiny_amount : ℕ
tiny_amount = 8589935

unfoldable pub luminosity : ℕ → ℕ → ℕ → ℕ
unfolding add_f32 mul_byte as_u8
luminosity red green blue =
    let y =
      add_f32 (add_f32 (mul_byte red red_weight) (mul_byte green green_weight))
        (mul_byte blue blue_weight) in
    as_u8 (add_f32 y tiny_amount)

unfoldable pub gray_8_impl : ColorBytes
unfolding read_u8 write_u8 luminosity
gray_8_impl = record {
  bytes_per_pixel = 1;
  read_color_bytes = read_u8;
  write_color_bytes = write_u8;
  to_components = λ color. ok (record { blue = color; green = color; red = color; alpha = 255 });
  from_components = λ x. luminosity x.red x.green x.blue;
}

-- The implementation that the matches on a format select.
abbrev pub color_bytes : ColorFormat → ColorBytes
color_bytes ColorFormat.argb_8888 = argb_8888_impl
color_bytes ColorFormat.rgb_565 = rgb_565_impl
color_bytes ColorFormat.argb_4444 = argb_4444_impl
color_bytes ColorFormat.gray_8 = gray_8_impl

unfoldable pub bytes_per_pixel_of : ColorFormat → ℕ
unfolding argb_8888_impl rgb_565_impl argb_4444_impl gray_8_impl
bytes_per_pixel_of format = (color_bytes format).bytes_per_pixel

unfoldable pub transcode_to_argb_8888 : ColorFormat → List ℕ → Run (List ℕ)
unfolding decode encode
transcode_to_argb_8888 ColorFormat.argb_8888 bytes = ok bytes
transcode_to_argb_8888 format bytes = do
  colors ← decode (color_bytes format) bytes
  ok (encode argb_8888_impl colors)

unfoldable pub transcode_from_argb_8888 : ColorFormat → List ℕ → Run (List ℕ)
unfolding decode encode
transcode_from_argb_8888 ColorFormat.argb_8888 bytes = ok bytes
transcode_from_argb_8888 format bytes = do
  colors ← decode argb_8888_impl bytes
  ok (encode (color_bytes format) colors)

unfoldable pub dummy_fill_color_bytes : ColorFormat → List ℕ
dummy_fill_color_bytes ColorFormat.argb_8888 = 0xff ∷ 0xff ∷ 0 ∷ 0xfe ∷ []
dummy_fill_color_bytes ColorFormat.argb_4444 = 0xf ∷ 0xef ∷ []
dummy_fill_color_bytes ColorFormat.rgb_565 = 0x1f ∷ 0xf8 ∷ []
dummy_fill_color_bytes ColorFormat.gray_8 = 0x80 ∷ []
