-- ===== src/Image/Tests.antt =====
-- src/image/color.rs: its tests, and an image of two pixels.
use truth.Base.{◌%◌, ◌≡◌, refl, arith, [], ◌∷◌}
use truth.Base.Run.{ok, panic, ◌>>=◌}
use truth.Image.{
  ColorFormat, change_bit_depth, decode, luminosity, argb_4444_impl, transcode_to_argb_8888,
  transcode_from_argb_8888, bytes_per_pixel_of,
}
use truth.Image.Bytes.{transcode_from_argb_8888-transcode_to_argb_8888}

depth_test : change_bit_depth 5 8 23 ≡ ok 189
unfolding change_bit_depth
depth_test = refl

lower_depth_test : change_bit_depth 8 5 191 ≡ ok 23
unfolding change_bit_depth
lower_depth_test = refl

too_deep_test : change_bit_depth 3 8 1 ≡ panic
unfolding change_bit_depth
too_deep_test = refl

half_pixel_test : decode argb_4444_impl (1 ∷ 2 ∷ 3 ∷ []) ≡ panic
unfolding decode argb_4444_impl
half_pixel_test = refl

-- Red alone, and the highest channels.
red_luminosity_test : luminosity 255 0 0 ≡ 54
unfolding luminosity
red_luminosity_test = refl

white_luminosity_test : luminosity 255 255 255 ≡ 255
unfolding luminosity
white_luminosity_test = refl

transcode_test :
    transcode_to_argb_8888 ColorFormat.rgb_565 (0x1f ∷ 0xf8 ∷ []) ≡ ok (0xff ∷ 0 ∷ 0xff ∷ 0xff ∷ [])
unfolding transcode_to_argb_8888 truth.Image.rgb_565_impl truth.Image.argb_8888_impl
transcode_test = refl

two_pixels : 4 % bytes_per_pixel_of ColorFormat.rgb_565 ≡ 0
unfolding bytes_per_pixel_of
two_pixels = refl

transcode_from_argb_8888-transcode_to_argb_8888_example :
    (transcode_to_argb_8888 ColorFormat.rgb_565 (0x12 ∷ 0x34 ∷ 0xff ∷ 0xfe ∷ [])
      >>= (λ wide. transcode_from_argb_8888 ColorFormat.rgb_565 wide))
    ≡ ok (0x12 ∷ 0x34 ∷ 0xff ∷ 0xfe ∷ [])
transcode_from_argb_8888-transcode_to_argb_8888_example =
    transcode_from_argb_8888-transcode_to_argb_8888 ColorFormat.rgb_565
      (0x12 ∷ 0x34 ∷ 0xff ∷ 0xfe ∷ [])
      ((omega arith, (omega arith, (omega arith, (omega arith, tt)))), two_pixels)
