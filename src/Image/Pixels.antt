-- ===== src/Image/Pixels.antt =====
-- src/image/color.rs: the laws of one pixel, of each format.
use truth.Base.{
  ℕ, ◌+◌, ◌-◌, ◌*◌, ◌/◌, ◌%◌, ◌^◌, ◌<◌, bit_or, ◌≡◌, refl, sym, ap, arith, Bool, true, ◌&&◌, List,
  [], ◌∷◌, ◌++◌, ltb, ◌==◌, ==_iff, ◌∙◌, all_below, all_below_sound,
}
use truth.Base.Run.{ok}
use truth.Io.{read_u8, write_u8, read_u16, write_u16, read_u32, write_u32}
use truth.Image.{
  Components, ColorBytes, change_bit_depth, argb_8888_impl, rgb_565_impl, argb_4444_impl,
  gray_8_impl, luminosity,
}

abbrev pub IsByte : ℕ → Type 0
IsByte b = b < 256

-- Every channel is a byte.
abbrev pub IsColor : Components → Type 0
IsColor x = IsByte x.red × (IsByte x.green × (IsByte x.blue × IsByte x.alpha))

-- The bytes `px` are those of a pixel and of its color.
abbrev pub Pixel : ColorBytes → List ℕ → List ℕ → Type 0
Pixel c px rest =
    (color : ℕ) × ((x : Components) × ((c.read_color_bytes (px ++ rest) ≡ ok (color, rest))
        × ((c.to_components color ≡ ok x)
            × (IsColor x × (px ≡ c.write_color_bytes (c.from_components x))))))

-- The bits of a channel are the upper bits of its byte.
deepen : ℕ → ℕ → ℕ
deepen n x = bit_or (x * 2 ^ (8 - n) % 256) (x / 2 ^ (2 * n - 8))

abbrev kept : ℕ → ℕ → Bool
kept n x = (deepen n x / 2 ^ (8 - n) == x) && ltb (deepen n x) 256

kept-4 : all_below 16 (kept 4) ≡ true
unfolding all_below deepen
kept-4 = refl

kept-5 : all_below 32 (kept 5) ≡ true
unfolding all_below deepen
kept-5 = refl

kept-6 : all_below 64 (kept 6) ≡ true
unfolding all_below deepen
kept-6 = refl

deepen-Kept :
    (n bound x : ℕ)
    → all_below bound (kept n) ≡ true
    → x < bound
    → (deepen n x / 2 ^ (8 - n) ≡ x) × IsByte (deepen n x)
deepen-Kept n bound x h p = let held = all_below_sound bound (kept n) x h p in ground arith

-- Two bytes from the number that they are.
write_u16-bytes :
    (a b color : ℕ) → IsByte a → IsByte b → color ≡ a + b * 256 → write_u16 color ≡ a ∷ b ∷ []
unfolding write_u16
write_u16-bytes a b color p q e =
    let low : color % 256 ≡ a = omega arith in
    let high : color / 256 % 256 ≡ b = omega arith in rw (low, high) refl

join_565 :
    (v r g b : ℕ)
    → v < 2 ^ 16
    → r ≡ v / 2 ^ 11 % 32
    → g ≡ v / 2 ^ 5 % 64
    → b ≡ v % 32
    → (r * 2 ^ 11 + g * 2 ^ 5 + b) % 2 ^ 16 ≡ v
join_565 v r g b h p q s = omega arith

pub rgb_565-Pixel :
    (a b : ℕ) (rest : List ℕ) → IsByte a → IsByte b → Pixel rgb_565_impl (a ∷ b ∷ []) rest
unfolding rgb_565_impl change_bit_depth read_u16 deepen
rgb_565-Pixel a b rest p q =
    let color = a + b * 256 in
    let low = deepen-Kept 5 32 (color % 32) kept-5 (omega arith) in
    let mid = deepen-Kept 6 64 (color / 2 ^ 5 % 64) kept-6 (omega arith) in
    let top = deepen-Kept 5 32 (color / 2 ^ 11 % 32) kept-5 (omega arith) in
    (
      color,
      (
        _,
        (
          refl,
          (
            refl,
            (
              (top.1, (mid.1, (low.1, omega arith))),
              sym (
                  write_u16-bytes a b _ p q (join_565 color _ _ _ (omega arith) top.0 mid.0 low.0)),
            ),
          ),
        ),
      ),
    )

join_4444 :
    (v a r g b : ℕ)
    → v < 2 ^ 16
    → a ≡ v / 2 ^ 12 % 256
    → r ≡ v / 2 ^ 8 % 16
    → g ≡ v / 2 ^ 4 % 16
    → b ≡ v % 16
    → (((a * 16 + r) * 16 + g) * 16 + b) % 2 ^ 16 ≡ v
join_4444 v a r g b h o p q s = omega arith

pub argb_4444-Pixel :
    (a b : ℕ) (rest : List ℕ) → IsByte a → IsByte b → Pixel argb_4444_impl (a ∷ b ∷ []) rest
unfolding argb_4444_impl change_bit_depth read_u16 deepen
argb_4444-Pixel a b rest p q =
    let v = a + b * 256 in
    let blue = deepen-Kept 4 16 (v % 16) kept-4 (omega arith) in
    let green = deepen-Kept 4 16 (v / 2 ^ 4 % 16) kept-4 (omega arith) in
    let red = deepen-Kept 4 16 (v / 2 ^ 8 % 16) kept-4 (omega arith) in
    let alpha = deepen-Kept 4 16 (v / 2 ^ 12 % 256) kept-4 (omega arith) in
    (
      v,
      (
        _,
        (
          refl,
          (
            refl,
            (
              (red.1, (green.1, (blue.1, alpha.1))),
              sym (
                  write_u16-bytes a b _ p q
                    (join_4444 v _ _ _ _ (omega arith) alpha.0 red.0 green.0 blue.0)),
            ),
          ),
        ),
      ),
    )

gray_kept : all_below 256 (λ x. luminosity x x x == x) ≡ true
unfolding all_below luminosity
gray_kept = refl

small : (a : ℕ) → IsByte a → a % 256 ≡ a
small a p = omega arith

same_luminosity : (a : ℕ) → IsByte a → luminosity a a a ≡ a
same_luminosity a p =
    (==_iff (luminosity a a a) a).0 (all_below_sound 256 (λ x. luminosity x x x == x) a gray_kept p)

pub gray_8-Pixel : (a : ℕ) (rest : List ℕ) → IsByte a → Pixel gray_8_impl (a ∷ []) rest
unfolding gray_8_impl read_u8 write_u8
gray_8-Pixel a rest p = (
  a,
  (
    _,
    (
      refl,
      (
        refl,
        (
          (p, (p, (p, omega arith))),
          ap (λ b. b ∷ []) (sym (ap (λ x. x % 256) (same_luminosity a p) ∙ small a p)),
        ),
      ),
    ),
  ),
)

u32_joined :
    (v : ℕ)
    → v < 2 ^ 32
    → v % 256 + v / 256 % 256 * 256 + v / 2 ^ 16 % 256 * 2 ^ 16 + v / 2 ^ 24 % 256 * 2 ^ 24 ≡ v
u32_joined v h = omega arith

-- A color is read as it is written, in the widest format.
pub argb_8888-written :
    (x : Components) (rest : List ℕ)
    → IsColor x
    → (color : ℕ) × ((argb_8888_impl.read_color_bytes
            (argb_8888_impl.write_color_bytes (argb_8888_impl.from_components x) ++ rest)
          ≡ ok (color, rest))
        × (argb_8888_impl.to_components color ≡ ok x))
unfolding argb_8888_impl read_u32 write_u32
argb_8888-written x rest h =
    let v = ((x.alpha * 256 + x.red) * 256 + x.green) * 256 + x.blue in
    let blue : v % 256 ≡ x.blue = omega arith in
    let green : v / 256 % 256 ≡ x.green = omega arith in
    let red : v / 2 ^ 16 % 256 ≡ x.red = omega arith in
    let alpha : v / 2 ^ 24 % 256 ≡ x.alpha = omega arith in
    (_, (refl, rw (u32_joined v (omega arith), blue, green, red, alpha) refl))
