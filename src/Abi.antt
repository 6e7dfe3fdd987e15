-- ===== src/Abi.antt =====
-- src/llir/abi.rs: the signatures of instructions: how each argument is encoded in binary, and which
-- signatures are valid.
pub mod Shape
mod Tests
use truth.Base.{
  ℕ, zero, suc, ◌+◌, ◌%◌, Bool, true, false, ◌&&◌, ◌||◌, not, Option, none, some, List, [], ◌∷◌,
  ◌++◌, length, ltb, ◌==◌, if◌then◌else◌,
}
use truth.Base.Run.{Run, ok, err}
use truth.Value.{ScalarType}
use truth.Game.{Game, LanguageKey}

-- `StringArgSize`: a buffer with a length, perhaps without a terminator, or blocks up to the end of the
-- instruction.
pub data StringArgSize : Type 0 where
  fixed : ℕ → Bool → StringArgSize
  block : ℕ → StringArgSize

pub record AcceleratingByteMask : Type 0 where
  pub mask : ℕ
  pub vel : ℕ
  pub accel : ℕ

-- `TypeColor` is a name, for its enum or its kind.
pub data ArgEncoding : Type 0 where
  -- the size in bytes, the color of the type and whether it is in the header (`arg0`)
  integer : ℕ → Option ℕ → Bool → ArgEncoding
  jump_offset jump_time padding color float : ArgEncoding
  -- the size, the mask and whether the furigana bug is reproduced
  string : StringArgSize → AcceleratingByteMask → Bool → ArgEncoding

unfoldable pub dword : ArgEncoding
dword = ArgEncoding.integer 4 none false

unfoldable pub constant : ℕ → AcceleratingByteMask
constant mask = record { mask = mask; vel = 0; accel = 0 }

-- `Iterator::next`: the byte and the mask that follows.
unfoldable pub next : AcceleratingByteMask → ℕ × AcceleratingByteMask
next m = (
  m.mask,
  record { mask = (m.mask + m.vel) % 256; vel = (m.vel + m.accel) % 256; accel = m.accel },
)

unfoldable pub expr_type : ArgEncoding → ScalarType
expr_type ArgEncoding.jump_offset = ScalarType.int
expr_type ArgEncoding.jump_time = ScalarType.int
expr_type ArgEncoding.padding = ScalarType.int
expr_type ArgEncoding.color = ScalarType.int
expr_type (ArgEncoding.integer _ _ _) = ScalarType.int
expr_type ArgEncoding.float = ScalarType.float
expr_type (ArgEncoding.string _ _ _) = ScalarType.string

unfoldable pub is_jump_offset : ArgEncoding → Bool
is_jump_offset ArgEncoding.jump_offset = true
is_jump_offset _ = false

unfoldable pub is_jump_time : ArgEncoding → Bool
is_jump_time ArgEncoding.jump_time = true
is_jump_time _ = false

unfoldable pub is_padding : ArgEncoding → Bool
is_padding ArgEncoding.padding = true
is_padding _ = false

unfoldable pub is_arg0 : ArgEncoding → Bool
is_arg0 (ArgEncoding.integer _ _ arg0) = arg0
is_arg0 _ = false

unfoldable pub is_block : ArgEncoding → Bool
is_block (ArgEncoding.string (block _) _ _) = true
is_block _ = false

-- The adapters of iterators that the validation uses.
module _ {ℓ} {A : Type ℓ} (p : A → Bool) where
  unfoldable pub count_if : List A → ℕ
  count_if [] = 0
  count_if (x ∷ xs) = let n = count_if xs in if p x then suc n else n

  unfoldable pub any : List A → Bool
  any [] = false
  any (x ∷ xs) = p x || any xs

  unfoldable pub count_while : List A → ℕ
  count_while [] = 0
  count_while (x ∷ xs) = let n = count_while xs in if p x then suc n else 0

module _ {ℓ} {A : Type ℓ} where
  unfoldable pub skip1 : List A → List A
  skip1 [] = []
  skip1 (x ∷ xs) = xs

  unfoldable pub rev : List A → List A
  rev [] = []
  rev (x ∷ xs) = rev xs ++ x ∷ []

unfoldable pub validate : List ArgEncoding → Run {0} Unit
unfolding count_if any count_while skip1 rev
validate encodings =
    let o_count = count_if is_jump_offset encodings in
    let t_count = count_if is_jump_time encodings in
    let trailing_pad_count = count_while is_padding (rev encodings) in
    let total_pad_count = count_if is_padding encodings in
    if ltb 1 o_count || ltb 1 t_count
    then err
    else if t_count == 1 && o_count == 0
    then err
    else if any is_arg0 (skip1 encodings)
    then err
    else if any is_block (skip1 (rev encodings))
    then err
    else if not (total_pad_count == trailing_pad_count)
    then err
    else ok tt

-- `InstrAbi::from_encodings`; an `InstrAbi` is its list of encodings.
unfoldable pub from_encodings : List ArgEncoding → Run (List ArgEncoding)
unfolding validate
from_encodings encodings = elim (validate encodings) [ ok _ ↦ ok encodings | _ ↦ err ]

-- `game < Game::Th08`, in the order of the declaration.
unfoldable pub is_before_th08 : Game → Bool
is_before_th08 Game.th06 = true
is_before_th08 Game.th07 = true
is_before_th08 _ = false

unfoldable pub lang_has_arg0 : Game → LanguageKey → Bool
unfolding is_before_th08
lang_has_arg0 game LanguageKey.timeline = is_before_th08 game
lang_has_arg0 game _ = false

unfoldable pub sig_has_arg0 : List ArgEncoding → Bool
unfolding is_arg0
sig_has_arg0 [] = false
sig_has_arg0 (e ∷ encodings) = is_arg0 e

unfoldable pub validate_against_language : Game → LanguageKey → List ArgEncoding → Run {0} Unit
unfolding sig_has_arg0 lang_has_arg0
validate_against_language game language encodings =
    if sig_has_arg0 encodings && not (lang_has_arg0 game language) then err else ok tt
