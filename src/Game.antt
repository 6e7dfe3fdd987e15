-- ===== src/Game.antt =====
-- src/game.rs: the games, their names and the reading of them. A string is the list of its code points.
pub mod Names
mod Tests
use truth.Base.{
  ℕ, ◌+◌, ◌-◌, ◌*◌, ◌^◌, Bool, true, false, ◌&&◌, Option, none, some, List, [], ◌∷◌, ltb, leb, ◌==◌,
  if◌then◌else◌,
}

pub data Game : Type 0 where
  th06 th07 th08 th09 th095 th10 alcostg th11 th12 th125 : Game
  th128 th13 th14 th143 th15 th16 th165 th17 th18 : Game

pub data LanguageKey : Type 0 where
  ecl anm msg end std timeline dummy : LanguageKey

-- The diagnostics of a name that is not one of a game of the program.
pub data GameError : Type 0 where
  invalid_game unsupported_pc98 unsupported_fighter unknown_game : GameError

pub data ParsedGame : Type 0 where
  ok : Game → ParsedGame
  err : GameError → ParsedGame

unfoldable pub as_str : Game → List ℕ
as_str Game.th06 = b't' ∷ b'h' ∷ b'0' ∷ b'6' ∷ []
as_str Game.th07 = b't' ∷ b'h' ∷ b'0' ∷ b'7' ∷ []
as_str Game.th08 = b't' ∷ b'h' ∷ b'0' ∷ b'8' ∷ []
as_str Game.th09 = b't' ∷ b'h' ∷ b'0' ∷ b'9' ∷ []
as_str Game.th095 = b't' ∷ b'h' ∷ b'0' ∷ b'9' ∷ b'5' ∷ []
as_str Game.th10 = b't' ∷ b'h' ∷ b'1' ∷ b'0' ∷ []
as_str Game.alcostg = b'a' ∷ b'l' ∷ b'c' ∷ b'o' ∷ b's' ∷ b't' ∷ b'g' ∷ []
as_str Game.th11 = b't' ∷ b'h' ∷ b'1' ∷ b'1' ∷ []
as_str Game.th12 = b't' ∷ b'h' ∷ b'1' ∷ b'2' ∷ []
as_str Game.th125 = b't' ∷ b'h' ∷ b'1' ∷ b'2' ∷ b'5' ∷ []
as_str Game.th128 = b't' ∷ b'h' ∷ b'1' ∷ b'2' ∷ b'8' ∷ []
as_str Game.th13 = b't' ∷ b'h' ∷ b'1' ∷ b'3' ∷ []
as_str Game.th14 = b't' ∷ b'h' ∷ b'1' ∷ b'4' ∷ []
as_str Game.th143 = b't' ∷ b'h' ∷ b'1' ∷ b'4' ∷ b'3' ∷ []
as_str Game.th15 = b't' ∷ b'h' ∷ b'1' ∷ b'5' ∷ []
as_str Game.th16 = b't' ∷ b'h' ∷ b'1' ∷ b'6' ∷ []
as_str Game.th165 = b't' ∷ b'h' ∷ b'1' ∷ b'6' ∷ b'5' ∷ []
as_str Game.th17 = b't' ∷ b'h' ∷ b'1' ∷ b'7' ∷ []
as_str Game.th18 = b't' ∷ b'h' ∷ b'1' ∷ b'8' ∷ []

unfoldable pub abbr : Game → List ℕ
abbr Game.th06 = b'E' ∷ b'o' ∷ b'S' ∷ b'D' ∷ []
abbr Game.th07 = b'P' ∷ b'C' ∷ b'B' ∷ []
abbr Game.th08 = b'I' ∷ b'N' ∷ []
abbr Game.th09 = b'P' ∷ b'o' ∷ b'F' ∷ b'V' ∷ []
abbr Game.th095 = b'S' ∷ b't' ∷ b'B' ∷ []
abbr Game.th10 = b'M' ∷ b'o' ∷ b'F' ∷ []
abbr Game.alcostg = b'A' ∷ b'l' ∷ b'c' ∷ b'o' ∷ b'S' ∷ b'T' ∷ b'G' ∷ []
abbr Game.th11 = b'S' ∷ b'A' ∷ []
abbr Game.th12 = b'U' ∷ b'F' ∷ b'O' ∷ []
abbr Game.th125 = b'D' ∷ b'S' ∷ []
abbr Game.th128 = b'G' ∷ b'F' ∷ b'W' ∷ []
abbr Game.th13 = b'T' ∷ b'D' ∷ []
abbr Game.th14 = b'D' ∷ b'D' ∷ b'C' ∷ []
abbr Game.th143 = b'I' ∷ b'S' ∷ b'C' ∷ []
abbr Game.th15 = b'L' ∷ b'o' ∷ b'L' ∷ b'K' ∷ []
abbr Game.th16 = b'H' ∷ b'S' ∷ b'i' ∷ b'F' ∷ b'S' ∷ []
abbr Game.th165 = b'V' ∷ b'D' ∷ []
abbr Game.th17 = b'W' ∷ b'B' ∷ b'a' ∷ b'W' ∷ b'C' ∷ []
abbr Game.th18 = b'U' ∷ b'M' ∷ []

unfoldable pub as_number : Game → ℕ
as_number Game.th06 = 6
as_number Game.th07 = 7
as_number Game.th08 = 8
as_number Game.th09 = 9
as_number Game.th095 = 95
as_number Game.th10 = 10
as_number Game.alcostg = 103
as_number Game.th11 = 11
as_number Game.th12 = 12
as_number Game.th125 = 125
as_number Game.th128 = 128
as_number Game.th13 = 13
as_number Game.th14 = 14
as_number Game.th143 = 143
as_number Game.th15 = 15
as_number Game.th16 = 16
as_number Game.th165 = 165
as_number Game.th17 = 17
as_number Game.th18 = 18

-- `str::parse::<u32>`: digits behind an optional plus sign; too large a number is an error.
unfoldable pub parse_digits : ℕ → List ℕ → Option ℕ
parse_digits n [] = if ltb n (2 ^ 32) then some n else none
parse_digits n (c ∷ cs) =
    let rest = parse_digits (n * 10 + (c - b'0')) cs in
    if leb b'0' c && leb c b'9' then rest else none

unfoldable pub parse_u32 : List ℕ → Option ℕ
unfolding parse_digits
parse_u32 [] = none
parse_u32 (c ∷ []) = if c == b'+' then none else parse_digits 0 (c ∷ [])
parse_u32 (c ∷ d ∷ cs) = if c == b'+' then parse_digits 0 (d ∷ cs) else parse_digits 0 (c ∷ d ∷ cs)

-- `strip_prefix("th")`, or the whole string.
unfoldable pub strip_th : List ℕ → List ℕ
strip_th (a ∷ b ∷ cs) = if a == b't' && b == b'h' then cs else a ∷ b ∷ cs
strip_th s = s

-- The match on the number, as a chain of tests.
unfoldable pub find_game : ℕ → ParsedGame
find_game n =
    if leb 1 n && leb n 5
    then err unsupported_pc98
    else if n == 75
    then err unsupported_fighter
    else if n == 105
    then err unsupported_fighter
    else if n == 135
    then err unsupported_fighter
    else if n == 145
    then err unsupported_fighter
    else if n == 155
    then err unsupported_fighter
    else if n == 175
    then err unsupported_fighter
    else if n == 6
    then ok Game.th06
    else if n == 7
    then ok Game.th07
    else if n == 8
    then ok Game.th08
    else if n == 9
    then ok Game.th09
    else if n == 95
    then ok Game.th095
    else if n == 10
    then ok Game.th10
    else if n == 103
    then ok Game.alcostg
    else if n == 11
    then ok Game.th11
    else if n == 12
    then ok Game.th12
    else if n == 125
    then ok Game.th125
    else if n == 128
    then ok Game.th128
    else if n == 13
    then ok Game.th13
    else if n == 14
    then ok Game.th14
    else if n == 143
    then ok Game.th143
    else if n == 15
    then ok Game.th15
    else if n == 16
    then ok Game.th16
    else if n == 165
    then ok Game.th165
    else if n == 17
    then ok Game.th17
    else if n == 18
    then ok Game.th18
    else err unknown_game

unfoldable pub game_of_number : Option ℕ → ParsedGame
unfolding find_game
game_of_number none = err invalid_game
game_of_number (some n) = find_game n

unfoldable pub same_string : List ℕ → List ℕ → Bool
same_string [] [] = true
same_string (a ∷ s) (b ∷ t) = a == b && same_string s t
same_string _ _ = false

unfoldable pub from_str : List ℕ → ParsedGame
unfolding same_string as_str game_of_number parse_u32 strip_th
from_str s =
    if same_string s (as_str Game.alcostg)
    then ok Game.alcostg
    else game_of_number (parse_u32 (strip_th s))

unfoldable pub language_descr : LanguageKey → List ℕ
language_descr LanguageKey.ecl = b'E' ∷ b'C' ∷ b'L' ∷ []
language_descr LanguageKey.timeline =
    b'E' ∷ b'C' ∷ b'L' ∷ b' ' ∷ b'T' ∷ b'i' ∷ b'm' ∷ b'e' ∷ b'l' ∷ b'i' ∷ b'n' ∷ b'e' ∷ []
language_descr LanguageKey.anm = b'A' ∷ b'N' ∷ b'M' ∷ []
language_descr LanguageKey.std = b'S' ∷ b'T' ∷ b'D' ∷ []
language_descr LanguageKey.msg = b'S' ∷ b't' ∷ b'a' ∷ b'g' ∷ b'e' ∷ b' ' ∷ b'M' ∷ b'S' ∷ b'G' ∷ []
language_descr LanguageKey.end =
    b'E' ∷ b'n' ∷ b'd' ∷ b'i' ∷ b'n' ∷ b'g' ∷ b' ' ∷ b'M' ∷ b'S' ∷ b'G' ∷ []
language_descr LanguageKey.dummy =
    b'D' ∷ b'u' ∷ b'm' ∷ b'm' ∷ b'y' ∷ b' ' ∷ b'T' ∷ b'e' ∷ b's' ∷ b't' ∷ b' ' ∷ b'L' ∷ b'a' ∷ b'n'
    ∷ b'g' ∷ b'u' ∷ b'a' ∷ b'g' ∷ b'e' ∷ []
