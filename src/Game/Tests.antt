-- ===== src/Game/Tests.antt =====
-- Names that are refused, and the theorem at one game.
use truth.Base.{◌≡◌, refl, [], ◌∷◌}
use truth.Game.{
  Game, ok, err, unsupported_pc98, invalid_game, as_str, as_number, from_str, find_game,
}
use truth.Game.Names.{from_str-as_str}

pc98_test : from_str (b't' ∷ b'h' ∷ b'0' ∷ b'4' ∷ []) ≡ err unsupported_pc98
unfolding from_str truth.Game.parse_digits
pc98_test = refl

invalid_test : from_str (b't' ∷ b'h' ∷ []) ≡ err invalid_game
unfolding from_str
invalid_test = refl

from_str-as_str_example :
    (from_str (as_str Game.th095) ≡ ok Game.th095)
    × (find_game (as_number Game.th095) ≡ ok Game.th095)
from_str-as_str_example = from_str-as_str Game.th095
