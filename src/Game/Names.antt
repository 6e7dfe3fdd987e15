-- ===== src/Game/Names.antt =====
-- Every name is read as its game, and so is every number.
use truth.Base.{◌≡◌, refl}
use truth.Game.{Game, ok, as_str, as_number, from_str, find_game}

-- The name of each game is read as the game, and its number belongs to no other game.
pub from_str-as_str : (g : Game) → (from_str (as_str g) ≡ ok g) × (find_game (as_number g) ≡ ok g)
unfolding from_str truth.Game.parse_digits as_str as_number find_game
from_str-as_str Game.th06 = (refl, refl)
from_str-as_str Game.th07 = (refl, refl)
from_str-as_str Game.th08 = (refl, refl)
from_str-as_str Game.th09 = (refl, refl)
from_str-as_str Game.th095 = (refl, refl)
from_str-as_str Game.th10 = (refl, refl)
from_str-as_str Game.alcostg = (refl, refl)
from_str-as_str Game.th11 = (refl, refl)
from_str-as_str Game.th12 = (refl, refl)
from_str-as_str Game.th125 = (refl, refl)
from_str-as_str Game.th128 = (refl, refl)
from_str-as_str Game.th13 = (refl, refl)
from_str-as_str Game.th14 = (refl, refl)
from_str-as_str Game.th143 = (refl, refl)
from_str-as_str Game.th15 = (refl, refl)
from_str-as_str Game.th16 = (refl, refl)
from_str-as_str Game.th165 = (refl, refl)
from_str-as_str Game.th17 = (refl, refl)
from_str-as_str Game.th18 = (refl, refl)
