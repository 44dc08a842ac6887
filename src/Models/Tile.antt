-- ===== src/Models/Tile.antt =====
-- pkg/models/game.go and game_methods.go: tiles, hands, and the open ends of the board.
use Prim.Native.String.{◌++◌ as str_append}
use domino_jc_project.Prelude.{
  ℕ, zero, suc, ◌/◌, ◌%◌, ◌+◌, String, Bool, true, false, ◌&&◌, ◌||◌, Option, none, some, List, [],
  ◌∷◌, ℤ, pos, negsuc, eqb_ℤ, leb_ℤ, ltb, ◌==◌, str_eq, if◌then◌else◌, length,
}

-- Go's `int` values are integers here: the program only compares and adds small pips.
pub record DominoTile : Type 0 where
  pub uid : String
  pub id : String
  pub value_left : ℤ
  pub value_right : ℤ

digit : ℕ → String
digit n =
    if n == 0
    then "0"
    else if n == 1
    then "1"
    else if n == 2
    then "2"
    else if n == 3
    then "3"
    else if n == 4
    then "4"
    else if n == 5
    then "5"
    else if n == 6
    then "6"
    else if n == 7
    then "7"
    else if n == 8
    then "8"
    else "9"

-- `%d` of a number below 10 ^ fuel.
decimal_fuel : ℕ → ℕ → String
unfolding digit
decimal_fuel zero n = digit (n % 10)
decimal_fuel (suc fuel) n =
    let high = decimal_fuel fuel (n / 10) in
    if ltb n 10 then digit n else str_append high (digit (n % 10))

-- `%d` of Go's fmt, for an `int` of at most twenty digits.
unfoldable pub decimal : ℤ → String
unfolding decimal_fuel
decimal (pos n) = decimal_fuel 20 n
decimal (negsuc n) = str_append "-" (decimal_fuel 20 (n + 1))

unfoldable pub new_tile : ℤ → ℤ → DominoTile
unfolding decimal
new_tile left right = record {
  uid = "";
  id = str_append (decimal left) (str_append "-" (decimal right));
  value_left = left;
  value_right = right;
}

unfoldable pub is_double : DominoTile → Bool
is_double t = eqb_ℤ t.value_left t.value_right

unfoldable pub matches_value : DominoTile → ℤ → Bool
matches_value t value = eqb_ℤ t.value_left value || eqb_ℤ t.value_right value

unfoldable pub other_value : DominoTile → ℤ → ℤ × Bool
other_value t value =
    if eqb_ℤ value t.value_left
    then (t.value_right, true)
    else if eqb_ℤ value t.value_right
    then (t.value_left, true)
    else (value, false)

pub record PlayerHand : Type 0 where
  pub uid : String
  pub player_id : String
  pub tiles : List DominoTile
  pub redacted_tile_count : ℕ
  pub has_passed : Bool
  pub is_ready : Bool
  pub is_abandoned : Bool

unfoldable pub new_player_hand : String → PlayerHand
new_player_hand player = record {
  uid = "";
  player_id = player;
  tiles = [];
  redacted_tile_count = 0;
  has_passed = false;
  is_ready = false;
  is_abandoned = false;
}

unfoldable pub tile_count : PlayerHand → ℕ
tile_count h = length h.tiles

has_tile_in : String → List DominoTile → Bool
has_tile_in tile_id [] = false
has_tile_in tile_id (t ∷ ts) = str_eq t.id tile_id || has_tile_in tile_id ts

unfoldable pub has_tile : PlayerHand → String → Bool
unfolding has_tile_in
has_tile h tile_id = has_tile_in tile_id h.tiles

pub record BoardEnds : Type 0 where
  pub open_left : ℤ
  pub open_right : ℤ

unfoldable pub is_open : BoardEnds → Bool
is_open e = leb_ℤ (pos 0) e.open_left && leb_ℤ (pos 0) e.open_right

unfoldable pub matches_play : BoardEnds → ℤ → Bool
matches_play e value = eqb_ℤ e.open_left value || eqb_ℤ e.open_right value

-- The loops over `s.Hands` that stop at the first hand of a player.
unfoldable pub find_hand : String → List PlayerHand → Option PlayerHand
find_hand player [] = none
find_hand player (h ∷ hs) = if str_eq h.player_id player then some h else find_hand player hs

unfoldable pub modify_hand : String → (PlayerHand → PlayerHand) → List PlayerHand → List PlayerHand
modify_hand player f [] = []
modify_hand player f (h ∷ hs) =
    if str_eq h.player_id player then f h ∷ hs else h ∷ modify_hand player f hs

-- `append(tiles[:i], tiles[i+1:]...)` at the first tile with the given id.
unfoldable pub remove_tile : String → List DominoTile → Option (List DominoTile)
remove_tile tile_id [] = none
remove_tile tile_id (t ∷ ts) =
    if str_eq t.id tile_id
    then some ts
    else elim (remove_tile tile_id ts) [ none ↦ none | some rest ↦ some (t ∷ rest) ]
