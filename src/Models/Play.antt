-- ===== src/Models/Play.antt =====
-- pkg/models/game_methods.go: the three moves and the rotation of the turn. A method returns the
-- session as it leaves it, beside its result, also where it fails.
pub mod Cases
use domino_jc_project.Prelude.{
  ℕ, suc, ◌+◌, ◌%◌, String, Bool, true, false, not, ◌&&◌, ◌||◌, Option, none, some, List, [], ◌∷◌,
  ◌++◌, eqb_ℤ, str_eq, if◌then◌else◌, length, get_elem?,
}
use domino_jc_project.Models.Tile.{DominoTile, PlayerHand, find_hand, modify_hand, remove_tile}
use domino_jc_project.Models.Session.{
  GameSession, Result, ok, err, not_your_turn, illegal_move, hand_not_found, tile_not_in_hand,
  boneyard_empty, no_value, set_board_ends,
}

abbrev pub board_is_empty : GameSession → Bool
board_is_empty s = eqb_ℤ s.left_open_value no_value && eqb_ℤ s.right_open_value no_value

unfoldable pub can_play : GameSession → DominoTile → Bool → Bool
can_play s tile play_at_left =
    if board_is_empty s
    then true
    else if play_at_left
    then (eqb_ℤ tile.value_left s.left_open_value || eqb_ℤ tile.value_right s.left_open_value)
    else (eqb_ℤ tile.value_left s.right_open_value || eqb_ℤ tile.value_right s.right_open_value)

unfoldable pub flip : DominoTile → DominoTile
flip t = record t { value_left = t.value_right; value_right = t.value_left }

unfoldable pub place_left : GameSession → DominoTile → GameSession
unfolding flip
place_left s tile =
    let t = if eqb_ℤ tile.value_right s.left_open_value then tile else flip tile in
    record s { game_board = t ∷ s.game_board; left_open_value = t.value_left }

unfoldable pub place_right : GameSession → DominoTile → GameSession
unfolding flip
place_right s tile =
    let t = if eqb_ℤ tile.value_left s.right_open_value then tile else flip tile in
    record s { game_board = s.game_board ++ t ∷ []; right_open_value = t.value_right }

-- The placement half of `PlayTile`.
unfoldable pub place : GameSession → DominoTile → Bool → GameSession
unfolding place_left place_right set_board_ends
place s tile play_at_left =
    if board_is_empty s
    then set_board_ends (record s { game_board = s.game_board ++ tile ∷ [] }) tile.value_left
        tile.value_right
    else if play_at_left
    then place_left s tile
    else place_right s tile

abbrev pub keep_tiles : List DominoTile → PlayerHand → PlayerHand
keep_tiles rest h = record h { tiles = rest; has_passed = false }

take_from_hand : GameSession → String → DominoTile → Bool → PlayerHand → GameSession × Result Bool
unfolding place remove_tile modify_hand
take_from_hand s player tile play_at_left hand = elim (remove_tile tile.id hand.tiles) [
  | none ↦ (s, err (tile_not_in_hand tile))
  | some rest ↦ (
    place (record s { hands = modify_hand player (keep_tiles rest) s.hands }) tile play_at_left,
    ok true,
  )
]

unfoldable pub play_tile : GameSession → String → DominoTile → Bool → GameSession × Result Bool
unfolding can_play take_from_hand find_hand
play_tile s player tile play_at_left =
    if not (str_eq s.current_turn player)
    then (s, err (not_your_turn player))
    else if not (can_play s tile play_at_left)
    then (s, err (illegal_move tile))
    else elim (find_hand player s.hands) [
      | none ↦ (s, err (hand_not_found player))
      | some hand ↦ take_from_hand s player tile play_at_left hand
    ]

abbrev pub gain_tile : DominoTile → PlayerHand → PlayerHand
gain_tile t h = record h { tiles = h.tiles ++ t ∷ []; has_passed = false }

-- The tile leaves the boneyard before the hand is looked for.
draw_top : GameSession → String → List DominoTile → GameSession × Result DominoTile
unfolding find_hand modify_hand
draw_top s player [] = (s, err boneyard_empty)
draw_top s player (top ∷ rest) = elim (find_hand player s.hands) [
  | none ↦ (record s { boneyard = rest }, err (hand_not_found player))
  | some _ ↦
      (record s { boneyard = rest; hands = modify_hand player (gain_tile top) s.hands }, ok top)
]

unfoldable pub draw_from_boneyard : GameSession → String → GameSession × Result DominoTile
unfolding draw_top
draw_from_boneyard s player =
    if not (str_eq s.current_turn player)
    then (s, err (not_your_turn player))
    else draw_top s player s.boneyard

-- The index of the first player of that name.
unfoldable pub index_of : String → List String → Option ℕ
index_of p [] = none
index_of p (q ∷ qs) =
    let rest = index_of p qs in
    if str_eq q p then some 0 else elim rest [ none ↦ none | some i ↦ some (suc i) ]

-- `players[i]` at an index that the caller keeps in range.
abbrev pub player_at : List String → ℕ → String
player_at ps i = elim (get_elem? ps i) [ none ↦ "" | some p ↦ p ]

unfoldable pub next_turn : List String → String → String
unfolding index_of
next_turn [] current = current
next_turn (p ∷ ps) current = elim (index_of current (p ∷ ps)) [
  | none ↦ p
  | some i ↦ player_at (p ∷ ps) ((i + 1) % length (p ∷ ps))
]

unfoldable pub rotate_turn : GameSession → GameSession
unfolding next_turn
rotate_turn s = record s { current_turn = next_turn s.players s.current_turn }

abbrev pub mark_passed : PlayerHand → PlayerHand
mark_passed h = record h { has_passed = true }

unfoldable pub pass_turn : GameSession → String → GameSession × Result (Unit {0})
unfolding rotate_turn find_hand modify_hand
pass_turn s player =
    if not (str_eq s.current_turn player)
    then (s, err (not_your_turn player))
    else elim (find_hand player s.hands) [
      | none ↦ (s, err (hand_not_found player))
      | some _ ↦ (rotate_turn (record s { hands = modify_hand player mark_passed s.hands }), ok tt)
    ]
