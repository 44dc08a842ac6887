-- ===== src/Models/Session.antt =====
-- pkg/models/game.go, game_methods.go, turn.go: the session and the values that its methods return.
use domino_jc_project.Prelude.{ℕ, String, Bool, true, false, List, [], map, ℤ, negsuc}
use domino_jc_project.Models.Tile.{DominoTile, PlayerHand, BoardEnds, new_player_hand}

-- `other` is any string that is none of the three constants, the empty one included.
pub data Status : Type 0 where
  waiting active completed : Status
  other : String → Status

abbrev pub is_waiting : Status → Bool
is_waiting waiting = true
is_waiting _ = false

abbrev pub is_completed : Status → Bool
is_completed completed = true
is_completed _ = false

pub record GameSession : Type 0 where
  pub uid : String
  pub session_id : String
  pub status : Status
  pub players : List String
  pub hands : List PlayerHand
  pub boneyard : List DominoTile
  pub boneyard_count : ℕ
  pub game_board : List DominoTile
  pub left_open_value : ℤ
  pub right_open_value : ℤ
  pub current_turn : String
  pub mutations_locked : Bool
  pub boneyard_raw : String
  pub game_board_raw : String

-- The messages of `fmt.Errorf` with what they print.
pub data Error : Type 0 where
  mutations_are_locked boneyard_empty : Error
  not_your_turn hand_not_found unsupported_kind : String → Error
  illegal_move tile_not_in_hand : DominoTile → Error
  not_enough_tiles : ℕ → ℕ → Error
  random_source_failed index_out_of_range : Error

pub data Result {ℓ} (A : Type ℓ) : Type ℓ where
  ok : A → Result A
  err : Error → Result A

abbrev pub no_value : ℤ
no_value = negsuc 0

unfoldable pub new_game_session : String → List String → GameSession
unfolding new_player_hand
new_game_session session_id players = record {
  uid = "";
  session_id = session_id;
  status = waiting;
  players = players;
  hands = map new_player_hand players;
  boneyard = [];
  boneyard_count = 0;
  game_board = [];
  left_open_value = no_value;
  right_open_value = no_value;
  current_turn = "";
  mutations_locked = false;
  boneyard_raw = "";
  game_board_raw = "";
}

unfoldable pub clear_hand : PlayerHand → PlayerHand
clear_hand h = record h { tiles = []; has_passed = false }

unfoldable pub reset_for_setup : GameSession → GameSession
unfolding clear_hand
reset_for_setup s = record s {
  hands = map clear_hand s.hands;
  game_board = [];
  boneyard = [];
  boneyard_raw = "";
  game_board_raw = "";
  left_open_value = no_value;
  right_open_value = no_value;
  mutations_locked = false;
}

unfoldable pub board_ends : GameSession → BoardEnds
board_ends s = record { open_left = s.left_open_value; open_right = s.right_open_value }

unfoldable pub set_board_ends : GameSession → ℤ → ℤ → GameSession
set_board_ends s left right = record s { left_open_value = left; right_open_value = right }

unfoldable pub lock_for_completion : GameSession → GameSession
lock_for_completion s = record s { mutations_locked = true; status = completed }
