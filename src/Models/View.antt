-- ===== src/Models/View.antt =====
-- pkg/models/view.go: what one player is shown of a session.
pub mod Secrecy
use domino_jc_project.Prelude.{String, [], map, str_eq, if◌then◌else◌, length}
use domino_jc_project.Models.Tile.{PlayerHand, new_player_hand}
use domino_jc_project.Models.Session.{GameSession, is_completed}

unfoldable pub view_hand : String → PlayerHand → PlayerHand
unfolding new_player_hand
view_hand viewer h =
    let shown = record (new_player_hand h.player_id) {
      has_passed = h.has_passed;
      is_ready = h.is_ready;
      is_abandoned = h.is_abandoned;
    } in
    if str_eq h.player_id viewer
    then record shown { tiles = h.tiles }
    else record shown { redacted_tile_count = length h.tiles }

-- A nil session is not represented; `boneyard_count` keeps its old value once the match is over.
unfoldable pub view_for_player : GameSession → String → GameSession
unfolding view_hand
view_for_player s viewer = record s {
  hands = map (view_hand viewer) s.hands;
  boneyard = if is_completed s.status then s.boneyard else [];
  boneyard_count = if is_completed s.status then s.boneyard_count else length s.boneyard;
  boneyard_raw = "";
  game_board_raw = "";
}
