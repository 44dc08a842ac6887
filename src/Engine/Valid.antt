-- ===== src/Engine/Valid.antt =====
-- What holds of every session in memory, whatever is called on the manager: first what a turn keeps.
pub mod Sessions
pub mod Restore
pub mod Lookup
pub mod Calls
pub mod Run
use domino_jc_project.Prelude.{
  ◌≡◌, ◌≢◌, refl, ◌∙◌, sym, ap, String, str_eq, Bool, true, false, Option, none, some, StringMap,
  List, [], ◌∷◌, find_key, put_key, delete_key, find_key-put_key, find_key-delete_key, eq_iff,
  arith, Bool-cases, Option-cases, inl, inr, if◌then◌else◌, ℕ, All,
}
use domino_jc_project.Models.Tile.{DominoTile, modify_hand, find_hand}
use domino_jc_project.Models.Session.{
  GameSession, Result, ok, err, new_game_session, reset_for_setup, lock_for_completion,
}
use domino_jc_project.Models.Evaluate.{MatchOutcome, evaluate_match}
use domino_jc_project.Models.Deck.{
  generate_standard_deck, shuffle_boneyard_deterministic, deal_hands,
}
use domino_jc_project.Models.Play.{place, rotate_turn, keep_tiles, pass_turn}
use domino_jc_project.Models.Turn.{
  TurnKind, play, draw, pass, unknown, TurnAction, TurnResult, process_game_turn, settle, is_play,
  activate,
}
use domino_jc_project.Models.Turn.Cases.{
  Moved, placed, drawn, passed, refused, lost, settled, process_game_turn-TurnCase, ended, goes_on,
  settle-SettleCase,
}
use domino_jc_project.Models.Board.{IsBoard, HasPips, process_game_turn-IsBoard}

place-session_id :
    (s : GameSession) (t : DominoTile) (left : Bool) → (place s t left).session_id ≡ s.session_id
unfolding place
place-session_id s t left = ground arith

Moved-session_id :
    (s : GameSession) (a : TurnAction) {k : TurnKind} {d : Option DominoTile} {t : GameSession}
    → Moved s a k d t
    → t.session_id ≡ s.session_id
unfolding rotate_turn
Moved-session_id s a (placed h rest turn c f m) =
    place-session_id (record s { hands = modify_hand a.player_id (keep_tiles rest) s.hands }) a.tile
      a.play_at_left
Moved-session_id s a (drawn top rest h turn e f) = refl
Moved-session_id s a (passed h turn f) = refl

settle-session_id :
    (k : TurnKind) (d : Option DominoTile) (s : GameSession)
    → (settle k d s).0.session_id ≡ s.session_id
unfolding rotate_turn lock_for_completion
settle-session_id k d s = elim (settle-SettleCase k d s) [
  | ended w e q ↦ rw q
  | goes_on e q ↦ rw q (kept k)
]
  where
    kept :
        (k : TurnKind)
        → (if is_play k then rotate_turn (activate s) else activate s).session_id ≡ s.session_id
    kept play = refl
    kept draw = refl
    kept pass = refl
    kept (unknown x) = refl

pub process_game_turn-session_id :
    (s : GameSession) (a : TurnAction) → (process_game_turn s a).0.session_id ≡ s.session_id
process_game_turn-session_id s a = elim (process_game_turn-TurnCase s a) [
  | refused e q ↦ rw q
  | lost top rest b f q ↦ rw q
  | settled k d t m q ↦ rw q (settle-session_id k d t ∙ Moved-session_id s a m)
]
