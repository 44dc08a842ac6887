-- ===== src/Models/Turn.antt =====
-- pkg/models/turn.go and ProcessGameTurn of game_methods.go: one player action.
pub mod Cases
use domino_jc_project.Prelude.{String, Bool, true, false, ◌||◌, Option, none, some, if◌then◌else◌}
use domino_jc_project.Models.Tile.{DominoTile}
use domino_jc_project.Models.Session.{
  active, is_waiting, is_completed, GameSession, Result, ok, err, mutations_are_locked,
  unsupported_kind, lock_for_completion,
}
use domino_jc_project.Models.Evaluate.{MatchOutcome, evaluate_match}
use domino_jc_project.Models.Play.{play_tile, draw_from_boneyard, pass_turn, rotate_turn}

-- `unknown` is a kind that is none of the three constants.
pub data TurnKind : Type 0 where
  play draw pass : TurnKind
  unknown : String → TurnKind

pub record TurnAction : Type 0 where
  pub kind : TurnKind
  pub player_id : String
  pub tile : DominoTile
  pub play_at_left : Bool

pub record TurnResult : Type 0 where
  pub applied : Bool
  pub drawn_tile : Option DominoTile
  pub match_ended : Bool
  pub outcome : Option MatchOutcome
  pub needs_persist : Bool

abbrev pub no_result : TurnResult
no_result = record {
  applied = false;
  drawn_tile = none;
  match_ended = false;
  outcome = none;
  needs_persist = false;
}

abbrev pub applied_result : Option DominoTile → TurnResult
applied_result drawn = record no_result { applied = true; drawn_tile = drawn; needs_persist = true }

abbrev pub activate : GameSession → GameSession
activate s = record s { status = if is_waiting s.status then active else s.status }

abbrev pub is_play : TurnKind → Bool
is_play play = true
is_play _ = false

-- What follows the `switch`, for an action that was applied.
unfoldable pub settle : TurnKind → Option DominoTile → GameSession → GameSession × Result TurnResult
unfolding lock_for_completion rotate_turn evaluate_match
settle kind drawn s =
    let r = applied_result drawn in
    let s' = activate s in
    elim (evaluate_match s') [
      | some o ↦ (lock_for_completion s', ok (record r { match_ended = true; outcome = some o }))
      | none ↦ (if is_play kind then rotate_turn s' else s', ok r)
    ]

after_play : GameSession × Result Bool → GameSession × Result TurnResult
unfolding settle
after_play (s, err e) = (s, err e)
after_play (s, ok false) = (s, ok no_result)
after_play (s, ok true) = settle play none s

after_draw : GameSession × Result DominoTile → GameSession × Result TurnResult
unfolding settle
after_draw (s, err e) = (s, err e)
after_draw (s, ok t) = settle draw (some t) s

after_pass : GameSession × Result (Unit {0}) → GameSession × Result TurnResult
unfolding settle
after_pass (s, err e) = (s, err e)
after_pass (s, ok _) = settle pass none s

dispatch : TurnKind → GameSession → TurnAction → GameSession × Result TurnResult
unfolding after_play after_draw after_pass
dispatch play s a = after_play (play_tile s a.player_id a.tile a.play_at_left)
dispatch draw s a = after_draw (draw_from_boneyard s a.player_id)
dispatch pass s a = after_pass (pass_turn s a.player_id)
dispatch (unknown k) s a = (s, err (unsupported_kind k))

unfoldable pub process_game_turn : GameSession → TurnAction → GameSession × Result TurnResult
unfolding dispatch
process_game_turn s a =
    if s.mutations_locked || is_completed s.status
    then (s, err mutations_are_locked)
    else dispatch a.kind s a
