-- ===== src/Models/Tests.antt =====
-- The theorems about the rules at concrete sessions, and short games that run.
use domino_jc_project.Prelude.{
  ℕ, String, ◌≡◌, ◌≢◌, refl, sym, Bool, true, false, none, some, List, [], ◌∷◌, pos, arith, eq_iff,
  false≢true, inl, inr,
}
use domino_jc_project.Models.Tile.{DominoTile, PlayerHand, find_hand, remove_tile}
use domino_jc_project.Models.Session.{GameSession, ok, active, no_value}
use domino_jc_project.Models.Evaluate.{EndReason, MatchOutcome, evaluate_match}
use domino_jc_project.Models.Play.{play_tile, draw_from_boneyard}
use domino_jc_project.Models.Turn.{TurnAction, play, draw, TurnResult, process_game_turn}
use domino_jc_project.Models.View.{view_for_player}
use domino_jc_project.Models.View.Secrecy.{view_for_player-Indistinct}
use domino_jc_project.Models.Board.{IsBoard}
use domino_jc_project.Models.Conserve.{tile_total, process_game_turn-tile_total}
use domino_jc_project.Models.Winner.Outcome.{IsFair, evaluate_match-IsFair}
use domino_jc_project.Models.Ending.{
  run_turns, Reports, process_game_turn-Reports, ended_is_final, run_turns-IsBoard,
}

abbrev tile : ℕ → ℕ → String → DominoTile
tile l r id = record { uid = ""; id = id; value_left = pos l; value_right = pos r }

abbrev hand : String → List DominoTile → PlayerHand
hand player tiles = record {
  uid = "";
  player_id = player;
  tiles = tiles;
  redacted_tile_count = 0;
  has_passed = false;
  is_ready = true;
  is_abandoned = false;
}

-- Two players; `a` is to move.
abbrev table : List DominoTile → List DominoTile → List DominoTile → GameSession
table as_tiles bs_tiles pool = record {
  uid = "";
  session_id = "m";
  status = active;
  players = "a" ∷ "b" ∷ [];
  hands = hand "a" as_tiles ∷ hand "b" bs_tiles ∷ [];
  boneyard = pool;
  boneyard_count = 0;
  game_board = [];
  left_open_value = no_value;
  right_open_value = no_value;
  current_turn = "a";
  mutations_locked = false;
  boneyard_raw = "";
  game_board_raw = "";
}

abbrev opening : GameSession
opening =
    table (tile 2 5 "2-5" ∷ tile 0 1 "0-1" ∷ []) (tile 2 3 "2-3" ∷ tile 4 4 "4-4" ∷ [])
      (tile 6 6 "6-6" ∷ [])

abbrev turn_play : String → DominoTile → Bool → TurnAction
turn_play player t left = record { kind = play; player_id = player; tile = t; play_at_left = left }

abbrev turn_draw : String → TurnAction
turn_draw player = record {
  kind = draw;
  player_id = player;
  tile = tile 0 0 "";
  play_at_left = false;
}

abbrev game : List TurnAction
game =
    turn_play "a" (tile 2 5 "2-5") true ∷ turn_play "b" (tile 2 3 "2-3") true ∷ turn_draw "a" ∷ []

game_board_after : (run_turns opening game).game_board ≡ tile 3 2 "2-3" ∷ tile 2 5 "2-5" ∷ []
unfolding run_turns process_game_turn play_tile draw_from_boneyard
game_board_after = refl

run_turns-IsBoard_example : IsBoard (run_turns opening game)
run_turns-IsBoard_example =
    run_turns-IsBoard opening game (record { linked = tt; ends = (refl, refl); pips = tt })
      (omega arith)

-- `a` plays the last tile and wins.
abbrev last_tile : GameSession
last_tile = table (tile 2 5 "2-5" ∷ []) (tile 4 4 "4-4" ∷ []) []

abbrev winning : TurnAction
winning = turn_play "a" (tile 2 5 "2-5") true

abbrev won : TurnResult
won = record {
  applied = true;
  drawn_tile = none;
  match_ended = true;
  outcome = some (record {
    match_id = "m";
    winner_id = "a";
    scores = ("a", pos 0) ∷ ("b", pos 8) ∷ [];
    reason = EndReason.empty_hand;
  });
  needs_persist = true;
}

winning_wins : (process_game_turn last_tile winning).1 ≡ ok won
unfolding process_game_turn play_tile
winning_wins = refl

process_game_turn-tile_total_example :
    tile_total "4-4" (process_game_turn last_tile winning).0 ≡ tile_total "4-4" last_tile
process_game_turn-tile_total_example =
    process_game_turn-tile_total last_tile winning "4-4" won winning_wins

process_game_turn-Reports_example : Reports (process_game_turn last_tile winning).0 won
process_game_turn-Reports_example = process_game_turn-Reports last_tile winning won winning_wins

ended_is_final_example :
    run_turns (process_game_turn last_tile winning).0 game ≡ (process_game_turn last_tile winning).0
ended_is_final_example = ended_is_final last_tile winning won game winning_wins refl

abbrev stuck : GameSession
stuck = record last_tile {
  hands =
      record (hand "a" (tile 2 5 "2-5" ∷ [])) { has_passed = true }
      ∷ record (hand "b" (tile 1 3 "1-3" ∷ [])) { has_passed = true }
      ∷ [];
}

abbrev stuck_outcome : MatchOutcome
stuck_outcome = record {
  match_id = "m";
  winner_id = "b";
  scores = ("a", pos 7) ∷ ("b", pos 4) ∷ [];
  reason = EndReason.blocked;
}

stuck_ends : evaluate_match stuck ≡ some stuck_outcome
unfolding evaluate_match
stuck_ends = refl

a≢b : ◌≢◌ {A = String} "a" "b"
a≢b e = false≢true ((eq_iff "a" "b").1 e)

a≢nil : ◌≢◌ {A = String} "a" ""
a≢nil e = false≢true ((eq_iff "a" "").1 e)

b≢nil : ◌≢◌ {A = String} "b" ""
b≢nil e = false≢true ((eq_iff "b" "").1 e)

evaluate_match-IsFair_example : IsFair stuck stuck_outcome
evaluate_match-IsFair_example =
    evaluate_match-IsFair stuck stuck_outcome ((a≢b, tt), (tt, tt)) (a≢nil, (b≢nil, tt)) stuck_ends

-- The other hand and the boneyard changed behind `a`'s back.
abbrev swapped : GameSession
swapped =
    table (tile 2 5 "2-5" ∷ tile 0 1 "0-1" ∷ []) (tile 6 6 "6-6" ∷ tile 1 1 "1-1" ∷ [])
      (tile 3 3 "3-3" ∷ [])

view_for_player-Indistinct_example : view_for_player opening "a" ≡ view_for_player swapped "a"
view_for_player-Indistinct_example = view_for_player-Indistinct "a" opening swapped refl (record {
  hands = (
    record {
      player_id = refl;
      has_passed = refl;
      is_ready = refl;
      is_abandoned = refl;
      count = refl;
      own = inr refl;
    },
    (
      record {
        player_id = refl;
        has_passed = refl;
        is_ready = refl;
        is_abandoned = refl;
        count = refl;
        own = inl (λ e. a≢b (sym e));
      },
      tt,
    ),
  );
  boneyard = refl;
  uid = refl;
  session_id = refl;
  status = refl;
  players = refl;
  game_board = refl;
  left_open_value = refl;
  right_open_value = refl;
  current_turn = refl;
  mutations_locked = refl;
})

abbrev fresh : GameSession
fresh = table [] [] (tile 0 0 "0-0" ∷ tile 0 1 "0-1" ∷ tile 0 2 "0-2" ∷ [])

abbrev six_six : DominoTile
six_six = tile 6 6 "2-5"

-- The values that the caller names lie on the board, not those of the tile with this id in the hand.
forged_tile_is_played : (play_tile opening "a" six_six true).0.game_board ≡ six_six ∷ []
unfolding play_tile find_hand remove_tile
forged_tile_is_played = refl
