-- ===== src/Engine/Lifecycle.antt =====
-- pkg/engine/lifecycle.go, abandonment.go and moves.go: one turn with what is stored and published for it,
-- and players who leave.
use domino_jc_project.Prelude.{
  String, str_eq, pos, Bool, true, false, not, Option, none, some, if◌then◌else◌,
}
use domino_jc_project.Models.Tile.{DominoTile, PlayerHand, find_hand, modify_hand}
use domino_jc_project.Models.Session.{
  Status, other, GameSession, Result, ok, err, lock_for_completion,
}
use domino_jc_project.Models.Evaluate.{MatchOutcome, evaluate_match}
use domino_jc_project.Models.Play.{pass_turn, rotate_turn}
use domino_jc_project.Models.Turn.{
  play, draw, pass, TurnAction, TurnResult, no_result, process_game_turn,
}
use domino_jc_project.Engine.Loop.{tick}
use domino_jc_project.Engine.Manager.{
  Services, World, Outcome, done, failed, no_outcome, completion_not_saved, turn_failed,
  player_not_found, lookup_session, write_session, persist_state, with_session_write,
}

abbrev pub is_known : Status → Bool
is_known (other _) = false
is_known _ = true

unfoldable pub should_persist_session : GameSession → TurnResult → Bool
should_persist_session s r = if not r.needs_persist then false else is_known s.status

unfoldable pub lock_session : GameSession → GameSession
unfolding lock_for_completion
lock_session s = if s.mutations_locked then s else lock_for_completion s

module _ {F W B : Type 0} (x : Services F W B) where
  unfoldable pub finalize_match :
      String → GameSession → Option MatchOutcome → World F W B → Outcome (Unit {0}) × World F W B
  unfolding lock_session write_session persist_state
  finalize_match id s none w = (failed (no_outcome id), w)
  finalize_match id s (some o) w =
      let s' = lock_session s in
      let (r, w') = persist_state x s' (write_session id s' w) in
      (elim r [ done _ ↦ done tt | failed _ ↦ failed (completion_not_saved id) ], w')

  -- The session as it stands after the turn. An error of the engine is only logged.
  unfoldable pub publish_turn_events : GameSession → TurnResult → World F W B → World F W B
  unfolding tick
  publish_turn_events s r w = record w {
    bus = elim w.manager.game_engine [
      | none ↦ w.bus
      | some e ↦ (tick x.broker e (record { session = some s; result = some r }) w.bus).1
    ];
  }

  unfoldable pub persist_if : Bool → GameSession → World F W B → Outcome (Unit {0}) × World F W B
  unfolding persist_state
  persist_if needed s w = if needed then persist_state x s w else (done tt, w)

  unfoldable pub finalize_if_ended :
      String → GameSession → TurnResult → World F W B → Outcome (Unit {0}) × World F W B
  unfolding finalize_match
  finalize_if_ended id s r w =
      if r.match_ended then finalize_match id s r.outcome w else (done tt, w)

  -- The session as it is published; completing the match locks it if it is open.
  unfoldable pub published : GameSession → TurnResult → GameSession
  unfolding lock_session
  published s r = if r.match_ended then lock_session s else s

  unfoldable pub publish_final :
      GameSession → TurnResult → Outcome (Unit {0}) × World F W B → Outcome TurnResult × World F W B
  unfolding publish_turn_events published
  publish_final s r (failed e, w) = (failed e, w)
  publish_final s r (done _, w) = (done r, publish_turn_events (published s r) r w)

  unfoldable pub finalize_saved :
      String
      → GameSession
      → TurnResult
      → Outcome (Unit {0}) × World F W B
      → Outcome TurnResult × World F W B
  unfolding publish_final finalize_if_ended
  finalize_saved id s r (failed e, w) = (failed e, w)
  finalize_saved id s r (done _, w) = publish_final s r (finalize_if_ended id s r w)

  -- What follows a turn without an error. The code also returns the result with the error of a completion,
  -- and no caller reads it.
  unfoldable pub settle_turn :
      String → GameSession → TurnResult → World F W B → Outcome TurnResult × World F W B
  unfolding should_persist_session persist_if finalize_saved
  settle_turn id s r w = finalize_saved id s r (persist_if (should_persist_session s r) s w)

  unfoldable pub turned :
      String → GameSession × Result TurnResult → World F W B → Outcome TurnResult × World F W B
  unfolding write_session settle_turn
  turned id (s, err e) w = (failed (turn_failed e), write_session id s w)
  turned id (s, ok r) w = settle_turn id s r (write_session id s w)

  unfoldable pub turn_found :
      String → TurnAction → Outcome GameSession × World F W B → Outcome TurnResult × World F W B
  unfolding turned process_game_turn
  turn_found id action (failed e, w) = (failed e, w)
  turn_found id action (done s, w) = turned id (process_game_turn s action) w

  -- `processGameTurn`. The session keeps what the turn did to it, whatever fails after that.
  unfoldable pub process_turn : String → TurnAction → World F W B → Outcome TurnResult × World F W B
  unfolding lookup_session turn_found
  process_turn id action w = turn_found id action (lookup_session x id w)

  abbrev pub ended_with : MatchOutcome → TurnResult
  ended_with o = record no_result { match_ended = true; outcome = some o }

  unfoldable pub publish_ended :
      GameSession
      → MatchOutcome
      → Outcome (Unit {0}) × World F W B
      → Outcome (Unit {0}) × World F W B
  unfolding publish_turn_events lock_session
  publish_ended s o (failed e, w) = (failed e, w)
  publish_ended s o (done _, w) = (done tt, publish_turn_events (lock_session s) (ended_with o) w)

  unfoldable pub end_if_evaluated :
      String → GameSession → Option MatchOutcome → World F W B → Outcome (Unit {0}) × World F W B
  unfolding publish_ended finalize_match
  end_if_evaluated id s none w = (done tt, w)
  end_if_evaluated id s (some o) w = publish_ended s o (finalize_match id s (some o) w)

  unfoldable pub evaluate_found :
      String → Outcome GameSession × World F W B → Outcome (Unit {0}) × World F W B
  unfolding end_if_evaluated evaluate_match
  evaluate_found id (failed e, w) = (failed e, w)
  evaluate_found id (done s, w) =
      if s.mutations_locked then (done tt, w) else end_if_evaluated id s (evaluate_match s) w

  unfoldable pub evaluate_and_maybe_finalize :
      String → World F W B → Outcome (Unit {0}) × World F W B
  unfolding lookup_session evaluate_found
  evaluate_and_maybe_finalize id w = evaluate_found id (lookup_session x id w)

abbrev pub mark_abandoned : PlayerHand → PlayerHand
mark_abandoned h = record h { is_abandoned = true }

-- `PassTurn`, or `RotateTurn` where that fails.
abbrev pub pass_or_rotate : GameSession × Result (Unit {0}) → GameSession
unfolding rotate_turn
pass_or_rotate (s, ok _) = s
pass_or_rotate (s, err _) = rotate_turn s

-- The turn of a player who leaves goes to the next one.
unfoldable pub skip_turn : String → GameSession → GameSession
unfolding pass_turn pass_or_rotate
skip_turn player s = if str_eq s.current_turn player then pass_or_rotate (pass_turn s player) else s

-- The function that `HandlePlayerAbandoned` passes to `withSessionWrite`.
unfoldable pub abandon_player : String → String → GameSession → Outcome (Unit {0}) × GameSession
unfolding find_hand modify_hand skip_turn
abandon_player id player s = elim (find_hand player s.hands) [
  | none ↦ (failed (player_not_found player id), s)
  | some _ ↦
      (done tt, skip_turn player (record s { hands = modify_hand player mark_abandoned s.hands }))
]

-- The tile of an action that names none.
abbrev pub no_tile : DominoTile
no_tile = record { uid = ""; id = ""; value_left = pos 0; value_right = pos 0 }

module _ {F W B : Type 0} (x : Services F W B) where
  unfoldable pub evaluate_after :
      String → Outcome (Unit {0}) × World F W B → Outcome (Unit {0}) × World F W B
  unfolding evaluate_and_maybe_finalize
  evaluate_after id (failed e, w) = (failed e, w)
  evaluate_after id (done _, w) = evaluate_and_maybe_finalize x id w

  unfoldable pub handle_player_abandoned :
      String → String → World F W B → Outcome (Unit {0}) × World F W B
  unfolding with_session_write abandon_player evaluate_after
  handle_player_abandoned id player w =
      evaluate_after id (with_session_write x id (abandon_player id player) w)

  unfoldable pub apply_play_tile :
      String → String → DominoTile → Bool → World F W B → Outcome Bool × World F W B
  unfolding process_turn
  apply_play_tile id player tile left w =
      let (r, w') =
        process_turn x id
          (record { kind = play; player_id = player; tile = tile; play_at_left = left }) w in
      (elim r [ done t ↦ done t.applied | failed e ↦ failed e ], w')

  unfoldable pub apply_draw_from_boneyard :
      String → String → World F W B → Outcome (Option DominoTile) × World F W B
  unfolding process_turn
  apply_draw_from_boneyard id player w =
      let (r, w') =
        process_turn x id
          (record { kind = draw; player_id = player; tile = no_tile; play_at_left = false }) w in
      (elim r [ done t ↦ done t.drawn_tile | failed e ↦ failed e ], w')

  unfoldable pub apply_pass_turn : String → String → World F W B → Outcome (Unit {0}) × World F W B
  unfolding process_turn
  apply_pass_turn id player w =
      let (r, w') =
        process_turn x id
          (record { kind = pass; player_id = player; tile = no_tile; play_at_left = false }) w in
      (elim r [ done t ↦ done tt | failed e ↦ failed e ], w')
