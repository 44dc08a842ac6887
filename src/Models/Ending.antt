-- ===== src/Models/Ending.antt =====
-- How a match ends, and that nothing happens after it.
use domino_jc_project.Prelude.{
  ◌≡◌, refl, sym, ◌∙◌, Bool, true, false, Option, none, some, List, [], ◌∷◌, arith, if◌then◌else◌,
  All, Bool-cases, inl, inr,
}
use domino_jc_project.Models.Tile.{DominoTile, modify_hand}
use domino_jc_project.Models.Session.{
  GameSession, ok, err, lock_for_completion, mutations_are_locked,
}
use domino_jc_project.Models.Evaluate.{MatchOutcome, evaluate_match}
use domino_jc_project.Models.Play.{place, rotate_turn, keep_tiles}
use domino_jc_project.Models.Board.{IsBoard, HasPips, process_game_turn-IsBoard}
use domino_jc_project.Models.Turn.{
  TurnKind, play, draw, pass, unknown, TurnAction, TurnResult, settle, is_play, activate,
  applied_result, process_game_turn,
}
use domino_jc_project.Models.Turn.Cases.{
  Moved, placed, drawn, passed, refused, lost, settled, process_game_turn-TurnCase, ended, goes_on,
  settle-SettleCase,
}

-- A session under a sequence of actions; one that fails leaves what it leaves.
unfoldable pub run_turns : GameSession → List TurnAction → GameSession
run_turns s [] = s
run_turns s (a ∷ more) = run_turns (process_game_turn s a).0 more

abbrev pub is_some {ℓ} : {A : Type ℓ} → Option A → Bool
is_some none = false
is_some (some _) = true

ok→open :
    (s : GameSession) (a : TurnAction) (r : TurnResult)
    → (process_game_turn s a).1 ≡ ok r
    → s.mutations_locked ≡ false
unfolding process_game_turn
ok→open s a r h = elim (Bool-cases s.mutations_locked) [
  | inl e ↦ absurd (cc (rw (e, process_game_turn) at h))
  | inr e ↦ e
]

place-mutations_locked :
    (s : GameSession) (t : DominoTile) (left : Bool)
    → (place s t left).mutations_locked ≡ s.mutations_locked
unfolding place
place-mutations_locked s t left = ground arith

Moved-mutations_locked :
    (s : GameSession) (a : TurnAction) {k : TurnKind} {d : Option DominoTile} {t : GameSession}
    → Moved s a k d t
    → t.mutations_locked ≡ s.mutations_locked
unfolding rotate_turn
Moved-mutations_locked s a (placed h rest turn c f m) =
    place-mutations_locked (record s { hands = modify_hand a.player_id (keep_tiles rest) s.hands })
      a.tile a.play_at_left
Moved-mutations_locked s a (drawn top rest h turn e f) = refl
Moved-mutations_locked s a (passed h turn f) = refl

-- The result `r` tells what the session `t` is: over, with that outcome, or open.
pub record Reports (t : GameSession) (r : TurnResult) : Type 0 where
  pub applied : r.applied ≡ true
  pub needs_persist : r.needs_persist ≡ true
  pub evaluated : evaluate_match t ≡ r.outcome
  pub flagged : r.match_ended ≡ is_some r.outcome
  pub locked : t.mutations_locked ≡ is_some r.outcome

evaluate_match-rotate_turn : (s : GameSession) → evaluate_match (rotate_turn s) ≡ evaluate_match s
unfolding evaluate_match rotate_turn
evaluate_match-rotate_turn s = refl

evaluate_match-lock : (s : GameSession) → evaluate_match (lock_for_completion s) ≡ evaluate_match s
unfolding evaluate_match lock_for_completion
evaluate_match-lock s = refl

settle-Reports :
    (k : TurnKind) (d : Option DominoTile) (s : GameSession) (r : TurnResult)
    → s.mutations_locked ≡ false
    → (settle k d s).1 ≡ ok r
    → Reports (settle k d s).0 r
unfolding rotate_turn lock_for_completion
settle-Reports k d s r o h = elim (settle-SettleCase k d s) [
  | ended w e q ↦ rw q (over w e (rw q at h))
  | goes_on e q ↦ rw q (still e (rw q at h))
]
  where
    over :
        (w : MatchOutcome)
        → evaluate_match (activate s) ≡ some w
        → ok (record (applied_result d) { match_ended = true; outcome = some w }) ≡ ok r
        → Reports (lock_for_completion (activate s)) r
    over w e p = record {
      applied = ground arith;
      needs_persist = ground arith;
      evaluated = ground (arith, evaluate_match-lock (activate s));
      flagged = ground arith;
      locked = ground arith;
    }

    next_evaluated :
        (k : TurnKind)
        → evaluate_match (if is_play k then rotate_turn (activate s) else activate s)
          ≡ evaluate_match (activate s)
    next_evaluated play = evaluate_match-rotate_turn (activate s)
    next_evaluated draw = refl
    next_evaluated pass = refl
    next_evaluated (unknown n) = refl

    next_locked :
        (k : TurnKind)
        → (if is_play k then rotate_turn (activate s) else activate s).mutations_locked
          ≡ s.mutations_locked
    next_locked play = refl
    next_locked draw = refl
    next_locked pass = refl
    next_locked (unknown n) = refl

    still :
        evaluate_match (activate s) ≡ none
        → ok (applied_result d) ≡ ok r
        → Reports (if is_play k then rotate_turn (activate s) else activate s) r
    still e p = record {
      applied = ground arith;
      needs_persist = ground arith;
      evaluated = ground (arith, next_evaluated k);
      flagged = ground arith;
      locked = ground (arith, next_locked k);
    }

-- A successful action reports the session that it leaves: the outcome it returns is the evaluation of
-- that session, and the match is flagged as ended and the session locked exactly if there is one.
pub process_game_turn-Reports :
    (s : GameSession) (a : TurnAction) (r : TurnResult)
    → (process_game_turn s a).1 ≡ ok r
    → Reports (process_game_turn s a).0 r
process_game_turn-Reports s a r h = elim (process_game_turn-TurnCase s a) [
  | refused e q ↦ absurd (cc (rw q at h))
  | lost top rest b f q ↦ absurd (cc (rw q at h))
  | settled k d t m q ↦
      rw q (settle-Reports k d t r (Moved-mutations_locked s a m ∙ ok→open s a r h) (rw q at h))
]

pub locked_step :
    (s : GameSession) (a : TurnAction)
    → s.mutations_locked ≡ true
    → process_game_turn s a ≡ (s, err mutations_are_locked)
unfolding process_game_turn
locked_step s a e = rw (e, process_game_turn)

pub run_turns-locked :
    (s : GameSession) (actions : List TurnAction)
    → s.mutations_locked ≡ true
    → run_turns s actions ≡ s
unfolding run_turns
run_turns-locked s [] e = refl
run_turns-locked s (a ∷ more) e = rw (locked_step s a e) (run_turns-locked s more e)

-- Once an action has ended the match, no further actions change anything of the session.
pub ended_is_final :
    (s : GameSession) (a : TurnAction) (r : TurnResult) (later : List TurnAction)
    → (process_game_turn s a).1 ≡ ok r
    → r.match_ended ≡ true
    → run_turns (process_game_turn s a).0 later ≡ (process_game_turn s a).0
ended_is_final s a r later h e =
    let reports = process_game_turn-Reports s a r h in
    run_turns-locked (process_game_turn s a).0 later (reports.locked ∙ sym reports.flagged ∙ e)

-- However many actions are taken, valid or not, the board stays a chain whose open values are its ends,
-- if no action names a tile with a negative value.
pub run_turns-IsBoard :
    (s : GameSession) (actions : List TurnAction)
    → IsBoard s
    → All (λ a. HasPips a.tile) actions
    → IsBoard (run_turns s actions)
unfolding run_turns
run_turns-IsBoard s [] b h = b
run_turns-IsBoard s (a ∷ more) b h =
    run_turns-IsBoard (process_game_turn s a).0 more (process_game_turn-IsBoard s a b h.0) h.1
