-- ===== src/Engine/Valid/Calls.antt =====
-- Every call of the manager keeps the registry valid.
use domino_jc_project.Prelude.{
  refl, ◌∙◌, sym, subst, String, Bool, true, false, Option, none, some, Bool-cases, inl, inr,
  if◌then◌else◌,
}
use domino_jc_project.Models.Session.{GameSession, Result, ok, err}
use domino_jc_project.Models.Evaluate.{MatchOutcome, evaluate_match}
use domino_jc_project.Models.Turn.{TurnAction, TurnResult, process_game_turn}
use domino_jc_project.Models.Board.{HasPips, process_game_turn-IsBoard}
use domino_jc_project.Engine.Manager.{
  Services, World, GameManager, Outcome, done, failed, lookup_session, write_session,
}
use domino_jc_project.Engine.Lifecycle.{
  lock_session, finalize_match, finalize_if_ended, finalize_saved, persist_if, publish_final,
  should_persist_session, publish_turn_events, settle_turn, turned, turn_found, process_turn,
  publish_ended, end_if_evaluated, evaluate_found, evaluate_and_maybe_finalize,
}
use domino_jc_project.Engine.Frame.{manager-persist_if}
use domino_jc_project.Engine.Valid.Lookup.{
  IsValidWorld, GivesBoards, IsFound, lookup_session-IsFound, write_session-IsValid,
}
use domino_jc_project.Engine.Valid.{process_game_turn-session_id}
use domino_jc_project.Engine.Valid.Sessions.{
  IsSession, IsValid, Alike-IsSession, lock_session-Alike,
}

module _ {F W B : Type 0} (x : Services F W B) where
  finalize_match-IsValid :
      (id : String) (s : GameSession) (o : Option MatchOutcome) (w : World F W B)
      → IsValidWorld w
      → IsSession id s
      → IsValidWorld (finalize_match x id s o w).1
  unfolding finalize_match
  finalize_match-IsValid id s none w v good = v
  finalize_match-IsValid id s (some o) w v good =
      write_session-IsValid id (lock_session s) w v
        (Alike-IsSession id s (lock_session s) (lock_session-Alike s) good)

  finalize_if_ended-IsValid :
      (id : String) (s : GameSession) (r : TurnResult) (w : World F W B)
      → IsValidWorld w
      → IsSession id s
      → IsValidWorld (finalize_if_ended x id s r w).1
  unfolding finalize_if_ended
  finalize_if_ended-IsValid id s r w v good = elim (Bool-cases r.match_ended) [
    | inl e ↦ rw (e, finalize_if_ended) (finalize_match-IsValid id s r.outcome w v good)
    | inr e ↦ rw (e, finalize_if_ended) v
  ]

  publish_final-IsValid :
      (s : GameSession) (r : TurnResult) (p : Outcome (Unit {0}) × World F W B)
      → IsValidWorld p.1
      → IsValidWorld (publish_final x s r p).1
  unfolding publish_final publish_turn_events
  publish_final-IsValid s r (failed e, w) v = v
  publish_final-IsValid s r (done _, w) v = v

  finalize_saved-IsValid :
      (id : String) (s : GameSession) (r : TurnResult) (p : Outcome (Unit {0}) × World F W B)
      → IsValidWorld p.1
      → IsSession id s
      → IsValidWorld (finalize_saved x id s r p).1
  unfolding finalize_saved
  finalize_saved-IsValid id s r (failed e, w) v good = v
  finalize_saved-IsValid id s r (done _, w) v good =
      publish_final-IsValid s r (finalize_if_ended x id s r w)
        (finalize_if_ended-IsValid id s r w v good)

  turned-IsValid :
      (id : String) (p : GameSession × Result TurnResult) (w : World F W B)
      → IsValidWorld w
      → IsSession id p.0
      → IsValidWorld (turned x id p w).1
  unfolding turned settle_turn
  turned-IsValid id (s, err e) w v good = write_session-IsValid id s w v good
  turned-IsValid id (s, ok r) w v good =
      let w' = write_session id s w in
      let saved = persist_if x (should_persist_session s r) s w' in
      finalize_saved-IsValid id s r saved
        (subst (λ m. IsValid (GameManager.sessions m))
          (sym (manager-persist_if x (should_persist_session s r) s w'))
          (write_session-IsValid id s w v good))
        good

  pub process_turn-IsValid :
      (id : String) (a : TurnAction) (w : World F W B)
      → GivesBoards x
      → HasPips a.tile
      → IsValidWorld w
      → IsValidWorld (process_turn x id a w).1
  unfolding process_turn
  process_turn-IsValid id a w boards pips v =
      go (lookup_session x id w) (lookup_session-IsFound x id w boards v)
    where
      go :
          (r : Outcome GameSession × World F W B)
          → IsFound x id r
          → IsValidWorld (turn_found x id a r).1
      go (failed e, w') f = f.valid
      go (done s, w') f =
          let good = f.good s refl in
          turned-IsValid id (process_game_turn s a) w' f.valid (record {
            named = good.named;
            own = process_game_turn-session_id s a ∙ good.own;
            board = process_game_turn-IsBoard s a good.board pips;
          })

  end_if_evaluated-IsValid :
      (id : String) (s : GameSession) (o : Option MatchOutcome) (w : World F W B)
      → IsValidWorld w
      → IsSession id s
      → IsValidWorld (end_if_evaluated x id s o w).1
  unfolding end_if_evaluated
  end_if_evaluated-IsValid id s none w v good = v
  end_if_evaluated-IsValid id s (some o) w v good =
      announced (finalize_match x id s (some o) w) (finalize_match-IsValid id s (some o) w v good)
    where
      announced :
          (p : Outcome (Unit {0}) × World F W B)
          → IsValidWorld p.1
          → IsValidWorld (publish_ended x s o p).1
      announced (failed e, w') v' = v'
      announced (done _, w') v' = v'

  pub evaluate-IsValid :
      (id : String) (w : World F W B)
      → GivesBoards x
      → IsValidWorld w
      → IsValidWorld (evaluate_and_maybe_finalize x id w).1
  unfolding evaluate_and_maybe_finalize evaluate_found
  evaluate-IsValid id w boards v =
      go (lookup_session x id w) (lookup_session-IsFound x id w boards v)
    where
      open_match :
          (locked : Bool) (s : GameSession) (w' : World F W B)
          → IsValidWorld w'
          → IsSession id s
          → IsValidWorld
              (if locked then (done tt, w') else end_if_evaluated x id s (evaluate_match s) w').1
      open_match true s w' v' good = v'
      open_match false s w' v' good = end_if_evaluated-IsValid id s (evaluate_match s) w' v' good

      go :
          (r : Outcome GameSession × World F W B)
          → IsFound x id r
          → IsValidWorld (evaluate_found x id r).1
      go (failed e, w') f = f.valid
      go (done s, w') f = open_match s.mutations_locked s w' f.valid (f.good s refl)
