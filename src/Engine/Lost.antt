-- ===== src/Engine/Lost.antt =====
-- A save that fails at the end of a match.
use domino_jc_project.Prelude.{
  ◌≡◌, refl, ◌∙◌, sym, ap, String, true, false, Option, none, some, List, find_key, Bool-cases, inl,
  inr,
}
use domino_jc_project.Models.Session.{GameSession, Result, ok}
use domino_jc_project.Models.Evaluate.{MatchOutcome}
use domino_jc_project.Models.Turn.{TurnAction, TurnResult, process_game_turn}
use domino_jc_project.Models.Ending.{Reports, process_game_turn-Reports, is_some, run_turns-locked}
use domino_jc_project.Engine.Manager.{
  Services, World, Outcome, done, failed, EngineError, save_failed, completion_not_saved,
  write_session, persist_state,
}
use domino_jc_project.Engine.Lifecycle.{
  process_turn, turn_found, turned, settle_turn, persist_if, finalize_saved, finalize_if_ended,
  finalize_match, publish_final, should_persist_session, evaluate_and_maybe_finalize,
  evaluate_found,
}
use domino_jc_project.Engine.Settle.{lookup_session-loaded, lock_session-locked}
use domino_jc_project.Engine.LogTurns.{Holds, process_turn-Holds}
use domino_jc_project.Engine.Ended.{process_turns, process_turns-locked, process_turns-Holds}

module _ {F W B : Type 0} (x : Services F W B) where
  -- A call fails and publishes nothing.
  record IsSilent {A : Type 0} (w : World F W B) (r : Outcome A × World F W B) : Type 0 where
    pub error : EngineError
    pub fails : r.0 ≡ failed error
    pub bus : r.1.bus ≡ w.bus

  persist_state-IsSilent :
      (s : GameSession) (w : World F W B)
      → (x.save_session s w.store).0 ≡ false
      → IsSilent w (persist_state x s w)
  unfolding persist_state
  persist_state-IsSilent s w e = record {
    error = save_failed;
    fails = rw (e, persist_state) refl;
    bus = refl;
  }

  finalize_match-IsSilent :
      (id : String) (s : GameSession) (o : MatchOutcome) (w : World F W B)
      → s.mutations_locked ≡ true
      → (x.save_session s w.store).0 ≡ false
      → IsSilent w (finalize_match x id s (some o) w)
  unfolding finalize_match write_session
  finalize_match-IsSilent id s o w l e = record {
    error = completion_not_saved id;
    fails = rw (lock_session-locked s l, e, finalize_match) refl;
    bus = refl;
  }

  finalize_if_ended-IsSilent :
      (id : String) (s : GameSession) (r : TurnResult) (w : World F W B) (o : Option MatchOutcome)
      → r.outcome ≡ o
      → r.match_ended ≡ true
      → is_some o ≡ true
      → s.mutations_locked ≡ true
      → (x.save_session s w.store).0 ≡ false
      → IsSilent w (finalize_if_ended x id s r w)
  unfolding finalize_if_ended
  finalize_if_ended-IsSilent id s r w none q f g l e = absurd (cc g)
  finalize_if_ended-IsSilent id s r w (some o) q f g l e =
      rw (f, q, finalize_if_ended) (finalize_match-IsSilent id s o w l e)

  publish_final-IsSilent :
      (s : GameSession) (r : TurnResult) (w : World F W B) (p : Outcome (Unit {0}) × World F W B)
      → IsSilent w p
      → IsSilent w (publish_final x s r p)
  unfolding publish_final
  publish_final-IsSilent s r w (failed e, w') h = record { error = e; fails = refl; bus = h.bus }
  publish_final-IsSilent s r w (done _, w') h = absurd (cc h.fails)

  finalize_saved-IsSilent :
      (id : String) (s : GameSession) (r : TurnResult) (w : World F W B)
      (p : Outcome (Unit {0}) × World F W B)
      → IsSilent w p
      → IsSilent w (finalize_saved x id s r p)
  unfolding finalize_saved
  finalize_saved-IsSilent id s r w (failed e, w') h = record {
    error = e;
    fails = refl;
    bus = h.bus;
  }
  finalize_saved-IsSilent id s r w (done _, w') h = absurd (cc h.fails)

  settle_turn-IsSilent :
      (id : String) (s : GameSession) (r : TurnResult) (w : World F W B)
      → Reports s r
      → r.match_ended ≡ true
      → (x.save_session s w.store).0 ≡ false
      → IsSilent w (settle_turn x id s r w)
  unfolding settle_turn finalize_saved persist_if
  settle_turn-IsSilent id s r w reports f e = elim (Bool-cases (should_persist_session s r)) [
    | inl needed ↦
        rw (needed, settle_turn, persist_if)
          (finalize_saved-IsSilent id s r w (persist_state x s w) (persist_state-IsSilent s w e))
    | inr idle ↦
        let over = sym reports.flagged ∙ f in
        rw (idle, settle_turn, persist_if, finalize_saved)
          (publish_final-IsSilent s r w (finalize_if_ended x id s r w)
            (finalize_if_ended-IsSilent id s r w r.outcome refl f over (reports.locked ∙ over) e))
  ]

  turned-IsSilent :
      (id : String) (s : GameSession) (r : TurnResult) (w : World F W B) (p : Result TurnResult)
      → p ≡ ok r
      → Reports s r
      → r.match_ended ≡ true
      → (x.save_session s w.store).0 ≡ false
      → IsSilent w (turned x id (s, p) w)
  unfolding turned write_session
  turned-IsSilent id s r w p q reports f e =
      let h = settle_turn-IsSilent id s r (write_session id s w) reports f e in
      rw q (record { error = h.error; fails = h.fails; bus = h.bus })

  evaluate-locked :
      (id : String) (s : GameSession) (w : World F W B)
      → Holds x id s w
      → s.mutations_locked ≡ true
      → evaluate_and_maybe_finalize x id w ≡ (done tt, w)
  unfolding evaluate_and_maybe_finalize evaluate_found
  evaluate-locked id s w h l = rw (lookup_session-loaded x id s w h, l)

  -- If the session cannot be saved after the turn that ends its match, then the turn fails and
  -- nothing is published for it, although the match is over in memory; and whatever turns follow, and
  -- an evaluation of the match after them, nothing more is published: its end is never announced.
  pub process_turn_silenced :
      (id : String) (s : GameSession) (a : TurnAction) (r : TurnResult) (w : World F W B)
      (later : List TurnAction)
      → find_key id w.manager.sessions ≡ some s
      → (process_game_turn s a).1 ≡ ok r
      → r.match_ended ≡ true
      → (x.save_session (process_game_turn s a).0 w.store).0 ≡ false
      → let w' = process_turns x id later (process_turn x id a w).1 in
        ((e : EngineError) × ((process_turn x id a w).0 ≡ failed e))
        × (w'.bus ≡ w.bus)
        × ((evaluate_and_maybe_finalize x id w').1.bus ≡ w.bus)
  unfolding process_turn turn_found turned write_session
  process_turn_silenced id s a r w later h p f e =
      let s' = (process_game_turn s a).0 in
      let reports = process_game_turn-Reports s a r p in
      let locked = reports.locked ∙ sym reports.flagged ∙ f in
      let silent : IsSilent w (process_turn x id a w) =
        rw (lookup_session-loaded x id s w h) (turned-IsSilent id s' r w _ p reports f e) in
      let next = process_turn-Holds x id s a w h in
      let quiet =
        process_turns-locked x id s' later (process_turn x id a w).1 next locked ∙ silent.bus in
      let still =
        process_turns-Holds x id s' later (process_turn x id a w).1 next
        ∙ ap some (run_turns-locked s' later locked) in
      (
        (silent.error, silent.fails),
        quiet,
        ap (λ t. t.1.bus)
              (evaluate-locked id s' (process_turns x id later (process_turn x id a w).1) still
                locked)
            ∙ quiet,
      )
