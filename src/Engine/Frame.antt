-- ===== src/Engine/Frame.antt =====
-- A call that is about one session leaves the entries of the others alone.
use domino_jc_project.Prelude.{
  ◌≡◌, ◌≢◌, refl, ◌∙◌, sym, ap, String, str_eq, str_eq-ne, Bool, true, false, Option, none, some,
  find_key, find_key-put_key, arith, Bool-cases, Option-cases, inl, inr,
}
use domino_jc_project.Models.Session.{GameSession, Result, ok, err}
use domino_jc_project.Models.Evaluate.{MatchOutcome}
use domino_jc_project.Models.Turn.{TurnAction, TurnResult, process_game_turn}
use domino_jc_project.Engine.Manager.{
  Services, World, GameManager, Outcome, done, failed, register, add_session, hydrated,
  hydrate_recovered_session, look_again, lookup_session, get_session, write_session, persist_state,
  is_true,
}
use domino_jc_project.Engine.Lifecycle.{
  finalize_match, finalize_if_ended, finalize_saved, persist_if, publish_final, published,
  publish_turn_events, settle_turn, turned, turn_found, process_turn,
}

-- The entry of the session `j` is the same.
abbrev pub Frames : {F W B : Type 0} → String → World F W B → World F W B → Type 0
Frames j w w' = find_key j w'.manager.sessions ≡ find_key j w.manager.sessions

module _ {F W B : Type 0} where
  pub write_session-Frames :
      (id j : String) (s : GameSession) (w : World F W B)
      → id ≢ j
      → Frames j w (write_session id s w)
  unfolding write_session
  write_session-Frames id j s w ne =
      ground (arith, find_key-put_key id j s w.manager.sessions, str_eq-ne id j ne)

module _ {F : Type 0} where
  pub register-Frames :
      (id j : String) (s : GameSession) (m : GameManager F)
      → id ≢ j
      → find_key j (register id s m).sessions ≡ find_key j m.sessions
  unfolding register
  register-Frames id j s m ne =
      ground (arith, find_key-put_key id j s m.sessions, str_eq-ne id j ne)

module _ {F W B : Type 0} (x : Services F W B) where
  -- The repository answers a session under the id that it is asked for.
  abbrev pub IsKeyed : Type 0
  IsKeyed =
      (id : String) (store : W) (s : GameSession)
      → (x.get_session id store).0 ≡ some (some s)
      → s.session_id ≡ id

  pub manager-publish_turn_events :
      (s : GameSession) (r : TurnResult) (w : World F W B)
      → (publish_turn_events x s r w).manager ≡ w.manager
  unfolding publish_turn_events
  manager-publish_turn_events s r w = refl

  pub manager-persist_state :
      (s : GameSession) (w : World F W B) → (persist_state x s w).1.manager ≡ w.manager
  unfolding persist_state
  manager-persist_state s w = refl

  pub manager-persist_if :
      (b : Bool) (s : GameSession) (w : World F W B) → (persist_if x b s w).1.manager ≡ w.manager
  unfolding persist_if
  manager-persist_if true s w = manager-persist_state s w
  manager-persist_if false s w = refl

  finalize_match-Frames :
      (id j : String) (s : GameSession) (o : Option MatchOutcome) (w : World F W B)
      → id ≢ j
      → Frames j w (finalize_match x id s o w).1
  unfolding finalize_match
  finalize_match-Frames id j s none w ne = refl
  finalize_match-Frames id j s (some o) w ne = write_session-Frames id j _ w ne

  finalize_if_ended-Frames :
      (id j : String) (s : GameSession) (r : TurnResult) (w : World F W B)
      → id ≢ j
      → Frames j w (finalize_if_ended x id s r w).1
  unfolding finalize_if_ended
  finalize_if_ended-Frames id j s r w ne = elim (Bool-cases r.match_ended) [
    | inl e ↦ rw (e, finalize_if_ended) (finalize_match-Frames id j s r.outcome w ne)
    | inr e ↦ rw (e, finalize_if_ended)
  ]

  publish_final-Frames :
      (j : String) (s : GameSession) (r : TurnResult) (p : Outcome (Unit {0}) × World F W B)
      → Frames j p.1 (publish_final x s r p).1
  unfolding publish_final
  publish_final-Frames j s r (failed e, w) = refl
  publish_final-Frames j s r (done _, w) =
      ap (λ m. find_key j (GameManager.sessions m))
        (manager-publish_turn_events (published x s r) r w)

  finalize_saved-Frames :
      (id j : String) (s : GameSession) (r : TurnResult) (p : Outcome (Unit {0}) × World F W B)
      → id ≢ j
      → Frames j p.1 (finalize_saved x id s r p).1
  unfolding finalize_saved
  finalize_saved-Frames id j s r (failed e, w) ne = refl
  finalize_saved-Frames id j s r (done _, w) ne =
      publish_final-Frames j s r (finalize_if_ended x id s r w)
      ∙ finalize_if_ended-Frames id j s r w ne

  turned-Frames :
      (id j : String) (p : GameSession × Result TurnResult) (w : World F W B)
      → id ≢ j
      → Frames j w (turned x id p w).1
  unfolding turned settle_turn
  turned-Frames id j (s, err e) w ne = write_session-Frames id j s w ne
  turned-Frames id j (s, ok r) w ne =
      let w' = write_session id s w in
      finalize_saved-Frames id j s r (persist_if x _ s w') ne
      ∙ ap (λ m. find_key j (GameManager.sessions m)) (manager-persist_if _ s w')
      ∙ write_session-Frames id j s w ne

  add_session-Frames :
      (j : String) (s : GameSession) (m : GameManager F)
      → s.session_id ≢ j
      → find_key j (add_session (some s) m).1.sessions ≡ find_key j m.sessions
  unfolding add_session
  add_session-Frames j s m ne = elim (Bool-cases (str_eq s.session_id "")) [
    | inl e ↦ rw (e, add_session)
    | inr e ↦ rw (e, add_session) (register-Frames s.session_id j s m ne)
  ]

  hydrated-Frames :
      (id j : String) (a : Option (Option GameSession)) (w : World F W B)
      → ((s : GameSession) → a ≡ some (some s) → s.session_id ≡ id)
      → id ≢ j
      → Frames j w (hydrated x a w).1
  unfolding hydrated
  hydrated-Frames id j none w keyed ne = refl
  hydrated-Frames id j (some none) w keyed ne = refl
  hydrated-Frames id j (some (some s)) w keyed ne =
      add_session-Frames j s w.manager (λ e. ne (sym (keyed s refl) ∙ e))

  hydrate_recovered_session-Frames :
      (id j : String) (w : World F W B)
      → IsKeyed
      → id ≢ j
      → Frames j w (hydrate_recovered_session x id w).1
  unfolding hydrate_recovered_session
  hydrate_recovered_session-Frames id j w keyed ne =
      elim (Option-cases (find_key id w.manager.sessions)) [
        | inr (s, e) ↦ rw (e, hydrate_recovered_session)
        | inl e ↦ elim (Bool-cases (is_true (find_key id w.manager.recovered_ids))) [
          | inl f ↦
              rw (e, f, hydrate_recovered_session)
                (hydrated-Frames id j (x.get_session id w.store).0 _ (keyed id w.store) ne)
          | inr f ↦ rw (e, f, hydrate_recovered_session)
        ]
      ]

  look_again-Frames :
      (id j : String) (p : Outcome GameSession × World F W B) → Frames j p.1 (look_again x id p).1
  unfolding look_again
  look_again-Frames id j (failed e, w) = refl
  look_again-Frames id j (done _, w) = elim (Option-cases (find_key id w.manager.sessions)) [
    | inl e ↦ rw (e, look_again)
    | inr (s, e) ↦ rw (e, look_again)
  ]

  pub lookup_session-Frames :
      (id j : String) (w : World F W B) → IsKeyed → id ≢ j → Frames j w (lookup_session x id w).1
  unfolding lookup_session
  lookup_session-Frames id j w keyed ne = elim (Option-cases (find_key id w.manager.sessions)) [
    | inr (s, e) ↦ rw (e, lookup_session)
    | inl e ↦ elim (Bool-cases (is_true (find_key id w.manager.recovered_ids))) [
      | inl f ↦
          rw (e, f, lookup_session)
            (look_again-Frames id j (hydrate_recovered_session x id w)
              ∙ hydrate_recovered_session-Frames id j w keyed ne)
      | inr f ↦ rw (e, f, lookup_session)
    ]
  ]

  pub get_session-Frames :
      (id j : String) (w : World F W B) → IsKeyed → id ≢ j → Frames j w (get_session x id w).1
  unfolding get_session
  get_session-Frames id j w keyed ne = elim (Option-cases (find_key id w.manager.sessions)) [
    | inr (s, e) ↦ rw (e, get_session)
    | inl e ↦ elim (Bool-cases (is_true (find_key id w.manager.recovered_ids))) [
      | inl f ↦ rw (e, f, get_session) (hydrate_recovered_session-Frames id j w keyed ne)
      | inr f ↦ rw (e, f, get_session)
    ]
  ]

  turn_found-Frames :
      (id j : String) (a : TurnAction) (p : Outcome GameSession × World F W B)
      → id ≢ j
      → Frames j p.1 (turn_found x id a p).1
  unfolding turn_found
  turn_found-Frames id j a (failed e, w) ne = refl
  turn_found-Frames id j a (done s, w) ne = turned-Frames id j (process_game_turn s a) w ne

  pub process_turn-Frames :
      (id j : String) (a : TurnAction) (w : World F W B)
      → IsKeyed
      → id ≢ j
      → Frames j w (process_turn x id a w).1
  unfolding process_turn
  process_turn-Frames id j a w keyed ne =
      turn_found-Frames id j a (lookup_session x id w) ne ∙ lookup_session-Frames id j w keyed ne
