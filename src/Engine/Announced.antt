-- ===== src/Engine/Announced.antt =====
-- When a match ends and nothing fails its end is announced once; when the save fails it never is.
use domino_jc_project.Prelude.{
  ℕ, ◌+◌, ◌≡◌, refl, ◌∙◌, sym, ap, String, str_eq, Bool, true, false, Option, none, some, find_key,
  arith, if◌then◌else◌, false≢true,
}
use domino_jc_project.Models.Session.{GameSession, ok}
use domino_jc_project.Models.Evaluate.{MatchOutcome}
use domino_jc_project.Models.Turn.{TurnAction, TurnResult, process_game_turn}
use domino_jc_project.Models.Ending.{process_game_turn-Reports, is_some}
use domino_jc_project.Engine.Loop.{
  Payload, Broker, GameEngine, Publishing, topic, publish, and_then, done, stop, not_configured,
  end_match, end_if_over, tick_session, tick, ending, win_notice, turn_notice, lobby_update,
}
use domino_jc_project.Engine.Manager.{Services, World, Outcome, write_session}
use domino_jc_project.Engine.Lifecycle.{process_turn, publish_turn_events}
use domino_jc_project.Engine.Settle.{unsettled, settled, refused, played, process_turn-ProcessCase}
use domino_jc_project.Engine.Ended.{is_ending, of_flag}

module _ {B : Type 0} (broker : Broker B) (count : B → ℕ) where
  -- The broker takes every event, and `count` counts those that a match has ended.
  abbrev pub Takes : Type 0
  Takes =
      (t : String) (p : Payload) (b : B)
      → ((broker.publish_event t p b).0 ≡ true)
        × (count (broker.publish_event t p b).1 ≡ is_ending p + count b)

  -- A call succeeds and adds `n` to the count.
  abbrev Gives : ℕ → Publishing B → Type 0
  Gives n f = (b : B) → ((f b).0 ≡ none) × (count (f b).1 ≡ n + count b)

  publish-Gives : Takes → (p : Payload) → Gives (is_ending p) (publish broker p)
  unfolding publish
  publish-Gives takes p b = let (fine, more) = takes (topic p) p b in (rw fine refl, more)

  and_then-Gives :
      (m n k : ℕ) (f g : Publishing B) → m + n ≡ k → Gives m f → Gives n g → Gives k (and_then f g)
  unfolding and_then
  and_then-Gives m n k f g total hf hg b =
      let (fine, more) = hf b in
      let (fine', more') = hg (f b).1 in rw (fine, and_then) (fine', omega (arith, more, more'))

  done-Gives : Gives 0 done
  unfolding done
  done-Gives b = (refl, omega arith)

  either-Gives :
      (c : Bool) (n : ℕ) (f g : Publishing B)
      → (c ≡ true → Gives n f)
      → (c ≡ false → Gives n g)
      → Gives n (if c then f else g)
  either-Gives true n f g hf hg = hf refl
  either-Gives false n f g hf hg = hg refl

  end_match-Gives :
      Takes
      → (e : GameEngine) (id : String) (o : MatchOutcome) (s : Option GameSession) → e.broker ≡ true
      → Gives 1 (end_match broker e id (some o) s)
  unfolding end_match ending win_notice
  end_match-Gives takes e id o s wired =
      let notice =
        if str_eq o.winner_id "" then done else publish broker (win_notice id o.winner_id) in
      either-Gives e.broker 1 (and_then (publish broker (ending id o s)) notice)
        (stop not_configured)
        (λ w.
          and_then-Gives 1 0 1 (publish broker (ending id o s)) notice (omega arith)
            (publish-Gives takes (ending id o s))
            (either-Gives (str_eq o.winner_id "") 0 done
              (publish broker (win_notice id o.winner_id)) (λ q. done-Gives)
              (λ q. publish-Gives takes (win_notice id o.winner_id))))
        (λ w. absurd (false≢true (sym w ∙ wired)))

  end_if_over-Gives :
      Takes
      → (e : GameEngine) (s : GameSession) (r : TurnResult) → e.broker ≡ true
      → (o : Option MatchOutcome) → r.outcome ≡ o
      → r.match_ended ≡ is_some o
      → Gives (of_flag r.match_ended) (end_if_over broker e s (some r))
  unfolding end_if_over
  end_if_over-Gives takes e s r wired none q f b = rw (f, end_if_over) (done-Gives b)
  end_if_over-Gives takes e s r wired (some o) q f b =
      rw (f, q, end_if_over) (end_match-Gives takes e s.session_id o (some s) wired b)

  tick-Gives :
      Takes
      → (e : GameEngine) (s : GameSession) (r : TurnResult) → e.broker ≡ true
      → r.match_ended ≡ is_some r.outcome
      → Gives (of_flag r.match_ended) (tick broker e (record { session = some s; result = some r }))
  unfolding tick tick_session lobby_update turn_notice
  tick-Gives takes e s r wired f =
      let n = of_flag r.match_ended in
      let notice = if str_eq s.current_turn "" then done else publish broker (turn_notice s) in
      let over = end_if_over broker e s (some r) in
      either-Gives e.broker n (tick_session broker e s (some r)) (stop not_configured)
        (λ w.
          and_then-Gives 0 n n (publish broker (lobby_update s)) (and_then notice over)
            (omega arith) (publish-Gives takes (lobby_update s))
            (and_then-Gives 0 n n notice over (omega arith)
              (either-Gives (str_eq s.current_turn "") 0 done (publish broker (turn_notice s))
                (λ q. done-Gives) (λ q. publish-Gives takes (turn_notice s)))
              (end_if_over-Gives takes e s r wired r.outcome refl f)))
        (λ w. absurd (false≢true (sym w ∙ wired)))

module _ {F W B : Type 0} (x : Services F W B) where
  publish_turn_events-count :
      (count : B → ℕ) (g : GameEngine) (s : GameSession) (r : TurnResult) (w : World F W B)
      → Takes x.broker count
      → w.manager.game_engine ≡ some g
      → g.broker ≡ true
      → r.match_ended ≡ is_some r.outcome
      → count (publish_turn_events x s r w).bus ≡ of_flag r.match_ended + count w.bus
  unfolding publish_turn_events
  publish_turn_events-count count g s r w takes engine wired f =
      rw (engine, publish_turn_events) (tick-Gives x.broker count takes g s r wired f w.bus).1

  -- If every save succeeds and the broker takes every event, then a turn that the rules accept succeeds for
  -- the manager with the same result, and it publishes one event that the match has ended if it ended
  -- the match and none if not.
  pub process_turn_announces :
      (count : B → ℕ) (g : GameEngine) (id : String) (s : GameSession) (a : TurnAction)
      (r : TurnResult) (w : World F W B)
      → ((t : GameSession) (store : W) → (x.save_session t store).0 ≡ true)
      → Takes x.broker count
      → w.manager.game_engine ≡ some g
      → g.broker ≡ true
      → find_key id w.manager.sessions ≡ some s
      → (process_game_turn s a).1 ≡ ok r
      → ((process_turn x id a w).0 ≡ Outcome.done r)
        × (count (process_turn x id a w).1.bus ≡ of_flag r.match_ended + count w.bus)
  unfolding write_session
  process_turn_announces count g id s a r w saves takes engine wired h played_well =
      elim (process_turn-ProcessCase x id s a w h) [
        | refused e p q ↦ absurd (cc (played_well, p))
        | played r' p q ↦
            let same : r' ≡ r = ground (arith, p, played_well) in
            elim q [
              | unsettled e w' bad k f ↦ absurd (false≢true (sym bad.2 ∙ saves bad.0 bad.1))
              | settled w' k f ↦
                  let reports = process_game_turn-Reports s a r' p in
                  let counted =
                    publish_turn_events-count count g (process_game_turn s a).0 r' w' takes
                      (k.game_engine ∙ engine) wired reports.flagged in
                  rw (f, ← same) (refl, counted ∙ ap (λ b. of_flag r'.match_ended + count b) k.bus)
            ]
      ]
