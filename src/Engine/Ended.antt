-- ===== src/Engine/Ended.antt =====
-- The event that a match has ended: what turns add to it.
use domino_jc_project.Prelude.{
  ℕ, ◌+◌, ◌≤◌, ◌≡◌, refl, ◌∙◌, sym, ap, String, str_eq, Bool, true, false, Option, some, List, [],
  ◌∷◌, arith, Bool-cases, Option-cases, inl, inr, if◌then◌else◌,
}
use domino_jc_project.Models.Session.{GameSession}
use domino_jc_project.Models.Evaluate.{MatchOutcome}
use domino_jc_project.Models.Turn.{TurnAction, TurnResult, process_game_turn}
use domino_jc_project.Models.Ending.{process_game_turn-Reports, locked_step, run_turns}
use domino_jc_project.Engine.Loop.{
  Payload, match_ended, Broker, GameEngine, Publishing, not_configured, topic, publish, and_then,
  done, stop, end_match, end_if_over, tick_session, tick, ending, win_notice, turn_notice,
  lobby_update,
}
use domino_jc_project.Engine.Manager.{Services, World, Outcome, write_session}
use domino_jc_project.Engine.Lifecycle.{process_turn, publish_turn_events}
use domino_jc_project.Engine.Settle.{
  SettleCase, unsettled, settled, refused, played, process_turn-ProcessCase,
}
use domino_jc_project.Engine.LogTurns.{Holds, process_turn-Holds}

abbrev pub is_ending : Payload → ℕ
is_ending (match_ended _) = 1
is_ending _ = 0

abbrev pub of_flag : Bool → ℕ
of_flag true = 1
of_flag false = 0

module _ {B : Type 0} (broker : Broker B) (count : B → ℕ) where
  -- `count` counts the match.ended events that the broker took; one that it refuses it need not count.
  abbrev pub Counts : Type 0
  Counts =
      (t : String) (p : Payload) (b : B)
      → count (broker.publish_event t p b).1 ≤ is_ending p + count b

  -- A call adds at most `n` to the count.
  abbrev Adds : ℕ → Publishing B → Type 0
  Adds n f = (b : B) → count (f b).1 ≤ n + count b

  publish-Adds : Counts → (p : Payload) → Adds (is_ending p) (publish broker p)
  unfolding publish
  publish-Adds counts p b = counts (topic p) p b

  and_then-Adds :
      (m n k : ℕ) (f g : Publishing B) → m + n ≤ k → Adds m f → Adds n g → Adds k (and_then f g)
  unfolding and_then
  and_then-Adds m n k f g fits hf hg b = elim (Option-cases (f b).0) [
    | inl e ↦ rw (e, and_then) (omega (arith, hf b, hg (f b).1))
    | inr (x, e) ↦ rw (e, and_then) (omega (arith, hf b))
  ]

  done-Adds : Adds 0 done
  unfolding done
  done-Adds b = omega arith

  unless-Adds : (c : Bool) (f : Publishing B) → Adds 0 f → Adds 0 (if c then done else f)
  unless-Adds true f h = done-Adds
  unless-Adds false f h = h

  either-Adds :
      (c : Bool) (n : ℕ) (f g : Publishing B) → Adds n f → Adds n g → Adds n (if c then f else g)
  either-Adds true n f g hf hg = hf
  either-Adds false n f g hf hg = hg

  end_match-Adds :
      Counts
      → (e : GameEngine) (id : String) (o : Option MatchOutcome) (s : Option GameSession)
      → Adds 1 (end_match broker e id o s)
  unfolding end_match stop ending win_notice
  end_match-Adds counts e id o s b = elim (Bool-cases e.broker) [
    | inr f ↦ rw (f, end_match) (omega arith)
    | inl f ↦ elim (Option-cases o) [
      | inl q ↦ rw (f, q, end_match) (omega arith)
      | inr (out, q) ↦
          rw (f, q, end_match)
            (and_then-Adds 1 0 1 (publish broker (ending id out s))
              (if str_eq out.winner_id ""
                then done
                else publish broker (win_notice id out.winner_id))
              (omega arith) (publish-Adds counts (ending id out s))
              (unless-Adds (str_eq out.winner_id "") (publish broker (win_notice id out.winner_id))
                (publish-Adds counts (win_notice id out.winner_id)))
              b)
    ]
  ]

  end_if_over-Adds :
      Counts
      → (e : GameEngine) (s : GameSession) (r : TurnResult)
      → Adds (of_flag r.match_ended) (end_if_over broker e s (some r))
  unfolding end_if_over
  end_if_over-Adds counts e s r b = elim (Bool-cases r.match_ended) [
    | inl f ↦ rw (f, end_if_over) (end_match-Adds counts e s.session_id r.outcome (some s) b)
    | inr f ↦ rw (f, end_if_over) (done-Adds b)
  ]

  tick_session-Adds :
      Counts
      → (e : GameEngine) (s : GameSession) (r : TurnResult)
      → Adds (of_flag r.match_ended) (tick_session broker e s (some r))
  unfolding tick_session lobby_update turn_notice
  tick_session-Adds counts e s r =
      let n = of_flag r.match_ended in
      let notice = if str_eq s.current_turn "" then done else publish broker (turn_notice s) in
      and_then-Adds 0 n n (publish broker (lobby_update s))
        (and_then notice (end_if_over broker e s (some r))) (omega arith)
        (publish-Adds counts (lobby_update s))
        (and_then-Adds 0 n n notice (end_if_over broker e s (some r)) (omega arith)
          (unless-Adds (str_eq s.current_turn "") (publish broker (turn_notice s))
            (publish-Adds counts (turn_notice s)))
          (end_if_over-Adds counts e s r))

  tick-Adds :
      Counts
      → (e : GameEngine) (s : GameSession) (r : TurnResult)
      → Adds (of_flag r.match_ended) (tick broker e (record { session = some s; result = some r }))
  unfolding tick stop
  tick-Adds counts e s r =
      either-Adds e.broker _ (tick_session broker e s (some r)) (stop not_configured)
        (tick_session-Adds counts e s r) (λ b. omega arith)

-- The calls `process_turn` for one session, one after the other.
module _ {F W B : Type 0} (x : Services F W B) where
  unfoldable pub process_turns : String → List TurnAction → World F W B → World F W B
  process_turns id [] w = w
  process_turns id (a ∷ more) w = process_turns id more (process_turn x id a w).1

  bus-write_session :
      (id : String) (s : GameSession) (w : World F W B) → (write_session id s w).bus ≡ w.bus
  unfolding write_session
  bus-write_session id s w = refl

  -- On a locked session turns publish nothing.
  pub process_turns-locked :
      (id : String) (s : GameSession) (actions : List TurnAction) (w : World F W B)
      → Holds x id s w
      → s.mutations_locked ≡ true
      → (process_turns id actions w).bus ≡ w.bus
  unfolding process_turns write_session
  process_turns-locked id s [] w h l = refl
  process_turns-locked id s (a ∷ more) w h l =
      let step = locked_step s a l in
      let next = process_turn-Holds x id s a w h in
      let rest =
        process_turns-locked id s more (process_turn x id a w).1 (next ∙ ap (λ p. some p.0) step)
          l in
      elim (process_turn-ProcessCase x id s a w h) [
        | refused e p q ↦ rest ∙ ap (λ p. p.1.bus) q
        | played r p q ↦ absurd (cc (rw step at p))
      ]

  module _ (count : B → ℕ) where
    pub publish_turn_events-adds :
        Counts x.broker count
        → (s : GameSession) (r : TurnResult) (w : World F W B)
        → count (publish_turn_events x s r w).bus ≤ of_flag r.match_ended + count w.bus
    unfolding publish_turn_events
    publish_turn_events-adds counts s r w = elim (Option-cases w.manager.game_engine) [
      | inl e ↦ rw (e, publish_turn_events) (omega arith)
      | inr (g, e) ↦ rw (e, publish_turn_events) (tick-Adds x.broker count counts g s r w.bus)
    ]

    settled-adds :
        Counts x.broker count
        → (s : GameSession) (r : TurnResult) (w : World F W B)
          (res : Outcome TurnResult × World F W B)
        → SettleCase x s r w res
        → count res.1.bus ≤ of_flag r.match_ended + count w.bus
    settled-adds counts s r w res (unsettled e w' bad k q) = rw (q, k.bus) (omega arith)
    settled-adds counts s r w res (settled w' k q) =
        rw (q, sym k.bus) (publish_turn_events-adds counts s r w')

    -- A turn of a loaded session adds at most one event, and none unless it leaves the session locked.
    pub process_turn-adds :
        Counts x.broker count
        → (id : String) (s : GameSession) (a : TurnAction) (w : World F W B) → Holds x id s w
        → count (process_turn x id a w).1.bus
          ≤ of_flag (process_game_turn s a).0.mutations_locked + count w.bus
    unfolding write_session
    process_turn-adds counts id s a w h = elim (process_turn-ProcessCase x id s a w h) [
      | refused e p q ↦ rw (q, bus-write_session) (omega arith)
      | played r p q ↦
          let reports = process_game_turn-Reports s a r p in
          rw (reports.locked ∙ sym reports.flagged)
            (settled-adds counts _ r (write_session id (process_game_turn s a).0 w) _ q)
    ]

  pub process_turns-Holds :
      (id : String) (s : GameSession) (actions : List TurnAction) (w : World F W B)
      → Holds x id s w
      → Holds x id (run_turns s actions) (process_turns id actions w)
  unfolding process_turns run_turns
  process_turns-Holds id s [] w h = h
  process_turns-Holds id s (a ∷ more) w h =
      process_turns-Holds id (process_game_turn s a).0 more (process_turn x id a w).1
        (process_turn-Holds x id s a w h)
