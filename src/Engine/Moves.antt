-- ===== src/Engine/Moves.antt =====
-- Turns, evaluations and players who leave, in any order: how often the end of a match is published.
use domino_jc_project.Prelude.{
  ℕ, ◌+◌, ◌≤◌, ◌≡◌, refl, ◌∙◌, ap, String, str_eq, eq_iff, Bool, true, false, not, Option, none,
  some, List, [], ◌∷◌, find_key, arith, Bool-cases, Option-cases, inl, inr, if◌then◌else◌,
}
use domino_jc_project.Models.Tile.{modify_hand, find_hand}
use domino_jc_project.Models.Session.{GameSession, lock_for_completion}
use domino_jc_project.Models.Evaluate.{MatchOutcome, evaluate_match}
use domino_jc_project.Models.Play.{rotate_turn, pass_turn}
use domino_jc_project.Models.Turn.{TurnAction, process_game_turn}
use domino_jc_project.Models.Ending.{locked_step}
use domino_jc_project.Engine.Manager.{
  Services, World, Outcome, done, failed, write_session, persist_state, with_session_write,
  write_found, written,
}
use domino_jc_project.Engine.Lifecycle.{
  process_turn, lock_session, finalize_match, publish_ended, end_if_evaluated, evaluate_found,
  evaluate_and_maybe_finalize, evaluate_after, handle_player_abandoned, abandon_player,
  mark_abandoned, pass_or_rotate, skip_turn, ended_with,
}
use domino_jc_project.Engine.Settle.{lookup_session-loaded, find_key-write_session}
use domino_jc_project.Engine.LogTurns.{Holds, process_turn-Holds}
use domino_jc_project.Engine.Ended.{
  of_flag, Counts, process_turns, process_turns-locked, process_turn-adds, publish_turn_events-adds,
}

pass_or_rotate-locked :
    (player : String) (s : GameSession)
    → (pass_or_rotate (pass_turn s player)).mutations_locked ≡ s.mutations_locked
unfolding pass_turn rotate_turn
pass_or_rotate-locked player s = elim (Bool-cases (str_eq s.current_turn player)) [
  | inr e ↦ rw (e, pass_turn) refl
  | inl e ↦ elim (Option-cases (find_hand player s.hands)) [
    | inl f ↦ rw (e, f, pass_turn) refl
    | inr (h, f) ↦ rw (e, f, pass_turn) refl
  ]
]

if-locked :
    (c : Bool) (s t : GameSession)
    → t.mutations_locked ≡ s.mutations_locked
    → (if c then t else s).mutations_locked ≡ s.mutations_locked
if-locked true s t e = e
if-locked false s t e = refl

skip_turn-locked :
    (player : String) (s : GameSession) → (skip_turn player s).mutations_locked ≡ s.mutations_locked
unfolding skip_turn
skip_turn-locked player s =
    if-locked (str_eq s.current_turn player) s (pass_or_rotate (pass_turn s player))
      (pass_or_rotate-locked player s)

abandon_player-locked :
    (id player : String) (s : GameSession)
    → (abandon_player id player s).1.mutations_locked ≡ s.mutations_locked
unfolding abandon_player
abandon_player-locked id player s = elim (Option-cases (find_hand player s.hands)) [
  | inl e ↦ rw (e, abandon_player) refl
  | inr (h, e) ↦
      rw (e, abandon_player)
        (skip_turn-locked player (record s { hands = modify_hand player mark_abandoned s.hands }))
]

lock_session-locks : (s : GameSession) → (lock_session s).mutations_locked ≡ true
unfolding lock_session lock_for_completion
lock_session-locks s = elim (Bool-cases s.mutations_locked) [
  | inl e ↦ rw (e, lock_session) refl
  | inr e ↦ rw (e, lock_session) refl
]

-- What can happen to one session: a turn, an evaluation, a player who leaves.
pub data Move : Type 0 where
  turn : TurnAction → Move
  evaluation : Move
  abandonment : String → Move

module _ {F W B : Type 0} (x : Services F W B) where
  unfoldable pub run_move : String → Move → World F W B → World F W B
  unfolding process_turn evaluate_and_maybe_finalize handle_player_abandoned
  run_move id (turn a) w = (process_turn x id a w).1
  run_move id evaluation w = (evaluate_and_maybe_finalize x id w).1
  run_move id (abandonment player) w = (handle_player_abandoned x id player w).1

  unfoldable pub run_moves : String → List Move → World F W B → World F W B
  unfolding run_move
  run_moves id [] w = w
  run_moves id (m ∷ more) w = run_moves id more (run_move id m w)

  write_session-Holds :
      (id : String) (s : GameSession) (w : World F W B) → Holds x id s (write_session id s w)
  write_session-Holds id s w = ground (arith, find_key-write_session id id s w, eq_iff id id)

  module _ (count : B → ℕ) where
    -- The events published, and the one that an open session may still lead to, are no more than `n`.
    record AtMost (id : String) (n : ℕ) (w : World F W B) : Type 0 where
      pub session : GameSession
      pub holds : Holds x id session w
      pub bound : count w.bus + of_flag (not session.mutations_locked) ≤ n

    turn-AtMost :
        Counts x.broker count
        → (id : String) (n : ℕ) (a : TurnAction) (w : World F W B) → AtMost id n w
        → AtMost id n (process_turn x id a w).1
    unfolding process_turns
    turn-AtMost counts id n a w m =
        let s = m.session in
        let next = process_turn-Holds x id s a w m.holds in
        elim (Bool-cases s.mutations_locked) [
          | inl l ↦
              let still = process_turns-locked x id s (a ∷ []) w m.holds l in
              record {
                session = s;
                holds = next ∙ ap (λ p. some p.0) (locked_step s a l);
                bound = rw still m.bound;
              }
          | inr l ↦
              let s' = (process_game_turn s a).0 in
              let here = process_turn-adds x count counts id s a w m.holds in
              let room : count w.bus + 1 ≤ n = rw l at m.bound in
              record {
                session = s';
                holds = next;
                bound = elim (Bool-cases s'.mutations_locked) [
                  | inl k ↦
                      let more : count (process_turn x id a w).1.bus ≤ 1 + count w.bus =
                        rw k at here in
                      rw k (omega (arith, more, room))
                  | inr k ↦
                      let more : count (process_turn x id a w).1.bus ≤ 0 + count w.bus =
                        rw k at here in
                      rw k (omega (arith, more, room))
                ];
              }
        ]

    announced-AtMost :
        Counts x.broker count
        → (id : String) (n : ℕ) (s : GameSession) (o : MatchOutcome)
          (p : Outcome (Unit {0}) × World F W B)
        → Holds x id (lock_session s) p.1
        → count p.1.bus + 1 ≤ n
        → AtMost id n (publish_ended x s o p).1
    unfolding publish_ended
    announced-AtMost counts id n s o (failed e, w) h b = record {
      session = lock_session s;
      holds = h;
      bound = rw (lock_session-locks s) (omega (arith, b));
    }
    announced-AtMost counts id n s o (done _, w) h b =
        let more = publish_turn_events-adds x count counts (lock_session s) (ended_with x o) w in
        record {
          session = lock_session s;
          holds = h;
          bound = rw (lock_session-locks s) (omega (arith, b, more));
        }

    evaluate-AtMost :
        Counts x.broker count
        → (id : String) (n : ℕ) (w : World F W B) → AtMost id n w
        → AtMost id n (evaluate_and_maybe_finalize x id w).1
    unfolding evaluate_and_maybe_finalize evaluate_found end_if_evaluated finalize_match
    evaluate-AtMost counts id n w m =
        let s = m.session in
        rw (lookup_session-loaded x id s w m.holds)
          (go s m.holds s.mutations_locked m.bound (evaluate_match s))
      where
        go :
            (s : GameSession)
            → Holds x id s w
            → (locked : Bool) → count w.bus + of_flag (not locked) ≤ n
            → (o : Option MatchOutcome)
            → AtMost id n (if locked then (done tt, w) else end_if_evaluated x id s o w).1
        go s h true b o = m
        go s h false b none = m
        go s h false b (some o) =
            announced-AtMost counts id n s o (finalize_match x id s (some o) w)
              (write_session-Holds id (lock_session s) w) b

    after-AtMost :
        Counts x.broker count
        → (id : String) (n : ℕ) (p : Outcome (Unit {0}) × World F W B) → AtMost id n p.1
        → AtMost id n (evaluate_after x id p).1
    unfolding evaluate_after
    after-AtMost counts id n (failed e, w) m = m
    after-AtMost counts id n (done _, w) m = evaluate-AtMost counts id n w m

    written-AtMost :
        (id : String) (n : ℕ) (w : World F W B) (p : Outcome (Unit {0}) × GameSession)
        → count w.bus + of_flag (not p.1.mutations_locked) ≤ n
        → AtMost id n (written x id p w).1
    unfolding written persist_state write_session
    written-AtMost id n w (failed e, s) b = record {
      session = s;
      holds = write_session-Holds id s w;
      bound = b;
    }
    written-AtMost id n w (done _, s) b = record {
      session = s;
      holds = write_session-Holds id s w;
      bound = b;
    }

    abandon-AtMost :
        Counts x.broker count
        → (id player : String) (n : ℕ) (w : World F W B) → AtMost id n w
        → AtMost id n (handle_player_abandoned x id player w).1
    unfolding handle_player_abandoned with_session_write write_found
    abandon-AtMost counts id player n w m =
        let s = m.session in
        after-AtMost counts id n (with_session_write x id (abandon_player id player) w) (
          rw (lookup_session-loaded x id s w m.holds) (
            written-AtMost id n w (abandon_player id player s)
              (rw (abandon_player-locked id player s) m.bound)))

    run_move-AtMost :
        Counts x.broker count
        → (id : String) (n : ℕ) (move : Move) (w : World F W B) → AtMost id n w
        → AtMost id n (run_move id move w)
    unfolding run_move
    run_move-AtMost counts id n (turn a) w m = turn-AtMost counts id n a w m
    run_move-AtMost counts id n evaluation w m = evaluate-AtMost counts id n w m
    run_move-AtMost counts id n (abandonment player) w m = abandon-AtMost counts id player n w m

    run_moves-AtMost :
        Counts x.broker count
        → (id : String) (n : ℕ) (moves : List Move) (w : World F W B) → AtMost id n w
        → AtMost id n (run_moves id moves w)
    unfolding run_moves
    run_moves-AtMost counts id n [] w m = m
    run_moves-AtMost counts id n (move ∷ more) w m =
        run_moves-AtMost counts id n more (run_move id move w)
          (run_move-AtMost counts id n move w m)

    -- However many turns, evaluations and abandonments a session meets that is in memory, in whatever order:
    -- at most one event that its match has ended is published if the session was open before, and none
    -- at all if it was locked; for any count of these events that a publication of one raises by at most
    -- one and any other publication does not raise.
    pub run_moves_end_once :
        Counts x.broker count
        → (id : String) (s : GameSession) (moves : List Move) (w : World F W B)
        → find_key id w.manager.sessions ≡ some s
        → count (run_moves id moves w).bus ≤ of_flag (not s.mutations_locked) + count w.bus
    run_moves_end_once counts id s moves w h =
        let start : AtMost id (count w.bus + of_flag (not s.mutations_locked)) w = record {
          session = s;
          holds = h;
          bound = omega arith;
        } in
        let m = run_moves-AtMost counts id _ moves w start in omega (arith, m.bound)
