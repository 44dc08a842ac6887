-- ===== src/Engine/LogTurns.antt =====
-- The turns of a match that a log carries (pkg/consensus/fsm.go), and what a command leaves alone.
use domino_jc_project.Prelude.{
  ◌≡◌, ◌≢◌, refl, ◌∙◌, String, str_eq, some, List, [], ◌∷◌, ◌++◌, find_key, eq_iff, arith,
  if◌then◌else◌,
}
use domino_jc_project.Models.Session.{GameSession}
use domino_jc_project.Models.Turn.{TurnAction, TurnResult, process_game_turn}
use domino_jc_project.Models.Ending.{run_turns}
use domino_jc_project.Consensus.Node.{LogEntry}
use domino_jc_project.Consensus.Command.{
  start_match, apply_turn, Command, StartMatchPayload, ApplyTurnPayload, Decoded, ok, err,
  decode_command, decode_apply_turn_payload, to_turn_action,
}
use domino_jc_project.Engine.Manager.{
  Services, World, Outcome, done, failed, get_session, write_session,
}
use domino_jc_project.Engine.Lifecycle.{process_turn}
use domino_jc_project.Engine.Replicated.{apply_replicated_turn}
use domino_jc_project.Engine.Fsm.{
  Codec, LedgerBalancePayload, apply_start, apply_player_turn, apply_ledger, report_turn, to_setup,
  to_stats_update,
}
use domino_jc_project.Engine.Settle.{
  SettleCase, unsettled, settled, refused, played, process_turn-ProcessCase, find_key-write_session,
}
use domino_jc_project.Engine.Frame.{
  Frames, IsKeyed, process_turn-Frames, get_session-Frames, manager-publish_turn_events,
}
use domino_jc_project.Engine.StartFrame.{
  apply_replicated_start_match-Frames, apply_replicated_ledger_balance-Frames,
}

pub run_turns-append :
    (s : GameSession) (first later : List TurnAction)
    → run_turns s (first ++ later) ≡ run_turns (run_turns s first) later
unfolding run_turns
run_turns-append s [] later = refl
run_turns-append s (a ∷ more) later = run_turns-append (process_game_turn s a).0 more later

module _ {F W B : Type 0} (x : Services F W B) where
  -- The session is in memory.
  abbrev pub Holds : String → GameSession → World F W B → Type 0
  Holds id s w = find_key id w.manager.sessions ≡ some s

  pub settled-Holds :
      (id : String) (s : GameSession) (r : TurnResult) (w : World F W B)
      (res : Outcome TurnResult × World F W B)
      → Holds id s w
      → SettleCase x s r w res
      → Holds id s res.1
  settled-Holds id s r w res h (unsettled e w' bad k q) = rw q (k.sessions id ∙ h)
  settled-Holds id s r w res h (settled w' k q) =
      rw (q, manager-publish_turn_events x s r w') (k.sessions id ∙ h)

  -- Whatever the repository and the broker answer, the session in memory is what the turn makes of it.
  pub process_turn-Holds :
      (id : String) (s : GameSession) (a : TurnAction) (w : World F W B)
      → Holds id s w
      → Holds id (process_game_turn s a).0 (process_turn x id a w).1
  process_turn-Holds id s a w h =
      let s' = (process_game_turn s a).0 in
      let there : Holds id s' (write_session id s' w) =
        ground (arith, find_key-write_session id id s' w, eq_iff id id) in
      elim (process_turn-ProcessCase x id s a w h) [
        | refused e p q ↦ rw q there
        | played r p q ↦ settled-Holds id s' r _ _ there q
      ]

  pub get_session-loaded :
      (id : String) (s : GameSession) (w : World F W B)
      → Holds id s w
      → get_session x id w ≡ (some s, w)
  unfolding get_session
  get_session-loaded id s w h = rw (h, get_session)

  pub report_turn-Holds :
      (id : String) (s : GameSession) (p : Outcome TurnResult × World F W B)
      → Holds id s p.1
      → Holds id s (report_turn x id p).1
  unfolding report_turn
  report_turn-Holds id s (failed e, w) h = h
  report_turn-Holds id s (done t, w) h = rw (get_session-loaded id s w h) h

  pub report_turn-Frames :
      (id j : String) (p : Outcome TurnResult × World F W B)
      → IsKeyed x
      → id ≢ j
      → Frames j p.1 (report_turn x id p).1
  unfolding report_turn
  report_turn-Frames id j (failed e, w) keyed ne = refl
  report_turn-Frames id j (done t, w) keyed ne = get_session-Frames x id j w keyed ne

module _ {F : Type 0} (c : Codec F) where
  -- The turns of the match `id` that a command of the log carries: one, or none.
  unfoldable pub payload_turns : Decoded ApplyTurnPayload → List TurnAction
  payload_turns (err e) = []
  payload_turns (ok p) = to_turn_action p ∷ []

  unfoldable pub command_turns : String → Command → List TurnAction
  unfolding payload_turns
  command_turns id cmd = elim cmd.op [
    | apply_turn ↦
        if str_eq cmd.match_id id
        then payload_turns (decode_apply_turn_payload c.json cmd.payload)
        else []
    | _ ↦ []
  ]

  unfoldable pub decoded_turns : String → Decoded Command → List TurnAction
  unfolding command_turns
  decoded_turns id (err e) = []
  decoded_turns id (ok cmd) = command_turns id cmd

  -- The turns of the match `id` in a log, in its order.
  unfoldable pub log_turns : String → List LogEntry → List TurnAction
  unfolding decoded_turns
  log_turns id [] = []
  log_turns id (e ∷ es) = decoded_turns id (decode_command c.json e.command) ++ log_turns id es

  -- The entry does not start the match `id`.
  abbrev pub IsNoStart : String → LogEntry → Type 0
  IsNoStart id e =
      (cmd : Command)
      → decode_command c.json e.command ≡ ok cmd
      → cmd.op ≡ start_match
      → cmd.match_id ≢ id

module _ {F W B : Type 0} (x : Services F W B) where
  pub apply_start-Frames :
      (id j : String) (p : Decoded StartMatchPayload) (w : World F W B)
      → IsKeyed x
      → id ≢ j
      → Frames j w (apply_start x id p w).1
  unfolding apply_start
  apply_start-Frames id j (err e) w keyed ne = refl
  apply_start-Frames id j (ok p) w keyed ne =
      apply_replicated_start_match-Frames x id j (to_setup p) w keyed ne

  pub apply_ledger-Frames :
      (id j : String) (p : Decoded (LedgerBalancePayload F)) (w : World F W B)
      → Frames j w (apply_ledger x id p w).1
  unfolding apply_ledger
  apply_ledger-Frames id j (err e) w = refl
  apply_ledger-Frames id j (ok p) w =
      apply_replicated_ledger_balance-Frames x (to_stats_update id p) j w

  pub apply_player_turn-Frames :
      (id j : String) (p : Decoded ApplyTurnPayload) (w : World F W B)
      → IsKeyed x
      → id ≢ j
      → Frames j w (apply_player_turn x id p w).1
  unfolding apply_player_turn apply_replicated_turn
  apply_player_turn-Frames id j (err e) w keyed ne = refl
  apply_player_turn-Frames id j (ok p) w keyed ne =
      report_turn-Frames x id j (process_turn x id (to_turn_action p) w) keyed ne
      ∙ process_turn-Frames x id j (to_turn_action p) w keyed ne
