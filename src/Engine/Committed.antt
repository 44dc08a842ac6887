-- ===== src/Engine/Committed.antt =====
-- From the log to the game: what the committed commands make of a session in memory.
use domino_jc_project.Prelude.{
  ◌≡◌, ◌≢◌, refl, ◌∙◌, ap, String, str_eq, str_eq→eq, true, none, some, List, [], ◌∷◌, find_key,
  eq_iff, arith, Bool-cases, inl, inr, All, ◌-◌, ◌+◌, ◌≤◌,
}
use domino_jc_project.Models.Session.{GameSession}
use domino_jc_project.Models.Turn.{process_game_turn}
use domino_jc_project.Models.Ending.{run_turns}
use domino_jc_project.Consensus.Node.{Bytes, LogEntry, RaftNode, last_log_index}
use domino_jc_project.Consensus.Command.{
  Op, start_match, apply_turn, ledger_balance, add_node, remove_node, commit_config, debug_noop,
  other, Command, ApplyTurnPayload, Decoded, ok, err, is_membership_op, decode_command,
  decode_start_match_payload, decode_apply_turn_payload, to_turn_action,
}
use domino_jc_project.Consensus.Log.{IsSound}
use domino_jc_project.Consensus.Apply.{Machine, apply_committed}
use domino_jc_project.Consensus.Apply.Run.{
  entries_from, run_decoded, run_command, run_entries, apply_committed-run_entries,
}
use domino_jc_project.Engine.Manager.{Services, World}
use domino_jc_project.Engine.Lifecycle.{process_turn}
use domino_jc_project.Engine.Replicated.{apply_replicated_turn}
use domino_jc_project.Engine.Fsm.{
  Codec, ManagedResult, apply_player_turn, apply_managed_command, apply_managed,
  decode_ledger_balance_payload, create_snapshot, restore,
}
use domino_jc_project.Engine.Frame.{IsKeyed}
use domino_jc_project.Engine.LogTurns.{
  run_turns-append, Holds, process_turn-Holds, report_turn-Holds, payload_turns, command_turns,
  decoded_turns, log_turns, IsNoStart, apply_start-Frames, apply_ledger-Frames,
  apply_player_turn-Frames,
}

module _ {F W B : Type 0} (x : Services F W B) (c : Codec F) where
  apply_player_turn-Holds :
      (id : String) (s : GameSession) (p : Decoded ApplyTurnPayload) (w : World F W B)
      → Holds x id s w
      → Holds x id (run_turns s (payload_turns c p)) (apply_player_turn x id p w).1
  unfolding apply_player_turn apply_replicated_turn payload_turns run_turns
  apply_player_turn-Holds id s (err e) w h = h
  apply_player_turn-Holds id s (ok p) w h =
      let a = to_turn_action p in
      report_turn-Holds x id (process_game_turn s a).0 (process_turn x id a w)
        (process_turn-Holds x id s a w h)

  apply_managed_command-Holds :
      (id : String) (s : GameSession) (cmd : Command) (w : World F W B)
      → IsKeyed x
      → (cmd.op ≡ start_match → cmd.match_id ≢ id)
      → Holds x id s w
      → Holds x id (run_turns s (command_turns c id cmd)) (apply_managed_command x c cmd w).1
  unfolding apply_managed_command command_turns run_turns
  apply_managed_command-Holds id s cmd w keyed free h = go cmd.op refl
    where
      go :
          (op : Op)
          → cmd.op ≡ op
          → Holds x id (run_turns s (command_turns c id cmd)) (apply_managed_command x c cmd w).1
      go start_match e =
          rw (e, apply_managed_command, command_turns)
            (apply_start-Frames x cmd.match_id id (decode_start_match_payload c.json cmd.payload) w
                keyed (free e)
              ∙ h)
      go apply_turn e = elim (Bool-cases (str_eq cmd.match_id id)) [
        | inl same ↦
            rw (e, same, apply_managed_command, command_turns)
              (rw (str_eq→eq cmd.match_id id same)
                (apply_player_turn-Holds id s (decode_apply_turn_payload c.json cmd.payload) w h))
        | inr differs ↦
            rw (e, differs, apply_managed_command, command_turns)
              (apply_player_turn-Frames x cmd.match_id id
                  (decode_apply_turn_payload c.json cmd.payload) w keyed
                  (ground (arith, eq_iff cmd.match_id id))
                ∙ h)
      ]
      go ledger_balance e =
          rw (e, apply_managed_command, command_turns)
            (apply_ledger-Frames x cmd.match_id id (decode_ledger_balance_payload c cmd.payload) w
              ∙ h)
      go add_node e = rw (e, apply_managed_command, command_turns) h
      go remove_node e = rw (e, apply_managed_command, command_turns) h
      go commit_config e = rw (e, apply_managed_command, command_turns) h
      go debug_noop e = rw (e, apply_managed_command, command_turns) h
      go (other o) e = rw (e, apply_managed_command, command_turns) h

  membership_turns :
      (id : String) (cmd : Command) → is_membership_op cmd.op ≡ true → command_turns c id cmd ≡ []
  unfolding is_membership_op command_turns
  membership_turns id cmd h = go cmd.op refl
    where
      go : (op : Op) → cmd.op ≡ op → command_turns c id cmd ≡ []
      go start_match e = rw (e, command_turns)
      go apply_turn e = absurd (cc (rw (e, is_membership_op) at h))
      go ledger_balance e = rw (e, command_turns)
      go add_node e = rw (e, command_turns)
      go remove_node e = rw (e, command_turns)
      go commit_config e = rw (e, command_turns)
      go debug_noop e = rw (e, command_turns)
      go (other o) e = rw (e, command_turns)

  apply_managed-ok :
      (b : Bytes) (cmd : Command) (w : World F W B)
      → decode_command c.json b ≡ ok cmd
      → apply_managed x c b w ≡ apply_managed_command x c cmd w
  unfolding apply_managed
  apply_managed-ok b cmd w q = rw (q, apply_managed)

  -- A node whose state machine is the manager; `m` gives its storage.
  abbrev pub managed_machine :
      {D : Type 0}
      → Machine (World F W B) (ManagedResult F) D
      → Machine (World F W B) (ManagedResult F) D
  managed_machine m = record m {
    json = c.json;
    fsm_apply = apply_managed x c;
    create_snapshot = λ w. create_snapshot c w.manager;
    restore = λ b w. elim (restore c b w.manager) [
      | none ↦ none
      | some g ↦ some (record w { manager = g })
    ];
  }

  module _ {D : Type 0} (m : Machine (World F W B) (ManagedResult F) D) where
    run_decoded-Holds :
        (id : String) (s : GameSession) (e : LogEntry) (w : World F W B) (d : Decoded Command)
        → decode_command c.json e.command ≡ d
        → IsKeyed x
        → IsNoStart c id e
        → Holds x id s w
        → Holds x id
            (run_turns s (decoded_turns c id d))
            (run_decoded (managed_machine m) d e.command w)
    unfolding run_decoded decoded_turns run_turns
    run_decoded-Holds id s e w (err z) q keyed free h = h
    run_decoded-Holds id s e w (ok cmd) q keyed free h =
        elim (Bool-cases (is_membership_op cmd.op)) [
          | inl member ↦ rw (member, membership_turns id cmd member) h
          | inr plain ↦ rw plain (
              ap (λ r. find_key id r.1.manager.sessions) (apply_managed-ok e.command cmd w q)
              ∙ apply_managed_command-Holds id s cmd w keyed (free cmd q) h)
        ]

    run_entries-Holds :
        (id : String) (s : GameSession) (es : List LogEntry) (w : World F W B)
        → IsKeyed x
        → All (IsNoStart c id) es
        → Holds x id s w
        → Holds x id (run_turns s (log_turns c id es)) (run_entries (managed_machine m) es w)
    unfolding run_entries run_command log_turns run_turns
    run_entries-Holds id s [] w keyed free h = h
    run_entries-Holds id s (e ∷ es) w keyed free h =
        let d = decode_command c.json e.command in
        rw (run_turns-append s (decoded_turns c id d) (log_turns c id es)) (
          run_entries-Holds id (run_turns s (decoded_turns c id d)) es
            (run_decoded (managed_machine m) d e.command w) keyed free.1
            (run_decoded-Holds id s e w d refl keyed free.0 h))

    -- A node applies what is committed to its manager. If a session is in memory, no entry that is applied
    -- starts its match again, and the repository answers sessions under the id asked for, then the session
    -- is afterwards what the turns of its match in those entries make of it, in their order; what the
    -- repository and the broker answer, and whether a save fails, does not matter. The node's log must have
    -- the entries up to the commit index.
    pub apply_committed-run_turns :
        (n : RaftNode (World F W B) (ManagedResult F) D) (id : String) (s : GameSession)
        → IsSound n
        → n.snapshot_index ≤ n.last_applied
        → n.last_applied ≤ n.commit_index
        → n.commit_index ≤ last_log_index n
        → IsKeyed x
        → All (IsNoStart c id) (
            entries_from
              (managed_machine m)
              (n.commit_index - n.last_applied)
              (n.last_applied + 1)
              n)
        → find_key id n.fsm.manager.sessions ≡ some s
        → find_key id (apply_committed (managed_machine m) n).fsm.manager.sessions
          ≡ some (
              run_turns s (
                log_turns c id (
                  entries_from
                    (managed_machine m)
                    (n.commit_index - n.last_applied)
                    (n.last_applied + 1)
                    n)))
    apply_committed-run_turns n id s sound low middle high keyed free h =
        let todo =
          entries_from (managed_machine m) (n.commit_index - n.last_applied) (n.last_applied + 1)
            n in
        let run = apply_committed-run_entries (managed_machine m) n sound low middle high in
        rw run.0 (run_entries-Holds id s todo n.fsm keyed free h)
