-- ===== src/Engine/Tests.antt =====
-- The theorems about the manager at a concrete match, and runs of it.
use domino_jc_project.Prelude.{
  ℕ, ◌+◌, ◌≤◌, ◌≡◌, refl, String, Bool, true, false, none, some, List, [], ◌∷◌, pos, arith,
  find_key, eq_iff, false≢true, All, Bool-cases, inl, inr, str_eq, str_eq→eq, subst,
}
use domino_jc_project.Models.Tile.{DominoTile, PlayerHand}
use domino_jc_project.Models.Session.{GameSession, ok, active, new_game_session}
use domino_jc_project.Models.Play.{play_tile}
use domino_jc_project.Models.Turn.{TurnAction, play, TurnResult, applied_result, process_game_turn}
use domino_jc_project.Models.Evaluate.{EndReason}
use domino_jc_project.Models.Ending.{run_turns}
use domino_jc_project.Consensus.Node.{
  LogEntry, RaftNode, follower, sentinel, entry_at, last_log_index,
}
use domino_jc_project.Consensus.Command.{
  Json, apply_turn, decode_command, decode_apply_turn_payload, to_turn_action,
}
use domino_jc_project.Consensus.Log.{IsNumbered, IsSound}
use domino_jc_project.Consensus.Apply.{Machine, apply_committed}
use domino_jc_project.Consensus.Apply.Run.{entries_from}
use domino_jc_project.Engine.Loop.{Payload}
use domino_jc_project.Engine.Manager.{
  Services, World, Outcome, EngineError, failed, new_game_manager,
}
use domino_jc_project.Engine.Lifecycle.{process_turn, evaluate_and_maybe_finalize}
use domino_jc_project.Engine.Fsm.{Codec, ManagedResult}
use domino_jc_project.Engine.LogTurns.{IsNoStart, log_turns}
use domino_jc_project.Engine.Committed.{managed_machine, apply_committed-run_turns}
use domino_jc_project.Engine.Ended.{is_ending, process_turns}
use domino_jc_project.Engine.Moves.{
  Move, turn, evaluation, abandonment, run_moves, run_moves_end_once,
}
use domino_jc_project.Engine.Announced.{process_turn_announces}
use domino_jc_project.Engine.Lost.{process_turn_silenced}
use domino_jc_project.Engine.Valid.Sessions.{IsSession, IsValid}
use domino_jc_project.Engine.Valid.Run
use domino_jc_project.Engine.Valid.Run.{
  Call, create, start, abandon, restore, run_calls, run_calls-IsValid,
}

abbrev tile : ℕ → ℕ → String → DominoTile
tile l r id = record { uid = ""; id = id; value_left = pos l; value_right = pos r }

abbrev hand : String → List DominoTile → PlayerHand
hand player tiles = record {
  uid = "";
  player_id = player;
  tiles = tiles;
  redacted_tile_count = 0;
  has_passed = false;
  is_ready = true;
  is_abandoned = false;
}

-- `a` is to move and has one tile left.
abbrev last_tile : GameSession
last_tile = record (new_game_session "m" ("a" ∷ "b" ∷ [])) {
  status = active;
  hands = hand "a" (tile 2 5 "2-5" ∷ []) ∷ hand "b" (tile 4 4 "4-4" ∷ []) ∷ [];
  current_turn = "a";
}

abbrev winning : TurnAction
winning = record { kind = play; player_id = "a"; tile = tile 2 5 "2-5"; play_at_left = true }

abbrev won : TurnResult
won = record (applied_result none) {
  match_ended = true;
  outcome = some (record {
    match_id = "m";
    winner_id = "a";
    scores = ("a", pos 0) ∷ ("b", pos 8) ∷ [];
    reason = EndReason.empty_hand;
  });
}

winning_wins : (process_game_turn last_tile winning).1 ≡ ok won
unfolding process_game_turn play_tile new_game_session
winning_wins = refl

-- The database is whether it works, which `works` reads; the broker keeps what it takes.
abbrev services : (Bool → Bool) → Services (Unit {0}) Bool (List Payload)
services works = record {
  save_session = λ s up. (works up, up);
  get_session = λ id up. (none, up);
  list_active_session_ids = λ up. (none, up);
  update_player_careers = λ ps up. (works up, up);
  broker = record { publish_event = λ t p b. (true, p ∷ b) };
  is_positive = λ f. true;
  deterministic_seed = λ id. 7;
  intn = λ seed n i. 0;
}

abbrev healthy : Services (Unit {0}) Bool (List Payload)
healthy = services (λ up. true)

abbrev failing : Services (Unit {0}) Bool (List Payload)
failing = services (λ up. up)

abbrev endings : List Payload → ℕ
endings [] = 0
endings (p ∷ ps) = is_ending p + endings ps

abbrev world : Bool → World (Unit {0}) Bool (List Payload)
world up = record {
  manager = record new_game_manager {
    sessions = ("m", last_tile) ∷ [];
    game_engine = some (record { broker = true });
  };
  store = up;
  bus = [];
}

holds : (up : Bool) → find_key "m" (world up).manager.sessions ≡ some last_tile
unfolding find_key
holds up = refl

abbrev moves : List Move
moves = turn winning ∷ evaluation ∷ abandonment "a" ∷ turn winning ∷ []

run_moves_end_once_example : endings (run_moves failing "m" moves (world true)).bus ≤ 1 + 0
unfolding new_game_session
run_moves_end_once_example =
    run_moves_end_once failing endings (λ t p b. omega arith) "m" last_tile moves (world true)
      (holds true)

process_turn_announces_example :
    ((process_turn healthy "m" winning (world true)).0 ≡ Outcome.done won)
    × (endings (process_turn healthy "m" winning (world true)).1.bus ≡ 1 + 0)
process_turn_announces_example =
    process_turn_announces healthy endings (record { broker = true }) "m" last_tile winning won
      (world true) (λ t store. refl) (λ t p b. (refl, refl)) refl refl (holds true) winning_wins

process_turn_silenced_example :
    let w' =
      process_turns failing "m" (winning ∷ []) (process_turn failing "m" winning (world false)).1 in
    ((e : EngineError) × ((process_turn failing "m" winning (world false)).0 ≡ failed e))
    × (w'.bus ≡ [])
    × ((evaluate_and_maybe_finalize failing "m" w').1.bus ≡ [])
process_turn_silenced_example =
    process_turn_silenced failing "m" last_tile winning won (world false) (winning ∷ [])
      (holds false) winning_wins refl refl

abbrev calls : List (Call (Unit {0}))
calls =
    create "n" ("a" ∷ [])
    ∷ start "n" (record { player_uids = "a" ∷ "b" ∷ []; setup_game = true; tiles_per_hand = pos 0 })
    ∷ Run.turn "m" winning
    ∷ abandon "n" "b"
    ∷ restore (("n", none) ∷ [])
    ∷ []

world-IsValid : IsValid (world true).manager.sessions
unfolding find_key new_game_session
world-IsValid j s h = elim (Bool-cases (str_eq "m" j)) [
  | inl e ↦
      let same : last_tile ≡ s = ground (arith, e, h) in
      subst (λ k. IsSession k s) (str_eq→eq "m" j e)
        (subst (λ t. IsSession "m" t) same
          (record {
            named = λ q. false≢true ((eq_iff "m" "").1 q);
            own = refl;
            board = record { linked = tt; ends = (refl, refl); pips = tt };
          }))
  | inr e ↦ absurd (ground (arith, e, h))
]

run_calls-IsValid_example : IsValid (run_calls failing calls (world true)).manager.sessions
run_calls-IsValid_example =
    run_calls-IsValid failing calls (world true) (λ id store s q. absurd (cc q))
      (tt, (tt, ((omega arith, omega arith), (tt, ((tt, tt), tt))))) world-IsValid

-- Any command but the empty one is the winning turn.
abbrev json : Json
json = record {
  write_command = λ c. 1 ∷ [];
  read_command = λ b. elim b [
    | [] ↦ none
    | _ ∷ _ ↦ some (record { op = apply_turn; match_id = "m"; payload = 1 ∷ [] })
  ];
  write_add_node = λ c. [];
  read_add_node = λ b. none;
  write_remove_node = λ c. [];
  read_remove_node = λ b. none;
  read_start_match = λ b. none;
  read_apply_turn = λ b.
      some (record {
        kind = "PLAY_TILE";
        player_id = "a";
        tile = tile 2 5 "2-5";
        play_at_left = true;
      });
}

abbrev codec : Codec (Unit {0})
codec = record { json = json; read_ledger = λ b. none; write_gob = λ s. none; read_gob = λ b. none }

abbrev storage :
    Machine (World (Unit {0}) Bool (List Payload)) (ManagedResult (Unit {0})) (Unit {0})
storage = record {
  json = json;
  fsm_apply = λ b w. (ManagedResult.engine_error EngineError.save_failed, w);
  create_snapshot = λ s. none;
  restore = λ b s. none;
  persist_snapshot = λ i t b d. none;
  truncate_log = λ es r d. none;
  load_snapshot = λ d. none;
  load_log = λ d. none;
}

-- The winning turn is committed and not applied yet; saving fails.
abbrev node : RaftNode (World (Unit {0}) Bool (List Payload)) (ManagedResult (Unit {0})) (Unit {0})
node = record {
  node_id = "n1";
  peer_addresses = [];
  current_term = 1;
  voted_for = "";
  state = follower;
  fsm = world false;
  log = sentinel 0 0 ∷ record { index = 1; term = 1; command = 1 ∷ [] } ∷ [];
  commit_index = 1;
  last_applied = 0;
  next_index = none;
  match_index = none;
  joint = none;
  known_leader_id = "";
  known_leader_term = 0;
  apply_results = [];
  storage = none;
  compact_threshold = 1000;
  snapshot_index = 0;
  snapshot_term = 0;
  last_snapshot = [];
}

node-IsSound : IsSound node
node-IsSound = record { lower = omega arith; numbered = unfold IsNumbered in (refl, (refl, tt)) }

abbrev todo : List LogEntry
todo = entries_from (managed_machine failing codec storage) 1 1 node

starts_nothing : All (IsNoStart codec "m") todo
unfolding entries_from decode_command entry_at
starts_nothing = (λ cmd q o. absurd (ground (arith, q, o)), tt)

apply_committed-run_turns_example :
    find_key "m" (apply_committed (managed_machine failing codec storage) node).fsm.manager.sessions
    ≡ some (run_turns last_tile (log_turns codec "m" todo))
apply_committed-run_turns_example =
    apply_committed-run_turns failing codec storage node "m" last_tile node-IsSound (omega arith)
      (omega arith) (unfold last_log_index in omega arith) (λ id store s q. absurd (cc q))
      starts_nothing (holds false)

-- The turn that the log carries is the one that wins.
committed_turns : log_turns codec "m" todo ≡ winning ∷ []
unfolding log_turns entries_from decode_command to_turn_action entry_at decode_apply_turn_payload
committed_turns = refl
