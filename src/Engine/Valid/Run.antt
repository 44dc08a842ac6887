-- ===== src/Engine/Valid/Run.antt =====
-- Sequences of calls of the manager, in any order and with any arguments.
use domino_jc_project.Prelude.{
  refl, sym, subst, String, Bool, false, StringMap, arith, str_eq, Option, none, some, List, [],
  ◌∷◌, Bool-cases, Option-cases, inl, inr, All,
}
use domino_jc_project.Models.Tile.{DominoTile}
use domino_jc_project.Models.Session.{GameSession}
use domino_jc_project.Models.Turn.{TurnAction, TurnKind, play, draw, pass}
use domino_jc_project.Models.Board.{IsBoard, HasPips}
use domino_jc_project.Engine.Loop.{GameEngine}
use domino_jc_project.Engine.Manager.{
  set_game_engine, PlayerStatsUpdate, Services, World, GameManager, Outcome, done, failed,
  create_session, add_session, evict_session, bootstrap_active_sessions, get_session,
  lookup_session, with_session_write, write_found, written,
}
use domino_jc_project.Engine.Lifecycle.{
  no_tile, apply_play_tile, apply_draw_from_boneyard, apply_pass_turn, process_turn,
  evaluate_and_maybe_finalize, abandon_player, evaluate_after, handle_player_abandoned,
}
use domino_jc_project.Engine.Replicated.{
  apply_replicated_turn, apply_replicated_ledger_balance, restore_sessions, restore_ledger_profiles,
  ReplicatedMatchSetup, prepare_match, found_created, create_and_lookup, or_create, save_prepared,
  start_found, apply_replicated_start_match, is_empty,
}
use domino_jc_project.Engine.Valid.Sessions.{
  IsSession, IsValid, delete_key-IsValid, Alike-IsSession, abandon_player-Alike,
  prepare_match-IsSession,
}
use domino_jc_project.Engine.Valid.Restore.{IsKept, restore_sessions-IsValid, ledger-IsValid}
use domino_jc_project.Engine.Valid.Lookup.{
  IsValidWorld, GivesBoards, IsFound, lookup_session-IsFound, write_session-IsValid,
  create_session-IsValid, add_session-IsValid, get_session-IsValid, note_recovered-sessions,
}
use domino_jc_project.Engine.Valid.Calls.{process_turn-IsValid, evaluate-IsValid}

-- A call of the manager with its arguments: every exported method that changes its state, and reads that
-- may bring a session into memory.
pub data Call (F : Type 0) : Type 0 where
  set_engine : Option GameEngine → Call F
  bootstrap : Call F
  create : String → List String → Call F
  get evict : String → Call F
  add : Option GameSession → Call F
  abandon : String → String → Call F
  apply_play : String → String → DominoTile → Bool → Call F
  apply_draw apply_pass : String → String → Call F
  start : String → ReplicatedMatchSetup → Call F
  turn : String → TurnAction → Call F
  evaluate : String → Call F
  ledger : PlayerStatsUpdate F → Call F
  restore : StringMap (Option GameSession) → Call F
  restore_ledger : StringMap (PlayerStatsUpdate F) → Call F

-- An added or restored session has a board that is a chain, a restored one stands under its own id, and a
-- played tile has no negative value.
abbrev pub IsProper : {F : Type 0} → Call F → Type 0
IsProper (add (some s)) = IsBoard s
IsProper (apply_play id player tile left) = HasPips tile
IsProper (turn id a) = HasPips a.tile
IsProper (restore snapshot) = All IsKept snapshot
IsProper _ = Unit

abbrev action : TurnKind → String → DominoTile → Bool → TurnAction
action kind player tile left = record {
  kind = kind;
  player_id = player;
  tile = tile;
  play_at_left = left;
}

module _ {F W B : Type 0} (x : Services F W B) where
  -- What a call leaves, whatever it answers.
  unfoldable pub run_call : Call F → World F W B → World F W B
  unfolding set_game_engine create_session get_session add_session evict_session
      bootstrap_active_sessions process_turn evaluate_and_maybe_finalize handle_player_abandoned
      apply_play_tile apply_draw_from_boneyard apply_pass_turn apply_replicated_start_match
      apply_replicated_turn apply_replicated_ledger_balance restore_sessions restore_ledger_profiles
  run_call (set_engine engine) w = record w { manager = set_game_engine engine w.manager }
  run_call bootstrap w = (bootstrap_active_sessions x w).1
  run_call (create id uids) w = record w { manager = (create_session id uids w.manager).1 }
  run_call (get id) w = (get_session x id w).1
  run_call (evict id) w = record w { manager = evict_session id w.manager }
  run_call (add s) w = record w { manager = (add_session s w.manager).1 }
  run_call (abandon id player) w = (handle_player_abandoned x id player w).1
  run_call (apply_play id player tile left) w = (apply_play_tile x id player tile left w).1
  run_call (apply_draw id player) w = (apply_draw_from_boneyard x id player w).1
  run_call (apply_pass id player) w = (apply_pass_turn x id player w).1
  run_call (start id setup) w = (apply_replicated_start_match x id setup w).1
  run_call (turn id a) w = (apply_replicated_turn x id a w).1
  run_call (evaluate id) w = (evaluate_and_maybe_finalize x id w).1
  run_call (ledger u) w = (apply_replicated_ledger_balance x u w).1
  run_call (restore snapshot) w = record w { manager = restore_sessions snapshot w.manager }
  run_call (restore_ledger profiles) w = record w {
    manager = restore_ledger_profiles profiles w.manager;
  }

  unfoldable pub run_calls : List (Call F) → World F W B → World F W B
  unfolding run_call
  run_calls [] w = w
  run_calls (c ∷ more) w = run_calls more (run_call c w)

  write_found-IsValid :
      (id player : String) (r : Outcome GameSession × World F W B)
      → IsFound x id r
      → IsValidWorld (write_found x id (abandon_player id player) r).1
  unfolding write_found written
  write_found-IsValid id player (failed e, w) f = f.valid
  write_found-IsValid id player (done s, w) f = go (abandon_player id player s) (
      Alike-IsSession id s (abandon_player id player s).1 (abandon_player-Alike id player s)
        (f.good s refl))
    where
      go :
          (p : Outcome (Unit {0}) × GameSession)
          → IsSession id p.1
          → IsValidWorld (written x id p w).1
      go (failed e, t) good = write_session-IsValid id t w f.valid good
      go (done _, t) good = write_session-IsValid id t w f.valid good

  abandon-IsValid :
      (id player : String) (w : World F W B)
      → GivesBoards x
      → IsValidWorld w
      → IsValidWorld (handle_player_abandoned x id player w).1
  unfolding handle_player_abandoned with_session_write
  abandon-IsValid id player w boards v = go (with_session_write x id (abandon_player id player) w) (
      write_found-IsValid id player (lookup_session x id w)
        (lookup_session-IsFound x id w boards v))
    where
      go :
          (r : Outcome (Unit {0}) × World F W B)
          → IsValidWorld r.1
          → IsValidWorld (evaluate_after x id r).1
      go (failed e, w') v' = v'
      go (done _, w') v' = evaluate-IsValid x id w' boards v'

  found_created-IsFound :
      (id : String) (w : World F W B) (r : Outcome GameSession × GameManager F)
      → GivesBoards x
      → IsValid r.1.sessions
      → IsFound x id (found_created x id w r)
  unfolding found_created
  found_created-IsFound id w (failed e, m) boards v = record {
    valid = v;
    good = λ s q. absurd (cc q);
  }
  found_created-IsFound id w (done _, m) boards v =
      lookup_session-IsFound x id (record w { manager = m }) boards v

  or_create-IsFound :
      (id : String) (uids : List String) (r : Outcome GameSession × World F W B)
      → GivesBoards x
      → IsFound x id r
      → IsFound x id (or_create x id uids r)
  unfolding or_create create_and_lookup
  or_create-IsFound id uids (done s, w) boards f = f
  or_create-IsFound id uids (failed e, w) boards f =
      found_created-IsFound id w (create_session id uids w.manager) boards
        (create_session-IsValid id uids w.manager f.valid)

  start_found-IsValid :
      (id : String) (setup : ReplicatedMatchSetup) (r : Outcome GameSession × World F W B)
      → IsFound x id r
      → IsValidWorld (start_found x id setup r).1
  unfolding start_found
  start_found-IsValid id setup (failed e, w) f = f.valid
  start_found-IsValid id setup (done s, w) f =
      go (prepare_match x id setup s) (prepare_match-IsSession x id setup s (f.good s refl))
    where
      go :
          (p : Outcome (Unit {0}) × GameSession)
          → IsSession id p.1
          → IsValidWorld (save_prepared x id p w).1
      go (failed e, t) good = write_session-IsValid id t w f.valid good
      go (done _, t) good = write_session-IsValid id t w f.valid good

  start-IsValid :
      (id : String) (setup : ReplicatedMatchSetup) (w : World F W B)
      → GivesBoards x
      → IsValidWorld w
      → IsValidWorld (apply_replicated_start_match x id setup w).1
  unfolding apply_replicated_start_match
  start-IsValid id setup w boards v = elim (Bool-cases (str_eq id "")) [
    | inl e ↦ rw (e, apply_replicated_start_match) v
    | inr e ↦ elim (Bool-cases (is_empty setup.player_uids)) [
      | inl f ↦ rw (e, f, apply_replicated_start_match) v
      | inr f ↦
          rw (e, f, apply_replicated_start_match)
            (start_found-IsValid id setup (or_create x id setup.player_uids (lookup_session x id w))
              (or_create-IsFound id setup.player_uids (lookup_session x id w) boards
                (lookup_session-IsFound x id w boards v)))
    ]
  ]

  bootstrap-IsValid :
      (w : World F W B) → IsValidWorld w → IsValidWorld (bootstrap_active_sessions x w).1
  unfolding bootstrap_active_sessions
  bootstrap-IsValid w v = elim (Option-cases (x.list_active_session_ids w.store).0) [
    | inl e ↦ rw (e, bootstrap_active_sessions) v
    | inr (ids, e) ↦
        rw (e, bootstrap_active_sessions)
          (subst IsValid (sym (note_recovered-sessions ids w.manager)) v)
  ]

  run_call-IsValid :
      (c : Call F) (w : World F W B)
      → GivesBoards x
      → IsProper c
      → IsValidWorld w
      → IsValidWorld (run_call c w)
  unfolding run_call evict_session add_session set_game_engine restore_ledger_profiles
      apply_play_tile apply_draw_from_boneyard apply_pass_turn apply_replicated_turn
  run_call-IsValid (set_engine engine) w boards p v = v
  run_call-IsValid bootstrap w boards p v = bootstrap-IsValid w v
  run_call-IsValid (create id uids) w boards p v = create_session-IsValid id uids w.manager v
  run_call-IsValid (get id) w boards p v = get_session-IsValid x id w boards v
  run_call-IsValid (evict id) w boards p v = delete_key-IsValid id w.manager.sessions v
  run_call-IsValid (add none) w boards p v = v
  run_call-IsValid (add (some s)) w boards p v = add_session-IsValid s w.manager v p
  run_call-IsValid (abandon id player) w boards p v = abandon-IsValid id player w boards v
  run_call-IsValid (apply_play id player tile left) w boards p v =
      process_turn-IsValid x id (action play player tile left) w boards p v
  run_call-IsValid (apply_draw id player) w boards p v =
      process_turn-IsValid x id (action draw player no_tile false) w boards
        (omega arith, omega arith) v
  run_call-IsValid (apply_pass id player) w boards p v =
      process_turn-IsValid x id (action pass player no_tile false) w boards
        (omega arith, omega arith) v
  run_call-IsValid (start id setup) w boards p v = start-IsValid id setup w boards v
  run_call-IsValid (turn id a) w boards p v = process_turn-IsValid x id a w boards p v
  run_call-IsValid (evaluate id) w boards p v = evaluate-IsValid x id w boards v
  run_call-IsValid (ledger u) w boards p v = ledger-IsValid x u w v
  run_call-IsValid (restore snapshot) w boards p v = restore_sessions-IsValid snapshot w.manager p
  run_call-IsValid (restore_ledger profiles) w boards p v = v

  -- Whatever exported methods of a manager are called, in whatever order, each session in memory stands
  -- under its own id, which is not empty, and its board is a chain with the open values at its ends; if
  -- that holds before, if the boards of sessions that the repository gives back, that are added or that
  -- are restored from a snapshot are such chains, if the snapshot has each session under its own id, and
  -- if no played tile has a negative value. Failures of the repository and the broker are included.
  pub run_calls-IsValid :
      (calls : List (Call F)) (w : World F W B)
      → GivesBoards x
      → All IsProper calls
      → IsValid w.manager.sessions
      → IsValid (run_calls calls w).manager.sessions
  unfolding run_calls
  run_calls-IsValid [] w boards p v = v
  run_calls-IsValid (c ∷ more) w boards p v =
      run_calls-IsValid more (run_call c w) boards p.1 (run_call-IsValid c w boards p.0 v)
