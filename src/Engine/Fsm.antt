-- ===== src/Engine/Fsm.antt =====
-- ManagedGameFSM of pkg/consensus/fsm.go, with the payloads of commands.go that it reads: committed
-- commands run through the manager, and the snapshot of what it holds. The manager is never nil here.
use domino_jc_project.Prelude.{
  ℕ, ◌+◌, ◌%◌, String, Bool, false, not, ◌||◌, Option, none, some, [], ◌∷◌, ◌++◌, ℤ, ltb, ◌==◌,
  StringMap, length, if◌then◌else◌,
}
use domino_jc_project.Models.Session.{GameSession}
use domino_jc_project.Models.Turn.{TurnResult}
use domino_jc_project.Consensus.Node.{Bytes}
use domino_jc_project.Consensus.Command.{
  Json, Op, start_match, apply_turn, ledger_balance, debug_noop, Command, StartMatchPayload,
  ApplyTurnPayload, Decoded, ok, err, DecodeError, missing_payload, missing_player_id, require,
  unmarshal, has_bytes, named, ◌>>=◌, ◌>>◌, decode_command, decode_start_match_payload,
  decode_apply_turn_payload, to_turn_action,
}
use domino_jc_project.Consensus.Fsm.{
  fsm_snapshot_magic, fsm_snapshot_version, put_uint32, get_uint32, io_read_full,
}
use domino_jc_project.Engine.Manager.{
  PlayerStatsUpdate, Services, World, GameManager, Outcome, done, failed, EngineError, get_session,
}
use domino_jc_project.Engine.Replicated.{
  ReplicatedMatchSetup, apply_replicated_start_match, apply_replicated_turn,
  apply_replicated_ledger_balance, snapshot_sessions, restore_sessions, ledger_profiles,
  restore_ledger_profiles,
}

pub record LedgerBalancePayload (F : Type 0) : Type 0 where
  pub player_id : String
  pub elo : F
  pub peak_elo : F
  pub elo_delta : F
  pub matches_played : ℤ
  pub wins : ℤ
  pub losses : ℤ

pub record ManagedSnapshot (F : Type 0) : Type 0 where
  pub sessions : StringMap (Option GameSession)
  pub ledger : StringMap (PlayerStatsUpdate F)

-- encoding/json and encoding/gob for what this state machine reads and writes.
pub record Codec (F : Type 0) : Type 0 where
  pub json : Json
  pub read_ledger : Bytes → Option (LedgerBalancePayload F)
  pub write_gob : ManagedSnapshot F → Option Bytes
  pub read_gob : Bytes → Option (ManagedSnapshot F)

pub record ApplyResult (F : Type 0) : Type 0 where
  pub op : Op
  pub match_id : String
  pub applied : Bool
  pub turn : Option TurnResult
  pub session : Option GameSession
  pub ledger : Option (PlayerStatsUpdate F)

-- What `Apply` returns.
pub data ManagedResult (F : Type 0) : Type 0 where
  undecodable : DecodeError → ManagedResult F
  engine_error : EngineError → ManagedResult F
  unknown_op : Op → ManagedResult F
  result : ApplyResult F → ManagedResult F

module _ {F : Type 0} where
  unfoldable pub to_stats_update : String → LedgerBalancePayload F → PlayerStatsUpdate F
  to_stats_update match_id p = record {
    session_id = match_id;
    match_id = match_id;
    player_id = p.player_id;
    elo = p.elo;
    peak_elo = p.peak_elo;
    matches_played = p.matches_played;
    wins = p.wins;
    losses = p.losses;
    elo_delta = p.elo_delta;
    won = false;
  }

  abbrev plain : Op → String → ApplyResult F
  plain op id = record {
    op = op;
    match_id = id;
    applied = false;
    turn = none;
    session = none;
    ledger = none;
  }

abbrev pub to_setup : StartMatchPayload → ReplicatedMatchSetup
to_setup p = record {
  player_uids = p.player_uids;
  setup_game = p.setup_game;
  tiles_per_hand = p.tiles_per_hand;
}

module _ {F : Type 0} (c : Codec F) where
  unfoldable pub decode_ledger_balance_payload : Bytes → Decoded (LedgerBalancePayload F)
  decode_ledger_balance_payload payload = do
    require (has_bytes payload) missing_payload
    out ← unmarshal (c.read_ledger payload)
    require (named out.player_id) missing_player_id
    ok out

module _ {F W B : Type 0} (x : Services F W B) where
  unfoldable pub apply_start :
      String → Decoded StartMatchPayload → World F W B → ManagedResult F × World F W B
  unfolding apply_replicated_start_match
  apply_start id (err e) w = (undecodable e, w)
  apply_start id (ok p) w =
      let (r, w') = apply_replicated_start_match x id (to_setup p) w in
      (
        elim r [
          | failed e ↦ engine_error e
          | done s ↦ result (record (plain start_match id) { session = some s })
        ],
        w',
      )

  -- `Apply` reads the session again for its answer.
  unfoldable pub report_turn :
      String → Outcome TurnResult × World F W B → ManagedResult F × World F W B
  unfolding get_session
  report_turn id (failed e, w) = (engine_error e, w)
  report_turn id (done t, w) =
      let (s, w') = get_session x id w in
      (
        result (record (plain apply_turn id) { applied = t.applied; turn = some t; session = s }),
        w',
      )

  unfoldable pub apply_player_turn :
      String → Decoded ApplyTurnPayload → World F W B → ManagedResult F × World F W B
  unfolding apply_replicated_turn report_turn to_turn_action
  apply_player_turn id (err e) w = (undecodable e, w)
  apply_player_turn id (ok p) w = report_turn id (apply_replicated_turn x id (to_turn_action p) w)

  unfoldable pub apply_ledger :
      String → Decoded (LedgerBalancePayload F) → World F W B → ManagedResult F × World F W B
  unfolding apply_replicated_ledger_balance to_stats_update
  apply_ledger id (err e) w = (undecodable e, w)
  apply_ledger id (ok p) w =
      let (r, w') = apply_replicated_ledger_balance x (to_stats_update id p) w in
      (
        elim r [
          | failed e ↦ engine_error e
          | done u ↦ result (record (plain ledger_balance id) { ledger = some u })
        ],
        w',
      )

module _ {F W B : Type 0} (x : Services F W B) (c : Codec F) where
  unfoldable pub apply_managed_command : Command → World F W B → ManagedResult F × World F W B
  unfolding apply_start apply_player_turn apply_ledger decode_start_match_payload
      decode_apply_turn_payload decode_ledger_balance_payload
  apply_managed_command cmd w = elim cmd.op [
    | start_match ↦ apply_start x cmd.match_id (decode_start_match_payload c.json cmd.payload) w
    | apply_turn ↦ apply_player_turn x cmd.match_id (decode_apply_turn_payload c.json cmd.payload) w
    | ledger_balance ↦ apply_ledger x cmd.match_id (decode_ledger_balance_payload c cmd.payload) w
    | debug_noop ↦ (result (plain debug_noop ""), w)
    | op ↦ (unknown_op op, w)
  ]

  unfoldable pub apply_managed : Bytes → World F W B → ManagedResult F × World F W B
  unfolding apply_managed_command decode_command
  apply_managed log_entry w = elim (decode_command c.json log_entry) [
    | err e ↦ (undecodable e, w)
    | ok cmd ↦ apply_managed_command cmd w
  ]

module _ {F : Type 0} (c : Codec F) where
  unfoldable pub encode_managed_fsm_snapshot : ManagedSnapshot F → Option Bytes
  unfolding put_uint32
  encode_managed_fsm_snapshot snap = elim (c.write_gob snap) [
    | none ↦ none
    | some payload ↦ some (
        put_uint32 fsm_snapshot_magic
        ++ ((fsm_snapshot_version + 1) ∷ (put_uint32 (length payload % 4294967296) ++ payload)))
  ]

  -- What follows the magic number.
  decode_body : ℕ → Bytes → Option (ManagedSnapshot F)
  unfolding get_uint32 io_read_full
  decode_body magic [] = none
  decode_body magic (version ∷ bs) =
      if not (magic == fsm_snapshot_magic) || not (version == fsm_snapshot_version + 1)
      then none
      else elim (get_uint32 bs) [
        | none ↦ none
        | some (size, bs) ↦ elim (io_read_full size bs) [
          | none ↦ none
          | some (payload, _) ↦ c.read_gob payload
        ]
      ]

  unfoldable pub decode_managed_fsm_snapshot : Bytes → Option (ManagedSnapshot F)
  unfolding get_uint32 decode_body
  decode_managed_fsm_snapshot snapshot =
      if ltb (length snapshot) 9
      then none
      else elim (get_uint32 snapshot) [ none ↦ none | some (magic, bs) ↦ decode_body magic bs ]

  unfoldable pub create_snapshot : GameManager F → Option Bytes
  unfolding snapshot_sessions ledger_profiles encode_managed_fsm_snapshot
  create_snapshot m =
      encode_managed_fsm_snapshot
        (record { sessions = snapshot_sessions m; ledger = ledger_profiles m })

  -- `none` where the snapshot does not decode; the manager stays as it is.
  unfoldable pub restore : Bytes → GameManager F → Option (GameManager F)
  unfolding decode_managed_fsm_snapshot restore_sessions restore_ledger_profiles
  restore snapshot m = elim (decode_managed_fsm_snapshot snapshot) [
    | none ↦ none
    | some snap ↦ some (restore_ledger_profiles snap.ledger (restore_sessions snap.sessions m))
  ]
