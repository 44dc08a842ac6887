-- ===== src/Gateway/Deltas.antt =====
-- pkg/gateway/session.go and pkg/ws/hub.go: what is applied goes to the hub as deltas, through the channel
-- that its loop reads.
use domino_jc_project.Prelude.{
  ℕ, ltb, String, str_eq, Option, none, some, List, [], ◌∷◌, ◌++◌, length, if◌then◌else◌,
}
use domino_jc_project.Models.Turn.{TurnResult}
use domino_jc_project.Consensus.Node.{Bytes}
use domino_jc_project.Consensus.Command.{
  Op, start_match, apply_turn, ledger_balance, add_node, remove_node, commit_config, debug_noop,
  other,
}
use domino_jc_project.Engine.Fsm.{ApplyResult}
use domino_jc_project.Ws.Hub.{SessionDelta, Outside, ◌>>=◌}

-- An operation as the text that stands for it.
unfoldable pub op_text : Op → String
op_text start_match = "START_MATCH"
op_text apply_turn = "APPLY_TURN"
op_text ledger_balance = "LEDGER_BALANCE"
op_text add_node = "ADD_NODE"
op_text remove_node = "REMOVE_NODE"
op_text commit_config = "COMMIT_CONFIG"
op_text debug_noop = "DEBUG_NOOP"
op_text (other op) = op

-- What is nil, or cannot be written, stays empty.
abbrev pub raw_or_empty : Option Bytes → Bytes
raw_or_empty none = []
raw_or_empty (some raw) = raw

abbrev pub broadcast_buffer_size : ℕ
broadcast_buffer_size = 256

-- A full channel drops the delta.
unfoldable pub notify_session_delta : SessionDelta → List SessionDelta → List SessionDelta
notify_session_delta delta broadcast =
    if str_eq delta.match_id ""
    then broadcast
    else if ltb (length broadcast) broadcast_buffer_size
    then broadcast ++ delta ∷ []
    else broadcast

module _ {F A : Type 0} (x : Outside F A) (write_turn : TurnResult → Option Bytes) where
  unfoldable pub session_delta : ApplyResult F → SessionDelta
  unfolding op_text
  session_delta r = record {
    match_id = r.match_id;
    op = op_text r.op;
    applied = r.applied;
    session = raw_or_empty (r.session >>= x.write_session);
    turn = raw_or_empty (r.turn >>= write_turn);
  }

  -- The notifier that `WireSessionReplication` gives to the node.
  unfoldable pub notify_applied : ApplyResult F → List SessionDelta → List SessionDelta
  unfolding notify_session_delta session_delta
  notify_applied r broadcast = notify_session_delta (session_delta r) broadcast
