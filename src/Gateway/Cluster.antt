-- ===== src/Gateway/Cluster.antt =====
-- What pkg/gateway uses of pkg/consensus and pkg/engine, as an interface over a state `A` of both. A proposal
-- comes back with what Apply returned: an error, a result, or nil.
use domino_jc_project.Prelude.{ℕ, String, Bool, Option, none, some, ◌⊎◌}
use domino_jc_project.Models.Session.{GameSession}
use domino_jc_project.Consensus.Node.{Bytes}
use domino_jc_project.Consensus.Command.{Op, Command, ApplyTurnPayload, StartMatchPayload}
use domino_jc_project.Consensus.Wait.{WaitError, Reason}
use domino_jc_project.Engine.Fsm.{ApplyResult}

pub data Raw (F : Type 0) : Type 0 where
  apply_error : String → Raw F
  confirmed : ApplyResult F → Raw F
  nil_result : Raw F

pub record Cluster (F A : Type 0) : Type 0 where
  pub node_id : A → String
  pub is_leader : A → Bool
  pub leader_endpoint : A → Reason ⊎ (String × String)
  pub propose_and_wait : Bytes → A → (WaitError ⊎ Raw F) × A
  pub ensure_linearizable_read : A → Option WaitError × A
  pub get_session : String → A → Option GameSession × A
  pub snapshot_index : A → ℕ
  pub uncompacted_log_entries : A → ℕ

-- encoding/json for what is proposed.
pub record Writer : Type 0 where
  pub write_command : Command → Option Bytes
  pub write_apply_turn : ApplyTurnPayload → Option Bytes
  pub write_start_match : StartMatchPayload → Option Bytes
  pub write_debug_noop : String → Option Bytes

-- `none` is a payload that cannot be marshalled.
unfoldable pub encode_command_with_payload : Writer → Op → String → Option Bytes → Option Bytes
encode_command_with_payload w op match_id none = none
encode_command_with_payload w op match_id (some raw) =
    w.write_command (record { op = op; match_id = match_id; payload = raw })
