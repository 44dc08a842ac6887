-- ===== src/Gateway/Replicated.antt =====
-- pkg/gateway/session.go: the actions of the WebSocket router as proposals to the cluster.
use domino_jc_project.Prelude.{
  ℕ, String, str_eq, Bool, false, not, ◌&&◌, Option, none, some, List, pos, ◌⊎◌, inl, inr,
  if◌then◌else◌,
}
use domino_jc_project.Models.Tile.{DominoTile}
use domino_jc_project.Consensus.Command.{apply_turn, ApplyTurnPayload}
use domino_jc_project.Consensus.Wait.{WaitError, redirected}
use domino_jc_project.Engine.Fsm.{ApplyResult}
use domino_jc_project.Gateway.Cluster.{
  Raw, apply_error, confirmed, nil_result, Cluster, Writer, encode_command_with_payload,
}
use domino_jc_project.Ws.Router.{GameActionHandler}

pub record RedirectMetadata : Type 0 where
  pub leader_id : String
  pub leader_address : String

pub data ActionError : Type 0 where
  encode_failed not_confirmed : ActionError
  redirectable : RedirectMetadata → WaitError → ActionError
  not_proposed : WaitError → ActionError
  rejected : String → ActionError

-- An error is one of the redirects that name a leader and its address, or stays what it is.
unfoldable pub map_proposal_error : WaitError → ActionError
map_proposal_error (redirected e) =
    if not (str_eq e.leader_id "") && not (str_eq e.leader_address "")
    then redirectable (record { leader_id = e.leader_id; leader_address = e.leader_address })
        (redirected e)
    else not_proposed (redirected e)
map_proposal_error e = not_proposed e

abbrev pub no_tile : DominoTile
no_tile = record { uid = ""; id = ""; value_left = pos 0; value_right = pos 0 }

abbrev pub turn_payload : String → String → DominoTile → Bool → ApplyTurnPayload
turn_payload kind player_id tile left = record {
  kind = kind;
  player_id = player_id;
  tile = tile;
  play_at_left = left;
}

module _ {F : Type 0} where
  unfoldable pub confirmed_turn : WaitError ⊎ Raw F → ActionError ⊎ ApplyResult F
  unfolding map_proposal_error
  confirmed_turn (inl e) = inl (map_proposal_error e)
  confirmed_turn (inr (apply_error text)) = inl (rejected text)
  confirmed_turn (inr (confirmed r)) = inr r
  confirmed_turn (inr nil_result) = inl not_confirmed

  abbrev pub error_of : ActionError ⊎ ApplyResult F → Option ActionError
  error_of (inl e) = some e
  error_of (inr r) = none

module _ {F A : Type 0} (w : Writer) (cluster : Cluster F A) where
  abbrev pub proposed : (WaitError ⊎ Raw F) × A → (ActionError ⊎ ApplyResult F) × A
  proposed (r, a) = (confirmed_turn r, a)

  abbrev pub propose_encoded : Option (List ℕ) → A → (ActionError ⊎ ApplyResult F) × A
  propose_encoded none a = (inl encode_failed, a)
  propose_encoded (some command) a = proposed (cluster.propose_and_wait command a)

  unfoldable pub propose_turn : String → ApplyTurnPayload → A → (ActionError ⊎ ApplyResult F) × A
  propose_turn session_id p a =
      propose_encoded (encode_command_with_payload w apply_turn session_id (w.write_apply_turn p)) a

  abbrev pub failing : (ActionError ⊎ ApplyResult F) × A → Option ActionError × A
  failing (r, a) = (error_of r, a)

  -- The actions, by the error that each returns; the router does not look at their other results.
  unfoldable pub replicated_game_handler : GameActionHandler ActionError A
  replicated_game_handler = record {
    apply_play_tile =
        λ s p tile left a. failing (propose_turn s (turn_payload "PLAY_TILE" p tile left) a);
    apply_draw_from_boneyard =
        λ s p a. failing (propose_turn s (turn_payload "DRAW" p no_tile false) a);
    apply_pass_turn = λ s p a. failing (propose_turn s (turn_payload "PASS" p no_tile false) a);
    get_session = cluster.get_session;
  }
