-- ===== src/Gateway/Mutate.antt =====
-- pkg/gateway/match_gateway.go: POST /match/mutate.
use domino_jc_project.Prelude.{
  String, str_eq, Bool, true, false, not, ◌||◌, Option, none, some, ◌⊎◌, inl, inr, if◌then◌else◌,
}
use domino_jc_project.Models.Session.{GameSession}
use domino_jc_project.Consensus.Node.{Bytes}
use domino_jc_project.Consensus.Command.{apply_turn, ApplyTurnPayload}
use domino_jc_project.Consensus.Wait.{WaitError}
use domino_jc_project.Engine.Fsm.{ApplyResult}
use domino_jc_project.Gateway.Cluster.{
  Raw, apply_error, confirmed, nil_result, Cluster, encode_command_with_payload,
}
use domino_jc_project.Gateway.SessionCache.{get, put}
use domino_jc_project.Gateway.Reply.{
  MatchMutateRequest, MatchMutateResponse, mutated, mutate_failed, Inbound, Outside, MatchGateway,
  answer, forward_mutate_to_leader, write_proposal_error,
}
use domino_jc_project.Gateway.Handle.{
  session_cache_key, session_player_known, not_in_match, validate_mutate_request,
  decode_action_data, mask_apply_result_for_player, Handled, refuse, moved, with_body, guarded,
}

abbrev pub key_of : MatchMutateRequest → String
key_of req = session_cache_key req.client_id req.sequence_number

module _ {F A : Type 0} (x : Outside) (cluster : Cluster F A) where
  abbrev pub masked : MatchMutateRequest → MatchGateway F A → Option (ApplyResult F) → Handled F A
  masked req g none = refuse 400 not_in_match g
  masked req g (some r) =
      let response : MatchMutateResponse F = record { idempotent_replay = false; result = r } in
      (answer 200 (mutated response), record g { cache = put (key_of req) response g.cache })

  abbrev pub turn_proposed : MatchMutateRequest → MatchGateway F A → WaitError ⊎ Raw F → Handled F A
  turn_proposed req g (inl e) = (write_proposal_error x cluster e, g)
  turn_proposed req g (inr (apply_error text)) = (answer 500 (mutate_failed text), g)
  turn_proposed req g (inr nil_result) =
      (answer 409 (mutate_failed "mutation returned no confirmation"), g)
  turn_proposed req g (inr (confirmed r)) =
      masked req g (mask_apply_result_for_player r (x.trim req.player_id))

  abbrev pub propose_bytes :
      (WaitError ⊎ Raw F → MatchGateway F A → Handled F A)
      → MatchGateway F A
      → Option Bytes
      → Handled F A
  propose_bytes next g none = refuse 500 "failed to encode mutation" g
  propose_bytes next g (some command) = moved g next (cluster.propose_and_wait command g.cluster)

  abbrev pub apply_action :
      MatchMutateRequest → MatchGateway F A → String ⊎ ApplyTurnPayload → Handled F A
  apply_action req g (inl e) = refuse 400 e g
  apply_action req g (inr p) =
      propose_bytes (λ r g'. turn_proposed req g' r) g
        (encode_command_with_payload x.writer apply_turn req.match_id (x.writer.write_apply_turn p))

  abbrev pub looked_up :
      MatchMutateRequest → MatchGateway F A → Option (MatchMutateResponse F) → Handled F A
  looked_up req g (some kept) = (answer 200 (mutated (record kept { idempotent_replay = true })), g)
  looked_up req g none = apply_action req g (decode_action_data x req.action_data)

  unfoldable pub process_local_mutate : MatchMutateRequest → MatchGateway F A → Handled F A
  unfolding session_cache_key mask_apply_result_for_player decode_action_data write_proposal_error
      encode_command_with_payload get put
  process_local_mutate req g = looked_up req g (get (key_of req) g.cache)

  abbrev scoped : String → Option GameSession × A → Bool × A
  scoped p (none, a) = (true, a)
  scoped p (some s, a) = (session_player_known s p, a)

  unfoldable pub validate_mutate_player_scope : MatchMutateRequest → MatchGateway F A → Bool × A
  unfolding session_player_known
  validate_mutate_player_scope req g =
      if str_eq (x.trim req.player_id) "" || not g.has_manager
      then (true, g.cluster)
      else scoped (x.trim req.player_id) (cluster.get_session req.match_id g.cluster)

  abbrev pub in_scope : Inbound → Bytes → MatchMutateRequest → Bool → MatchGateway F A → Handled F A
  in_scope r body req false g = refuse 400 not_in_match g
  in_scope r body req true g =
      if cluster.is_leader g.cluster
      then process_local_mutate req g
      else (forward_mutate_to_leader x cluster g r body, g)

  abbrev valid_mutate :
      Inbound → Bytes → MatchMutateRequest → MatchGateway F A → Option String → Handled F A
  valid_mutate r body req g (some e) = refuse 400 e g
  valid_mutate r body req g none =
      moved g (in_scope r body req) (validate_mutate_player_scope req g)

  abbrev read_mutate_request :
      Inbound → MatchGateway F A → Bytes → Option MatchMutateRequest → Handled F A
  read_mutate_request r g body none = refuse 400 "invalid JSON payload" g
  read_mutate_request r g body (some req) =
      valid_mutate r body req g (validate_mutate_request x req)

  unfoldable pub handle_mutate : Inbound → MatchGateway F A → Handled F A
  unfolding validate_mutate_request validate_mutate_player_scope process_local_mutate
      forward_mutate_to_leader
  handle_mutate r g =
      guarded "POST" r g
        (with_body (λ body. read_mutate_request r g body (x.read_mutate body)) g r.body)
