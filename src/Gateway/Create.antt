-- ===== src/Gateway/Create.antt =====
-- pkg/gateway/match_gateway.go: POST /match/create.
use domino_jc_project.Prelude.{
  String, str_eq, Option, none, some, [], ◌∷◌, ◌⊎◌, inl, inr, if◌then◌else◌,
}
use Prim.Native.String.{◌++◌ as str_append}
use domino_jc_project.Consensus.Node.{Bytes}
use domino_jc_project.Consensus.Command.{start_match}
use domino_jc_project.Consensus.Wait.{WaitError}
use domino_jc_project.Gateway.Cluster.{
  Raw, apply_error, confirmed, nil_result, Cluster, encode_command_with_payload,
}
use domino_jc_project.Gateway.Reply.{
  MatchCreateRequest, created, create_failed, Inbound, Outside, MatchGateway, answer,
  forward_create_to_leader, write_proposal_error,
}
use domino_jc_project.Gateway.Handle.{
  normalize_create_request, Handled, refuse, moved, with_body, guarded,
}

module _ {F A : Type 0} (x : Outside) (cluster : Cluster F A) where
  abbrev start_proposed : WaitError ⊎ Raw F → MatchGateway F A → Handled F A
  start_proposed (inl e) g = (write_proposal_error x cluster e, g)
  start_proposed (inr (apply_error text)) g = (answer 409 (create_failed text), g)
  start_proposed (inr nil_result) g =
      (answer 409 (create_failed "match create returned no confirmation"), g)
  start_proposed (inr (confirmed r)) g = (answer 201 (created r.match_id), g)

  abbrev create_named : MatchCreateRequest → MatchGateway F A → Option String → Handled F A
  create_named req g none = (answer 500 (create_failed "failed to generate match_id"), g)
  create_named req g (some id) =
      elim (encode_command_with_payload x.writer start_match id
        (x.writer.write_start_match req.setup)) [
          | none ↦ refuse 500 "failed to encode match create" g
          | some command ↦ moved g start_proposed (cluster.propose_and_wait command g.cluster)
        ]

  abbrev generate_match_id : Option String → Option String
  generate_match_id none = none
  generate_match_id (some hex) = some (str_append "match-" hex)

  unfoldable pub process_local_create : MatchCreateRequest → MatchGateway F A → Handled F A
  unfolding encode_command_with_payload write_proposal_error
  process_local_create req g = create_named req g (
      if str_eq (x.trim req.match_id) ""
      then generate_match_id x.entropy
      else some (x.trim req.match_id))

  abbrev normal_create :
      Inbound → Bytes → MatchGateway F A → Option MatchCreateRequest → Handled F A
  normal_create r body g none = refuse 400 "at least one player_uid is required" g
  normal_create r body g (some req) =
      if cluster.is_leader g.cluster
      then process_local_create req g
      else (forward_create_to_leader x cluster g r body, g)

  abbrev read_create_request :
      Inbound → MatchGateway F A → Bytes → Option MatchCreateRequest → Handled F A
  read_create_request r g body none = refuse 400 "invalid JSON payload" g
  read_create_request r g body (some req) = normal_create r body g (normalize_create_request x req)

  -- A blank body is `{}`.
  abbrev or_empty_object : Bytes → Bytes
  or_empty_object body = if x.is_blank body then 123 ∷ 125 ∷ [] else body

  unfoldable pub handle_create : Inbound → MatchGateway F A → Handled F A
  unfolding normalize_create_request process_local_create forward_create_to_leader
  handle_create r g = guarded "POST" r g (
      with_body
        (λ body.
          read_create_request r g (or_empty_object body) (x.read_create (or_empty_object body)))
        g r.body)
