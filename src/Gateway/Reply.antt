-- ===== src/Gateway/Reply.antt =====
-- pkg/gateway/match_gateway.go: requests, responses, and requests that go on to the leader. A response is what
-- is written before JSON makes text of it. The functions on texts and the HTTP client are parameters.
use domino_jc_project.Prelude.{
  ℕ, String, str_eq, Bool, true, false, ◌||◌, Option, none, some, List, [], ◌⊎◌, inl, inr,
  if◌then◌else◌, StringMap, find_key,
}
use Prim.Native.String.{◌++◌ as str_append}
use domino_jc_project.Models.Tile.{DominoTile}
use domino_jc_project.Models.Session.{GameSession}
use domino_jc_project.Consensus.Node.{Bytes}
use domino_jc_project.Consensus.Command.{StartMatchPayload}
use domino_jc_project.Consensus.Wait.{WaitError, LeaderRedirectError, redirected, Reason}
use domino_jc_project.Engine.Fsm.{ApplyResult}
use domino_jc_project.Gateway.Cluster.{Cluster, Writer}
use domino_jc_project.Gateway.SessionCache.{SessionCache}

pub record MatchActionData : Type 0 where
  pub kind : String
  pub player_id : String
  pub tile : DominoTile
  pub play_at_left : Bool

-- The rest of a MatchCreateRequest is the payload of the command.
pub record MatchCreateRequest : Type 0 where
  pub match_id : String
  pub setup : StartMatchPayload

pub record MatchMutateRequest : Type 0 where
  pub client_id : String
  pub sequence_number : ℕ
  pub match_id : String
  pub player_id : String
  pub action_data : Bytes

pub record MatchMutateResponse (F : Type 0) : Type 0 where
  pub idempotent_replay : Bool
  pub result : ApplyResult F

pub record MatchStateResponse : Type 0 where
  pub match_id : String
  pub player_id : String
  pub found : Bool
  pub session : Option GameSession
  pub node_id : String
  pub state : String

pub record MatchReadResponse : Type 0 where
  pub match_id : String
  pub found : Bool
  pub session : Option GameSession
  pub node_id : String
  pub state : String

pub record FillLogResponse : Type 0 where
  pub ok : Bool
  pub proposed : ℕ
  pub snapshot_index : ℕ
  pub uncompacted_entries : ℕ
  pub node_id : String
  pub error : String

-- What the leader answered, passed on as it is.
pub record Relayed : Type 0 where
  pub status : ℕ
  pub headers : List (String × String)
  pub body : Bytes

pub data Body (F : Type 0) : Type 0 where
  error : String → Body F
  leader_unavailable : Reason → (node_id state : String) → Body F
  proxy_failed : (leader_id forward_to : String) → Body F
  redirect : LeaderRedirectError → Body F
  created : String → Body F
  create_failed : String → Body F
  mutated : MatchMutateResponse F → Body F
  mutate_failed : String → Body F
  state_of : MatchStateResponse → Body F
  stranger : (match_id player_id : String) → Body F
  read_of : MatchReadResponse → Body F
  filled : FillLogResponse → Body F
  relayed : Relayed → Body F

pub record Response (F : Type 0) : Type 0 where
  pub status : ℕ
  pub retry_after : Bool
  pub body : Body F

-- A request that comes in, its body `none` if it cannot be read, and one that goes out.
pub record Inbound : Type 0 where
  pub method : String
  pub match_id : String
  pub player_id : String
  pub trace_id : String
  pub body : Option Bytes

pub record Outbound : Type 0 where
  pub method : String
  pub url : String
  pub is_json : Bool
  pub trace_id : String
  pub body : Bytes

pub record Outside : Type 0 where
  pub trim : String → String
  pub trim_right_slash : String → String
  pub has_prefix : String → String → Bool
  pub encode_query : String → String → String
  pub text_of : WaitError → String
  pub can_request : Outbound → Bool
  pub do_request : Outbound → Option Relayed
  pub is_blank : Bytes → Bool
  pub read_create : Bytes → Option MatchCreateRequest
  pub read_mutate : Bytes → Option MatchMutateRequest
  pub read_action : Bytes → String ⊎ MatchActionData
  pub entropy : Option String
  pub writer : Writer

-- `none` is no map of addresses.
pub record MatchGateway (F A : Type 0) : Type 0 where
  pub has_raft : Bool
  pub has_manager : Bool
  pub cache : SessionCache (MatchMutateResponse F)
  pub http_peer_addresses : Option (StringMap String)
  pub cluster : A

module _ {F : Type 0} where
  abbrev pub answer : ℕ → Body F → Response F
  answer status body = record { status = status; retry_after = false; body = body }

  abbrev pub unavailable : Body F → Response F
  unavailable body = record { status = 503; retry_after = true; body = body }

module _ (x : Outside) where
  unfoldable pub normalize_http_base : String → String
  normalize_http_base given =
      let addr = x.trim given in
      if str_eq addr ""
      then ""
      else if x.has_prefix addr "http://" || x.has_prefix addr "https://"
      then x.trim_right_slash addr
      else str_append "http://"
          (if x.has_prefix addr ":" then str_append "localhost" addr else addr)

  abbrev known_base : Option String → Option String
  known_base none = none
  known_base (some base) = if str_eq base "" then none else some base

  abbrev find_base : String → Option (StringMap String) → Option String
  unfolding find_key
  find_base leader_id none = none
  find_base leader_id (some addrs) = known_base (find_key leader_id addrs)

  unfoldable pub leader_http_base : String → String → Option (StringMap String) → String
  unfolding normalize_http_base find_key
  leader_http_base leader_id raft_addr addrs = elim (find_base leader_id addrs) [
    | some base ↦ normalize_http_base base
    | none ↦ normalize_http_base raft_addr
  ]

module _ {F A : Type 0} (x : Outside) (cluster : Cluster F A) where
  unfoldable pub node_state : MatchGateway F A → String
  node_state g =
      if g.has_raft then (if cluster.is_leader g.cluster then "Leader" else "Follower") else ""

  abbrev relay : String → String → Option Relayed → Response F
  relay leader_id url none = unavailable (proxy_failed leader_id url)
  relay leader_id url (some r) = answer r.status (relayed r)

  abbrev send : String → Outbound → Response F
  send leader_id o =
      if x.can_request o
      then relay leader_id o.url (x.do_request o)
      else answer 500 (error "failed to build leader proxy request")

  abbrev pub forward_to :
      MatchGateway F A → (String → Outbound) → Reason ⊎ (String × String) → Response F
  forward_to g out (inl reason) =
      unavailable (leader_unavailable reason (cluster.node_id g.cluster) (node_state g))
  forward_to g out (inr (leader_id, raft_addr)) =
      send leader_id
        (out (x.trim_right_slash (leader_http_base x leader_id raft_addr g.http_peer_addresses)))

  unfoldable pub forward : MatchGateway F A → (String → Outbound) → Response F
  forward g out = forward_to g out (cluster.leader_endpoint g.cluster)

  unfoldable pub forward_state_to_leader : MatchGateway F A → Inbound → String → String → Response F
  unfolding forward
  forward_state_to_leader g r match_id player_id = forward g (λ base. record {
    method = "GET";
    url = str_append base (str_append "/match/state?" (x.encode_query match_id player_id));
    is_json = false;
    trace_id = r.trace_id;
    body = [];
  })

  abbrev post : Inbound → Bool → Bytes → String → String → Outbound
  post r is_json body path base = record {
    method = "POST";
    url = str_append base path;
    is_json = is_json;
    trace_id = r.trace_id;
    body = body;
  }

  unfoldable pub forward_create_to_leader : MatchGateway F A → Inbound → Bytes → Response F
  unfolding forward
  forward_create_to_leader g r body = forward g (post r true body "/match/create")

  unfoldable pub forward_mutate_to_leader : MatchGateway F A → Inbound → Bytes → Response F
  unfolding forward
  forward_mutate_to_leader g r body = forward g (post r true body "/match/mutate")

  unfoldable pub forward_fill_log_to_leader : MatchGateway F A → Inbound → Response F
  unfolding forward
  forward_fill_log_to_leader g r = forward g (post r false [] "/debug/fill-log")

  unfoldable pub write_proposal_error : WaitError → Response F
  write_proposal_error (redirected e) = unavailable (redirect e)
  write_proposal_error e = answer 500 (mutate_failed (x.text_of e))
