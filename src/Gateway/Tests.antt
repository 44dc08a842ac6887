-- ===== src/Gateway/Tests.antt =====
-- Gateways over a log of what was proposed, and over a node of their own.
use domino_jc_project.Prelude.{
  ℕ, ◌≤◌, ◌≡◌, refl, String, true, false, none, [], ◌∷◌, inr, pos, arith,
}
use domino_jc_project.Models.Session.{GameSession, active, new_game_session}
use domino_jc_project.Consensus.Node.{leader, new_raft_node, is_leader, ApplyOutcome}
use domino_jc_project.Consensus.Apply.{Machine}
use domino_jc_project.Consensus.Events.{handle_all}
use domino_jc_project.Consensus.Wait.{
  ensure_linearizable_read, begin_read_index, confirm_leadership_for_read, confirm_with,
  wait_for_read_index,
}
use domino_jc_project.Consensus.Wait.Fresh.{Confirms}
use domino_jc_project.Engine.Manager.{
  Services, World, get_session, new_game_manager, empty_session_id,
}
use domino_jc_project.Engine.Fsm.{ManagedResult, engine_error}
use domino_jc_project.Gateway.SessionCache.{new_session_cache, get}
use domino_jc_project.Gateway.SessionCache.Bounds.{new_session_cache-IsCache}
use domino_jc_project.Gateway.Reply.{
  Inbound, MatchMutateRequest, MatchMutateResponse, Outside, MatchGateway, mutated, answer,
}
use domino_jc_project.Gateway.Mutate.{process_local_mutate}
use domino_jc_project.Gateway.Read.{show_state, process_local_state, handle_state}
use domino_jc_project.Gateway.Once.{mutate_all, process_local_mutate_once}
use domino_jc_project.Gateway.Secret.{from_player, holding, handle_state-Hides}
use domino_jc_project.Gateway.Node.{Process, first_of, process_cluster, deaf}
use domino_jc_project.Gateway.FreshRead.{cluster, process_local_state-IsFresh}
use domino_jc_project.Gateway.OwnTests.{no_tile, writer, json, applied, scribe}

abbrev outside : Outside
outside = record {
  trim = λ s. s;
  trim_right_slash = λ s. s;
  has_prefix = λ s t. false;
  encode_query = λ m p. "";
  text_of = λ e. "";
  can_request = λ o. true;
  do_request = λ o. none;
  is_blank = λ b. false;
  read_create = λ b. none;
  read_mutate = λ b. none;
  read_action =
      λ b. inr (record { kind = "PASS"; player_id = "a"; tile = no_tile; play_at_left = false });
  entropy = none;
  writer = writer;
}

abbrev gateway_over : {A : Type 0} → A → MatchGateway (Unit {0}) A
gateway_over a = record {
  has_raft = true;
  has_manager = true;
  cache = new_session_cache 10;
  http_peer_addresses = none;
  cluster = a;
}

abbrev mutation : ℕ → MatchMutateRequest
mutation n = record {
  client_id = "c";
  sequence_number = n;
  match_id = "m";
  player_id = "a";
  action_data = 0 ∷ [];
}

abbrev first : MatchMutateResponse (Unit {0})
first = record { idempotent_replay = false; result = applied }

it_succeeds :
    (process_local_mutate outside scribe (mutation 1) (gateway_over [])).0
    ≡ answer 200 (mutated first)
unfolding process_local_mutate new_session_cache get
it_succeeds = refl

process_local_mutate_once_example :
    process_local_mutate outside scribe (mutation 1) (
      mutate_all outside scribe
        (mutation 2 ∷ [])
        (process_local_mutate outside scribe (mutation 1) (gateway_over [])).1)
    ≡ (
      answer 200 (mutated (record first { idempotent_replay = true })),
      mutate_all outside scribe
          (mutation 2 ∷ [])
          (process_local_mutate outside scribe (mutation 1) (gateway_over [])).1,
    )
process_local_mutate_once_example =
    process_local_mutate_once outside scribe (mutation 1) (mutation 2 ∷ []) (gateway_over []) first
      (new_session_cache-IsCache 10, unfold new_session_cache in omega arith) it_succeeds refl

abbrev with_pool : ℕ → GameSession
with_pool n = record (new_game_session "m" ("a" ∷ "b" ∷ [])) {
  status = active;
  hands = [];
  boneyard = record no_tile { value_left = pos n } ∷ [];
}

abbrev state_request : Inbound
state_request = record {
  method = "GET";
  match_id = "m";
  player_id = "a";
  trace_id = "";
  body = none;
}

handle_state-Hides_example :
    (handle_state outside (holding outside scribe (with_pool 3)) state_request (gateway_over [])).0
    ≡ (handle_state outside
        (holding outside scribe (with_pool 4))
        state_request
        (gateway_over [])).0
handle_state-Hides_example =
    handle_state-Hides outside scribe state_request (with_pool 3) (with_pool 4) (gateway_over []) (
      from_player refl (
        unfold new_game_session in
        record {
          hands = tt;
          boneyard = refl;
          uid = refl;
          session_id = refl;
          status = refl;
          players = refl;
          game_board = refl;
          left_open_value = refl;
          right_open_value = refl;
          current_turn = refl;
          mutations_locked = refl;
        }))

abbrev services : Services (Unit {0}) (Unit {0}) (Unit {0})
services = record {
  save_session = λ s w. (true, w);
  get_session = λ id w. (none, w);
  list_active_session_ids = λ w. (none, w);
  update_player_careers = λ ps w. (true, w);
  broker = record { publish_event = λ t p b. (true, b) };
  is_positive = λ f. true;
  deterministic_seed = λ id. 7;
  intn = λ seed n i. 0;
}

abbrev GameWorld : Type 0
GameWorld = World (Unit {0}) (Unit {0}) (Unit {0})

abbrev machine : Machine GameWorld (ManagedResult (Unit {0})) (Unit {0})
machine = record {
  json = json;
  fsm_apply = λ b s. (engine_error empty_session_id, s);
  create_snapshot = λ s. none;
  restore = λ b s. none;
  persist_snapshot = λ i t b d. none;
  truncate_log = λ es r d. none;
  load_snapshot = λ d. none;
  load_log = λ d. none;
}

abbrev alone : Process (Unit {0}) (Unit {0}) (Unit {0}) (Unit {0})
alone = record {
  node =
      record (new_raft_node "n1" (("n1", "h1") ∷ [])
        (record { manager = new_game_manager; store = tt; bus = tt })) {
          state = leader;
          current_term = 1;
        };
  schedules = record deaf { looks = [] ∷ [] } ∷ [];
}

abbrev no_text : ApplyOutcome (ManagedResult (Unit {0})) → String
no_text o = ""

the_read_is_answered :
    (process_local_state outside
      (cluster outside services machine no_text)
      "m"
      "a"
      (gateway_over alone)).0.status
    ≡ 200
unfolding process_local_state process_cluster ensure_linearizable_read begin_read_index
    confirm_leadership_for_read confirm_with wait_for_read_index new_raft_node handle_all
    get_session new_game_manager
the_read_is_answered = refl

process_local_state-IsFresh_example :
    let s = first_of alone.schedules in
    let n = (ensure_linearizable_read machine s.answers s.events s.looks alone.node).1 in
    let after =
      process_local_state outside
        (cluster outside services machine no_text)
        "m"
        "a"
        (gateway_over alone) in
    (is_leader alone.node.state ≡ true)
    × Confirms alone.node.current_term s.answers (handle_all machine s.events alone.node)
    × (alone.node.commit_index ≤ n.last_applied)
    × (after.0
        ≡ show_state outside
            (cluster outside services machine no_text)
            after.1
            "m"
            "a"
            (get_session services "m" n.fsm).0)
process_local_state-IsFresh_example =
    process_local_state-IsFresh outside services machine no_text "m" "a" (gateway_over alone)
      the_read_is_answered
