-- ===== src/Gateway/Read.antt =====
-- pkg/gateway/match_gateway.go: GET /match/state and GET /match/read.
use domino_jc_project.Prelude.{String, str_eq, true, false, not, Option, none, some, if◌then◌else◌}
use domino_jc_project.Models.Session.{GameSession}
use domino_jc_project.Models.View.{view_for_player}
use domino_jc_project.Consensus.Wait.{WaitError}
use domino_jc_project.Gateway.Cluster.{Cluster}
use domino_jc_project.Gateway.Reply.{
  state_of, stranger, read_of, Response, Inbound, Outside, MatchGateway, answer, node_state,
  forward_state_to_leader, write_proposal_error,
}
use domino_jc_project.Gateway.Handle.{session_player_known, Handled, refuse, moved, guarded}

module _ {F A : Type 0} (x : Outside) (cluster : Cluster F A) where
  abbrev pub show_state : MatchGateway F A → String → String → Option GameSession → Response F
  show_state g id p o = answer 200 (
      state_of (record {
        match_id = id;
        player_id = p;
        found = (elim o [ none ↦ false | some s ↦ true ]);
        session = (elim o [ none ↦ none | some s ↦ some (view_for_player s p) ]);
        node_id = cluster.node_id g.cluster;
        state = node_state x cluster g;
      }))

  abbrev pub state_read : String → String → Option GameSession → MatchGateway F A → Handled F A
  state_read id p none g = (show_state g id p none, g)
  state_read id p (some s) g =
      if session_player_known s p
      then (show_state g id p (some s), g)
      else (answer 400 (stranger id p), g)

  abbrev pub barrier_passed : String → String → Option WaitError → MatchGateway F A → Handled F A
  barrier_passed id p (some e) g = (write_proposal_error x cluster e, g)
  barrier_passed id p none g = moved g (state_read id p) (cluster.get_session id g.cluster)

  unfoldable pub process_local_state : String → String → MatchGateway F A → Handled F A
  unfolding session_player_known view_for_player node_state write_proposal_error
  process_local_state id p g =
      moved g (barrier_passed id p) (cluster.ensure_linearizable_read g.cluster)

  unfoldable pub handle_state : Inbound → MatchGateway F A → Handled F A
  unfolding process_local_state forward_state_to_leader
  handle_state r g = guarded "GET" r g (
      if not g.has_manager
      then refuse 503 "game manager is not configured" g
      else if str_eq (x.trim r.match_id) ""
      then refuse 400 "match_id is required" g
      else if str_eq (x.trim r.player_id) ""
      then refuse 400 "player_id is required" g
      else if not (cluster.is_leader g.cluster)
      then (forward_state_to_leader x cluster g r (x.trim r.match_id) (x.trim r.player_id), g)
      else process_local_state (x.trim r.match_id) (x.trim r.player_id) g)

  abbrev pub session_read : String → Option GameSession → MatchGateway F A → Handled F A
  session_read id o g = (
    answer 200 (
        read_of (record {
          match_id = id;
          found = (elim o [ none ↦ false | some s ↦ true ]);
          session = o;
          node_id = if g.has_raft then cluster.node_id g.cluster else "";
          state = node_state x cluster g;
        })),
    g,
  )

  -- The whole session, for any caller.
  unfoldable pub handle_read : Inbound → MatchGateway F A → Handled F A
  unfolding node_state
  handle_read r g =
      if not (str_eq r.method "GET")
      then refuse 405 "method not allowed" g
      else if not g.has_manager
      then refuse 503 "game manager is not configured" g
      else if str_eq (x.trim r.match_id) ""
      then refuse 400 "match_id is required" g
      else moved g (session_read (x.trim r.match_id))
          (cluster.get_session (x.trim r.match_id) g.cluster)
