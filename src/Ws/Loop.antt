-- ===== src/Ws/Loop.antt =====
-- pkg/ws/hub.go: what the loop of the hub does for each message.
use domino_jc_project.Prelude.{
  ℕ, ◌==◌, String, str_eq, Bool, true, false, Option, none, some, List, [], ◌∷◌, ◌++◌, StringMap,
  length, get_elem?, if◌then◌else◌,
}
use domino_jc_project.Models.Session.{GameSession}
use domino_jc_project.Models.View.{view_for_player}
use domino_jc_project.Consensus.Node.{Bytes}
use domino_jc_project.Engine.Manager.{PlayerStatsUpdate}
use domino_jc_project.Ws.Nested.{inner, find_in, put_in, delete_in}
use domino_jc_project.Ws.Hub.{
  ConnectionStatus, connected, disconnected, abandoned, PlayerConnection, Client, AbandonmentEvent,
  SessionDelta, Outside, Hub, ◌>>=◌, close_socket, send_to_player, ensure_player_state, put_state,
  cancel_reconnect_timer, schedule_reconnect_timer, flush_pending_stats, deliver_or_buffer_stats,
}

abbrev pub is_disconnected : ConnectionStatus → Bool
is_disconnected disconnected = true
is_disconnected _ = false

abbrev pub is_abandoned : ConnectionStatus → Bool
is_abandoned abandoned = true
is_abandoned _ = false

module _ {A : Type 0} where
  -- `h.clients[session][player] = client`, with the status connected.
  unfoldable pub seat_client : String → String → ℕ → Hub A → Hub A
  unfolding put_in ensure_player_state put_state cancel_reconnect_timer
  seat_client session player i h =
      let state = ensure_player_state session player h in
      let back = is_disconnected state.status in
      put_state session player
        (record { status = connected; timer = if back then none else state.timer })
        (record h {
          clients = put_in session player i h.clients;
          timers = if back then cancel_reconnect_timer state h.timers else h.timers;
        })

  -- An older client of the player is closed first.
  unfoldable pub replace_client : String → String → Hub A → Option (Hub A)
  unfolding find_in close_socket
  replace_client session player h = elim (find_in session player h.clients) [
    | none ↦ some h
    | some j ↦ close_socket j h
  ]

  -- What is left of `unregisterClient` once the client is out of the map and its channel closed.
  unfoldable pub mark_disconnected : String → String → Hub A → Hub A
  unfolding ensure_player_state schedule_reconnect_timer
  mark_disconnected session player h =
      let state = ensure_player_state session player h in
      if is_abandoned state.status
      then h
      else schedule_reconnect_timer session player (record state { status = disconnected }) h

  unfoldable pub remove_client : String → String → ℕ → Hub A → Option (Hub A)
  unfolding close_socket delete_in mark_disconnected
  remove_client session player i h =
      close_socket i (record h { clients = delete_in session player h.clients }) >>= λ h'.
      some (mark_disconnected session player h')

  -- A client that is not the current one of its player is ignored.
  unfoldable pub unregister_found : ℕ → Client → Hub A → Option (Hub A)
  unfolding find_in remove_client
  unregister_found i c h = elim (find_in c.session_id c.player_id h.clients) [
    | none ↦ some h
    | some j ↦ if j == i then remove_client c.session_id c.player_id i h else some h
  ]

  unfoldable pub unregister_client : ℕ → Hub A → Option (Hub A)
  unfolding unregister_found
  unregister_client i h = elim (get_elem? h.sockets i) [
    | none ↦ some h
    | some c ↦ unregister_found i c h
  ]

module _ {F A : Type 0} (x : Outside F A) where
  unfoldable pub marshal_state_snapshot_envelope : GameSession → Option Bytes
  marshal_state_snapshot_envelope s = x.write_session s >>= x.write_envelope "STATE_SNAPSHOT"

  unfoldable pub send_if_some : String → String → Option Bytes → Hub A → Option (Hub A)
  unfolding send_to_player
  send_if_some session player none h = some h
  send_if_some session player (some frame) h = send_to_player session player frame h

  unfoldable pub send_state_snapshot : String → String → Hub A → Option (Hub A)
  unfolding send_if_some marshal_state_snapshot_envelope view_for_player
  send_state_snapshot session player h =
      let (found, game) = x.get_session session h.game in
      elim found [
        | none ↦ some (record h { game = game })
        | some s ↦
            send_if_some session player (marshal_state_snapshot_envelope (view_for_player s player))
              (record h { game = game })
      ]

  unfoldable pub greet_client : String → String → Hub A → Option (Hub A)
  unfolding send_state_snapshot
  greet_client session player h =
      if x.has_actions then send_state_snapshot session player h else some h

  -- `newClient` and `registerClient`: a client is made for each connection and registered once.
  unfoldable pub register_client : String → String → Hub A → Option (Hub A)
  unfolding replace_client seat_client flush_pending_stats greet_client
  register_client session player h = do
    h ← replace_client session player h
    h ← flush_pending_stats session player (
        seat_client session player (length h.sockets) (record h {
          sockets =
              h.sockets
              ++ record { session_id = session; player_id = player; queue = []; is_closed = false }
                ∷ [];
        }))
    greet_client session player h

  -- The first event of the queue. A player who is not disconnected now is left alone.
  unfoldable pub abandon_if_disconnected : AbandonmentEvent → PlayerConnection → Hub A → Hub A
  unfolding put_state
  abandon_if_disconnected event state h =
      if is_disconnected state.status
      then (let h' =
            put_state event.session_id event.player_id (record { status = abandoned; timer = none })
              h in
          if x.has_actions
          then record h' {
            game = x.handle_player_abandoned event.session_id event.player_id h'.game;
          }
          else h')
      else h

  unfoldable pub handle_abandonment : AbandonmentEvent → Hub A → Hub A
  unfolding find_in abandon_if_disconnected
  handle_abandonment event h = elim (find_in event.session_id event.player_id h.player_states) [
    | none ↦ h
    | some state ↦ abandon_if_disconnected event state h
  ]

  unfoldable pub next_abandonment : Hub A → Hub A
  unfolding handle_abandonment
  next_abandonment h = elim h.abandon [
    | [] ↦ h
    | event ∷ rest ↦ handle_abandonment event (record h { abandon = rest })
  ]

  unfoldable pub deliver_stats : String → PlayerStatsUpdate F → Hub A → Option (Hub A)
  unfolding deliver_or_buffer_stats
  deliver_stats session update h =
      elim (x.write_stats update >>= x.write_envelope "PLAYER_STATS_UPDATED") [
        | none ↦ some h
        | some frame ↦ deliver_or_buffer_stats session update.player_id frame h
      ]

  unfoldable pub handle_stats_broadcast :
      String → List (PlayerStatsUpdate F) → Hub A → Option (Hub A)
  unfolding deliver_stats
  handle_stats_broadcast session [] h = some h
  handle_stats_broadcast session (update ∷ updates) h =
      deliver_stats session update h >>= handle_stats_broadcast session updates

  -- The session of a delta as a player may see it; a session that names no id goes out as it is.
  unfoldable pub delta_session : SessionDelta → Option GameSession → String → Option Bytes
  unfolding view_for_player
  delta_session delta none player = some delta.session
  delta_session delta (some s) player =
      if str_eq s.session_id ""
      then some delta.session
      else x.write_session (view_for_player s player)

  unfoldable pub marshal_session_delta_envelope :
      SessionDelta → Option GameSession → String → Option Bytes
  unfolding delta_session
  marshal_session_delta_envelope delta session player = do
    raw ← delta_session delta session player
    payload ← x.write_delta (record {
      session_id = delta.match_id;
      match_id = delta.match_id;
      op = delta.op;
      applied = delta.applied;
      session = raw;
      turn = delta.turn;
    })
    x.write_envelope "SESSION_DELTA" payload

  unfoldable pub send_deltas :
      SessionDelta → Option GameSession → StringMap ℕ → Hub A → Option (Hub A)
  unfolding send_if_some marshal_session_delta_envelope
  send_deltas delta session [] h = some h
  send_deltas delta session ((player, _) ∷ players) h =
      send_if_some delta.match_id player (marshal_session_delta_envelope delta session player) h
      >>= send_deltas delta session players

  -- The session of a delta: `some none` where the delta has none, `none` where it does not decode.
  unfoldable pub decode_session : Bytes → Option (Option GameSession)
  decode_session [] = some none
  decode_session (b ∷ bs) = x.read_session (b ∷ bs) >>= λ s. some (some s)

  unfoldable pub handle_session_broadcast : SessionDelta → Hub A → Option (Hub A)
  unfolding decode_session send_deltas inner
  handle_session_broadcast delta h = elim (decode_session delta.session) [
    | none ↦ some h
    | some session ↦ send_deltas delta session (inner delta.match_id h.clients) h
  ]
