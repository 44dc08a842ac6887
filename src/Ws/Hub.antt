-- ===== src/Ws/Hub.antt =====
-- pkg/ws/hub.go: the hub's maps and what each message of its loop does to them, with the client of client.go.
-- A client is known by its place in a store that only grows, and so is a timer. `none` is a panic: a send on
-- a closed channel, or a channel that is closed twice. Logging, and the queues in front of the loop but that
-- of the abandonments, are left out.
use domino_jc_project.Prelude.{
  ℕ, ltb, String, Bool, true, false, Option, none, some, List, [], ◌∷◌, ◌++◌, length, get_elem?,
  set, if◌then◌else◌,
}
use domino_jc_project.Models.Session.{GameSession, Status}
use domino_jc_project.Models.Evaluate.{EndReason, Scores}
use domino_jc_project.Consensus.Node.{Bytes}
use domino_jc_project.Engine.Manager.{PlayerStatsUpdate}
use domino_jc_project.Ws.Nested.{Nested, find_in, put_in, delete_in}

pub data ConnectionStatus : Type 0 where
  connected disconnected abandoned : ConnectionStatus

pub record PlayerConnection : Type 0 where
  pub status : ConnectionStatus
  pub timer : Option ℕ

-- A client with its channel `send`.
pub record Client : Type 0 where
  pub session_id : String
  pub player_id : String
  pub queue : List Bytes
  pub is_closed : Bool

-- A timer of `time.AfterFunc`, which fires at most once and not after it is stopped.
pub record Timer : Type 0 where
  pub session_id : String
  pub player_id : String
  pub is_running : Bool

pub record AbandonmentEvent : Type 0 where
  pub session_id : String
  pub player_id : String

pub record SessionDelta : Type 0 where
  pub match_id : String
  pub op : String
  pub applied : Bool
  pub session : Bytes
  pub turn : Bytes

pub record SessionDeltaPayload : Type 0 where
  pub session_id : String
  pub match_id : String
  pub op : String
  pub applied : Bool
  pub session : Bytes
  pub turn : Bytes

pub record MatchEndPayload : Type 0 where
  pub session_id : String
  pub winner_id : String
  pub reason : EndReason
  pub scores : Scores
  pub status : Status

-- A player node with the fields that the hub sets.
pub record Player : Type 0 where
  pub d_type : List String
  pub player_id : String

-- A match record with the fields that `NewMatchRecord` sets, at a time of the clock.
pub record MatchRecord : Type 0 where
  pub d_type : List String
  pub match_id : String
  pub winner : String
  pub scores : String
  pub end_time : ℕ
  pub end_reason : EndReason
  pub players : List Player

-- What the hub calls: JSON, and a GameActionHandler and a MatchLedger over a game in state `A`. Either of
-- the two may be nil.
pub record Outside (F A : Type 0) : Type 0 where
  pub write_envelope : String → Bytes → Option Bytes
  pub write_session : GameSession → Option Bytes
  pub read_session : Bytes → Option GameSession
  pub write_delta : SessionDeltaPayload → Option Bytes
  pub write_stats : PlayerStatsUpdate F → Option Bytes
  pub write_match_end : MatchEndPayload → Option Bytes
  pub write_scores : Scores → Option String
  pub has_actions : Bool
  pub get_session : String → A → Option GameSession × A
  pub handle_player_abandoned : String → String → A → A
  pub has_ledger : Bool
  pub enqueue : MatchRecord → A → A

pub record Hub (A : Type 0) : Type 0 where
  pub clients : Nested ℕ
  pub sockets : List Client
  pub player_states : Nested PlayerConnection
  pub pending_stats : Nested (List Bytes)
  pub abandon : List AbandonmentEvent
  pub timers : List Timer
  pub game : A

abbrev pub send_buffer_size : ℕ
send_buffer_size = 256

abbrev pub abandon_buffer_size : ℕ
abandon_buffer_size = 64

infixl 5 ◌>>=◌
abbrev pub ◌>>=◌ : {A B : Type 0} → Option A → (A → Option B) → Option B
none >>= f = none
some a >>= f = f a

abbrev pub new_connection : PlayerConnection
new_connection = record { status = connected; timer = none }

abbrev stop_at : ℕ → List Timer → List Timer
stop_at k timers = elim (get_elem? timers k) [
  | none ↦ timers
  | some t ↦ set timers k (record t { is_running = false })
]

-- `cancelReconnectTimerLocked`: the timers after it. The state then has none.
unfoldable pub cancel_reconnect_timer : PlayerConnection → List Timer → List Timer
cancel_reconnect_timer state timers = elim state.timer [ none ↦ timers | some k ↦ stop_at k timers ]

abbrev queue_abandonment : AbandonmentEvent → List AbandonmentEvent → List AbandonmentEvent
queue_abandonment event queue =
    if ltb (length queue) abandon_buffer_size then queue ++ event ∷ [] else queue

module _ {A : Type 0} where
  unfoldable pub new_hub : A → Hub A
  new_hub game = record {
    clients = [];
    sockets = [];
    player_states = [];
    pending_stats = [];
    abandon = [];
    timers = [];
    game = game;
  }

  unfoldable pub put_socket : ℕ → Client → Hub A → Hub A
  put_socket i c h = record h { sockets = set h.sockets i c }

  unfoldable pub offer_to : ℕ → Client → Bytes → Hub A → Option (Bool × Hub A)
  unfolding put_socket
  offer_to i c payload h =
      if c.is_closed
      then none
      else some (
          if ltb (length c.queue) send_buffer_size
          then (true, put_socket i (record c { queue = c.queue ++ payload ∷ [] }) h)
          else (false, h))

  -- `select` with a send and a default: whether there was room.
  unfoldable pub offer : ℕ → Bytes → Hub A → Option (Bool × Hub A)
  unfolding offer_to
  offer i payload h = elim (get_elem? h.sockets i) [ none ↦ none | some c ↦ offer_to i c payload h ]

  unfoldable pub close_found : ℕ → Client → Hub A → Option (Hub A)
  unfolding put_socket
  close_found i c h =
      if c.is_closed then none else some (put_socket i (record c { is_closed = true }) h)

  unfoldable pub close_socket : ℕ → Hub A → Option (Hub A)
  unfolding close_found
  close_socket i h = elim (get_elem? h.sockets i) [ none ↦ none | some c ↦ close_found i c h ]

  -- `sendToPlayer` and `sendToPlayerLocked`.
  unfoldable pub send_to_player : String → String → Bytes → Hub A → Option (Hub A)
  unfolding find_in offer
  send_to_player session player payload h = elim (find_in session player h.clients) [
    | none ↦ some h
    | some i ↦ offer i payload h >>= λ r. some r.1
  ]

  -- The state of a player, which is made where there is none: the writes that follow put it in place.
  unfoldable pub ensure_player_state : String → String → Hub A → PlayerConnection
  unfolding find_in
  ensure_player_state session player h = elim (find_in session player h.player_states) [
    | none ↦ new_connection
    | some state ↦ state
  ]

  unfoldable pub put_state : String → String → PlayerConnection → Hub A → Hub A
  unfolding put_in
  put_state session player state h = record h {
    player_states = put_in session player state h.player_states;
  }

  -- The state gets a new timer.
  unfoldable pub schedule_reconnect_timer : String → String → PlayerConnection → Hub A → Hub A
  unfolding cancel_reconnect_timer put_state
  schedule_reconnect_timer session player state h =
      let timers = cancel_reconnect_timer state h.timers in
      put_state session player (record state { timer = some (length timers) })
        (record h {
          timers =
              timers ++ record { session_id = session; player_id = player; is_running = true } ∷ [];
        })

  -- The function of a timer.
  unfoldable pub timer_fires : ℕ → Hub A → Hub A
  timer_fires k h = elim (get_elem? h.timers k) [
    | none ↦ h
    | some t ↦
        if t.is_running
        then record h {
          timers = set h.timers k (record t { is_running = false });
          abandon =
              queue_abandonment (record { session_id = t.session_id; player_id = t.player_id })
                h.abandon;
        }
        else h
  ]

  -- The loop of `flushPendingStatsLocked`: whether all were sent.
  unfoldable pub flush_frames : ℕ → List Bytes → Hub A → Option (Bool × Hub A)
  unfolding offer
  flush_frames i [] h = some (true, h)
  flush_frames i (frame ∷ frames) h = do
    r ← offer i frame h
    if r.0 then flush_frames i frames r.1 else some (false, r.1)

  unfoldable pub forget_pending : String → String → Bool × Hub A → Option (Hub A)
  unfolding delete_in
  forget_pending session player (all, h) =
      some
        (if all then record h { pending_stats = delete_in session player h.pending_stats } else h)

  -- What was sent before the buffer was full stays pending too.
  unfoldable pub flush_pending_stats : String → String → Hub A → Option (Hub A)
  unfolding find_in flush_frames forget_pending
  flush_pending_stats session player h = elim (find_in session player h.pending_stats) [
    | none ↦ some h
    | some pending ↦ elim (find_in session player h.clients) [
      | none ↦ some h
      | some i ↦ flush_frames i pending h >>= forget_pending session player
    ]
  ]

  unfoldable pub buffer_stats : String → String → Bytes → Hub A → Hub A
  unfolding find_in put_in
  buffer_stats session player frame h =
      let old : List Bytes = elim (find_in session player h.pending_stats) [
        | none ↦ []
        | some frames ↦ frames
      ] in
      record h { pending_stats = put_in session player (old ++ frame ∷ []) h.pending_stats }

  unfoldable pub buffer_unless : String → String → Bytes → Bool × Hub A → Option (Hub A)
  unfolding buffer_stats
  buffer_unless session player frame (sent, h) =
      some (if sent then h else buffer_stats session player frame h)

  unfoldable pub deliver_or_buffer_stats : String → String → Bytes → Hub A → Option (Hub A)
  unfolding find_in offer buffer_unless buffer_stats
  deliver_or_buffer_stats session player frame h = elim (find_in session player h.clients) [
    | none ↦ some (buffer_stats session player frame h)
    | some i ↦ offer i frame h >>= buffer_unless session player frame
  ]
