-- ===== src/Engine/Loop.antt =====
-- pkg/game/loop.go: the events that a turn publishes, and the defaults of the workers that read them.
use domino_jc_project.Prelude.{
  String, str_eq, Bool, Option, none, some, List, [], ℤ, leb_ℤ, eqb_ℤ, pos, if◌then◌else◌,
}
use Prim.Native.String.{◌++◌ as str_append}
use domino_jc_project.Models.Session.{GameSession, Status}
use domino_jc_project.Models.Evaluate.{MatchOutcome}
use domino_jc_project.Models.Turn.{TurnResult}

pub record MatchEndedPayload : Type 0 where
  pub session_id : String
  pub outcome : MatchOutcome
  pub players : List String
  pub session : Option GameSession

pub record MatchmakingUpdatePayload : Type 0 where
  pub session_id : String
  pub status : Status
  pub players : List String
  pub current_turn : String

pub record PlayerNotificationPayload : Type 0 where
  pub session_id : String
  pub player_id : String
  pub kind : String
  pub message : String

pub data Payload : Type 0 where
  match_ended : MatchEndedPayload → Payload
  matchmaking_update : MatchmakingUpdatePayload → Payload
  player_notification : PlayerNotificationPayload → Payload

-- The topic that the code publishes a payload under.
unfoldable pub topic : Payload → String
topic (match_ended _) = "match.ended"
topic (matchmaking_update _) = "matchmaking.update"
topic (player_notification _) = "player.notification"

pub data LoopError : Type 0 where
  not_configured no_session : LoopError
  no_outcome : String → LoopError
  publish_failed : LoopError

-- The interface broker.Broker: what a publication does to its state, and whether it gives no error.
pub record Broker (B : Type 0) : Type 0 where
  pub publish_event : String → Payload → B → Bool × B

-- `broker` tells whether the engine has one.
pub record GameEngine : Type 0 where
  pub broker : Bool

pub record TickRequest : Type 0 where
  pub session : Option GameSession
  pub result : Option TurnResult

-- What a call does to the broker's state, and its error.
abbrev pub Publishing : Type 0 → Type 0
Publishing B = B → Option LoopError × B

module _ {B : Type 0} where
  unfoldable pub stop : LoopError → Publishing B
  stop e b = (some e, b)

  unfoldable pub done : Publishing B
  done b = (none, b)

  -- `if err := f(); err != nil { return err }`, then `g`.
  unfoldable pub and_then : Publishing B → Publishing B → Publishing B
  and_then f g b = let (e, b') = f b in elim e [ none ↦ g b' | some x ↦ (some x, b') ]

unfoldable pub turn_notice : GameSession → Payload
turn_notice s = player_notification (record {
  session_id = s.session_id;
  player_id = s.current_turn;
  kind = "turn_changed";
  message = str_append "it is now " (str_append s.current_turn "'s turn");
})

unfoldable pub win_notice : String → String → Payload
win_notice session_id winner = player_notification (record {
  session_id = session_id;
  player_id = winner;
  kind = "match_won";
  message = str_append "player " (str_append winner (str_append " won match " session_id));
})

unfoldable pub ending : String → MatchOutcome → Option GameSession → Payload
ending session_id outcome session = match_ended (record {
  session_id = session_id;
  outcome = outcome;
  players = elim session [ none ↦ [] | some s ↦ s.players ];
  session = session;
})

unfoldable pub lobby_update : GameSession → Payload
lobby_update s = matchmaking_update (record {
  session_id = s.session_id;
  status = s.status;
  players = s.players;
  current_turn = s.current_turn;
})

module _ {B : Type 0} (broker : Broker B) where
  unfoldable pub publish : Payload → Publishing B
  unfolding topic
  publish p b =
      let (fine, b') = broker.publish_event (topic p) p b in
      (if fine then none else some publish_failed, b')

  -- The payload holds the session itself in the code; here it is what the session is at that time.
  unfoldable pub end_match :
      GameEngine → String → Option MatchOutcome → Option GameSession → Publishing B
  unfolding publish and_then stop done win_notice ending
  end_match e session_id outcome session =
      if e.broker
      then elim outcome [
        | none ↦ stop (no_outcome session_id)
        | some o ↦
            and_then (publish (ending session_id o session))
              (if str_eq o.winner_id "" then done else publish (win_notice session_id o.winner_id))
      ]
      else stop not_configured

  unfoldable pub end_if_over : GameEngine → GameSession → Option TurnResult → Publishing B
  unfolding end_match done
  end_if_over e s none = done
  end_if_over e s (some r) =
      if r.match_ended then end_match e s.session_id r.outcome (some s) else done

  unfoldable pub tick_session : GameEngine → GameSession → Option TurnResult → Publishing B
  unfolding publish and_then done end_if_over turn_notice lobby_update
  tick_session e s result = and_then (publish (lobby_update s)) (
      and_then (if str_eq s.current_turn "" then done else publish (turn_notice s))
        (end_if_over e s result))

  unfoldable pub tick : GameEngine → TickRequest → Publishing B
  unfolding stop tick_session
  tick e req =
      if e.broker
      then elim req.session [ none ↦ stop no_session | some s ↦ tick_session e s req.result ]
      else stop not_configured

-- The sizes and delays of the worker pools; a delay is in milliseconds.
pub record WorkerConfig : Type 0 where
  pub match_ended_workers : ℤ
  pub matchmaking_update_workers : ℤ
  pub player_notification_workers : ℤ
  pub match_ended_delay : ℤ
  pub matchmaking_update_delay : ℤ
  pub player_notification_delay : ℤ

abbrev pub default_worker_config : WorkerConfig
default_worker_config = record {
  match_ended_workers = pos 2;
  matchmaking_update_workers = pos 2;
  player_notification_workers = pos 2;
  match_ended_delay = pos 500;
  matchmaking_update_delay = pos 200;
  player_notification_delay = pos 100;
}

abbrev or_default : Bool → ℤ → ℤ → ℤ
or_default unset default given = if unset then default else given

unfoldable pub with_defaults : WorkerConfig → WorkerConfig
with_defaults c =
    let d = default_worker_config in
    record {
      match_ended_workers =
          or_default (eqb_ℤ c.match_ended_workers (pos 0)) d.match_ended_workers
            c.match_ended_workers;
      matchmaking_update_workers =
          or_default (eqb_ℤ c.matchmaking_update_workers (pos 0)) d.matchmaking_update_workers
            c.matchmaking_update_workers;
      player_notification_workers =
          or_default (eqb_ℤ c.player_notification_workers (pos 0)) d.player_notification_workers
            c.player_notification_workers;
      match_ended_delay =
          or_default (leb_ℤ c.match_ended_delay (pos 0)) d.match_ended_delay c.match_ended_delay;
      matchmaking_update_delay =
          or_default (leb_ℤ c.matchmaking_update_delay (pos 0)) d.matchmaking_update_delay
            c.matchmaking_update_delay;
      player_notification_delay =
          or_default (leb_ℤ c.player_notification_delay (pos 0)) d.player_notification_delay
            c.player_notification_delay;
    }
