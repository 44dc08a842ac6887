-- ===== src/Ws/Router.antt =====
-- pkg/ws/router.go: an inbound message is decoded, its sender is compared with the connection, and one action
-- of the game is called. JSON, the search in a text, the quoting of a name and the actions are parameters.
-- What the hub is to send is returned; a frame that cannot be written is not sent.
use domino_jc_project.Prelude.{
  String, str_eq, Bool, not, Option, none, some, List, [], ◌∷◌, ◌⊎◌, inl, inr, if◌then◌else◌,
}
use domino_jc_project.Consensus.Node.{Bytes}
use domino_jc_project.Models.Tile.{DominoTile, PlayerHand}
use domino_jc_project.Models.Session.{GameSession}
use Prim.Native.String.{◌++◌ as str_append}

pub record InboundMessage : Type 0 where
  pub session_id : String
  pub player_id : String
  pub payload : Bytes

pub record EventEnvelope : Type 0 where
  pub type : String
  pub payload : Bytes

-- The position on the screen is not used.
pub record MovePayload : Type 0 where
  pub session_id : String
  pub player_id : String
  pub tile_id : String
  pub play_at_left : Bool

pub record PlayTilePayload : Type 0 where
  pub session_id : String
  pub player_id : String
  pub tile : DominoTile
  pub play_at_left : Bool

-- DrawPayload, PassPayload, JoinPayload and LeavePayload have the same fields.
pub record ActorPayload : Type 0 where
  pub session_id : String
  pub player_id : String

pub record RouteError : Type 0 where
  pub code : String
  pub message : String

-- A frame that the hub is to send to a player.
pub record Reply : Type 0 where
  pub session_id : String
  pub player_id : String
  pub frame : Bytes

-- The errors `E` of the actions, the metadata `D` of a redirect, and a game in state `A`.
pub record GameActionHandler (E A : Type 0) : Type 0 where
  pub apply_play_tile : String → String → DominoTile → Bool → A → Option E × A
  pub apply_draw_from_boneyard : String → String → A → Option E × A
  pub apply_pass_turn : String → String → A → Option E × A
  pub get_session : String → A → Option GameSession × A

pub record Wire (E D : Type 0) : Type 0 where
  pub read_envelope : Bytes → Option EventEnvelope
  pub read_move : Bytes → Option MovePayload
  pub read_play_tile : Bytes → Option PlayTilePayload
  pub read_actor : Bytes → Option ActorPayload
  pub write_error : String → String → Option Bytes
  pub write_redirect : D → String → Option Bytes
  pub text_of : E → String
  pub as_leader_redirect : E → Option D
  pub is_mutations_locked : E → Bool
  pub contains : String → String → Bool
  pub quote : String → String

abbrev pub refuse_invalid : String → RouteError
refuse_invalid message = record { code = "INVALID_MOVE_FORMAT"; message = message }

unfoldable pub validate_actor : InboundMessage → String → String → Option RouteError
validate_actor msg session_id player_id =
    if str_eq session_id ""
    then some (refuse_invalid "session_id is required in payload")
    else if str_eq player_id ""
    then some (refuse_invalid "player_id is required in payload")
    else if not (str_eq session_id msg.session_id)
    then some (record {
      code = "SESSION_MISMATCH";
      message = "payload session_id does not match connection";
    })
    else if not (str_eq player_id msg.player_id)
    then some (record {
      code = "PLAYER_MISMATCH";
      message = "payload player_id does not match connection";
    })
    else none

abbrev pub find_tile : String → List DominoTile → Option DominoTile
find_tile id [] = none
find_tile id (t ∷ ts) = if str_eq t.id id then some t else find_tile id ts

-- Only the first hand of the player is looked at.
abbrev pub find_in_hands : String → String → List PlayerHand → Option DominoTile
find_in_hands player_id id [] = none
find_in_hands player_id id (h ∷ hs) =
    if str_eq h.player_id player_id then find_tile id h.tiles else find_in_hands player_id id hs

module _ {E D A : Type 0} (w : Wire E D) (actions : GameActionHandler E A)
    (msg : InboundMessage) where
  abbrev is_session_not_found : E → Bool
  is_session_not_found e = w.contains (w.text_of e) "not found"

  abbrev code_of : Option D → E → String
  code_of (some d) e = "LEADER_REDIRECT"
  code_of none e =
      if w.is_mutations_locked e
      then "SESSION_LOCKED"
      else if is_session_not_found e
      then "SESSION_NOT_FOUND"
      else if w.contains (w.text_of e) "timed out waiting for replicated apply"
      then "EVALUATION_FAILED"
      else "MOVE_REJECTED"

  unfoldable pub map_action_error : E → RouteError
  map_action_error e = record { code = code_of (w.as_leader_redirect e) e; message = w.text_of e }

  abbrev pub reply : Option Bytes → List Reply
  reply none = []
  reply (some frame) =
      record { session_id = msg.session_id; player_id = msg.player_id; frame = frame } ∷ []

  -- All errors of the router itself are RouteErrors.
  unfoldable pub send_error : RouteError → List Reply
  send_error e = reply (w.write_error e.code e.message)

  abbrev frame_of : Option D → RouteError → Option Bytes
  frame_of (some d) e = w.write_redirect d e.message
  frame_of none e = w.write_error e.code e.message

  unfoldable pub send_action_error : E → List Reply
  send_action_error e = reply (frame_of (w.as_leader_redirect e) (map_action_error e))

  abbrev pub answer : Option E × A → List Reply × A
  answer (none, a) = ([], a)
  answer (some e, a) = (send_action_error e, a)

  abbrev session_not_found : String → RouteError
  session_not_found id = record {
    code = "SESSION_NOT_FOUND";
    message = str_append "session " (str_append (w.quote id) " not found");
  }

  abbrev tile_or_error : String → Option DominoTile → RouteError ⊎ DominoTile
  tile_or_error id (some t) = inr t
  tile_or_error id none =
      inl (refuse_invalid (str_append "tile " (str_append (w.quote id) " is not in player hand")))

  abbrev pub in_session :
      ActorPayload → String → Option GameSession × A → (RouteError ⊎ DominoTile) × A
  in_session p id (none, a) = (inl (session_not_found p.session_id), a)
  in_session p id (some s, a) = (tile_or_error id (find_in_hands p.player_id id s.hands), a)

  unfoldable pub resolve_tile_from_hand : ActorPayload → String → A → (RouteError ⊎ DominoTile) × A
  resolve_tile_from_hand p id a = in_session p id (actions.get_session p.session_id a)

  -- What follows for a sender that is the connection's.
  abbrev pub as_actor : Option RouteError → (A → List Reply × A) → A → List Reply × A
  as_actor (some e) act a = (send_error e, a)
  as_actor none act a = act a

  abbrev pub actor_of : MovePayload → ActorPayload
  actor_of p = record { session_id = p.session_id; player_id = p.player_id }

  abbrev pub play_resolved : MovePayload → (RouteError ⊎ DominoTile) × A → List Reply × A
  play_resolved p (inl e, a) = (send_error e, a)
  play_resolved p (inr tile, a) =
      answer (actions.apply_play_tile p.session_id p.player_id tile p.play_at_left a)

  abbrev pub move : MovePayload → A → List Reply × A
  move p a =
      if str_eq p.tile_id ""
      then (send_error (refuse_invalid "tile_id is required for PLAYER_MOVE"), a)
      else play_resolved p (resolve_tile_from_hand (actor_of p) p.tile_id a)

  unfoldable pub handle_player_move : Option MovePayload → A → List Reply × A
  handle_player_move none a = (send_error (refuse_invalid "PLAYER_MOVE payload is malformed"), a)
  handle_player_move (some p) a = as_actor (validate_actor msg p.session_id p.player_id) (move p) a

  abbrev pub play : PlayTilePayload → A → List Reply × A
  play p a =
      if str_eq p.tile.id ""
      then (send_error (refuse_invalid "tile_id is required for PLAY_TILE"), a)
      else answer (actions.apply_play_tile p.session_id p.player_id p.tile p.play_at_left a)

  unfoldable pub handle_play_tile : Option PlayTilePayload → A → List Reply × A
  handle_play_tile none a = (send_error (refuse_invalid "PLAY_TILE payload is malformed"), a)
  handle_play_tile (some p) a = as_actor (validate_actor msg p.session_id p.player_id) (play p) a

  unfoldable pub handle_draw_from_boneyard : Option ActorPayload → A → List Reply × A
  handle_draw_from_boneyard none a =
      (send_error (refuse_invalid "DRAW_FROM_BONEYARD payload is malformed"), a)
  handle_draw_from_boneyard (some p) a =
      as_actor (validate_actor msg p.session_id p.player_id)
        (λ b. answer (actions.apply_draw_from_boneyard p.session_id p.player_id b)) a

  unfoldable pub handle_pass_turn : Option ActorPayload → A → List Reply × A
  handle_pass_turn none a = (send_error (refuse_invalid "PASS_TURN payload is malformed"), a)
  handle_pass_turn (some p) a =
      as_actor (validate_actor msg p.session_id p.player_id)
        (λ b. answer (actions.apply_pass_turn p.session_id p.player_id b)) a

  abbrev pub greet : ActorPayload → Option GameSession × A → List Reply × A
  greet p (some s, a) = ([], a)
  greet p (none, a) = (send_error (session_not_found p.session_id), a)

  unfoldable pub handle_join : Option ActorPayload → A → List Reply × A
  handle_join none a = (send_error (refuse_invalid "JOIN payload is malformed"), a)
  handle_join (some p) a =
      as_actor (validate_actor msg p.session_id p.player_id)
        (λ b. greet p (actions.get_session p.session_id b)) a

  unfoldable pub handle_leave : Option ActorPayload → A → List Reply × A
  handle_leave none a = (send_error (refuse_invalid "LEAVE payload is malformed"), a)
  handle_leave (some p) a = as_actor (validate_actor msg p.session_id p.player_id) (λ b. ([], b)) a

  unfoldable pub dispatch : String → Bytes → A → List Reply × A
  dispatch type raw a =
      if str_eq type "PLAYER_MOVE"
      then handle_player_move (w.read_move raw) a
      else if str_eq type "PLAY_TILE"
      then handle_play_tile (w.read_play_tile raw) a
      else if str_eq type "DRAW_FROM_BONEYARD"
      then handle_draw_from_boneyard (w.read_actor raw) a
      else if str_eq type "PASS_TURN"
      then handle_pass_turn (w.read_actor raw) a
      else if str_eq type "JOIN"
      then handle_join (w.read_actor raw) a
      else if str_eq type "LEAVE"
      then handle_leave (w.read_actor raw) a
      else (
        send_error (record {
          code = "UNKNOWN_EVENT_TYPE";
          message = str_append "unsupported event type " (w.quote type);
        }),
        a,
      )

  abbrev invalid_envelope : String → RouteError
  invalid_envelope message = record { code = "INVALID_ENVELOPE"; message = message }

  unfoldable pub opened : Option EventEnvelope → A → List Reply × A
  opened none a = (send_error (invalid_envelope "message is not a valid event envelope"), a)
  opened (some envelope) a =
      if str_eq envelope.type ""
      then (send_error (invalid_envelope "event type is required"), a)
      else dispatch envelope.type envelope.payload a

-- `none` is a router without a handler, which drops the message.
unfoldable pub route :
    {E D A : Type 0}
    → Wire E D
    → Option (GameActionHandler E A)
    → InboundMessage
    → A
    → List Reply × A
route w none msg a = ([], a)
route w (some actions) msg a = opened w actions msg (w.read_envelope msg.payload) a
