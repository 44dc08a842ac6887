-- ===== src/Consensus/Command.antt =====
-- pkg/consensus/commands.go: the commands of the log. JSON is the parameter `Json`: of its encoding of a
-- value the code relies only on reading back what was written.
use domino_jc_project.Prelude.{
  String, Bool, true, false, not, ◌||◌, Option, none, some, List, [], ◌∷◌, ℤ, str_eq, if◌then◌else◌,
}
use domino_jc_project.Consensus.Node.{Bytes}
use domino_jc_project.Models.Tile.{DominoTile}
use domino_jc_project.Models.Turn.{TurnKind, play, draw, pass, unknown, TurnAction}

-- `other` is any string that is none of the constants, the empty one included.
pub data Op : Type 0 where
  start_match apply_turn ledger_balance add_node remove_node commit_config debug_noop : Op
  other : String → Op

pub record Command : Type 0 where
  pub op : Op
  pub match_id : String
  pub payload : Bytes

pub record AddNodeCommand : Type 0 where
  pub node_id : String
  pub address : String

pub record RemoveNodeCommand : Type 0 where
  pub node_id : String

pub record StartMatchPayload : Type 0 where
  pub player_uids : List String
  pub setup_game : Bool
  pub tiles_per_hand : ℤ

pub record ApplyTurnPayload : Type 0 where
  pub kind : String
  pub player_id : String
  pub tile : DominoTile
  pub play_at_left : Bool

-- encoding/json for the types that the log carries.
pub record Json : Type 0 where
  pub write_command : Command → Bytes
  pub read_command : Bytes → Option Command
  pub write_add_node : AddNodeCommand → Bytes
  pub read_add_node : Bytes → Option AddNodeCommand
  pub write_remove_node : RemoveNodeCommand → Bytes
  pub read_remove_node : Bytes → Option RemoveNodeCommand
  pub read_start_match : Bytes → Option StartMatchPayload
  pub read_apply_turn : Bytes → Option ApplyTurnPayload

pub data DecodeError : Type 0 where
  malformed missing_op missing_match_id missing_payload missing_node_id missing_address :
      DecodeError
  missing_kind missing_player_id : DecodeError

pub data Decoded (A : Type 0) : Type 0 where
  ok : A → Decoded A
  err : DecodeError → Decoded A

infixl 5 ◌>>=◌ ◌>>◌
abbrev pub ◌>>=◌ : {A B : Type 0} → Decoded A → (A → Decoded B) → Decoded B
ok a >>= f = f a
err e >>= f = err e

abbrev pub ◌>>◌ : {B : Type 0} → Decoded (Unit {0}) → Decoded B → Decoded B
m >> k = m >>= λ _. k

abbrev pub require : Bool → DecodeError → Decoded (Unit {0})
require true e = ok tt
require false e = err e

abbrev pub unmarshal : {A : Type 0} → Option A → Decoded A
unmarshal none = err malformed
unmarshal (some a) = ok a

abbrev pub has_bytes : Bytes → Bool
has_bytes [] = false
has_bytes (_ ∷ _) = true

abbrev pub named : String → Bool
named s = not (str_eq s "")

unfoldable pub is_membership_op : Op → Bool
is_membership_op add_node = true
is_membership_op remove_node = true
is_membership_op commit_config = true
is_membership_op _ = false

unfoldable pub is_non_match_op : Op → Bool
unfolding is_membership_op
is_non_match_op debug_noop = true
is_non_match_op op = is_membership_op op

abbrev pub op_is_empty : Op → Bool
op_is_empty (other s) = str_eq s ""
op_is_empty _ = false

module _ (json : Json) where
  unfoldable pub decode_command : Bytes → Decoded Command
  unfolding is_non_match_op
  decode_command log_entry = do
    cmd ← unmarshal (json.read_command log_entry)
    require (not (op_is_empty cmd.op)) missing_op
    require (named cmd.match_id || is_non_match_op cmd.op) missing_match_id
    ok cmd

  unfoldable pub decode_add_node_command : Bytes → Decoded AddNodeCommand
  decode_add_node_command payload = do
    require (has_bytes payload) missing_payload
    out ← unmarshal (json.read_add_node payload)
    require (named out.node_id) missing_node_id
    require (named out.address) missing_address
    ok out

  unfoldable pub decode_remove_node_command : Bytes → Decoded RemoveNodeCommand
  decode_remove_node_command payload = do
    require (has_bytes payload) missing_payload
    out ← unmarshal (json.read_remove_node payload)
    require (named out.node_id) missing_node_id
    ok out

  abbrev empty_start_match : StartMatchPayload
  empty_start_match = record { player_uids = []; setup_game = false; tiles_per_hand = ℤ.pos 0 }

  unfoldable pub decode_start_match_payload : Bytes → Decoded StartMatchPayload
  decode_start_match_payload payload =
      if has_bytes payload then unmarshal (json.read_start_match payload) else ok empty_start_match

  unfoldable pub decode_apply_turn_payload : Bytes → Decoded ApplyTurnPayload
  decode_apply_turn_payload payload = do
    require (has_bytes payload) missing_payload
    out ← unmarshal (json.read_apply_turn payload)
    require (named out.kind) missing_kind
    require (named out.player_id) missing_player_id
    ok out

  unfoldable pub encode_add_node_command : String → String → Bytes
  encode_add_node_command node_id address = json.write_command (record {
    op = add_node;
    match_id = "_cluster";
    payload = json.write_add_node (record { node_id = node_id; address = address });
  })

  unfoldable pub encode_remove_node_command : String → Bytes
  encode_remove_node_command node_id = json.write_command (record {
    op = remove_node;
    match_id = "_cluster";
    payload = json.write_remove_node (record { node_id = node_id });
  })

  unfoldable pub encode_commit_config_command : Bytes
  encode_commit_config_command =
      json.write_command (record { op = commit_config; match_id = "_cluster"; payload = [] })

-- `models.TurnKind(p.Kind)`, with the three constants told apart.
unfoldable pub turn_kind : String → TurnKind
turn_kind s =
    if str_eq s "PLAY_TILE"
    then play
    else if str_eq s "DRAW"
    then draw
    else if str_eq s "PASS"
    then pass
    else unknown s

unfoldable pub to_turn_action : ApplyTurnPayload → TurnAction
unfolding turn_kind
to_turn_action p = record {
  kind = turn_kind p.kind;
  player_id = p.player_id;
  tile = p.tile;
  play_at_left = p.play_at_left;
}
