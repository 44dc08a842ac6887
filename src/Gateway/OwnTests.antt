-- ===== src/Gateway/OwnTests.antt =====
-- A WebSocket message over a log of what was proposed.
use domino_jc_project.Prelude.{
  ℕ, ◌≡◌, refl, ap, sym, str_eq, str_eq→eq, Bool, true, false, ◌&&◌, &&-split, none, some, List, [],
  ◌∷◌, ◌⊎◌, inr, pos, eqb_ℤ, eqb_ℤ_iff, if◌then◌else◌, arith, ◌==◌,
}
use domino_jc_project.Models.Tile.{DominoTile}
use domino_jc_project.Consensus.Node.{Bytes}
use domino_jc_project.Consensus.Command.{
  Json, Command, Op, apply_turn, start_match, ledger_balance, add_node, remove_node, commit_config,
  debug_noop, other, ApplyTurnPayload,
}
use domino_jc_project.Engine.Fsm.{Codec, ApplyResult}
use domino_jc_project.Ws.Router.{
  InboundMessage, Wire, route, opened, dispatch, handle_pass_turn, validate_actor,
}
use domino_jc_project.Gateway.Cluster.{confirmed, Cluster, Writer, encode_command_with_payload}
use domino_jc_project.Gateway.Replicated.{
  ActionError, replicated_game_handler, propose_turn, confirmed_turn,
}
use domino_jc_project.Gateway.Carried.{IsReadBack}
use domino_jc_project.Gateway.Own.{Proposes, route-Proposes}

abbrev pub no_tile : DominoTile
no_tile = record { uid = ""; id = ""; value_left = pos 0; value_right = pos 0 }

-- The one turn and the one command that can be written.
abbrev a_passes : ApplyTurnPayload
a_passes = record { kind = "PASS"; player_id = "a"; tile = no_tile; play_at_left = false }

abbrev its_command : Command
its_command = record { op = apply_turn; match_id = "m"; payload = 2 ∷ [] }

abbrev is_blank_tile : DominoTile → Bool
is_blank_tile t =
    ((str_eq t.uid "" && str_eq t.id "") && eqb_ℤ t.value_left (pos 0))
    && eqb_ℤ t.value_right (pos 0)

abbrev is_right : Bool → Bool
is_right true = false
is_right false = true

abbrev is_a_pass : ApplyTurnPayload → Bool
is_a_pass p =
    (str_eq p.kind "PASS" && str_eq p.player_id "a")
    && (is_blank_tile p.tile && is_right p.play_at_left)

abbrev is_two : Bytes → Bool
is_two (n ∷ []) = n == 2
is_two _ = false

abbrev is_turn : Op → Bool
is_turn apply_turn = true
is_turn _ = false

abbrev is_it : Command → Bool
is_it c = (is_turn c.op && str_eq c.match_id "m") && is_two c.payload

abbrev pub writer : Writer
writer = record {
  write_command = λ c. if is_it c then some (1 ∷ []) else none;
  write_apply_turn = λ p. if is_a_pass p then some (2 ∷ []) else none;
  write_start_match = λ s. none;
  write_debug_noop = λ s. none;
}

abbrev pub json : Json
json = record {
  write_command = λ c. [];
  read_command = λ b. some its_command;
  write_add_node = λ c. [];
  read_add_node = λ b. none;
  write_remove_node = λ c. [];
  read_remove_node = λ b. none;
  read_start_match = λ b. none;
  read_apply_turn = λ b. some a_passes;
}

abbrev codec : Codec (Unit {0})
codec = record { json = json; read_ledger = λ b. none; write_gob = λ s. none; read_gob = λ b. none }

tested : (t : Bool) (a b : Bytes) → (if t then some a else none) ≡ some b → t ≡ true
tested true a b e = refl
tested false a b e = absurd (ground (arith, e))

is_two_lem : (b : Bytes) → is_two b ≡ true → 2 ∷ [] ≡ b
is_two_lem [] e = absurd (ground (arith, e))
is_two_lem (n ∷ []) e = ground (arith, e)
is_two_lem (n ∷ k ∷ b) e = absurd (ground (arith, e))

is_turn_lem : (o : Op) → is_turn o ≡ true → apply_turn ≡ o
is_turn_lem apply_turn e = refl
is_turn_lem start_match e = absurd (ground (arith, e))
is_turn_lem ledger_balance e = absurd (ground (arith, e))
is_turn_lem add_node e = absurd (ground (arith, e))
is_turn_lem remove_node e = absurd (ground (arith, e))
is_turn_lem commit_config e = absurd (ground (arith, e))
is_turn_lem debug_noop e = absurd (ground (arith, e))
is_turn_lem (other s) e = absurd (ground (arith, e))

is_right_lem : (b : Bool) → is_right b ≡ true → false ≡ b
is_right_lem true e = absurd (ground (arith, e))
is_right_lem false e = refl

blank_tile_lem : (t : DominoTile) → is_blank_tile t ≡ true → no_tile ≡ t
blank_tile_lem t e =
    let (texts, right) =
      &&-split ((str_eq t.uid "" && str_eq t.id "") && eqb_ℤ t.value_left (pos 0)) _ e in
    let (ids, left) = &&-split (str_eq t.uid "" && str_eq t.id "") _ texts in
    let (uid, id) = &&-split (str_eq t.uid "") (str_eq t.id "") ids in
    λ i. record {
      uid = sym (str_eq→eq t.uid "" uid) i;
      id = sym (str_eq→eq t.id "" id) i;
      value_left = sym ((eqb_ℤ_iff t.value_left (pos 0)).0 left) i;
      value_right = sym ((eqb_ℤ_iff t.value_right (pos 0)).0 right) i;
    }

reads_back : IsReadBack writer json
reads_back = record {
  command = λ c b e.
      let (front, two) = &&-split _ (is_two c.payload) (tested (is_it c) (1 ∷ []) b e) in
      let (o, m) = &&-split (is_turn c.op) (str_eq c.match_id "m") front in
      ap some (λ i. record {
        op = is_turn_lem c.op o i;
        match_id = sym (str_eq→eq c.match_id "m" m) i;
        payload = is_two_lem c.payload two i;
      });
  turn = λ p b e.
      let (named, played) =
        &&-split (str_eq p.kind "PASS" && str_eq p.player_id "a")
          (is_blank_tile p.tile && is_right p.play_at_left) (tested (is_a_pass p) (2 ∷ []) b e) in
      let (k, q) = &&-split (str_eq p.kind "PASS") (str_eq p.player_id "a") named in
      let (t, right) = &&-split (is_blank_tile p.tile) (is_right p.play_at_left) played in
      ap some (λ i. record {
        kind = sym (str_eq→eq p.kind "PASS" k) i;
        player_id = sym (str_eq→eq p.player_id "a" q) i;
        tile = blank_tile_lem p.tile t i;
        play_at_left = is_right_lem p.play_at_left right i;
      });
}

abbrev pub applied : ApplyResult (Unit {0})
applied = record {
  op = apply_turn;
  match_id = "m";
  applied = true;
  turn = none;
  session = none;
  ledger = none;
}

-- A leader that confirms whatever it writes down.
abbrev pub scribe : Cluster (Unit {0}) (List Bytes)
scribe = record {
  node_id = λ a. "n1";
  is_leader = λ a. true;
  leader_endpoint = λ a. inr ("n1", "h1");
  propose_and_wait = λ command a. (inr (confirmed applied), command ∷ a);
  ensure_linearizable_read = λ a. (none, a);
  get_session = λ id a. (none, a);
  snapshot_index = λ a. 0;
  uncompacted_log_entries = λ a. 0;
}

abbrev wire : Wire ActionError ℕ
wire = record {
  read_envelope = λ b. some (record { type = "PASS_TURN"; payload = b });
  read_move = λ b. none;
  read_play_tile = λ b. none;
  read_actor = λ b. some (record { session_id = "m"; player_id = "a" });
  write_error = λ code message. none;
  write_redirect = λ d message. none;
  text_of = λ e. "";
  as_leader_redirect = λ e. none;
  is_mutations_locked = λ e. false;
  contains = λ s t. false;
  quote = λ s. s;
}

abbrev from_a : InboundMessage
from_a = record { session_id = "m"; player_id = "a"; payload = [] }

route-Proposes_example :
    (b : List Bytes) × ((b ≡ []) ⊎ (b ≡ (scribe.get_session "m" []).1))
    × Proposes writer codec reads_back scribe "m" "a" b
        (route wire (some (replicated_game_handler writer scribe)) from_a []).1
route-Proposes_example = route-Proposes writer codec reads_back scribe wire from_a []

the_pass_is_written :
    (route wire (some (replicated_game_handler writer scribe)) from_a []).1 ≡ (1 ∷ []) ∷ []
unfolding route opened dispatch handle_pass_turn validate_actor replicated_game_handler propose_turn
    encode_command_with_payload confirmed_turn
the_pass_is_written = refl
