-- ===== src/Gateway/DeltaTests.antt =====
-- A hub with two connected players, and the deltas of a match.
use domino_jc_project.Prelude.{
  ℕ, ◌≡◌, refl, String, true, false, none, some, List, [], ◌∷◌, pos, ℤ, get_elem?, inl, eq_iff,
  false≢true, subst, arith,
}
use domino_jc_project.Models.Tile.{DominoTile, PlayerHand}
use domino_jc_project.Models.Session.{GameSession, active, new_game_session}
use domino_jc_project.Models.Turn.{no_result}
use domino_jc_project.Models.View.Secrecy.{Indistinct}
use domino_jc_project.Consensus.Node.{Bytes}
use domino_jc_project.Consensus.Command.{apply_turn}
use domino_jc_project.Engine.Fsm.{ApplyResult}
use domino_jc_project.Ws.Nested.{find_in}
use domino_jc_project.Ws.Hub.{Outside, Client, Hub, connected, new_hub}
use domino_jc_project.Ws.Loop.{handle_session_broadcast}
use domino_jc_project.Ws.Happen.{Happening, joins, happen_all}
use domino_jc_project.Ws.Tidy.{IsTidy}
use domino_jc_project.Ws.Run.{happen_all-IsTidy}
use domino_jc_project.Gateway.Deltas.{session_delta, notify_applied}
use domino_jc_project.Gateway.HiddenDelta.{IsWritten, handle_session_broadcast-Hides}

-- `b` holds a tile with `n` pips.
abbrev with_tile : ℕ → GameSession
with_tile n = record (new_game_session "m" ("a" ∷ "b" ∷ [])) {
  status = active;
  hands =
      record {
        uid = "";
        player_id = "b";
        tiles = record { uid = ""; id = ""; value_left = pos n; value_right = pos 0 } ∷ [];
        redacted_tile_count = 0;
        has_passed = false;
        is_ready = true;
        is_abandoned = false;
      }
      ∷ [];
}

pips_of : ℤ → ℕ
pips_of (pos n) = n
pips_of z = 0

tile_of : List DominoTile → Bytes
tile_of [] = 9 ∷ []
tile_of (t ∷ ts) = pips_of t.value_left ∷ []

written_hand : List PlayerHand → Bytes
written_hand [] = 8 ∷ []
written_hand (h ∷ hs) = tile_of h.tiles

-- A session is written as the first tile of its first hand, and a delta as its session.
abbrev outside : Outside (Unit {0}) (Unit {0})
unfolding written_hand tile_of pips_of
outside = record {
  write_envelope = λ t b. some b;
  write_session = λ s. some (written_hand s.hands);
  read_session = λ b. elim b [ [] ↦ none | n ∷ _ ↦ some (with_tile n) ];
  write_delta = λ d. some d.session;
  write_stats = λ u. some [];
  write_match_end = λ p. some [];
  write_scores = λ s. some "";
  has_actions = false;
  get_session = λ s game. (none, game);
  handle_player_abandoned = λ s p game. game;
  has_ledger = false;
  enqueue = λ r game. game;
}

abbrev client : String → List Bytes → Client
client p queue = record { session_id = "m"; player_id = p; queue = queue; is_closed = false }

abbrev both : Hub (Unit {0})
both = record {
  clients = ("m", ("a", 0) ∷ ("b", 1) ∷ []) ∷ [];
  sockets = client "a" [] ∷ client "b" [] ∷ [];
  player_states =
      (
        "m",
        ("a", record { status = connected; timer = none })
            ∷ ("b", record { status = connected; timer = none })
            ∷ [],
      )
      ∷ [];
  pending_stats = [];
  abandon = [];
  timers = [];
  game = tt;
}

abbrev joined : List (Happening (Unit {0}))
joined = joins "m" "a" ∷ joins "m" "b" ∷ []

joins_lead_to_both : happen_all outside joined (new_hub tt) ≡ some both
unfolding happen_all new_hub outside
joins_lead_to_both = refl

both-IsTidy : IsTidy both
both-IsTidy =
    let (h, q, t) = happen_all-IsTidy outside joined tt in
    let same : h ≡ both = ground (arith, q, joins_lead_to_both) in subst IsTidy same t

abbrev turn_of_a : ApplyResult (Unit {0})
turn_of_a = record {
  op = apply_turn;
  match_id = "m";
  applied = true;
  turn = some no_result;
  session = none;
  ledger = none;
}

abbrev with_session : ℕ → ApplyResult (Unit {0})
with_session n = record turn_of_a { session = some (with_tile n) }

with_tile-IsWritten : (n : ℕ) → IsWritten outside (with_tile n)
unfolding written_hand tile_of pips_of new_game_session
with_tile-IsWritten n = record { first = n; rest = []; written = refl; read = refl }

same_to_a : Indistinct "a" (with_tile 3) (with_tile 4)
unfolding new_game_session
same_to_a = record {
  hands = (
    record {
      player_id = refl;
      has_passed = refl;
      is_ready = refl;
      is_abandoned = refl;
      count = refl;
      own = inl (λ e. false≢true ((eq_iff "b" "a").1 e));
    },
    tt,
  );
  boneyard = refl;
  uid = refl;
  session_id = refl;
  status = refl;
  players = refl;
  game_board = refl;
  left_open_value = refl;
  right_open_value = refl;
  current_turn = refl;
  mutations_locked = refl;
}

handle_session_broadcast-Hides_example :
    (h1 : Hub (Unit {0})) × (h2 : Hub (Unit {0})) × (handle_session_broadcast outside
        (session_delta outside (λ t. some []) (with_session 3))
        both
      ≡ some h1)
    × (handle_session_broadcast outside (session_delta outside (λ t. some []) (with_session 4)) both
        ≡ some h2)
    × (get_elem? h1.sockets 0 ≡ get_elem? h2.sockets 0)
handle_session_broadcast-Hides_example =
    handle_session_broadcast-Hides outside (λ t. some []) turn_of_a (with_tile 3) (with_tile 4) "a"
      0 both (with_tile-IsWritten 3) (with_tile-IsWritten 4) (unfold new_game_session in refl) refl
      same_to_a both-IsTidy (unfold find_in in refl)

-- `b` gets the tile, and `a` does not.
both_lead_to_told :
    handle_session_broadcast outside (session_delta outside (λ t. some []) (with_session 3)) both
    ≡ some (record both { sockets = client "a" ((9 ∷ []) ∷ []) ∷ client "b" ((3 ∷ []) ∷ []) ∷ [] })
unfolding handle_session_broadcast session_delta written_hand tile_of pips_of new_game_session
both_lead_to_told = refl

-- The delta of a match without an id is not taken.
unnamed_is_dropped :
    notify_applied outside (λ t. some []) (record turn_of_a { match_id = "" }) [] ≡ []
unfolding notify_applied
unnamed_is_dropped = refl
