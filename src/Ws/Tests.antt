-- ===== src/Ws/Tests.antt =====
-- The theorems about the hub at concrete hubs.
use domino_jc_project.Prelude.{
  ◌≡◌, refl, String, true, false, Option, none, some, List, [], ◌∷◌, pos, subst, arith,
}
use domino_jc_project.Models.Session.{GameSession, completed}
use domino_jc_project.Models.Evaluate.{MatchOutcome, forfeit}
use domino_jc_project.Engine.Manager.{PlayerStatsUpdate}
use domino_jc_project.Ws.Nested.{find_in}
use domino_jc_project.Ws.Hub.{Outside, Hub, connected, new_hub}
use domino_jc_project.Ws.Loop.{replace_client}
use domino_jc_project.Ws.Happen.{
  Happening, joins, leaves, fires, abandonment, stats, happen_all, send_error, termination,
}
use domino_jc_project.Ws.Tidy.{IsTidy}
use domino_jc_project.Ws.Run.{happen_all-IsTidy, send_error-replace_client}

-- The game is the list of the players who were given up.
abbrev outside : Outside (Unit {0}) (List String)
outside = record {
  write_envelope = λ t b. some b;
  write_session = λ s. some [];
  read_session = λ b. none;
  write_delta = λ d. some [];
  write_stats = λ u. some (7 ∷ []);
  write_match_end = λ p. some (9 ∷ []);
  write_scores = λ s. some "";
  has_actions = true;
  get_session = λ s game. (none, game);
  handle_player_abandoned = λ s p game. p ∷ game;
  has_ledger = true;
  enqueue = λ r game. r.winner ∷ game;
}

abbrev update : PlayerStatsUpdate (Unit {0})
update = record {
  session_id = "m";
  match_id = "m";
  player_id = "a";
  elo = tt;
  peak_elo = tt;
  matches_played = pos 1;
  wins = pos 1;
  losses = pos 0;
  elo_delta = tt;
  won = true;
}

abbrev outcome : MatchOutcome
outcome = record { match_id = "m"; winner_id = "b"; scores = []; reason = forfeit }

abbrev final : GameSession
final = record {
  uid = "";
  session_id = "m";
  status = completed;
  players = "a" ∷ "b" ∷ [];
  hands = [];
  boneyard = [];
  boneyard_count = 0;
  game_board = [];
  left_open_value = pos 0;
  right_open_value = pos 0;
  current_turn = "a";
  mutations_locked = true;
  boneyard_raw = "";
  game_board_raw = "";
}

abbrev ending_of_m : Happening (Unit {0})
ending_of_m = termination 5 "m" (some outcome) (some final)

-- `a` joins twice, both clients leave, the grace period ends, and the match with it.
abbrev comings : List (Happening (Unit {0}))
comings =
    joins "m" "a"
    ∷ joins "m" "a"
    ∷ leaves 0
    ∷ leaves 1
    ∷ stats "m" (update ∷ [])
    ∷ leaves 1
    ∷ fires 0
    ∷ abandonment
    ∷ ending_of_m
    ∷ []

happen_all-IsTidy_example :
    (h : Hub (List String)) × (happen_all outside comings (new_hub []) ≡ some h) × IsTidy h
happen_all-IsTidy_example = happen_all-IsTidy outside comings []

game_after : Option (Hub (List String)) → Option (List String)
game_after none = none
game_after (some h) = some h.game

a_is_given_up : game_after (happen_all outside comings (new_hub [])) ≡ some ("b" ∷ "a" ∷ [])
unfolding game_after happen_all new_hub
a_is_given_up = refl

-- A grace period that ended before the player came back and left again is still taken.
abbrev stale : List (Happening (Unit {0}))
stale = joins "m" "a" ∷ leaves 0 ∷ fires 0 ∷ joins "m" "a" ∷ leaves 1 ∷ abandonment ∷ []

a_is_given_up_early : game_after (happen_all outside stale (new_hub [])) ≡ some ("a" ∷ [])
unfolding game_after happen_all new_hub
a_is_given_up_early = refl

-- The hub after `a` has joined.
abbrev one : Hub (List String)
one = record {
  clients = ("m", ("a", 0) ∷ []) ∷ [];
  sockets = record { session_id = "m"; player_id = "a"; queue = []; is_closed = false } ∷ [];
  player_states = ("m", ("a", record { status = connected; timer = none }) ∷ []) ∷ [];
  pending_stats = [];
  abandon = [];
  timers = [];
  game = [];
}

join_leads_to_one : happen_all outside (joins "m" "a" ∷ []) (new_hub []) ≡ some one
unfolding happen_all new_hub
join_leads_to_one = refl

-- The player hears of the end and gets the final session; the ledger gets the match.
abbrev told : Hub (List String)
told = record one {
  sockets =
      record { session_id = "m"; player_id = "a"; queue = (9 ∷ []) ∷ [] ∷ []; is_closed = false }
      ∷ [];
  game = "b" ∷ [];
}

one_leads_to_told : happen_all outside (ending_of_m ∷ []) one ≡ some told
unfolding happen_all
one_leads_to_told = refl

one-IsTidy : IsTidy one
one-IsTidy =
    let (h, q, t) = happen_all-IsTidy outside (joins "m" "a" ∷ []) [] in
    let same : h ≡ one = ground (arith, q, join_leads_to_one) in subst IsTidy same t

send_error-replace_client_example :
    (h' : Hub (List String)) × (replace_client "m" "a" one ≡ some h')
    × (send_error 0 (1 ∷ []) h' ≡ none)
send_error-replace_client_example =
    send_error-replace_client "m" "a" 0 (1 ∷ []) one one-IsTidy (unfold find_in in refl)
