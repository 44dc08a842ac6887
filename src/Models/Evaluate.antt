-- ===== src/Models/Evaluate.antt =====
-- pkg/models/evaluation.go: when a match is over, who won, and the scores.
use domino_jc_project.Prelude.{
  ℕ, suc, String, Bool, true, false, not, ◌&&◌, Option, none, some, List, [], ◌∷◌, ℤ, pos, negsuc,
  ◌+ℤ◌, ltb_ℤ, ◌||◌, ltb, ◌==◌, str_eq, if◌then◌else◌,
}
use domino_jc_project.Models.Tile.{DominoTile, PlayerHand}
use domino_jc_project.Models.Session.{GameSession}

pub data EndReason : Type 0 where
  empty_hand blocked forfeit : EndReason

-- Go's map from player to pips, as an association list with one entry for each key.
abbrev pub Scores : Type 0
Scores = List (String × ℤ)

unfoldable pub put_score : String → ℤ → Scores → Scores
put_score player total [] = (player, total) ∷ []
put_score player total ((p, v) ∷ rest) =
    if str_eq p player then (player, total) ∷ rest else (p, v) ∷ put_score player total rest

-- `scores[player]`, which is 0 for a missing key.
unfoldable pub score_of : String → Scores → ℤ
score_of player [] = pos 0
score_of player ((p, v) ∷ rest) = if str_eq p player then v else score_of player rest

pub record MatchOutcome : Type 0 where
  pub match_id : String
  pub winner_id : String
  pub scores : Scores
  pub reason : EndReason

-- The inner loop, `total` its accumulator.
unfoldable pub pips_from : ℤ → List DominoTile → ℤ
unfolding ◌+ℤ◌
pips_from total [] = total
pips_from total (t ∷ ts) = pips_from (total +ℤ (t.value_left +ℤ t.value_right)) ts

abbrev pub pips : List DominoTile → ℤ
pips = pips_from (pos 0)

unfoldable pub hand_scores_from : Scores → List PlayerHand → Scores
unfolding put_score pips_from
hand_scores_from scores [] = scores
hand_scores_from scores (h ∷ hs) = hand_scores_from (put_score h.player_id (pips h.tiles) scores) hs

unfoldable pub compute_hand_scores : GameSession → Scores
unfolding hand_scores_from
compute_hand_scores s = hand_scores_from [] s.hands

unfoldable pub active_players : List PlayerHand → List String
active_players [] = []
active_players (h ∷ hs) =
    let rest = active_players hs in if h.is_abandoned then rest else h.player_id ∷ rest

-- The loop of `allActivePlayersPassed` with its two counters.
unfoldable pub all_passed_from : ℕ → ℕ → List PlayerHand → Bool
all_passed_from active passed [] = ltb 0 active && (passed == active)
all_passed_from active passed (h ∷ hs) =
    all_passed_from (if h.is_abandoned then active else suc active)
      (if h.is_abandoned then passed else if h.has_passed then suc passed else passed) hs

unfoldable pub all_active_players_passed : GameSession → Bool
unfolding all_passed_from
all_active_players_passed s = all_passed_from 0 0 s.hands

-- The loop of `lowestPipPlayer` with its variables `winner` and `lowest`.
unfoldable pub lowest_from : Scores → String → ℤ → List PlayerHand → String
lowest_from scores winner lowest [] = winner
lowest_from scores winner lowest (h ∷ hs) =
    let total = score_of h.player_id scores in
    let better = not h.is_abandoned && (str_eq winner "" || ltb_ℤ total lowest) in
    lowest_from scores (if better then h.player_id else winner) (if better then total else lowest)
      hs

unfoldable pub lowest_pip_player : GameSession → String
unfolding lowest_from score_of compute_hand_scores
lowest_pip_player s = lowest_from (compute_hand_scores s) "" (negsuc 0) s.hands

-- The first loop of `EvaluateMatch`: the first hand in play that is empty.
unfoldable pub emptied_hand : List PlayerHand → Option String
emptied_hand [] = none
emptied_hand (h ∷ hs) =
    if h.is_abandoned
    then emptied_hand hs
    else elim h.tiles [ [] ↦ some h.player_id | t ∷ ts ↦ emptied_hand hs ]

abbrev pub is_empty : List DominoTile → Bool
is_empty [] = true
is_empty (_ ∷ _) = false

abbrev pub only_one : List String → Option String
only_one [] = none
only_one (p ∷ []) = some p
only_one (p ∷ q ∷ r) = none

unfoldable pub outcome : GameSession → String → EndReason → MatchOutcome
unfolding compute_hand_scores
outcome s winner reason = record {
  match_id = s.session_id;
  winner_id = winner;
  scores = compute_hand_scores s;
  reason = reason;
}

unfoldable pub evaluate_blocked : GameSession → Option MatchOutcome
unfolding outcome all_active_players_passed lowest_pip_player
evaluate_blocked s =
    if is_empty s.boneyard && all_active_players_passed s
    then some (outcome s (lowest_pip_player s) blocked)
    else none

unfoldable pub evaluate_match : GameSession → Option MatchOutcome
unfolding emptied_hand active_players evaluate_blocked
evaluate_match s = elim (emptied_hand s.hands) [
  | some winner ↦ some (outcome s winner empty_hand)
  | none ↦ elim (only_one (active_players s.hands)) [
    | some winner ↦ some (outcome s winner forfeit)
    | none ↦ evaluate_blocked s
  ]
]
