-- ===== src/Models/Winner/Outcome.antt =====
-- The outcome that `EvaluateMatch` returns.
use mathlib.Core.Path.{subst}
use domino_jc_project.Prelude.{
  String, ◌≡◌, ◌≢◌, refl, true, false, ◌&&◌, Option, none, some, List, [], ◌∷◌, arith, All,
  Option-cases, Bool-cases, &&-split, inl, inr, negsuc,
}
use domino_jc_project.Models.Tile.{PlayerHand}
use domino_jc_project.Models.Session.{GameSession}
use domino_jc_project.Models.Evaluate.{
  score_of, compute_hand_scores, lowest_pip_player, pips, MatchOutcome, EndReason, blocked, forfeit,
  empty_hand, evaluate_match, evaluate_blocked, emptied_hand, active_players, only_one, outcome,
  all_active_players_passed, is_empty,
}
use domino_jc_project.Models.Winner.{
  OneHandEach, IsActive, IsLowest, IsEmptied, lowest_from_start, lowest_from_found,
  hand_scores_exact, not-all_passed, emptied_hand-IsEmptied, IsEmptied-IsActive,
  active_players-IsActive,
}

-- What each reason asks of the winner `w`.
abbrev pub WinsBy : EndReason → GameSession → String → Type 0
WinsBy empty_hand s w = IsEmptied w s.hands
WinsBy forfeit s w = active_players s.hands ≡ w ∷ []
WinsBy blocked s w = (s.boneyard ≡ []) × IsLowest (compute_hand_scores s) w s.hands

-- What a finished match owes its players.
pub record IsFair (s : GameSession) (o : MatchOutcome) : Type 0 where
  pub winner_active : IsActive o.winner_id s.hands
  pub scores : o.scores ≡ compute_hand_scores s
  pub scores_exact : All (λ h. score_of h.player_id o.scores ≡ pips h.tiles) s.hands
  pub won : WinsBy o.reason s o.winner_id

abbrev pub AreNamed : List PlayerHand → Type 0
AreNamed = All (λ h. h.player_id ≢ "")

scores_exact_lem :
    (s : GameSession)
    → OneHandEach s.hands
    → All (λ h. score_of h.player_id (compute_hand_scores s) ≡ pips h.tiles) s.hands
unfolding compute_hand_scores
scores_exact_lem s d = hand_scores_exact [] s.hands d

lowest-IsActive :
    (s : GameSession) → all_active_players_passed s ≡ true → IsActive (lowest_pip_player s) s.hands
unfolding all_active_players_passed lowest_pip_player
lowest-IsActive s e = elim (lowest_from_found (compute_hand_scores s) (negsuc 0) s.hands) [
  | inl a ↦ absurd (ground (arith, not-all_passed 0 0 s.hands a))
  | inr w ↦ w
]

IsLowest-least :
    (s : GameSession)
    → All (λ h. h.player_id ≢ "") s.hands
    → IsLowest (compute_hand_scores s) (lowest_pip_player s) s.hands
unfolding lowest_pip_player
IsLowest-least s ids = lowest_from_start (compute_hand_scores s) (negsuc 0) s.hands ids

only_one-eq : (ps : List String) (w : String) → only_one ps ≡ some w → ps ≡ w ∷ []
only_one-eq [] w e = absurd (cc e)
only_one-eq (p ∷ []) w e = ground arith
only_one-eq (p ∷ q ∷ r) w e = absurd (cc e)

is_empty→nil : (s : GameSession) → is_empty s.boneyard ≡ true → s.boneyard ≡ []
is_empty→nil s e = ground arith

module _ (s : GameSession) (d : OneHandEach s.hands) where
  emptied-IsFair : (w : String) → emptied_hand s.hands ≡ some w → IsFair s (outcome s w empty_hand)
  unfolding outcome
  emptied-IsFair w e = record {
    winner_active = IsEmptied-IsActive w s.hands (emptied_hand-IsEmptied s.hands w e);
    scores = refl;
    scores_exact = scores_exact_lem s d;
    won = emptied_hand-IsEmptied s.hands w e;
  }

  forfeit-IsFair :
      (w : String) → only_one (active_players s.hands) ≡ some w → IsFair s (outcome s w forfeit)
  unfolding outcome
  forfeit-IsFair w e =
      let only = only_one-eq (active_players s.hands) w e in
      record {
        winner_active = active_players-IsActive s.hands w [] only;
        scores = refl;
        scores_exact = scores_exact_lem s d;
        won = only;
      }

  blocked-IsFair :
      AreNamed s.hands
      → is_empty s.boneyard ≡ true
      → all_active_players_passed s ≡ true
      → IsFair s (outcome s (lowest_pip_player s) blocked)
  unfolding outcome
  blocked-IsFair ids b p = record {
    winner_active = lowest-IsActive s p;
    scores = refl;
    scores_exact = scores_exact_lem s d;
    won = (is_empty→nil s b, IsLowest-least s ids);
  }

-- Every outcome is one of the three, and is reached in its order.
pub data EvaluateCase (s : GameSession) : Option MatchOutcome → Type 0 where
  by_empty_hand :
      (w : String) → emptied_hand s.hands ≡ some w → EvaluateCase s (some (outcome s w empty_hand))
  by_forfeit :
      (w : String)
      → only_one (active_players s.hands) ≡ some w
      → EvaluateCase s (some (outcome s w forfeit))
  by_block :
      is_empty s.boneyard ≡ true
      → all_active_players_passed s ≡ true
      → EvaluateCase s (some (outcome s (lowest_pip_player s) blocked))
  still_open :
      emptied_hand s.hands ≡ none
      → (is_empty s.boneyard && all_active_players_passed s) ≡ false
      → EvaluateCase s none

blocked-EvaluateCase :
    (s : GameSession) → emptied_hand s.hands ≡ none → EvaluateCase s (evaluate_blocked s)
unfolding evaluate_blocked
blocked-EvaluateCase s n = elim (Bool-cases (is_empty s.boneyard && all_active_players_passed s)) [
  | inl e ↦
      let (b, p) = &&-split (is_empty s.boneyard) (all_active_players_passed s) e in
      rw (e, evaluate_blocked) (by_block b p)
  | inr e ↦ rw (e, evaluate_blocked) (still_open n e)
]

pub evaluate_match-EvaluateCase : (s : GameSession) → EvaluateCase s (evaluate_match s)
unfolding evaluate_match
evaluate_match-EvaluateCase s = elim (Option-cases (emptied_hand s.hands)) [
  | inr (w, e) ↦ rw (e, evaluate_match) (by_empty_hand w e)
  | inl n ↦ elim (Option-cases (only_one (active_players s.hands))) [
    | inr (w, f) ↦ rw (n, f, evaluate_match) (by_forfeit w f)
    | inl f ↦ rw (n, f, evaluate_match) (blocked-EvaluateCase s n)
  ]
]

IsFair-case :
    (s : GameSession) (r : Option MatchOutcome) (o : MatchOutcome)
    → OneHandEach s.hands
    → AreNamed s.hands
    → EvaluateCase s r
    → r ≡ some o
    → IsFair s o
IsFair-case s r o d ids (by_empty_hand w e) h =
    let q : outcome s w empty_hand ≡ o = cc in subst (IsFair s) q (emptied-IsFair s d w e)
IsFair-case s r o d ids (by_forfeit w e) h =
    let q : outcome s w forfeit ≡ o = cc in subst (IsFair s) q (forfeit-IsFair s d w e)
IsFair-case s r o d ids (by_block b p) h =
    let q : outcome s (lowest_pip_player s) blocked ≡ o = cc in
    subst (IsFair s) q (blocked-IsFair s d ids b p)
IsFair-case s r o d ids (still_open n e) h = absurd (cc h)

-- With one hand to a player and no empty name, an outcome names a winner whose hand is in play and
-- scores that are the pips of every hand. A win by an empty hand is by an empty hand in play; by forfeit,
-- by the only player in play; and a blocked match has an empty boneyard and a winner whose score is at
-- most that of every hand in play.
pub evaluate_match-IsFair :
    (s : GameSession) (o : MatchOutcome)
    → OneHandEach s.hands
    → AreNamed s.hands
    → evaluate_match s ≡ some o
    → IsFair s o
evaluate_match-IsFair s o d ids h =
    IsFair-case s (evaluate_match s) o d ids (evaluate_match-EvaluateCase s) h
