-- ===== src/Models/Winner.antt =====
-- Who wins: the winner is in play, and of a blocked match holds the fewest pips.
pub mod Outcome
use mathlib.Core.Path.{subst}
use domino_jc_project.Prelude.{
  ℕ, String, ◌≡◌, ◌≢◌, refl, sym, ap, ◌∙◌, ◌⊎◌, Bool, true, false, not, ◌&&◌, ◌||◌, Option, none,
  some, List, [], ◌∷◌, arith, ℤ, pos, negsuc, ◌≤ℤ◌, ltb_ℤ, str_eq, str_eq_refl, str_eq-ne, eq_iff,
  All, if◌then◌else◌, ltb, ◌==◌, List-cases, Bool-cases, Option-cases, inl, inr,
}
use domino_jc_project.Models.Tile.{DominoTile, PlayerHand}
use domino_jc_project.Models.Session.{GameSession}
use domino_jc_project.Models.Evaluate.{
  Scores, put_score, score_of, hand_scores_from, compute_hand_scores, lowest_from,
  lowest_pip_player, pips, MatchOutcome, EndReason, blocked, forfeit, empty_hand, evaluate_match,
  emptied_hand, active_players, only_one, all_passed_from,
}

score_of-put_score :
    (p q : String) (v : ℤ) (m : Scores)
    → score_of q (put_score p v m) ≡ (if str_eq p q then v else score_of q m)
unfolding score_of put_score
score_of-put_score p q v [] = refl
score_of-put_score p q v ((r, w) ∷ m) =
    ground (arith, eq_iff r p, eq_iff r q, eq_iff p q, score_of-put_score p q v m)

-- No two hands belong to one player.
abbrev pub OneHandEach : List PlayerHand → Type 0
OneHandEach [] = Unit
OneHandEach (h ∷ hs) = All (λ g. h.player_id ≢ g.player_id) hs × OneHandEach hs

score_of-later :
    (p : String) (m : Scores) (hs : List PlayerHand)
    → All (λ g. p ≢ g.player_id) hs
    → score_of p (hand_scores_from m hs) ≡ score_of p m
unfolding hand_scores_from
score_of-later p m [] a = refl
score_of-later p m (h ∷ hs) a =
    score_of-later p (put_score h.player_id (pips h.tiles) m) hs a.1
    ∙ rw (
      score_of-put_score h.player_id p (pips h.tiles) m,
      str_eq-ne h.player_id p (λ e. a.0 (sym e)),
    )

-- With one hand each, the scores say what every hand holds.
hand_scores_exact :
    (m : Scores) (hs : List PlayerHand)
    → OneHandEach hs
    → All (λ h. score_of h.player_id (hand_scores_from m hs) ≡ pips h.tiles) hs
unfolding hand_scores_from
hand_scores_exact m [] d = tt
hand_scores_exact m (h ∷ hs) d = (
  score_of-later h.player_id (put_score h.player_id (pips h.tiles) m) hs d.0
      ∙ rw (score_of-put_score h.player_id h.player_id (pips h.tiles) m, str_eq_refl),
  hand_scores_exact (put_score h.player_id (pips h.tiles) m) hs d.1,
)

-- `w` is the player of a hand in play.
abbrev pub IsActive : String → List PlayerHand → Type 0
IsActive w [] = ⊥
IsActive w (h ∷ hs) = ((h.is_abandoned ≡ false) × (h.player_id ≡ w)) ⊎ IsActive w hs

-- `w` has at most the score of every hand in play.
abbrev pub IsLowest : Scores → String → List PlayerHand → Type 0
IsLowest m w = All (λ h. (h.is_abandoned ≡ true) ⊎ (score_of w m ≤ℤ score_of h.player_id m))

abbrev beats : Scores → String → ℤ → PlayerHand → Bool
beats m w l h = not h.is_abandoned && (str_eq w "" || ltb_ℤ (score_of h.player_id m) l)

module _ (m : Scores) (w : String) (l : ℤ) where
  lowest_from-nil : lowest_from m w l [] ≡ w
  unfolding lowest_from
  lowest_from-nil = refl

  lowest_from-beats :
      (h : PlayerHand) (hs : List PlayerHand)
      → beats m w l h ≡ true
      → lowest_from m w l (h ∷ hs) ≡ lowest_from m h.player_id (score_of h.player_id m) hs
  unfolding lowest_from
  lowest_from-beats h hs e = rw e

  lowest_from-stays :
      (h : PlayerHand) (hs : List PlayerHand)
      → beats m w l h ≡ false
      → lowest_from m w l (h ∷ hs) ≡ lowest_from m w l hs
  unfolding lowest_from
  lowest_from-stays h hs e = rw e

  beats→lt : (h : PlayerHand) → w ≢ "" → beats m w l h ≡ true → score_of h.player_id m ≤ℤ l
  beats→lt h n e = ground (arith, eq_iff w "")

  stays→le :
      (h : PlayerHand)
      → beats m w l h ≡ false
      → h.is_abandoned ≡ false
      → l ≤ℤ score_of h.player_id m
  stays→le h e a = ground arith

-- The loop once it has a candidate `w` with score `l`.
lowest_from-below :
    (m : Scores) (w : String) (l : ℤ) (hs : List PlayerHand)
    → w ≢ ""
    → All (λ h. h.player_id ≢ "") hs
    → score_of w m ≡ l
    → (score_of (lowest_from m w l hs) m ≤ℤ l) × IsLowest m (lowest_from m w l hs) hs
lowest_from-below m w l [] n ids e = rw (lowest_from-nil m w l, e) (omega arith, tt)
lowest_from-below m w l (h ∷ hs) n ids e = elim (Bool-cases (beats m w l h)) [
  | inl b ↦
      let below = lowest_from-below m h.player_id (score_of h.player_id m) hs ids.0 ids.1 refl in
      subst (λ x. (score_of x m ≤ℤ l) × IsLowest m x (h ∷ hs))
        (sym (lowest_from-beats m w l h hs b))
        (omega (arith, beats→lt m w l h n b, below.0), (inr below.0, below.1))
  | inr b ↦
      let below = lowest_from-below m w l hs n ids.1 e in
      subst (λ x. (score_of x m ≤ℤ l) × IsLowest m x (h ∷ hs))
        (sym (lowest_from-stays m w l h hs b))
        (below.0, (worse (Bool-cases h.is_abandoned) b below.0, below.1))
]
  where
    worse :
        (h.is_abandoned ≡ true) ⊎ (h.is_abandoned ≡ false)
        → beats m w l h ≡ false
        → score_of (lowest_from m w l hs) m ≤ℤ l
        → (h.is_abandoned ≡ true) ⊎ (score_of (lowest_from m w l hs) m ≤ℤ score_of h.player_id m)
    worse (inl a) b le = inl a
    worse (inr a) b le = inr (omega (arith, stays→le m w l h b a, le))

-- The loop from its start: no hand in play has a lower score than its result.
lowest_from_start :
    (m : Scores) (l : ℤ) (hs : List PlayerHand)
    → All (λ h. h.player_id ≢ "") hs
    → IsLowest m (lowest_from m "" l hs) hs
lowest_from_start m l [] ids = tt
lowest_from_start m l (h ∷ hs) ids = elim (Bool-cases h.is_abandoned) [
  | inl a ↦
      subst (λ x. IsLowest m x (h ∷ hs)) (sym (lowest_from-stays m "" l h hs (ground arith)))
        (inl a, lowest_from_start m l hs ids.1)
  | inr a ↦
      let below = lowest_from-below m h.player_id (score_of h.player_id m) hs ids.0 ids.1 refl in
      subst (λ x. IsLowest m x (h ∷ hs)) (sym (lowest_from-beats m "" l h hs (ground arith)))
        (inr below.0, below.1)
]

abbrev AllAbandoned : List PlayerHand → Type 0
AllAbandoned = All (λ h. h.is_abandoned ≡ true)

lowest_from-IsActive :
    (m : Scores) (w : String) (l : ℤ) (hs : List PlayerHand)
    → (lowest_from m w l hs ≡ w) ⊎ IsActive (lowest_from m w l hs) hs
lowest_from-IsActive m w l [] = inl (lowest_from-nil m w l)
lowest_from-IsActive m w l (h ∷ hs) = elim (Bool-cases (beats m w l h)) [
  | inl b ↦
      subst (λ x. (x ≡ w) ⊎ IsActive x (h ∷ hs)) (sym (lowest_from-beats m w l h hs b))
        (elim (lowest_from-IsActive m h.player_id (score_of h.player_id m) hs) [
          | inl e ↦ inr (inl (ground arith, sym e))
          | inr later ↦ inr (inr later)
        ])
  | inr b ↦
      subst (λ x. (x ≡ w) ⊎ IsActive x (h ∷ hs)) (sym (lowest_from-stays m w l h hs b))
        (elim (lowest_from-IsActive m w l hs) [ inl e ↦ inl e | inr later ↦ inr (inr later) ])
]

-- From its start the loop finds a hand in play, unless there is none.
lowest_from_found :
    (m : Scores) (l : ℤ) (hs : List PlayerHand)
    → AllAbandoned hs ⊎ IsActive (lowest_from m "" l hs) hs
lowest_from_found m l [] = inl tt
lowest_from_found m l (h ∷ hs) = elim (Bool-cases h.is_abandoned) [
  | inl a ↦
      subst (λ x. AllAbandoned (h ∷ hs) ⊎ IsActive x (h ∷ hs))
        (sym (lowest_from-stays m "" l h hs (ground arith)))
        (elim (lowest_from_found m l hs) [ inl all ↦ inl (a, all) | inr later ↦ inr (inr later) ])
  | inr a ↦
      subst (λ x. AllAbandoned (h ∷ hs) ⊎ IsActive x (h ∷ hs))
        (sym (lowest_from-beats m "" l h hs (ground arith)))
        (elim (lowest_from-IsActive m h.player_id (score_of h.player_id m) hs) [
          | inl e ↦ inr (inl (a, sym e))
          | inr later ↦ inr (inr later)
        ])
]

not-all_passed :
    (n p : ℕ) (hs : List PlayerHand)
    → AllAbandoned hs
    → all_passed_from n p hs ≡ (ltb 0 n && (p == n))
unfolding all_passed_from
not-all_passed n p [] a = refl
not-all_passed n p (h ∷ hs) a = rw a.0 (not-all_passed n p hs a.1)

-- `w` is the player of a hand in play that is empty.
abbrev pub IsEmptied : String → List PlayerHand → Type 0
IsEmptied w [] = ⊥
IsEmptied w (h ∷ hs) =
    ((h.is_abandoned ≡ false) × (h.player_id ≡ w) × (h.tiles ≡ [])) ⊎ IsEmptied w hs

emptied_hand-IsEmptied :
    (hs : List PlayerHand) (w : String) → emptied_hand hs ≡ some w → IsEmptied w hs
unfolding emptied_hand
emptied_hand-IsEmptied [] w e = absurd (cc e)
emptied_hand-IsEmptied (h ∷ hs) w e = elim (Bool-cases h.is_abandoned) [
  | inl a ↦ inr (emptied_hand-IsEmptied hs w (rw a at e))
  | inr a ↦ elim (List-cases h.tiles) [
    | inl t ↦ inl (a, ground arith, t)
    | inr (x, xs, t) ↦ inr (emptied_hand-IsEmptied hs w (ground arith))
  ]
]

IsEmptied-IsActive : (w : String) (hs : List PlayerHand) → IsEmptied w hs → IsActive w hs
IsEmptied-IsActive w [] e = e
IsEmptied-IsActive w (h ∷ hs) (inl e) = inl (e.0, e.1)
IsEmptied-IsActive w (h ∷ hs) (inr e) = inr (IsEmptied-IsActive w hs e)

-- The only player in play.
active_players-IsActive :
    (hs : List PlayerHand) (w : String) (more : List String)
    → active_players hs ≡ w ∷ more
    → IsActive w hs
unfolding active_players
active_players-IsActive [] w more e = absurd (cc e)
active_players-IsActive (h ∷ hs) w more e = elim (Bool-cases h.is_abandoned) [
  | inl a ↦ inr (active_players-IsActive hs w more (rw a at e))
  | inr a ↦ inl (a, ground arith)
]
