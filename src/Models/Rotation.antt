-- ===== src/Models/Rotation.antt =====
-- The order of play: `RotateTurn` goes round the players.
use native.Mathlib.Nat.{mod-lt, mod-eq_of_lt, mod-add-mod}
use mathlib.Core.Path.{subst}
use domino_jc_project.Prelude.{
  ℕ, zero, suc, ◌+◌, ◌%◌, ◌<◌, String, ◌≡◌, ◌≢◌, refl, ap, ◌∙◌, some, List, [], ◌∷◌, arith, All,
  length, get_elem?, get_elem?-lt, str_eq_refl, str_eq-ne,
}
use domino_jc_project.Models.Session.{GameSession}
use domino_jc_project.Models.Play.{index_of, player_at, next_turn, rotate_turn}

-- No player is listed twice.
abbrev pub AreDistinct : List String → Type 0
AreDistinct [] = Unit
AreDistinct (p ∷ ps) = All (λ q. p ≢ q) ps × AreDistinct ps

All-get {κ} :
    (P : String → Type κ) (ps : List String) (i : ℕ) {q : String}
    → All P ps
    → get_elem? ps i ≡ some q
    → P q
All-get P [] i h e = absurd (cc e)
All-get P (p ∷ ps) zero h e = let same : p ≡ _ = (ground arith) in subst P same h.0
All-get P (p ∷ ps) (suc i) h e = All-get P ps i h.1 e

index_of-get :
    (ps : List String) (i : ℕ) (q : String)
    → AreDistinct ps
    → get_elem? ps i ≡ some q
    → index_of q ps ≡ some i
unfolding index_of
index_of-get [] i q d e = absurd (cc e)
index_of-get (p ∷ ps) zero q d e = let same : p ≡ q = ground arith in rw (same, str_eq_refl)
index_of-get (p ∷ ps) (suc i) q d e =
    rw (str_eq-ne p q (All-get (λ x. p ≢ x) ps i d.0 e), index_of-get ps i q d.1 e)

-- The player after the one at index `i` is the one at the next index, round the table.
next_turn-get :
    (ps : List String) (i : ℕ) (q : String)
    → AreDistinct ps
    → get_elem? ps i ≡ some q
    → next_turn ps q ≡ player_at ps ((i + 1) % length ps)
unfolding next_turn
next_turn-get [] i q d e = absurd (cc e)
next_turn-get (p ∷ ps) i q d e = rw (index_of-get (p ∷ ps) i q d e, next_turn)

next_turn-at :
    (ps : List String) (i : ℕ)
    → AreDistinct ps
    → i < length ps
    → next_turn ps (player_at ps i) ≡ player_at ps ((i + 1) % length ps)
next_turn-at ps i d h =
    let (q, e) = get_elem?-lt ps i h in rw (e, player_at) (next_turn-get ps i q d e)

unfoldable pub rotate_times : ℕ → GameSession → GameSession
rotate_times zero s = s
rotate_times (suc n) s = rotate_turn (rotate_times n s)

rotate_times-players : (n : ℕ) (s : GameSession) → (rotate_times n s).players ≡ s.players
unfolding rotate_times rotate_turn
rotate_times-players zero s = refl
rotate_times-players (suc n) s = rotate_times-players n s

-- Play goes round the table: if the player at index `i` is to move and no player is listed twice,
-- then after `n` rotations the player at index `(i + n) % length players` is to move.
pub rotate_times-round_robin :
    (s : GameSession) (i n : ℕ)
    → AreDistinct s.players
    → i < length s.players
    → s.current_turn ≡ player_at s.players i
    → (rotate_times n s).current_turn ≡ player_at s.players ((i + n) % length s.players)
unfolding rotate_times rotate_turn
rotate_times-round_robin s i zero d h e =
    e
    ∙ ap (player_at s.players)
        (omega (arith, mod-eq_of_lt {n = i + 0} {m = length s.players} (omega arith)))
rotate_times-round_robin s i (suc n) d h e =
    let here = (i + n) % length s.players in
    let bound = mod-lt (i + n) {m = length s.players} (omega arith) in
    rw (rotate_times-players n s, rotate_times-round_robin s i n d h e)
      (next_turn-at s.players here d bound
        ∙ ap (player_at s.players) (
            mod-add-mod (i + n) (length s.players) 1
            ∙ ap (λ (k : ℕ). k % length s.players) (omega arith)))
