-- ===== src/Models/Conserve.antt =====
-- No action makes or loses a tile: the tiles of each id are counted over hands, boneyard and board.
use domino_jc_project.Prelude.{
  ℕ, ◌+◌, String, ◌≡◌, refl, Bool, true, false, Option, some, List, [], ◌∷◌, ◌++◌, arith, eq_iff,
  str_eq, eqb_ℤ, if◌then◌else◌, Option-cases, inl, inr, Bool-cases, ap, ◌∙◌,
}
use domino_jc_project.Models.Tile.{DominoTile, PlayerHand, find_hand, modify_hand, remove_tile}
use domino_jc_project.Models.Session.{GameSession, ok, lock_for_completion}
use domino_jc_project.Models.Play.{
  place, place_left, place_right, board_is_empty, rotate_turn, keep_tiles, gain_tile, mark_passed,
}
use domino_jc_project.Models.Turn.{
  TurnKind, play, draw, pass, unknown, TurnAction, TurnResult, settle, is_play, activate,
  process_game_turn,
}
use domino_jc_project.Models.Turn.Cases.{
  Moved, placed, drawn, passed, refused, lost, settled, process_game_turn-TurnCase, ended, goes_on,
  settle-SettleCase,
}

abbrev one_if : Bool → ℕ
one_if true = 1
one_if false = 0

unfoldable pub count_id : String → List DominoTile → ℕ
count_id i [] = 0
count_id i (t ∷ ts) = one_if (str_eq t.id i) + count_id i ts

unfoldable pub count_in_hands : String → List PlayerHand → ℕ
count_in_hands i [] = 0
count_in_hands i (h ∷ hs) = count_id i h.tiles + count_in_hands i hs

-- How many tiles of an id the session holds.
abbrev pub tile_total : String → GameSession → ℕ
tile_total i s = count_in_hands i s.hands + count_id i s.boneyard + count_id i s.game_board

pub count_id-append :
    (i : String) (xs ys : List DominoTile) → count_id i (xs ++ ys) ≡ count_id i xs + count_id i ys
unfolding count_id
count_id-append i [] ys = omega arith
count_id-append i (x ∷ xs) ys = omega (arith, count_id-append i xs ys)

count_id-remove :
    (i j : String) (ts : List DominoTile) {rest : List DominoTile}
    → remove_tile j ts ≡ some rest
    → count_id i ts ≡ one_if (str_eq j i) + count_id i rest
unfolding count_id remove_tile
count_id-remove i j [] e = ground arith
count_id-remove i j (t ∷ ts) e = elim (Option-cases (remove_tile j ts)) [
  | inl n ↦ ground (arith, eq_iff t.id j, n)
  | inr (r, f) ↦ ground (arith, eq_iff t.id j, f, count_id-remove i j ts f)
]

count-modify_hand :
    (i p : String) (f : PlayerHand → PlayerHand) (hs : List PlayerHand) (h : PlayerHand)
    → find_hand p hs ≡ some h
    → count_in_hands i (modify_hand p f hs) + count_id i h.tiles
      ≡ count_in_hands i hs + count_id i (f h).tiles
unfolding count_in_hands find_hand modify_hand
count-modify_hand i p f [] h e = ground arith
count-modify_hand i p f (g ∷ gs) h e = elim (Bool-cases (str_eq g.player_id p)) [
  | inl m ↦
      let same : g ≡ h = ground arith in
      rw m (
        omega (
          arith,
          ap (λ (x : PlayerHand). count_id i x.tiles) same,
          ap (λ (x : PlayerHand). count_id i (f x).tiles) same,
        ))
  | inr m ↦ rw m (omega (arith, count-modify_hand i p f gs h (ground arith)))
]

count-place_left :
    (i : String) (s : GameSession) (t : DominoTile)
    → count_id i (place_left s t).game_board ≡ one_if (str_eq t.id i) + count_id i s.game_board
unfolding place_left count_id
count-place_left i s t = ground arith

count-place_right :
    (i : String) (s : GameSession) (t : DominoTile)
    → count_id i (place_right s t).game_board ≡ one_if (str_eq t.id i) + count_id i s.game_board
unfolding place_right count_id
count-place_right i s t = elim (Bool-cases (eqb_ℤ t.value_left s.right_open_value)) [
  | inl e ↦ rw (e, count_id-append) (omega arith)
  | inr e ↦ rw (e, count_id-append) (omega arith)
]

count-place :
    (i : String) (s : GameSession) (t : DominoTile) (left : Bool)
    → count_id i (place s t left).game_board ≡ one_if (str_eq t.id i) + count_id i s.game_board
unfolding place count_id
count-place i s t left = elim (Bool-cases (board_is_empty s)) [
  | inl e ↦ rw (e, place) (rw count_id-append (omega arith))
  | inr e ↦ rw (e, place) (at_end left)
]
  where
    at_end :
        (left : Bool)
        → count_id i (if left then place_left s t else place_right s t).game_board
          ≡ one_if (str_eq t.id i) + count_id i s.game_board
    at_end true = count-place_left i s t
    at_end false = count-place_right i s t

place_keeps :
    (s : GameSession) (t : DominoTile) (left : Bool)
    → ((place s t left).hands ≡ s.hands) × ((place s t left).boneyard ≡ s.boneyard)
unfolding place
place_keeps s t left = (ground arith, ground arith)

Moved-tile_total :
    (i : String) (s : GameSession) (a : TurnAction) {k : TurnKind} {d : Option DominoTile}
    {t : GameSession}
    → Moved s a k d t
    → tile_total i t ≡ tile_total i s
unfolding count_id rotate_turn
Moved-tile_total i s a (placed h rest turn c f m) =
    let s' = record s { hands = modify_hand a.player_id (keep_tiles rest) s.hands } in
    let kept = place_keeps s' a.tile a.play_at_left in
    rw (kept.0, kept.1)
      (omega (
        arith,
        count-place i s' a.tile a.play_at_left,
        count-modify_hand i a.player_id (keep_tiles rest) s.hands h f,
        count_id-remove i a.tile.id h.tiles m,
      ))
Moved-tile_total i s a (drawn top rest h turn e f) = rw e (
    omega (
      arith,
      count-modify_hand i a.player_id (gain_tile top) s.hands h f,
      count_id-append i h.tiles (top ∷ []),
    ))
Moved-tile_total i s a (passed h turn f) =
    omega (arith, count-modify_hand i a.player_id mark_passed s.hands h f)

settle-tile_total :
    (i : String) (k : TurnKind) (d : Option DominoTile) (s : GameSession)
    → tile_total i (settle k d s).0 ≡ tile_total i s
unfolding rotate_turn lock_for_completion
settle-tile_total i k d s = elim (settle-SettleCase k d s) [
  | ended o e q ↦ rw q
  | goes_on e q ↦ rw q (rotated k)
]
  where
    rotated :
        (k : TurnKind)
        → tile_total i (if is_play k then rotate_turn (activate s) else activate s) ≡ tile_total i s
    rotated play = refl
    rotated draw = refl
    rotated pass = refl
    rotated (unknown n) = refl

-- An action that succeeds moves tiles between hands, boneyard and board, and the number of tiles of
-- each id stays the same.
pub process_game_turn-tile_total :
    (s : GameSession) (a : TurnAction) (i : String) (r : TurnResult)
    → (process_game_turn s a).1 ≡ ok r
    → tile_total i (process_game_turn s a).0 ≡ tile_total i s
process_game_turn-tile_total s a i r h = elim (process_game_turn-TurnCase s a) [
  | refused e q ↦ rw q
  | lost top rest b f q ↦ absurd (ground (arith, q))
  | settled k d t m q ↦ rw q (settle-tile_total i k d t ∙ Moved-tile_total i s a m)
]
