-- ===== src/Models/Play/Cases.antt =====
-- What each move can do: one constructor for each way out of its method.
use domino_jc_project.Prelude.{
  String, ◌≡◌, refl, Bool, true, none, some, List, [], ◌∷◌, arith, str_eq, str_eq→eq, Bool-cases,
  Option-cases, inl, inr,
}
use domino_jc_project.Models.Tile.{DominoTile, PlayerHand, find_hand, modify_hand, remove_tile}
use domino_jc_project.Models.Session.{
  GameSession, Error, Result, ok, err, not_your_turn, illegal_move, hand_not_found,
  tile_not_in_hand, boneyard_empty,
}
use domino_jc_project.Models.Play.{
  can_play, place, play_tile, take_from_hand, draw_top, draw_from_boneyard, pass_turn, rotate_turn,
  keep_tiles, gain_tile, mark_passed,
}

module _ (s : GameSession) (player : String) where
  pub data PlayCase (t : DominoTile) (left : Bool) (r : GameSession × Result Bool) : Type 0 where
    refused : (e : Error) → r ≡ (s, err e) → PlayCase t left r
    played :
        (h : PlayerHand) (rest : List DominoTile)
        → s.current_turn ≡ player
        → can_play s t left ≡ true
        → find_hand player s.hands ≡ some h
        → remove_tile t.id h.tiles ≡ some rest
        → r ≡ (
          place (record s { hands = modify_hand player (keep_tiles rest) s.hands }) t left,
          ok true,
        )
        → PlayCase t left r

  pub data DrawCase (r : GameSession × Result DominoTile) : Type 0 where
    refused : (e : Error) → r ≡ (s, err e) → DrawCase r
    lost :
        (top : DominoTile) (rest : List DominoTile)
        → s.current_turn ≡ player
        → s.boneyard ≡ top ∷ rest
        → find_hand player s.hands ≡ none
        → r ≡ (record s { boneyard = rest }, err (hand_not_found player))
        → DrawCase r
    drew :
        (top : DominoTile) (rest : List DominoTile) (h : PlayerHand)
        → s.current_turn ≡ player
        → s.boneyard ≡ top ∷ rest
        → find_hand player s.hands ≡ some h
        → r ≡ (
          record s { boneyard = rest; hands = modify_hand player (gain_tile top) s.hands },
          ok top,
        )
        → DrawCase r

  pub data PassCase (r : GameSession × Result (Unit {0})) : Type 0 where
    refused : (e : Error) → r ≡ (s, err e) → PassCase r
    passed :
        (h : PlayerHand)
        → s.current_turn ≡ player
        → find_hand player s.hands ≡ some h
        → r ≡ (rotate_turn (record s { hands = modify_hand player mark_passed s.hands }), ok tt)
        → PassCase r

  pub play_tile-PlayCase :
      (t : DominoTile) (left : Bool) → PlayCase t left (play_tile s player t left)
  unfolding play_tile
  play_tile-PlayCase t left = elim (Bool-cases (str_eq s.current_turn player)) [
    | inr e ↦ PlayCase.refused (not_your_turn player) (ground arith)
    | inl e ↦ elim (Bool-cases (can_play s t left)) [
      | inr c ↦ PlayCase.refused (illegal_move t) (rw (e, play_tile) (rw c))
      | inl c ↦ elim (Option-cases (find_hand player s.hands)) [
        | inl f ↦ PlayCase.refused (hand_not_found player) (rw (e, c, f, play_tile))
        | inr (h, f) ↦ elim (Option-cases (remove_tile t.id h.tiles)) [
          | inl m ↦
              PlayCase.refused (tile_not_in_hand t)
                (rw (e, c, f, play_tile) (rw (m, take_from_hand)))
          | inr (rest, m) ↦
              played h rest (str_eq→eq _ _ e) c f m
                (rw (e, c, f, play_tile) (rw (m, take_from_hand)))
        ]
      ]
    ]
  ]

  draw_top-DrawCase :
      (pool : List DominoTile)
      → s.current_turn ≡ player
      → s.boneyard ≡ pool
      → DrawCase (draw_top s player pool)
  unfolding draw_top
  draw_top-DrawCase [] turn e = DrawCase.refused boneyard_empty refl
  draw_top-DrawCase (top ∷ rest) turn e = elim (Option-cases (find_hand player s.hands)) [
    | inl f ↦ lost top rest turn e f (rw (f, draw_top))
    | inr (h, f) ↦ drew top rest h turn e f (rw (f, draw_top))
  ]

  pub draw_from_boneyard-DrawCase : DrawCase (draw_from_boneyard s player)
  unfolding draw_from_boneyard
  draw_from_boneyard-DrawCase = elim (Bool-cases (str_eq s.current_turn player)) [
    | inr e ↦ DrawCase.refused (not_your_turn player) (ground arith)
    | inl e ↦ rw (e, draw_from_boneyard) (draw_top-DrawCase s.boneyard (str_eq→eq _ _ e) refl)
  ]

  pub pass_turn-PassCase : PassCase (pass_turn s player)
  unfolding pass_turn
  pass_turn-PassCase = elim (Bool-cases (str_eq s.current_turn player)) [
    | inr e ↦ PassCase.refused (not_your_turn player) (ground arith)
    | inl e ↦ elim (Option-cases (find_hand player s.hands)) [
      | inl f ↦ PassCase.refused (hand_not_found player) (rw (e, f, pass_turn))
      | inr (h, f) ↦ passed h (str_eq→eq _ _ e) f (rw (e, f, pass_turn))
    ]
  ]
