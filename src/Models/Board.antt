-- ===== src/Models/Board.antt =====
-- The chain on the board: what joins to what, and that every action keeps it so.
use domino_jc_project.Prelude.{
  ◌≡◌, refl, sym, ◌∙◌, Bool, true, false, ◌&&◌, ◌||◌, eqb_ℤ, Option, List, [], ◌∷◌, ◌++◌, arith, ℤ,
  pos, ◌≤ℤ◌, eqb_ℤ_iff, All, All-snoc, Bool-cases, inl, inr, if◌then◌else◌,
}
use domino_jc_project.Models.Tile.{DominoTile, modify_hand}
use domino_jc_project.Models.Session.{GameSession, no_value, lock_for_completion}
use domino_jc_project.Models.Play.{can_play, place, board_is_empty, flip, rotate_turn, keep_tiles}
use domino_jc_project.Models.Turn.{
  TurnKind, play, draw, pass, unknown, TurnAction, settle, is_play, activate, process_game_turn,
}
use domino_jc_project.Models.Turn.Cases.{
  Moved, placed, drawn, passed, refused, lost, settled, process_game_turn-TurnCase, ended, goes_on,
  settle-SettleCase,
}

-- Both ends show a number of pips.
abbrev pub HasPips : DominoTile → Type 0
HasPips t = (pos 0 ≤ℤ t.value_left) × (pos 0 ≤ℤ t.value_right)

abbrev Joins : DominoTile → List DominoTile → Type 0
Joins t [] = Unit
Joins t (u ∷ us) = t.value_right ≡ u.value_left

-- Each tile faces its neighbour with equal ends.
abbrev pub IsLinked : List DominoTile → Type 0
IsLinked [] = Unit
IsLinked (t ∷ ts) = Joins t ts × IsLinked ts

abbrev pub last_right : DominoTile → List DominoTile → ℤ
last_right t [] = t.value_right
last_right t (u ∷ us) = last_right u us

-- The open values are the ends of the board, and -1 where it is empty.
abbrev pub HasEnds : List DominoTile → ℤ → ℤ → Type 0
HasEnds [] l r = (l ≡ no_value) × (r ≡ no_value)
HasEnds (t ∷ ts) l r = (l ≡ t.value_left) × (r ≡ last_right t ts)

pub record IsChain (b : List DominoTile) (l r : ℤ) : Type 0 where
  pub linked : IsLinked b
  pub ends : HasEnds b l r
  pub pips : All HasPips b

abbrev pub IsBoard : GameSession → Type 0
IsBoard s = IsChain s.game_board s.left_open_value s.right_open_value

IsLinked-snoc :
    (t : DominoTile) (ts : List DominoTile) (u : DominoTile)
    → IsLinked (t ∷ ts)
    → last_right t ts ≡ u.value_left
    → IsLinked (t ∷ (ts ++ u ∷ []))
IsLinked-snoc t [] u h e = (e, (tt, tt))
IsLinked-snoc t (v ∷ vs) u h e = (h.0, IsLinked-snoc v vs u h.1 e)

last_right-snoc :
    (t : DominoTile) (ts : List DominoTile) (u : DominoTile)
    → last_right t (ts ++ u ∷ []) ≡ u.value_right
last_right-snoc t [] u = refl
last_right-snoc t (v ∷ vs) u = last_right-snoc v vs u

last_right-HasPips :
    (t : DominoTile) (ts : List DominoTile) → All HasPips (t ∷ ts) → pos 0 ≤ℤ last_right t ts
last_right-HasPips t [] h = h.0.1
last_right-HasPips t (v ∷ vs) h = last_right-HasPips v vs h.1

abbrev closed : ℤ → ℤ → Bool
closed l r = eqb_ℤ l no_value && eqb_ℤ r no_value

-- The test of the code for an empty board is right.
closed-cons :
    (t : DominoTile) (ts : List DominoTile) (l r : ℤ) → IsChain (t ∷ ts) l r → closed l r ≡ false
closed-cons t ts l r h = ground (arith, eqb_ℤ_iff l no_value, h.ends, h.pips, h.ends.0, h.pips.0)

first-IsChain :
    (b : List DominoTile) (l r : ℤ) (t : DominoTile)
    → IsChain b l r
    → closed l r ≡ true
    → HasPips t
    → IsChain (b ++ t ∷ []) t.value_left t.value_right
first-IsChain [] l r t h e p = record { linked = (tt, tt); ends = (refl, refl); pips = (p, tt) }
first-IsChain (u ∷ us) l r t h e p = absurd (ground (arith, closed-cons u us l r h))

cons-IsChain :
    (b : List DominoTile) (l r : ℤ) (t : DominoTile)
    → IsChain b l r
    → closed l r ≡ false
    → HasPips t
    → t.value_right ≡ l
    → IsChain (t ∷ b) t.value_left r
cons-IsChain [] l r t h e p q = absurd (ground (arith, h.ends.0, h.ends.1))
cons-IsChain (u ∷ us) l r t h e p q = record {
  linked = (q ∙ h.ends.0, h.linked);
  ends = (refl, h.ends.1);
  pips = (p, h.pips);
}

snoc-IsChain :
    (b : List DominoTile) (l r : ℤ) (t : DominoTile)
    → IsChain b l r
    → closed l r ≡ false
    → HasPips t
    → t.value_left ≡ r
    → IsChain (b ++ t ∷ []) l t.value_right
snoc-IsChain [] l r t h e p q = absurd (ground (arith, h.ends.0, h.ends.1))
snoc-IsChain (u ∷ us) l r t h e p q = record {
  linked = IsLinked-snoc u us t h.linked (sym h.ends.1 ∙ sym q);
  ends = (h.ends.0, sym (last_right-snoc u us t));
  pips = All-snoc HasPips (u ∷ us) p h.pips;
}

abbrev face : Bool → DominoTile → DominoTile
face b t = if b then t else flip t

face-HasPips : (b : Bool) (t : DominoTile) → HasPips t → HasPips (face b t)
unfolding flip
face-HasPips true t h = h
face-HasPips false t h = (h.1, h.0)

face_left :
    (t : DominoTile) (l : ℤ)
    → (eqb_ℤ t.value_left l || eqb_ℤ t.value_right l) ≡ true
    → (face (eqb_ℤ t.value_right l) t).value_right ≡ l
unfolding flip
face_left t l h = ground (arith, eqb_ℤ_iff t.value_left l, eqb_ℤ_iff t.value_right l)

face_right :
    (t : DominoTile) (r : ℤ)
    → (eqb_ℤ t.value_left r || eqb_ℤ t.value_right r) ≡ true
    → (face (eqb_ℤ t.value_left r) t).value_left ≡ r
unfolding flip
face_right t r h = ground (arith, eqb_ℤ_iff t.value_left r, eqb_ℤ_iff t.value_right r)

place-IsBoard_closed :
    (s : GameSession) (t : DominoTile) (left : Bool)
    → IsBoard s
    → HasPips t
    → board_is_empty s ≡ true
    → IsBoard (place s t left)
unfolding place
place-IsBoard_closed s t left h p e =
    rw (e, place) (first-IsChain s.game_board s.left_open_value s.right_open_value t h e p)

place-IsBoard_open :
    (s : GameSession) (t : DominoTile) (left : Bool)
    → IsBoard s
    → HasPips t
    → board_is_empty s ≡ false
    → can_play s t left ≡ true
    → IsBoard (place s t left)
unfolding place can_play
place-IsBoard_open s t true h p e c =
    let face_in = eqb_ℤ t.value_right s.left_open_value in
    rw (e, place)
      (cons-IsChain s.game_board s.left_open_value s.right_open_value (face face_in t) h e
        (face-HasPips face_in t p) (face_left t s.left_open_value (rw (e, can_play) at c)))
place-IsBoard_open s t false h p e c =
    let face_in = eqb_ℤ t.value_left s.right_open_value in
    rw (e, place)
      (snoc-IsChain s.game_board s.left_open_value s.right_open_value (face face_in t) h e
        (face-HasPips face_in t p) (face_right t s.right_open_value (rw (e, can_play) at c)))

pub place-IsBoard :
    (s : GameSession) (t : DominoTile) (left : Bool)
    → IsBoard s
    → HasPips t
    → can_play s t left ≡ true
    → IsBoard (place s t left)
place-IsBoard s t left h p c = elim (Bool-cases (board_is_empty s)) [
  | inl e ↦ place-IsBoard_closed s t left h p e
  | inr e ↦ place-IsBoard_open s t left h p e c
]

Moved-IsBoard :
    (s : GameSession) (a : TurnAction) {k : TurnKind} {d : Option DominoTile} {t : GameSession}
    → Moved s a k d t
    → IsBoard s
    → HasPips a.tile
    → IsBoard t
unfolding can_play rotate_turn
Moved-IsBoard s a (placed h rest turn c f m) b p =
    place-IsBoard (record s { hands = modify_hand a.player_id (keep_tiles rest) s.hands }) a.tile
      a.play_at_left b p c
Moved-IsBoard s a (drawn top rest h turn e f) b p = b
Moved-IsBoard s a (passed h turn f) b p = b

settle-IsBoard :
    (k : TurnKind) (d : Option DominoTile) (s : GameSession) → IsBoard s → IsBoard (settle k d s).0
unfolding rotate_turn lock_for_completion
settle-IsBoard k d s b = elim (settle-SettleCase k d s) [
  | ended o e q ↦ rw q b
  | goes_on e q ↦ rw q (rotated k)
]
  where
    rotated : (k : TurnKind) → IsBoard (if is_play k then rotate_turn (activate s) else activate s)
    rotated play = b
    rotated draw = b
    rotated pass = b
    rotated (unknown n) = b

-- Whatever the action, a board that is a chain whose ends are cached stays one, if the tile that the
-- action names shows no negative value.
pub process_game_turn-IsBoard :
    (s : GameSession) (a : TurnAction)
    → IsBoard s
    → HasPips a.tile
    → IsBoard (process_game_turn s a).0
process_game_turn-IsBoard s a b p = elim (process_game_turn-TurnCase s a) [
  | refused e q ↦ rw q b
  | lost top rest e f q ↦ rw q b
  | settled k d t m q ↦ rw q (settle-IsBoard k d t (Moved-IsBoard s a m b p))
]
