-- ===== src/Models/Turn/Cases.antt =====
-- What one action can do: it is refused, or it is settled after one of the three moves.
use domino_jc_project.Prelude.{
  ◌≡◌, refl, Bool, true, Option, none, some, Bool-cases, Option-cases, inl, inr, ◌||◌, List, ◌∷◌,
  if◌then◌else◌,
}
use domino_jc_project.Models.Tile.{DominoTile, PlayerHand, find_hand, modify_hand, remove_tile}
use domino_jc_project.Models.Session.{
  GameSession, Error, Result, ok, err, is_completed, mutations_are_locked, unsupported_kind,
  hand_not_found, lock_for_completion,
}
use domino_jc_project.Models.Evaluate.{MatchOutcome, evaluate_match}
use domino_jc_project.Models.Play.{can_play, place, rotate_turn, keep_tiles, gain_tile, mark_passed}
use domino_jc_project.Models.Play.Cases.{
  PlayCase, DrawCase, PassCase, play_tile-PlayCase, draw_from_boneyard-DrawCase, pass_turn-PassCase,
}
use domino_jc_project.Models.Turn.{
  TurnKind, play, draw, pass, unknown, TurnAction, TurnResult, applied_result, activate, is_play,
  settle, process_game_turn, dispatch, after_play, after_draw, after_pass,
}

-- The session that a successful move leaves, before the match is evaluated.
pub data Moved (s : GameSession) (a : TurnAction)
    : TurnKind → Option DominoTile → GameSession → Type 0 where
  placed :
      (h : PlayerHand) (rest : List DominoTile)
      → s.current_turn ≡ a.player_id
      → can_play s a.tile a.play_at_left ≡ true
      → find_hand a.player_id s.hands ≡ some h
      → remove_tile a.tile.id h.tiles ≡ some rest
      → Moved s a play none (
          place
            (record s { hands = modify_hand a.player_id (keep_tiles rest) s.hands })
            a.tile
            a.play_at_left)
  drawn :
      (top : DominoTile) (rest : List DominoTile) (h : PlayerHand)
      → s.current_turn ≡ a.player_id
      → s.boneyard ≡ top ∷ rest
      → find_hand a.player_id s.hands ≡ some h
      → Moved s a draw
          (some top)
          (record s { boneyard = rest; hands = modify_hand a.player_id (gain_tile top) s.hands })
  passed :
      (h : PlayerHand)
      → s.current_turn ≡ a.player_id
      → find_hand a.player_id s.hands ≡ some h
      → Moved s a pass none
          (rotate_turn (record s { hands = modify_hand a.player_id mark_passed s.hands }))

pub data TurnCase (s : GameSession) (a : TurnAction) (r : GameSession × Result TurnResult)
    : Type 0 where
  refused : (e : Error) → r ≡ (s, err e) → TurnCase s a r
  lost :
      (top : DominoTile) (rest : List DominoTile)
      → s.boneyard ≡ top ∷ rest
      → find_hand a.player_id s.hands ≡ none
      → r ≡ (record s { boneyard = rest }, err (hand_not_found a.player_id))
      → TurnCase s a r
  settled :
      (kind : TurnKind) (tile : Option DominoTile) (t : GameSession)
      → Moved s a kind tile t
      → r ≡ settle kind tile t
      → TurnCase s a r

after_play-TurnCase :
    (s : GameSession) (a : TurnAction) (r : GameSession × Result Bool)
    → PlayCase s a.player_id a.tile a.play_at_left r
    → TurnCase s a (after_play r)
unfolding after_play
after_play-TurnCase s a r (PlayCase.refused e q) = refused e (rw q)
after_play-TurnCase s a r (PlayCase.played h rest turn c f m q) =
    settled play none _ (placed h rest turn c f m) (rw q)

after_draw-TurnCase :
    (s : GameSession) (a : TurnAction) (r : GameSession × Result DominoTile)
    → DrawCase s a.player_id r
    → TurnCase s a (after_draw r)
unfolding after_draw
after_draw-TurnCase s a r (DrawCase.refused e q) = refused e (rw q)
after_draw-TurnCase s a r (DrawCase.lost top rest turn b f q) = lost top rest b f (rw q)
after_draw-TurnCase s a r (DrawCase.drew top rest h turn b f q) =
    settled draw (some top) _ (drawn top rest h turn b f) (rw q)

after_pass-TurnCase :
    (s : GameSession) (a : TurnAction) (r : GameSession × Result (Unit {0}))
    → PassCase s a.player_id r
    → TurnCase s a (after_pass r)
unfolding after_pass
after_pass-TurnCase s a r (PassCase.refused e q) = refused e (rw q)
after_pass-TurnCase s a r (PassCase.passed h turn f q) =
    settled pass none _ (passed h turn f) (rw q)

dispatch-TurnCase :
    (k : TurnKind) (s : GameSession) (a : TurnAction) → TurnCase s a (dispatch k s a)
unfolding dispatch
dispatch-TurnCase play s a =
    after_play-TurnCase s a _ (play_tile-PlayCase s a.player_id a.tile a.play_at_left)
dispatch-TurnCase draw s a = after_draw-TurnCase s a _ (draw_from_boneyard-DrawCase s a.player_id)
dispatch-TurnCase pass s a = after_pass-TurnCase s a _ (pass_turn-PassCase s a.player_id)
dispatch-TurnCase (unknown k) s a = refused (unsupported_kind k) refl

pub process_game_turn-TurnCase :
    (s : GameSession) (a : TurnAction) → TurnCase s a (process_game_turn s a)
unfolding process_game_turn
process_game_turn-TurnCase s a = elim (Bool-cases (s.mutations_locked || is_completed s.status)) [
  | inl e ↦ refused mutations_are_locked (rw (e, process_game_turn))
  | inr e ↦ rw (e, process_game_turn) (dispatch-TurnCase a.kind s a)
]

pub data SettleCase (k : TurnKind) (d : Option DominoTile) (s : GameSession)
    (r : GameSession × Result TurnResult) : Type 0 where
  ended :
      (o : MatchOutcome)
      → evaluate_match (activate s) ≡ some o
      → r ≡ (
        lock_for_completion (activate s),
        ok (record (applied_result d) { match_ended = true; outcome = some o }),
      )
      → SettleCase k d s r
  goes_on :
      evaluate_match (activate s) ≡ none
      → r ≡ (if is_play k then rotate_turn (activate s) else activate s, ok (applied_result d))
      → SettleCase k d s r

pub settle-SettleCase :
    (k : TurnKind) (d : Option DominoTile) (s : GameSession) → SettleCase k d s (settle k d s)
unfolding settle
settle-SettleCase k d s = elim (Option-cases (evaluate_match (activate s))) [
  | inl e ↦ goes_on e (rw (e, settle))
  | inr (o, e) ↦ ended o e (rw (e, settle))
]
