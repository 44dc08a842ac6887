-- ===== src/Models/View/Secrecy.antt =====
-- A view shows its own player everything, and of the others no tile.
use domino_jc_project.Prelude.{
  String, ◌≡◌, ◌≢◌, ◌⊎◌, refl, ap₂, subst, false, some, List, [], ◌∷◌, map, arith, length, str_eq,
  str_eq→eq, Bool-cases, inl, inr,
}
use domino_jc_project.Models.Tile.{PlayerHand, find_hand}
use domino_jc_project.Models.Session.{GameSession, is_completed}
use domino_jc_project.Models.View.{view_hand, view_for_player}

-- Two hands that `viewer` cannot tell apart: of another player's hand only the number of tiles counts.
pub record LooksLike (viewer : String) (g h : PlayerHand) : Type 0 where
  pub player_id : g.player_id ≡ h.player_id
  pub has_passed : g.has_passed ≡ h.has_passed
  pub is_ready : g.is_ready ≡ h.is_ready
  pub is_abandoned : g.is_abandoned ≡ h.is_abandoned
  pub count : length g.tiles ≡ length h.tiles
  pub own : (g.player_id ≢ viewer) ⊎ (g.tiles ≡ h.tiles)

abbrev pub LookLike : String → List PlayerHand → List PlayerHand → Type 0
LookLike viewer [] [] = Unit
LookLike viewer [] (h ∷ hs) = ⊥
LookLike viewer (g ∷ gs) [] = ⊥
LookLike viewer (g ∷ gs) (h ∷ hs) = LooksLike viewer g h × LookLike viewer gs hs

view_hand-LooksLike :
    (viewer : String) (g h : PlayerHand)
    → LooksLike viewer g h
    → view_hand viewer g ≡ view_hand viewer h
unfolding view_hand
view_hand-LooksLike viewer g h e = elim (Bool-cases (str_eq g.player_id viewer)) [
  | inl m ↦ elim e.own [ inl n ↦ absurd (n (str_eq→eq _ _ m)) | inr own ↦ ground arith ]
  | inr m ↦ ground (arith, e.count)
]

view_hands-LookLike :
    (viewer : String) (gs hs : List PlayerHand)
    → LookLike viewer gs hs
    → map (view_hand viewer) gs ≡ map (view_hand viewer) hs
view_hands-LookLike viewer [] [] e = refl
view_hands-LookLike viewer [] (h ∷ hs) e = absurd e
view_hands-LookLike viewer (g ∷ gs) [] e = absurd e
view_hands-LookLike viewer (g ∷ gs) (h ∷ hs) e =
    ap₂ ◌∷◌ (view_hand-LooksLike viewer g h e.0) (view_hands-LookLike viewer gs hs e.1)

-- Two sessions in play that differ at most in the tiles of the others, in the tiles of the boneyard and
-- in the raw copies that are kept for the database.
pub record Indistinct (viewer : String) (s t : GameSession) : Type 0 where
  pub hands : LookLike viewer s.hands t.hands
  pub boneyard : length s.boneyard ≡ length t.boneyard
  pub uid : s.uid ≡ t.uid
  pub session_id : s.session_id ≡ t.session_id
  pub status : s.status ≡ t.status
  pub players : s.players ≡ t.players
  pub game_board : s.game_board ≡ t.game_board
  pub left_open_value : s.left_open_value ≡ t.left_open_value
  pub right_open_value : s.right_open_value ≡ t.right_open_value
  pub current_turn : s.current_turn ≡ t.current_turn
  pub mutations_locked : s.mutations_locked ≡ t.mutations_locked

-- While a match is in play, a player's view does not depend on what the others hold nor on what the
-- boneyard holds, but for how many tiles there are.
pub view_for_player-Indistinct :
    (viewer : String) (s t : GameSession)
    → is_completed s.status ≡ false
    → Indistinct viewer s t
    → view_for_player s viewer ≡ view_for_player t viewer
unfolding view_for_player
view_for_player-Indistinct viewer s t running e =
    let hands = view_hands-LookLike viewer s.hands t.hands e.hands in
    ground (arith, hands, e.boneyard)

own_in :
    (viewer : String) (hs : List PlayerHand) (h : PlayerHand)
    → find_hand viewer hs ≡ some h
    → find_hand viewer (map (view_hand viewer) hs)
      ≡ some (record h { uid = ""; redacted_tile_count = 0 })
unfolding find_hand view_hand
own_in viewer [] h e = absurd (cc e)
own_in viewer (g ∷ gs) h e = elim (Bool-cases (str_eq g.player_id viewer)) [
  | inl m ↦
      let same : g ≡ h = ground arith in
      subst
        (λ x.
          find_hand viewer (map (view_hand viewer) (g ∷ gs))
          ≡ some (record x { uid = ""; redacted_tile_count = 0 }))
        same (rw (m, find_hand, view_hand) (rw m))
  | inr m ↦ rw (m, view_hand) (rw m (own_in viewer gs h (rw m at e)))
]

-- The viewer's own hand is shown with all its tiles and no count.
pub view_for_player_own :
    (viewer : String) (s : GameSession) (h : PlayerHand)
    → find_hand viewer s.hands ≡ some h
    → find_hand viewer (view_for_player s viewer).hands
      ≡ some (record h { uid = ""; redacted_tile_count = 0 })
unfolding view_for_player
view_for_player_own viewer s h e = own_in viewer s.hands h e
