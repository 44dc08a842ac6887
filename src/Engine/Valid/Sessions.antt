-- ===== src/Engine/Valid/Sessions.antt =====
-- What the manager does to one session keeps it valid.
use domino_jc_project.Prelude.{
  ltb, length, ◌≡◌, ◌≢◌, refl, ◌∙◌, subst, String, str_eq, str_eq→eq, Bool, true, false, some,
  StringMap, [], find_key, put_key, delete_key, find_key-put_key, find_key-delete_key, arith,
  Bool-cases, Option-cases, inl, inr, if◌then◌else◌, ℕ,
}
use domino_jc_project.Models.Tile.{modify_hand, find_hand}
use domino_jc_project.Models.Session.{
  GameSession, Result, ok, err, reset_for_setup, lock_for_completion, no_value,
}
use domino_jc_project.Models.Deck.{
  generate_standard_deck, shuffle_boneyard_deterministic, total_needed, deal_hands,
}
use domino_jc_project.Models.Play.{rotate_turn, pass_turn}
use domino_jc_project.Models.Board.{IsBoard}
use domino_jc_project.Engine.Manager.{Services}
use domino_jc_project.Engine.Lifecycle.{
  lock_session, abandon_player, mark_abandoned, pass_or_rotate, skip_turn,
}
use domino_jc_project.Engine.Replicated.{
  ReplicatedMatchSetup, seat_players, deal_done, deal_match, prepare_match, tiles_of,
}

-- A session under its own id, which is not empty, with a board that is a chain.
pub record IsSession (id : String) (s : GameSession) : Type 0 where
  pub named : id ≢ ""
  pub own : s.session_id ≡ id
  pub board : IsBoard s

abbrev pub IsValid : StringMap GameSession → Type 0
IsValid sessions = (j : String) (s : GameSession) → find_key j sessions ≡ some s → IsSession j s

pub put_key-IsValid :
    (id : String) (s : GameSession) (m : StringMap GameSession)
    → IsValid m
    → IsSession id s
    → IsValid (put_key id s m)
put_key-IsValid id s m valid good j t h = elim (Bool-cases (str_eq id j)) [
  | inl e ↦
      let same : s ≡ t = ground (arith, find_key-put_key id j s m, e, h) in
      subst (λ k. IsSession k t) (str_eq→eq id j e) (subst (λ u. IsSession id u) same good)
  | inr e ↦ valid j t (ground (arith, find_key-put_key id j s m, e, h))
]

pub delete_key-IsValid :
    (id : String) (m : StringMap GameSession) → IsValid m → IsValid (delete_key id m)
delete_key-IsValid id m valid j t h = valid j t (ground (arith, find_key-delete_key id j m, h))

-- A session that keeps what `IsSession` looks at.
pub record Alike (s t : GameSession) : Type 0 where
  pub own : t.session_id ≡ s.session_id
  pub game_board : t.game_board ≡ s.game_board
  pub left : t.left_open_value ≡ s.left_open_value
  pub right : t.right_open_value ≡ s.right_open_value

pub Alike-IsSession :
    (id : String) (s t : GameSession) → Alike s t → IsSession id s → IsSession id t
Alike-IsSession id s t a good = record {
  named = good.named;
  own = a.own ∙ good.own;
  board = rw (a.game_board, a.left, a.right) good.board;
}

pub lock_session-Alike : (s : GameSession) → Alike s (lock_session s)
unfolding lock_session lock_for_completion
lock_session-Alike s = record {
  own = ground arith;
  game_board = ground arith;
  left = ground arith;
  right = ground arith;
}

pass_or_rotate-Alike :
    (player : String) (s : GameSession) → Alike s (pass_or_rotate (pass_turn s player))
unfolding pass_turn rotate_turn
pass_or_rotate-Alike player s = elim (Bool-cases (str_eq s.current_turn player)) [
  | inr e ↦ rw (e, pass_turn) (record { own = refl; game_board = refl; left = refl; right = refl })
  | inl e ↦ elim (Option-cases (find_hand player s.hands)) [
    | inl f ↦
        rw (e, f, pass_turn) (record { own = refl; game_board = refl; left = refl; right = refl })
    | inr (h, f) ↦
        rw (e, f, pass_turn) (record { own = refl; game_board = refl; left = refl; right = refl })
  ]
]

if-Alike : (c : Bool) (s t u : GameSession) → Alike s t → Alike s u → Alike s (if c then t else u)
if-Alike true s t u a b = a
if-Alike false s t u a b = b

skip_turn-Alike : (player : String) (s : GameSession) → Alike s (skip_turn player s)
unfolding skip_turn
skip_turn-Alike player s =
    if-Alike (str_eq s.current_turn player) s (pass_or_rotate (pass_turn s player)) s
      (pass_or_rotate-Alike player s)
      (record { own = refl; game_board = refl; left = refl; right = refl })

pub abandon_player-Alike :
    (id player : String) (s : GameSession) → Alike s (abandon_player id player s).1
unfolding abandon_player
abandon_player-Alike id player s = elim (Option-cases (find_hand player s.hands)) [
  | inl e ↦
      rw (e, abandon_player) (record { own = refl; game_board = refl; left = refl; right = refl })
  | inr (h, e) ↦
      let a =
        skip_turn-Alike player (record s { hands = modify_hand player mark_abandoned s.hands }) in
      rw (e, abandon_player)
        (record { own = a.own; game_board = a.game_board; left = a.left; right = a.right })
]

-- A match that is set up: the session has its id and an empty board, whatever the random numbers.
record IsCleared (id : String) (s : GameSession) : Type 0 where
  pub own : s.session_id ≡ id
  pub game_board : s.game_board ≡ []
  pub left : s.left_open_value ≡ no_value
  pub right : s.right_open_value ≡ no_value

IsCleared-IsSession : (id : String) (s : GameSession) → id ≢ "" → IsCleared id s → IsSession id s
IsCleared-IsSession id s ne c = record {
  named = ne;
  own = c.own;
  board =
      rw (c.game_board, c.left, c.right) (record { linked = tt; ends = (refl, refl); pips = tt });
}

deal_hands-IsCleared :
    (id : String) (n : ℕ) (s : GameSession) → IsCleared id s → IsCleared id (deal_hands n s).0
unfolding deal_hands
deal_hands-IsCleared id n s c =
    elim (Bool-cases (ltb (length s.boneyard) (total_needed (length s.players) n))) [
      | inl e ↦ rw (e, deal_hands) c
      | inr e ↦
          rw (e, deal_hands)
            (record { own = c.own; game_board = c.game_board; left = c.left; right = c.right })
    ]

module _ {F W B : Type 0} (x : Services F W B) where
  dealt-IsCleared :
      (id : String) (p : GameSession × Result (Unit {0}))
      → IsCleared id p.0
      → IsCleared id (deal_done x p).1
  unfolding deal_done
  dealt-IsCleared id (s, err e) c = c
  dealt-IsCleared id (s, ok _) c = record {
    own = c.own;
    game_board = c.game_board;
    left = c.left;
    right = c.right;
  }

  deal_match-IsCleared :
      (id : String) (n : ℕ) (p : GameSession × Result (Unit {0}))
      → IsCleared id p.0
      → IsCleared id (deal_match x n p).1
  unfolding deal_match
  deal_match-IsCleared id n (s, err e) c = c
  deal_match-IsCleared id n (s, ok _) c =
      dealt-IsCleared id (deal_hands n s) (deal_hands-IsCleared id n s c)

  pub prepare_match-IsSession :
      (id : String) (setup : ReplicatedMatchSetup) (s : GameSession)
      → IsSession id s
      → IsSession id (prepare_match x id setup s).1
  unfolding prepare_match seat_players reset_for_setup generate_standard_deck
      shuffle_boneyard_deterministic
  prepare_match-IsSession id setup s good = elim (Bool-cases setup.setup_game) [
    | inl e ↦
        rw (e, prepare_match)
          (IsCleared-IsSession id _ good.named (
            deal_match-IsCleared id (tiles_of setup.tiles_per_hand)
              (shuffle_boneyard_deterministic x.intn (x.deterministic_seed id)
                (generate_standard_deck (reset_for_setup (seat_players setup.player_uids s))))
              (record { own = good.own; game_board = refl; left = refl; right = refl })))
    | inr e ↦
        rw (e, prepare_match) (record { named = good.named; own = good.own; board = good.board })
  ]
