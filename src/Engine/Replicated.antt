-- ===== src/Engine/Replicated.antt =====
-- pkg/engine/replicated.go: what committed commands do to the manager, and its snapshot.
use domino_jc_project.Prelude.{
  ℕ, zero, suc, String, str_eq, Bool, true, false, not, ◌&&◌, Option, none, some, List, [], ◌∷◌,
  map, ℤ, pos, negsuc, StringMap, put_key, if◌then◌else◌,
}
use domino_jc_project.Models.Tile.{new_player_hand}
use domino_jc_project.Models.Session.{
  Status, waiting, active, other, GameSession, Result, ok, err, reset_for_setup,
}
use domino_jc_project.Models.Deck.{
  generate_standard_deck, shuffle_boneyard_deterministic, deal_hands,
}
use domino_jc_project.Models.Turn.{TurnAction, TurnResult}
use domino_jc_project.Engine.Manager.{
  PlayerStatsUpdate, Player, Services, World, GameManager, Outcome, done, failed,
  session_id_required, no_players, no_player_id, career_failed, shuffle_failed, deal_failed,
  create_session, lookup_session, write_session, persist_state,
}
use domino_jc_project.Engine.Lifecycle.{process_turn}

pub record ReplicatedMatchSetup : Type 0 where
  pub player_uids : List String
  pub setup_game : Bool
  pub tiles_per_hand : ℤ

abbrev pub is_empty {ℓ} : {A : Type ℓ} → List A → Bool
is_empty [] = true
is_empty _ = false

abbrev first_player : List String → String
first_player [] = ""
first_player (p ∷ _) = p

-- Seven where the number given is not positive.
unfoldable pub tiles_of : ℤ → ℕ
tiles_of (pos zero) = 7
tiles_of (pos (suc n)) = suc n
tiles_of (negsuc _) = 7

abbrev wait_if_unset : Status → Status
wait_if_unset (other s) = if str_eq s "" then waiting else other s
wait_if_unset s = s

-- The players and their hands, where the session has none yet.
unfoldable pub seat_players : List String → GameSession → GameSession
unfolding new_player_hand
seat_players uids s = record s {
  players = if is_empty s.players then uids else s.players;
  hands = if is_empty s.hands then map new_player_hand uids else s.hands;
}

abbrev open_match : GameSession → GameSession
open_match s = record s {
  status = active;
  current_turn =
      if str_eq s.current_turn "" && not (is_empty s.players)
      then first_player s.players
      else s.current_turn;
}

module _ {F W B : Type 0} (x : Services F W B) where
  unfoldable pub deal_done : GameSession × Result (Unit {0}) → Outcome (Unit {0}) × GameSession
  deal_done (s, err e) = (failed (deal_failed e), s)
  deal_done (s, ok _) = (done tt, open_match s)

  unfoldable pub deal_match : ℕ → GameSession × Result (Unit {0}) → Outcome (Unit {0}) × GameSession
  unfolding deal_hands deal_done
  deal_match n (s, err e) = (failed (shuffle_failed e), s)
  deal_match n (s, ok _) = deal_done (deal_hands n s)

  -- What START_MATCH does to the session, which keeps it also if it fails.
  unfoldable pub prepare_match :
      String → ReplicatedMatchSetup → GameSession → Outcome (Unit {0}) × GameSession
  unfolding seat_players reset_for_setup generate_standard_deck shuffle_boneyard_deterministic
      deal_match tiles_of
  prepare_match id setup s =
      let s' = seat_players setup.player_uids s in
      if setup.setup_game
      then deal_match (tiles_of setup.tiles_per_hand) (
          shuffle_boneyard_deterministic x.intn (x.deterministic_seed id)
            (generate_standard_deck (reset_for_setup s')))
      else (done tt, record s' { status = wait_if_unset s'.status })

  unfoldable pub found_created :
      String → World F W B → Outcome GameSession × GameManager F → Outcome GameSession × World F W B
  unfolding lookup_session
  found_created id w (failed e, m) = (failed e, record w { manager = m })
  found_created id w (done _, m) = lookup_session x id (record w { manager = m })

  unfoldable pub create_and_lookup :
      String → List String → World F W B → Outcome GameSession × World F W B
  unfolding create_session found_created
  create_and_lookup id uids w = found_created id w (create_session id uids w.manager)

  unfoldable pub or_create :
      String → List String → Outcome GameSession × World F W B → Outcome GameSession × World F W B
  unfolding create_and_lookup
  or_create id uids (done s, w) = (done s, w)
  or_create id uids (failed _, w) = create_and_lookup id uids w

  unfoldable pub save_prepared :
      String → Outcome (Unit {0}) × GameSession → World F W B → Outcome GameSession × World F W B
  unfolding write_session persist_state
  save_prepared id (failed e, s) w = (failed e, write_session id s w)
  save_prepared id (done _, s) w =
      let (saved, w') = persist_state x s (write_session id s w) in
      (elim saved [ done _ ↦ done s | failed e ↦ failed e ], w')

  unfoldable pub start_found :
      String
      → ReplicatedMatchSetup
      → Outcome GameSession × World F W B
      → Outcome GameSession × World F W B
  unfolding prepare_match save_prepared
  start_found id setup (failed e, w) = (failed e, w)
  start_found id setup (done s, w) = save_prepared id (prepare_match id setup s) w

  unfoldable pub apply_replicated_start_match :
      String → ReplicatedMatchSetup → World F W B → Outcome GameSession × World F W B
  unfolding lookup_session or_create start_found
  apply_replicated_start_match id setup w =
      if str_eq id ""
      then (failed session_id_required, w)
      else if is_empty setup.player_uids
      then (failed (no_players id), w)
      else start_found id setup (or_create id setup.player_uids (lookup_session x id w))

  unfoldable pub apply_replicated_turn :
      String → TurnAction → World F W B → Outcome TurnResult × World F W B
  unfolding process_turn
  apply_replicated_turn = process_turn x

  unfoldable pub career_of : PlayerStatsUpdate F → Player F
  career_of u = record {
    player_id = u.player_id;
    elo = u.elo;
    peak_elo = if x.is_positive u.peak_elo then u.peak_elo else u.elo;
    matches_played = u.matches_played;
    wins = u.wins;
    losses = u.losses;
  }

  unfoldable pub apply_replicated_ledger_balance :
      PlayerStatsUpdate F → World F W B → Outcome (PlayerStatsUpdate F) × World F W B
  unfolding career_of put_key
  apply_replicated_ledger_balance u w =
      if str_eq u.player_id ""
      then (failed no_player_id, w)
      else (let (fine, store) = x.update_player_careers (career_of u ∷ []) w.store in
          if fine
          then (
            done u,
            record w {
              store = store;
              manager = record w.manager {
                ledger_profiles = put_key u.player_id u w.manager.ledger_profiles;
              };
            },
          )
          else (failed career_failed, record w { store = store }))

-- The loop of `RestoreSessions`, over the entries of the map; `none` is a nil session.
unfoldable pub restore_from :
    StringMap (Option GameSession) → StringMap GameSession → StringMap GameSession
unfolding put_key
restore_from [] sessions = sessions
restore_from ((id, none) ∷ more) sessions = restore_from more sessions
restore_from ((id, some s) ∷ more) sessions =
    restore_from more (if str_eq id "" then sessions else put_key id s sessions)

-- `out[id] = &copySession` for each entry
unfoldable pub copy_from :
    StringMap GameSession → StringMap (Option GameSession) → StringMap (Option GameSession)
unfolding put_key
copy_from [] out = out
copy_from ((id, s) ∷ more) out = copy_from more (put_key id (some s) out)

-- `out[id] = profile` for each entry
unfoldable pub copy_profiles {ℓ} : {V : Type ℓ} → StringMap V → StringMap V → StringMap V
unfolding put_key
copy_profiles [] out = out
copy_profiles ((id, p) ∷ more) out = copy_profiles more (put_key id p out)

module _ {F : Type 0} where
  unfoldable pub snapshot_sessions : GameManager F → StringMap (Option GameSession)
  unfolding copy_from
  snapshot_sessions m = copy_from m.sessions []

  unfoldable pub restore_sessions : StringMap (Option GameSession) → GameManager F → GameManager F
  unfolding restore_from
  restore_sessions sessions m = record m { sessions = restore_from sessions []; recovered_ids = [] }

  unfoldable pub ledger_profiles : GameManager F → StringMap (PlayerStatsUpdate F)
  unfolding copy_profiles
  ledger_profiles m = copy_profiles m.ledger_profiles []

  unfoldable pub restore_ledger_profiles :
      StringMap (PlayerStatsUpdate F) → GameManager F → GameManager F
  unfolding copy_profiles
  restore_ledger_profiles profiles m = record m { ledger_profiles = copy_profiles profiles [] }
