-- ===== src/Engine/Manager.antt =====
-- pkg/engine/game_manager.go: the registry of the sessions in memory, and the sessions of an earlier run
-- that are read from the repository when they are asked for. A call runs to its end before the next one, as
-- the locks make it for one session; so no call ever finds the hydration of another under way.
use domino_jc_project.Prelude.{
  String, str_eq, Bool, true, false, Option, none, some, List, [], ◌∷◌, ℕ, ℤ, StringMap, find_key,
  put_key, delete_key, if◌then◌else◌,
}
use domino_jc_project.Models.Session.{GameSession, Error, new_game_session}
use domino_jc_project.Engine.Loop.{Broker, GameEngine}

-- models.PlayerStatsUpdate. `F` stands for float64.
pub record PlayerStatsUpdate (F : Type 0) : Type 0 where
  pub session_id : String
  pub match_id : String
  pub player_id : String
  pub elo : F
  pub peak_elo : F
  pub matches_played : ℤ
  pub wins : ℤ
  pub losses : ℤ
  pub elo_delta : F
  pub won : Bool

-- models.Player, with the fields that the manager sets.
pub record Player (F : Type 0) : Type 0 where
  pub player_id : String
  pub elo : F
  pub peak_elo : F
  pub matches_played : ℤ
  pub wins : ℤ
  pub losses : ℤ

-- What the manager is built on. `W` is the state of the database, `B` that of the broker.
--   * the interface repository.GameRepository: each call may fail, and a session may be nil without an error
--   * `is_positive`: the test `x > 0` on a float64
--   * `deterministic_seed`: the FNV hash of a session's id
--   * `intn`: the random numbers of a seed, as in Models/Deck
pub record Services (F W B : Type 0) : Type 0 where
  pub save_session : GameSession → W → Bool × W
  pub get_session : String → W → Option (Option GameSession) × W
  pub list_active_session_ids : W → Option (List String) × W
  pub update_player_careers : List (Player F) → W → Bool × W
  pub broker : Broker B
  pub is_positive : F → Bool
  pub deterministic_seed : String → ℕ
  pub intn : ℕ → ℕ → ℕ → ℕ

pub record GameManager (F : Type 0) : Type 0 where
  pub sessions : StringMap GameSession
  pub recovered_ids : StringMap Bool
  pub ledger_profiles : StringMap (PlayerStatsUpdate F)
  pub game_engine : Option GameEngine

-- A manager with what its calls change outside it.
pub record World (F W B : Type 0) : Type 0 where
  pub manager : GameManager F
  pub store : W
  pub bus : B

pub data EngineError : Type 0 where
  empty_session_id session_id_required invalid_session no_player_id : EngineError
  no_players : String → EngineError
  session_exists session_not_found not_eligible no_outcome : String → EngineError
  save_failed load_failed list_failed career_failed : EngineError
  completion_not_saved : String → EngineError
  player_not_found : String → String → EngineError
  turn_failed shuffle_failed deal_failed : Error → EngineError

pub data Outcome {ℓ} (A : Type ℓ) : Type ℓ where
  done : A → Outcome A
  failed : EngineError → Outcome A

abbrev pub is_true : Option Bool → Bool
is_true (some true) = true
is_true _ = false

module _ {F : Type 0} where
  unfoldable pub new_game_manager : GameManager F
  new_game_manager = record {
    sessions = [];
    recovered_ids = [];
    ledger_profiles = [];
    game_engine = none;
  }

  unfoldable pub set_game_engine : Option GameEngine → GameManager F → GameManager F
  set_game_engine engine m = record m { game_engine = engine }

  -- A map entry with its key removed from the recovered ones, as three operations do.
  unfoldable pub register : String → GameSession → GameManager F → GameManager F
  unfolding put_key delete_key
  register id s m = record m {
    sessions = put_key id s m.sessions;
    recovered_ids = delete_key id m.recovered_ids;
  }

  unfoldable pub create_session :
      String → List String → GameManager F → Outcome GameSession × GameManager F
  unfolding register find_key new_game_session
  create_session id players m =
      if str_eq id "" then (failed empty_session_id, m) else elim (find_key id m.sessions) [
        | some _ ↦ (failed (session_exists id), m)
        | none ↦ let s = new_game_session id players in (done s, register id s m)
      ]

  -- `AddSession` and `addSessionLocked`; `none` is a nil session.
  unfoldable pub add_session :
      Option GameSession → GameManager F → Outcome (Unit {0}) × GameManager F
  unfolding register
  add_session none m = (failed invalid_session, m)
  add_session (some s) m =
      if str_eq s.session_id ""
      then (failed invalid_session, m)
      else (done tt, register s.session_id s m)

  unfoldable pub evict_session : String → GameManager F → GameManager F
  unfolding delete_key
  evict_session id m = record m { sessions = delete_key id m.sessions }

  -- The loop of `BootstrapActiveSessions`.
  unfoldable pub note_recovered : List String → GameManager F → GameManager F
  unfolding find_key put_key
  note_recovered [] m = m
  note_recovered (id ∷ ids) m = note_recovered ids (elim (find_key id m.sessions) [
    | some _ ↦ m
    | none ↦ record m { recovered_ids = put_key id true m.recovered_ids }
  ])

module _ {F W B : Type 0} (x : Services F W B) where
  unfoldable pub bootstrap_active_sessions : World F W B → Outcome (Unit {0}) × World F W B
  unfolding note_recovered
  bootstrap_active_sessions w =
      let (answer, store) = x.list_active_session_ids w.store in
      elim answer [
        | none ↦ (failed list_failed, record w { store = store })
        | some ids ↦ (done tt, record w { store = store; manager = note_recovered ids w.manager })
      ]

  unfoldable pub persist_state : GameSession → World F W B → Outcome (Unit {0}) × World F W B
  persist_state s w =
      let (fine, store) = x.save_session s w.store in
      (if fine then done tt else failed save_failed, record w { store = store })

  -- What the read of a session gives: the session is registered under its own id.
  unfoldable pub hydrated :
      Option (Option GameSession) → World F W B → Outcome GameSession × World F W B
  unfolding add_session
  hydrated none w = (failed load_failed, w)
  hydrated (some none) w = (failed invalid_session, w)
  hydrated (some (some s)) w =
      let (r, m) = add_session (some s) w.manager in
      (elim r [ done _ ↦ done s | failed e ↦ failed e ], record w { manager = m })

  unfoldable pub hydrate_recovered_session :
      String → World F W B → Outcome GameSession × World F W B
  unfolding find_key hydrated
  hydrate_recovered_session id w = elim (find_key id w.manager.sessions) [
    | some s ↦ (done s, w)
    | none ↦
        if is_true (find_key id w.manager.recovered_ids)
        then (let (answer, store) = x.get_session id w.store in
            hydrated answer (record w { store = store }))
        else (failed (not_eligible id), w)
  ]

  -- `none` where the code answers false.
  unfoldable pub get_session : String → World F W B → Option GameSession × World F W B
  unfolding find_key hydrate_recovered_session
  get_session id w = elim (find_key id w.manager.sessions) [
    | some s ↦ (some s, w)
    | none ↦
        let (r, w') = hydrate_recovered_session id w in
        if is_true (find_key id w.manager.recovered_ids)
        then (elim r [ done s ↦ some s | failed _ ↦ none ], w')
        else (none, w)
  ]

  -- The entry of a session that was just read, which stands under the id asked for only if that is its own.
  unfoldable pub look_again :
      String → Outcome GameSession × World F W B → Outcome GameSession × World F W B
  unfolding find_key
  look_again id (failed e, w) = (failed e, w)
  look_again id (done _, w) = elim (find_key id w.manager.sessions) [
    | some s ↦ (done s, w)
    | none ↦ (failed (session_not_found id), w)
  ]

  unfoldable pub lookup_session : String → World F W B → Outcome GameSession × World F W B
  unfolding find_key hydrate_recovered_session look_again
  lookup_session id w = elim (find_key id w.manager.sessions) [
    | some s ↦ (done s, w)
    | none ↦
        let r = look_again id (hydrate_recovered_session id w) in
        if is_true (find_key id w.manager.recovered_ids)
        then r
        else (failed (session_not_found id), w)
  ]

module _ {F W B : Type 0} where
  -- A write through the pointer of the entry.
  unfoldable pub write_session : String → GameSession → World F W B → World F W B
  unfolding put_key
  write_session id s w = record w {
    manager = record w.manager { sessions = put_key id s w.manager.sessions };
  }

module _ {F W B : Type 0} (x : Services F W B) where
  unfoldable pub written :
      String → Outcome (Unit {0}) × GameSession → World F W B → Outcome (Unit {0}) × World F W B
  unfolding write_session persist_state
  written id (failed e, s) w = (failed e, write_session id s w)
  written id (done _, s) w = persist_state x s (write_session id s w)

  unfoldable pub write_found :
      String
      → (GameSession → Outcome (Unit {0}) × GameSession)
      → Outcome GameSession × World F W B
      → Outcome (Unit {0}) × World F W B
  unfolding written
  write_found id fn (failed e, w) = (failed e, w)
  write_found id fn (done s, w) = written id (fn s) w

  -- `fn` may change the session and then fail; only without an error is it saved.
  unfoldable pub with_session_write :
      String
      → (GameSession → Outcome (Unit {0}) × GameSession)
      → World F W B
      → Outcome (Unit {0}) × World F W B
  unfolding lookup_session write_found
  with_session_write id fn w = write_found id fn (lookup_session x id w)
