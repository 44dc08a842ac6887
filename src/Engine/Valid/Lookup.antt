-- ===== src/Engine/Valid/Lookup.antt =====
-- The registry stays valid under the calls that create, add, read and look up sessions.
use domino_jc_project.Prelude.{
  ◌≡◌, refl, ◌∙◌, sym, String, str_eq, true, Option, none, some, List, [], ◌∷◌, find_key, put_key,
  eq_iff, arith, Bool-cases, Option-cases, inl, inr, false≢true,
}
use domino_jc_project.Models.Session.{GameSession, new_game_session}
use domino_jc_project.Models.Board.{IsBoard}
use domino_jc_project.Engine.Manager.{
  Services, World, GameManager, Outcome, done, failed, register, create_session, add_session,
  note_recovered, hydrated, hydrate_recovered_session, get_session, look_again, lookup_session,
  write_session, is_true,
}
use domino_jc_project.Engine.Valid.Sessions.{IsSession, IsValid, put_key-IsValid}

module _ {F : Type 0} where
  register-IsValid :
      (id : String) (s : GameSession) (m : GameManager F)
      → IsValid m.sessions
      → IsSession id s
      → IsValid (register id s m).sessions
  unfolding register
  register-IsValid id s m v good = put_key-IsValid id s m.sessions v good

  pub create_session-IsValid :
      (id : String) (uids : List String) (m : GameManager F)
      → IsValid m.sessions
      → IsValid (create_session id uids m).1.sessions
  unfolding create_session new_game_session
  create_session-IsValid id uids m v = elim (Bool-cases (str_eq id "")) [
    | inl e ↦ rw (e, create_session) v
    | inr e ↦ elim (Option-cases (find_key id m.sessions)) [
      | inr (s, f) ↦ rw (e, f, create_session) v
      | inl f ↦
          rw (e, f, create_session)
            (register-IsValid id (new_game_session id uids) m v (record {
              named = λ q. false≢true (sym e ∙ (eq_iff id "").1 q);
              own = refl;
              board = record { linked = tt; ends = (refl, refl); pips = tt };
            }))
    ]
  ]

  -- A session that is added has a board that is a chain.
  pub add_session-IsValid :
      (s : GameSession) (m : GameManager F)
      → IsValid m.sessions
      → IsBoard s
      → IsValid (add_session (some s) m).1.sessions
  unfolding add_session
  add_session-IsValid s m v b = elim (Bool-cases (str_eq s.session_id "")) [
    | inl e ↦ rw (e, add_session) v
    | inr e ↦
        rw (e, add_session)
          (register-IsValid s.session_id s m v (record {
            named = λ q. false≢true (sym e ∙ (eq_iff s.session_id "").1 q);
            own = refl;
            board = b;
          }))
  ]

  pub note_recovered-sessions :
      (ids : List String) (m : GameManager F) → (note_recovered ids m).sessions ≡ m.sessions
  unfolding note_recovered
  note_recovered-sessions [] m = refl
  note_recovered-sessions (id ∷ ids) m = elim (Option-cases (find_key id m.sessions)) [
    | inr (s, e) ↦ rw (e, note_recovered) (note_recovered-sessions ids m)
    | inl e ↦
        rw (e, note_recovered)
          (note_recovered-sessions ids
            (record m { recovered_ids = put_key id true m.recovered_ids }))
  ]

-- A world whose registry is valid.
abbrev pub IsValidWorld : {F W B : Type 0} → World F W B → Type 0
IsValidWorld w = IsValid w.manager.sessions

module _ {F W B : Type 0} where
  pub write_session-IsValid :
      (id : String) (s : GameSession) (w : World F W B)
      → IsValidWorld w
      → IsSession id s
      → IsValidWorld (write_session id s w)
  unfolding write_session
  write_session-IsValid id s w v good = put_key-IsValid id s w.manager.sessions v good

module _ {F W B : Type 0} (x : Services F W B) where
  -- The repository gives back sessions whose board is a chain, as those that are saved.
  abbrev pub GivesBoards : Type 0
  GivesBoards =
      (id : String) (store : W) (s : GameSession)
      → (x.get_session id store).0 ≡ some (some s)
      → IsBoard s

  hydrated-IsValid :
      (a : Option (Option GameSession)) (w : World F W B)
      → ((s : GameSession) → a ≡ some (some s) → IsBoard s)
      → IsValidWorld w
      → IsValidWorld (hydrated x a w).1
  unfolding hydrated
  hydrated-IsValid none w boards v = v
  hydrated-IsValid (some none) w boards v = v
  hydrated-IsValid (some (some s)) w boards v = add_session-IsValid s w.manager v (boards s refl)

  hydrate-IsValid :
      (id : String) (w : World F W B)
      → GivesBoards
      → IsValidWorld w
      → IsValidWorld (hydrate_recovered_session x id w).1
  unfolding hydrate_recovered_session
  hydrate-IsValid id w boards v = elim (Option-cases (find_key id w.manager.sessions)) [
    | inr (s, e) ↦ rw (e, hydrate_recovered_session) v
    | inl e ↦ elim (Bool-cases (is_true (find_key id w.manager.recovered_ids))) [
      | inl f ↦
          rw (e, f, hydrate_recovered_session)
            (hydrated-IsValid (x.get_session id w.store).0
              (record w { store = (x.get_session id w.store).1 }) (boards id w.store) v)
      | inr f ↦ rw (e, f, hydrate_recovered_session) v
    ]
  ]

  pub get_session-IsValid :
      (id : String) (w : World F W B)
      → GivesBoards
      → IsValidWorld w
      → IsValidWorld (get_session x id w).1
  unfolding get_session
  get_session-IsValid id w boards v = elim (Option-cases (find_key id w.manager.sessions)) [
    | inr (s, e) ↦ rw (e, get_session) v
    | inl e ↦ elim (Bool-cases (is_true (find_key id w.manager.recovered_ids))) [
      | inl f ↦ rw (e, f, get_session) (hydrate-IsValid id w boards v)
      | inr f ↦ rw (e, f, get_session) v
    ]
  ]

  -- What a look-up leaves: a valid registry, in which the session that it found stands.
  pub record IsFound (id : String) (r : Outcome GameSession × World F W B) : Type 0 where
    pub valid : IsValidWorld r.1
    pub good : (s : GameSession) → r.0 ≡ done s → IsSession id s

  look_again-IsFound :
      (id : String) (r : Outcome GameSession × World F W B)
      → IsValidWorld r.1
      → IsFound id (look_again x id r)
  unfolding look_again
  look_again-IsFound id (failed e, w) v = record { valid = v; good = λ s q. absurd (cc q) }
  look_again-IsFound id (done _, w) v = elim (Option-cases (find_key id w.manager.sessions)) [
    | inl e ↦ rw (e, look_again) (record { valid = v; good = λ s q. absurd (cc q) })
    | inr (t, e) ↦
        rw (e, look_again) (record { valid = v; good = λ s q. v id s (e ∙ ground (arith, q)) })
  ]

  pub lookup_session-IsFound :
      (id : String) (w : World F W B)
      → GivesBoards
      → IsValidWorld w
      → IsFound id (lookup_session x id w)
  unfolding lookup_session
  lookup_session-IsFound id w boards v = elim (Option-cases (find_key id w.manager.sessions)) [
    | inr (t, e) ↦
        rw (e, lookup_session) (record { valid = v; good = λ s q. v id s (e ∙ ground (arith, q)) })
    | inl e ↦ elim (Bool-cases (is_true (find_key id w.manager.recovered_ids))) [
      | inl f ↦
          rw (e, f, lookup_session)
            (look_again-IsFound id (hydrate_recovered_session x id w)
              (hydrate-IsValid id w boards v))
      | inr f ↦ rw (e, f, lookup_session) (record { valid = v; good = λ s q. absurd (cc q) })
    ]
  ]
