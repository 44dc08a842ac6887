-- ===== src/Engine/StartFrame.antt =====
-- The commands that start a match or keep a balance leave the entries of the other sessions alone.
use domino_jc_project.Prelude.{
  ◌≡◌, ◌≢◌, refl, ◌∙◌, ap, String, str_eq, find_key, Bool-cases, Option-cases, inl, inr, List, [],
  ◌∷◌,
}
use domino_jc_project.Models.Session.{GameSession}
use domino_jc_project.Engine.Manager.{
  PlayerStatsUpdate, Services, World, GameManager, Outcome, done, failed, create_session,
  lookup_session, write_session,
}
use domino_jc_project.Engine.Replicated.{
  ReplicatedMatchSetup, create_and_lookup, found_created, prepare_match, save_prepared, career_of,
  is_empty, or_create, start_found, apply_replicated_start_match, apply_replicated_ledger_balance,
}
use domino_jc_project.Engine.Frame.{
  Frames, write_session-Frames, register-Frames, IsKeyed, manager-persist_state,
  lookup_session-Frames,
}

module _ {F W B : Type 0} (x : Services F W B) where
  create_session-Frames :
      (id j : String) (uids : List String) (m : GameManager F)
      → id ≢ j
      → find_key j (create_session id uids m).1.sessions ≡ find_key j m.sessions
  unfolding create_session
  create_session-Frames id j uids m ne = elim (Bool-cases (str_eq id "")) [
    | inl e ↦ rw (e, create_session)
    | inr e ↦ elim (Option-cases (find_key id m.sessions)) [
      | inl f ↦ rw (e, f, create_session) (register-Frames id j _ m ne)
      | inr (s, f) ↦ rw (e, f, create_session)
    ]
  ]

  create_and_lookup-Frames :
      (id j : String) (uids : List String) (w : World F W B)
      → IsKeyed x
      → id ≢ j
      → Frames j w (create_and_lookup x id uids w).1
  unfolding create_and_lookup
  create_and_lookup-Frames id j uids w keyed ne = created (create_session id uids w.manager) refl
    where
      created :
          (p : Outcome GameSession × GameManager F)
          → p ≡ create_session id uids w.manager
          → Frames j w (found_created x id w p).1
      created (failed e, m) q =
          ap (λ r. find_key j (GameManager.sessions r.1)) q
          ∙ create_session-Frames id j uids w.manager ne
      created (done s, m) q =
          lookup_session-Frames x id j (record w { manager = m }) keyed ne
          ∙ ap (λ r. find_key j (GameManager.sessions r.1)) q
          ∙ create_session-Frames id j uids w.manager ne

  or_create-Frames :
      (id j : String) (uids : List String) (p : Outcome GameSession × World F W B)
      → IsKeyed x
      → id ≢ j
      → Frames j p.1 (or_create x id uids p).1
  unfolding or_create
  or_create-Frames id j uids (done s, w) keyed ne = refl
  or_create-Frames id j uids (failed e, w) keyed ne = create_and_lookup-Frames id j uids w keyed ne

  save_prepared-Frames :
      (id j : String) (p : Outcome (Unit {0}) × GameSession) (w : World F W B)
      → id ≢ j
      → Frames j w (save_prepared x id p w).1
  unfolding save_prepared
  save_prepared-Frames id j (failed e, s) w ne = write_session-Frames id j s w ne
  save_prepared-Frames id j (done _, s) w ne =
      ap (λ m. find_key j (GameManager.sessions m))
        (manager-persist_state x s (write_session id s w))
      ∙ write_session-Frames id j s w ne

  start_found-Frames :
      (id j : String) (setup : ReplicatedMatchSetup) (p : Outcome GameSession × World F W B)
      → id ≢ j
      → Frames j p.1 (start_found x id setup p).1
  unfolding start_found
  start_found-Frames id j setup (failed e, w) ne = refl
  start_found-Frames id j setup (done s, w) ne =
      save_prepared-Frames id j (prepare_match x id setup s) w ne

  pub apply_replicated_start_match-Frames :
      (id j : String) (setup : ReplicatedMatchSetup) (w : World F W B)
      → IsKeyed x
      → id ≢ j
      → Frames j w (apply_replicated_start_match x id setup w).1
  unfolding apply_replicated_start_match
  apply_replicated_start_match-Frames id j setup w keyed ne = elim (Bool-cases (str_eq id "")) [
    | inl e ↦ rw (e, apply_replicated_start_match)
    | inr e ↦ elim (Bool-cases (is_empty setup.player_uids)) [
      | inl f ↦ rw (e, f, apply_replicated_start_match)
      | inr f ↦
          let found = lookup_session x id w in
          rw (e, f, apply_replicated_start_match)
            (start_found-Frames id j setup (or_create x id setup.player_uids found) ne
              ∙ or_create-Frames id j setup.player_uids found keyed ne
              ∙ lookup_session-Frames x id j w keyed ne)
    ]
  ]

  pub apply_replicated_ledger_balance-Frames :
      (u : PlayerStatsUpdate F) (j : String) (w : World F W B)
      → Frames j w (apply_replicated_ledger_balance x u w).1
  unfolding apply_replicated_ledger_balance
  apply_replicated_ledger_balance-Frames u j w = elim (Bool-cases (str_eq u.player_id "")) [
    | inl e ↦ rw (e, apply_replicated_ledger_balance)
    | inr e ↦ elim (Bool-cases (x.update_player_careers (career_of x u ∷ []) w.store).0) [
      | inl f ↦ rw (e, f, apply_replicated_ledger_balance)
      | inr f ↦ rw (e, f, apply_replicated_ledger_balance)
    ]
  ]
