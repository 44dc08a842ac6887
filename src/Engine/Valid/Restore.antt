-- ===== src/Engine/Valid/Restore.antt =====
-- A registry that comes from a snapshot (pkg/engine/replicated.go) is valid, if the snapshot is.
use domino_jc_project.Prelude.{
  ◌≡◌, sym, String, str_eq, eq_iff, Option, none, some, [], ◌∷◌, StringMap, find_key, put_key, All,
  Bool-cases, inl, inr, false≢true, ◌∙◌,
}
use domino_jc_project.Models.Session.{GameSession}
use domino_jc_project.Models.Board.{IsBoard}
use domino_jc_project.Engine.Manager.{Services, World, PlayerStatsUpdate, GameManager}
use domino_jc_project.Engine.Replicated.{
  restore_from, restore_sessions, apply_replicated_ledger_balance, career_of,
}
use domino_jc_project.Engine.Valid.Sessions.{IsValid, put_key-IsValid}
use domino_jc_project.Engine.Valid.Lookup.{IsValidWorld}

-- A session of a snapshot stands under its own id, and its board is a chain.
abbrev pub IsKept : String × Option GameSession → Type 0
IsKept (id, none) = Unit
IsKept (id, some s) = (s.session_id ≡ id) × IsBoard s

restore_from-IsValid :
    (snapshot : StringMap (Option GameSession)) (sessions : StringMap GameSession)
    → All IsKept snapshot
    → IsValid sessions
    → IsValid (restore_from snapshot sessions)
unfolding restore_from
restore_from-IsValid [] sessions kept v = v
restore_from-IsValid ((id, none) ∷ more) sessions kept v =
    restore_from-IsValid more sessions kept.1 v
restore_from-IsValid ((id, some s) ∷ more) sessions (good, kept) v =
    elim (Bool-cases (str_eq id "")) [
      | inl e ↦ rw (e, restore_from) (restore_from-IsValid more sessions kept v)
      | inr e ↦
          rw (e, restore_from)
            (restore_from-IsValid more (put_key id s sessions) kept (
              put_key-IsValid id s sessions v (record {
                named = λ q. false≢true (sym e ∙ (eq_iff id "").1 q);
                own = good.0;
                board = good.1;
              })))
    ]

module _ {F : Type 0} where
  pub restore_sessions-IsValid :
      (snapshot : StringMap (Option GameSession)) (m : GameManager F)
      → All IsKept snapshot
      → IsValid (restore_sessions snapshot m).sessions
  unfolding restore_sessions find_key
  restore_sessions-IsValid snapshot m kept =
      restore_from-IsValid snapshot [] kept (λ j s h. absurd (cc h))

module _ {F W B : Type 0} (x : Services F W B) where
  pub ledger-IsValid :
      (u : PlayerStatsUpdate F) (w : World F W B)
      → IsValidWorld w
      → IsValidWorld (apply_replicated_ledger_balance x u w).1
  unfolding apply_replicated_ledger_balance
  ledger-IsValid u w v = elim (Bool-cases (str_eq u.player_id "")) [
    | inl e ↦ rw (e, apply_replicated_ledger_balance) v
    | inr e ↦ elim (Bool-cases (x.update_player_careers (career_of x u ∷ []) w.store).0) [
      | inl f ↦ rw (e, f, apply_replicated_ledger_balance) v
      | inr f ↦ rw (e, f, apply_replicated_ledger_balance) v
    ]
  ]
