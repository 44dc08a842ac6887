-- ===== src/Ws/SendEnd.antt =====
-- What is sent when a match is terminated goes to open channels.
use domino_jc_project.Prelude.{
  ℕ, String, Option, none, some, [], ◌∷◌, StringMap, Bool-cases, inl, inr,
}
use domino_jc_project.Models.Session.{GameSession}
use domino_jc_project.Models.View.{view_for_player}
use domino_jc_project.Models.Evaluate.{MatchOutcome}
use domino_jc_project.Consensus.Node.{Bytes}
use domino_jc_project.Ws.Nested.{inner}
use domino_jc_project.Ws.Hub.{Outside, MatchRecord, Hub, send_to_player}
use domino_jc_project.Ws.Loop.{marshal_state_snapshot_envelope, send_if_some}
use domino_jc_project.Ws.Terminate.{
  enqueue_if_some, record_match, send_ends, terminate_with, match_end_envelope, terminate_match,
}
use domino_jc_project.Ws.Tidy.{IsTidy, IsSafe, some-IsSafe, then-IsSafe}
use domino_jc_project.Ws.Send.{send_to_player-IsSafe, send_if_some-IsSafe}

module _ {F A : Type 0} (x : Outside F A) where
  enqueue_if_some-IsTidy :
      (r : Option MatchRecord) (h : Hub A) → IsTidy h → IsTidy (enqueue_if_some x r h)
  unfolding enqueue_if_some
  enqueue_if_some-IsTidy none h t = t
  enqueue_if_some-IsTidy (some r) h t = t

  record_match-IsTidy :
      (now : ℕ) (o : MatchOutcome) (s : GameSession) (h : Hub A)
      → IsTidy h
      → IsTidy (record_match x now o s h)
  unfolding record_match
  record_match-IsTidy now o s h t = elim (Bool-cases x.has_ledger) [
    | inl e ↦ rw (e, record_match) (enqueue_if_some-IsTidy _ h t)
    | inr e ↦ rw (e, record_match) t
  ]

  send_ends-IsSafe :
      (id : String) (s : GameSession) (frame : Bytes) (players : StringMap ℕ) (h : Hub A)
      → IsTidy h
      → IsSafe (send_ends x id s frame players h)
  unfolding send_ends
  send_ends-IsSafe id s frame [] h t = some-IsSafe h t
  send_ends-IsSafe id s frame ((player, _) ∷ players) h t =
      let view = marshal_state_snapshot_envelope x (view_for_player s player) in
      then-IsSafe (send_to_player id player frame h) _ (send_to_player-IsSafe id player frame h t)
        (λ h1 t1.
          then-IsSafe (send_if_some x id player view h1) (send_ends x id s frame players)
            (send_if_some-IsSafe x id player view h1 t1)
            (λ h2 t2. send_ends-IsSafe id s frame players h2 t2))

  terminate_with-IsSafe :
      (now : ℕ) (id : String) (o : MatchOutcome) (s : GameSession) (frame : Option Bytes)
      (h : Hub A)
      → IsTidy h
      → IsSafe (terminate_with x now id o s frame h)
  unfolding terminate_with
  terminate_with-IsSafe now id o s none h t = some-IsSafe h t
  terminate_with-IsSafe now id o s (some frame) h t =
      then-IsSafe (send_ends x id s frame (inner id h.clients) h) _
        (send_ends-IsSafe id s frame (inner id h.clients) h t)
        (λ h' t'. some-IsSafe _ (record_match-IsTidy now o s h' t'))

  pub terminate_match-IsSafe :
      (now : ℕ) (id : String) (o : Option MatchOutcome) (s : Option GameSession) (h : Hub A)
      → IsTidy h
      → IsSafe (terminate_match x now id o s h)
  unfolding terminate_match
  terminate_match-IsSafe now id none s h t = some-IsSafe h t
  terminate_match-IsSafe now id (some o) none h t = some-IsSafe h t
  terminate_match-IsSafe now id (some o) (some s) h t =
      terminate_with-IsSafe now id o s (match_end_envelope x id o s) h t
