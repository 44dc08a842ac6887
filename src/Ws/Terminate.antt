-- ===== src/Ws/Terminate.antt =====
-- pkg/ws/hub.go: `TerminateMatch`, with the record of pkg/models/models.go that goes to the ledger. It runs
-- outside the loop, but holds the lock of the hub while it sends.
use domino_jc_project.Prelude.{
  ℕ, String, Option, none, some, List, [], ◌∷◌, StringMap, if◌then◌else◌,
}
use domino_jc_project.Models.Session.{GameSession}
use domino_jc_project.Models.View.{view_for_player}
use domino_jc_project.Models.Evaluate.{EndReason, MatchOutcome, Scores}
use domino_jc_project.Consensus.Node.{Bytes}
use domino_jc_project.Ws.Nested.{inner}
use domino_jc_project.Ws.Hub.{Outside, Player, MatchRecord, Hub, ◌>>=◌, send_to_player}
use domino_jc_project.Ws.Loop.{marshal_state_snapshot_envelope, send_if_some}

abbrev type_player : String
type_player = "Player"

abbrev type_match_record : String
type_match_record = "MatchRecord"

unfoldable pub ledger_players : List String → List Player
ledger_players [] = []
ledger_players (id ∷ ids) =
    record { d_type = type_player ∷ []; player_id = id } ∷ ledger_players ids

module _ {F A : Type 0} (x : Outside F A) where
  unfoldable pub new_match_record :
      ℕ → String → String → Scores → EndReason → List Player → Option MatchRecord
  new_match_record now match_id winner_id scores reason players = x.write_scores scores >>= λ text.
      some (record {
        d_type = type_match_record ∷ [];
        match_id = match_id;
        winner = winner_id;
        scores = text;
        end_time = now;
        end_reason = reason;
        players = players;
      })

  unfoldable pub enqueue_if_some : Option MatchRecord → Hub A → Hub A
  enqueue_if_some none h = h
  enqueue_if_some (some match_record) h = record h { game = x.enqueue match_record h.game }

  unfoldable pub record_match : ℕ → MatchOutcome → GameSession → Hub A → Hub A
  unfolding enqueue_if_some new_match_record ledger_players
  record_match now outcome session h =
      if x.has_ledger
      then enqueue_if_some
          (new_match_record now outcome.match_id outcome.winner_id outcome.scores outcome.reason
            (ledger_players session.players))
          h
      else h

  -- Each client gets the end of the match, and the session as its player may see it.
  unfoldable pub send_ends : String → GameSession → Bytes → StringMap ℕ → Hub A → Option (Hub A)
  unfolding send_to_player send_if_some marshal_state_snapshot_envelope view_for_player
  send_ends session_id session frame [] h = some h
  send_ends session_id session frame ((player, _) ∷ players) h = do
    h ← send_to_player session_id player frame h
    h ←
        send_if_some x session_id player
          (marshal_state_snapshot_envelope x (view_for_player session player)) h
    send_ends session_id session frame players h

  unfoldable pub terminate_with :
      ℕ → String → MatchOutcome → GameSession → Option Bytes → Hub A → Option (Hub A)
  unfolding send_ends record_match inner
  terminate_with now session_id outcome session none h = some h
  terminate_with now session_id outcome session (some frame) h =
      send_ends session_id session frame (inner session_id h.clients) h >>= λ h'.
      some (record_match now outcome session h')

  unfoldable pub match_end_envelope : String → MatchOutcome → GameSession → Option Bytes
  match_end_envelope session_id outcome session =
      x.write_match_end (record {
        session_id = session_id;
        winner_id = outcome.winner_id;
        reason = outcome.reason;
        scores = outcome.scores;
        status = session.status;
      })
      >>= x.write_envelope "MATCH_END"

  unfoldable pub terminate_match :
      ℕ → String → Option MatchOutcome → Option GameSession → Hub A → Option (Hub A)
  unfolding terminate_with match_end_envelope
  terminate_match now session_id none session h = some h
  terminate_match now session_id (some outcome) none h = some h
  terminate_match now session_id (some outcome) (some session) h =
      terminate_with now session_id outcome session (match_end_envelope session_id outcome session)
        h
