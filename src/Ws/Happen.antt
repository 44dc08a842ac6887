-- ===== src/Ws/Happen.antt =====
-- What can happen to a hub, from its loop and from around it (pkg/ws/hub.go, client.go).
use domino_jc_project.Prelude.{ℕ, String, Option, none, some, List, [], ◌∷◌, get_elem?}
use domino_jc_project.Models.Session.{GameSession}
use domino_jc_project.Consensus.Node.{Bytes}
use domino_jc_project.Engine.Manager.{PlayerStatsUpdate}
use domino_jc_project.Ws.Hub.{SessionDelta, Outside, Hub, ◌>>=◌, put_socket, offer, timer_fires}
use domino_jc_project.Models.Evaluate.{MatchOutcome}
use domino_jc_project.Ws.Loop.{
  register_client, unregister_client, next_abandonment, handle_stats_broadcast,
  handle_session_broadcast,
}
use domino_jc_project.Ws.Terminate.{terminate_match}

-- What can happen to a hub: a connection is made, a client leaves, a timer fires, the loop takes a
-- message, a client writes out a frame, a match is terminated.
pub data Happening (F : Type 0) : Type 0 where
  joins : String → String → Happening F
  leaves fires drains : ℕ → Happening F
  abandonment : Happening F
  stats : String → List (PlayerStatsUpdate F) → Happening F
  delta : SessionDelta → Happening F
  termination : ℕ → String → Option MatchOutcome → Option GameSession → Happening F

module _ {A : Type 0} where
  -- `writePump` takes the first frame of its channel.
  unfoldable pub drain : ℕ → Hub A → Hub A
  unfolding put_socket
  drain i h = elim (get_elem? h.sockets i) [
    | none ↦ h
    | some c ↦ elim c.queue [ [] ↦ h | _ ∷ rest ↦ put_socket i (record c { queue = rest }) h ]
  ]

  -- `sendError`, which the reader of a client calls outside the loop.
  unfoldable pub send_error : ℕ → Bytes → Hub A → Option (Hub A)
  unfolding offer
  send_error i frame h = offer i frame h >>= λ r. some r.1

module _ {F A : Type 0} (x : Outside F A) where
  unfoldable pub happen : Happening F → Hub A → Option (Hub A)
  unfolding register_client unregister_client timer_fires drain next_abandonment
      handle_stats_broadcast handle_session_broadcast terminate_match
  happen (joins session player) h = register_client x session player h
  happen (leaves i) h = unregister_client i h
  happen (fires k) h = some (timer_fires k h)
  happen (drains i) h = some (drain i h)
  happen abandonment h = some (next_abandonment x h)
  happen (stats session updates) h = handle_stats_broadcast x session updates h
  happen (delta d) h = handle_session_broadcast x d h
  happen (termination now session outcome final) h = terminate_match x now session outcome final h

  unfoldable pub happen_all : List (Happening F) → Hub A → Option (Hub A)
  unfolding happen
  happen_all [] h = some h
  happen_all (e ∷ es) h = happen e h >>= happen_all es
