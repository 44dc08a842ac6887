-- ===== src/Gateway/HiddenDelta.antt =====
-- What one connected player learns of a session from the deltas.
use domino_jc_project.Prelude.{
  ℕ, String, str_eq, ◌≡◌, refl, sym, ap, ◌∙◌, false, Option, none, some, ◌∷◌, get_elem?,
}
use domino_jc_project.Models.Session.{GameSession, is_completed}
use domino_jc_project.Models.Turn.{TurnResult}
use domino_jc_project.Models.View.Secrecy.{Indistinct, view_for_player-Indistinct}
use domino_jc_project.Consensus.Node.{Bytes}
use domino_jc_project.Engine.Fsm.{ApplyResult}
use domino_jc_project.Ws.Nested.{inner, find_in}
use domino_jc_project.Ws.Tidy.{IsTidy}
use domino_jc_project.Ws.Receive.{Leaves, received_all, send_deltas-Leaves}
use domino_jc_project.Ws.Hub.{SessionDelta, Outside, Client, Hub, ◌>>=◌}
use domino_jc_project.Ws.Loop.{
  delta_session, marshal_session_delta_envelope, decode_session, handle_session_broadcast,
}
use domino_jc_project.Gateway.Deltas.{session_delta}

-- The session is written as bytes from which it is read back.
pub record IsWritten {F A : Type 0} (x : Outside F A) (s : GameSession) : Type 0 where
  pub first : ℕ
  pub rest : Bytes
  pub written : x.write_session s ≡ some (first ∷ rest)
  pub read : x.read_session (first ∷ rest) ≡ some s

then_same :
    {A B : Type 0} (o o' : Option A) (f g : A → Option B)
    → o ≡ o'
    → ((a : A) → f a ≡ g a)
    → (o >>= f) ≡ (o' >>= g)
then_same none o' f g e k = ap (λ u. u >>= g) e
then_same (some a) o' f g e k = k a ∙ ap (λ u. u >>= g) e

module _ {F A : Type 0} (x : Outside F A) (write_turn : TurnResult → Option Bytes) where
  abbrev pub delta_with : ApplyResult F → GameSession → SessionDelta
  delta_with r s = session_delta x write_turn (record r { session = some s })

  decode_session-session_delta :
      (r : ApplyResult F) (s : GameSession)
      → IsWritten x s
      → decode_session x (delta_with r s).session ≡ some (some s)
  unfolding session_delta decode_session
  decode_session-session_delta r s w = rw (w.written, w.read)

  delta_session-Indistinct :
      (r : ApplyResult F) (s t : GameSession) (player : String)
      → str_eq s.session_id "" ≡ false
      → is_completed s.status ≡ false
      → Indistinct player s t
      → delta_session x (delta_with r s) (some s) player
        ≡ delta_session x (delta_with r t) (some t) player
  unfolding delta_session session_delta
  delta_session-Indistinct r s t player named running e =
      let named' = ap (λ id. str_eq id "") (sym e.session_id) ∙ named in
      rw (delta_session, named, named')
        (ap x.write_session (view_for_player-Indistinct player s t running e))

  marshal-Indistinct :
      (r : ApplyResult F) (s t : GameSession) (player : String)
      → str_eq s.session_id "" ≡ false
      → is_completed s.status ≡ false
      → Indistinct player s t
      → marshal_session_delta_envelope x (delta_with r s) (some s) player
        ≡ marshal_session_delta_envelope x (delta_with r t) (some t) player
  unfolding marshal_session_delta_envelope session_delta
  marshal-Indistinct r s t player named running e =
      then_same _ _ _ _ (delta_session-Indistinct r s t player named running e) (λ raw. refl)

  received_all-Indistinct :
      (r : ApplyResult F) (s t : GameSession) (player : String) (c : Client) (h : Hub A)
      → str_eq s.session_id "" ≡ false
      → is_completed s.status ≡ false
      → Indistinct player s t
      → received_all player
          (marshal_session_delta_envelope x (delta_with r s) (some s) player)
          (inner r.match_id h.clients)
          c
        ≡ received_all player
            (marshal_session_delta_envelope x (delta_with r t) (some t) player)
            (inner r.match_id h.clients)
            c
  received_all-Indistinct r s t player c h named running e =
      ap (λ frame. received_all player frame (inner r.match_id h.clients) c)
        (marshal-Indistinct r s t player named running e)

  handle_session_broadcast-Leaves :
      (r : ApplyResult F) (s : GameSession) (player : String) (i : ℕ) (c : Client) (h : Hub A)
      → IsWritten x s
      → IsTidy h
      → find_in r.match_id player h.clients ≡ some i
      → get_elem? h.sockets i ≡ some c
      → Leaves i
          (received_all player
            (marshal_session_delta_envelope x (delta_with r s) (some s) player)
            (inner r.match_id h.clients)
            c)
          h
          (handle_session_broadcast x (delta_with r s) h)
  unfolding handle_session_broadcast session_delta
  handle_session_broadcast-Leaves r s player i c h w tidy here at =
      rw (handle_session_broadcast, decode_session-session_delta r s w)
        (send_deltas-Leaves x (delta_with r s) (some s) player (inner r.match_id h.clients) i c h
          tidy here at)

  -- A player is connected to a tidy hub and cannot tell two sessions of a match in play apart, whatever the
  -- other players can. Then the hub handles the delta of either session without a panic, and the player's
  -- client is afterwards the same, with the same frames, if JSON reads both sessions back, they have an
  -- id, and the deltas agree in all else. The result of a turn is among that: it goes to all players as
  -- it is, and what it tells is not hidden.
  pub handle_session_broadcast-Hides :
      (r : ApplyResult F) (s t : GameSession) (player : String) (i : ℕ) (h : Hub A)
      → IsWritten x s
      → IsWritten x t
      → str_eq s.session_id "" ≡ false
      → is_completed s.status ≡ false
      → Indistinct player s t
      → IsTidy h
      → find_in r.match_id player h.clients ≡ some i
      → (h1 : Hub A) × (h2 : Hub A) × (handle_session_broadcast x
            (session_delta x write_turn (record r { session = some s }))
            h
          ≡ some h1)
        × (handle_session_broadcast x (session_delta x write_turn (record r { session = some t })) h
            ≡ some h2)
        × (get_elem? h1.sockets i ≡ get_elem? h2.sockets i)
  handle_session_broadcast-Hides r s t player i h ws wt named running e tidy here =
      let seat = tidy r.match_id player i here in
      let one =
        handle_session_broadcast-Leaves r s player i seat.client h ws tidy here seat.found in
      let two =
        handle_session_broadcast-Leaves r t player i seat.client h wt tidy here seat.found in
      (
        one.hub,
        two.hub,
        one.returns,
        two.returns,
        one.place
            ∙ ap some (received_all-Indistinct r s t player seat.client h named running e)
            ∙ sym two.place,
      )
