-- ===== src/Ws/Send.antt =====
-- Everything that the hub sends goes to open channels.
use domino_jc_project.Prelude.{
  ℕ, String, ◌≡◌, refl, ap, ◌∙◌, Bool, true, false, Option, none, some, List, [], ◌∷◌, StringMap,
  Bool-cases, Option-cases, inl, inr,
}
use domino_jc_project.Models.Session.{GameSession}
use domino_jc_project.Models.View.{view_for_player}
use domino_jc_project.Consensus.Node.{Bytes}
use domino_jc_project.Engine.Manager.{PlayerStatsUpdate}
use domino_jc_project.Ws.Nested.{find_in, inner}
use domino_jc_project.Ws.Hub.{
  SessionDelta, Outside, Hub, ◌>>=◌, send_to_player, flush_frames, forget_pending,
  flush_pending_stats, buffer_stats, buffer_unless, deliver_or_buffer_stats,
}
use domino_jc_project.Ws.Loop.{
  marshal_state_snapshot_envelope, send_if_some, send_state_snapshot, greet_client, deliver_stats,
  handle_stats_broadcast, marshal_session_delta_envelope, send_deltas, decode_session,
  handle_session_broadcast,
}
use domino_jc_project.Ws.Tidy.{IsTidy, IsSafe, some-IsSafe, then-IsSafe, IsOffered, offer-IsOffered}

module _ {A : Type 0} where
  pub send_to_player-IsSafe :
      (session player : String) (frame : Bytes) (h : Hub A)
      → IsTidy h
      → IsSafe (send_to_player session player frame h)
  unfolding send_to_player
  send_to_player-IsSafe session player frame h t =
      elim (Option-cases (find_in session player h.clients)) [
        | inl e ↦ rw (e, send_to_player) (some-IsSafe h t)
        | inr (i, e) ↦
            let sent = offer-IsOffered session player i frame h e t in
            rw (e, send_to_player, sent.returns) (some-IsSafe sent.hub sent.tidy)
      ]

  flush_frames-IsOffered :
      (session player : String) (i : ℕ) (frames : List Bytes) (h : Hub A)
      → find_in session player h.clients ≡ some i
      → IsTidy h
      → IsOffered h (flush_frames i frames h)
  unfolding flush_frames
  flush_frames-IsOffered session player i [] h e t = record {
    sent = true;
    hub = h;
    returns = refl;
    tidy = t;
    clients = refl;
  }
  flush_frames-IsOffered session player i (frame ∷ frames) h e t =
      let first = offer-IsOffered session player i frame h e t in
      let rest =
        flush_frames-IsOffered session player i frames first.hub
          (ap (find_in session player) first.clients ∙ e) first.tidy in
      rw first.returns (elim (Bool-cases first.sent) [
        | inl s ↦ rw s (record {
          sent = rest.sent;
          hub = rest.hub;
          returns = rest.returns;
          tidy = rest.tidy;
          clients = rest.clients ∙ first.clients;
        })
        | inr s ↦ rw s (record {
          sent = false;
          hub = first.hub;
          returns = refl;
          tidy = first.tidy;
          clients = first.clients;
        })
      ])

  forget_pending-IsSafe :
      (session player : String) (r : Bool × Hub A)
      → IsTidy r.1
      → IsSafe (forget_pending session player r)
  unfolding forget_pending
  forget_pending-IsSafe session player (true, h) t = some-IsSafe _ t
  forget_pending-IsSafe session player (false, h) t = some-IsSafe h t

  pub flush_pending_stats-IsSafe :
      (session player : String) (h : Hub A)
      → IsTidy h
      → IsSafe (flush_pending_stats session player h)
  unfolding flush_pending_stats
  flush_pending_stats-IsSafe session player h t =
      elim (Option-cases (find_in session player h.pending_stats)) [
        | inl e ↦ rw (e, flush_pending_stats) (some-IsSafe h t)
        | inr (pending, e) ↦ elim (Option-cases (find_in session player h.clients)) [
          | inl f ↦ rw (e, f, flush_pending_stats) (some-IsSafe h t)
          | inr (i, f) ↦
              let sent = flush_frames-IsOffered session player i pending h f t in
              rw (e, f, flush_pending_stats, sent.returns)
                (forget_pending-IsSafe session player (sent.sent, sent.hub) sent.tidy)
        ]
      ]

  buffer_unless-IsSafe :
      (session player : String) (frame : Bytes) (r : Bool × Hub A)
      → IsTidy r.1
      → IsSafe (buffer_unless session player frame r)
  unfolding buffer_unless buffer_stats
  buffer_unless-IsSafe session player frame (true, h) t = some-IsSafe h t
  buffer_unless-IsSafe session player frame (false, h) t = some-IsSafe _ t

  deliver_or_buffer_stats-IsSafe :
      (session player : String) (frame : Bytes) (h : Hub A)
      → IsTidy h
      → IsSafe (deliver_or_buffer_stats session player frame h)
  unfolding deliver_or_buffer_stats buffer_stats
  deliver_or_buffer_stats-IsSafe session player frame h t =
      elim (Option-cases (find_in session player h.clients)) [
        | inl e ↦ rw (e, deliver_or_buffer_stats) (some-IsSafe _ t)
        | inr (i, e) ↦
            let sent = offer-IsOffered session player i frame h e t in
            rw (e, deliver_or_buffer_stats, sent.returns)
              (buffer_unless-IsSafe session player frame (sent.sent, sent.hub) sent.tidy)
      ]

module _ {F A : Type 0} (x : Outside F A) where
  pub send_if_some-IsSafe :
      (session player : String) (frame : Option Bytes) (h : Hub A)
      → IsTidy h
      → IsSafe (send_if_some x session player frame h)
  unfolding send_if_some
  send_if_some-IsSafe session player none h t = some-IsSafe h t
  send_if_some-IsSafe session player (some frame) h t =
      send_to_player-IsSafe session player frame h t

  pub greet_client-IsSafe :
      (session player : String) (h : Hub A) → IsTidy h → IsSafe (greet_client x session player h)
  unfolding greet_client send_state_snapshot
  greet_client-IsSafe session player h t = elim (Bool-cases x.has_actions) [
    | inr e ↦ rw (e, greet_client) (some-IsSafe h t)
    | inl e ↦
        let h' : Hub A = record h { game = (x.get_session session h.game).1 } in
        elim (Option-cases (x.get_session session h.game).0) [
          | inl f ↦ rw (e, f, greet_client) (some-IsSafe h' t)
          | inr (s, f) ↦
              rw (e, f, greet_client)
                (send_if_some-IsSafe session player
                  (marshal_state_snapshot_envelope x (view_for_player s player)) h' t)
        ]
  ]

  deliver_stats-IsSafe :
      (session : String) (u : PlayerStatsUpdate F) (h : Hub A)
      → IsTidy h
      → IsSafe (deliver_stats x session u h)
  unfolding deliver_stats
  deliver_stats-IsSafe session u h t =
      go (x.write_stats u >>= x.write_envelope "PLAYER_STATS_UPDATED")
    where
      go :
          (o : Option Bytes)
          → IsSafe (elim o [
            | none ↦ some h
            | some frame ↦ deliver_or_buffer_stats session u.player_id frame h
          ])
      go none = some-IsSafe h t
      go (some frame) = deliver_or_buffer_stats-IsSafe session u.player_id frame h t

  pub handle_stats_broadcast-IsSafe :
      (session : String) (us : List (PlayerStatsUpdate F)) (h : Hub A)
      → IsTidy h
      → IsSafe (handle_stats_broadcast x session us h)
  unfolding handle_stats_broadcast
  handle_stats_broadcast-IsSafe session [] h t = some-IsSafe h t
  handle_stats_broadcast-IsSafe session (u ∷ us) h t =
      then-IsSafe (deliver_stats x session u h) (handle_stats_broadcast x session us)
        (deliver_stats-IsSafe session u h t)
        (λ h' t'. handle_stats_broadcast-IsSafe session us h' t')

  send_deltas-IsSafe :
      (d : SessionDelta) (s : Option GameSession) (players : StringMap ℕ) (h : Hub A)
      → IsTidy h
      → IsSafe (send_deltas x d s players h)
  unfolding send_deltas
  send_deltas-IsSafe d s [] h t = some-IsSafe h t
  send_deltas-IsSafe d s ((player, i) ∷ players) h t =
      then-IsSafe (send_if_some x d.match_id player (marshal_session_delta_envelope x d s player) h)
        (send_deltas x d s players)
        (send_if_some-IsSafe d.match_id player (marshal_session_delta_envelope x d s player) h t)
        (λ h' t'. send_deltas-IsSafe d s players h' t')

  pub handle_session_broadcast-IsSafe :
      (d : SessionDelta) (h : Hub A) → IsTidy h → IsSafe (handle_session_broadcast x d h)
  unfolding handle_session_broadcast
  handle_session_broadcast-IsSafe d h t = elim (Option-cases (decode_session x d.session)) [
    | inl e ↦ rw (e, handle_session_broadcast) (some-IsSafe h t)
    | inr (s, e) ↦
        rw (e, handle_session_broadcast) (send_deltas-IsSafe d s (inner d.match_id h.clients) h t)
  ]
