-- ===== src/Ws/Run.antt =====
-- Whatever happens to a hub it does not panic; what a reader of a replaced client does may.
use domino_jc_project.Prelude.{
  ℕ, String, ◌≡◌, refl, ap, true, false, none, some, List, [], ◌∷◌, ◌++◌, length, get_elem?,
  get_elem?-same, arith, Bool-cases, Option-cases, List-cases, inl, inr,
}
use domino_jc_project.Consensus.Node.{Bytes}
use domino_jc_project.Ws.Nested.{find_in}
use domino_jc_project.Ws.Hub.{
  abandoned, PlayerConnection, Client, AbandonmentEvent, Outside, Hub, new_hub, put_socket,
  close_socket, close_found, offer, offer_to, put_state, flush_pending_stats,
}
use domino_jc_project.Ws.Loop.{
  register_client, replace_client, seat_client, greet_client, abandon_if_disconnected,
  handle_abandonment, next_abandonment, is_disconnected,
}
use domino_jc_project.Ws.Happen.{
  Happening, joins, leaves, fires, drains, abandonment, stats, delta, happen, happen_all,
  send_error, termination,
}
use domino_jc_project.Ws.Tidy.{IsTidy, IsSafe, some-IsSafe, then-IsSafe}
use domino_jc_project.Ws.Send.{
  flush_pending_stats-IsSafe, greet_client-IsSafe, handle_stats_broadcast-IsSafe,
  handle_session_broadcast-IsSafe,
}
use domino_jc_project.Ws.SendEnd.{terminate_match-IsSafe}
use domino_jc_project.Ws.Seats.{
  newcomer, replace_client-IsTidyBut, seat_client-IsTidy, put_state-IsTidy,
  unregister_client-IsSafe, timer_fires-IsTidy, drain-IsTidy,
}

module _ {F A : Type 0} (x : Outside F A) where
  register_client-IsSafe :
      (session player : String) (h : Hub A) → IsTidy h → IsSafe (register_client x session player h)
  unfolding register_client
  register_client-IsSafe session player h tidy =
      let (h1, q, but) = replace_client-IsTidyBut session player h tidy in
      let seated : Hub A =
        seat_client session player (length h1.sockets)
          (record h1 { sockets = h1.sockets ++ newcomer session player ∷ [] }) in
      rw q (
        then-IsSafe (flush_pending_stats session player seated) (greet_client x session player)
          (flush_pending_stats-IsSafe session player seated
            (seat_client-IsTidy session player h1 but))
          (λ h2 t. greet_client-IsSafe x session player h2 t))

  -- A player in the map is connected, so that an abandonment is of someone who is not.
  gone-of_disconnected :
      (session player : String) (state : PlayerConnection) (h : Hub A)
      → IsTidy h
      → find_in session player h.player_states ≡ some state
      → is_disconnected state.status ≡ true
      → find_in session player h.clients ≡ none
  gone-of_disconnected session player state h tidy e d =
      elim (Option-cases (find_in session player h.clients)) [
        | inl f ↦ f
        | inr (i, f) ↦
            let seat = tidy session player i f in
            let one : state ≡ seat.state = ground (arith, e, seat.tracked) in
            absurd (ground (arith, d, ap PlayerConnection.status one, seat.status))
      ]

  handle_abandonment-IsTidy :
      (event : AbandonmentEvent) (h : Hub A) → IsTidy h → IsTidy (handle_abandonment x event h)
  unfolding handle_abandonment abandon_if_disconnected put_state
  handle_abandonment-IsTidy event h tidy =
      elim (Option-cases (find_in event.session_id event.player_id h.player_states)) [
        | inl e ↦ rw (e, handle_abandonment) tidy
        | inr (state, e) ↦ elim (Bool-cases (is_disconnected state.status)) [
          | inr d ↦ rw (handle_abandonment, e, abandon_if_disconnected, d) tidy
          | inl d ↦
              let t =
                put_state-IsTidy event.session_id event.player_id
                  (record { status = abandoned; timer = none }) h
                  (gone-of_disconnected event.session_id event.player_id state h tidy e d) tidy in
              elim (Bool-cases x.has_actions) [
                | inl a ↦ rw (handle_abandonment, e, abandon_if_disconnected, d, a) t
                | inr a ↦ rw (handle_abandonment, e, abandon_if_disconnected, d, a) t
              ]
        ]
      ]

  next_abandonment-IsTidy : (h : Hub A) → IsTidy h → IsTidy (next_abandonment x h)
  unfolding next_abandonment
  next_abandonment-IsTidy h tidy = elim (List-cases h.abandon) [
    | inl e ↦ rw (next_abandonment, e) tidy
    | inr (event, rest, e) ↦
        rw (next_abandonment, e)
          (handle_abandonment-IsTidy event (record h { abandon = rest }) tidy)
  ]

  happen-IsSafe : (e : Happening F) (h : Hub A) → IsTidy h → IsSafe (happen x e h)
  unfolding happen
  happen-IsSafe (joins session player) h t = register_client-IsSafe session player h t
  happen-IsSafe (leaves i) h t = unregister_client-IsSafe i h t
  happen-IsSafe (fires k) h t = some-IsSafe _ (timer_fires-IsTidy k h t)
  happen-IsSafe (drains i) h t = some-IsSafe _ (drain-IsTidy i h t)
  happen-IsSafe abandonment h t = some-IsSafe _ (next_abandonment-IsTidy h t)
  happen-IsSafe (stats session us) h t = handle_stats_broadcast-IsSafe x session us h t
  happen-IsSafe (delta d) h t = handle_session_broadcast-IsSafe x d h t
  happen-IsSafe (termination now session outcome final) h t =
      terminate_match-IsSafe x now session outcome final h t

  happen_all-IsSafe : (es : List (Happening F)) (h : Hub A) → IsTidy h → IsSafe (happen_all x es h)
  unfolding happen_all
  happen_all-IsSafe [] h t = some-IsSafe h t
  happen_all-IsSafe (e ∷ es) h t =
      then-IsSafe (happen x e h) (happen_all x es) (happen-IsSafe e h t)
        (λ h' t'. happen_all-IsSafe es h' t')

  new_hub-IsTidy : (game : A) → IsTidy (new_hub game)
  unfolding new_hub find_in
  new_hub-IsTidy game s p i e = absurd (cc e)

  -- Whatever happens to a new hub, in whatever order - connections, clients that leave, even twice or after
  -- they were replaced, timers, abandonments, stats, deltas and matches that are terminated -, it does not panic: it
  -- sends on no closed channel and closes none twice. Afterwards whoever is in its map has an open client of
  -- their own and counts as connected.
  pub happen_all-IsTidy :
      (es : List (Happening F)) (game : A)
      → (h : Hub A) × (happen_all x es (new_hub game) ≡ some h) × IsTidy h
  happen_all-IsTidy es game = happen_all-IsSafe es (new_hub game) (new_hub-IsTidy game)

module _ {A : Type 0} where
  close_socket-open :
      (i : ℕ) (c : Client) (h : Hub A)
      → get_elem? h.sockets i ≡ some c
      → c.is_closed ≡ false
      → close_socket i h ≡ some (put_socket i (record c { is_closed = true }) h)
  unfolding close_socket close_found put_socket
  close_socket-open i c h at o = rw (at, o, close_socket, close_found)

  send_error-closed :
      (i : ℕ) (c : Client) (frame : Bytes) (h : Hub A)
      → get_elem? h.sockets i ≡ some c
      → c.is_closed ≡ true
      → send_error i frame h ≡ none
  unfolding send_error offer offer_to
  send_error-closed i c frame h at o = rw (at, o, send_error, offer, offer_to)

  -- When a player of a tidy hub joins again, the hub closes the client that it had before; if the reader of
  -- that client then answers a malformed message with an error, as it does outside the loop, the
  -- program panics.
  pub send_error-replace_client :
      (session player : String) (j : ℕ) (frame : Bytes) (h : Hub A)
      → IsTidy h
      → find_in session player h.clients ≡ some j
      → (h' : Hub A) × (replace_client session player h ≡ some h') × (send_error j frame h' ≡ none)
  unfolding replace_client
  send_error-replace_client session player j frame h tidy e =
      let seat = tidy session player j e in
      let c : Client = record seat.client { is_closed = true } in
      (
        put_socket j c h,
        rw (e, replace_client) (close_socket-open j seat.client h seat.found seat.is_open),
        send_error-closed j c frame (put_socket j c h)
            (unfold put_socket in get_elem?-same h.sockets j c seat.client seat.found) refl,
      )
