-- ===== src/Ws/Seats.antt =====
-- Clients that come and go, and players who are given up.
use domino_jc_project.Prelude.{
  ℕ, ◌==◌, ==_iff, String, str_eq, ◌≡◌, refl, sym, ap, subst, ◌∙◌, Bool, true, false, ◌&&◌, none,
  some, [], ◌∷◌, ◌++◌, length, get_elem?, if◌then◌else◌, arith, eq_iff, Bool-cases, Option-cases,
  inl, inr, get_elem?-set, get_elem?-append, get_elem?-end, List-cases,
}
use domino_jc_project.Ws.Nested.{find_in, put_in, delete_in, find_in-put_in, find_in-delete_in}
use domino_jc_project.Ws.Hub.{
  connected, PlayerConnection, Client, Hub, put_socket, close_socket, close_found,
  ensure_player_state, put_state, schedule_reconnect_timer, timer_fires,
}
use domino_jc_project.Ws.Loop.{
  seat_client, replace_client, mark_disconnected, remove_client, unregister_found,
  unregister_client, is_abandoned, is_disconnected,
}
use domino_jc_project.Ws.Happen.{drain}
use domino_jc_project.Ws.Tidy.{IsSeated, IsTidy, IsSafe, some-IsSafe, put_socket-IsTidy}

abbrev pub same : String → String → String → String → Bool
same s p t q = str_eq s t && str_eq p q

same-eq : (s p t q : String) → same s p t q ≡ true → (s ≡ t) × (p ≡ q)
same-eq s p t q e = ground (arith, eq_iff s t, eq_iff p q, e)

-- A new client for the player.
abbrev pub newcomer : String → String → Client
newcomer session player = record {
  session_id = session;
  player_id = player;
  queue = [];
  is_closed = false;
}

module _ {A : Type 0} where
  -- Everyone but the player is seated.
  abbrev pub IsTidyBut : String → String → Hub A → Type 0
  IsTidyBut session player h =
      (t q : String) (i : ℕ)
      → same session player t q ≡ false
      → find_in t q h.clients ≡ some i
      → IsSeated h.sockets h.player_states t q i

  -- A client of the player is closed.
  close_socket-IsTidyBut :
      (session player : String) (j : ℕ) (c : Client) (h : Hub A)
      → get_elem? h.sockets j ≡ some c
      → c.is_closed ≡ false
      → c.session_id ≡ session
      → c.player_id ≡ player
      → IsTidyBut session player h
      → (close_socket j h ≡ some (put_socket j (record c { is_closed = true }) h))
        × IsTidyBut session player (put_socket j (record c { is_closed = true }) h)
  unfolding close_socket close_found put_socket
  close_socket-IsTidyBut session player j c h at o s p tidy = (
    rw (at, o, close_socket, close_found),
    λ t q i ne e.
        let seat = tidy t q i ne e in
        elim (get_elem?-set h.sockets j i (record c { is_closed = true }) seat.client seat.found) [
          | inl f ↦ record {
            client = seat.client;
            found = f;
            is_open = seat.is_open;
            session_id = seat.session_id;
            player_id = seat.player_id;
            state = seat.state;
            tracked = seat.tracked;
            status = seat.status;
          }
          | inr (k, f) ↦
              let one : c ≡ seat.client = ground (arith, k, at, seat.found) in
              let session_same : session ≡ t = sym s ∙ ap Client.session_id one ∙ seat.session_id in
              let player_same : player ≡ q = sym p ∙ ap Client.player_id one ∙ seat.player_id in
              absurd
                (ground (arith, ne, eq_iff session t, eq_iff player q, session_same, player_same))
        ],
  )

  IsSeated-put_in :
      (session player : String) (h : Hub A) (state : PlayerConnection) (t q : String) (i : ℕ)
      → same session player t q ≡ false
      → IsSeated h.sockets h.player_states t q i
      → IsSeated h.sockets (put_in session player state h.player_states) t q i
  IsSeated-put_in session player h state t q i ne seat = record {
    client = seat.client;
    found = seat.found;
    is_open = seat.is_open;
    session_id = seat.session_id;
    player_id = seat.player_id;
    state = seat.state;
    tracked =
        find_in-put_in session t player q state h.player_states
        ∙ ap (λ b. if b then some state else find_in t q h.player_states) ne
        ∙ seat.tracked;
    status = seat.status;
  }

  pub replace_client-IsTidyBut :
      (session player : String) (h : Hub A)
      → IsTidy h
      → (h' : Hub A) × (replace_client session player h ≡ some h') × IsTidyBut session player h'
  unfolding replace_client
  replace_client-IsTidyBut session player h tidy =
      elim (Option-cases (find_in session player h.clients)) [
        | inl e ↦ (h, rw (e, replace_client) refl, λ t q i ne f. tidy t q i f)
        | inr (j, e) ↦
            let seat = tidy session player j e in
            let (q, but) =
              close_socket-IsTidyBut session player j seat.client h seat.found seat.is_open
                seat.session_id seat.player_id (λ t q i ne f. tidy t q i f) in
            (
              put_socket j (record seat.client { is_closed = true }) h,
              rw (e, replace_client) q,
              but,
            )
      ]

  pub seat_client-IsTidy :
      (session player : String) (h : Hub A)
      → IsTidyBut session player h
      → IsTidy (
          seat_client session player
            (length h.sockets)
            (record h { sockets = h.sockets ++ newcomer session player ∷ [] }))
  unfolding seat_client put_state
  seat_client-IsTidy session player h but t q i e =
      let n = length h.sockets in
      let back = is_disconnected (ensure_player_state session player h).status in
      let state : PlayerConnection = record {
        status = connected;
        timer = if back then none else (ensure_player_state session player h).timer;
      } in
      let h1 : Hub A = record h { sockets = h.sockets ++ newcomer session player ∷ [] } in
      let there = find_in-put_in session t player q n h.clients in
      elim (Bool-cases (same session player t q)) [
        | inl here ↦
            let (st, pq) = same-eq session player t q here in
            let index : n ≡ i = ground (arith, there, here, e) in
            record {
              client = newcomer session player;
              found =
                  subst (λ k. get_elem? h1.sockets k ≡ some (newcomer session player)) index
                    (get_elem?-end h.sockets (newcomer session player));
              is_open = refl;
              session_id = st;
              player_id = pq;
              state = state;
              tracked =
                  find_in-put_in session t player q state h.player_states
                  ∙ ap (λ b. if b then some state else find_in t q h.player_states) here;
              status = refl;
            }
        | inr ne ↦
            let old : find_in t q h.clients ≡ some i = ground (arith, there, ne, e) in
            let seat = but t q i ne old in
            IsSeated-put_in session player h1 state t q i ne (record {
              client = seat.client;
              found =
                  get_elem?-append h.sockets (newcomer session player ∷ []) i seat.client
                    seat.found;
              is_open = seat.is_open;
              session_id = seat.session_id;
              player_id = seat.player_id;
              state = seat.state;
              tracked = seat.tracked;
              status = seat.status;
            })
      ]

  -- The player is not in the map.
  IsTidyBut-IsTidy :
      (session player : String) (h : Hub A)
      → find_in session player h.clients ≡ none
      → IsTidyBut session player h
      → IsTidy h
  IsTidyBut-IsTidy session player h gone but t q i e = elim (Bool-cases (same session player t q)) [
    | inl here ↦
        let (st, pq) = same-eq session player t q here in absurd (ground (arith, gone, e, st, pq))
    | inr ne ↦ but t q i ne e
  ]

  pub put_state-IsTidy :
      (session player : String) (state : PlayerConnection) (h : Hub A)
      → find_in session player h.clients ≡ none
      → IsTidy h
      → IsTidy (put_state session player state h)
  unfolding put_state
  put_state-IsTidy session player state h gone tidy =
      IsTidyBut-IsTidy session player (put_state session player state h) gone
        (λ t q i ne e. IsSeated-put_in session player h state t q i ne (tidy t q i e))

  mark_disconnected-IsTidy :
      (session player : String) (h : Hub A)
      → find_in session player h.clients ≡ none
      → IsTidy h
      → IsTidy (mark_disconnected session player h)
  unfolding mark_disconnected schedule_reconnect_timer
  mark_disconnected-IsTidy session player h gone tidy =
      elim (Bool-cases (is_abandoned (ensure_player_state session player h).status)) [
        | inl e ↦ rw (mark_disconnected, e) tidy
        | inr e ↦ rw (mark_disconnected, e) (put_state-IsTidy session player _ h gone tidy)
      ]

  remove_client-IsSafe :
      (session player : String) (i : ℕ) (h : Hub A)
      → find_in session player h.clients ≡ some i
      → IsTidy h
      → IsSafe (remove_client session player i h)
  unfolding remove_client put_socket
  remove_client-IsSafe session player i h e tidy =
      let seat = tidy session player i e in
      let h1 : Hub A = record h { clients = delete_in session player h.clients } in
      let gone : find_in session player h1.clients ≡ none = ground (
        arith,
        find_in-delete_in session session player player h.clients,
        eq_iff session session,
        eq_iff player player,
      ) in
      let but : IsTidyBut session player h1 = λ t q k ne f.
        tidy t q k (ground (arith, find_in-delete_in session t player q h.clients, ne, f)) in
      let (closed, but') =
        close_socket-IsTidyBut session player i seat.client h1 seat.found seat.is_open
          seat.session_id seat.player_id but in
      let h2 = put_socket i (record seat.client { is_closed = true }) h1 in
      rw closed (
        some-IsSafe (mark_disconnected session player h2) (
          mark_disconnected-IsTidy session player h2 gone
            (IsTidyBut-IsTidy session player h2 gone but')))

  unregister_found-IsSafe :
      (i : ℕ) (c : Client) (h : Hub A) → IsTidy h → IsSafe (unregister_found i c h)
  unfolding unregister_found
  unregister_found-IsSafe i c h tidy =
      elim (Option-cases (find_in c.session_id c.player_id h.clients)) [
        | inl e ↦ rw (e, unregister_found) (some-IsSafe h tidy)
        | inr (j, e) ↦ elim (Bool-cases (j == i)) [
          | inr f ↦ rw (e, f, unregister_found) (some-IsSafe h tidy)
          | inl f ↦
              rw (e, f, unregister_found)
                (remove_client-IsSafe c.session_id c.player_id i h (e ∙ ap some ((==_iff j i).0 f))
                  tidy)
        ]
      ]

  pub unregister_client-IsSafe : (i : ℕ) (h : Hub A) → IsTidy h → IsSafe (unregister_client i h)
  unfolding unregister_client
  unregister_client-IsSafe i h tidy = elim (Option-cases (get_elem? h.sockets i)) [
    | inl e ↦ rw (e, unregister_client) (some-IsSafe h tidy)
    | inr (c, e) ↦ rw (e, unregister_client) (unregister_found-IsSafe i c h tidy)
  ]

  pub timer_fires-IsTidy : (k : ℕ) (h : Hub A) → IsTidy h → IsTidy (timer_fires k h)
  unfolding timer_fires
  timer_fires-IsTidy k h tidy = elim (Option-cases (get_elem? h.timers k)) [
    | inl e ↦ rw (e, timer_fires) tidy
    | inr (t, e) ↦ elim (Bool-cases t.is_running) [
      | inl f ↦ rw (e, f, timer_fires) tidy
      | inr f ↦ rw (e, f, timer_fires) tidy
    ]
  ]

  pub drain-IsTidy : (i : ℕ) (h : Hub A) → IsTidy h → IsTidy (drain i h)
  unfolding drain
  drain-IsTidy i h tidy = elim (Option-cases (get_elem? h.sockets i)) [
    | inl e ↦ rw (e, drain) tidy
    | inr (c, e) ↦ elim (List-cases c.queue) [
      | inl f ↦ rw (e, drain) (rw f tidy)
      | inr (b, bs, f) ↦ rw (e, drain) (rw f (put_socket-IsTidy i c bs h e tidy))
    ]
  ]
