-- ===== src/Ws/Tidy.antt =====
-- A hub never panics: whoever is in its map is connected, with an open channel of its own.
use domino_jc_project.Prelude.{
  ℕ, String, ◌≡◌, refl, ap, ◌∙◌, Bool, true, false, Option, some, List, [], ◌∷◌, ◌++◌, length,
  get_elem?, arith, Bool-cases, inl, inr, ltb, get_elem?-set,
}
use domino_jc_project.Consensus.Node.{Bytes}
use domino_jc_project.Ws.Nested.{Nested, find_in}
use domino_jc_project.Ws.Hub.{
  connected, PlayerConnection, Client, Hub, ◌>>=◌, put_socket, offer, offer_to, send_buffer_size,
}

-- The player of the session has the client at place `i`: it is its own, it is open, and the player
-- counts as connected.
pub record IsSeated (sockets : List Client) (states : Nested PlayerConnection)
    (session player : String) (i : ℕ) : Type 0 where
  pub client : Client
  pub found : get_elem? sockets i ≡ some client
  pub is_open : client.is_closed ≡ false
  pub session_id : client.session_id ≡ session
  pub player_id : client.player_id ≡ player
  pub state : PlayerConnection
  pub tracked : find_in session player states ≡ some state
  pub status : state.status ≡ connected

module _ {A : Type 0} where
  abbrev pub IsTidy : Hub A → Type 0
  IsTidy h =
      (session player : String) (i : ℕ)
      → find_in session player h.clients ≡ some i
      → IsSeated h.sockets h.player_states session player i

  -- A step that does not panic and leaves a tidy hub.
  abbrev pub IsSafe : Option (Hub A) → Type 0
  IsSafe o = (h : Hub A) × (o ≡ some h) × IsTidy h

  pub some-IsSafe : (h : Hub A) → IsTidy h → IsSafe (some h)
  some-IsSafe h t = (h, refl, t)

  pub then-IsSafe :
      (o : Option (Hub A)) (f : Hub A → Option (Hub A))
      → IsSafe o
      → ((h : Hub A) → IsTidy h → IsSafe (f h))
      → IsSafe (o >>= f)
  then-IsSafe o f (h, q, t) k = let (h', q', t') = k h t in (h', ap (λ u. u >>= f) q ∙ q', t')

  -- Another queue at an open client changes nothing that matters.
  pub put_socket-IsTidy :
      (i : ℕ) (c : Client) (queue : List Bytes) (h : Hub A)
      → get_elem? h.sockets i ≡ some c
      → IsTidy h
      → IsTidy (put_socket i (record c { queue = queue }) h)
  unfolding put_socket
  put_socket-IsTidy i c queue h at t s p k e =
      let seat = t s p k e in
      let c' : Client = record c { queue = queue } in
      elim (get_elem?-set h.sockets i k c' seat.client seat.found) [
        | inl q ↦ record {
          client = seat.client;
          found = q;
          is_open = seat.is_open;
          session_id = seat.session_id;
          player_id = seat.player_id;
          state = seat.state;
          tracked = seat.tracked;
          status = seat.status;
        }
        | inr (same, q) ↦
            let one : c ≡ seat.client = ground (arith, same, at, seat.found) in
            record {
              client = c';
              found = q;
              is_open = ap Client.is_closed one ∙ seat.is_open;
              session_id = ap Client.session_id one ∙ seat.session_id;
              player_id = ap Client.player_id one ∙ seat.player_id;
              state = seat.state;
              tracked = seat.tracked;
              status = seat.status;
            }
      ]

  -- What an offer leaves: a tidy hub with the same clients.
  pub record IsOffered (h : Hub A) (o : Option (Bool × Hub A)) : Type 0 where
    pub sent : Bool
    pub hub : Hub A
    pub returns : o ≡ some (sent, hub)
    pub tidy : IsTidy hub
    pub clients : hub.clients ≡ h.clients

  offer_to-IsOffered :
      (i : ℕ) (c : Client) (frame : Bytes) (h : Hub A)
      → get_elem? h.sockets i ≡ some c
      → c.is_closed ≡ false
      → IsTidy h
      → IsOffered h (offer_to i c frame h)
  unfolding offer_to put_socket
  offer_to-IsOffered i c frame h at o t =
      elim (Bool-cases (ltb (length c.queue) send_buffer_size)) [
        | inl e ↦ record {
          sent = true;
          hub = put_socket i (record c { queue = c.queue ++ frame ∷ [] }) h;
          returns = rw (offer_to, o, e);
          tidy = put_socket-IsTidy i c (c.queue ++ frame ∷ []) h at t;
          clients = refl;
        }
        | inr e ↦ record {
          sent = false;
          hub = h;
          returns = rw (offer_to, o, e);
          tidy = t;
          clients = refl;
        }
      ]

  pub offer-IsOffered :
      (session player : String) (i : ℕ) (frame : Bytes) (h : Hub A)
      → find_in session player h.clients ≡ some i
      → IsTidy h
      → IsOffered h (offer i frame h)
  unfolding offer
  offer-IsOffered session player i frame h e t =
      let seat = t session player i e in
      rw (seat.found, offer) (offer_to-IsOffered i seat.client frame h seat.found seat.is_open t)
