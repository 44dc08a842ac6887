-- ===== src/Ws/Receive.antt =====
-- What one client gets from a broadcast of a session delta (pkg/ws/hub.go).
use domino_jc_project.Prelude.{
  ℕ, ltb, ◌≡◌, ◌≢◌, refl, ap, ◌∙◌, sym, String, str_eq, str_eq→eq, eq_iff, Bool, true, false,
  Option, none, some, [], ◌∷◌, ◌++◌, StringMap, get_elem?, get_elem?-same, get_elem?-set_other,
  length, if◌then◌else◌, arith, Bool-cases, Option-cases, inl, inr, subst, false≢true,
}
use domino_jc_project.Models.Session.{GameSession}
use domino_jc_project.Consensus.Node.{Bytes}
use domino_jc_project.Ws.Nested.{find_in}
use domino_jc_project.Ws.Hub.{
  SessionDelta, Outside, Client, Hub, ◌>>=◌, send_to_player, offer, offer_to, put_socket,
  send_buffer_size,
}
use domino_jc_project.Ws.Loop.{send_if_some, marshal_session_delta_envelope, send_deltas}
use domino_jc_project.Ws.Tidy.{IsTidy, offer-IsOffered}

-- A client that is offered a frame, if there is one, takes it where its buffer has room.
unfoldable pub received : Option Bytes → Client → Client
received none c = c
received (some frame) c =
    if ltb (length c.queue) send_buffer_size then record c { queue = c.queue ++ frame ∷ [] } else c

-- The client of `player` after one frame for each entry of the map that is the player's.
unfoldable pub received_all : String → Option Bytes → StringMap ℕ → Client → Client
unfolding received
received_all player frame [] c = c
received_all player frame ((q, i) ∷ players) c =
    received_all player frame players (if str_eq q player then received frame c else c)

module _ {A : Type 0} where
  -- What stands at place `i` afterwards, unless there is a panic.
  abbrev Place : ℕ → Option Client → Option (Bool × Hub A) → Type 0
  Place i v none = Unit
  Place i v (some r) = get_elem? (Hub.sockets r.1) i ≡ v

  if-Place :
      (i : ℕ) (v : Option Client) (c : Bool) (o u : Option (Bool × Hub A))
      → (c ≡ true → Place i v o)
      → (c ≡ false → Place i v u)
      → Place i v (if c then o else u)
  if-Place i v true o u h k = h refl
  if-Place i v false o u h k = k refl

  offer-elsewhere :
      (j i : ℕ) (frame : Bytes) (h : Hub A)
      → j ≢ i
      → Place i (get_elem? h.sockets i) (offer j frame h)
  unfolding offer offer_to put_socket
  offer-elsewhere j i frame h ne = go (get_elem? h.sockets j)
    where
      go :
          (o : Option Client)
          → Place i (get_elem? h.sockets i) (elim o [ none ↦ none | some c ↦ offer_to j c frame h ])
      go none = tt
      go (some c) =
          if-Place i _ c.is_closed none _ (λ e. tt)
            (λ e. elim (Bool-cases (ltb (length c.queue) send_buffer_size)) [
              | inl f ↦ rw f (get_elem?-set_other h.sockets j i _ ne)
              | inr f ↦ rw f refl
            ])

  offer-here :
      (i : ℕ) (frame : Bytes) (c : Client) (h : Hub A)
      → get_elem? h.sockets i ≡ some c
      → Place i (some (received (some frame) c)) (offer i frame h)
  unfolding offer offer_to put_socket received
  offer-here i frame c h at =
      rw (offer, at)
        (if-Place i _ c.is_closed none _ (λ e. tt)
          (λ e. elim (Bool-cases (ltb (length c.queue) send_buffer_size)) [
            | inl f ↦ rw f (get_elem?-same h.sockets i _ c at)
            | inr f ↦ rw f at
          ]))

  -- A step that does not panic, keeps the clients in a tidy hub and leaves `v` at place `i`.
  pub record Leaves (i : ℕ) (v : Client) (h : Hub A) (o : Option (Hub A)) : Type 0 where
    pub hub : Hub A
    pub returns : o ≡ some hub
    pub tidy : IsTidy hub
    pub clients : hub.clients ≡ h.clients
    pub place : get_elem? hub.sockets i ≡ some v

  send_to_player-Leaves :
      (session q : String) (frame : Bytes) (i : ℕ) (v : Client) (h : Hub A) (j : ℕ)
      → find_in session q h.clients ≡ some j
      → IsTidy h
      → Place i (some v) (offer j frame h)
      → Leaves i v h (send_to_player session q frame h)
  unfolding send_to_player
  send_to_player-Leaves session q frame i v h j e t place =
      let sent = offer-IsOffered session q j frame h e t in
      rw (e, send_to_player, sent.returns)
        (record {
          hub = sent.hub;
          returns = refl;
          tidy = sent.tidy;
          clients = sent.clients;
          place = subst (Place i (some v)) sent.returns place;
        })

  -- Two players of a tidy hub have two clients.
  seats_apart :
      (session p q : String) (i j : ℕ) (h : Hub A)
      → IsTidy h
      → find_in session p h.clients ≡ some i
      → find_in session q h.clients ≡ some j
      → str_eq q p ≡ false
      → j ≢ i
  seats_apart session p q i j h t e f differ same =
      let seat = t session p i e in
      let other = t session q j f in
      let one : other.client ≡ seat.client =
        ground (arith, other.found, seat.found, ap (get_elem? h.sockets) same) in
      false≢true (
        sym differ
        ∙ (eq_iff q p).1 (sym other.player_id ∙ ap Client.player_id one ∙ seat.player_id))

module _ {F A : Type 0} (x : Outside F A) where
  send_if_some-Leaves :
      (session p q : String) (frame : Option Bytes) (i : ℕ) (c : Client) (h : Hub A)
      → IsTidy h
      → find_in session p h.clients ≡ some i
      → get_elem? h.sockets i ≡ some c
      → str_eq q p ≡ true
      → Leaves i (received frame c) h (send_if_some x session q frame h)
  unfolding send_if_some received
  send_if_some-Leaves session p q none i c h t e at same = record {
    hub = h;
    returns = refl;
    tidy = t;
    clients = refl;
    place = at;
  }
  send_if_some-Leaves session p q (some frame) i c h t e at same =
      send_to_player-Leaves session q frame i _ h i
        (ap (λ u. find_in session u h.clients) (str_eq→eq q p same) ∙ e) t
        (offer-here i frame c h at)

  send_if_some-elsewhere :
      (session p q : String) (frame : Option Bytes) (i : ℕ) (c : Client) (h : Hub A)
      → IsTidy h
      → find_in session p h.clients ≡ some i
      → get_elem? h.sockets i ≡ some c
      → str_eq q p ≡ false
      → Leaves i c h (send_if_some x session q frame h)
  unfolding send_if_some send_to_player
  send_if_some-elsewhere session p q none i c h t e at differ = record {
    hub = h;
    returns = refl;
    tidy = t;
    clients = refl;
    place = at;
  }
  send_if_some-elsewhere session p q (some frame) i c h t e at differ =
      elim (Option-cases (find_in session q h.clients)) [
        | inl f ↦
            rw (f, send_to_player)
              (record { hub = h; returns = refl; tidy = t; clients = refl; place = at })
        | inr (j, f) ↦ send_to_player-Leaves session q frame i c h j f t (
            subst (λ v. Place i v (offer j frame h)) at
              (offer-elsewhere j i frame h (seats_apart session p q i j h t e f differ)))
      ]

  then-Leaves :
      (i : ℕ) (v w : Client) (h : Hub A) (o : Option (Hub A)) (f : Hub A → Option (Hub A))
      → (first : Leaves i v h o) → Leaves i w first.hub (f first.hub)
      → Leaves i w h (o >>= f)
  then-Leaves i v w h o f first next = record {
    hub = next.hub;
    returns = ap (λ u. u >>= f) first.returns ∙ next.returns;
    tidy = next.tidy;
    clients = next.clients ∙ first.clients;
    place = next.place;
  }

  -- A client gets the delta as it is marshalled for its own player, and nothing else.
  pub send_deltas-Leaves :
      (d : SessionDelta) (s : Option GameSession) (p : String) (players : StringMap ℕ) (i : ℕ)
      (c : Client) (h : Hub A)
      → IsTidy h
      → find_in d.match_id p h.clients ≡ some i
      → get_elem? h.sockets i ≡ some c
      → Leaves i
          (received_all p (marshal_session_delta_envelope x d s p) players c)
          h
          (send_deltas x d s players h)
  unfolding send_deltas received_all
  send_deltas-Leaves d s p [] i c h t e at = record {
    hub = h;
    returns = refl;
    tidy = t;
    clients = refl;
    place = at;
  }
  send_deltas-Leaves d s p ((q, k) ∷ players) i c h t e at =
      let frame = marshal_session_delta_envelope x d s q in
      elim (Bool-cases (str_eq q p)) [
        | inl same ↦
            let first = send_if_some-Leaves d.match_id p q frame i c h t e at same in
            let own = ap (marshal_session_delta_envelope x d s) (sym (str_eq→eq q p same)) in
            rw (same, own)
              (then-Leaves i _ _ h _ (send_deltas x d s players) first (
                send_deltas-Leaves d s p players i _ first.hub first.tidy
                  (ap (find_in d.match_id p) first.clients ∙ e) first.place))
        | inr differ ↦
            let first = send_if_some-elsewhere d.match_id p q frame i c h t e at differ in
            rw differ (
              then-Leaves i _ _ h _ (send_deltas x d s players) first (
                send_deltas-Leaves d s p players i _ first.hub first.tidy
                  (ap (find_in d.match_id p) first.clients ∙ e) first.place))
      ]
