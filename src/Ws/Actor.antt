-- ===== src/Ws/Actor.antt =====
-- Whom an inbound message of pkg/ws/router.go can act for.
use domino_jc_project.Prelude.{
  String, str_eq, str_eq→eq, ◌≡◌, refl, Bool, true, false, not, Option, none, some, List, [], ◌⊎◌,
  inl, inr, if◌then◌else◌, arith,
}
use domino_jc_project.Consensus.Node.{Bytes}
use domino_jc_project.Models.Tile.{DominoTile}
use domino_jc_project.Models.Session.{GameSession}
use domino_jc_project.Ws.Router.{
  InboundMessage, EventEnvelope, MovePayload, PlayTilePayload, ActorPayload, RouteError, Reply,
  GameActionHandler, Wire, validate_actor,
}
use domino_jc_project.Ws.Router

pub data Action : Type 0 where
  play_tile : DominoTile → Bool → Action
  draw_from_boneyard pass_turn : Action

-- A check that refuses, or passes with `Q`.
abbrev IsChecked : Option RouteError → Type 0 → Type 0
IsChecked o Q = ((e : RouteError) × (o ≡ some e)) ⊎ ((o ≡ none) × Q)

guard-IsChecked :
    {Q : Type 0} (c : Bool) (e : RouteError) (o : Option RouteError)
    → (c ≡ false → IsChecked o Q)
    → IsChecked (if c then some e else o) Q
guard-IsChecked true e o h = inl (e, refl)
guard-IsChecked false e o h = h refl

unnegate : (b : Bool) → not b ≡ false → b ≡ true
unnegate true h = refl
unnegate false h = absurd (ground arith)

-- Who passes the check is the connection's player in the connection's session.
validate_actor-IsChecked :
    (msg : InboundMessage) (s p : String)
    → IsChecked (validate_actor msg s p) ((s ≡ msg.session_id) × (p ≡ msg.player_id))
unfolding validate_actor
validate_actor-IsChecked msg s p = guard-IsChecked (str_eq s "") _ _ (λ _.
    guard-IsChecked (str_eq p "") _ _ (λ _.
      guard-IsChecked (not (str_eq s msg.session_id)) _ _ (λ h.
        guard-IsChecked (not (str_eq p msg.player_id)) _ none (λ k. inr (
          refl,
          (str_eq→eq s msg.session_id (unnegate _ h), str_eq→eq p msg.player_id (unnegate _ k)),
        )))))

module _ {E D A : Type 0} (w : Wire E D) (actions : GameActionHandler E A)
    (msg : InboundMessage) where
  -- An action of the connection's own player in its session.
  abbrev pub act : Action → A → Option E × A
  act (play_tile tile left) = actions.apply_play_tile msg.session_id msg.player_id tile left
  act draw_from_boneyard = actions.apply_draw_from_boneyard msg.session_id msg.player_id
  act pass_turn = actions.apply_pass_turn msg.session_id msg.player_id

  -- The session of the connection may have been looked up.
  abbrev pub Looked : A → A → Type 0
  Looked a b = (b ≡ a) ⊎ (b ≡ (actions.get_session msg.session_id a).1)

  -- No action and at most one error, or one action and its error in answer.
  abbrev pub IsRouted : A → List Reply × A → Type 0
  IsRouted a o =
      (b : A) × Looked a b
      × (((o.1 ≡ b) × ((o.0 ≡ []) ⊎ ((e : RouteError) × (o.0 ≡ Router.send_error w actions msg e))))
          ⊎ ((c : Action) × (o ≡ Router.answer w actions msg (act c b))))

  refused : (a : A) (e : RouteError) → IsRouted a (Router.send_error w actions msg e, a)
  refused a e = (a, inl refl, inl (refl, inr (e, refl)))

  if-IsRouted :
      (c : Bool) (a : A) (x y : List Reply × A)
      → IsRouted a x
      → IsRouted a y
      → IsRouted a (if c then x else y)
  if-IsRouted true a x y h k = h
  if-IsRouted false a x y h k = k

  as_actor-IsRouted :
      (s p : String) (next : A → List Reply × A) (a : A)
      → (s ≡ msg.session_id → p ≡ msg.player_id → IsRouted a (next a))
      → IsRouted a (Router.as_actor w actions msg (validate_actor msg s p) next a)
  as_actor-IsRouted s p next a h = elim (validate_actor-IsChecked msg s p) [
    | inl (e, q) ↦ rw q (refused a e)
    | inr (q, (es, ep)) ↦ rw q (h es ep)
  ]

  acted : (c : Action) (a : A) → IsRouted a (Router.answer w actions msg (act c a))
  acted c a = (a, inl refl, inr (c, refl))

  play_resolved-IsRouted :
      (p : MovePayload) (o : RouteError ⊎ DominoTile) (a b : A)
      → Looked a b
      → p.session_id ≡ msg.session_id
      → p.player_id ≡ msg.player_id
      → IsRouted a (Router.play_resolved w actions msg p (o, b))
  play_resolved-IsRouted p (inl e) a b l es ep = (b, l, inl (refl, inr (e, refl)))
  play_resolved-IsRouted p (inr tile) a b l es ep =
      (b, l, inr (play_tile tile p.play_at_left, rw (es, ep) refl))

  in_session-IsRouted :
      (p : MovePayload) (r : Option GameSession × A) (a : A)
      → actions.get_session msg.session_id a ≡ r
      → p.session_id ≡ msg.session_id
      → p.player_id ≡ msg.player_id
      → IsRouted a (
          Router.play_resolved w actions msg p
            (Router.in_session w actions msg (Router.actor_of w actions msg p) p.tile_id r))
  in_session-IsRouted p (none, b) a e es ep =
      play_resolved-IsRouted p
        (Router.in_session w actions msg (Router.actor_of w actions msg p) p.tile_id (none, b)).0 a
        b (inr (rw e refl)) es ep
  in_session-IsRouted p (some s, b) a e es ep =
      play_resolved-IsRouted p
        (Router.in_session w actions msg (Router.actor_of w actions msg p) p.tile_id (some s, b)).0
        a b (inr (rw e refl)) es ep

  greet-IsRouted :
      (p : ActorPayload) (r : Option GameSession × A) (a : A)
      → actions.get_session msg.session_id a ≡ r
      → IsRouted a (Router.greet w actions msg p r)
  greet-IsRouted p (none, b) a e = (b, inr (rw e refl), inl (refl, inr (_, refl)))
  greet-IsRouted p (some s, b) a e = (b, inr (rw e refl), inl (refl, inl refl))

  handle_player_move-IsRouted :
      (o : Option MovePayload) (a : A) → IsRouted a (Router.handle_player_move w actions msg o a)
  unfolding Router.handle_player_move Router.resolve_tile_from_hand
  handle_player_move-IsRouted none a = refused a _
  handle_player_move-IsRouted (some p) a = as_actor-IsRouted p.session_id p.player_id _ a (λ es ep.
      if-IsRouted (str_eq p.tile_id "") a _ _ (refused a _)
        (in_session-IsRouted p (actions.get_session p.session_id a) a (rw es refl) es ep))

  handle_play_tile-IsRouted :
      (o : Option PlayTilePayload) (a : A) → IsRouted a (Router.handle_play_tile w actions msg o a)
  unfolding Router.handle_play_tile
  handle_play_tile-IsRouted none a = refused a _
  handle_play_tile-IsRouted (some p) a = as_actor-IsRouted p.session_id p.player_id _ a (λ es ep.
      if-IsRouted (str_eq p.tile.id "") a _ _ (refused a _)
        (rw (es, ep) (acted (play_tile p.tile p.play_at_left) a)))

  handle_draw_from_boneyard-IsRouted :
      (o : Option ActorPayload) (a : A)
      → IsRouted a (Router.handle_draw_from_boneyard w actions msg o a)
  unfolding Router.handle_draw_from_boneyard
  handle_draw_from_boneyard-IsRouted none a = refused a _
  handle_draw_from_boneyard-IsRouted (some p) a =
      as_actor-IsRouted p.session_id p.player_id _ a
        (λ es ep. rw (es, ep) (acted draw_from_boneyard a))

  handle_pass_turn-IsRouted :
      (o : Option ActorPayload) (a : A) → IsRouted a (Router.handle_pass_turn w actions msg o a)
  unfolding Router.handle_pass_turn
  handle_pass_turn-IsRouted none a = refused a _
  handle_pass_turn-IsRouted (some p) a =
      as_actor-IsRouted p.session_id p.player_id _ a (λ es ep. rw (es, ep) (acted pass_turn a))

  handle_join-IsRouted :
      (o : Option ActorPayload) (a : A) → IsRouted a (Router.handle_join w actions msg o a)
  unfolding Router.handle_join
  handle_join-IsRouted none a = refused a _
  handle_join-IsRouted (some p) a =
      as_actor-IsRouted p.session_id p.player_id _ a
        (λ es ep. greet-IsRouted p (actions.get_session p.session_id a) a (rw es refl))

  handle_leave-IsRouted :
      (o : Option ActorPayload) (a : A) → IsRouted a (Router.handle_leave w actions msg o a)
  unfolding Router.handle_leave
  handle_leave-IsRouted none a = refused a _
  handle_leave-IsRouted (some p) a =
      as_actor-IsRouted p.session_id p.player_id _ a (λ es ep. (a, inl refl, inl (refl, inl refl)))

  dispatch-IsRouted :
      (type : String) (raw : Bytes) (a : A) → IsRouted a (Router.dispatch w actions msg type raw a)
  unfolding Router.dispatch
  dispatch-IsRouted type raw a = if-IsRouted _ a _ _ (handle_player_move-IsRouted _ a) (
      if-IsRouted _ a _ _ (handle_play_tile-IsRouted _ a) (
        if-IsRouted _ a _ _ (handle_draw_from_boneyard-IsRouted _ a) (
          if-IsRouted _ a _ _ (handle_pass_turn-IsRouted _ a) (
            if-IsRouted _ a _ _ (handle_join-IsRouted _ a)
              (if-IsRouted _ a _ _ (handle_leave-IsRouted _ a) (refused a _))))))

  opened-IsRouted :
      (o : Option EventEnvelope) (a : A) → IsRouted a (Router.opened w actions msg o a)
  unfolding Router.opened
  opened-IsRouted none a = refused a _
  opened-IsRouted (some e) a =
      if-IsRouted _ a _ _ (refused a _) (dispatch-IsRouted e.type e.payload a)

  -- Where the router has a handler: whatever an inbound message holds, either no action is called, and the connection gets one error or no
  -- answer, or one action is called once, for the player and in the session of the connection and for no
  -- other, and the connection gets that action's error or no answer. No other session than that of the
  -- connection is looked up.
  pub route-IsRouted : (a : A) → IsRouted a (Router.route w (some actions) msg a)
  unfolding Router.route
  route-IsRouted a = opened-IsRouted (w.read_envelope msg.payload) a
