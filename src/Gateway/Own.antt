-- ===== src/Gateway/Own.antt =====
-- From a WebSocket message to the log: which commands a connection can have proposed, and which turns they
-- carry when they are applied.
use domino_jc_project.Prelude.{
  String, ◌≡◌, refl, sym, subst, false, Option, none, some, List, ◌⊎◌, inl, inr,
}
use domino_jc_project.Consensus.Node.{Bytes}
use domino_jc_project.Consensus.Command.{apply_turn, ApplyTurnPayload}
use domino_jc_project.Engine.Fsm.{Codec, ApplyResult}
use domino_jc_project.Ws.Router.{InboundMessage, GameActionHandler, Wire, Reply, route}
use domino_jc_project.Ws.Router
use domino_jc_project.Ws.Actor.{
  Action, play_tile, draw_from_boneyard, pass_turn, act, route-IsRouted,
}
use domino_jc_project.Gateway.Cluster.{Cluster, Writer, encode_command_with_payload}
use domino_jc_project.Gateway.Replicated.{
  ActionError, turn_payload, propose_encoded, propose_turn, replicated_game_handler, no_tile,
  failing, error_of,
}
use domino_jc_project.Gateway.Carried.{IsReadBack, IsOwn, encoded-IsOwn}

module _ {F : Type 0} (w : Writer) (c : Codec F) (back : IsReadBack w c.json) where
  module _ {A : Type 0} (cluster : Cluster F A) where
    -- Nothing is proposed, or one command of the player's own.
    abbrev pub Proposes : String → String → A → A → Type 0
    Proposes s q b b' =
        (b' ≡ b)
        ⊎ ((command : Bytes) × IsOwn w c back s q command
            × (b' ≡ (cluster.propose_and_wait command b).1))

    propose_encoded-Proposes :
        (s : String) (p : ApplyTurnPayload) (b : A) (raw : Option Bytes)
        → w.write_apply_turn p ≡ raw
        → Proposes s p.player_id b
            (propose_encoded w cluster (encode_command_with_payload w apply_turn s raw) b).1
    unfolding encode_command_with_payload
    propose_encoded-Proposes s p b none e = inl refl
    propose_encoded-Proposes s p b (some raw) e =
        written (w.write_command (record { op = apply_turn; match_id = s; payload = raw })) refl
      where
        written :
            (o : Option Bytes)
            → w.write_command (record { op = apply_turn; match_id = s; payload = raw }) ≡ o
            → Proposes s p.player_id b (propose_encoded w cluster o b).1
        written none k = inl refl
        written (some command) k = inr (command, encoded-IsOwn w c back s p raw command e k, refl)

    propose_turn-Proposes :
        (s : String) (p : ApplyTurnPayload) (b : A)
        → Proposes s p.player_id b (propose_turn w cluster s p b).1
    unfolding propose_turn
    propose_turn-Proposes s p b = propose_encoded-Proposes s p b (w.write_apply_turn p) refl

    module _ {E : Type 0} (wire : Wire ActionError E) (msg : InboundMessage) where
      answer-state :
          (o : Option ActionError) (b : A)
          → (Router.answer wire (replicated_game_handler w cluster) msg (o, b)).1 ≡ b
      answer-state none b = refl
      answer-state (some e) b = refl

      answer-Proposes :
          (r : (ActionError ⊎ ApplyResult F) × A) (b : A)
          → Proposes msg.session_id msg.player_id b r.1
          → Proposes msg.session_id msg.player_id b
              (Router.answer wire (replicated_game_handler w cluster) msg (failing w cluster r)).1
      answer-Proposes (r, b') b h =
          subst (Proposes msg.session_id msg.player_id b) (sym (answer-state (error_of r) b')) h

      acted-Proposes :
          (x : Action) (b : A)
          → Proposes msg.session_id msg.player_id b
              (Router.answer wire
                (replicated_game_handler w cluster)
                msg
                (act wire (replicated_game_handler w cluster) msg x b)).1
      unfolding replicated_game_handler
      acted-Proposes (play_tile tile left) b = answer-Proposes _ b (
          propose_turn-Proposes msg.session_id (turn_payload "PLAY_TILE" msg.player_id tile left) b)
      acted-Proposes draw_from_boneyard b =
          answer-Proposes _ b (
            propose_turn-Proposes msg.session_id (turn_payload "DRAW" msg.player_id no_tile false)
              b)
      acted-Proposes pass_turn b =
          answer-Proposes _ b (
            propose_turn-Proposes msg.session_id (turn_payload "PASS" msg.player_id no_tile false)
              b)

      -- Where JSON reads back what it writes: an inbound message proposes nothing, or one command, and
      -- wherever that command comes to stand in a log, the turns that it carries are turns of the player
      -- whose connection sent the message, in the session of that connection. Before that, the session
      -- of the connection may have been looked up.
      pub route-Proposes :
          (a : A)
          → (b : A) × ((b ≡ a) ⊎ (b ≡ (cluster.get_session msg.session_id a).1))
            × Proposes msg.session_id msg.player_id b
                (route wire (some (replicated_game_handler w cluster)) msg a).1
      unfolding replicated_game_handler
      route-Proposes a =
          let (b, looked, way) = route-IsRouted wire (replicated_game_handler w cluster) msg a in
          (
            b,
            looked,
            elim way [
              | inl (same, answered) ↦ inl same
              | inr (x, e) ↦
                  subst (λ (o : List Reply × A). Proposes msg.session_id msg.player_id b o.1)
                    (sym e) (acted-Proposes x b)
            ],
          )
