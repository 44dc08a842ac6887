-- ===== src/Ws/RouterTests.antt =====
-- Concrete messages for the router of pkg/ws/router.go.
use domino_jc_project.Prelude.{ℕ, String, ◌≡◌, refl, false, none, some, List, [], ◌∷◌}
use domino_jc_project.Ws.Router.{
  InboundMessage, GameActionHandler, Wire, route, opened, dispatch, handle_pass_turn,
  validate_actor, send_error,
}
use domino_jc_project.Ws.Actor.{IsRouted, route-IsRouted}

-- A game that notes the passes; an error is its text.
abbrev noted : GameActionHandler String (List String)
noted = record {
  apply_play_tile = λ s p t left a. (none, a);
  apply_draw_from_boneyard = λ s p a. (some "not your turn", a);
  apply_pass_turn = λ s p a. (none, p ∷ a);
  get_session = λ s a. (none, a);
}

-- Every message is that `p` passes in session `m`.
abbrev passes : String → Wire String ℕ
passes p = record {
  read_envelope = λ b. some (record { type = "PASS_TURN"; payload = b });
  read_move = λ b. none;
  read_play_tile = λ b. none;
  read_actor = λ b. some (record { session_id = "m"; player_id = p });
  write_error = λ code message. some (1 ∷ []);
  write_redirect = λ d message. none;
  text_of = λ e. e;
  as_leader_redirect = λ e. none;
  is_mutations_locked = λ e. false;
  contains = λ s t. false;
  quote = λ s. s;
}

abbrev from_a : InboundMessage
from_a = record { session_id = "m"; player_id = "a"; payload = [] }

route-IsRouted_example :
    IsRouted (passes "a") noted from_a [] (route (passes "a") (some noted) from_a [])
route-IsRouted_example = route-IsRouted (passes "a") noted from_a []

a_passes : route (passes "a") (some noted) from_a [] ≡ ([], "a" ∷ [])
unfolding route opened dispatch handle_pass_turn validate_actor
a_passes = refl

-- `a` says that `b` passes.
a_passes_for_b :
    route (passes "b") (some noted) from_a []
    ≡ (record { session_id = "m"; player_id = "a"; frame = 1 ∷ [] } ∷ [], [])
unfolding route opened dispatch handle_pass_turn validate_actor send_error
a_passes_for_b = refl
