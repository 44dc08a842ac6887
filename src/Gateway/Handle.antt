-- ===== src/Gateway/Handle.antt =====
-- pkg/gateway/match_gateway.go and session_cache.go: the checks of the handlers, and the steps they share.
use domino_jc_project.Prelude.{
  ℕ, zero, suc, ◌/◌, ◌%◌, String, str_eq, Bool, false, not, ◌||◌, Option, none, some, List, [], ◌∷◌,
  ◌⊎◌, inl, inr, if◌then◌else◌, ◌==◌,
}
use Prim.Native.String.{◌++◌ as str_append}
use domino_jc_project.Models.Session.{GameSession}
use domino_jc_project.Models.View.{view_for_player}
use domino_jc_project.Consensus.Node.{Bytes}
use domino_jc_project.Consensus.Command.{ApplyTurnPayload}
use domino_jc_project.Engine.Fsm.{ApplyResult}
use domino_jc_project.Gateway.Reply.{
  MatchActionData, MatchCreateRequest, MatchMutateRequest, error, Response, Inbound, Outside,
  MatchGateway, answer,
}

-- `itoa`, with the digits that are left: a uint64 has 20 at most.
abbrev digit : ℕ → String
digit zero = "0"
digit (suc zero) = "1"
digit (suc (suc zero)) = "2"
digit (suc (suc (suc zero))) = "3"
digit (suc (suc (suc (suc zero)))) = "4"
digit (suc (suc (suc (suc (suc zero))))) = "5"
digit (suc (suc (suc (suc (suc (suc zero)))))) = "6"
digit (suc (suc (suc (suc (suc (suc (suc zero))))))) = "7"
digit (suc (suc (suc (suc (suc (suc (suc (suc zero)))))))) = "8"
digit _ = "9"

unfoldable pub digits : ℕ → ℕ → String
digits zero v = ""
digits (suc left) v =
    let rest = digits left (v / 10) in if v == 0 then "" else str_append rest (digit (v % 10))

unfoldable pub itoa : ℕ → String
unfolding digits
itoa v = if v == 0 then "0" else digits 20 v

unfoldable pub session_cache_key : String → ℕ → String
unfolding itoa
session_cache_key client_id sequence_number =
    str_append client_id (str_append ":" (itoa sequence_number))

abbrev pub is_one_of : String → List String → Bool
is_one_of p [] = false
is_one_of p (q ∷ qs) = str_eq q p || is_one_of p qs

unfoldable pub session_player_known : GameSession → String → Bool
session_player_known s p = is_one_of p s.players

abbrev pub not_in_match : String
not_in_match = "player_id is not part of this match"

module _ (x : Outside) where
  unfoldable pub validate_mutate_request : MatchMutateRequest → Option String
  validate_mutate_request req =
      if str_eq (x.trim req.client_id) ""
      then some "client_id is required"
      else if req.sequence_number == 0
      then some "sequence_number must be greater than zero"
      else if str_eq (x.trim req.match_id) ""
      then some "match_id is required"
      else (elim req.action_data [ [] ↦ some "action_data is required" | _ ∷ _ ↦ none ])

  abbrev checked_action : String ⊎ MatchActionData → String ⊎ ApplyTurnPayload
  checked_action (inl e) = inl (str_append "invalid action_data: " e)
  checked_action (inr a) =
      if str_eq a.kind ""
      then inl "action_data.kind is required"
      else if str_eq a.player_id ""
      then inl "action_data.player_id is required"
      else inr (record {
        kind = a.kind;
        player_id = a.player_id;
        tile = a.tile;
        play_at_left = a.play_at_left;
      })

  unfoldable pub decode_action_data : Bytes → String ⊎ ApplyTurnPayload
  decode_action_data raw = checked_action (x.read_action raw)

  abbrev or_default_players : List String → List String
  or_default_players [] = "p1" ∷ "p2" ∷ []
  or_default_players (u ∷ us) = u ∷ us

  unfoldable pub clean_uids : List String → List String
  clean_uids [] = []
  clean_uids (u ∷ us) =
      let rest = clean_uids us in if str_eq (x.trim u) "" then rest else x.trim u ∷ rest

  abbrev with_players : MatchCreateRequest → List String → Option MatchCreateRequest
  with_players req [] = none
  with_players req (u ∷ us) =
      some (record req { setup = record req.setup { player_uids = u ∷ us } })

  -- `none` where no player is left.
  unfoldable pub normalize_create_request : MatchCreateRequest → Option MatchCreateRequest
  unfolding clean_uids
  normalize_create_request req =
      with_players req (clean_uids (or_default_players req.setup.player_uids))

module _ {F : Type 0} where
  -- `none` is the error for a stranger.
  abbrev mask_session : ApplyResult F → String → Option GameSession → Option (ApplyResult F)
  mask_session r p none = some r
  mask_session r p (some s) =
      if session_player_known s p
      then some (record r { session = some (view_for_player s p) })
      else none

  unfoldable pub mask_apply_result_for_player : ApplyResult F → String → Option (ApplyResult F)
  unfolding session_player_known view_for_player
  mask_apply_result_for_player r p = if str_eq p "" then some r else mask_session r p r.session

abbrev pub Handled : Type 0 → Type 0 → Type 0
Handled F A = Response F × MatchGateway F A

module _ {F A : Type 0} where
  abbrev pub refuse : ℕ → String → MatchGateway F A → Handled F A
  refuse status text g = (answer status (error text), g)

  abbrev pub moved :
      {B : Type 0} → MatchGateway F A → (B → MatchGateway F A → Handled F A) → B × A → Handled F A
  moved g next (b, a) = next b (record g { cluster = a })

  abbrev pub with_body : (Bytes → Handled F A) → MatchGateway F A → Option Bytes → Handled F A
  with_body next g none = refuse 400 "invalid request body" g
  with_body next g (some body) = next body

  -- The guards that the handlers share.
  abbrev pub guarded : String → Inbound → MatchGateway F A → Handled F A → Handled F A
  guarded method r g next =
      if not (str_eq r.method method)
      then refuse 405 "method not allowed" g
      else if not g.has_raft
      then refuse 503 "raft node is not configured" g
      else next
