-- ===== src/Gateway/Secret.antt =====
-- What the gateway shows of a session, and to whom.
use domino_jc_project.Prelude.{
  String, str_eq, ◌≡◌, refl, ap, Bool, true, false, not, Option, none, some, if◌then◌else◌,
  Bool-cases, inl, inr,
}
use domino_jc_project.Models.Session.{GameSession, is_completed}
use domino_jc_project.Models.View.Secrecy.{Indistinct, view_for_player-Indistinct}
use domino_jc_project.Consensus.Wait.{WaitError}
use domino_jc_project.Gateway.Cluster.{Cluster}
use domino_jc_project.Gateway.Reply.{
  Inbound, Outside, MatchGateway, node_state, forward, forward_state_to_leader,
  write_proposal_error,
}
use domino_jc_project.Gateway.Handle.{session_player_known, is_one_of}
use domino_jc_project.Gateway.Read.{state_read, barrier_passed, process_local_state, handle_state}

-- The player may not tell the sessions apart: they differ only in what is hidden from a player of a match in
-- play, or the player plays in neither of them, whatever they hold.
pub data Hides (p : String) (s t : GameSession) : Type 0 where
  from_player : is_completed s.status ≡ false → Indistinct p s t → Hides p s t
  from_stranger : session_player_known s p ≡ false → session_player_known t p ≡ false → Hides p s t

same_first :
    {A B : Type 0} (c : Bool) (u v u' v' : A × B)
    → u.0 ≡ u'.0
    → v.0 ≡ v'.0
    → (if c then u else v).0 ≡ (if c then u' else v').0
same_first true u v u' v' e f = e
same_first false u v u' v' e f = f

module _ {F A : Type 0} (x : Outside) (cluster : Cluster F A) where
  -- The cluster, with a session that is found under every id.
  abbrev pub holding : GameSession → Cluster F A
  holding s = record cluster { get_session = λ id a. (some s, (cluster.get_session id a).1) }

  state_read-Hides :
      (id p : String) (s t : GameSession) (g : MatchGateway F A)
      → Hides p s t
      → (state_read x (holding s) id p (some s) g).0 ≡ (state_read x (holding t) id p (some t) g).0
  unfolding session_player_known node_state
  state_read-Hides id p s t g (from_player running e) =
      let seen = view_for_player-Indistinct p s t running e in
      let known = ap (is_one_of p) e.players in
      elim (Bool-cases (is_one_of p t.players)) [
        | inl h ↦ rw (known, h, seen) refl
        | inr h ↦ rw (known, h) refl
      ]
  state_read-Hides id p s t g (from_stranger h k) = rw (h, k) refl

  barrier_passed-Hides :
      (id p : String) (s t : GameSession) (o : Option WaitError) (g : MatchGateway F A)
      → Hides p s t
      → (barrier_passed x (holding s) id p o g).0 ≡ (barrier_passed x (holding t) id p o g).0
  unfolding write_proposal_error
  barrier_passed-Hides id p s t none g e = state_read-Hides id p s t _ e
  barrier_passed-Hides id p s t (some err) g e = refl

  -- The answer to GET /match/state depends on the session that is found only through what its player may
  -- see: two sessions get one answer that differ only in what is hidden from the player of a match in
  -- play, and so do any two sessions in which the player does not play. It holds for every request and
  -- every state of the gateway, whatever the barrier says.
  pub handle_state-Hides :
      (r : Inbound) (s t : GameSession) (g : MatchGateway F A)
      → Hides (x.trim r.player_id) s t
      → (handle_state x (holding s) r g).0 ≡ (handle_state x (holding t) r g).0
  unfolding handle_state process_local_state forward_state_to_leader forward node_state
  handle_state-Hides r s t g e =
      let (o, a) = cluster.ensure_linearizable_read g.cluster in
      same_first (not (str_eq r.method "GET")) _ _ _ _ refl (
        same_first (not g.has_raft) _ _ _ _ refl (
          same_first (not g.has_manager) _ _ _ _ refl (
            same_first (str_eq (x.trim r.match_id) "") _ _ _ _ refl (
              same_first (str_eq (x.trim r.player_id) "") _ _ _ _ refl (
                same_first (not (cluster.is_leader g.cluster)) _ _ _ _ refl (
                  barrier_passed-Hides (x.trim r.match_id) (x.trim r.player_id) s t o
                    (record g { cluster = a }) e))))))
