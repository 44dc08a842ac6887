-- ===== src/Gateway/FreshRead.antt =====
-- A state read that the gateway of a process answers, down to the log.
use domino_jc_project.Prelude.{
  ℕ, ◌≤◌, ◌≡◌, refl, sym, ap, ◌∙◌, arith, String, true, Option, none, some, Bool-cases, inl, inr,
}
use domino_jc_project.Models.Session.{GameSession}
use domino_jc_project.Consensus.Node.{RaftNode, ApplyOutcome, is_leader}
use domino_jc_project.Consensus.Apply.{Machine}
use domino_jc_project.Consensus.Events.{handle_all}
use domino_jc_project.Consensus.Wait.{WaitError, ensure_linearizable_read}
use domino_jc_project.Consensus.Wait.Fresh.{Ensures, Confirms, ensure_linearizable_read-IsFresh}
use domino_jc_project.Engine.Manager.{Services, World, get_session}
use domino_jc_project.Engine.Fsm.{ManagedResult}
use domino_jc_project.Gateway.Cluster.{Cluster}
use domino_jc_project.Gateway.Reply.{Outside, MatchGateway}
use domino_jc_project.Gateway.Handle.{session_player_known, moved}
use domino_jc_project.Gateway.Once.{write_proposal_error-status}
use domino_jc_project.Gateway.Read.{show_state, state_read, barrier_passed, process_local_state}
use domino_jc_project.Gateway.Node.{Process, first_of, stepped, served, process_cluster}

module _ {F W B D : Type 0} (x : Outside) (services : Services F W B)
    (m : Machine (World F W B) (ManagedResult F) D)
    (text : ApplyOutcome (ManagedResult F) → String) where
  abbrev pub cluster : Cluster F (Process F W B D)
  cluster = process_cluster services m text

  -- A read that is answered with status 200 shows what was found, and changes nothing.
  state_read-shown :
      (id p : String) (o : Option GameSession) (g : MatchGateway F (Process F W B D))
      → (state_read x cluster id p o g).0.status ≡ 200
      → state_read x cluster id p o g ≡ (show_state x cluster g id p o, g)
  state_read-shown id p none g ok = refl
  state_read-shown id p (some s) g ok = elim (Bool-cases (session_player_known s p)) [
    | inl e ↦ rw e refl
    | inr e ↦ absurd (omega (arith, rw e at ok))
  ]

  after_barrier :
      (id p : String) (g : MatchGateway F (Process F W B D)) (Q R : Type 0) (index : ℕ)
      (o : Option WaitError × RaftNode (World F W B) (ManagedResult F) D)
      → Ensures (λ n. Q × R × (index ≤ n.last_applied)) o
      → (moved g (barrier_passed x cluster id p) (stepped g.cluster o)).0.status ≡ 200
      → let after = moved g (barrier_passed x cluster id p) (stepped g.cluster o) in
        Q
        × R
        × (index ≤ o.1.last_applied)
        × (after.0 ≡ show_state x cluster after.1 id p (get_session services id o.1.fsm).0)
  unfolding Ensures process_cluster
  after_barrier id p g Q R index (some e, n) h ok =
      absurd (write_proposal_error-status x cluster e ok)
  after_barrier id p g Q R index (none, n) h ok =
      let found = get_session services id n.fsm in
      let g' : MatchGateway F (Process F W B D) = record g {
        cluster = (served (stepped {R = Option WaitError} g.cluster (none, n)).1 found).1;
      } in
      let shown = state_read-shown id p found.0 g' ok in
      let (q, r, applied) = h in
      (
        q,
        r,
        applied,
        ap (λ u. u.0) shown ∙ ap (λ u. show_state x cluster (u.1) id p found.0) (sym shown),
      )

  -- A state read that is answered with status 200: the node led when the read began, and was confirmed in its
  -- term by a majority that accepted its heartbeat unless it has no peer; the node that the barrier
  -- leaves has applied all that was committed when the read began; and the answer shows the player's
  -- view of the session that the state machine of that very node has, or that it has none.
  pub process_local_state-IsFresh :
      (id p : String) (g : MatchGateway F (Process F W B D))
      → (process_local_state x cluster id p g).0.status ≡ 200
      → let s = first_of g.cluster.schedules in
        let n = (ensure_linearizable_read m s.answers s.events s.looks g.cluster.node).1 in
        let after = process_local_state x cluster id p g in
        (is_leader g.cluster.node.state ≡ true)
        × Confirms g.cluster.node.current_term s.answers (handle_all m s.events g.cluster.node)
        × (g.cluster.node.commit_index ≤ n.last_applied)
        × (after.0 ≡ show_state x cluster after.1 id p (get_session services id n.fsm).0)
  unfolding process_local_state process_cluster
  process_local_state-IsFresh id p g ok =
      let s = first_of g.cluster.schedules in
      after_barrier id p g _ _ g.cluster.node.commit_index
        (ensure_linearizable_read m s.answers s.events s.looks g.cluster.node)
        (ensure_linearizable_read-IsFresh m s.answers s.events s.looks g.cluster.node) ok
