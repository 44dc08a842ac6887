-- ===== src/Consensus/Wait.antt =====
-- pkg/consensus/raft_node.go: calls that wait, for a commit, an apply or a quorum. What the node meets while
-- a call waits is an argument: the events before each look, and no more looks once the deadline is past.
pub mod Fresh
mod Tests
use domino_jc_project.Prelude.{
  ℕ, ◌+◌, String, Bool, true, false, not, ◌&&◌, ◌||◌, Option, none, some, List, [], ◌∷◌, ◌⊎◌, inl,
  inr, ltb, leb, ◌==◌, str_eq, if◌then◌else◌, find_key,
}
use domino_jc_project.Consensus.Node.{
  Bytes, Role, leader, PeerMap, RaftNode, ApplyOutcome, is_leader, become_follower,
}
use domino_jc_project.Consensus.Apply.{Machine}
use domino_jc_project.Consensus.Rpc.{AppendEntriesReply}
use domino_jc_project.Consensus.Command.{
  encode_add_node_command, encode_remove_node_command, encode_commit_config_command,
}
use domino_jc_project.Consensus.Leader.{election_majority, propose}
use domino_jc_project.Consensus.Events.{Event, handle, handle_all}

pub data Reason : Type 0 where
  leader_unknown submit_to_leader : Reason
  address_not_configured : String → Reason

pub record LeaderRedirectError : Type 0 where
  pub leader_id : String
  pub leader_address : String
  pub reason : Reason

pub data WaitError : Type 0 where
  redirected : LeaderRedirectError → WaitError
  commit_timed_out apply_timed_out read_timed_out : ℕ → WaitError
  leadership_lost lost_during_verification quorum_not_confirmed : WaitError

-- What one peer answers to the heartbeat of a read, with what the node meets before the heartbeat is made and
-- before the answer is read. `none` is an RPC that fails.
pub record Answer : Type 0 where
  pub before : List Event
  pub meanwhile : List Event
  pub reply : Option AppendEntriesReply

abbrev redirect_to : String → Option String → LeaderRedirectError
redirect_to id none = record {
  leader_id = id;
  leader_address = "";
  reason = address_not_configured id;
}
redirect_to id (some address) = record {
  leader_id = id;
  leader_address = address;
  reason = submit_to_leader;
}

abbrev address_or : String → Option String → Reason ⊎ (String × String)
address_or id none = inl (address_not_configured id)
address_or id (some address) = inr (id, address)

unfoldable pub remote_peers : String → PeerMap → PeerMap
remote_peers node_id [] = []
remote_peers node_id ((p, a) ∷ ps) =
    let rest = remote_peers node_id ps in if str_eq p node_id then rest else (p, a) ∷ rest

abbrev pub result_at : {R : Type 0} → ℕ → List (ℕ × ApplyOutcome R) → Option (ApplyOutcome R)
result_at index [] = none
result_at index ((i, r) ∷ rs) = if i == index then some r else result_at index rs

module _ {S R D : Type 0} where
  -- Of a node that does not lead.
  unfoldable pub leader_redirect : RaftNode S R D → LeaderRedirectError
  unfolding find_key
  leader_redirect n =
      if str_eq n.known_leader_id ""
      then record { leader_id = ""; leader_address = ""; reason = leader_unknown }
      else redirect_to n.known_leader_id (find_key n.known_leader_id n.peer_addresses)

  unfoldable pub leader_endpoint : RaftNode S R D → Reason ⊎ (String × String)
  unfolding find_key
  leader_endpoint n =
      if is_leader n.state
      then address_or n.node_id (find_key n.node_id n.peer_addresses)
      else if str_eq n.known_leader_id ""
      then inl leader_unknown
      else address_or n.known_leader_id (find_key n.known_leader_id n.peer_addresses)

  unfoldable pub begin_read_index : RaftNode S R D → WaitError ⊎ (ℕ × ℕ)
  begin_read_index n =
      if is_leader n.state
      then inr (n.commit_index, n.current_term)
      else inl (redirected (leader_redirect n))

  abbrev pub leads : ℕ → RaftNode S R D → Bool
  leads term n = is_leader n.state && n.current_term == term

module _ {S R D : Type 0} (m : Machine S R D) where
  -- Whether the index was committed at a look; `replicateAndCommit` is among the events.
  unfoldable pub wait_for_commit : ℕ → List (List Event) → RaftNode S R D → Bool × RaftNode S R D
  wait_for_commit index [] n = (false, n)
  wait_for_commit index (events ∷ more) n =
      let rest = wait_for_commit index more (handle_all m events n) in
      if leb index n.commit_index then (true, n) else rest

  -- The result that is there, or the first that comes.
  unfoldable pub wait_for_apply :
      ℕ → List Event → RaftNode S R D → (WaitError ⊎ ApplyOutcome R) × RaftNode S R D
  wait_for_apply index [] n = elim (result_at index n.apply_results) [
    | some r ↦ (inr r, n)
    | none ↦ (inl (apply_timed_out index), n)
  ]
  wait_for_apply index (event ∷ events) n =
      let rest = wait_for_apply index events (handle m event n) in
      elim (result_at index n.apply_results) [ some r ↦ (inr r, n) | none ↦ rest ]

  abbrev pub after_commit :
      ℕ → List Event → Bool × RaftNode S R D → (WaitError ⊎ ApplyOutcome R) × RaftNode S R D
  after_commit index events (false, n) = (inl (commit_timed_out index), n)
  after_commit index events (true, n) = wait_for_apply index events n

  abbrev pub after_propose :
      RaftNode S R D
      → List (List Event)
      → List Event
      → RaftNode S R D × Option ℕ
      → (WaitError ⊎ ApplyOutcome R) × RaftNode S R D
  after_propose before looks events (n, none) = (inl (redirected (leader_redirect before)), n)
  after_propose before looks events (n, some index) =
      after_commit index events (wait_for_commit index looks n)

  unfoldable pub propose_and_wait :
      Bytes
      → List (List Event)
      → List Event
      → RaftNode S R D
      → (WaitError ⊎ ApplyOutcome R) × RaftNode S R D
  propose_and_wait command looks events n = after_propose n looks events (propose m command n)

  -- The reply of one peer, after the lock was let go.
  unfoldable pub read_reply :
      ℕ → Option AppendEntriesReply → ℕ × RaftNode S R D → ℕ × RaftNode S R D
  read_reply term none (count, n) = (count, n)
  read_reply term (some r) (count, n) =
      if ltb term r.term
      then (count, if ltb n.current_term r.term then become_follower r.term n else n)
      else if r.success && r.term == term
      then (count + 1, n)
      else (count, n)

  unfoldable pub ask_peer : ℕ → Answer → ℕ × RaftNode S R D → ℕ × RaftNode S R D
  ask_peer term a (count, n) =
      let n' = handle_all m a.before n in
      if leads term n'
      then read_reply term a.reply (count, handle_all m a.meanwhile n')
      else (count, n')

  unfoldable pub ask_peers :
      ℕ → PeerMap → (String → Answer) → ℕ × RaftNode S R D → ℕ × RaftNode S R D
  ask_peers term [] answers c = c
  ask_peers term ((p, _) ∷ ps) answers c = ask_peers term ps answers (ask_peer term (answers p) c)

  unfoldable pub verify : ℕ → ℕ → ℕ × RaftNode S R D → Option WaitError × RaftNode S R D
  verify term majority (count, n) =
      if not (leads term n)
      then (some lost_during_verification, n)
      else if leb majority count
      then (none, n)
      else (some quorum_not_confirmed, n)

  -- `none` is a confirmed leader. With no other peer there is nobody to ask.
  unfoldable pub confirm_with :
      PeerMap → ℕ → (String → Answer) → RaftNode S R D → Option WaitError × RaftNode S R D
  confirm_with [] term answers n = if leads term n then (none, n) else (some leadership_lost, n)
  confirm_with (p ∷ ps) term answers n =
      verify term (election_majority n) (ask_peers term (p ∷ ps) answers (1, n))

  unfoldable pub confirm_leadership_for_read :
      ℕ → (String → Answer) → RaftNode S R D → Option WaitError × RaftNode S R D
  unfolding remote_peers
  confirm_leadership_for_read term answers n =
      if leads term n
      then confirm_with (remote_peers n.node_id n.peer_addresses) term answers n
      else (some leadership_lost, n)

  unfoldable pub wait_for_read_index :
      ℕ → List (List Event) → RaftNode S R D → Option WaitError × RaftNode S R D
  wait_for_read_index index [] n = (some (read_timed_out index), n)
  wait_for_read_index index (events ∷ more) n =
      let rest = wait_for_read_index index more (handle_all m events n) in
      if leb index n.last_applied then (none, n) else rest

  abbrev pub after_confirm :
      ℕ → List (List Event) → Option WaitError × RaftNode S R D → Option WaitError × RaftNode S R D
  after_confirm index looks (some e, n) = (some e, n)
  after_confirm index looks (none, n) = wait_for_read_index index looks n

  abbrev pub after_begin :
      (RaftNode S R D)
      → (String → Answer)
      → List Event
      → List (List Event)
      → WaitError ⊎ (ℕ × ℕ)
      → Option WaitError × RaftNode S R D
  after_begin n answers first looks (inl e) = (some e, n)
  after_begin n answers first looks (inr (index, term)) =
      after_confirm index looks (confirm_leadership_for_read term answers (handle_all m first n))

  -- `first` comes between the two locks.
  unfoldable pub ensure_linearizable_read :
      (String → Answer)
      → List Event
      → List (List Event)
      → RaftNode S R D
      → Option WaitError × RaftNode S R D
  ensure_linearizable_read answers first looks n =
      after_begin n answers first looks (begin_read_index n)

  abbrev pub error_of :
      (WaitError ⊎ ApplyOutcome R) × RaftNode S R D → Option WaitError × RaftNode S R D
  error_of (inl e, n) = (some e, n)
  error_of (inr r, n) = (none, n)

  -- What the node meets during one proposal.
  abbrev pub Meets : Type 0
  Meets = List (List Event) × List Event

  abbrev pub then_commit :
      Meets → Option WaitError × RaftNode S R D → Option WaitError × RaftNode S R D
  then_commit (looks, events) (some e, n) = (some e, n)
  then_commit (looks, events) (none, n) =
      error_of (propose_and_wait (encode_commit_config_command m.json) looks events n)

  -- The result of the first entry is not looked at.
  unfoldable pub propose_add_node :
      String → String → Meets → Meets → RaftNode S R D → Option WaitError × RaftNode S R D
  unfolding encode_add_node_command
  propose_add_node node_id address (looks, events) second n =
      then_commit second (
        error_of (propose_and_wait (encode_add_node_command m.json node_id address) looks events n))

  unfoldable pub propose_remove_node :
      String → Meets → Meets → RaftNode S R D → Option WaitError × RaftNode S R D
  unfolding encode_remove_node_command
  propose_remove_node node_id (looks, events) second n =
      then_commit second
        (error_of (propose_and_wait (encode_remove_node_command m.json node_id) looks events n))
