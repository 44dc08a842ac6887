-- ===== src/Consensus/Leader.antt =====
-- pkg/consensus/raft_node.go: candidates and leaders. What goes over the network is an argument: the
-- replies come in whatever order, each in a call of its own.
use domino_jc_project.Prelude.{
  ℕ, zero, suc, ◌+◌, ◌-◌, ◌/◌, String, Bool, true, false, not, ◌&&◌, ◌||◌, Option, none, some, [],
  ◌∷◌, ◌++◌, ltb, leb, ◌==◌, str_eq, if◌then◌else◌, length, StringMap, find_key, put_key, number_at,
}
use domino_jc_project.Consensus.Node.{
  Bytes, Role, leader, candidate, PeerMap, RaftNode, is_leader, last_log_index, entry_at,
  become_follower,
}
use domino_jc_project.Consensus.Apply.{Machine, apply_committed, persist_durable_state}
use domino_jc_project.Consensus.Rpc.{RequestVoteReply, AppendEntriesArgs, AppendEntriesReply}

abbrev is_candidate : Role → Bool
is_candidate candidate = true
is_candidate _ = false

-- The keys of `nextIndex` and `matchIndex` are the other nodes.
start_at : String → ℕ → PeerMap → StringMap ℕ
start_at node_id index [] = []
start_at node_id index ((p, _) ∷ ps) =
    let rest = start_at node_id index ps in if str_eq p node_id then rest else (p, index) ∷ rest

module _ {S R D : Type 0} where
  unfoldable pub init_leader_replication : RaftNode S R D → RaftNode S R D
  unfolding start_at last_log_index
  init_leader_replication n = record n {
    next_index = some (start_at n.node_id (last_log_index n + 1) n.peer_addresses);
    match_index = some (start_at n.node_id 0 n.peer_addresses);
  }

  unfoldable pub election_majority : RaftNode S R D → ℕ
  election_majority n =
      length (elim n.joint [ none ↦ n.peer_addresses | some j ↦ j.old_peers ]) / 2 + 1

  unfoldable pub promote_to_leader : ℕ → RaftNode S R D → RaftNode S R D
  unfolding init_leader_replication
  promote_to_leader term n =
      if not (is_candidate n.state) || not (n.current_term == term)
      then n
      else init_leader_replication (record n { state = leader })

  -- The part of `startElection` under the lock, and the promotion of a candidate that needs no other vote.
  -- The candidate votes for itself.
  unfoldable pub start_election : RaftNode S R D → RaftNode S R D
  unfolding election_majority promote_to_leader
  start_election n =
      if is_leader n.state
      then n
      else (let standing = record n {
        current_term = n.current_term + 1;
        state = candidate;
        voted_for = n.node_id;
      } in
          if leb (election_majority standing) 1
          then promote_to_leader standing.current_term standing
          else standing)

  -- One reply to a candidate of `term`, with the votes that it has. The code counts a vote after it has
  -- let go of the lock, so a promotion can come later: that is an event of its own.
  unfoldable pub on_vote_reply : ℕ → ℕ → RequestVoteReply → ℕ → RaftNode S R D → ℕ × RaftNode S R D
  unfolding promote_to_leader become_follower
  on_vote_reply term majority reply votes n =
      if ltb n.current_term reply.term
      then (votes, become_follower reply.term n)
      else if reply.vote_granted
          && reply.term == term
          && is_candidate n.state
          && n.current_term == term
      then (votes + 1, if leb majority (votes + 1) then promote_to_leader term n else n)
      else (votes, n)

  unfoldable pub is_pending_new_peer : RaftNode S R D → String → Bool
  is_pending_new_peer n peer = elim n.joint [
    | none ↦ false
    | some j ↦ elim (find_key peer j.old_peers) [
      | some _ ↦ false
      | none ↦ elim n.match_index [ none ↦ true | some matched ↦ number_at peer matched == 0 ]
    ]
  ]

  unfoldable pub active_voters_in : RaftNode S R D → PeerMap → ℕ
  unfolding is_pending_new_peer
  active_voters_in n [] = 0
  active_voters_in n ((p, _) ∷ ps) =
      let rest = active_voters_in n ps in if is_pending_new_peer n p then rest else suc rest

  -- Whether the node counts `peer` as having the entry.
  unfoldable pub has_replicated : RaftNode S R D → ℕ → String → Bool
  has_replicated n index peer =
      str_eq peer n.node_id
      || (elim n.match_index [ none ↦ false | some matched ↦ leb index (number_at peer matched) ])

  unfoldable pub replication_count_in : RaftNode S R D → ℕ → PeerMap → ℕ
  unfolding is_pending_new_peer has_replicated
  replication_count_in n index [] = 0
  replication_count_in n index ((p, _) ∷ ps) =
      let rest = replication_count_in n index ps in
      if is_pending_new_peer n p then rest else if has_replicated n index p then suc rest else rest

  unfoldable pub quorum_met_in : RaftNode S R D → ℕ → PeerMap → Bool
  unfolding active_voters_in replication_count_in
  quorum_met_in n index config =
      active_voters_in n config == 0
      || leb (active_voters_in n config / 2 + 1) (replication_count_in n index config)

  unfoldable pub quorum_met : RaftNode S R D → ℕ → Bool
  unfolding quorum_met_in
  quorum_met n index = elim n.joint [
    | none ↦ quorum_met_in n index n.peer_addresses
    | some j ↦ quorum_met_in n index j.old_peers && quorum_met_in n index j.new_peers
  ]

  -- Whether the entry at `index` is of the current term and on a quorum.
  unfoldable pub can_commit : RaftNode S R D → ℕ → Bool
  unfolding quorum_met
  can_commit n index = elim (entry_at index n) [
    | none ↦ false
    | some e ↦ e.term == n.current_term && quorum_met n index
  ]

  -- `for idx := lastIdx; idx > n.commitIndex; idx--`, with the rounds that are left: the index that the
  -- loop stops at, if it does.
  unfoldable pub find_commit : ℕ → RaftNode S R D → Option ℕ
  unfolding can_commit
  find_commit zero n = none
  find_commit (suc rounds) n =
      let rest = find_commit rounds n in
      let index = n.commit_index + suc rounds in if can_commit n index then some index else rest

module _ {S R D : Type 0} (m : Machine S R D) where
  unfoldable pub advance_commit_index : RaftNode S R D → RaftNode S R D
  unfolding find_commit last_log_index apply_committed
  advance_commit_index n = elim (find_commit (last_log_index n - n.commit_index) n) [
    | none ↦ n
    | some index ↦ apply_committed m (record n { commit_index = index })
  ]

  abbrev pub map_or_nil : Option (StringMap ℕ) → StringMap ℕ
  map_or_nil none = []
  map_or_nil (some a) = a

  unfoldable pub replicated : String → AppendEntriesArgs → RaftNode S R D → RaftNode S R D
  unfolding advance_commit_index
  replicated peer args n =
      let matched = args.prev_log_index + length args.entries in
      advance_commit_index (record n {
        match_index = some (put_key peer matched (map_or_nil n.match_index));
        next_index = some (put_key peer (matched + 1) (map_or_nil n.next_index));
      })

  -- A follower refused: the next call tries one entry earlier, unless a snapshot has to be sent.
  unfoldable pub back_off : String → RaftNode S R D → RaftNode S R D
  back_off peer n =
      let next = number_at peer (map_or_nil n.next_index) in
      if leb next (n.snapshot_index + 1) || leb next 1
      then n
      else record n { next_index = some (put_key peer (next - 1) (map_or_nil n.next_index)) }

  -- The maps of a leader are never nil, so `map_or_nil` only names the case that does not arise.
  unfoldable pub handle_append_entries_reply :
      ℕ → String → AppendEntriesArgs → AppendEntriesReply → RaftNode S R D → RaftNode S R D
  unfolding replicated back_off become_follower
  handle_append_entries_reply term peer args reply n =
      if ltb n.current_term reply.term
      then become_follower reply.term n
      else if not (is_leader n.state) || not (n.current_term == term)
      then n
      else if reply.success
      then replicated peer args n
      else back_off peer n

  -- The index of the new entry, or `none` on a node that does not lead.
  unfoldable pub propose : Bytes → RaftNode S R D → RaftNode S R D × Option ℕ
  unfolding persist_durable_state last_log_index
  propose command n =
      if not (is_leader n.state)
      then (n, none)
      else (let index = last_log_index n + 1 in
          (
            persist_durable_state m (record n {
              log =
                  n.log
                  ++ (record { index = index; term = n.current_term; command = command }) ∷ [];
            }),
            some index,
          ))
