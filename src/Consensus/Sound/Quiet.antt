-- ===== src/Consensus/Sound/Quiet.antt =====
-- pkg/consensus/raft_node.go: votes and elections leave the log alone.
use domino_jc_project.Prelude.{ℕ, ltb, inl, inr, arith, Bool-cases}
use domino_jc_project.Consensus.Node.{RaftNode, become_follower}
use domino_jc_project.Consensus.Rpc.{RequestVoteArgs, RequestVoteReply, vote_in_term, request_vote}
use domino_jc_project.Consensus.Leader.{
  start_election, on_vote_reply, promote_to_leader, init_leader_replication,
}
use domino_jc_project.Consensus.Sound.{SameEntries}

module _ {S R D : Type 0} where
  vote_in_term-SameEntries :
      (args : RequestVoteArgs) (n : RaftNode S R D) → SameEntries n (vote_in_term args n).0
  unfolding vote_in_term
  vote_in_term-SameEntries args n = ground arith

  pub request_vote-SameEntries :
      (args : RequestVoteArgs) (n : RaftNode S R D) → SameEntries n (request_vote args n).0
  unfolding request_vote
  request_vote-SameEntries args n = elim (Bool-cases (ltb n.current_term args.term)) [
    | inl e ↦
        let same = vote_in_term-SameEntries args (become_follower args.term n) in
        rw (e, request_vote) (record { log = same.log; snapshot_index = same.snapshot_index })
    | inr e ↦ rw (e, request_vote) (vote_in_term-SameEntries args n)
  ]

  pub start_election-SameEntries : (n : RaftNode S R D) → SameEntries n (start_election n)
  unfolding start_election promote_to_leader init_leader_replication
  start_election-SameEntries n = ground arith

  pub promote_to_leader-SameEntries :
      (term : ℕ) (n : RaftNode S R D) → SameEntries n (promote_to_leader term n)
  unfolding promote_to_leader init_leader_replication
  promote_to_leader-SameEntries term n = ground arith

  pub on_vote_reply-SameEntries :
      (term majority votes : ℕ) (reply : RequestVoteReply) (n : RaftNode S R D)
      → SameEntries n (on_vote_reply term majority reply votes n).1
  unfolding on_vote_reply promote_to_leader init_leader_replication
  on_vote_reply-SameEntries term majority votes reply n = ground arith
