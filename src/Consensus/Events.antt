-- ===== src/Consensus/Events.antt =====
-- pkg/consensus/raft_node.go: what a node can meet, each under its lock and so in some order.
use domino_jc_project.Prelude.{ℕ, List, [], ◌∷◌, String}
use domino_jc_project.Consensus.Node.{Bytes, RaftNode}
use domino_jc_project.Consensus.Apply.{Machine}
use domino_jc_project.Consensus.Rpc.{
  RequestVoteArgs, RequestVoteReply, AppendEntriesArgs, AppendEntriesReply, InstallSnapshotArgs,
  request_vote, append_entries, install_snapshot,
}
use domino_jc_project.Consensus.Leader.{
  start_election, promote_to_leader, on_vote_reply, handle_append_entries_reply, propose,
}

pub data Event : Type 0 where
  vote_asked : RequestVoteArgs → Event
  entries_received : AppendEntriesArgs → Event
  snapshot_received : InstallSnapshotArgs → Event
  election_due : Event
  vote_answered : (term majority votes : ℕ) → RequestVoteReply → Event
  majority_reached : (term : ℕ) → Event
  entries_answered : (term : ℕ) → (peer : String) → AppendEntriesArgs → AppendEntriesReply → Event
  command_proposed : Bytes → Event

module _ {S R D : Type 0} (m : Machine S R D) where
  unfoldable pub handle : Event → RaftNode S R D → RaftNode S R D
  unfolding request_vote append_entries install_snapshot start_election promote_to_leader
      on_vote_reply handle_append_entries_reply propose
  handle (vote_asked args) n = (request_vote args n).0
  handle (entries_received args) n = (append_entries m args n).0
  handle (snapshot_received args) n = (install_snapshot m args n).0
  handle election_due n = start_election n
  handle (vote_answered term majority votes reply) n = (on_vote_reply term majority reply votes n).1
  handle (majority_reached term) n = promote_to_leader term n
  handle (entries_answered term peer args reply) n =
      handle_append_entries_reply m term peer args reply n
  handle (command_proposed command) n = (propose m command n).0

  unfoldable pub handle_all : List Event → RaftNode S R D → RaftNode S R D
  unfolding handle
  handle_all [] n = n
  handle_all (e ∷ es) n = handle_all es (handle e n)
