-- ===== src/Consensus/LeaderTests.antt =====
-- The theorems about leaders, starts and compaction at concrete nodes.
use domino_jc_project.Prelude.{
  ◌≤◌, String, ◌≡◌, refl, Bool, true, some, List, [], ◌∷◌, arith, All, find_key, number_at, ◌+◌,
  str_eq, ◌||◌,
}
use domino_jc_project.Consensus.Node.{
  Bytes, LogEntry, RaftNode, executed, leader, sentinel, entry_at, last_log_index,
  uncompacted_log_entries,
}
use domino_jc_project.Consensus.Command.{decode_command}
use domino_jc_project.Consensus.Apply.{maybe_compact}
use domino_jc_project.Consensus.Rpc.{append_at}
use domino_jc_project.Consensus.Leader.{
  has_replicated, map_or_nil, quorum_met, election_majority, advance_commit_index,
}
use domino_jc_project.Consensus.Log.{IsSound}
use domino_jc_project.Consensus.Quorum.{Meets, count_in, quorum_met-Meets}
use domino_jc_project.Consensus.Quorum.Advance.{LeaderCommit, advance_commit_index-LeaderCommit}
use domino_jc_project.Consensus.Replicate.{collect_tasks}
use domino_jc_project.Consensus.Replicate.Fitting.{AreTasks, collect_tasks-AreTasks}
use domino_jc_project.Consensus.Bootstrap.{bootstrap_from_storage, bootstrap_from_storage_past}
use domino_jc_project.Consensus.Sound.Append.{IsFilled, entry_at-append_at}
use domino_jc_project.Consensus.Sound.Compact.{entry_at-maybe_compact}
use domino_jc_project.Consensus.Tests.{
  machine, peers, fresh, entry, follower_node, follower_node-IsSound, batch,
}

-- A leader whose last entry one follower has.
abbrev leader_node : RaftNode (List Bytes) Bool (List LogEntry)
leader_node = record follower_node {
  state = leader;
  commit_index = 1;
  next_index = some (("n2", 4) ∷ ("n3", 1) ∷ []);
  match_index = some (("n2", 3) ∷ ("n3", 0) ∷ []);
}

abbrev backers : String → Bool
backers p = str_eq p "n2" || str_eq p "n3"

replicated_twice : quorum_met leader_node 3 ≡ true
unfolding quorum_met find_key
replicated_twice = refl

backed : election_majority leader_node ≤ count_in backers leader_node.peer_addresses
unfolding election_majority count_in
backed = omega arith

quorum_met-Meets_example : Meets (has_replicated leader_node 3) backers leader_node.peer_addresses
quorum_met-Meets_example =
    quorum_met-Meets leader_node 3 backers refl (omega arith) replicated_twice backed

end_of_leader_log : last_log_index leader_node ≡ 3
unfolding last_log_index
end_of_leader_log = refl

advance_commit_index-LeaderCommit_example :
    LeaderCommit leader_node (advance_commit_index machine leader_node).commit_index
advance_commit_index-LeaderCommit_example =
    advance_commit_index-LeaderCommit machine leader_node (rw end_of_leader_log (omega arith))

commits_three : (advance_commit_index machine leader_node).commit_index ≡ 3
unfolding advance_commit_index entry_at find_key uncompacted_log_entries decode_command
commits_three = refl

abbrev leader_node-IsSound : IsSound leader_node
leader_node-IsSound = record {
  lower = follower_node-IsSound.lower;
  numbered = follower_node-IsSound.numbered;
}

next_indices :
    All
      (λ p.
        number_at p.0 (map_or_nil machine leader_node.next_index) ≤ last_log_index leader_node + 1)
      peers
unfolding find_key last_log_index
next_indices = (omega arith, (omega arith, (omega arith, tt)))

collect_tasks-AreTasks_example :
    AreTasks machine leader_node peers (collect_tasks machine leader_node peers)
collect_tasks-AreTasks_example =
    collect_tasks-AreTasks machine leader_node peers leader_node-IsSound next_indices

-- A node that starts with two entries in its storage, of which none was committed.
abbrev restarted : RaftNode (List Bytes) Bool (List LogEntry)
restarted = record fresh {
  fsm = (2 ∷ []) ∷ (1 ∷ []) ∷ [];
  log = sentinel 0 0 ∷ entry 1 1 ∷ entry 2 1 ∷ [];
  commit_index = 2;
  last_applied = 2;
  apply_results = (2, executed true) ∷ (1, executed true) ∷ [];
}

restarts : bootstrap_from_storage machine (entry 1 1 ∷ entry 2 1 ∷ []) fresh ≡ some restarted
unfolding bootstrap_from_storage entry_at decode_command
restarts = refl

bootstrap_from_storage_past_example : last_log_index restarted ≤ restarted.commit_index
bootstrap_from_storage_past_example =
    bootstrap_from_storage_past machine (entry 1 1 ∷ entry 2 1 ∷ []) fresh restarted restarts

batch-IsFilled : All IsFilled batch.entries
unfolding IsFilled
batch-IsFilled = ((omega arith, omega arith), tt)

entry_at-append_at_example : entry_at 1 (append_at machine 0 batch follower_node) ≡ some (entry 1 1)
entry_at-append_at_example =
    entry_at-append_at machine 0 batch follower_node 1 (omega arith) refl batch-IsFilled refl

-- The follower compacts up to its entry 2.
abbrev crowded : RaftNode (List Bytes) Bool (List LogEntry)
crowded = record follower_node { last_applied = 2; compact_threshold = 1 }

compacts : (maybe_compact machine crowded).log ≡ sentinel 2 1 ∷ entry 3 1 ∷ []
unfolding maybe_compact uncompacted_log_entries entry_at
compacts = refl

entry_at-maybe_compact_example : entry_at 3 (maybe_compact machine crowded) ≡ entry_at 3 crowded
entry_at-maybe_compact_example =
    entry_at-maybe_compact machine 3 crowded (omega arith) (omega arith)
