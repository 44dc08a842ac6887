-- ===== src/Consensus/Replicate.antt =====
-- pkg/consensus/raft_node.go: the calls that a leader makes for each of its peers.
pub mod Fitting
use domino_jc_project.Prelude.{
  ℕ, ◌+◌, ◌-◌, ◌≤◌, ◌<◌, String, ◌≡◌, ap, ◌∙◌, not, ◌||◌, Option, none, some, List, [], ◌∷◌, leb,
  ◌==◌, str_eq, if◌then◌else◌, length, drop, length-drop, subst, number_at, arith, Bool-cases, inl,
  inr, All,
}
use domino_jc_project.Consensus.Node.{
  LogEntry, RaftNode, PeerMap, is_leader, entry_at, last_log_index,
}
use domino_jc_project.Consensus.Apply.{Machine}
use domino_jc_project.Consensus.Leader.{map_or_nil}
use domino_jc_project.Consensus.Log.{
  IsSound, IsPlaced, entry_at-exact, drop-IsNumbered, IsNumbered-IsPlaced, last_log_index-IsSound,
}

-- `install` is a task with `installSnap`.
pub data ReplicationTask : Type 0 where
  install : (peer_id addr : String) → ReplicationTask
  append :
      (peer_id addr : String) (prev_log_index prev_log_term : ℕ) (entries : List LogEntry)
      (leader_commit : ℕ)
      → ReplicationTask

module _ {S R D : Type 0} (m : Machine S R D) where
  -- The task for one peer; `none` where the code reads past the end of the log and panics.
  unfoldable pub peer_task : RaftNode S R D → String → String → Option ReplicationTask
  peer_task n peer addr =
      let next = number_at peer (map_or_nil m n.next_index) in
      if leb next n.snapshot_index then some (install peer addr) else elim (entry_at (next - 1) n) [
        | none ↦ none
        | some prev ↦ some (
            append peer addr (next - 1) prev.term (drop (next - n.snapshot_index) n.log)
              n.commit_index)
      ]

  -- The tasks in the order of the configuration, which is any order in the code.
  unfoldable pub collect_tasks : RaftNode S R D → PeerMap → List (Option ReplicationTask)
  unfolding peer_task
  collect_tasks n [] = []
  collect_tasks n ((p, addr) ∷ ps) =
      let rest = collect_tasks n ps in
      if str_eq p n.node_id then rest else peer_task n p addr ∷ rest

  unfoldable pub collect_replication_tasks :
      ℕ → RaftNode S R D → Option (List (Option ReplicationTask))
  unfolding collect_tasks
  collect_replication_tasks term n =
      if not (is_leader n.state) || not (n.current_term == term)
      then none
      else some (collect_tasks n n.peer_addresses)
