-- ===== src/Consensus/Terms.antt =====
-- pkg/consensus/raft_node.go: the term of a node only grows.
use domino_jc_project.Prelude.{◌≤◌, List, [], ◌∷◌, arith}
use domino_jc_project.Consensus.Node.{RaftNode}
use domino_jc_project.Consensus.Apply.{Machine}
use domino_jc_project.Consensus.Rpc.{AppendEntriesArgs, append_entries, refuse}
use domino_jc_project.Consensus.Events.{
  Event, vote_asked, entries_received, snapshot_received, election_due, vote_answered,
  majority_reached, entries_answered, command_proposed, handle, handle_all,
}
use domino_jc_project.Consensus.Vote.{Faithful, IsQuiet, handle-Faithful}
use domino_jc_project.Consensus.Follow.{
  stale, mismatched, matched, append_entries-AppendCase, append_entries-SameTerm,
  install_snapshot_reached,
}

module _ {S R D : Type 0} (m : Machine S R D) where
  append_entries_reached :
      (args : AppendEntriesArgs) (n : RaftNode S R D)
      → n.current_term ≤ (append_entries m args n).0.current_term
  unfolding refuse
  append_entries_reached args n = elim (append_entries-AppendCase m args n) [
    | stale old e ↦ rw e (omega arith)
    | mismatched reached e ↦ ground (arith, append_entries-SameTerm m args n reached)
    | matched prev reached _ _ _ e ↦ ground (arith, append_entries-SameTerm m args n reached)
  ]

  quiet_reached :
      (e : Event) (n : RaftNode S R D) → IsQuiet e → n.current_term ≤ (handle m e n).current_term
  unfolding Faithful
  quiet_reached e n quiet = ground (arith, handle-Faithful m e n quiet)

  handle_reached : (e : Event) (n : RaftNode S R D) → n.current_term ≤ (handle m e n).current_term
  unfolding handle IsQuiet
  handle_reached (entries_received args) n = append_entries_reached args n
  handle_reached (snapshot_received args) n = install_snapshot_reached m args n
  handle_reached (vote_asked args) n = quiet_reached (vote_asked args) n tt
  handle_reached election_due n = quiet_reached election_due n tt
  handle_reached (vote_answered t k v r) n = quiet_reached (vote_answered t k v r) n tt
  handle_reached (majority_reached t) n = quiet_reached (majority_reached t) n tt
  handle_reached (entries_answered t p a r) n = quiet_reached (entries_answered t p a r) n tt
  handle_reached (command_proposed c) n = quiet_reached (command_proposed c) n tt

  -- The term of a node never goes back, whatever it meets.
  pub handle_all_reached :
      (es : List Event) (n : RaftNode S R D) → n.current_term ≤ (handle_all m es n).current_term
  unfolding handle_all
  handle_all_reached [] n = omega arith
  handle_all_reached (e ∷ es) n =
      let step = handle_reached e n in
      let rest = handle_all_reached es (handle m e n) in omega arith
