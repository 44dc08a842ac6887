-- ===== src/Consensus/Sound.antt =====
-- pkg/consensus/raft_node.go: every event keeps the log numbered.
pub mod Append
pub mod Compact
pub mod Quiet
pub mod Handlers
use domino_jc_project.Prelude.{
  ℕ, zero, suc, ◌+◌, ◌-◌, ◌≤◌, ◌<◌, ◌≡◌, refl, sym, ap, ◌∙◌, Bool, true, false, Option, none, some,
  List, [], ◌∷◌, ◌++◌, ltb, leb, ◌==◌, String, inl, inr, ◌⊎◌, arith, Bool-cases, Option-cases,
  length, get_elem?, take, drop, if◌then◌else◌, put_key, All, length-take, length-append,
}
use domino_jc_project.Consensus.Node.{
  Bytes, LogEntry, RaftNode, last_log_index, entry_at, new_raft_node, PeerMap, become_follower,
  uncompacted_log_entries,
}
use domino_jc_project.Consensus.Apply.{
  Machine, cut_log, apply_rounds, apply_committed, maybe_compact, persist_checked,
  persist_durable_state,
}
use domino_jc_project.Consensus.Apply.Keep.{cut_at, idle, written, maybe_compact-CompactCase}
use domino_jc_project.Consensus.Apply.Frame.{SameLog, apply_rounds-SameLog}
use domino_jc_project.Consensus.Rpc.{
  entries_from_args, RequestVoteArgs, RequestVoteReply, AppendEntriesArgs, AppendEntriesReply,
  InstallSnapshotArgs, vote_in_term, request_vote, append_entries, install_snapshot, follow, refuse,
  accept, append_at, learn_commit, installed, install, no_entries,
}
use domino_jc_project.Consensus.Leader.{
  start_election, on_vote_reply, promote_to_leader, init_leader_replication,
  handle_append_entries_reply, replicated, back_off, map_or_nil, advance_commit_index, find_commit,
  propose,
}
use domino_jc_project.Consensus.Events.{
  Event, vote_asked, entries_received, snapshot_received, election_due, vote_answered,
  entries_answered, command_proposed, handle, handle_all,
}
use domino_jc_project.Consensus.Follow.{
  Followed, follow-Followed, stale, mismatched, matched, append_entries-AppendCase,
}
use domino_jc_project.Consensus.Log.{
  IsNumbered, IsSound, IsPlaced, entries_from_args-IsNumbered, last_log_index-IsSound,
  cut_log-IsNumbered, IsNumbered-++, take-IsNumbered,
}

module _ {S R D : Type 0} where
  -- The log and its start are those of `n`.
  pub record SameEntries (n n' : RaftNode S R D) : Type 0 where
    pub log : n'.log ≡ n.log
    pub snapshot_index : n'.snapshot_index ≡ n.snapshot_index

  pub SameEntries-IsSound : {n n' : RaftNode S R D} → SameEntries n n' → IsSound n → IsSound n'
  unfolding IsNumbered
  SameEntries-IsSound {n} {n'} same sound = record {
    lower = rw same.log sound.lower;
    numbered = rw (same.log, same.snapshot_index) sound.numbered;
  }

module _ {S R D : Type 0} (m : Machine S R D) where
  pub persist_checked-SameEntries : (n : RaftNode S R D) → SameEntries n (persist_checked m n).1
  unfolding persist_checked
  persist_checked-SameEntries n = ground arith

  pub persist_durable_state-SameEntries :
      (n : RaftNode S R D) → SameEntries n (persist_durable_state m n)
  unfolding persist_durable_state
  persist_durable_state-SameEntries n = persist_checked-SameEntries n

  maybe_compact-IsSound : (n : RaftNode S R D) → IsSound n → IsSound (maybe_compact m n)
  maybe_compact-IsSound n sound = elim (maybe_compact-CompactCase m n) [
    | idle q ↦ rw q sound
    | written entry data' d _ _ _ q ↦
        let cut = cut_log-IsNumbered m n.last_applied entry.term n sound.numbered in
        let base = cut_at m n.last_applied entry.term data' d n in
        rw q (
          SameEntries-IsSound {n = base} (persist_durable_state-SameEntries base)
            (record { lower = cut.0; numbered = cut.1 }))
  ]

  pub apply_committed-IsSound : (n : RaftNode S R D) → IsSound n → IsSound (apply_committed m n)
  unfolding apply_committed
  apply_committed-IsSound n sound =
      let rounds = n.commit_index - n.last_applied in
      let same = apply_rounds-SameLog m rounds n in
      maybe_compact-IsSound (apply_rounds m rounds n) (
        SameEntries-IsSound (record { log = same.log; snapshot_index = same.snapshot_index }) sound)

  append_at-IsSound :
      (offset : ℕ) (args : AppendEntriesArgs) (n : RaftNode S R D)
      → offset < length n.log
      → args.prev_log_index ≡ n.snapshot_index + offset
      → IsPlaced (args.prev_log_index + 1) args.entries
      → IsSound n
      → IsSound (append_at m offset args n)
  unfolding append_at
  append_at-IsSound offset args n inside place placed sound =
      elim (Bool-cases (no_entries args.entries)) [
        | inl e ↦ rw (e, append_at) sound
        | inr e ↦
            let kept = take (offset + 1) n.log in
            let new = entries_from_args (args.prev_log_index + 1) args.term args.entries in
            let size : length kept ≡ offset + 1 = omega (arith, length-take (offset + 1) n.log) in
            let next : n.snapshot_index + length kept ≡ args.prev_log_index + 1 = omega arith in
            let total = length-append kept new in
            rw (e, append_at)
              (record {
                lower = omega arith;
                numbered =
                    IsNumbered-++ n.snapshot_index kept new
                      (take-IsNumbered n.snapshot_index (offset + 1) n.log sound.numbered)
                      (rw next (
                        entries_from_args-IsNumbered (args.prev_log_index + 1) args.term
                          args.entries placed));
              })
      ]

  learn_commit-SameEntries : (c : ℕ) (n : RaftNode S R D) → SameEntries n (learn_commit m c n)
  unfolding learn_commit
  learn_commit-SameEntries c n = ground arith

  pub accept-IsSound :
      (offset : ℕ) (args : AppendEntriesArgs) (n : RaftNode S R D)
      → offset < length n.log
      → args.prev_log_index ≡ n.snapshot_index + offset
      → IsPlaced (args.prev_log_index + 1) args.entries
      → IsSound n
      → IsSound (accept m offset args n).0
  unfolding accept
  accept-IsSound offset args n inside place placed sound =
      let appended = append_at m offset args n in
      let learned = learn_commit m args.leader_commit appended in
      let learned_sound =
        SameEntries-IsSound (learn_commit-SameEntries args.leader_commit appended)
          (append_at-IsSound offset args n inside place placed sound) in
      let applied = apply_committed m learned in
      SameEntries-IsSound (persist_durable_state-SameEntries applied)
        (apply_committed-IsSound learned learned_sound)

  length-entries_from_args :
      (i t : ℕ) (es : List LogEntry) → length (entries_from_args i t es) ≡ length es
  unfolding entries_from_args
  length-entries_from_args i t [] = refl
  length-entries_from_args i t (e ∷ es) = ap suc (length-entries_from_args (i + 1) t es)

  -- A call with entries that matches a sound log ends the log at the last of them, whatever the log has
  -- beyond: a delayed call shortens it.
  pub last_log_index-append_at :
      (offset : ℕ) (args : AppendEntriesArgs) (n : RaftNode S R D)
      → IsSound n
      → offset < length n.log
      → args.prev_log_index ≡ n.snapshot_index + offset
      → IsPlaced (args.prev_log_index + 1) args.entries
      → no_entries args.entries ≡ false
      → last_log_index (append_at m offset args n) ≡ args.prev_log_index + length args.entries
  unfolding append_at
  last_log_index-append_at offset args n sound inside place placed some_entries =
      let n' = append_at m offset args n in
      let kept = take (offset + 1) n.log in
      let new = entries_from_args (args.prev_log_index + 1) args.term args.entries in
      let shape : n'.log ≡ kept ++ new = rw (some_entries, append_at) in
      let start : n'.snapshot_index ≡ n.snapshot_index = ground arith in
      let last =
        last_log_index-IsSound n' (append_at-IsSound offset args n inside place placed sound) in
      let total : length n'.log ≡ length kept + length new =
        ap length shape ∙ length-append kept new in
      let added = length-entries_from_args (args.prev_log_index + 1) args.term args.entries in
      omega (arith, length-take (offset + 1) n.log)
