-- ===== src/Consensus/Rpc.antt =====
-- pkg/consensus/raft_node.go: the three calls that a node answers. A reply is never nil here.
use domino_jc_project.Prelude.{
  ℕ, ◌+◌, ◌-◌, String, Bool, true, false, not, ◌&&◌, ◌||◌, Option, none, some, List, [], ◌∷◌, ◌++◌,
  ltb, leb, ◌==◌, str_eq, if◌then◌else◌, take, get_elem?,
}
use domino_jc_project.Consensus.Node.{
  Bytes, LogEntry, RaftNode, is_follower, last_log_index, log_is_up_to_date, become_follower,
}
use domino_jc_project.Consensus.Apply.{
  Machine, apply_committed, persist_durable_state, persist_checked, cut_log,
}

pub record RequestVoteArgs : Type 0 where
  pub term : ℕ
  pub candidate_id : String
  pub last_log_index : ℕ
  pub last_log_term : ℕ

pub record RequestVoteReply : Type 0 where
  pub term : ℕ
  pub vote_granted : Bool

pub record AppendEntriesArgs : Type 0 where
  pub term : ℕ
  pub leader_id : String
  pub prev_log_index : ℕ
  pub prev_log_term : ℕ
  pub entries : List LogEntry
  pub leader_commit : ℕ

pub record AppendEntriesReply : Type 0 where
  pub term : ℕ
  pub success : Bool

pub record InstallSnapshotArgs : Type 0 where
  pub term : ℕ
  pub leader_id : String
  pub last_included_index : ℕ
  pub last_included_term : ℕ
  pub image : Bytes

module _ {S R D : Type 0} where
  -- The vote itself, once the node has taken over a later term.
  unfoldable pub vote_in_term : RequestVoteArgs → RaftNode S R D → RaftNode S R D × RequestVoteReply
  vote_in_term args n =
      if ltb args.term n.current_term
      then (n, record { term = n.current_term; vote_granted = false })
      else if not (str_eq n.voted_for "") && not (str_eq n.voted_for args.candidate_id)
      then (n, record { term = n.current_term; vote_granted = false })
      else if not (log_is_up_to_date args.last_log_index args.last_log_term n)
      then (n, record { term = n.current_term; vote_granted = false })
      else (
        record n { voted_for = args.candidate_id },
        record { term = n.current_term; vote_granted = true },
      )

  unfoldable pub request_vote : RequestVoteArgs → RaftNode S R D → RaftNode S R D × RequestVoteReply
  unfolding vote_in_term become_follower log_is_up_to_date
  request_vote args n =
      vote_in_term args (if ltb n.current_term args.term then become_follower args.term n else n)

  -- The term and the leader of a call from a leader that is not behind.
  unfoldable pub follow : ℕ → String → RaftNode S R D → RaftNode S R D
  unfolding become_follower
  follow term leader_id n =
      let n' =
        if ltb n.current_term term || not (is_follower n.state)
        then become_follower term n
        else record n { current_term = term; voted_for = "" } in
      record n' { known_leader_id = leader_id; known_leader_term = term }

-- An entry with no index or term takes those of its place in the call.
unfoldable pub entries_from_args : ℕ → ℕ → List LogEntry → List LogEntry
entries_from_args index term [] = []
entries_from_args index term (e ∷ es) =
    record {
      index = if e.index == 0 then index else e.index;
      term = if e.term == 0 then term else e.term;
      command = e.command;
    }
    ∷ entries_from_args (index + 1) term es

abbrev pub no_entries : List LogEntry → Bool
no_entries [] = true
no_entries (_ ∷ _) = false

module _ {S R D : Type 0} (m : Machine S R D) where
  unfoldable pub append_at : ℕ → AppendEntriesArgs → RaftNode S R D → RaftNode S R D
  unfolding entries_from_args
  append_at offset args n = if no_entries args.entries then n else record n {
    log =
        take (offset + 1) n.log
        ++ entries_from_args (args.prev_log_index + 1) args.term args.entries;
  }

  unfoldable pub learn_commit : ℕ → RaftNode S R D → RaftNode S R D
  unfolding last_log_index
  learn_commit leader_commit n =
      if ltb n.commit_index leader_commit
      then record n {
        commit_index =
            if ltb leader_commit (last_log_index n) then leader_commit else last_log_index n;
      }
      else n

  unfoldable pub refuse : RaftNode S R D → RaftNode S R D × AppendEntriesReply
  refuse n = (n, record { term = n.current_term; success = false })

  unfoldable pub accept :
      ℕ → AppendEntriesArgs → RaftNode S R D → RaftNode S R D × AppendEntriesReply
  unfolding append_at learn_commit apply_committed persist_durable_state
  accept offset args n =
      let n' =
        persist_durable_state m
          (apply_committed m (learn_commit args.leader_commit (append_at offset args n))) in
      (n', record { term = n'.current_term; success = true })

  unfoldable pub append_entries :
      AppendEntriesArgs → RaftNode S R D → RaftNode S R D × AppendEntriesReply
  unfolding follow refuse accept
  append_entries args n =
      if ltb args.term n.current_term
      then refuse n
      else (let n' = follow args.term args.leader_id n in
          if ltb args.prev_log_index n'.snapshot_index
          then refuse n'
          else elim (get_elem? n'.log (args.prev_log_index - n'.snapshot_index)) [
            | none ↦ refuse n'
            | some prev ↦
                (if prev.term == args.prev_log_term
                  then accept (args.prev_log_index - n'.snapshot_index) args n'
                  else refuse n')
          ])

  -- The node that `InstallSnapshot` leaves in memory: `s` is the restored state.
  unfoldable pub installed : InstallSnapshotArgs → S → RaftNode S R D → RaftNode S R D
  unfolding cut_log
  installed args s n = record n {
    fsm = s;
    snapshot_index = args.last_included_index;
    snapshot_term = args.last_included_term;
    last_snapshot = args.image;
    last_applied = args.last_included_index;
    log = cut_log m args.last_included_index args.last_included_term n;
    commit_index =
        if ltb args.last_included_index n.commit_index
        then args.last_included_index
        else n.commit_index;
  }

  -- The part after the restore, and whether all writes succeeded.
  unfoldable pub install : InstallSnapshotArgs → S → RaftNode S R D → Bool × RaftNode S R D
  unfolding installed persist_checked
  install args s n = elim n.storage [
    | none ↦ (true, installed args s n)
    | some d ↦
        elim (m.persist_snapshot args.last_included_index args.last_included_term args.image d) [
          | none ↦ (false, installed args s n)
          | some d' ↦ persist_checked m (record (installed args s n) { storage = some d' })
        ]
  ]

  -- The node, and the term of the reply or `none` where the call returns an error.
  unfoldable pub install_snapshot : InstallSnapshotArgs → RaftNode S R D → RaftNode S R D × Option ℕ
  unfolding follow install
  install_snapshot args n =
      if ltb args.term n.current_term
      then (n, some n.current_term)
      else (let n' = follow args.term args.leader_id n in
          if leb args.last_included_index n'.snapshot_index
          then (n', some n.current_term)
          else elim (m.restore args.image n'.fsm) [
            | none ↦ (n', none)
            | some s ↦
                (let (done, t) = install args s n' in
                  (t, if done then some t.current_term else none))
          ])
