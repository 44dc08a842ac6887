-- ===== src/Consensus/Follow.antt =====
-- pkg/consensus/raft_node.go: AppendEntries and InstallSnapshot, by the way they end.
use domino_jc_project.Prelude.{
  ℕ, ◌-◌, ◌≤◌, ◌<◌, String, ◌≡◌, refl, sym, ap, ap₂, ◌∙◌, true, false, some, ltb, ◌==◌, str_eq,
  arith, Bool-cases, Option-cases, inl, inr, get_elem?,
}
use domino_jc_project.Consensus.Node.{RaftNode, LogEntry, log_is_up_to_date}
use domino_jc_project.Consensus.Apply.{Machine, apply_committed}
use domino_jc_project.Consensus.Apply.Keep.{
  apply_committed-SameVote, persist_durable_state-SameRun, persist_checked-SameRun,
}
use domino_jc_project.Consensus.Rpc.{
  RequestVoteArgs, vote_in_term, AppendEntriesArgs, AppendEntriesReply, InstallSnapshotArgs,
  request_vote, append_entries, install_snapshot, follow, refuse, accept, installed, install,
  append_at, learn_commit,
}

module _ {S R D : Type 0} (m : Machine S R D) where
  pub data AppendCase (args : AppendEntriesArgs) (n : RaftNode S R D)
      (r : RaftNode S R D × AppendEntriesReply) : Type 0 where
    stale : args.term < n.current_term → r ≡ refuse m n → AppendCase args n r
    mismatched :
        n.current_term ≤ args.term
        → r ≡ refuse m (follow args.term args.leader_id n)
        → AppendCase args n r
    matched :
        (prev : LogEntry)
        → n.current_term ≤ args.term
        → n.snapshot_index ≤ args.prev_log_index
        → get_elem? n.log (args.prev_log_index - n.snapshot_index) ≡ some prev
        → prev.term ≡ args.prev_log_term
        → r
          ≡ accept m
              (args.prev_log_index - n.snapshot_index)
              args
              (follow args.term args.leader_id n)
        → AppendCase args n r

  -- What `follow` does to the rest of the node.
  pub record Followed (term : ℕ) (n n' : RaftNode S R D) : Type 0 where
    pub current_term : n'.current_term ≡ term
    pub voted_for : n'.voted_for ≡ ""
    pub log : n'.log ≡ n.log
    pub snapshot_index : n'.snapshot_index ≡ n.snapshot_index
    pub snapshot_term : n'.snapshot_term ≡ n.snapshot_term
    pub commit_index : n'.commit_index ≡ n.commit_index
    pub last_applied : n'.last_applied ≡ n.last_applied

  pub follow-Followed :
      (term : ℕ) (leader_id : String) (n : RaftNode S R D)
      → Followed term n (follow term leader_id n)
  unfolding follow
  follow-Followed term leader_id n = ground arith

  pub append_entries-AppendCase :
      (args : AppendEntriesArgs) (n : RaftNode S R D) → AppendCase args n (append_entries m args n)
  unfolding append_entries
  append_entries-AppendCase args n = elim (Bool-cases (ltb args.term n.current_term)) [
    | inl old ↦ AppendCase.stale (ground arith) (rw (old, append_entries))
    | inr old ↦
        let n' = follow args.term args.leader_id n in
        let kept = follow-Followed args.term args.leader_id n in
        let reached : n.current_term ≤ args.term = ground arith in
        elim (Bool-cases (ltb args.prev_log_index n'.snapshot_index)) [
          | inl low ↦ AppendCase.mismatched reached (rw (old, low, append_entries))
          | inr low ↦
              elim (Option-cases (get_elem? n'.log (args.prev_log_index - n'.snapshot_index))) [
                | inl p ↦ AppendCase.mismatched reached (rw (old, low, p, append_entries))
                | inr (prev, p) ↦ elim (Bool-cases (prev.term == args.prev_log_term)) [
                  | inr t ↦ AppendCase.mismatched reached (rw (old, low, p, t, append_entries))
                  | inl t ↦
                      AppendCase.matched prev reached (ground arith)
                        (sym (
                            ap₂ (λ l i. get_elem? l (args.prev_log_index - i)) kept.log
                              kept.snapshot_index)
                          ∙ p)
                        (ground arith)
                        (rw (old, low, p, t, append_entries)
                          (ap (λ i. accept m (args.prev_log_index - i) args n')
                            kept.snapshot_index))
                ]
              ]
        ]
  ]

  pub accept-SameTerm :
      (offset : ℕ) (args : AppendEntriesArgs) (n : RaftNode S R D)
      → ((accept m offset args n).0.current_term ≡ n.current_term)
        × ((accept m offset args n).0.voted_for ≡ n.voted_for)
  unfolding accept append_at learn_commit
  accept-SameTerm offset args n =
      let learned = learn_commit m args.leader_commit (append_at m offset args n) in
      let applied = apply_committed m learned in
      ground (arith, apply_committed-SameVote m learned, persist_durable_state-SameRun m applied)

  pub append_entries-SameTerm :
      (args : AppendEntriesArgs) (n : RaftNode S R D)
      → n.current_term ≤ args.term
      → ((append_entries m args n).0.current_term ≡ args.term)
        × ((append_entries m args n).0.voted_for ≡ "")
  unfolding refuse
  append_entries-SameTerm args n reached =
      let n' = follow args.term args.leader_id n in
      let kept = follow-Followed args.term args.leader_id n in
      elim (append_entries-AppendCase args n) [
        | stale old e ↦ absurd (omega arith)
        | mismatched _ e ↦ rw e (kept.current_term, kept.voted_for)
        | matched prev _ _ _ _ e ↦
            let same = accept-SameTerm (args.prev_log_index - n.snapshot_index) args n' in
            rw e (same.0 ∙ kept.current_term, same.1 ∙ kept.voted_for)
      ]

  free-request_vote :
      (b : RequestVoteArgs) (n : RaftNode S R D)
      → b.term ≡ n.current_term
      → n.voted_for ≡ ""
      → log_is_up_to_date b.last_log_index b.last_log_term n ≡ true
      → (request_vote b n).1.vote_granted ≡ true
  unfolding request_vote vote_in_term
  free-request_vote b n same free fresh =
      let low : ltb n.current_term b.term ≡ false = ground arith in
      let high : ltb b.term n.current_term ≡ false = ground arith in
      let none_yet : str_eq n.voted_for "" ≡ true = rw free in
      rw (low, request_vote) (rw (high, none_yet, fresh, vote_in_term))

  -- A call of a leader in a node's own term takes back its vote: it then grants one to any candidate of
  -- that term whose log is not behind the log that the call leaves.
  pub append_entries_frees_vote :
      (args : AppendEntriesArgs) (b : RequestVoteArgs) (n : RaftNode S R D)
      → args.term ≡ n.current_term
      → b.term ≡ n.current_term
      → log_is_up_to_date b.last_log_index b.last_log_term (append_entries m args n).0 ≡ true
      → (request_vote b (append_entries m args n).0).1.vote_granted ≡ true
  append_entries_frees_vote args b n now same fresh =
      let kept = append_entries-SameTerm args n (omega arith) in
      free-request_vote b (append_entries m args n).0 (same ∙ sym now ∙ sym kept.0) kept.1 fresh

  install-SameTerm :
      (args : InstallSnapshotArgs) (s : S) (n : RaftNode S R D)
      → (install m args s n).1.current_term ≡ n.current_term
  unfolding install installed
  install-SameTerm args s n = elim (Option-cases n.storage) [
    | inl e ↦ rw (e, install) refl
    | inr (d, e) ↦
        elim (Option-cases
          (m.persist_snapshot args.last_included_index args.last_included_term args.image d)) [
            | inl f ↦ rw (e, f, install) refl
            | inr (d', f) ↦
                rw (e, f, install)
                  (persist_checked-SameRun m
                    (record (installed m args s n) { storage = some d' })).vote.current_term
          ]
  ]

  pub install_snapshot_reached :
      (args : InstallSnapshotArgs) (n : RaftNode S R D)
      → n.current_term ≤ (install_snapshot m args n).0.current_term
  unfolding install_snapshot
  install_snapshot_reached args n =
      let n' = follow args.term args.leader_id n in
      let kept = follow-Followed args.term args.leader_id n in
      elim (Option-cases (m.restore args.image n'.fsm)) [
        | inl r ↦ rw (r, install_snapshot) (ground arith)
        | inr (s, r) ↦ rw (r, install_snapshot) (ground (arith, install-SameTerm args s n'))
      ]
