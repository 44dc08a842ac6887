-- ===== src/Consensus/Vote.antt =====
-- pkg/consensus/raft_node.go: terms, and what a node grants its votes on.
use domino_jc_project.Prelude.{
  ℕ, ◌+◌, ◌-◌, ◌≤◌, ◌<◌, String, ◌≡◌, refl, true, some, List, [], ◌∷◌, ◌++◌, ltb, arith, Bool-cases,
  inl, inr, ◌⊎◌, Option-cases, str_eq→eq, put_key, length, All,
}
use domino_jc_project.Consensus.Node.{RaftNode, log_is_up_to_date, become_follower, last_log_index}
use domino_jc_project.Consensus.Apply.{Machine, apply_committed}
use domino_jc_project.Consensus.Apply.Keep.{
  SameVote, apply_committed-SameVote, persist_durable_state-SameRun,
}
use domino_jc_project.Consensus.Rpc.{
  RequestVoteArgs, RequestVoteReply, AppendEntriesArgs, AppendEntriesReply, vote_in_term,
  request_vote,
}
use domino_jc_project.Consensus.Leader.{
  start_election, on_vote_reply, handle_append_entries_reply, propose, advance_commit_index,
  find_commit, promote_to_leader, replicated, back_off, map_or_nil,
}
use domino_jc_project.Consensus.Events.{
  Event, vote_asked, entries_received, snapshot_received, election_due, vote_answered,
  majority_reached, entries_answered, command_proposed, handle, handle_all,
}

module _ {S R D : Type 0} where
  -- A node that is in a later term, or in the same one and has not taken back its vote.
  unfoldable pub Faithful : RaftNode S R D → RaftNode S R D → Type 0
  Faithful n n' =
      (n.current_term < n'.current_term)
      ⊎ ((n.current_term ≡ n'.current_term) × ((n.voted_for ≡ "") ⊎ (n'.voted_for ≡ n.voted_for)))

  Faithful-refl : (n : RaftNode S R D) → Faithful n n
  unfolding Faithful
  Faithful-refl n = inr (refl, inr refl)

  Faithful-trans : (a b c : RaftNode S R D) → Faithful a b → Faithful b c → Faithful a c
  unfolding Faithful
  Faithful-trans a b c p q = ground arith

  SameVote-Faithful : (a b : RaftNode S R D) → SameVote a b → Faithful a b
  unfolding Faithful
  SameVote-Faithful a b p = ground arith

  vote_in_term-Faithful :
      (args : RequestVoteArgs) (n : RaftNode S R D) → Faithful n (vote_in_term args n).0
  unfolding Faithful vote_in_term
  vote_in_term-Faithful args n =
      ground (arith, str_eq→eq n.voted_for args.candidate_id, str_eq→eq n.voted_for "")

  request_vote-Faithful :
      (args : RequestVoteArgs) (n : RaftNode S R D) → Faithful n (request_vote args n).0
  unfolding Faithful request_vote
  request_vote-Faithful args n = elim (Bool-cases (ltb n.current_term args.term)) [
    | inl e ↦
        rw (e, request_vote)
          (Faithful-trans n (become_follower args.term n)
            (vote_in_term args (become_follower args.term n)).0 (ground arith)
            (vote_in_term-Faithful args (become_follower args.term n)))
    | inr e ↦ rw (e, request_vote) (vote_in_term-Faithful args n)
  ]

  start_election-Faithful : (n : RaftNode S R D) → Faithful n (start_election n)
  unfolding Faithful start_election promote_to_leader
  start_election-Faithful n = ground arith

  promote_to_leader-Faithful :
      (term : ℕ) (n : RaftNode S R D) → Faithful n (promote_to_leader term n)
  unfolding Faithful promote_to_leader
  promote_to_leader-Faithful term n = ground arith

  on_vote_reply-Faithful :
      (term majority votes : ℕ) (reply : RequestVoteReply) (n : RaftNode S R D)
      → Faithful n (on_vote_reply term majority reply votes n).1
  unfolding Faithful on_vote_reply promote_to_leader
  on_vote_reply-Faithful term majority votes reply n = ground arith

module _ {S R D : Type 0} (m : Machine S R D) where
  advance_commit_index-Faithful : (n : RaftNode S R D) → Faithful n (advance_commit_index m n)
  unfolding Faithful advance_commit_index
  advance_commit_index-Faithful n =
      elim (Option-cases (find_commit (last_log_index n - n.commit_index) n)) [
        | inl e ↦ rw (e, advance_commit_index) (Faithful-refl n)
        | inr (index, e) ↦
            let n' = record n { commit_index = index } in
            rw (e, advance_commit_index)
              (Faithful-trans n n' (apply_committed m n') (Faithful-refl n)
                (SameVote-Faithful n' (apply_committed m n') (apply_committed-SameVote m n')))
      ]

  replicated-Faithful :
      (peer : String) (args : AppendEntriesArgs) (n : RaftNode S R D)
      → Faithful n (replicated m peer args n)
  unfolding Faithful replicated
  replicated-Faithful peer args n =
      let matched = args.prev_log_index + length args.entries in
      let n' = record n {
        match_index = some (put_key peer matched (map_or_nil m n.match_index));
        next_index = some (put_key peer (matched + 1) (map_or_nil m n.next_index));
      } in
      Faithful-trans n n' (advance_commit_index m n') (Faithful-refl n)
        (advance_commit_index-Faithful n')

  back_off-Faithful : (peer : String) (n : RaftNode S R D) → Faithful n (back_off m peer n)
  unfolding Faithful back_off
  back_off-Faithful peer n = ground arith

  handle_append_entries_reply-Faithful :
      (term : ℕ) (peer : String) (args : AppendEntriesArgs) (reply : AppendEntriesReply)
      (n : RaftNode S R D)
      → Faithful n (handle_append_entries_reply m term peer args reply n)
  unfolding Faithful handle_append_entries_reply
  handle_append_entries_reply-Faithful term peer args reply n =
      ground (arith, replicated-Faithful peer args n, back_off-Faithful peer n)

  propose-Faithful : (command : List ℕ) (n : RaftNode S R D) → Faithful n (propose m command n).0
  unfolding Faithful propose last_log_index
  propose-Faithful command n = ground (
    arith,
    persist_durable_state-SameRun m (record n {
      log =
          n.log
          ++ (record { index = last_log_index n + 1; term = n.current_term; command = command })
            ∷ [];
    }),
  )

-- The events that are not calls of a leader.
unfoldable pub IsQuiet : Event → Type 0
IsQuiet (entries_received _) = ⊥
IsQuiet (snapshot_received _) = ⊥
IsQuiet _ = Unit

module _ {S R D : Type 0} (m : Machine S R D) where
  pub handle-Faithful : (e : Event) (n : RaftNode S R D) → IsQuiet e → Faithful n (handle m e n)
  unfolding handle IsQuiet
  handle-Faithful (vote_asked args) n quiet = request_vote-Faithful args n
  handle-Faithful (entries_received args) n quiet = absurd quiet
  handle-Faithful (snapshot_received args) n quiet = absurd quiet
  handle-Faithful election_due n quiet = start_election-Faithful n
  handle-Faithful (vote_answered term majority votes reply) n quiet =
      on_vote_reply-Faithful term majority votes reply n
  handle-Faithful (majority_reached term) n quiet = promote_to_leader-Faithful term n
  handle-Faithful (entries_answered term peer args reply) n quiet =
      handle_append_entries_reply-Faithful m term peer args reply n
  handle-Faithful (command_proposed command) n quiet = propose-Faithful m command n

  handle_all-Faithful :
      (es : List Event) (n : RaftNode S R D) → All IsQuiet es → Faithful n (handle_all m es n)
  unfolding handle_all
  handle_all-Faithful [] n quiet = Faithful-refl n
  handle_all-Faithful (e ∷ es) n (q, quiet) =
      Faithful-trans n (handle m e n) (handle_all m (e ∷ es) n) (handle-Faithful e n q)
        (handle_all-Faithful es (handle m e n) quiet)

-- What a granted vote says: `n` had no other vote in the term, and the log of the candidate is not behind.
pub record Grant {S R D : Type 0} (args : RequestVoteArgs) (n n' : RaftNode S R D) : Type 0 where
  pub vote : n'.voted_for ≡ args.candidate_id
  pub term : n'.current_term ≡ args.term
  pub reached : n.current_term ≤ args.term
  pub free : (n.current_term < args.term) ⊎ ((n.voted_for ≡ "") ⊎ (n.voted_for ≡ args.candidate_id))
  pub fresh : log_is_up_to_date args.last_log_index args.last_log_term n ≡ true

module _ {S R D : Type 0} where
  vote_in_term-Grant :
      (args : RequestVoteArgs) (n : RaftNode S R D)
      → ¬ (n.current_term < args.term)
      → (vote_in_term args n).1.vote_granted ≡ true
      → Grant args n (vote_in_term args n).0
  unfolding vote_in_term
  vote_in_term-Grant args n low granted =
      ground (arith, str_eq→eq n.voted_for args.candidate_id, str_eq→eq n.voted_for "")

  request_vote-Grant :
      (args : RequestVoteArgs) (n : RaftNode S R D)
      → (request_vote args n).1.vote_granted ≡ true
      → Grant args n (request_vote args n).0
  unfolding request_vote log_is_up_to_date
  request_vote-Grant args n granted = elim (Bool-cases (ltb n.current_term args.term)) [
    | inl e ↦
        let later = become_follower args.term n in
        let grant = vote_in_term-Grant args later (omega arith) (rw (e, request_vote) at granted) in
        let ahead : n.current_term < args.term = ground arith in
        rw (e, request_vote)
          (record {
            vote = grant.vote;
            term = grant.term;
            reached = omega arith;
            free = inl ahead;
            fresh = grant.fresh;
          })
    | inr e ↦
        rw (e, request_vote)
          (vote_in_term-Grant args n (ground arith) (rw (e, request_vote) at granted))
  ]

module _ {S R D : Type 0} (m : Machine S R D) where
  -- If a node grants a vote to a candidate with a name, and then, after any events but calls of a leader,
  -- grants one in the same term, then it is for the same candidate.
  pub votes_are_exclusive :
      (a b : RequestVoteArgs) (es : List Event) (n : RaftNode S R D)
      → ¬ (a.candidate_id ≡ "")
      → All IsQuiet es
      → (request_vote a n).1.vote_granted ≡ true
      → (request_vote b (handle_all m es (request_vote a n).0)).1.vote_granted ≡ true
      → a.term ≡ b.term
      → a.candidate_id ≡ b.candidate_id
  unfolding Faithful
  votes_are_exclusive a b es n named quiet first second same =
      let before = (request_vote a n).0 in
      let after = handle_all m es before in
      ground (
        arith,
        request_vote-Grant a n first,
        request_vote-Grant b after second,
        handle_all-Faithful m es before quiet,
      )
