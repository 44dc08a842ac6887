-- ===== src/Consensus/Sound/Handlers.antt =====
-- pkg/consensus/raft_node.go: the log stays numbered over any run of a node.
use domino_jc_project.Prelude.{
  ℕ, ◌+◌, ◌-◌, refl, not, ◌||◌, some, List, [], ◌∷◌, ◌++◌, ltb, leb, ◌==◌, String, inl, inr, arith,
  Bool-cases, Option-cases, length, put_key, All, length-append,
}
use domino_jc_project.Consensus.Node.{
  Bytes, LogEntry, RaftNode, last_log_index, new_raft_node, PeerMap, become_follower, is_leader,
}
use domino_jc_project.Consensus.Apply.{Machine}
use domino_jc_project.Consensus.Rpc.{
  AppendEntriesArgs, AppendEntriesReply, InstallSnapshotArgs, append_entries, install_snapshot,
  follow, refuse, installed, install,
}
use domino_jc_project.Consensus.Leader.{
  handle_append_entries_reply, replicated, back_off, map_or_nil, advance_commit_index, find_commit,
  propose,
}
use domino_jc_project.Consensus.Events.{
  Event, vote_asked, entries_received, snapshot_received, election_due, vote_answered,
  majority_reached, entries_answered, command_proposed, handle, handle_all,
}
use domino_jc_project.Consensus.Follow.{
  follow-Followed, stale, mismatched, matched, append_entries-AppendCase,
}
use domino_jc_project.Consensus.Log.{
  IsNumbered, IsSound, IsPlaced, last_log_index-IsSound, cut_log-IsNumbered, IsNumbered-++,
  get_elem?-some,
}
use domino_jc_project.Consensus.Sound.{
  SameEntries, SameEntries-IsSound, persist_checked-SameEntries, persist_durable_state-SameEntries,
  apply_committed-IsSound, accept-IsSound,
}
use domino_jc_project.Consensus.Sound.Quiet.{
  request_vote-SameEntries, start_election-SameEntries, promote_to_leader-SameEntries,
  on_vote_reply-SameEntries,
}

-- The entries of a call follow its previous index.
unfoldable pub IsOrdered : Event → Type 0
IsOrdered (entries_received args) = IsPlaced (args.prev_log_index + 1) args.entries
IsOrdered _ = Unit

module _ {S R D : Type 0} (m : Machine S R D) where
  follow-SameEntries :
      (t : ℕ) (leader_id : String) (n : RaftNode S R D) → SameEntries n (follow t leader_id n)
  follow-SameEntries t leader_id n =
      let kept = follow-Followed m t leader_id n in
      record { log = kept.log; snapshot_index = kept.snapshot_index }

  append_entries-IsSound :
      (args : AppendEntriesArgs) (n : RaftNode S R D)
      → IsPlaced (args.prev_log_index + 1) args.entries
      → IsSound n
      → IsSound (append_entries m args n).0
  unfolding refuse
  append_entries-IsSound args n placed sound =
      let n' = follow args.term args.leader_id n in
      let same = follow-SameEntries args.term args.leader_id n in
      let sound' = SameEntries-IsSound same sound in
      elim (append_entries-AppendCase m args n) [
        | stale _ q ↦ rw q sound
        | mismatched _ q ↦ rw q sound'
        | matched prev _ low found _ q ↦
            let inside = get_elem?-some n.log (args.prev_log_index - n.snapshot_index) prev found in
            rw q (
              accept-IsSound m (args.prev_log_index - n.snapshot_index) args n' (rw same.log inside)
                (rw same.snapshot_index (omega arith)) placed sound')
      ]

  installed-IsSound :
      (args : InstallSnapshotArgs) (s : S) (n : RaftNode S R D)
      → IsSound n
      → IsSound (installed m args s n)
  unfolding installed
  installed-IsSound args s n sound =
      let cut =
        cut_log-IsNumbered m args.last_included_index args.last_included_term n sound.numbered in
      record { lower = cut.0; numbered = cut.1 }

  install-IsSound :
      (args : InstallSnapshotArgs) (s : S) (n : RaftNode S R D)
      → IsSound n
      → IsSound (install m args s n).1
  unfolding install
  install-IsSound args s n sound =
      let sound' = installed-IsSound args s n sound in
      elim (Option-cases n.storage) [
        | inl e ↦ rw (e, install) sound'
        | inr (d, e) ↦
            elim (Option-cases
              (m.persist_snapshot args.last_included_index args.last_included_term args.image d)) [
                | inl f ↦ rw (e, f, install) sound'
                | inr (d', f) ↦
                    let base = record (installed m args s n) { storage = some d' } in
                    rw (e, f, install)
                      (SameEntries-IsSound {n = base} (persist_checked-SameEntries m base)
                        (record { lower = sound'.lower; numbered = sound'.numbered }))
              ]
      ]

  install_snapshot-IsSound :
      (args : InstallSnapshotArgs) (n : RaftNode S R D)
      → IsSound n
      → IsSound (install_snapshot m args n).0
  unfolding install_snapshot
  install_snapshot-IsSound args n sound =
      let n' = follow args.term args.leader_id n in
      let sound' = SameEntries-IsSound (follow-SameEntries args.term args.leader_id n) sound in
      elim (Bool-cases (ltb args.term n.current_term)) [
        | inl old ↦ rw (old, install_snapshot) sound
        | inr old ↦ elim (Bool-cases (leb args.last_included_index n'.snapshot_index)) [
          | inl low ↦ rw (old, low, install_snapshot) sound'
          | inr low ↦ elim (Option-cases (m.restore args.image n'.fsm)) [
            | inl r ↦ rw (old, low, r, install_snapshot) sound'
            | inr (s, r) ↦ rw (old, low, r, install_snapshot) (install-IsSound args s n' sound')
          ]
        ]
      ]

  advance_commit_index-IsSound :
      (n : RaftNode S R D) → IsSound n → IsSound (advance_commit_index m n)
  unfolding advance_commit_index
  advance_commit_index-IsSound n sound =
      elim (Option-cases (find_commit (last_log_index n - n.commit_index) n)) [
        | inl e ↦ rw (e, advance_commit_index) sound
        | inr (index, e) ↦
            let base = record n { commit_index = index } in
            rw (e, advance_commit_index)
              (apply_committed-IsSound m base
                (record { lower = sound.lower; numbered = sound.numbered }))
      ]

  replicated-IsSound :
      (peer : String) (args : AppendEntriesArgs) (n : RaftNode S R D)
      → IsSound n
      → IsSound (replicated m peer args n)
  unfolding replicated
  replicated-IsSound peer args n sound =
      let matched = args.prev_log_index + length args.entries in
      advance_commit_index-IsSound
        (record n {
          match_index = some (put_key peer matched (map_or_nil m n.match_index));
          next_index = some (put_key peer (matched + 1) (map_or_nil m n.next_index));
        })
        (record { lower = sound.lower; numbered = sound.numbered })

  back_off-SameEntries : (peer : String) (n : RaftNode S R D) → SameEntries n (back_off m peer n)
  unfolding back_off
  back_off-SameEntries peer n = ground arith

  handle_append_entries_reply-IsSound :
      (term : ℕ) (peer : String) (args : AppendEntriesArgs) (reply : AppendEntriesReply)
      (n : RaftNode S R D)
      → IsSound n
      → IsSound (handle_append_entries_reply m term peer args reply n)
  unfolding handle_append_entries_reply become_follower
  handle_append_entries_reply-IsSound term peer args reply n sound =
      elim (Bool-cases (ltb n.current_term reply.term)) [
        | inl e ↦
            rw (e, handle_append_entries_reply)
              (record { lower = sound.lower; numbered = sound.numbered })
        | inr e ↦ elim (Bool-cases (not (is_leader n.state) || not (n.current_term == term))) [
          | inl r ↦ rw (e, r, handle_append_entries_reply) sound
          | inr r ↦ elim (Bool-cases reply.success) [
            | inl g ↦
                rw (e, r, g, handle_append_entries_reply) (replicated-IsSound peer args n sound)
            | inr g ↦
                rw (e, r, g, handle_append_entries_reply)
                  (SameEntries-IsSound (back_off-SameEntries peer n) sound)
          ]
        ]
      ]

  propose-IsSound :
      (command : Bytes) (n : RaftNode S R D) → IsSound n → IsSound (propose m command n).0
  unfolding propose IsNumbered
  propose-IsSound command n sound = elim (Bool-cases (is_leader n.state)) [
    | inr f ↦ rw (f, propose) sound
    | inl f ↦
        let entry : LogEntry = record {
          index = last_log_index n + 1;
          term = n.current_term;
          command = command;
        } in
        let base = record n { log = n.log ++ entry ∷ [] } in
        let last = last_log_index-IsSound n sound in
        let size = length-append n.log (entry ∷ []) in
        rw (f, propose)
          (SameEntries-IsSound {n = base} (persist_durable_state-SameEntries m base) (record {
            lower = omega arith;
            numbered =
                IsNumbered-++ n.snapshot_index n.log (entry ∷ []) sound.numbered (omega arith, tt);
          }))
  ]

  handle-IsSound :
      (e : Event) (n : RaftNode S R D) → IsOrdered e → IsSound n → IsSound (handle m e n)
  unfolding handle IsOrdered
  handle-IsSound (vote_asked args) n _ sound =
      SameEntries-IsSound (request_vote-SameEntries args n) sound
  handle-IsSound (entries_received args) n placed sound = append_entries-IsSound args n placed sound
  handle-IsSound (snapshot_received args) n _ sound = install_snapshot-IsSound args n sound
  handle-IsSound election_due n _ sound = SameEntries-IsSound (start_election-SameEntries n) sound
  handle-IsSound (vote_answered term majority votes reply) n _ sound =
      SameEntries-IsSound (on_vote_reply-SameEntries term majority votes reply n) sound
  handle-IsSound (majority_reached term) n _ sound =
      SameEntries-IsSound (promote_to_leader-SameEntries term n) sound
  handle-IsSound (entries_answered term peer args reply) n _ sound =
      handle_append_entries_reply-IsSound term peer args reply n sound
  handle-IsSound (command_proposed command) n _ sound = propose-IsSound command n sound

  handle_all-sound :
      (es : List Event) (n : RaftNode S R D)
      → All IsOrdered es
      → IsSound n
      → IsSound (handle_all m es n)
  unfolding handle_all
  handle_all-sound [] n _ sound = sound
  handle_all-sound (e ∷ es) n (o, ordered) sound =
      handle_all-sound es (handle m e n) ordered (handle-IsSound e n o sound)

  -- Whatever a new node meets, if the entries of every call follow its previous index, then its log starts
  -- with the entry of its snapshot and has consecutive indices.
  pub handle_all-IsSound :
      (es : List Event) (node_id : String) (peers : PeerMap) (s : S)
      → All IsOrdered es
      → IsSound (handle_all m es (new_raft_node node_id peers s))
  unfolding new_raft_node IsNumbered
  handle_all-IsSound es node_id peers s ordered =
      handle_all-sound es (new_raft_node node_id peers s) ordered
        (record { lower = omega arith; numbered = (refl, tt) })
