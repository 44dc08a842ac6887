-- ===== src/Consensus/Apply/Frame.antt =====
-- What the apply loop, compaction and persistence leave alone.
use domino_jc_project.Prelude.{
  ℕ, zero, suc, ◌+◌, ◌≡◌, refl, none, some, arith, Option-cases, inl, inr,
}
use domino_jc_project.Consensus.Node.{Bytes, LogEntry, RaftNode, entry_at}
use domino_jc_project.Consensus.Command.{
  Command, Op, add_node, remove_node, commit_config, Decoded, ok, err, decode_command,
}
use domino_jc_project.Consensus.Apply.{
  Machine, apply_membership, apply_decoded, apply_entry, apply_rounds,
}

-- The election state, the log with its snapshot and the commit index are those of `n`.
pub record SameLog {S R D : Type 0} (n n' : RaftNode S R D) : Type 0 where
  pub node_id : n'.node_id ≡ n.node_id
  pub current_term : n'.current_term ≡ n.current_term
  pub voted_for : n'.voted_for ≡ n.voted_for
  pub state : n'.state ≡ n.state
  pub commit_index : n'.commit_index ≡ n.commit_index
  pub log : n'.log ≡ n.log
  pub snapshot_index : n'.snapshot_index ≡ n.snapshot_index
  pub snapshot_term : n'.snapshot_term ≡ n.snapshot_term
  pub storage : n'.storage ≡ n.storage

SameLog-refl : {S R D : Type 0} (n : RaftNode S R D) → SameLog n n
SameLog-refl n = ground arith

pub SameLog-trans :
    {S R D : Type 0} {a b c : RaftNode S R D} → SameLog a b → SameLog b c → SameLog a c
SameLog-trans p q = ground arith

module _ {S R D : Type 0} (m : Machine S R D) where
  apply_membership-SameLog :
      (op : Op) (payload : Bytes) (n : RaftNode S R D)
      → SameLog n (apply_membership m.json op payload n).1
  unfolding apply_membership
  apply_membership-SameLog add_node payload n = ground arith
  apply_membership-SameLog remove_node payload n = ground arith
  apply_membership-SameLog commit_config payload n = ground arith
  apply_membership-SameLog _ payload n = ground arith

  last_applied-apply_membership :
      (op : Op) (payload : Bytes) (n : RaftNode S R D)
      → (apply_membership m.json op payload n).1.last_applied ≡ n.last_applied
  unfolding apply_membership
  last_applied-apply_membership add_node payload n = ground arith
  last_applied-apply_membership remove_node payload n = ground arith
  last_applied-apply_membership commit_config payload n = ground arith
  last_applied-apply_membership _ payload n = ground arith

  pub fsm-apply_membership :
      (op : Op) (payload : Bytes) (n : RaftNode S R D)
      → (apply_membership m.json op payload n).1.fsm ≡ n.fsm
  unfolding apply_membership
  fsm-apply_membership add_node payload n = ground arith
  fsm-apply_membership remove_node payload n = ground arith
  fsm-apply_membership commit_config payload n = ground arith
  fsm-apply_membership _ payload n = ground arith

  apply_decoded-SameLog :
      (e : LogEntry) (i : ℕ) (d : Decoded Command) (n : RaftNode S R D)
      → SameLog n (apply_decoded m e i d n)
  unfolding apply_decoded
  apply_decoded-SameLog e i (err x) n = ground arith
  apply_decoded-SameLog e i (ok cmd) n =
      ground (arith, apply_membership-SameLog cmd.op cmd.payload n)

  last_applied-apply_decoded :
      (e : LogEntry) (i : ℕ) (d : Decoded Command) (n : RaftNode S R D)
      → (apply_decoded m e i d n).last_applied ≡ n.last_applied
  unfolding apply_decoded
  last_applied-apply_decoded e i (err x) n = refl
  last_applied-apply_decoded e i (ok cmd) n =
      ground (arith, last_applied-apply_membership cmd.op cmd.payload n)

  pub apply_entry-SameLog : (e : LogEntry) (n : RaftNode S R D) → SameLog n (apply_entry m e n)
  unfolding apply_entry
  apply_entry-SameLog e n =
      apply_decoded-SameLog e n.last_applied (decode_command m.json e.command) n

  pub last_applied-apply_entry :
      (e : LogEntry) (n : RaftNode S R D) → (apply_entry m e n).last_applied ≡ n.last_applied
  unfolding apply_entry
  last_applied-apply_entry e n =
      last_applied-apply_decoded e n.last_applied (decode_command m.json e.command) n

  pub apply_rounds-zero : (n : RaftNode S R D) → apply_rounds m zero n ≡ n
  unfolding apply_rounds
  apply_rounds-zero n = refl

  pub apply_rounds_stop :
      (k : ℕ) (n : RaftNode S R D) → entry_at (n.last_applied + 1) n ≡ none → apply_rounds m k n ≡ n
  unfolding apply_rounds
  apply_rounds_stop zero n e = refl
  apply_rounds_stop (suc k) n e = rw (e, apply_rounds)

  pub apply_rounds-suc :
      (k : ℕ) (n : RaftNode S R D) (entry : LogEntry)
      → entry_at (n.last_applied + 1) n ≡ some entry
      → apply_rounds m (suc k) n
        ≡ apply_rounds m k (apply_entry m entry (record n { last_applied = n.last_applied + 1 }))
  unfolding apply_rounds
  apply_rounds-suc k n entry e = rw (e, apply_rounds)

  pub apply_rounds-SameLog : (k : ℕ) (n : RaftNode S R D) → SameLog n (apply_rounds m k n)
  apply_rounds-SameLog zero n = rw (apply_rounds-zero n) (SameLog-refl n)
  apply_rounds-SameLog (suc k) n = elim (Option-cases (entry_at (n.last_applied + 1) n)) [
    | inl e ↦ rw (apply_rounds_stop (suc k) n e) (SameLog-refl n)
    | inr (entry, e) ↦
        let n' = record n { last_applied = n.last_applied + 1 } in
        rw (apply_rounds-suc k n entry e) (
          SameLog-trans {a = n} {b = apply_entry m entry n'}
            (SameLog-trans {a = n} {b = n'} (ground arith) (apply_entry-SameLog entry n'))
            (apply_rounds-SameLog k (apply_entry m entry n')))
  ]
