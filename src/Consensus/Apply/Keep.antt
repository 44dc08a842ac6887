-- ===== src/Consensus/Apply/Keep.antt =====
-- What compaction and persistence leave alone.
use domino_jc_project.Prelude.{
  ℕ, ◌-◌, ◌<◌, ◌≡◌, Option, some, arith, ltb, leb, Bool-cases, Option-cases, inl, inr,
}
use domino_jc_project.Consensus.Node.{Bytes, RaftNode, LogEntry, entry_at, uncompacted_log_entries}
use domino_jc_project.Consensus.Apply.{
  Machine, apply_rounds, persist_checked, persist_durable_state, cut_log, compact_with,
  save_snapshot, maybe_compact, apply_committed,
}
use domino_jc_project.Consensus.Apply.Frame.{apply_rounds-SameLog}

-- The election state and what is committed and applied are those of `n`.
pub record SameVote {S R D : Type 0} (n n' : RaftNode S R D) : Type 0 where
  pub node_id : n'.node_id ≡ n.node_id
  pub current_term : n'.current_term ≡ n.current_term
  pub voted_for : n'.voted_for ≡ n.voted_for
  pub state : n'.state ≡ n.state
  pub commit_index : n'.commit_index ≡ n.commit_index

pub SameVote-trans :
    {S R D : Type 0} {a b c : RaftNode S R D} → SameVote a b → SameVote b c → SameVote a c
SameVote-trans p q = ground arith

-- Persistence and compaction leave the state machine alone.
pub record SameRun {S R D : Type 0} (n n' : RaftNode S R D) : Type 0 where
  pub vote : SameVote n n'
  pub last_applied : n'.last_applied ≡ n.last_applied
  pub fsm : n'.fsm ≡ n.fsm
  pub peers : n'.peer_addresses ≡ n.peer_addresses

SameRun-refl : {S R D : Type 0} (n : RaftNode S R D) → SameRun n n
SameRun-refl n = ground arith

pub SameRun-trans :
    {S R D : Type 0} {a b c : RaftNode S R D} → SameRun a b → SameRun b c → SameRun a c
SameRun-trans p q = ground arith

module _ {S R D : Type 0} (m : Machine S R D) where
  pub persist_checked-SameRun : (n : RaftNode S R D) → SameRun n (persist_checked m n).1
  unfolding persist_checked
  persist_checked-SameRun n = ground arith

  pub persist_durable_state-SameRun : (n : RaftNode S R D) → SameRun n (persist_durable_state m n)
  unfolding persist_durable_state
  persist_durable_state-SameRun n = persist_checked-SameRun n

  -- The node that compaction writes.
  abbrev pub cut_at : ℕ → ℕ → Bytes → Option D → RaftNode S R D → RaftNode S R D
  cut_at i t data' d n = record n {
    snapshot_index = i;
    snapshot_term = t;
    last_snapshot = data';
    log = cut_log m i t n;
    storage = d;
  }

  cut_at-SameRun :
      (i t : ℕ) (data' : Bytes) (d : Option D) (n : RaftNode S R D)
      → SameRun n (cut_at i t data' d n)
  cut_at-SameRun i t data' d n = ground arith

  -- Compaction does nothing, or cuts the log at the last applied entry.
  pub data CompactCase (n r : RaftNode S R D) : Type 0 where
    idle : r ≡ n → CompactCase n r
    written :
        (entry : LogEntry) (data' : Bytes) (d : Option D)
        → n.snapshot_index < n.last_applied
        → entry_at n.last_applied n ≡ some entry
        → m.create_snapshot n.fsm ≡ some data'
        → r ≡ persist_durable_state m (cut_at n.last_applied entry.term data' d n)
        → CompactCase n r

  pub maybe_compact-CompactCase : (n : RaftNode S R D) → CompactCase n (maybe_compact m n)
  unfolding maybe_compact compact_with
  maybe_compact-CompactCase n =
      elim (Bool-cases (ltb (uncompacted_log_entries n) n.compact_threshold)) [
        | inl few ↦ CompactCase.idle (rw (few, maybe_compact))
        | inr few ↦ elim (Bool-cases (leb n.last_applied n.snapshot_index)) [
          | inl old ↦ CompactCase.idle (rw (few, old, maybe_compact))
          | inr old ↦ elim (Option-cases (m.create_snapshot n.fsm)) [
            | inl c ↦ CompactCase.idle (rw (few, old, c, maybe_compact))
            | inr (data', c) ↦ elim (Option-cases (entry_at n.last_applied n)) [
              | inl e ↦ CompactCase.idle (rw (few, old, c, e, maybe_compact))
              | inr (entry, e) ↦
                  elim (Option-cases (save_snapshot m n.last_applied entry.term data' n.storage)) [
                    | inl w ↦ CompactCase.idle (rw (few, old, c, e, w, maybe_compact, compact_with))
                    | inr (d, w) ↦
                        CompactCase.written entry data' d (ground arith) e c
                          (rw (few, old, c, e, w, maybe_compact, compact_with))
                  ]
            ]
          ]
        ]
      ]

  pub maybe_compact-SameRun : (n : RaftNode S R D) → SameRun n (maybe_compact m n)
  maybe_compact-SameRun n = elim (maybe_compact-CompactCase n) [
    | idle q ↦ rw q (SameRun-refl n)
    | written entry data' d _ _ _ q ↦
        let cut = cut_at n.last_applied entry.term data' d n in
        rw q (
          SameRun-trans {b = cut} (cut_at-SameRun n.last_applied entry.term data' d n)
            (persist_durable_state-SameRun cut))
  ]

  pub apply_committed-SameVote : (n : RaftNode S R D) → SameVote n (apply_committed m n)
  unfolding apply_committed
  apply_committed-SameVote n =
      let rounds = apply_rounds m (n.commit_index - n.last_applied) n in
      SameVote-trans (ground (arith, apply_rounds-SameLog m (n.commit_index - n.last_applied) n))
        (maybe_compact-SameRun rounds).vote
