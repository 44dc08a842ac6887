-- ===== src/Consensus/Bootstrap.antt =====
-- pkg/consensus/raft_node.go: a node that starts from its storage.
use domino_jc_project.Prelude.{
  ◌-◌, ◌≤◌, String, ◌≡◌, sym, Option, none, some, List, ◌∷◌, ltb, str_eq, if◌then◌else◌, arith,
  Option-cases, inl, inr,
}
use domino_jc_project.Consensus.Node.{
  LogEntry, RaftNode, PeerMap, sentinel, new_raft_node, last_log_index,
}
use domino_jc_project.Consensus.Apply.{Machine, SnapshotRecord, RaftMeta, uncompacted, apply_rounds}
use domino_jc_project.Consensus.Apply.Frame.{apply_rounds-SameLog}
use domino_jc_project.Consensus.Apply.Run.{last_log_index-SameLog}

module _ {S R D : Type 0} (m : Machine S R D) where
  -- `none` where the restore fails.
  unfoldable pub load_record : Option SnapshotRecord → RaftNode S R D → Option (RaftNode S R D)
  load_record none n = some n
  load_record (some r) n = elim (m.restore r.image n.fsm) [
    | none ↦ none
    | some s ↦ some (record n {
      fsm = s;
      snapshot_index = r.last_included_index;
      snapshot_term = r.last_included_term;
      last_snapshot = r.image;
      last_applied = r.last_included_index;
    })
  ]

  unfoldable pub load_entries : List LogEntry → RaftNode S R D → RaftNode S R D
  unfolding uncompacted
  load_entries es n = record n {
    log = sentinel n.snapshot_index n.snapshot_term ∷ uncompacted m n.snapshot_index es;
  }

  unfoldable pub load_meta : Option RaftMeta → RaftNode S R D → RaftNode S R D
  load_meta none n = n
  load_meta (some meta) n = record n {
    snapshot_index =
        if ltb n.snapshot_index meta.snapshot_index then meta.snapshot_index else n.snapshot_index;
    snapshot_term =
        if ltb n.snapshot_index meta.snapshot_index then meta.snapshot_term else n.snapshot_term;
    commit_index =
        if ltb n.commit_index meta.commit_index then meta.commit_index else n.commit_index;
    current_term =
        if ltb n.current_term meta.current_term then meta.current_term else n.current_term;
    voted_for = if str_eq meta.voted_for "" then n.voted_for else meta.voted_for;
  }

  -- The indices after the log is loaded: every entry of it counts as committed.
  unfoldable pub settle_indices : RaftNode S R D → RaftNode S R D
  unfolding last_log_index
  settle_indices n =
      let commit =
        if ltb n.commit_index (last_log_index n) then last_log_index n else n.commit_index in
      record n {
        last_applied =
            if ltb n.last_applied n.snapshot_index then n.snapshot_index else n.last_applied;
        commit_index = if ltb commit n.snapshot_index then n.snapshot_index else commit;
      }

  -- The loop is that of `applyCommittedLocked`, without compaction.
  unfoldable pub replay_uncompacted_log : RaftNode S R D → RaftNode S R D
  unfolding apply_rounds
  replay_uncompacted_log n = apply_rounds m (n.commit_index - n.last_applied) n

  loaded : List LogEntry → Option RaftMeta → RaftNode S R D → RaftNode S R D
  unfolding load_entries load_meta settle_indices replay_uncompacted_log
  loaded es meta n = replay_uncompacted_log (settle_indices (load_meta meta (load_entries es n)))

  unfoldable pub bootstrap_from_storage : D → RaftNode S R D → Option (RaftNode S R D)
  unfolding load_record loaded
  bootstrap_from_storage d n = elim (m.load_snapshot d) [
    | none ↦ none
    | some r ↦ elim (load_record r n) [
      | none ↦ none
      | some n' ↦ elim (m.load_log d) [ none ↦ none | some (es, meta) ↦ some (loaded es meta n') ]
    ]
  ]

  unfoldable pub new_raft_node_with_storage :
      String → PeerMap → S → Option D → Option (RaftNode S R D)
  unfolding new_raft_node bootstrap_from_storage
  new_raft_node_with_storage node_id peers fsm storage =
      let n = record (new_raft_node node_id peers fsm) { storage = storage } in
      elim storage [ none ↦ some n | some d ↦ bootstrap_from_storage d n ]

  settle_indices_past :
      (n : RaftNode S R D) → last_log_index (settle_indices n) ≤ (settle_indices n).commit_index
  unfolding settle_indices last_log_index
  settle_indices_past n = ground arith

  loaded_past :
      (es : List LogEntry) (meta : Option RaftMeta) (n : RaftNode S R D)
      → last_log_index (loaded es meta n) ≤ (loaded es meta n).commit_index
  unfolding loaded replay_uncompacted_log
  loaded_past es meta n =
      let ready = settle_indices (load_meta meta (load_entries es n)) in
      let past = settle_indices_past (load_meta meta (load_entries es n)) in
      let same = apply_rounds-SameLog m (ready.commit_index - ready.last_applied) ready in
      rw (last_log_index-SameLog m ready (replay_uncompacted_log ready) same, same.commit_index)
        past

  -- A node that starts from its storage counts its whole log as committed, also the entries that were
  -- not.
  pub bootstrap_from_storage_past :
      (d : D) (n n' : RaftNode S R D)
      → bootstrap_from_storage d n ≡ some n'
      → last_log_index n' ≤ n'.commit_index
  unfolding bootstrap_from_storage
  bootstrap_from_storage_past d n n' h = elim (Option-cases (m.load_snapshot d)) [
    | inl e ↦ absurd (ground (arith, rw (e, bootstrap_from_storage) at h))
    | inr (r, e) ↦ elim (Option-cases (load_record r n)) [
      | inl f ↦ absurd (ground (arith, rw (e, f, bootstrap_from_storage) at h))
      | inr (n0, f) ↦ elim (Option-cases (m.load_log d)) [
        | inl g ↦ absurd (ground (arith, rw (e, f, g, bootstrap_from_storage) at h))
        | inr ((es, meta), g) ↦
            let same : loaded es meta n0 ≡ n' =
              ground (arith, rw (e, f, g, bootstrap_from_storage) at h) in
            rw (sym same) (loaded_past es meta n0)
      ]
    ]
  ]
