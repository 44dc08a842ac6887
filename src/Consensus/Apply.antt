-- ===== src/Consensus/Apply.antt =====
-- pkg/consensus/raft_node.go: configuration changes, the apply loop, compaction and persistence.
pub mod Frame
pub mod Keep
pub mod Run
use domino_jc_project.Prelude.{
  ℕ, zero, suc, ◌+◌, ◌-◌, String, Bool, true, false, not, Option, none, some, List, [], ◌∷◌, ltb,
  leb, if◌then◌else◌, length, drop, StringMap, find_key, put_key, delete_key,
}
use domino_jc_project.Consensus.Node.{
  Bytes, LogEntry, PeerMap, JointConfig, ApplyOutcome, undecodable, configured, executed, RaftNode,
  is_leader, sentinel, last_log_index, log_offset_for_index, entry_at, uncompacted_log_entries,
}
use domino_jc_project.Consensus.Command.{
  Json, Command, Op, add_node, remove_node, commit_config, AddNodeCommand, RemoveNodeCommand,
  Decoded, ok, err, is_membership_op, decode_command, decode_add_node_command,
  decode_remove_node_command,
}

-- database.RaftMeta
pub record RaftMeta : Type 0 where
  pub snapshot_index : ℕ
  pub snapshot_term : ℕ
  pub commit_index : ℕ
  pub last_applied : ℕ
  pub current_term : ℕ
  pub voted_for : String

-- database.SnapshotRecord
pub record SnapshotRecord : Type 0 where
  pub last_included_index : ℕ
  pub last_included_term : ℕ
  pub image : Bytes

-- What a node is built on: the match FSM, JSON, and the storage, whose calls may fail.
pub record Machine (S R D : Type 0) : Type 0 where
  pub json : Json
  pub fsm_apply : Bytes → S → R × S
  pub create_snapshot : S → Option Bytes
  pub restore : Bytes → S → Option S
  pub persist_snapshot : ℕ → ℕ → Bytes → D → Option D
  pub truncate_log : List LogEntry → RaftMeta → D → Option D
  pub load_snapshot : D → Option (Option SnapshotRecord)
  pub load_log : D → Option (List LogEntry × Option RaftMeta)

abbrev has_key {ℓ} : {V : Type ℓ} → String → StringMap V → Bool
has_key key m = elim (find_key key m) [ none ↦ false | some _ ↦ true ]

-- The keys of `keys` that `peers` lacks are deleted from `m`.
unfoldable pub prune_keys : PeerMap → StringMap ℕ → StringMap ℕ → StringMap ℕ
prune_keys peers [] m = m
prune_keys peers ((k, _) ∷ keys) m =
    prune_keys peers keys (if has_key k peers then m else delete_key k m)

abbrev pub map_option {ℓ κ} : {A : Type ℓ} {B : Type κ} → (A → B) → Option A → Option B
map_option f none = none
map_option f (some a) = some (f a)

module _ {S R D : Type 0} where
  unfoldable pub track_new_peer : String → RaftNode S R D → RaftNode S R D
  track_new_peer peer n =
      if is_leader n.state
      then (elim n.next_index [
        | none ↦ n
        | some next ↦ record n {
          next_index = some (put_key peer (last_log_index n + 1) next);
          match_index = map_option (put_key peer 0) n.match_index;
        }
      ])
      else n

  unfoldable pub drop_peer : String → RaftNode S R D → RaftNode S R D
  drop_peer peer n = record n {
    next_index = map_option (delete_key peer) n.next_index;
    match_index = map_option (delete_key peer) n.match_index;
  }

  unfoldable pub prune_replication_state : RaftNode S R D → RaftNode S R D
  unfolding prune_keys
  prune_replication_state n = elim n.next_index [
    | none ↦ n
    | some next ↦ record n {
      next_index = some (prune_keys n.peer_addresses next next);
      match_index = map_option (prune_keys n.peer_addresses next) n.match_index;
    }
  ]

  -- A new configuration is joint until it is committed.
  unfoldable pub enter_joint : PeerMap → RaftNode S R D → RaftNode S R D
  enter_joint new_peers n = record n {
    joint = some (record { old_peers = n.peer_addresses; new_peers = new_peers });
    peer_addresses = new_peers;
  }

  -- Whether the change was made; an error leaves the node as it is.
  unfoldable pub add_peer : AddNodeCommand → RaftNode S R D → Bool × RaftNode S R D
  unfolding enter_joint track_new_peer
  add_peer add n = if has_key add.node_id n.peer_addresses then (false, n) else elim n.joint [
    | some _ ↦ (false, n)
    | none ↦ (
      true,
      track_new_peer add.node_id (enter_joint (put_key add.node_id add.address n.peer_addresses) n),
    )
  ]

  unfoldable pub remove_peer : RemoveNodeCommand → RaftNode S R D → Bool × RaftNode S R D
  unfolding enter_joint drop_peer
  remove_peer remove n =
      if not (has_key remove.node_id n.peer_addresses) then (false, n) else elim n.joint [
        | some _ ↦ (false, n)
        | none ↦ (
          true,
          drop_peer remove.node_id (enter_joint (delete_key remove.node_id n.peer_addresses) n),
        )
      ]

  unfoldable pub commit_joint : RaftNode S R D → Bool × RaftNode S R D
  unfolding prune_replication_state
  commit_joint n = elim n.joint [
    | none ↦ (false, n)
    | some j ↦
        (true, prune_replication_state (record n { peer_addresses = j.new_peers; joint = none }))
  ]

  unfoldable pub on_decoded :
      {A : Type 0}
      → (A → RaftNode S R D → Bool × RaftNode S R D)
      → Decoded A
      → RaftNode S R D
      → Bool × RaftNode S R D
  on_decoded f (ok a) n = f a n
  on_decoded f (err e) n = (false, n)

  unfoldable pub apply_membership : Json → Op → Bytes → RaftNode S R D → Bool × RaftNode S R D
  unfolding add_peer remove_peer commit_joint on_decoded
  apply_membership json add_node payload n =
      on_decoded add_peer (decode_add_node_command json payload) n
  apply_membership json remove_node payload n =
      on_decoded remove_peer (decode_remove_node_command json payload) n
  apply_membership json commit_config payload n = commit_joint n
  apply_membership json _ payload n = (false, n)

  unfoldable pub record_apply_result : ℕ → ApplyOutcome R → RaftNode S R D → RaftNode S R D
  record_apply_result index result n = record n {
    apply_results = (index, result) ∷ n.apply_results;
  }

module _ {S R D : Type 0} (m : Machine S R D) where
  unfoldable pub apply_decoded : LogEntry → ℕ → Decoded Command → RaftNode S R D → RaftNode S R D
  unfolding record_apply_result is_membership_op
  apply_decoded entry index (err e) n = record_apply_result index undecodable n
  apply_decoded entry index (ok cmd) n =
      if is_membership_op cmd.op
      then (let (done, n') = apply_membership m.json cmd.op cmd.payload n in
          record_apply_result index (configured done) n')
      else (let (result, s) = m.fsm_apply entry.command n.fsm in
          record_apply_result index (executed result) (record n { fsm = s }))

  -- One round of the loop for the entry at `last_applied`, which was counted up before.
  unfoldable pub apply_entry : LogEntry → RaftNode S R D → RaftNode S R D
  unfolding apply_decoded
  apply_entry entry n = apply_decoded entry n.last_applied (decode_command m.json entry.command) n

  -- `for n.lastApplied < n.commitIndex`, with the rounds that are left.
  unfoldable pub apply_rounds : ℕ → RaftNode S R D → RaftNode S R D
  unfolding apply_entry
  apply_rounds zero n = n
  apply_rounds (suc rounds) n = elim (entry_at (n.last_applied + 1) n) [
    | none ↦ n
    | some entry ↦
        apply_rounds rounds (apply_entry entry (record n { last_applied = n.last_applied + 1 }))
  ]

  -- What `persistDurableStateLocked` writes: the log without its first entry, above the snapshot.
  unfoldable pub uncompacted : ℕ → List LogEntry → List LogEntry
  uncompacted snapshot_index [] = []
  uncompacted snapshot_index (e ∷ es) =
      let rest = uncompacted snapshot_index es in
      if leb e.index snapshot_index then rest else e ∷ rest

  meta_of : RaftNode S R D → RaftMeta
  meta_of n = record {
    snapshot_index = n.snapshot_index;
    snapshot_term = n.snapshot_term;
    commit_index = n.commit_index;
    last_applied = n.last_applied;
    current_term = n.current_term;
    voted_for = n.voted_for;
  }

  -- Whether the write succeeded, beside the node.
  unfoldable pub persist_checked : RaftNode S R D → Bool × RaftNode S R D
  unfolding uncompacted meta_of
  persist_checked n = elim n.storage [
    | none ↦ (true, n)
    | some d ↦ elim (m.truncate_log (uncompacted n.snapshot_index (drop 1 n.log)) (meta_of n) d) [
      | none ↦ (false, n)
      | some d' ↦ (true, record n { storage = some d' })
    ]
  ]

  -- For the callers that drop the error.
  unfoldable pub persist_durable_state : RaftNode S R D → RaftNode S R D
  unfolding persist_checked
  persist_durable_state n = (persist_checked n).1

  -- The log cut at `index`: a sentinel and what follows.
  unfoldable pub cut_log : ℕ → ℕ → RaftNode S R D → List LogEntry
  cut_log index term n = elim (log_offset_for_index index n) [
    | none ↦ sentinel index term ∷ []
    | some offset ↦ sentinel index term ∷ drop (offset + 1) n.log
  ]

  -- `PersistSnapshot` if there is a storage; `none` where it fails.
  save_snapshot : ℕ → ℕ → Bytes → Option D → Option (Option D)
  save_snapshot index term data' none = some none
  save_snapshot index term data' (some d) = elim (m.persist_snapshot index term data' d) [
    | none ↦ none
    | some d' ↦ some (some d')
  ]

  compact_with : ℕ → ℕ → Bytes → RaftNode S R D → RaftNode S R D
  unfolding save_snapshot persist_durable_state cut_log
  compact_with up_to term data' n = elim (save_snapshot up_to term data' n.storage) [
    | none ↦ n
    | some d ↦ persist_durable_state (record n {
      snapshot_index = up_to;
      snapshot_term = term;
      last_snapshot = data';
      log = cut_log up_to term n;
      storage = d;
    })
  ]

  -- Go panics where the log has no entry at `last_applied`; here nothing is compacted then.
  unfoldable pub maybe_compact : RaftNode S R D → RaftNode S R D
  unfolding compact_with
  maybe_compact n =
      if ltb (uncompacted_log_entries n) n.compact_threshold
      then n
      else if leb n.last_applied n.snapshot_index
      then n
      else elim (m.create_snapshot n.fsm) [
        | none ↦ n
        | some data' ↦ elim (entry_at n.last_applied n) [
          | none ↦ n
          | some entry ↦ compact_with n.last_applied entry.term data' n
        ]
      ]

  unfoldable pub apply_committed : RaftNode S R D → RaftNode S R D
  unfolding apply_rounds maybe_compact
  apply_committed n = maybe_compact (apply_rounds (n.commit_index - n.last_applied) n)
