-- ===== src/Consensus/Node.antt =====
-- pkg/consensus/raft_node.go: the state of a node, and how it reads its log. Indices and terms are
-- uint64 in the code and grow by one at a time; 2 ^ 64 of them are out of reach.
use domino_jc_project.Prelude.{
  ℕ, ◌-◌, String, Bool, true, false, Option, none, some, List, [], ◌∷◌, ltb, leb, ◌==◌,
  if◌then◌else◌, get_elem?, StringMap,
}

abbrev pub Bytes : Type 0
Bytes = List ℕ

pub data Role : Type 0 where
  leader candidate follower : Role

abbrev pub is_leader : Role → Bool
is_leader leader = true
is_leader _ = false

abbrev pub is_follower : Role → Bool
is_follower follower = true
is_follower _ = false

pub record LogEntry : Type 0 where
  pub index : ℕ
  pub term : ℕ
  pub command : Bytes

abbrev pub PeerMap : Type 0
PeerMap = StringMap String

pub record JointConfig : Type 0 where
  pub old_peers : PeerMap
  pub new_peers : PeerMap

-- What `applyResults` keeps for an entry: a command that does not decode, the error of a configuration
-- change, or what the state machine returned.
pub data ApplyOutcome (R : Type 0) : Type 0 where
  undecodable : ApplyOutcome R
  configured : Bool → ApplyOutcome R
  executed : R → ApplyOutcome R

-- `S` is the state of the match FSM, `R` what its Apply returns, `D` the durable storage. A nil map or
-- storage is `none`. Tickers, channels of waiters and the notifier are not kept.
pub record RaftNode (S R D : Type 0) : Type 0 where
  pub node_id : String
  pub peer_addresses : PeerMap
  pub current_term : ℕ
  pub voted_for : String
  pub state : Role
  pub fsm : S
  pub log : List LogEntry
  pub commit_index : ℕ
  pub last_applied : ℕ
  pub next_index : Option (StringMap ℕ)
  pub match_index : Option (StringMap ℕ)
  pub joint : Option JointConfig
  pub known_leader_id : String
  pub known_leader_term : ℕ
  pub apply_results : List (ℕ × ApplyOutcome R)
  pub storage : Option D
  pub compact_threshold : ℕ
  pub snapshot_index : ℕ
  pub snapshot_term : ℕ
  pub last_snapshot : Bytes

abbrev pub sentinel : ℕ → ℕ → LogEntry
sentinel index term = record { index = index; term = term; command = [] }

abbrev pub default_compact_threshold : ℕ
default_compact_threshold = 1000

-- The last entry of a log, or `d` if it has none.
abbrev pub last_or : LogEntry → List LogEntry → LogEntry
last_or d [] = d
last_or d (e ∷ es) = last_or e es

module _ {S R D : Type 0} where
  unfoldable pub new_raft_node : String → PeerMap → S → RaftNode S R D
  new_raft_node node_id peers fsm = record {
    node_id = node_id;
    peer_addresses = peers;
    current_term = 0;
    voted_for = "";
    state = follower;
    fsm = fsm;
    log = sentinel 0 0 ∷ [];
    commit_index = 0;
    last_applied = 0;
    next_index = none;
    match_index = none;
    joint = none;
    known_leader_id = "";
    known_leader_term = 0;
    apply_results = [];
    storage = none;
    compact_threshold = default_compact_threshold;
    snapshot_index = 0;
    snapshot_term = 0;
    last_snapshot = [];
  }

  unfoldable pub set_compact_threshold : ℕ → RaftNode S R D → RaftNode S R D
  set_compact_threshold threshold n = record n {
    compact_threshold = if threshold == 0 then default_compact_threshold else threshold;
  }

  unfoldable pub last_log_index : RaftNode S R D → ℕ
  last_log_index n = (last_or (sentinel n.snapshot_index n.snapshot_term) n.log).index

  unfoldable pub last_log_term : RaftNode S R D → ℕ
  last_log_term n = (last_or (sentinel n.snapshot_index n.snapshot_term) n.log).term

  -- `logOffsetForIndex`, `none` for its -1.
  unfoldable pub log_offset_for_index : ℕ → RaftNode S R D → Option ℕ
  log_offset_for_index index n =
      if ltb index n.snapshot_index then none else some (index - n.snapshot_index)

  -- `log[logOffsetForIndex(index)]` where that is in range.
  unfoldable pub entry_at : ℕ → RaftNode S R D → Option LogEntry
  unfolding log_offset_for_index
  entry_at index n = elim (log_offset_for_index index n) [
    | none ↦ none
    | some offset ↦ get_elem? n.log offset
  ]

  unfoldable pub log_is_up_to_date : ℕ → ℕ → RaftNode S R D → Bool
  unfolding last_log_index last_log_term
  log_is_up_to_date last_index last_term n =
      if last_term == last_log_term n
      then leb (last_log_index n) last_index
      else ltb (last_log_term n) last_term

  unfoldable pub uncompacted_log_entries : RaftNode S R D → ℕ
  unfolding last_log_index
  uncompacted_log_entries n =
      if leb (last_log_index n) n.snapshot_index then 0 else last_log_index n - n.snapshot_index

  unfoldable pub become_follower : ℕ → RaftNode S R D → RaftNode S R D
  become_follower term n = record n {
    current_term = term;
    voted_for = "";
    state = follower;
    next_index = none;
    match_index = none;
  }
