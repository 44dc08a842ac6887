-- ===== src/Consensus/Tests.antt =====
-- The theorems about votes, logs and applied entries at concrete nodes of a cluster of three.
use domino_jc_project.Prelude.{
  ℕ, ◌≡◌, refl, Bool, true, none, some, List, [], ◌∷◌, arith, length, eq_iff, false≢true, inr,
}
use domino_jc_project.Consensus.Node.{
  Bytes, LogEntry, RaftNode, PeerMap, follower, new_raft_node, sentinel, last_log_index,
  log_is_up_to_date, uncompacted_log_entries,
}
use domino_jc_project.Consensus.Command.{Json, debug_noop}
use domino_jc_project.Consensus.Apply.{Machine, apply_committed}
use domino_jc_project.Consensus.Apply.Run.{run_entries, entries_from, apply_committed-run_entries}
use domino_jc_project.Consensus.Rpc.{
  RequestVoteArgs, AppendEntriesArgs, request_vote, append_entries, append_at,
}
use domino_jc_project.Consensus.Events.{
  Event, entries_received, election_due, command_proposed, handle_all,
}
use domino_jc_project.Consensus.Vote.{IsQuiet, votes_are_exclusive}
use domino_jc_project.Consensus.Follow.{append_entries_frees_vote}
use domino_jc_project.Consensus.Log.{IsNumbered, IsSound, IsPlaced}
use domino_jc_project.Consensus.Sound.{last_log_index-append_at}
use domino_jc_project.Consensus.Sound.Handlers.{IsOrdered, handle_all-IsSound}

-- Any bytes but none are a command for the match FSM, which keeps what it was given.
abbrev json : Json
json = record {
  write_command = λ c. 1 ∷ [];
  read_command = λ b. elim b [
    | [] ↦ none
    | _ ∷ _ ↦ some (record { op = debug_noop; match_id = ""; payload = [] })
  ];
  write_add_node = λ c. [];
  read_add_node = λ b. none;
  write_remove_node = λ c. [];
  read_remove_node = λ b. none;
  read_start_match = λ b. none;
  read_apply_turn = λ b. none;
}

abbrev pub machine : Machine (List Bytes) Bool (List LogEntry)
machine = record {
  json = json;
  fsm_apply = λ b s. (true, b ∷ s);
  create_snapshot = λ s. some [];
  restore = λ b s. some [];
  persist_snapshot = λ i t b d. some d;
  truncate_log = λ es r d. some es;
  load_snapshot = λ d. some none;
  load_log = λ d. some (d, none);
}

abbrev pub peers : PeerMap
peers = ("n1", "h1") ∷ ("n2", "h2") ∷ ("n3", "h3") ∷ []

abbrev pub fresh : RaftNode (List Bytes) Bool (List LogEntry)
fresh = record {
  node_id = "n1";
  peer_addresses = peers;
  current_term = 0;
  voted_for = "";
  state = follower;
  fsm = [];
  log = sentinel 0 0 ∷ [];
  commit_index = 0;
  last_applied = 0;
  next_index = none;
  match_index = none;
  joint = none;
  known_leader_id = "";
  known_leader_term = 0;
  apply_results = [];
  storage = none;
  compact_threshold = 1000;
  snapshot_index = 0;
  snapshot_term = 0;
  last_snapshot = [];
}

abbrev candidacy : RequestVoteArgs
candidacy = record { term = 1; candidate_id = "n2"; last_log_index = 0; last_log_term = 0 }

abbrev rival : RequestVoteArgs
rival = record { term = 1; candidate_id = "n3"; last_log_index = 1; last_log_term = 1 }

abbrev between : List Event
between = command_proposed (7 ∷ []) ∷ []

first_vote : (request_vote candidacy fresh).1.vote_granted ≡ true
unfolding request_vote
first_vote = refl

second_vote :
    (request_vote candidacy
      (handle_all machine between (request_vote candidacy fresh).0)).1.vote_granted
    ≡ true
unfolding request_vote handle_all
second_vote = refl

votes_are_exclusive_example : candidacy.candidate_id ≡ candidacy.candidate_id
votes_are_exclusive_example =
    votes_are_exclusive machine candidacy candidacy between fresh
      (λ e. false≢true ((eq_iff "n2" "").1 e)) (unfold IsQuiet in (tt, tt)) first_vote second_vote
      refl

abbrev pub entry : ℕ → ℕ → LogEntry
entry i t = record { index = i; term = t; command = i ∷ [] }

abbrev voter : RaftNode (List Bytes) Bool (List LogEntry)
voter = record fresh { current_term = 1; voted_for = "n2" }

abbrev heartbeat : AppendEntriesArgs
heartbeat = record {
  term = 1;
  leader_id = "n2";
  prev_log_index = 0;
  prev_log_term = 0;
  entries = [];
  leader_commit = 0;
}

rival_is_fresh :
    log_is_up_to_date rival.last_log_index rival.last_log_term
      (append_entries machine heartbeat voter).0
    ≡ true
unfolding append_entries log_is_up_to_date uncompacted_log_entries
rival_is_fresh = refl

append_entries_frees_vote_example :
    (request_vote rival (append_entries machine heartbeat voter).0).1.vote_granted ≡ true
append_entries_frees_vote_example =
    append_entries_frees_vote machine heartbeat rival voter refl refl rival_is_fresh

-- A node whose log goes up to 3, with 2 committed and 1 applied.
abbrev pub follower_node : RaftNode (List Bytes) Bool (List LogEntry)
follower_node = record fresh {
  current_term = 1;
  log = sentinel 0 0 ∷ entry 1 1 ∷ entry 2 1 ∷ entry 3 1 ∷ [];
  commit_index = 2;
  last_applied = 1;
}

abbrev pub follower_node-IsSound : IsSound follower_node
unfolding IsNumbered
follower_node-IsSound = record {
  lower = omega arith;
  numbered = (refl, (refl, (refl, (refl, tt))));
}

abbrev pub batch : AppendEntriesArgs
batch = record {
  term = 1;
  leader_id = "n2";
  prev_log_index = 0;
  prev_log_term = 0;
  entries = entry 1 1 ∷ [];
  leader_commit = 1;
}

handle_all-IsSound_example :
    IsSound (
      handle_all machine (entries_received batch ∷ election_due ∷ []) (new_raft_node "n1" peers []))
handle_all-IsSound_example =
    handle_all-IsSound machine (entries_received batch ∷ election_due ∷ []) "n1" peers []
      (unfold IsOrdered in unfold IsPlaced in ((inr refl, tt), (tt, tt)))

-- One entry in place of three, though two are committed.
last_log_index-append_at_example : last_log_index (append_at machine 0 batch follower_node) ≡ 1
last_log_index-append_at_example =
    last_log_index-append_at machine 0 batch follower_node follower_node-IsSound (omega arith) refl
      (unfold IsPlaced in (inr refl, tt)) refl

end_of_log : last_log_index follower_node ≡ 3
unfolding last_log_index
end_of_log = refl

apply_committed-run_entries_example :
    ((apply_committed machine follower_node).fsm
      ≡ run_entries machine (entries_from machine 1 2 follower_node) follower_node.fsm)
    × ((apply_committed machine follower_node).last_applied ≡ 2)
    × (length (entries_from machine 1 2 follower_node) ≡ 1)
apply_committed-run_entries_example =
    apply_committed-run_entries machine follower_node follower_node-IsSound (omega arith)
      (omega arith) (rw end_of_log (omega arith))
