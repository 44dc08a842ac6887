-- ===== src/Consensus/Wait/Tests.antt =====
-- Concrete waits of a leader of three nodes.
use domino_jc_project.Prelude.{
  ℕ, ◌≤◌, String, ◌≡◌, refl, str_eq, true, none, some, [], ◌∷◌, inr, if◌then◌else◌,
}
use domino_jc_project.Consensus.Node.{
  Bytes, RaftNode, new_raft_node, leader, executed, is_leader, uncompacted_log_entries, entry_at,
}
use domino_jc_project.Consensus.Command.{Json, debug_noop, decode_command}
use domino_jc_project.Consensus.Apply.{Machine}
use domino_jc_project.Consensus.Rpc.{AppendEntriesArgs}
use domino_jc_project.Consensus.Events.{entries_received, handle_all}
use domino_jc_project.Consensus.Wait.{
  Answer, propose_and_wait, ensure_linearizable_read, wait_for_commit, wait_for_apply,
  begin_read_index, confirm_leadership_for_read, confirm_with, ask_peers, ask_peer, read_reply,
  verify, wait_for_read_index,
}
use domino_jc_project.Consensus.Wait.Fresh.{Ensures, Confirms, ensure_linearizable_read-IsFresh}

abbrev json : Json
json = record {
  write_command = λ c. c.payload;
  read_command = λ b. some (record { op = debug_noop; match_id = ""; payload = b });
  write_add_node = λ c. [];
  read_add_node = λ b. none;
  write_remove_node = λ c. [];
  read_remove_node = λ b. none;
  read_start_match = λ b. none;
  read_apply_turn = λ b. none;
}

-- What is applied is the result.
abbrev machine : Machine ℕ Bytes ℕ
machine = record {
  json = json;
  fsm_apply = λ b s. (b, s);
  create_snapshot = λ s. none;
  restore = λ b s. none;
  persist_snapshot = λ i t b d. none;
  truncate_log = λ es r d. none;
  load_snapshot = λ d. none;
  load_log = λ d. none;
}

abbrev of_three : RaftNode ℕ Bytes ℕ
of_three = record (new_raft_node "n1" (("n1", "h1") ∷ ("n2", "h2") ∷ ("n3", "h3") ∷ []) 0) {
  state = leader;
  current_term = 1;
  next_index = some (("n2", 1) ∷ ("n3", 1) ∷ []);
  match_index = some (("n2", 0) ∷ ("n3", 0) ∷ []);
}

-- Only n2 answers.
abbrev one_answers : String → Answer
one_answers p = record {
  before = [];
  meanwhile = [];
  reply = if str_eq p "n2" then some (record { term = 1; success = true }) else none;
}

ensure_linearizable_read-IsFresh_example :
    Ensures
      (λ n'.
        (is_leader of_three.state ≡ true)
        × Confirms of_three.current_term one_answers (handle_all machine [] of_three)
        × (of_three.commit_index ≤ n'.last_applied))
      (ensure_linearizable_read machine one_answers [] ([] ∷ []) of_three)
ensure_linearizable_read-IsFresh_example =
    ensure_linearizable_read-IsFresh machine one_answers [] ([] ∷ []) of_three

the_read_goes_ahead : (ensure_linearizable_read machine one_answers [] ([] ∷ []) of_three).0 ≡ none
unfolding ensure_linearizable_read begin_read_index confirm_leadership_for_read confirm_with
    ask_peers ask_peer read_reply verify wait_for_read_index handle_all new_raft_node
the_read_goes_ahead = refl

-- A leader of term 2 has put another command at the index.
abbrev takeover : AppendEntriesArgs
takeover = record {
  term = 2;
  leader_id = "n2";
  prev_log_index = 0;
  prev_log_term = 0;
  entries = record { index = 1; term = 2; command = 2 ∷ [] } ∷ [];
  leader_commit = 1;
}

-- The proposer of the command 1 gets the result of the command 2, which took its place.
another_result :
    (propose_and_wait machine (1 ∷ []) ((entries_received takeover ∷ []) ∷ [] ∷ []) [] of_three).0
    ≡ inr (executed (2 ∷ []))
unfolding propose_and_wait wait_for_commit wait_for_apply handle_all new_raft_node
    uncompacted_log_entries entry_at decode_command
another_result = refl
