-- ===== src/Consensus/Membership/Tests.antt =====
-- One node joins a cluster of two, and one leaves it.
use domino_jc_project.Prelude.{ℕ, refl, none, some, [], ◌∷◌, ◌==◌, if◌then◌else◌, find_key, put_key}
use domino_jc_project.Consensus.Node.{Bytes, LogEntry, PeerMap, RaftNode, new_raft_node}
use domino_jc_project.Consensus.Command.{
  Json, Command, Op, add_node, remove_node, commit_config, AddNodeCommand, RemoveNodeCommand,
  encode_add_node_command, encode_remove_node_command, encode_commit_config_command,
}
use domino_jc_project.Consensus.Apply.{Machine, apply_entry}
use domino_jc_project.Consensus.Membership.{Changes, add_node_command-Changes}

abbrev newcomer : AddNodeCommand
newcomer = record { node_id = "n3"; address = "h3" }

abbrev leaver : RemoveNodeCommand
leaver = record { node_id = "n2" }

abbrev tag : Op → ℕ
tag add_node = 1
tag remove_node = 2
tag _ = 3

abbrev of_tag : ℕ → Command
of_tag n =
    if n == 1
    then record { op = add_node; match_id = "_cluster"; payload = 7 ∷ [] }
    else if n == 2
    then record { op = remove_node; match_id = "_cluster"; payload = 8 ∷ [] }
    else record { op = commit_config; match_id = "_cluster"; payload = [] }

abbrev json : Json
json = record {
  write_command = λ c. tag c.op ∷ [];
  read_command = λ b. elim b [ [] ↦ none | n ∷ _ ↦ some (of_tag n) ];
  write_add_node = λ c. 7 ∷ [];
  read_add_node = λ b. some newcomer;
  write_remove_node = λ c. 8 ∷ [];
  read_remove_node = λ b. some leaver;
  read_start_match = λ b. none;
  read_apply_turn = λ b. none;
}

abbrev machine : Machine ℕ ℕ ℕ
machine = record {
  json = json;
  fsm_apply = λ b s. (s, s);
  create_snapshot = λ s. none;
  restore = λ b s. none;
  persist_snapshot = λ i t b d. none;
  truncate_log = λ es r d. none;
  load_snapshot = λ d. none;
  load_log = λ d. none;
}

abbrev peers : PeerMap
peers = ("n1", "h1") ∷ ("n2", "h2") ∷ []

abbrev node : RaftNode ℕ ℕ ℕ
node = new_raft_node "n1" peers 0

abbrev entry : ℕ → Bytes → LogEntry
entry i b = record { index = i; term = 1; command = b }

abbrev commit : LogEntry
commit = entry 2 (encode_commit_config_command json)

abbrev joins : LogEntry
joins = entry 1 (encode_add_node_command json "n3" "h3")

abbrev leaves : LogEntry
leaves = entry 1 (encode_remove_node_command json "n2")

add_node_command-Changes_example :
    Changes machine
      (put_key "n3" "h3" node.peer_addresses)
      node
      (apply_entry machine joins node)
      (apply_entry machine commit (apply_entry machine joins node))
add_node_command-Changes_example =
    add_node_command-Changes machine newcomer joins commit node refl refl refl refl refl refl
      (refl, refl) (unfold find_key in unfold new_raft_node in refl) (unfold new_raft_node in refl)
