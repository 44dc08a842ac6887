-- ===== src/Consensus/Membership.antt =====
-- pkg/consensus: a change of the configuration, from its two log entries to its effect.
pub mod Tests
use domino_jc_project.Prelude.{
  ℕ, String, ◌≡◌, refl, sym, ap, ◌∙◌, Bool, true, false, not, Option, none, some, List, [], ◌∷◌,
  arith, StringMap, find_key, put_key, delete_key, find_key-delete_key, find_key-put_key,
  if◌then◌else◌, Option-cases, inl, inr, str_eq,
}
use domino_jc_project.Consensus.Node.{Bytes, LogEntry, JointConfig, PeerMap, RaftNode}
use domino_jc_project.Consensus.Command.{
  Json, Command, Op, add_node, remove_node, commit_config, AddNodeCommand, RemoveNodeCommand,
  Decoded, ok, err, is_membership_op, is_non_match_op, decode_command, decode_add_node_command,
  decode_remove_node_command, encode_add_node_command, encode_remove_node_command,
  encode_commit_config_command, has_bytes, named,
}
use domino_jc_project.Consensus.Apply.{
  Machine, apply_membership, apply_decoded, record_apply_result, on_decoded, apply_entry,
  track_new_peer, drop_peer, prune_replication_state, enter_joint, add_peer, remove_peer,
  commit_joint,
}

module _ {S R D : Type 0} (m : Machine S R D) where
  add_peer_lem :
      (add : AddNodeCommand) (n : RaftNode S R D)
      → find_key add.node_id n.peer_addresses ≡ none
      → n.joint ≡ none
      → let new = put_key add.node_id add.address n.peer_addresses in
        ((add_peer add n).1.joint ≡ some (record { old_peers = n.peer_addresses; new_peers = new }))
        × ((add_peer add n).1.peer_addresses ≡ new)
  unfolding add_peer enter_joint track_new_peer
  add_peer_lem add n absent settled = ground (arith, absent, settled)

  commit_joint_lem :
      (j : JointConfig) (n : RaftNode S R D)
      → n.joint ≡ some j
      → ((commit_joint n).1.joint ≡ none) × ((commit_joint n).1.peer_addresses ≡ j.new_peers)
  unfolding commit_joint prune_replication_state
  commit_joint_lem j n joint = ground (arith, joint)

  remove_peer_lem :
      (remove : RemoveNodeCommand) (a : String) (n : RaftNode S R D)
      → find_key remove.node_id n.peer_addresses ≡ some a
      → n.joint ≡ none
      → let new = delete_key remove.node_id n.peer_addresses in
        ((remove_peer remove n).1.joint
          ≡ some (record { old_peers = n.peer_addresses; new_peers = new }))
        × ((remove_peer remove n).1.peer_addresses ≡ new)
  unfolding remove_peer enter_joint drop_peer
  remove_peer_lem remove a n there settled = ground (arith, there, settled)

  -- An entry of a membership command runs the change.
  apply_entry-membership :
      (entry : LogEntry) (cmd : Command) (n : RaftNode S R D)
      → decode_command m.json entry.command ≡ ok cmd
      → is_membership_op cmd.op ≡ true
      → let changed = (apply_membership m.json cmd.op cmd.payload n).1 in
        ((apply_entry m entry n).joint ≡ changed.joint)
        × ((apply_entry m entry n).peer_addresses ≡ changed.peer_addresses)
  unfolding apply_entry apply_decoded record_apply_result
  apply_entry-membership entry cmd n decoded membership =
      rw (decoded, membership, apply_entry, apply_decoded) (refl, refl)

  decode_command-membership :
      (bs : Bytes) (cmd : Command)
      → m.json.read_command bs ≡ some cmd
      → is_membership_op cmd.op ≡ true
      → decode_command m.json bs ≡ ok cmd
  unfolding decode_command is_non_match_op
  decode_command-membership bs cmd read membership = ground (arith, read, membership)

  abbrev pub add_command : AddNodeCommand → Command
  add_command add = record {
    op = add_node;
    match_id = "_cluster";
    payload = m.json.write_add_node add;
  }

  abbrev pub remove_command : RemoveNodeCommand → Command
  remove_command remove = record {
    op = remove_node;
    match_id = "_cluster";
    payload = m.json.write_remove_node remove;
  }

  abbrev pub commit_command : Command
  commit_command = record { op = commit_config; match_id = "_cluster"; payload = [] }

  -- A configuration becomes joint with the first entry and final with the second.
  pub record Changes (new : PeerMap) (n n1 n2 : RaftNode S R D) : Type 0 where
    pub joint : n1.joint ≡ some (record { old_peers = n.peer_addresses; new_peers = new })
    pub settled : n2.joint ≡ none
    pub peers : n2.peer_addresses ≡ new

  commits :
      (new : PeerMap) (e : LogEntry) (n n1 : RaftNode S R D)
      → e.command ≡ encode_commit_config_command m.json
      → m.json.read_command (m.json.write_command commit_command) ≡ some commit_command
      → n1.joint ≡ some (record { old_peers = n.peer_addresses; new_peers = new })
      → Changes new n n1 (apply_entry m e n1)
  unfolding encode_commit_config_command apply_membership is_membership_op
  commits new e n n1 written read joint =
      let decoded =
        decode_command-membership (m.json.write_command commit_command) commit_command read refl in
      let (a, b) =
        apply_entry-membership e commit_command n1 (ap (decode_command m.json) written ∙ decoded)
          refl in
      let (c, d) =
        commit_joint_lem (record { old_peers = n.peer_addresses; new_peers = new }) n1 joint in
      record { joint = joint; settled = a ∙ c; peers = b ∙ d }

  -- If JSON reads back the commands that the code writes for adding a named node and for the commit, the
  -- node is not in the configuration, and no change is open, then the first of the two entries makes the
  -- configuration joint and the second makes the one with the node final.
  pub add_node_command-Changes :
      (add : AddNodeCommand) (e1 e2 : LogEntry) (n : RaftNode S R D)
      → e1.command ≡ encode_add_node_command m.json add.node_id add.address
      → e2.command ≡ encode_commit_config_command m.json
      → m.json.read_command (m.json.write_command (add_command add)) ≡ some (add_command add)
      → m.json.read_command (m.json.write_command commit_command) ≡ some commit_command
      → m.json.read_add_node (m.json.write_add_node add) ≡ some add
      → has_bytes (m.json.write_add_node add) ≡ true
      → (named add.node_id ≡ true) × (named add.address ≡ true)
      → find_key add.node_id n.peer_addresses ≡ none
      → n.joint ≡ none
      → let n1 = apply_entry m e1 n in
        Changes (put_key add.node_id add.address n.peer_addresses) n n1 (apply_entry m e2 n1)
  unfolding encode_add_node_command apply_membership on_decoded decode_add_node_command
      is_membership_op
  add_node_command-Changes add e1 e2 n written1 written2 read1 read2 read_add filled (name, address)
        absent settled =
      let cmd = add_command add in
      let decoded = decode_command-membership (m.json.write_command cmd) cmd read1 refl in
      let (a, _) =
        apply_entry-membership e1 cmd n (ap (decode_command m.json) written1 ∙ decoded) refl in
      let payload : decode_add_node_command m.json cmd.payload ≡ ok add =
        ground (arith, read_add, filled, name, address) in
      let change : apply_membership m.json add_node cmd.payload n ≡ add_peer add n =
        rw (payload, apply_membership) in
      commits (put_key add.node_id add.address n.peer_addresses) e2 n (apply_entry m e1 n) written2
        read2 (a ∙ ap (λ p. p.1.joint) change ∙ (add_peer_lem add n absent settled).0)

  -- If JSON reads back the commands that the code writes for removing a named node and for the commit, the
  -- node is in the configuration, and no change is open, then the first of the two entries makes the
  -- configuration joint and the second makes the one without the node final.
  pub remove_node_command-Changes :
      (remove : RemoveNodeCommand) (addr : String) (e1 e2 : LogEntry) (n : RaftNode S R D)
      → e1.command ≡ encode_remove_node_command m.json remove.node_id
      → e2.command ≡ encode_commit_config_command m.json
      → m.json.read_command (m.json.write_command (remove_command remove))
        ≡ some (remove_command remove)
      → m.json.read_command (m.json.write_command commit_command) ≡ some commit_command
      → m.json.read_remove_node (m.json.write_remove_node remove) ≡ some remove
      → has_bytes (m.json.write_remove_node remove) ≡ true
      → named remove.node_id ≡ true
      → find_key remove.node_id n.peer_addresses ≡ some addr
      → n.joint ≡ none
      → let n1 = apply_entry m e1 n in
        Changes (delete_key remove.node_id n.peer_addresses) n n1 (apply_entry m e2 n1)
  unfolding encode_remove_node_command apply_membership on_decoded decode_remove_node_command
      is_membership_op
  remove_node_command-Changes remove addr e1 e2 n written1 written2 read1 read2 read_remove filled
        name there settled =
      let cmd = remove_command remove in
      let decoded = decode_command-membership (m.json.write_command cmd) cmd read1 refl in
      let (a, _) =
        apply_entry-membership e1 cmd n (ap (decode_command m.json) written1 ∙ decoded) refl in
      let payload : decode_remove_node_command m.json cmd.payload ≡ ok remove =
        ground (arith, read_remove, filled, name) in
      let change : apply_membership m.json remove_node cmd.payload n ≡ remove_peer remove n =
        rw (payload, apply_membership) in
      commits (delete_key remove.node_id n.peer_addresses) e2 n (apply_entry m e1 n) written2 read2
        (a ∙ ap (λ p. p.1.joint) change ∙ (remove_peer_lem remove addr n there settled).0)
