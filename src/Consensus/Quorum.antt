-- ===== src/Consensus/Quorum.antt =====
-- pkg/consensus/raft_node.go: which entries a leader commits.
pub mod Advance
use domino_jc_project.Prelude.{
  ℕ, zero, suc, ◌+◌, ◌-◌, ◌*◌, ◌/◌, ◌≤◌, ◌<◌, ◌≡◌, refl, sym, ◌∙◌, Bool, true, false, not, ◌&&◌,
  ◌||◌, Option, none, some, List, [], ◌∷◌, arith, leb, String, Bool-cases, Option-cases, inl, inr,
  ◌⊎◌, if◌then◌else◌, length, ◌==◌,
}
use domino_jc_project.Consensus.Node.{LogEntry, RaftNode, PeerMap, entry_at, last_log_index}
use domino_jc_project.Consensus.Apply.{Machine, apply_committed}
use domino_jc_project.Consensus.Apply.Keep.{SameVote, apply_committed-SameVote}
use domino_jc_project.Consensus.Leader.{
  is_pending_new_peer, active_voters_in, has_replicated, replication_count_in, quorum_met_in,
  quorum_met, can_commit, find_commit, advance_commit_index, election_majority,
}

-- How many names of a configuration pass a test.
unfoldable pub count_in : (String → Bool) → PeerMap → ℕ
count_in test [] = 0
count_in test ((p, _) ∷ ps) = let rest = count_in test ps in if test p then suc rest else rest

-- Some name of the configuration passes both tests.
unfoldable pub Meets : (String → Bool) → (String → Bool) → PeerMap → Type 0
Meets f g [] = ⊥
Meets f g ((p, _) ∷ ps) = ((f p ≡ true) × (g p ≡ true)) ⊎ Meets f g ps

count_in-Meets :
    (f g : String → Bool) (ps : PeerMap) → length ps < count_in f ps + count_in g ps → Meets f g ps
unfolding Meets count_in
count_in-Meets f g [] h = absurd (omega arith)
count_in-Meets f g ((p, a) ∷ ps) h = elim (Bool-cases (f p)) [
  | inl x ↦ elim (Bool-cases (g p)) [
    | inl y ↦ inl (x, y)
    | inr y ↦ inr (count_in-Meets f g ps (ground (arith, x, y, h)))
  ]
  | inr x ↦ inr (count_in-Meets f g ps (ground (arith, x, h)))
]

module _ {S R D : Type 0} where
  settled_is_active :
      (n : RaftNode S R D) (p : String) → n.joint ≡ none → is_pending_new_peer n p ≡ false
  unfolding is_pending_new_peer
  settled_is_active n p e = rw e

  active_voters_in-settled :
      (n : RaftNode S R D) (ps : PeerMap) → n.joint ≡ none → active_voters_in n ps ≡ length ps
  unfolding active_voters_in
  active_voters_in-settled n [] e = refl
  active_voters_in-settled n ((p, a) ∷ ps) e =
      ground (arith, settled_is_active n p e, active_voters_in-settled n ps e)

  replication_count_in-settled :
      (n : RaftNode S R D) (i : ℕ) (ps : PeerMap)
      → n.joint ≡ none
      → replication_count_in n i ps ≡ count_in (has_replicated n i) ps
  unfolding replication_count_in count_in
  replication_count_in-settled n i [] e = refl
  replication_count_in-settled n i ((p, a) ∷ ps) e =
      ground (arith, settled_is_active n p e, replication_count_in-settled n i ps e)

  -- If the configuration is settled and has a peer, an index has a quorum, and some names are as many of
  -- the configuration as an election takes, then one of those is a node that is counted as having the entry.
  pub quorum_met-Meets :
      (n : RaftNode S R D) (i : ℕ) (voted : String → Bool)
      → n.joint ≡ none
      → zero < length n.peer_addresses
      → quorum_met n i ≡ true
      → election_majority n ≤ count_in voted n.peer_addresses
      → Meets (has_replicated n i) voted n.peer_addresses
  unfolding quorum_met quorum_met_in election_majority
  quorum_met-Meets n i voted settled some_peer quorum elected =
      let members = active_voters_in-settled n n.peer_addresses settled in
      let copies = replication_count_in-settled n i n.peer_addresses settled in
      let enough : quorum_met_in n i n.peer_addresses ≡ true = rw (settled, quorum_met) at quorum in
      let majority : length n.peer_addresses / 2 + 1 ≤ count_in voted n.peer_addresses =
        rw (settled, election_majority) at elected in
      let copied : length n.peer_addresses / 2 + 1
          ≤ count_in (has_replicated n i) n.peer_addresses =
        ground (arith, enough, members, copies) in
      count_in-Meets (has_replicated n i) voted n.peer_addresses (omega arith)
