-- ===== src/Consensus/Quorum/Advance.antt =====
-- The index that a leader commits.
use domino_jc_project.Prelude.{
  ℕ, zero, suc, ◌+◌, ◌-◌, ◌≤◌, ◌<◌, ◌≡◌, refl, true, false, ◌&&◌, Option, none, some, arith,
  Bool-cases, Option-cases, inl, inr, ◌==◌,
}
use domino_jc_project.Consensus.Node.{LogEntry, RaftNode, entry_at, last_log_index}
use domino_jc_project.Consensus.Apply.{Machine}
use domino_jc_project.Consensus.Apply.Keep.{apply_committed-SameVote}
use domino_jc_project.Consensus.Leader.{quorum_met, can_commit, find_commit, advance_commit_index}

module _ {S R D : Type 0} where
  -- No index above `low` and up to `high` can be committed.
  pub NoneAbove : ℕ → ℕ → RaftNode S R D → Type 0
  NoneAbove low high n = (i : ℕ) → low < i → i ≤ high → can_commit n i ≡ false

  -- The commit index that a leader ends up with: the old one if no later one can be committed, and else
  -- the last that can.
  pub data LeaderCommit (n : RaftNode S R D) (commit : ℕ) : Type 0 where
    stays :
        commit ≡ n.commit_index
        → NoneAbove n.commit_index (last_log_index n) n
        → LeaderCommit n commit
    moves :
        (e : LogEntry)
        → n.commit_index < commit
        → commit ≤ last_log_index n
        → entry_at commit n ≡ some e
        → e.term ≡ n.current_term
        → quorum_met n commit ≡ true
        → NoneAbove commit (last_log_index n) n
        → LeaderCommit n commit

  data Found (k : ℕ) (n : RaftNode S R D) : Option ℕ → Type 0 where
    nowhere : NoneAbove n.commit_index (n.commit_index + k) n → Found k n none
    found :
        (i : ℕ)
        → n.commit_index < i
        → i ≤ n.commit_index + k
        → can_commit n i ≡ true
        → NoneAbove i (n.commit_index + k) n
        → Found k n (some i)

  NoneAbove-suc :
      (low high : ℕ) (n : RaftNode S R D)
      → can_commit n (suc high) ≡ false
      → NoneAbove low high n
      → NoneAbove low (suc high) n
  unfolding NoneAbove
  NoneAbove-suc low high n last before i above below = elim (Bool-cases (i == suc high)) [
    | inl e ↦ let same : i ≡ suc high = ground arith in rw same last
    | inr e ↦ before i above (ground arith)
  ]

  NoneAbove-next :
      (low k : ℕ) (n : RaftNode S R D)
      → can_commit n (n.commit_index + suc k) ≡ false
      → NoneAbove low (n.commit_index + k) n
      → NoneAbove low (n.commit_index + suc k) n
  NoneAbove-next low k n last before =
      let same : n.commit_index + suc k ≡ suc (n.commit_index + k) = omega arith in
      rw same (NoneAbove-suc low (n.commit_index + k) n (rw same at last) before)

  Found-suc :
      (k : ℕ) (n : RaftNode S R D) (r : Option ℕ)
      → can_commit n (n.commit_index + suc k) ≡ false
      → Found k n r
      → Found (suc k) n r
  Found-suc k n none last (nowhere h) = nowhere (NoneAbove-next n.commit_index k n last h)
  Found-suc k n (some i) last (found j low high can h) =
      found i low (omega arith) can (NoneAbove-next i k n last h)

  find_commit-Found : (k : ℕ) (n : RaftNode S R D) → Found k n (find_commit k n)
  unfolding find_commit NoneAbove
  find_commit-Found zero n = nowhere (λ i above below. absurd (omega arith))
  find_commit-Found (suc k) n =
      let index = n.commit_index + suc k in
      elim (Bool-cases (can_commit n index)) [
        | inl can ↦
            rw (can, find_commit)
              (found index (omega arith) (omega arith) can (λ i above below. absurd (omega arith)))
        | inr cannot ↦
            rw (cannot, find_commit)
              (Found-suc k n (find_commit k n) cannot (find_commit-Found k n))
      ]

  can_commit_sound :
      (n : RaftNode S R D) (i : ℕ)
      → can_commit n i ≡ true
      → (e : LogEntry) × (entry_at i n ≡ some e)
        × (e.term ≡ n.current_term)
        × (quorum_met n i ≡ true)
  unfolding can_commit
  can_commit_sound n i can = elim (Option-cases (entry_at i n)) [
    | inl none_there ↦ absurd (ground (arith, rw (none_there, can_commit) at can))
    | inr (e, there) ↦
        let both : e.term == n.current_term && quorum_met n i ≡ true =
          rw (there, can_commit) at can in
        (e, there, ground arith, ground arith)
  ]

module _ {S R D : Type 0} (m : Machine S R D) where
  commit_index-advance :
      (n : RaftNode S R D) (r : Option ℕ)
      → find_commit (last_log_index n - n.commit_index) n ≡ r
      → (advance_commit_index m n).commit_index ≡ (elim r [ none ↦ n.commit_index | some i ↦ i ])
  unfolding advance_commit_index
  commit_index-advance n none e = rw (e, advance_commit_index)
  commit_index-advance n (some i) e =
      rw (e, advance_commit_index)
        (apply_committed-SameVote m (record n { commit_index = i })).commit_index

  LeaderCommit_lem :
      (n : RaftNode S R D) (r : Option ℕ)
      → n.commit_index ≤ last_log_index n
      → Found (last_log_index n - n.commit_index) n r
      → LeaderCommit n (elim r [ none ↦ n.commit_index | some i ↦ i ])
  LeaderCommit_lem n none h (nowhere none_above) =
      let same : n.commit_index + (last_log_index n - n.commit_index) ≡ last_log_index n =
        omega arith in
      stays refl (rw same at none_above)
  LeaderCommit_lem n (some i) h (found j low high can none_above) =
      let same : n.commit_index + (last_log_index n - n.commit_index) ≡ last_log_index n =
        omega arith in
      let (e, there, current, quorum) = can_commit_sound n i can in
      moves e low (omega arith) there current quorum (rw same at none_above)

  -- If the commit index of a node is in its log, then a leader's commit index stays where it is or moves up
  -- to an entry of the current term that a quorum has, and in either case no later entry of its log
  -- satisfies that.
  pub advance_commit_index-LeaderCommit :
      (n : RaftNode S R D)
      → n.commit_index ≤ last_log_index n
      → LeaderCommit n (advance_commit_index m n).commit_index
  advance_commit_index-LeaderCommit n h =
      let r = find_commit (last_log_index n - n.commit_index) n in
      rw (commit_index-advance n r refl)
        (LeaderCommit_lem n r h (find_commit-Found (last_log_index n - n.commit_index) n))
