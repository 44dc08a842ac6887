-- ===== src/Consensus/Apply/Run.antt =====
-- What the apply loop does to the state machine: the commands of the committed entries, in order, each
-- once.
use domino_jc_project.Prelude.{
  ℕ, zero, suc, ◌+◌, ◌-◌, ◌≤◌, ◌≡◌, refl, sym, ap, ap₂, ◌∙◌, none, some, List, [], ◌∷◌, arith,
  Option-cases, inl, inr, if◌then◌else◌, length,
}
use domino_jc_project.Consensus.Node.{Bytes, LogEntry, RaftNode, entry_at, last_log_index}
use domino_jc_project.Consensus.Command.{
  Command, Decoded, ok, err, is_membership_op, decode_command,
}
use domino_jc_project.Consensus.Apply.{
  Machine, apply_decoded, apply_entry, apply_rounds, apply_committed,
}
use domino_jc_project.Consensus.Apply.Frame.{
  SameLog, apply_entry-SameLog, last_applied-apply_entry, fsm-apply_membership, apply_rounds-zero,
  apply_rounds-suc,
}
use domino_jc_project.Consensus.Apply.Keep.{maybe_compact-SameRun}
use domino_jc_project.Consensus.Log.{IsSound, entry_at-exact}

module _ {S R D : Type 0} (m : Machine S R D) where
  -- What a command does to the state of the match FSM: nothing if it does not decode or changes the
  -- configuration.
  unfoldable pub run_decoded : Decoded Command → Bytes → S → S
  run_decoded (err e) command s = s
  run_decoded (ok cmd) command s = if is_membership_op cmd.op then s else (m.fsm_apply command s).1

  unfoldable pub run_command : Bytes → S → S
  unfolding run_decoded
  run_command command s = run_decoded (decode_command m.json command) command s

  unfoldable pub run_entries : List LogEntry → S → S
  unfolding run_command
  run_entries [] s = s
  run_entries (e ∷ es) s = run_entries es (run_command e.command s)

  -- The entries of the log at `k` indices from `i` on.
  unfoldable pub entries_from : ℕ → ℕ → RaftNode S R D → List LogEntry
  entries_from zero i n = []
  entries_from (suc k) i n = elim (entry_at i n) [
    | none ↦ []
    | some e ↦ e ∷ entries_from k (i + 1) n
  ]

  fsm-apply_decoded :
      (e : LogEntry) (i : ℕ) (d : Decoded Command) (n : RaftNode S R D)
      → (apply_decoded m e i d n).fsm ≡ run_decoded d e.command n.fsm
  unfolding apply_decoded run_decoded
  fsm-apply_decoded e i (err x) n = refl
  fsm-apply_decoded e i (ok cmd) n = ground (arith, fsm-apply_membership m cmd.op cmd.payload n)

  fsm-apply_entry :
      (e : LogEntry) (n : RaftNode S R D) → (apply_entry m e n).fsm ≡ run_command e.command n.fsm
  unfolding apply_entry run_command
  fsm-apply_entry e n = fsm-apply_decoded e n.last_applied (decode_command m.json e.command) n

  entry_at-SameLog : (i : ℕ) (n n' : RaftNode S R D) → SameLog n n' → entry_at i n' ≡ entry_at i n
  unfolding entry_at
  entry_at-SameLog i n n' same = rw (same.log, same.snapshot_index)

  entries_from-SameLog :
      (k i : ℕ) (n n' : RaftNode S R D) → SameLog n n' → entries_from k i n' ≡ entries_from k i n
  unfolding entries_from
  entries_from-SameLog zero i n n' same = refl
  entries_from-SameLog (suc k) i n n' same =
      let there = entry_at-SameLog i n n' same in
      elim (Option-cases (entry_at i n)) [
        | inl e ↦ rw (there, e, entries_from)
        | inr (entry, e) ↦
            rw (there, e, entries_from) (ap (◌∷◌ entry) (entries_from-SameLog k (i + 1) n n' same))
      ]

  entries_from-suc :
      (k i : ℕ) (n : RaftNode S R D) (e : LogEntry)
      → entry_at i n ≡ some e
      → entries_from (suc k) i n ≡ e ∷ entries_from k (i + 1) n
  unfolding entries_from
  entries_from-suc k i n e found = rw (found, entries_from)

  -- What `k` rounds do, if the log has the entries.
  record HasRun (k : ℕ) (n n' : RaftNode S R D) : Type 0 where
    pub fsm : n'.fsm ≡ run_entries (entries_from k (n.last_applied + 1) n) n.fsm
    pub last_applied : n'.last_applied ≡ n.last_applied + k
    pub size : length (entries_from k (n.last_applied + 1) n) ≡ k

  has_entry :
      (n : RaftNode S R D) (i : ℕ)
      → IsSound n
      → n.snapshot_index ≤ i
      → i ≤ last_log_index n
      → (e : LogEntry) × (entry_at i n ≡ some e)
  has_entry n i sound low high = elim (entry_at-exact n i sound) [
    | inl (lower, _) ↦ absurd (omega arith)
    | inr (inl (higher, _)) ↦ absurd (omega arith)
    | inr (inr (_, _, e, found, _)) ↦ (e, found)
  ]

  pub last_log_index-SameLog :
      (n n' : RaftNode S R D) → SameLog n n' → last_log_index n' ≡ last_log_index n
  unfolding last_log_index
  last_log_index-SameLog n n' same = rw (same.log, same.snapshot_index, same.snapshot_term)

  apply_rounds-HasRun :
      (k : ℕ) (n : RaftNode S R D)
      → IsSound n
      → n.snapshot_index ≤ n.last_applied
      → n.last_applied + k ≤ last_log_index n
      → HasRun k n (apply_rounds m k n)
  unfolding entries_from run_entries
  apply_rounds-HasRun zero n sound low high =
      rw (apply_rounds-zero m n) (record { fsm = refl; last_applied = omega arith; size = refl })
  apply_rounds-HasRun (suc k) n sound low high =
      let next = n.last_applied + 1 in
      let (e, found) = has_entry n next sound (omega arith) (omega arith) in
      let counted = record n { last_applied = next } in
      let n' = apply_entry m e counted in
      let same = apply_entry-SameLog m e counted in
      let same' : SameLog n n' = ground arith in
      let applied = last_applied-apply_entry m e counted in
      let last = last_log_index-SameLog n n' same' in
      let rest =
        apply_rounds-HasRun k n'
          (record {
            lower = rw same.log sound.lower;
            numbered = rw (same.log, same.snapshot_index) sound.numbered;
          })
          (rw (same.snapshot_index, applied) (omega arith)) (omega arith) in
      let later = entries_from-SameLog k (next + 1) n n' same' in
      let first = entries_from-suc k next n e found in
      rw (apply_rounds-suc m k n e found) (record {
        fsm =
            rest.fsm
            ∙ ap₂ run_entries (ap (λ i. entries_from k (i + 1) n') applied ∙ later)
                (fsm-apply_entry e counted)
            ∙ sym (ap (λ l. run_entries l n.fsm) first);
        last_applied = omega (arith, rest.last_applied);
        size =
            ap length first
            ∙ ap suc
                (sym (ap length (ap (λ i. entries_from k (i + 1) n') applied ∙ later)) ∙ rest.size);
      })

  -- If the log has the entries up to the commit index, then applying what is committed runs the command of
  -- each entry above the last applied one up to the commit index, once and in order, and nothing else; the
  -- commit index is then the last applied one.
  pub apply_committed-run_entries :
      (n : RaftNode S R D)
      → IsSound n
      → n.snapshot_index ≤ n.last_applied
      → n.last_applied ≤ n.commit_index
      → n.commit_index ≤ last_log_index n
      → let todo = entries_from (n.commit_index - n.last_applied) (n.last_applied + 1) n in
        ((apply_committed m n).fsm ≡ run_entries todo n.fsm)
        × ((apply_committed m n).last_applied ≡ n.commit_index)
        × (length todo ≡ n.commit_index - n.last_applied)
  unfolding apply_committed
  apply_committed-run_entries n sound low middle high =
      let k = n.commit_index - n.last_applied in
      let run = apply_rounds-HasRun k n sound low (omega arith) in
      let compacted = maybe_compact-SameRun m (apply_rounds m k n) in
      (compacted.fsm ∙ run.fsm, omega (arith, compacted.last_applied, run.last_applied), run.size)
