-- ===== src/Consensus/Sound/Compact.antt =====
-- Compaction loses no entry that is still to be applied.
use domino_jc_project.Prelude.{
  ℕ, zero, suc, ◌+◌, ◌-◌, ◌≤◌, ◌<◌, ◌≡◌, refl, sym, ap, ap₂, ◌∙◌, false, List, [], ◌∷◌, ltb, arith,
  get_elem?, drop,
}
use domino_jc_project.Consensus.Node.{LogEntry, RaftNode, entry_at, log_offset_for_index, sentinel}
use domino_jc_project.Consensus.Apply.{Machine, cut_log, maybe_compact, persist_durable_state}
use domino_jc_project.Consensus.Apply.Keep.{cut_at, idle, written, maybe_compact-CompactCase}
use domino_jc_project.Consensus.Sound.{persist_durable_state-SameEntries}
use domino_jc_project.Consensus.Sound.Append.{entry_at_high}

get_elem?-drop :
    (k : ℕ) (xs : List LogEntry) (i : ℕ) → get_elem? (drop k xs) i ≡ get_elem? xs (k + i)
get_elem?-drop zero xs i = let same : 0 + i ≡ i = omega arith in rw same refl
get_elem?-drop (suc k) [] i = refl
get_elem?-drop (suc k) (x ∷ xs) i =
    let same : suc k + i ≡ suc (k + i) = omega arith in rw same (get_elem?-drop k xs i)

get_elem?-cons :
    (x : LogEntry) (xs : List LogEntry) (i : ℕ)
    → zero < i
    → get_elem? (x ∷ xs) i ≡ get_elem? xs (i - 1)
get_elem?-cons x xs zero h = absurd (omega arith)
get_elem?-cons x xs (suc i) h = let same : suc i - 1 ≡ i = omega arith in rw same refl

module _ {S R D : Type 0} (m : Machine S R D) where
  cut_log-above :
      (i t : ℕ) (n : RaftNode S R D)
      → n.snapshot_index < i
      → cut_log m i t n ≡ sentinel i t ∷ drop (i - n.snapshot_index + 1) n.log
  unfolding cut_log log_offset_for_index
  cut_log-above i t n above =
      let high : ltb i n.snapshot_index ≡ false = ground arith in rw (high, cut_log)

  -- An entry above the last applied one is read as before after the log may have been compacted.
  pub entry_at-maybe_compact :
      (i : ℕ) (n : RaftNode S R D)
      → n.snapshot_index ≤ n.last_applied
      → n.last_applied < i
      → entry_at i (maybe_compact m n) ≡ entry_at i n
  entry_at-maybe_compact i n low above = elim (maybe_compact-CompactCase m n) [
    | idle q ↦ rw q
    | written entry data' d below _ _ q ↦
        let base = cut_at m n.last_applied entry.term data' d n in
        let n' = persist_durable_state m base in
        let same = persist_durable_state-SameEntries m base in
        let start : n'.snapshot_index ≡ n.last_applied = same.snapshot_index in
        let log : n'.log
            ≡ sentinel n.last_applied entry.term
              ∷ drop (n.last_applied - n.snapshot_index + 1) n.log =
          same.log ∙ cut_log-above n.last_applied entry.term n below in
        let high : ltb i n.snapshot_index ≡ false = ground arith in
        let high' : ltb i n'.snapshot_index ≡ false = ap (ltb i) start ∙ (ground arith) in
        let k = n.last_applied - n.snapshot_index + 1 in
        let place : k + (i - n.last_applied - 1) ≡ i - n.snapshot_index = omega arith in
        rw q (
          entry_at_high m i n' high'
          ∙ ap₂ (λ l j. get_elem? l (i - j)) log start
          ∙ get_elem?-cons (sentinel n.last_applied entry.term) (drop k n.log) (i - n.last_applied)
              (omega arith)
          ∙ get_elem?-drop k n.log (i - n.last_applied - 1)
          ∙ ap (get_elem? n.log) place
          ∙ sym (entry_at_high m i n high))
  ]
