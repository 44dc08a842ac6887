-- ===== src/Consensus/Sound/Append.antt =====
-- What a follower's log is after it takes the entries of a call.
use domino_jc_project.Prelude.{
  ℕ, zero, suc, ◌+◌, ◌-◌, ◌<◌, ◌≡◌, refl, sym, ap, ap₂, ◌∙◌, true, false, none, List, [], ◌∷◌, ◌++◌,
  ltb, leb, ◌==◌, arith, Bool-cases, inl, inr, if◌then◌else◌, length, length-take, get_elem?, take,
  All,
}
use domino_jc_project.Consensus.Node.{LogEntry, RaftNode, entry_at, log_offset_for_index}
use domino_jc_project.Consensus.Apply.{Machine}
use domino_jc_project.Consensus.Rpc.{AppendEntriesArgs, entries_from_args, append_at, no_entries}

get_elem?-append :
    (xs ys : List LogEntry) (i : ℕ)
    → get_elem? (xs ++ ys) i
      ≡ (if ltb i (length xs) then get_elem? xs i else get_elem? ys (i - length xs))
get_elem?-append [] ys i =
    let same : i - 0 ≡ i = omega arith in
    let high : ltb i 0 ≡ false = ground arith in rw (high, same)
get_elem?-append (x ∷ xs) ys zero = ground arith
get_elem?-append (x ∷ xs) ys (suc i) = ground (arith, get_elem?-append xs ys i)

get_elem?-take :
    (k : ℕ) (xs : List LogEntry) (i : ℕ) → i < k → get_elem? (take k xs) i ≡ get_elem? xs i
get_elem?-take zero xs i h = absurd (omega arith)
get_elem?-take (suc k) [] i h = refl
get_elem?-take (suc k) (x ∷ xs) zero h = refl
get_elem?-take (suc k) (x ∷ xs) (suc i) h = get_elem?-take k xs i (omega arith)

-- An entry of a call that names its index and its term.
unfoldable pub IsFilled : LogEntry → Type 0
IsFilled e = (zero < e.index) × (zero < e.term)

entries_from_args-IsFilled :
    (i t : ℕ) (es : List LogEntry) → All IsFilled es → entries_from_args i t es ≡ es
unfolding entries_from_args IsFilled
entries_from_args-IsFilled i t [] _ = refl
entries_from_args-IsFilled i t (e ∷ es) ((a, b), filled) =
    let rest = entries_from_args-IsFilled (i + 1) t es filled in
    let index : e.index == 0 ≡ false = ground arith in
    let term : e.term == 0 ≡ false = ground arith in rw (index, term, rest)

module _ {S R D : Type 0} (m : Machine S R D) where
  entry_at_low : (i : ℕ) (n : RaftNode S R D) → ltb i n.snapshot_index ≡ true → entry_at i n ≡ none
  unfolding entry_at log_offset_for_index
  entry_at_low i n low = rw (low, entry_at)

  pub entry_at_high :
      (i : ℕ) (n : RaftNode S R D)
      → ltb i n.snapshot_index ≡ false
      → entry_at i n ≡ get_elem? n.log (i - n.snapshot_index)
  unfolding entry_at log_offset_for_index
  entry_at_high i n high = rw (high, entry_at)

  -- If the place of a call's previous entry is in the log and the call has entries that name their index
  -- and term, then a follower reads its old log up to that place and the entries of the call after it.
  pub entry_at-append_at :
      (offset : ℕ) (args : AppendEntriesArgs) (n : RaftNode S R D) (i : ℕ)
      → offset < length n.log
      → args.prev_log_index ≡ n.snapshot_index + offset
      → All IsFilled args.entries
      → no_entries args.entries ≡ false
      → entry_at i (append_at m offset args n) ≡ (
          if leb i args.prev_log_index
          then entry_at i n
          else get_elem? args.entries (i - (args.prev_log_index + 1)))
  unfolding append_at
  entry_at-append_at offset args n i inside place filled some_entries =
      let n' = append_at m offset args n in
      let kept = take (offset + 1) n.log in
      let new =
        entries_from_args-IsFilled (args.prev_log_index + 1) args.term args.entries filled in
      let shape : n'.log ≡ kept ++ args.entries =
        rw (some_entries, append_at) (ap (λ es. kept ++ es) new) in
      let start : n'.snapshot_index ≡ n.snapshot_index = ground arith in
      let size = length-take (offset + 1) n.log in
      let off = i - n.snapshot_index in
      elim (Bool-cases (ltb i n.snapshot_index)) [
        | inl low ↦
            let low' : ltb i n'.snapshot_index ≡ true = ap (ltb i) start ∙ low in
            let old : leb i args.prev_log_index ≡ true = ground arith in
            entry_at_low i n' low' ∙ rw old (sym (entry_at_low i n low))
        | inr high ↦
            let high' : ltb i n'.snapshot_index ≡ false = ap (ltb i) start ∙ high in
            let read =
              entry_at_high i n' high'
              ∙ ap₂ (λ l k. get_elem? l (i - k)) shape start
              ∙ get_elem?-append kept args.entries off in
            elim (Bool-cases (leb i args.prev_log_index)) [
              | inl old ↦
                  let early : ltb off (length kept) ≡ true = ground (arith, size) in
                  read
                  ∙ rw (early, old)
                      (get_elem?-take (offset + 1) n.log off (ground arith)
                        ∙ sym (entry_at_high i n high))
              | inr old ↦
                  let late : ltb off (length kept) ≡ false = ground (arith, size) in
                  let there : off - length kept ≡ i - (args.prev_log_index + 1) =
                    ground (arith, size) in
                  read ∙ rw (late, old, there) refl
            ]
      ]
