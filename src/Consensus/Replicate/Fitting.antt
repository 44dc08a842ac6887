-- ===== src/Consensus/Replicate/Fitting.antt =====
-- Which call a leader makes for each peer, and that it carries the leader's own log.
use domino_jc_project.Prelude.{
  ℕ, zero, suc, ltb, refl, sym, true, false, get_elem?, ◌+◌, ◌-◌, ◌≤◌, ◌<◌, String, ◌≡◌, ap, ◌∙◌,
  Option, some, List, [], ◌∷◌, leb, str_eq, drop, subst, number_at, arith, Bool-cases, inl, inr,
  All,
}
use domino_jc_project.Consensus.Node.{LogEntry, RaftNode, PeerMap, entry_at, last_log_index}
use domino_jc_project.Consensus.Apply.{Machine}
use domino_jc_project.Consensus.Leader.{map_or_nil}
use domino_jc_project.Consensus.Log.{
  IsSound, IsPlaced, entry_at-exact, drop-IsNumbered, IsNumbered-IsPlaced,
}
use domino_jc_project.Consensus.Replicate.{
  ReplicationTask, install, append, peer_task, collect_tasks,
}
use domino_jc_project.Consensus.Sound.Append.{entry_at_high}

get_elem?-drop :
    {A : Type 0} (j : ℕ) (xs : List A) (k : ℕ) → get_elem? (drop j xs) k ≡ get_elem? xs (j + k)
get_elem?-drop zero xs k = let same : 0 + k ≡ k = omega arith in rw same refl
get_elem?-drop (suc j) [] k = refl
get_elem?-drop (suc j) (x ∷ xs) k =
    let same : suc j + k ≡ suc (j + k) = omega arith in rw same (get_elem?-drop j xs k)

module _ {S R D : Type 0} (m : Machine S R D) where
  abbrev pub next_of : RaftNode S R D → String → ℕ
  next_of n peer = number_at peer (map_or_nil m n.next_index)

  -- The task for a peer. The snapshot goes only to a peer whose next entry the log no longer has. Any other
  -- gets the leader's own entries from its next index on, all of them, with the leader's entry before
  -- them, and they are placed as a follower expects.
  pub data IsFitting (n : RaftNode S R D) (peer addr : String)
      : Option ReplicationTask → Type 0 where
    snapshot : next_of n peer ≤ n.snapshot_index → IsFitting n peer addr (some (install peer addr))
    entries :
        (prev : LogEntry) (es : List LogEntry)
        → n.snapshot_index < next_of n peer
        → prev.index + 1 ≡ next_of n peer
        → entry_at prev.index n ≡ some prev
        → ((k : ℕ) → get_elem? es k ≡ entry_at (prev.index + 1 + k) n)
        → IsPlaced (prev.index + 1) es
        → IsFitting n peer addr (some (append peer addr prev.index prev.term es n.commit_index))

  -- One task for each peer but the node itself, in the order of the peers.
  pub data AreTasks (n : RaftNode S R D) : PeerMap → List (Option ReplicationTask) → Type 0 where
    nobody : AreTasks n [] []
    itself :
        (p addr : String) (ps : PeerMap) (ts : List (Option ReplicationTask))
        → str_eq p n.node_id ≡ true
        → AreTasks n ps ts
        → AreTasks n ((p, addr) ∷ ps) ts
    another :
        (p addr : String) (t : Option ReplicationTask) (ps : PeerMap)
        (ts : List (Option ReplicationTask))
        → str_eq p n.node_id ≡ false
        → IsFitting n p addr t
        → AreTasks n ps ts
        → AreTasks n ((p, addr) ∷ ps) (t ∷ ts)

  -- What is sent from index `i` on is what the log has there.
  rest_of_log :
      (n : RaftNode S R D) (i k : ℕ)
      → n.snapshot_index ≤ i
      → get_elem? (drop (i - n.snapshot_index) n.log) k ≡ entry_at (i + k) n
  rest_of_log n i k above =
      let high : ltb (i + k) n.snapshot_index ≡ false = ground arith in
      let place : i + k - n.snapshot_index ≡ i - n.snapshot_index + k = omega arith in
      get_elem?-drop (i - n.snapshot_index) n.log k
      ∙ ap (get_elem? n.log) (sym place)
      ∙ sym (entry_at_high m (i + k) n high)

  append-IsFitting :
      (n : RaftNode S R D) (peer addr : String) (i : ℕ) (e : LogEntry) (es : List LogEntry)
      → e.index ≡ i
      → n.snapshot_index < next_of n peer
      → i + 1 ≡ next_of n peer
      → entry_at i n ≡ some e
      → ((k : ℕ) → get_elem? es k ≡ entry_at (i + 1 + k) n)
      → IsPlaced (i + 1) es
      → IsFitting n peer addr (some (append peer addr i e.term es n.commit_index))
  append-IsFitting n peer addr i e es place above next found own placed =
      subst (λ j. IsFitting n peer addr (some (append peer addr j e.term es n.commit_index))) place
        (entries e es above (ap (λ j. j + 1) place ∙ next) (ap (λ j. entry_at j n) place ∙ found)
          (λ k. own k ∙ ap (λ j. entry_at (j + 1 + k) n) (sym place))
          (subst (λ j. IsPlaced (j + 1) es) (sym place) placed))

  peer_task-IsFitting :
      (n : RaftNode S R D) (peer addr : String)
      → IsSound n
      → next_of n peer ≤ last_log_index n + 1
      → IsFitting n peer addr (peer_task m n peer addr)
  unfolding peer_task
  peer_task-IsFitting n peer addr sound bound =
      let next = next_of n peer in
      elim (Bool-cases (leb next n.snapshot_index)) [
        | inl low ↦ rw (low, peer_task) (snapshot (ground arith))
        | inr low ↦
            let above : n.snapshot_index < next = ground arith in
            let same : next - 1 + 1 ≡ next = omega arith in
            elim (entry_at-exact n (next - 1) sound) [
              | inl (out, _) ↦ absurd (omega arith)
              | inr (inl (out, _)) ↦ absurd (omega arith)
              | inr (inr (_, _, e, found, place)) ↦
                  let start : next - 1 + 1 ≡ n.snapshot_index + (next - n.snapshot_index) =
                    omega arith in
                  let numbered =
                    drop-IsNumbered n.snapshot_index (next - n.snapshot_index) n.log
                      sound.numbered in
                  rw (low, found, peer_task)
                    (append-IsFitting n peer addr (next - 1) e
                      (drop (next - n.snapshot_index) n.log) place above same found
                      (λ k.
                        rest_of_log n next k (omega arith)
                        ∙ ap (λ j. entry_at (j + k) n) (sym same))
                      (IsNumbered-IsPlaced (next - 1 + 1) _ (rw start numbered)))
            ]
      ]

  -- The tasks of a leader with a sound log, for peers whose next index is at most one past its end: one for
  -- each peer but itself. The snapshot goes to those whose next entry the log no longer has; each other
  -- peer gets the leader's own entries from its next index to the end of the log, with the index and
  -- the term of the leader's entry before them, placed as a follower expects.
  pub collect_tasks-AreTasks :
      (n : RaftNode S R D) (ps : PeerMap)
      → IsSound n
      → All (λ p. number_at p.0 (map_or_nil m n.next_index) ≤ last_log_index n + 1) ps
      → AreTasks n ps (collect_tasks m n ps)
  unfolding collect_tasks
  collect_tasks-AreTasks n [] sound _ = nobody
  collect_tasks-AreTasks n ((p, addr) ∷ ps) sound (bound, bounds) =
      let rest = collect_tasks-AreTasks n ps sound bounds in
      elim (Bool-cases (str_eq p n.node_id)) [
        | inl own ↦ rw (own, collect_tasks) (itself p addr ps _ own rest)
        | inr own ↦
            rw (own, collect_tasks)
              (another p addr (peer_task m n p addr) ps _ own
                (peer_task-IsFitting n p addr sound bound) rest)
      ]
