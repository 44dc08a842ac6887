-- ===== src/Consensus/Wait/Fresh.antt =====
-- What a read that may go ahead knows.
use domino_jc_project.Prelude.{
  ℕ, ◌+◌, ◌≤◌, ◌≡◌, refl, String, Bool, true, false, not, ◌&&◌, Option, none, some, List, [], ◌∷◌,
  ◌⊎◌, inl, inr, leb, ◌==◌, leb→le, if◌then◌else◌, arith, Bool-cases,
}
use domino_jc_project.Consensus.Node.{PeerMap, RaftNode, is_leader}
use domino_jc_project.Consensus.Apply.{Machine}
use domino_jc_project.Consensus.Rpc.{AppendEntriesReply}
use domino_jc_project.Consensus.Leader.{election_majority}
use domino_jc_project.Consensus.Events.{Event, handle_all}
use domino_jc_project.Consensus.Wait.{
  WaitError, Answer, leadership_lost, lost_during_verification, quorum_not_confirmed, leads,
  begin_read_index, read_reply, ask_peer, ask_peers, verify, confirm_with,
  confirm_leadership_for_read, wait_for_read_index, after_confirm, after_begin,
  ensure_linearizable_read, remote_peers,
}

-- A reply that accepts the heartbeat in the term.
abbrev pub vouches : ℕ → Option AppendEntriesReply → Bool
vouches term none = false
vouches term (some r) = r.success && r.term == term

unfoldable pub vouchers : ℕ → PeerMap → (String → Answer) → ℕ
vouchers term [] answers = 0
vouchers term ((p, _) ∷ ps) answers =
    let rest = vouchers term ps answers in if vouches term (answers p).reply then rest + 1 else rest

-- With nobody to ask, or with a majority of vouchers, the node itself counted.
abbrev pub IsConfirmed : ℕ → ℕ → PeerMap → (String → Answer) → Type 0
IsConfirmed term majority peers answers =
    (peers ≡ []) ⊎ (majority ≤ 1 + vouchers term peers answers)

module _ {S R D : Type 0} where
  -- What holds of the node where there is no error.
  unfoldable pub Ensures : (RaftNode S R D → Type 0) → Option WaitError × RaftNode S R D → Type 0
  Ensures P (some e, n) = Unit
  Ensures P (none, n) = P n

  failed :
      (P : RaftNode S R D → Type 0) (e : WaitError) (n : RaftNode S R D) → Ensures P (some e, n)
  unfolding Ensures
  failed P e n = tt

  passed : (P : RaftNode S R D → Type 0) (n : RaftNode S R D) → P n → Ensures P (none, n)
  unfolding Ensures
  passed P n h = h

  if-Ensures :
      (P : RaftNode S R D → Type 0) (c : Bool) (x y : Option WaitError × RaftNode S R D)
      → (c ≡ true → Ensures P x)
      → (c ≡ false → Ensures P y)
      → Ensures P (if c then x else y)
  if-Ensures P true x y h k = h refl
  if-Ensures P false x y h k = k refl

  -- The node leads in `term` and is confirmed there.
  abbrev pub Confirms : ℕ → (String → Answer) → RaftNode S R D → Type 0
  Confirms term answers n =
      (leads term n ≡ true)
      × IsConfirmed term (election_majority n) (remote_peers n.node_id n.peer_addresses) answers

module _ {S R D : Type 0} (m : Machine S R D) where
  read_reply-le :
      (term : ℕ) (reply : Option AppendEntriesReply) (c : ℕ × RaftNode S R D)
      → (read_reply m term reply c).0 ≤ c.0 + (if vouches term reply then 1 else 0)
  unfolding read_reply
  read_reply-le term none (count, n) = omega arith
  read_reply-le term (some r) (count, n) = ground arith

  ask_peer-le :
      (term : ℕ) (a : Answer) (c : ℕ × RaftNode S R D)
      → (ask_peer m term a c).0 ≤ c.0 + (if vouches term a.reply then 1 else 0)
  unfolding ask_peer
  ask_peer-le term a (count, n) =
      let asked =
        read_reply-le term a.reply (count, handle_all m a.meanwhile (handle_all m a.before n)) in
      ground (arith, asked)

  ask_peers-le :
      (term : ℕ) (peers : PeerMap) (answers : String → Answer) (c : ℕ × RaftNode S R D)
      → (ask_peers m term peers answers c).0 ≤ c.0 + vouchers term peers answers
  unfolding ask_peers vouchers
  ask_peers-le term [] answers c = omega arith
  ask_peers-le term ((p, _) ∷ ps) answers c =
      let first = ask_peer-le term (answers p) c in
      let later = ask_peers-le term ps answers (ask_peer m term (answers p) c) in
      ground (arith, first, later)

  verify-Ensures :
      (term majority : ℕ) (c : ℕ × RaftNode S R D)
      → Ensures (λ n'. majority ≤ c.0) (verify m term majority c)
  unfolding verify
  verify-Ensures term majority (count, n) =
      if-Ensures _ (not (leads term n)) (some lost_during_verification, n) _ (λ e. failed _ _ n)
        (λ e.
          if-Ensures _ (leb majority count) (none, n) (some quorum_not_confirmed, n)
            (λ h. passed _ n (leb→le majority count h)) (λ h. failed _ _ n))

  weaken-Ensures :
      (P Q : RaftNode S R D → Type 0) (o : Option WaitError × RaftNode S R D)
      → ((n : RaftNode S R D) → P n → Q n)
      → Ensures P o
      → Ensures Q o
  unfolding Ensures
  weaken-Ensures P Q (some e, n) f h = tt
  weaken-Ensures P Q (none, n) f h = f n h

  confirm_with-Ensures :
      (peers : PeerMap) (term : ℕ) (answers : String → Answer) (n : RaftNode S R D)
      → Ensures
          (λ n'. IsConfirmed term (election_majority n) peers answers)
          (confirm_with m peers term answers n)
  unfolding confirm_with
  confirm_with-Ensures [] term answers n =
      if-Ensures _ (leads term n) (none, n) (some leadership_lost, n) (λ e. passed _ n (inl refl))
        (λ e. failed _ _ n)
  confirm_with-Ensures (p ∷ ps) term answers n =
      weaken-Ensures _ _
        (verify m term (election_majority n) (ask_peers m term (p ∷ ps) answers (1, n)))
        (λ n' h. inr (omega (arith, ask_peers-le term (p ∷ ps) answers (1, n))))
        (verify-Ensures term (election_majority n) (ask_peers m term (p ∷ ps) answers (1, n)))

  confirm_leadership_for_read-Ensures :
      (term : ℕ) (answers : String → Answer) (n : RaftNode S R D)
      → Ensures (λ n'. Confirms term answers n) (confirm_leadership_for_read m term answers n)
  unfolding confirm_leadership_for_read
  confirm_leadership_for_read-Ensures term answers n =
      if-Ensures _ (leads term n)
        (confirm_with m (remote_peers n.node_id n.peer_addresses) term answers n)
        (some leadership_lost, n)
        (λ e.
          weaken-Ensures _ _
            (confirm_with m (remote_peers n.node_id n.peer_addresses) term answers n)
            (λ n' h. (e, h)) (confirm_with-Ensures _ term answers n))
        (λ e. failed _ _ n)

  wait_for_read_index-Ensures :
      (index : ℕ) (looks : List (List Event)) (n : RaftNode S R D)
      → Ensures (λ n'. index ≤ n'.last_applied) (wait_for_read_index m index looks n)
  unfolding wait_for_read_index
  wait_for_read_index-Ensures index [] n = failed _ _ n
  wait_for_read_index-Ensures index (events ∷ more) n =
      if-Ensures _ (leb index n.last_applied) (none, n)
        (wait_for_read_index m index more (handle_all m events n))
        (λ e. passed _ n (leb→le index n.last_applied e))
        (λ e. wait_for_read_index-Ensures index more (handle_all m events n))

  after_confirm-Ensures :
      (Q : Type 0) (index : ℕ) (looks : List (List Event)) (o : Option WaitError × RaftNode S R D)
      → Ensures (λ n'. Q) o
      → Ensures (λ n'. Q × (index ≤ n'.last_applied)) (after_confirm m index looks o)
  after_confirm-Ensures Q index looks (some e, n) h = failed _ e n
  after_confirm-Ensures Q index looks (none, n) h =
      weaken-Ensures _ _ (wait_for_read_index m index looks n) (λ n' k. (unfold Ensures in h, k))
        (wait_for_read_index-Ensures index looks n)

  -- A read that may go ahead: the node led when the read began, it still led in that term when it asked the
  -- others, as many of them as make a majority with itself accepted its heartbeat in that term, unless it
  -- has no other peer, and all that was committed when the read began is applied when it ends. It holds
  -- whatever else the node meets meanwhile.
  pub ensure_linearizable_read-IsFresh :
      (answers : String → Answer) (first : List Event) (looks : List (List Event))
      (n : RaftNode S R D)
      → Ensures
          (λ n'.
            (is_leader n.state ≡ true)
            × Confirms n.current_term answers (handle_all m first n)
            × (n.commit_index ≤ n'.last_applied))
          (ensure_linearizable_read m answers first looks n)
  unfolding ensure_linearizable_read begin_read_index
  ensure_linearizable_read-IsFresh answers first looks n = elim (Bool-cases (is_leader n.state)) [
    | inl e ↦ rw e (begun e)
    | inr e ↦ rw e (failed _ _ n)
  ]
    where
      begun :
          is_leader n.state ≡ true
          → Ensures
              (λ n'.
                (true ≡ true)
                × Confirms n.current_term answers (handle_all m first n)
                × (n.commit_index ≤ n'.last_applied))
              (after_begin m n answers first looks (inr (n.commit_index, n.current_term)))
      begun e =
          let here = handle_all m first n in
          weaken-Ensures _ _
            (after_confirm m n.commit_index looks
              (confirm_leadership_for_read m n.current_term answers here))
            (λ n' h. (refl, h.0, h.1))
            (after_confirm-Ensures (Confirms n.current_term answers here) n.commit_index looks
              (confirm_leadership_for_read m n.current_term answers here)
              (confirm_leadership_for_read-Ensures n.current_term answers here))
