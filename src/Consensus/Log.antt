-- ===== src/Consensus/Log.antt =====
-- pkg/consensus/raft_node.go: a log is numbered from its snapshot on.
use domino_jc_project.Prelude.{
  ℕ, zero, suc, ◌+◌, ◌-◌, ◌≤◌, ◌<◌, ◌≡◌, refl, sym, ap, none, some, List, [], ◌∷◌, ◌++◌, ltb, inl,
  inr, ◌⊎◌, arith, Bool-cases, length, get_elem?-lt, get_elem?, take, drop,
}
use domino_jc_project.Consensus.Node.{
  LogEntry, RaftNode, sentinel, last_or, last_log_index, log_offset_for_index, entry_at,
}
use domino_jc_project.Consensus.Apply.{Machine, cut_log}
use domino_jc_project.Consensus.Rpc.{entries_from_args}

unfoldable pub IsNumbered : ℕ → List LogEntry → Type 0
IsNumbered k [] = Unit
IsNumbered k (e ∷ es) = (e.index ≡ k) × IsNumbered (suc k) es

-- The log has a first entry, that of the snapshot, and its indices are consecutive.
pub record IsSound {S R D : Type 0} (n : RaftNode S R D) : Type 0 where
  pub lower : suc zero ≤ length n.log
  pub numbered : IsNumbered n.snapshot_index n.log

pub IsNumbered-++ :
    (k : ℕ) (xs ys : List LogEntry)
    → IsNumbered k xs
    → IsNumbered (k + length xs) ys
    → IsNumbered k (xs ++ ys)
unfolding IsNumbered
IsNumbered-++ k [] ys h g = let same : k + 0 ≡ k = omega arith in rw (sym same) g
IsNumbered-++ k (x ∷ xs) ys (i, h) g = (
  i,
  IsNumbered-++ (suc k) xs ys h
      (let same : suc k + length xs ≡ k + suc (length xs) = omega arith in rw same g),
)

pub take-IsNumbered : (k j : ℕ) (xs : List LogEntry) → IsNumbered k xs → IsNumbered k (take j xs)
unfolding IsNumbered
take-IsNumbered k zero xs h = tt
take-IsNumbered k (suc j) [] h = tt
take-IsNumbered k (suc j) (x ∷ xs) (i, h) = (i, take-IsNumbered (suc k) j xs h)

pub drop-IsNumbered :
    (k j : ℕ) (xs : List LogEntry) → IsNumbered k xs → IsNumbered (k + j) (drop j xs)
unfolding IsNumbered
drop-IsNumbered k zero xs h = let same : k + 0 ≡ k = omega arith in rw same h
drop-IsNumbered k (suc j) [] h = tt
drop-IsNumbered k (suc j) (x ∷ xs) (i, h) =
    let same : k + suc j ≡ suc k + j = omega arith in rw same (drop-IsNumbered (suc k) j xs h)

pub get_elem?-IsNumbered :
    (k j : ℕ) (xs : List LogEntry) (e : LogEntry)
    → IsNumbered k xs
    → get_elem? xs j ≡ some e
    → e.index ≡ k + j
unfolding IsNumbered
get_elem?-IsNumbered k j [] e h g = absurd (ground (arith, g))
get_elem?-IsNumbered k zero (x ∷ xs) e (i, h) g = ground (arith, g)
get_elem?-IsNumbered k (suc j) (x ∷ xs) e (i, h) g =
    let rest = get_elem?-IsNumbered (suc k) j xs e h g in omega arith

last_or-IsNumbered :
    (k : ℕ) (d : LogEntry) (xs : List LogEntry)
    → suc d.index ≡ k
    → IsNumbered k xs
    → suc (last_or d xs).index ≡ k + length xs
unfolding IsNumbered
last_or-IsNumbered k d [] p h = ground arith
last_or-IsNumbered k d (x ∷ xs) p (i, h) =
    let rest = last_or-IsNumbered (suc k) x xs (ap suc i) h in omega arith

first_and_last :
    (k : ℕ) (d : LogEntry) (log : List LogEntry)
    → suc zero ≤ length log
    → IsNumbered k log
    → suc (last_or d log).index ≡ k + length log
unfolding IsNumbered
first_and_last k d [] h _ = absurd (omega arith)
first_and_last k d (x ∷ xs) h (i, rest) =
    let last = last_or-IsNumbered (suc k) x xs (ap suc i) rest in omega arith

get_elem?-none : (xs : List LogEntry) (j : ℕ) → length xs ≤ j → get_elem? xs j ≡ none
get_elem?-none [] j h = refl
get_elem?-none (x ∷ xs) zero h = absurd (omega arith)
get_elem?-none (x ∷ xs) (suc j) h = get_elem?-none xs j (omega arith)

pub get_elem?-some :
    (xs : List LogEntry) (j : ℕ) (e : LogEntry) → get_elem? xs j ≡ some e → j < length xs
get_elem?-some [] j e h = absurd (ground (arith, h))
get_elem?-some (x ∷ xs) zero e h = omega arith
get_elem?-some (x ∷ xs) (suc j) e h = let rest = get_elem?-some xs j e h in omega arith

-- An entry of a call carries the index of its place, or none.
unfoldable pub IsPlaced : ℕ → List LogEntry → Type 0
IsPlaced i [] = Unit
IsPlaced i (e ∷ es) = ((e.index ≡ 0) ⊎ (e.index ≡ i)) × IsPlaced (suc i) es

pub IsNumbered-IsPlaced : (i : ℕ) (es : List LogEntry) → IsNumbered i es → IsPlaced i es
unfolding IsNumbered IsPlaced
IsNumbered-IsPlaced i [] h = tt
IsNumbered-IsPlaced i (e ∷ es) (p, h) = (inr p, IsNumbered-IsPlaced (suc i) es h)

pub entries_from_args-IsNumbered :
    (i term : ℕ) (es : List LogEntry) → IsPlaced i es → IsNumbered i (entries_from_args i term es)
unfolding IsPlaced IsNumbered entries_from_args
entries_from_args-IsNumbered i term [] h = tt
entries_from_args-IsNumbered i term (e ∷ es) (p, h) =
    let same : i + 1 ≡ suc i = omega arith in
    (ground arith, rw same (entries_from_args-IsNumbered (suc i) term es h))

module _ {S R D : Type 0} where
  pub last_log_index-IsSound :
      (n : RaftNode S R D) → IsSound n → suc (last_log_index n) ≡ n.snapshot_index + length n.log
  unfolding last_log_index
  last_log_index-IsSound n sound =
      first_and_last n.snapshot_index (sentinel n.snapshot_index n.snapshot_term) n.log sound.lower
        sound.numbered

  -- A node finds at an index the entry of that index, and it finds one from its snapshot up to its last.
  pub entry_at-exact :
      (n : RaftNode S R D) (i : ℕ)
      → IsSound n
      → ((i < n.snapshot_index) × (entry_at i n ≡ none))
        ⊎ ((last_log_index n < i) × (entry_at i n ≡ none))
        ⊎ ((n.snapshot_index ≤ i)
            × (i ≤ last_log_index n)
            × (e : LogEntry) × (entry_at i n ≡ some e)
            × (e.index ≡ i))
  unfolding entry_at log_offset_for_index
  entry_at-exact n i sound = elim (Bool-cases (ltb i n.snapshot_index)) [
    | inl low ↦ inl (ground arith, rw (low, entry_at))
    | inr low ↦
        let bound : n.snapshot_index ≤ i = ground arith in
        let last = last_log_index-IsSound n sound in
        elim (Bool-cases (ltb (last_log_index n) i)) [
          | inl high ↦
              let past : last_log_index n < i = ground arith in
              inr (
                inl (
                  past,
                  rw (low, entry_at) (get_elem?-none n.log (i - n.snapshot_index) (omega arith)),
                ))
          | inr high ↦
              let within : i ≤ last_log_index n = ground arith in
              let (e, found) = get_elem?-lt n.log (i - n.snapshot_index) (omega arith) in
              let place =
                get_elem?-IsNumbered n.snapshot_index (i - n.snapshot_index) n.log e sound.numbered
                  found in
              inr (inr (bound, within, e, rw (low, entry_at) found, omega arith))
        ]
  ]

  pub cut_log-IsNumbered :
      (m : Machine S R D) (i t : ℕ) (n : RaftNode S R D)
      → IsNumbered n.snapshot_index n.log
      → (suc zero ≤ length (cut_log m i t n)) × IsNumbered i (cut_log m i t n)
  unfolding cut_log IsNumbered log_offset_for_index
  cut_log-IsNumbered m i t n h = elim (Bool-cases (ltb i n.snapshot_index)) [
    | inl low ↦ rw (low, cut_log) (omega arith, (refl, tt))
    | inr low ↦
        let offset = i - n.snapshot_index in
        let same : suc i ≡ n.snapshot_index + (offset + 1) = ground arith in
        rw (low, cut_log)
          (omega arith, (refl, rw same (drop-IsNumbered n.snapshot_index (offset + 1) n.log h)))
  ]
