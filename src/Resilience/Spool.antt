-- ===== src/Resilience/Spool.antt =====
-- pkg/resilience/spool.go: a bounded list of records in memory. `none` is a panic, which `s.events[1:]` is
-- for an empty list.
use domino_jc_project.Prelude.{
  ℕ, zero, suc, ◌-◌, ◌<◌, ◌≤◌, ◌≡◌, refl, subst, ap, sym, ◌∙◌, Option, none, some, List, [], ◌∷◌,
  ◌++◌, ℤ, pos, negsuc, leb, length, length-append, length-drop, drop, if◌then◌else◌, arith, leb→le,
  true, false, Bool-cases, inl, inr,
}
use mathlib.Core.List.{append_assoc, append-nil}

pub record DeadLetterSpool (R : Type 0) : Type 0 where
  pub events : List R
  pub cap : ℕ

module _ {R : Type 0} where
  unfoldable pub new_dead_letter_spool : ℤ → DeadLetterSpool R
  new_dead_letter_spool (pos zero) = record { events = []; cap = 1024 }
  new_dead_letter_spool (pos (suc n)) = record { events = []; cap = suc n }
  new_dead_letter_spool (negsuc n) = record { events = []; cap = 1024 }

  -- The records move down by one place and the last place is written.
  unfoldable pub shift : List R → R → Option (List R)
  shift [] r = none
  shift (e ∷ es) r = some (es ++ r ∷ [])

  abbrev with_events : ℕ → Option (List R) → Option (DeadLetterSpool R)
  with_events c none = none
  with_events c (some es) = some (record { events = es; cap = c })

  unfoldable pub spool : R → DeadLetterSpool R → Option (DeadLetterSpool R)
  spool r s =
      if leb s.cap (length s.events)
      then with_events s.cap (shift s.events r)
      else some (record s { events = s.events ++ r ∷ [] })

  unfoldable pub drain : DeadLetterSpool R → List R × DeadLetterSpool R
  drain s = (s.events, record s { events = [] })

  abbrev pub spool_all : List R → DeadLetterSpool R → Option (DeadLetterSpool R)
  spool_all [] s = some s
  spool_all (r ∷ rs) s = elim (spool r s) [ none ↦ none | some s' ↦ spool_all rs s' ]

  -- The last `n` of a list.
  abbrev pub latest : ℕ → List R → List R
  latest n xs = drop (length xs - n) xs

module _ {R : Type 0} where
  drop-append : (k : ℕ) (xs ys : List R) → k ≤ length xs → drop k (xs ++ ys) ≡ drop k xs ++ ys
  drop-append zero xs ys h = refl
  drop-append (suc k) [] ys h = absurd (omega arith)
  drop-append (suc k) (x ∷ xs) ys h = drop-append k xs ys (omega arith)

  shift-drop :
      (k : ℕ) (xs : List R) (r : R)
      → k < length xs
      → shift (drop k xs) r ≡ some (drop (suc k) xs ++ r ∷ [])
  unfolding shift
  shift-drop k [] r h = absurd (omega arith)
  shift-drop zero (x ∷ xs) r h = refl
  shift-drop (suc k) (x ∷ xs) r h = shift-drop k xs r (omega arith)

  shift-latest :
      (n : ℕ) (xs : List R) (r : R)
      → 0 < n
      → n ≤ length xs
      → shift (latest n xs) r ≡ some (latest n (xs ++ r ∷ []))
  shift-latest n xs r p h =
      shift-drop (length xs - n) xs r (omega arith)
      ∙ ap some (sym (drop-append (suc (length xs - n)) xs (r ∷ []) (omega arith)))
      ∙ ap (λ k. some (drop k (xs ++ r ∷ []))) {x = suc (length xs - n)}
          (omega (arith, length-append xs (r ∷ [])))

  latest-short : (n : ℕ) (xs : List R) → length xs ≤ n → latest n xs ≡ xs
  latest-short n xs h = let e : length xs - n ≡ 0 = omega arith in ap (λ k. drop k xs) e

  append-latest :
      (n : ℕ) (xs : List R) (r : R)
      → length xs < n
      → latest n xs ++ r ∷ [] ≡ latest n (xs ++ r ∷ [])
  append-latest n xs r h =
      ap (λ ys. ys ++ r ∷ []) (latest-short n xs (omega arith))
      ∙ sym (latest-short n (xs ++ r ∷ []) (omega (arith, length-append xs (r ∷ []))))

  -- With room or without, one more record leaves the last ones.
  spool-latest :
      (n : ℕ) (xs : List R) (r : R)
      → 0 < n
      → spool r (record { events = latest n xs; cap = n })
        ≡ some (record { events = latest n (xs ++ r ∷ []); cap = n })
  unfolding spool
  spool-latest n xs r p = elim (Bool-cases (leb n (length (latest n xs)))) [
    | inl e ↦ rw (e, shift-latest n xs r p (full e)) refl
    | inr e ↦ rw (e, append-latest n xs r (room e)) refl
  ]
    where
      full : leb n (length (latest n xs)) ≡ true → n ≤ length xs
      full e = omega (arith, leb→le n (length (latest n xs)) e, length-drop (length xs - n) xs)

      room : leb n (length (latest n xs)) ≡ false → length xs < n
      room e = ground (arith, length-drop (length xs - n) xs)

  spool_all-latest :
      (n : ℕ) (xs rs : List R)
      → 0 < n
      → spool_all rs (record { events = latest n xs; cap = n })
        ≡ some (record { events = latest n (xs ++ rs); cap = n })
  spool_all-latest n xs [] p = rw (append-nil xs) refl
  spool_all-latest n xs (r ∷ rs) p =
      rw (spool_all, spool-latest n xs r p)
        (spool_all-latest n (xs ++ r ∷ []) rs p
          ∙ ap (λ ys. some (record { events = latest n ys; cap = n }))
              (append_assoc xs (r ∷ []) rs))

  drain-all :
      (n : ℕ) (rs : List R)
      → 0 < n
      → (s : DeadLetterSpool R) × (spool_all rs (record { events = []; cap = n }) ≡ some s)
        × (drain s ≡ (latest n rs, record { events = []; cap = n }))
  unfolding drain
  drain-all n rs p =
      let e = spool_all-latest n [] rs p in
      (
        record { events = latest n rs; cap = n },
        subst
            (λ xs.
              spool_all rs (record { events = xs; cap = n })
              ≡ some (record { events = latest n rs; cap = n }))
            (latest-short n [] (omega arith)) e,
        refl,
      )

  -- A spool of any capacity takes any records without a panic; what it then gives back is the last of them,
  -- as many as its capacity allows, in their order, and it is as when it was made.
  pub drain-spool_all :
      (c : ℤ) (rs : List R)
      → (s : DeadLetterSpool R) × (spool_all rs (new_dead_letter_spool c) ≡ some s)
        × (drain s ≡ (latest (new_dead_letter_spool {R = R} c).cap rs, new_dead_letter_spool c))
  unfolding new_dead_letter_spool
  drain-spool_all (pos zero) rs = drain-all 1024 rs (omega arith)
  drain-spool_all (pos (suc n)) rs = drain-all (suc n) rs (omega arith)
  drain-spool_all (negsuc n) rs = drain-all 1024 rs (omega arith)
