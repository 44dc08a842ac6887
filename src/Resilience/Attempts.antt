-- ===== src/Resilience/Attempts.antt =====
-- The results of Retry (pkg/resilience/retry.go), for configurations whose delays fit in an int64.
use domino_jc_project.Prelude.{
  ℕ, zero, suc, ◌+◌, ◌-◌, ◌*◌, ◌/◌, ◌%◌, ◌^◌, ◌<◌, ◌≤◌, ◌≡◌, ◌≢◌, ◌⊎◌, inl, inr, refl, Option, none,
  some, ℤ, pos, negsuc, ltb, ltb_ℤ, All, arith, true, false, if◌then◌else◌, Bool-cases, ltb→lt,
  subst, sym, ◌∙◌,
}
use domino_jc_project.Resilience.Retry.{
  Limits, Outcome, RetryResult, RetryConfig, succeeded, panicked, failed, or_default, with_defaults,
  half_and_jitter, jittered, to_int64,
}
use domino_jc_project.Resilience.Retry
use native.Mathlib.Nat.{mul-le-mul_right, mul-le-mul_left, pow-le-pow_right}

-- What Int63n promises.
abbrev pub IsRandom : (ℕ → ℕ → ℕ) → Type 0
IsRandom int63n = (j n : ℕ) → 0 < n → int63n j n < n

-- The limits are at least two nanoseconds, and the longest delay, after the last call but one, fits in an
-- int64 before it is cut.
abbrev pub IsFit : Limits → Type 0
IsFit l = (2 ≤ l.base) × (2 ≤ l.most) × (l.base * 2 ^ (l.attempts - 2) < 9223372036854775808)

backoff_exp-fit :
    (base k : ℕ)
    → 0 < base
    → base * 2 ^ k < 9223372036854775808
    → Retry.backoff_exp base (suc k) ≡ pos (base * 2 ^ k)
unfolding Retry.backoff_exp
backoff_exp-fit base k p h =
    let small : 2 ^ k ≤ base * 2 ^ k = omega (arith, mul-le-mul_right (2 ^ k) (lt→one base p)) in
    let inner : 2 ^ k % 18446744073709551616 ≡ 2 ^ k = omega arith in
    let outer : base * 2 ^ k % 18446744073709551616 ≡ base * 2 ^ k = omega arith in
    let test : ltb (base * 2 ^ k) 9223372036854775808 ≡ true = ground arith in
    let back : suc k - 1 ≡ k = omega arith in rw (back, inner, outer, test) refl
  where
    lt→one : (n : ℕ) → 0 < n → 1 ≤ n
    lt→one n q = omega arith

module _ (int63n : ℕ → ℕ → ℕ) (random : IsRandom int63n) where
  half_and_jitter-bounded :
      (j n : ℕ) → 2 ≤ n → (d : ℕ) × (half_and_jitter int63n j (n / 2) ≡ some d) × (d < n)
  half_and_jitter-bounded j n h = go (n / 2) (omega arith) (omega arith)
    where
      go : (m : ℕ) → 0 < m → m + m ≤ n → (d : ℕ) × (half_and_jitter int63n j m ≡ some d) × (d < n)
      go zero p e = absurd (omega arith)
      go (suc m) p e = (suc m + int63n j (suc m), refl, omega (arith, random j (suc m) p))

  backoff_delay-bounded :
      (l : Limits) (k : ℕ)
      → IsFit l
      → suc k < l.attempts
      → (d : ℕ) × (Retry.backoff_delay int63n l (suc k) ≡ some d) × (d < l.most)
  unfolding Retry.backoff_delay
  backoff_delay-bounded l k (b, m, f) h = rw (backoff_exp-fit l.base k (omega arith) fits) go
    where
      grown : 2 ^ 0 ≤ 2 ^ k
      grown = pow-le-pow_right {n = 2} (omega arith) {i = 0} {j = k} (omega arith)

      fits : l.base * 2 ^ k < 9223372036854775808
      fits = omega (
        arith,
        mul-le-mul_left l.base
            (pow-le-pow_right {n = 2} (omega arith) {i = k} {j = l.attempts - 2} (omega arith)),
      )

      long : 2 ≤ l.base * 2 ^ k
      long = omega (arith, mul-le-mul_left l.base grown)

      low_power : ltb_ℤ (pos l.most) (pos (l.base * 2 ^ k)) ≡ false → l.base * 2 ^ k ≤ l.most
      low_power e = ground arith

      low :
          (d : ℕ) × (half_and_jitter int63n (suc k) (l.base * 2 ^ k / 2) ≡ some d)
            × (d < l.base * 2 ^ k)
          → l.base * 2 ^ k ≤ l.most
          → (d : ℕ) × (half_and_jitter int63n (suc k) (l.base * 2 ^ k / 2) ≡ some d) × (d < l.most)
      low (d, e, q) h = (d, e, omega arith)

      go :
          (d : ℕ) × (jittered int63n (suc k) (
              if ltb_ℤ (pos l.most) (pos (l.base * 2 ^ k))
              then pos l.most
              else pos (l.base * 2 ^ k))
            ≡ some d)
          × (d < l.most)
      go = elim (Bool-cases (ltb_ℤ (pos l.most) (pos (l.base * 2 ^ k)))) [
        | inl e ↦ rw e (half_and_jitter-bounded (suc k) l.most m)
        | inr e ↦ rw e (low (half_and_jitter-bounded (suc k) (l.base * 2 ^ k) long) (low_power e))
      ]

some-ne-none : {E : Type 0} (e : E) → some e ≢ none
some-ne-none e z = cc

or_default-positive : (a : ℤ) → 0 < or_default 1 a
or_default-positive (pos zero) = omega arith
or_default-positive (pos (suc n)) = omega arith
or_default-positive (negsuc n) = omega arith

positive :
    (cfg : RetryConfig) → 1 + ((with_defaults cfg).attempts - 1) ≡ (with_defaults cfg).attempts
unfolding with_defaults
positive cfg = omega (arith, or_default-positive cfg.max_attempts)

module _ {E : Type 0} (int63n : ℕ → ℕ → ℕ) (fn done waiting : ℕ → Option E) where
  -- All calls from `first` to `last` returned an error.
  abbrev pub HaveFailed : ℕ → ℕ → Type 0
  HaveFailed first last = (i : ℕ) → first ≤ i → i ≤ last → fn i ≢ none

  -- What a result says of the `n` calls that were made, `last` being allowed.
  abbrev pub Explains : ℕ → ℕ → RetryResult E → ℕ → Type 0
  Explains first last succeeded n =
      (first ≤ n) × (n ≤ last) × (fn n ≡ none) × HaveFailed first (n - 1)
  Explains first last (failed e) n =
      HaveFailed first n
      × (((n ≡ last) × (fn n ≡ some e))
          ⊎ ((n < last) × ((done (suc n) ≡ some e) ⊎ (waiting n ≡ some e))))
  Explains first last panicked n = ⊥

  -- The result is explained and the delays are shorter than the longest.
  abbrev pub IsExplained : ℕ → ℕ → ℕ → Outcome E → Type 0
  IsExplained first last most o =
      Explains first last o.result o.calls × All (λ d. d < most) o.delays

  extend-HaveFailed :
      (k last : ℕ) → fn (suc k) ≢ none → HaveFailed (suc (suc k)) last → HaveFailed (suc k) last
  extend-HaveFailed k last h later i p q = elim (Bool-cases (ltb (suc k) i)) [
    | inl e ↦ later i (ltb→lt (suc k) i e) q
    | inr e ↦ subst (λ j. fn j ≢ none) (same e) h
  ]
    where
      same : ltb (suc k) i ≡ false → suc k ≡ i
      same e = ground arith

  extend-Explains :
      (k last : ℕ) (r : RetryResult E) (n : ℕ)
      → fn (suc k) ≢ none
      → Explains (suc (suc k)) last r n
      → Explains (suc k) last r n
  extend-Explains k last succeeded n h (p, q, e, later) =
      (omega arith, q, e, extend-HaveFailed k (n - 1) h later)
  extend-Explains k last (failed x) n h (later, why) = (extend-HaveFailed k n h later, why)
  extend-Explains k last panicked n h w = w

  failed_once : (k : ℕ) (e : E) → fn (suc k) ≡ some e → HaveFailed (suc k) (suc k)
  failed_once k e q i a b =
      subst (λ j. fn j ≢ none) (the_same i a b) (λ z. absurd (some-ne-none e (sym q ∙ z)))
    where
      the_same : (i : ℕ) → suc k ≤ i → i ≤ suc k → suc k ≡ i
      the_same i a b = omega arith

  round-IsExplained :
      (k last most : ℕ) (next : E → Outcome E) (s c : Option E)
      → suc k ≤ last
      → done (suc k) ≡ s
      → fn (suc k) ≡ c
      → ((e : E) → fn (suc k) ≡ some e → IsExplained (suc k) last most (next e))
      → IsExplained (suc k) last most (Retry.round int63n fn done waiting s c (suc k) next)
  unfolding Retry.round
  round-IsExplained k last most next (some e) c p es ec h =
      let back : k ≡ suc k - 1 = omega arith in
      (
        (
          λ i a b. absurd (omega arith),
          inr (omega arith, inl (subst (λ i. done (suc i) ≡ some e) back es)),
        ),
        tt,
      )
  round-IsExplained k last most next none none p es ec h =
      ((omega arith, p, ec, λ i a b. absurd (omega arith)), tt)
  round-IsExplained k last most next none (some e) p es ec h = h e ec

  interrupted-IsExplained :
      (k last most d : ℕ) (rest : Outcome E) (e : E) (w : Option E)
      → suc k < last
      → d < most
      → waiting (suc k) ≡ w
      → fn (suc k) ≡ some e
      → IsExplained (suc (suc k)) last most rest
      → IsExplained (suc k) last most (Retry.interrupted int63n fn done waiting w d (suc k) rest)
  interrupted-IsExplained k last most d rest e (some x) p q ew ef h =
      ((failed_once k e ef, inr (p, inr ew)), (q, tt))
  interrupted-IsExplained k last most d rest e none p q ew ef (h, ds) = (
    extend-Explains k last rest.result rest.calls (λ z. absurd (some-ne-none e (sym ef ∙ z))) h,
    (q, ds),
  )

  module _ (random : IsRandom int63n) where
    rounds-IsExplained :
        (l : Limits) (left k : ℕ)
        → IsFit l
        → suc k + left ≡ l.attempts
        → IsExplained (suc k) l.attempts l.most (Retry.rounds int63n fn done waiting l left (suc k))
    unfolding Retry.rounds Retry.wait
    rounds-IsExplained l zero k f h =
        round-IsExplained k l.attempts l.most _ (done (suc k)) (fn (suc k)) (omega arith) refl refl
          (λ e ef. ((failed_once k e ef, inl (omega arith, ef)), tt))
    rounds-IsExplained l (suc left) k f h =
        let later = rounds-IsExplained l left (suc k) f (omega arith) in
        let (d, ed, q) = backoff_delay-bounded int63n random l k f (omega arith) in
        round-IsExplained k l.attempts l.most _ (done (suc k)) (fn (suc k)) (omega arith) refl refl
          (λ e ef. rw ed (
            interrupted-IsExplained k l.attempts l.most d _ e (waiting (suc k)) (omega arith) q refl
              ef later))

    -- Where the delays fit in an int64 and the limits are not too short to be halved, `Retry` returns; no
    -- delay reaches the longest; a nil result means that a call of those allowed returned nil after all calls
    -- before it had failed; an error is the one of the last call that was allowed, or of the context, which
    -- had ended before the next call or during the wait for it, and all calls that were made had failed.
    pub retry-IsExplained :
        (cfg : RetryConfig)
        → IsFit (with_defaults cfg)
        → IsExplained 1
            (with_defaults cfg).attempts
            (with_defaults cfg).most
            (Retry.retry int63n fn done waiting cfg)
    unfolding Retry.retry
    retry-IsExplained cfg f =
        rounds-IsExplained (with_defaults cfg) ((with_defaults cfg).attempts - 1) 0 f (positive cfg)
