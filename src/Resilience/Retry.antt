-- ===== src/Resilience/Retry.antt =====
-- pkg/resilience/retry.go: calls with growing delays between them. A duration is its count of nanoseconds in
-- an int64. What the called function returns, what the context says before a call and during a wait, and the
-- random numbers are parameters, numbered from one by the call they belong to.
use domino_jc_project.Prelude.{
  ℕ, zero, suc, ◌+◌, ◌-◌, ◌*◌, ◌/◌, ◌%◌, ◌^◌, Option, none, some, List, [], ◌∷◌, ℤ, pos, negsuc,
  ltb, ltb_ℤ, if◌then◌else◌,
}

pub record RetryConfig : Type 0 where
  pub max_attempts : ℤ
  pub base_delay : ℤ
  pub max_delay : ℤ

-- Five calls, 100 milliseconds and five seconds.
abbrev pub default_retry_config : RetryConfig
default_retry_config = record {
  max_attempts = pos 5;
  base_delay = pos 100000000;
  max_delay = pos 5000000000;
}

-- A configuration after the defaults have replaced what is not positive.
pub record Limits : Type 0 where
  pub attempts : ℕ
  pub base : ℕ
  pub most : ℕ

abbrev pub or_default : ℕ → ℤ → ℕ
or_default d (pos zero) = d
or_default d (pos (suc n)) = suc n
or_default d (negsuc n) = d

unfoldable pub with_defaults : RetryConfig → Limits
with_defaults cfg = record {
  attempts = or_default 1 cfg.max_attempts;
  base = or_default 100000000 cfg.base_delay;
  most = or_default 5000000000 cfg.max_delay;
}

-- The int64 of 64 bits.
abbrev pub to_int64 : ℕ → ℤ
to_int64 u = if ltb u 9223372036854775808 then pos u else negsuc (18446744073709551615 - u)

-- `BaseDelay * 1<<(attempt-1)`, each operation wrapped to 64 bits.
unfoldable pub backoff_exp : ℕ → ℕ → ℤ
backoff_exp base attempt =
    to_int64 ((base * (2 ^ (attempt - 1) % 18446744073709551616)) % 18446744073709551616)

pub data RetryResult (E : Type 0) : Type 0 where
  succeeded panicked : RetryResult E
  failed : E → RetryResult E

pub record Outcome (E : Type 0) : Type 0 where
  pub result : RetryResult E
  pub calls : ℕ
  pub delays : List ℕ

module _ (int63n : ℕ → ℕ → ℕ) where
  -- `none` is the panic of Int63n for an argument that is not positive.
  abbrev pub half_and_jitter : ℕ → ℕ → Option ℕ
  half_and_jitter attempt zero = none
  half_and_jitter attempt (suc n) = some (suc n + int63n attempt (suc n))

  abbrev pub jittered : ℕ → ℤ → Option ℕ
  jittered attempt (pos n) = half_and_jitter attempt (n / 2)
  jittered attempt (negsuc n) = none

  unfoldable pub backoff_delay : Limits → ℕ → Option ℕ
  backoff_delay l attempt = jittered attempt (
      if ltb_ℤ (pos l.most) (backoff_exp l.base attempt)
      then pos l.most
      else backoff_exp l.base attempt)

module _ {E : Type 0} (int63n : ℕ → ℕ → ℕ) (fn done waiting : ℕ → Option E) where
  abbrev stop : RetryResult E → ℕ → List ℕ → Outcome E
  stop r n ds = record { result = r; calls = n; delays = ds }

  abbrev pub interrupted : Option E → ℕ → ℕ → Outcome E → Outcome E
  interrupted (some e) d attempt rest = stop (failed e) attempt (d ∷ [])
  interrupted none d attempt rest = record rest { delays = d ∷ rest.delays }

  -- What follows a failed call that is not the last: the delay and the select.
  unfoldable pub wait : Option ℕ → ℕ → Outcome E → Outcome E
  wait none attempt rest = stop panicked attempt []
  wait (some d) attempt rest = interrupted (waiting attempt) d attempt rest

  -- One round: the context's error ends it, then a call without an error.
  unfoldable pub round : Option E → Option E → ℕ → (E → Outcome E) → Outcome E
  round (some e) called attempt next = stop (failed e) (attempt - 1) []
  round none none attempt next = stop succeeded attempt []
  round none (some e) attempt next = next e

  -- `left` rounds are allowed after this one.
  unfoldable pub rounds : Limits → ℕ → ℕ → Outcome E
  rounds l zero attempt =
      round (done attempt) (fn attempt) attempt (λ e. stop (failed e) attempt [])
  rounds l (suc left) attempt =
      let rest = rounds l left (suc attempt) in
      round (done attempt) (fn attempt) attempt
        (λ e. wait (backoff_delay int63n l attempt) attempt rest)

  unfoldable pub retry : RetryConfig → Outcome E
  unfolding with_defaults
  retry cfg = rounds (with_defaults cfg) ((with_defaults cfg).attempts - 1) 1
