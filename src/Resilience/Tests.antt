-- ===== src/Resilience/Tests.antt =====
-- Concrete runs of the spool and of retries.
use domino_jc_project.Prelude.{ℕ, zero, suc, ◌≡◌, refl, Option, none, some, [], ◌∷◌, pos, arith}
use domino_jc_project.Resilience.Spool.{
  DeadLetterSpool, new_dead_letter_spool, spool, shift, spool_all, drain, latest, drain-spool_all,
}
use domino_jc_project.Resilience.Retry.{
  RetryConfig, default_retry_config, with_defaults, backoff_delay, backoff_exp, succeeded, Outcome,
}
use domino_jc_project.Resilience.Retry
use domino_jc_project.Resilience.Attempts.{IsExplained, retry-IsExplained}

drain-spool_all_example :
    (s : DeadLetterSpool ℕ) × (spool_all (1 ∷ 2 ∷ 3 ∷ []) (new_dead_letter_spool (pos 2)) ≡ some s)
    × (drain s ≡ (
      latest (new_dead_letter_spool {R = ℕ} (pos 2)).cap (1 ∷ 2 ∷ 3 ∷ []),
      new_dead_letter_spool (pos 2),
    ))
drain-spool_all_example = drain-spool_all (pos 2) (1 ∷ 2 ∷ 3 ∷ [])

-- The oldest record is lost.
two_are_kept :
    spool_all {R = ℕ} (1 ∷ 2 ∷ 3 ∷ []) (new_dead_letter_spool (pos 2))
    ≡ some (record { events = 2 ∷ 3 ∷ []; cap = 2 })
unfolding new_dead_letter_spool spool shift
two_are_kept = refl

abbrev no_jitter : ℕ → ℕ → ℕ
no_jitter j n = 0

-- The third call returns no error.
abbrev third : ℕ → Option ℕ
third zero = none
third (suc zero) = some 7
third (suc (suc zero)) = some 8
third n = none

abbrev never : ℕ → Option ℕ
never n = none

retry-IsExplained_example :
    IsExplained no_jitter third never never 1
      (with_defaults default_retry_config).attempts
      (with_defaults default_retry_config).most
      (Retry.retry no_jitter third never never default_retry_config)
unfolding with_defaults
retry-IsExplained_example =
    retry-IsExplained no_jitter third never never (λ j n p. p) default_retry_config
      (omega arith, omega arith, omega arith)

three_calls :
    Retry.retry no_jitter third never never default_retry_config
    ≡ record { result = succeeded; calls = 3; delays = 50000000 ∷ 100000000 ∷ [] }
unfolding Retry.retry with_defaults Retry.rounds Retry.round Retry.wait backoff_delay backoff_exp
three_calls = refl

-- With many calls allowed, the delay after call 38 overflows and Int63n panics.
call_38_panics :
    backoff_delay no_jitter
      (with_defaults (record default_retry_config { max_attempts = pos 50 }))
      38
    ≡ none
unfolding backoff_delay backoff_exp with_defaults
call_38_panics = refl

call_37_waits :
    backoff_delay no_jitter
      (with_defaults (record default_retry_config { max_attempts = pos 50 }))
      37
    ≡ some 2500000000
unfolding backoff_delay backoff_exp with_defaults
call_37_waits = refl
