-- ===== src/Retry/Tests.antt =====
-- Runs of the retry loops, and the theorems about them at concrete inputs.
use memix.Base.{
  ℕ, zero, suc, ◌≡◌, refl, true, some, [], ◌∷◌, arith, number_key, text_key, pair_key, bool_key,
}
use memix.Error.{database, other, Result, ok, err, is_retryable}
use memix.Retry.{RetryConfig, Run, quick, backoff_for_attempt, with_retry, retry_loop}
use memix.Retry.Loop.{IsRun}
use memix.Retry.Outcome.{with_retry-IsRun, with_retry_exhausted}

-- The first call fails, the second succeeds.
second_works : ℕ → Result ℕ
second_works zero = err (other "no call")
second_works (suc zero) = err (database "lock" true)
second_works (suc (suc n)) = ok 42

always_fails : ℕ → Result ℕ
always_fails n = err (database "always fails" true)

abbrev short : RetryConfig
short = record { max_retries = 2; initial_backoff = 10_000_000; max_backoff = 100_000_000 }

retry_on_second :
    with_retry quick second_works
    ≡ some (record { result = ok 42; attempts = 2; delays = 100_000_000 ∷ [] })
unfolding with_retry retry_loop backoff_for_attempt second_works is_retryable
retry_on_second = refl

with_retry-IsRun_example :
    (r : Run ℕ) × (with_retry quick always_fails ≡ some r) × IsRun is_retryable quick always_fails r
with_retry-IsRun_example = with_retry-IsRun quick always_fails

with_retry_exhausted_example :
    (r : Run ℕ) × (with_retry short always_fails ≡ some r)
    × (r.attempts ≡ 3)
    × (r.result ≡ err (database "always fails" true))
unfolding always_fails is_retryable
with_retry_exhausted_example =
    with_retry_exhausted short always_fails (λ n. database "always fails" true) (λ n. refl)
      (λ n. refl) (omega arith)
