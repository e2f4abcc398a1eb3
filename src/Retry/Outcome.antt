-- ===== src/Retry/Outcome.antt =====
-- What the three entry points of retry.rs return.
use memix.Base.{ℕ, ◌+◌, ◌-◌, ◌≤◌, ◌≡◌, inl, inr, true, some, arith, Bool}
use memix.Error.{MemixError, Result, ok, err, is_retryable}
use memix.Retry.{RetryConfig, Run, with_retry, with_retry_counted, with_retry_if}
use memix.Retry.Loop.{FailedUpTo, IsRun, retries-IsRun, first_success, last_call_reached}

module _ {T : Type 0} (config : RetryConfig) where
  -- `with_retry` ends, whatever the operation returns: after at least one and at most 33 calls, at
  -- most one more than `max_retries`, each but the last a failure worth a retry, with a delay of at
  -- most `max_backoff` after each of those; and it stops at a success, at a failure not worth a
  -- retry, at the last call that is allowed, or with a backoff overflow at call 33.
  pub with_retry-IsRun :
      (operation : ℕ → Result T)
      → (r : Run T) × (with_retry config operation ≡ some r) × IsRun is_retryable config operation r
  unfolding with_retry
  with_retry-IsRun operation = retries-IsRun is_retryable config operation

  -- So does `with_retry_counted`, where call n is handed the number n.
  pub with_retry_counted-IsRun :
      (operation : ℕ → ℕ → Result T)
      → (r : Run T) × (with_retry_counted config operation ≡ some r)
        × IsRun is_retryable config (λ n. operation n n) r
  unfolding with_retry_counted
  with_retry_counted-IsRun operation = retries-IsRun is_retryable config (λ n. operation n n)

  -- So does `with_retry_if`, for the caller's own test of what is worth a retry.
  pub with_retry_if-IsRun :
      (operation : ℕ → Result T) (should_retry : MemixError → Bool)
      → (r : Run T) × (with_retry_if config operation should_retry ≡ some r)
        × IsRun should_retry config operation r
  unfolding with_retry_if
  with_retry_if-IsRun operation should_retry = retries-IsRun should_retry config operation

  -- If call n is the first success, the calls before it fail with errors worth a retry, and n is
  -- at most 33 and at most `max_retries + 1`, then its value is returned after n calls.
  pub with_retry_first_success :
      (operation : ℕ → Result T) (n : ℕ) (v : T)
      → 1 ≤ n
      → n ≤ 33
      → n ≤ config.max_retries + 1
      → FailedUpTo is_retryable config operation (n - 1)
      → operation n ≡ ok v
      → (r : Run T) × (with_retry config operation ≡ some r) × (r.result ≡ ok v) × (r.attempts ≡ n)
  unfolding with_retry
  with_retry_first_success operation = first_success is_retryable config operation

  -- With at most 31 retries, an operation that always fails with errors worth a retry is called
  -- `max_retries + 1` times, and the error of the last call is returned as it is: it is not wrapped
  -- in `RetriesExhausted`.
  pub with_retry_exhausted :
      (operation : ℕ → Result T) (errors : ℕ → MemixError)
      → ((n : ℕ) → operation n ≡ err (errors n))
      → ((n : ℕ) → is_retryable (errors n) ≡ true)
      → config.max_retries ≤ 31
      → (r : Run T) × (with_retry config operation ≡ some r)
        × (r.attempts ≡ config.max_retries + 1)
        × (r.result ≡ err (errors (config.max_retries + 1)))
  with_retry_exhausted operation errors fails transient few =
      let (r, t, run) = with_retry-IsRun operation in
      let n = r.attempts in
      elim (last_call_reached is_retryable config operation n r.result (errors n) (fails n)
        (transient n) run.stops) [
          | inl (m, e) ↦ (r, t, m, rw (← m) e)
          | inr m ↦ absurd (omega (arith, run.allowed))
        ]
