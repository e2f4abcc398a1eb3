-- ===== src/Retry/Steps.antt =====
-- One round of the loop, for each way that it can go.
use memix.Base.{ℕ, suc, ◌+◌, ◌≤◌, ◌<◌, ◌≡◌, Bool, true, false, some, List, [], ◌∷◌, ◌++◌, arith}
use memix.Error.{MemixError, Result, ok, err}
use memix.Retry.{RetryConfig, retry_loop, backoff_for_attempt}

module _ {T : Type 0} (should_retry : MemixError → Bool) (config : RetryConfig)
    (operation : ℕ → Result T) (fuel n : ℕ) (delays : List ℕ) where
  pub step_ok :
      (v : T)
      → operation (n + 1) ≡ ok v
      → retry_loop should_retry config operation (suc fuel) n delays
        ≡ some (record { result = ok v; attempts = n + 1; delays = delays })
  unfolding retry_loop
  step_ok v h = ground arith

  pub step_refused :
      (e : MemixError)
      → operation (n + 1) ≡ err e
      → should_retry e ≡ false
      → retry_loop should_retry config operation (suc fuel) n delays
        ≡ some (record { result = err e; attempts = n + 1; delays = delays })
  unfolding retry_loop
  step_refused e h s = ground arith

  pub step_spent :
      (e : MemixError)
      → operation (n + 1) ≡ err e
      → config.max_retries < n + 1
      → retry_loop should_retry config operation (suc fuel) n delays
        ≡ some (record { result = err e; attempts = n + 1; delays = delays })
  unfolding retry_loop
  step_spent e h s = ground arith

  pub step_overflow :
      (e b : MemixError)
      → operation (n + 1) ≡ err e
      → should_retry e ≡ true
      → n + 1 ≤ config.max_retries
      → backoff_for_attempt (n + 1) config ≡ err b
      → retry_loop should_retry config operation (suc fuel) n delays
        ≡ some (record { result = err b; attempts = n + 1; delays = delays })
  unfolding retry_loop
  step_overflow e b h s m o = ground arith

  pub step_again :
      (e : MemixError) (d : ℕ)
      → operation (n + 1) ≡ err e
      → should_retry e ≡ true
      → n + 1 ≤ config.max_retries
      → backoff_for_attempt (n + 1) config ≡ ok d
      → retry_loop should_retry config operation (suc fuel) n delays
        ≡ retry_loop should_retry config operation fuel (n + 1) (delays ++ d ∷ [])
  unfolding retry_loop
  step_again e d h s m o = ground arith
