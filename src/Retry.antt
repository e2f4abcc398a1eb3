-- ===== src/Retry.antt =====
-- retry.rs: retries with exponential backoff. An operation is a function of the number of the call,
-- since what it returns may change from one call to the next; durations are in nanoseconds.
pub mod Backoff
pub mod Steps
pub mod Loop
pub mod Outcome
mod Tests
use memix.Base.{
  ℕ, zero, suc, ◌+◌, ◌-◌, ◌*◌, ◌^◌, min, Bool, Option, none, some, List, [], ◌∷◌, ◌++◌, ◌&&◌, ltb,
  leb, if◌then◌else◌,
}
use memix.Error.{MemixError, backoff_overflow, Result, ok, err, is_retryable}

pub record RetryConfig : Type 0 where
  pub max_retries : ℕ
  pub initial_backoff : ℕ
  pub max_backoff : ℕ

abbrev pub quick : RetryConfig
quick = record { max_retries = 3; initial_backoff = 100_000_000; max_backoff = 10_000_000_000 }

abbrev pub standard : RetryConfig
standard = record { max_retries = 5; initial_backoff = 200_000_000; max_backoff = 30_000_000_000 }

abbrev pub aggressive : RetryConfig
aggressive = record { max_retries = 10; initial_backoff = 50_000_000; max_backoff = 60_000_000_000 }

-- A `Duration` is a `u64` of seconds and some nanoseconds below a second.
abbrev pub duration_limit : ℕ
duration_limit = 2 ^ 64 * 1_000_000_000

-- `1u32.checked_shl(k)`
pub checked_shl_one : ℕ → Option ℕ
checked_shl_one k = if ltb k 32 then some (2 ^ k) else none

-- `Duration::checked_mul`
pub checked_mul : ℕ → ℕ → Option ℕ
checked_mul d m = if ltb (d * m) duration_limit then some (d * m) else none

capped : ℕ → Option ℕ → ℕ
capped max_backoff none = max_backoff
capped max_backoff (some d) = min d max_backoff

pub backoff_for_attempt : ℕ → RetryConfig → Result ℕ
unfolding checked_shl_one checked_mul capped
backoff_for_attempt attempt config = elim (checked_shl_one (attempt - 1)) [
  | none ↦ err (backoff_overflow attempt config.initial_backoff)
  | some multiplier ↦ ok (capped config.max_backoff (checked_mul config.initial_backoff multiplier))
]

-- What a run of the loop returns, how often it called the operation, and how long it slept.
pub record Run (T : Type 0) : Type 0 where
  pub result : Result T
  pub attempts : ℕ
  pub delays : List ℕ

module _ {T : Type 0} (should_retry : MemixError → Bool) (config : RetryConfig) where
  -- The loop from its head, after `attempts` calls.
  pub retry_loop : (ℕ → Result T) → ℕ → ℕ → List ℕ → Option (Run T)
  retry_loop operation zero attempts delays = none
  retry_loop operation (suc fuel) attempts delays = elim (operation (attempts + 1)) [
    | ok v ↦ some (record { result = ok v; attempts = attempts + 1; delays = delays })
    | err e ↦
        let again : Option (Run T) = elim (backoff_for_attempt (attempts + 1) config) [
          | ok d ↦ retry_loop operation fuel (attempts + 1) (delays ++ d ∷ [])
          | err b ↦ some (record { result = err b; attempts = attempts + 1; delays = delays })
        ] in
        if should_retry e && leb (attempts + 1) config.max_retries
        then again
        else some (record { result = err e; attempts = attempts + 1; delays = delays })
  ]

-- The backoff of the 33rd attempt overflows, so 33 rounds are enough for every configuration.
abbrev pub retry_fuel : ℕ
retry_fuel = 33

module _ {T : Type 0} (config : RetryConfig) where
  pub with_retry : (ℕ → Result T) → Option (Run T)
  with_retry operation = retry_loop is_retryable config operation retry_fuel 0 []

  -- The operation is handed the number of the attempt.
  pub with_retry_counted : (ℕ → ℕ → Result T) → Option (Run T)
  with_retry_counted operation =
      retry_loop is_retryable config (λ attempts. operation attempts attempts) retry_fuel 0 []

  pub with_retry_if : (ℕ → Result T) → (MemixError → Bool) → Option (Run T)
  with_retry_if operation should_retry = retry_loop should_retry config operation retry_fuel 0 []
