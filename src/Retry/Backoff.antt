-- ===== src/Retry/Backoff.antt =====
-- The delay before each retry (backoff_for_attempt in retry.rs).
use native.Mathlib.Nat.{pow-le-pow_right, mul-le-mul_left}
use native.Mathlib.Decide.{dec_le}
use memix.Base.{ℕ, ◌-◌, ◌*◌, ◌^◌, ◌≤◌, ◌<◌, min, ◌≡◌, arith}
use memix.Error.{ok, err, backoff_overflow}
use memix.Retry.{RetryConfig, duration_limit, backoff_for_attempt, capped, checked_mul}

-- Up to attempt 32, with a cap that is a duration, the delay is
-- `initial_backoff * 2 ^ (attempt - 1)`, cut off at `max_backoff`.
pub backoff_exact :
    (attempt : ℕ) (config : RetryConfig)
    → attempt ≤ 32
    → config.max_backoff < duration_limit
    → backoff_for_attempt attempt config
      ≡ ok (min (config.initial_backoff * 2 ^ (attempt - 1)) config.max_backoff)
unfolding backoff_for_attempt
backoff_exact attempt config h l = ground arith

pub backoff_late :
    (attempt : ℕ) (config : RetryConfig)
    → 32 < attempt
    → backoff_for_attempt attempt config ≡ err (backoff_overflow attempt config.initial_backoff)
unfolding backoff_for_attempt
backoff_late attempt config h = ground arith

-- Whatever the cap, an early attempt gets a delay below it.
pub backoff_early :
    (attempt : ℕ) (config : RetryConfig)
    → attempt ≤ 32
    → (d : ℕ) × (backoff_for_attempt attempt config ≡ ok d) × (d ≤ config.max_backoff)
unfolding backoff_for_attempt
backoff_early attempt config h =
    let d = capped config.max_backoff (checked_mul config.initial_backoff (2 ^ (attempt - 1))) in
    (d, ground arith, ground arith)

doubled : (i j : ℕ) → i ≤ j → 2 ^ i ≤ 2 ^ j
doubled i j h = pow-le-pow_right (omega arith) h

-- The delays of two attempts are in the order of the attempts.
pub backoff_mono :
    (a b c d : ℕ) (config : RetryConfig)
    → a ≤ b
    → config.max_backoff < duration_limit
    → backoff_for_attempt a config ≡ ok c
    → backoff_for_attempt b config ≡ ok d
    → c ≤ d
backoff_mono a b c d config h l p q = elim (dec_le b 32) [
  | yes early ↦
      let scaled = mul-le-mul_left config.initial_backoff (doubled (a - 1) (b - 1) (omega arith)) in
      ground (arith, backoff_exact a config (omega arith) l, backoff_exact b config early l, scaled)
  | no late ↦ cc (backoff_late b config (omega arith))
]
