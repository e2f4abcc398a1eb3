-- ===== src/Error.antt =====
-- error.rs: the errors of the daemon, and which of them are worth a retry.
use memix.Base.{ℕ, String, Bool, true, false, List, ◌≡◌, refl, ◌⊎◌, inl, inr}

-- The kinds of `std::io::Error` that the source tells apart.
pub data IoErrorKind : Type 0 where
  connection_reset would_block timed_out not_connected other_kind : IoErrorKind

-- `io` and `json` keep the text that the foreign error prints; a duration is in nanoseconds.
pub data MemixError : Type 0 where
  database : String → Bool → MemixError
  http : ℕ → String → Bool → MemixError
  io : IoErrorKind → String → MemixError
  json : String → MemixError
  not_found : String → MemixError
  invalid_input : String → String → MemixError
  missing_credentials : String → List String → MemixError
  config_error : String → MemixError
  lock_timeout : String → ℕ → MemixError
  retries_exhausted : ℕ → MemixError → MemixError
  backoff_overflow : ℕ → ℕ → MemixError
  other : String → MemixError

pub data Result {ℓ} (A : Type ℓ) : Type ℓ where
  ok : A → Result A
  err : MemixError → Result A

transient : IoErrorKind → Bool
transient connection_reset = true
transient would_block = true
transient timed_out = true
transient not_connected = true
transient other_kind = false

unfoldable pub is_retryable : MemixError → Bool
unfolding transient
is_retryable (database message retryable) = retryable
is_retryable (http status message retryable) = retryable
is_retryable (io kind message) = transient kind
is_retryable (lock_timeout resource timeout_ms) = true
is_retryable (retries_exhausted attempts last_error) = is_retryable last_error
is_retryable (missing_credentials provider env_vars) = false
is_retryable (not_found resource) = false
is_retryable (invalid_input field reason) = false
is_retryable (config_error message) = false
is_retryable (json e) = false
is_retryable (backoff_overflow attempt base_delay) = false
is_retryable (other message) = false

pub Result-cases {ℓ} :
    {A : Type ℓ} (r : Result A) → ((a : A) × (r ≡ ok a)) ⊎ ((e : MemixError) × (r ≡ err e))
Result-cases (ok a) = inl (a, refl)
Result-cases (err e) = inr (e, refl)
