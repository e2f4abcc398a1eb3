-- ===== src/Retry/Loop.antt =====
-- When the retry loops of retry.rs stop, and with what.
use memix.Base.{
  ℕ, zero, suc, ◌+◌, ◌-◌, ◌≤◌, ◌≡◌, refl, ◌⊎◌, inl, inr, Bool, true, false, some, List, [], ◌∷◌,
  ◌++◌, arith, Bool-cases, length, length-append, All, All-append,
}
use memix.Error.{MemixError, Result, ok, err, backoff_overflow, Result-cases}
use memix.Retry.{RetryConfig, Run, retry_loop, retry_fuel}
use memix.Retry.Steps.{step_ok, step_refused, step_spent, step_overflow, step_again}
use native.Mathlib.Decide.{dec_le}
use memix.Retry.Backoff.{backoff_early, backoff_late}

module _ {T : Type 0} (should_retry : MemixError → Bool) (config : RetryConfig)
    (operation : ℕ → Result T) where
  -- Calls 1 to n failed, each with an error worth a retry.
  abbrev pub FailedUpTo : ℕ → Type 0
  FailedUpTo n =
      (k : ℕ) → 1 ≤ k → k ≤ n → (e : MemixError) × (operation k ≡ err e) × (should_retry e ≡ true)

  -- Why the loop stopped at call `n` with `result`.
  pub data Stops (n : ℕ) (result : Result T) : Type 0 where
    success : (v : T) → operation n ≡ ok v → result ≡ ok v → Stops n result
    refused :
        (e : MemixError)
        → operation n ≡ err e
        → should_retry e ≡ false
        → result ≡ err e
        → Stops n result
    spent :
        (e : MemixError)
        → operation n ≡ err e
        → n ≡ config.max_retries + 1
        → result ≡ err e
        → Stops n result
    overflow :
        (e : MemixError)
        → operation n ≡ err e
        → n ≡ 33
        → result ≡ err (backoff_overflow n config.initial_backoff)
        → Stops n result

  pub record IsRun (r : Run T) : Type 0 where
    pub called : 1 ≤ r.attempts
    pub within : r.attempts ≤ 33
    pub allowed : r.attempts ≤ config.max_retries + 1
    pub earlier : FailedUpTo (r.attempts - 1)
    pub stops : Stops r.attempts r.result
    pub slept : length r.delays + 1 ≡ r.attempts
    pub capped : All (λ d. d ≤ config.max_backoff) r.delays

  FailedUpTo-suc :
      (n : ℕ) (e : MemixError)
      → FailedUpTo n
      → operation (n + 1) ≡ err e
      → should_retry e ≡ true
      → FailedUpTo (n + 1)
  FailedUpTo-suc n e h q s k low high = elim (dec_le k n) [
    | yes old ↦ h k low old
    | no new ↦ let last : k ≡ n + 1 = omega arith in rw last (e, q, s)
  ]

  -- The loop from its head: it ends, and what it returns is a run.
  pub retry_loop-IsRun :
      (fuel n : ℕ) (delays : List ℕ)
      → n + fuel ≡ 33
      → 1 ≤ fuel
      → n ≤ config.max_retries
      → FailedUpTo n
      → length delays ≡ n
      → All (λ d. d ≤ config.max_backoff) delays
      → (r : Run T) × (retry_loop should_retry config operation fuel n delays ≡ some r) × IsRun r
  retry_loop-IsRun zero n delays f p a h l c = absurd (omega arith)
  retry_loop-IsRun (suc fuel) n delays f p a h l c = elim (Result-cases (operation (n + 1))) [
    | inl (v, q) ↦ (
      record { result = ok v; attempts = n + 1; delays = delays },
      step_ok should_retry config operation fuel n delays v q,
      ended (ok v) (success v q refl),
    )
    | inr (e, q) ↦ elim (Bool-cases (should_retry e)) [
      | inr s ↦ (
        record { result = err e; attempts = n + 1; delays = delays },
        step_refused should_retry config operation fuel n delays e q s,
        ended (err e) (refused e q s refl),
      )
      | inl s ↦ elim (dec_le (n + 1) config.max_retries) [
        | no m ↦ (
          record { result = err e; attempts = n + 1; delays = delays },
          step_spent should_retry config operation fuel n delays e q (omega arith),
          ended (err e) (spent e q (omega arith) refl),
        )
        | yes m ↦ elim (dec_le (n + 1) 32) [
          | no late ↦ (
            record { result = err over; attempts = n + 1; delays = delays },
            step_overflow should_retry config operation fuel n delays e over q s m
                (backoff_late (n + 1) config (omega arith)),
            ended (err over) (overflow e q (omega arith) refl),
          )
          | yes early ↦
              let (d, o, b) = backoff_early (n + 1) config early in
              rw (step_again should_retry config operation fuel n delays e d q s m o) (
                retry_loop-IsRun fuel (n + 1) (delays ++ d ∷ []) (omega arith) (omega arith) m
                  (FailedUpTo-suc n e h q s) (omega (arith, length-append delays (d ∷ [])))
                  (All-append (λ d. d ≤ config.max_backoff) delays (d ∷ []) c (b, tt)))
        ]
      ]
    ]
  ]
    where
      over : MemixError
      over = backoff_overflow (n + 1) config.initial_backoff

      ended :
          (result : Result T)
          → Stops (n + 1) result
          → IsRun (record { result = result; attempts = n + 1; delays = delays })
      ended result s = record {
        called = omega arith;
        within = omega arith;
        allowed = omega arith;
        earlier = λ k low high. h k low (omega arith);
        stops = s;
        slept = omega arith;
        capped = c;
      }

module _ {T : Type 0} (should_retry : MemixError → Bool) (config : RetryConfig)
    (operation : ℕ → Result T) where
  pub retries-IsRun :
      (r : Run T) × (retry_loop should_retry config operation retry_fuel 0 [] ≡ some r)
      × IsRun should_retry config operation r
  retries-IsRun =
      retry_loop-IsRun should_retry config operation retry_fuel 0 [] (omega arith) (omega arith)
        (omega arith) (λ k low high. absurd (omega arith)) refl tt

  -- At an error worth a retry, the loop stops only at its two limits.
  pub last_call_reached :
      (n : ℕ) (result : Result T) (e : MemixError)
      → operation n ≡ err e
      → should_retry e ≡ true
      → Stops should_retry config operation n result
      → ((n ≡ config.max_retries + 1) × (result ≡ err e)) ⊎ (n ≡ 33)
  last_call_reached n result e q s (success v o _) = absurd (cc)
  last_call_reached n result e q s (refused x o f _) = absurd (grind arith)
  last_call_reached n result e q s (spent x o m r) = inl (m, grind arith)
  last_call_reached n result e q s (overflow x o m r) = inr m

  -- A run whose first n - 1 calls fail, each with an error worth a retry, reaches call n.
  reaches :
      (n : ℕ) (r : Run T)
      → n ≤ 33
      → n ≤ config.max_retries + 1
      → FailedUpTo should_retry config operation (n - 1)
      → IsRun should_retry config operation r
      → n ≤ r.attempts
  reaches n r small allowed failed run = elim (dec_le n r.attempts) [
    | yes h ↦ h
    | no h ↦
        let (e, q, s) = failed r.attempts run.called (omega arith) in
        absurd (omega (arith, last_call_reached r.attempts r.result e q s run.stops))
  ]

  -- The first success within the limits is returned, at its own call.
  pub first_success :
      (n : ℕ) (v : T)
      → 1 ≤ n
      → n ≤ 33
      → n ≤ config.max_retries + 1
      → FailedUpTo should_retry config operation (n - 1)
      → operation n ≡ ok v
      → (r : Run T) × (retry_loop should_retry config operation retry_fuel 0 [] ≡ some r)
        × (r.result ≡ ok v)
        × (r.attempts ≡ n)
  first_success n v one small allowed failed q =
      let (r, t, run) = retries-IsRun in
      let at : r.attempts ≡ n = elim (dec_le r.attempts n) [
        | yes h ↦ omega (arith, reaches n r small allowed failed run)
        | no h ↦ let (e, o, s) = run.earlier n one (omega arith) in absurd (cc)
      ] in
      (r, t, returned r.attempts r.result at run.stops, at)
    where
      returned :
          (m : ℕ) (result : Result T)
          → m ≡ n
          → Stops should_retry config operation m result
          → result ≡ ok v
      returned m result e (success w o r) = cc
      returned m result e (refused x o f r) = absurd (cc)
      returned m result e (spent x o l r) = absurd (cc)
      returned m result e (overflow x o l r) = absurd (cc)
