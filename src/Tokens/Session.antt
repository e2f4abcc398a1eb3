-- ===== src/Tokens/Session.antt =====
-- The counters of a session, token/tracker.rs, against the calls that it recorded.
use memix.Base.{
  ℕ, ◌+◌, ◌-◌, ◌%◌, ◌^◌, ◌≤◌, min, max, ◌≡◌, List, [], ◌∷◌, arith, number_key, text_key, pair_key,
  bool_key, length, All, sum,
}
use memix.Tokens.{
  SessionCounters, new_counters, record_context_compilation, record_ai_call, raise_max, lower_min,
  u64_max,
}

pub data Event : Type 0 where
  compiles : (tokens naive_estimate : ℕ) → Event
  calls_ai : (tokens : ℕ) → Event

unfoldable pub count_event : SessionCounters → Event → SessionCounters
count_event c (compiles tokens naive_estimate) = record_context_compilation tokens naive_estimate c
count_event c (calls_ai tokens) = record_ai_call tokens c

unfoldable pub count_all : SessionCounters → List Event → SessionCounters
count_all c [] = c
count_all c (e ∷ es) = count_all (count_event c e) es

-- The tokens of the calls of a model, latest last.
abbrev pub ai_tokens : List Event → List ℕ
ai_tokens [] = []
ai_tokens (compiles tokens naive_estimate ∷ es) = ai_tokens es
ai_tokens (calls_ai tokens ∷ es) = tokens ∷ ai_tokens es

abbrev pub highest : List ℕ → ℕ
highest [] = 0
highest (n ∷ ns) = max n (highest ns)

abbrev pub lowest : List ℕ → ℕ
lowest [] = u64_max
lowest (n ∷ ns) = min n (lowest ns)

abbrev pub compiled : List Event → ℕ
compiled [] = 0
compiled (compiles tokens naive_estimate ∷ es) = tokens + compiled es
compiled (calls_ai tokens ∷ es) = compiled es

abbrev pub saved : List Event → ℕ
saved [] = 0
saved (compiles tokens naive_estimate ∷ es) = (naive_estimate - tokens) + saved es
saved (calls_ai tokens ∷ es) = saved es

-- All numbers that a call takes are `u64`.
abbrev pub IsU64 : Event → Type 0
IsU64 (compiles tokens naive_estimate) = (tokens ≤ u64_max) × (naive_estimate ≤ u64_max)
IsU64 (calls_ai tokens) = tokens ≤ u64_max

-- The counters after the events `es` from the counters `c`.
pub record Counts (c : SessionCounters) (es : List Event) (d : SessionCounters) : Type 0 where
  pub consumed : d.ai_tokens_consumed ≡ (c.ai_tokens_consumed + sum (ai_tokens es)) % 2 ^ 64
  pub calls : d.ai_calls ≡ (c.ai_calls + length (ai_tokens es)) % 2 ^ 64
  pub largest : d.ai_tokens_max ≡ max c.ai_tokens_max (highest (ai_tokens es))
  pub smallest : d.ai_tokens_min ≡ min c.ai_tokens_min (lowest (ai_tokens es))
  pub tokens_compiled :
      d.context_tokens_compiled ≡ (c.context_tokens_compiled + compiled es) % 2 ^ 64
  pub tokens_saved : d.estimated_tokens_saved ≡ (c.estimated_tokens_saved + saved es) % 2 ^ 64

-- The counters are `u64`.
pub record AreU64 (c : SessionCounters) : Type 0 where
  pub consumed : c.ai_tokens_consumed ≤ u64_max
  pub calls : c.ai_calls ≤ u64_max
  pub smallest : c.ai_tokens_min ≤ u64_max
  pub tokens_compiled : c.context_tokens_compiled ≤ u64_max
  pub tokens_saved : c.estimated_tokens_saved ≤ u64_max

raise_max-max : (tokens current : ℕ) → raise_max tokens current ≡ max current tokens
unfolding raise_max
raise_max-max tokens current = ground arith

lower_min-min :
    (tokens current : ℕ)
    → tokens ≤ u64_max
    → current ≤ u64_max
    → lower_min tokens current ≡ min current tokens
unfolding lower_min
lower_min-min tokens current h k = ground (arith, h, k)

event-AreU64 : (e : Event) (c : SessionCounters) → IsU64 e → AreU64 c → AreU64 (count_event c e)
unfolding count_event record_context_compilation record_ai_call
event-AreU64 (compiles tokens naive_estimate) c u a = record {
  consumed = a.consumed;
  calls = a.calls;
  smallest = a.smallest;
  tokens_compiled = omega arith;
  tokens_saved = omega arith;
}
event-AreU64 (calls_ai tokens) c u a = record {
  consumed = omega arith;
  calls = omega arith;
  smallest = omega (arith, lower_min-min tokens c.ai_tokens_min u a.smallest, u, a.smallest);
  tokens_compiled = a.tokens_compiled;
  tokens_saved = a.tokens_saved;
}

count_all-Counts_from :
    (es : List Event) (c : SessionCounters) → All IsU64 es → AreU64 c → Counts c es (count_all c es)
unfolding count_all count_event record_context_compilation record_ai_call
count_all-Counts_from [] c u a = record {
  consumed = omega (arith, a.consumed);
  calls = omega (arith, a.calls);
  largest = omega arith;
  smallest = omega (arith, a.smallest);
  tokens_compiled = omega (arith, a.tokens_compiled);
  tokens_saved = omega (arith, a.tokens_saved);
}
count_all-Counts_from (compiles tokens naive_estimate ∷ es) c u a =
    let rest =
      count_all-Counts_from es (record_context_compilation tokens naive_estimate c) u.1
        (event-AreU64 (compiles tokens naive_estimate) c u.0 a) in
    record {
      consumed = rest.consumed;
      calls = rest.calls;
      largest = rest.largest;
      smallest = rest.smallest;
      tokens_compiled = omega (arith, rest.tokens_compiled);
      tokens_saved = omega (arith, rest.tokens_saved);
    }
count_all-Counts_from (calls_ai tokens ∷ es) c u a =
    let rest =
      count_all-Counts_from es (record_ai_call tokens c) u.1
        (event-AreU64 (calls_ai tokens) c u.0 a) in
    record {
      consumed = omega (arith, rest.consumed);
      calls = omega (arith, rest.calls);
      largest = omega (arith, rest.largest, raise_max-max tokens c.ai_tokens_max);
      smallest = omega (arith, rest.smallest, lower_min-min tokens c.ai_tokens_min u.0 a.smallest);
      tokens_compiled = rest.tokens_compiled;
      tokens_saved = rest.tokens_saved;
    }

-- After any calls in a session, with `u64` arguments, the counters have the sum and the number of the
-- model's tokens and their largest and smallest, `u64::MAX` where there is none, and the sums of the
-- tokens compiled and of those saved; the sums and the number are in a `u64`.
pub count_all-Counts :
    (es : List Event) → All IsU64 es → Counts new_counters es (count_all new_counters es)
count_all-Counts es u = count_all-Counts_from es new_counters u (record {
  consumed = omega arith;
  calls = omega arith;
  smallest = omega arith;
  tokens_compiled = omega arith;
  tokens_saved = omega arith;
})
