-- ===== src/Tokens/Atomic/Interleaved.antt =====
-- The counters of token/tracker.rs after calls that interleave.
use memix.Base.{
  ℕ, ◌≤◌, ◌≡◌, refl, ap, subst, List, [], ◌∷◌, map, arith, number_key, text_key, pair_key, bool_key,
  length, All, sum,
}
use memix.Tokens.{SessionCounters, new_counters, u64_max}
use memix.Tokens.Session.{
  Event, calls_ai, IsU64, highest, lowest, ai_tokens, count_all, count_all-Counts,
}
use memix.Tokens.Atomic.{finished, Call, System, Steps, begin}
use memix.Tokens.Atomic.Invariant.{
  Holds, tokens_of, called_sum, added_sum, called, added, begin-Inv, steps-Inv,
}

-- The same calls one after the other.
abbrev pub in_turn : List ℕ → List Event
in_turn ns = map calls_ai ns

abbrev pub Over : List Call → Type 0
Over calls = All (λ k. k.at ≡ finished) calls

Over-sums :
    (calls : List Call)
    → Over calls
    → (called_sum calls ≡ length (tokens_of calls)) × (added_sum calls ≡ sum (tokens_of calls))
Over-sums [] o = (refl, refl)
Over-sums (k ∷ ks) o = (
  omega (arith, ap called o.0, (Over-sums ks o.1).0),
  omega (arith, ap (added k.tokens) o.0, (Over-sums ks o.1).1),
)

Over-bounds :
    (c : SessionCounters) (calls : List Call)
    → c.ai_tokens_min ≤ u64_max
    → Over calls
    → All (λ k. Holds c k.tokens k.at) calls
    → (highest (tokens_of calls) ≤ c.ai_tokens_max) × (c.ai_tokens_min ≤ lowest (tokens_of calls))
Over-bounds c [] least o h = (omega arith, least)
Over-bounds c (k ∷ ks) least o h =
    let now = subst (Holds c k.tokens) o.0 h.0 in
    let rest = Over-bounds c ks least o.1 h.1 in
    (omega (arith, now.0, rest.0), omega (arith, now.1, rest.1))

ai_tokens-in_turn : (ns : List ℕ) → ai_tokens (in_turn ns) ≡ ns
ai_tokens-in_turn [] = refl
ai_tokens-in_turn (n ∷ ns) = ap (λ ms. n ∷ ms) (ai_tokens-in_turn ns)

in_turn-IsU64 : (ns : List ℕ) → All (λ n. n ≤ u64_max) ns → All IsU64 (in_turn ns)
in_turn-IsU64 [] a = tt
in_turn-IsU64 (n ∷ ns) a = (a.0, in_turn-IsU64 ns a.1)

-- The counters that the calls leave agree with those of the same calls in turn.
pub record Agrees (c d : SessionCounters) : Type 0 where
  pub calls : c.ai_calls ≡ d.ai_calls
  pub consumed : c.ai_tokens_consumed ≡ d.ai_tokens_consumed
  pub largest : c.ai_tokens_max ≡ d.ai_tokens_max
  pub smallest : c.ai_tokens_min ≡ d.ai_tokens_min

-- However the atomic operations of calls of `record_ai_call` interleave, and however often a weak
-- compare-and-exchange fails: once all calls are over, the number of calls, the tokens consumed, the
-- largest and the smallest are those that the same calls leave one after the other. The numbers of
-- tokens are in a `u64`, and the session is new.
pub steps-Agrees :
    (ns : List ℕ) (s : System)
    → All (λ n. n ≤ u64_max) ns
    → Steps (record { calls = begin ns; counters = new_counters }) s
    → Over s.calls
    → Agrees s.counters (count_all new_counters (in_turn ns))
steps-Agrees ns s small steps over =
    let h = steps-Inv ns _ s small steps (begin-Inv ns) in
    let r = count_all-Counts (in_turn ns) (in_turn-IsU64 ns small) in
    let sums = Over-sums s.calls over in
    let bounds = Over-bounds s.counters s.calls h.least over h.holds in
    let calls_left = ap length (ai_tokens-in_turn ns) in
    let sum_left = ap sum (ai_tokens-in_turn ns) in
    record {
      calls = omega (arith, h.calls, r.calls, sums.0, ap length h.same_calls, calls_left);
      consumed = omega (arith, h.consumed, r.consumed, sums.1, ap sum h.same_calls, sum_left);
      largest = omega (
        arith,
        h.largest,
        r.largest,
        bounds.0,
        ap highest h.same_calls,
        ap highest (ai_tokens-in_turn ns),
      );
      smallest = omega (
        arith,
        h.smallest,
        r.smallest,
        bounds.1,
        ap lowest h.same_calls,
        ap lowest (ai_tokens-in_turn ns),
        h.least,
      );
    }
