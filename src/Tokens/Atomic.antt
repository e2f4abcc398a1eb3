-- ===== src/Tokens/Atomic.antt =====
-- token/tracker.rs, `SessionCounters::record_ai_call` as the atomic operations that it consists of, so
-- that calls of several tasks can interleave. Each move is one operation on one counter; the order of
-- `Relaxed` operations on different counters is that of the program.
pub mod Interleaved
pub mod Alone
mod Invariant
mod Tests
use memix.Base.{
  ℕ, zero, suc, ◌+◌, ◌-◌, ◌*◌, ◌/◌, ◌%◌, ◌^◌, ◌≤◌, ◌<◌, min, max, String, ◌≡◌, refl, sym, ap, ◌∙◌,
  subst, ◌≢◌, ◌↔◌, ◌⊎◌, inl, inr, Bool, true, false, not, ◌&&◌, ◌||◌, Option, none, some, List, [],
  ◌∷◌, ◌++◌, map, arith, eq_iff, ltb, leb, nat_beq, if◌then◌else◌, Key, ◌==◌, number_key, text_key,
  pair_key, pair_equal_iff, bool_key, both, same, Bool-cases, Option-cases, length, drop, take,
  length-append, length-drop, keep, count, All, All-append, sum, sum-append, concat, show, some_inj,
  map-eq-some, if-some-cases, if-eq-some, chain-eq-some, if_keeps, ℤ, pos, negsuc, negative,
  whole_units, exceeds, append_none, append_assoc, reverse, insert_by, sort_by, Sorted,
  count-insert_by, count-sort_by, All-insert_by, All-sort_by, sort_by-Sorted, All-take, take-Sorted,
  sort_by-coarse, lines, split_whitespace, trim_matches, trim, contains_text, strip_prefix, join,
  before_first,
}
use memix.Tokens.{SessionCounters, plus, u64_max}

-- The operation that a call is at; `current` is the value that its loop has last seen.
pub data At : Type 0 where
  adds_call adds_tokens stores_last loads_max loads_min finished : At
  tries_max tries_min : (current : ℕ) → At

pub record Call : Type 0 where
  pub tokens : ℕ
  pub at : At

-- A call and the counters after an operation.
pub record Moved : Type 0 where
  pub at : At
  pub counters : SessionCounters

-- `compare_exchange_weak` may fail although the values agree, which `spurious` says; a failure gives
-- the value that is there.
try_max : (tokens current : ℕ) (spurious : Bool) → SessionCounters → Moved
try_max tokens current spurious c =
    if ltb current tokens
    then (if both (not spurious) (nat_beq c.ai_tokens_max current)
        then record { at = loads_min; counters = record c { ai_tokens_max = tokens } }
        else record { at = tries_max c.ai_tokens_max; counters = c })
    else record { at = loads_min; counters = c }

try_min : (tokens current : ℕ) (spurious : Bool) → SessionCounters → Moved
try_min tokens current spurious c =
    if both (not (nat_beq current u64_max)) (leb current tokens)
    then record { at = finished; counters = c }
    else if both (not spurious) (nat_beq c.ai_tokens_min current)
    then record { at = finished; counters = record c { ai_tokens_min = tokens } }
    else record { at = tries_min c.ai_tokens_min; counters = c }

pub advance : (tokens : ℕ) (spurious : Bool) → At → SessionCounters → Moved
unfolding try_max try_min
advance tokens spurious adds_call c = record {
  at = adds_tokens;
  counters = record c { ai_calls = plus c.ai_calls 1 };
}
advance tokens spurious adds_tokens c = record {
  at = stores_last;
  counters = record c { ai_tokens_consumed = plus c.ai_tokens_consumed tokens };
}
advance tokens spurious stores_last c = record {
  at = loads_max;
  counters = record c { ai_tokens_last = tokens };
}
advance tokens spurious loads_max c = record { at = tries_max c.ai_tokens_max; counters = c }
advance tokens spurious (tries_max current) c = try_max tokens current spurious c
advance tokens spurious loads_min c = record { at = tries_min c.ai_tokens_min; counters = c }
advance tokens spurious (tries_min current) c = try_min tokens current spurious c
advance tokens spurious finished c = record { at = finished; counters = c }

-- The calls that run, and the counters that they share.
pub record System : Type 0 where
  pub calls : List Call
  pub counters : SessionCounters

-- Some call makes its next operation.
pub data Step : System → System → Type 0 where
  move :
      (earlier later : List Call) (call : Call) (spurious : Bool) (c : SessionCounters)
      → Step
          (record { calls = earlier ++ call ∷ later; counters = c })
          (record {
            calls =
                earlier
                ++ record { tokens = call.tokens; at = (advance call.tokens spurious call.at c).at }
                  ∷ later;
            counters = (advance call.tokens spurious call.at c).counters;
          })

pub data Steps : System → System → Type 0 where
  done : {s : System} → Steps s s
  then_step : {s t u : System} → Steps s t → Step t u → Steps s u

-- One call for each number of tokens, about to begin.
abbrev pub begin : List ℕ → List Call
begin [] = []
begin (n ∷ ns) = record { tokens = n; at = adds_call } ∷ begin ns

-- A call that runs by itself, without spurious failures.
pub alone : ℕ → (tokens : ℕ) → Moved → Moved
unfolding advance
alone zero tokens m = m
alone (suc n) tokens m = alone n tokens (advance tokens false m.at m.counters)
