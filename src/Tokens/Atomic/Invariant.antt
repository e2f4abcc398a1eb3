-- ===== src/Tokens/Atomic/Invariant.antt =====
-- What holds between the operations of interleaved calls of token/tracker.rs.
use memix.Base.{
  ℕ, ◌+◌, ◌%◌, ◌^◌, ◌≤◌, min, max, ◌≡◌, refl, ap, ◌∙◌, subst, Bool, not, List, [], ◌∷◌, ◌++◌, map,
  arith, ltb, leb, nat_beq, number_key, text_key, pair_key, bool_key, both, All, All-append,
  if_keeps,
}
use memix.Tokens.{new_counters, u64_max, SessionCounters}
use memix.Tokens.Atomic.{
  done, then_step, move, begin, Steps, Step, System, Call, advance, try_min, At, adds_call,
  adds_tokens, stores_last, loads_max, loads_min, finished, tries_max, tries_min, Moved, try_max,
}
use memix.Tokens.Session.{highest, lowest}

-- What a call has added so far.
abbrev pub called : At → ℕ
called adds_call = 0
called adds_tokens = 1
called stores_last = 1
called loads_max = 1
called (tries_max current) = 1
called loads_min = 1
called (tries_min current) = 1
called finished = 1

abbrev pub added : ℕ → At → ℕ
added tokens adds_call = 0
added tokens adds_tokens = 0
added tokens stores_last = tokens
added tokens loads_max = tokens
added tokens (tries_max current) = tokens
added tokens loads_min = tokens
added tokens (tries_min current) = tokens
added tokens finished = tokens

-- What a call knows of the largest and the smallest, which only rise and fall.
abbrev pub Holds : SessionCounters → ℕ → At → Type 0
Holds c tokens adds_call = Unit
Holds c tokens adds_tokens = Unit
Holds c tokens stores_last = Unit
Holds c tokens loads_max = Unit
Holds c tokens (tries_max current) = current ≤ c.ai_tokens_max
Holds c tokens loads_min = tokens ≤ c.ai_tokens_max
Holds c tokens (tries_min current) = (tokens ≤ c.ai_tokens_max) × (c.ai_tokens_min ≤ current)
Holds c tokens finished = (tokens ≤ c.ai_tokens_max) × (c.ai_tokens_min ≤ tokens)

Holds-mono :
    (c d : SessionCounters) (tokens : ℕ) (at : At)
    → c.ai_tokens_max ≤ d.ai_tokens_max
    → d.ai_tokens_min ≤ c.ai_tokens_min
    → Holds c tokens at
    → Holds d tokens at
Holds-mono c d tokens adds_call up down h = tt
Holds-mono c d tokens adds_tokens up down h = tt
Holds-mono c d tokens stores_last up down h = tt
Holds-mono c d tokens loads_max up down h = tt
Holds-mono c d tokens (tries_max current) up down h = omega arith
Holds-mono c d tokens loads_min up down h = omega arith
Holds-mono c d tokens (tries_min current) up down h = (omega (arith, h.0), omega (arith, h.1))
Holds-mono c d tokens finished up down h = (omega (arith, h.0), omega (arith, h.1))

-- What one operation does to the counters.
record Advanced (tokens : ℕ) (at : At) (c : SessionCounters) (m : Moved) : Type 0 where
  up : c.ai_tokens_max ≤ m.counters.ai_tokens_max
  up_bound : m.counters.ai_tokens_max ≤ max c.ai_tokens_max tokens
  down : m.counters.ai_tokens_min ≤ c.ai_tokens_min
  down_bound : min c.ai_tokens_min tokens ≤ m.counters.ai_tokens_min
  calls :
      (n : ℕ)
      → c.ai_calls ≡ (n + called at) % 2 ^ 64
      → m.counters.ai_calls ≡ (n + called m.at) % 2 ^ 64
  consumed :
      (n : ℕ)
      → c.ai_tokens_consumed ≡ (n + added tokens at) % 2 ^ 64
      → m.counters.ai_tokens_consumed ≡ (n + added tokens m.at) % 2 ^ 64
  holds : Holds m.counters tokens m.at

-- An operation that changes no counter.
idle-Advanced :
    (tokens : ℕ) (at next : At) (c : SessionCounters)
    → called at ≡ called next
    → added tokens at ≡ added tokens next
    → Holds c tokens next
    → Advanced tokens at c (record { at = next; counters = c })
idle-Advanced tokens at next c e e' h = record {
  up = omega arith;
  up_bound = omega arith;
  down = omega arith;
  down_bound = omega arith;
  calls = λ n q. omega (arith, e, q);
  consumed = λ n q. omega (arith, e', q);
  holds = h;
}

try_max-Advanced :
    (tokens current : ℕ) (spurious : Bool) (c : SessionCounters)
    → Holds c tokens (tries_max current)
    → Advanced tokens (tries_max current) c (try_max tokens current spurious c)
unfolding try_max
try_max-Advanced tokens current spurious c h =
    if_keeps (Advanced tokens (tries_max current) c) (ltb current tokens) _ _
      (λ larger.
        if_keeps (Advanced tokens (tries_max current) c)
          (both (not spurious) (nat_beq c.ai_tokens_max current)) _ _
          (λ won. record {
            up = ground (arith, won, larger);
            up_bound = omega arith;
            down = omega arith;
            down_bound = omega arith;
            calls = λ n q. q;
            consumed = λ n q. q;
            holds = omega arith;
          })
          (λ lost. idle-Advanced tokens _ (tries_max c.ai_tokens_max) c refl refl (omega arith)))
      (λ enough. idle-Advanced tokens _ loads_min c refl refl (ground (arith, h, enough)))

try_min-Advanced :
    (tokens current : ℕ) (spurious : Bool) (c : SessionCounters)
    → tokens ≤ u64_max
    → c.ai_tokens_min ≤ u64_max
    → Holds c tokens (tries_min current)
    → Advanced tokens (tries_min current) c (try_min tokens current spurious c)
unfolding try_min
try_min-Advanced tokens current spurious c small least h =
    if_keeps (Advanced tokens (tries_min current) c)
      (both (not (nat_beq current u64_max)) (leb current tokens)) _ _
      (λ enough. idle-Advanced tokens _ finished c refl refl (h.0, ground (arith, h.1, enough)))
      (λ smaller.
        if_keeps (Advanced tokens (tries_min current) c)
          (both (not spurious) (nat_beq c.ai_tokens_min current)) _ _
          (λ won. record {
            up = omega arith;
            up_bound = omega arith;
            down = ground (arith, won, smaller, small);
            down_bound = omega arith;
            calls = λ n q. q;
            consumed = λ n q. q;
            holds = (h.0, omega arith);
          })
          (λ lost.
            idle-Advanced tokens _ (tries_min c.ai_tokens_min) c refl refl (h.0, omega arith)))

advance-Advanced :
    (tokens : ℕ) (spurious : Bool) (at : At) (c : SessionCounters)
    → tokens ≤ u64_max
    → c.ai_tokens_min ≤ u64_max
    → Holds c tokens at
    → Advanced tokens at c (advance tokens spurious at c)
unfolding advance
advance-Advanced tokens spurious adds_call c small least h = record {
  up = omega arith;
  up_bound = omega arith;
  down = omega arith;
  down_bound = omega arith;
  calls = λ n q. omega (arith, q);
  consumed = λ n q. q;
  holds = tt;
}
advance-Advanced tokens spurious adds_tokens c small least h = record {
  up = omega arith;
  up_bound = omega arith;
  down = omega arith;
  down_bound = omega arith;
  calls = λ n q. q;
  consumed = λ n q. omega (arith, q);
  holds = tt;
}
advance-Advanced tokens spurious stores_last c small least h = record {
  up = omega arith;
  up_bound = omega arith;
  down = omega arith;
  down_bound = omega arith;
  calls = λ n q. q;
  consumed = λ n q. q;
  holds = tt;
}
advance-Advanced tokens spurious loads_max c small least h =
    idle-Advanced tokens _ (tries_max c.ai_tokens_max) c refl refl (omega arith)
advance-Advanced tokens spurious (tries_max current) c small least h =
    try_max-Advanced tokens current spurious c h
advance-Advanced tokens spurious loads_min c small least h =
    idle-Advanced tokens _ (tries_min c.ai_tokens_min) c refl refl (h, omega arith)
advance-Advanced tokens spurious (tries_min current) c small least h =
    try_min-Advanced tokens current spurious c small least h
advance-Advanced tokens spurious finished c small least h =
    idle-Advanced tokens _ finished c refl refl h

abbrev pub tokens_of : List Call → List ℕ
tokens_of calls = map (λ k. k.tokens) calls

abbrev pub called_sum : List Call → ℕ
called_sum [] = 0
called_sum (k ∷ ks) = called k.at + called_sum ks

abbrev pub added_sum : List Call → ℕ
added_sum [] = 0
added_sum (k ∷ ks) = added k.tokens k.at + added_sum ks

called_sum-append : (xs ys : List Call) → called_sum (xs ++ ys) ≡ called_sum xs + called_sum ys
called_sum-append [] ys = omega arith
called_sum-append (x ∷ xs) ys = omega (arith, called_sum-append xs ys)

added_sum-append : (xs ys : List Call) → added_sum (xs ++ ys) ≡ added_sum xs + added_sum ys
added_sum-append [] ys = omega arith
added_sum-append (x ∷ xs) ys = omega (arith, added_sum-append xs ys)

pub record Inv (ns : List ℕ) (s : System) : Type 0 where
  pub same_calls : tokens_of s.calls ≡ ns
  pub calls : s.counters.ai_calls ≡ called_sum s.calls % 2 ^ 64
  pub consumed : s.counters.ai_tokens_consumed ≡ added_sum s.calls % 2 ^ 64
  pub largest : s.counters.ai_tokens_max ≤ highest ns
  pub smallest : lowest ns ≤ s.counters.ai_tokens_min
  pub least : s.counters.ai_tokens_min ≤ u64_max
  pub holds : All (λ k. Holds s.counters k.tokens k.at) s.calls

-- A call among others.
tokens_of-moved :
    (earlier later : List Call) (call : Call) (at : At)
    → tokens_of (earlier ++ record { tokens = call.tokens; at = at } ∷ later)
      ≡ tokens_of (earlier ++ call ∷ later)
tokens_of-moved [] later call at = refl
tokens_of-moved (k ∷ ks) later call at = ap (λ ns. k.tokens ∷ ns) (tokens_of-moved ks later call at)

record Among (n : ℕ) (ns : List ℕ) : Type 0 where
  below : n ≤ highest ns
  above : lowest ns ≤ n
  small : All (λ m. m ≤ u64_max) ns → n ≤ u64_max

call-Among :
    (earlier later : List Call) (call : Call)
    → Among call.tokens (tokens_of (earlier ++ call ∷ later))
call-Among [] later call = record { below = omega arith; above = omega arith; small = λ a. a.0 }
call-Among (k ∷ ks) later call =
    let rest = call-Among ks later call in
    record {
      below = omega (arith, rest.below);
      above = omega (arith, rest.above);
      small = λ a. rest.small a.1;
    }

All-Holds_mono :
    (c d : SessionCounters) (calls : List Call)
    → c.ai_tokens_max ≤ d.ai_tokens_max
    → d.ai_tokens_min ≤ c.ai_tokens_min
    → All (λ k. Holds c k.tokens k.at) calls
    → All (λ k. Holds d k.tokens k.at) calls
All-Holds_mono c d [] up down a = tt
All-Holds_mono c d (k ∷ ks) up down a =
    (Holds-mono c d k.tokens k.at up down a.0, All-Holds_mono c d ks up down a.1)

All-parts : (P : Call → Type 0) (xs ys : List Call) → All P (xs ++ ys) → All P xs × All P ys
All-parts P [] ys a = (tt, a)
All-parts P (x ∷ xs) ys a = (let (b, c) = All-parts P xs ys a.1 in ((a.0, b), c))

pub Step-Inv :
    (ns : List ℕ) (s t : System) → All (λ n. n ≤ u64_max) ns → Step s t → Inv ns s → Inv ns t
Step-Inv ns _ _ small (move earlier later call spurious c) h =
    let among = subst (Among call.tokens) h.same_calls (call-Among earlier later call) in
    let (before, here) = All-parts (λ k. Holds c k.tokens k.at) earlier (call ∷ later) h.holds in
    let m = advance call.tokens spurious call.at c in
    let next : Call = record { tokens = call.tokens; at = m.at } in
    let r = advance-Advanced call.tokens spurious call.at c (among.small small) h.least here.0 in
    record {
      same_calls = tokens_of-moved earlier later call m.at ∙ h.same_calls;
      calls = omega (
        arith,
        r.calls (called_sum earlier + called_sum later)
            (omega (arith, h.calls, called_sum-append earlier (call ∷ later))),
        called_sum-append earlier (next ∷ later),
      );
      consumed = omega (
        arith,
        r.consumed (added_sum earlier + added_sum later)
            (omega (arith, h.consumed, added_sum-append earlier (call ∷ later))),
        added_sum-append earlier (next ∷ later),
      );
      largest = omega (arith, r.up_bound, h.largest, among.below);
      smallest = omega (arith, r.down_bound, h.smallest, among.above);
      least = omega (arith, r.down, h.least);
      holds =
          All-append (λ k. Holds m.counters k.tokens k.at) earlier (next ∷ later)
            (All-Holds_mono c m.counters earlier r.up r.down before)
            (r.holds, All-Holds_mono c m.counters later r.up r.down here.1);
    }

pub steps-Inv :
    (ns : List ℕ) (s t : System) → All (λ n. n ≤ u64_max) ns → Steps s t → Inv ns s → Inv ns t
steps-Inv ns s _ small done h = h
steps-Inv ns s u small (then_step {t} steps step) h =
    Step-Inv ns t u small step (steps-Inv ns s t small steps h)

tokens_of-begin : (ns : List ℕ) → tokens_of (begin ns) ≡ ns
tokens_of-begin [] = refl
tokens_of-begin (n ∷ ns) = ap (λ ms. n ∷ ms) (tokens_of-begin ns)

begin_sums : (ns : List ℕ) → (called_sum (begin ns) ≡ 0) × (added_sum (begin ns) ≡ 0)
begin_sums [] = (refl, refl)
begin_sums (n ∷ ns) = (omega (arith, (begin_sums ns).0), omega (arith, (begin_sums ns).1))

begin-Holds : (c : SessionCounters) (ns : List ℕ) → All (λ k. Holds c k.tokens k.at) (begin ns)
begin-Holds c [] = tt
begin-Holds c (n ∷ ns) = (tt, begin-Holds c ns)

lowest_bound : (ns : List ℕ) → lowest ns ≤ u64_max
lowest_bound [] = omega arith
lowest_bound (n ∷ ns) = omega (arith, lowest_bound ns)

pub begin-Inv : (ns : List ℕ) → Inv ns (record { calls = begin ns; counters = new_counters })
begin-Inv ns = record {
  same_calls = tokens_of-begin ns;
  calls = ground (arith, (begin_sums ns).0);
  consumed = ground (arith, (begin_sums ns).1);
  largest = omega arith;
  smallest = omega (arith, lowest_bound ns);
  least = omega arith;
  holds = begin-Holds new_counters ns;
}
