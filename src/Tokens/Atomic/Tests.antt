-- ===== src/Tokens/Atomic/Tests.antt =====
-- Two calls of token/tracker.rs that interleave.
use memix.Base.{
  ◌≡◌, refl, Bool, true, false, List, [], ◌∷◌, arith, number_key, text_key, pair_key, bool_key,
}
use memix.Tokens.{SessionCounters, new_counters}
use memix.Tokens.Session.{count_all}
use memix.Tokens.Atomic.{
  adds_call, finished, tries_max, Call, System, move, Steps, done, then_step, begin, advance, alone,
}
use memix.Tokens.Atomic.Interleaved.{Agrees, steps-Agrees, in_turn, Over}
use memix.Tokens.Atomic.Alone.{alone-finished}

abbrev two : Call → Call → SessionCounters → System
two a b c = record { calls = a ∷ b ∷ []; counters = c }

abbrev next : Call → SessionCounters → Call
next a c = record { tokens = a.tokens; at = (advance a.tokens false a.at c).at }

abbrev after : Call → SessionCounters → SessionCounters
after a c = (advance a.tokens false a.at c).counters

-- Each entry of the schedule says whether the first or the second call moves.
abbrev run :
    (s : System) (a b : Call) (c : SessionCounters)
    → Steps s (two a b c)
    → List Bool
    → (t : System) × Steps s t
run s a b c steps [] = (two a b c, steps)
run s a b c steps (true ∷ schedule) =
    run s (next a c) b (after a c) (then_step steps (move [] (b ∷ []) a false c)) schedule
run s a b c steps (false ∷ schedule) =
    run s a (next b c) (after b c) (then_step steps (move (a ∷ []) [] b false c)) schedule

abbrev both_begin : System
both_begin = record { calls = begin (30 ∷ 20 ∷ []); counters = new_counters }

-- Both calls read the old maximum before one of them writes, so that the other fails once.
abbrev schedule : List Bool
schedule =
    true ∷ false ∷ true ∷ false ∷ true ∷ false ∷ true ∷ false ∷ true ∷ false ∷ false ∷ true ∷ false
    ∷ true ∷ false ∷ false ∷ true ∷ []

abbrev ended : (t : System) × Steps both_begin t
ended =
    run both_begin (record { tokens = 30; at = adds_call }) (record { tokens = 20; at = adds_call })
      new_counters done schedule

ended-Over : Over ended.0.calls
unfolding advance
ended-Over = (refl, (refl, tt))

steps-Agrees_example : Agrees ended.0.counters (count_all new_counters (in_turn (30 ∷ 20 ∷ [])))
steps-Agrees_example =
    steps-Agrees (30 ∷ 20 ∷ []) ended.0 (omega arith, (omega arith, tt)) ended.1 ended-Over

alone-finished_example :
    (alone 7 50
      (record { at = tries_max 10; counters = record new_counters { ai_tokens_max = 40 } })).at
    ≡ finished
alone-finished_example =
    alone-finished 50 (tries_max 10) (record new_counters { ai_tokens_max = 40 })
