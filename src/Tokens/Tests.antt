-- ===== src/Tokens/Tests.antt =====
-- A session of token/tracker.rs with calls and flushes.
use memix.Base.{
  String, refl, true, false, List, [], ◌∷◌, arith, number_key, text_key, pair_key, bool_key, All,
}
use memix.Tokens.{TokenTracker, new_counters, default_empty}
use memix.Tokens.Session.{Event, compiles, calls_ai, IsU64, Counts, count_all, count_all-Counts}
use memix.Tokens.Lifetime.{Adds, flush_times, flush_times-Adds}

abbrev session : List Event
session = calls_ai 40 ∷ compiles 10 100 ∷ calls_ai 7 ∷ []

session_fits : All IsU64 session
session_fits = (omega arith, ((omega arith, omega arith), (omega arith, tt)))

count_all-Counts_example : Counts new_counters session (count_all new_counters session)
count_all-Counts_example = count_all-Counts session session_fits

abbrev busy : TokenTracker
busy = record (default_empty "web") {
  session = record new_counters { ai_calls = 2; ai_tokens_consumed = 47 };
}

flush_times-Adds_example :
    Adds (true ∷ false ∷ []) busy (flush_times "noon" "web" (true ∷ false ∷ []) busy)
flush_times-Adds_example = flush_times-Adds "noon" "web" true (false ∷ []) busy refl

abbrev web : String
web = "web"

abbrev api : String
api = "api"
