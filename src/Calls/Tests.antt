-- ===== src/Calls/Tests.antt =====
-- The call graph on a concrete sequence of updates.
use memix.Base.{
  ◌≡◌, refl, true, false, List, [], ◌∷◌, arith, number_key, text_key, pair_key, bool_key,
}
use memix.Calls.{ResolvedEdge, CallerSite, new, caller_sites, new_unresolved, site_key}
use memix.Calls.Latest.{Call, updates, removes, Mirrors, run, run_meaning, run-Mirrors}
use memix.Calls.Callers.{calls_to, caller_sites-exact}
use memix.Dict.{contains}

abbrev to_save : ResolvedEdge
to_save = record {
  callee_file = "store.rs";
  callee_symbol = "save";
  callee_line = 12;
  is_method = true;
}

abbrev history : List Call
history =
    updates "main.rs" (("main", to_save ∷ new_unresolved "log" ∷ []) ∷ [])
    ∷ updates "old.rs" (("start", to_save ∷ []) ∷ [])
    ∷ removes "old.rs"
    ∷ []

abbrev from_main : CallerSite
from_main = record {
  caller_file = "main.rs";
  caller_symbol = "main";
  call_line = 12;
  is_method = true;
}

run-Mirrors_example : Mirrors (run_meaning (λ f. []) history) (run new history)
run-Mirrors_example = run-Mirrors history

caller_sites-exact_example :
    contains from_main (caller_sites "store.rs" "save" (run new history))
    ≡ calls_to "store.rs" "save" history from_main
caller_sites-exact_example = caller_sites-exact "store.rs" "save" history from_main refl from_main

abbrev to_log : CallerSite
to_log = record {
  caller_file = "main.rs";
  caller_symbol = "main";
  call_line = 0;
  is_method = false;
}

unknown : (s : CallerSite) → calls_to "log.rs" "log" history s ≡ false
unknown s = ground arith
