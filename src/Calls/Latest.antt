-- ===== src/Calls/Latest.antt =====
-- The call graph of observer/call_graph.rs against the last update of each file.
use memix.Base.{
  String, ◌≡◌, refl, ◌∙◌, none, List, [], ◌∷◌, arith, eq_iff, if◌then◌else◌, ◌==◌, number_key,
  text_key, pair_key, bool_key, same, if_keeps,
}
use memix.Calls.{
  ResolvedEdge, CallerSite, CallGraph, Symbols, new, add_call, add_calls, add_symbols, update_file,
  remove_file, purged, site_of, calls_from, push_site, site_key,
}
use memix.Calls.Store.{site_in, push-NoRepeat, site_in-purge, purge-NoRepeat}
use memix.Calls.Loops.{
  called, exact_target, name_target, called-other, site_in-add_symbols, exact-step, name-step,
}
use memix.Dict.{Dict, lookup, keys, insert, or_else, contains}
use memix.Dict.Laws.{lookup-insert, lookup-remove}
use memix.Dict.Entries.{NoRepeat}

-- The symbols that the last update of each file gave.
abbrev pub Latest : Type 0
Latest = String → Symbols

abbrev pub entries_of : Symbols → Dict String (List ResolvedEdge) → Dict String (List ResolvedEdge)
entries_of [] entries = entries
entries_of ((symbol, cs) ∷ rest) entries = entries_of rest (insert symbol cs entries)

-- The keys of both maps stand once.
abbrev pub HasKeysOnce : CallGraph → Type 0
HasKeysOnce g = NoRepeat (keys g.exact_callers) × NoRepeat (keys g.symbol_callers)

pub record Mirrors (r : Latest) (g : CallGraph) : Type 0 where
  pub exact :
      (target : String × String) (s : CallerSite)
      → site_in target s g.exact_callers
        ≡ called (exact_target target) s.caller_file s (r s.caller_file)
  pub by_name :
      (name : String) (s : CallerSite)
      → site_in name s g.symbol_callers
        ≡ called (name_target name) s.caller_file s (r s.caller_file)
  pub outgoing :
      (file symbol : String)
      → calls_from file symbol g ≡ or_else [] (lookup symbol (entries_of (r file) []))
  pub keys_once : HasKeysOnce g

add_call-HasKeysOnce :
    (file symbol : String) (c : ResolvedEdge) (g : CallGraph)
    → HasKeysOnce g
    → HasKeysOnce (add_call file symbol c g)
unfolding add_call
add_call-HasKeysOnce file symbol c g n = (
  if_keeps (λ m. NoRepeat (keys m)) (c.callee_file == "") g.exact_callers
      (push_site (c.callee_file, c.callee_symbol) (site_of file symbol c) g.exact_callers)
      (λ t. n.0)
      (λ f.
        push-NoRepeat (c.callee_file, c.callee_symbol) (site_of file symbol c) g.exact_callers n.0),
  push-NoRepeat c.callee_symbol (site_of file symbol c) g.symbol_callers n.1,
)

add_calls-HasKeysOnce :
    (file symbol : String) (cs : List ResolvedEdge) (g : CallGraph)
    → HasKeysOnce g
    → HasKeysOnce (add_calls file symbol cs g)
unfolding add_calls
add_calls-HasKeysOnce file symbol [] g n = n
add_calls-HasKeysOnce file symbol (c ∷ cs) g n =
    add_calls-HasKeysOnce file symbol cs (add_call file symbol c g)
      (add_call-HasKeysOnce file symbol c g n)

add_symbols-HasKeysOnce :
    (file : String) (symbols : Symbols) (entries : Dict String (List ResolvedEdge)) (g : CallGraph)
    → HasKeysOnce g
    → HasKeysOnce ((add_symbols file symbols entries g).1)
unfolding add_symbols
add_symbols-HasKeysOnce file [] entries g n = n
add_symbols-HasKeysOnce file ((symbol, cs) ∷ rest) entries g n =
    add_symbols-HasKeysOnce file rest (insert symbol cs entries) (add_calls file symbol cs g)
      (add_calls-HasKeysOnce file symbol cs g n)

calls-add_calls :
    (file symbol : String) (cs : List ResolvedEdge) (g : CallGraph)
    → (add_calls file symbol cs g).calls ≡ g.calls
unfolding add_calls add_call
calls-add_calls file symbol [] g = refl
calls-add_calls file symbol (c ∷ cs) g = calls-add_calls file symbol cs (add_call file symbol c g)

calls-add_symbols :
    (file : String) (symbols : Symbols) (entries : Dict String (List ResolvedEdge)) (g : CallGraph)
    → ((add_symbols file symbols entries g).0 ≡ entries_of symbols entries)
      × ((add_symbols file symbols entries g).1.calls ≡ g.calls)
unfolding add_symbols
calls-add_symbols file [] entries g = (refl, refl)
calls-add_symbols file ((symbol, cs) ∷ rest) entries g =
    let (same, kept) =
      calls-add_symbols file rest (insert symbol cs entries) (add_calls file symbol cs g) in
    (same, kept ∙ calls-add_calls file symbol cs g)

lookup-none : (symbol : String) → lookup symbol (entries_of [] []) ≡ none
unfolding lookup
lookup-none symbol = refl

pub data Call : Type 0 where
  updates : String → Symbols → Call
  removes : String → Call

unfoldable pub apply : CallGraph → Call → CallGraph
apply g (updates file symbols) = update_file file symbols g
apply g (removes file) = remove_file file g

abbrev pub meaning : Latest → Call → Latest
meaning r (updates file symbols) f = if file == f then symbols else r f
meaning r (removes file) f = if file == f then [] else r f

update_file-Mirrors :
    (file : String) (symbols : Symbols) (r : Latest) (g : CallGraph)
    → Mirrors r g
    → Mirrors (meaning r (updates file symbols)) (update_file file symbols g)
unfolding update_file purged calls_from
update_file-Mirrors file symbols r g h = record {
  exact = λ target s. ground (
    arith,
    site_in-add_symbols (λ x. x.exact_callers) exact_target exact-step file symbols []
        (purged file g) target s,
    site_in-purge file target s g.exact_callers h.keys_once.0,
    h.exact target s,
    called-other (exact_target target) file s symbols,
    eq_iff file s.caller_file,
    eq_iff s.caller_file file,
  );
  by_name = λ name s. ground (
    arith,
    site_in-add_symbols (λ x. x.symbol_callers) name_target name-step file symbols []
        (purged file g) name s,
    site_in-purge file name s g.symbol_callers h.keys_once.1,
    h.by_name name s,
    called-other (name_target name) file s symbols,
    eq_iff file s.caller_file,
    eq_iff s.caller_file file,
  );
  outgoing = λ f symbol. ground (
    arith,
    lookup-insert file f entries after.calls,
    calls-add_symbols file symbols [] (purged file g),
    h.outgoing f symbol,
    eq_iff file f,
  );
  keys_once = add_symbols-HasKeysOnce file symbols [] (purged file g) (
    purge-NoRepeat file g.exact_callers h.keys_once.0,
    purge-NoRepeat file g.symbol_callers h.keys_once.1,
  );
}
  where
    entries : Dict String (List ResolvedEdge)
    entries = (add_symbols file symbols [] (purged file g)).0

    after : CallGraph
    after = (add_symbols file symbols [] (purged file g)).1

remove_file-Mirrors :
    (file : String) (r : Latest) (g : CallGraph)
    → Mirrors r g
    → Mirrors (meaning r (removes file)) (remove_file file g)
unfolding remove_file purged calls_from
remove_file-Mirrors file r g h = record {
  exact = λ target s. ground (
    arith,
    site_in-purge file target s g.exact_callers h.keys_once.0,
    h.exact target s,
    eq_iff file s.caller_file,
    eq_iff s.caller_file file,
  );
  by_name = λ name s. ground (
    arith,
    site_in-purge file name s g.symbol_callers h.keys_once.1,
    h.by_name name s,
    eq_iff file s.caller_file,
    eq_iff s.caller_file file,
  );
  outgoing = λ f symbol.
      ground (
        arith,
        lookup-remove file f g.calls,
        h.outgoing f symbol,
        lookup-none symbol,
        eq_iff file f,
      );
  keys_once = (
    purge-NoRepeat file g.exact_callers h.keys_once.0,
    purge-NoRepeat file g.symbol_callers h.keys_once.1,
  );
}

apply-Mirrors :
    (c : Call) (r : Latest) (g : CallGraph) → Mirrors r g → Mirrors (meaning r c) (apply g c)
unfolding apply
apply-Mirrors (updates file symbols) r g h = update_file-Mirrors file symbols r g h
apply-Mirrors (removes file) r g h = remove_file-Mirrors file r g h

unfoldable pub run : CallGraph → List Call → CallGraph
run g [] = g
run g (c ∷ cs) = run (apply g c) cs

abbrev pub run_meaning : Latest → List Call → Latest
run_meaning r [] = r
run_meaning r (c ∷ cs) = run_meaning (meaning r c) cs

run-Mirrors_from :
    (cs : List Call) (r : Latest) (g : CallGraph)
    → Mirrors r g
    → Mirrors (run_meaning r cs) (run g cs)
unfolding run
run-Mirrors_from [] r g h = h
run-Mirrors_from (c ∷ cs) r g h =
    run-Mirrors_from cs (meaning r c) (apply g c) (apply-Mirrors c r g h)

-- After any sequence of `update_file` and `remove_file` on a new graph, each map of callers holds
-- under its key the sites of the calls, in the last update of each file, that the key names: by file
-- and symbol of the callee where the file is known, or by its symbol alone; and `calls_from` gives
-- the calls of a function in the last update of its file.
pub run-Mirrors : (cs : List Call) → Mirrors (run_meaning (λ f. []) cs) (run new cs)
unfolding lookup contains calls_from
run-Mirrors cs =
    run-Mirrors_from cs (λ f. []) new
      (record {
        exact = λ target s. refl;
        by_name = λ name s. refl;
        outgoing = λ f symbol. refl;
        keys_once = (tt, tt);
      })
