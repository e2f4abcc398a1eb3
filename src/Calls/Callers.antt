-- ===== src/Calls/Callers.antt =====
-- The callers that observer/call_graph.rs reports.
use memix.Base.{
  String, ◌≡◌, refl, ap, ◌∙◌, Bool, true, false, List, [], ◌∷◌, arith, if◌then◌else◌, number_key,
  text_key, pair_key, bool_key, sort_by,
}
use memix.Calls.{
  CallerSite, CallGraph, new, caller_sites, site_le, exact_sites, symbol_sites, is_nil, site_key,
}
use memix.Calls.Loops.{called, exact_target, name_target}
use memix.Calls.Latest.{Call, run, run_meaning, run-Mirrors}
use memix.Dict.{contains}
use memix.Dict.Laws.{contains-dedup, contains-sort_by, ==-refl}

-- What `caller_sites` has is what it starts from.
contains-caller_sites :
    (file symbol : String) (g : CallGraph) (s : CallerSite)
    → contains s (caller_sites file symbol g) ≡ (
        if is_nil (exact_sites file symbol g)
        then contains s (symbol_sites symbol g)
        else contains s (exact_sites file symbol g))
unfolding caller_sites
contains-caller_sites file symbol g s =
    contains-dedup s (sort_by site_le start)
    ∙ contains-sort_by site_le s start
    ∙ pick (is_nil (exact_sites file symbol g))
  where
    start : List CallerSite
    start =
        if is_nil (exact_sites file symbol g)
        then symbol_sites symbol g
        else exact_sites file symbol g

    pick :
        (b : Bool)
        → contains s (if b then symbol_sites symbol g else exact_sites file symbol g) ≡ (
            if b
            then contains s (symbol_sites symbol g)
            else contains s (exact_sites file symbol g))
    pick true = refl
    pick false = refl

is_nil-false : (s : CallerSite) (ss : List CallerSite) → contains s ss ≡ true → is_nil ss ≡ false
unfolding contains
is_nil-false s [] h = ground (arith, h)
is_nil-false s (x ∷ xs) h = refl

is_nil-true : (ss : List CallerSite) → ((s : CallerSite) → contains s ss ≡ false) → is_nil ss ≡ true
unfolding contains
is_nil-true [] h = refl
is_nil-true (x ∷ xs) h = absurd (first x xs (h x))
  where
    first : (s : CallerSite) (ss : List CallerSite) → contains s (s ∷ ss) ≡ false → ⊥
    first s ss k = ground (arith, ==-refl s, k)

-- The sites of the calls to this function of this file, in the last update of each file.
abbrev pub calls_to : String → String → List Call → CallerSite → Bool
calls_to file symbol cs s =
    called (exact_target (file, symbol)) s.caller_file s (run_meaning (λ f. []) cs s.caller_file)

abbrev pub calls_named : String → List Call → CallerSite → Bool
calls_named symbol cs s =
    called (name_target symbol) s.caller_file s (run_meaning (λ f. []) cs s.caller_file)

-- Where some call is known to lead to this function of this file, `caller_sites` gives the sites of
-- all such calls and no other.
pub caller_sites-exact :
    (file symbol : String) (cs : List Call) (known : CallerSite)
    → calls_to file symbol cs known ≡ true
    → (s : CallerSite)
    → contains s (caller_sites file symbol (run new cs)) ≡ calls_to file symbol cs s
caller_sites-exact file symbol cs known h s =
    let m = run-Mirrors cs in
    let some_known =
      is_nil-false known (exact_sites file symbol (run new cs))
        (m.exact (file, symbol) known ∙ h) in
    contains-caller_sites file symbol (run new cs) s
    ∙ ap
        (λ b.
          if b
          then contains s (symbol_sites symbol (run new cs))
          else contains s (exact_sites file symbol (run new cs)))
        some_known
    ∙ m.exact (file, symbol) s

-- Where no call is known to lead to it, `caller_sites` gives the sites of all calls to a function of
-- that name and no other.
pub caller_sites-by_name :
    (file symbol : String) (cs : List Call)
    → ((s : CallerSite) → calls_to file symbol cs s ≡ false)
    → (s : CallerSite)
    → contains s (caller_sites file symbol (run new cs)) ≡ calls_named symbol cs s
caller_sites-by_name file symbol cs h s =
    let m = run-Mirrors cs in
    let none_known =
      is_nil-true (exact_sites file symbol (run new cs)) (λ t. m.exact (file, symbol) t ∙ h t) in
    contains-caller_sites file symbol (run new cs) s
    ∙ ap
        (λ b.
          if b
          then contains s (symbol_sites symbol (run new cs))
          else contains s (exact_sites file symbol (run new cs)))
        none_known
    ∙ m.by_name symbol s
