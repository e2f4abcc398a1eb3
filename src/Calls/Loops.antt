-- ===== src/Calls/Loops.antt =====
-- The loops of `update_file`, observer/call_graph.rs, against the calls that they read.
use memix.Base.{
  String, ◌≡◌, refl, Bool, true, false, ◌&&◌, List, [], ◌∷◌, arith, if◌then◌else◌, Key, ◌==◌,
  number_key, text_key, pair_key, bool_key,
}
use memix.Calls.{
  ResolvedEdge, CallerSite, CallGraph, Sites, Symbols, add_call, add_calls, add_symbols, site_of,
  same_site, site_key,
}
use memix.Calls.Store.{site_in, site_in-push}
use memix.Dict.{Dict, insert}

-- Whether `s` is the site of a wanted call among those of one function of `file`.
abbrev pub any_call :
    (ResolvedEdge → Bool) → String → CallerSite → String → List ResolvedEdge → Bool
any_call wanted file s symbol [] = false
any_call wanted file s symbol (c ∷ cs) =
    if wanted c && same_site (site_of file symbol c) s
    then true
    else any_call wanted file s symbol cs

abbrev pub called : (ResolvedEdge → Bool) → String → CallerSite → Symbols → Bool
called wanted file s [] = false
called wanted file s ((symbol, cs) ∷ rest) =
    if any_call wanted file s symbol cs then true else called wanted file s rest

abbrev pub exact_target : String × String → ResolvedEdge → Bool
exact_target target c =
    if c.callee_file == "" then false else (c.callee_file, c.callee_symbol) == target

abbrev pub name_target : String → ResolvedEdge → Bool
name_target name c = c.callee_symbol == name

any_call-other :
    (wanted : ResolvedEdge → Bool) (file : String) (s : CallerSite) (symbol : String)
    (cs : List ResolvedEdge)
    → (file == s.caller_file) ≡ false
    → any_call wanted file s symbol cs ≡ false
any_call-other wanted file s symbol [] h = refl
any_call-other wanted file s symbol (c ∷ cs) h =
    ground (arith, any_call-other wanted file s symbol cs)

pub called-other :
    (wanted : ResolvedEdge → Bool) (file : String) (s : CallerSite) (symbols : Symbols)
    → (file == s.caller_file) ≡ false
    → called wanted file s symbols ≡ false
called-other wanted file s [] h = refl
called-other wanted file s ((symbol, cs) ∷ rest) h =
    ground (arith, any_call-other wanted file s symbol cs, called-other wanted file s rest)

-- One of the two maps of callers, by what one call adds to it.
module _ {K : Type 0} ⦃e : Key K⦄ (side : CallGraph → Sites K) (target : K → ResolvedEdge → Bool)
    (step : (file symbol : String) (c : ResolvedEdge) (g : CallGraph) (k : K) (s : CallerSite)
      → site_in k s (side (add_call file symbol c g)) ≡ (
          if target k c && same_site (site_of file symbol c) s
          then true
          else site_in k s (side g))) where
  site_in-add_calls :
      (file symbol : String) (cs : List ResolvedEdge) (g : CallGraph) (k : K) (s : CallerSite)
      → site_in k s (side (add_calls file symbol cs g))
        ≡ (if any_call (target k) file s symbol cs then true else site_in k s (side g))
  unfolding add_calls
  site_in-add_calls file symbol [] g k s = refl
  site_in-add_calls file symbol (c ∷ cs) g k s = ground (
    arith,
    site_in-add_calls file symbol cs (add_call file symbol c g) k s,
    step file symbol c g k s,
  )

  pub site_in-add_symbols :
      (file : String) (symbols : Symbols) (entries : Dict String (List ResolvedEdge))
      (g : CallGraph) (k : K) (s : CallerSite)
      → site_in k s (side ((add_symbols file symbols entries g).1))
        ≡ (if called (target k) file s symbols then true else site_in k s (side g))
  unfolding add_symbols
  site_in-add_symbols file [] entries g k s = refl
  site_in-add_symbols file ((symbol, cs) ∷ rest) entries g k s = ground (
    arith,
    site_in-add_symbols file rest (insert symbol cs entries) (add_calls file symbol cs g) k s,
    site_in-add_calls file symbol cs g k s,
  )

pub exact-step :
    (file symbol : String) (c : ResolvedEdge) (g : CallGraph) (k : String × String) (s : CallerSite)
    → site_in k s ((add_call file symbol c g).exact_callers) ≡ (
        if exact_target k c && same_site (site_of file symbol c) s
        then true
        else site_in k s g.exact_callers)
unfolding add_call
exact-step file symbol c g k s = ground (
  arith,
  site_in-push (c.callee_file, c.callee_symbol) k (site_of file symbol c) s g.exact_callers,
)

pub name-step :
    (file symbol : String) (c : ResolvedEdge) (g : CallGraph) (k : String) (s : CallerSite)
    → site_in k s ((add_call file symbol c g).symbol_callers) ≡ (
        if name_target k c && same_site (site_of file symbol c) s
        then true
        else site_in k s g.symbol_callers)
unfolding add_call
name-step file symbol c g k s =
    ground (arith, site_in-push c.callee_symbol k (site_of file symbol c) s g.symbol_callers)
