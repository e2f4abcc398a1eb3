-- ===== src/Calls.antt =====
-- observer/call_graph.rs: which functions call which, kept by caller and by callee.
pub mod Store
pub mod Loops
pub mod Latest
pub mod Callers
mod Tests
use memix.Base.{
  same_iff, ℕ, zero, suc, ◌+◌, ◌-◌, ◌*◌, ◌/◌, ◌%◌, ◌^◌, ◌≤◌, ◌<◌, min, max, String, ◌≡◌, refl, sym,
  ap, ◌∙◌, subst, ◌≢◌, ◌↔◌, ◌⊎◌, inl, inr, Bool, true, false, not, ◌&&◌, ◌||◌, Option, none, some,
  List, [], ◌∷◌, ◌++◌, map, arith, eq_iff, ltb, leb, nat_beq, if◌then◌else◌, Key, ◌==◌, number_key,
  text_key, pair_key, pair_equal_iff, bool_key, both, same, Bool-cases, Option-cases, length, drop,
  take, length-append, length-drop, keep, count, All, All-append, sum, sum-append, concat, show,
  some_inj, map-eq-some, if_keeps, insert_by, sort_by, Sorted, count-insert_by, count-sort_by,
  All-insert_by, All-sort_by, sort_by-Sorted, All-take, take-Sorted,
}
use Prim.Native.Nat.{Ordering, compare}
use Prim.Native.String.{compare as compare_text}
use memix.Dict.{dedup, Dict, insert, lookup, remove, or_else, values}

pub record ResolvedEdge : Type 0 where
  pub callee_file : String
  pub callee_symbol : String
  pub callee_line : ℕ
  pub is_method : Bool

pub record CallerSite : Type 0 where
  pub caller_file : String
  pub caller_symbol : String
  pub call_line : ℕ
  pub is_method : Bool

pub record SymbolCausalContext : Type 0 where
  pub symbol : String
  pub calls : List ResolvedEdge
  pub called_by : List CallerSite

pub record FileCausalContext : Type 0 where
  pub file : String
  pub symbols : List SymbolCausalContext
  pub total_outgoing_edges : ℕ
  pub total_incoming_edges : ℕ

abbrev pub new_unresolved : String → ResolvedEdge
new_unresolved symbol = record {
  callee_file = "";
  callee_symbol = symbol;
  callee_line = 0;
  is_method = false;
}

-- The equality that `CallerSite` derives.
abbrev pub same_site : CallerSite → CallerSite → Bool
same_site s t = both (s.caller_file == t.caller_file) (
    both (s.caller_symbol == t.caller_symbol)
      (both (s.call_line == t.call_line) (s.is_method == t.is_method)))

pub same_site_iff : (s t : CallerSite) → (same_site s t ≡ true) ↔ (s ≡ t)
same_site_iff s t = ground (
  arith,
  eq_iff s.caller_file t.caller_file,
  eq_iff s.caller_symbol t.caller_symbol,
  same_iff s.is_method t.is_method,
)

instance abbrev pub site_key : Key CallerSite
site_key = record { equal = same_site; equal_iff = same_site_iff }

abbrev pub Sites {ℓ} : Type ℓ → Type ℓ
Sites K = Dict K (List CallerSite)

pub record CallGraph : Type 0 where
  pub calls : Dict String (Dict String (List ResolvedEdge))
  pub exact_callers : Sites (String × String)
  pub symbol_callers : Sites String

abbrev pub new : CallGraph
new = record { calls = []; exact_callers = []; symbol_callers = [] }

abbrev pub not_in : String → CallerSite → Bool
not_in file s = not (s.caller_file == file)

abbrev pub is_nil : List CallerSite → Bool
is_nil [] = true
is_nil (s ∷ ss) = false

module _ {ℓ} {K : Type ℓ} where
  -- `for list in m.values_mut() { list.retain(..) }`
  pub retain_values : String → Sites K → Sites K
  retain_values file [] = []
  retain_values file ((k, sites) ∷ m) = (k, keep (not_in file) sites) ∷ retain_values file m

  -- `m.retain(|_, callers| !callers.is_empty())`
  pub drop_empty : Sites K → Sites K
  drop_empty [] = []
  drop_empty ((k, sites) ∷ m) =
      let rest = drop_empty m in if is_nil sites then rest else (k, sites) ∷ rest

  pub purge : String → Sites K → Sites K
  unfolding retain_values drop_empty
  purge file m = drop_empty (retain_values file m)

-- `entry(key).or_default().push(caller)`
pub push_site {ℓ} : {K : Type ℓ} ⦃e : Key K⦄ → K → CallerSite → Sites K → Sites K
push_site key caller m = insert key (or_else [] (lookup key m) ++ caller ∷ []) m

abbrev pub site_of : String → String → ResolvedEdge → CallerSite
site_of file symbol callee = record {
  caller_file = file;
  caller_symbol = symbol;
  call_line = callee.callee_line;
  is_method = callee.is_method;
}

-- One round of the inner loop.
pub add_call : String → String → ResolvedEdge → CallGraph → CallGraph
unfolding push_site
add_call file symbol callee g = record g {
  exact_callers =
      if callee.callee_file == ""
      then g.exact_callers
      else push_site (callee.callee_file, callee.callee_symbol) (site_of file symbol callee)
          g.exact_callers;
  symbol_callers = push_site callee.callee_symbol (site_of file symbol callee) g.symbol_callers;
}

pub add_calls : String → String → List ResolvedEdge → CallGraph → CallGraph
unfolding add_call
add_calls file symbol [] g = g
add_calls file symbol (c ∷ cs) g = add_calls file symbol cs (add_call file symbol c g)

abbrev pub Symbols : Type 0
Symbols = List (String × List ResolvedEdge)

-- The outer loop, on the graph and on `file_calls`.
pub add_symbols :
    String
    → Symbols
    → Dict String (List ResolvedEdge)
    → CallGraph
    → Dict String (List ResolvedEdge) × CallGraph
unfolding add_calls
add_symbols file [] file_calls g = (file_calls, g)
add_symbols file ((symbol, callees) ∷ rest) file_calls g =
    add_symbols file rest (insert symbol callees file_calls) (add_calls file symbol callees g)

purged : String → CallGraph → CallGraph
unfolding purge
purged file g = record g {
  exact_callers = purge file g.exact_callers;
  symbol_callers = purge file g.symbol_callers;
}

pub update_file : String → Symbols → CallGraph → CallGraph
unfolding purged add_symbols
update_file file symbols g =
    let (file_calls, after) = add_symbols file symbols [] (purged file g) in
    record after { calls = insert file file_calls after.calls }

pub remove_file : String → CallGraph → CallGraph
unfolding purged
remove_file file g = purged file (record g { calls = remove file g.calls })

pub calls_from : String → String → CallGraph → List ResolvedEdge
calls_from file symbol g = elim (lookup file g.calls) [
  | none ↦ []
  | some entries ↦ or_else [] (lookup symbol entries)
]

abbrev then_with : Ordering → Ordering → Ordering
then_with Ordering.eq o = o
then_with Ordering.lt o = Ordering.lt
then_with Ordering.gt o = Ordering.gt

abbrev is_le : Ordering → Bool
is_le Ordering.gt = false
is_le Ordering.eq = true
is_le Ordering.lt = true

abbrev pub site_le : CallerSite → CallerSite → Bool
site_le a b = is_le (
    then_with (compare_text a.caller_file b.caller_file)
      (then_with (compare_text a.caller_symbol b.caller_symbol) (compare a.call_line b.call_line)))

abbrev pub exact_sites : String → String → CallGraph → List CallerSite
exact_sites file symbol g = or_else [] (lookup (file, symbol) g.exact_callers)

abbrev pub symbol_sites : String → CallGraph → List CallerSite
symbol_sites symbol g = or_else [] (lookup symbol g.symbol_callers)

-- The callers of this function, or where none is known those of any function of its name.
pub caller_sites : String → String → CallGraph → List CallerSite
unfolding dedup
caller_sites file symbol g = dedup (
    sort_by site_le (
      if is_nil (exact_sites file symbol g)
      then symbol_sites symbol g
      else exact_sites file symbol g))

pub callers_of : String → String → CallGraph → List String
unfolding caller_sites
callers_of file symbol g = map (λ s. s.caller_symbol) (caller_sites file symbol g)

abbrev name_le : String × List ResolvedEdge → String × List ResolvedEdge → Bool
name_le a b = is_le (compare_text a.0 b.0)

pub calls_from_file : String → CallGraph → Symbols
calls_from_file file g = sort_by name_le (or_else [] (lookup file g.calls))

-- The loop of `causal_context_for_file`, on what it has so far.
pub add_contexts : String → CallGraph → Symbols → FileCausalContext → FileCausalContext
unfolding caller_sites
add_contexts file g [] c = c
add_contexts file g ((symbol, calls) ∷ rest) c =
    let called_by = caller_sites file symbol g in
    add_contexts file g rest (record c {
      symbols = c.symbols ++ record { symbol = symbol; calls = calls; called_by = called_by } ∷ [];
      total_outgoing_edges = c.total_outgoing_edges + length calls;
      total_incoming_edges = c.total_incoming_edges + length called_by;
    })

pub causal_context_for_file : String → CallGraph → FileCausalContext
unfolding add_contexts calls_from_file
causal_context_for_file file g =
    add_contexts file g (calls_from_file file g)
      (record { file = file; symbols = []; total_outgoing_edges = 0; total_incoming_edges = 0 })

pub edge_count : CallGraph → ℕ
edge_count g = sum (map (λ entries. sum (map length (values entries))) (values g.calls))

pub file_count : CallGraph → ℕ
file_count g = length g.calls
