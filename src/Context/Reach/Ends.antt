-- ===== src/Context/Reach/Ends.antt =====
-- The search of relevant files of context/mod.rs ends: each round takes one file out of the queue, and
-- what comes in is mentioned by the graph and was not seen.
use memix.Base.{
  ℕ, zero, suc, ◌+◌, ◌≤◌, ◌<◌, String, ◌≡◌, refl, true, false, not, some, List, [], ◌∷◌, arith,
  eq_iff, leb, number_key, text_key, pair_key, bool_key, length, length-append, count, All,
  if_keeps,
}
use memix.Context.Reach.{
  RelevantFile, Search, start, neighbors, notice, notice_all, visit, search, members, mentions,
  rounds,
}
use memix.Dict.{Dict, lookup, or_else, contains, add, values}
use memix.Dict.Laws.{All-members, contains-append, contains-add}
use memix.Graph.{DependencyGraph}

-- How many of the names are not seen.
unseen : List String → List String → ℕ
unseen names seen = count (λ b. not (contains b seen)) names

measure : List String → Search → ℕ
unfolding unseen
measure names s = length s.queue + unseen names s.seen

unseen-add_le :
    (names seen : List String) (c : String) → unseen names (add c seen) ≤ unseen names seen
unfolding unseen
unseen-add_le [] seen c = omega arith
unseen-add_le (b ∷ names) seen c = ground (arith, unseen-add_le names seen c, contains-add c b seen)

unseen-add :
    (names seen : List String) (c : String)
    → contains c names ≡ true
    → contains c seen ≡ false
    → suc (unseen names (add c seen)) ≤ unseen names seen
unfolding unseen contains
unseen-add [] seen c here new = cc
unseen-add (b ∷ names) seen c here new = ground (
  arith,
  unseen-add names seen c,
  unseen-add_le names seen c,
  contains-add c b seen,
  eq_iff b c,
  eq_iff c b,
)

notice-measure :
    (names : List String) (depth : ℕ) (c : String) (s : Search)
    → contains c names ≡ true
    → measure names (notice depth c s) ≤ measure names s
unfolding notice measure
notice-measure names depth c s here =
    if_keeps (λ r. measure names r ≤ measure names s) (contains c s.seen) _ _ (λ t. omega arith)
      (λ new.
        ground
          (arith, unseen-add names s.seen c here new, length-append s.queue ((c, suc depth) ∷ [])))

notice_all-measure :
    (names : List String) (depth : ℕ) (cs : List String) (s : Search)
    → All (λ c. contains c names ≡ true) cs
    → measure names (notice_all depth cs s) ≤ measure names s
unfolding notice_all
notice_all-measure names depth [] s a = omega arith
notice_all-measure names depth (c ∷ cs) s a = omega (
  arith,
  notice-measure names depth c s a.0,
  notice_all-measure names depth cs (notice depth c s) a.1,
)

contains-values :
    (c key : String) (m : Dict String (List String))
    → contains c (or_else [] (lookup key m)) ≡ true
    → contains c (members (values m)) ≡ true
unfolding contains lookup
contains-values c key [] h = h
contains-values c key ((j, xs) ∷ m) h =
    ground (arith, contains-values c key m, contains-append c xs (members (values m)), h)

neighbors-mentions :
    (graph : DependencyGraph) (file c : String)
    → contains c (neighbors graph file) ≡ true
    → contains c (mentions graph) ≡ true
unfolding neighbors mentions
neighbors-mentions graph file c h = ground (
  arith,
  h,
  contains-append c (or_else [] (lookup file graph.edges_out))
      (or_else [] (lookup file graph.edges_in)),
  contains-append c (members (values graph.edges_out)) (members (values graph.edges_in)),
  contains-values c file graph.edges_out,
  contains-values c file graph.edges_in,
)

visit-measure :
    (graph : DependencyGraph) (max_depth : ℕ) (file : String) (depth : ℕ) (s : Search)
    → measure (mentions graph) (visit graph max_depth file depth s) ≤ measure (mentions graph) s
unfolding visit
visit-measure graph max_depth file depth s =
    if_keeps (λ r. measure (mentions graph) r ≤ measure (mentions graph) s) (leb max_depth depth) _
      _ (λ t. omega arith)
      (λ f.
        notice_all-measure (mentions graph) depth (neighbors graph file) s
          (All-members (neighbors graph file) (mentions graph) (neighbors-mentions graph file)))

search_ends :
    (graph : DependencyGraph) (max_depth fuel : ℕ) (queue : List (String × ℕ)) (seen : List String)
    (out : List RelevantFile)
    → measure (mentions graph) (record { queue = queue; seen = seen; out = out }) < fuel
    → (r : Search) × (search graph max_depth fuel (record { queue = queue; seen = seen; out = out })
        ≡ some r)
unfolding search measure
search_ends graph max_depth zero queue seen out h = let no : false ≡ true = ground arith in cc
search_ends graph max_depth (suc fuel) [] seen out h = (_, refl)
search_ends graph max_depth (suc fuel) ((file, depth) ∷ queue) seen out h =
    let s : Search = record { queue = queue; seen = seen; out = out } in
    let next = visit graph max_depth file depth s in
    let lower = visit-measure graph max_depth file depth s in
    search_ends graph max_depth fuel next.queue next.seen next.out (omega (arith, lower))

unseen_bound : (names seen : List String) → unseen names seen ≤ length names
unfolding unseen
unseen_bound [] seen = omega arith
unseen_bound (b ∷ names) seen = ground (arith, unseen_bound names seen)

-- The rounds are enough.
pub search-start :
    (graph : DependencyGraph) (max_depth : ℕ) (active_file : String)
    → (r : Search) × (search graph max_depth (rounds graph) (start active_file) ≡ some r)
unfolding measure
search-start graph max_depth active_file =
    search_ends graph max_depth (rounds graph) ((active_file, 0) ∷ []) (active_file ∷ []) _
      (omega (arith, unseen_bound (mentions graph) (active_file ∷ [])))
