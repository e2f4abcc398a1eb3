-- ===== src/Context/Reach.antt =====
-- context/mod.rs, `pass_dead_context_elimination`: a breadth-first search of the dependency graph, over
-- the edges in both directions.
pub mod Order
pub mod Distance
mod Ends
mod Invariant
mod Queue
mod Tests
use memix.Base.{
  ℕ, zero, suc, ◌+◌, ◌-◌, ◌*◌, ◌/◌, ◌%◌, ◌^◌, ◌≤◌, ◌<◌, min, max, String, ◌≡◌, refl, sym, ap, ◌∙◌,
  subst, ◌≢◌, ◌↔◌, ◌⊎◌, inl, inr, Bool, true, false, not, ◌&&◌, ◌||◌, Option, none, some, List, [],
  ◌∷◌, ◌++◌, map, arith, eq_iff, ltb, leb, nat_beq, if◌then◌else◌, Key, ◌==◌, number_key, text_key,
  pair_key, pair_equal_iff, bool_key, both, same, Bool-cases, Option-cases, length, drop, take,
  length-append, length-drop, keep, count, All, All-append, sum, sum-append, concat, show, some_inj,
  map-eq-some, if_keeps, ℤ, pos, negsuc, negative, whole_units, exceeds, append_none, append_assoc,
  reverse, insert_by, sort_by, Sorted, count-insert_by, count-sort_by, All-insert_by, All-sort_by,
  sort_by-Sorted, All-take, take-Sorted, sort_by-coarse, lines, split_whitespace, trim_matches,
  trim, contains_text, strip_prefix, join, before_first,
}
use memix.Dict.{lookup, or_else, contains, add, values}
use memix.Graph.{DependencyGraph}
use Prim.Native.Nat.{compare, Ordering}
use Prim.Native.String.{compare as compare_text}
use mathlib.Core.Option

pub record RelevantFile : Type 0 where
  pub path : String
  pub depth : ℕ

-- The variables of the loop.
pub record Search : Type 0 where
  pub queue : List (String × ℕ)
  pub seen : List String
  pub out : List RelevantFile

abbrev pub start : String → Search
start active_file = record {
  queue = (active_file, 0) ∷ [];
  seen = active_file ∷ [];
  out = record { path = active_file; depth = 0 } ∷ [];
}

pub neighbors : DependencyGraph → String → List String
neighbors graph file =
    or_else [] (lookup file graph.edges_out) ++ or_else [] (lookup file graph.edges_in)

pub notice : ℕ → String → Search → Search
notice depth neighbor s = if contains neighbor s.seen then s else record {
  queue = s.queue ++ (neighbor, suc depth) ∷ [];
  seen = add neighbor s.seen;
  out = s.out ++ record { path = neighbor; depth = suc depth } ∷ [];
}

pub notice_all : ℕ → List String → Search → Search
unfolding notice
notice_all depth [] s = s
notice_all depth (n ∷ ns) s = notice_all depth ns (notice depth n s)

-- One round of the loop, after `pop_front` has given a file and its depth.
pub visit : DependencyGraph → ℕ → String → ℕ → Search → Search
unfolding notice_all neighbors
visit graph max_depth file depth s =
    if leb max_depth depth then s else notice_all depth (neighbors graph file) s

-- The loop, on fuel: it gives nothing where that runs out.
pub search : DependencyGraph → ℕ → ℕ → Search → Option Search
unfolding visit
search graph max_depth zero s = none
search graph max_depth (suc fuel) s = elim s.queue [
  | [] ↦ some s
  | (file, depth) ∷ queue ↦
      search graph max_depth fuel (visit graph max_depth file depth (record s { queue = queue }))
]

-- All members of a list of sets.
abbrev pub members : List (List String) → List String
members [] = []
members (xs ∷ xss) = xs ++ members xss

-- What the edges of the graph mention, a bound on the rounds of the loop.
unfoldable pub mentions : DependencyGraph → List String
mentions graph = members (values graph.edges_out) ++ members (values graph.edges_in)

abbrev pub rounds : DependencyGraph → ℕ
rounds graph = 2 + length (mentions graph)

unfoldable pub is_le : Ordering → Bool
is_le Ordering.gt = false
is_le Ordering.eq = true
is_le Ordering.lt = true

unfoldable pub then_with : Ordering → Ordering → Ordering
then_with Ordering.eq o = o
then_with Ordering.lt o = Ordering.lt
then_with Ordering.gt o = Ordering.gt

abbrev pub before : RelevantFile → RelevantFile → Bool
before a b = is_le (then_with (compare a.depth b.depth) (compare_text a.path b.path))

unfoldable pub dead_context_elimination : String → DependencyGraph → ℕ → Option (List RelevantFile)
unfolding search
dead_context_elimination active_file graph max_depth =
    Option.map (λ s. sort_by before s.out)
      (search graph max_depth (rounds graph) (start active_file))
