-- ===== src/Graph.antt =====
-- observer/graph.rs: the dependency graph of files, kept as two adjacency maps. A file is the path
-- that names it. The conversion to petgraph and the importance scores are not modelled.
pub mod Edges
pub mod Mirror
mod Tests
use memix.Base.{String, Option, none, some, List, [], ◌∷◌, text_key}
use memix.Dict.{Dict, lookup, insert, remove, or_else, contains, add, discard}

abbrev pub Adjacency : Type 0
Adjacency = Dict String (List String)

pub record DependencyGraph : Type 0 where
  pub edges_out : Adjacency
  pub edges_in : Adjacency

abbrev pub empty : DependencyGraph
empty = record { edges_out = []; edges_in = [] }

-- `entry(from).or_default().insert(to)`
pub link : String → String → Adjacency → Adjacency
link from to m = insert from (add to (or_else [] (lookup from m))) m

pub add_dependency : String → String → DependencyGraph → DependencyGraph
unfolding link
add_dependency source target g = record {
  edges_out = link source target g.edges_out;
  edges_in = link target source g.edges_in;
}

-- The set that is left after `sources.remove(source)`; an empty one is taken out of the map.
prune : String → List String → Adjacency → Adjacency
prune key [] m = remove key m
prune key (x ∷ xs) m = insert key (x ∷ xs) m

-- One round of the loop over the old targets.
pub detach : String → String → Adjacency → Adjacency
unfolding prune
detach source old_target m = elim (lookup old_target m) [
  | none ↦ m
  | some sources ↦ prune old_target (discard source sources) m
]

pub detach_all : String → List String → Adjacency → Adjacency
unfolding detach
detach_all source [] m = m
detach_all source (t ∷ ts) m = detach_all source ts (detach source t m)

pub add_all : String → List String → DependencyGraph → DependencyGraph
unfolding add_dependency
add_all source [] g = g
add_all source (t ∷ ts) g = add_all source ts (add_dependency source t g)

pub set_dependencies : String → List String → DependencyGraph → DependencyGraph
unfolding detach_all add_all
set_dependencies source targets g = elim (lookup source g.edges_out) [
  | none ↦ add_all source targets g
  | some old_targets ↦ add_all source targets (record {
    edges_out = remove source g.edges_out;
    edges_in = detach_all source old_targets g.edges_in;
  })
]

-- `get_mut(&key)` and `remove(file)`: an empty set stays in the map.
pub drop_member : String → String → Adjacency → Adjacency
drop_member file key m = elim (lookup key m) [
  | none ↦ m
  | some members ↦ insert key (discard file members) m
]

pub drop_from_all : String → List String → Adjacency → Adjacency
unfolding drop_member
drop_from_all file [] m = m
drop_from_all file (k ∷ ks) m = drop_from_all file ks (drop_member file k m)

-- `remove(file)` on one map, and `file` taken out of the other under each key that it named.
drop_side : String → Option (List String) → Adjacency → Adjacency
unfolding drop_from_all
drop_side file none m = m
drop_side file (some ks) m = drop_from_all file ks m

remove_outgoing : String → DependencyGraph → DependencyGraph
unfolding drop_side
remove_outgoing file g = record {
  edges_out = remove file g.edges_out;
  edges_in = drop_side file (lookup file g.edges_out) g.edges_in;
}

remove_incoming : String → DependencyGraph → DependencyGraph
unfolding drop_side
remove_incoming file g = record {
  edges_out = drop_side file (lookup file g.edges_in) g.edges_out;
  edges_in = remove file g.edges_in;
}

pub remove_file : String → DependencyGraph → DependencyGraph
unfolding remove_outgoing remove_incoming
remove_file file g = remove_incoming file (remove_outgoing file g)
