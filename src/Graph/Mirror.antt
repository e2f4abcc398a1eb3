-- ===== src/Graph/Mirror.antt =====
-- The two maps of observer/graph.rs against one plain relation between files.
use memix.Base.{
  String, ◌≡◌, refl, Bool, true, false, List, [], ◌∷◌, if◌then◌else◌, ◌==◌, arith, eq_iff, ◌&&◌,
  ◌||◌, text_key, Option-cases, inl, inr,
}
use memix.Dict.{lookup, remove, contains}
use memix.Graph.{
  Adjacency, DependencyGraph, empty, add_dependency, set_dependencies, remove_file, drop_side,
  detach_all,
}
use memix.Graph.Edges.{
  linked, linked-link, linked-remove, linked-detach_all, linked-drop_from_all, linked_out-add_all,
  linked_in-add_all,
}

-- `r a b`: file a depends on file b.
abbrev pub Relation : Type 0
Relation = String → String → Bool

pub record Refines (g : DependencyGraph) (r : Relation) : Type 0 where
  pub outward : (a b : String) → linked a b g.edges_out ≡ r a b
  pub inward : (a b : String) → linked b a g.edges_in ≡ r a b

pub data Call : Type 0 where
  adds : String → String → Call
  sets : String → List String → Call
  removes : String → Call

unfoldable pub apply : DependencyGraph → Call → DependencyGraph
apply g (adds source target) = add_dependency source target g
apply g (sets source targets) = set_dependencies source targets g
apply g (removes file) = remove_file file g

-- What a call means: one more pair; the row of a file replaced; row and column of a file cleared.
abbrev pub meaning : Relation → Call → Relation
meaning r (adds source target) a b = if (source == a) && (target == b) then true else r a b
meaning r (sets source targets) a b = if source == a then contains b targets else r a b
meaning r (removes file) a b = if (file == a) || (file == b) then false else r a b

add_dependency-Refines :
    (source target : String) (g : DependencyGraph) (r : Relation)
    → Refines g r
    → Refines (add_dependency source target g) (meaning r (adds source target))
unfolding add_dependency
add_dependency-Refines s t g r h = record {
  outward = λ a b. ground (arith, linked-link s t a b g.edges_out, h.outward a b);
  inward =
      λ a b. ground (arith, linked-link t s b a g.edges_in, h.inward a b, eq_iff s a, eq_iff t b);
}

set_dependencies-Refines :
    (source : String) (targets : List String) (g : DependencyGraph) (r : Relation)
    → Refines g r
    → Refines (set_dependencies source targets g) (meaning r (sets source targets))
unfolding set_dependencies linked contains
set_dependencies-Refines s ts g r h = elim (Option-cases (lookup s g.edges_out)) [
  | inl e ↦
      rw (e, set_dependencies)
        (record {
          outward = λ a b. ground (arith, linked_out-add_all s a b ts g, h.outward a b, eq_iff s a);
          inward = λ a b.
              ground (arith, linked_in-add_all s b a ts g, h.inward a b, h.outward a b, eq_iff s a);
        })
  | inr (old, e) ↦
      rw (e, set_dependencies)
        (record {
          outward = λ a b. ground (
            arith,
            linked_out-add_all s a b ts (cut old),
            linked-remove s s a b g.edges_out,
            h.outward a b,
            eq_iff s a,
          );
          inward = λ a b. ground (
            arith,
            linked_in-add_all s b a ts (cut old),
            linked-detach_all s b a old g.edges_in,
            h.inward a b,
            h.outward a b,
            eq_iff s a,
          );
        })
]
  where
    cut : List String → DependencyGraph
    cut old = record { edges_out = remove s g.edges_out; edges_in = detach_all s old g.edges_in }

-- `drop_side` takes `file` out of every set whose key is in the given one.
linked-drop_side :
    (file a b : String) (side m : Adjacency)
    → linked a b (drop_side file (lookup file side) m)
      ≡ (if linked file a side && (file == b) then false else linked a b m)
unfolding linked drop_side contains
linked-drop_side file a b side m = elim (Option-cases (lookup file side)) [
  | inl e ↦ rw (e, drop_side) (ground arith)
  | inr (ks, e) ↦ ground (arith, linked-drop_from_all file a b ks m)
]

remove_file-Refines :
    (file : String) (g : DependencyGraph) (r : Relation)
    → Refines g r
    → Refines (remove_file file g) (meaning r (removes file))
unfolding remove_file
remove_file-Refines file g r h = record {
  outward = λ a b. ground (
    arith,
    linked-drop_side file a b (cleared file) (remove file g.edges_out),
    linked-drop_side file file a g.edges_out g.edges_in,
    linked-remove file file a b g.edges_out,
    h.outward a b,
    h.inward a file,
    h.outward a file,
    h.outward file a,
    eq_iff file a,
    eq_iff file b,
  );
  inward = λ a b. ground (
    arith,
    linked-remove file file b a (cleared file),
    linked-drop_side file b a g.edges_out g.edges_in,
    h.outward a b,
    h.inward a b,
    h.outward file b,
    eq_iff file a,
    eq_iff file b,
  );
}
  where
    cleared : String → Adjacency
    cleared f = drop_side f (lookup f g.edges_out) g.edges_in

pub run : DependencyGraph → List Call → DependencyGraph
run g [] = g
run g (c ∷ cs) = run (apply g c) cs

abbrev pub run_meaning : Relation → List Call → Relation
run_meaning r [] = r
run_meaning r (c ∷ cs) = run_meaning (meaning r c) cs

pub apply-Refines :
    (c : Call) (g : DependencyGraph) (r : Relation)
    → Refines g r
    → Refines (apply g c) (meaning r c)
unfolding apply
apply-Refines (adds s t) g r h = add_dependency-Refines s t g r h
apply-Refines (sets s ts) g r h = set_dependencies-Refines s ts g r h
apply-Refines (removes file) g r h = remove_file-Refines file g r h

run-Refines_from :
    (cs : List Call) (g : DependencyGraph) (r : Relation)
    → Refines g r
    → Refines (run g cs) (run_meaning r cs)
unfolding run
run-Refines_from [] g r h = h
run-Refines_from (c ∷ cs) g r h =
    run-Refines_from cs (apply g c) (meaning r c) (apply-Refines c g r h)

-- After any sequence of `add_dependency`, `set_dependencies` and `remove_file` on a new graph, the
-- two maps hold the relation that the calls mean: `edges_out` read from the source of each pair,
-- `edges_in` from its target.
pub run-Refines : (cs : List Call) → Refines (run empty cs) (run_meaning (λ a b. false) cs)
unfolding linked contains lookup
run-Refines cs =
    run-Refines_from cs empty (λ a b. false)
      (record { outward = λ a b. refl; inward = λ a b. refl })
