-- ===== src/Graph/Edges.antt =====
-- An adjacency map as a relation, and what each helper of graph.rs does to that relation.
use memix.Base.{
  String, ◌≡◌, refl, Bool, true, false, List, [], ◌∷◌, if◌then◌else◌, ◌==◌, arith, eq_iff, ◌&&◌,
  text_key, Option-cases, inl, inr,
}
use memix.Dict.{lookup, remove, or_else, contains, add, discard}
use memix.Dict.Laws.{lookup-insert, lookup-remove, contains-add, contains-discard}
use memix.Graph.{
  Adjacency, link, prune, detach, detach_all, drop_member, drop_from_all, DependencyGraph, add_all,
  add_dependency,
}

-- `to` is in the set under `from`.
unfoldable pub linked : String → String → Adjacency → Bool
linked from to m = contains to (or_else [] (lookup from m))

module _ (from to a b : String) (m : Adjacency) where
  pub linked-link :
      linked a b (link from to m) ≡ (if (from == a) && (to == b) then true else linked a b m)
  unfolding linked link
  linked-link = ground (
    arith,
    lookup-insert from a (add to (or_else [] (lookup from m))) m,
    contains-add to b (or_else [] (lookup from m)),
    eq_iff from a,
    eq_iff to b,
  )

  pub linked-remove : linked a b (remove from m) ≡ (if from == a then false else linked a b m)
  unfolding linked contains
  linked-remove = ground (arith, lookup-remove from a m)

  pub linked-drop_member :
      linked a b (drop_member from to m)
      ≡ (if (to == a) && (from == b) then false else linked a b m)
  unfolding linked drop_member contains
  linked-drop_member = elim (Option-cases (lookup to m)) [
    | inl e ↦ rw (e, drop_member) (ground (arith, eq_iff to a))
    | inr (xs, e) ↦ ground (
      arith,
      lookup-insert to a (discard from xs) m,
      contains-discard from b xs,
      eq_iff to a,
      eq_iff from b,
    )
  ]

  linked-prune :
      (xs : List String)
      → linked a b (prune from xs m) ≡ (if from == a then contains b xs else linked a b m)
  unfolding linked prune contains
  linked-prune [] = ground (arith, lookup-remove from a m)
  linked-prune (x ∷ xs) = ground (arith, lookup-insert from a (x ∷ xs) m)

module _ (source target a b : String) (m : Adjacency) where
  pub linked-detach :
      linked a b (detach source target m)
      ≡ (if (target == a) && (source == b) then false else linked a b m)
  unfolding linked detach contains
  linked-detach = elim (Option-cases (lookup target m)) [
    | inl e ↦ rw (e, detach) (ground (arith, eq_iff target a))
    | inr (xs, e) ↦ ground (
      arith,
      linked-prune target a a b m (discard source xs),
      contains-discard source b xs,
      eq_iff target a,
      eq_iff source b,
    )
  ]

module _ (file a b : String) where
  pub linked-detach_all :
      (ts : List String) (m : Adjacency)
      → linked a b (detach_all file ts m)
        ≡ (if contains a ts && (file == b) then false else linked a b m)
  unfolding detach_all contains
  linked-detach_all [] m = refl
  linked-detach_all (t ∷ ts) m =
      ground (arith, linked-detach_all ts (detach file t m), linked-detach file t a b m)

  pub linked-drop_from_all :
      (ks : List String) (m : Adjacency)
      → linked a b (drop_from_all file ks m)
        ≡ (if contains a ks && (file == b) then false else linked a b m)
  unfolding drop_from_all contains
  linked-drop_from_all [] m = refl
  linked-drop_from_all (k ∷ ks) m =
      ground
        (arith, linked-drop_from_all ks (drop_member file k m), linked-drop_member file k a b m)

  pub linked_out-add_all :
      (ts : List String) (g : DependencyGraph)
      → linked a b (add_all file ts g).edges_out
        ≡ (if (file == a) && contains b ts then true else linked a b g.edges_out)
  unfolding add_all contains
  linked_out-add_all [] g = ground arith
  linked_out-add_all (t ∷ ts) g =
      ground
        (arith, linked_out-add_all ts (add_dependency file t g), linked-link file t a b g.edges_out)

  pub linked_in-add_all :
      (ts : List String) (g : DependencyGraph)
      → linked a b (add_all file ts g).edges_in
        ≡ (if contains a ts && (file == b) then true else linked a b g.edges_in)
  unfolding add_all contains
  linked_in-add_all [] g = ground arith
  linked_in-add_all (t ∷ ts) g =
      ground
        (arith, linked_in-add_all ts (add_dependency file t g), linked-link t file a b g.edges_in)
