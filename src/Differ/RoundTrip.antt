-- ===== src/Differ/RoundTrip.antt =====
-- The difference of observer/differ.rs against the entities of the old and the new file.
use memix.Base.{
  String, ◌≡◌, refl, sym, ◌∙◌, subst, inl, inr, false, Option, none, some, List, [], ◌∷◌, arith,
  eq_iff, if◌then◌else◌, ◌==◌, number_key, text_key, pair_key, bool_key, Bool-cases, Option-cases,
}
use memix.Dict.{lookup, contains, contains_key}
use memix.Dict.Laws.{lookup-remove}
use memix.Dict.Entries.{NoRepeat}
use memix.Context.{AstNodeFeature}
use memix.Differ.{Compared, compare_feature, compare_all, compute_diff, old_entities}
use memix.Differ.Patch.{
  body_in, names_of, or_then, old_body, patched, View, View-trans, compare_other, body_in-append,
}
use memix.Differ.Names.{compare_all-Keyed, old_entities-Keyed, contains-names, lookup-old_entities}
use mathlib.Core.Option

-- A name that no entity still to come has is left as it is.
compare_all-View :
    (name : String) (c : Compared) (new : List AstNodeFeature)
    → contains name (names_of new) ≡ false
    → View name c (compare_all c new)
unfolding compare_all contains
compare_all-View name c [] h = record { left = refl; added = refl; modified = refl }
compare_all-View name c (nf ∷ nfs) h =
    View-trans (compare_other name nf c (ground (arith, h)))
      (compare_all-View name (compare_feature nf c) nfs (ground (arith, h)))

-- The body that a name has by the loop's variables.
settled : String → Option String → Compared → Option String
settled name before c =
    or_then (body_in name c.added)
      (or_then (body_in name c.modified) (if contains_key name c.left then none else before))

settled-View :
    (name : String) (before : Option String) (c d : Compared)
    → View name c d
    → settled name before d ≡ settled name before c
unfolding settled contains_key
settled-View name before c d v = ground (arith, v.left, v.added, v.modified)

-- The step at an entity settles its name.
compare_same :
    (nf : AstNodeFeature) (before : Option String) (c : Compared)
    → body_in nf.name c.added ≡ none
    → body_in nf.name c.modified ≡ none
    → Option.map (λ f. f.body) (lookup nf.name c.left) ≡ before
    → settled nf.name before (compare_feature nf c) ≡ some nf.body
unfolding settled compare_feature body_in contains_key
compare_same nf before c a m b = elim (Option-cases (lookup nf.name c.left)) [
  | inl n ↦
      rw (n, compare_feature)
        (ground (arith, body_in-append nf.name c.added (nf ∷ []), a, eq_iff nf.name nf.name))
  | inr (old, s) ↦
      rw (s, compare_feature)
        (ground (
          arith,
          body_in-append nf.name c.modified (if old.body == nf.body then [] else nf ∷ []),
          a,
          m,
          b,
          s,
          lookup-remove nf.name nf.name c.left,
          eq_iff nf.name nf.name,
          eq_iff old.body nf.body,
        ))
]

compare_named :
    (name : String) (nf : AstNodeFeature) (before : Option String) (c : Compared)
    → nf.name ≡ name
    → body_in name c.added ≡ none
    → body_in name c.modified ≡ none
    → Option.map (λ f. f.body) (lookup name c.left) ≡ before
    → settled name before (compare_feature nf c) ≡ some nf.body
compare_named name nf before c e a m b =
    subst (λ x. settled x before (compare_feature nf c) ≡ some nf.body) e
      (compare_same nf before c (subst (λ x. body_in x c.added ≡ none) (sym e) a)
        (subst (λ x. body_in x c.modified ≡ none) (sym e) m)
        (subst (λ x. Option.map (λ f. f.body) (lookup x c.left) ≡ before) (sym e) b))

-- The loop settles every name on the body that the new entities give it.
settled-compare_all :
    (name : String) (before : Option String) (c : Compared) (new : List AstNodeFeature)
    → NoRepeat (names_of new)
    → body_in name c.added ≡ none
    → body_in name c.modified ≡ none
    → Option.map (λ f. f.body) (lookup name c.left) ≡ before
    → settled name before (compare_all c new) ≡ body_in name new
unfolding settled compare_all body_in contains_key
settled-compare_all name before c [] n a m b = elim (Option-cases (lookup name c.left)) [
  | inl e ↦ ground (arith, a, m, b, e)
  | inr (old, s) ↦ ground (arith, a, m, b, s)
]
settled-compare_all name before c (nf ∷ nfs) n a m b = elim (Bool-cases (nf.name == name)) [
  | inl t ↦
      (let c2 = compare_feature nf c in
        let e : nf.name ≡ name = ground (arith, eq_iff nf.name name, t) in
        let absent : contains name (names_of nfs) ≡ false =
          subst (λ x. contains x (names_of nfs) ≡ false) e n.0 in
        ground (
          arith,
          t,
          compare_named name nf before c e a m b,
          settled-View name before c2 (compare_all c2 nfs) (compare_all-View name c2 nfs absent),
        ))
  | inr f ↦
      (let v = compare_other name nf c f in
        ground (
          arith,
          f,
          settled-compare_all name before (compare_feature nf c) nfs n.1 (v.added ∙ a)
              (v.modified ∙ m) (ground (arith, v.left, b)),
        ))
]

-- Where no name stands twice among the new entities, the difference of the old and the new entities,
-- applied to the old ones, gives every name the body that it has among the new ones, and none if it is
-- not there. Of the old entities with one name the last one counts.
pub patched-compute_diff :
    (file_path : String) (old : Option (List AstNodeFeature)) (new : List AstNodeFeature)
    (name : String)
    → NoRepeat (names_of new)
    → patched (compute_diff file_path old new) old name ≡ body_in name new
unfolding patched compute_diff settled body_in
patched-compute_diff file_path old new name n =
    let start : Compared = record { left = old_entities old; added = []; modified = [] } in
    let c = compare_all start new in
    let keyed = compare_all-Keyed start new (old_entities-Keyed old) in
    let removed = contains-names name c.left keyed in
    rw removed (
      settled-compare_all name (old_body name old) start new n refl refl
        (lookup-old_entities name old))
