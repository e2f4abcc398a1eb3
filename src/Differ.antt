-- ===== src/Differ.antt =====
-- observer/differ.rs: what changes between the entities of a file, which are matched by name. The
-- entities that the parser extracts from the two trees are arguments.
pub mod Patch
mod Names
pub mod RoundTrip
mod Tests
use memix.Base.{
  ℕ, zero, suc, ◌+◌, ◌-◌, ◌*◌, ◌/◌, ◌%◌, ◌^◌, ◌≤◌, ◌<◌, min, max, String, ◌≡◌, refl, sym, ap, ◌∙◌,
  subst, ◌≢◌, ◌↔◌, ◌⊎◌, inl, inr, Bool, true, false, not, ◌&&◌, ◌||◌, Option, none, some, List, [],
  ◌∷◌, ◌++◌, map, arith, eq_iff, ltb, leb, nat_beq, if◌then◌else◌, Key, ◌==◌, number_key, text_key,
  pair_key, pair_equal_iff, bool_key, both, same, Bool-cases, Option-cases, length, drop, take,
  length-append, length-drop, keep, count, All, All-append, sum, sum-append, concat, show, some_inj,
  map-eq-some, if-some-cases, if-eq-some, chain-eq-some, if_keeps, ℤ, pos, negsuc, negative,
  whole_units, exceeds, append_none, keep-append, append_assoc, reverse, insert_by, sort_by, Sorted,
  count-insert_by, count-sort_by, All-insert_by, All-sort_by, sort_by-Sorted, All-take, take-Sorted,
  sort_by-coarse, OneLine, lines-OneLine, length-lines-join_le, lines, split_whitespace,
  trim_matches, trim, contains_text, strip_prefix, join, before_first,
}
use memix.Dict.{Dict, lookup, insert, remove, values}
use memix.Context.{AstNodeFeature}

pub record SemanticDiff : Type 0 where
  pub file : String
  pub nodes_added : List AstNodeFeature
  pub nodes_removed : List AstNodeFeature
  pub nodes_modified : List AstNodeFeature

-- Of the old entities with one name the last one stays.
unfoldable pub old_features_map :
    Dict String AstNodeFeature → List AstNodeFeature → Dict String AstNodeFeature
old_features_map m [] = m
old_features_map m (f ∷ fs) = old_features_map (insert f.name f m) fs

-- The variables of the loop over the new entities.
pub record Compared : Type 0 where
  pub left : Dict String AstNodeFeature
  pub added : List AstNodeFeature
  pub modified : List AstNodeFeature

unfoldable pub compare_feature : AstNodeFeature → Compared → Compared
compare_feature nf c = elim (lookup nf.name c.left) [
  | none ↦ record c { added = c.added ++ nf ∷ [] }
  | some old_feature ↦ record {
    left = remove nf.name c.left;
    added = c.added;
    modified = c.modified ++ (if old_feature.body == nf.body then [] else nf ∷ []);
  }
]

unfoldable pub compare_all : Compared → List AstNodeFeature → Compared
unfolding compare_feature
compare_all c [] = c
compare_all c (nf ∷ nfs) = compare_all (compare_feature nf c) nfs

-- The old entities by name: none when there is no old tree.
unfoldable pub old_entities : Option (List AstNodeFeature) → Dict String AstNodeFeature
unfolding old_features_map
old_entities none = []
old_entities (some fs) = old_features_map [] fs

unfoldable pub compute_diff :
    (file_path : String) (old_features : Option (List AstNodeFeature))
    (new_features : List AstNodeFeature)
    → SemanticDiff
unfolding compare_all old_entities
compute_diff file_path old_features new_features =
    let start : Compared = record { left = old_entities old_features; added = []; modified = [] } in
    let c = compare_all start new_features in
    record {
      file = file_path;
      nodes_added = c.added;
      nodes_removed = values c.left;
      nodes_modified = c.modified;
    }
