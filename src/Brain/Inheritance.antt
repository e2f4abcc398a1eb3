-- ===== src/Brain/Inheritance.antt =====
-- brain/hierarchy.rs: a memory looked up through layers of projects, the nearest first. Parsing and
-- printing JSON are parameters.
use memix.Base.{
  String, Option, none, some, List, [], ◌∷◌, ◌++◌, number_key, text_key, pair_key, bool_key,
  reverse,
}
use memix.Brain.{MemoryEntry}
use memix.Brain.Value.{
  Value, string, array, object, merge_values, merge_members, merge_items, seen_in,
}
use memix.Dict.{Dict, lookup, or_else}
use mathlib.Core.Option

pub record HierarchyLayer : Type 0 where
  pub project_id : String
  pub entries : Dict String MemoryEntry

pub record HierarchyResolution : Type 0 where
  pub entry_id : String
  pub resolved_from : List String
  pub value : Value

pub record BrainHierarchy : Type 0 where
  pub layers : List HierarchyLayer

abbrev pub new : List HierarchyLayer → BrainHierarchy
new layers = record { layers = layers }

module _ (from_str : String → Option Value) where
  pub parse_entry_content : MemoryEntry → Value
  parse_entry_content e = or_else (string e.content) (from_str e.content)

  pub resolve_in : String → List HierarchyLayer → Option HierarchyResolution
  unfolding parse_entry_content
  resolve_in entry_id [] = none
  resolve_in entry_id (l ∷ ls) =
      let rest = resolve_in entry_id ls in
      elim (lookup entry_id l.entries) [
        | none ↦ rest
        | some e ↦ some (record {
          entry_id = entry_id;
          resolved_from = l.project_id ∷ [];
          value = parse_entry_content e;
        })
      ]

  pub resolve : String → BrainHierarchy → Option HierarchyResolution
  unfolding resolve_in
  resolve entry_id h = resolve_in entry_id h.layers

  module _ (to_string : Value → Option String) where
    abbrev pub merge_onto : Option Value → Value → Value
    merge_onto none v = v
    merge_onto (some existing) v = merge_values to_string existing v

    -- One round of the loop, on `resolved_from` and `merged`.
    pub merge_layer :
        String → HierarchyLayer → List String × Option Value → List String × Option Value
    unfolding parse_entry_content
    merge_layer entry_id l s = elim (lookup entry_id l.entries) [
      | none ↦ s
      | some e ↦ (s.0 ++ l.project_id ∷ [], some (merge_onto s.1 (parse_entry_content e)))
    ]

    pub merge_layers :
        String → List HierarchyLayer → List String × Option Value → List String × Option Value
    unfolding merge_layer
    merge_layers entry_id [] s = s
    merge_layers entry_id (l ∷ ls) s = merge_layers entry_id ls (merge_layer entry_id l s)

    pub resolve_merged : String → BrainHierarchy → Option HierarchyResolution
    unfolding merge_layers
    resolve_merged entry_id h =
        let (resolved_from, merged) = merge_layers entry_id (reverse h.layers) ([], none) in
        Option.map (λ v. record { entry_id = entry_id; resolved_from = resolved_from; value = v })
          merged

    -- A nearer value over a farther one: of two objects the members of the nearer one are merged onto
    -- the farther one's, of two arrays the items of the nearer one are added to the farther one's, and
    -- else the nearer value stands alone.
    abbrev pub laid_over : (farther nearer : Value) → Value
    laid_over (object far) (object near) = object (merge_members to_string far near)
    laid_over (array far) (array near) =
        array (merge_items to_string near (far, seen_in to_string far [])).0
    laid_over far near = near

    -- What the layers give together: the nearest last, over those that are farther.
    pub record Merged : Type 0 where
      pub sources : List String
      pub content : Option Value

    abbrev pub over : Merged → String → Option MemoryEntry → Merged
    over m project none = m
    over m project (some e) = record {
      sources = m.sources ++ project ∷ [];
      content = some (elim m.content [
        | none ↦ parse_entry_content e
        | some farther ↦ laid_over farther (parse_entry_content e)
      ]);
    }

    abbrev pub merged_in : String → List HierarchyLayer → Merged
    merged_in entry_id [] = record { sources = []; content = none }
    merged_in entry_id (l ∷ ls) =
        over (merged_in entry_id ls) l.project_id (lookup entry_id l.entries)
