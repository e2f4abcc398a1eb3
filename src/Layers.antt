-- ===== src/Layers.antt =====
-- context/hierarchy.rs: layers of context by priority, and the context that they give for a path.
pub mod Order
pub mod Content
pub mod Priority
pub mod Files
pub mod Override
pub mod Merge
mod Tests
use memix.Base.{
  ℕ, zero, suc, ◌+◌, ◌-◌, ◌*◌, ◌/◌, ◌%◌, ◌^◌, ◌≤◌, ◌<◌, min, max, String, ◌≡◌, refl, sym, ap, ◌∙◌,
  subst, ◌≢◌, ◌↔◌, ◌⊎◌, inl, inr, Bool, true, false, not, ◌&&◌, ◌||◌, Option, none, some, List, [],
  ◌∷◌, ◌++◌, map, arith, eq_iff, ltb, leb, nat_beq, if◌then◌else◌, Key, ◌==◌, number_key, text_key,
  pair_key, pair_equal_iff, bool_key, both, same, Bool-cases, Option-cases, length, drop, take,
  length-append, length-drop, keep, count, All, All-append, sum, sum-append, concat, show, some_inj,
  map-eq-some, if_keeps, insert_by, sort_by, Sorted, count-insert_by, count-sort_by, All-insert_by,
  All-sort_by, sort_by-Sorted, All-take, take-Sorted,
}
use text.Mathlib.Text.{starts_with}
use memix.Dict.{Dict, insert, lookup, remove, add, contains}

pub record LayerContent : Type 0 where
  pub patterns : List String
  pub decisions : List String
  pub rules : List String
  pub known_issues : List String
  pub file_map : Dict String String

pub data OverrideMode : Type 0 where
  merge : OverrideMode
  override : OverrideMode
  extend : OverrideMode

pub record ContextLayer : Type 0 where
  pub name : String
  pub path : String
  pub priority : ℕ
  pub parent : Option String
  pub content : LayerContent
  pub override_mode : OverrideMode

pub record ResolutionMetadata : Type 0 where
  pub layers_resolved : ℕ
  pub conflicts_resolved : ℕ
  pub resolution_time_ms : ℕ

pub record ResolvedContext : Type 0 where
  pub patterns : List String
  pub decisions : List String
  pub rules : List String
  pub known_issues : List String
  pub file_map : Dict String String
  pub contributing_layers : List String
  pub metadata : ResolutionMetadata

pub record HierarchyResolver : Type 0 where
  pub layers : Dict String ContextLayer
  pub layer_order : List String

abbrev pub new : HierarchyResolver
new = record { layers = []; layer_order = [] }

-- `b.1.priority.cmp(&a.1.priority)`
abbrev pub above : String × ContextLayer → String × ContextLayer → Bool
above a b = leb (b.1).priority (a.1).priority

pub rebuild_order : Dict String ContextLayer → List String
rebuild_order layers = map (λ p. p.0) (sort_by above layers)

pub register_layer : ContextLayer → HierarchyResolver → HierarchyResolver
register_layer layer h =
    let layers = insert layer.name layer h.layers in
    record { layers = layers; layer_order = rebuild_order layers }

pub remove_layer : String → HierarchyResolver → HierarchyResolver
remove_layer name h =
    let layers = remove name h.layers in
    record { layers = layers; layer_order = rebuild_order layers }

pub clear : HierarchyResolver → HierarchyResolver
clear h = record { layers = []; layer_order = [] }

pub get_layer : String → HierarchyResolver → Option ContextLayer
get_layer name h = lookup name h.layers

pub applies : String → HierarchyResolver → String → Bool
applies path h name = elim (lookup name h.layers) [
  | none ↦ false
  | some l ↦ if starts_with path l.path then true else l.path == ""
]

-- The texts that a loop collects, those it has seen, and the repeated ones that it counts.
pub record Collected : Type 0 where
  pub texts : List String
  pub seen : List String
  pub conflicts : ℕ

pub merge_text : String → Collected → Collected
merge_text t c =
    if contains t c.seen
    then record c { conflicts = c.conflicts + 1 }
    else record c { texts = c.texts ++ t ∷ []; seen = add t c.seen }

pub merge_texts : List String → Collected → Collected
unfolding merge_text
merge_texts [] c = c
merge_texts (t ∷ ts) c = merge_texts ts (merge_text t c)

pub record Draft : Type 0 where
  pub patterns : List String
  pub decisions : List String
  pub rules : List String
  pub known_issues : List String
  pub file_map : Dict String String
  pub seen_patterns : List String
  pub seen_decisions : List String
  pub conflicts_resolved : ℕ

abbrev pub blank : Draft
blank = record {
  patterns = [];
  decisions = [];
  rules = [];
  known_issues = [];
  file_map = [];
  seen_patterns = [];
  seen_decisions = [];
  conflicts_resolved = 0;
}

-- `file_map.extend(..)`
pub extend_map : Dict String String → Dict String String → Dict String String
extend_map [] m = m
extend_map ((k, v) ∷ rest) m = extend_map rest (insert k v m)

-- A set of these texts.
pub add_texts : List String → List String → List String
add_texts [] seen = seen
add_texts (t ∷ ts) seen = add_texts ts (add t seen)

pub merge_layer : LayerContent → Draft → Draft
unfolding merge_texts extend_map
merge_layer c d =
    let p =
      merge_texts c.patterns
        (record { texts = d.patterns; seen = d.seen_patterns; conflicts = d.conflicts_resolved }) in
    let q =
      merge_texts c.decisions
        (record { texts = d.decisions; seen = d.seen_decisions; conflicts = p.conflicts }) in
    record {
      patterns = p.texts;
      decisions = q.texts;
      rules = d.rules ++ c.rules;
      known_issues = d.known_issues ++ c.known_issues;
      file_map = extend_map c.file_map d.file_map;
      seen_patterns = p.seen;
      seen_decisions = q.seen;
      conflicts_resolved = q.conflicts;
    }

pub override_layer : LayerContent → Draft → Draft
unfolding add_texts
override_layer c d = record {
  patterns = c.patterns;
  decisions = c.decisions;
  rules = c.rules;
  known_issues = c.known_issues;
  file_map = c.file_map;
  seen_patterns = add_texts c.patterns [];
  seen_decisions = add_texts c.decisions [];
  conflicts_resolved = d.conflicts_resolved;
}

-- The sets of what was seen stay as they are.
pub extend_layer : LayerContent → Draft → Draft
extend_layer c d = record d {
  patterns = c.patterns ++ d.patterns;
  decisions = c.decisions ++ d.decisions;
  rules = c.rules ++ d.rules;
  known_issues = c.known_issues ++ d.known_issues;
  file_map = extend_map c.file_map d.file_map;
}

pub apply_layer : ContextLayer → Draft → Draft
unfolding merge_layer override_layer extend_layer
apply_layer l d = elim l.override_mode [
  | merge ↦ merge_layer l.content d
  | override ↦ override_layer l.content d
  | extend ↦ extend_layer l.content d
]

-- The loop over the names; one that is not registered is passed over.
pub apply_names : Dict String ContextLayer → List String → List String × Draft → List String × Draft
unfolding apply_layer
apply_names layers [] s = s
apply_names layers (n ∷ ns) s =
    apply_names layers ns
      (elim (lookup n layers) [ none ↦ s | some l ↦ (s.0 ++ n ∷ [], apply_layer l s.1) ])

abbrev pub applicable : String → HierarchyResolver → List String
unfolding applies
applicable path h = keep (applies path h) h.layer_order

-- `ms` is the time that the call takes. The source's result is always an `Ok`.
pub resolve : (ms : ℕ) → String → HierarchyResolver → ResolvedContext
unfolding apply_names
resolve ms path h =
    let (names, d) = apply_names h.layers (applicable path h) ([], blank) in
    record {
      patterns = d.patterns;
      decisions = d.decisions;
      rules = d.rules;
      known_issues = d.known_issues;
      file_map = d.file_map;
      contributing_layers = names;
      metadata = record {
        layers_resolved = length names;
        conflicts_resolved = d.conflicts_resolved;
        resolution_time_ms = ms;
      };
    }

-- `get_key_value(s).map(|(k, _)| k)` and `flatten`.
pub registered_names : Dict String ContextLayer → List String → List String
registered_names layers [] = []
registered_names layers (n ∷ ns) =
    let rest = registered_names layers ns in
    elim (lookup n layers) [ none ↦ rest | some l ↦ n ∷ rest ]

pub get_layer_names : HierarchyResolver → List String
unfolding registered_names
get_layer_names h = registered_names h.layers h.layer_order
