-- ===== src/Context/Ranking.antt =====
-- context/mod.rs, `pass_priority_ranking`: the sections with their priorities, and their order.
pub mod Dirs
pub mod Built
use memix.Base.{
  ℕ, zero, suc, ◌+◌, ◌-◌, ◌*◌, ◌/◌, ◌%◌, ◌^◌, ◌≤◌, ◌<◌, min, max, String, ◌≡◌, refl, sym, ap, ◌∙◌,
  subst, ◌≢◌, ◌↔◌, ◌⊎◌, inl, inr, Bool, true, false, not, ◌&&◌, ◌||◌, Option, none, some, List, [],
  ◌∷◌, ◌++◌, map, arith, eq_iff, ltb, leb, nat_beq, if◌then◌else◌, Key, ◌==◌, number_key, text_key,
  pair_key, pair_equal_iff, bool_key, both, same, Bool-cases, Option-cases, length, drop, take,
  length-append, length-drop, keep, count, All, All-append, sum, sum-append, concat, show, some_inj,
  map-eq-some, if-eq-some, chain-eq-some, if_keeps, ℤ, pos, negsuc, negative, whole_units, exceeds,
  append_none, append_assoc, reverse, insert_by, sort_by, Sorted, count-insert_by, count-sort_by,
  All-insert_by, All-sort_by, sort_by-Sorted, All-take, take-Sorted, sort_by-coarse, lines,
  split_whitespace, trim_matches, trim, contains_text, strip_prefix, join, before_first,
}
use text.Mathlib.Text.{starts_with}
use memix.Dict.{contains}
use memix.Brain.{MemoryEntry}
use memix.Context.{
  Host, TaskType, new_feature, bug_fix, refactor, code_review, unknown, CompiledSection,
  compiled_section, any_in,
}
use memix.Context.History.{Draft}
use memix.Context.Skeleton.{CodeSkeleton, render_skeleton}
use memix.Context.Rules.{query_terms}
use memix.Context.Ranking.Dirs.{generated_dirs}
use mathlib.Core.Option

-- `u8::saturating_add`
abbrev pub saturating_add_u8 : ℕ → ℕ → ℕ
saturating_add_u8 a b = min (a + b) 255

unfoldable pub debug_name : TaskType → String
debug_name new_feature = "NewFeature"
debug_name bug_fix = "BugFix"
debug_name refactor = "Refactor"
debug_name code_review = "CodeReview"
debug_name unknown = "Unknown"

-- `find_map` with `strip_prefix`.
first_stripped : String → List String → Option String
first_stripped prefix [] = none
first_stripped prefix (s ∷ ss) =
    let rest = first_stripped prefix ss in
    elim (strip_prefix prefix s) [ none ↦ rest | some p ↦ some p ]

entry_path : MemoryEntry → Option String
unfolding first_stripped
entry_path entry = elim (first_stripped "path:" entry.tags) [
  | some p ↦ some p
  | none ↦ first_stripped "path: " (lines entry.content)
]

is_generated : Option String → Bool
is_generated none = false
is_generated (some p) = any_in generated_dirs p

-- `base_priority` with the boost of importance; `as u8` drops the higher bits.
abbrev with_importance : (base_priority : ℕ) → ℤ → ℕ
with_importance base_priority (pos zero) = base_priority
with_importance base_priority (pos (suc boost)) =
    min (saturating_add_u8 base_priority (suc boost % 256)) 100
with_importance base_priority (negsuc n) = base_priority

-- Each section, or the error of the tokenizer, in turn.
unfoldable pub push_section :
    Option CompiledSection → Option (List CompiledSection) → Option (List CompiledSection)
push_section none rest = none
push_section (some s) none = none
push_section (some s) (some ss) = some (s ∷ ss)

-- One list after the other, or the first error.
unfoldable pub append_sections :
    Option (List CompiledSection) → Option (List CompiledSection) → Option (List CompiledSection)
append_sections none rest = none
append_sections (some ss) rest = Option.map (λ ts. ss ++ ts) rest

abbrev pub all_of : List (Option (List CompiledSection)) → Option (List CompiledSection)
all_of [] = some []
all_of (o ∷ rest) = append_sections o (all_of rest)

-- What stands before another section: a higher priority, or fewer tokens at the same one.
abbrev pub ranked_before : CompiledSection → CompiledSection → Bool
ranked_before a b =
    ltb b.priority a.priority || (nat_beq a.priority b.priority && leb a.tokens b.tokens)

module _ (host : Host) where
  pub query_boost : (query : Option String) → (content : String) → ℕ
  query_boost query content =
      let terms = query_terms host query in
      let lower = host.to_lowercase content in
      if nat_beq (length terms) 0
      then 0
      else min (host.rounded_tenths (count (λ t. contains_text lower t) terms) (length terms)) 10

  -- `importance` is the rounded boost of a file by its betweenness and its page rank.
  skeleton_section :
      (importance : String → ℤ) (active_file : String) (query : Option String)
      → CodeSkeleton
      → Option CompiledSection
  unfolding query_boost
  skeleton_section importance active_file query skeleton =
      let base_priority = if skeleton.path == active_file then 95 else 72 in
      let rendered = render_skeleton skeleton in
      compiled_section host (concat "code:" skeleton.path) "code-skeleton"
        (saturating_add_u8 (with_importance base_priority (importance skeleton.path))
          (query_boost query rendered))
        rendered

  skeleton_sections :
      (importance : String → ℤ) (active_file : String) (query : Option String)
      → List CodeSkeleton
      → Option (List CompiledSection)
  unfolding skeleton_section push_section
  skeleton_sections importance active_file query [] = some []
  skeleton_sections importance active_file query (s ∷ ss) =
      push_section (skeleton_section importance active_file query s)
        (skeleton_sections importance active_file query ss)

  -- An entry of the skeleton index, where it is one and its path is not generated.
  index_entry : (query : Option String) → MemoryEntry → Option (Option CompiledSection)
  unfolding entry_path is_generated query_boost
  index_entry query entry =
      if is_generated (entry_path entry)
      then none
      else if contains "fsi" entry.tags
      then some (
          compiled_section host (concat "skel:" entry.id) "skeleton-fsi"
            (saturating_add_u8 85 (query_boost query entry.content)) entry.content)
      else if contains "fusi" entry.tags
      then some (
          compiled_section host (concat "skel:" entry.id) "skeleton-fusi"
            (saturating_add_u8 78 (query_boost query entry.content)) entry.content)
      else none

  index_sections : (query : Option String) → List MemoryEntry → Option (List CompiledSection)
  unfolding index_entry push_section
  index_sections query [] = some []
  index_sections query (e ∷ es) =
      let rest = index_sections query es in
      elim (index_entry query e) [ none ↦ rest | some s ↦ push_section s rest ]

  draft_sections : (kind : String) → List Draft → Option (List CompiledSection)
  unfolding push_section
  draft_sections kind [] = some []
  draft_sections kind (d ∷ ds) =
      push_section (compiled_section host d.0 kind d.2 d.1) (draft_sections kind ds)

  causal_sections : (active_file : String) → Option String → Option (List CompiledSection)
  unfolding push_section
  causal_sections active_file none = some []
  causal_sections active_file (some causal_context) =
      push_section
        (compiled_section host (concat "causal:" active_file) "causal-chain" 95 causal_context)
        (some [])

  active_sections : (active_file : String) → TaskType → Option (List CompiledSection)
  unfolding push_section debug_name
  active_sections active_file task_type =
      push_section
        (compiled_section host "active:file" "active-context" 100 (
          concat "Active file: "
            (concat active_file (concat "\nTask type: " (debug_name task_type)))))
        (some [])

  unfoldable pub gathered :
      (importance : String → ℤ) (active_file : String) (task_type : TaskType)
      (skeletons : List CodeSkeleton) (history_sections rules_sections : List Draft)
      (skeleton_entries : List MemoryEntry) (causal_context query : Option String)
      → Option (List CompiledSection)
  unfolding skeleton_sections index_sections draft_sections causal_sections active_sections
  gathered importance active_file task_type skeletons history_sections rules_sections
        skeleton_entries causal_context query =
      all_of (
        active_sections active_file task_type
        ∷ causal_sections active_file causal_context
        ∷ skeleton_sections importance active_file query skeletons
        ∷ index_sections query skeleton_entries
        ∷ draft_sections "history" history_sections
        ∷ draft_sections "rules" rules_sections
        ∷ [])

  unfoldable pub priority_ranking :
      (importance : String → ℤ) (active_file : String) (task_type : TaskType)
      (skeletons : List CodeSkeleton) (history_sections rules_sections : List Draft)
      (skeleton_entries : List MemoryEntry) (causal_context query : Option String)
      → Option (List CompiledSection)
  priority_ranking importance active_file task_type skeletons history_sections rules_sections
        skeleton_entries causal_context query =
      Option.map (sort_by ranked_before) (
        gathered importance active_file task_type skeletons history_sections rules_sections
          skeleton_entries causal_context query)
