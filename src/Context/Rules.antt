-- ===== src/Context/Rules.antt =====
-- context/mod.rs: the files with rules for an assistant, and the lines of them that fit a task.
pub mod Paths
pub mod Once
use memix.Base.{
  ℕ, zero, suc, ◌+◌, ◌-◌, ◌*◌, ◌/◌, ◌%◌, ◌^◌, ◌≤◌, ◌<◌, min, max, String, ◌≡◌, refl, sym, ap, ◌∙◌,
  subst, ◌≢◌, ◌↔◌, ◌⊎◌, inl, inr, Bool, true, false, not, ◌&&◌, ◌||◌, Option, none, some, List, [],
  ◌∷◌, ◌++◌, map, arith, eq_iff, ltb, leb, nat_beq, if◌then◌else◌, Key, ◌==◌, number_key, text_key,
  pair_key, pair_equal_iff, bool_key, both, same, Bool-cases, Option-cases, length, drop, take,
  length-append, length-drop, keep, count, All, All-append, sum, sum-append, concat, show, some_inj,
  map-eq-some, if-some-cases, if-eq-some, chain-eq-some, if_keeps, ℤ, pos, negsuc, negative,
  whole_units, exceeds, append_none, append_assoc, reverse, insert_by, sort_by, Sorted,
  count-insert_by, count-sort_by, All-insert_by, All-sort_by, sort_by-Sorted, All-take, take-Sorted,
  sort_by-coarse, lines, split_whitespace, trim_matches, trim, contains_text, strip_prefix, join,
  before_first,
}
use Prim.Native.String.{len, slice}
use text.Mathlib.Text.{is_char_boundary}
use memix.Dict.{contains}
use memix.Context.{Host, TaskType, new_feature, bug_fix, refactor, code_review, unknown, any_in}
use memix.Context.History.{Draft}
use memix.Context.Rules.Paths.{rule_paths}

-- `Path::join` with a relative path.
pub path_join : String → String → String
path_join root path =
    let last = len root - 1 in
    if nat_beq (len root) 0
    then path
    else if both (is_char_boundary root last) (slice root last (len root) == "/")
    then concat root path
    else concat root (concat "/" path)

-- `retain` with the set of the paths seen.
pub retain_new : List String → List String → List String
retain_new seen [] = []
retain_new seen (path ∷ paths) =
    let known = contains path seen in
    let rest = retain_new (if known then seen else path ∷ seen) paths in
    if known then rest else path ∷ rest

pub rule_file_candidates : (workspace_root : Option String) → List String
unfolding path_join retain_new
rule_file_candidates none = []
rule_file_candidates (some root) = retain_new [] (map (path_join root) rule_paths)

pub task_keywords : TaskType → List String
task_keywords new_feature = "pattern" ∷ "architecture" ∷ "memory" ∷ "auto-save" ∷ "agent" ∷ []
task_keywords bug_fix = "warning" ∷ "issue" ∷ "debug" ∷ "safety" ∷ "agent" ∷ []
task_keywords refactor = "dependency" ∷ "decision" ∷ "pattern" ∷ "architecture" ∷ "agent" ∷ []
task_keywords code_review = "pattern" ∷ "convention" ∷ "warning" ∷ "safety" ∷ "agent" ∷ []
task_keywords unknown = "memory" ∷ "pattern" ∷ "agent" ∷ []

module _ (host : Host) where
  -- A word of a query is measured in bytes.
  unfoldable pub query_terms : Option String → List String
  query_terms none = []
  query_terms (some query) =
      keep (λ w. not (nat_beq (len w) 0))
        (map (λ w. trim_matches (λ c. not (host.is_alphanumeric c)) (host.to_lowercase w))
          (keep (λ w. leb 3 (len w)) (split_whitespace query)))

  pub matches_line : TaskType → Option String → String → Bool
  unfolding task_keywords
  matches_line task_type query line =
      let lowered = host.to_lowercase line in
      any_in (task_keywords task_type) lowered || any_in (query_terms query) lowered

  blank_query : Option String → Bool
  blank_query none = true
  blank_query (some query) = nat_beq (len (trim query)) 0

  pub prune_lines : List String → TaskType → Option String → List String
  unfolding matches_line blank_query
  prune_lines content_lines task_type query =
      elim (keep (matches_line task_type query) content_lines) [
        | [] ↦ if blank_query query then take 30 content_lines else []
        | l ∷ ls ↦ take 80 (l ∷ ls)
      ]

  pub prune_rules_content : String → TaskType → Option String → String
  unfolding prune_lines
  prune_rules_content content task_type query =
      join "\n" (prune_lines (lines content) task_type query)

  rules_section : TaskType → Option String → String → List Draft
  unfolding prune_rules_content
  rules_section task_type query path = elim (host.read_to_string path) [
    | none ↦ []
    | some content ↦
        (let pruned = prune_rules_content content task_type query in
          if nat_beq (len (trim pruned)) 0
          then []
          else (
            concat "rules:" (elim (host.file_name path) [ none ↦ "rules" | some n ↦ n ]),
            pruned,
            70,
          )
            ∷ [])
  ]

  rules_sections : TaskType → Option String → List String → List Draft
  unfolding rules_section
  rules_sections task_type query [] = []
  rules_sections task_type query (path ∷ paths) =
      rules_section task_type query path ++ rules_sections task_type query paths

  pub rules_pruning : (workspace_root : Option String) → TaskType → Option String → List Draft
  unfolding rule_file_candidates rules_sections
  rules_pruning workspace_root task_type query =
      rules_sections task_type query (rule_file_candidates workspace_root)
