-- ===== src/Context/Compile.antt =====
-- context/mod.rs, `ContextCompiler::compile`: the passes one after the other.
pub mod Packet
pub mod Kinds
pub mod Total
use memix.Base.{
  ℕ, zero, suc, ◌+◌, ◌-◌, ◌*◌, ◌/◌, ◌%◌, ◌^◌, ◌≤◌, ◌<◌, min, max, String, ◌≡◌, refl, sym, ap, ◌∙◌,
  subst, ◌≢◌, ◌↔◌, ◌⊎◌, inl, inr, Bool, true, false, not, ◌&&◌, ◌||◌, Option, none, some, List, [],
  ◌∷◌, ◌++◌, map, arith, eq_iff, ltb, leb, nat_beq, if◌then◌else◌, Key, ◌==◌, number_key, text_key,
  pair_key, pair_equal_iff, bool_key, both, same, Bool-cases, Option-cases, length, drop, take,
  length-append, length-drop, keep, count, All, All-append, sum, sum-append, concat, show, some_inj,
  map-eq-some, if-eq-some, chain-eq-some, if_keeps, ℤ, pos, negsuc, negative, whole_units, exceeds,
  append_none, append_assoc, reverse, insert_by, sort_by, Sorted, count-insert_by, count-sort_by,
  All-insert_by, All-sort_by, sort_by-Sorted, All-take, take-Sorted, sort_by-coarse, lines,
  split_whitespace, trim_matches, trim, contains_text, strip_prefix, join, before_first,
}
use Prim.Native.String.{len}
use memix.Dict.{or_else, contains}
use memix.Graph.{DependencyGraph}
use memix.Brain.{MemoryEntry}
use memix.Recorder.{FlightRecord}
use memix.Context.{
  Host, TaskType, new_feature, bug_fix, refactor, code_review, unknown, CompileRequest,
  CompiledContext, CompiledSection, CompilePassMetrics,
}
use memix.Context.Reach.{RelevantFile, dead_context_elimination}
use memix.Context.Skeleton.{CodeSkeleton, skeleton_extraction, brain_dedup}
use memix.Context.History.{history_compaction}
use memix.Context.Rules.{rules_pruning}
use memix.Context.Ranking.{debug_name, priority_ranking}
use memix.Context.Fitting.{budget_fitting, table_fits}
use mathlib.Core.Option

pub parse_task_type : (to_lowercase : String → String) → Option String → TaskType
parse_task_type to_lowercase raw =
    let name = to_lowercase (trim (or_else "" raw)) in
    if contains name ("newfeature" ∷ "new_feature" ∷ "feature" ∷ [])
    then new_feature
    else if contains name ("bugfix" ∷ "bug_fix" ∷ "bug" ∷ [])
    then bug_fix
    else if name == "refactor"
    then refactor
    else if contains name ("codereview" ∷ "code_review" ∷ "review" ∷ [])
    then code_review
    else unknown

-- A quarter of each size, rounded down: by the files where there are any, else by the entries of the
-- skeleton index. The first list never is empty, since it has the active file.
naive_estimate : Host → List RelevantFile → List MemoryEntry → ℕ
naive_estimate host [] skeleton_entries = sum (map (λ e. len e.content / 4) skeleton_entries)
naive_estimate host (f ∷ fs) skeleton_entries =
    sum (map (λ g. or_else 0 (Option.map (λ n. n / 4) (host.file_size g.path))) (f ∷ fs))

pub count_kind : String → List CompiledSection → ℕ
count_kind kind sections = count (λ s. s.kind == kind) sections

abbrev pub no_metrics : CompilePassMetrics
no_metrics = record {
  relevant_files = 0;
  skeletons_built = 0;
  skeleton_index_sections = 0;
  deduplicated_files = 0;
  history_sections = 0;
  rules_sections = 0;
  ranked_sections = 0;
  fitted_sections = 0;
}

abbrev pub zero_context : CompiledContext
zero_context = record {
  budget = 0;
  total_tokens = 0;
  naive_token_estimate = 0;
  explainability_summary = "Zero token budget requested";
  selected_sections = [];
  omitted_section_ids = [];
  metrics = no_metrics;
}

explanation : (fitted relevant : ℕ) → TaskType → (budget : ℕ) → String
unfolding debug_name
explanation fitted relevant task_type budget = concat "Compiled " (
    concat (show fitted) (
      concat " context sections from " (
        concat (show relevant) (
          concat " relevant files for " (
            concat (debug_name task_type)
              (concat " under a " (concat (show budget) " token budget")))))))

-- The packet from the ranked sections.
pub packet :
    Host
    → CompileRequest
    → List RelevantFile
    → List MemoryEntry
    → (deduplicated_files : ℕ) → List CompiledSection
    → CompiledContext
unfolding parse_task_type naive_estimate count_kind explanation
packet host request relevant_files skeleton_entries deduplicated_files ranked =
    let fitted = budget_fitting ranked request.token_budget in
    record {
      budget = request.token_budget;
      total_tokens = fitted.total_tokens;
      naive_token_estimate = naive_estimate host relevant_files skeleton_entries;
      explainability_summary =
          explanation (length fitted.selected) (length relevant_files)
            (parse_task_type host.to_lowercase request.task_type) request.token_budget;
      selected_sections = fitted.selected;
      omitted_section_ids = fitted.omitted;
      metrics = record {
        relevant_files = length relevant_files;
        skeletons_built = count_kind "Skeleton" fitted.selected;
        skeleton_index_sections = count_kind "SkeletonIndex" fitted.selected;
        deduplicated_files = deduplicated_files;
        history_sections = count_kind "history" fitted.selected;
        rules_sections = count_kind "rules" fitted.selected;
        ranked_sections = length ranked;
        fitted_sections = length fitted.selected;
      };
    }

-- The last pass, where its table can be made.
pub fit_packet :
    Host
    → CompileRequest
    → List RelevantFile
    → List MemoryEntry
    → (deduplicated_files : ℕ) → List CompiledSection
    → Option CompiledContext
unfolding packet table_fits
fit_packet host request relevant_files skeleton_entries deduplicated_files ranked =
    if table_fits host.allocates (length ranked) request.token_budget
    then some (packet host request relevant_files skeleton_entries deduplicated_files ranked)
    else none

module _ (host : Host) (workspace_root : Option String) where
  -- The passes after the search of the relevant files.
  pub compile_files :
      CompileRequest
      → DependencyGraph
      → List FlightRecord
      → (brain_entries skeleton_entries : List MemoryEntry) → (causal_context : Option String)
      → List RelevantFile
      → Option CompiledContext
  unfolding fit_packet
  compile_files request graph history brain_entries skeleton_entries causal_context relevant_files =
      let task_type = parse_task_type host.to_lowercase request.task_type in
      let deduplicated =
        brain_dedup (skeleton_extraction host request.active_file relevant_files) brain_entries in
      if host.parser_ready
      then elim (priority_ranking host (host.importance graph) request.active_file task_type
          deduplicated.0 (history_compaction host.to_rfc3339 history)
          (rules_pruning host workspace_root task_type request.query) skeleton_entries
          causal_context request.query) [
            | none ↦ none
            | some ranked ↦
                fit_packet host request relevant_files skeleton_entries deduplicated.1 ranked
          ]
      else none

  pub compile :
      CompileRequest
      → DependencyGraph
      → List FlightRecord
      → (brain_entries skeleton_entries : List MemoryEntry) → (causal_context : Option String)
      → Option CompiledContext
  unfolding compile_files
  compile request graph history brain_entries skeleton_entries causal_context =
      if nat_beq request.token_budget 0
      then some zero_context
      else elim (dead_context_elimination request.active_file graph (or_else 2 request.max_depth)) [
        | none ↦ none
        | some files ↦
            compile_files request graph history brain_entries skeleton_entries causal_context files
      ]
