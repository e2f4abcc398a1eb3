-- ===== src/Agents/Save.antt =====
-- agents/mod.rs: the report of each agent, and process_file_save and process_session_start.
use memix.Base.{
  ℕ, ◌+◌, String, Bool, true, false, not, ◌&&◌, ◌||◌, Option, none, some, List, [], ◌∷◌, ◌++◌, map,
  ltb, if◌then◌else◌, ◌==◌, number_key, text_key, pair_key, bool_key, length, keep, concat, show,
  sort_by, join, text_le,
}
use memix.Dict.{lookup, or_else, add}
use memix.Context.{AstNodeFeature}
use memix.Brain.Value.{Value, bool, number, string, array}
use memix.Agents.{
  AgentConfig, AgentReport, AgentRuntime, AgentTrigger, file_save, function_signature_change,
  session_start, info, warning, critical, run_agents,
}
use memix.Agents.Reports.{
  Host, FileSaveAgentContext, texts, json, signatures, values_of, is_empty, report, notice,
  collect_related_files, is_test_path, security_findings,
}

module _ (host : Host) (config : AgentConfig) (ctx : FileSaveAgentContext) where
  unfoldable pub build_code_observer_report : AgentReport
  build_code_observer_report =
      let added = map (λ n. n.name) ctx.diff.nodes_added in
      let removed = map (λ n. n.name) ctx.diff.nodes_removed in
      let modified = map (λ n. n.name) ctx.diff.nodes_modified in
      let quiet = is_empty ctx.breaking_signatures in
      report host config (if quiet then info else warning)
        (notice (concat config.name " observed a code mutation") (
            concat (show (length added)) (
              concat " added, " (
                concat (show (length removed)) (
                  concat " removed, "
                    (concat (show (length modified)) (concat " modified in " ctx.file_path))))))
          ∷ (if quiet
              then []
              else notice "Breaking signatures detected" (
                  concat (show (length ctx.breaking_signatures))
                    " signature changes may ripple to dependents")
                ∷ []))
        (json (
          ("file", string ctx.file_path)
          ∷ ("nodes_changed", number (show (length added + length removed + length modified)))
          ∷ ("added", texts added)
          ∷ ("removed", texts removed)
          ∷ ("modified", texts modified)
          ∷ ("breaking_signatures", signatures ctx.breaking_signatures)
          ∷ []))

  unfoldable pub build_intent_predictor_report : AgentReport
  build_intent_predictor_report =
      let related_files = collect_related_files ctx.dependency_graph ctx.file_path 8 in
      report host config (if ctx.intent_confidence.high then info else warning)
        (notice (concat config.name (concat " inferred " ctx.intent_type)) (
            concat "confidence " (
              concat ctx.intent_confidence.percent
                (concat "% • " (concat (show (length related_files)) " related files"))))
          ∷ [])
        (json (
          ("file", string ctx.file_path)
          ∷ ("intent_type", string ctx.intent_type)
          ∷ ("confidence", number ctx.intent_confidence.printed)
          ∷ ("related_files", texts related_files)
          ∷ []))

  unfoldable pub build_security_scanner_report : Option AgentReport
  build_security_scanner_report =
      let findings = security_findings host ctx.file_content in
      if is_empty findings
      then none
      else some (
          report host config critical
            (notice (concat config.name " flagged risky code")
                (concat (show (length findings)) (concat " findings in " ctx.file_path))
              ∷ [])
            (json (("file", string ctx.file_path) ∷ ("findings", array (values_of findings)) ∷ [])))

  risky_function : AstNodeFeature → Value
  risky_function feature = json (
      ("name", string feature.name)
      ∷ ("complexity", number (show feature.cyclomatic_complexity))
      ∷ ("kind", string feature.kind)
      ∷ [])

  unfoldable pub build_complexity_watcher_report : Option AgentReport
  unfolding risky_function
  build_complexity_watcher_report =
      let risky = map risky_function (
        keep (λ feature. ltb 10 feature.cyclomatic_complexity)
          (ctx.diff.nodes_modified ++ ctx.diff.nodes_added)) in
      if is_empty risky
      then none
      else some (
          report host config warning
            (notice (concat config.name " flagged complex code") (
                concat (show (length risky))
                  (concat " functions above threshold in " ctx.file_path))
              ∷ [])
            (json (
              ("file", string ctx.file_path)
              ∷ ("threshold", number "10")
              ∷ ("risky_functions", array (values_of risky))
              ∷ [])))

  unfoldable pub build_test_sentinel_report : Option AgentReport
  build_test_sentinel_report =
      let impacted_tests =
        keep (is_test_path host)
          (or_else [] (lookup ctx.file_path ctx.dependency_graph.edges_in)) in
      if (is_empty ctx.breaking_signatures && is_empty ctx.diff.nodes_modified)
        || is_empty impacted_tests
      then none
      else some (
          report host config warning
            (notice (concat config.name " found potentially impacted tests")
                (concat (show (length impacted_tests)) " test files may require updates")
              ∷ [])
            (json (
              ("file", string ctx.file_path)
              ∷ ("impacted_tests", texts impacted_tests)
              ∷ ("breaking_signatures", signatures ctx.breaking_signatures)
              ∷ [])))

  add_all : List String → List String → List String
  add_all set [] = set
  add_all set (tag ∷ tags) = add_all (add tag set) tags

  tags_of : List String → List AstNodeFeature → List String
  unfolding add_all
  tags_of set [] = set
  tags_of set (f ∷ fs) = tags_of (add_all set f.pattern_tags) fs

  unfoldable pub build_pattern_learner_report : AgentReport
  unfolding tags_of
  build_pattern_learner_report =
      let patterns =
        sort_by text_le (tags_of [] (ctx.diff.nodes_modified ++ ctx.diff.nodes_added)) in
      report host config info
        (notice (concat config.name " observed recurring patterns") (
            if is_empty patterns
            then "No explicit pattern shift detected"
            else concat "Observed patterns: " (join ", " patterns))
          ∷ [])
        (json (
          ("file", string ctx.file_path)
          ∷ ("observed_patterns", texts patterns)
          ∷ ("recent_change_files", texts ctx.recent_change_files)
          ∷ []))

  unfoldable pub build_documentation_tracker_report : Option AgentReport
  build_documentation_tracker_report =
      if is_empty ctx.breaking_signatures
      then none
      else some (
          report host config warning
            (notice (concat config.name " suspects stale docs") (
                concat "Signature changes in "
                  (concat ctx.file_path " may require README/file map updates"))
              ∷ [])
            (json (
              ("file", string ctx.file_path)
              ∷ ("stale_doc_risk", bool true)
              ∷ ("signature_changes", signatures ctx.breaking_signatures)
              ∷ [])))

  unfoldable pub build_generic_report : AgentReport
  build_generic_report =
      report host config info
        (notice (concat config.name " executed") (concat "Observed file save in " ctx.file_path)
          ∷ [])
        (json (
          ("file", string ctx.file_path)
          ∷ ("scope", string config.scope)
          ∷ ("action_description", string config.action_description)
          ∷ []))

  unfoldable pub execute_file_save_agent : Option AgentReport
  unfolding build_code_observer_report build_intent_predictor_report build_security_scanner_report
      build_complexity_watcher_report build_test_sentinel_report build_pattern_learner_report
      build_documentation_tracker_report build_generic_report
  execute_file_save_agent =
      if config.name == "CodeObserver"
      then some build_code_observer_report
      else if config.name == "IntentPredictor"
      then some build_intent_predictor_report
      else if config.name == "SecurityScanner"
      then build_security_scanner_report
      else if config.name == "ComplexityWatcher"
      then build_complexity_watcher_report
      else if config.name == "TestSentinel"
      then build_test_sentinel_report
      else if config.name == "PatternLearner"
      then some build_pattern_learner_report
      else if config.name == "DocumentationTracker"
      then build_documentation_tracker_report
      else some build_generic_report

-- The guards of process_file_save before the cooldown.
unfoldable pub wants_file_save : FileSaveAgentContext → AgentTrigger → Bool
wants_file_save ctx file_save = true
wants_file_save ctx function_signature_change =
    not (is_empty ctx.breaking_signatures && is_empty ctx.diff.nodes_modified)
wants_file_save ctx other = false

unfoldable pub process_file_save :
    Host → FileSaveAgentContext → (clock : ℕ → ℕ) → AgentRuntime → AgentRuntime × List AgentReport
unfolding wants_file_save execute_file_save_agent run_agents
process_file_save host ctx clock runtime =
    run_agents (λ c. wants_file_save ctx c.trigger) (λ c. execute_file_save_agent host c ctx) clock
      0 runtime.configs runtime

pub record SessionStartContext : Type 0 where
  pub project_id : String
  pub workspace_root : String

unfoldable pub is_session_start : AgentTrigger → Bool
is_session_start session_start = true
is_session_start other = false

unfoldable pub session_report : Host → SessionStartContext → AgentConfig → AgentReport
session_report host ctx config =
    report host config info
      (notice (concat config.name " initialized")
          (concat "Session started for " (concat ctx.project_id (concat " at " ctx.workspace_root)))
        ∷ [])
      (json (
        ("project_id", string ctx.project_id)
        ∷ ("workspace_root", string ctx.workspace_root)
        ∷ ("scope", string config.scope)
        ∷ ("action_description", string config.action_description)
        ∷ []))

unfoldable pub process_session_start :
    Host → SessionStartContext → (clock : ℕ → ℕ) → AgentRuntime → AgentRuntime × List AgentReport
unfolding is_session_start session_report run_agents
process_session_start host ctx clock runtime =
    run_agents (λ c. is_session_start c.trigger) (λ c. some (session_report host ctx c)) clock 0
      runtime.configs runtime
