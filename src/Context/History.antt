-- ===== src/Context/History.antt =====
-- context/mod.rs, `pass_history_compaction`: the last four records in full, the earlier ones as a
-- summary.
use memix.Base.{
  text_le, ℕ, suc, ◌-◌, String, List, [], ◌∷◌, ◌++◌, map, number_key, text_key, pair_key, bool_key,
  length, drop, take, concat, show, sort_by, join,
}
use memix.Dict.{add}
use memix.Recorder.{
  FlightRecord, SessionEvent, ast_mutation, memory_accessed, intent_detected, score_penalty,
}

-- The identifier, the content and the priority of a section.
abbrev pub Draft : Type 0
Draft = String × String × ℕ

summarize_event : SessionEvent → String
summarize_event (ast_mutation file nodes_changed) =
    concat "AST mutation in "
      (concat file (concat " (" (concat (show nodes_changed) " nodes changed)")))
summarize_event (memory_accessed memory_id) = concat "Memory accessed: " memory_id
summarize_event (intent_detected intent_type) = concat "Intent detected: " intent_type
summarize_event (score_penalty reason severity) =
    concat "Score penalty [" (concat (show severity) (concat "]: " reason))

-- What the loop over the older records collects.
pub record Collected : Type 0 where
  pub mutation_count : ℕ
  pub intent_types : List String
  pub files : List String

collect_event : SessionEvent → Collected → Collected
collect_event (ast_mutation file n) c = record c {
  mutation_count = suc c.mutation_count;
  files = add file c.files;
}
collect_event (intent_detected intent_type) c = record c {
  intent_types = add intent_type c.intent_types;
}
collect_event (memory_accessed id) c = c
collect_event (score_penalty reason n) c = c

pub collect : Collected → List FlightRecord → Collected
unfolding collect_event
collect c [] = c
collect c (r ∷ rs) = collect (collect_event r.event c) rs

listed : List String → String
listed [] = "none"
listed (x ∷ xs) = join ", " (x ∷ xs)

summary : Collected → String
unfolding listed
summary c = concat "Earlier session summary:\n- AST mutations: " (
    concat (show c.mutation_count) (
      concat "\n- Intent types: " (
        concat (listed (sort_by text_le c.intent_types))
          (concat "\n- Files touched: " (listed (sort_by text_le c.files))))))

module _ (to_rfc3339 : ℕ → String) where
  recent_line : FlightRecord → String
  unfolding summarize_event
  recent_line r =
      concat "- " (concat (to_rfc3339 r.timestamp) (concat " :: " (summarize_event r.event)))

  summary_section : List FlightRecord → List Draft
  unfolding collect summary
  summary_section [] = []
  summary_section (r ∷ rs) =
      (
        "history:summary",
        summary (collect (record { mutation_count = 0; intent_types = []; files = [] }) (r ∷ rs)),
        55,
      )
      ∷ []

  recent_section : List FlightRecord → List Draft
  unfolding recent_line
  recent_section [] = []
  recent_section (r ∷ rs) =
      (
        "history:recent",
        concat "Recent daemon history:\n" (join "\n" (map recent_line (r ∷ rs))),
        80,
      )
      ∷ []

  pub history_compaction : List FlightRecord → List Draft
  unfolding summary_section recent_section
  history_compaction history =
      let split = length history - 4 in
      summary_section (take split history) ++ recent_section (drop split history)
