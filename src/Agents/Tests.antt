-- ===== src/Agents/Tests.antt =====
-- Concrete runs of the agents of agents/mod.rs.
use memix.Base.{
  last_of, ℕ, ◌*◌, ◌≤◌, String, ◌≡◌, refl, true, none, some, List, [], ◌∷◌, arith, ◌==◌, number_key,
  text_key, pair_key, bool_key, count,
}
use memix.Dict.{lookup}
use memix.Graph.{empty}
use memix.Agents.{
  AgentConfig, AgentTrigger, AgentRuntime, file_save, function_signature_change, new,
}
use memix.Agents.Reports.{Host, FileSaveAgentContext}
use memix.Agents.Save.{process_file_save}
use memix.Agents.Session.{saved, run, run-recent}
use memix.Agents.Cooling.{process_file_save-silent}

-- No security file, and a regular expression matches nothing.
abbrev plain_host : Host
plain_host = record {
  to_lowercase = λ s. s;
  security_file = none;
  parse_rules = λ s. none;
  find_all = λ p s. some [];
  utc_now = 0;
}

abbrev saved_main : FileSaveAgentContext
saved_main = record {
  project_id = "p";
  file_path = "src/main.rs";
  file_content = "";
  diff = record { file = "src/main.rs"; nodes_added = []; nodes_removed = []; nodes_modified = [] };
  features = [];
  dependency_graph = empty;
  intent_type = "editing";
  intent_confidence = record { high = true; percent = "90"; printed = "0.9" };
  breaking_signatures = [];
  recent_change_files = [];
}

abbrev agent : String → AgentTrigger → AgentConfig
agent name trigger = record {
  name = name;
  trigger = trigger;
  scope = "workspace";
  action_description = "";
  output_key = "out";
  cooldown_ms = 5;
  source_path = none;
}

abbrev agents : List AgentConfig
agents =
    agent "Notes" file_save
    ∷ agent "Signatures" function_signature_change
    ∷ agent "SecurityScanner" file_save
    ∷ []

abbrev at : ℕ → ℕ → ℕ
at time position = time

run-recent_example :
    (run plain_host
      (saved saved_main (at 7) ∷ saved saved_main (at 9) ∷ [])
      (new "/w" (agents, none))).0.recent_reports
    ≡ last_of 128
        (run plain_host
          (saved saved_main (at 7) ∷ saved saved_main (at 9) ∷ [])
          (new "/w" (agents, none))).1
run-recent_example =
    run-recent plain_host "/w" (agents, none)
      (saved saved_main (at 7) ∷ saved saved_main (at 9) ∷ [])

-- A runtime whose scanner ran at 7.
abbrev cooling : AgentRuntime
cooling = record {
  workspace_root = "/w";
  configs = agents;
  last_run = ("SecurityScanner", 7) ∷ [];
  recent_reports = [];
  source_path = none;
}

process_file_save-silent_example :
    count
      (λ r. r.agent_name == "SecurityScanner")
      (process_file_save plain_host saved_main (at 9) cooling).1
    ≡ 0
unfolding lookup
process_file_save-silent_example =
    process_file_save-silent plain_host saved_main (at 9) cooling "SecurityScanner" 7 5000000 refl
      (λ i. omega arith) (at_least, (at_least, (at_least, tt)))
  where
    at_least : {n : String} → n ≡ "SecurityScanner" → 5000000 ≤ 5 * 1000000
    at_least e = omega arith
