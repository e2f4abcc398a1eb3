-- ===== src/Agents/Session.antt =====
-- The calls of the agents of agents/mod.rs over a session.
use memix.Base.{
  last_of, ℕ, String, ◌≡◌, refl, sym, ap, ◌∙◌, Option, some, List, [], ◌∷◌, ◌++◌, number_key,
  text_key, pair_key, bool_key, append_none, append_assoc,
}
use memix.Dict.Entries.{NoRepeat}
use memix.Agents.{AgentConfig, AgentReport, AgentRuntime, reload, new}
use memix.Agents.Due.{names_of, due_reports, run_agents-due}
use memix.Agents.Ring.{run_agents-ring}
use memix.Agents.Reports.{Host, FileSaveAgentContext}
use memix.Agents.Save.{
  SessionStartContext, wants_file_save, execute_file_save_agent, process_file_save,
  process_session_start, is_session_start, session_report,
}

-- Where no two agents have one name, the reports of a saved file are those of the agents that its
-- trigger and the change call for and that, by the runs before the call, are allowed at the time at
-- which they are asked, in the order of the configurations.
pub process_file_save-due :
    (host : Host) (ctx : FileSaveAgentContext) (clock : ℕ → ℕ) (runtime : AgentRuntime)
    → NoRepeat (names_of runtime.configs)
    → (process_file_save host ctx clock runtime).1
      ≡ due_reports
          (λ c. wants_file_save ctx c.trigger)
          (λ c. execute_file_save_agent host c ctx)
          clock
          runtime.last_run
          0
          runtime.configs
unfolding process_file_save
process_file_save-due host ctx clock runtime n =
    run_agents-due (λ c. wants_file_save ctx c.trigger) (λ c. execute_file_save_agent host c ctx)
      clock 0 runtime.configs runtime n

pub data Event : Type 0 where
  saved : FileSaveAgentContext → (clock : ℕ → ℕ) → Event
  started : SessionStartContext → (clock : ℕ → ℕ) → Event
  reloaded : List AgentConfig × Option String → Event

unfoldable pub handle : Host → Event → AgentRuntime → AgentRuntime × List AgentReport
unfolding process_file_save process_session_start reload
handle host (saved ctx clock) runtime = process_file_save host ctx clock runtime
handle host (started ctx clock) runtime = process_session_start host ctx clock runtime
handle host (reloaded loaded) runtime = (reload loaded runtime, [])

-- The runtime after the events, and all reports that they gave.
unfoldable pub run : Host → List Event → AgentRuntime → AgentRuntime × List AgentReport
unfolding handle
run host [] runtime = (runtime, [])
run host (e ∷ es) runtime =
    let first = handle host e runtime in
    let rest = run host es first.0 in (rest.0, first.1 ++ rest.1)

handle-ring :
    (host : Host) (e : Event) (past : List AgentReport) (runtime : AgentRuntime)
    → runtime.recent_reports ≡ last_of 128 past
    → (handle host e runtime).0.recent_reports ≡ last_of 128 (past ++ (handle host e runtime).1)
unfolding handle process_file_save process_session_start reload
handle-ring host (saved ctx clock) past runtime h =
    run_agents-ring (λ c. wants_file_save ctx c.trigger) (λ c. execute_file_save_agent host c ctx)
      clock past 0 runtime.configs runtime h
handle-ring host (started ctx clock) past runtime h =
    run_agents-ring (λ c. is_session_start c.trigger) (λ c. some (session_report host ctx c)) clock
      past 0 runtime.configs runtime h
handle-ring host (reloaded loaded) past runtime h = h ∙ ap (last_of 128) (sym (append_none past))

run-ring :
    (host : Host) (es : List Event) (past : List AgentReport) (runtime : AgentRuntime)
    → runtime.recent_reports ≡ last_of 128 past
    → (run host es runtime).0.recent_reports ≡ last_of 128 (past ++ (run host es runtime).1)
unfolding run
run-ring host [] past runtime h = h ∙ ap (last_of 128) (sym (append_none past))
run-ring host (e ∷ es) past runtime h =
    let first = handle host e runtime in
    let rest = run host es first.0 in
    run-ring host es (past ++ first.1) first.0 (handle-ring host e past runtime h)
    ∙ ap (last_of 128) (append_assoc past first.1 rest.1)

-- After any session of saved files, starts and reloads the recent reports are the last 128 of all
-- reports that its calls gave, oldest first.
pub run-recent :
    (host : Host) (workspace_root : String) (loaded : List AgentConfig × Option String)
    (es : List Event)
    → (run host es (new workspace_root loaded)).0.recent_reports
      ≡ last_of 128 (run host es (new workspace_root loaded)).1
unfolding new reload
run-recent host workspace_root loaded es = run-ring host es [] (new workspace_root loaded) refl
