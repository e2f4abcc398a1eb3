-- ===== src/Agents/Cooling.antt =====
-- The cooldown of the agents of agents/mod.rs.
use memix.Base.{
  count-append, ℕ, suc, ◌+◌, ◌-◌, ◌*◌, ◌≤◌, ◌<◌, String, ◌≡◌, refl, sym, subst, inl, inr, Bool,
  false, Option, some, List, [], ◌∷◌, arith, eq_iff, leb, ◌==◌, number_key, text_key, pair_key,
  bool_key, Bool-cases, Option-cases, count, All,
}
use memix.Dict.{lookup, insert}
use memix.Dict.Laws.{lookup-insert}
use memix.Agents.{
  AgentConfig, AgentReport, AgentRuntime, allowed, cooldown_elapsed, record_report, run_agent,
  run_agents,
}
use memix.Agents.Reports.{Host, FileSaveAgentContext}
use memix.Agents.Save.{
  wants_file_save, process_file_save, execute_file_save_agent, build_code_observer_report,
  build_intent_predictor_report, build_security_scanner_report, build_complexity_watcher_report,
  build_test_sentinel_report, build_pattern_learner_report, build_documentation_tracker_report,
  build_generic_report,
}

-- Every agent names itself in its report.
execute-name :
    (host : Host) (config : AgentConfig) (ctx : FileSaveAgentContext) (r : AgentReport)
    → execute_file_save_agent host config ctx ≡ some r
    → r.agent_name ≡ config.name
unfolding execute_file_save_agent build_code_observer_report build_intent_predictor_report
    build_security_scanner_report build_complexity_watcher_report build_test_sentinel_report
    build_pattern_learner_report build_documentation_tracker_report build_generic_report
execute-name host config ctx r h = ground (arith, h)

module _ (name : String) (last period : ℕ) (wants : AgentConfig → Bool)
    (execute : AgentConfig → Option AgentReport) (clock : ℕ → ℕ) where
  -- The configurations of one name have at least this cooldown.
  abbrev AtLeast : AgentConfig → Type 0
  AtLeast c = c.name ≡ name → period ≤ c.cooldown_ms * 1000000

  -- What one agent's run keeps while the agents of the name cool down.
  record Cools (runtime : AgentRuntime) (result : AgentRuntime × List AgentReport) : Type 0 where
    last_run : lookup name result.0.last_run ≡ some last
    silent : count (λ r. r.agent_name == name) result.1 ≡ 0

  module _ (within : (i : ℕ) → clock i - last < period)
      (named : (c : AgentConfig) (r : AgentReport)
        → execute c ≡ some r
        → r.agent_name ≡ c.name) where
    run_same :
        (i : ℕ) (c : AgentConfig) (runtime : AgentRuntime)
        → c.name ≡ name
        → lookup name runtime.last_run ≡ some last
        → AtLeast c
        → run_agent wants execute clock i c runtime ≡ (runtime, [])
    unfolding run_agent cooldown_elapsed allowed
    run_same i c runtime e l a =
        let known : lookup c.name runtime.last_run ≡ some last =
          subst (λ x. lookup x runtime.last_run ≡ some last) (sym e) l in
        let early : leb (c.cooldown_ms * 1000000) (clock (2 * i) - last) ≡ false =
          ground (arith, within (2 * i), a e) in
        ground (arith, known, early)

    run_other :
        (i : ℕ) (c : AgentConfig) (runtime : AgentRuntime)
        → c.name == name ≡ false
        → lookup name runtime.last_run ≡ some last
        → Cools runtime (run_agent wants execute clock i c runtime)
    unfolding run_agent cooldown_elapsed record_report
    run_other i c runtime f l =
        let asked = insert c.name (clock (2 * i)) runtime.last_run in
        let once = lookup-insert c.name name (clock (2 * i)) runtime.last_run in
        let twice = lookup-insert c.name name (clock (2 * i + 1)) asked in
        elim (Option-cases (execute c)) [
          | inl n ↦ record { last_run = ground (arith, n, f, l, once); silent = ground (arith, n) }
          | inr (r, s) ↦ record {
            last_run = ground (arith, s, f, l, once, twice);
            silent = ground (arith, s, f, named c r s);
          }
        ]

    run_agent-Cools :
        (i : ℕ) (c : AgentConfig) (runtime : AgentRuntime)
        → lookup name runtime.last_run ≡ some last
        → AtLeast c
        → Cools runtime (run_agent wants execute clock i c runtime)
    run_agent-Cools i c runtime l a = elim (Bool-cases (c.name == name)) [
      | inl t ↦
          (let e : c.name ≡ name = ground (arith, eq_iff c.name name, t) in
            subst (Cools runtime) (sym (run_same i c runtime e l a))
              (record { last_run = l; silent = refl }))
      | inr f ↦ run_other i c runtime f l
    ]

    run_agents-silent :
        (i : ℕ) (cs : List AgentConfig) (runtime : AgentRuntime)
        → lookup name runtime.last_run ≡ some last
        → All AtLeast cs
        → count (λ r. r.agent_name == name) (run_agents wants execute clock i cs runtime).1 ≡ 0
    unfolding run_agents
    run_agents-silent i [] runtime l a = refl
    run_agents-silent i (c ∷ cs) runtime l a =
        let first = run_agent wants execute clock i c runtime in
        let cools = run_agent-Cools i c runtime l a.0 in
        let rest = run_agents-silent (suc i) cs first.0 cools.last_run a.1 in
        ground (
          arith,
          count-append (λ r. r.agent_name == name) first.1
              (run_agents wants execute clock (suc i) cs first.0).1,
          cools.silent,
          rest,
        )

-- Where the last run of an agent is known, and the clock is within a period of it that the cooldowns
-- of all configurations of its name reach, a saved file gives no report of that agent.
pub process_file_save-silent :
    (host : Host) (ctx : FileSaveAgentContext) (clock : ℕ → ℕ) (runtime : AgentRuntime)
    (name : String) (last period : ℕ)
    → lookup name runtime.last_run ≡ some last
    → ((i : ℕ) → clock i - last < period)
    → All (λ c. c.name ≡ name → period ≤ c.cooldown_ms * 1000000) runtime.configs
    → count (λ r. r.agent_name == name) (process_file_save host ctx clock runtime).1 ≡ 0
unfolding process_file_save
process_file_save-silent host ctx clock runtime name last period l w a =
    run_agents-silent name last period (λ c. wants_file_save ctx c.trigger)
      (λ c. execute_file_save_agent host c ctx) clock w (λ c r. execute-name host c ctx r) 0
      runtime.configs runtime l a
