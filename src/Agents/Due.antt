-- ===== src/Agents/Due.antt =====
-- Which agents of agents/mod.rs report.
use memix.Base.{
  ℕ, suc, ◌+◌, ◌*◌, String, ◌≡◌, refl, inl, inr, Bool, false, Option, none, some, List, [], ◌∷◌,
  ◌++◌, map, arith, eq_iff, if◌then◌else◌, number_key, text_key, pair_key, bool_key, both,
  Option-cases,
}
use memix.Dict.{Dict, insert, contains}
use memix.Dict.Laws.{lookup-insert}
use memix.Dict.Entries.{NoRepeat}
use memix.Agents.{
  AgentConfig, AgentReport, AgentRuntime, allowed, cooldown_elapsed, record_report, run_agent,
  run_agents,
}

abbrev pub names_of : List AgentConfig → List String
names_of configs = map (λ c. c.name) configs

abbrev pub report_list : Option AgentReport → List AgentReport
report_list none = []
report_list (some report) = report ∷ []

module _ (wants : AgentConfig → Bool) (execute : AgentConfig → Option AgentReport)
    (clock : ℕ → ℕ) where
  -- The reports of the agents that are wanted and whose cooldown is over by the runs before the call.
  unfoldable pub due_reports : Dict String ℕ → ℕ → List AgentConfig → List AgentReport
  due_reports last_run i [] = []
  due_reports last_run i (c ∷ cs) =
      (if both (wants c) (allowed last_run c.name c.cooldown_ms (clock (2 * i)))
        then report_list (execute c)
        else [])
      ++ due_reports last_run (suc i) cs

  due_reports-insert :
      (name : String) (now : ℕ) (m : Dict String ℕ) (i : ℕ) (cs : List AgentConfig)
      → contains name (names_of cs) ≡ false
      → due_reports (insert name now m) i cs ≡ due_reports m i cs
  unfolding due_reports allowed contains
  due_reports-insert name now m i [] h = refl
  due_reports-insert name now m i (c ∷ cs) h = ground (
    arith,
    due_reports-insert name now m (suc i) cs,
    lookup-insert name c.name now m,
    eq_iff name c.name,
    eq_iff c.name name,
    h,
  )

  run_agent_reports :
      (i : ℕ) (c : AgentConfig) (runtime : AgentRuntime)
      → (run_agent wants execute clock i c runtime).1 ≡ (
          if both (wants c) (allowed runtime.last_run c.name c.cooldown_ms (clock (2 * i)))
          then report_list (execute c)
          else [])
  unfolding run_agent cooldown_elapsed
  run_agent_reports i c runtime = elim (Option-cases (execute c)) [
    | inl n ↦ ground (arith, n)
    | inr (r, s) ↦ ground (arith, s)
  ]

  -- An agent's run leaves the cooldowns of the others as they are.
  run_agent-others :
      (i j : ℕ) (c : AgentConfig) (cs : List AgentConfig) (runtime : AgentRuntime)
      → contains c.name (names_of cs) ≡ false
      → due_reports (run_agent wants execute clock i c runtime).0.last_run j cs
        ≡ due_reports runtime.last_run j cs
  unfolding run_agent cooldown_elapsed record_report
  run_agent-others i j c cs runtime h =
      let asked = insert c.name (clock (2 * i)) runtime.last_run in
      let once = due_reports-insert c.name (clock (2 * i)) runtime.last_run j cs h in
      let twice = due_reports-insert c.name (clock (2 * i + 1)) asked j cs h in
      elim (Option-cases (execute c)) [
        | inl n ↦ ground (arith, n, once)
        | inr (r, s) ↦ ground (arith, s, once, twice)
      ]

  pub run_agents-due :
      (i : ℕ) (cs : List AgentConfig) (runtime : AgentRuntime)
      → NoRepeat (names_of cs)
      → (run_agents wants execute clock i cs runtime).1 ≡ due_reports runtime.last_run i cs
  unfolding run_agents due_reports
  run_agents-due i [] runtime n = refl
  run_agents-due i (c ∷ cs) runtime n =
      let next = (run_agent wants execute clock i c runtime).0 in
      rw
        (
          run_agents-due (suc i) cs next n.1,
          run_agent_reports i c runtime,
          run_agent-others i (suc i) c cs runtime n.0,
        )
        refl
