-- ===== src/Agents/Ring.antt =====
-- The ring of recent reports of agents/mod.rs.
use memix.Base.{
  drop-append, drop-drop, last_of, ℕ, suc, ◌-◌, ◌≡◌, refl, sym, ap, ◌∙◌, inl, inr, Bool, true,
  Option, List, [], ◌∷◌, ◌++◌, arith, leb, number_key, text_key, pair_key, bool_key, Bool-cases,
  Option-cases, length, drop, length-append, length-drop, append_none, append_assoc,
}
use memix.Agents.{
  AgentConfig, AgentReport, AgentRuntime, cooldown_elapsed, push_report, record_report, run_agent,
  run_agents,
}

-- A report at the end of the last 128 ones gives the last 128 ones.
push_report-last :
    (r : AgentReport) (past : List AgentReport)
    → push_report r (last_of 128 past) ≡ last_of 128 (past ++ r ∷ [])
unfolding push_report
push_report-last r past =
    let more : length (past ++ r ∷ []) ≡ suc (length past) =
      omega (arith, length-append past (r ∷ [])) in
    let k : ℕ = length past - 128 in
    elim (Bool-cases (leb 128 (length past))) [
      | inl h ↦
          (let room : leb 128 (length (drop k past)) ≡ true =
              ground (arith, length-drop k past, h) in
            let next : suc (length past) - 128 ≡ suc k = ground (arith, h) in
            rw
              (
                room,
                drop-drop k past,
                more,
                next,
                drop-append (suc k) past (r ∷ []) (ground (arith, h)),
              )
              refl)
      | inr h ↦
          (let zero_before : length past - 128 ≡ 0 = ground (arith, h) in
            let zero_after : suc (length past) - 128 ≡ 0 = ground (arith, h) in
            rw (more, zero_before, zero_after, h) refl)
    ]

module _ (wants : AgentConfig → Bool) (execute : AgentConfig → Option AgentReport)
    (clock : ℕ → ℕ) where
  run_agent-ring :
      (past : List AgentReport) (i : ℕ) (c : AgentConfig) (runtime : AgentRuntime)
      → runtime.recent_reports ≡ last_of 128 past
      → (run_agent wants execute clock i c runtime).0.recent_reports
        ≡ last_of 128 (past ++ (run_agent wants execute clock i c runtime).1)
  unfolding run_agent cooldown_elapsed record_report
  run_agent-ring past i c runtime h = elim (Option-cases (execute c)) [
    | inl n ↦ ground (arith, n, h, append_none past)
    | inr (r, s) ↦ ground (arith, s, h, append_none past, push_report-last r past)
  ]

  pub run_agents-ring :
      (past : List AgentReport) (i : ℕ) (cs : List AgentConfig) (runtime : AgentRuntime)
      → runtime.recent_reports ≡ last_of 128 past
      → (run_agents wants execute clock i cs runtime).0.recent_reports
        ≡ last_of 128 (past ++ (run_agents wants execute clock i cs runtime).1)
  unfolding run_agents
  run_agents-ring past i [] runtime h = h ∙ ap (last_of 128) (sym (append_none past))
  run_agents-ring past i (c ∷ cs) runtime h =
      let first = run_agent wants execute clock i c runtime in
      let rest = run_agents wants execute clock (suc i) cs first.0 in
      run_agents-ring (past ++ first.1) (suc i) cs first.0 (run_agent-ring past i c runtime h)
      ∙ ap (last_of 128) (append_assoc past first.1 rest.1)
