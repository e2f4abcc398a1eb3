-- ===== src/Agents.antt =====
-- agents/mod.rs: the agents that run when a file is saved and when a session starts, their
-- cooldowns, and the ring of recent reports. An instant is a number of nanoseconds.
pub mod Reports
pub mod Save
pub mod Due
mod Ring
pub mod Session
mod Parse
pub mod Cooling
mod Tests
use memix.Base.{
  ℕ, zero, suc, ◌+◌, ◌-◌, ◌*◌, ◌/◌, ◌%◌, ◌^◌, ◌≤◌, ◌<◌, min, max, String, ◌≡◌, refl, sym, ap, ◌∙◌,
  subst, ◌≢◌, ◌↔◌, ◌⊎◌, inl, inr, Bool, true, false, not, ◌&&◌, ◌||◌, Option, none, some, List, [],
  ◌∷◌, ◌++◌, map, arith, eq_iff, ltb, leb, nat_beq, if◌then◌else◌, Key, ◌==◌, number_key, text_key,
  pair_key, pair_equal_iff, bool_key, both, same, Bool-cases, Option-cases, length, drop, take,
  length-append, length-drop, keep, count, All, All-append, sum, sum-append, concat, show, some_inj,
  map-eq-some, if-some-cases, if-eq-some, chain-eq-some, if_keeps, ℤ, pos, negsuc, negative,
  whole_units, exceeds, append_none, keep-append, append_assoc, reverse, insert_by, sort_by, Sorted,
  count-insert_by, count-sort_by, All-insert_by, All-sort_by, sort_by-Sorted, All-take, take-Sorted,
  sort_by-coarse, OneLine, lines-OneLine, length-lines-join_le, lines, split_whitespace,
  trim_matches, trim, contains_text, strip_prefix, join, before_first,
}
use memix.Dict.{Dict, lookup, insert}
use memix.Brain.Value.{Value}

pub data AgentTrigger : Type 0 where
  file_save : AgentTrigger
  file_open : AgentTrigger
  function_signature_change : AgentTrigger
  interval : (seconds : ℕ) → AgentTrigger
  session_start : AgentTrigger
  git_commit : AgentTrigger
  manual : AgentTrigger
  unknown : String → AgentTrigger

pub data AgentSeverity : Type 0 where
  info : AgentSeverity
  warning : AgentSeverity
  critical : AgentSeverity

pub record AgentConfig : Type 0 where
  pub name : String
  pub trigger : AgentTrigger
  pub scope : String
  pub action_description : String
  pub output_key : String
  pub cooldown_ms : ℕ
  pub source_path : Option String

pub record AgentNotification : Type 0 where
  pub title : String
  pub message : String

-- `payload` is the field `data`.
pub record AgentReport : Type 0 where
  pub agent_name : String
  pub entry_id : String
  pub output_key : String
  pub severity : AgentSeverity
  pub notifications : List AgentNotification
  pub payload : Value
  pub generated_at : ℕ

pub record AgentRuntime : Type 0 where
  pub workspace_root : String
  pub configs : List AgentConfig
  pub last_run : Dict String ℕ
  pub recent_reports : List AgentReport
  pub source_path : Option String

-- `loaded` is what the file of agents gives: its configurations and its path.
unfoldable pub reload : (loaded : List AgentConfig × Option String) → AgentRuntime → AgentRuntime
reload loaded runtime = record runtime { configs = loaded.0; source_path = loaded.1 }

unfoldable pub new :
    (workspace_root : String) (loaded : List AgentConfig × Option String) → AgentRuntime
unfolding reload
new workspace_root loaded = reload loaded (record {
  workspace_root = workspace_root;
  configs = [];
  last_run = [];
  recent_reports = [];
  source_path = none;
})

-- Whether the agent did not run within its cooldown before `now`; a later run counts as one at `now`.
unfoldable pub allowed :
    (last_run : Dict String ℕ) (agent_name : String) (cooldown_ms now : ℕ) → Bool
unfolding lookup
allowed last_run agent_name cooldown_ms now = elim (lookup agent_name last_run) [
  | none ↦ true
  | some last ↦ leb (cooldown_ms * 1000000) (now - last)
]

unfoldable pub cooldown_elapsed :
    (agent_name : String) (cooldown_ms now : ℕ) → AgentRuntime → Bool × AgentRuntime
unfolding allowed insert
cooldown_elapsed agent_name cooldown_ms now runtime =
    let ok = allowed runtime.last_run agent_name cooldown_ms now in
    (
      ok,
      (if ok
          then record runtime { last_run = insert agent_name now runtime.last_run }
          else runtime),
    )

unfoldable pub push_report : AgentReport → List AgentReport → List AgentReport
push_report report reports =
    (if leb 128 (length reports) then drop 1 reports else reports) ++ report ∷ []

unfoldable pub record_report :
    (agent_name : String) (report : AgentReport) (now : ℕ) → AgentRuntime → AgentRuntime
unfolding push_report insert
record_report agent_name report now runtime = record runtime {
  recent_reports = push_report report runtime.recent_reports;
  last_run = insert agent_name now runtime.last_run;
}

-- The loop over the agents that process_file_save and process_session_start share: `wants` are the
-- guards before the cooldown, `execute` makes the report. The clock is read at most twice for each
-- agent, at the positions `2 * i` and `2 * i + 1` for the one at position `i`.
module _ (wants : AgentConfig → Bool) (execute : AgentConfig → Option AgentReport)
    (clock : ℕ → ℕ) where
  unfoldable pub run_agent : ℕ → AgentConfig → AgentRuntime → AgentRuntime × List AgentReport
  unfolding cooldown_elapsed record_report
  run_agent i config runtime =
      if wants config
      then (let checked = cooldown_elapsed config.name config.cooldown_ms (clock (2 * i)) runtime in
          if checked.0
          then elim (execute config) [
            | none ↦ (checked.1, [])
            | some report ↦
                (record_report config.name report (clock (2 * i + 1)) checked.1, report ∷ [])
          ]
          else (checked.1, []))
      else (runtime, [])

  unfoldable pub run_agents : ℕ → List AgentConfig → AgentRuntime → AgentRuntime × List AgentReport
  unfolding run_agent
  run_agents i [] runtime = (runtime, [])
  run_agents i (config ∷ configs) runtime =
      let first = run_agent i config runtime in
      let rest = run_agents (suc i) configs first.0 in (rest.0, first.1 ++ rest.1)
