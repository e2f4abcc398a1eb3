-- ===== src/Agents/Parse/Trigger.antt =====
-- agents/mod.rs: triggers and cooldowns. Regular expressions, lower case and the parser of a number of
-- 64 bits are parameters.
use memix.Base.{
  ℕ, ◌-◌, ◌*◌, ◌^◌, min, String, ◌||◌, Option, none, some, if◌then◌else◌, ◌==◌, number_key,
  text_key, pair_key, bool_key, trim, contains_text,
}
use text.Mathlib.Text.{starts_with}
use memix.Dict.{or_else}
use memix.Agents.{
  AgentTrigger, file_save, file_open, function_signature_change, interval, session_start,
  git_commit, manual, unknown,
}
use mathlib.Core.Option

pub record Texts : Type 0 where
  -- `Path::join`, and the content of a file that is there and can be read.
  pub join_path : String → String → String
  pub read : String → Option String
  pub to_lowercase : String → String
  pub parse_u64 : String → Option ℕ
  -- The two groups of `every\s+(\d+)\s+(second|seconds|minute|minutes|hour|hours)` in a text.
  pub interval_groups : String → Option (String × String)
  -- The two groups of `^(\d+)(ms|s|m|h)$`.
  pub cooldown_groups : String → Option (String × String)

unfoldable pub saturating_mul : ℕ → ℕ → ℕ
saturating_mul a b = min (a * b) (2 ^ 64 - 1)

unfoldable pub parse_interval_seconds : Texts → String → Option ℕ
unfolding saturating_mul
parse_interval_seconds t value = elim (t.interval_groups value) [
  | none ↦ none
  | some (amount, unit) ↦
      Option.map
        (λ count.
          if unit == "minute" || unit == "minutes"
          then saturating_mul count 60
          else if unit == "hour" || unit == "hours"
          then saturating_mul count 3600
          else count)
        (t.parse_u64 amount)
]

unfoldable pub parse_trigger : Texts → String → AgentTrigger
unfolding parse_interval_seconds
parse_trigger t value =
    let normalized = t.to_lowercase (trim value) in
    if contains_text normalized "file_save"
    then file_save
    else if contains_text normalized "file_open"
    then file_open
    else if contains_text normalized "function_signature_change"
    then function_signature_change
    else if contains_text normalized "session_start"
    then session_start
    else if contains_text normalized "git_commit"
    then git_commit
    else if contains_text normalized "manual"
    then manual
    else if starts_with normalized "every "
    then interval (or_else 60 (parse_interval_seconds t normalized))
    else unknown value

unfoldable pub parse_cooldown_ms : Texts → String → ℕ
unfolding saturating_mul parse_interval_seconds
parse_cooldown_ms t value =
    let normalized = t.to_lowercase (trim value) in
    elim (t.cooldown_groups normalized) [
      | none ↦ or_else 0 (
          Option.map (λ seconds. saturating_mul seconds 1000) (parse_interval_seconds t normalized))
      | some (digits, unit) ↦
          (let amount = or_else 0 (t.parse_u64 digits) in
            if unit == "s"
            then saturating_mul amount 1000
            else if unit == "m"
            then saturating_mul amount 60000
            else if unit == "h"
            then saturating_mul amount 3600000
            else amount)
    ]
