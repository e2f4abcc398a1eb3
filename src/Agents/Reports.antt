-- ===== src/Agents/Reports.antt =====
-- agents/mod.rs: what the agents report when a file is saved. The members of a JSON object stand in
-- the order in which the source writes them.
use memix.Base.{
  ℕ, ◌-◌, String, Bool, true, false, ◌||◌, Option, none, some, List, [], ◌∷◌, ◌++◌, map, leb,
  nat_beq, if◌then◌else◌, number_key, text_key, pair_key, bool_key, both, take, concat, sort_by,
  contains_text, join, chars, of_list, text_le,
}
use Prim.Native.Char.{Char, code}
use Prim.Native.String.{slice}
use memix.Dict.{lookup, or_else, dedup}
use memix.Graph.{DependencyGraph}
use memix.Context.{AstNodeFeature}
use memix.Differ.{SemanticDiff}
use memix.Brain.Value.{
  Value, Values, Members, string, array, object, no_item, item, no_member, member,
}
use memix.Agents.{AgentConfig, AgentReport, AgentNotification, AgentSeverity}

pub record SecurityRule : Type 0 where
  pub id : String
  pub pattern : String
  pub message : String
  pub severity : String

-- What the agents take from the libraries and the home directory.
pub record Host : Type 0 where
  pub to_lowercase : String → String
  -- The content of `~/.memix/memix-security.toml`, and its rules where it is one of rules.
  pub security_file : Option String
  pub parse_rules : String → Option (List SecurityRule)
  -- The matches of a regular expression in a text, none where it does not compile.
  pub find_all : (pattern content : String) → Option (List String)
  pub utc_now : ℕ

-- A confidence is a floating-point number: whether it is at least 0.8, and how it is printed.
pub record Confidence : Type 0 where
  pub high : Bool
  pub percent : String
  pub printed : String

pub record FileSaveAgentContext : Type 0 where
  pub project_id : String
  pub file_path : String
  pub file_content : String
  pub diff : SemanticDiff
  pub features : List AstNodeFeature
  pub dependency_graph : DependencyGraph
  pub intent_type : String
  pub intent_confidence : Confidence
  pub breaking_signatures : List (String × String × String)
  pub recent_change_files : List String

pub values_of : List Value → Values
values_of [] = no_item
values_of (v ∷ vs) = item v (values_of vs)

members_of : List (String × Value) → Members
members_of [] = no_member
members_of ((k, v) ∷ fs) = member k v (members_of fs)

-- `json!`
pub json : List (String × Value) → Value
unfolding members_of
json fields = object (members_of fields)

pub texts : List String → Value
unfolding values_of
texts ss = array (values_of (map string ss))

pub signatures : List (String × String × String) → Value
unfolding values_of texts
signatures ts = array (values_of (map (λ t. texts (t.0 ∷ t.1 ∷ t.2 ∷ [])) ts))

abbrev pub is_empty {ℓ} : {A : Type ℓ} → List A → Bool
is_empty [] = true
is_empty (x ∷ xs) = false

-- One character of the slug: ASCII letters in lower case and digits stay.
slug_char : Char → String
slug_char ch =
    let n = code ch in
    if both (leb 65 n) (leb n 90)
    then slice "abcdefghijklmnopqrstuvwxyz" (n - 65) (n - 64)
    else if both (leb 97 n) (leb n 122)
    then slice "abcdefghijklmnopqrstuvwxyz" (n - 97) (n - 96)
    else if both (leb 48 n) (leb n 57)
    then slice "0123456789" (n - 48) (n - 47)
    else "_"

pub agent_entry_id : String → String
unfolding slug_char
agent_entry_id agent_name =
    concat "agent_" (concat (join "" (map slug_char (chars agent_name))) ".json")

-- The fields that every report takes from its agent.
abbrev pub report :
    Host → AgentConfig → AgentSeverity → List AgentNotification → Value → AgentReport
report host config severity notifications payload = record {
  agent_name = config.name;
  entry_id = agent_entry_id config.name;
  output_key = config.output_key;
  severity = severity;
  notifications = notifications;
  payload = payload;
  generated_at = host.utc_now;
}

abbrev pub notice : String → String → AgentNotification
notice title message = record { title = title; message = message }

pub collect_related_files : DependencyGraph → String → ℕ → List String
unfolding dedup
collect_related_files graph active_file limit = take limit (
    dedup (
      sort_by text_le (
        or_else [] (lookup active_file graph.edges_out)
        ++ or_else [] (lookup active_file graph.edges_in))))

forward_slash : Char → String
forward_slash c = if nat_beq (code c) 92 then "/" else of_list (c ∷ [])

pub is_test_path : Host → String → Bool
unfolding forward_slash
is_test_path host path =
    let normalized = host.to_lowercase (join "" (map forward_slash (chars path))) in
    contains_text normalized "/test"
    || contains_text normalized "/tests"
    || contains_text normalized "/spec"
    || contains_text normalized ".test."
    || contains_text normalized ".spec."

default_rules : List SecurityRule
default_rules =
    record {
      id = "hardcoded-secret";
      pattern = "(?i)(api[_-]?key|secret|token|password)\\s*[:=]\\s*['\"][A-Za-z0-9_\\-]{8,}['\"]";
      message = "Potential hardcoded credential";
      severity = "critical";
    }
    ∷ record {
      id = "unsafe-eval";
      pattern = "\\beval\\s*\\(|\\bexec\\s*\\(";
      message = "Dynamic code execution detected";
      severity = "critical";
    }
    ∷ record {
      id = "sql-concatenation";
      pattern = "(?i)(select|insert|update|delete).*(\\\\+|format!\\(|f\\\")";
      message = "Possible SQL string concatenation";
      severity = "warning";
    }
    ∷ record {
      id = "env-exposure";
      pattern = "process\\.env\\.[A-Z0-9_]+|std::env::var\\(";
      message = "Environment variable access should be reviewed for exposure";
      severity = "info";
    }
    ∷ []

-- Without a workspace root the only candidate is the file in the home directory.
load_security_rules : Host → List SecurityRule
unfolding default_rules
load_security_rules host = elim host.security_file [
  | none ↦ default_rules
  | some content ↦ elim (host.parse_rules content) [
    | none ↦ default_rules
    | some rules ↦ if is_empty rules then default_rules else rules
  ]
]

findings_of : Host → String → SecurityRule → List Value
unfolding json
findings_of host content rule = elim (host.find_all rule.pattern content) [
  | none ↦ []
  | some snippets ↦
      map
        (λ snippet. json (
          ("id", string rule.id)
          ∷ ("message", string rule.message)
          ∷ ("severity", string rule.severity)
          ∷ ("snippet", string snippet)
          ∷ []))
        snippets
]

findings_by : Host → String → List SecurityRule → List Value
unfolding findings_of
findings_by host content [] = []
findings_by host content (rule ∷ rules) =
    findings_of host content rule ++ findings_by host content rules

pub security_findings : Host → String → List Value
unfolding findings_by load_security_rules
security_findings host content = findings_by host content (load_security_rules host)
