-- ===== src/Risk.antt =====
-- risk/mod.rs: the risk of a change to a file, scored from what the daemon has recorded.
pub mod Score
pub mod Records
mod Tests
use memix.Base.{
  ℕ, ◌+◌, ◌-◌, String, Bool, true, false, Option, none, some, List, [], ◌∷◌, ◌++◌, ◌||◌, ltb, leb,
  if◌then◌else◌, length, keep, text_key, concat, show,
}
use memix.Dict.{Dict, lookup, insert, or_else, keys, contains, add, discard}

pub data RiskLevel : Type 0 where
  low medium high critical : RiskLevel

pub data RiskFactorType : Type 0 where
  high_dependency_count recent_breakage hot_code core_infrastructure known_issue : RiskFactorType
  low_test_coverage high_complexity : RiskFactorType

pub record RiskFactor : Type 0 where
  pub factor_type : RiskFactorType
  pub description : String
  pub weight : ℕ

pub record RiskAssessment : Type 0 where
  pub file_path : String
  pub risk_level : RiskLevel
  pub risk_score : ℕ
  pub dependent_count : ℕ
  pub has_recent_breakage : Bool
  pub recent_change_count : ℕ
  pub stability_score : ℕ
  pub risk_factors : List RiskFactor
  pub recommendations : List String

pub record RiskAnalyzer : Type 0 where
  pub dependents : Dict String (List String)
  pub breakage_files : List String
  pub recent_changes : Dict String ℕ
  pub known_issues : Dict String (List String)
  pub core_files : List String

abbrev pub new : RiskAnalyzer
new = record {
  dependents = [];
  breakage_files = [];
  recent_changes = [];
  known_issues = [];
  core_files = [];
}

pub register_dependency : String → String → RiskAnalyzer → RiskAnalyzer
register_dependency from to a = record a {
  dependents = insert to (add from (or_else [] (lookup to a.dependents))) a.dependents;
}

pub mark_breakage : String → RiskAnalyzer → RiskAnalyzer
mark_breakage file a = record a { breakage_files = add file a.breakage_files }

pub clear_breakage : String → RiskAnalyzer → RiskAnalyzer
clear_breakage file a = record a { breakage_files = discard file a.breakage_files }

pub record_change : String → RiskAnalyzer → RiskAnalyzer
record_change file a = record a {
  recent_changes = insert file (or_else 0 (lookup file a.recent_changes) + 1) a.recent_changes;
}

pub add_known_issue : String → String → RiskAnalyzer → RiskAnalyzer
add_known_issue file issue a = record a {
  known_issues = insert file (or_else [] (lookup file a.known_issues) ++ issue ∷ []) a.known_issues;
}

pub mark_core : String → RiskAnalyzer → RiskAnalyzer
mark_core file a = record a { core_files = add file a.core_files }

pub clear_recent_changes : RiskAnalyzer → RiskAnalyzer
clear_recent_changes a = record a { recent_changes = [] }

pub clear_all_breakages : RiskAnalyzer → RiskAnalyzer
clear_all_breakages a = record a { breakage_files = [] }

-- The three local variables of `assess`.
pub record Tally : Type 0 where
  pub score : ℕ
  pub factors : List RiskFactor
  pub advice : List String

-- `risk_score += weight`, with the factor pushed.
raise : RiskFactorType → String → ℕ → Tally → Tally
raise type text weight t = record t {
  score = t.score + weight;
  factors = t.factors ++ record { factor_type = type; description = text; weight = weight } ∷ [];
}

advise : String → Tally → Tally
advise text t = record t { advice = t.advice ++ text ∷ [] }

dependency_factor : ℕ → Tally → Tally
unfolding raise advise
dependency_factor n t =
    if ltb 20 n
    then advise "Consider running full test suite after changes"
        (raise high_dependency_count (concat (show n) " files depend on this file") 30 t)
    else if ltb 10 n
    then raise high_dependency_count (concat (show n) " files depend on this file") 15 t
    else t

breakage_factor : Bool → Tally → Tally
unfolding raise advise
breakage_factor broken t =
    if broken
    then advise "Review recent failures before modifying"
        (raise recent_breakage "This file has caused recent failures" 25 t)
    else t

change_factor : ℕ → Tally → Tally
unfolding raise
change_factor n t = if ltb 10 n then raise hot_code (concat (show n) " recent changes") 15 t else t

core_factor : Bool → Tally → Tally
unfolding raise advise
core_factor core t =
    if core
    then advise "Extra caution required for core files"
        (raise core_infrastructure "Core infrastructure file" 20 t)
    else t

issue_factor : Option (List String) → Tally → Tally
unfolding raise
issue_factor none t = t
issue_factor (some []) t = t
issue_factor (some (i ∷ is)) t =
    raise known_issue (concat (show (length (i ∷ is))) " known issues") 10 t

level_of : ℕ → RiskLevel
level_of score =
    if leb score 20
    then low
    else if leb score 40
    then medium
    else if leb score 70
    then high
    else critical

general_advice : RiskLevel → List String
general_advice low = []
general_advice medium = []
general_advice high =
    "Consider pair programming for this change" ∷ "Create a feature branch for isolation" ∷ []
general_advice critical =
    "Consider pair programming for this change" ∷ "Create a feature branch for isolation" ∷ []

abbrev pub dependent_count_of : RiskAnalyzer → String → ℕ
dependent_count_of a file = length (or_else [] (lookup file a.dependents))

abbrev pub change_count_of : RiskAnalyzer → String → ℕ
change_count_of a file = or_else 0 (lookup file a.recent_changes)

pub tally : RiskAnalyzer → String → Tally
unfolding dependency_factor breakage_factor change_factor core_factor issue_factor
tally a file = issue_factor (lookup file a.known_issues) (
    core_factor (contains file a.core_files) (
      change_factor (change_count_of a file) (
        breakage_factor (contains file a.breakage_files) (
          dependency_factor (dependent_count_of a file)
            (record { score = 0; factors = []; advice = [] })))))

pub assess : RiskAnalyzer → String → RiskAssessment
unfolding level_of general_advice
assess a file =
    let t = tally a file in
    record {
      file_path = file;
      risk_level = level_of t.score;
      risk_score = t.score;
      dependent_count = dependent_count_of a file;
      has_recent_breakage = contains file a.breakage_files;
      recent_change_count = change_count_of a file;
      stability_score = 100 - t.score;
      risk_factors = t.factors;
      recommendations = t.advice ++ general_advice (level_of t.score);
    }

pub is_high_risk : RiskLevel → Bool
is_high_risk low = false
is_high_risk medium = false
is_high_risk high = true
is_high_risk critical = true

pub get_high_risk_files : RiskAnalyzer → List String
get_high_risk_files a = keep (λ file. is_high_risk (assess a file).risk_level) (keys a.dependents)
