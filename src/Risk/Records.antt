-- ===== src/Risk/Records.antt =====
-- How the calls that record evidence move the score, and which files are reported.
use memix.Risk.Score.{assess-IsFor, score-eq-points}
use memix.Base.{
  ◌∙◌, ◌+◌, ◌≤◌, String, ◌≡◌, true, false, none, [], ◌∷◌, ◌++◌, ◌&&◌, ltb, if◌then◌else◌, arith,
  eq_iff, text_key, ◌==◌,
}
use memix.Risk.{
  change_count_of, RiskAnalyzer, assess, register_dependency, mark_breakage, clear_breakage,
  record_change, add_known_issue, mark_core, clear_recent_changes, clear_all_breakages,
  is_high_risk, get_high_risk_files, high, level_of,
}
use memix.Dict.{lookup, contains, contains_key, keys, or_else, add}
use memix.Dict.Laws.{
  lookup-insert, contains-add, contains-discard, length-add_le, contains-keep, contains-keys,
}

-- The calls that record evidence.
pub data Evidence : Type 0 where
  dependency : String → String → Evidence
  breakage : String → Evidence
  change : String → Evidence
  issue : String → String → Evidence
  core : String → Evidence

unfoldable pub note : RiskAnalyzer → Evidence → RiskAnalyzer
unfolding register_dependency mark_breakage record_change add_known_issue mark_core
note a (dependency from to) = register_dependency from to a
note a (breakage file) = mark_breakage file a
note a (change file) = record_change file a
note a (issue file text) = add_known_issue file text a
note a (core file) = mark_core file a

-- Recording evidence of any kind, about any file, lowers the score of no file.
pub note_mono :
    (a : RiskAnalyzer) (e : Evidence) (file : String)
    → (assess a file).risk_score ≤ (assess (note a e) file).risk_score
unfolding note
note_mono a (dependency from to) file =
    rw (score-eq-points, score-eq-points)
      (ground (
        arith,
        eq_iff to file,
        lookup-insert to file (add from (or_else [] (lookup to a.dependents))) a.dependents,
        length-add_le from (or_else [] (lookup to a.dependents)),
      ))
note_mono a (breakage f) file =
    rw (score-eq-points, score-eq-points) (ground (arith, contains-add f file a.breakage_files))
note_mono a (change f) file =
    rw (score-eq-points, score-eq-points)
      (ground (
        arith,
        eq_iff f file,
        lookup-insert f file (or_else 0 (lookup f a.recent_changes) + 1) a.recent_changes,
      ))
note_mono a (issue f text) file =
    rw (score-eq-points, score-eq-points)
      (ground (
        arith,
        eq_iff f file,
        lookup-insert f file (or_else [] (lookup f a.known_issues) ++ text ∷ []) a.known_issues,
      ))
note_mono a (core f) file =
    rw (score-eq-points, score-eq-points) (ground (arith, contains-add f file a.core_files))

-- `clear_breakage` takes the 25 points of a breakage from its own file, if it had them, and
-- changes the score of no other file.
pub clear_breakage_exact :
    (a : RiskAnalyzer) (file other : String)
    → (assess (clear_breakage file a) other).risk_score
        + (if (file == other) && contains other a.breakage_files then 25 else 0)
      ≡ (assess a other).risk_score
unfolding clear_breakage
clear_breakage_exact a file other =
    rw (score-eq-points, score-eq-points)
      (ground (arith, contains-discard file other a.breakage_files))

-- The bulk calls take the points of all breakages, and of all recent changes.
pub clear_all_exact :
    (a : RiskAnalyzer) (file : String)
    → ((assess (clear_all_breakages a) file).risk_score
          + (if contains file a.breakage_files then 25 else 0)
        ≡ (assess a file).risk_score)
      × ((assess (clear_recent_changes a) file).risk_score
            + (if ltb 10 (change_count_of a file) then 15 else 0)
          ≡ (assess a file).risk_score)
unfolding clear_all_breakages clear_recent_changes contains lookup
clear_all_exact a file = (
  rw (score-eq-points, score-eq-points) (ground arith),
  rw (score-eq-points, score-eq-points) (ground arith),
)

high_iff :
    (a : RiskAnalyzer) (file : String)
    → is_high_risk (assess a file).risk_level ≡ ltb 40 (assess a file).risk_score
unfolding assess level_of is_high_risk
high_iff a file = ground arith

-- `get_high_risk_files` lists a file exactly when some file depends on it and its score is above 40.
pub high_risk_exact :
    (a : RiskAnalyzer) (file : String)
    → contains file (get_high_risk_files a)
      ≡ contains_key file a.dependents && ltb 40 (assess a file).risk_score
unfolding get_high_risk_files
high_risk_exact a file =
    contains-keep (λ f. is_high_risk (assess a f).risk_level) file (keys a.dependents)
    ∙ rw (contains-keys, high_iff)

-- A file that no file depends on is never listed, also where a recent breakage of a core file gives
-- it a high risk.
pub high_risk_missed :
    (a : RiskAnalyzer) (file : String)
    → lookup file a.dependents ≡ none
    → contains file a.breakage_files ≡ true
    → contains file a.core_files ≡ true
    → ((assess a file).risk_level ≡ high) × (contains file (get_high_risk_files a) ≡ false)
unfolding contains_key
high_risk_missed a file alone broken central = (
  (assess-IsFor a file).is_high.1
      (rw score-eq-points (ground arith), rw score-eq-points (ground arith)),
  high_risk_exact a file ∙ ground arith,
)
