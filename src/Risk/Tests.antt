-- ===== src/Risk/Tests.antt =====
-- Risk assessments of concrete analyzers.
use memix.Risk.{tally, RiskAnalyzer, mark_breakage, mark_core, assess, new}
use memix.Base.{◌≡◌, refl, number_key, text_key}
use memix.Dict.{lookup, add, contains}
use memix.Risk.Score.{IsFor, assess-IsFor}

abbrev fragile : RiskAnalyzer
unfolding mark_core mark_breakage
fragile = mark_core "db.rs" (mark_breakage "db.rs" new)

fragile_score : (assess fragile "db.rs").risk_score ≡ 45
unfolding assess tally mark_core mark_breakage contains add lookup
fragile_score = refl

assess-IsFor_example : IsFor fragile "db.rs" (assess fragile "db.rs")
assess-IsFor_example = assess-IsFor fragile "db.rs"
