-- ===== src/Risk/Score.antt =====
-- The score and the other fields of an assessment of risk/mod.rs.
use memix.Base.{
  ℕ, ◌+◌, ◌≤◌, ◌<◌, String, ◌≡◌, refl, Bool, true, false, Option, none, some, List, [], ◌∷◌, ltb,
  if◌then◌else◌, arith, sum, text_key, ◌++◌, ◌∙◌, ◌↔◌,
}
use memix.Dict.{lookup, contains}
use memix.Risk.{
  RiskAnalyzer, RiskAssessment, RiskFactor, low, medium, high, critical, Tally, assess, tally,
  raise, advise, dependency_factor, breakage_factor, change_factor, core_factor, issue_factor,
  RiskFactorType, dependent_count_of, change_count_of, level_of,
}

abbrev pub weights : List RiskFactor → List ℕ
weights [] = []
weights (f ∷ fs) = f.weight ∷ weights fs

-- The points for each kind of evidence.
abbrev pub dependency_points : ℕ → ℕ
dependency_points n = if ltb 20 n then 30 else if ltb 10 n then 15 else 0

abbrev pub issue_points : Option (List String) → ℕ
issue_points none = 0
issue_points (some []) = 0
issue_points (some (i ∷ is)) = 10

abbrev pub points : RiskAnalyzer → String → ℕ
points a file =
    dependency_points (dependent_count_of a file)
    + (if contains file a.breakage_files then 25 else 0)
    + (if ltb 10 (change_count_of a file) then 15 else 0)
    + (if contains file a.core_files then 20 else 0)
    + issue_points (lookup file a.known_issues)

-- A step adds `n` to the score, and a factor of that weight if it adds anything.
record Adds (n : ℕ) (t u : Tally) : Type 0 where
  score : u.score ≡ t.score + n
  weighed : sum (weights u.factors) ≡ sum (weights t.factors) + n

weights-append :
    (xs ys : List RiskFactor) → sum (weights (xs ++ ys)) ≡ sum (weights xs) + sum (weights ys)
weights-append [] ys = omega arith
weights-append (x ∷ xs) ys = omega (arith, weights-append xs ys)

raise-Adds :
    (type : RiskFactorType) (text : String) (n : ℕ) (t : Tally) → Adds n t (raise type text n t)
unfolding raise
raise-Adds type text n t = record {
  score = refl;
  weighed =
      weights-append t.factors (record { factor_type = type; description = text; weight = n } ∷ [])
      ∙ omega arith;
}

raise-advise-Adds :
    (type : RiskFactorType) (text more : String) (n : ℕ) (t : Tally)
    → Adds n t (advise more (raise type text n t))
unfolding advise
raise-advise-Adds type text more n t =
    let h = raise-Adds type text n t in record { score = h.score; weighed = h.weighed }

same-Adds : (t : Tally) → Adds 0 t t
same-Adds t = record { score = omega arith; weighed = omega arith }

if-Adds :
    {t u v : Tally} {m n : ℕ} (b : Bool)
    → Adds m t u
    → Adds n t v
    → Adds (if b then m else n) t (if b then u else v)
if-Adds true h k = h
if-Adds false h k = k

dependency-Adds : (n : ℕ) (t : Tally) → Adds (dependency_points n) t (dependency_factor n t)
unfolding dependency_factor
dependency-Adds n t =
    if-Adds (ltb 20 n) (raise-advise-Adds _ _ _ 30 t)
      (if-Adds (ltb 10 n) (raise-Adds _ _ 15 t) (same-Adds t))

breakage-Adds : (b : Bool) (t : Tally) → Adds (if b then 25 else 0) t (breakage_factor b t)
unfolding breakage_factor
breakage-Adds b t = if-Adds b (raise-advise-Adds _ _ _ 25 t) (same-Adds t)

change-Adds : (n : ℕ) (t : Tally) → Adds (if ltb 10 n then 15 else 0) t (change_factor n t)
unfolding change_factor
change-Adds n t = if-Adds (ltb 10 n) (raise-Adds _ _ 15 t) (same-Adds t)

core-Adds : (b : Bool) (t : Tally) → Adds (if b then 20 else 0) t (core_factor b t)
unfolding core_factor
core-Adds b t = if-Adds b (raise-advise-Adds _ _ _ 20 t) (same-Adds t)

issue-Adds : (o : Option (List String)) (t : Tally) → Adds (issue_points o) t (issue_factor o t)
unfolding issue_factor
issue-Adds none t = same-Adds t
issue-Adds (some []) t = same-Adds t
issue-Adds (some (i ∷ is)) t = raise-Adds _ _ 10 t

then-Adds : {t u v : Tally} {m n : ℕ} → Adds m t u → Adds n u v → Adds (m + n) t v
then-Adds h k = record { score = omega arith; weighed = omega arith }

tally-Adds :
    (a : RiskAnalyzer) (file : String)
    → Adds (points a file) (record { score = 0; factors = []; advice = [] }) (tally a file)
unfolding tally
tally-Adds a file =
    then-Adds
      (then-Adds
        (then-Adds
          (then-Adds (dependency-Adds (dependent_count_of a file) _)
            (breakage-Adds (contains file a.breakage_files) _))
          (change-Adds (change_count_of a file) _))
        (core-Adds (contains file a.core_files) _))
      (issue-Adds (lookup file a.known_issues) _)

points-le : (a : RiskAnalyzer) (file : String) → points a file ≤ 100
points-le a file = ground arith

pub score-eq-points :
    (a : RiskAnalyzer) (file : String) → (assess a file).risk_score ≡ points a file
unfolding assess
score-eq-points a file = (tally-Adds a file).score ∙ omega arith

-- What an assessment says, field by field.
pub record IsFor (a : RiskAnalyzer) (file : String) (r : RiskAssessment) : Type 0 where
  pub path : r.file_path ≡ file
  pub score : r.risk_score ≡ points a file
  pub bounded : r.risk_score ≤ 100
  pub explained : sum (weights r.risk_factors) ≡ r.risk_score
  pub stability : r.stability_score + r.risk_score ≡ 100
  pub is_low : (r.risk_level ≡ low) ↔ (r.risk_score ≤ 20)
  pub is_medium : (r.risk_level ≡ medium) ↔ ((20 < r.risk_score) × (r.risk_score ≤ 40))
  pub is_high : (r.risk_level ≡ high) ↔ ((40 < r.risk_score) × (r.risk_score ≤ 70))
  pub is_critical : (r.risk_level ≡ critical) ↔ (70 < r.risk_score)

-- For every analyzer and file, the assessment is of that file; its score is the sum of the points
-- for the five kinds of evidence, is at most 100, and is the sum of the weights of the factors that
-- it lists; the stability is what the score leaves of 100; and the level is low up to 20, medium up
-- to 40, high up to 70, and critical above that.
pub assess-IsFor : (a : RiskAnalyzer) (file : String) → IsFor a file (assess a file)
unfolding assess level_of
assess-IsFor a file =
    let h = tally-Adds a file in
    let b = points-le a file in
    record {
      path = refl;
      score = omega arith;
      bounded = omega arith;
      explained = omega arith;
      stability = omega arith;
      is_low = ground arith;
      is_medium = ground arith;
      is_high = ground arith;
      is_critical = ground arith;
    }
