-- ===== src/Context/Rules/Once.antt =====
-- The candidates of rule files, context/mod.rs, are without repetition.
use memix.Base.{
  String, ◌≡◌, ap, inl, inr, not, some, List, [], ◌∷◌, map, arith, eq_iff, number_key, text_key,
  pair_key, bool_key, both, Bool-cases,
}
use memix.Dict.{contains}
use memix.Dict.Entries.{NoRepeat}
use memix.Context.Rules.{path_join, retain_new, rule_file_candidates}
use memix.Context.Rules.Paths.{rule_paths}

contains-retain_new :
    (path : String) (seen paths : List String)
    → contains path (retain_new seen paths) ≡ both (not (contains path seen)) (contains path paths)
unfolding retain_new contains
contains-retain_new path seen [] = ground arith
contains-retain_new path seen (p ∷ ps) = ground (
  arith,
  contains-retain_new path seen ps,
  contains-retain_new path (p ∷ seen) ps,
  eq_iff p path,
  ap (λ x. contains x seen) {x = p} {y = path},
)

retain_new-NoRepeat : (seen paths : List String) → NoRepeat (retain_new seen paths)
unfolding retain_new contains
retain_new-NoRepeat seen [] = tt
retain_new-NoRepeat seen (p ∷ ps) = elim (Bool-cases (contains p seen)) [
  | inl t ↦ rw t (retain_new-NoRepeat seen ps)
  | inr n ↦ rw n (
    ground (arith, contains-retain_new p (p ∷ seen) ps, eq_iff p p),
    retain_new-NoRepeat (p ∷ seen) ps,
  )
]

-- Below a root, the candidates are the listed paths joined to it, each once.
pub rule_file_candidates-once :
    (root path : String)
    → NoRepeat (rule_file_candidates (some root))
      × (contains path (rule_file_candidates (some root))
          ≡ contains path (map (path_join root) rule_paths))
unfolding rule_file_candidates contains
rule_file_candidates-once root path = (
  retain_new-NoRepeat [] (map (path_join root) rule_paths),
  contains-retain_new path [] (map (path_join root) rule_paths),
)
