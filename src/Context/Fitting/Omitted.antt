-- ===== src/Context/Fitting/Omitted.antt =====
-- What the knapsack of context/mod.rs reports as omitted.
use memix.Base.{
  ℕ, suc, String, ◌≡◌, refl, ap, ◌∙◌, List, [], ◌∷◌, map, arith, eq_iff, if◌then◌else◌, ◌==◌,
  number_key, text_key, pair_key, bool_key, count, if_keeps,
}
use memix.Dict.{contains}
use memix.Dict.Laws.{contains-add}
use memix.Context.{CompiledSection}
use memix.Context.Fitting.{
  cells, cell, Filled, fill, Walk, visit, walk_back, nothing_chosen, omitted_ids, budget_fitting,
}

abbrev pub ids_of : List CompiledSection → List String
ids_of sections = map (λ s. s.id) sections

-- The set of chosen identifiers is that of the selected sections.
SameIds : Walk → Type 0
SameIds w = (id : String) → contains id w.chosen ≡ contains id (ids_of w.selected)

visit-SameIds : (f : Filled) (w : Walk) → SameIds w → SameIds (visit f w)
unfolding visit SameIds contains
visit-SameIds f w h =
    if_keeps SameIds (cell f.row w.cap == cell f.previous w.cap) _ _ (λ t. h)
      (λ n id. ground (arith, contains-add f.section.id id w.chosen, h id))

walk_back-SameIds : (done : List Filled) (w : Walk) → SameIds w → SameIds (walk_back done w)
unfolding walk_back
walk_back-SameIds [] w h = h
walk_back-SameIds (f ∷ fs) w h = walk_back-SameIds fs (visit f w) (visit-SameIds f w h)

count-omitted_ids :
    (id : String) (chosen : List String) (ranked : List CompiledSection)
    → count (λ k. k == id) (omitted_ids chosen ranked)
      ≡ (if contains id chosen then 0 else count (λ k. k == id) (ids_of ranked))
unfolding omitted_ids
count-omitted_ids id chosen [] = ground arith
count-omitted_ids id chosen (s ∷ ss) =
    ground (arith, eq_iff s.id id, ap (λ k. contains k chosen), count-omitted_ids id chosen ss)

-- The omitted identifiers are those of the ranked sections, each as often as it stands there, except
-- that an identifier of a selected section is never among them: also not for another section that
-- has the same identifier and is not selected.
pub budget_fitting-omitted :
    (ranked : List CompiledSection) (budget : ℕ) (id : String)
    → count (λ k. k == id) (budget_fitting ranked budget).omitted ≡ (
        if contains id (ids_of (budget_fitting ranked budget).selected)
        then 0
        else count (λ k. k == id) (ids_of ranked))
unfolding budget_fitting SameIds contains
budget_fitting-omitted ranked budget id =
    let table = fill budget (cells (λ cap. 0) 0 (suc budget)) [] ranked in
    let w = walk_back table (nothing_chosen budget) in
    count-omitted_ids id w.chosen ranked
    ∙ ap (λ b. if b then 0 else count (λ k. k == id) (ids_of ranked))
        (walk_back-SameIds table (nothing_chosen budget) (λ k. refl) id)
