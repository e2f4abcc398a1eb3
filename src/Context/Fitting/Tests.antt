-- ===== src/Context/Fitting/Tests.antt =====
-- Concrete runs of the knapsack.
use memix.Base.{ℕ, String, ◌≡◌, refl, [], ◌∷◌, map, number_key, text_key, pair_key, bool_key}
use memix.Context.{CompiledSection}
use memix.Context.Fitting.{budget_fitting}

abbrev sized : String → ℕ → ℕ → CompiledSection
sized name priority tokens = record {
  id = name;
  kind = "code-skeleton";
  priority = priority;
  tokens = tokens;
  content = name;
}

-- One section of priority 100 is worth less than two of priority 72 that fit together.
two_of_three :
    map
      (λ s. s.id)
      (budget_fitting (sized "a" 100 4 ∷ sized "b" 72 3 ∷ sized "c" 72 2 ∷ []) 5).selected
    ≡ "b" ∷ "c" ∷ []
unfolding budget_fitting
two_of_three = refl
