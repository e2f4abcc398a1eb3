-- ===== src/Context/Reach/Tests.antt =====
-- Concrete runs of the search of relevant files.
use memix.Base.{ℕ, String, ◌≡◌, refl, some, [], ◌∷◌, number_key, text_key, pair_key, bool_key}
use memix.Graph.{DependencyGraph}
use memix.Dict.{lookup, contains, add}
use memix.Context.Reach.{mentions, is_le, then_with, dead_context_elimination, RelevantFile}

-- main calls api, api calls db, and test calls main.
abbrev small_graph : DependencyGraph
small_graph = record {
  edges_out = ("main", "api" ∷ []) ∷ ("api", "db" ∷ []) ∷ ("test", "main" ∷ []) ∷ [];
  edges_in = ("api", "main" ∷ []) ∷ ("db", "api" ∷ []) ∷ ("main", "test" ∷ []) ∷ [];
}

abbrev at : String → ℕ → RelevantFile
at path depth = record { path = path; depth = depth }

within_one :
    dead_context_elimination "main" small_graph 1
    ≡ some (at "main" 0 ∷ at "api" 1 ∷ at "test" 1 ∷ [])
unfolding dead_context_elimination mentions lookup contains add is_le then_with
within_one = refl

within_two :
    dead_context_elimination "main" small_graph 2
    ≡ some (at "main" 0 ∷ at "api" 1 ∷ at "test" 1 ∷ at "db" 2 ∷ [])
unfolding dead_context_elimination mentions lookup contains add is_le then_with
within_two = refl
