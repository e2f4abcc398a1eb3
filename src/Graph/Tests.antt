-- ===== src/Graph/Tests.antt =====
-- The dependency graph on a concrete history.
use memix.Base.{◌≡◌, true, false, List, [], ◌∷◌}
use memix.Dict.{contains}
use memix.Graph.{empty}
use memix.Graph.Edges.{linked}
use memix.Graph.Mirror.{Call, adds, sets, removes, Refines, run, run_meaning, run-Refines}

abbrev history : List Call
history =
    adds "a.rs" "b.rs"
    ∷ sets "b.rs" ("c.rs" ∷ "b.rs" ∷ [])
    ∷ sets "a.rs" ("c.rs" ∷ [])
    ∷ removes "b.rs"
    ∷ []

only_a_c :
    (linked "a.rs" "c.rs" (run empty history).edges_out ≡ true)
    × (linked "a.rs" "b.rs" (run empty history).edges_out ≡ false)
    × (linked "c.rs" "a.rs" (run empty history).edges_in ≡ true)
    × (linked "c.rs" "b.rs" (run empty history).edges_in ≡ false)
unfolding contains
only_a_c = (
  h.outward "a.rs" "c.rs",
  h.outward "a.rs" "b.rs",
  h.inward "a.rs" "c.rs",
  h.inward "b.rs" "c.rs",
)
  where
    h : Refines (run empty history) (run_meaning (λ a b. false) history)
    h = run-Refines history

run-Refines_example : Refines (run empty history) (run_meaning (λ a b. false) history)
run-Refines_example = run-Refines history
