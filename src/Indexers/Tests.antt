-- ===== src/Indexers/Tests.antt =====
-- Concrete runs of indexer_manager.rs.
use memix.Base.{ℕ, ◌≡◌, refl, true, false, List, [], ◌∷◌, number_key, text_key, pair_key, bool_key}
use memix.Dict.{lookup, insert, remove}
use memix.Indexers.{Task, new, is_running, is_finished}
use memix.Indexers.Single.{Event, spawned, cancelled, run, run-single}

-- The first indexer of p is cancelled, a second one is started, and a third is refused.
abbrev restarted : List Event
restarted =
    spawned "p" "/w" ∷ spawned "q" "/v" ∷ cancelled "p" ∷ spawned "p" "/w" ∷ spawned "p" "/w" ∷ []

abbrev second : Task
second = record { project_id = "p"; workspace_root = "/w"; finished = false; aborted = false }

run-single_example : (◌≡◌ {A = ℕ} 2 2) × (is_running "p" (run restarted new) ≡ true)
unfolding run lookup insert remove
run-single_example =
    run-single restarted 2 2 second second (refl, refl, refl) (refl, refl, refl) refl

-- The cancelled task has not ended when the next one starts.
still_running : is_finished 0 (run restarted new).tasks ≡ false
unfolding run is_finished lookup insert remove
still_running = refl
