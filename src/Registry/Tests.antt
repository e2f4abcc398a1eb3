-- ===== src/Registry/Tests.antt =====
-- The registry on a concrete sequence of calls.
use memix.Base.{◌≡◌, refl, true, false, some, List, [], ◌∷◌, number_key, text_key}
use memix.Registry.{WorkspaceRegistry, ActiveContext, Clock, new, get_active}
use memix.Registry.Focus.{
  Call, registers, unregisters, focuses, indexes, IsFocused, run, run-IsFocused,
}

abbrev noon : Clock
noon = record { now = 43200; instant = 5 }

abbrev calls : List Call
calls =
    registers noon "web" "/home/web"
    ∷ registers noon "api" "/home/api"
    ∷ focuses noon "api"
    ∷ indexes "web" 7
    ∷ unregisters "web"
    ∷ []

run-IsFocused_example : IsFocused (run new calls)
run-IsFocused_example = run-IsFocused calls

abbrev two_open : WorkspaceRegistry
two_open = record {
  workspaces =
      (
        "web",
        record {
          project_id = "web";
          workspace_root = "/home/web";
          last_active_at = 1;
          indexing_complete = true;
          files_indexed = 12;
          brain_paused = false;
        },
      )
      ∷ [];
  active = some (record { project_id = "web"; workspace_root = "/home/web"; activated_at = 1 });
  indexer_handles = ("web", 7) ∷ [];
  observer_handles = ("web", 8) ∷ ("api", 9) ∷ [];
  aborted = [];
}

abbrev focus : ActiveContext
focus = record { project_id = "web"; workspace_root = "/home/web"; activated_at = 1 }

focus_there : get_active two_open ≡ some focus
unfolding get_active
focus_there = refl
