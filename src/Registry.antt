-- ===== src/Registry.antt =====
-- workspace_registry.rs: the workspaces that are open, the one in focus, and the tasks that run for
-- each. A task's handle is a number, and the aborted ones are listed in the order of their abort.
-- The clock is an argument: the seconds since the epoch and the instant.
pub mod Focus
pub mod Tasks
mod Tests
use memix.Base.{
  ℕ, zero, suc, ◌+◌, ◌-◌, ◌*◌, ◌/◌, ◌%◌, ◌^◌, ◌≤◌, ◌<◌, min, max, String, ◌≡◌, refl, sym, ap, ◌∙◌,
  subst, ◌≢◌, ◌↔◌, ◌⊎◌, inl, inr, Bool, true, false, not, ◌&&◌, ◌||◌, Option, none, some, List, [],
  ◌∷◌, ◌++◌, map, arith, eq_iff, ltb, leb, nat_beq, if◌then◌else◌, Key, ◌==◌, number_key, text_key,
  Bool-cases, Option-cases, length, drop, take, length-append, length-drop, keep, count, All,
  All-append, sum, sum-append, concat, show, some_inj, map-eq-some, if_keeps, insert_by, sort_by,
  Sorted, count-insert_by, count-sort_by, All-insert_by, All-sort_by, sort_by-Sorted, All-take,
  take-Sorted,
}
use memix.Dict.{Dict, insert, lookup, remove, contains_key, values, or_else}
use mathlib.Core.Option

pub record WorkspaceEntry : Type 0 where
  pub project_id : String
  pub workspace_root : String
  pub last_active_at : ℕ
  pub indexing_complete : Bool
  pub files_indexed : ℕ
  pub brain_paused : Bool

pub record ActiveContext : Type 0 where
  pub project_id : String
  pub workspace_root : String
  pub activated_at : ℕ

pub record WorkspaceRegistry : Type 0 where
  pub workspaces : Dict String WorkspaceEntry
  pub active : Option ActiveContext
  pub indexer_handles : Dict String ℕ
  pub observer_handles : Dict String ℕ
  pub aborted : List ℕ

abbrev pub new : WorkspaceRegistry
new = record {
  workspaces = [];
  active = none;
  indexer_handles = [];
  observer_handles = [];
  aborted = [];
}

-- `now` in seconds and the instant at which a call runs.
pub record Clock : Type 0 where
  pub now : ℕ
  pub instant : ℕ

pub register : Clock → String → String → WorkspaceRegistry → Bool × WorkspaceRegistry
register clock project_id workspace_root g = (
  not (contains_key project_id g.workspaces),
  record g {
    workspaces =
        insert project_id
          (record {
            project_id = project_id;
            workspace_root = workspace_root;
            last_active_at = clock.now;
            indexing_complete = false;
            files_indexed = 0;
            brain_paused = false;
          })
          g.workspaces;
    active = elim g.active [
      | none ↦ some (record {
        project_id = project_id;
        workspace_root = workspace_root;
        activated_at = clock.instant;
      })
      | some a ↦ some a
    ];
  },
)

-- `if let Some(handle) = handles.remove(project_id) { handle.abort(); }`
pub abort : Option ℕ → List ℕ → List ℕ
abort none aborted = aborted
abort (some handle) aborted = aborted ++ handle ∷ []

-- The focus is lost with the workspace that has it.
pub unfocus : String → Option ActiveContext → Option ActiveContext
unfocus project_id none = none
unfocus project_id (some a) = if a.project_id == project_id then none else some a

pub unregister : String → WorkspaceRegistry → Option WorkspaceEntry × WorkspaceRegistry
unfolding abort unfocus
unregister project_id g = (
  lookup project_id g.workspaces,
  record {
    workspaces = remove project_id g.workspaces;
    active = unfocus project_id g.active;
    indexer_handles = remove project_id g.indexer_handles;
    observer_handles = remove project_id g.observer_handles;
    aborted =
        abort (lookup project_id g.observer_handles)
          (abort (lookup project_id g.indexer_handles) g.aborted);
  },
)

pub set_active : Clock → String → WorkspaceRegistry → Bool × WorkspaceRegistry
set_active clock project_id g = elim (lookup project_id g.workspaces) [
  | none ↦ (false, g)
  | some entry ↦ (
    true,
    record g {
      workspaces = insert project_id (record entry { last_active_at = clock.now }) g.workspaces;
      active = some (record {
        project_id = project_id;
        workspace_root = entry.workspace_root;
        activated_at = clock.instant;
      });
    },
  )
]

pub get_active : WorkspaceRegistry → Option ActiveContext
get_active g = g.active

pub get : String → WorkspaceRegistry → Option WorkspaceEntry
get project_id g = lookup project_id g.workspaces

-- A write through `get_mut`.
pub get_mut : String → (WorkspaceEntry → WorkspaceEntry) → WorkspaceRegistry → WorkspaceRegistry
get_mut project_id f g = elim (lookup project_id g.workspaces) [
  | none ↦ g
  | some entry ↦ record g { workspaces = insert project_id (f entry) g.workspaces }
]

pub registered : WorkspaceRegistry → List WorkspaceEntry
registered g = values g.workspaces

pub has_workspace : String → WorkspaceRegistry → Bool
has_workspace project_id g = contains_key project_id g.workspaces

-- The handle that stood there is dropped, which leaves its task running.
pub set_indexer_handle : String → ℕ → WorkspaceRegistry → WorkspaceRegistry
set_indexer_handle project_id handle g = record g {
  indexer_handles = insert project_id handle g.indexer_handles;
}

pub set_observer_handle : String → ℕ → WorkspaceRegistry → WorkspaceRegistry
set_observer_handle project_id handle g = record g {
  observer_handles = insert project_id handle g.observer_handles;
}

pub get_observer_handle : String → WorkspaceRegistry → Option ℕ
get_observer_handle project_id g = lookup project_id g.observer_handles

pub mark_indexing_complete : String → ℕ → WorkspaceRegistry → WorkspaceRegistry
unfolding get_mut
mark_indexing_complete project_id files_indexed g =
    get_mut project_id
      (λ entry. record entry { indexing_complete = true; files_indexed = files_indexed }) g

pub len : WorkspaceRegistry → ℕ
len g = length g.workspaces

pub is_empty : WorkspaceRegistry → Bool
is_empty g = elim g.workspaces [ [] ↦ true | _ ∷ _ ↦ false ]

pub record RegistrySnapshot : Type 0 where
  pub workspaces : List WorkspaceEntry
  pub active_project_id : Option String
  pub active_workspace_root : Option String

pub snapshot : WorkspaceRegistry → RegistrySnapshot
unfolding registered
snapshot g = record {
  workspaces = registered g;
  active_project_id = Option.map (λ a. a.project_id) g.active;
  active_workspace_root = Option.map (λ a. a.workspace_root) g.active;
}
