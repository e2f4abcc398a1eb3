-- ===== src/Registry/Tasks.antt =====
-- `unregister` of workspace_registry.rs: the tasks that it stops and what it leaves alone.
use memix.Base.{
  ℕ, String, ◌≡◌, refl, ◌⊎◌, inl, inr, true, Option, none, some, List, [], ◌∷◌, arith,
  if◌then◌else◌, ◌==◌, number_key, text_key,
}
use memix.Registry.{WorkspaceEntry, WorkspaceRegistry, unregister, abort, get}
use memix.Dict.{lookup, contains}
use memix.Dict.Laws.{lookup-remove, contains-append}

-- A task that is stored for a workspace, as its indexer or as its observer.
abbrev pub Runs : String → ℕ → WorkspaceRegistry → Type 0
Runs k handle g =
    (lookup k g.indexer_handles ≡ some handle) ⊎ (lookup k g.observer_handles ≡ some handle)

abort-contains :
    (o : Option ℕ) (handle : ℕ) (aborted : List ℕ)
    → (o ≡ some handle) ⊎ (contains handle aborted ≡ true)
    → contains handle (abort o aborted) ≡ true
unfolding abort contains
abort-contains none handle aborted h = ground arith
abort-contains (some x) handle aborted h = ground (arith, contains-append handle aborted (x ∷ []))

pub record Unregisters (k : String) (g : WorkspaceRegistry)
    (r : Option WorkspaceEntry × WorkspaceRegistry) : Type 0 where
  pub returned : r.0 ≡ get k g
  pub entries : (j : String) → get j r.1 ≡ (if k == j then none else get j g)
  pub indexers :
      (j : String)
      → lookup j (r.1).indexer_handles ≡ (if k == j then none else lookup j g.indexer_handles)
  pub observers :
      (j : String)
      → lookup j (r.1).observer_handles ≡ (if k == j then none else lookup j g.observer_handles)
  pub stopped : (handle : ℕ) → Runs k handle g → contains handle (r.1).aborted ≡ true
  pub still_stopped :
      (handle : ℕ) → contains handle g.aborted ≡ true → contains handle (r.1).aborted ≡ true

-- `unregister` returns the entry of the workspace, takes it and its handles out and leaves those of
-- the others, and aborts the indexer and the observer of the workspace, where it has them.
pub unregister-Unregisters : (k : String) (g : WorkspaceRegistry) → Unregisters k g (unregister k g)
unfolding unregister get
unregister-Unregisters k g = record {
  returned = refl;
  entries = λ j. lookup-remove k j g.workspaces;
  indexers = λ j. lookup-remove k j g.indexer_handles;
  observers = λ j. lookup-remove k j g.observer_handles;
  stopped = λ handle running. abort-contains (lookup k g.observer_handles) handle _ (elim running [
    | inl e ↦ inr (abort-contains (lookup k g.indexer_handles) handle g.aborted (inl e))
    | inr e ↦ inl e
  ]);
  still_stopped = λ handle h.
      abort-contains (lookup k g.observer_handles) handle _
        (inr (abort-contains (lookup k g.indexer_handles) handle g.aborted (inr h)));
}
