-- ===== src/Indexers.antt =====
-- indexer_manager.rs: the background indexers of the workspaces. A task is started by its manager under
-- a new number, its handle. An abort only asks a task to end, which it does at a later time, by its own
-- end or at its next wait; what it does is in background_indexer.rs.
pub mod Single
mod Tests
use memix.Base.{
  ℕ, zero, suc, ◌+◌, ◌-◌, ◌*◌, ◌/◌, ◌%◌, ◌^◌, ◌≤◌, ◌<◌, min, max, String, ◌≡◌, refl, sym, ap, ◌∙◌,
  subst, ◌≢◌, ◌↔◌, ◌⊎◌, inl, inr, Bool, true, false, not, ◌&&◌, ◌||◌, Option, none, some, List, [],
  ◌∷◌, ◌++◌, map, arith, eq_iff, ltb, leb, nat_beq, if◌then◌else◌, Key, ◌==◌, number_key, text_key,
  pair_key, pair_equal_iff, bool_key, both, same, Bool-cases, Option-cases, length, drop, take,
  length-append, length-drop, keep, count, All, All-append, sum, sum-append, concat, show, some_inj,
  map-eq-some, if-some-cases, if-eq-some, chain-eq-some, if_keeps, ℤ, pos, negsuc, negative,
  whole_units, exceeds, append_none, keep-append, append_assoc, reverse, insert_by, sort_by, Sorted,
  count-insert_by, count-sort_by, All-insert_by, All-sort_by, sort_by-Sorted, All-take, take-Sorted,
  sort_by-coarse, OneLine, lines-OneLine, length-lines-join_le, lines, split_whitespace,
  trim_matches, trim, contains_text, strip_prefix, join, before_first,
}
use memix.Dict.{Dict, lookup, insert, remove, contains_key}

pub record Task : Type 0 where
  pub project_id : String
  pub workspace_root : String
  pub finished : Bool
  -- Whether the task was asked to end.
  pub aborted : Bool

-- The manager, and the tasks of the runtime by handle.
pub record IndexerManager : Type 0 where
  pub indexers : Dict String ℕ
  pub tasks : Dict ℕ Task
  pub next : ℕ

abbrev pub new : IndexerManager
new = record { indexers = []; tasks = []; next = 0 }

unfoldable pub spawn_for_workspace :
    (project_id workspace_root : String) → IndexerManager → Bool × IndexerManager
unfolding insert contains_key
spawn_for_workspace project_id workspace_root m =
    if contains_key project_id m.indexers then (false, m) else (
      true,
      record {
        indexers = insert project_id m.next m.indexers;
        tasks =
            insert m.next
              (record {
                project_id = project_id;
                workspace_root = workspace_root;
                finished = false;
                aborted = false;
              })
              m.tasks;
        next = m.next + 1;
      },
    )

-- `JoinHandle::abort`, which returns before the task ends.
unfoldable pub abort : ℕ → Dict ℕ Task → Dict ℕ Task
unfolding lookup insert
abort handle tasks = elim (lookup handle tasks) [
  | none ↦ tasks
  | some t ↦ insert handle (record t { aborted = true }) tasks
]

-- The end of a task, aborted or not.
unfoldable pub end_task : ℕ → Dict ℕ Task → Dict ℕ Task
unfolding lookup insert
end_task handle tasks = elim (lookup handle tasks) [
  | none ↦ tasks
  | some t ↦ insert handle (record t { finished = true }) tasks
]

unfoldable pub cancel : (project_id : String) → IndexerManager → Bool × IndexerManager
unfolding lookup remove abort
cancel project_id m = elim (lookup project_id m.indexers) [
  | none ↦ (false, m)
  | some handle ↦
      (true, record m { indexers = remove project_id m.indexers; tasks = abort handle m.tasks })
]

-- `is_finished`
unfoldable pub is_finished : ℕ → Dict ℕ Task → Bool
unfolding lookup
is_finished handle tasks = elim (lookup handle tasks) [ none ↦ true | some t ↦ t.finished ]

unfoldable pub is_running : (project_id : String) → IndexerManager → Bool
unfolding lookup is_finished
is_running project_id m = elim (lookup project_id m.indexers) [
  | none ↦ false
  | some handle ↦ not (is_finished handle m.tasks)
]

unfoldable pub running_count : IndexerManager → ℕ
unfolding is_finished
running_count m = count (λ e. not (is_finished e.1 m.tasks)) m.indexers

unfoldable pub cleanup_finished : IndexerManager → IndexerManager
unfolding is_finished
cleanup_finished m = record m { indexers = keep (λ e. not (is_finished e.1 m.tasks)) m.indexers }
