-- ===== src/Indexers/Single.antt =====
-- indexer_manager.rs: the tasks that run against the map of the manager.
use memix.Base.{
  ℕ, String, ◌≡◌, sym, ◌∙◌, subst, ◌≢◌, inl, inr, Bool, true, false, not, some, List, [], ◌∷◌,
  arith, eq_iff, ◌==◌, number_key, text_key, pair_key, bool_key, Bool-cases, Option-cases, keep,
  some_inj,
}
use memix.Dict.{Dict, lookup, contains_key}
use memix.Dict.Laws.{lookup-insert, lookup-remove}
use memix.Indexers.{
  IndexerManager, Task, new, spawn_for_workspace, abort, end_task, cancel, is_finished, is_running,
  cleanup_finished,
}

-- What happens to the manager and its tasks: its calls, and the end of a task at any time.
pub data Event : Type 0 where
  spawned : (project_id workspace_root : String) → Event
  cancelled : (project_id : String) → Event
  cleaned : Event
  ended : (handle : ℕ) → Event

unfoldable pub step : Event → IndexerManager → IndexerManager
unfolding spawn_for_workspace cancel cleanup_finished end_task
step (spawned project_id workspace_root) m = (spawn_for_workspace project_id workspace_root m).1
step (cancelled project_id) m = (cancel project_id m).1
step cleaned m = cleanup_finished m
step (ended handle) m = record m { tasks = end_task handle m.tasks }

unfoldable pub run : List Event → IndexerManager → IndexerManager
unfolding step
run [] m = m
run (e ∷ es) m = run es (step e m)

-- The task of a handle runs and was not asked to end.
abbrev pub Runs : IndexerManager → ℕ → Task → Type 0
Runs m h t = (lookup h m.tasks ≡ some t) × (t.finished ≡ false) × (t.aborted ≡ false)

-- Every such task is the one that its project has in the map.
abbrev Tracked : IndexerManager → Type 0
Tracked m = (h : ℕ) (t : Task) → Runs m h t → lookup t.project_id m.indexers ≡ some h

lookup-end_task :
    (handle h : ℕ) (tasks : Dict ℕ Task) (t : Task)
    → lookup h (end_task handle tasks) ≡ some t
    → t.finished ≡ false
    → lookup h tasks ≡ some t
unfolding end_task
lookup-end_task handle h tasks t l f = elim (Option-cases (lookup handle tasks)) [
  | inl n ↦ ground (arith, n, l)
  | inr (old, s) ↦
      ground (arith, s, l, f, lookup-insert handle h (record old { finished = true }) tasks)
]

lookup-abort :
    (handle h : ℕ) (tasks : Dict ℕ Task) (t : Task)
    → lookup h (abort handle tasks) ≡ some t
    → t.aborted ≡ false
    → (lookup h tasks ≡ some t) × (handle ≢ h)
unfolding abort
lookup-abort handle h tasks t l f = elim (Option-cases (lookup handle tasks)) [
  | inl n ↦ (ground (arith, n, l), λ e. ground (arith, n, l, e))
  | inr (old, s) ↦
      (let at = lookup-insert handle h (record old { aborted = true }) tasks in
        (ground (arith, s, l, f, at), λ e. ground (arith, s, l, f, e, at)))
]

lookup-keep :
    (p : String) (h : ℕ) (q : String × ℕ → Bool) (m : Dict String ℕ)
    → lookup p m ≡ some h
    → q (p, h) ≡ true
    → lookup p (keep q m) ≡ some h
unfolding lookup
lookup-keep p h q [] l t = cc
lookup-keep p h q ((j, w) ∷ m) l t = elim (Bool-cases (j == p)) [
  | inl e ↦
      (let ej : p ≡ j = ground (arith, eq_iff j p, e) in
        let ew : h ≡ w = ground (arith, e, l) in
        let kept : q (j, w) ≡ true =
          subst (λ x. q (j, x) ≡ true) ew (subst (λ x. q (x, h) ≡ true) ej t) in
        ground (arith, kept, ew, e))
  | inr n ↦ (let rest = lookup-keep p h q m (ground (arith, n, l)) t in ground (arith, n, rest))
]

spawn-Tracked :
    (p root : String) (m : IndexerManager) → Tracked m → Tracked (spawn_for_workspace p root m).1
unfolding spawn_for_workspace contains_key
spawn-Tracked p root m k = elim (Option-cases (lookup p m.indexers)) [
  | inl n ↦
      rw (n, contains_key)
        (λ h t r.
          let task : Task = record {
            project_id = p;
            workspace_root = root;
            finished = false;
            aborted = false;
          } in
          let here = lookup-insert m.next h task m.tasks in
          elim (Bool-cases (m.next == h)) [
            | inl e ↦ ground (
              arith,
              r.0,
              here,
              e,
              lookup-insert p t.project_id m.next m.indexers,
              eq_iff p t.project_id,
            )
            | inr d ↦
                (let old = k h t (ground (arith, r.0, here, d), r.1, r.2) in
                  ground (
                    arith,
                    old,
                    n,
                    lookup-insert p t.project_id m.next m.indexers,
                    eq_iff p t.project_id,
                  ))
          ])
  | inr (v, s) ↦ rw (s, contains_key) k
]

cancel-Tracked : (p : String) (m : IndexerManager) → Tracked m → Tracked (cancel p m).1
unfolding cancel
cancel-Tracked p m k = elim (Option-cases (lookup p m.indexers)) [
  | inl n ↦ rw (n, cancel) k
  | inr (v, s) ↦
      rw (s, cancel)
        (λ h t r.
          let back = lookup-abort v h m.tasks t r.0 r.2 in
          let old = k h t (back.0, r.1, r.2) in
          elim (Bool-cases (p == t.project_id)) [
            | inl e ↦
                (let ep : p ≡ t.project_id = ground (arith, eq_iff p t.project_id, e) in
                  let same_handle : v ≡ h =
                    some_inj (sym s ∙ subst (λ x. lookup x m.indexers ≡ some h) (sym ep) old) in
                  elim (back.1 same_handle) [ ])
            | inr d ↦ ground (arith, lookup-remove p t.project_id m.indexers, d, old)
          ])
]

step-Tracked : (e : Event) (m : IndexerManager) → Tracked m → Tracked (step e m)
unfolding step cleanup_finished is_finished
step-Tracked (spawned p root) m k = spawn-Tracked p root m k
step-Tracked (cancelled p) m k = cancel-Tracked p m k
step-Tracked cleaned m k = λ h t r.
    lookup-keep t.project_id h (λ e. not (is_finished e.1 m.tasks)) m.indexers (k h t r)
      (ground (arith, r.0, r.1))
step-Tracked (ended handle) m k =
    λ h t r. k h t (lookup-end_task handle h m.tasks t r.0 r.1, r.1, r.2)

run-Tracked : (es : List Event) (m : IndexerManager) → Tracked m → Tracked (run es m)
unfolding run
run-Tracked [] m k = k
run-Tracked (e ∷ es) m k = run-Tracked es (step e m) (step-Tracked e m k)

new-Tracked : Tracked new
unfolding lookup
new-Tracked h t r = cc

-- After any calls of the manager and ends of its tasks at any times, two tasks of one project that run
-- and were not cancelled are one, and a project with such a task counts as running.
pub run-single :
    (es : List Event) (h k : ℕ) (t u : Task)
    → Runs (run es new) h t
    → Runs (run es new) k u
    → t.project_id ≡ u.project_id
    → (h ≡ k) × (is_running t.project_id (run es new) ≡ true)
unfolding is_running is_finished
run-single es h k t u r s e =
    let a = run-Tracked es new new-Tracked h t r in
    let b = run-Tracked es new new-Tracked k u s in
    (
      some_inj (sym a ∙ subst (λ x. lookup x (run es new).indexers ≡ some k) (sym e) b),
      ground (arith, a, r.0, r.1),
    )
