-- ===== src/Registry/Focus.antt =====
-- The focus of workspace_registry.rs after any sequence of calls.
use memix.Dict.Laws.{==-refl, lookup-insert, lookup-remove}
use memix.Base.{
  ℕ, String, ◌≡◌, refl, ap, ◌∙◌, subst, ◌⊎◌, inl, inr, true, false, Option, none, some, List, [],
  ◌∷◌, arith, eq_iff, if◌then◌else◌, ◌==◌, number_key, text_key, Option-cases, some_inj,
}
use memix.Registry.{
  WorkspaceEntry, ActiveContext, WorkspaceRegistry, Clock, new, register, unregister, set_active,
  get_mut, mark_indexing_complete, set_indexer_handle, set_observer_handle, get, get_active,
  unfocus, has_workspace,
}
use memix.Dict.{contains_key, lookup, insert, remove, Dict}
use mathlib.Core.Option

pub data Call : Type 0 where
  registers : Clock → String → String → Call
  unregisters : String → Call
  focuses : Clock → String → Call
  completes : String → ℕ → Call
  writes : String → (WorkspaceEntry → WorkspaceEntry) → Call
  indexes : String → ℕ → Call
  observes : String → ℕ → Call

unfoldable pub apply : WorkspaceRegistry → Call → WorkspaceRegistry
apply g (registers clock project_id root) = (register clock project_id root g).1
apply g (unregisters project_id) = (unregister project_id g).1
apply g (focuses clock project_id) = (set_active clock project_id g).1
apply g (completes project_id n) = mark_indexing_complete project_id n g
apply g (writes project_id f) = get_mut project_id f g
apply g (indexes project_id handle) = set_indexer_handle project_id handle g
apply g (observes project_id handle) = set_observer_handle project_id handle g

unfoldable pub run : WorkspaceRegistry → List Call → WorkspaceRegistry
run g [] = g
run g (c ∷ cs) = run (apply g c) cs

abbrev pub IsFocused : WorkspaceRegistry → Type 0
IsFocused g = (a : ActiveContext) → get_active g ≡ some a → has_workspace a.project_id g ≡ true

contains_key-insert :
    (j k : String) (v : WorkspaceEntry) (m : Dict String WorkspaceEntry)
    → contains_key j m ≡ true
    → contains_key j (insert k v m) ≡ true
unfolding contains_key
contains_key-insert j k v m h = ground (arith, lookup-insert k j v m)

contains_key-inserted :
    (k : String) (v : WorkspaceEntry) (m : Dict String WorkspaceEntry)
    → contains_key k (insert k v m) ≡ true
unfolding contains_key
contains_key-inserted k v m = ground (arith, lookup-insert k k v m, eq_iff k k)

contains_key-remove :
    (j k : String) (m : Dict String WorkspaceEntry)
    → (k == j) ≡ false
    → contains_key j m ≡ true
    → contains_key j (remove k m) ≡ true
unfolding contains_key
contains_key-remove j k m n h = ground (arith, lookup-remove k j m)

-- What `register` and `unregister` make of the focus.
focused_or :
    (o : Option ActiveContext) (b a : ActiveContext)
    → elim o as (λ x. Option ActiveContext) [ none ↦ some b | some c ↦ some c ] ≡ some a
    → (b ≡ a) ⊎ (o ≡ some a)
focused_or none b a e = inl (some_inj e)
focused_or (some c) b a e = inr e

unfocus-eq-some :
    (k : String) (o : Option ActiveContext) (a : ActiveContext)
    → unfocus k o ≡ some a
    → (o ≡ some a) × ((k == a.project_id) ≡ false)
unfolding unfocus
unfocus-eq-some k none a e = cc
unfocus-eq-some k (some c) a e = ground (arith, eq_iff k c.project_id, eq_iff c.project_id k)

register-IsFocused :
    (clock : Clock) (project_id root : String) (g : WorkspaceRegistry)
    → IsFocused g
    → IsFocused ((register clock project_id root g).1)
unfolding register get_active has_workspace
register-IsFocused clock k root g h a e = elim (focused_or g.active _ a e) [
  | inl same ↦
      subst (λ j. contains_key j ((register clock k root g).1).workspaces ≡ true)
        (ap (λ c. c.project_id) same) (contains_key-inserted k _ g.workspaces)
  | inr old ↦ contains_key-insert a.project_id k _ g.workspaces (h a old)
]

unregister-IsFocused :
    (project_id : String) (g : WorkspaceRegistry)
    → IsFocused g
    → IsFocused ((unregister project_id g).1)
unfolding unregister get_active has_workspace
unregister-IsFocused k g h a e =
    let (old, other) = unfocus-eq-some k g.active a e in
    contains_key-remove a.project_id k g.workspaces other (h a old)

set_active-IsFocused :
    (clock : Clock) (project_id : String) (g : WorkspaceRegistry)
    → IsFocused g
    → IsFocused ((set_active clock project_id g).1)
unfolding set_active get_active has_workspace
set_active-IsFocused clock k g h = elim (Option-cases (lookup k g.workspaces)) [
  | inl e ↦ rw (e, set_active) h
  | inr (entry, e) ↦
      rw (e, set_active)
        (λ a q.
          subst
            (λ j.
              contains_key j (insert k (record entry { last_active_at = clock.now }) g.workspaces)
              ≡ true)
            (ap (λ c. c.project_id) (some_inj q)) (contains_key-inserted k _ g.workspaces))
]

get_mut-IsFocused :
    (project_id : String) (f : WorkspaceEntry → WorkspaceEntry) (g : WorkspaceRegistry)
    → IsFocused g
    → IsFocused (get_mut project_id f g)
unfolding get_mut get_active has_workspace
get_mut-IsFocused k f g h = elim (Option-cases (lookup k g.workspaces)) [
  | inl e ↦ rw (e, get_mut) h
  | inr (entry, e) ↦
      rw (e, get_mut) (λ a q. contains_key-insert a.project_id k (f entry) g.workspaces (h a q))
]

apply-IsFocused : (g : WorkspaceRegistry) (c : Call) → IsFocused g → IsFocused (apply g c)
unfolding apply mark_indexing_complete set_indexer_handle set_observer_handle get_active
    has_workspace
apply-IsFocused g (registers clock k root) h = register-IsFocused clock k root g h
apply-IsFocused g (unregisters k) h = unregister-IsFocused k g h
apply-IsFocused g (focuses clock k) h = set_active-IsFocused clock k g h
apply-IsFocused g (completes k n) h = get_mut-IsFocused k _ g h
apply-IsFocused g (writes k f) h = get_mut-IsFocused k f g h
apply-IsFocused g (indexes k handle) h = h
apply-IsFocused g (observes k handle) h = h

run-IsFocused_from : (cs : List Call) (g : WorkspaceRegistry) → IsFocused g → IsFocused (run g cs)
unfolding run
run-IsFocused_from [] g h = h
run-IsFocused_from (c ∷ cs) g h = run-IsFocused_from cs (apply g c) (apply-IsFocused g c h)

-- After any sequence of calls on a new registry, the workspace in focus is registered.
pub run-IsFocused : (cs : List Call) → IsFocused (run new cs)
unfolding get_active
run-IsFocused cs = run-IsFocused_from cs new (λ a e. cc)

-- A call of `register` for the project in focus keeps the focus as it is, with its root and its
-- instant, while the entry gets the new root.
pub register-focused :
    (clock : Clock) (root : String) (g : WorkspaceRegistry) (a : ActiveContext)
    → get_active g ≡ some a
    → let after = (register clock a.project_id root g).1 in
      (get_active after ≡ some a)
      × (Option.map (λ w. w.workspace_root) (get a.project_id after) ≡ some root)
unfolding register get_active get
register-focused clock root g a e = (
  rw (e) refl,
  ap (Option.map (λ w. w.workspace_root)) (
      lookup-insert a.project_id a.project_id _ g.workspaces
      ∙ ap
          (λ b.
            if b
            then some (record {
              project_id = a.project_id;
              workspace_root = root;
              last_active_at = clock.now;
              indexing_complete = false;
              files_indexed = 0;
              brain_paused = false;
            })
            else lookup a.project_id g.workspaces)
          (==-refl a.project_id)),
)
