-- ===== src/Tokens/Manager.antt =====
-- token/manager.rs: the trackers of the workspaces. A tracker that callers share is the one that the
-- map has under its project. Whether a file can be written is an argument, for each project.
use memix.Base.{
  String, ◌≡◌, refl, inl, inr, Bool, Option, none, some, List, [], ◌∷◌, arith, eq_iff,
  if◌then◌else◌, ◌==◌, number_key, text_key, pair_key, bool_key, Bool-cases, Option-cases,
}
use memix.Tokens.{TokenTracker, default_empty, flush_session_to_lifetime}
use memix.Dict.{Dict, lookup, insert, remove, keys, or_else}
use memix.Dict.Laws.{lookup-insert}
use mathlib.Core.Option

abbrev pub Trackers : Type 0
Trackers = Dict String TokenTracker

pub get_or_create : String → Trackers → TokenTracker × Trackers
get_or_create project_id m = elim (lookup project_id m) [
  | some t ↦ (t, m)
  | none ↦ (default_empty project_id, insert project_id (default_empty project_id) m)
]

pub get : String → Trackers → Option TokenTracker
get project_id m = lookup project_id m

pub remove_tracker : String → Trackers → Option TokenTracker × Trackers
remove_tracker project_id m = (lookup project_id m, remove project_id m)

-- The results of the flushes are dropped.
pub flush_all : (now : String) (writable : String → Bool) → Trackers → Trackers
flush_all now writable [] = []
flush_all now writable ((p, t) ∷ m) =
    (p, (flush_session_to_lifetime now (writable p) p t).1) ∷ flush_all now writable m

pub project_ids : Trackers → List String
project_ids m = keys m

-- `get_or_create` returns the tracker of the project, or an empty one where there was none; after it
-- the map has that tracker under the project, and the other projects keep theirs.
pub get_or_create-get :
    (p q : String) (m : Trackers)
    → ((get_or_create p m).0 ≡ or_else (default_empty p) (get p m))
      × (get q ((get_or_create p m).1) ≡ (if p == q then some ((get_or_create p m).0) else get q m))
unfolding get_or_create get
get_or_create-get p q m = elim (Option-cases (lookup p m)) [
  | inl e ↦ rw (e, get_or_create) (refl, lookup-insert p q (default_empty p) m)
  | inr (t, e) ↦ rw (e, get_or_create) (refl, kept t e)
]
  where
    kept :
        (t : TokenTracker)
        → lookup p m ≡ some t
        → lookup q m ≡ (if p == q then some t else lookup q m)
    kept t e = ground (arith, e, eq_iff p q)

-- `flush_all` flushes the tracker of each project.
pub get-flush_all :
    (now : String) (writable : String → Bool) (p : String) (m : Trackers)
    → get p (flush_all now writable m)
      ≡ Option.map (λ t. (flush_session_to_lifetime now (writable p) p t).1) (get p m)
unfolding get flush_all lookup
get-flush_all now writable p [] = refl
get-flush_all now writable p ((q, t) ∷ m) = elim (Bool-cases (q == p)) [
  | inl b ↦ rw (b, (eq_iff q p).0 b) refl
  | inr b ↦ rw (b) (get-flush_all now writable p m)
]
