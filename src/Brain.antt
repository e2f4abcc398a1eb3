-- ===== src/Brain.antt =====
-- brain/schema.rs and brain/manager.rs: the memories of a project and what changes one of them. The
-- clock and the new identifier are arguments, and a time stamp is a number of nanoseconds.
pub mod Validator
pub mod Selection
pub mod Value
pub mod Inheritance
pub mod Entries
mod Tests
use memix.Base.{
  ℕ, zero, suc, ◌+◌, ◌-◌, ◌*◌, ◌/◌, ◌%◌, ◌^◌, ◌≤◌, ◌<◌, min, max, String, ◌≡◌, refl, sym, ap, ◌∙◌,
  subst, ◌≢◌, ◌↔◌, ◌⊎◌, inl, inr, Bool, true, false, not, ◌&&◌, ◌||◌, Option, none, some, List, [],
  ◌∷◌, ◌++◌, map, arith, eq_iff, ltb, leb, nat_beq, if◌then◌else◌, Key, ◌==◌, number_key, text_key,
  pair_key, pair_equal_iff, bool_key, both, same, Bool-cases, Option-cases, length, drop, take,
  length-append, length-drop, keep, count, All, All-append, sum, sum-append, concat, show, some_inj,
  map-eq-some, if_keeps, ℤ, pos, negsuc, negative, whole_units, exceeds, insert_by, sort_by, Sorted,
  count-insert_by, count-sort_by, All-insert_by, All-sort_by, sort_by-Sorted, All-take, take-Sorted,
}
use Prim.Native.String.{len}
use memix.Dict.{contains}

pub data MemoryKind : Type 0 where
  fact decision warning pattern_kind context negative_kind : MemoryKind

pub data MemorySource : Type 0 where
  user_manual agent_extracted file_watcher git_archaeology : MemorySource

pub record MemoryEntry : Type 0 where
  pub id : String
  pub project_id : String
  pub kind : MemoryKind
  pub content : String
  pub tags : List String
  pub source : MemorySource
  pub superseded_by : Option String
  pub contradicts : List String
  pub parent_id : Option String
  pub caused_by : List String
  pub enables : List String
  pub created_at : ℕ
  pub updated_at : ℕ
  pub access_count : ℕ
  pub last_accessed_at : Option ℕ

-- A result of `anyhow`, with the text of the error.
pub data Outcome {ℓ} (A : Type ℓ) : Type ℓ where
  done : A → Outcome A
  failed : String → Outcome A

pub record BrainManager : Type 0 where
  pub max_entries_per_project : ℕ
  pub max_entry_size_bytes : ℕ

abbrev pub new : BrainManager
new = record { max_entries_per_project = 1000; max_entry_size_bytes = 51200 }

abbrev pub too_large : ℕ → String
too_large size = concat "Entry content exceeds maximum size of " (concat (show size) " bytes")

abbrev pub fresh_entry :
    (id : String) (now : ℕ)
    → String
    → MemoryKind
    → String
    → List String
    → MemorySource
    → MemoryEntry
fresh_entry id now project_id kind content tags source = record {
  id = id;
  project_id = project_id;
  kind = kind;
  content = content;
  tags = tags;
  source = source;
  superseded_by = none;
  contradicts = [];
  parent_id = none;
  caused_by = [];
  enables = [];
  created_at = now;
  updated_at = now;
  access_count = 0;
  last_accessed_at = none;
}

pub create_entry :
    (id : String) (now : ℕ)
    → BrainManager
    → String
    → MemoryKind
    → String
    → List String
    → MemorySource
    → Outcome MemoryEntry
create_entry id now m project_id kind content tags source =
    if ltb m.max_entry_size_bytes (len content)
    then failed (too_large m.max_entry_size_bytes)
    else done (fresh_entry id now project_id kind content tags source)

-- The error leaves the entry as it is.
pub update_entry : (now : ℕ) → BrainManager → String → MemoryEntry → Outcome MemoryEntry
update_entry now m new_content e =
    if ltb m.max_entry_size_bytes (len new_content)
    then failed (too_large m.max_entry_size_bytes)
    else done (record e { content = new_content; updated_at = now })

-- `saturating_add` on a `u32`.
pub mark_accessed : (now : ℕ) → MemoryEntry → MemoryEntry
mark_accessed now e = record e {
  access_count = min (e.access_count + 1) (2 ^ 32 - 1);
  last_accessed_at = some now;
}

pub link_superseded : (now : ℕ) → String → MemoryEntry → MemoryEntry
link_superseded now by e = record e { superseded_by = some by; updated_at = now }

pub add_contradiction : (now : ℕ) → String → MemoryEntry → MemoryEntry
add_contradiction now id e =
    if contains id e.contradicts
    then e
    else record e { contradicts = e.contradicts ++ id ∷ []; updated_at = now }

pub resolve_contradiction : (now : ℕ) → String → MemoryEntry → MemoryEntry
resolve_contradiction now id e = record e {
  contradicts = keep (λ c. not (c == id)) e.contradicts;
  updated_at = now;
}

abbrev nanos_per_hour : ℕ
nanos_per_hour = 3600000000000

pub get_entry_age_hours : (now : ℕ) → MemoryEntry → ℤ
get_entry_age_hours now e = whole_units nanos_per_hour e.created_at now

pub is_entry_stale : (now : ℕ) → ℤ → MemoryEntry → Bool
unfolding get_entry_age_hours
is_entry_stale now hours_threshold e = exceeds (get_entry_age_hours now e) hours_threshold
