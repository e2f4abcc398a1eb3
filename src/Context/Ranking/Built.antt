-- ===== src/Context/Ranking/Built.antt =====
-- How the ranked sections of context/mod.rs are built: each is a compiled section of one of seven kinds.
use memix.Base.{
  ℕ, String, ◌≡◌, refl, true, Option, none, some, List, [], ◌∷◌, number_key, text_key, pair_key,
  bool_key, if_keeps, ℤ,
}
use memix.Dict.{contains}
use memix.Brain.{MemoryEntry}
use memix.Context.{Host, TaskType, CompiledSection, compiled_section}
use memix.Context.History.{Draft}
use memix.Context.Skeleton.{CodeSkeleton}
use memix.Context.Ranking.{
  push_section, append_sections, is_generated, entry_path, skeleton_section, skeleton_sections,
  index_entry, index_sections, draft_sections, causal_sections, active_sections, gathered,
}

abbrev pub section_kinds : List String
section_kinds =
    "active-context" ∷ "causal-chain" ∷ "code-skeleton" ∷ "skeleton-fsi" ∷ "skeleton-fusi"
    ∷ "history" ∷ "rules" ∷ []

pub data Built (host : Host) : Option (List CompiledSection) → Type 0 where
  nothing_built : Built host (some [])
  pushed :
      {rest : Option (List CompiledSection)} (id kind : String) (priority : ℕ) (content : String)
      → contains kind section_kinds ≡ true
      → Built host rest
      → Built host (push_section (compiled_section host id kind priority content) rest)
  appended :
      {a b : Option (List CompiledSection)}
      → Built host a
      → Built host b
      → Built host (append_sections a b)

module _ (host : Host) where
  skeleton_sections-Built :
      (importance : String → ℤ) (active_file : String) (query : Option String)
      (skeletons : List CodeSkeleton)
      → Built host (skeleton_sections host importance active_file query skeletons)
  unfolding skeleton_sections skeleton_section contains
  skeleton_sections-Built importance active_file query [] = nothing_built
  skeleton_sections-Built importance active_file query (s ∷ ss) =
      pushed _ "code-skeleton" _ _ refl (skeleton_sections-Built importance active_file query ss)

  draft_sections-Built :
      (kind : String) (drafts : List Draft)
      → contains kind section_kinds ≡ true
      → Built host (draft_sections host kind drafts)
  unfolding draft_sections
  draft_sections-Built kind [] h = nothing_built
  draft_sections-Built kind (d ∷ ds) h = pushed d.0 kind d.2 d.1 h (draft_sections-Built kind ds h)

  -- What an entry of the index adds keeps a list built.
  index_entry-Built :
      (query : Option String) (entry : MemoryEntry) (rest : Option (List CompiledSection))
      → Built host rest
      → Built host
          (elim (index_entry host query entry) [ none ↦ rest | some s ↦ push_section s rest ])
  unfolding index_entry contains
  index_entry-Built query entry rest b =
      if_keeps Adds (is_generated (entry_path entry)) _ _ (λ g. b)
        (λ g.
          if_keeps Adds (contains "fsi" entry.tags) _ _ (λ t. pushed _ "skeleton-fsi" _ _ refl b)
            (λ f.
              if_keeps Adds (contains "fusi" entry.tags) _ _
                (λ t. pushed _ "skeleton-fusi" _ _ refl b) (λ n. b)))
    where
      Adds : Option (Option CompiledSection) → Type 0
      Adds o = Built host (elim o [ none ↦ rest | some s ↦ push_section s rest ])

  index_sections-Built :
      (query : Option String) (entries : List MemoryEntry)
      → Built host (index_sections host query entries)
  unfolding index_sections index_entry contains
  index_sections-Built query [] = nothing_built
  index_sections-Built query (e ∷ es) =
      index_entry-Built query e (index_sections host query es) (index_sections-Built query es)

  causal_sections-Built :
      (active_file : String) (causal : Option String)
      → Built host (causal_sections host active_file causal)
  unfolding causal_sections contains
  causal_sections-Built active_file none = nothing_built
  causal_sections-Built active_file (some c) = pushed _ "causal-chain" _ _ refl nothing_built

  pub gathered-Built :
      (importance : String → ℤ) (active_file : String) (task_type : TaskType)
      (skeletons : List CodeSkeleton) (history_sections rules_sections : List Draft)
      (skeleton_entries : List MemoryEntry) (causal_context query : Option String)
      → Built host (
          gathered host importance active_file task_type skeletons history_sections rules_sections
            skeleton_entries causal_context query)
  unfolding gathered active_sections contains
  gathered-Built importance active_file task_type skeletons history rules entries causal query =
      appended (pushed _ "active-context" _ _ refl nothing_built) (
        appended (causal_sections-Built active_file causal) (
          appended (skeleton_sections-Built importance active_file query skeletons) (
            appended (index_sections-Built query entries) (
              appended (draft_sections-Built "history" history refl)
                (appended (draft_sections-Built "rules" rules refl) nothing_built)))))
