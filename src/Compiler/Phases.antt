-- ===== src/Compiler/Phases.antt =====
-- A rule for what all phases of `compile`, context/compiler.rs, keep: it is enough that each kind of
-- round keeps it.
use memix.Compiler.{
  is_file, is_brain, Draft, CompilerConfig, BudgetContextCompiler, Request, ContextSource, consider,
  add_text, add_texts, add_brain_entry, add_brain_entries, fit_file, add_file, add_current,
  add_related_file, add_related, truncate_content, start, brain_phase, rules_phase, issues_phase,
  gather,
}
use memix.Base.{
  ℕ, String, ◌≡◌, refl, ◌∙◌, subst, inl, inr, false, ◌||◌, Option, none, some, List, [], ◌∷◌, arith,
  number_key, text_key, Bool-cases, Option-cases, concat, some_inj, map-eq-some, if_keeps,
}
use memix.Dict.{contains}

module _ (config : CompilerConfig) (simple_hash : String → String) where
  included-add_brain_entry :
      (e : String) (d : Draft)
      → (add_brain_entry config simple_hash e d).included_files ≡ d.included_files
  unfolding add_brain_entry
  included-add_brain_entry e d = ground arith

  pub included-add_brain_entries :
      (es : List String) (d : Draft)
      → (add_brain_entries config simple_hash es d).included_files ≡ d.included_files
  unfolding add_brain_entries
  included-add_brain_entries [] d = refl
  included-add_brain_entries (e ∷ es) d =
      included-add_brain_entries es (add_brain_entry config simple_hash e d)
      ∙ included-add_brain_entry e d

  pub brain_entries_keep :
      {P : Draft → Type 0}
      → ((e : String) (d : Draft) → P d → P (add_brain_entry config simple_hash e d))
      → (es : List String) (d : Draft) → P d
      → P (add_brain_entries config simple_hash es d)
  unfolding add_brain_entries
  brain_entries_keep at [] d h = h
  brain_entries_keep at (e ∷ es) d h =
      brain_entries_keep at es (add_brain_entry config simple_hash e d) (at e d h)

module _ (config : CompilerConfig) where
  pub texts_keep :
      {P : Draft → Type 0} (name : String) (priority : ℕ) (source : ContextSource)
      → ((t : String) (d : Draft) → P d → P (add_text config name priority source t d))
      → (ts : List String) (d : Draft) → P d
      → P (add_texts config name priority source ts d)
  unfolding add_texts
  texts_keep name priority source at [] d h = h
  texts_keep name priority source at (t ∷ ts) d h =
      texts_keep name priority source at ts (add_text config name priority source t d) (at t d h)

module _ (config : CompilerConfig) (read_to_string : String → Option String) {P : Draft → Type 0}
    (at_consider : (d : Draft) → P d → P (consider d))
    (at_file : (name : String) (priority : ℕ) (file content : String) (d : Draft)
      → contains file d.included_files ≡ false
      → P d
      → P (fit_file config name priority file content d)) where
  pub add_file_keeps :
      (name : String) (priority : ℕ) (file : String) (d e : Draft)
      → contains file d.included_files ≡ false
      → P d
      → add_file config read_to_string name priority file d ≡ some e
      → P e
  unfolding add_file
  add_file_keeps name priority file d e new h q = elim (Option-cases (read_to_string file)) [
    | inl r ↦ let same : d ≡ e = ground arith in subst P same h
    | inr (content, r) ↦
        let (c, t, s) =
          map-eq-some (λ x. fit_file config name priority file x d)
            (truncate_content content config.max_file_size) (ground arith) in
        subst P s (at_file name priority file c d new h)
  ]

  related_file_keeps :
      (file : String) (d e : Draft)
      → P d
      → add_related_file config read_to_string file d ≡ some e
      → P e
  unfolding add_related_file
  related_file_keeps file d e h q = elim (Bool-cases (contains file d.included_files)) [
    | inl old ↦ let same : consider d ≡ e = ground arith in subst P same (at_consider d h)
    | inr new ↦
        add_file_keeps (concat "Related: " file) config.priority_weights.related_files file
          (consider d) e new (at_consider d h) (ground arith)
  ]

  pub add_related_keeps :
      (fs : List String) (d e : Draft) → P d → add_related config read_to_string fs d ≡ some e → P e
  unfolding add_related
  add_related_keeps [] d e h q = subst P (some_inj q) h
  add_related_keeps (f ∷ fs) d e h q =
      elim (Option-cases (add_related_file config read_to_string f d)) [
        | inl r ↦ absurd (ground arith)
        | inr (x, r) ↦ add_related_keeps fs x e (related_file_keeps f d x h r) (ground arith)
      ]

  pub add_current_keeps :
      (file : Option String) (d e : Draft)
      → d.included_files ≡ []
      → P d
      → add_current config read_to_string file d ≡ some e
      → P e
  unfolding add_current contains
  add_current_keeps none d e n h q = subst P (some_inj q) h
  add_current_keeps (some file) d e n h q =
      add_file_keeps (concat "Current File: " file) config.priority_weights.current_file file
        (consider d) e (ground arith) (at_consider d h) q

module _ (simple_hash : String → String) (read_to_string : String → Option String) {Score : Type 0}
    (c : BudgetContextCompiler Score) (r : Request) {P : Draft → Type 0}
    (at_brain : (e : String) (d : Draft) → P d → P (add_brain_entry c.config simple_hash e d))
    (at_consider : (d : Draft) → P d → P (consider d))
    (at_file : (name : String) (priority : ℕ) (file content : String) (d : Draft)
      → contains file d.included_files ≡ false
      → P d
      → P (fit_file c.config name priority file content d))
    (at_text : (name : String) (priority : ℕ) (source : ContextSource) (text : String) (d : Draft)
      → is_brain source || is_file source ≡ false
      → P d
      → P (add_text c.config name priority source text d)) where
  brain_phase_keeps :
      P (start simple_hash read_to_string c) → P (brain_phase simple_hash read_to_string c r)
  unfolding brain_phase
  brain_phase_keeps h =
      if_keeps P c.config.include_brain _ _
        (λ t. brain_entries_keep c.config simple_hash at_brain r.brain_entries _ h) (λ f. h)

  included-brain_phase : (brain_phase simple_hash read_to_string c r).included_files ≡ []
  unfolding brain_phase
  included-brain_phase = ground (
    arith,
    included-add_brain_entries c.config simple_hash r.brain_entries
        (start simple_hash read_to_string c),
  )

  rules_phase_keeps : (d : Draft) → P d → P (rules_phase c.config r d)
  unfolding rules_phase
  rules_phase_keeps d h =
      if_keeps P c.config.include_rules _ _
        (λ t. texts_keep c.config _ _ _ (λ t x. at_text _ _ _ t x refl) r.rules d h) (λ f. h)

  issues_phase_keeps : (d : Draft) → P d → P (issues_phase c.config r d)
  unfolding issues_phase
  issues_phase_keeps d h =
      texts_keep c.config _ _ _ (λ t x. at_text _ _ _ t x refl) r.known_issues d h

  -- What each kind of round keeps holds of the draft at the end.
  pub gather_keeps :
      (d : Draft)
      → P (start simple_hash read_to_string c)
      → gather simple_hash read_to_string c r ≡ some d
      → P d
  unfolding gather
  gather_keeps d h q =
      elim (Option-cases (
        add_current c.config read_to_string r.current_file
          (brain_phase simple_hash read_to_string c r))) [
            | inl e ↦ absurd (ground arith)
            | inr (x, e) ↦
                let (y, s, t) =
                  map-eq-some (λ z. issues_phase c.config r (rules_phase c.config r z))
                    (add_related c.config read_to_string r.related_files x) (ground arith) in
                subst P t (
                  issues_phase_keeps _ (
                    rules_phase_keeps y (
                      add_related_keeps c.config read_to_string at_consider at_file r.related_files
                        x y
                        (add_current_keeps c.config read_to_string at_consider at_file
                          r.current_file _ x included-brain_phase (brain_phase_keeps h) e)
                        s)))
          ]
