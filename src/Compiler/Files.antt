-- ===== src/Compiler/Files.antt =====
-- The files of a packet of context/compiler.rs, and when a compilation panics.
use memix.Compiler.{
  finish, Draft, BudgetContextCompiler, BudgetCompiledContext, Request, ContextSection,
  ContextSource, gather, compile, CompilerConfig, add_brain_entry, fit_file, add_text, push_section,
  brain_section, file_section, text_section, estimate_tokens, is_brain, is_file, truncate_content,
  add_file, add_current, add_related_file, add_related, consider, brain_phase, rules_phase,
  issues_phase,
}
use Prim.Native.String.{slice, len}
use memix.Base.{
  count-append, ℕ, ◌+◌, ◌≤◌, String, ◌≡◌, refl, ap, ◌∙◌, subst, ◌⊎◌, inl, inr, Bool, true, false,
  ◌||◌, Option, none, some, List, [], ◌∷◌, arith, eq_iff, leb, ◌==◌, number_key, text_key,
  Bool-cases, Option-cases, length, length-append, count, concat, map-eq-some, if_keeps,
}
use text.Mathlib.Text.{is_char_boundary}
use memix.Dict.{contains}
use memix.Dict.Laws.{count-contains}
use memix.Compiler.Phases.{gather_keeps}
use memix.Compiler.Order.{count-sort}

abbrev pub is_file_section : ContextSection → Bool
is_file_section s = is_file s.source

-- A file stands in the list once at most, and each has its section.
record Lists (d : Draft) : Type 0 where
  unique : (f : String) → count (λ g. g == f) d.included_files ≤ 1
  matched : count is_file_section d.sections ≡ length d.included_files

module _ (config : CompilerConfig) where
  add_brain_entry-Lists :
      (simple_hash : String → String) (entry : String) (d : Draft)
      → Lists d
      → Lists (add_brain_entry config simple_hash entry d)
  unfolding add_brain_entry push_section
  add_brain_entry-Lists simple_hash entry d h =
      if_keeps Lists (leb (d.total_tokens + estimate_tokens entry) config.max_tokens) _ _
        (λ room.
          if_keeps Lists (contains (simple_hash entry) d.brain_content) _ _
            (λ seen. record { unique = h.unique; matched = h.matched })
            (λ new. record {
              unique = h.unique;
              matched =
                  count-append is_file_section d.sections (brain_section config entry ∷ [])
                  ∙ omega (arith, h.matched);
            }))
        (λ full. h)

  fit_file-Lists :
      (name : String) (priority : ℕ) (file content : String) (d : Draft)
      → contains file d.included_files ≡ false
      → Lists d
      → Lists (fit_file config name priority file content d)
  unfolding fit_file push_section
  fit_file-Lists name priority file content d new h =
      if_keeps Lists (leb (d.total_tokens + estimate_tokens content) config.max_tokens) _ _
        (λ room. record {
          unique = λ f. ground (
            arith,
            count-append (λ g. g == f) d.included_files (file ∷ []),
            count-contains file d.included_files new,
            h.unique f,
            eq_iff file f,
          );
          matched =
              count-append is_file_section d.sections (file_section name priority content ∷ [])
              ∙ omega (arith, h.matched, length-append d.included_files (file ∷ []));
        })
        (λ full. record { unique = h.unique; matched = h.matched })

  add_text-Lists :
      (name : String) (priority : ℕ) (source : ContextSource) (text : String) (d : Draft)
      → is_brain source || is_file source ≡ false
      → Lists d
      → Lists (add_text config name priority source text d)
  unfolding add_text push_section
  add_text-Lists name priority source text d other h =
      if_keeps Lists (leb (d.total_tokens + estimate_tokens text) config.max_tokens) _ _
        (λ room. record {
          unique = h.unique;
          matched =
              count-append is_file_section d.sections (text_section name priority source text ∷ [])
              ∙ ground (arith, h.matched);
        })
        (λ full. h)

module _ (simple_hash : String → String) (read_to_string : String → Option String) {Score : Type 0}
    (c : BudgetContextCompiler Score) (r : Request) (ms : ℕ) (out : BudgetCompiledContext)
    (c' : BudgetContextCompiler Score)
    (returned : compile simple_hash read_to_string c r ms ≡ some (out, c')) where
  -- No file is included twice; the packet has as many file sections as included files, and the
  -- metadata report that number.
  pub compile-files :
      (f : String)
      → (count (λ g. g == f) out.included_files ≤ 1)
        × (count is_file_section out.sections ≡ length out.included_files)
        × (out.metadata.files_included ≡ length out.included_files)
  unfolding compile
  compile-files f =
      let (d, g, e) = map-eq-some _ (gather simple_hash read_to_string c r) returned in
      let h =
        gather_keeps simple_hash read_to_string c r {P = Lists}
          (add_brain_entry-Lists c.config simple_hash)
          (λ x k. record { unique = k.unique; matched = k.matched }) (fit_file-Lists c.config)
          (add_text-Lists c.config) d (record { unique = λ x. omega arith; matched = refl }) g in
      subst
        (λ (o : BudgetCompiledContext).
          (count (λ x. x == f) o.included_files ≤ 1)
          × (count is_file_section o.sections ≡ length o.included_files)
          × (o.metadata.files_included ≡ length o.included_files))
        (ap (λ x. x.0) e) (h.unique f, count-sort is_file_section d.sections ∙ h.matched, refl)

-- A text is cut between characters, or not at all.
abbrev pub IsSafe : ℕ → String → Type 0
IsSafe max_size content = (len content ≤ max_size) ⊎ (is_char_boundary content max_size ≡ true)

truncate-total :
    (content : String) (max_size : ℕ)
    → IsSafe max_size content
    → (s : String) × (truncate_content content max_size ≡ some s)
unfolding truncate_content
truncate-total content max_size h = elim (Bool-cases (leb (len content) max_size)) [
  | inl short ↦ rw short (content, refl)
  | inr long ↦
      let cut : is_char_boundary content max_size ≡ true = ground arith in
      rw (long, cut) (concat (slice content 0 max_size) "... [truncated]", refl)
]

module _ (config : CompilerConfig) (read_to_string : String → Option String) where
  -- Every file that can be read is safe to cut at the size limit.
  abbrev pub AllSafe : Type 0
  AllSafe =
      (file content : String)
      → read_to_string file ≡ some content
      → IsSafe config.max_file_size content

  add_file-total :
      AllSafe
      → (name : String) (priority : ℕ) (file : String) (d : Draft)
      → (e : Draft) × (add_file config read_to_string name priority file d ≡ some e)
  unfolding add_file
  add_file-total safe name priority file d = elim (Option-cases (read_to_string file)) [
    | inl e ↦ (d, ground arith)
    | inr (content, e) ↦
        let (s, t) = truncate-total content config.max_file_size (safe file content e) in
        (fit_file config name priority file s d, rw (e, add_file, t) refl)
  ]

  related_file-total :
      AllSafe
      → (file : String) (d : Draft)
      → (e : Draft) × (add_related_file config read_to_string file d ≡ some e)
  unfolding add_related_file
  related_file-total safe file d =
      if_keeps (λ o. (e : Draft) × (o ≡ some e)) (contains file d.included_files) _ _
        (λ old. (consider d, refl)) (λ new. add_file-total safe _ _ file (consider d))

  add_related-total :
      AllSafe
      → (fs : List String) (d : Draft)
      → (e : Draft) × (add_related config read_to_string fs d ≡ some e)
  unfolding add_related
  add_related-total safe [] d = (d, refl)
  add_related-total safe (f ∷ fs) d =
      let (x, p) = related_file-total safe f d in
      let (e, q) = add_related-total safe fs x in (e, ground arith)

  add_current-total :
      AllSafe
      → (file : Option String) (d : Draft)
      → (e : Draft) × (add_current config read_to_string file d ≡ some e)
  unfolding add_current
  add_current-total safe none d = (d, refl)
  add_current-total safe (some file) d = add_file-total safe _ _ file (consider d)

module _ (simple_hash : String → String) (read_to_string : String → Option String) {Score : Type 0}
    (c : BudgetContextCompiler Score) (r : Request) (ms : ℕ) where
  -- `compile` returns a packet if every readable file is within the size limit or has a character
  -- boundary there.
  pub compile-total :
      AllSafe c.config read_to_string
      → (out : BudgetCompiledContext) × (c' : BudgetContextCompiler Score) × (compile simple_hash
            read_to_string c r ms
          ≡ some (out, c'))
  unfolding compile gather
  compile-total safe =
      let (x, p) =
        add_current-total c.config read_to_string safe r.current_file
          (brain_phase simple_hash read_to_string c r) in
      let (y, q) = add_related-total c.config read_to_string safe r.related_files x in
      let d = issues_phase c.config r (rules_phase c.config r y) in
      (
        finish simple_hash read_to_string c ms d,
        record c { brain_content = d.brain_content },
        ground arith,
      )
