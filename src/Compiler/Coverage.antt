-- ===== src/Compiler/Coverage.antt =====
-- What the packet of context/compiler.rs says of each file that can be read.
use memix.Compiler.{
  budget_exceeded, Draft, BudgetContextCompiler, BudgetCompiledContext, Request, ContextSource,
  gather, compile, ExcludedFile, finish, CompilerConfig, fit_file, add_text, push_section,
  estimate_tokens, truncate_content, add_file, add_current, add_related_file, add_related, consider,
  brain_phase, rules_phase, issues_phase,
}
use memix.Base.{
  ℕ, ◌+◌, String, ◌≡◌, refl, ap, subst, ◌⊎◌, inl, inr, Bool, true, ◌||◌, Option, some, List, [],
  ◌∷◌, ◌++◌, arith, eq_iff, leb, if◌then◌else◌, ◌==◌, number_key, text_key, Bool-cases,
  Option-cases, concat, map-eq-some, if_keeps,
}
use memix.Dict.{contains}
use memix.Dict.Laws.{contains-append, ==-refl}
use memix.Compiler.Phases.{add_related_keeps, texts_keep}

abbrev pub paths : List ExcludedFile → List String
paths [] = []
paths (x ∷ xs) = x.path ∷ paths xs

contains-paths-append :
    (f : String) (xs ys : List ExcludedFile)
    → contains f (paths (xs ++ ys))
      ≡ (if contains f (paths xs) then true else contains f (paths ys))
unfolding contains
contains-paths-append f [] ys = refl
contains-paths-append f (x ∷ xs) ys = ground (arith, contains-paths-append f xs ys)

-- The file is in one of the two lists.
abbrev pub is_listed : String → List String → List ExcludedFile → Bool
is_listed f included excluded = contains f included || contains f (paths excluded)

record Listed (f : String) (d : Draft) : Type 0 where
  listed : is_listed f d.included_files d.excluded_files ≡ true

module _ (config : CompilerConfig) (f : String) where
  fit_file-Listed :
      (name : String) (priority : ℕ) (file content : String) (d : Draft)
      → Listed f d
      → Listed f (fit_file config name priority file content d)
  unfolding fit_file push_section
  fit_file-Listed name priority file content d h =
      if_keeps (Listed f) (leb (d.total_tokens + estimate_tokens content) config.max_tokens) _ _
        (λ room. record {
          listed = ground (arith, h.listed, contains-append f d.included_files (file ∷ []));
        })
        (λ full. record {
          listed = ground (
            arith,
            h.listed,
            contains-paths-append f d.excluded_files
                (record { path = file; reason = budget_exceeded } ∷ []),
          );
        })

  fit_file-lists :
      (name : String) (priority : ℕ) (content : String) (d : Draft)
      → Listed f (fit_file config name priority f content d)
  unfolding fit_file push_section contains
  fit_file-lists name priority content d =
      if_keeps (Listed f) (leb (d.total_tokens + estimate_tokens content) config.max_tokens) _ _
        (λ room. record {
          listed = ground (arith, contains-append f d.included_files (f ∷ []), ==-refl f);
        })
        (λ full. record {
          listed = ground (
            arith,
            contains-paths-append f d.excluded_files
                (record { path = f; reason = budget_exceeded } ∷ []),
            ==-refl f,
          );
        })

  add_text-Listed :
      (name : String) (priority : ℕ) (source : ContextSource) (text : String) (d : Draft)
      → Listed f d
      → Listed f (add_text config name priority source text d)
  unfolding add_text push_section
  add_text-Listed name priority source text d h =
      if_keeps (Listed f) (leb (d.total_tokens + estimate_tokens text) config.max_tokens) _ _
        (λ room. record { listed = h.listed }) (λ full. h)

  module _ (read_to_string : String → Option String) (content : String)
      (readable : read_to_string f ≡ some content) where
    add_file-lists :
        (name : String) (priority : ℕ) (d e : Draft)
        → add_file config read_to_string name priority f d ≡ some e
        → Listed f e
    unfolding add_file
    add_file-lists name priority d e q =
        let (c, t, s) =
          map-eq-some (λ x. fit_file config name priority f x d)
            (truncate_content content config.max_file_size) (ground arith) in
        subst (Listed f) s (fit_file-lists name priority c d)

    related_file-lists :
        (d e : Draft) → add_related_file config read_to_string f d ≡ some e → Listed f e
    unfolding add_related_file
    related_file-lists d e q = elim (Bool-cases (contains f d.included_files)) [
      | inl old ↦
          let same : consider d ≡ e = ground arith in
          subst (Listed f) same (record { listed = ground arith })
      | inr new ↦
          add_file-lists (concat "Related: " f) config.priority_weights.related_files (consider d) e
            (ground arith)
    ]

    related_stay :
        (fs : List String) (d e : Draft)
        → Listed f d
        → add_related config read_to_string fs d ≡ some e
        → Listed f e
    related_stay =
        add_related_keeps config read_to_string (λ d h. record { listed = h.listed })
          (λ name priority file text d new. fit_file-Listed name priority file text d)

    related-lists :
        (fs : List String) (d e : Draft)
        → contains f fs ≡ true
        → add_related config read_to_string fs d ≡ some e
        → Listed f e
    unfolding add_related contains
    related-lists [] d e m q = absurd (cc)
    related-lists (g ∷ gs) d e m q =
        elim (Option-cases (add_related_file config read_to_string g d)) [
          | inl r ↦ absurd (ground arith)
          | inr (x, r) ↦ elim (Bool-cases (g == f)) [
            | inl hit ↦
                let same : g ≡ f = (eq_iff g f).0 hit in
                related_stay gs x e
                  (related_file-lists d x
                    (subst (λ k. add_related_file config read_to_string k d ≡ some x) same r))
                  (ground arith)
            | inr miss ↦ related-lists gs x e (ground arith) (ground arith)
          ]
        ]

    current-lists :
        (d e : Draft) → add_current config read_to_string (some f) d ≡ some e → Listed f e
    unfolding add_current
    current-lists d e q =
        add_file-lists (concat "Current File: " f) config.priority_weights.current_file (consider d)
          e q

module _ (config : CompilerConfig) (r : Request) (f : String) where
  texts-Listed :
      (d : Draft) → Listed f d → Listed f (issues_phase config r (rules_phase config r d))
  unfolding issues_phase rules_phase
  texts-Listed d h = texts_keep config _ _ _ (add_text-Listed config f _ _ _) r.known_issues _ (
      if_keeps (Listed f) config.include_rules _ _
        (λ on. texts_keep config _ _ _ (add_text-Listed config f _ _ _) r.rules d h) (λ off. h))

module _ (simple_hash : String → String) (read_to_string : String → Option String) {Score : Type 0}
    (c : BudgetContextCompiler Score) (r : Request) (ms : ℕ) (out : BudgetCompiledContext)
    (c' : BudgetContextCompiler Score) (f content : String) where
  -- When `compile` returns, a file that can be read and is the current file or one of the related
  -- files is among the included files or among the excluded ones.
  pub compile-covers :
      compile simple_hash read_to_string c r ms ≡ some (out, c')
      → read_to_string f ≡ some content
      → (r.current_file ≡ some f) ⊎ (contains f r.related_files ≡ true)
      → is_listed f out.included_files out.excluded_files ≡ true
  unfolding compile gather
  compile-covers q readable asked =
      elim (Option-cases (add_current c.config read_to_string r.current_file begun)) [
        | inl e ↦ absurd (ground arith)
        | inr (x, e) ↦
            let (y, s, t) =
              map-eq-some finished (add_related c.config read_to_string r.related_files x)
                {b = (out, c')} (ground arith) in
            subst
              (λ (o : BudgetCompiledContext). is_listed f o.included_files o.excluded_files ≡ true)
              (ap (λ z. z.0) t) (texts-Listed c.config r f y (listed x y e s asked)).listed
      ]
    where
      begun : Draft
      begun = brain_phase simple_hash read_to_string c r

      finished : Draft → BudgetCompiledContext × BudgetContextCompiler Score
      finished d =
          let e = issues_phase c.config r (rules_phase c.config r d) in
          (finish simple_hash read_to_string c ms e, record c { brain_content = e.brain_content })

      listed :
          (x y : Draft)
          → add_current c.config read_to_string r.current_file begun ≡ some x
          → add_related c.config read_to_string r.related_files x ≡ some y
          → (r.current_file ≡ some f) ⊎ (contains f r.related_files ≡ true)
          → Listed f y
      listed x y e s (inl current) =
          related_stay c.config f read_to_string content readable r.related_files x y
            (current-lists c.config f read_to_string content readable begun x
              (subst (λ o. add_current c.config read_to_string o begun ≡ some x) current e))
            s
      listed x y e s (inr related) =
          related-lists c.config f read_to_string content readable r.related_files x y related s
