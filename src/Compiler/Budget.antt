-- ===== src/Compiler/Budget.antt =====
-- The tokens of a packet of context/compiler.rs against its budget.
use memix.Compiler.{
  brain_section, contains, file_section, text_section, estimate_tokens, add, Draft, CompilerConfig,
  BudgetContextCompiler, BudgetCompiledContext, Request, ContextSection, ContextSource, add_text,
  add_brain_entry, fit_file, gather, compile, push_section, sort_sections, insert_section,
}
use memix.Base.{
  ℕ, ◌+◌, ◌≤◌, String, ◌≡◌, refl, ap, ◌∙◌, subst, Option, some, List, [], ◌∷◌, ◌++◌, arith, leb,
  number_key, text_key, map-eq-some, if_keeps,
}
use memix.Compiler.Phases.{gather_keeps}

abbrev pub token_sum : List ContextSection → ℕ
token_sum [] = 0
token_sum (s ∷ ss) = s.tokens + token_sum ss

token_sum-append :
    (xs ys : List ContextSection) → token_sum (xs ++ ys) ≡ token_sum xs + token_sum ys
token_sum-append [] ys = omega arith
token_sum-append (x ∷ xs) ys = omega (arith, token_sum-append xs ys)

token_sum-insert :
    (s : ContextSection) (ss : List ContextSection)
    → token_sum (insert_section s ss) ≡ s.tokens + token_sum ss
unfolding insert_section
token_sum-insert s [] = refl
token_sum-insert s (t ∷ ts) = ground (arith, token_sum-insert s ts)

token_sum-sort : (ss : List ContextSection) → token_sum (sort_sections ss) ≡ token_sum ss
unfolding sort_sections
token_sum-sort [] = refl
token_sum-sort (s ∷ ss) = omega (arith, token_sum-insert s (sort_sections ss), token_sum-sort ss)

-- The running total is the sum over the sections, and within the budget.
record Fits (max_tokens : ℕ) (d : Draft) : Type 0 where
  summed : token_sum d.sections ≡ d.total_tokens
  within : d.total_tokens ≤ max_tokens

module _ (config : CompilerConfig) where
  push-Fits :
      (s : ContextSection) (d : Draft)
      → d.total_tokens + s.tokens ≤ config.max_tokens
      → Fits config.max_tokens d
      → Fits config.max_tokens (push_section s d)
  unfolding push_section
  push-Fits s d room h = record {
    summed = omega (arith, token_sum-append d.sections (s ∷ []));
    within = room;
  }

  add_text-Fits :
      (name : String) (priority : ℕ) (source : ContextSource) (text : String) (d : Draft)
      → Fits config.max_tokens d
      → Fits config.max_tokens (add_text config name priority source text d)
  unfolding add_text
  add_text-Fits name priority source text d h =
      if_keeps (Fits config.max_tokens)
        (leb (d.total_tokens + estimate_tokens text) config.max_tokens) _ _
        (λ t. push-Fits (text_section name priority source text) d (ground arith) h) (λ f. h)

  fit_file-Fits :
      (name : String) (priority : ℕ) (file content : String) (d : Draft)
      → Fits config.max_tokens d
      → Fits config.max_tokens (fit_file config name priority file content d)
  unfolding fit_file
  fit_file-Fits name priority file content d h =
      if_keeps (Fits config.max_tokens)
        (leb (d.total_tokens + estimate_tokens content) config.max_tokens) _ _
        (λ t.
          push-Fits (file_section name priority content)
            (record d { included_files = d.included_files ++ file ∷ [] }) (ground arith)
            (record { summed = h.summed; within = h.within }))
        (λ f. record { summed = h.summed; within = h.within })

  add_brain_entry-Fits :
      (simple_hash : String → String) (entry : String) (d : Draft)
      → Fits config.max_tokens d
      → Fits config.max_tokens (add_brain_entry config simple_hash entry d)
  unfolding add_brain_entry
  add_brain_entry-Fits simple_hash entry d h =
      if_keeps (Fits config.max_tokens)
        (leb (d.total_tokens + estimate_tokens entry) config.max_tokens) _ _
        (λ t.
          if_keeps (Fits config.max_tokens) (contains (simple_hash entry) d.brain_content) _ _
            (λ s. record { summed = h.summed; within = h.within })
            (λ n.
              push-Fits (brain_section config entry)
                (record d { brain_content = add (simple_hash entry) d.brain_content })
                (ground arith) (record { summed = h.summed; within = h.within })))
        (λ f. h)

-- Whenever `compile` returns a packet, the tokens of its sections sum up to its total, which is at
-- most `max_tokens`, and the metadata report that total and that budget.
pub compile-within_budget :
    (simple_hash : String → String) (read_to_string : String → Option String) {Score : Type 0}
    (c : BudgetContextCompiler Score) (r : Request) (ms : ℕ) (out : BudgetCompiledContext)
    (c' : BudgetContextCompiler Score)
    → compile simple_hash read_to_string c r ms ≡ some (out, c')
    → (token_sum out.sections ≡ out.total_tokens)
      × (out.total_tokens ≤ c.config.max_tokens)
      × (out.metadata.budget_used ≡ out.total_tokens)
      × (out.metadata.budget_total ≡ c.config.max_tokens)
unfolding compile
compile-within_budget hash read c r ms out c' q =
    let (d, g, e) = map-eq-some _ (gather hash read c r) q in
    let fits =
      gather_keeps hash read c r {P = Fits c.config.max_tokens} (add_brain_entry-Fits c.config hash)
        (λ x h. record { summed = h.summed; within = h.within })
        (λ name priority file content x new. fit_file-Fits c.config name priority file content x)
        (λ name priority source text x n. add_text-Fits c.config name priority source text x) d
        (record { summed = refl; within = omega arith }) g in
    subst
      (λ (o : BudgetCompiledContext).
        (token_sum o.sections ≡ o.total_tokens)
        × (o.total_tokens ≤ c.config.max_tokens)
        × (o.metadata.budget_used ≡ o.total_tokens)
        × (o.metadata.budget_total ≡ c.config.max_tokens))
      (ap (λ x. x.0) e) (token_sum-sort d.sections ∙ fits.summed, fits.within, refl, refl)
