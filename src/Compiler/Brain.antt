-- ===== src/Compiler/Brain.antt =====
-- Brain entries in a packet of context/compiler.rs, by their hashes.
use memix.Base.{
  count-append, ℕ, ◌+◌, ◌≤◌, String, ◌≡◌, refl, ap, Bool, false, ◌&&◌, ◌||◌, Option, some, List, [],
  ◌∷◌, ◌++◌, arith, eq_iff, leb, if◌then◌else◌, ◌==◌, number_key, text_key, count, map-eq-some,
  if_keeps,
}
use memix.Dict.{contains, add}
use memix.Dict.Laws.{contains-add}
use memix.Compiler.{
  Draft, BudgetContextCompiler, BudgetCompiledContext, Request, ContextSection, ContextSource,
  gather, compile, sort_sections, CompilerConfig, add_brain_entry, fit_file, add_text, push_section,
  brain_section, file_section, text_section, estimate_tokens, is_brain, is_file,
}
use memix.Compiler.Phases.{gather_keeps}
use memix.Compiler.Order.{count-sort}

abbrev pub flag : Bool → ℕ
flag b = if b then 1 else 0

module _ (simple_hash : String → String) (h : String) where
  -- A brain section whose content has the hash `h`.
  abbrev pub has_hash : ContextSection → Bool
  has_hash s = is_brain s.source && (simple_hash s.content == h)

  -- The sections with this hash are those by which the compiler's set has grown.
  record Tracks (old : List String) (d : Draft) : Type 0 where
    tracked : count has_hash d.sections + flag (contains h old) ≡ flag (contains h d.brain_content)

  push-Tracks :
      (s : ContextSection) (old : List String) (d e : Draft)
      → d.sections ≡ e.sections
      → flag (has_hash s) + flag (contains h d.brain_content) ≡ flag (contains h e.brain_content)
      → Tracks old d
      → Tracks old (push_section s e)
  unfolding push_section
  push-Tracks s old d e same more t = record {
    tracked = rw (← same) (ground (arith, count-append has_hash d.sections (s ∷ []), t.tracked));
  }

  module _ (config : CompilerConfig) (old : List String) where
    add_brain_entry-Tracks :
        (entry : String) (d : Draft)
        → Tracks old d
        → Tracks old (add_brain_entry config simple_hash entry d)
    unfolding add_brain_entry
    add_brain_entry-Tracks entry d t =
        if_keeps (Tracks old) (leb (d.total_tokens + estimate_tokens entry) config.max_tokens) _ _
          (λ room.
            if_keeps (Tracks old) (contains (simple_hash entry) d.brain_content) _ _
              (λ seen. record { tracked = t.tracked })
              (λ new.
                push-Tracks (brain_section config entry) old d
                  (record d { brain_content = add (simple_hash entry) d.brain_content }) refl
                  (ground (
                    arith,
                    contains-add (simple_hash entry) h d.brain_content,
                    eq_iff (simple_hash entry) h,
                  ))
                  t))
          (λ full. t)

    fit_file-Tracks :
        (name : String) (priority : ℕ) (file content : String) (d : Draft)
        → Tracks old d
        → Tracks old (fit_file config name priority file content d)
    unfolding fit_file
    fit_file-Tracks name priority file content d t =
        if_keeps (Tracks old) (leb (d.total_tokens + estimate_tokens content) config.max_tokens) _ _
          (λ room.
            push-Tracks (file_section name priority content) old d
              (record d { included_files = d.included_files ++ file ∷ [] }) refl (omega arith) t)
          (λ full. record { tracked = t.tracked })

    add_text-Tracks :
        (name : String) (priority : ℕ) (source : ContextSource) (text : String) (d : Draft)
        → is_brain source || is_file source ≡ false
        → Tracks old d
        → Tracks old (add_text config name priority source text d)
    unfolding add_text
    add_text-Tracks name priority source text d other t =
        if_keeps (Tracks old) (leb (d.total_tokens + estimate_tokens text) config.max_tokens) _ _
          (λ room.
            push-Tracks (text_section name priority source text) old d d refl (ground arith) t)
          (λ full. t)

module _ (simple_hash : String → String) (read_to_string : String → Option String) {Score : Type 0}
    (h : String) where
  -- For every hash, the packet has as many brain sections with it as the compiler's set of seen
  -- hashes has gained: one if the hash is new to the set, none if it was there or is not in it yet.
  pub compile-brain_once :
      (c : BudgetContextCompiler Score) (r : Request) (ms : ℕ) (out : BudgetCompiledContext)
      (c' : BudgetContextCompiler Score)
      → compile simple_hash read_to_string c r ms ≡ some (out, c')
      → count (has_hash simple_hash h) out.sections + flag (contains h c.brain_content)
        ≡ flag (contains h c'.brain_content)
  unfolding compile
  compile-brain_once c r ms out c' q =
      let (d, g, e) = map-eq-some _ (gather simple_hash read_to_string c r) q in
      let t =
        gather_keeps simple_hash read_to_string c r {P = Tracks simple_hash h c.brain_content}
          (add_brain_entry-Tracks simple_hash h c.config c.brain_content)
          (λ x k. record { tracked = k.tracked })
          (λ name priority file content x new.
            fit_file-Tracks simple_hash h c.config c.brain_content name priority file content x)
          (add_text-Tracks simple_hash h c.config c.brain_content) d
          (record { tracked = omega arith }) g in
      let sections : sort_sections d.sections ≡ out.sections = ap (λ x. x.0.sections) e in
      let seen : d.brain_content ≡ c'.brain_content = ap (λ x. x.1.brain_content) e in
      rw (← sections, ← seen)
        (omega (arith, count-sort (has_hash simple_hash h) d.sections, t.tracked))

  -- Two packets in a row from one compiler hold at most one brain section with a given hash
  -- between them, whatever they are asked for, where the second starts from what the first leaves.
  pub compile_twice-brain :
      (c : BudgetContextCompiler Score) (r s : Request) (m n : ℕ) (out out' : BudgetCompiledContext)
      (c' c'' : BudgetContextCompiler Score)
      → compile simple_hash read_to_string c r m ≡ some (out, c')
      → compile simple_hash read_to_string c' s n ≡ some (out', c'')
      → count (has_hash simple_hash h) out.sections + count (has_hash simple_hash h) out'.sections
        ≤ 1
  compile_twice-brain c r s m n out out' c' c'' p q =
      ground (arith, compile-brain_once c r m out c' p, compile-brain_once c' s n out' c'' q)
