-- ===== src/Context/Compile/Packet.antt =====
-- The packets of context/mod.rs: their order and their budget.
use memix.Base.{some_inj}
use memix.Context.Compile.{fit_packet}
use memix.Context.Fitting.{table_fits}
use memix.Base.{
  ℕ, ◌≤◌, String, ◌≡◌, refl, sym, ap, ◌∙◌, subst, ◌⊎◌, inl, inr, true, false, Option, none, some,
  List, arith, nat_beq, number_key, text_key, pair_key, bool_key, length, All, map-eq-some,
  if-some-cases, if-eq-some, chain-eq-some, sort_by, Sorted, sort_by-Sorted,
}
use memix.Graph.{DependencyGraph}
use memix.Brain.{MemoryEntry}
use memix.Recorder.{FlightRecord}
use memix.Context.{Host, CompileRequest, CompiledContext, CompiledSection}
use memix.Context.Reach.{RelevantFile, dead_context_elimination}
use memix.Context.Skeleton.{skeleton_extraction, brain_dedup}
use memix.Context.History.{history_compaction}
use memix.Context.Rules.{rules_pruning}
use memix.Context.Ranking.{ranked_before, gathered, priority_ranking}
use memix.Context.Ranking.Built.{Built, gathered-Built}
use memix.Context.Fitting.{usize_max}
use memix.Context.Fitting.Optimal.{
  Choice, leave, pick, nothing, token_sum, budget_fitting-FitsBudget,
}
use memix.Context.Compile.{parse_task_type, packet, compile_files, compile, zero_context}
use memix.Dict.{or_else}
use mathlib.Core.Option

ranked_before_total : (a b : CompiledSection) → ranked_before a b ≡ false → ranked_before b a ≡ true
ranked_before_total a b h = ground arith

ranked_before_trans :
    (a b c : CompiledSection)
    → ranked_before a b ≡ true
    → ranked_before b c ≡ true
    → ranked_before a c ≡ true
ranked_before_trans a b c h k = ground arith

pub Choice-All :
    (P : CompiledSection → Type 0) {xs ys : List CompiledSection}
    → Choice xs ys
    → All P ys
    → All P xs
Choice-All P nothing a = tt
Choice-All P (leave c) a = Choice-All P c a.1
Choice-All P (pick c) a = (a.0, Choice-All P c a.1)

Choice-Sorted :
    {xs ys : List CompiledSection}
    → Choice xs ys
    → Sorted ranked_before ys
    → Sorted ranked_before xs
Choice-Sorted nothing s = tt
Choice-Sorted (leave c) s = Choice-Sorted c s.1
Choice-Sorted (pick {s = x} c) s =
    (Choice-All (λ y. ranked_before x y ≡ true) c s.0, Choice-Sorted c s.1)

module _ (host : Host) (workspace_root : Option String) (request : CompileRequest)
    (graph : DependencyGraph) (history : List FlightRecord)
    (brain_entries skeleton_entries : List MemoryEntry) (causal_context : Option String) where
  -- A packet of sections that were built and ranked, from some relevant files.
  pub record Packed (out : CompiledContext) : Type 0 where
    pub files : List RelevantFile
    pub deduplicated : ℕ
    pub sections : List CompiledSection
    pub built : Built host (some sections)
    pub is_packet :
        packet host request files skeleton_entries deduplicated (sort_by ranked_before sections)
        ≡ out

  compile_files-Packed :
      (files : List RelevantFile) (out : CompiledContext)
      → compile_files host workspace_root request graph history brain_entries skeleton_entries
          causal_context files
        ≡ some out
      → Packed out
  unfolding compile_files priority_ranking fit_packet
  compile_files-Packed files out q =
      let task_type = parse_task_type host.to_lowercase request.task_type in
      let deduplicated =
        brain_dedup (skeleton_extraction host request.active_file files) brain_entries in
      let history_sections = history_compaction host.to_rfc3339 history in
      let rules_sections = rules_pruning host workspace_root task_type request.query in
      let all =
        gathered host (host.importance graph) request.active_file task_type deduplicated.0
          history_sections rules_sections skeleton_entries causal_context request.query in
      let ranked_sections = Option.map (sort_by ranked_before) all in
      let pack = fit_packet host request files skeleton_entries deduplicated.1 in
      let (t, ready) =
        if-eq-some host.parser_ready (elim ranked_sections [ none ↦ none | some ss ↦ pack ss ]) q in
      let (ranked, r, e) = chain-eq-some ranked_sections pack ready in
      let (fits, made) =
        if-eq-some (table_fits host.allocates (length ranked) request.token_budget)
          (some (packet host request files skeleton_entries deduplicated.1 ranked)) e in
      let (sections, s, e') = map-eq-some (sort_by ranked_before) all r in
      record {
        files = files;
        deduplicated = deduplicated.1;
        sections = sections;
        built = subst (Built host) s (
            gathered-Built host (host.importance graph) request.active_file task_type deduplicated.0
              history_sections rules_sections skeleton_entries causal_context request.query);
        is_packet =
            ap (packet host request files skeleton_entries deduplicated.1) e' ∙ some_inj made;
      }

  pub compile-Packed :
      (out : CompiledContext)
      → compile host workspace_root request graph history brain_entries skeleton_entries
          causal_context
        ≡ some out
      → (zero_context ≡ out) × (request.token_budget ≡ 0) ⊎ Packed out
  unfolding compile
  compile-Packed out q =
      let search =
        dead_context_elimination request.active_file graph (or_else 2 request.max_depth) in
      let pass =
        compile_files host workspace_root request graph history brain_entries skeleton_entries
          causal_context in
      elim (if-some-cases (nat_beq request.token_budget 0) zero_context
        (elim search [ none ↦ none | some files ↦ pass files ]) q) [
          | inl (z, e) ↦ inl (e, ground (arith, z))
          | inr k ↦
              (let (files, f, p) = chain-eq-some search pass k in
                inr (compile_files-Packed files out p))
        ]

-- What a packet of a budget has.
pub record WithinBudget (budget : ℕ) (out : CompiledContext) : Type 0 where
  pub same_budget : out.budget ≡ budget
  pub summed : token_sum out.selected_sections ≡ out.total_tokens
  pub within : out.total_tokens ≤ budget
  pub by_rank : Sorted ranked_before out.selected_sections
  pub all_counted : out.metrics.fitted_sections ≡ length out.selected_sections

-- Whenever `compile` returns, for a budget that is a `usize`, the tokens of the selected sections sum
-- up to the reported total, which is at most the budget of the request; the sections stand by
-- descending priority, and by ascending tokens where that is equal; and the metrics count them.
pub compile-WithinBudget :
    (host : Host) (workspace_root : Option String) (request : CompileRequest)
    (graph : DependencyGraph) (history : List FlightRecord)
    (brain_entries skeleton_entries : List MemoryEntry) (causal_context : Option String)
    (out : CompiledContext)
    → request.token_budget ≤ usize_max
    → compile host workspace_root request graph history brain_entries skeleton_entries
        causal_context
      ≡ some out
    → WithinBudget request.token_budget out
unfolding packet
compile-WithinBudget host root request graph history brain index causal out small q =
    elim (compile-Packed host root request graph history brain index causal out q) [
      | inl (e, z) ↦ subst (WithinBudget request.token_budget) e (record {
        same_budget = sym z;
        summed = refl;
        within = omega arith;
        by_rank = tt;
        all_counted = refl;
      })
      | inr p ↦
          (let ranked = sort_by ranked_before p.sections in
            let fits = budget_fitting-FitsBudget ranked request.token_budget small in
            subst (WithinBudget request.token_budget) p.is_packet (record {
              same_budget = refl;
              summed = fits.summed;
              within = fits.within;
              by_rank =
                  Choice-Sorted fits.is_choice (
                    sort_by-Sorted ranked_before ranked_before_total ranked_before_trans
                      p.sections);
              all_counted = refl;
            }))
    ]
