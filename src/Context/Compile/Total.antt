-- ===== src/Context/Compile/Total.antt =====
-- When `compile` of context/mod.rs returns a packet.
use memix.Base.{◌+◌, ◌*◌, ◌≤◌, arith}
use memix.Context.Compile.{fit_packet}
use memix.Context.Fitting.{table_fits, isize_max}
use memix.Base.{
  ℕ, String, ◌≡◌, refl, ap, inl, inr, true, Option, some, List, [], ◌∷◌, ◌++◌, nat_beq,
  if◌then◌else◌, number_key, text_key, pair_key, bool_key, Bool-cases, length, sort_by,
}
use memix.Dict.{or_else}
use memix.Graph.{DependencyGraph}
use memix.Brain.{MemoryEntry}
use memix.Recorder.{FlightRecord}
use memix.Context.{Host, CompileRequest, CompiledContext, CompiledSection, compiled_section}
use memix.Context.Reach.{RelevantFile}
use memix.Context.Reach.Distance.{dead_context_elimination-IsRelevant, IsRelevant}
use memix.Context.Skeleton.{skeleton_extraction, brain_dedup}
use memix.Context.History.{history_compaction}
use memix.Context.Rules.{rules_pruning}
use memix.Context.Ranking.{ranked_before, push_section, append_sections, priority_ranking}
use memix.Context.Ranking.Built.{Built, nothing_built, pushed, appended, gathered-Built}
use memix.Context.Compile.{parse_task_type, packet, compile_files, compile, zero_context}
use mathlib.Core.Option

Given : {A : Type 0} → Option A → Type 0
Given {A} o = (a : A) × (o ≡ some a)

Given-map : {A B : Type 0} (f : A → B) (o : Option A) → Given o → Given (Option.map f o)
unfolding Given
Given-map f o (a, q) = (f a, ap (Option.map f) q)

push-Given :
    (o : Option CompiledSection) (rest : Option (List CompiledSection))
    → Given o
    → Given rest
    → Given (push_section o rest)
unfolding push_section Given
push-Given o rest (s, q) (ts, r) = (s ∷ ts, rw (q, r) refl)

append-Given :
    (a b : Option (List CompiledSection)) → Given a → Given b → Given (append_sections a b)
unfolding append_sections Given
append-Given a b (xs, q) (ys, r) = (xs ++ ys, rw (q, r) refl)

Built-Given :
    (host : Host)
    → ((text : String) → (n : ℕ) × (host.count_tokens text ≡ some n))
    → {o : Option (List CompiledSection)} → Built host o
    → Given o
unfolding Given compiled_section
Built-Given host counts nothing_built = ([], refl)
Built-Given host counts (pushed {rest} id kind priority content k b) =
    push-Given (compiled_section host id kind priority content) rest
      (Given-map _ (host.count_tokens content) (counts content)) (Built-Given host counts b)
Built-Given host counts (appended {a} {b} x y) =
    append-Given a b (Built-Given host counts x) (Built-Given host counts y)

fit_packet_made :
    (host : Host) (request : CompileRequest) (files : List RelevantFile) (index : List MemoryEntry)
    (deduplicated : ℕ) (ranked : List CompiledSection)
    → (request.token_budget + 1) * 8 ≤ isize_max
    → ((bytes : ℕ) → host.allocates bytes ≡ true)
    → fit_packet host request files index deduplicated ranked
      ≡ some (packet host request files index deduplicated ranked)
unfolding fit_packet table_fits
fit_packet_made host request files index deduplicated ranked row memory =
    ground (arith, row, memory ((length ranked + 1) * ((request.token_budget + 1) * 8)))

-- Where the parser of source code can be made, the tokenizer counts every text, a row of the table
-- for the budget is at most `isize::MAX` bytes, and there is memory for the table, `compile` returns a
-- packet, for every request, graph, history and brain. Its metrics report all files within the depth of
-- the request, 2 where it gives none, unless the budget is 0, when they report no file.
pub compile_returns :
    (host : Host) (workspace_root : Option String) (request : CompileRequest)
    (graph : DependencyGraph) (history : List FlightRecord)
    (brain_entries skeleton_entries : List MemoryEntry) (causal_context : Option String)
    → host.parser_ready ≡ true
    → ((text : String) → (n : ℕ) × (host.count_tokens text ≡ some n))
    → (request.token_budget + 1) * 8 ≤ isize_max
    → ((bytes : ℕ) → host.allocates bytes ≡ true)
    → (out : CompiledContext) × (files : List RelevantFile) × (compile host workspace_root request
          graph history brain_entries skeleton_entries causal_context
        ≡ some out)
      × IsRelevant graph request.active_file (or_else 2 request.max_depth) files
      × (out.metrics.relevant_files ≡ (if nat_beq request.token_budget 0 then 0 else length files))
unfolding compile compile_files priority_ranking packet Given
compile_returns host root request graph history brain index causal ready counts row memory =
    let (files, found, relevant) =
      dead_context_elimination-IsRelevant request.active_file graph (or_else 2 request.max_depth) in
    let task_type = parse_task_type host.to_lowercase request.task_type in
    let deduplicated = brain_dedup (skeleton_extraction host request.active_file files) brain in
    let (sections, g) = Built-Given host counts (
      gathered-Built host (host.importance graph) request.active_file task_type deduplicated.0
        (history_compaction host.to_rfc3339 history)
        (rules_pruning host root task_type request.query) index causal request.query) in
    let ranked = sort_by ranked_before sections in
    let out = packet host request files index deduplicated.1 ranked in
    let made = fit_packet_made host request files index deduplicated.1 ranked row memory in
    elim (Bool-cases (nat_beq request.token_budget 0)) [
      | inl z ↦ (zero_context, files, rw z refl, relevant, rw z refl)
      | inr n ↦ (out, files, rw (n, found, g, made, ready) refl, relevant, rw n refl)
    ]
