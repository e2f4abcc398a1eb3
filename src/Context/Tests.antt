-- ===== src/Context/Tests.antt =====
-- Concrete runs of the compiler of context/mod.rs.
use memix.Base.{
  ℕ, ◌+◌, ◌*◌, ◌/◌, ◌≤◌, String, ◌≡◌, refl, true, none, some, List, [], ◌∷◌, arith, leb,
  if◌then◌else◌, ◌==◌, number_key, text_key, pair_key, bool_key, length, count, pos,
}
use Prim.Native.Char.{code}
use Prim.Native.String.{len}
use memix.Dict.{contains, add}
use memix.Graph.{DependencyGraph}
use memix.Recorder.{FlightRecord, intent_detected}
use memix.Context.{Host, CompileRequest, CompiledContext, CompiledSection, AstNodeFeature}
use memix.Context.Reach.{RelevantFile, dead_context_elimination}
use memix.Context.Reach.Distance.{IsRelevant, dead_context_elimination-IsRelevant}
use memix.Context.Fitting.{budget_fitting}
use memix.Context.Fitting.Optimal.{Choice, token_sum, value_sum, FitsBudget, budget_fitting-optimal}
use memix.Context.Fitting.Omitted.{ids_of, budget_fitting-omitted}
use memix.Context.Compile.{compile}
use memix.Context.Compile.Packet.{WithinBudget, compile-WithinBudget}
use memix.Context.Compile.Kinds.{compile-skeletons_built}
use memix.Context.Compile.Total.{compile_returns}

-- main calls api, api calls db, and test calls main.
abbrev small_graph : DependencyGraph
small_graph = record {
  edges_out = ("main", "api" ∷ []) ∷ ("api", "db" ∷ []) ∷ ("test", "main" ∷ []) ∷ [];
  edges_in = ("api", "main" ∷ []) ∷ ("db", "api" ∷ []) ∷ ("main", "test" ∷ []) ∷ [];
}

dead_context_elimination-IsRelevant_example :
    (files : List RelevantFile) × (dead_context_elimination "main" small_graph 1 ≡ some files)
    × IsRelevant small_graph "main" 1 files
dead_context_elimination-IsRelevant_example =
    dead_context_elimination-IsRelevant "main" small_graph 1

abbrev sized : String → ℕ → ℕ → CompiledSection
sized name priority tokens = record {
  id = name;
  kind = "code-skeleton";
  priority = priority;
  tokens = tokens;
  content = name;
}

abbrev three : List CompiledSection
three = sized "a" 100 4 ∷ sized "b" 72 3 ∷ sized "c" 72 2 ∷ []

budget_fitting-optimal_example :
    FitsBudget three 5 (budget_fitting three 5)
    × ((others : List CompiledSection)
        → Choice others three
        → token_sum others ≤ 5
        → value_sum others ≤ value_sum (budget_fitting three 5).selected)
budget_fitting-optimal_example = budget_fitting-optimal three 5 (omega arith) (omega arith)

-- Two sections with one identifier, of which one fits.
abbrev twins : List CompiledSection
twins = sized "rules:README.md" 70 3 ∷ sized "rules:README.md" 70 4 ∷ []

budget_fitting-omitted_example :
    count (λ k. k == "rules:README.md") (budget_fitting twins 5).omitted ≡ (
      if contains "rules:README.md" (ids_of (budget_fitting twins 5).selected)
      then 0
      else count (λ k. k == "rules:README.md") (ids_of twins))
budget_fitting-omitted_example = budget_fitting-omitted twins 5 "rules:README.md"

none_omitted : (budget_fitting twins 5).omitted ≡ []
unfolding budget_fitting contains add
none_omitted = refl

abbrev feature : String → AstNodeFeature
feature name = record {
  name = name;
  kind = "function";
  body = "fn f() {\n}";
  start_byte = 0;
  end_byte = 10;
  language = "rust";
  cyclomatic_complexity = 1;
  pattern_tags = [];
  is_exported = true;
  calls = [];
  line_count = none;
}

abbrev host : Host
host = record {
  to_lowercase = λ s. s;
  is_alphanumeric = λ c. leb 48 (code c);
  rounded_tenths = λ matched terms. (matched * 20 + terms) / (2 * terms);
  parser_ready = true;
  features = λ path. feature path ∷ [];
  read_to_string = λ path. none;
  file_name = λ path. none;
  file_size = λ path. some 100;
  count_tokens = λ text. some (len text / 4);
  importance = λ graph path. pos 0;
  to_rfc3339 = λ t. "then";
  allocates = λ bytes. true;
}

abbrev request : CompileRequest
request = record {
  project_id = "p";
  active_file = "main";
  token_budget = 30;
  task_type = some "bugfix";
  max_depth = some 1;
  query = none;
}

abbrev history : List FlightRecord
history = record { timestamp = 1; event = intent_detected "debug" } ∷ []

compile_returns_example :
    (out : CompiledContext) × (files : List RelevantFile) × (compile host none request small_graph
        history [] [] none
      ≡ some out)
    × IsRelevant small_graph "main" 1 files
    × (out.metrics.relevant_files ≡ length files)
compile_returns_example =
    compile_returns host none request small_graph history [] [] none refl
      (λ text. (len text / 4, refl)) (omega arith) (λ bytes. refl)

abbrev packed : CompiledContext
packed =
    (compile_returns host none request small_graph history [] [] none refl
      (λ text. (len text / 4, refl)) (omega arith) (λ bytes. refl)).0

compiles : compile host none request small_graph history [] [] none ≡ some packed
compiles =
    (compile_returns host none request small_graph history [] [] none refl
      (λ text. (len text / 4, refl)) (omega arith) (λ bytes. refl)).2

compile-WithinBudget_example : WithinBudget 30 packed
compile-WithinBudget_example =
    compile-WithinBudget host none request small_graph history [] [] none packed (omega arith)
      compiles

compile-skeletons_built_example :
    (packed.metrics.skeletons_built ≡ 0) × (packed.metrics.skeleton_index_sections ≡ 0)
compile-skeletons_built_example =
    compile-skeletons_built host none request small_graph history [] [] none packed (omega arith)
      compiles
