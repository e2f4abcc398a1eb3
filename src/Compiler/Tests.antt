-- ===== src/Compiler/Tests.antt =====
-- Compilations of concrete requests.
use memix.Base.{
  ℕ, ◌+◌, ◌≤◌, String, ◌≡◌, refl, subst, inl, true, false, Option, none, some, [], ◌∷◌, arith,
  if◌then◌else◌, ◌==◌, number_key, text_key, length, count, some_inj,
}
use Prim.Native.String.{len}
use memix.Compiler.{
  add_current, add_related, fit_file, add_brain_entries, add_texts, from_rules, from_file,
  from_brain, sort_sections, from_known_issues, ContextSection, BudgetContextCompiler,
  BudgetCompiledContext, Request, CompilerConfig, default_weights, compile, gather, new,
  truncate_content, estimate_tokens,
}
use memix.Dict.{contains, add}
use memix.Compiler.Budget.{token_sum, compile-within_budget}
use memix.Compiler.Brain.{has_hash, flag, compile-brain_once}
use memix.Compiler.Files.{is_file_section, compile-files, compile-total}
use memix.Compiler.Coverage.{is_listed, compile-covers}

abbrev tiny : CompilerConfig
tiny = record {
  max_tokens = 6;
  include_brain = true;
  include_ast_skeletons = true;
  include_git = false;
  include_rules = true;
  max_file_size = 10;
  priority_weights = default_weights;
}

abbrev own_hash : String → String
own_hash s = s

abbrev disk : String → Option String
disk file = if file == "a" then some "fn a() {}" else if file == "b" then some "éééééé" else none

abbrev ask : Request
ask = record {
  current_file = some "a";
  related_files = "a" ∷ "gone" ∷ [];
  brain_entries = "use tabs" ∷ "use tabs" ∷ [];
  rules = "no unwrap" ∷ [];
  known_issues = "slow" ∷ "a longer issue" ∷ [];
}

abbrev compiler : BudgetContextCompiler ℕ
compiler = new tiny

abbrev brain_first : ContextSection
brain_first = record {
  name = "Brain";
  content = "use tabs";
  tokens = 2;
  priority = 100;
  source = from_brain;
}

abbrev file_second : ContextSection
file_second = record {
  name = "Current File: a";
  content = "fn a() {}";
  tokens = 2;
  priority = 90;
  source = from_file;
}

abbrev rule_third : ContextSection
rule_third = record {
  name = "Rule";
  content = "no unwrap";
  tokens = 2;
  priority = 40;
  source = from_rules;
}

abbrev packet : BudgetCompiledContext
packet = record {
  total_tokens = 6;
  sections = brain_first ∷ file_second ∷ rule_third ∷ [];
  included_files = "a" ∷ [];
  excluded_files = [];
  metadata = record {
    budget_used = 6;
    budget_total = 6;
    files_considered = 3;
    files_included = 1;
    brain_deduplicated = 1;
    compile_time_ms = 1;
  };
}

abbrev seen : BudgetContextCompiler ℕ
seen = record compiler { brain_content = "use tabs" ∷ [] }

packet_returned : compile own_hash disk compiler ask 1 ≡ some (packet, seen)
unfolding compile gather estimate_tokens truncate_content contains sort_sections add add_current
    add_related fit_file add_brain_entries add_texts
packet_returned = refl

-- The second time the brain entry is left out, and an issue has room.
compile_again : BudgetCompiledContext
compile_again = record {
  total_tokens = 5;
  sections =
      file_second
      ∷ record {
        name = "Known Issue";
        content = "slow";
        tokens = 1;
        priority = 60;
        source = from_known_issues;
      }
      ∷ rule_third
      ∷ [];
  included_files = "a" ∷ [];
  excluded_files = [];
  metadata = record {
    budget_used = 5;
    budget_total = 6;
    files_considered = 3;
    files_included = 1;
    brain_deduplicated = 2;
    compile_time_ms = 1;
  };
}

again_returned : compile own_hash disk seen ask 1 ≡ some (compile_again, seen)
unfolding compile gather estimate_tokens truncate_content contains sort_sections add add_current
    add_related fit_file add_brain_entries add_texts compile_again
again_returned = refl

compile-within_budget_example :
    (token_sum packet.sections ≡ 6) × (6 ≤ 6) × (◌≡◌ {A = ℕ} 6 6) × (◌≡◌ {A = ℕ} 6 6)
compile-within_budget_example =
    compile-within_budget own_hash disk compiler ask 1 packet seen packet_returned

compile-brain_once_example :
    count (has_hash own_hash "use tabs") packet.sections
      + flag (contains "use tabs" compiler.brain_content)
    ≡ flag (contains "use tabs" seen.brain_content)
compile-brain_once_example =
    compile-brain_once own_hash disk "use tabs" compiler ask 1 packet seen packet_returned

compile-files_example :
    (count (λ g. g == "a") packet.included_files ≤ 1)
    × (count is_file_section packet.sections ≡ length packet.included_files)
    × (packet.metadata.files_included ≡ length packet.included_files)
compile-files_example = compile-files own_hash disk compiler ask 1 packet seen packet_returned "a"

compile-covers_example : is_listed "a" packet.included_files packet.excluded_files ≡ true
compile-covers_example =
    compile-covers own_hash disk compiler ask 1 packet seen "a" "fn a() {}" packet_returned refl
      (inl refl)

-- A disk with one short file.
abbrev one_file : String → Option String
one_file file = some "short"

compile-total_example :
    (out : BudgetCompiledContext) × (c' : BudgetContextCompiler ℕ) × (compile own_hash one_file
        compiler ask 1
      ≡ some (out, c'))
compile-total_example =
    compile-total own_hash one_file compiler ask 1
      (λ file content e. inl (subst (λ (t : String). len t ≤ 10) (some_inj e) (omega arith)))
