-- ===== src/Compiler/Types.antt =====
-- The types of context/compiler.rs, and its defaults.
use memix.Base.{ℕ, String, Bool, true, false, List, [], number_key, text_key}
use memix.Dict.{Dict}

pub data ContextSource : Type 0 where
  from_brain from_file from_ast_skeleton from_git_history from_rules from_known_issues :
      ContextSource

abbrev pub is_brain : ContextSource → Bool
is_brain from_brain = true
is_brain _ = false

abbrev pub is_file : ContextSource → Bool
is_file from_file = true
is_file _ = false

pub record ContextSection : Type 0 where
  pub name : String
  pub content : String
  pub tokens : ℕ
  pub priority : ℕ
  pub source : ContextSource

pub data ExclusionReason : Type 0 where
  not_relevant budget_exceeded duplicate_brain low_priority binary_generated : ExclusionReason

pub record ExcludedFile : Type 0 where
  pub path : String
  pub reason : ExclusionReason

pub record CompilationMetadata : Type 0 where
  pub budget_used : ℕ
  pub budget_total : ℕ
  pub files_considered : ℕ
  pub files_included : ℕ
  pub brain_deduplicated : ℕ
  pub compile_time_ms : ℕ

pub record BudgetCompiledContext : Type 0 where
  pub total_tokens : ℕ
  pub sections : List ContextSection
  pub included_files : List String
  pub excluded_files : List ExcludedFile
  pub metadata : CompilationMetadata

pub record PriorityWeights : Type 0 where
  pub brain : ℕ
  pub current_file : ℕ
  pub related_files : ℕ
  pub ast_skeleton : ℕ
  pub git_history : ℕ
  pub rules : ℕ
  pub known_issues : ℕ

abbrev pub default_weights : PriorityWeights
default_weights = record {
  brain = 100;
  current_file = 90;
  related_files = 70;
  ast_skeleton = 50;
  git_history = 30;
  rules = 40;
  known_issues = 60;
}

pub record CompilerConfig : Type 0 where
  pub max_tokens : ℕ
  pub include_brain : Bool
  pub include_ast_skeletons : Bool
  pub include_git : Bool
  pub include_rules : Bool
  pub max_file_size : ℕ
  pub priority_weights : PriorityWeights

abbrev pub default_config : CompilerConfig
default_config = record {
  max_tokens = 8000;
  include_brain = true;
  include_ast_skeletons = true;
  include_git = false;
  include_rules = true;
  max_file_size = 100_000;
  priority_weights = default_weights;
}

-- A relevance score is a float in the source, which nothing here computes with.
pub record BudgetContextCompiler (Score : Type 0) : Type 0 where
  pub config : CompilerConfig
  pub brain_content : List String
  pub file_scores : Dict String Score

abbrev pub new : {Score : Type 0} → CompilerConfig → BudgetContextCompiler Score
new config = record { config = config; brain_content = []; file_scores = [] }

-- The local variables of `compile`, and the brain hashes of the compiler.
pub record Draft : Type 0 where
  pub sections : List ContextSection
  pub included_files : List String
  pub excluded_files : List ExcludedFile
  pub total_tokens : ℕ
  pub files_considered : ℕ
  pub brain_deduplicated : ℕ
  pub brain_content : List String
