-- ===== src/Context.antt =====
-- context/mod.rs: the requests for a compiled context, its sections, and what is reported with them.
-- The passes of the compiler are in the child modules. An error of a pass is `none`.
pub mod Reach
pub mod Skeleton
pub mod History
pub mod Rules
pub mod Ranking
pub mod Fitting
pub mod Compile
mod Tests
use memix.Graph.{DependencyGraph}
use memix.Base.{
  ℤ, true, if◌then◌else◌, ℕ, String, Option, none, some, Bool, false, contains_text, List, [], ◌∷◌,
}
use Prim.Native.Char.{Char}
use mathlib.Core.Option

pub record CompileRequest : Type 0 where
  pub project_id : String
  pub active_file : String
  pub token_budget : ℕ
  pub task_type : Option String
  pub max_depth : Option ℕ
  pub query : Option String

pub record CompiledSection : Type 0 where
  pub id : String
  pub kind : String
  pub priority : ℕ
  pub tokens : ℕ
  pub content : String

pub record CompilePassMetrics : Type 0 where
  pub relevant_files : ℕ
  pub skeletons_built : ℕ
  pub skeleton_index_sections : ℕ
  pub deduplicated_files : ℕ
  pub history_sections : ℕ
  pub rules_sections : ℕ
  pub ranked_sections : ℕ
  pub fitted_sections : ℕ

pub record CompiledContext : Type 0 where
  pub budget : ℕ
  pub total_tokens : ℕ
  pub naive_token_estimate : ℕ
  pub explainability_summary : String
  pub selected_sections : List CompiledSection
  pub omitted_section_ids : List String
  pub metrics : CompilePassMetrics

pub data TaskType : Type 0 where
  new_feature bug_fix refactor code_review unknown : TaskType

-- An entity that the parser of source code finds, observer/parser.rs.
pub record AstNodeFeature : Type 0 where
  pub name : String
  pub kind : String
  pub body : String
  pub start_byte : ℕ
  pub end_byte : ℕ
  pub language : String
  pub cyclomatic_complexity : ℕ
  pub pattern_tags : List String
  pub is_exported : Bool
  pub calls : List String
  pub line_count : Option ℕ

-- What the compiler takes from the standard library's tables of characters and floating-point
-- numbers, the file system, the parser of source code and the tokenizer.
pub record Host : Type 0 where
  -- `to_lowercase` and `char::is_alphanumeric`
  pub to_lowercase : String → String
  pub is_alphanumeric : Char → Bool
  -- `(matched as f64 / terms as f64 * 10.0).round()`
  pub rounded_tenths : (matched terms : ℕ) → ℕ
  -- Whether `AstParser::new` gives a parser.
  pub parser_ready : Bool
  -- The entities of a file, where it is a file with a supported extension that can be read and parsed.
  pub features : String → List AstNodeFeature
  pub read_to_string : String → Option String
  pub file_name : String → Option String
  -- `metadata(path).len()`
  pub file_size : String → Option ℕ
  -- `TokenEngine::count_tokens`
  pub count_tokens : String → Option ℕ
  -- The rounded boost of a file by its betweenness and page rank in the graph.
  pub importance : DependencyGraph → String → ℤ
  pub to_rfc3339 : ℕ → String
  -- Whether there is memory for a table of so many bytes.
  pub allocates : (bytes : ℕ) → Bool

unfoldable pub compiled_section :
    Host → (id kind : String) (priority : ℕ) (content : String) → Option CompiledSection
compiled_section host id kind priority content =
    Option.map
      (λ tokens. record {
        id = id;
        kind = kind;
        priority = priority;
        tokens = tokens;
        content = content;
      })
      (host.count_tokens content)

-- Whether some of the texts stands in the other.
unfoldable pub any_in : List String → String → Bool
unfolding contains_text
any_in [] s = false
any_in (t ∷ ts) s = let rest = any_in ts s in if contains_text s t then true else rest
