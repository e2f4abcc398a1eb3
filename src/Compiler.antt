-- ===== src/Compiler.antt =====
-- context/compiler.rs: the compiler that fits brain entries, files, rules and known issues into a
-- token budget. The file system is a function from paths to contents, the hash of the standard
-- library a function on texts; `none` is the panic of a slice that cuts a character in two.
mod Types
pub mod Phases
pub mod Budget
pub mod Order
pub mod Brain
pub mod Files
pub mod Coverage
mod Tests
use memix.Base.{
  ℕ, zero, suc, ◌+◌, ◌-◌, ◌*◌, ◌/◌, ◌%◌, ◌^◌, ◌≤◌, ◌<◌, min, max, String, ◌≡◌, refl, sym, ap, ◌∙◌,
  subst, ◌≢◌, ◌↔◌, ◌⊎◌, inl, inr, Bool, true, false, not, ◌&&◌, ◌||◌, Option, none, some, List, [],
  ◌∷◌, ◌++◌, map, arith, eq_iff, ltb, leb, nat_beq, if◌then◌else◌, Key, ◌==◌, number_key, text_key,
  Bool-cases, Option-cases, length, drop, take, length-append, length-drop, keep, count, All,
  All-append, sum, sum-append, concat, show,
}
pub use Types.*
use Prim.Native.String.{len, slice}
use text.Mathlib.Text.{is_char_boundary}
use memix.Dict.{Dict, contains, add}
use mathlib.Core.Option

pub estimate_tokens : String → ℕ
estimate_tokens content = len content / 4

-- `&content[..max_size]`
pub prefix : String → ℕ → Option String
prefix content max_size =
    if is_char_boundary content max_size then some (slice content 0 max_size) else none

pub truncate_content : String → ℕ → Option String
unfolding prefix
truncate_content content max_size =
    if leb (len content) max_size
    then some content
    else Option.map (λ s. concat s "... [truncated]") (prefix content max_size)

-- The section of a rule or a known issue, of a brain entry, and of a file.
abbrev pub text_section : String → ℕ → ContextSource → String → ContextSection
text_section name priority source text = record {
  name = name;
  content = text;
  tokens = estimate_tokens text;
  priority = priority;
  source = source;
}

abbrev pub brain_section : CompilerConfig → String → ContextSection
brain_section config entry = text_section "Brain" config.priority_weights.brain from_brain entry

abbrev pub file_section : String → ℕ → String → ContextSection
file_section name priority content = text_section name priority from_file content

pub push_section : ContextSection → Draft → Draft
push_section s d = record d {
  sections = d.sections ++ s ∷ [];
  total_tokens = d.total_tokens + s.tokens;
}

-- `files_considered += 1`
abbrev pub consider : Draft → Draft
consider d = record d { files_considered = d.files_considered + 1 }

module _ (config : CompilerConfig) where
  -- One round of phases 4 and 5.
  pub add_text : String → ℕ → ContextSource → String → Draft → Draft
  unfolding push_section
  add_text name priority source text d =
      if leb (d.total_tokens + estimate_tokens text) config.max_tokens
      then push_section (text_section name priority source text) d
      else d

  pub add_texts : String → ℕ → ContextSource → List String → Draft → Draft
  unfolding add_text
  add_texts name priority source [] d = d
  add_texts name priority source (t ∷ ts) d =
      add_texts name priority source ts (add_text name priority source t d)

  module _ (simple_hash : String → String) where
    -- One round of phase 1.
    pub add_brain_entry : String → Draft → Draft
    unfolding push_section
    add_brain_entry entry d =
        if leb (d.total_tokens + estimate_tokens entry) config.max_tokens
        then if contains (simple_hash entry) d.brain_content
          then record d { brain_deduplicated = d.brain_deduplicated + 1 }
          else push_section (brain_section config entry)
              (record d { brain_content = add (simple_hash entry) d.brain_content })
        else d

    pub add_brain_entries : List String → Draft → Draft
    unfolding add_brain_entry
    add_brain_entries [] d = d
    add_brain_entries (e ∷ es) d = add_brain_entries es (add_brain_entry e d)

  -- The body that phases 2 and 3 share, for the truncated content of a file.
  pub fit_file : String → ℕ → String → String → Draft → Draft
  unfolding push_section
  fit_file name priority file content d =
      if leb (d.total_tokens + estimate_tokens content) config.max_tokens
      then push_section (file_section name priority content)
          (record d { included_files = d.included_files ++ file ∷ [] })
      else record d {
        excluded_files = d.excluded_files ++ record { path = file; reason = budget_exceeded } ∷ [];
      }

  module _ (read_to_string : String → Option String) where
    pub add_file : String → ℕ → String → Draft → Option Draft
    add_file name priority file d = elim (read_to_string file) [
      | none ↦ some d
      | some content ↦
          Option.map (λ c. fit_file name priority file c d)
            (truncate_content content config.max_file_size)
    ]

    pub add_current : Option String → Draft → Option Draft
    unfolding add_file
    add_current none d = some d
    add_current (some file) d =
        add_file (concat "Current File: " file) config.priority_weights.current_file file
          (consider d)

    -- One round of phase 3.
    pub add_related_file : String → Draft → Option Draft
    unfolding add_file
    add_related_file file d =
        if contains file d.included_files
        then some (consider d)
        else add_file (concat "Related: " file) config.priority_weights.related_files file
            (consider d)

    pub add_related : List String → Draft → Option Draft
    unfolding add_related_file
    add_related [] d = some d
    add_related (f ∷ fs) d = elim (add_related_file f d) [ none ↦ none | some e ↦ add_related fs e ]

-- `sections.sort_by(|a, b| b.priority.cmp(&a.priority))`, which is stable.
pub insert_section : ContextSection → List ContextSection → List ContextSection
insert_section s [] = s ∷ []
insert_section s (t ∷ ts) =
    if leb t.priority s.priority then s ∷ t ∷ ts else t ∷ insert_section s ts

pub sort_sections : List ContextSection → List ContextSection
unfolding insert_section
sort_sections [] = []
sort_sections (s ∷ ss) = insert_section s (sort_sections ss)

-- The arguments of `compile` that it reads.
pub record Request : Type 0 where
  pub current_file : Option String
  pub related_files : List String
  pub brain_entries : List String
  pub rules : List String
  pub known_issues : List String

module _ (config : CompilerConfig) (r : Request) where
  pub rules_phase : Draft → Draft
  rules_phase d =
      if config.include_rules
      then add_texts config "Rule" config.priority_weights.rules from_rules r.rules d
      else d

  pub issues_phase : Draft → Draft
  issues_phase d =
      add_texts config "Known Issue" config.priority_weights.known_issues from_known_issues
        r.known_issues d

module _ (simple_hash : String → String) (read_to_string : String → Option String)
    {Score : Type 0} where
  abbrev pub start : BudgetContextCompiler Score → Draft
  start c = record {
    sections = [];
    included_files = [];
    excluded_files = [];
    total_tokens = 0;
    files_considered = 0;
    brain_deduplicated = 0;
    brain_content = c.brain_content;
  }

  pub brain_phase : BudgetContextCompiler Score → Request → Draft
  brain_phase c r =
      if c.config.include_brain
      then add_brain_entries c.config simple_hash r.brain_entries (start c)
      else start c

  -- The five phases.
  pub gather : BudgetContextCompiler Score → Request → Option Draft
  unfolding brain_phase rules_phase issues_phase
  gather c r = elim (add_current c.config read_to_string r.current_file (brain_phase c r)) [
    | none ↦ none
    | some d ↦
        Option.map (λ e. issues_phase c.config r (rules_phase c.config r e))
          (add_related c.config read_to_string r.related_files d)
  ]

  finish : BudgetContextCompiler Score → ℕ → Draft → BudgetCompiledContext
  finish c compile_time_ms d = record {
    total_tokens = d.total_tokens;
    sections = sort_sections d.sections;
    included_files = d.included_files;
    excluded_files = d.excluded_files;
    metadata = record {
      budget_used = d.total_tokens;
      budget_total = c.config.max_tokens;
      files_considered = d.files_considered;
      files_included = length d.included_files;
      brain_deduplicated = d.brain_deduplicated;
      compile_time_ms = compile_time_ms;
    };
  }

  -- The packet, and the compiler with the brain hashes that it has seen.
  pub compile :
      BudgetContextCompiler Score
      → Request
      → ℕ
      → Option (BudgetCompiledContext × BudgetContextCompiler Score)
  unfolding finish
  compile c r compile_time_ms =
      Option.map (λ d. (finish c compile_time_ms d, record c { brain_content = d.brain_content }))
        (gather c r)

module _ {Score : Type 0} where
  pub set_file_scores :
      Dict String Score → BudgetContextCompiler Score → BudgetContextCompiler Score
  set_file_scores scores c = record c { file_scores = scores }

  pub clear_brain_cache : BudgetContextCompiler Score → BudgetContextCompiler Score
  clear_brain_cache c = record c { brain_content = [] }
