-- ===== src/Filters/Pipeline/Registry.antt =====
-- token/toml_filter.rs: the definitions of filters, and their compilation. `Regex::new` is a parameter: a
-- pattern gives the functions that a regular expression is used as, or none where it is not valid.
use memix.Base.{
  ℕ, String, Bool, Option, none, some, List, [], ◌∷◌, number_key, text_key, pair_key, bool_key,
  ◌>>=◌,
}
use memix.Filters.Pipeline.{
  MatchOutputRule, LineFilter, no_line_filter, strip, keep_only, CompiledFilter,
}

pub record ReplaceRule : Type 0 where
  pub pattern : String
  pub replacement : String

pub record MatchDef : Type 0 where
  pub pattern : String
  pub message : String
  pub unless : Option String

pub record TomlFilterDef : Type 0 where
  pub description : Option String
  pub match_command : String
  pub strip_ansi : Bool
  pub replace : List ReplaceRule
  pub match_output : List MatchDef
  pub strip_lines_matching : List String
  pub keep_lines_matching : List String
  pub truncate_lines_at : Option ℕ
  pub head_lines : Option ℕ
  pub tail_lines : Option ℕ
  pub max_lines : Option ℕ
  pub on_empty : Option String

-- `is_match`, `replace` with a replacement, and the set of some patterns.
module _ (is_match : String → Option (String → Bool))
    (replace_first : String → Option (String → String → String))
    (matches_some : List String → Option (String → Bool)) where
  compile_replace : List ReplaceRule → Option (List (String → String))
  compile_replace [] = some []
  compile_replace (r ∷ rs) = do
    pattern ← replace_first r.pattern
    rest ← compile_replace rs
    some ((λ line. pattern line r.replacement) ∷ rest)

  compile_unless : Option String → Option (Option (String → Bool))
  compile_unless none = some none
  compile_unless (some u) = do pattern ← is_match u; some (some pattern)

  compile_match : List MatchDef → Option (List MatchOutputRule)
  unfolding compile_unless
  compile_match [] = some []
  compile_match (r ∷ rs) = do
    pattern ← is_match r.pattern
    unless ← compile_unless r.unless
    rest ← compile_match rs
    some (record { pattern = pattern; message = r.message; unless = unless } ∷ rest)

  -- The lines to strip go before the lines to keep.
  compile_lines : (strip_lines keep_lines : List String) → Option LineFilter
  compile_lines (p ∷ ps) keep_lines = do set ← matches_some (p ∷ ps); some (strip set)
  compile_lines [] (p ∷ ps) = do set ← matches_some (p ∷ ps); some (keep_only set)
  compile_lines [] [] = some no_line_filter

  pub compile_filter : (name : String) → TomlFilterDef → Option CompiledFilter
  unfolding compile_replace compile_match compile_lines
  compile_filter name def = do
    match_regex ← is_match def.match_command
    replace ← compile_replace def.replace
    match_output ← compile_match def.match_output
    line_filter ← compile_lines def.strip_lines_matching def.keep_lines_matching
    some (record {
      name = name;
      description = def.description;
      match_regex = match_regex;
      strip_ansi = def.strip_ansi;
      replace = replace;
      match_output = match_output;
      line_filter = line_filter;
      truncate_lines_at = def.truncate_lines_at;
      head_lines = def.head_lines;
      tail_lines = def.tail_lines;
      max_lines = def.max_lines;
      on_empty = def.on_empty;
    })

  -- The filters that compile; the others are reported and left out.
  pub compile_all : List (String × TomlFilterDef) → List CompiledFilter
  unfolding compile_filter
  compile_all [] = []
  compile_all (d ∷ ds) =
      let rest = compile_all ds in elim (compile_filter d.0 d.1) [ none ↦ rest | some f ↦ f ∷ rest ]
