-- ===== src/Filters.antt =====
-- token/filters/filter.rs: filters that take comments and bodies out of source code. A text is the list
-- of its lines while a filter runs. The two regular expressions for imports and for signatures are
-- parameters; those for blank lines are written out.
pub mod Minimal
pub mod Aggressive
pub mod Truncate
pub mod Pipeline
mod Tests
use memix.Base.{
  ℕ, zero, suc, ◌+◌, ◌-◌, ◌*◌, ◌/◌, ◌%◌, ◌^◌, ◌≤◌, ◌<◌, min, max, String, ◌≡◌, refl, sym, ap, ◌∙◌,
  subst, ◌≢◌, ◌↔◌, ◌⊎◌, inl, inr, Bool, true, false, not, ◌&&◌, ◌||◌, Option, none, some, List, [],
  ◌∷◌, ◌++◌, map, arith, eq_iff, ltb, leb, nat_beq, if◌then◌else◌, Key, ◌==◌, number_key, text_key,
  pair_key, pair_equal_iff, bool_key, both, same, Bool-cases, Option-cases, length, drop, take,
  length-append, length-drop, keep, count, All, All-append, sum, sum-append, concat, show, some_inj,
  map-eq-some, if-some-cases, if-eq-some, chain-eq-some, if_keeps, ℤ, pos, negsuc, negative,
  whole_units, exceeds, append_none, append_assoc, reverse, insert_by, sort_by, Sorted,
  count-insert_by, count-sort_by, All-insert_by, All-sort_by, sort_by-Sorted, All-take, take-Sorted,
  sort_by-coarse, lines, split_whitespace, trim_matches, trim, contains_text, strip_prefix, join,
  before_first, of_list, chars,
}
use memix.Dict.{contains}
use Prim.Native.Char.{Char, code}
use Prim.Native.String.{len}
use text.Mathlib.Text.{starts_with}

pub data FilterLevel : Type 0 where
  no_filter minimal aggressive : FilterLevel

pub level_from_str : (to_lowercase : String → String) → String → Option FilterLevel
level_from_str to_lowercase s =
    let name = to_lowercase s in
    if name == "none"
    then some no_filter
    else if name == "minimal"
    then some minimal
    else if name == "aggressive"
    then some aggressive
    else none

pub level_name : FilterLevel → String
level_name no_filter = "none"
level_name minimal = "minimal"
level_name aggressive = "aggressive"

pub data Language : Type 0 where
  rust python javascript typescript go c cpp java ruby shell data_format unknown_language : Language

abbrev data_extensions : List String
data_extensions =
    "json" ∷ "jsonc" ∷ "json5" ∷ "yaml" ∷ "yml" ∷ "toml" ∷ "xml" ∷ "csv" ∷ "tsv" ∷ "graphql" ∷ "gql"
    ∷ "sql" ∷ "md" ∷ "markdown" ∷ "txt" ∷ "env" ∷ "lock" ∷ []

pub from_extension : (to_lowercase : String → String) → String → Language
from_extension to_lowercase ext =
    let e = to_lowercase ext in
    if e == "rs"
    then rust
    else if contains e ("py" ∷ "pyw" ∷ [])
    then python
    else if contains e ("js" ∷ "mjs" ∷ "cjs" ∷ [])
    then javascript
    else if contains e ("ts" ∷ "tsx" ∷ [])
    then typescript
    else if e == "go"
    then go
    else if contains e ("c" ∷ "h" ∷ [])
    then c
    else if contains e ("cpp" ∷ "cc" ∷ "cxx" ∷ "hpp" ∷ "hh" ∷ [])
    then cpp
    else if e == "java"
    then java
    else if e == "rb"
    then ruby
    else if contains e ("sh" ∷ "bash" ∷ "zsh" ∷ [])
    then shell
    else if contains e data_extensions
    then data_format
    else unknown_language

pub record CommentPatterns : Type 0 where
  pub line : Option String
  pub block_start : Option String
  pub block_end : Option String
  pub doc_line : Option String
  pub doc_block_start : Option String

abbrev c_like : Option String → Option String → CommentPatterns
c_like doc_line doc_block_start = record {
  line = some "//";
  block_start = some "/*";
  block_end = some "*/";
  doc_line = doc_line;
  doc_block_start = doc_block_start;
}

abbrev no_block : Option String → CommentPatterns
no_block line = record {
  line = line;
  block_start = none;
  block_end = none;
  doc_line = none;
  doc_block_start = none;
}

abbrev pub triple_quote : String
triple_quote = "\"\"\""

unfoldable pub comment_patterns : Language → CommentPatterns
comment_patterns rust = c_like (some "///") (some "/**")
comment_patterns python = record {
  line = some "#";
  block_start = some triple_quote;
  block_end = some triple_quote;
  doc_line = none;
  doc_block_start = some triple_quote;
}
comment_patterns javascript = c_like none (some "/**")
comment_patterns typescript = c_like none (some "/**")
comment_patterns go = c_like none (some "/**")
comment_patterns c = c_like none (some "/**")
comment_patterns cpp = c_like none (some "/**")
comment_patterns java = c_like none (some "/**")
comment_patterns ruby = record {
  line = some "#";
  block_start = some "=begin";
  block_end = some "=end";
  doc_line = none;
  doc_block_start = none;
}
comment_patterns shell = no_block (some "#")
comment_patterns data_format = no_block none
comment_patterns unknown_language = c_like none none

abbrev is_python : Language → Bool
is_python python = true
is_python _ = false

-- What the loop of the minimal filter remembers.
pub record Mode : Type 0 where
  pub in_block_comment : Bool
  pub in_docstring : Bool

-- The mode after a line, and what the line adds: itself, an empty line, or nothing.
pub record Scanned : Type 0 where
  pub mode : Mode
  pub pushed : List String

-- Single-line comments, empty lines, and the rest.
plain_line : CommentPatterns → Mode → (line trimmed : String) → Scanned
plain_line patterns mode line trimmed =
    let rest : Scanned = record {
      mode = mode;
      pushed = (if nat_beq (len trimmed) 0 then "" else line) ∷ [];
    } in
    elim patterns.line [
      | none ↦ rest
      | some line_comment ↦
          if starts_with trimmed line_comment
          then (record {
            mode = mode;
            pushed = elim patterns.doc_line [
              | none ↦ []
              | some doc ↦ if starts_with trimmed doc then line ∷ [] else []
            ];
          })
          else rest
    ]

-- Docstrings, which are kept.
doc_line : Language → CommentPatterns → Mode → (line trimmed : String) → Scanned
unfolding plain_line
doc_line lang patterns mode line trimmed =
    if both (is_python lang) (starts_with trimmed triple_quote)
    then record { mode = record mode { in_docstring = not mode.in_docstring }; pushed = line ∷ [] }
    else if mode.in_docstring
    then record { mode = mode; pushed = line ∷ [] }
    else plain_line patterns mode line trimmed

-- Whether a line opens a block comment.
opens_block : CommentPatterns → Mode → (start trimmed : String) → Bool
opens_block patterns mode start trimmed = both (not mode.in_docstring) (
    both (contains_text trimmed start)
      (not (starts_with trimmed (elim patterns.doc_block_start [ none ↦ "###" | some d ↦ d ]))))

block_line : Language → CommentPatterns → Mode → (start end line trimmed : String) → Scanned
unfolding doc_line opens_block
block_line lang patterns mode start end line trimmed =
    let in_block =
      if opens_block patterns mode start trimmed then true else mode.in_block_comment in
    if in_block
    then record {
      mode = record mode { in_block_comment = not (contains_text trimmed end) };
      pushed = [];
    }
    else doc_line lang patterns (record mode { in_block_comment = false }) line trimmed

pub scan_line : Language → Mode → String → Scanned
unfolding block_line
scan_line lang mode line =
    let patterns = comment_patterns lang in
    elim patterns.block_start [
      | none ↦ doc_line lang patterns mode line (trim line)
      | some start ↦ elim patterns.block_end [
        | none ↦ doc_line lang patterns mode line (trim line)
        | some end ↦ block_line lang patterns mode start end line (trim line)
      ]
    ]

pub scan_lines : Language → Mode → List String → List String
unfolding scan_line
scan_lines lang mode [] = []
scan_lines lang mode (l ∷ ls) =
    let s = scan_line lang mode l in s.pushed ++ scan_lines lang s.mode ls

abbrev pub outside : Mode
outside = record { in_block_comment = false; in_docstring = false }

-- `push_str(line)` and `push('\n')` for each.
abbrev pub text_of : List String → String
text_of [] = ""
text_of (l ∷ ls) = concat l (concat "\n" (text_of ls))

-- `\n{3,}` replaced by two line breaks; `seen` counts the line breaks just before, up to two.
squeeze : ℕ → List Char → List Char
squeeze seen [] = []
squeeze seen (x ∷ xs) =
    let breaks = nat_beq (code x) 10 in
    let rest = squeeze (if breaks then min (suc seen) 2 else 0) xs in
    if both breaks (leb 2 seen) then rest else x ∷ rest

pub normalized : String → String
unfolding squeeze
normalized s = trim (of_list (squeeze 0 (chars s)))

pub minimal_filter : Language → String → String
unfolding scan_lines normalized
minimal_filter lang content = normalized (text_of (scan_lines lang outside (lines content)))
