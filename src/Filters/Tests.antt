-- ===== src/Filters/Tests.antt =====
-- Concrete runs of the filters of token/filters/filter.rs and token/toml_filter.rs.
use memix.Base.{
  ◌≤◌, String, ◌≡◌, refl, ◌⊎◌, Bool, true, false, none, some, List, [], ◌∷◌, arith, ◌==◌,
  number_key, text_key, pair_key, bool_key, length, keep, lines, trim_matches, trim, join,
  is_whitespace, chars, of_list,
}
use memix.Dict.{contains}
use memix.Filters.{rust, minimal_filter, text_of}
use memix.Filters.Pipeline.{apply, CompiledFilter, no_line_filter}
use text.Mathlib.Text.{starts_with}
use memix.Filters.Minimal.Reading.{Reads, in_code}
use memix.Filters.Minimal.Squeezed.{Squeezed, minimal_filter-Reads}
use Prim.Native.Char.{Char}
use memix.Filters.Aggressive.{aggressive_filter}
use memix.Filters.Aggressive.Important.{important, aggressive_filter-important}
use memix.Filters.Pipeline.Capped.{messages, apply-capped}
use memix.Filters.Truncate.{excerpt, excerpt_bound}
use mathlib.Core.Option

abbrev source : List String
source = "use std::fs;" ∷ "// about f" ∷ "fn f() {" ∷ "    1 /* one */" ∷ "}" ∷ "" ∷ []

minimal_filter-Reads_example :
    (out : List String) × (cs : List Char) × Reads rust in_code
      (lines "use a;\n/* one\n*/\nfn f() {}")
      out
    × Squeezed 0 (chars (text_of out)) cs
    × (minimal_filter rust "use a;\n/* one\n*/\nfn f() {}" ≡ trim (of_list cs))
minimal_filter-Reads_example = minimal_filter-Reads rust "use a;\n/* one\n*/\nfn f() {}"

abbrev is_import : String → Bool
is_import line = starts_with line "use "

abbrev is_signature : String → Bool
is_signature line = starts_with line "fn "

aggressive_filter-important_example :
    (out : List String) × (aggressive_filter is_import is_signature rust "use a;\nfn f() {\n 1\n}"
      ≡ trim (text_of out))
    × (keep (important is_import is_signature) out
        ≡ keep
            (important is_import is_signature)
            (lines (minimal_filter rust "use a;\nfn f() {\n 1\n}")))
unfolding trim chars is_whitespace
aggressive_filter-important_example =
    aggressive_filter-important is_import is_signature refl rust "use a;\nfn f() {\n 1\n}" refl

excerpt_bound_example :
    (out : List String) × (excerpt is_import is_signature 4 source ≡ some out) × (length out ≤ 7)
excerpt_bound_example = excerpt_bound is_import is_signature 4 source (omega arith)

abbrev limited : CompiledFilter
limited = record {
  name = "limited";
  description = none;
  match_regex = λ command. command == "make";
  strip_ansi = false;
  replace = [];
  match_output = [];
  line_filter = no_line_filter;
  truncate_lines_at = none;
  head_lines = none;
  tail_lines = none;
  max_lines = some 1;
  on_empty = none;
}

first_line_left : apply (λ s. s) limited "a\nb" ≡ some "a"
unfolding apply chars lines join trim
first_line_left = refl

apply-capped_example :
    (contains "a" (messages limited.match_output) ≡ true)
    ⊎ ((limited.on_empty ≡ some "a") ⊎ (length (lines "a") ≤ 1))
apply-capped_example = apply-capped (λ s. s) limited "a\nb" "a" 1 refl first_line_left

-- With a limit of 4 lines, 5 come out.
over_limit :
    Option.map length (excerpt is_import is_signature 4 ("a" ∷ "b" ∷ "x" ∷ "pub c" ∷ "d" ∷ []))
    ≡ some 5
unfolding excerpt trim chars is_whitespace trim_matches
over_limit = refl
