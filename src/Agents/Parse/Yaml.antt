-- ===== src/Agents/Parse/Yaml.antt =====
-- agents/mod.rs: the block of fields in a section of the file of agents.
use memix.Base.{
  ◌+◌, String, Bool, false, ◌&&◌, ◌||◌, Option, none, some, List, [], ◌∷◌, ◌++◌, if◌then◌else◌,
  ◌==◌, number_key, text_key, pair_key, bool_key, lines, trim, join,
}
use Prim.Native.String.{len, slice}
use text.Mathlib.Text.{starts_with, find?}
use memix.Dict.{Dict, insert}
use mathlib.Core.Option

-- The lines of the first block between the two fences; it may lack its end.
unfoldable pub yaml_lines : (in_yaml : Bool) → List String → List String
yaml_lines in_yaml [] = []
yaml_lines in_yaml (line ∷ rest) =
    let opens = trim line == "```yaml" in
    let later = yaml_lines (opens || in_yaml) rest in
    if opens
    then later
    else if in_yaml && trim line == "```"
    then []
    else if in_yaml
    then line ∷ later
    else later

unfoldable pub extract_yaml_block : List String → Option (List String)
unfolding yaml_lines
extract_yaml_block lines = elim (yaml_lines false lines) [ [] ↦ none | l ∷ ls ↦ some (l ∷ ls) ]

-- A block that a key with the value `|` began, and its lines so far.
unfoldable pub Block : Type 0
Block = Option (String × List String)

-- `split_once(':')`
unfoldable pub split_colon : String → Option (String × String)
split_colon line =
    Option.map (λ i. (slice line 0 i, slice line (i + 1) (len line))) (find? line ":")

-- A line outside a block. Both parts are trimmed, so that the `trim_end` of the line changes nothing.
unfoldable pub plain_yaml : String → Dict String String → Dict String String × Block
unfolding split_colon Block
plain_yaml line out = elim (split_colon line) [
  | none ↦ (out, none)
  | some (raw_key, raw_value) ↦
      (if trim raw_value == "|"
        then (out, some (trim raw_key, []))
        else (insert (trim raw_key) (trim raw_value) out, none))
]

unfoldable pub yaml_line : String → Dict String String × Block → Dict String String × Block
unfolding plain_yaml Block
yaml_line line (out, none) = plain_yaml line out
yaml_line line (out, some (key, block)) =
    if starts_with line " " || starts_with line "\t"
    then (out, some (key, block ++ trim line ∷ []))
    else plain_yaml line (insert key (join "\n" block) out)

unfoldable pub yaml_from : Dict String String × Block → List String → Dict String String
unfolding yaml_line Block
yaml_from (out, none) [] = out
yaml_from (out, some (key, block)) [] = insert key (join "\n" block) out
yaml_from (out, block) (line ∷ rest) = yaml_from (yaml_line line (out, block)) rest

unfoldable pub parse_simple_yaml_map : List String → Dict String String
unfolding yaml_from Block
parse_simple_yaml_map lines = yaml_from ([], none) lines
