-- ===== src/Filters/Pipeline.antt =====
-- token/toml_filter.rs: the stages of a configured filter for the output of a command. A compiled regular
-- expression is the function that it is used as; `none` is the panic of a slice that cuts a character.
pub mod Registry
pub mod Capped
use memix.Base.{
  ℕ, zero, suc, ◌+◌, ◌-◌, ◌*◌, ◌/◌, ◌%◌, ◌^◌, ◌≤◌, ◌<◌, min, max, String, ◌≡◌, refl, sym, ap, ◌∙◌,
  subst, ◌≢◌, ◌↔◌, ◌⊎◌, inl, inr, Bool, true, false, not, ◌&&◌, ◌||◌, Option, none, some, List, [],
  ◌∷◌, ◌++◌, map, arith, eq_iff, ltb, leb, nat_beq, if◌then◌else◌, Key, ◌==◌, number_key, text_key,
  pair_key, pair_equal_iff, bool_key, both, same, Bool-cases, Option-cases, length, drop, take,
  length-append, length-drop, keep, count, All, All-append, sum, sum-append, concat, show, some_inj,
  map-eq-some, if-some-cases, if-eq-some, chain-eq-some, if_keeps, ℤ, pos, negsuc, negative,
  whole_units, exceeds, append_none, keep-append, append_assoc, reverse, insert_by, sort_by, Sorted,
  count-insert_by, count-sort_by, All-insert_by, All-sort_by, sort_by-Sorted, All-take, take-Sorted,
  sort_by-coarse, OneLine, lines-OneLine, length-lines-join_le, lines, split_whitespace,
  trim_matches, trim, contains_text, strip_prefix, join, before_first, ◌>>=◌,
}
use Prim.Native.String.{len, slice}
use text.Mathlib.Text.{is_char_boundary}
use mathlib.Core.Option

pub record MatchOutputRule : Type 0 where
  pub pattern : String → Bool
  pub message : String
  pub unless : Option (String → Bool)

-- A set of regular expressions, as whether some of them matches a line.
pub data LineFilter : Type 0 where
  no_line_filter : LineFilter
  strip : (set : String → Bool) → LineFilter
  keep_only : (set : String → Bool) → LineFilter

pub record CompiledFilter : Type 0 where
  pub name : String
  pub description : Option String
  pub match_regex : String → Bool
  pub strip_ansi : Bool
  -- Each rule replaces the first match in a line.
  pub replace : List (String → String)
  pub match_output : List MatchOutputRule
  pub line_filter : LineFilter
  pub truncate_lines_at : Option ℕ
  pub head_lines : Option ℕ
  pub tail_lines : Option ℕ
  pub max_lines : Option ℕ
  pub on_empty : Option String

pub find_filter : List CompiledFilter → (command : String) → Option CompiledFilter
find_filter [] command = none
find_filter (f ∷ fs) command =
    let rest = find_filter fs command in if f.match_regex command then some f else rest

pub replace_all : List (String → String) → String → String
replace_all [] result = result
replace_all (rule ∷ rules) result = replace_all rules (join "\n" (map rule (lines result)))

-- The message of the first rule that matches and has no exception.
pub short_circuit : List MatchOutputRule → String → Option String
short_circuit [] result = none
short_circuit (rule ∷ rules) result =
    let rest = short_circuit rules result in
    if rule.pattern result
    then elim rule.unless [
      | none ↦ some rule.message
      | some unless ↦ if unless result then rest else some rule.message
    ]
    else rest

pub filter_lines : LineFilter → String → String
filter_lines no_line_filter result = result
filter_lines (strip set) result = join "\n" (keep (λ line. not (set line)) (lines result))
filter_lines (keep_only set) result = join "\n" (keep set (lines result))

truncate_line : (max_len : ℕ) → String → Option String
truncate_line max_len line =
    if ltb max_len (len line)
    then (if is_char_boundary line (max_len - 3)
        then some (concat (slice line 0 (max_len - 3)) "...")
        else none)
    else some line

truncate_each : (max_len : ℕ) → List String → Option (List String)
unfolding truncate_line
truncate_each max_len [] = some []
truncate_each max_len (l ∷ ls) = do
  t ← truncate_line max_len l
  ts ← truncate_each max_len ls
  some (t ∷ ts)

pub truncate_lines : Option ℕ → String → Option String
unfolding truncate_each
truncate_lines none result = some result
truncate_lines (some max_len) result = Option.map (join "\n") (truncate_each max_len (lines result))

-- `head_lines` goes before `tail_lines`.
pub head_or_tail : (head tail : Option ℕ) → String → String
head_or_tail (some head) tail result = join "\n" (take head (lines result))
head_or_tail none (some tail) result = join "\n" (reverse (take tail (reverse (lines result))))
head_or_tail none none result = join "\n" (lines result)

pub cap_lines : Option ℕ → String → String
cap_lines none result = result
cap_lines (some max_lines) result = join "\n" (take max_lines (lines result))

pub or_message : Option String → String → String
or_message none result = result
or_message (some message) result = if nat_beq (len (trim result)) 0 then message else result

-- The stages after the short circuit.
pub late_stages : CompiledFilter → String → Option String
unfolding filter_lines truncate_lines head_or_tail cap_lines or_message
late_stages f result =
    Option.map
      (λ r.
        or_message f.on_empty (cap_lines f.max_lines (head_or_tail f.head_lines f.tail_lines r)))
      (truncate_lines f.truncate_lines_at (filter_lines f.line_filter result))

unfoldable pub apply :
    (strip_ansi_codes : String → String) → CompiledFilter → String → Option String
unfolding replace_all short_circuit late_stages
apply strip_ansi_codes f output =
    let result = replace_all f.replace (if f.strip_ansi then strip_ansi_codes output else output) in
    elim (short_circuit f.match_output result) [
      | some message ↦ some message
      | none ↦ late_stages f result
    ]
