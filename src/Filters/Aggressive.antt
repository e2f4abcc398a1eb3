-- ===== src/Filters/Aggressive.antt =====
-- token/filters/filter.rs: the aggressive filter, and the choice of a filter.
pub mod Important
use memix.Base.{
  ℕ, zero, suc, ◌+◌, ◌-◌, ◌*◌, ◌/◌, ◌%◌, ◌^◌, ◌≤◌, ◌<◌, min, max, String, ◌≡◌, refl, sym, ap, ◌∙◌,
  subst, ◌≢◌, ◌↔◌, ◌⊎◌, inl, inr, Bool, true, false, not, ◌&&◌, ◌||◌, Option, none, some, List, [],
  ◌∷◌, ◌++◌, map, arith, eq_iff, ltb, leb, nat_beq, if◌then◌else◌, Key, ◌==◌, number_key, text_key,
  pair_key, pair_equal_iff, bool_key, both, same, Bool-cases, Option-cases, length, drop, take,
  length-append, length-drop, keep, count, All, All-append, sum, sum-append, concat, show, some_inj,
  map-eq-some, if-some-cases, if-eq-some, chain-eq-some, if_keeps, ℤ, pos, negsuc, negative,
  whole_units, exceeds, append_none, keep-append, append_assoc, reverse, insert_by, sort_by, Sorted,
  count-insert_by, count-sort_by, All-insert_by, All-sort_by, sort_by-Sorted, All-take, take-Sorted,
  sort_by-coarse, OneLine, lines-OneLine, length-lines-join_le, lines, split_whitespace,
  trim_matches, trim, contains_text, strip_prefix, join, before_first, chars,
}
use Prim.Native.Char.{Char, code}
use Prim.Native.String.{len, slice}
use text.Mathlib.Text.{starts_with}
use memix.Filters.{
  FilterLevel, no_filter, minimal, aggressive, Language, data_format, minimal_filter, text_of,
}

-- `matches('{').count()`
count_char : ℕ → String → ℕ
count_char n s = count (λ x. nat_beq (code x) n) (chars s)

ends_with_brace : List Char → Bool
ends_with_brace [] = false
ends_with_brace (x ∷ []) = nat_beq (code x) 123
ends_with_brace (x ∷ y ∷ ys) = ends_with_brace (y ∷ ys)

abbrev pub implementation : String
implementation = "    // ... implementation"

starts_constant : String → Bool
starts_constant trimmed =
    if starts_with trimmed "const "
    then true
    else if starts_with trimmed "static "
    then true
    else if starts_with trimmed "let "
    then true
    else if starts_with trimmed "pub const "
    then true
    else starts_with trimmed "pub static "

-- Whether a body is being left out, and the braces that are open in it. The depth of the source is an
-- `i32`, but it is 0 at a signature and is not read any more once it falls below that.
pub record Body : Type 0 where
  pub in_impl_body : Bool
  pub brace_depth : ℕ

pub record Visited : Type 0 where
  pub body : Body
  pub pushed : List String

-- A line of a body: an outer brace is kept, and a note stands for the rest.
body_line : Body → (line trimmed : String) → Visited
unfolding count_char ends_with_brace
body_line body line trimmed =
    let depth = (body.brace_depth + count_char 123 trimmed) - count_char 125 trimmed in
    let brace = trimmed == "{" || trimmed == "}" || ends_with_brace (chars trimmed) in
    let over = leb depth 0 in
    record {
      body = record { in_impl_body = not over; brace_depth = depth };
      pushed =
          (if leb depth 1 && brace then line ∷ [] else [])
          ++ (if over && not (nat_beq (len trimmed) 0) && not (trimmed == "}")
              then implementation ∷ []
              else []);
    }

abbrev pub no_body : Body
no_body = record { in_impl_body = false; brace_depth = 0 }

abbrev pub is_data : Language → Bool
is_data data_format = true
is_data _ = false

-- IMPORT_PATTERN and FUNC_SIGNATURE, on the trimmed line.
module _ (is_import is_signature : String → Bool) where
  pub visit_line : Body → String → Visited
  unfolding body_line starts_constant
  visit_line body line =
      let trimmed = trim line in
      if is_import trimmed
      then record { body = body; pushed = line ∷ [] }
      else if is_signature trimmed
      then record { body = record { in_impl_body = true; brace_depth = 0 }; pushed = line ∷ [] }
      else if body.in_impl_body
      then body_line body line trimmed
      else record { body = body; pushed = if starts_constant trimmed then line ∷ [] else [] }

  pub visit_lines : Body → List String → List String
  unfolding visit_line
  visit_lines body [] = []
  visit_lines body (l ∷ ls) = let v = visit_line body l in v.pushed ++ visit_lines v.body ls

  pub aggressive_filter : Language → String → String
  unfolding visit_lines
  aggressive_filter lang content =
      if is_data lang
      then minimal_filter lang content
      else trim (text_of (visit_lines no_body (lines (minimal_filter lang content))))

  pub get_filter : FilterLevel → Language → String → String
  unfolding aggressive_filter
  get_filter no_filter lang content = content
  get_filter minimal lang content = minimal_filter lang content
  get_filter aggressive lang content = aggressive_filter lang content
