-- ===== src/Filters/Truncate.antt =====
-- token/filters/filter.rs, `smart_truncate`: an excerpt of a text that prefers its structure. Where the
-- source subtracts 1 from 0, which overflows, the result is `none`.
use memix.Base.{
  ℕ, zero, suc, ◌+◌, ◌-◌, ◌*◌, ◌/◌, ◌≤◌, ◌<◌, max, String, ◌≡◌, refl, Bool, true, false, ◌||◌,
  Option, none, some, List, [], ◌∷◌, ◌++◌, arith, ltb, leb, if◌then◌else◌, ◌==◌, number_key,
  text_key, pair_key, bool_key, length, length-append, concat, show, if_keeps, lines, trim, join,
}
use text.Mathlib.Text.{starts_with}
use mathlib.Core.Option

-- The variables of the loop.
pub record Excerpt : Type 0 where
  pub result : List String
  pub kept_lines : ℕ
  pub skipped_section : Bool

abbrev pub nothing_kept : Excerpt
nothing_kept = record { result = []; kept_lines = 0; skipped_section = false }

omitted_note : ℕ → String
omitted_note n = concat "    // ... " (concat (show n) " lines omitted")

more_note : (more total : ℕ) → String
more_note more total =
    concat "// ... " (concat (show more) (concat " more lines (total: " (concat (show total) ")")))

-- IMPORT_PATTERN and FUNC_SIGNATURE, on the trimmed line.
module _ (is_import is_signature : String → Bool) where
  is_important : String → Bool
  is_important trimmed =
      if is_signature trimmed
      then true
      else if is_import trimmed
      then true
      else if starts_with trimmed "pub "
      then true
      else if starts_with trimmed "export "
      then true
      else if trimmed == "}"
      then true
      else trimmed == "{"

  pub take_line : (max_lines total : ℕ) → String → Excerpt → Excerpt
  unfolding is_important omitted_note
  take_line max_lines total line e =
      if is_important (trim line) || ltb e.kept_lines (max_lines / 2)
      then record {
        result =
            e.result
            ++ (if e.skipped_section
                then omitted_note (total - e.kept_lines) ∷ line ∷ []
                else line ∷ []);
        kept_lines = suc e.kept_lines;
        skipped_section = false;
      }
      else record e { skipped_section = true }

  pub take_lines : (max_lines total : ℕ) → List String → Excerpt → Excerpt
  unfolding take_line
  take_lines max_lines total [] e = e
  take_lines max_lines total (l ∷ ls) e =
      let taken = take_line max_lines total l e in
      let rest = take_lines max_lines total ls taken in
      if leb (max_lines - 1) taken.kept_lines then taken else rest

  pub ended : (total : ℕ) → Excerpt → List String
  unfolding more_note
  ended total e =
      if e.skipped_section || ltb e.kept_lines total
      then e.result ++ more_note (total - e.kept_lines) total ∷ []
      else e.result

  unfoldable pub excerpt : (max_lines : ℕ) → List String → Option (List String)
  unfolding take_lines ended
  excerpt zero ls = none
  excerpt (suc n) ls = some (ended (length ls) (take_lines (suc n) (length ls) ls nothing_kept))

  pub smart_truncate : (content : String) (max_lines : ℕ) → Option String
  unfolding excerpt
  smart_truncate content max_lines =
      if leb (length (lines content)) max_lines
      then some content
      else Option.map (join "\n") (excerpt max_lines (lines content))

  -- The lines that are kept, and a note before each of them at most.
  record Bounded (max_lines : ℕ) (e : Excerpt) : Type 0 where
    few : e.kept_lines ≤ max 1 (max_lines - 1)
    noted : length e.result ≤ 2 * e.kept_lines

  take_line-Bounded :
      (max_lines total : ℕ) (line : String) (e : Excerpt)
      → e.kept_lines < max 1 (max_lines - 1)
      → Bounded max_lines e
      → Bounded max_lines (take_line max_lines total line e)
  unfolding take_line
  take_line-Bounded max_lines total line e room h =
      if_keeps (Bounded max_lines) (is_important (trim line) || ltb e.kept_lines (max_lines / 2)) _
        _
        (λ t. record {
          few = room;
          noted = ground (
            arith,
            h.noted,
            length-append e.result (
                if e.skipped_section
                then omitted_note (total - e.kept_lines) ∷ line ∷ []
                else line ∷ []),
          );
        })
        (λ f. record { few = h.few; noted = h.noted })

  take_lines-Bounded :
      (max_lines total : ℕ) (ls : List String) (e : Excerpt)
      → e.kept_lines < max 1 (max_lines - 1)
      → Bounded max_lines e
      → Bounded max_lines (take_lines max_lines total ls e)
  unfolding take_lines
  take_lines-Bounded max_lines total [] e room h = h
  take_lines-Bounded max_lines total (l ∷ ls) e room h =
      let taken = take_line max_lines total l e in
      let bounded = take_line-Bounded max_lines total l e room h in
      if_keeps (Bounded max_lines) (leb (max_lines - 1) taken.kept_lines) _ _ (λ t. bounded)
        (λ f. take_lines-Bounded max_lines total ls taken (ground (arith, f)) bounded)

  -- Where the limit is not 0, there is an excerpt. It has at most one line less than twice the limit,
  -- or 3 lines where the limit is 1: the kept lines are fewer than the limit, or 1 where that is 1, and
  -- there is at most a note before each of them and one at the end.
  pub excerpt_bound :
      (max_lines : ℕ) (ls : List String)
      → 1 ≤ max_lines
      → (out : List String) × (excerpt max_lines ls ≡ some out)
        × (length out ≤ 2 * max 1 (max_lines - 1) + 1)
  unfolding excerpt ended
  excerpt_bound zero ls h = let no : false ≡ true = ground (arith, h) in cc
  excerpt_bound (suc n) ls h =
      let total = length ls in
      let e = take_lines (suc n) total ls nothing_kept in
      let b =
        take_lines-Bounded (suc n) total ls nothing_kept (omega arith)
          (record { few = omega arith; noted = omega arith }) in
      (
        ended total e,
        refl,
        if_keeps (λ (out : List String). length out ≤ 2 * max 1 (suc n - 1) + 1)
            (e.skipped_section || ltb e.kept_lines total) _ _
            (λ t. omega (
              arith,
              b.few,
              b.noted,
              length-append e.result (more_note (total - e.kept_lines) total ∷ []),
            ))
            (λ f. omega (arith, b.few, b.noted)),
      )
