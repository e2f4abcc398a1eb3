-- ===== src/Context/Fitting.antt =====
-- context/mod.rs, `pass_budget_fitting`: a 0/1 knapsack over the ranked sections, by a table with a row
-- per section and a cell per capacity, and the walk back through it.
pub mod Optimal
pub mod Omitted
mod Tests
use memix.Base.{
  ℕ, zero, suc, ◌+◌, ◌-◌, ◌*◌, ◌/◌, ◌%◌, ◌^◌, ◌≤◌, ◌<◌, min, max, String, ◌≡◌, refl, sym, ap, ◌∙◌,
  subst, ◌≢◌, ◌↔◌, ◌⊎◌, inl, inr, Bool, true, false, not, ◌&&◌, ◌||◌, Option, none, some, List, [],
  ◌∷◌, ◌++◌, map, arith, eq_iff, ltb, leb, nat_beq, if◌then◌else◌, Key, ◌==◌, number_key, text_key,
  pair_key, pair_equal_iff, bool_key, both, same, Bool-cases, Option-cases, length, drop, take,
  length-append, length-drop, keep, count, All, All-append, sum, sum-append, concat, show, some_inj,
  map-eq-some, if_keeps, ℤ, pos, negsuc, negative, whole_units, exceeds, append_none, append_assoc,
  reverse, insert_by, sort_by, Sorted, count-insert_by, count-sort_by, All-insert_by, All-sort_by,
  sort_by-Sorted, All-take, take-Sorted,
}
use memix.Dict.{contains, add}
use memix.Context.{CompiledSection}

abbrev pub usize_max : ℕ
usize_max = 18446744073709551615

-- `usize::saturating_add`
abbrev pub saturating_add : ℕ → ℕ → ℕ
saturating_add a b = min (a + b) usize_max

-- A row of the table, from the cell of capacity `first` on.
abbrev pub cells : (ℕ → ℕ) → ℕ → ℕ → List ℕ
cells f first zero = []
cells f first (suc n) = f first ∷ cells f (suc first) n

-- `row[cap]`; an index that is out of range does not occur.
abbrev pub cell : List ℕ → ℕ → ℕ
cell [] cap = 0
cell (x ∷ xs) zero = x
cell (x ∷ xs) (suc cap) = cell xs cap

abbrev pub value_of : CompiledSection → ℕ
value_of section = section.priority * 100 + 1

-- One round of the inner loop: the new value of `dp[i][cap]`.
pub better : CompiledSection → List ℕ → ℕ → ℕ
better section previous cap =
    let with = saturating_add (cell previous (cap - section.tokens)) (value_of section) in
    if leb section.tokens cap
    then (if ltb (cell previous cap) with then with else cell previous cap)
    else cell previous cap

-- A section with its row and the row before it.
pub record Filled : Type 0 where
  pub section : CompiledSection
  pub row : List ℕ
  pub previous : List ℕ

-- The loop that fills the rows; the last one stands first.
pub fill : ℕ → List ℕ → List Filled → List CompiledSection → List Filled
unfolding better
fill budget previous done [] = done
fill budget previous done (section ∷ sections) =
    let row = cells (better section previous) 0 (suc budget) in
    fill budget row (record { section = section; row = row; previous = previous } ∷ done) sections

pub record Walk : Type 0 where
  pub selected : List CompiledSection
  pub chosen : List String
  pub total_tokens : ℕ
  pub cap : ℕ

-- One round of the walk back from the last row. `push` and the `reverse` at the end put each section
-- before those that were selected earlier.
pub visit : Filled → Walk → Walk
visit f w = if cell f.row w.cap == cell f.previous w.cap then w else record {
  selected = f.section ∷ w.selected;
  chosen = add f.section.id w.chosen;
  total_tokens = saturating_add w.total_tokens f.section.tokens;
  cap = w.cap - f.section.tokens;
}

pub walk_back : List Filled → Walk → Walk
unfolding visit
walk_back [] w = w
walk_back (f ∷ rest) w = walk_back rest (visit f w)

abbrev pub nothing_chosen : ℕ → Walk
nothing_chosen budget = record { selected = []; chosen = []; total_tokens = 0; cap = budget }

pub omitted_ids : List String → List CompiledSection → List String
omitted_ids chosen [] = []
omitted_ids chosen (section ∷ sections) =
    let rest = omitted_ids chosen sections in
    if contains section.id chosen then rest else section.id ∷ rest

pub record Fitted : Type 0 where
  pub selected : List CompiledSection
  pub omitted : List String
  pub total_tokens : ℕ

unfoldable pub budget_fitting : List CompiledSection → ℕ → Fitted
unfolding fill walk_back omitted_ids
budget_fitting ranked_sections budget =
    let w =
      walk_back (fill budget (cells (λ cap. 0) 0 (suc budget)) [] ranked_sections)
        (nothing_chosen budget) in
    record {
      selected = w.selected;
      omitted = omitted_ids w.chosen ranked_sections;
      total_tokens = w.total_tokens;
    }

abbrev pub isize_max : ℕ
isize_max = 9223372036854775807

-- Whether `vec![vec![0usize; budget + 1]; n + 1]` can be made. A row of more than `isize::MAX` bytes, or
-- one whose `budget + 1` overflows, is a panic, and so is a table for which there is no memory.
unfoldable pub table_fits : (allocates : ℕ → Bool) (n budget : ℕ) → Bool
table_fits allocates n budget =
    both (leb ((budget + 1) * 8) isize_max) (allocates ((n + 1) * ((budget + 1) * 8)))
