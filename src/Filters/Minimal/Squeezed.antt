-- ===== src/Filters/Minimal/Squeezed.antt =====
-- The text that the minimal filter of token/filters/filter.rs gives, with its blank lines squeezed.
use memix.Base.{
  ℕ, suc, ◌+◌, ◌≤◌, ◌<◌, min, String, ◌≡◌, refl, inl, inr, true, false, List, [], ◌∷◌, arith, leb,
  nat_beq, number_key, text_key, pair_key, bool_key, Bool-cases, lines, trim, chars, of_list,
}
use Prim.Native.Char.{Char, code}
use memix.Filters.{Language, scan_lines, outside, text_of, squeeze, normalized, minimal_filter}
use memix.Filters.Minimal.Reading.{Reads, in_code, scan_lines-Reads}

-- A text without the line breaks that follow on two others; `seen` counts those just before, up to two.
pub data Squeezed : ℕ → List Char → List Char → Type 0 where
  all_read : {seen : ℕ} → Squeezed seen [] []
  other :
      {seen : ℕ} {c : Char} {cs out : List Char}
      → nat_beq (code c) 10 ≡ false
      → Squeezed 0 cs out
      → Squeezed seen (c ∷ cs) (c ∷ out)
  break_kept :
      {seen next : ℕ} {c : Char} {cs out : List Char}
      → nat_beq (code c) 10 ≡ true
      → seen < 2
      → next ≡ seen + 1
      → Squeezed next cs out
      → Squeezed seen (c ∷ cs) (c ∷ out)
  break_dropped :
      {c : Char} {cs out : List Char} {seen : ℕ}
      → nat_beq (code c) 10 ≡ true
      → seen ≡ 2
      → Squeezed seen cs out
      → Squeezed seen (c ∷ cs) out

squeeze-Squeezed : (seen : ℕ) (cs : List Char) → seen ≤ 2 → Squeezed seen cs (squeeze seen cs)
unfolding squeeze
squeeze-Squeezed seen [] h = all_read
squeeze-Squeezed seen (c ∷ cs) h = elim (Bool-cases (nat_beq (code c) 10)) [
  | inl b ↦ elim (Bool-cases (leb 2 seen)) [
    | inl full ↦
        (let same_seen : min (suc seen) 2 ≡ seen = ground (arith, full, h) in
          rw (b, full, same_seen)
            (break_dropped b (ground (arith, full, h)) (squeeze-Squeezed seen cs h)))
    | inr room ↦
        rw (b, room)
          (break_kept b (ground (arith, room)) (ground (arith, room))
            (squeeze-Squeezed (min (suc seen) 2) cs (omega arith)))
  ]
  | inr o ↦ rw o (other o (squeeze-Squeezed 0 cs (omega arith)))
]

-- The minimal filter gives, without the blanks at both ends and without the line breaks that follow on
-- two others, the lines that a reading of the text keeps. A reading starts in code; a line there that
-- has the start of a block comment, and does not begin with that of a documenting one, is dropped with
-- the lines up to the first that has the end; in Python a line that begins with three quotes begins or
-- ends a docstring, whose lines are kept; a line comment is dropped unless it documents; a blank line
-- becomes empty, and any other line is kept.
pub minimal_filter-Reads :
    (lang : Language) (content : String)
    → (out : List String) × (cs : List Char) × Reads lang in_code (lines content) out
      × Squeezed 0 (chars (text_of out)) cs
      × (minimal_filter lang content ≡ trim (of_list cs))
unfolding minimal_filter normalized
minimal_filter-Reads lang content =
    let out = scan_lines lang outside (lines content) in
    (
      out,
      squeeze 0 (chars (text_of out)),
      scan_lines-Reads lang in_code (lines content) tt,
      squeeze-Squeezed 0 (chars (text_of out)) (omega arith),
      refl,
    )
