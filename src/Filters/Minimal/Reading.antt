-- ===== src/Filters/Minimal/Reading.antt =====
-- Which lines of a text the minimal filter of token/filters/filter.rs keeps, line by line.
use memix.Base.{
  String, ◌≡◌, refl, sym, ◌∙◌, subst, inl, inr, Bool, true, false, not, none, some, List, [], ◌∷◌,
  ◌++◌, arith, nat_beq, number_key, text_key, pair_key, bool_key, both, Bool-cases, Option-cases,
  trim, contains_text,
}
use Prim.Native.String.{len}
use text.Mathlib.Text.{starts_with}
use memix.Filters.{
  Language, CommentPatterns, Mode, comment_patterns, triple_quote, is_python, plain_line, doc_line,
  opens_block, block_line, scan_line, scan_lines,
}

-- Where the text is before a line.
pub data Place : Type 0 where
  in_code in_block in_docstring : Place

-- The tests on a trimmed line.
module _ (p : CommentPatterns) where
  -- It has the start of a block comment, and does not begin with that of a documenting one.
  abbrev pub opens : String → Bool
  opens t = elim p.block_start [
    | none ↦ false
    | some start ↦ elim p.block_end [
      | none ↦ false
      | some end ↦
          both (contains_text t start)
            (not (starts_with t (elim p.doc_block_start [ none ↦ "###" | some d ↦ d ])))
    ]
  ]

  -- It has the end of a block comment.
  abbrev pub closes : String → Bool
  closes t = elim p.block_end [ none ↦ false | some end ↦ contains_text t end ]

  abbrev pub comments : String → Bool
  comments t = elim p.line [ none ↦ false | some c ↦ starts_with t c ]

  abbrev pub documents : String → Bool
  documents t = elim p.doc_line [ none ↦ false | some d ↦ starts_with t d ]

abbrev pub quotes : Language → String → Bool
quotes lang t = both (is_python lang) (starts_with t triple_quote)

module _ (lang : Language) where
  abbrev patterns : CommentPatterns
  patterns = comment_patterns lang

  -- A line at a place, what is kept of it, and the place after it.
  pub data Line : Place → String → List String → Place → Type 0 where
    block_alone :
        {l : String}
        → opens (comment_patterns lang) (trim l) ≡ true
        → closes (comment_patterns lang) (trim l) ≡ true
        → Line in_code l [] in_code
    block_begins :
        {l : String}
        → opens (comment_patterns lang) (trim l) ≡ true
        → closes (comment_patterns lang) (trim l) ≡ false
        → Line in_code l [] in_block
    block_goes_on :
        {l : String} → closes (comment_patterns lang) (trim l) ≡ false → Line in_block l [] in_block
    block_ends :
        {l : String} → closes (comment_patterns lang) (trim l) ≡ true → Line in_block l [] in_code
    docstring_begins :
        {l : String}
        → opens (comment_patterns lang) (trim l) ≡ false
        → quotes lang (trim l) ≡ true
        → Line in_code l (l ∷ []) in_docstring
    docstring_goes_on :
        {l : String} → quotes lang (trim l) ≡ false → Line in_docstring l (l ∷ []) in_docstring
    docstring_ends :
        {l : String} → quotes lang (trim l) ≡ true → Line in_docstring l (l ∷ []) in_code
    doc_comment :
        {l : String}
        → opens (comment_patterns lang) (trim l) ≡ false
        → quotes lang (trim l) ≡ false
        → comments (comment_patterns lang) (trim l) ≡ true
        → documents (comment_patterns lang) (trim l) ≡ true
        → Line in_code l (l ∷ []) in_code
    comment :
        {l : String}
        → opens (comment_patterns lang) (trim l) ≡ false
        → quotes lang (trim l) ≡ false
        → comments (comment_patterns lang) (trim l) ≡ true
        → documents (comment_patterns lang) (trim l) ≡ false
        → Line in_code l [] in_code
    blank :
        {l : String}
        → opens (comment_patterns lang) (trim l) ≡ false
        → quotes lang (trim l) ≡ false
        → comments (comment_patterns lang) (trim l) ≡ false
        → len (trim l) ≡ 0
        → Line in_code l ("" ∷ []) in_code
    code_line :
        {l : String}
        → opens (comment_patterns lang) (trim l) ≡ false
        → quotes lang (trim l) ≡ false
        → comments (comment_patterns lang) (trim l) ≡ false
        → nat_beq (len (trim l)) 0 ≡ false
        → Line in_code l (l ∷ []) in_code

  -- The lines of a text from a place on, and those that are kept.
  pub data Reads : Place → List String → List String → Type 0 where
    end_of_text : {place : Place} → Reads place [] []
    read_line :
        {place next : Place} {l : String} {ls kept out : List String}
        → Line place l kept next
        → Reads next ls out
        → Reads place (l ∷ ls) (kept ++ out)

  abbrev mode_of : Place → Mode
  mode_of in_code = record { in_block_comment = false; in_docstring = false }
  mode_of in_block = record { in_block_comment = true; in_docstring = false }
  mode_of in_docstring = record { in_block_comment = false; in_docstring = true }

  -- A block comment is open only in a language that has them.
  abbrev Allowed : Place → Type 0
  Allowed in_block =
      (start : String) × (end : String) × ((comment_patterns lang).block_start ≡ some start)
      × ((comment_patterns lang).block_end ≡ some end)
  Allowed place = Unit {0}

  abbrev Read : Place → String → Type 0
  Read place l =
      (kept : List String) × (next : Place) × (scan_line lang (mode_of place) l
        ≡ record { mode = mode_of next; pushed = kept })
      × Line place l kept next
      × Allowed next

  -- A line outside block comments and docstrings.
  plain_Read :
      (l : String)
      → scan_line lang (mode_of in_code) l
        ≡ plain_line (comment_patterns lang) (mode_of in_code) l (trim l)
      → opens (comment_patterns lang) (trim l) ≡ false
      → quotes lang (trim l) ≡ false
      → Read in_code l
  unfolding plain_line
  plain_Read l s o q = elim (Bool-cases (comments (comment_patterns lang) (trim l))) [
    | inl c ↦ elim (Bool-cases (documents (comment_patterns lang) (trim l))) [
      | inl d ↦ (l ∷ [], in_code, s ∙ ground (arith, c, d), doc_comment o q c d, tt)
      | inr d ↦ ([], in_code, s ∙ ground (arith, c, d), comment o q c d, tt)
    ]
    | inr c ↦ elim (Bool-cases (nat_beq (len (trim l)) 0)) [
      | inl z ↦ ("" ∷ [], in_code, s ∙ ground (arith, c, z), blank o q c (ground (arith, z)), tt)
      | inr z ↦ (l ∷ [], in_code, s ∙ ground (arith, c, z), code_line o q c z, tt)
    ]
  ]

  -- A line that opens no block comment.
  unopened_Read :
      (l : String)
      → scan_line lang (mode_of in_code) l
        ≡ doc_line lang (comment_patterns lang) (mode_of in_code) l (trim l)
      → opens (comment_patterns lang) (trim l) ≡ false
      → Read in_code l
  unfolding doc_line
  unopened_Read l s o = elim (Bool-cases (quotes lang (trim l))) [
    | inl q ↦ (l ∷ [], in_docstring, s ∙ ground (arith, q), docstring_begins o q, tt)
    | inr q ↦ plain_Read l (s ∙ ground (arith, q)) o q
  ]

  code_Read : (l : String) → Read in_code l
  unfolding scan_line block_line opens_block
  code_Read l = elim (Option-cases (comment_patterns lang).block_start) [
    | inl n ↦ unopened_Read l (rw (n, scan_line) refl) (ground (arith, n))
    | inr (start, s) ↦ elim (Option-cases (comment_patterns lang).block_end) [
      | inl n ↦ unopened_Read l (rw (s, n, scan_line) refl) (ground (arith, s, n))
      | inr (end, e) ↦ elim (Bool-cases (opens (comment_patterns lang) (trim l))) [
        | inl o ↦ elim (Bool-cases (closes (comment_patterns lang) (trim l))) [
          | inl c ↦ ([], in_code, ground (arith, s, e, o, c), block_alone o c, tt)
          | inr c ↦ ([], in_block, ground (arith, s, e, o, c), block_begins o c, (start, end, s, e))
        ]
        | inr o ↦ unopened_Read l (ground (arith, s, e, o)) o
      ]
    ]
  ]

  block_Read : (l : String) → Allowed in_block → Read in_block l
  unfolding scan_line block_line opens_block
  block_Read l (start, end, s, e) = elim (Bool-cases (closes (comment_patterns lang) (trim l))) [
    | inl c ↦ ([], in_code, ground (arith, s, e, c), block_ends c, tt)
    | inr c ↦ ([], in_block, ground (arith, s, e, c), block_goes_on c, (start, end, s, e))
  ]

  within_docstring :
      (l : String)
      → scan_line lang (mode_of in_docstring) l
        ≡ doc_line lang (comment_patterns lang) (mode_of in_docstring) l (trim l)
  unfolding scan_line block_line opens_block
  within_docstring l = elim (Option-cases (comment_patterns lang).block_start) [
    | inl n ↦ rw (n, scan_line) refl
    | inr (start, s) ↦ elim (Option-cases (comment_patterns lang).block_end) [
      | inl n ↦ rw (s, n, scan_line) refl
      | inr (end, e) ↦ rw (s, e, scan_line) refl
    ]
  ]

  docstring_Read : (l : String) → Read in_docstring l
  unfolding doc_line
  docstring_Read l = elim (Bool-cases (quotes lang (trim l))) [
    | inl q ↦ (l ∷ [], in_code, within_docstring l ∙ ground (arith, q), docstring_ends q, tt)
    | inr q ↦
        (l ∷ [], in_docstring, within_docstring l ∙ ground (arith, q), docstring_goes_on q, tt)
  ]

  read : (place : Place) (l : String) → Allowed place → Read place l
  read in_code l a = code_Read l
  read in_block l a = block_Read l a
  read in_docstring l a = docstring_Read l

  pub scan_lines-Reads :
      (place : Place) (ls : List String)
      → Allowed place
      → Reads place ls (scan_lines lang (mode_of place) ls)
  unfolding scan_lines
  scan_lines-Reads place [] a = end_of_text
  scan_lines-Reads place (l ∷ ls) a =
      let (kept, next, s, line, b) = read place l a in
      subst (λ x. Reads place (l ∷ ls) (x.pushed ++ scan_lines lang x.mode ls)) (sym s)
        (read_line line (scan_lines-Reads next ls b))
