-- ===== src/Filters/Minimal.antt =====
-- The lines that the minimal filter of token/filters/filter.rs keeps.
pub mod Reading
pub mod Squeezed
use memix.Filters.{
  outside, data_format, scan_lines, Language, CommentPatterns, comment_patterns, Mode, Scanned,
  plain_line, doc_line, opens_block, block_line, scan_line, is_python,
}
use memix.Base.{
  String, ◌≡◌, refl, sym, ap, subst, ◌⊎◌, inl, inr, true, false, Option, none, some, List, [], ◌∷◌,
  ◌++◌, map, arith, nat_beq, if◌then◌else◌, number_key, text_key, pair_key, bool_key, both,
  Bool-cases, Option-cases, if_keeps, trim,
}
use Prim.Native.String.{len}
use text.Mathlib.Text.{starts_with}

-- A list of lines that comes from another one: lines are left out, and blank ones may become empty.
pub data LinesFrom : List String → List String → Type 0 where
  no_line : LinesFrom [] []
  dropped : {l : String} {out ls : List String} → LinesFrom out ls → LinesFrom out (l ∷ ls)
  kept : {l : String} {out ls : List String} → LinesFrom out ls → LinesFrom (l ∷ out) (l ∷ ls)
  blanked :
      {l : String} {out ls : List String}
      → len (trim l) ≡ 0
      → LinesFrom out ls
      → LinesFrom ("" ∷ out) (l ∷ ls)

-- What one line may add.
Adds : String → Scanned → Type 0
Adds line s =
    (s.pushed ≡ []) ⊎ ((s.pushed ≡ line ∷ []) ⊎ ((s.pushed ≡ "" ∷ []) × (len (trim line) ≡ 0)))

rest-Adds :
    (mode : Mode) (line : String)
    → Adds line
        (record { mode = mode; pushed = (if nat_beq (len (trim line)) 0 then "" else line) ∷ [] })
unfolding Adds
rest-Adds mode line = elim (Bool-cases (nat_beq (len (trim line)) 0)) [
  | inl t ↦ inr (inr (ap (λ b. (if b then "" else line) ∷ []) t, ground (arith, t)))
  | inr f ↦ inr (inl (ap (λ b. (if b then "" else line) ∷ []) f))
]

doc_comment-Adds :
    (mode : Mode) (line : String) (doc : Option String)
    → Adds line (record {
      mode = mode;
      pushed = elim doc [
        | none ↦ []
        | some d ↦ if starts_with (trim line) d then line ∷ [] else []
      ];
    })
unfolding Adds
doc_comment-Adds mode line none = inl refl
doc_comment-Adds mode line (some d) = elim (Bool-cases (starts_with (trim line) d)) [
  | inl t ↦ inr (inl (ap (λ b. if b then line ∷ [] else []) t))
  | inr f ↦ inl (ap (λ b. if b then line ∷ [] else []) f)
]

plain_line-Adds :
    (patterns : CommentPatterns) (mode : Mode) (line : String)
    → Adds line (plain_line patterns mode line (trim line))
unfolding plain_line
plain_line-Adds patterns mode line =
    elim patterns.line
      as (λ p. Adds line (elim p [
        | none ↦ record {
          mode = mode;
          pushed = (if nat_beq (len (trim line)) 0 then "" else line) ∷ [];
        }
        | some line_comment ↦
            if starts_with (trim line) line_comment
            then record {
              mode = mode;
              pushed = elim patterns.doc_line [
                | none ↦ []
                | some doc ↦ if starts_with (trim line) doc then line ∷ [] else []
              ];
            }
            else record {
              mode = mode;
              pushed = (if nat_beq (len (trim line)) 0 then "" else line) ∷ [];
            }
      ])) [
        | none ↦ rest-Adds mode line
        | some c ↦
            if_keeps (Adds line) (starts_with (trim line) c) _ _
              (λ t. doc_comment-Adds mode line patterns.doc_line) (λ f. rest-Adds mode line)
      ]

doc_line-Adds :
    (lang : Language) (patterns : CommentPatterns) (mode : Mode) (line : String)
    → Adds line (doc_line lang patterns mode line (trim line))
unfolding doc_line Adds
doc_line-Adds lang patterns mode line =
    if_keeps (Adds line) (both (is_python lang) (starts_with (trim line) "\"\"\"")) _ _
      (λ t. inr (inl refl))
      (λ f.
        if_keeps (Adds line) mode.in_docstring _ _ (λ d. inr (inl refl))
          (λ n. plain_line-Adds patterns mode line))

block_line-Adds :
    (lang : Language) (patterns : CommentPatterns) (mode : Mode) (start end line : String)
    → Adds line (block_line lang patterns mode start end line (trim line))
unfolding block_line Adds
block_line-Adds lang patterns mode start end line =
    if_keeps (Adds line)
      (if opens_block patterns mode start (trim line) then true else mode.in_block_comment) _ _
      (λ b. inl refl)
      (λ n. doc_line-Adds lang patterns (record mode { in_block_comment = false }) line)

scan_line-Adds :
    (lang : Language) (mode : Mode) (line : String) → Adds line (scan_line lang mode line)
unfolding scan_line
scan_line-Adds lang mode line = elim (Option-cases (comment_patterns lang).block_start) [
  | inl n ↦ rw (n, scan_line) (doc_line-Adds lang (comment_patterns lang) mode line)
  | inr (start, s) ↦ elim (Option-cases (comment_patterns lang).block_end) [
    | inl n ↦ rw (s, n, scan_line) (doc_line-Adds lang (comment_patterns lang) mode line)
    | inr (end, e) ↦
        rw (s, e, scan_line) (block_line-Adds lang (comment_patterns lang) mode start end line)
  ]
]

push_lines :
    (line : String) (s : Scanned) (out ls : List String)
    → Adds line s
    → LinesFrom out ls
    → LinesFrom (s.pushed ++ out) (line ∷ ls)
unfolding Adds
push_lines line s out ls (inl e) h =
    subst (λ p. LinesFrom (p ++ out) (line ∷ ls)) (sym e) (dropped h)
push_lines line s out ls (inr (inl e)) h =
    subst (λ p. LinesFrom (p ++ out) (line ∷ ls)) (sym e) (kept h)
push_lines line s out ls (inr (inr (e, b))) h =
    subst (λ p. LinesFrom (p ++ out) (line ∷ ls)) (sym e) (blanked b h)

-- The loop invents nothing: for every language and from every mode, its lines are lines of the text in
-- their order, some left out and some blank ones emptied.
pub scan_lines-LinesFrom :
    (lang : Language) (mode : Mode) (ls : List String) → LinesFrom (scan_lines lang mode ls) ls
unfolding scan_lines
scan_lines-LinesFrom lang mode [] = no_line
scan_lines-LinesFrom lang mode (l ∷ ls) =
    let s = scan_line lang mode l in
    push_lines l s (scan_lines lang s.mode ls) ls (scan_line-Adds lang mode l)
      (scan_lines-LinesFrom lang s.mode ls)

-- Of a data format the loop keeps every line, and only blank ones change.
pub scan_lines-data :
    (ls : List String)
    → scan_lines data_format outside ls ≡ map (λ l. if nat_beq (len (trim l)) 0 then "" else l) ls
unfolding scan_lines scan_line doc_line plain_line comment_patterns
scan_lines-data [] = refl
scan_lines-data (l ∷ ls) =
    ap (λ out. (if nat_beq (len (trim l)) 0 then "" else l) ∷ out) (scan_lines-data ls)
