-- ===== src/Filters/Aggressive/Important.antt =====
-- What the aggressive filter of token/filters/filter.rs keeps.
use memix.Base.{
  String, ◌≡◌, refl, ap, ◌∙◌, Bool, true, false, List, [], ◌∷◌, ◌++◌, if◌then◌else◌, number_key,
  text_key, pair_key, bool_key, keep, if_keeps, keep-append, trim,
}
use memix.Base.{lines}
use memix.Filters.{Language, minimal_filter, text_of}
use memix.Filters.Aggressive.{
  no_body, is_data, aggressive_filter, Body, Visited, body_line, implementation, starts_constant,
  visit_line, visit_lines,
}

module _ (is_import is_signature : String → Bool) where
  -- An import or a signature.
  abbrev pub important : String → Bool
  important line = if is_import (trim line) then true else is_signature (trim line)

  keep-one :
      (b : Bool) (l : String) → important l ≡ false → keep important (if b then l ∷ [] else []) ≡ []
  keep-one true l h = rw h refl
  keep-one false l h = refl

  keep-important : (l : String) → important l ≡ true → keep important (l ∷ []) ≡ l ∷ []
  keep-important l h = rw h refl

  joined :
      (b : Bool) (l : String) (ls : List String)
      → (if b then l ∷ [] else []) ++ ls ≡ (if b then l ∷ ls else ls)
  joined true l ls = refl
  joined false l ls = refl

  module _ (note : important implementation ≡ false) where
    two_parts :
        (a b : Bool) (l : String)
        → important l ≡ false
        → keep important ((if a then l ∷ [] else []) ++ (if b then implementation ∷ [] else []))
          ≡ []
    two_parts true true l h = rw (h, note) refl
    two_parts true false l h = rw h refl
    two_parts false true l h = rw note refl
    two_parts false false l h = refl

    body_line-important :
        (body : Body) (line trimmed : String)
        → important line ≡ false
        → keep important (body_line body line trimmed).pushed ≡ []
    unfolding body_line
    body_line-important body line trimmed h = two_parts _ _ line h

    Passes : String → Visited → Type 0
    Passes line v = keep important v.pushed ≡ (if important line then line ∷ [] else [])

    -- A line that is not important adds none that is.
    none_pushed :
        (line : String) (v : Visited)
        → important line ≡ false
        → keep important v.pushed ≡ []
        → Passes line v
    unfolding Passes
    none_pushed line v h k = k ∙ rw h refl

    self_pushed :
        (line : String) (body : Body)
        → important line ≡ true
        → Passes line (record { body = body; pushed = line ∷ [] })
    unfolding Passes
    self_pushed line body h = keep-important line h ∙ rw h refl

    unimportant :
        (line : String)
        → is_import (trim line) ≡ false
        → is_signature (trim line) ≡ false
        → important line ≡ false
    unimportant line n m = rw n m

    visit_line-Passes :
        (body : Body) (line : String) → Passes line (visit_line is_import is_signature body line)
    unfolding visit_line
    visit_line-Passes body line =
        if_keeps (Passes line) (is_import (trim line)) _ _ (λ i. self_pushed line body (rw i refl))
          (λ n.
            if_keeps (Passes line) (is_signature (trim line)) _ _
              (λ s. self_pushed line _ (rw (n, s) refl))
              (λ m.
                if_keeps (Passes line) body.in_impl_body _ _
                  (λ b.
                    none_pushed line _ (unimportant line n m)
                      (body_line-important body line (trim line) (unimportant line n m)))
                  (λ f.
                    none_pushed line _ (unimportant line n m)
                      (keep-one (starts_constant (trim line)) line (unimportant line n m)))))

    -- The loop keeps the imports and the signatures of its lines.
    pub visit_lines-important :
        (body : Body) (ls : List String)
        → keep important (visit_lines is_import is_signature body ls) ≡ keep important ls
    unfolding visit_lines Passes
    visit_lines-important body [] = refl
    visit_lines-important body (l ∷ ls) =
        let v = visit_line is_import is_signature body l in
        keep-append important v.pushed (visit_lines is_import is_signature v.body ls)
        ∙ ap (λ xs. xs ++ keep important (visit_lines is_import is_signature v.body ls))
            (visit_line-Passes body l)
        ∙ ap (λ ys. (if important l then l ∷ [] else []) ++ ys) (visit_lines-important v.body ls)
        ∙ joined (important l) l (keep important ls)

    -- Where the note for a left out body is neither an import nor a signature, the aggressive filter
    -- gives, for a language that is no data format and with the blanks at both ends taken away, lines
    -- whose imports and signatures are those among the lines that the minimal filter gives for the
    -- text, each as often and in the same order, whatever bodies it leaves out.
    pub aggressive_filter-important :
        (lang : Language) (content : String)
        → is_data lang ≡ false
        → (out : List String) × (aggressive_filter is_import is_signature lang content
            ≡ trim (text_of out))
          × (keep important out ≡ keep important (lines (minimal_filter lang content)))
    unfolding aggressive_filter
    aggressive_filter-important lang content d =
        let ls = lines (minimal_filter lang content) in
        (visit_lines is_import is_signature no_body ls, rw d refl, visit_lines-important no_body ls)
