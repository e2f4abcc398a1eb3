-- ===== src/Brain/Selection/Greedy.antt =====
-- `assemble_context` of brain/orchestrator.rs against a choice in one pass.
use memix.Base.{
  ℕ, ◌+◌, ◌≤◌, ◌<◌, String, ◌≡◌, refl, sym, ap, ◌∙◌, subst, inl, inr, Option, none, some, List, [],
  ◌∷◌, ◌++◌, arith, leb, ◌==◌, number_key, text_key, pair_key, bool_key, Bool-cases, keep,
  append_none, append_assoc,
}
use memix.Brain.{MemoryEntry, MemoryKind}
use memix.Brain.Selection.{
  ByKind, Selected, group, select, select_all, select_kinds, assemble_context, loading_order,
  estimate_tokens, kind_key, same_kind_iff,
}
use memix.Dict.{lookup, insert, or_else}
use memix.Dict.Laws.{lookup-insert}

abbrev pub of_kind : MemoryKind → List MemoryEntry → List MemoryEntry
of_kind k = keep (λ e. e.kind == k)

abbrev pub by_order : List MemoryKind → List MemoryEntry → List MemoryEntry
by_order [] es = []
by_order (k ∷ ks) es = of_kind k es ++ by_order ks es

lookup-group :
    (k : MemoryKind) (es : List MemoryEntry) (m : ByKind)
    → or_else [] (lookup k (group es m)) ≡ or_else [] (lookup k m) ++ of_kind k es
unfolding group
lookup-group k [] m = sym (append_none (or_else [] (lookup k m)))
lookup-group k (e ∷ es) m =
    lookup-group k es (insert e.kind grouped m)
    ∙ ap (λ o. or_else [] o ++ of_kind k es) (lookup-insert e.kind k grouped m)
    ∙ elim (Bool-cases (e.kind == k)) [
      | inl b ↦ rw (b) (
          append_assoc (or_else [] (lookup e.kind m)) (e ∷ []) (of_kind k es)
          ∙ ap (λ j. or_else [] (lookup j m) ++ e ∷ of_kind k es) ((same_kind_iff e.kind k).0 b))
      | inr b ↦ rw (b) refl
    ]
  where
    grouped : List MemoryEntry
    grouped = or_else [] (lookup e.kind m) ++ e ∷ []

module _ (count_tokens : String → Option ℕ) (max_tokens : ℕ) where
  -- From `spent` tokens, each entry in turn is taken exactly where it fits.
  pub data Greedy : ℕ → List MemoryEntry → List MemoryEntry → Type 0 where
    stops : (spent : ℕ) → Greedy spent [] []
    takes :
        (spent : ℕ) (e : MemoryEntry) (es xs : List MemoryEntry)
        → spent + estimate_tokens count_tokens e.content ≤ max_tokens
        → Greedy (spent + estimate_tokens count_tokens e.content) es xs
        → Greedy spent (e ∷ es) (e ∷ xs)
    skips :
        (spent : ℕ) (e : MemoryEntry) (es xs : List MemoryEntry)
        → max_tokens < spent + estimate_tokens count_tokens e.content
        → Greedy spent es xs
        → Greedy spent (e ∷ es) xs

  abbrev pub token_sum : List MemoryEntry → ℕ
  token_sum [] = 0
  token_sum (e ∷ es) = estimate_tokens count_tokens e.content + token_sum es

  Greedy-token_sum :
      (spent : ℕ) (es xs : List MemoryEntry)
      → Greedy spent es xs
      → spent ≤ max_tokens
      → spent + token_sum xs ≤ max_tokens
  Greedy-token_sum spent es xs (stops s) h = omega arith
  Greedy-token_sum spent es xs (takes s e rest ys fits g) h =
      omega (arith, Greedy-token_sum (s + estimate_tokens count_tokens e.content) rest ys g fits)
  Greedy-token_sum spent es xs (skips s e rest ys big g) h = Greedy-token_sum s rest ys g h

  -- The choice that one pass makes after what is selected.
  select_all-Greedy :
      (es : List MemoryEntry) (s : Selected)
      → (xs : List MemoryEntry) × Greedy s.current_tokens es xs
        × ((select_all count_tokens max_tokens es s).selected ≡ s.selected ++ xs)
  unfolding select_all select
  select_all-Greedy [] s = ([], stops s.current_tokens, sym (append_none s.selected))
  select_all-Greedy (e ∷ es) s =
      elim (Bool-cases
        (leb (s.current_tokens + estimate_tokens count_tokens e.content) max_tokens)) [
          | inl b ↦
              let (xs, g, q) = select_all-Greedy es (record {
                selected = s.selected ++ e ∷ [];
                current_tokens = s.current_tokens + estimate_tokens count_tokens e.content;
              }) in
              (
                e ∷ xs,
                takes s.current_tokens e es xs (ground arith) g,
                rw (b, select_all, select) (q ∙ append_assoc s.selected (e ∷ []) xs),
              )
          | inr b ↦
              let (xs, g, q) = select_all-Greedy es s in
              (xs, skips s.current_tokens e es xs (ground arith) g, rw (b, select_all, select) q)
        ]

  select_all-append :
      (es fs : List MemoryEntry) (s : Selected)
      → select_all count_tokens max_tokens (es ++ fs) s
        ≡ select_all count_tokens max_tokens fs (select_all count_tokens max_tokens es s)
  unfolding select_all
  select_all-append [] fs s = refl
  select_all-append (e ∷ es) fs s = select_all-append es fs (select count_tokens max_tokens e s)

  select_kind :
      (o : Option (List MemoryEntry)) (s : Selected)
      → elim o as (λ x. Selected) [ none ↦ s | some es ↦ select_all count_tokens max_tokens es s ]
        ≡ select_all count_tokens max_tokens (or_else [] o) s
  unfolding select_all
  select_kind none s = refl
  select_kind (some es) s = refl

  select_kinds-by_order :
      (entries : List MemoryEntry) (ks : List MemoryKind) (s : Selected)
      → select_kinds count_tokens max_tokens (group entries []) ks s
        ≡ select_all count_tokens max_tokens (by_order ks entries) s
  unfolding select_kinds select_all lookup
  select_kinds-by_order entries [] s = refl
  select_kinds-by_order entries (k ∷ ks) s =
      select_kinds-by_order entries ks _
      ∙ ap (select_all count_tokens max_tokens (by_order ks entries)) (
          select_kind (lookup k (group entries [])) s
          ∙ ap (λ es. select_all count_tokens max_tokens es s) (lookup-group k entries []))
      ∙ sym (select_all-append (of_kind k entries) (by_order ks entries) s)

  -- `assemble_context` goes through the memories by kind, in the loading order, those of one kind as
  -- they come; it takes each exactly where it fits in what is left of the budget, and what it takes
  -- is within the budget.
  pub assemble_context-Greedy :
      (entries : List MemoryEntry)
      → Greedy 0 (by_order loading_order entries) (assemble_context count_tokens entries max_tokens)
        × (token_sum (assemble_context count_tokens entries max_tokens) ≤ max_tokens)
  unfolding assemble_context
  assemble_context-Greedy entries =
      let (xs, g, q) =
        select_all-Greedy (by_order loading_order entries)
          (record { selected = []; current_tokens = 0 }) in
      let same : xs ≡ assemble_context count_tokens entries max_tokens =
        sym (ap (λ s. s.selected) (select_kinds-by_order entries loading_order _) ∙ q) in
      (
        subst (Greedy 0 (by_order loading_order entries)) same g,
        subst (λ ys. token_sum ys ≤ max_tokens) same
            (omega (arith, Greedy-token_sum 0 (by_order loading_order entries) xs g (omega arith))),
      )
