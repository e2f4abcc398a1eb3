-- ===== src/Compiler/Order.antt =====
-- The order of the sections in a packet of context/compiler.rs.
use memix.Base.{
  ℕ, ◌≤◌, String, ◌≡◌, refl, sym, ap, ◌∙◌, subst, Bool, Option, some, List, [], ◌∷◌, arith, leb,
  nat_beq, number_key, text_key, keep, count, All, map-eq-some, if_keeps,
}
use memix.Compiler.{
  Draft, BudgetContextCompiler, BudgetCompiledContext, Request, ContextSection, gather, compile,
  insert_section, sort_sections,
}

-- Each section has a priority at least as high as any after it.
abbrev pub Descending : List ContextSection → Type 0
Descending [] = Unit {0}
Descending (s ∷ ss) = All (λ t. t.priority ≤ s.priority) ss × Descending ss

All-insert :
    (m : ℕ) (s : ContextSection) (ss : List ContextSection)
    → s.priority ≤ m
    → All (λ t. t.priority ≤ m) ss
    → All (λ t. t.priority ≤ m) (insert_section s ss)
unfolding insert_section
All-insert m s [] h a = (h, tt)
All-insert m s (t ∷ ts) h a =
    if_keeps (All (λ x. x.priority ≤ m)) (leb t.priority s.priority) (s ∷ t ∷ ts)
      (t ∷ insert_section s ts) (λ b. (h, a)) (λ b. (a.0, All-insert m s ts h a.1))

All-le :
    (m n : ℕ) (ss : List ContextSection)
    → m ≤ n
    → All (λ t. t.priority ≤ m) ss
    → All (λ t. t.priority ≤ n) ss
All-le m n [] h a = tt
All-le m n (t ∷ ts) h a = (omega arith, All-le m n ts h a.1)

insert-Descending :
    (s : ContextSection) (ss : List ContextSection)
    → Descending ss
    → Descending (insert_section s ss)
unfolding insert_section
insert-Descending s [] d = (tt, tt)
insert-Descending s (t ∷ ts) d =
    if_keeps Descending (leb t.priority s.priority) (s ∷ t ∷ ts) (t ∷ insert_section s ts)
      (λ h. ((ground arith, All-le t.priority s.priority ts (ground arith) d.0), d))
      (λ h. (All-insert t.priority s ts (ground arith) d.0, insert-Descending s ts d.1))

sort-Descending : (ss : List ContextSection) → Descending (sort_sections ss)
unfolding sort_sections
sort-Descending [] = tt
sort-Descending (s ∷ ss) = insert-Descending s (sort_sections ss) (sort-Descending ss)

abbrev pub has_priority : ℕ → ContextSection → Bool
has_priority p s = nat_beq s.priority p

keep-insert :
    (p : ℕ) (s : ContextSection) (ss : List ContextSection)
    → keep (has_priority p) (insert_section s ss) ≡ keep (has_priority p) (s ∷ ss)
unfolding insert_section
keep-insert p s [] = refl
keep-insert p s (t ∷ ts) = ground (arith, keep-insert p s ts)

keep-sort :
    (p : ℕ) (ss : List ContextSection)
    → keep (has_priority p) (sort_sections ss) ≡ keep (has_priority p) ss
unfolding sort_sections
keep-sort p [] = refl
keep-sort p (s ∷ ss) = ground (arith, keep-insert p s (sort_sections ss), keep-sort p ss)

count-insert :
    (q : ContextSection → Bool) (s : ContextSection) (ss : List ContextSection)
    → count q (insert_section s ss) ≡ count q (s ∷ ss)
unfolding insert_section
count-insert q s [] = refl
count-insert q s (t ∷ ts) = ground (arith, count-insert q s ts)

pub count-sort :
    (q : ContextSection → Bool) (ss : List ContextSection) → count q (sort_sections ss) ≡ count q ss
unfolding sort_sections
count-sort q [] = refl
count-sort q (s ∷ ss) = omega (arith, count-insert q s (sort_sections ss), count-sort q ss)

-- The packet holds the sections that the phases gathered, by descending priority; those of one
-- priority stay in the order in which they were gathered.
pub compile-sorted :
    (simple_hash : String → String) (read_to_string : String → Option String) {Score : Type 0}
    (c : BudgetContextCompiler Score) (r : Request) (ms : ℕ) (out : BudgetCompiledContext)
    (c' : BudgetContextCompiler Score)
    → compile simple_hash read_to_string c r ms ≡ some (out, c')
    → (d : Draft) × (gather simple_hash read_to_string c r ≡ some d)
      × Descending out.sections
      × ((p : ℕ) → keep (has_priority p) out.sections ≡ keep (has_priority p) d.sections)
unfolding compile
compile-sorted hash read c r ms out c' q =
    let (d, g, e) = map-eq-some _ (gather hash read c r) q in
    let same : sort_sections d.sections ≡ out.sections = ap (λ x. x.0.sections) e in
    (
      d,
      g,
      subst Descending same (sort-Descending d.sections),
      λ p. ap (keep (has_priority p)) (sym same) ∙ keep-sort p d.sections,
    )
