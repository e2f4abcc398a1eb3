-- ===== src/Layers/Merge.antt =====
-- Layers that merge, in `resolve` of context/hierarchy.rs.
use memix.Base.{
  ℕ, ◌+◌, String, ◌≡◌, refl, sym, ap, ◌∙◌, subst, false, List, [], ◌∷◌, ◌++◌, arith, number_key,
  text_key, pair_key, bool_key, length, length-append, All, if_keeps,
}
use memix.Layers.{
  ContextLayer, LayerContent, HierarchyResolver, Draft, Collected, merge, blank, apply_layer,
  apply_names, applicable, resolve, merge_layer, merge_texts, merge_text,
}
use memix.Layers.Content.{chosen, apply_layers, apply_names-layers_of}
use memix.Base.{not, ◌==◌, eq_iff, keep, keep-append, append_none, append_assoc, if◌then◌else◌}
use memix.Dict.Laws.{contains-keep}
use memix.Dict.{contains, add}
use memix.Dict.Entries.{NoRepeat, append-NoRepeat}

add-absent : (t : String) (xs : List String) → contains t xs ≡ false → add t xs ≡ xs ++ t ∷ []
unfolding add contains
add-absent t [] h = refl
add-absent t (x ∷ xs) h = ground (arith, add-absent t xs, h)

-- The texts without those that stand before.
abbrev pub first_times : List String → List String
first_times [] = []
first_times (x ∷ xs) = x ∷ keep (λ y. not (y == x)) (first_times xs)

contains-first_times : (t : String) (xs : List String) → contains t (first_times xs) ≡ contains t xs
unfolding contains
contains-first_times t [] = refl
contains-first_times t (x ∷ xs) = ground (
  arith,
  contains-first_times t xs,
  contains-keep (λ y. not (y == x)) t (first_times xs),
  eq_iff x t,
  eq_iff t x,
)

first_times-append :
    (t : String) (xs : List String)
    → first_times (xs ++ t ∷ [])
      ≡ (if contains t xs then first_times xs else first_times xs ++ t ∷ [])
unfolding contains
first_times-append t [] = refl
first_times-append t (x ∷ xs) = ground (
  arith,
  first_times-append t xs,
  keep-append (λ y. not (y == x)) (first_times xs) (t ∷ []),
  append_none (keep (λ y. not (y == x)) (first_times xs)),
  eq_iff x t,
  eq_iff t x,
)

-- The collected texts are those seen, each once: the given texts without those that stand before.
record IsCollection (past : List String) (n : ℕ) (c : Collected) : Type 0 where
  pub seen : c.seen ≡ c.texts
  pub once : NoRepeat c.texts
  pub firsts : c.texts ≡ first_times past
  pub given : length c.texts + c.conflicts ≡ n

merge_text-IsCollection :
    (t : String) (past : List String) (n : ℕ) (c : Collected)
    → IsCollection past n c
    → IsCollection (past ++ t ∷ []) (n + 1) (merge_text t c)
unfolding merge_text
merge_text-IsCollection t past n c h =
    let known : contains t c.seen ≡ contains t past =
      ap (contains t) (h.seen ∙ h.firsts) ∙ contains-first_times t past in
    if_keeps (IsCollection (past ++ t ∷ []) (n + 1)) (contains t c.seen)
      (record c { conflicts = c.conflicts + 1 })
      (record c { texts = c.texts ++ t ∷ []; seen = add t c.seen })
      (λ b. record {
        seen = h.seen;
        once = h.once;
        firsts = ground (arith, h.firsts, first_times-append t past, known, b);
        given = omega (arith, h.given);
      })
      (λ b.
        let absent : contains t c.texts ≡ false = ap (contains t) (sym h.seen) ∙ b in
        record {
          seen = ap (add t) h.seen ∙ add-absent t c.texts absent;
          once = append-NoRepeat t c.texts absent h.once;
          firsts = ground (arith, h.firsts, first_times-append t past, known, b);
          given = omega (arith, h.given, length-append c.texts (t ∷ []));
        })

merge_texts-IsCollection :
    (ts past : List String) (n : ℕ) (c : Collected)
    → IsCollection past n c
    → IsCollection (past ++ ts) (n + length ts) (merge_texts ts c)
unfolding merge_texts
merge_texts-IsCollection [] past n c h = record {
  seen = h.seen;
  once = h.once;
  firsts = h.firsts ∙ ap first_times (sym (append_none past));
  given = omega (arith, h.given);
}
merge_texts-IsCollection (t ∷ ts) past n c h =
    let rest =
      merge_texts-IsCollection ts (past ++ t ∷ []) (n + 1) (merge_text t c)
        (merge_text-IsCollection t past n c h) in
    record {
      seen = rest.seen;
      once = rest.once;
      firsts = rest.firsts ∙ ap first_times (append_assoc past (t ∷ []) ts);
      given = omega (arith, rest.given);
    }

-- The patterns and the decisions that these layers give, in their order.
abbrev pub given_patterns : List ContextLayer → List String
given_patterns [] = []
given_patterns (l ∷ ls) = l.content.patterns ++ given_patterns ls

abbrev pub given_decisions : List ContextLayer → List String
given_decisions [] = []
given_decisions (l ∷ ls) = l.content.decisions ++ given_decisions ls

record IsMerged (ps qs : List String) (d : Draft) : Type 0 where
  pub seen_patterns : d.seen_patterns ≡ d.patterns
  pub seen_decisions : d.seen_decisions ≡ d.decisions
  pub patterns_once : NoRepeat d.patterns
  pub decisions_once : NoRepeat d.decisions
  pub first_patterns : d.patterns ≡ first_times ps
  pub first_decisions : d.decisions ≡ first_times qs
  pub counted :
      length d.patterns + length d.decisions + d.conflicts_resolved ≡ length ps + length qs

merge_layer-IsMerged :
    (c : LayerContent) (ps qs : List String) (d : Draft)
    → IsMerged ps qs d
    → IsMerged (ps ++ c.patterns) (qs ++ c.decisions) (merge_layer c d)
unfolding merge_layer
merge_layer-IsMerged c ps qs d h =
    let p =
      merge_texts-IsCollection c.patterns ps (length d.patterns + d.conflicts_resolved)
        (record { texts = d.patterns; seen = d.seen_patterns; conflicts = d.conflicts_resolved })
        (record {
          seen = h.seen_patterns;
          once = h.patterns_once;
          firsts = h.first_patterns;
          given = refl;
        }) in
    let q =
      merge_texts-IsCollection c.decisions qs (length d.decisions + between)
        (record { texts = d.decisions; seen = d.seen_decisions; conflicts = between })
        (record {
          seen = h.seen_decisions;
          once = h.decisions_once;
          firsts = h.first_decisions;
          given = refl;
        }) in
    record {
      seen_patterns = p.seen;
      seen_decisions = q.seen;
      patterns_once = p.once;
      decisions_once = q.once;
      first_patterns = p.firsts;
      first_decisions = q.firsts;
      counted = omega (
        arith,
        p.given,
        q.given,
        h.counted,
        length-append ps c.patterns,
        length-append qs c.decisions,
      );
    }
  where
    between : ℕ
    between =
        (merge_texts c.patterns (record {
          texts = d.patterns;
          seen = d.seen_patterns;
          conflicts = d.conflicts_resolved;
        })).conflicts

apply_layer-merge :
    (l : ContextLayer) (d : Draft)
    → l.override_mode ≡ merge
    → merge_layer l.content d ≡ apply_layer l d
unfolding apply_layer
apply_layer-merge l d h = rw (h) refl

apply_layers-IsMerged :
    (ls : List ContextLayer) (ps qs : List String) (d : Draft)
    → All (λ l. l.override_mode ≡ merge) ls
    → IsMerged ps qs d
    → IsMerged (ps ++ given_patterns ls) (qs ++ given_decisions ls) (apply_layers ls d)
unfolding apply_layers
apply_layers-IsMerged [] ps qs d a h = rw (append_none ps, append_none qs) h
apply_layers-IsMerged (l ∷ ls) ps qs d a h =
    let next =
      subst (IsMerged (ps ++ l.content.patterns) (qs ++ l.content.decisions))
        (apply_layer-merge l d a.0) (merge_layer-IsMerged l.content ps qs d h) in
    rw⁻¹
      (
        append_assoc ps l.content.patterns (given_patterns ls),
        append_assoc qs l.content.decisions (given_decisions ls),
      )
      (apply_layers-IsMerged ls (ps ++ l.content.patterns) (qs ++ l.content.decisions)
        (apply_layer l d) a.1 next)

-- Where all the layers that apply merge, the resolved patterns are those that the layers give, from
-- the first layer to the last, without those that stand before, and so are the decisions; none is
-- there twice. The conflicts count the ones left out: with them the resolved patterns and decisions
-- are as many as the layers give.
pub resolve-merge :
    (ms : ℕ) (path : String) (h : HierarchyResolver)
    → All (λ l. l.override_mode ≡ merge) (chosen path h)
    → let r = resolve ms path h in
      (r.patterns ≡ first_times (given_patterns (chosen path h)))
      × (r.decisions ≡ first_times (given_decisions (chosen path h)))
      × NoRepeat r.patterns
      × NoRepeat r.decisions
      × (length r.patterns + length r.decisions + r.metadata.conflicts_resolved
          ≡ length (given_patterns (chosen path h)) + length (given_decisions (chosen path h)))
unfolding resolve
resolve-merge ms path h a =
    let m = apply_layers-IsMerged (chosen path h) [] [] blank a (record {
      seen_patterns = refl;
      seen_decisions = refl;
      patterns_once = tt;
      decisions_once = tt;
      first_patterns = refl;
      first_decisions = refl;
      counted = refl;
    }) in
    let d : IsMerged (given_patterns (chosen path h)) (given_decisions (chosen path h))
        (apply_names h.layers (applicable path h) ([], blank)).1 =
      subst (IsMerged (given_patterns (chosen path h)) (given_decisions (chosen path h)))
        (sym (apply_names-layers_of h.layers (applicable path h) [] blank)) m in
    (d.first_patterns, d.first_decisions, d.patterns_once, d.decisions_once, d.counted)
