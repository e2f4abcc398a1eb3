-- ===== src/Layers/Override.antt =====
-- Layers that override, in `resolve` of context/hierarchy.rs.
use memix.Base.{
  ℕ, String, ◌≡◌, refl, sym, ap, ◌∙◌, inl, inr, List, [], ◌∷◌, ◌++◌, arith, number_key, text_key,
  pair_key, bool_key, Bool-cases,
}
use memix.Layers.{
  ContextLayer, LayerContent, HierarchyResolver, Draft, Collected, ResolvedContext, merge, override,
  extend, blank, apply_layer, apply_names, applicable, resolve, merge_layer, override_layer,
  extend_layer, merge_texts, merge_text,
}
use memix.Base.{All, ◌≤◌, subst}
use memix.Layers.{new}
use memix.Layers.Order.{Call, run}
use memix.Layers.Priority.{Descending, chosen-Descending, split-Descending}
use memix.Dict.{contains, add}
use memix.Layers.Content.{chosen, apply_layers, apply_names-layers_of}

-- All of a draft but its count of conflicts.
abbrev forget : Draft → Draft
forget d = record d { conflicts_resolved = 0 }

Alike : Collected → Collected → Type 0
Alike c e = (c.texts ≡ e.texts) × (c.seen ≡ e.seen)

merge_text-Alike :
    (t : String) (c e : Collected) → Alike c e → Alike (merge_text t c) (merge_text t e)
unfolding merge_text Alike
merge_text-Alike t c e h = elim (Bool-cases (contains t c.seen)) [
  | inl b ↦ rw (b, (ap (contains t) (sym h.1) ∙ b)) h
  | inr b ↦ rw (b, (ap (contains t) (sym h.1) ∙ b)) (ap (λ xs. xs ++ t ∷ []) h.0, ap (add t) h.1)
]

merge_texts-Alike :
    (ts : List String) (c e : Collected) → Alike c e → Alike (merge_texts ts c) (merge_texts ts e)
unfolding merge_texts
merge_texts-Alike [] c e h = h
merge_texts-Alike (t ∷ ts) c e h =
    merge_texts-Alike ts (merge_text t c) (merge_text t e) (merge_text-Alike t c e h)

merge_layer-forget :
    (l : LayerContent) (d : Draft) → forget (merge_layer l (forget d)) ≡ forget (merge_layer l d)
unfolding merge_layer Alike
merge_layer-forget l d = ground (
  arith,
  merge_texts-Alike l.patterns
      (record { texts = d.patterns; seen = d.seen_patterns; conflicts = 0 })
      (record { texts = d.patterns; seen = d.seen_patterns; conflicts = d.conflicts_resolved })
      (refl, refl),
  merge_texts-Alike l.decisions
      (record {
        texts = d.decisions;
        seen = d.seen_decisions;
        conflicts = after_patterns (forget d);
      })
      (record { texts = d.decisions; seen = d.seen_decisions; conflicts = after_patterns d })
      (refl, refl),
)
  where
    after_patterns : Draft → ℕ
    after_patterns x =
        (merge_texts l.patterns (record {
          texts = x.patterns;
          seen = x.seen_patterns;
          conflicts = x.conflicts_resolved;
        })).conflicts

apply_layer-forget :
    (l : ContextLayer) (d : Draft) → forget (apply_layer l (forget d)) ≡ forget (apply_layer l d)
unfolding apply_layer override_layer extend_layer
apply_layer-forget l d =
    elim l.override_mode
      as (λ mode.
        forget (apply_layer (record l { override_mode = mode }) (forget d))
        ≡ forget (apply_layer (record l { override_mode = mode }) d)) [
          | merge ↦ merge_layer-forget l.content d
          | override ↦ refl
          | extend ↦ refl
        ]

apply_layers-forget :
    (ls : List ContextLayer) (d e : Draft)
    → forget d ≡ forget e
    → forget (apply_layers ls d) ≡ forget (apply_layers ls e)
unfolding apply_layers
apply_layers-forget [] d e h = h
apply_layers-forget (l ∷ ls) d e h =
    apply_layers-forget ls (apply_layer l d) (apply_layer l e)
      (sym (apply_layer-forget l d) ∙ ap (λ x. forget (apply_layer l x)) h ∙ apply_layer-forget l e)

apply_layers-append :
    (ls ms : List ContextLayer) (d : Draft)
    → apply_layers (ls ++ ms) d ≡ apply_layers ms (apply_layers ls d)
unfolding apply_layers
apply_layers-append [] ms d = refl
apply_layers-append (l ∷ ls) ms d = apply_layers-append ls ms (apply_layer l d)

apply_layer-override :
    (l : ContextLayer) (d : Draft)
    → l.override_mode ≡ override
    → apply_layer l d ≡ override_layer l.content d
unfolding apply_layer
apply_layer-override l d h = rw (h) refl

-- The texts and the file map that a resolved context shares with a draft.
abbrev pub HasContent : ResolvedContext → Draft → Type 0
HasContent r d =
    (r.patterns ≡ d.patterns)
    × (r.decisions ≡ d.decisions)
    × (r.rules ≡ d.rules)
    × (r.known_issues ≡ d.known_issues)
    × (r.file_map ≡ d.file_map)

resolve-HasContent :
    (ms : ℕ) (path : String) (h : HierarchyResolver) (before after : List ContextLayer)
    (l : ContextLayer)
    → chosen path h ≡ before ++ l ∷ after
    → l.override_mode ≡ override
    → HasContent (resolve ms path h) (apply_layers (l ∷ after) blank)
unfolding resolve apply_layers override_layer
resolve-HasContent ms path h before after l split mode = (
  ap (λ d. d.patterns) same,
  ap (λ d. d.decisions) same,
  ap (λ d. d.rules) same,
  ap (λ d. d.known_issues) same,
  ap (λ d. d.file_map) same,
)
  where
    start : Draft
    start = apply_layers before blank

    same :
        forget (apply_names h.layers (applicable path h) ([], blank)).1
        ≡ forget (apply_layers (l ∷ after) blank)
    same =
        ap forget (
          apply_names-layers_of h.layers (applicable path h) [] blank
          ∙ ap (λ ls. apply_layers ls blank) split
          ∙ apply_layers-append before (l ∷ after) blank)
        ∙ apply_layers-forget after (apply_layer l start) (apply_layer l blank) (
            ap forget (apply_layer-override l start mode)
            ∙ sym (ap forget (apply_layer-override l blank mode)))

-- Where, after any calls on a new resolver, a layer that overrides applies to a path, the context has
-- the content that this layer and those after it give on their own, and these have no higher priority
-- than it. Nothing is left of the layers before it, which have no lower one.
pub resolve-override :
    (cs : List Call) (ms : ℕ) (path : String) (before after : List ContextLayer) (l : ContextLayer)
    → chosen path (run new cs) ≡ before ++ l ∷ after
    → l.override_mode ≡ override
    → HasContent (resolve ms path (run new cs)) (apply_layers (l ∷ after) blank)
      × All (λ a. a.priority ≤ l.priority) after
      × All (λ b. l.priority ≤ b.priority) before
resolve-override cs ms path before after l split mode =
    let ordered =
      split-Descending before l after (subst Descending split (chosen-Descending cs path)) in
    (resolve-HasContent ms path (run new cs) before after l split mode, ordered.1, ordered.0)
