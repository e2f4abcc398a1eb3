-- ===== src/Layers/Priority.antt =====
-- The layers that apply to a path, in context/hierarchy.rs, against their priorities.
use memix.Base.{
  ◌≤◌, String, ◌≡◌, ◌++◌, subst, inl, inr, Bool, true, some, List, [], ◌∷◌, map, arith, text_key,
  Bool-cases, All, Sorted, keep,
}
use memix.Layers.{ContextLayer, new, above, applies, applicable}
use memix.Layers.Content.{layers_of, chosen}
use memix.Layers.Order.{Call, run, run-IsOrdered}
use memix.Dict.{Dict, lookup}

-- No layer has a higher priority than one before it.
abbrev pub Descending : List ContextLayer → Type 0
Descending [] = Unit {0}
Descending (l ∷ ls) = All (λ a. a.priority ≤ l.priority) ls × Descending ls

abbrev Registered : Dict String ContextLayer → Dict String ContextLayer → Type 0
Registered layers es = All (λ p. lookup p.0 layers ≡ some p.1) es

module _ (q : String → Bool) (layers : Dict String ContextLayer) where
  abbrev kept_layers : Dict String ContextLayer → List ContextLayer
  kept_layers es = layers_of layers (keep q (map (λ p. p.0) es))

  All-kept_layers :
      (P : ContextLayer → Type 0) (es : Dict String ContextLayer)
      → Registered layers es
      → All (λ p. P p.1) es
      → All P (kept_layers es)
  All-kept_layers P [] r a = tt
  All-kept_layers P ((n, l) ∷ es) r a = elim (Bool-cases (q n)) [
    | inl t ↦ rw (t, layers_of, r.0) (a.0, All-kept_layers P es r.1 a.1)
    | inr f ↦ rw f (All-kept_layers P es r.1 a.1)
  ]

  all_below :
      (p : String × ContextLayer) (es : Dict String ContextLayer)
      → All (λ y. above p y ≡ true) es
      → All (λ y. (y.1).priority ≤ (p.1).priority) es
  all_below p [] a = tt
  all_below p (e ∷ es) a = (ground (arith, a.0), all_below p es a.1)

  kept_layers-Descending :
      (es : Dict String ContextLayer)
      → Registered layers es
      → Sorted above es
      → Descending (kept_layers es)
  kept_layers-Descending [] r s = tt
  kept_layers-Descending ((n, l) ∷ es) r s = elim (Bool-cases (q n)) [
    | inl t ↦
        rw (t, layers_of, r.0)
          (
            All-kept_layers (λ a. a.priority ≤ l.priority) es r.1 (all_below (n, l) es s.0),
            kept_layers-Descending es r.1 s.1,
          )
    | inr f ↦ rw f (kept_layers-Descending es r.1 s.1)
  ]

pub chosen-Descending : (cs : List Call) (path : String) → Descending (chosen path (run new cs))
unfolding applicable run
chosen-Descending cs path =
    let o = run-IsOrdered cs in
    subst (λ ns. Descending (layers_of (run new cs).layers (keep (applies path (run new cs)) ns)))
      o.order
      (kept_layers-Descending (applies path (run new cs)) (run new cs).layers o.entries o.registered
        o.sorted)

-- The layers before and after one of them.
pub split-Descending :
    (before : List ContextLayer) (l : ContextLayer) (after : List ContextLayer)
    → Descending (before ++ l ∷ after)
    → All (λ b. l.priority ≤ b.priority) before × All (λ a. a.priority ≤ l.priority) after
split-Descending [] l after d = (tt, d.0)
split-Descending (b ∷ bs) l after d =
    let rest = split-Descending bs l after d.1 in ((at_middle bs d.0, rest.0), rest.1)
  where
    at_middle :
        (xs : List ContextLayer)
        → All (λ a. a.priority ≤ b.priority) (xs ++ l ∷ after)
        → l.priority ≤ b.priority
    at_middle [] a = a.0
    at_middle (x ∷ xs) a = at_middle xs a.1
