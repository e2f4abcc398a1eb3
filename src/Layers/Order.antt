-- ===== src/Layers/Order.antt =====
-- The order of the layers in context/hierarchy.rs after any sequence of calls.
use memix.Base.{
  suc, String, ◌≡◌, refl, sym, ap, ◌∙◌, subst, true, false, some, List, [], ◌∷◌, map, arith,
  if◌then◌else◌, ◌==◌, number_key, text_key, pair_key, bool_key, length, All, insert_by, sort_by,
  Sorted, All-sort_by, sort_by-Sorted,
}
use memix.Layers.{
  ContextLayer, HierarchyResolver, new, above, rebuild_order, register_layer, remove_layer, clear,
}
use memix.Dict.{Dict, lookup, contains, contains_key, keys}
use memix.Dict.Laws.{contains-keys}
use memix.Dict.Entries.{NoRepeat, add-NoRepeat, keys-insert, remove-NoRepeat, All-lookup}

pub data Call : Type 0 where
  registers : ContextLayer → Call
  removes : String → Call
  clears : Call

unfoldable pub apply : HierarchyResolver → Call → HierarchyResolver
apply h (registers layer) = register_layer layer h
apply h (removes name) = remove_layer name h
apply h clears = clear h

unfoldable pub run : HierarchyResolver → List Call → HierarchyResolver
run h [] = h
run h (c ∷ cs) = run (apply h c) cs

abbrev names : Dict String ContextLayer → List String
names = map (λ p. p.0)

-- `layer_order` is the names of these entries.
pub record IsOrdered (h : HierarchyResolver) : Type 0 where
  pub entries : Dict String ContextLayer
  pub order : map (λ p. p.0) entries ≡ h.layer_order
  pub sorted : Sorted above entries
  pub registered : All (λ p. lookup p.0 h.layers ≡ some p.1) entries
  pub listed : (n : String) → contains n h.layer_order ≡ contains_key n h.layers
  pub once : length h.layer_order ≡ length h.layers

abbrev IsBuilt : HierarchyResolver → Type 0
IsBuilt h = (h.layer_order ≡ rebuild_order h.layers) × NoRepeat (keys h.layers)

apply-IsBuilt : (c : Call) (h : HierarchyResolver) → IsBuilt h → IsBuilt (apply h c)
unfolding apply register_layer remove_layer clear rebuild_order
apply-IsBuilt (registers layer) h b = (
  refl,
  subst NoRepeat (sym (keys-insert layer.name layer h.layers))
      (add-NoRepeat layer.name (keys h.layers) b.1),
)
apply-IsBuilt (removes name) h b = (refl, remove-NoRepeat name h.layers b.1)
apply-IsBuilt clears h b = (refl, tt)

run-IsBuilt : (cs : List Call) (h : HierarchyResolver) → IsBuilt h → IsBuilt (run h cs)
unfolding run
run-IsBuilt [] h b = b
run-IsBuilt (c ∷ cs) h b = run-IsBuilt cs (apply h c) (apply-IsBuilt c h b)

above-total : (a b : String × ContextLayer) → above a b ≡ false → above b a ≡ true
above-total a b h = ground arith

above_trans :
    (a b c : String × ContextLayer) → above a b ≡ true → above b c ≡ true → above a c ≡ true
above_trans a b c h k = ground arith

contains-insert_names :
    (n : String) (p : String × ContextLayer) (es : Dict String ContextLayer)
    → contains n (names (insert_by above p es)) ≡ (if p.0 == n then true else contains n (names es))
unfolding contains
contains-insert_names n p [] = refl
contains-insert_names n p (q ∷ es) = ground (arith, contains-insert_names n p es)

contains-sorted_names :
    (n : String) (es : Dict String ContextLayer)
    → contains n (names (sort_by above es)) ≡ contains n (keys es)
unfolding contains
contains-sorted_names n [] = refl
contains-sorted_names n (p ∷ es) =
    ground (arith, contains-insert_names n p (sort_by above es), contains-sorted_names n es)

length-insert_names :
    (p : String × ContextLayer) (es : Dict String ContextLayer)
    → length (names (insert_by above p es)) ≡ suc (length (names es))
length-insert_names p [] = refl
length-insert_names p (q ∷ es) = ground (arith, length-insert_names p es)

length-sorted_names :
    (es : Dict String ContextLayer) → length (names (sort_by above es)) ≡ length es
length-sorted_names [] = refl
length-sorted_names (p ∷ es) =
    omega (arith, length-insert_names p (sort_by above es), length-sorted_names es)

IsBuilt-IsOrdered : (h : HierarchyResolver) → IsBuilt h → IsOrdered h
unfolding rebuild_order
IsBuilt-IsOrdered h b = record {
  entries = sort_by above h.layers;
  order = sym b.0;
  sorted = sort_by-Sorted above above-total above_trans h.layers;
  registered =
      All-sort_by above (λ p. lookup p.0 h.layers ≡ some p.1) h.layers (All-lookup h.layers b.1);
  listed = λ n. ap (contains n) b.0 ∙ contains-sorted_names n h.layers ∙ contains-keys n h.layers;
  once = ap length b.0 ∙ length-sorted_names h.layers;
}

-- After any sequence of `register_layer`, `remove_layer` and `clear` on a new resolver, `layer_order`
-- has the names of the registered layers and no other, as many as the layers are, and the layers
-- that they name stand by descending priority.
pub run-IsOrdered : (cs : List Call) → IsOrdered (run new cs)
unfolding rebuild_order
run-IsOrdered cs = IsBuilt-IsOrdered (run new cs) (run-IsBuilt cs new (refl, tt))
