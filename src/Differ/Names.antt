-- ===== src/Differ/Names.antt =====
-- The keys of the maps of observer/differ.rs against the names of the entities.
use memix.Base.{
  String, ◌≡◌, refl, inl, inr, Option, none, some, List, [], ◌∷◌, arith, eq_iff, ◌==◌, number_key,
  text_key, pair_key, bool_key, Option-cases, All, if_keeps,
}
use memix.Dict.{Dict, lookup, insert, remove, values, keys, contains, contains_key}
use memix.Dict.Laws.{lookup-insert, contains-keys}
use memix.Context.{AstNodeFeature}
use memix.Differ.{old_features_map, Compared, compare_feature, compare_all, old_entities}
use memix.Differ.Patch.{names_of, or_then, last_body, old_body}
use mathlib.Core.Option

-- Each entity stands under its own name.
abbrev pub Keyed : Dict String AstNodeFeature → Type 0
Keyed m = All (λ e. e.1.name ≡ e.0) m

insert-Keyed :
    (f : AstNodeFeature) (m : Dict String AstNodeFeature) → Keyed m → Keyed (insert f.name f m)
unfolding insert
insert-Keyed f [] k = (refl, tt)
insert-Keyed f ((j, w) ∷ m) k =
    if_keeps Keyed (j == f.name) ((j, f) ∷ m) ((j, w) ∷ insert f.name f m)
      (λ t. (ground (arith, eq_iff j f.name, t), k.1)) (λ n. (k.0, insert-Keyed f m k.1))

remove-Keyed : (name : String) (m : Dict String AstNodeFeature) → Keyed m → Keyed (remove name m)
unfolding remove
remove-Keyed name [] k = tt
remove-Keyed name ((j, w) ∷ m) k =
    if_keeps Keyed (j == name) (remove name m) ((j, w) ∷ remove name m)
      (λ t. remove-Keyed name m k.1) (λ n. (k.0, remove-Keyed name m k.1))

old_features_map-Keyed :
    (m : Dict String AstNodeFeature) (fs : List AstNodeFeature)
    → Keyed m
    → Keyed (old_features_map m fs)
unfolding old_features_map
old_features_map-Keyed m [] k = k
old_features_map-Keyed m (f ∷ fs) k =
    old_features_map-Keyed (insert f.name f m) fs (insert-Keyed f m k)

pub old_entities-Keyed : (old : Option (List AstNodeFeature)) → Keyed (old_entities old)
unfolding old_entities
old_entities-Keyed none = tt
old_entities-Keyed (some fs) = old_features_map-Keyed [] fs tt

compare_feature-Keyed :
    (nf : AstNodeFeature) (c : Compared) → Keyed c.left → Keyed (compare_feature nf c).left
unfolding compare_feature
compare_feature-Keyed nf c k = elim (Option-cases (lookup nf.name c.left)) [
  | inl n ↦ rw (n, compare_feature) k
  | inr (old, s) ↦ rw (s, compare_feature) (remove-Keyed nf.name c.left k)
]

pub compare_all-Keyed :
    (c : Compared) (new : List AstNodeFeature) → Keyed c.left → Keyed (compare_all c new).left
unfolding compare_all
compare_all-Keyed c [] k = k
compare_all-Keyed c (nf ∷ nfs) k =
    compare_all-Keyed (compare_feature nf c) nfs (compare_feature-Keyed nf c k)

names-keys : (m : Dict String AstNodeFeature) → Keyed m → names_of (values m) ≡ keys m
names-keys [] k = refl
names-keys ((j, w) ∷ m) k = ground (arith, names-keys m k.1, k.0)

-- The removed entities have a name exactly when the map holds it.
pub contains-names :
    (name : String) (m : Dict String AstNodeFeature)
    → Keyed m
    → contains name (names_of (values m)) ≡ contains_key name m
contains-names name m k = rw (names-keys m k) (contains-keys name m)

-- The last of the old entities with a name stays.
lookup-old :
    (name : String) (m : Dict String AstNodeFeature) (fs : List AstNodeFeature)
    → Option.map (λ f. f.body) (lookup name (old_features_map m fs))
      ≡ or_then (last_body name fs) (Option.map (λ f. f.body) (lookup name m))
unfolding old_features_map last_body
lookup-old name m [] = refl
lookup-old name m (f ∷ fs) =
    ground (arith, lookup-old name (insert f.name f m) fs, lookup-insert f.name name f m)

pub lookup-old_entities :
    (name : String) (old : Option (List AstNodeFeature))
    → Option.map (λ f. f.body) (lookup name (old_entities old)) ≡ old_body name old
unfolding old_entities old_body lookup
lookup-old_entities name none = refl
lookup-old_entities name (some fs) = ground (arith, lookup-old name [] fs)
