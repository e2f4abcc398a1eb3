-- ===== src/Differ/Patch.antt =====
-- The difference of observer/differ.rs, applied to the old entities.
use memix.Base.{
  String, ◌≡◌, refl, ◌∙◌, inl, inr, false, Option, none, some, List, [], ◌∷◌, ◌++◌, map, arith,
  if◌then◌else◌, ◌==◌, number_key, text_key, pair_key, bool_key, Option-cases,
}
use memix.Dict.{lookup, contains}
use memix.Dict.Laws.{lookup-remove}
use memix.Context.{AstNodeFeature}
use memix.Differ.{SemanticDiff, Compared, compare_feature}

-- The body of the entity of a name.
unfoldable pub body_in : String → List AstNodeFeature → Option String
body_in name [] = none
body_in name (f ∷ fs) = if f.name == name then some f.body else body_in name fs

abbrev pub names_of : List AstNodeFeature → List String
names_of fs = map (λ f. f.name) fs

abbrev pub or_then : Option String → Option String → Option String
or_then (some a) b = some a
or_then none b = b

-- The body of the last entity of a name.
unfoldable pub last_body : String → List AstNodeFeature → Option String
last_body name [] = none
last_body name (f ∷ fs) = or_then (last_body name fs) (if f.name == name then some f.body else none)

-- The body that a name had before the change.
unfoldable pub old_body : String → Option (List AstNodeFeature) → Option String
unfolding last_body
old_body name none = none
old_body name (some fs) = last_body name fs

-- The body that a name has after the change: an added or modified one, none if it was removed, else the
-- old one.
unfoldable pub patched : SemanticDiff → Option (List AstNodeFeature) → String → Option String
unfolding body_in old_body
patched d old name = or_then (body_in name d.nodes_added) (
    or_then (body_in name d.nodes_modified)
      (if contains name (names_of d.nodes_removed) then none else old_body name old))

pub body_in-append :
    (name : String) (fs gs : List AstNodeFeature)
    → body_in name (fs ++ gs) ≡ or_then (body_in name fs) (body_in name gs)
unfolding body_in
body_in-append name [] gs = refl
body_in-append name (f ∷ fs) gs = ground (arith, body_in-append name fs gs)

-- What the loop knows of one name.
pub record View (name : String) (c d : Compared) : Type 0 where
  pub left : lookup name d.left ≡ lookup name c.left
  pub added : body_in name d.added ≡ body_in name c.added
  pub modified : body_in name d.modified ≡ body_in name c.modified

pub View-trans : {name : String} {c d e : Compared} → View name c d → View name d e → View name c e
View-trans v w = record {
  left = w.left ∙ v.left;
  added = w.added ∙ v.added;
  modified = w.modified ∙ v.modified;
}

pub compare_other :
    (name : String) (nf : AstNodeFeature) (c : Compared)
    → nf.name == name ≡ false
    → View name c (compare_feature nf c)
unfolding compare_feature body_in
compare_other name nf c h = elim (Option-cases (lookup nf.name c.left)) [
  | inl n ↦
      rw (n, compare_feature)
        (record {
          left = refl;
          added = ground (arith, body_in-append name c.added (nf ∷ []), h);
          modified = refl;
        })
  | inr (old, s) ↦
      rw (s, compare_feature)
        (record {
          left = ground (arith, lookup-remove nf.name name c.left, h);
          added = refl;
          modified = ground (
            arith,
            body_in-append name c.modified (if old.body == nf.body then [] else nf ∷ []),
            h,
          );
        })
]
