-- ===== src/Layers/Content.antt =====
-- What `resolve` of context/hierarchy.rs makes of the layers that apply.
use memix.Base.{
  ℕ, String, ◌≡◌, refl, ap, ◌∙◌, inl, inr, Option, none, some, List, [], ◌∷◌, ◌++◌, arith, eq_iff,
  number_key, text_key, pair_key, bool_key, Option-cases, All,
}
use memix.Layers.{
  ContextLayer, HierarchyResolver, Draft, merge, override, extend, blank, apply_layer, apply_names,
  applicable, resolve, extend_map, merge_layer, override_layer, extend_layer,
}
use memix.Dict.{Dict, insert, lookup, keys, contains}
use memix.Dict.Laws.{lookup-insert}
use memix.Dict.Entries.{NoRepeat, lookup-absent}

-- The layers of these names.
abbrev pub layers_of : Dict String ContextLayer → List String → List ContextLayer
layers_of layers [] = []
layers_of layers (n ∷ ns) =
    let rest = layers_of layers ns in elim (lookup n layers) [ none ↦ rest | some l ↦ l ∷ rest ]

abbrev pub chosen : String → HierarchyResolver → List ContextLayer
chosen path h = layers_of h.layers (applicable path h)

unfoldable pub apply_layers : List ContextLayer → Draft → Draft
apply_layers [] d = d
apply_layers (l ∷ ls) d = apply_layers ls (apply_layer l d)

pub apply_names-layers_of :
    (layers : Dict String ContextLayer) (ns : List String) (seen : List String) (d : Draft)
    → (apply_names layers ns (seen, d)).1 ≡ apply_layers (layers_of layers ns) d
unfolding apply_names apply_layers
apply_names-layers_of layers [] seen d = refl
apply_names-layers_of layers (n ∷ ns) seen d = elim (Option-cases (lookup n layers)) [
  | inl e ↦ rw (e, apply_names, layers_of) (apply_names-layers_of layers ns seen d)
  | inr (l, e) ↦
      rw (e, apply_names, layers_of)
        (apply_names-layers_of layers ns (seen ++ n ∷ []) (apply_layer l d))
]

-- What the file map has for a file: a layer that has the file decides over those before it, and one
-- that overrides forgets them.
abbrev pub first_of : Option String → Option String → Option String
first_of none o = o
first_of (some v) o = some v

abbrev pub file_in : String → List ContextLayer → Option String → Option String
file_in f [] before = before
file_in f (l ∷ ls) before = file_in f ls (elim l.override_mode [
  | merge ↦ first_of (lookup f l.content.file_map) before
  | override ↦ lookup f l.content.file_map
  | extend ↦ first_of (lookup f l.content.file_map) before
])

-- A file stands once in the map of a layer, as in any map.
abbrev pub HasFilesOnce : ContextLayer → Type 0
HasFilesOnce l = NoRepeat (keys l.content.file_map)

lookup-extend_map :
    (f : String) (entries m : Dict String String)
    → NoRepeat (keys entries)
    → lookup f (extend_map entries m) ≡ first_of (lookup f entries) (lookup f m)
unfolding extend_map lookup contains
lookup-extend_map f [] m n = refl
lookup-extend_map f ((k, v) ∷ rest) m n = ground (
  arith,
  lookup-extend_map f rest (insert k v m) n.1,
  lookup-insert k f v m,
  lookup-absent k rest n.0,
  eq_iff k f,
)

lookup-apply_layer :
    (f : String) (l : ContextLayer) (d : Draft)
    → HasFilesOnce l
    → lookup f (apply_layer l d).file_map ≡ file_in f (l ∷ []) (lookup f d.file_map)
unfolding apply_layer merge_layer override_layer extend_layer
lookup-apply_layer f l d n =
    elim l.override_mode
      as (λ mode.
        lookup f (apply_layer (record l { override_mode = mode }) d).file_map
        ≡ file_in f (record l { override_mode = mode } ∷ []) (lookup f d.file_map)) [
          | merge ↦ lookup-extend_map f l.content.file_map d.file_map n
          | override ↦ refl
          | extend ↦ lookup-extend_map f l.content.file_map d.file_map n
        ]

lookup-apply_layers :
    (f : String) (ls : List ContextLayer) (d : Draft)
    → All HasFilesOnce ls
    → lookup f (apply_layers ls d).file_map ≡ file_in f ls (lookup f d.file_map)
unfolding apply_layers
lookup-apply_layers f [] d n = refl
lookup-apply_layers f (l ∷ ls) d n =
    lookup-apply_layers f ls (apply_layer l d) n.1
    ∙ ap (file_in f ls) (lookup-apply_layer f l d n.0)

-- The resolved file map has, for a file, what the last layer that has it gives.
pub lookup-resolve :
    (ms : ℕ) (path : String) (h : HierarchyResolver) (f : String)
    → All HasFilesOnce (chosen path h)
    → lookup f (resolve ms path h).file_map ≡ file_in f (chosen path h) none
unfolding resolve lookup
lookup-resolve ms path h f n =
    ap (λ d. lookup f d.file_map) (apply_names-layers_of h.layers (applicable path h) [] blank)
    ∙ lookup-apply_layers f (chosen path h) blank n
