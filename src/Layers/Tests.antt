-- ===== src/Layers/Tests.antt =====
-- The layers on a concrete hierarchy.
use memix.Base.{
  ℕ, ◌+◌, String, ◌≡◌, refl, sym, subst, none, List, [], ◌∷◌, number_key, text_key, pair_key,
  bool_key, length, All,
}
use memix.Layers.{
  ContextLayer, HierarchyResolver, OverrideMode, merge, override, blank, new, resolve, applies,
}
use memix.Layers.Order.{registers, removes, IsOrdered, run, run-IsOrdered}
use memix.Base.{◌≤◌}
use memix.Layers.{rebuild_order, register_layer}
use memix.Dict.{insert}
use memix.Layers.Order.{Call, apply}
use memix.Layers.Priority.{Descending}
use memix.Layers.Files.{resolve-file_in}
use memix.Layers.Content.{chosen, file_in, HasFilesOnce, apply_layers}
use memix.Layers.Override.{HasContent, resolve-override}
use memix.Layers.Merge.{resolve-merge}
use memix.Dict.{lookup, contains}
use memix.Dict.Entries.{NoRepeat}

abbrev layer : String → String → ℕ → OverrideMode → List String → String → ContextLayer
layer name path priority mode patterns purpose = record {
  name = name;
  path = path;
  priority = priority;
  parent = none;
  content = record {
    patterns = patterns;
    decisions = [];
    rules = [];
    known_issues = [];
    file_map = ("src/app.ts", purpose) ∷ [];
  };
  override_mode = mode;
}

abbrev own : ContextLayer
own = layer "own" "src" 9 merge ("hooks" ∷ "async" ∷ []) "the app"

abbrev shared : ContextLayer
shared = layer "shared" "" 1 merge ("async" ∷ []) "some file"

abbrev strict : ContextLayer
strict = layer "strict" "" 1 override ("async" ∷ []) "some file"

abbrev two : ContextLayer → HierarchyResolver
two base = record {
  layers = ("shared", base) ∷ ("own", own) ∷ [];
  layer_order = "own" ∷ "shared" ∷ [];
}

run-IsOrdered_example : IsOrdered (run new (registers shared ∷ registers own ∷ removes "old" ∷ []))
run-IsOrdered_example = run-IsOrdered (registers shared ∷ registers own ∷ removes "old" ∷ [])

chosen-shared : chosen "src/app.ts" (two shared) ≡ own ∷ shared ∷ []
unfolding applies lookup
chosen-shared = refl

abbrev calls : ContextLayer → List Call
calls base = registers base ∷ registers own ∷ []

chosen_shared : chosen "src/app.ts" (run new (calls shared)) ≡ own ∷ shared ∷ []
unfolding applies lookup run rebuild_order insert apply register_layer
chosen_shared = refl

chosen_strict : chosen "src/app.ts" (run new (calls strict)) ≡ own ∷ strict ∷ []
unfolding applies lookup run rebuild_order insert apply register_layer
chosen_strict = refl

files_once : All HasFilesOnce (chosen "src/app.ts" (run new (calls shared)))
unfolding contains
files_once = subst (All HasFilesOnce) (sym chosen_shared) ((refl, tt), ((refl, tt), tt))

all_merge : All (λ l. l.override_mode ≡ merge) (chosen "src/app.ts" (two shared))
all_merge = subst (All (λ l. l.override_mode ≡ merge)) (sym chosen-shared) (refl, (refl, tt))

resolve-file_in_example :
    (lookup "src/app.ts" (resolve 0 "src/app.ts" (run new (calls shared))).file_map
      ≡ file_in "src/app.ts" (chosen "src/app.ts" (run new (calls shared))) none)
    × Descending (chosen "src/app.ts" (run new (calls shared)))
resolve-file_in_example = resolve-file_in (calls shared) 0 "src/app.ts" "src/app.ts" files_once

resolve-override_example :
    HasContent (resolve 0 "src/app.ts" (run new (calls strict))) (apply_layers (strict ∷ []) blank)
    × Unit {0}
    × ((1 ≤ 9) × Unit {0})
resolve-override_example =
    resolve-override (calls strict) 0 "src/app.ts" (own ∷ []) [] strict chosen_strict refl

resolve-merge_example :
    let r = resolve 0 "src/app.ts" (two shared) in
    (r.patterns ≡ "hooks" ∷ "async" ∷ [])
    × (r.decisions ≡ [])
    × NoRepeat r.patterns
    × NoRepeat r.decisions
    × (length r.patterns + length r.decisions + r.metadata.conflicts_resolved ≡ 3)
unfolding applies lookup
resolve-merge_example = resolve-merge 0 "src/app.ts" (two shared) all_merge
