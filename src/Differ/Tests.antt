-- ===== src/Differ/Tests.antt =====
-- Differences of observer/differ.rs at concrete entities.
use memix.Base.{String, ◌≡◌, refl, true, none, some, List, [], ◌∷◌, text_key}
use memix.Dict.{contains, lookup, insert, remove}
use memix.Context.{AstNodeFeature}
use memix.Differ.{compute_diff}
use memix.Differ.Patch.{names_of, patched, body_in}
use memix.Differ.RoundTrip.{patched-compute_diff}

abbrev entity : String → String → AstNodeFeature
entity name body = record {
  name = name;
  kind = "function";
  body = body;
  start_byte = 0;
  end_byte = 10;
  language = "rust";
  cyclomatic_complexity = 1;
  pattern_tags = [];
  is_exported = true;
  calls = [];
  line_count = none;
}

abbrev before_edit : List AstNodeFeature
before_edit = entity "open" "a" ∷ entity "close" "b" ∷ entity "poll" "c" ∷ []

-- One entity is changed, one is removed, one is new.
abbrev after_edit : List AstNodeFeature
after_edit = entity "poll" "d" ∷ entity "open" "a" ∷ entity "wait" "e" ∷ []

sorted_out :
    names_of (compute_diff "io.rs" (some before_edit) after_edit).nodes_removed ≡ "close" ∷ []
unfolding compute_diff lookup insert remove
sorted_out = refl

-- Two entities of one name, none of them edited: the second counts as added.
same_name_twice :
    names_of
      (compute_diff "io.rs"
        (some (entity "new" "a" ∷ entity "new" "b" ∷ []))
        (entity "new" "a" ∷ entity "new" "b" ∷ [])).nodes_added
    ≡ "new" ∷ []
unfolding compute_diff lookup insert remove
same_name_twice = refl

patched-compute_diff_example :
    patched (compute_diff "io.rs" (some before_edit) after_edit) (some before_edit) "poll"
    ≡ some "d"
unfolding contains body_in
patched-compute_diff_example =
    patched-compute_diff "io.rs" (some before_edit) after_edit "poll" (refl, (refl, (refl, tt)))
