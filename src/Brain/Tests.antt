-- ===== src/Brain/Tests.antt =====
-- The memories of a concrete project.
use memix.Base.{
  ℕ, ◌≤◌, String, ◌≡◌, refl, Bool, false, Option, none, some, List, [], ◌∷◌, arith, ◌==◌,
  number_key, text_key, pair_key, bool_key,
}
use memix.Brain.{
  MemoryEntry, done, decision, user_manual, fresh_entry, create_entry, update_entry, new,
}
use memix.Brain.Entries.{
  Change, accesses, contradicts, resolves, updates, IsKept, contradicted, access_total, change_all,
  create_entry-IsKept,
}
use memix.Brain.Validator.{
  new_validator, validate_entry, validate_entry-Accepts, validate_entry-update_entry,
}
use memix.Brain.Selection.{assemble_context, loading_order}
use memix.Brain.Selection.Greedy.{Greedy, by_order, token_sum, assemble_context-Greedy}
use memix.Brain.Value.{Value, Members, no_member, member, number, string, find}
use memix.Brain.Value.Fields.{IsMap}
use memix.Brain.Inheritance.{BrainHierarchy}
use mathlib.Core.Option

abbrev rule : MemoryEntry
rule = fresh_entry "m1" 5 "web" decision "Use hooks" ("ui" ∷ []) user_manual

created : create_entry "m1" 5 new "web" decision "Use hooks" ("ui" ∷ []) user_manual ≡ done rule
unfolding create_entry
created = refl

abbrev changes : List Change
changes =
    contradicts 6 "m0"
    ∷ accesses 7
    ∷ contradicts 8 "m0"
    ∷ updates 9 "Use stores"
    ∷ resolves 10 "m0"
    ∷ []

create_entry-IsKept_example :
    IsKept new
      (contradicted (λ i. false) changes)
      (access_total changes)
      (change_all new rule changes)
create_entry-IsKept_example =
    create_entry-IsKept "m1" 5 new "web" decision "Use hooks" ("ui" ∷ []) user_manual rule changes
      created

-- A pattern is a text that matches itself.
abbrev is_text : String → String → Bool
is_text pattern content = pattern == content

valid : validate_entry is_text (new_validator is_text ("password: x" ∷ [])) rule ≡ done tt
valid =
    (validate_entry-Accepts is_text (new_validator is_text ("password: x" ∷ [])) rule).1 (record {
      not_empty = refl;
      size = ground arith;
      tags = ground arith;
      no_secret = (refl, tt);
    })

valid_content_written :
    update_entry 11 new "Use hooks" rule
    ≡ done (record rule { content = "Use hooks"; updated_at = 11 })
valid_content_written = validate_entry-update_entry is_text ("password: x" ∷ []) rule rule 11 valid

abbrev one_each : String → Option ℕ
one_each text = some 1

assemble_context-Greedy_example :
    Greedy one_each 1 0
      (by_order loading_order (rule ∷ rule ∷ []))
      (assemble_context one_each (rule ∷ rule ∷ []) 1)
    × (token_sum one_each 1 (assemble_context one_each (rule ∷ rule ∷ []) 1) ≤ 1)
assemble_context-Greedy_example = assemble_context-Greedy one_each 1 (rule ∷ rule ∷ [])

-- It prints texts and numbers.
abbrev print : Value → Option String
print (string s) = some s
print (number s) = some s
print _ = none

abbrev base : Members
base = member "port" (number "80") no_member

abbrev overlay : Members
overlay = member "port" (number "81") (member "host" (string "web") no_member)

overlay-IsMap : IsMap overlay
unfolding find
overlay-IsMap = (refl, (refl, tt))

abbrev two : BrainHierarchy
two = record {
  layers =
      record { project_id = "app"; entries = ("rule", rule) ∷ [] }
      ∷ record { project_id = "org"; entries = ("rule", rule) ∷ [] }
      ∷ [];
}

abbrev parse : String → Option Value
parse text = none
