-- ===== src/Brain/Value/Fields.antt =====
-- brain/hierarchy.rs: the fields of two merged objects.
use memix.Base.{
  String, ◌≡◌, refl, sym, ap, ◌∙◌, inl, inr, Option, none, some, arith, eq_iff, if◌then◌else◌, ◌==◌,
  number_key, text_key, pair_key, bool_key, Bool-cases,
}
use memix.Brain.Value.{
  Value, Members, no_member, member, find, take_out, put, merge_values, merge_members,
}

find-put :
    (k j : String) (v : Value) (m : Members)
    → find j (put k v m) ≡ (if k == j then some v else find j m)
unfolding find put
find-put k j v no_member = refl
find-put k j v (member i w rest) =
    ground (arith, find-put k j v rest, eq_iff i k, eq_iff i j, eq_iff k j)

find-take_out :
    (k j : String) (m : Members) → find j (take_out k m) ≡ (if k == j then none else find j m)
unfolding find take_out
find-take_out k j no_member = ground arith
find-take_out k j (member i w rest) =
    ground (arith, find-take_out k j rest, eq_iff i k, eq_iff i j, eq_iff k j)

-- No key stands twice.
abbrev pub IsMap : Members → Type 0
IsMap no_member = Unit {0}
IsMap (member k v rest) = (find k rest ≡ none) × IsMap rest

module _ (to_string : Value → Option String) where
  -- What a merged object has under a key, by what the two have.
  abbrev pub merged_field : Option Value → Option Value → Option Value
  merged_field old none = old
  merged_field none (some new) = some new
  merged_field (some old) (some new) = some (merge_values to_string old new)

  abbrev next : Option Value → Value → Value
  next none v = v
  next (some w) v = merge_values to_string w v

  merge_members-none : (base : Members) → merge_members to_string base no_member ≡ base
  unfolding merge_members
  merge_members-none base = refl

  merge_members-member :
      (base : Members) (k : String) (v : Value) (rest : Members)
      → merge_members to_string base (member k v rest)
        ≡ merge_members to_string (put k (next (find k base) v) (take_out k base)) rest
  unfolding merge_members
  merge_members-member base k v rest =
      ap (λ x. merge_members to_string (put k x (take_out k base)) rest) (pick (find k base))
    where
      pick :
          (o : Option Value)
          → elim o as (λ x. Value) [ none ↦ v | some w ↦ merge_values to_string w v ] ≡ next o v
      pick none = refl
      pick (some w) = refl

  find-next :
      (base : Members) (k key : String) (v : Value)
      → find key (put k (next (find k base) v) (take_out k base))
        ≡ (if k == key then merged_field (find key base) (some v) else find key base)
  find-next base k key v =
      find-put k key (next (find k base) v) (take_out k base) ∙ elim (Bool-cases (k == key)) [
        | inl b ↦ rw (b, sym ((eq_iff k key).0 b)) (some_next (find k base))
        | inr b ↦ rw (b) (find-take_out k key base ∙ rw (b) refl)
      ]
    where
      some_next : (o : Option Value) → some (next o v) ≡ merged_field o (some v)
      some_next none = refl
      some_next (some w) = refl

  -- Under each key, two merged objects have the value of the one that has it, or the two values
  -- merged where both have it.
  pub find-merge_members :
      (base overlay : Members) (key : String)
      → IsMap overlay
      → find key (merge_members to_string base overlay)
        ≡ merged_field (find key base) (find key overlay)
  unfolding find
  find-merge_members base no_member key h = ap (find key) (merge_members-none base)
  find-merge_members base (member k v rest) key h =
      ap (find key) (merge_members-member base k v rest)
      ∙ find-merge_members (put k (next (find k base) v) (take_out k base)) rest key h.1
      ∙ ap (λ o. merged_field o (find key rest)) (find-next base k key v)
      ∙ elim (Bool-cases (k == key)) [
        | inl b ↦ rw (b, sym (ap (λ j. find j rest) ((eq_iff k key).0 b)) ∙ h.0) refl
        | inr b ↦ rw (b) refl
      ]
