-- ===== src/Brain/Value.antt =====
-- The JSON values of brain/hierarchy.rs and how it merges two. A number is held by the text that
-- prints it. Printing a value is a parameter, which gives a text or fails.
pub mod Fields
pub mod Items
use memix.Base.{
  ℕ, zero, suc, ◌+◌, ◌-◌, ◌*◌, ◌/◌, ◌%◌, ◌^◌, ◌≤◌, ◌<◌, min, max, String, ◌≡◌, refl, sym, ap, ◌∙◌,
  subst, ◌≢◌, ◌↔◌, ◌⊎◌, inl, inr, Bool, true, false, not, ◌&&◌, ◌||◌, Option, none, some, List, [],
  ◌∷◌, ◌++◌, map, arith, eq_iff, ltb, leb, nat_beq, if◌then◌else◌, Key, ◌==◌, number_key, text_key,
  pair_key, pair_equal_iff, bool_key, both, same, Bool-cases, Option-cases, length, drop, take,
  length-append, length-drop, keep, count, All, All-append, sum, sum-append, concat, show, some_inj,
  map-eq-some, if_keeps, ℤ, pos, negsuc, negative, whole_units, exceeds, insert_by, sort_by, Sorted,
  count-insert_by, count-sort_by, All-insert_by, All-sort_by, sort_by-Sorted, All-take, take-Sorted,
}
use memix.Dict.{contains, add}

mutual
  pub data Value : Type 0 where
    null : Value
    bool : Bool → Value
    number : String → Value
    string : String → Value
    array : Values → Value
    object : Members → Value

  pub data Values : Type 0 where
    no_item : Values
    item : Value → Values → Values

  pub data Members : Type 0 where
    no_member : Members
    member : String → Value → Members → Members

unfoldable pub find : String → Members → Option Value
find key no_member = none
find key (member k v rest) = if k == key then some v else find key rest

unfoldable pub take_out : String → Members → Members
take_out key no_member = no_member
take_out key (member k v rest) =
    let others = take_out key rest in if k == key then others else member k v others

unfoldable pub put : String → Value → Members → Members
put key v no_member = member key v no_member
put key v (member k w rest) = if k == key then member k v rest else member k w (put key v rest)

pub member_count : Members → ℕ
member_count no_member = 0
member_count (member k v rest) = 1 + member_count rest

-- Equality of values; objects are equal as maps.
mutual
  pub same_value : Value → Value → Bool
  same_value null null = true
  same_value (bool a) (bool b) = same a b
  same_value (number a) (number b) = a == b
  same_value (string a) (string b) = a == b
  same_value (array a) (array b) = same_values a b
  same_value (object a) (object b) =
      both (nat_beq (member_count a) (member_count b)) (members_in a b)
  same_value _ _ = false

  pub same_values : Values → Values → Bool
  same_values no_item no_item = true
  same_values (item a rest) (item b more) = both (same_value a b) (same_values rest more)
  same_values _ _ = false

  pub members_in : Members → Members → Bool
  members_in no_member b = true
  members_in (member k v rest) b =
      both (elim (find k b) [ none ↦ false | some w ↦ same_value v w ]) (members_in rest b)

pub has_item : Value → Values → Bool
unfolding same_value
has_item v no_item = false
has_item v (item w rest) = if same_value w v then true else has_item v rest

pub push_item : Value → Values → Values
push_item v no_item = item v no_item
push_item v (item w rest) = item w (push_item v rest)

module _ (to_string : Value → Option String) where
  -- The texts of the items that can be printed.
  abbrev pub seen_text : Option String → List String → List String
  seen_text none seen = seen
  seen_text (some s) seen = add s seen

  pub seen_in : Values → List String → List String
  seen_in no_item seen = seen
  seen_in (item v rest) seen = seen_in rest (seen_text (to_string v) seen)

  -- One round of the loop over the overlay's items, on the array and the texts seen.
  pub merge_item : Value → Values × List String → Values × List String
  unfolding push_item has_item
  merge_item v s = elim (to_string v) [
    | none ↦ if has_item v s.0 then s else (push_item v s.0, s.1)
    | some t ↦ if contains t s.1 then s else (push_item v s.0, add t s.1)
  ]

  pub merge_items : Values → Values × List String → Values × List String
  unfolding merge_item
  merge_items no_item s = s
  merge_items (item v rest) s = merge_items rest (merge_item v s)

  unfoldable mutual
    unfolding merge_items seen_in

    pub merge_values : Value → Value → Value
    merge_values (object base) (object overlay) = object (merge_members base overlay)
    merge_values (array base) (array overlay) =
        array (merge_items overlay (base, seen_in base [])).0
    merge_values base overlay = overlay

    pub merge_members : Members → Members → Members
    merge_members base no_member = base
    merge_members base (member k v rest) =
        merge_members
          (put k (elim (find k base) [ none ↦ v | some w ↦ merge_values w v ]) (take_out k base))
          rest
