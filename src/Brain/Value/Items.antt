-- ===== src/Brain/Value/Items.antt =====
-- brain/hierarchy.rs: the items of two merged arrays.
use memix.Base.{
  String, ◌≡◌, refl, sym, ap, ◌∙◌, subst, inl, inr, Option, none, some, List, [], ◌∷◌, ◌++◌, arith,
  if◌then◌else◌, number_key, text_key, pair_key, bool_key, Bool-cases, Option-cases, if_keeps,
  append_none, append_assoc,
}
use memix.Brain.Value.{
  Value, Values, no_item, item, array, push_item, has_item, seen_in, seen_text, merge_item,
  merge_items, merge_values,
}
use memix.Dict.{contains, add}
use memix.Dict.Laws.{contains-add, contains-append}

module _ (to_string : Value → Option String) where
  abbrev text_of : Option String → List String
  text_of none = []
  text_of (some t) = t ∷ []

  -- The texts of the items, in their order.
  abbrev pub texts : Values → List String
  texts no_item = []
  texts (item v rest) = text_of (to_string v) ++ texts rest

  -- Those of the other array that are not there yet.
  abbrev pub add_all : List String → List String → List String
  add_all ts [] = ts
  add_all ts (u ∷ us) = add_all (if contains u ts then ts else ts ++ u ∷ []) us

  texts-push_item :
      (v : Value) (xs : Values) → texts (push_item v xs) ≡ texts xs ++ text_of (to_string v)
  unfolding push_item
  texts-push_item v no_item = append_none (text_of (to_string v))
  texts-push_item v (item w rest) =
      ap (λ ts. text_of (to_string w) ++ ts) (texts-push_item v rest)
      ∙ sym (append_assoc (text_of (to_string w)) (texts rest) (text_of (to_string v)))

  -- The seen texts are the members of the texts so far.
  abbrev Sees : List String → List String → Type 0
  Sees seen ts = (t : String) → contains t seen ≡ contains t ts

  Sees-add : (t : String) (seen ts : List String) → Sees seen ts → Sees (add t seen) (ts ++ t ∷ [])
  unfolding contains
  Sees-add t seen ts h u = ground (arith, contains-add t u seen, contains-append u ts (t ∷ []), h u)

  seen_in-Sees :
      (xs : Values) (seen ts : List String)
      → Sees seen ts
      → Sees (seen_in to_string xs seen) (ts ++ texts xs)
  unfolding seen_in
  seen_in-Sees no_item seen ts h = λ t. h t ∙ ap (contains t) (sym (append_none ts))
  seen_in-Sees (item v rest) seen ts h =
      subst (Sees (seen_in to_string (item v rest) seen))
        (append_assoc ts (text_of (to_string v)) (texts rest))
        (seen_in-Sees rest (seen_text to_string (to_string v) seen) (ts ++ text_of (to_string v))
          (one (to_string v)))
    where
      one : (o : Option String) → Sees (seen_text to_string o seen) (ts ++ text_of o)
      one none = λ t. h t ∙ ap (contains t) (sym (append_none ts))
      one (some u) = Sees-add u seen ts h

  -- One round adds the text of the item where it is not there.
  round_text : Option String → List String → List String
  round_text none ts = ts
  round_text (some t) ts = if contains t ts then ts else ts ++ t ∷ []

  Follows : Values × List String → List String → Type 0
  Follows s ts = (texts s.0 ≡ ts) × Sees s.1 ts

  merge_item-Follows :
      (v : Value) (s : Values × List String) (ts : List String)
      → Follows s ts
      → Follows (merge_item to_string v s) (round_text (to_string v) ts)
  unfolding Follows merge_item has_item round_text
  merge_item-Follows v s ts h = elim (Option-cases (to_string v)) [
    | inl e ↦
        rw (e, merge_item, round_text)
          (if_keeps (λ x. Follows x ts) (has_item v s.0) s (push_item v s.0, s.1) (λ b. h)
            (λ b. (
              texts-push_item v s.0
                  ∙ ap (λ o. texts s.0 ++ text_of o) e
                  ∙ append_none (texts s.0)
                  ∙ h.0,
              h.1,
            )))
    | inr (t, e) ↦ elim (Bool-cases (contains t s.1)) [
      | inl b ↦ rw (e, merge_item, round_text, b, sym (h.1 t) ∙ b) h
      | inr b ↦
          rw (e, merge_item, round_text, b, sym (h.1 t) ∙ b)
            (
              texts-push_item v s.0
                  ∙ ap (λ o. texts s.0 ++ text_of o) e
                  ∙ ap (λ us. us ++ t ∷ []) h.0,
              Sees-add t s.1 ts h.1,
            )
    ]
  ]

  add_all-round_text :
      (o : Option String) (ts us : List String)
      → add_all ts (text_of o ++ us) ≡ add_all (round_text o ts) us
  unfolding round_text
  add_all-round_text none ts us = refl
  add_all-round_text (some t) ts us = refl

  merge_items-Follows :
      (xs : Values) (s : Values × List String) (ts : List String)
      → Follows s ts
      → texts ((merge_items to_string xs s).0) ≡ add_all ts (texts xs)
  unfolding merge_items Follows
  merge_items-Follows no_item s ts h = h.0
  merge_items-Follows (item v rest) s ts h =
      merge_items-Follows rest (merge_item to_string v s) (round_text (to_string v) ts)
        (merge_item-Follows v s ts h)
      ∙ sym (add_all-round_text (to_string v) ts (texts rest))

  -- Two merged arrays are an array with the printed items of the first, in their order, and after
  -- them those of the second that are not there yet, each once.
  pub merge_values-add_all :
      (base overlay : Values)
      → (items : Values) × (merge_values to_string (array base) (array overlay) ≡ array items)
        × (texts items ≡ add_all (texts base) (texts overlay))
  unfolding merge_values Follows
  merge_values-add_all base overlay = (
    (merge_items to_string overlay (base, seen_in to_string base [])).0,
    refl,
    merge_items-Follows overlay (base, seen_in to_string base []) (texts base)
        (refl, seen_in-Sees base [] [] (λ t. refl)),
  )
