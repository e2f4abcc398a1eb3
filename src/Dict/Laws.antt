-- ===== src/Dict/Laws.antt =====
-- The laws of maps and sets.
use memix.Base.{
  ◌≤◌, ◌≡◌, refl, ap, Bool, true, false, ◌&&◌, none, some, List, [], ◌∷◌, ◌++◌, arith,
  if◌then◌else◌, Key, ◌==◌, number_key, text_key, pair_key, bool_key, length, keep, count, All,
  insert_by, sort_by,
}
use memix.Dict.{Dict, lookup, insert, remove, contains_key, keys, contains, add, discard, dedup}

module _ {ℓ} {A : Type ℓ} ⦃e : Key A⦄ where
  pub ==-refl : (a : A) → (a == a) ≡ true
  ==-refl a = (e.equal_iff a a).1 refl

module _ {ℓ κ} {K : Type ℓ} {V : Type κ} ⦃e : Key K⦄ where
  -- Reading a key of the map after a write.
  pub lookup-insert :
      (written read : K) (value : V) (m : Dict K V)
      → lookup read (insert written value m)
        ≡ (if written == read then some value else lookup read m)
  unfolding lookup insert
  lookup-insert written read value [] = refl
  lookup-insert written read value ((first, old) ∷ rest) = ground (
    arith,
    lookup-insert written read value rest,
    e.equal_iff written read,
    e.equal_iff first written,
    e.equal_iff first read,
  )

  pub lookup-remove :
      (k j : K) (m : Dict K V) → lookup j (remove k m) ≡ (if k == j then none else lookup j m)
  unfolding lookup remove
  lookup-remove k j [] = ground arith
  lookup-remove k j ((i, w) ∷ m) =
      ground (arith, e.equal_iff k j, e.equal_iff i k, e.equal_iff i j, lookup-remove k j m)

  pub contains-keys : (k : K) (m : Dict K V) → contains k (keys m) ≡ contains_key k m
  unfolding contains contains_key
  contains-keys k [] = refl
  contains-keys k ((i, w) ∷ m) = ground (arith, contains-keys k m)

module _ {ℓ} {A : Type ℓ} ⦃e : Key A⦄ where
  pub contains-add :
      (a b : A) (xs : List A) → contains b (add a xs) ≡ (if a == b then true else contains b xs)
  unfolding contains add
  contains-add a b [] = refl
  contains-add a b (x ∷ xs) =
      ground (arith, e.equal_iff a b, e.equal_iff x a, e.equal_iff x b, contains-add a b xs)

  pub contains-discard :
      (a b : A) (xs : List A)
      → contains b (discard a xs) ≡ (if a == b then false else contains b xs)
  unfolding contains discard
  contains-discard a b [] = ground arith
  contains-discard a b (x ∷ xs) =
      ground (arith, e.equal_iff a b, e.equal_iff x a, e.equal_iff x b, contains-discard a b xs)

module _ {ℓ} {A : Type ℓ} ⦃e : Key A⦄ where
  pub contains-keep :
      (p : A → Bool) (a : A) (xs : List A) → contains a (keep p xs) ≡ contains a xs && p a
  unfolding contains
  contains-keep p a [] = refl
  contains-keep p a (x ∷ xs) =
      ground (arith, e.equal_iff x a, contains-keep p a xs, ap p {x = x} {y = a})

  pub length-add_le : (a : A) (xs : List A) → length xs ≤ length (add a xs)
  unfolding add
  length-add_le a [] = omega arith
  length-add_le a (x ∷ xs) = ground (arith, length-add_le a xs)

pub ruleset dict_laws = (lookup-insert, lookup-remove, contains-add, contains-discard)

module _ {ℓ} {A : Type ℓ} ⦃e : Key A⦄ where
  pub contains-append :
      (a : A) (xs ys : List A)
      → contains a (xs ++ ys) ≡ (if contains a xs then true else contains a ys)
  unfolding contains
  contains-append a [] ys = refl
  contains-append a (x ∷ xs) ys = ground (arith, contains-append a xs ys)

  -- One more at the end of a list that does not have it.
  pub count-contains : (a : A) (xs : List A) → contains a xs ≡ false → count (λ x. x == a) xs ≡ 0
  unfolding contains
  count-contains a [] h = refl
  count-contains a (x ∷ xs) h = ground (arith, count-contains a xs)

  pub contains-dedup : (a : A) (xs : List A) → contains a (dedup xs) ≡ contains a xs
  unfolding contains dedup
  contains-dedup a [] = refl
  contains-dedup a (x ∷ []) = refl
  contains-dedup a (x ∷ y ∷ ys) =
      ground (arith, contains-dedup a (y ∷ ys), e.equal_iff x y, e.equal_iff x a, e.equal_iff y a)

  contains-insert_by :
      (before : A → A → Bool) (a x : A) (xs : List A)
      → contains a (insert_by before x xs) ≡ (if x == a then true else contains a xs)
  unfolding contains
  contains-insert_by before a x [] = refl
  contains-insert_by before a x (y ∷ ys) = ground (arith, contains-insert_by before a x ys)

  pub contains-sort_by :
      (before : A → A → Bool) (a : A) (xs : List A) → contains a (sort_by before xs) ≡ contains a xs
  unfolding contains
  contains-sort_by before a [] = refl
  contains-sort_by before a (x ∷ xs) =
      ground
        (arith, contains-insert_by before a x (sort_by before xs), contains-sort_by before a xs)

-- What every member of a list has.
module _ {ℓ} {A : Type ℓ} ⦃e : Key A⦄ where
  contains-tail : (c x : A) (xs : List A) → contains c xs ≡ true → contains c (x ∷ xs) ≡ true
  unfolding contains
  contains-tail c x xs h = ground (arith, h)

  pub All-members :
      (xs names : List A)
      → ((c : A) → contains c xs ≡ true → contains c names ≡ true)
      → All (λ c. contains c names ≡ true) xs
  unfolding contains
  All-members [] names h = tt
  All-members (x ∷ xs) names h = (
    h x (ground (arith, e.equal_iff x x)),
    All-members xs names (λ c k. h c (contains-tail c x xs k)),
  )
