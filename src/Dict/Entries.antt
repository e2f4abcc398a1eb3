-- ===== src/Dict/Entries.antt =====
-- The entries of a map as a list, and lists in which nothing stands twice.
use memix.Dict.Laws.{contains-keys, contains-append, contains-keep, contains-add}
use memix.Dict.{contains_key, remove, Dict, lookup, insert, keys, contains, add}
use memix.Base.{
  ◌≡◌, refl, ap, inl, inr, Bool, true, false, none, some, List, [], ◌∷◌, ◌++◌, arith, if◌then◌else◌,
  Key, ◌==◌, number_key, text_key, pair_key, bool_key, Option-cases, keep, All, if_keeps,
}

module _ {ℓ} {A : Type ℓ} ⦃e : Key A⦄ where
  abbrev pub NoRepeat : List A → Type 0
  NoRepeat [] = Unit {0}
  NoRepeat (x ∷ xs) = (contains x xs ≡ false) × NoRepeat xs

  pub add-NoRepeat : (a : A) (xs : List A) → NoRepeat xs → NoRepeat (add a xs)
  unfolding contains add
  add-NoRepeat a [] n = (refl, tt)
  add-NoRepeat a (x ∷ xs) n =
      if_keeps NoRepeat (x == a) (x ∷ xs) (x ∷ add a xs) (λ t. n)
        (λ f. (
          ground (arith, contains-add a x xs, n.0, e.equal_iff a x, e.equal_iff x a),
          add-NoRepeat a xs n.1,
        ))

module _ {ℓ κ} {K : Type ℓ} {V : Type κ} ⦃e : Key K⦄ where
  pub keys-insert : (k : K) (v : V) (m : Dict K V) → keys (insert k v m) ≡ add k (keys m)
  unfolding insert add
  keys-insert k v [] = refl
  keys-insert k v ((j, w) ∷ m) = ground (arith, keys-insert k v m)

  All-under :
      (j : K) (w : V) (m rest : Dict K V)
      → contains j (keys rest) ≡ false
      → All (λ p. lookup p.0 m ≡ some p.1) rest
      → All (λ p. lookup p.0 ((j, w) ∷ m) ≡ some p.1) rest
  unfolding lookup contains
  All-under j w m [] n a = tt
  All-under j w m (p ∷ rest) n a = (
    ground (arith, e.equal_iff p.0 j, e.equal_iff j p.0, a.0, n),
    All-under j w m rest (ground (arith, n)) a.1,
  )

  -- Each entry is what the map gives for its key.
  pub All-lookup : (m : Dict K V) → NoRepeat (keys m) → All (λ p. lookup p.0 m ≡ some p.1) m
  unfolding lookup
  All-lookup [] n = tt
  All-lookup ((j, w) ∷ m) n =
      (ground (arith, e.equal_iff j j), All-under j w m m n.0 (All-lookup m n.1))

  contains-remove :
      (j k : K) (m : Dict K V)
      → contains j (keys m) ≡ false
      → contains j (keys (remove k m)) ≡ false
  unfolding contains remove
  contains-remove j k [] h = refl
  contains-remove j k ((i, w) ∷ m) h = ground (arith, contains-remove j k m, h)

  pub remove-NoRepeat : (k : K) (m : Dict K V) → NoRepeat (keys m) → NoRepeat (keys (remove k m))
  unfolding remove
  remove-NoRepeat k [] n = tt
  remove-NoRepeat k ((j, w) ∷ m) n =
      if_keeps (λ x. NoRepeat (keys x)) (j == k) (remove k m) ((j, w) ∷ remove k m)
        (λ t. remove-NoRepeat k m n.1) (λ f. (contains-remove j k m n.0, remove-NoRepeat k m n.1))

  pub lookup-absent : (k : K) (m : Dict K V) → contains k (keys m) ≡ false → lookup k m ≡ none
  unfolding lookup contains
  lookup-absent k [] h = refl
  lookup-absent k ((j, w) ∷ m) h = ground (arith, lookup-absent k m, h)

module _ {ℓ} {A : Type ℓ} ⦃e : Key A⦄ where
  pub append-NoRepeat :
      (a : A) (xs : List A) → contains a xs ≡ false → NoRepeat xs → NoRepeat (xs ++ a ∷ [])
  unfolding contains
  append-NoRepeat a [] h n = (refl, tt)
  append-NoRepeat a (x ∷ xs) h n = (
    ground (arith, contains-append x xs (a ∷ []), n.0, h, e.equal_iff x a, e.equal_iff a x),
    append-NoRepeat a xs (ground (arith, h)) n.1,
  )

  pub keep-NoRepeat : (p : A → Bool) (xs : List A) → NoRepeat xs → NoRepeat (keep p xs)
  keep-NoRepeat p [] n = tt
  keep-NoRepeat p (x ∷ xs) n =
      if_keeps NoRepeat (p x) (x ∷ keep p xs) (keep p xs)
        (λ t. (ground (arith, contains-keep p x xs, n.0), keep-NoRepeat p xs n.1))
        (λ f. keep-NoRepeat p xs n.1)

-- An entry at the end of a map.
module _ {ℓ κ} {K : Type ℓ} {V : Type κ} ⦃e : Key K⦄ where
  pub keys-append : (k : K) (v : V) (m : Dict K V) → keys (m ++ (k, v) ∷ []) ≡ keys m ++ k ∷ []
  keys-append k v [] = refl
  keys-append k v ((j, w) ∷ m) = ap (λ ks. j ∷ ks) (keys-append k v m)

  pub lookup-append :
      (k j : K) (v : V) (m : Dict K V)
      → lookup k (m ++ (j, v) ∷ [])
        ≡ (if contains k (keys m) then lookup k m else if j == k then some v else none)
  unfolding lookup contains
  lookup-append k j v [] = refl
  lookup-append k j v ((i, w) ∷ m) = ground (arith, lookup-append k j v m)

  pub lookup-known :
      (k : K) (v : V) (m : Dict K V) → lookup k m ≡ some v → contains k (keys m) ≡ true
  unfolding lookup contains
  lookup-known k v [] h = cc
  lookup-known k v ((i, w) ∷ m) h = ground (arith, lookup-known k v m, h)

  pub lookup-present :
      (k : K) (m : Dict K V) → contains k (keys m) ≡ true → (v : V) × (lookup k m ≡ some v)
  unfolding contains_key
  lookup-present k m h = elim (Option-cases (lookup k m)) [
    | inl n ↦ (let no : false ≡ true = ground (arith, contains-keys k m, n, h) in cc)
    | inr (v, q) ↦ (v, q)
  ]
