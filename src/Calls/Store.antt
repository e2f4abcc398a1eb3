-- ===== src/Calls/Store.antt =====
-- What one operation on a map of callers, in observer/call_graph.rs, does to its members.
use memix.Base.{
  String, ◌≡◌, refl, sym, ap, ◌∙◌, subst, Bool, true, false, ◌&&◌, [], ◌∷◌, ◌++◌, arith,
  if◌then◌else◌, Key, ◌==◌, number_key, text_key, pair_key, bool_key, both, if_keeps,
}
use memix.Calls.{
  CallerSite, Sites, retain_values, drop_empty, purge, push_site, is_nil, not_in, site_key,
}
use memix.Dict.{lookup, keys, or_else, contains}
use memix.Dict.Laws.{lookup-insert, contains-append, contains-keep}
use memix.Dict.Entries.{NoRepeat, add-NoRepeat, keys-insert, lookup-absent}

module _ {ℓ} {K : Type ℓ} ⦃e : Key K⦄ where
  abbrev pub site_in : K → CallerSite → Sites K → Bool
  site_in k s m = contains s (or_else [] (lookup k m))

  pub site_in-push :
      (k j : K) (s t : CallerSite) (m : Sites K)
      → site_in j t (push_site k s m) ≡ (if both (k == j) (s == t) then true else site_in j t m)
  unfolding push_site contains
  site_in-push k j s t m = ground (
    arith,
    lookup-insert k j (or_else [] (lookup k m) ++ s ∷ []) m,
    contains-append t (or_else [] (lookup k m)) (s ∷ []),
    e.equal_iff k j,
  )

  pub push-NoRepeat :
      (k : K) (s : CallerSite) (m : Sites K) → NoRepeat (keys m) → NoRepeat (keys (push_site k s m))
  unfolding push_site
  push-NoRepeat k s m n = subst NoRepeat (sym (keys-insert k _ m)) (add-NoRepeat k (keys m) n)

  keys-retain_values : (file : String) (m : Sites K) → keys (retain_values file m) ≡ keys m
  unfolding retain_values
  keys-retain_values file [] = refl
  keys-retain_values file ((k, sites) ∷ m) = ap (λ ks. k ∷ ks) (keys-retain_values file m)

  site_in-retain_values :
      (file : String) (k : K) (s : CallerSite) (m : Sites K)
      → site_in k s (retain_values file m) ≡ site_in k s m && not_in file s
  unfolding retain_values lookup contains
  site_in-retain_values file k s [] = refl
  site_in-retain_values file k s ((j, sites) ∷ m) =
      ground (arith, site_in-retain_values file k s m, contains-keep (not_in file) s sites)

  contains_key-drop_empty :
      (k : K) (m : Sites K) → contains k (keys m) ≡ false → contains k (keys (drop_empty m)) ≡ false
  unfolding contains drop_empty
  contains_key-drop_empty k [] h = refl
  contains_key-drop_empty k ((j, sites) ∷ m) h = ground (arith, contains_key-drop_empty k m, h)

  drop_empty-NoRepeat : (m : Sites K) → NoRepeat (keys m) → NoRepeat (keys (drop_empty m))
  unfolding drop_empty
  drop_empty-NoRepeat [] n = tt
  drop_empty-NoRepeat ((k, sites) ∷ m) n =
      if_keeps (λ x. NoRepeat (keys x)) (is_nil sites) (drop_empty m) ((k, sites) ∷ drop_empty m)
        (λ t. drop_empty-NoRepeat m n.1)
        (λ f. (contains_key-drop_empty k m n.0, drop_empty-NoRepeat m n.1))

  site_in-drop_empty :
      (k : K) (s : CallerSite) (m : Sites K)
      → NoRepeat (keys m)
      → site_in k s (drop_empty m) ≡ site_in k s m
  unfolding drop_empty lookup contains
  site_in-drop_empty k s [] n = refl
  site_in-drop_empty k s ((j, []) ∷ m) n =
      ground (arith, site_in-drop_empty k s m n.1, lookup-absent j m n.0, e.equal_iff j k)
  site_in-drop_empty k s ((j, x ∷ xs) ∷ m) n = ground (arith, site_in-drop_empty k s m n.1)

  -- The sites of one file are out, and the others stay.
  pub site_in-purge :
      (file : String) (k : K) (s : CallerSite) (m : Sites K)
      → NoRepeat (keys m)
      → site_in k s (purge file m) ≡ site_in k s m && not_in file s
  unfolding purge
  site_in-purge file k s m n =
      site_in-drop_empty k s (retain_values file m)
        (subst NoRepeat (sym (keys-retain_values file m)) n)
      ∙ site_in-retain_values file k s m

  pub purge-NoRepeat :
      (file : String) (m : Sites K) → NoRepeat (keys m) → NoRepeat (keys (purge file m))
  unfolding purge
  purge-NoRepeat file m n =
      drop_empty-NoRepeat (retain_values file m)
        (subst NoRepeat (sym (keys-retain_values file m)) n)
