-- ===== src/Context/Skeleton/Dedup.antt =====
-- What context/mod.rs leaves of the skeletons that the brain covers.
use memix.Base.{
  ℕ, ◌+◌, ◌≡◌, refl, ap, ◌∙◌, Bool, true, false, not, List, [], ◌∷◌, map, leb, if◌then◌else◌,
  number_key, text_key, pair_key, bool_key, keep, count,
}
use memix.Brain.{MemoryEntry}
use memix.Context.Skeleton.{CodeSkeleton, coverage_hits, shorten, is_empty, brain_dedup}

abbrev pub covered : List MemoryEntry → CodeSkeleton → Bool
covered brain_entries skeleton = leb 3 (coverage_hits skeleton brain_entries)

abbrev pub shortened : List MemoryEntry → CodeSkeleton → CodeSkeleton
shortened brain_entries skeleton =
    if covered brain_entries skeleton then shorten skeleton else skeleton

if_not : {A : Type 0} (b : Bool) (x y : A) → (if b then x else y) ≡ (if not b then y else x)
if_not true x y = refl
if_not false x y = refl

-- The pass shortens the skeletons that the brain covers by three hits or more, keeps those that have
-- a signature, a type or an export then, in their order, and counts the covered ones, also those that
-- it does not keep.
pub brain_dedup-covered :
    (skeletons : List CodeSkeleton) (brain_entries : List MemoryEntry)
    → brain_dedup skeletons brain_entries ≡ (
      keep (λ s. not (is_empty s)) (map (shortened brain_entries) skeletons),
      count (covered brain_entries) skeletons,
    )
unfolding brain_dedup
brain_dedup-covered [] brain_entries = refl
brain_dedup-covered (s ∷ ss) brain_entries =
    let left = shortened brain_entries s in
    ap
      (λ (r : List CodeSkeleton × ℕ). (
        if is_empty left then r.0 else left ∷ r.0,
        (if covered brain_entries s then 1 else 0) + r.1,
      ))
      (brain_dedup-covered ss brain_entries)
    ∙ ap (λ xs. (xs, count (covered brain_entries) (s ∷ ss)))
        (if_not (is_empty left) (keep (λ s. not (is_empty s)) (map (shortened brain_entries) ss))
          (left ∷ keep (λ s. not (is_empty s)) (map (shortened brain_entries) ss)))
