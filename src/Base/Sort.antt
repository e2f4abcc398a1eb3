-- ===== src/Base/Sort.antt =====
-- `slice::sort_by`, which is stable: `before x y` says that x may stand before y.
use Prim.Native.Nat.{ℕ, zero, suc, Ordering}
use Prim.Native.String.{String, compare as compare_text}
use mathlib.Core.Path.{◌≡◌, refl}
use mathlib.Core.Bool.{Bool, true, false}
use mathlib.Core.List.{List, [], ◌∷◌}
use native.Mathlib.Omega.{arith}
use memix.Base.Tests.{if◌then◌else◌, if_keeps}
use memix.Base.Lists.{take, count, All}

module _ {ℓ} {A : Type ℓ} (before : A → A → Bool) where
  abbrev pub insert_by : A → List A → List A
  insert_by x [] = x ∷ []
  insert_by x (y ∷ ys) = if before x y then x ∷ y ∷ ys else y ∷ insert_by x ys

  abbrev pub sort_by : List A → List A
  sort_by [] = []
  sort_by (x ∷ xs) = insert_by x (sort_by xs)

  -- Each element may stand before any after it.
  abbrev pub Sorted : List A → Type ℓ
  Sorted [] = Unit
  Sorted (x ∷ xs) = All (λ y. before x y ≡ true) xs × Sorted xs

  pub count-insert_by :
      (p : A → Bool) (x : A) (xs : List A) → count p (insert_by x xs) ≡ count p (x ∷ xs)
  count-insert_by p x [] = refl
  count-insert_by p x (y ∷ ys) = ground (arith, count-insert_by p x ys)

  pub count-sort_by : (p : A → Bool) (xs : List A) → count p (sort_by xs) ≡ count p xs
  count-sort_by p [] = refl
  count-sort_by p (x ∷ xs) = omega (arith, count-insert_by p x (sort_by xs), count-sort_by p xs)

  pub All-insert_by {κ} :
      (P : A → Type κ) (x : A) (xs : List A) → P x → All P xs → All P (insert_by x xs)
  All-insert_by P x [] h a = (h, tt)
  All-insert_by P x (y ∷ ys) h a =
      if_keeps (All P) (before x y) (x ∷ y ∷ ys) (y ∷ insert_by x ys) (λ t. (h, a))
        (λ f. (a.0, All-insert_by P x ys h a.1))

  pub All-sort_by {κ} : (P : A → Type κ) (xs : List A) → All P xs → All P (sort_by xs)
  All-sort_by P [] a = tt
  All-sort_by P (x ∷ xs) a = All-insert_by P x (sort_by xs) a.0 (All-sort_by P xs a.1)

  module _ (total : (x y : A) → before x y ≡ false → before y x ≡ true)
      (trans : (x y z : A) → before x y ≡ true → before y z ≡ true → before x z ≡ true) where
    All-before :
        (x y : A) (zs : List A)
        → before x y ≡ true
        → All (λ z. before y z ≡ true) zs
        → All (λ z. before x z ≡ true) zs
    All-before x y [] h a = tt
    All-before x y (z ∷ zs) h a = (trans x y z h a.0, All-before x y zs h a.1)

    insert_by-Sorted : (x : A) (xs : List A) → Sorted xs → Sorted (insert_by x xs)
    insert_by-Sorted x [] s = (tt, tt)
    insert_by-Sorted x (y ∷ ys) s =
        if_keeps Sorted (before x y) (x ∷ y ∷ ys) (y ∷ insert_by x ys)
          (λ h. ((h, All-before x y ys h s.0), s))
          (λ h. (
            All-insert_by (λ z. before y z ≡ true) x ys (total x y h) s.0,
            insert_by-Sorted x ys s.1,
          ))

    pub sort_by-Sorted : (xs : List A) → Sorted (sort_by xs)
    sort_by-Sorted [] = tt
    sort_by-Sorted (x ∷ xs) = insert_by-Sorted x (sort_by xs) (sort_by-Sorted xs)

-- Sorting by an order sorts by a coarser one.
module _ {ℓ} {A : Type ℓ} (before coarse : A → A → Bool)
    (kept : (x y : A) → before x y ≡ true → coarse x y ≡ true)
    (total : (x y : A) → before x y ≡ false → coarse y x ≡ true)
    (trans : (x y z : A) → coarse x y ≡ true → coarse y z ≡ true → coarse x z ≡ true) where
  All-coarse :
      (x y : A) (zs : List A)
      → coarse x y ≡ true
      → All (λ z. coarse y z ≡ true) zs
      → All (λ z. coarse x z ≡ true) zs
  All-coarse x y [] h a = tt
  All-coarse x y (z ∷ zs) h a = (trans x y z h a.0, All-coarse x y zs h a.1)

  insert_by-coarse :
      (x : A) (xs : List A) → Sorted coarse xs → Sorted coarse (insert_by before x xs)
  insert_by-coarse x [] s = (tt, tt)
  insert_by-coarse x (y ∷ ys) s =
      if_keeps (Sorted coarse) (before x y) (x ∷ y ∷ ys) (y ∷ insert_by before x ys)
        (λ h. ((kept x y h, All-coarse x y ys (kept x y h) s.0), s))
        (λ h. (
          All-insert_by before (λ z. coarse y z ≡ true) x ys (total x y h) s.0,
          insert_by-coarse x ys s.1,
        ))

  pub sort_by-coarse : (xs : List A) → Sorted coarse (sort_by before xs)
  sort_by-coarse [] = tt
  sort_by-coarse (x ∷ xs) = insert_by-coarse x (sort_by before xs) (sort_by-coarse xs)

module _ {ℓ} {A : Type ℓ} where
  pub All-take {κ} : (P : A → Type κ) (n : ℕ) (xs : List A) → All P xs → All P (take n xs)
  All-take P zero xs a = tt
  All-take P (suc n) [] a = tt
  All-take P (suc n) (x ∷ xs) a = (a.0, All-take P n xs a.1)

  pub take-Sorted :
      (before : A → A → Bool) (n : ℕ) (xs : List A) → Sorted before xs → Sorted before (take n xs)
  take-Sorted before zero xs s = tt
  take-Sorted before (suc n) [] s = tt
  take-Sorted before (suc n) (x ∷ xs) s =
      (All-take (λ y. before x y ≡ true) n xs s.0, take-Sorted before n xs s.1)

-- `sort` on texts.
abbrev pub text_le : String → String → Bool
text_le a b = elim (compare_text a b) [ Ordering.gt ↦ false | _ ↦ true ]
