-- ===== src/Base/Tests.antt =====
-- Boolean tests on the native numbers, the conditional, and an interface for equality of keys.
use Prim.Native.Nat.{ℕ, compare, Ordering}
use Prim.Native.String.{String}
use mathlib.Core.Path.{◌≡◌, refl}
use mathlib.Core.Logic.{◌↔◌, ◌⊎◌, inl, inr}
use mathlib.Core.Bool.{Bool, true, false}
use mathlib.Core.Option.{Option, none, some}
use mathlib.Core.Option
use native.Mathlib.Omega.{arith}
use text.Mathlib.Text.{◌==◌ as str_eq}
use text.Mathlib.TextEquality.{eq_iff}

abbrev pub ltb : ℕ → ℕ → Bool
ltb a b = elim (compare a b) [ Ordering.lt ↦ true | _ ↦ false ]

abbrev pub leb : ℕ → ℕ → Bool
leb a b = elim (compare a b) [ Ordering.gt ↦ false | _ ↦ true ]

abbrev pub nat_beq : ℕ → ℕ → Bool
nat_beq a b = elim (compare a b) [ Ordering.eq ↦ true | _ ↦ false ]

infix 1 if◌then◌else◌
abbrev pub if◌then◌else◌ {ℓ} : {A : Type ℓ} → Bool → A → A → A
if true then x else y = x
if false then x else y = y

pub nat_beq_iff : (a b : ℕ) → (nat_beq a b ≡ true) ↔ (a ≡ b)
nat_beq_iff a b = ground arith

-- Keys that a map or a set compares.
pub record Key {ℓ} (A : Type ℓ) : Type ℓ where
  pub equal : A → A → Bool
  pub equal_iff : (a b : A) → (equal a b ≡ true) ↔ (a ≡ b)

infix 50 ◌==◌
abbrev pub ◌==◌ {ℓ} : {A : Type ℓ} ⦃e : Key A⦄ → A → A → Bool
◌==◌ ⦃e⦄ = e.equal

instance abbrev pub number_key : Key ℕ
number_key = record { equal = nat_beq; equal_iff = nat_beq_iff }

instance abbrev pub text_key : Key String
text_key = record { equal = str_eq; equal_iff = eq_iff }

abbrev pub both : Bool → Bool → Bool
both true b = b
both false b = false

pub pair_equal_iff {ℓ κ} :
    {A : Type ℓ} {B : Type κ} ⦃k : Key A⦄ ⦃l : Key B⦄ (p q : A × B)
    → (both (p.0 == q.0) (p.1 == q.1) ≡ true) ↔ (p ≡ q)
pair_equal_iff ⦃k⦄ ⦃l⦄ (a, b) (c, d) = ground (arith, k.equal_iff a c, l.equal_iff b d)

instance abbrev pub pair_key {ℓ κ} : {A : Type ℓ} {B : Type κ} ⦃k : Key A⦄ ⦃l : Key B⦄ → Key (A × B)
pair_key = record { equal = λ p q. both (p.0 == q.0) (p.1 == q.1); equal_iff = pair_equal_iff }

abbrev pub same : Bool → Bool → Bool
same true b = b
same false true = false
same false false = true

pub same_iff : (a b : Bool) → (same a b ≡ true) ↔ (a ≡ b)
same_iff a b = ground arith

instance abbrev pub bool_key : Key Bool
bool_key = record { equal = same; equal_iff = same_iff }

-- To split on a computed value and keep the equation.
pub Bool-cases : (b : Bool) → (b ≡ true) ⊎ (b ≡ false)
Bool-cases true = inl refl
Bool-cases false = inr refl

pub Option-cases {ℓ} : {A : Type ℓ} (o : Option A) → (o ≡ none) ⊎ ((a : A) × (o ≡ some a))
Option-cases none = inl refl
Option-cases (some a) = inr (a, refl)

pub some_inj {ℓ} : {A : Type ℓ} {a b : A} → some a ≡ some b → a ≡ b
some_inj h = cc

-- A map over an option that gives a value had one.
pub map-eq-some {ℓ κ} :
    {A : Type ℓ} {B : Type κ} (f : A → B) (o : Option A) {b : B}
    → Option.map f o ≡ some b
    → (a : A) × (o ≡ some a) × (f a ≡ b)
map-eq-some f none h = cc
map-eq-some f (some a) h = (a, refl, some_inj h)

-- What each branch has under its test, the conditional has.
pub if_keeps {ℓ κ} :
    {A : Type ℓ} (P : A → Type κ) (b : Bool) (x y : A)
    → (b ≡ true → P x)
    → (b ≡ false → P y)
    → P (if b then x else y)
if_keeps P true x y h k = h refl
if_keeps P false x y h k = k refl

pub if-eq-some {ℓ} :
    {A : Type ℓ} (b : Bool) (o : Option A) {x : A}
    → (if b then o else none) ≡ some x
    → (b ≡ true) × (o ≡ some x)
if-eq-some true o h = (refl, h)
if-eq-some false o h = cc

pub chain-eq-some {ℓ κ} :
    {A : Type ℓ} {B : Type κ} (o : Option A) (k : A → Option B) {b : B}
    → elim o [ none ↦ none | some a ↦ k a ] ≡ some b
    → (a : A) × (o ≡ some a) × (k a ≡ some b)
chain-eq-some none k h = cc
chain-eq-some (some a) k h = (a, refl, h)

pub if-some-cases {ℓ} :
    {A : Type ℓ} (b : Bool) (z : A) (o : Option A) {x : A}
    → (if b then some z else o) ≡ some x
    → ((b ≡ true) × (z ≡ x)) ⊎ (o ≡ some x)
if-some-cases true z o h = inl (refl, some_inj h)
if-some-cases false z o h = inr h

infixl 20 ◌>>=◌
abbrev pub ◌>>=◌ {ℓ κ} : {A : Type ℓ} {B : Type κ} → Option A → (A → Option B) → Option B
none >>= k = none
(some a) >>= k = k a
