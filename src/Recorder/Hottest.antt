-- ===== src/Recorder/Hottest.antt =====
-- The sorted counts of the files in recorder/flight.rs, and the first of them.
use memix.Base.{
  ℕ, zero, suc, ◌≤◌, String, ◌≡◌, refl, ◌∙◌, subst, inl, inr, true, false, [], ◌∷◌, arith, eq_iff,
  if◌then◌else◌, ◌==◌, number_key, text_key, pair_key, bool_key, Bool-cases, take, All, if_keeps,
  insert_by, sort_by, Sorted,
}
use memix.Dict.{Dict, contains, keys}
use memix.Dict.Entries.{NoRepeat}
use memix.Recorder.{hotter}

pub All-map :
    (P Q : String × ℕ → Type 0) (xs : Dict String ℕ)
    → ((x : String × ℕ) → P x → Q x)
    → All P xs
    → All Q xs
All-map P Q [] f a = tt
All-map P Q (x ∷ xs) f a = (f x a.0, All-map P Q xs f a.1)

contains-insert_hotter :
    (f : String) (p : String × ℕ) (es : Dict String ℕ)
    → contains f (keys (insert_by hotter p es)) ≡ (if p.0 == f then true else contains f (keys es))
unfolding contains
contains-insert_hotter f p [] = refl
contains-insert_hotter f p (q ∷ es) = ground (arith, contains-insert_hotter f p es)

pub contains-sort_hotter :
    (f : String) (es : Dict String ℕ) → contains f (keys (sort_by hotter es)) ≡ contains f (keys es)
unfolding contains
contains-sort_hotter f [] = refl
contains-sort_hotter f (p ∷ es) =
    ground (arith, contains-insert_hotter f p (sort_by hotter es), contains-sort_hotter f es)

insert_hotter-NoRepeat :
    (p : String × ℕ) (es : Dict String ℕ)
    → contains p.0 (keys es) ≡ false
    → NoRepeat (keys es)
    → NoRepeat (keys (insert_by hotter p es))
unfolding contains
insert_hotter-NoRepeat p [] h n = (refl, tt)
insert_hotter-NoRepeat p (q ∷ es) h n =
    if_keeps (λ xs. NoRepeat (keys xs)) (hotter p q) (p ∷ q ∷ es) (q ∷ insert_by hotter p es)
      (λ t. (h, n))
      (λ f. (
        ground (arith, contains-insert_hotter q.0 p es, h, n.0, eq_iff q.0 p.0, eq_iff p.0 q.0),
        insert_hotter-NoRepeat p es (ground (arith, h)) n.1,
      ))

pub sort_hotter-NoRepeat :
    (es : Dict String ℕ) → NoRepeat (keys es) → NoRepeat (keys (sort_by hotter es))
sort_hotter-NoRepeat [] n = tt
sort_hotter-NoRepeat (p ∷ es) n =
    insert_hotter-NoRepeat p (sort_by hotter es) (contains-sort_hotter p.0 es ∙ n.0)
      (sort_hotter-NoRepeat es n.1)

contains-take :
    (f : String) (n : ℕ) (es : Dict String ℕ)
    → contains f (keys es) ≡ false
    → contains f (keys (take n es)) ≡ false
unfolding contains
contains-take f zero es h = refl
contains-take f (suc n) [] h = refl
contains-take f (suc n) (p ∷ es) h = ground (arith, contains-take f n es, h)

pub take-NoRepeat : (n : ℕ) (es : Dict String ℕ) → NoRepeat (keys es) → NoRepeat (keys (take n es))
take-NoRepeat zero es r = tt
take-NoRepeat (suc n) [] r = tt
take-NoRepeat (suc n) (p ∷ es) r = (contains-take p.0 n es r.0, take-NoRepeat n es r.1)

pub All-contains : (es : Dict String ℕ) → All (λ p. contains p.0 (keys es) ≡ true) es
unfolding contains
All-contains [] = tt
All-contains (p ∷ es) =
    (ground (arith, eq_iff p.0 p.0), All-map _ _ es (λ x h. ground (arith, h)) (All-contains es))

-- An entry of a key that is there.
All-key :
    (P : String × ℕ → Type 0) (f : String) (es : Dict String ℕ)
    → contains f (keys es) ≡ true
    → All P es
    → (v : ℕ) × P (f, v)
unfolding contains
All-key P f [] h a = let no : false ≡ true = h in cc
All-key P f ((j, v) ∷ es) h a = elim (Bool-cases (j == f)) [
  | inl e ↦ (v, subst (λ x. P (x, v)) ((eq_iff j f).0 e) a.0)
  | inr n ↦ All-key P f es (ground (arith, n, h)) a.1
]

All-both :
    (P Q : String × ℕ → Type 0) (es : Dict String ℕ) → All P es → All Q es → All (λ p. P p × Q p) es
All-both P Q [] a b = tt
All-both P Q (p ∷ es) a b = ((a.0, b.0), All-both P Q es a.1 b.1)

-- What a sorted list has outside its first entries is not hotter than any of these.
pub left_out :
    (c : String → ℕ) (f : String) (n : ℕ) (es : Dict String ℕ)
    → Sorted hotter es
    → All (λ p. p.1 ≡ c p.0) es
    → contains f (keys es) ≡ true
    → contains f (keys (take n es)) ≡ false
    → All (λ p. c f ≤ p.1) (take n es)
unfolding contains
left_out c f zero es s e h k = tt
left_out c f (suc n) [] s e h k = tt
left_out c f (suc n) (p ∷ es) s e h k = elim (Bool-cases (p.0 == f)) [
  | inl t ↦ (let no : false ≡ true = ground (arith, t, k) in cc)
  | inr d ↦
      (let there : contains f (keys es) ≡ true = ground (arith, d, h) in
        let (v, (below, count_of)) =
          All-key (λ y. (hotter p y ≡ true) × (y.1 ≡ c y.0)) f es there
            (All-both (λ y. hotter p y ≡ true) (λ y. y.1 ≡ c y.0) es s.0 e.1) in
        (ground (arith, below, count_of), left_out c f n es s.1 e.1 there (ground (arith, d, k))))
]
