-- ===== src/Context/Fitting/Optimal.antt =====
-- What the knapsack of the ranked sections of context/mod.rs chooses, against a free choice.
use memix.Context.Fitting.{
  Fitted, nothing_chosen, budget_fitting, visit, usize_max, cells, cell, value_of, better, Filled,
  fill, Walk, walk_back,
}
use memix.Base.{
  ℕ, zero, suc, ◌+◌, ◌-◌, ◌≤◌, ◌<◌, max, ◌≡◌, refl, sym, ap, ◌∙◌, subst, false, List, [], ◌∷◌,
  arith, leb, if◌then◌else◌, ◌==◌, number_key, text_key, pair_key, bool_key, if_keeps,
}
use memix.Context.{CompiledSection}

-- A choice of some of the sections, in their order.
pub data Choice : List CompiledSection → List CompiledSection → Type 0 where
  nothing : Choice [] []
  leave : {s : CompiledSection} {xs ys : List CompiledSection} → Choice xs ys → Choice xs (s ∷ ys)
  pick :
      {s : CompiledSection} {xs ys : List CompiledSection} → Choice xs ys → Choice (s ∷ xs) (s ∷ ys)

abbrev pub token_sum : List CompiledSection → ℕ
token_sum [] = 0
token_sum (s ∷ ss) = s.tokens + token_sum ss

abbrev pub value_sum : List CompiledSection → ℕ
value_sum [] = 0
value_sum (s ∷ ss) = value_of s + value_sum ss

-- The value that can be had of the sections within a capacity.
best : List CompiledSection → ℕ → ℕ
best [] cap = 0
best (s ∷ ss) cap =
    if leb s.tokens cap
    then max (best ss cap) (best ss (cap - s.tokens) + value_of s)
    else best ss cap

best_bound : (ss : List CompiledSection) (cap : ℕ) → best ss cap ≤ value_sum ss
unfolding best
best_bound [] cap = omega arith
best_bound (s ∷ ss) cap = ground (arith, best_bound ss cap, best_bound ss (cap - s.tokens))

cell-cells : (f : ℕ → ℕ) (first n cap : ℕ) → cap < n → cell (cells f first n) cap ≡ f (first + cap)
cell-cells f first zero cap h = omega arith
cell-cells f first (suc n) zero h = ap f (omega arith)
cell-cells f first (suc n) (suc cap) h =
    cell-cells f (suc first) n cap (omega arith) ∙ ap f (omega arith)

-- A row that has the best values of the sections.
Exact : ℕ → List CompiledSection → List ℕ → Type 0
Exact budget ss row = (cap : ℕ) → cap ≤ budget → cell row cap ≡ best ss cap

next-Exact :
    (budget : ℕ) (s : CompiledSection) (ss : List CompiledSection) (previous : List ℕ)
    → value_sum (s ∷ ss) ≤ usize_max
    → Exact budget ss previous
    → Exact budget (s ∷ ss) (cells (better s previous) 0 (suc budget))
unfolding Exact better best
next-Exact budget s ss previous bound h cap within =
    cell-cells (better s previous) 0 (suc budget) cap (omega arith)
    ∙ ground (
      arith,
      h cap within,
      h (cap - s.tokens) (omega arith),
      best_bound ss cap,
      best_bound ss (cap - s.tokens),
    )

sections_of : List Filled → List CompiledSection
sections_of [] = []
sections_of (f ∷ fs) = f.section ∷ sections_of fs

-- Every row of the table has the best values of the sections up to it.
AllExact : ℕ → List Filled → Type 0
AllExact budget [] = Unit
AllExact budget (f ∷ fs) =
    Exact budget (sections_of (f ∷ fs)) f.row
    × Exact budget (sections_of fs) f.previous
    × AllExact budget fs

-- Sections put back in order, from a list that has the last one first.
unwind : List CompiledSection → List CompiledSection → List CompiledSection
unwind [] later = later
unwind (s ∷ ss) later = unwind ss (s ∷ later)

fill-AllExact :
    (budget : ℕ) (previous : List ℕ) (done : List Filled) (ss : List CompiledSection)
    → value_sum (sections_of done) + value_sum ss ≤ usize_max
    → Exact budget (sections_of done) previous
    → AllExact budget done
    → AllExact budget (fill budget previous done ss)
unfolding fill AllExact sections_of
fill-AllExact budget previous done [] bound e a = a
fill-AllExact budget previous done (s ∷ ss) bound e a =
    let row = cells (better s previous) 0 (suc budget) in
    let exact = next-Exact budget s (sections_of done) previous (omega arith) e in
    fill-AllExact budget row (record { section = s; row = row; previous = previous } ∷ done) ss
      (omega arith) exact (exact, e, a)

unwind-fill :
    (budget : ℕ) (previous : List ℕ) (done : List Filled) (ss : List CompiledSection)
    → unwind (sections_of (fill budget previous done ss)) [] ≡ unwind (sections_of done) ss
unfolding fill unwind sections_of
unwind-fill budget previous done [] = refl
unwind-fill budget previous done (s ∷ ss) =
    unwind-fill budget (cells (better s previous) 0 (suc budget))
      (record { section = s; row = cells (better s previous) 0 (suc budget); previous = previous }
        ∷ done)
      ss

token_sum-unwind :
    (ss later : List CompiledSection) → token_sum (unwind ss later) ≡ token_sum ss + token_sum later
unfolding unwind
token_sum-unwind [] later = omega arith
token_sum-unwind (s ∷ ss) later = omega (arith, token_sum-unwind ss (s ∷ later))

value_sum-unwind :
    (ss later : List CompiledSection) → value_sum (unwind ss later) ≡ value_sum ss + value_sum later
unfolding unwind
value_sum-unwind [] later = omega arith
value_sum-unwind (s ∷ ss) later = omega (arith, value_sum-unwind ss (s ∷ later))

-- A choice from the whole list is a choice from each of its two parts.
split_parts :
    (ss later xs : List CompiledSection)
    → Choice xs (unwind ss later)
    → (us vs : List CompiledSection) × Choice us ss × Choice vs later × (xs ≡ unwind us vs)
unfolding unwind
split_parts [] later xs c = ([], xs, nothing, c, refl)
split_parts (s ∷ ss) later xs c = after (split_parts ss (s ∷ later) xs c)
  where
    after :
        (us vs : List CompiledSection) × Choice us ss × Choice vs (s ∷ later) × (xs ≡ unwind us vs)
        → (us vs : List CompiledSection) × Choice us (s ∷ ss)
          × Choice vs later
          × (xs ≡ unwind us vs)
    after (us, vs, a, leave b, e) = (us, vs, leave a, b, e)
    after (us, _, a, pick {xs = vs} b, e) = (s ∷ us, vs, pick a, b, e)

unwind_parts :
    {xs ss us later : List CompiledSection}
    → Choice xs ss
    → Choice us later
    → Choice (unwind xs us) (unwind ss later)
unfolding unwind
unwind_parts nothing d = d
unwind_parts (leave c) d = unwind_parts c (leave d)
unwind_parts (pick c) d = unwind_parts c (pick d)

picks_bound :
    (xs ss : List CompiledSection) (cap : ℕ)
    → Choice xs ss
    → token_sum xs ≤ cap
    → value_sum xs ≤ best ss cap
unfolding best
picks_bound _ _ cap nothing h = omega arith
picks_bound xs (s ∷ ss) cap (leave c) h = ground (arith, picks_bound xs ss cap c h)
picks_bound (s ∷ xs) (_ ∷ ss) cap (pick c) h =
    ground (arith, picks_bound xs ss (cap - s.tokens) c (omega arith))

picks_none : {xs : List CompiledSection} → Choice xs [] → xs ≡ []
picks_none nothing = refl

whole_bound :
    (ss xs : List CompiledSection) (cap : ℕ)
    → Choice xs (unwind ss [])
    → token_sum xs ≤ cap
    → value_sum xs ≤ best ss cap
whole_bound ss xs cap c within =
    let (us, vs, cu, cv, e) = split_parts ss [] xs c in
    let none_left = picks_none cv in
    let whole = e ∙ ap (unwind us) none_left in
    omega (
      arith,
      picks_bound us ss cap cu (omega (arith, ap token_sum whole, token_sum-unwind us [], within)),
      ap value_sum whole,
      value_sum-unwind us [],
    )

-- Where a cell differs from the one before it, its section fits.
AllSlack : ℕ → List Filled → Type 0
AllSlack budget [] = Unit
AllSlack budget (f ∷ fs) =
    ((cap : ℕ)
      → cap ≤ budget
      → (cell f.row cap == cell f.previous cap) ≡ false
      → f.section.tokens ≤ cap)
    × AllSlack budget fs

fill-AllSlack :
    (budget : ℕ) (previous : List ℕ) (done : List Filled) (ss : List CompiledSection)
    → AllSlack budget done
    → AllSlack budget (fill budget previous done ss)
unfolding fill AllSlack better
fill-AllSlack budget previous done [] a = a
fill-AllSlack budget previous done (s ∷ ss) a =
    let row = cells (better s previous) 0 (suc budget) in
    fill-AllSlack budget row (record { section = s; row = row; previous = previous } ∷ done) ss (
      (λ cap h differs.
          ground (arith, cell-cells (better s previous) 0 (suc budget) cap (omega arith), differs)),
      a,
    )

-- What the walk back adds to what it starts with.
record Walked (budget : ℕ) (done : List Filled) (w out : Walk) : Type 0 where
  picked : List CompiledSection
  is_choice : Choice picked (sections_of done)
  in_order : out.selected ≡ unwind picked w.selected
  fits : token_sum picked ≤ w.cap
  is_best :
      AllExact budget done
      → value_sum (sections_of done) ≤ usize_max
      → value_sum picked ≡ best (sections_of done) w.cap
  total :
      w.total_tokens + token_sum picked ≤ usize_max
      → out.total_tokens ≡ w.total_tokens + token_sum picked

walk_back-Walked :
    (budget : ℕ) (done : List Filled) (w : Walk)
    → AllSlack budget done
    → w.cap ≤ budget
    → Walked budget done w (walk_back done w)
unfolding walk_back visit AllSlack AllExact sections_of unwind best Exact
walk_back-Walked budget [] w a h = record {
  picked = [];
  is_choice = nothing;
  in_order = refl;
  fits = omega arith;
  is_best = λ e v. refl;
  total = λ k. omega arith;
}
walk_back-Walked budget (f ∷ fs) w a h =
    if_keeps (λ v. Walked budget (f ∷ fs) w (walk_back fs v))
      (cell f.row w.cap == cell f.previous w.cap) _ _
      (λ t.
        let r = walk_back-Walked budget fs w a.1 h in
        record {
          picked = r.picked;
          is_choice = leave r.is_choice;
          in_order = r.in_order;
          fits = r.fits;
          is_best = λ e v. ground (arith, e.0 w.cap h, e.1 w.cap h, r.is_best e.2 (omega arith), t);
          total = r.total;
        })
      (λ n.
        let room = a.0 w.cap h n in
        let r = walk_back-Walked budget fs _ a.1 (omega arith) in
        record {
          picked = f.section ∷ r.picked;
          is_choice = pick r.is_choice;
          in_order = r.in_order;
          fits = omega (arith, r.fits, room);
          is_best = λ e v. ground (arith, e.0 w.cap h, e.1 w.cap h, r.is_best e.2 (omega arith), n);
          total = λ k. r.total (omega arith) ∙ omega arith;
        })

zeros-Exact : (budget : ℕ) → Exact budget [] (cells (λ cap. 0) 0 (suc budget))
unfolding Exact best
zeros-Exact budget cap h = cell-cells (λ c. 0) 0 (suc budget) cap (omega arith)

table_of : List CompiledSection → ℕ → List Filled
table_of ranked budget = fill budget (cells (λ cap. 0) 0 (suc budget)) [] ranked

walk_of :
    (ranked : List CompiledSection) (budget : ℕ)
    → Walked budget
        (table_of ranked budget)
        (nothing_chosen budget)
        (walk_back (table_of ranked budget) (nothing_chosen budget))
unfolding table_of AllSlack
walk_of ranked budget =
    walk_back-Walked budget (table_of ranked budget) (nothing_chosen budget)
      (fill-AllSlack budget _ [] ranked tt) (omega arith)

-- The selected sections are some of the ranked ones, and within the budget.
pub record FitsBudget (ranked : List CompiledSection) (budget : ℕ) (f : Fitted) : Type 0 where
  pub is_choice : Choice f.selected ranked
  pub summed : token_sum f.selected ≡ f.total_tokens
  pub within : f.total_tokens ≤ budget

pub budget_fitting-FitsBudget :
    (ranked : List CompiledSection) (budget : ℕ)
    → budget ≤ usize_max
    → FitsBudget ranked budget (budget_fitting ranked budget)
unfolding budget_fitting sections_of unwind table_of
budget_fitting-FitsBudget ranked budget small =
    let r = walk_of ranked budget in
    let tokens = token_sum-unwind r.picked [] in
    let total = r.total (omega (arith, r.fits)) in
    record {
      is_choice =
          subst (λ xs. Choice xs ranked) (sym r.in_order)
            (subst (Choice (unwind r.picked [])) (unwind-fill budget _ [] ranked)
              (unwind_parts r.is_choice nothing));
      summed = omega (arith, ap token_sum r.in_order, tokens, total);
      within = omega (arith, total, r.fits);
    }

-- For ranked sections whose values `priority * 100 + 1` add up to a `usize`, and a budget that is a
-- `usize`: the selected sections are a choice of the ranked ones, in their order; their tokens sum up
-- to the reported total, which is at most the budget; and no choice whose tokens are within the
-- budget has a larger sum of the values.
pub budget_fitting-optimal :
    (ranked : List CompiledSection) (budget : ℕ)
    → value_sum ranked ≤ usize_max
    → budget ≤ usize_max
    → FitsBudget ranked budget (budget_fitting ranked budget)
      × ((others : List CompiledSection)
          → Choice others ranked
          → token_sum others ≤ budget
          → value_sum others ≤ value_sum (budget_fitting ranked budget).selected)
unfolding budget_fitting sections_of unwind AllExact table_of
budget_fitting-optimal ranked budget values small = (
  budget_fitting-FitsBudget ranked budget small,
  λ others c within.
      let table = table_of ranked budget in
      let order = unwind-fill budget (cells (λ cap. 0) 0 (suc budget)) [] ranked in
      let exact = fill-AllExact budget _ [] ranked (omega arith) (zeros-Exact budget) tt in
      let r = walk_of ranked budget in
      omega (
        arith,
        whole_bound (sections_of table) others budget (subst (Choice others) (sym order) c) within,
        r.is_best exact
            (omega (arith, value_sum-unwind (sections_of table) [], ap value_sum order, values)),
        ap value_sum r.in_order,
        value_sum-unwind r.picked [],
      ),
)
