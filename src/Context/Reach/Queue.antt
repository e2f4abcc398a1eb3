-- ===== src/Context/Reach/Queue.antt =====
-- The queue of the search of relevant files of context/mod.rs, and the depths that it has found.
use memix.Base.{
  ℕ, ◌≤◌, String, ◌≡◌, refl, ap, ◌∙◌, ◌⊎◌, inl, inr, Bool, false, Option, none, some, List, [], ◌∷◌,
  ◌++◌, arith, eq_iff, if◌then◌else◌, ◌==◌, number_key, text_key, pair_key, bool_key, Bool-cases,
  All, All-append,
}
use memix.Dict.{Dict, lookup, contains, keys}
use memix.Dict.Entries.{lookup-append, lookup-known}
use memix.Context.Reach.{RelevantFile}

abbrev pub entries : List RelevantFile → Dict String ℕ
entries [] = []
entries (f ∷ fs) = (f.path, f.depth) ∷ entries fs

pub entries-append :
    (files : List RelevantFile) (f : RelevantFile)
    → entries (files ++ f ∷ []) ≡ entries files ++ (f.path, f.depth) ∷ []
entries-append [] f = refl
entries-append (g ∷ gs) f = ap (λ m. (g.path, g.depth) ∷ m) (entries-append gs f)

abbrev pub depth_of : String → List RelevantFile → Option ℕ
depth_of path files = lookup path (entries files)

abbrev pub known : String → List RelevantFile → Bool
known path files = contains path (keys (entries files))

depth_of-append :
    (b : String) (files : List RelevantFile) (f : RelevantFile)
    → depth_of b (files ++ f ∷ [])
      ≡ (if known b files then depth_of b files else if f.path == b then some f.depth else none)
depth_of-append b files f =
    ap (lookup b) (entries-append files f) ∙ lookup-append b f.path f.depth (entries files)

-- What is found stays, the last file is found, and nothing else.
pub depth_of-earlier :
    (b : String) (k : ℕ) (files : List RelevantFile) (f : RelevantFile)
    → depth_of b files ≡ some k
    → depth_of b (files ++ f ∷ []) ≡ some k
depth_of-earlier b k files f h =
    ground (arith, depth_of-append b files f, lookup-known b k (entries files), h)

pub depth_of-last :
    (files : List RelevantFile) (f : RelevantFile)
    → known f.path files ≡ false
    → depth_of f.path (files ++ f ∷ []) ≡ some f.depth
depth_of-last files f h = ground (arith, depth_of-append f.path files f, h, eq_iff f.path f.path)

pub depth_of-cases :
    (b : String) (k : ℕ) (files : List RelevantFile) (f : RelevantFile)
    → depth_of b (files ++ f ∷ []) ≡ some k
    → (depth_of b files ≡ some k) ⊎ ((f.path ≡ b) × (f.depth ≡ k))
depth_of-cases b k files f h = elim (Bool-cases (known b files)) [
  | inl t ↦ inl (ground (arith, depth_of-append b files f, h, t))
  | inr n ↦ inr (ground (arith, depth_of-append b files f, h, n, eq_iff f.path b))
]

abbrev pub names : List (String × ℕ) → List String
names [] = []
names (q ∷ qs) = q.0 ∷ names qs

pub names-append :
    (queue : List (String × ℕ)) (q : String × ℕ) → names (queue ++ q ∷ []) ≡ names queue ++ q.0 ∷ []
names-append [] q = refl
names-append (r ∷ rs) q = ap (λ ns. r.0 ∷ ns) (names-append rs q)

-- The depths in the queue do not fall.
abbrev pub Ascending : List (String × ℕ) → Type 0
Ascending [] = Unit
Ascending (q ∷ qs) = All (λ r. q.1 ≤ r.1) qs × Ascending qs

pub append-Ascending :
    (queue : List (String × ℕ)) (q : String × ℕ)
    → All (λ r. r.1 ≤ q.1) queue
    → Ascending queue
    → Ascending (queue ++ q ∷ [])
append-Ascending [] q a h = (tt, tt)
append-Ascending (r ∷ rs) q a h =
    (All-append (λ s. r.1 ≤ s.1) rs (q ∷ []) h.0 (a.0, tt), append-Ascending rs q a.1 h.1)
