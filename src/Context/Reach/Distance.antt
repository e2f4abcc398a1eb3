-- ===== src/Context/Reach/Distance.antt =====
-- The relevant files of context/mod.rs and the distance from the active file.
use memix.Base.{
  ℕ, zero, suc, ◌≤◌, String, ◌≡◌, refl, sym, ap, ◌∙◌, subst, inl, inr, true, false, some, List, [],
  ◌∷◌, arith, eq_iff, leb, ◌==◌, number_key, text_key, pair_key, bool_key, Bool-cases, count, All,
  some_inj, sort_by, Sorted, count-sort_by, All-sort_by,
}
use memix.Context.Reach.Invariant.{
  contains-neighbors, Closed, further, Walk, stay, Sound, Inv, pop-Inv, visit-Inv,
}
use memix.Dict.{lookup, contains, keys}
use memix.Dict.Entries.{NoRepeat, All-lookup, lookup-known}
use memix.Graph.{DependencyGraph}
use memix.Context.Reach.{
  RelevantFile, Search, start, visit, search, rounds, before, dead_context_elimination,
}
use memix.Context.Reach.Ends.{search-start}
use memix.Context.Reach.Order.{no_deeper, sort-Sorted}
use memix.Context.Reach.Queue.{names, entries, depth_of, known}
use mathlib.Core.Option

module _ (graph : DependencyGraph) (active_file : String) (max_depth : ℕ) where
  start-Sound :
      (b : String) (k : ℕ)
      → depth_of b (start active_file).out ≡ some k
      → Sound graph active_file max_depth 0 b k
  unfolding lookup
  start-Sound b k q = record {
    within = ground (arith, q);
    walk =
        subst (λ n. Walk graph active_file n b) (ground (arith, q))
          (subst (Walk graph active_file 0) (ground (arith, q, eq_iff active_file b)) stay);
    near = ground (arith, q);
  }

  start-Inv : Inv graph active_file max_depth 0 [] (start active_file)
  unfolding contains lookup
  start-Inv = record {
    seen_known = λ b. refl;
    once = (refl, tt);
    sound = λ b k q. start-Sound b k q;
    queued = ((ground (arith, eq_iff active_file active_file), omega arith), tt);
    ascending = (tt, tt);
    root = ground (arith, eq_iff active_file active_file);
    closed = λ b k q. inl (ground (arith, q));
  }

  -- Where the loop ends, the invariant holds with an empty queue.
  search-Inv :
      (fuel lo : ℕ) (queue : List (String × ℕ)) (seen : List String) (out : List RelevantFile)
      (r : Search)
      → Inv graph active_file max_depth lo [] (record { queue = queue; seen = seen; out = out })
      → search graph max_depth fuel (record { queue = queue; seen = seen; out = out }) ≡ some r
      → (last : ℕ) × Inv graph active_file max_depth last [] r × (r.queue ≡ [])
  unfolding search
  search-Inv zero lo queue seen out r h q = let no : false ≡ true = cc in cc
  search-Inv (suc fuel) lo [] seen out r h q =
      subst (λ s. (last : ℕ) × Inv graph active_file max_depth last [] s × (s.queue ≡ []))
        (some_inj q) (lo, h, refl)
  search-Inv (suc fuel) lo ((file, depth) ∷ queue) seen out r h q =
      let s : Search = record { queue = queue; seen = seen; out = out } in
      let next = visit graph max_depth file depth s in
      search-Inv fuel depth next.queue next.seen next.out r
        (visit-Inv graph active_file max_depth file depth s h.queued.0.0
          (pop-Inv graph active_file max_depth lo file depth queue seen out h))
        q

  -- Every walk within the depth ends at a file that is found, no deeper than the walk is long.
  walk_found :
      (lo : ℕ) (s : Search)
      → Inv graph active_file max_depth lo [] s
      → s.queue ≡ []
      → (n : ℕ) (b : String) → Walk graph active_file n b
      → n ≤ max_depth
      → (d : ℕ) × (depth_of b s.out ≡ some d) × (d ≤ n)
  unfolding contains Closed
  walk_found lo s h none_left _ _ stay within = (0, h.root, omega arith)
  walk_found lo s h none_left _ c (further {n} {b} w edge) within =
      let (d, q, l) = walk_found lo s h none_left n b w (omega arith) in
      elim (h.closed b d q) [
        | inl waits ↦
            (let no : false ≡ true = sym (ap (λ ns. contains b (names ns)) none_left) ∙ waits in cc)
        | inr (inl m) ↦ (let no : false ≡ true = ground arith in cc)
        | inr (inr cl) ↦
            (let (e, q', l') = cl c (contains-neighbors graph b c edge) in (e, q', omega arith))
      ]

  -- What the result of the search has.
  pub record IsRelevant (files : List RelevantFile) : Type 0 where
    pub each :
        All
          (λ f.
            (f.depth ≤ max_depth)
            × Walk graph active_file f.depth f.path
            × ((n : ℕ) → Walk graph active_file n f.path → f.depth ≤ n))
          files
    pub once :
        (n : ℕ) (b : String)
        → Walk graph active_file n b
        → n ≤ max_depth
        → count (λ f. f.path == b) files ≡ 1
    pub by_depth : Sorted no_deeper files

  All-files :
      (P : String → ℕ → Type 0) {Q : RelevantFile → Type 0} (files : List RelevantFile)
      → ((f : RelevantFile) → P f.path f.depth → Q f)
      → All (λ p. P p.0 p.1) (entries files)
      → All Q files
  All-files P [] g a = tt
  All-files P (f ∷ fs) g a = (g f a.0, All-files P fs g a.1)

  count-none :
      (b : String) (files : List RelevantFile)
      → known b files ≡ false
      → count (λ f. f.path == b) files ≡ 0
  unfolding contains
  count-none b [] h = refl
  count-none b (f ∷ fs) h = ground (arith, count-none b fs, h)

  count-one :
      (b : String) (files : List RelevantFile)
      → NoRepeat (keys (entries files))
      → known b files ≡ true
      → count (λ f. f.path == b) files ≡ 1
  unfolding contains
  count-one b [] n h = cc
  count-one b (f ∷ fs) n h = ground (
    arith,
    count-one b fs n.1,
    h,
    count-none b fs,
    eq_iff f.path b,
    ap (λ x. known x fs) {x = f.path} {y = b},
    n.0,
  )

  least :
      (lo : ℕ) (s : Search)
      → Inv graph active_file max_depth lo [] s
      → s.queue ≡ []
      → (f : RelevantFile) → depth_of f.path s.out ≡ some f.depth
      → (f.depth ≤ max_depth)
        × Walk graph active_file f.depth f.path
        × ((n : ℕ) → Walk graph active_file n f.path → f.depth ≤ n)
  least lo s h none_left f q =
      let sound = h.sound f.path f.depth q in
      (
        sound.within,
        sound.walk,
        λ n w. elim (Bool-cases (leb n max_depth)) [
          | inr over ↦ ground (arith, sound.within, over)
          | inl within ↦
              (let (d, e, l) = walk_found lo s h none_left n f.path w (ground (arith, within)) in
                ground (arith, some_inj (sym e ∙ q), l))
        ],
      )

  sort-IsRelevant :
      (lo : ℕ) (s : Search)
      → Inv graph active_file max_depth lo [] s
      → s.queue ≡ []
      → IsRelevant (sort_by before s.out)
  sort-IsRelevant lo s h none_left = record {
    each = All-sort_by before _ s.out (
        All-files (λ b k. depth_of b s.out ≡ some k) s.out (least lo s h none_left)
          (All-lookup (entries s.out) h.once));
    once = λ n b w within.
        (let (d, q, l) = walk_found lo s h none_left n b w within in
          count-sort_by before (λ f. f.path == b) s.out
          ∙ count-one b s.out h.once (lookup-known b d (entries s.out) q));
    by_depth = sort-Sorted s.out;
  }

-- The search of the relevant files ends, for every graph, file and depth. Each file of its result can
-- be reached from the active file by the edges, followed in either direction, and has as depth the
-- length of a shortest such walk, which is at most the given depth; every file that can be reached
-- by a walk of at most that length is in the result, once; and the files stand by ascending depth.
pub dead_context_elimination-IsRelevant :
    (active_file : String) (graph : DependencyGraph) (max_depth : ℕ)
    → (files : List RelevantFile) × (dead_context_elimination active_file graph max_depth
        ≡ some files)
      × IsRelevant graph active_file max_depth files
unfolding dead_context_elimination
dead_context_elimination-IsRelevant active_file graph max_depth =
    let (r, q) = search-start graph max_depth active_file in
    let (last, h, none_left) =
      search-Inv graph active_file max_depth (rounds graph) 0 ((active_file, 0) ∷ [])
        (active_file ∷ []) _ r (start-Inv graph active_file max_depth) q in
    (
      sort_by before r.out,
      ap (Option.map (λ s. sort_by before s.out)) q,
      sort-IsRelevant graph active_file max_depth last r h none_left,
    )
