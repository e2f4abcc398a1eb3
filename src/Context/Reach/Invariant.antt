-- ===== src/Context/Reach/Invariant.antt =====
-- The invariant of the search of relevant files of context/mod.rs.
use memix.Context.Reach.{
  lookup, or_else, visit, notice_all, RelevantFile, Search, neighbors, notice,
}
use memix.Base.{
  ℕ, suc, ◌≤◌, ◌<◌, String, ◌≡◌, sym, ap, ◌∙◌, subst, ◌⊎◌, inl, inr, true, false, some, List, [],
  ◌∷◌, ◌++◌, arith, eq_iff, leb, if◌then◌else◌, ◌==◌, number_key, text_key, pair_key, bool_key,
  Bool-cases, All, All-append, some_inj, if_keeps,
}
use memix.Dict.{contains, keys}
use memix.Dict.Laws.{All-members, contains-add, contains-append}
use memix.Dict.Entries.{NoRepeat, append-NoRepeat, keys-append, lookup-present}
use memix.Graph.{DependencyGraph}
use memix.Context.Reach.Queue.{
  entries, entries-append, depth_of, known, depth_of-earlier, depth_of-last, depth_of-cases, names,
  names-append, Ascending, append-Ascending,
}

-- An edge between two files, in one of the directions.
pub Linked : DependencyGraph → String → String → Type 0
Linked graph b c =
    (contains c (or_else [] (lookup b graph.edges_out)) ≡ true)
    ⊎ (contains c (or_else [] (lookup b graph.edges_in)) ≡ true)

-- A walk of so many edges.
pub data Walk (graph : DependencyGraph) (from : String) : ℕ → String → Type 0 where
  stay : Walk graph from 0 from
  further :
      {n : ℕ} {b c : String} → Walk graph from n b → Linked graph b c → Walk graph from (suc n) c

neighbors-Linked :
    (graph : DependencyGraph) (b c : String)
    → contains c (neighbors graph b) ≡ true
    → Linked graph b c
unfolding neighbors Linked
neighbors-Linked graph b c h =
    elim (Bool-cases (contains c (or_else [] (lookup b graph.edges_out)))) [
      | inl t ↦ inl t
      | inr n ↦ inr (
          ground (
            arith,
            h,
            n,
            contains-append c (or_else [] (lookup b graph.edges_out))
                (or_else [] (lookup b graph.edges_in)),
          ))
    ]

pub contains-neighbors :
    (graph : DependencyGraph) (b c : String)
    → Linked graph b c
    → contains c (neighbors graph b) ≡ true
unfolding neighbors Linked
contains-neighbors graph b c (inl h) = ground (
  arith,
  h,
  contains-append c (or_else [] (lookup b graph.edges_out)) (or_else [] (lookup b graph.edges_in)),
)
contains-neighbors graph b c (inr h) = ground (
  arith,
  h,
  contains-append c (or_else [] (lookup b graph.edges_out)) (or_else [] (lookup b graph.edges_in)),
)

keys_later :
    (out : List RelevantFile) (f : RelevantFile)
    → keys (entries (out ++ f ∷ [])) ≡ keys (entries out) ++ f.path ∷ []
keys_later out f = ap keys (entries-append out f) ∙ keys-append f.path f.depth (entries out)

known_later :
    (b : String) (out : List RelevantFile) (f : RelevantFile)
    → known b (out ++ f ∷ []) ≡ (if known b out then true else f.path == b)
unfolding contains
known_later b out f = ground (
  arith,
  ap (contains b) (keys_later out f),
  contains-append b (keys (entries out)) (f.path ∷ []),
)

waiting_later :
    (b file : String) (queue : List (String × ℕ)) (q : String × ℕ)
    → contains b (file ∷ names (queue ++ q ∷ []))
      ≡ (if contains b (file ∷ names queue) then true else q.0 == b)
unfolding contains
waiting_later b file queue q =
    ground
      (arith, ap (contains b) (names-append queue q), contains-append b (names queue) (q.0 ∷ []))

module _ (graph : DependencyGraph) (active_file : String) (max_depth : ℕ) where
  -- Each neighbor is found, at most one edge further.
  unfoldable pub Closed : List RelevantFile → String → ℕ → Type 0
  Closed out b k =
      (c : String)
      → contains c (neighbors graph b) ≡ true
      → (d : ℕ) × (depth_of c out ≡ some d) × (d ≤ suc k)

  pub record Sound (lo : ℕ) (b : String) (k : ℕ) : Type 0 where
    pub within : k ≤ max_depth
    pub walk : Walk graph active_file k b
    pub near : k ≤ suc lo

  -- `lo` is the depth of the round, and `current` the file that it is about.
  pub record Inv (lo : ℕ) (current : List String) (s : Search) : Type 0 where
    pub seen_known : (b : String) → contains b s.seen ≡ known b s.out
    pub once : NoRepeat (keys (entries s.out))
    pub sound : (b : String) (k : ℕ) → depth_of b s.out ≡ some k → Sound lo b k
    pub queued : All (λ q. (depth_of q.0 s.out ≡ some q.1) × (lo ≤ q.1)) s.queue
    pub ascending : Ascending s.queue
    pub root : depth_of active_file s.out ≡ some 0
    pub closed :
        (b : String) (k : ℕ)
        → depth_of b s.out ≡ some k
        → (contains b (current ++ names s.queue) ≡ true) ⊎ ((max_depth ≤ k) ⊎ Closed s.out b k)

  Grows : Search → Search → Type 0
  Grows s r = (b : String) (k : ℕ) → depth_of b s.out ≡ some k → depth_of b r.out ≡ some k

  Finds : ℕ → String → Search → Type 0
  Finds lo c r = (d : ℕ) × (depth_of c r.out ≡ some d) × (d ≤ suc lo)

  queued_later :
      (lo : ℕ) (out : List RelevantFile) (f : RelevantFile) (queue : List (String × ℕ))
      → All (λ q. (depth_of q.0 out ≡ some q.1) × (lo ≤ q.1)) queue
      → All (λ q. (depth_of q.0 (out ++ f ∷ []) ≡ some q.1) × (lo ≤ q.1)) queue
  queued_later lo out f [] a = tt
  queued_later lo out f (q ∷ qs) a =
      ((depth_of-earlier q.0 q.1 out f a.0.0, a.0.1), queued_later lo out f qs a.1)

  queued_near :
      (lo : ℕ) (out : List RelevantFile) (queue : List (String × ℕ))
      → ((b : String) (k : ℕ) → depth_of b out ≡ some k → Sound lo b k)
      → All (λ q. (depth_of q.0 out ≡ some q.1) × (lo ≤ q.1)) queue
      → All (λ q. q.1 ≤ suc lo) queue
  queued_near lo out [] h a = tt
  queued_near lo out (q ∷ qs) h a = ((h q.0 q.1 a.0.0).near, queued_near lo out qs h a.1)

  notice-Sound :
      (lo : ℕ) (file c : String) (s : Search)
      → lo < max_depth
      → depth_of file s.out ≡ some lo
      → contains c (neighbors graph file) ≡ true
      → Inv lo (file ∷ []) s
      → (b : String) (k : ℕ) → (depth_of b s.out ≡ some k) ⊎ ((c ≡ b) × (suc lo ≡ k))
      → Sound lo b k
  notice-Sound lo file c s room at next h b k (inl old) = h.sound b k old
  notice-Sound lo file c s room at next h b k (inr (e, e')) = record {
    within = omega (arith, e');
    walk =
        subst (λ n. Walk graph active_file n b) e'
          (subst (λ d. Walk graph active_file (suc lo) d) e
            (further (h.sound file lo at).walk (neighbors-Linked graph file c next)));
    near = omega (arith, e');
  }

  notice-Closed :
      (lo : ℕ) (file c : String) (s : Search)
      → Inv lo (file ∷ []) s
      → (b : String) (k : ℕ) → (depth_of b s.out ≡ some k) ⊎ ((c ≡ b) × (suc lo ≡ k))
      → (contains b (file ∷ names (s.queue ++ (c, suc lo) ∷ [])) ≡ true)
        ⊎ ((max_depth ≤ k) ⊎ Closed (s.out ++ record { path = c; depth = suc lo } ∷ []) b k)
  unfolding Closed
  notice-Closed lo file c s h b k (inr (e, e')) =
      inl (ground (arith, waiting_later b file s.queue (c, suc lo), eq_iff c b, e))
  notice-Closed lo file c s h b k (inl old) = elim (h.closed b k old) [
    | inl w ↦ inl (ground (arith, waiting_later b file s.queue (c, suc lo), w))
    | inr (inl m) ↦ inr (inl m)
    | inr (inr cl) ↦ inr (
        inr (λ c' edge.
          let (d, q, l) = cl c' edge in
          (d, depth_of-earlier c' d s.out (record { path = c; depth = suc lo }) q, l)))
  ]

  notice-Inv :
      (lo : ℕ) (file c : String) (s : Search)
      → lo < max_depth
      → depth_of file s.out ≡ some lo
      → contains c (neighbors graph file) ≡ true
      → Inv lo (file ∷ []) s
      → Inv lo (file ∷ []) (notice lo c s) × Grows s (notice lo c s) × Finds lo c (notice lo c s)
  unfolding notice Grows Finds Closed
  notice-Inv lo file c s room at next h =
      if_keeps (λ r. Inv lo (file ∷ []) r × Grows s r × Finds lo c r) (contains c s.seen) _ _
        (λ t.
          let (d, q) = lookup-present c (entries s.out) (sym (h.seen_known c) ∙ t) in
          (h, (λ b k e. e), (d, q, (h.sound c d q).near)))
        (λ new.
          let f : RelevantFile = record { path = c; depth = suc lo } in
          let unknown : known c s.out ≡ false = sym (h.seen_known c) ∙ new in
          (
            record {
              seen_known = λ b.
                  ground (arith, contains-add c b s.seen, known_later b s.out f, h.seen_known b);
              once = subst NoRepeat (sym (keys_later s.out f)) (append-NoRepeat c _ unknown h.once);
              sound = λ b k q.
                  notice-Sound lo file c s room at next h b k (depth_of-cases b k s.out f q);
              queued =
                  All-append _ s.queue ((c, suc lo) ∷ []) (queued_later lo s.out f s.queue h.queued)
                    ((depth_of-last s.out f unknown, omega arith), tt);
              ascending =
                  append-Ascending s.queue (c, suc lo)
                    (queued_near lo s.out s.queue h.sound h.queued) h.ascending;
              root = depth_of-earlier active_file 0 s.out f h.root;
              closed = λ b k q. notice-Closed lo file c s h b k (depth_of-cases b k s.out f q);
            },
            (λ b k q. depth_of-earlier b k s.out f q),
            (suc lo, depth_of-last s.out f unknown, omega arith),
          ))

  notice_all-Inv :
      (lo : ℕ) (file : String) (cs : List String) (s : Search)
      → lo < max_depth
      → depth_of file s.out ≡ some lo
      → All (λ c. contains c (neighbors graph file) ≡ true) cs
      → Inv lo (file ∷ []) s
      → Inv lo (file ∷ []) (notice_all lo cs s)
        × Grows s (notice_all lo cs s)
        × All (λ c. Finds lo c (notice_all lo cs s)) cs
  unfolding notice_all Grows Finds
  notice_all-Inv lo file [] s room at a h = (h, (λ b k q. q), tt)
  notice_all-Inv lo file (c ∷ cs) s room at a h =
      let (h', grows, (d, q, l)) = notice-Inv lo file c s room at a.0 h in
      let (h'', grows', found) =
        notice_all-Inv lo file cs (notice lo c s) room (grows file lo at) a.1 h' in
      (h'', (λ b k e. grows' b k (grows b k e)), ((d, grows' c d q, l), found))

  -- The round of a file ends when all that it asks for is found.
  finish-Inv :
      (lo : ℕ) (file : String) (s : Search)
      → depth_of file s.out ≡ some lo
      → (max_depth ≤ lo) ⊎ Closed s.out file lo
      → Inv lo (file ∷ []) s
      → Inv lo [] s
  unfolding contains Closed
  finish-Inv lo file s at over h = record {
    seen_known = h.seen_known;
    once = h.once;
    sound = h.sound;
    queued = h.queued;
    ascending = h.ascending;
    root = h.root;
    closed = λ b k q. elim (h.closed b k q) [
      | inr x ↦ inr x
      | inl w ↦ elim (Bool-cases (file == b)) [
        | inr n ↦ inl (ground (arith, w, n))
        | inl t ↦ inr (over_at b k (ground (arith, eq_iff file b, t)) q)
      ]
    ];
  }
    where
      over_at :
          (b : String) (k : ℕ)
          → file ≡ b
          → depth_of b s.out ≡ some k
          → (max_depth ≤ k) ⊎ Closed s.out b k
      over_at b k e q =
          subst (λ c. (max_depth ≤ k) ⊎ Closed s.out c k) e
            (subst (λ d. (max_depth ≤ d) ⊎ Closed s.out file d)
              (some_inj (sym at ∙ ap (λ c. depth_of c s.out) e ∙ q)) over)

  pub pop-Inv :
      (lo : ℕ) (file : String) (depth : ℕ) (queue : List (String × ℕ)) (seen : List String)
      (out : List RelevantFile)
      → Inv lo [] (record { queue = (file, depth) ∷ queue; seen = seen; out = out })
      → Inv depth (file ∷ []) (record { queue = queue; seen = seen; out = out })
  pop-Inv lo file depth queue seen out h = record {
    seen_known = h.seen_known;
    once = h.once;
    sound = λ b k q.
        (let s = h.sound b k q in
          record { within = s.within; walk = s.walk; near = omega (arith, s.near, h.queued.0.1) });
    queued = behind queue h.queued.1 h.ascending.0;
    ascending = h.ascending.1;
    root = h.root;
    closed = h.closed;
  }
    where
      behind :
          (qs : List (String × ℕ))
          → All (λ q. (depth_of q.0 out ≡ some q.1) × (lo ≤ q.1)) qs
          → All (λ q. depth ≤ q.1) qs
          → All (λ q. (depth_of q.0 out ≡ some q.1) × (depth ≤ q.1)) qs
      behind [] a l = tt
      behind (q ∷ qs) a l = ((a.0.0, l.0), behind qs a.1 l.1)

  All-found :
      (lo : ℕ) (cs : List String) (r : Search)
      → All (λ c. Finds lo c r) cs
      → (c : String) → contains c cs ≡ true
      → (d : ℕ) × (depth_of c r.out ≡ some d) × (d ≤ suc lo)
  unfolding Finds contains
  All-found lo [] r a c h = let no : false ≡ true = h in cc
  All-found lo (b ∷ bs) r a c h = elim (Bool-cases (b == c)) [
    | inr n ↦ All-found lo bs r a.1 c (ground (arith, h, n))
    | inl t ↦
        subst (λ x. (d : ℕ) × (depth_of x r.out ≡ some d) × (d ≤ suc lo))
          (ground (arith, eq_iff b c, t)) a.0
  ]

  pub visit-Inv :
      (file : String) (depth : ℕ) (s : Search)
      → depth_of file s.out ≡ some depth
      → Inv depth (file ∷ []) s
      → Inv depth [] (visit graph max_depth file depth s)
  unfolding visit Grows Closed
  visit-Inv file depth s at h =
      if_keeps (Inv depth []) (leb max_depth depth) _ _
        (λ t. finish-Inv depth file s at (inl (ground (arith, t))) h)
        (λ f.
          let (h', grows, found) =
            notice_all-Inv depth file (neighbors graph file) s (ground (arith, f)) at
              (All-members (neighbors graph file) (neighbors graph file) (λ c m. m)) h in
          finish-Inv depth file _ (grows file depth at)
            (inr (All-found depth (neighbors graph file) _ found)) h')
