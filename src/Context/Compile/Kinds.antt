-- ===== src/Context/Compile/Kinds.antt =====
-- The kinds of the sections in the packets of context/mod.rs, and what its metrics count of them.
use memix.Base.{
  ℕ, ◌≤◌, String, ◌≡◌, refl, sym, ap, ◌∙◌, subst, inl, inr, true, false, Option, none, some, List,
  [], ◌∷◌, ◌++◌, arith, eq_iff, number_key, text_key, pair_key, bool_key, All, All-append, some_inj,
  map-eq-some, sort_by, All-sort_by,
}
use memix.Dict.{contains}
use memix.Graph.{DependencyGraph}
use memix.Brain.{MemoryEntry}
use memix.Recorder.{FlightRecord}
use memix.Context.{Host, CompileRequest, CompiledContext, CompiledSection, compiled_section}
use memix.Context.Ranking.{ranked_before, push_section, append_sections}
use memix.Context.Ranking.Built.{Built, nothing_built, pushed, appended, section_kinds}
use memix.Context.Fitting.{usize_max, budget_fitting}
use memix.Context.Fitting.Optimal.{budget_fitting-FitsBudget}
use memix.Context.Compile.{packet, compile, count_kind}
use memix.Context.Compile.Packet.{compile-Packed, Choice-All}

OfKind : CompiledSection → Type 0
OfKind s = contains s.kind section_kinds ≡ true

push-cases :
    (o : Option CompiledSection) (rest : Option (List CompiledSection)) (ss : List CompiledSection)
    → push_section o rest ≡ some ss
    → (s : CompiledSection) × (ts : List CompiledSection) × (o ≡ some s)
      × (rest ≡ some ts)
      × (s ∷ ts ≡ ss)
unfolding push_section
push-cases none rest ss h = cc
push-cases (some s) none ss h = cc
push-cases (some s) (some ts) ss h = (s, ts, refl, refl, some_inj h)

append-cases :
    (a b : Option (List CompiledSection)) (ss : List CompiledSection)
    → append_sections a b ≡ some ss
    → (xs ys : List CompiledSection) × (a ≡ some xs) × (b ≡ some ys) × (xs ++ ys ≡ ss)
unfolding append_sections
append-cases none b ss h = cc
append-cases (some xs) none ss h = cc
append-cases (some xs) (some ys) ss h = (xs, ys, refl, refl, some_inj h)

compiled_section-kind :
    (host : Host) (id kind : String) (priority : ℕ) (content : String) (s : CompiledSection)
    → compiled_section host id kind priority content ≡ some s
    → kind ≡ s.kind
unfolding compiled_section
compiled_section-kind host id kind priority content s h =
    let (n, q, e) = map-eq-some _ (host.count_tokens content) h in ap (λ x. x.kind) e

All-Built :
    (host : Host) {o : Option (List CompiledSection)}
    → Built host o
    → (ss : List CompiledSection) → o ≡ some ss
    → All OfKind ss
unfolding OfKind
All-Built host nothing_built ss h = subst (All OfKind) (some_inj h) tt
All-Built host (pushed {rest} id kind priority content k b) ss h =
    let (s, ts, q, r, e) = push-cases (compiled_section host id kind priority content) rest ss h in
    subst (All OfKind) e (
      subst (λ x. contains x section_kinds ≡ true)
          (compiled_section-kind host id kind priority content s q) k,
      All-Built host b ts r,
    )
All-Built host (appended {a} {b} x y) ss h =
    let (xs, ys, q, r, e) = append-cases a b ss h in
    subst (All OfKind) e (All-append OfKind xs ys (All-Built host x xs q) (All-Built host y ys r))

count_kind-none :
    (kind : String) (ss : List CompiledSection)
    → contains kind section_kinds ≡ false
    → All OfKind ss
    → count_kind kind ss ≡ 0
unfolding count_kind OfKind
count_kind-none kind [] h a = refl
count_kind-none kind (s ∷ ss) h a = ground (
  arith,
  count_kind-none kind ss h a.1,
  a.0,
  h,
  eq_iff s.kind kind,
  ap (λ k. contains k section_kinds) {x = s.kind} {y = kind},
)

-- Whenever `compile` returns, for a budget that is a `usize`, the metrics report no skeleton and no
-- section of the skeleton index, also where such sections are selected: the kinds that they count,
-- `Skeleton` and `SkeletonIndex`, are the kinds of no section.
pub compile-skeletons_built :
    (host : Host) (workspace_root : Option String) (request : CompileRequest)
    (graph : DependencyGraph) (history : List FlightRecord)
    (brain_entries skeleton_entries : List MemoryEntry) (causal_context : Option String)
    (out : CompiledContext)
    → request.token_budget ≤ usize_max
    → compile host workspace_root request graph history brain_entries skeleton_entries
        causal_context
      ≡ some out
    → (out.metrics.skeletons_built ≡ 0) × (out.metrics.skeleton_index_sections ≡ 0)
unfolding packet contains OfKind
compile-skeletons_built host root request graph history brain index causal out small q =
    elim (compile-Packed host root request graph history brain index causal out q) [
      | inl (e, z) ↦ (
        ap (λ o. o.metrics.skeletons_built) (sym e),
        ap (λ o. o.metrics.skeleton_index_sections) (sym e),
      )
      | inr p ↦
          (let ranked = sort_by ranked_before p.sections in
            let fits = budget_fitting-FitsBudget ranked request.token_budget small in
            let of_kind = Choice-All OfKind fits.is_choice (
              All-sort_by ranked_before OfKind p.sections
                (All-Built host p.built p.sections refl)) in
            (
              ap (λ o. o.metrics.skeletons_built) (sym p.is_packet)
                  ∙ count_kind-none "Skeleton" (budget_fitting ranked request.token_budget).selected
                      refl of_kind,
              ap (λ o. o.metrics.skeleton_index_sections) (sym p.is_packet)
                  ∙ count_kind-none "SkeletonIndex"
                      (budget_fitting ranked request.token_budget).selected refl of_kind,
            ))
    ]
