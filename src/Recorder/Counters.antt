-- ===== src/Recorder/Counters.antt =====
-- The counters of recorder/flight.rs against the whole session.
use memix.Base.{
  ℕ, ◌+◌, ◌%◌, ◌^◌, String, ◌≡◌, refl, sym, subst, List, [], ◌∷◌, ◌++◌, arith, eq_iff,
  if◌then◌else◌, ◌==◌, number_key, text_key, pair_key, bool_key, append_none, append_assoc,
}
use memix.Recorder.{
  SessionEvent, FlightRecord, RunningCounters, FlightRecorder, new, record_event, count_event, plus,
  bump, ast_mutation, memory_accessed, intent_detected, score_penalty,
}
use memix.Recorder.Timeline.{replay}
use memix.Dict.{Dict, lookup, or_else}
use memix.Dict.Laws.{lookup-insert}

-- What one event adds to each counter.
abbrev pub mutates : SessionEvent → ℕ
mutates (ast_mutation file n) = 1
mutates _ = 0

abbrev pub accesses : SessionEvent → ℕ
accesses (memory_accessed id) = 1
accesses _ = 0

abbrev pub penalizes : SessionEvent → ℕ
penalizes (score_penalty reason severity) = 1
penalizes _ = 0

abbrev pub severity_of : SessionEvent → ℕ
severity_of (score_penalty reason severity) = severity
severity_of _ = 0

abbrev pub mutates_file : String → SessionEvent → ℕ
mutates_file f (ast_mutation file n) = if file == f then 1 else 0
mutates_file f _ = 0

abbrev pub detects : String → SessionEvent → ℕ
detects i (intent_detected intent) = if intent == i then 1 else 0
detects i _ = 0

abbrev pub weight : (SessionEvent → ℕ) → List FlightRecord → ℕ
weight w [] = 0
weight w (r ∷ rs) = w r.event + weight w rs

-- A total over the session, in a `u64`.
abbrev pub total : (SessionEvent → ℕ) → List FlightRecord → ℕ
total w rs = weight w rs % 2 ^ 64

pub record Counts (rs : List FlightRecord) (c : RunningCounters) : Type 0 where
  pub mutations : c.total_mutations ≡ total mutates rs
  pub accesses_counted : c.total_memory_accesses ≡ total accesses rs
  pub penalties : c.total_penalties ≡ total penalizes rs
  pub severity : c.penalty_severity_sum ≡ total severity_of rs
  pub per_file :
      (f : String) → or_else 0 (lookup f c.file_mutation_counts) ≡ total (mutates_file f) rs
  pub per_intent : (i : String) → or_else 0 (lookup i c.intent_counts) ≡ total (detects i) rs

weight-append :
    (w : SessionEvent → ℕ) (rs : List FlightRecord) (r : FlightRecord)
    → weight w (rs ++ r ∷ []) ≡ weight w rs + w r.event
weight-append w [] r = omega arith
weight-append w (s ∷ rs) r = omega (arith, weight-append w rs r)

total-plus :
    (w : SessionEvent → ℕ) (rs : List FlightRecord) (r : FlightRecord) {n : ℕ}
    → n ≡ total w rs
    → plus n (w r.event) ≡ total w (rs ++ r ∷ [])
total-plus w rs r h = omega (arith, weight-append w rs r, h)

total-same :
    (w : SessionEvent → ℕ) (rs : List FlightRecord) (r : FlightRecord) {n : ℕ}
    → w r.event ≡ 0
    → n ≡ total w rs
    → n ≡ total w (rs ++ r ∷ [])
total-same w rs r z h = omega (arith, weight-append w rs r, h, z)

lookup-bump :
    (key read : String) (m : Dict String ℕ)
    → or_else 0 (lookup read (bump key m))
      ≡ (if key == read then plus (or_else 0 (lookup read m)) 1 else or_else 0 (lookup read m))
lookup-bump key read m =
    ground (arith, lookup-insert key read (plus (or_else 0 (lookup key m)) 1) m, eq_iff key read)

-- The count under each key, where the event is counted under one.
total-bump :
    (w : String → SessionEvent → ℕ) (key : String) (rs : List FlightRecord) (r : FlightRecord)
    (m : Dict String ℕ)
    → ((read : String) → w read r.event ≡ (if key == read then 1 else 0))
    → ((read : String) → or_else 0 (lookup read m) ≡ total (w read) rs)
    → (read : String) → or_else 0 (lookup read (bump key m)) ≡ total (w read) (rs ++ r ∷ [])
total-bump w key rs r m one h read =
    ground (arith, lookup-bump key read m, weight-append (w read) rs r, h read, one read)

module _ (rs : List FlightRecord) (c : RunningCounters) (h : Counts rs c) (t : ℕ) where
  abbrev at : SessionEvent → FlightRecord
  at e = record { timestamp = t; event = e }

  count_event-Counts : (e : SessionEvent) → Counts (rs ++ at e ∷ []) (count_event e c)
  unfolding count_event
  count_event-Counts (ast_mutation file n) = record {
    mutations = total-plus mutates rs (at (ast_mutation file n)) h.mutations;
    accesses_counted = total-same accesses rs (at (ast_mutation file n)) refl h.accesses_counted;
    penalties = total-same penalizes rs (at (ast_mutation file n)) refl h.penalties;
    severity = total-same severity_of rs (at (ast_mutation file n)) refl h.severity;
    per_file =
        total-bump mutates_file file rs (at (ast_mutation file n)) c.file_mutation_counts
          (λ f. refl) h.per_file;
    per_intent = λ i. total-same (detects i) rs (at (ast_mutation file n)) refl (h.per_intent i);
  }
  count_event-Counts (memory_accessed id) = record {
    mutations = total-same mutates rs (at (memory_accessed id)) refl h.mutations;
    accesses_counted = total-plus accesses rs (at (memory_accessed id)) h.accesses_counted;
    penalties = total-same penalizes rs (at (memory_accessed id)) refl h.penalties;
    severity = total-same severity_of rs (at (memory_accessed id)) refl h.severity;
    per_file = λ f. total-same (mutates_file f) rs (at (memory_accessed id)) refl (h.per_file f);
    per_intent = λ i. total-same (detects i) rs (at (memory_accessed id)) refl (h.per_intent i);
  }
  count_event-Counts (intent_detected intent) = record {
    mutations = total-same mutates rs (at (intent_detected intent)) refl h.mutations;
    accesses_counted = total-same accesses rs (at (intent_detected intent)) refl h.accesses_counted;
    penalties = total-same penalizes rs (at (intent_detected intent)) refl h.penalties;
    severity = total-same severity_of rs (at (intent_detected intent)) refl h.severity;
    per_file =
        λ f. total-same (mutates_file f) rs (at (intent_detected intent)) refl (h.per_file f);
    per_intent =
        total-bump detects intent rs (at (intent_detected intent)) c.intent_counts (λ i. refl)
          h.per_intent;
  }
  count_event-Counts (score_penalty reason severity) = record {
    mutations = total-same mutates rs (at (score_penalty reason severity)) refl h.mutations;
    accesses_counted =
        total-same accesses rs (at (score_penalty reason severity)) refl h.accesses_counted;
    penalties = total-plus penalizes rs (at (score_penalty reason severity)) h.penalties;
    severity = total-plus severity_of rs (at (score_penalty reason severity)) h.severity;
    per_file = λ f.
        total-same (mutates_file f) rs (at (score_penalty reason severity)) refl (h.per_file f);
    per_intent =
        λ i. total-same (detects i) rs (at (score_penalty reason severity)) refl (h.per_intent i);
  }

replay-Counts_from :
    (rs past : List FlightRecord) (f : FlightRecorder)
    → Counts past f.counters
    → Counts (past ++ rs) (replay rs f).counters
unfolding replay record_event
replay-Counts_from [] past f h = subst (λ xs. Counts xs f.counters) (sym (append_none past)) h
replay-Counts_from (r ∷ rs) past f h =
    subst (λ xs. Counts xs (replay rs (record_event r.timestamp r.event f)).counters)
      (append_assoc past (r ∷ []) rs)
      (replay-Counts_from rs (past ++ r ∷ []) (record_event r.timestamp r.event f)
        (count_event-Counts past f.counters h r.timestamp r.event))

-- After any session the counters are totals over all of it, in a `u64`, whatever the timeline has
-- dropped: the mutations, the accesses, the penalties with their severities, the mutations of each
-- file and the detections of each intent.
pub replay-Counts :
    (max_capacity : ℕ) (rs : List FlightRecord) → Counts rs (replay rs (new max_capacity)).counters
unfolding lookup
replay-Counts max_capacity rs = replay-Counts_from rs [] (new max_capacity) (record {
  mutations = omega arith;
  accesses_counted = omega arith;
  penalties = omega arith;
  severity = omega arith;
  per_file = λ f. omega arith;
  per_intent = λ i. omega arith;
})
