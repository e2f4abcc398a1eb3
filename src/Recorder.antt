-- ===== src/Recorder.antt =====
-- recorder/flight.rs: the bounded timeline of a session and its running counters. A time stamp is a
-- number of nanoseconds, and `Utc::now` is an argument.
pub mod Timeline
pub mod Counters
mod Hottest
pub mod Summary
mod Tests
use memix.Dict.{Dict, insert, lookup, or_else}
use memix.Base.{
  ℤ, pos, negsuc, whole_units, ℕ, zero, suc, ◌+◌, ◌-◌, ◌*◌, ◌/◌, ◌%◌, ◌^◌, ◌≤◌, ◌<◌, min, max,
  String, ◌≡◌, refl, sym, ap, ◌∙◌, subst, ◌≢◌, ◌↔◌, ◌⊎◌, inl, inr, Bool, true, false, not, ◌&&◌,
  ◌||◌, Option, none, some, List, [], ◌∷◌, ◌++◌, map, arith, eq_iff, ltb, leb, nat_beq,
  if◌then◌else◌, Key, ◌==◌, number_key, text_key, Bool-cases, Option-cases, length, drop, take,
  length-append, length-drop, keep, count, All, All-append, sum, sum-append, concat, show, some_inj,
  map-eq-some, if_keeps, insert_by, sort_by, Sorted, count-insert_by, count-sort_by, All-insert_by,
  All-sort_by, sort_by-Sorted, All-take, take-Sorted,
}

pub data SessionEvent : Type 0 where
  ast_mutation : (file : String) (nodes_changed : ℕ) → SessionEvent
  memory_accessed : (memory_id : String) → SessionEvent
  intent_detected : (intent_type : String) → SessionEvent
  score_penalty : (reason : String) (severity : ℕ) → SessionEvent

pub record FlightRecord : Type 0 where
  pub timestamp : ℕ
  pub event : SessionEvent

pub record RunningCounters : Type 0 where
  pub total_mutations : ℕ
  pub total_memory_accesses : ℕ
  pub total_penalties : ℕ
  pub penalty_severity_sum : ℕ
  pub file_mutation_counts : Dict String ℕ
  pub intent_counts : Dict String ℕ

pub record FlightRecorder : Type 0 where
  pub timeline : List FlightRecord
  pub max_capacity : ℕ
  pub counters : RunningCounters

abbrev pub no_counts : RunningCounters
no_counts = record {
  total_mutations = 0;
  total_memory_accesses = 0;
  total_penalties = 0;
  penalty_severity_sum = 0;
  file_mutation_counts = [];
  intent_counts = [];
}

abbrev pub new : ℕ → FlightRecorder
new max_capacity = record { timeline = []; max_capacity = max_capacity; counters = no_counts }

-- Addition of two `u64`.
abbrev pub plus : ℕ → ℕ → ℕ
plus a b = (a + b) % 2 ^ 64

-- `*entry(key).or_default() += 1`
abbrev pub bump : String → Dict String ℕ → Dict String ℕ
bump key m = insert key (plus (or_else 0 (lookup key m)) 1) m

pub count_event : SessionEvent → RunningCounters → RunningCounters
count_event (ast_mutation file n) c = record c {
  total_mutations = plus c.total_mutations 1;
  file_mutation_counts = bump file c.file_mutation_counts;
}
count_event (memory_accessed id) c = record c {
  total_memory_accesses = plus c.total_memory_accesses 1;
}
count_event (intent_detected intent) c = record c { intent_counts = bump intent c.intent_counts }
count_event (score_penalty reason severity) c = record c {
  total_penalties = plus c.total_penalties 1;
  penalty_severity_sum = plus c.penalty_severity_sum severity;
}

-- The oldest record makes room when the buffer is full.
pub push_record : ℕ → FlightRecord → List FlightRecord → List FlightRecord
push_record max_capacity r buffer =
    (if leb max_capacity (length buffer) then drop 1 buffer else buffer) ++ r ∷ []

pub record_event : (now : ℕ) → SessionEvent → FlightRecorder → FlightRecorder
unfolding count_event push_record
record_event now event f = record f {
  counters = count_event event f.counters;
  timeline = push_record f.max_capacity (record { timestamp = now; event = event }) f.timeline;
}

pub dump_blackbox : FlightRecorder → List FlightRecord
dump_blackbox f = f.timeline

pub events_matching : (FlightRecord → Bool) → FlightRecorder → List FlightRecord
events_matching predicate f = keep predicate f.timeline

pub events_since : ℕ → FlightRecorder → List FlightRecord
events_since since f = keep (λ r. leb since r.timestamp) f.timeline

pub len : FlightRecorder → ℕ
len f = length f.timeline

pub is_empty : FlightRecorder → Bool
is_empty f = elim f.timeline [ [] ↦ true | _ ∷ _ ↦ false ]

abbrev nanos_per_second : ℕ
nanos_per_second = 1000000000

-- `(last - first).num_seconds()` drops the fraction.
pub seconds_between : ℕ → ℕ → ℤ
seconds_between first last = whole_units nanos_per_second first last

abbrev last_of : FlightRecord → List FlightRecord → FlightRecord
last_of r [] = r
last_of r (s ∷ ss) = last_of s ss

pub session_duration : List FlightRecord → ℤ
unfolding seconds_between
session_duration [] = pos 0
session_duration (r ∷ []) = pos 0
session_duration (r ∷ s ∷ ss) = seconds_between r.timestamp (last_of s ss).timestamp

pub record SessionAnalytics (F : Type 0) : Type 0 where
  pub total_mutations : ℕ
  pub unique_files_mutated : ℕ
  pub hottest_files : List (String × ℕ)
  pub total_memory_accesses : ℕ
  pub total_penalties : ℕ
  pub penalty_severity_sum : ℕ
  pub intent_distribution : Dict String ℕ
  pub session_duration_secs : ℤ
  pub events_per_minute : F

abbrev pub hotter : String × ℕ → String × ℕ → Bool
hotter a b = leb b.1 a.1

-- `f64` is a parameter: its zero, and `(events as f64 / seconds as f64) * 60.0`.
module _ {F : Type 0} (zero_rate : F) (per_minute : ℕ → ℕ → F) where
  abbrev rate : ℕ → ℤ → F
  rate n (pos zero) = zero_rate
  rate n (pos (suc s)) = per_minute n (suc s)
  rate n (negsuc s) = zero_rate

  pub analytics : FlightRecorder → SessionAnalytics F
  unfolding session_duration
  analytics f = record {
    total_mutations = f.counters.total_mutations;
    unique_files_mutated = length f.counters.file_mutation_counts;
    hottest_files = take 10 (sort_by hotter f.counters.file_mutation_counts);
    total_memory_accesses = f.counters.total_memory_accesses;
    total_penalties = f.counters.total_penalties;
    penalty_severity_sum = f.counters.penalty_severity_sum;
    intent_distribution = f.counters.intent_counts;
    session_duration_secs = session_duration f.timeline;
    events_per_minute = rate (length f.timeline) (session_duration f.timeline);
  }
