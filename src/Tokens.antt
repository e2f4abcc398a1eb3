-- ===== src/Tokens.antt =====
-- token/tracker.rs: the counters of a session and the totals that outlive it. Each call runs alone, so
-- that a loop over `compare_exchange_weak` writes at once. The file of totals is part of the state, and
-- whether it can be written is an argument, as is the text of the time.
pub mod Session
pub mod Lifetime
pub mod Manager
pub mod Atomic
mod Tests
use memix.Base.{
  ℕ, zero, suc, ◌+◌, ◌-◌, ◌*◌, ◌/◌, ◌%◌, ◌^◌, ◌≤◌, ◌<◌, min, max, String, ◌≡◌, refl, sym, ap, ◌∙◌,
  subst, ◌≢◌, ◌↔◌, ◌⊎◌, inl, inr, Bool, true, false, not, ◌&&◌, ◌||◌, Option, none, some, List, [],
  ◌∷◌, ◌++◌, map, arith, eq_iff, ltb, leb, nat_beq, if◌then◌else◌, Key, ◌==◌, number_key, text_key,
  pair_key, pair_equal_iff, bool_key, both, same, Bool-cases, Option-cases, length, drop, take,
  length-append, length-drop, keep, count, All, All-append, sum, sum-append, concat, show, some_inj,
  map-eq-some, if_keeps, ℤ, pos, negsuc, negative, whole_units, exceeds, append_none, append_assoc,
  reverse, insert_by, sort_by, Sorted, count-insert_by, count-sort_by, All-insert_by, All-sort_by,
  sort_by-Sorted, All-take, take-Sorted,
}

abbrev pub u64_max : ℕ
u64_max = 18446744073709551615

-- `fetch_add` and `+=` on `u64`.
abbrev pub plus : ℕ → ℕ → ℕ
plus a b = (a + b) % 2 ^ 64

pub record SessionCounters : Type 0 where
  pub context_compilations : ℕ
  pub context_tokens_compiled : ℕ
  pub ai_calls : ℕ
  pub ai_tokens_consumed : ℕ
  pub ai_tokens_last : ℕ
  pub ai_tokens_max : ℕ
  pub ai_tokens_min : ℕ
  pub estimated_tokens_saved : ℕ
  pub files_skeleton_indexed : ℕ
  pub files_oxc_analyzed : ℕ
  pub embedding_cache_hits : ℕ
  pub embedding_cache_misses : ℕ

abbrev pub new_counters : SessionCounters
new_counters = record {
  context_compilations = 0;
  context_tokens_compiled = 0;
  ai_calls = 0;
  ai_tokens_consumed = 0;
  ai_tokens_last = 0;
  ai_tokens_max = 0;
  ai_tokens_min = u64_max;
  estimated_tokens_saved = 0;
  files_skeleton_indexed = 0;
  files_oxc_analyzed = 0;
  embedding_cache_hits = 0;
  embedding_cache_misses = 0;
}

-- `saturating_sub` is the subtraction of natural numbers.
pub record_context_compilation : (tokens naive_estimate : ℕ) → SessionCounters → SessionCounters
record_context_compilation tokens naive_estimate c = record c {
  context_compilations = plus c.context_compilations 1;
  context_tokens_compiled = plus c.context_tokens_compiled tokens;
  estimated_tokens_saved = plus c.estimated_tokens_saved (naive_estimate - tokens);
}

pub raise_max : (tokens current : ℕ) → ℕ
raise_max tokens current = if ltb current tokens then tokens else current

-- `u64::MAX` stands for no minimum yet.
pub lower_min : (tokens current : ℕ) → ℕ
lower_min tokens current =
    if both (not (nat_beq current u64_max)) (leb current tokens) then current else tokens

pub record_ai_call : (tokens : ℕ) → SessionCounters → SessionCounters
unfolding raise_max lower_min
record_ai_call tokens c = record c {
  ai_calls = plus c.ai_calls 1;
  ai_tokens_consumed = plus c.ai_tokens_consumed tokens;
  ai_tokens_last = tokens;
  ai_tokens_max = raise_max tokens c.ai_tokens_max;
  ai_tokens_min = lower_min tokens c.ai_tokens_min;
}

pub record SessionSnapshot : Type 0 where
  pub context_compilations : ℕ
  pub context_tokens_compiled : ℕ
  pub ai_calls : ℕ
  pub ai_tokens_consumed : ℕ
  pub ai_tokens_last : ℕ
  pub ai_tokens_max : ℕ
  pub ai_tokens_min : ℕ
  pub ai_tokens_avg : ℕ
  pub estimated_tokens_saved : ℕ
  pub files_skeleton_indexed : ℕ
  pub files_oxc_analyzed : ℕ
  pub embedding_cache_hits : ℕ
  pub embedding_cache_misses : ℕ

pub snapshot : SessionCounters → SessionSnapshot
snapshot c = record {
  context_compilations = c.context_compilations;
  context_tokens_compiled = c.context_tokens_compiled;
  ai_calls = c.ai_calls;
  ai_tokens_consumed = c.ai_tokens_consumed;
  ai_tokens_last = c.ai_tokens_last;
  ai_tokens_max = c.ai_tokens_max;
  ai_tokens_min = if nat_beq c.ai_tokens_min u64_max then 0 else c.ai_tokens_min;
  ai_tokens_avg = if nat_beq c.ai_calls 0 then 0 else c.ai_tokens_consumed / c.ai_calls;
  estimated_tokens_saved = c.estimated_tokens_saved;
  files_skeleton_indexed = c.files_skeleton_indexed;
  files_oxc_analyzed = c.files_oxc_analyzed;
  embedding_cache_hits = c.embedding_cache_hits;
  embedding_cache_misses = c.embedding_cache_misses;
}

pub record LifetimeTotals : Type 0 where
  pub project_id : String
  pub total_ai_tokens_consumed : ℕ
  pub total_ai_calls : ℕ
  pub total_context_compilations : ℕ
  pub total_context_tokens_compiled : ℕ
  pub total_estimated_tokens_saved : ℕ
  pub total_files_indexed : ℕ
  pub sessions_recorded : ℕ
  pub last_updated : String

abbrev pub no_totals : String → LifetimeTotals
no_totals project_id = record {
  project_id = project_id;
  total_ai_tokens_consumed = 0;
  total_ai_calls = 0;
  total_context_compilations = 0;
  total_context_tokens_compiled = 0;
  total_estimated_tokens_saved = 0;
  total_files_indexed = 0;
  sessions_recorded = 0;
  last_updated = "";
}

pub absorb_session : (now : String) → SessionSnapshot → String → LifetimeTotals → LifetimeTotals
absorb_session now s project_id l = record l {
  project_id = project_id;
  total_ai_tokens_consumed = plus l.total_ai_tokens_consumed s.ai_tokens_consumed;
  total_ai_calls = plus l.total_ai_calls s.ai_calls;
  total_context_compilations = plus l.total_context_compilations s.context_compilations;
  total_context_tokens_compiled = plus l.total_context_tokens_compiled s.context_tokens_compiled;
  total_estimated_tokens_saved = plus l.total_estimated_tokens_saved s.estimated_tokens_saved;
  total_files_indexed = plus l.total_files_indexed s.files_skeleton_indexed;
  last_updated = now;
}

pub record TokenTracker : Type 0 where
  pub session : SessionCounters
  pub lifetime : LifetimeTotals
  pub session_recorded : Bool
  pub lifetime_file : Option LifetimeTotals

abbrev pub default_empty : String → TokenTracker
default_empty project_id = record {
  session = new_counters;
  lifetime = no_totals project_id;
  session_recorded = false;
  lifetime_file = none;
}

-- `contents` is none where the file cannot be read, and has no totals where they cannot be parsed.
pub load : (contents : Option (Option LifetimeTotals)) → String → TokenTracker
load none project_id = default_empty project_id
load (some none) project_id = default_empty ""
load (some (some totals)) project_id = record (default_empty project_id) {
  lifetime = totals;
  lifetime_file = some totals;
}

pub load_lifetime_into : (contents : Option (Option LifetimeTotals)) → TokenTracker → TokenTracker
load_lifetime_into none t = t
load_lifetime_into (some none) t = t
load_lifetime_into (some (some totals)) t = record t { lifetime = totals }

-- The totals with the session absorbed, and counted where no flush has counted it.
pub absorbed : (now : String) → String → TokenTracker → LifetimeTotals
unfolding absorb_session snapshot
absorbed now project_id t =
    let l = absorb_session now (snapshot t.session) project_id t.lifetime in
    if t.session_recorded then l else record l { sessions_recorded = plus l.sessions_recorded 1 }

-- `writable` says that the directory is made and the file is written; the call fails where not.
pub flush_session_to_lifetime :
    (now : String) (writable : Bool) → String → TokenTracker → Bool × TokenTracker
unfolding absorbed snapshot
flush_session_to_lifetime now writable project_id t =
    if both (nat_beq (snapshot t.session).ai_calls 0)
      (nat_beq (snapshot t.session).context_compilations 0)
    then (true, t)
    else (
      writable,
      record t {
        lifetime = absorbed now project_id t;
        session_recorded = true;
        lifetime_file = if writable then some (absorbed now project_id t) else t.lifetime_file;
      },
    )

pub get_lifetime : TokenTracker → LifetimeTotals
get_lifetime t = t.lifetime

pub get_session : TokenTracker → SessionSnapshot
unfolding snapshot
get_session t = snapshot t.session
