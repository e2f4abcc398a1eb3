-- ===== src/Recorder/Summary.antt =====
-- `FlightRecorder::analytics` of recorder/flight.rs against the whole session.
use memix.Recorder.Hottest.{
  sort_hotter-NoRepeat, take-NoRepeat, All-contains, contains-sort_hotter, left_out, All-map,
}
use memix.Base.{
  ℕ, zero, suc, min, String, ◌≡◌, refl, sym, ap, ◌∙◌, subst, true, false, List, [], ◌∷◌, arith,
  number_key, text_key, pair_key, bool_key, length, take, count, All, sort_by, Sorted,
  count-sort_by, All-sort_by, sort_by-Sorted, All-take, take-Sorted, ◌≤◌,
}
use memix.Recorder.{
  score_penalty, intent_detected, memory_accessed, SessionEvent, FlightRecord, FlightRecorder,
  SessionAnalytics, new, record_event, analytics, hotter, ast_mutation, count_event, plus,
}
use memix.Recorder.Timeline.{replay}
use memix.Recorder.Counters.{total, mutates, mutates_file, replay-Counts}
use memix.Dict.{contains, Dict, lookup, or_else, keys, add}
use memix.Dict.Entries.{NoRepeat, add-NoRepeat, keys-insert, All-lookup}

-- The files that a session mutates, each once, in the order of their first mutation.
abbrev pub touch : SessionEvent → List String → List String
touch (ast_mutation file n) files = add file files
touch _ files = files

abbrev pub files_from : List String → List FlightRecord → List String
files_from files [] = files
files_from files (r ∷ rs) = files_from (touch r.event files) rs

abbrev file_counts : FlightRecorder → Dict String ℕ
file_counts f = f.counters.file_mutation_counts

keys-event :
    (e : SessionEvent) (t : ℕ) (f : FlightRecorder)
    → keys (file_counts (record_event t e f)) ≡ touch e (keys (file_counts f))
unfolding record_event count_event
keys-event (ast_mutation file n) t f =
    keys-insert file (plus (or_else 0 (lookup file (file_counts f))) 1) (file_counts f)
keys-event (memory_accessed id) t f = refl
keys-event (intent_detected intent) t f = refl
keys-event (score_penalty reason severity) t f = refl

keys-replay :
    (rs : List FlightRecord) (f : FlightRecorder)
    → keys (file_counts (replay rs f)) ≡ files_from (keys (file_counts f)) rs
unfolding replay
keys-replay [] f = refl
keys-replay (r ∷ rs) f =
    keys-replay rs (record_event r.timestamp r.event f)
    ∙ ap (λ files. files_from files rs) (keys-event r.event r.timestamp f)

touch-NoRepeat :
    (e : SessionEvent) (files : List String) → NoRepeat files → NoRepeat (touch e files)
touch-NoRepeat (ast_mutation file n) files h = add-NoRepeat file files h
touch-NoRepeat (memory_accessed id) files h = h
touch-NoRepeat (intent_detected intent) files h = h
touch-NoRepeat (score_penalty reason severity) files h = h

files-NoRepeat :
    (rs : List FlightRecord) (files : List String) → NoRepeat files → NoRepeat (files_from files rs)
files-NoRepeat [] files h = h
files-NoRepeat (r ∷ rs) files h =
    files-NoRepeat rs (touch r.event files) (touch-NoRepeat r.event files h)

length-keys : (m : Dict String ℕ) → length (keys m) ≡ length m
length-keys [] = refl
length-keys ((k, v) ∷ m) = omega (arith, length-keys m)

hotter-total : (a b : String × ℕ) → hotter a b ≡ false → hotter b a ≡ true
hotter-total a b h = ground arith

hotter_trans : (a b c : String × ℕ) → hotter a b ≡ true → hotter b c ≡ true → hotter a c ≡ true
hotter_trans a b c h k = ground arith

module _ {F : Type 0} where
  pub record Summarizes (rs : List FlightRecord) (a : SessionAnalytics F) : Type 0 where
    pub mutated : a.total_mutations ≡ total mutates rs
    pub unique : a.unique_files_mutated ≡ length (files_from [] rs)
    pub listed : length a.hottest_files ≡ min 10 (length (files_from [] rs))
    pub sorted : Sorted hotter a.hottest_files
    pub exact : All (λ p. p.1 ≡ total (mutates_file p.0) rs) a.hottest_files
    pub distinct : NoRepeat (keys a.hottest_files)
    pub of_session : All (λ p. contains p.0 (files_from [] rs) ≡ true) a.hottest_files
    pub hottest :
        (file : String)
        → contains file (files_from [] rs) ≡ true
        → contains file (keys a.hottest_files) ≡ false
        → All (λ p. total (mutates_file file) rs ≤ p.1) a.hottest_files

length-take : (n : ℕ) (xs : Dict String ℕ) → length (take n xs) ≡ min n (length xs)
length-take zero xs = omega arith
length-take (suc n) [] = omega arith
length-take (suc n) (x ∷ xs) = omega (arith, length-take n xs)

length-count : (xs : Dict String ℕ) → length xs ≡ count (λ p. true) xs
length-count [] = refl
length-count (x ∷ xs) = omega (arith, length-count xs)

length-hottest :
    (m : Dict String ℕ) → length (take 10 (sort_by hotter m)) ≡ min 10 (length (keys m))
length-hottest m = omega (
  arith,
  length-take 10 (sort_by hotter m),
  length-count (sort_by hotter m),
  count-sort_by hotter (λ p. true) m,
  length-count m,
  length-keys m,
)

-- The summary of a session: its unique files are the files that it mutates, each once. The hottest
-- are ten of them, or all where they are fewer, all different, by descending count, each with the
-- number of its mutations in the whole session, and no file left out has more than any of them. The
-- numbers are in a `u64`.
pub analytics-Summarizes :
    {F : Type 0} (zero_rate : F) (per_minute : ℕ → ℕ → F) (max_capacity : ℕ)
    (rs : List FlightRecord)
    → Summarizes rs (analytics zero_rate per_minute (replay rs (new max_capacity)))
unfolding analytics
analytics-Summarizes zero_rate per_minute max_capacity rs = record {
  mutated = (replay-Counts max_capacity rs).mutations;
  unique = sym (length-keys m) ∙ ap length same;
  listed = length-hottest m ∙ ap (λ files. min 10 (length files)) same;
  sorted =
      take-Sorted hotter 10 (sort_by hotter m) (sort_by-Sorted hotter hotter-total hotter_trans m);
  exact = All-take counted 10 (sort_by hotter m) (All-sort_by hotter counted m all_counted);
  distinct = take-NoRepeat 10 (sort_by hotter m) (sort_hotter-NoRepeat m alone);
  of_session =
      All-take (λ p. contains p.0 (files_from [] rs) ≡ true) 10 (sort_by hotter m)
        (All-sort_by hotter (λ p. contains p.0 (files_from [] rs) ≡ true) m
          (subst (λ files. All (λ p. contains p.0 files ≡ true) m) same (All-contains m)));
  hottest = λ file h k.
      left_out (λ f. total (mutates_file f) rs) file 10 (sort_by hotter m)
        (sort_by-Sorted hotter hotter-total hotter_trans m)
        (All-sort_by hotter counted m all_counted)
        (contains-sort_hotter file m ∙ ap (contains file) same ∙ h) k;
}
  where
    m : Dict String ℕ
    m = file_counts (replay rs (new max_capacity))

    counted : String × ℕ → Type 0
    counted p = p.1 ≡ total (mutates_file p.0) rs

    same : keys m ≡ files_from [] rs
    same = keys-replay rs (new max_capacity)

    alone : NoRepeat (keys m)
    alone = subst NoRepeat (sym same) (files-NoRepeat rs [] tt)

    all_counted : All counted m
    all_counted =
        All-map _ counted m
          (λ p h. ap (or_else 0) (sym h) ∙ (replay-Counts max_capacity rs).per_file p.0)
          (All-lookup m alone)
