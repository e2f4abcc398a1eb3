-- ===== src/Recorder/Tests.antt =====
-- The flight recorder on a concrete session.
use memix.Base.{◌*◌, ◌/◌, max, ◌≡◌, List, [], ◌∷◌, number_key, text_key}
use memix.Recorder.{FlightRecord, ast_mutation, score_penalty, new, dump_blackbox, analytics}
use memix.Recorder.Timeline.{replay, last_records, dump_blackbox-replay}
use memix.Recorder.Counters.{Counts, replay-Counts}
use memix.Recorder.Summary.{Summarizes, analytics-Summarizes}

abbrev session : List FlightRecord
session =
    record { timestamp = 1; event = ast_mutation "a.rs" 2 }
    ∷ record { timestamp = 2; event = score_penalty "stale" 7 }
    ∷ record { timestamp = 3; event = ast_mutation "b.rs" 1 }
    ∷ record { timestamp = 4; event = ast_mutation "b.rs" 4 }
    ∷ []

dump_blackbox-replay_example :
    dump_blackbox (replay session (new 2)) ≡ last_records (max 2 1) session
dump_blackbox-replay_example = dump_blackbox-replay 2 session

replay-Counts_example : Counts session (replay session (new 2)).counters
replay-Counts_example = replay-Counts 2 session

analytics-Summarizes_example :
    Summarizes session (analytics 0 (λ n s. n * 60 / s) (replay session (new 2)))
analytics-Summarizes_example = analytics-Summarizes 0 (λ n s. n * 60 / s) 2 session
