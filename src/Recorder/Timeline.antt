-- ===== src/Recorder/Timeline.antt =====
-- The timeline of recorder/flight.rs against the whole session.
use memix.Base.{
  drop-append, drop-drop, ℕ, suc, ◌-◌, ◌≤◌, ◌<◌, max, ◌≡◌, refl, sym, ap, ◌∙◌, inl, inr, true,
  false, List, [], ◌∷◌, ◌++◌, arith, leb, number_key, text_key, pair_key, bool_key, Bool-cases,
  length, drop, length-append, length-drop, append_none, append_assoc,
}
use memix.Recorder.{dump_blackbox, FlightRecord, FlightRecorder, new, record_event, push_record}

-- What was recorded, oldest first.
unfoldable pub replay : List FlightRecord → FlightRecorder → FlightRecorder
replay [] f = f
replay (r ∷ rs) f = replay rs (record_event r.timestamp r.event f)

abbrev pub last_records : ℕ → List FlightRecord → List FlightRecord
last_records n rs = drop (length rs - n) rs

module _ (capacity : ℕ) (r : FlightRecord) where
  push-full :
      (past : List FlightRecord)
      → max capacity 1 ≤ length past
      → push_record capacity r (last_records (max capacity 1) past)
        ≡ last_records (max capacity 1) (past ++ r ∷ [])
  unfolding push_record
  push-full past h =
      let k : ℕ = length past - max capacity 1 in
      let room : leb capacity (length (drop k past)) ≡ true = ground (arith, length-drop k past) in
      let more : length (past ++ r ∷ []) - max capacity 1 ≡ suc k =
        omega (arith, length-append past (r ∷ [])) in
      rw (room, drop-drop k past, more, drop-append (suc k) past (r ∷ []) (omega arith)) refl

  push-roomy :
      (past : List FlightRecord)
      → length past < max capacity 1
      → push_record capacity r (last_records (max capacity 1) past)
        ≡ last_records (max capacity 1) (past ++ r ∷ [])
  unfolding push_record
  push-roomy [] h = ground arith
  push-roomy (x ∷ xs) h =
      let none_dropped : length (x ∷ xs) - max capacity 1 ≡ 0 = omega arith in
      let none_after : length (x ∷ xs ++ r ∷ []) - max capacity 1 ≡ 0 =
        omega (arith, length-append xs (r ∷ [])) in
      let room : leb capacity (length (x ∷ xs)) ≡ false = ground arith in
      rw (none_dropped, none_after, room) refl

  push-last :
      (past : List FlightRecord)
      → push_record capacity r (last_records (max capacity 1) past)
        ≡ last_records (max capacity 1) (past ++ r ∷ [])
  push-last past = elim (Bool-cases (leb (max capacity 1) (length past))) [
    | inl h ↦ push-full past (ground arith)
    | inr h ↦ push-roomy past (ground arith)
  ]

replay-timeline :
    (rs past : List FlightRecord) (f : FlightRecorder)
    → f.timeline ≡ last_records (max f.max_capacity 1) past
    → (replay rs f).timeline ≡ last_records (max f.max_capacity 1) (past ++ rs)
unfolding replay record_event
replay-timeline [] past f h = h ∙ ap (last_records (max f.max_capacity 1)) (sym (append_none past))
replay-timeline (r ∷ rs) past f h =
    replay-timeline rs (past ++ r ∷ []) (record_event r.timestamp r.event f)
      (ap (push_record f.max_capacity r) h ∙ push-last f.max_capacity r past)
    ∙ ap (last_records (max f.max_capacity 1)) (append_assoc past (r ∷ []) rs)

drop_none : (max_capacity : ℕ) → [] ≡ last_records (max max_capacity 1) []
drop_none max_capacity = ground arith

-- After any session the timeline is the last records of it, as many as the capacity says, and one
-- where the capacity is 0.
pub dump_blackbox-replay :
    (max_capacity : ℕ) (rs : List FlightRecord)
    → dump_blackbox (replay rs (new max_capacity)) ≡ last_records (max max_capacity 1) rs
unfolding dump_blackbox
dump_blackbox-replay max_capacity rs =
    replay-timeline rs [] (new max_capacity) (drop_none max_capacity)
