-- ===== src/Tokens/Lifetime.antt =====
-- The flushes of token/tracker.rs while a session goes on.
use memix.Base.{
  ℕ, ◌+◌, ◌%◌, ◌^◌, String, ◌≡◌, refl, ap, ◌∙◌, Bool, true, false, not, List, [], ◌∷◌, arith,
  nat_beq, if◌then◌else◌, number_key, text_key, pair_key, bool_key, both, if_keeps,
}
use memix.Tokens.{
  TokenTracker, LifetimeTotals, plus, snapshot, absorbed, absorb_session, flush_session_to_lifetime,
}

-- Flushes in a row, of which only the disk may fail.
unfoldable pub flush_times : String → String → List Bool → TokenTracker → TokenTracker
flush_times now project_id [] t = t
flush_times now project_id (w ∷ ws) t =
    flush_times now project_id ws ((flush_session_to_lifetime now w project_id t).1)

-- As much for each flush.
abbrev pub for_each : List Bool → ℕ → ℕ
for_each [] n = 0
for_each (w ∷ ws) n = n + for_each ws n

abbrev pub has_activity : TokenTracker → Bool
has_activity t =
    not (both (nat_beq t.session.ai_calls 0) (nat_beq t.session.context_compilations 0))

-- One flush of an active session.
record Flushed (t u : TokenTracker) : Type 0 where
  pub session : u.session ≡ t.session
  pub recorded : u.session_recorded ≡ true
  pub tokens :
      u.lifetime.total_ai_tokens_consumed
      ≡ plus t.lifetime.total_ai_tokens_consumed t.session.ai_tokens_consumed
  pub calls : u.lifetime.total_ai_calls ≡ plus t.lifetime.total_ai_calls t.session.ai_calls
  pub sessions : u.lifetime.sessions_recorded ≡ (
      if t.session_recorded
      then t.lifetime.sessions_recorded
      else plus t.lifetime.sessions_recorded 1)

-- Counting the session changes no other total.
counted :
    (b : Bool) (l : LifetimeTotals)
    → let m = if b then l else record l { sessions_recorded = plus l.sessions_recorded 1 } in
      (m.total_ai_tokens_consumed ≡ l.total_ai_tokens_consumed)
      × (m.total_ai_calls ≡ l.total_ai_calls)
      × (m.sessions_recorded ≡ (if b then l.sessions_recorded else plus l.sessions_recorded 1))
counted true l = (refl, refl, refl)
counted false l = (refl, refl, refl)

flush-Flushed :
    (now project_id : String) (w : Bool) (t : TokenTracker)
    → has_activity t ≡ true
    → Flushed t ((flush_session_to_lifetime now w project_id t).1)
unfolding flush_session_to_lifetime absorbed absorb_session snapshot
flush-Flushed now project_id w t h =
    let (tokens, calls, sessions) =
      counted t.session_recorded (absorb_session now (snapshot t.session) project_id t.lifetime) in
    if_keeps {A = Bool × TokenTracker} (λ r. Flushed t (r.1))
      (both (nat_beq t.session.ai_calls 0) (nat_beq t.session.context_compilations 0)) _ _
      (λ b. absurd (ground (arith, h, b)))
      (λ b. record {
        session = refl;
        recorded = refl;
        tokens = tokens;
        calls = calls;
        sessions = sessions;
      })

-- What flushes in a row add to the totals: the session's own numbers for each of them.
pub record Adds (ws : List Bool) (t u : TokenTracker) : Type 0 where
  pub tokens :
      u.lifetime.total_ai_tokens_consumed
      ≡ (t.lifetime.total_ai_tokens_consumed + for_each ws t.session.ai_tokens_consumed) % 2 ^ 64
  pub calls :
      u.lifetime.total_ai_calls
      ≡ (t.lifetime.total_ai_calls + for_each ws t.session.ai_calls) % 2 ^ 64
  pub sessions : u.lifetime.sessions_recorded ≡ (
      if t.session_recorded
      then t.lifetime.sessions_recorded
      else plus t.lifetime.sessions_recorded 1)

-- Each flush of an active session adds all that the session has counted so far, whether or not the
-- disk takes it: after a row of flushes, nothing recorded in between, the lifetime totals have the
-- session's tokens and calls once for each flush, in a `u64`, while the session itself is counted
-- once.
pub flush_times-Adds :
    (now project_id : String) (w : Bool) (ws : List Bool) (t : TokenTracker)
    → has_activity t ≡ true
    → Adds (w ∷ ws) t (flush_times now project_id (w ∷ ws) t)
unfolding flush_times
flush_times-Adds now project_id w [] t h =
    let f = flush-Flushed now project_id w t h in
    record {
      tokens = omega (arith, f.tokens);
      calls = omega (arith, f.calls);
      sessions = f.sessions;
    }
flush_times-Adds now project_id w (v ∷ vs) t h =
    let u = (flush_session_to_lifetime now w project_id t).1 in
    let f = flush-Flushed now project_id w t h in
    let rest = flush_times-Adds now project_id v vs u (
      ap (λ s. not (both (nat_beq s.ai_calls 0) (nat_beq s.context_compilations 0))) f.session
      ∙ h) in
    let same_tokens = ap (λ s. for_each (v ∷ vs) s.ai_tokens_consumed) f.session in
    let same_calls = ap (λ s. for_each (v ∷ vs) s.ai_calls) f.session in
    record {
      tokens = omega (arith, rest.tokens, f.tokens, same_tokens);
      calls = omega (arith, rest.calls, f.calls, same_calls);
      sessions = ground (arith, rest.sessions, f.recorded, f.sessions);
    }
