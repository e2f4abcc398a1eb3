-- ===== src/Tokens/Atomic/Alone.antt =====
-- A call of token/tracker.rs that runs by itself.
use memix.Base.{
  ℕ, zero, suc, ◌≡◌, refl, sym, subst, ◌⊎◌, inl, inr, false, not, arith, ltb, leb, nat_beq,
  number_key, text_key, pair_key, bool_key, both, if_keeps,
}
use memix.Tokens.{SessionCounters, u64_max}
use memix.Tokens.Atomic.{
  At, adds_call, adds_tokens, stores_last, loads_max, loads_min, finished, tries_max, tries_min,
  Moved, try_max, try_min, advance, alone,
}

module _ (tokens : ℕ) where
  Finishes : ℕ → At → SessionCounters → Type 0
  Finishes n at c = (alone n tokens (record { at = at; counters = c })).at ≡ finished

  stays_finished : (n : ℕ) (c : SessionCounters) → Finishes n finished c
  unfolding Finishes alone advance
  stays_finished zero c = refl
  stays_finished (suc n) c = stays_finished n c

  -- A value that was read just now is the one that is there.
  try_min-now : (c : SessionCounters) → (try_min tokens c.ai_tokens_min false c).at ≡ finished
  unfolding try_min
  try_min-now c = ground arith

  try_max-now : (c : SessionCounters) → (try_max tokens c.ai_tokens_max false c).at ≡ loads_min
  unfolding try_max
  try_max-now c = ground arith

  try_min-at :
      (current : ℕ) (c : SessionCounters)
      → ((try_min tokens current false c).at ≡ finished)
        ⊎ (try_min tokens current false c ≡ record { at = tries_min c.ai_tokens_min; counters = c })
  unfolding try_min
  try_min-at current c =
      if_keeps (Ends (tries_min c.ai_tokens_min))
        (both (not (nat_beq current u64_max)) (leb current tokens)) _ _ (λ t. inl refl)
        (λ f.
          if_keeps (Ends (tries_min c.ai_tokens_min))
            (both (not false) (nat_beq c.ai_tokens_min current)) _ _ (λ t. inl refl)
            (λ g. inr refl))
    where
      Ends : At → Moved → Type 0
      Ends next m = (m.at ≡ finished) ⊎ (m ≡ record { at = next; counters = c })

  try_max-at :
      (current : ℕ) (c : SessionCounters)
      → ((try_max tokens current false c).at ≡ loads_min)
        ⊎ (try_max tokens current false c ≡ record { at = tries_max c.ai_tokens_max; counters = c })
  unfolding try_max
  try_max-at current c =
      if_keeps (Ends (tries_max c.ai_tokens_max)) (ltb current tokens) _ _
        (λ t.
          if_keeps (Ends (tries_max c.ai_tokens_max))
            (both (not false) (nat_beq c.ai_tokens_max current)) _ _ (λ w. inl refl)
            (λ g. inr refl))
        (λ f. inl refl)
    where
      Ends : At → Moved → Type 0
      Ends next m = (m.at ≡ loads_min) ⊎ (m ≡ record { at = next; counters = c })

  -- What the rest of a call needs.
  after_move :
      (n : ℕ) (m : Moved) (at : At)
      → m.at ≡ at
      → ((d : SessionCounters) → Finishes n at d)
      → (alone n tokens m).at ≡ finished
  unfolding Finishes
  after_move n m at e h =
      subst (λ a. (alone n tokens (record { at = a; counters = m.counters })).at ≡ finished) (sym e)
        (h m.counters)

  finish_min : (n : ℕ) (c : SessionCounters) → Finishes (suc n) (tries_min c.ai_tokens_min) c
  unfolding Finishes alone advance
  finish_min n c = after_move n _ finished (try_min-now c) (stays_finished n)

  finish_load : (n : ℕ) (c : SessionCounters) → Finishes (suc (suc n)) loads_min c
  unfolding Finishes alone advance
  finish_load n c = finish_min n c

  finish_max :
      (n : ℕ) (c : SessionCounters) → Finishes (suc (suc (suc n))) (tries_max c.ai_tokens_max) c
  unfolding Finishes alone advance
  finish_max n c = after_move (suc (suc n)) _ loads_min (try_max-now c) (finish_load n)

  finish_stale_max :
      (n : ℕ) (current : ℕ) (c : SessionCounters)
      → Finishes (suc (suc (suc (suc n)))) (tries_max current) c
  unfolding Finishes alone advance
  finish_stale_max n current c = elim (try_max-at current c) [
    | inl e ↦ after_move (suc (suc (suc n))) _ loads_min e (finish_load (suc n))
    | inr e ↦
        subst (λ m. (alone (suc (suc (suc n))) tokens m).at ≡ finished) (sym e) (finish_max n c)
  ]

  finish_stale_min :
      (n : ℕ) (current : ℕ) (c : SessionCounters) → Finishes (suc (suc n)) (tries_min current) c
  unfolding Finishes alone advance
  finish_stale_min n current c = elim (try_min-at current c) [
    | inl e ↦ after_move (suc n) _ finished e (stays_finished (suc n))
    | inr e ↦ subst (λ m. (alone (suc n) tokens m).at ≡ finished) (sym e) (finish_min n c)
  ]

-- A call of `record_ai_call` is over after seven operations of its own, wherever it is and whatever
-- the counters are, if no other call interferes and no compare-and-exchange fails spuriously.
pub alone-finished :
    (tokens : ℕ) (at : At) (c : SessionCounters)
    → (alone 7 tokens (record { at = at; counters = c })).at ≡ finished
unfolding alone advance Finishes
alone-finished tokens adds_call c = finish_max tokens 0 _
alone-finished tokens adds_tokens c = finish_max tokens 1 _
alone-finished tokens stores_last c = finish_max tokens 2 _
alone-finished tokens loads_max c = finish_max tokens 3 c
alone-finished tokens (tries_max current) c = finish_stale_max tokens 3 current c
alone-finished tokens loads_min c = finish_load tokens 5 c
alone-finished tokens (tries_min current) c = finish_stale_min tokens 5 current c
alone-finished tokens finished c = stays_finished tokens 7 c
