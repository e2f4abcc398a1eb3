-- ===== src/Filters/Pipeline/Capped.antt =====
-- How many lines a configured filter of token/toml_filter.rs leaves.
use memix.Base.{
  ℕ, zero, suc, ◌≤◌, String, ◌≡◌, refl, sym, subst, ◌⊎◌, inl, inr, Bool, true, false, Option, none,
  some, List, [], ◌∷◌, map, arith, eq_iff, nat_beq, if◌then◌else◌, number_key, text_key, pair_key,
  bool_key, length, take, some_inj, map-eq-some, if_keeps, All-take, OneLine, lines-OneLine,
  length-lines-join_le, lines, trim,
}
use memix.Filters.Pipeline.{
  filter_lines, truncate_lines, head_or_tail, replace_all, len, CompiledFilter, or_message,
  late_stages, apply, short_circuit, MatchOutputRule, cap_lines,
}
use memix.Dict.{contains}

length-take_le : (n : ℕ) (ls : List String) → length (take n ls) ≤ n
length-take_le zero ls = omega arith
length-take_le (suc n) [] = omega arith
length-take_le (suc n) (l ∷ ls) = omega (arith, length-take_le n ls)

cap_lines_le :
    (max_lines : ℕ) (result : String)
    → length (lines (cap_lines (some max_lines) result)) ≤ max_lines
unfolding cap_lines
cap_lines_le max_lines result = omega (
  arith,
  length-lines-join_le (take max_lines (lines result))
      (All-take OneLine max_lines (lines result) (lines-OneLine result)),
  length-take_le max_lines (lines result),
)

abbrev pub messages : List MatchOutputRule → List String
messages rules = map (λ r. r.message) rules

spared :
    (b : Bool) (message : String) (rest : Option String) {out : String}
    → (if b then rest else some message) ≡ some out
    → (message ≡ out) ⊎ (rest ≡ some out)
spared true message rest h = inr h
spared false message rest h = inl (some_inj h)

one_rule :
    (b : Bool) (unless : Option (String → Bool)) (result message : String) (rest : Option String)
    {out : String}
    → (if b
        then elim unless [ none ↦ some message | some u ↦ if u result then rest else some message ]
        else rest)
      ≡ some out
    → (message ≡ out) ⊎ (rest ≡ some out)
one_rule false unless result message rest h = inr h
one_rule true none result message rest h = inl (some_inj h)
one_rule true (some u) result message rest h = spared (u result) message rest h

short_circuit-messages :
    (rules : List MatchOutputRule) (result out : String)
    → short_circuit rules result ≡ some out
    → contains out (messages rules) ≡ true
unfolding short_circuit contains
short_circuit-messages [] result out h = cc
short_circuit-messages (r ∷ rs) result out h =
    elim (one_rule (r.pattern result) r.unless result r.message (short_circuit rs result) h) [
      | inl e ↦ ground (arith, eq_iff r.message out, e)
      | inr k ↦ ground (arith, short_circuit-messages rs result out k)
    ]

or_message-cases :
    (on_empty : Option String) (result : String)
    → (on_empty ≡ some (or_message on_empty result)) ⊎ (or_message on_empty result ≡ result)
unfolding or_message
or_message-cases none result = inr refl
or_message-cases (some m) result =
    if_keeps (λ (o : String). (some m ≡ some o) ⊎ (o ≡ result)) (nat_beq (len (trim result)) 0) m
      result (λ t. inl refl) (λ f. inr refl)

short_or_late :
    (s : Option String) (late : Option String) {out : String}
    → elim s [ some message ↦ some message | none ↦ late ] ≡ some out
    → (s ≡ some out) ⊎ (late ≡ some out)
short_or_late none late h = inr h
short_or_late (some m) late h = inl h

-- Where a filter has a limit of lines and returns: its result is the message of one of its rules, the
-- message for an empty result, or has no more lines than the limit.
pub apply-capped :
    (strip_ansi_codes : String → String) (f : CompiledFilter) (output out : String) (max_lines : ℕ)
    → f.max_lines ≡ some max_lines
    → apply strip_ansi_codes f output ≡ some out
    → (contains out (messages f.match_output) ≡ true)
      ⊎ ((f.on_empty ≡ some out) ⊎ (length (lines out) ≤ max_lines))
unfolding apply late_stages
apply-capped strip f output out max_lines limit q =
    let result = replace_all f.replace (if f.strip_ansi then strip output else output) in
    let pipe = λ (r : String). cap_lines f.max_lines (head_or_tail f.head_lines f.tail_lines r) in
    elim (short_or_late (short_circuit f.match_output result) (late_stages f result) q) [
      | inl s ↦ inl (short_circuit-messages f.match_output result out s)
      | inr l ↦
          (let (r, t, e) =
              map-eq-some (λ r. or_message f.on_empty (pipe r))
                (truncate_lines f.truncate_lines_at (filter_lines f.line_filter result)) l in
            inr (
              subst (λ o. (f.on_empty ≡ some o) ⊎ (length (lines o) ≤ max_lines)) e
                (elim (or_message-cases f.on_empty (pipe r)) [
                  | inl m ↦ inl m
                  | inr plain ↦ inr (
                      subst (λ o. length (lines o) ≤ max_lines) (sym plain)
                        (subst
                          (λ m.
                            length (lines (cap_lines m (head_or_tail f.head_lines f.tail_lines r)))
                            ≤ max_lines)
                          (sym limit)
                          (cap_lines_le max_lines (head_or_tail f.head_lines f.tail_lines r))))
                ])))
    ]
