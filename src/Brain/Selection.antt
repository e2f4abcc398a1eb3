-- ===== src/Brain/Selection.antt =====
-- brain/orchestrator.rs: the memories that go into a prompt. The tokenizer is a parameter, the number
-- of tokens of a text where it gives one.
pub mod Greedy
use memix.Base.{
  ℕ, ◌+◌, ◌/◌, String, ◌≡◌, refl, sym, ap, ◌∙◌, ◌↔◌, Bool, true, false, Option, none, some, List,
  [], ◌∷◌, ◌++◌, arith, leb, nat_beq, if◌then◌else◌, Key, ◌==◌, number_key, text_key, pair_key,
  bool_key, both, keep,
}
use Prim.Native.String.{len}
use memix.Brain.{
  MemoryEntry, MemoryKind, fact, decision, warning, pattern_kind, context, negative_kind,
}
use memix.Dict.{Dict, lookup, insert, or_else, contains}

abbrev pub kind_number : MemoryKind → ℕ
kind_number fact = 0
kind_number decision = 1
kind_number warning = 2
kind_number pattern_kind = 3
kind_number context = 4
kind_number negative_kind = 5

kind_of : ℕ → MemoryKind
kind_of n =
    if nat_beq n 0
    then fact
    else if nat_beq n 1
    then decision
    else if nat_beq n 2
    then warning
    else if nat_beq n 3
    then pattern_kind
    else if nat_beq n 4
    then context
    else negative_kind

kind_of-kind_number : (k : MemoryKind) → kind_of (kind_number k) ≡ k
unfolding kind_of
kind_of-kind_number fact = refl
kind_of-kind_number decision = refl
kind_of-kind_number warning = refl
kind_of-kind_number pattern_kind = refl
kind_of-kind_number context = refl
kind_of-kind_number negative_kind = refl

pub same_kind_iff : (a b : MemoryKind) → (nat_beq (kind_number a) (kind_number b) ≡ true) ↔ (a ≡ b)
same_kind_iff a b = (
  λ h. sym (kind_of-kind_number a) ∙ ap kind_of (ground arith) ∙ kind_of-kind_number b,
  λ h. ground arith,
)

instance abbrev pub kind_key : Key MemoryKind
kind_key = record {
  equal = λ a b. nat_beq (kind_number a) (kind_number b);
  equal_iff = same_kind_iff;
}

abbrev pub loading_order : List MemoryKind
loading_order = fact ∷ pattern_kind ∷ decision ∷ context ∷ warning ∷ negative_kind ∷ []

abbrev pub ByKind : Type 0
ByKind = Dict MemoryKind (List MemoryEntry)

pub group : List MemoryEntry → ByKind → ByKind
group [] m = m
group (e ∷ es) m = group es (insert e.kind (or_else [] (lookup e.kind m) ++ e ∷ []) m)

abbrev pub preload_for_file : String → List MemoryKind
preload_for_file file_path = pattern_kind ∷ decision ∷ warning ∷ []

pub get_negative_memories : List MemoryEntry → List MemoryEntry
get_negative_memories = keep (λ e. e.kind == negative_kind)

abbrev is_none : Option String → Bool
is_none none = true
is_none (some a) = false

pub get_active_decisions : List MemoryEntry → List MemoryEntry
get_active_decisions = keep (λ e. both (e.kind == decision) (is_none e.superseded_by))

pub get_conflicts : MemoryEntry → List MemoryEntry → List MemoryEntry
get_conflicts entry all_entries = keep (λ e. contains e.id entry.contradicts) all_entries

-- What the loops have selected, and its tokens.
pub record Selected : Type 0 where
  pub selected : List MemoryEntry
  pub current_tokens : ℕ

module _ (count_tokens : String → Option ℕ) where
  pub estimate_tokens : String → ℕ
  estimate_tokens content = or_else (len content / 4) (count_tokens content)

  pub select : ℕ → MemoryEntry → Selected → Selected
  unfolding estimate_tokens
  select max_tokens e s =
      if leb (s.current_tokens + estimate_tokens e.content) max_tokens
      then record {
        selected = s.selected ++ e ∷ [];
        current_tokens = s.current_tokens + estimate_tokens e.content;
      }
      else s

  pub select_all : ℕ → List MemoryEntry → Selected → Selected
  unfolding select
  select_all max_tokens [] s = s
  select_all max_tokens (e ∷ es) s = select_all max_tokens es (select max_tokens e s)

  pub select_kinds : ℕ → ByKind → List MemoryKind → Selected → Selected
  unfolding select_all
  select_kinds max_tokens by_kind [] s = s
  select_kinds max_tokens by_kind (k ∷ ks) s =
      select_kinds max_tokens by_kind ks
        (elim (lookup k by_kind) [ none ↦ s | some es ↦ select_all max_tokens es s ])

  pub assemble_context : List MemoryEntry → ℕ → List MemoryEntry
  unfolding group select_kinds
  assemble_context entries max_tokens =
      (select_kinds max_tokens (group entries []) loading_order
        (record { selected = []; current_tokens = 0 })).selected
