-- ===== src/Brain/Entries.antt =====
-- A memory of brain/manager.rs after any sequence of changes.
use memix.Base.{
  ℕ, ◌+◌, ◌-◌, ◌^◌, ◌≤◌, min, String, ◌≡◌, refl, sym, ap, ◌∙◌, subst, inl, inr, Bool, true, false,
  not, List, [], ◌∷◌, ◌++◌, arith, eq_iff, ltb, if◌then◌else◌, ◌==◌, number_key, text_key, pair_key,
  bool_key, Bool-cases, if_keeps,
}
use memix.Brain.{
  too_large, fresh_entry, MemoryEntry, MemoryKind, MemorySource, Outcome, done, failed,
  BrainManager, create_entry, update_entry, mark_accessed, link_superseded, add_contradiction,
  resolve_contradiction,
}
use Prim.Native.String.{len}
use memix.Dict.{contains}
use memix.Dict.Laws.{contains-append, contains-keep}
use memix.Dict.Entries.{NoRepeat, append-NoRepeat, keep-NoRepeat}

pub data Change : Type 0 where
  updates : ℕ → String → Change
  accesses : ℕ → Change
  supersedes : ℕ → String → Change
  contradicts : ℕ → String → Change
  resolves : ℕ → String → Change

-- What an update leaves: the new entry, or the old one with an error.
abbrev pub after_update : MemoryEntry → Outcome MemoryEntry → MemoryEntry
after_update e (done updated) = updated
after_update e (failed message) = e

unfoldable pub change : BrainManager → MemoryEntry → Change → MemoryEntry
change m e (updates now text) = after_update e (update_entry now m text e)
change m e (accesses now) = mark_accessed now e
change m e (supersedes now id) = link_superseded now id e
change m e (contradicts now id) = add_contradiction now id e
change m e (resolves now id) = resolve_contradiction now id e

unfoldable pub change_all : BrainManager → MemoryEntry → List Change → MemoryEntry
change_all m e [] = e
change_all m e (c ∷ cs) = change_all m (change m e c) cs

-- Whether an entry is contradicted is what the last change on it says.
abbrev pub contradicted : (String → Bool) → List Change → String → Bool
contradicted before [] id = before id
contradicted before (contradicts now other ∷ cs) id =
    contradicted (λ i. if other == i then true else before i) cs id
contradicted before (resolves now other ∷ cs) id =
    contradicted (λ i. if other == i then false else before i) cs id
contradicted before (updates now text ∷ cs) id = contradicted before cs id
contradicted before (accesses now ∷ cs) id = contradicted before cs id
contradicted before (supersedes now other ∷ cs) id = contradicted before cs id

abbrev pub access_total : List Change → ℕ
access_total [] = 0
access_total (accesses now ∷ cs) = 1 + access_total cs
access_total (updates now text ∷ cs) = access_total cs
access_total (supersedes now id ∷ cs) = access_total cs
access_total (contradicts now id ∷ cs) = access_total cs
access_total (resolves now id ∷ cs) = access_total cs

-- An entry against what its changes say: the set of contradicted entries, and the accesses.
pub record IsKept (m : BrainManager) (set : String → Bool) (n : ℕ) (e : MemoryEntry) : Type 0 where
  pub size : len e.content ≤ m.max_entry_size_bytes
  pub once : NoRepeat e.contradicts
  pub members : (id : String) → contains id e.contradicts ≡ set id
  pub accessed : e.access_count ≡ min n (2 ^ 32 - 1)

update-IsKept :
    (m : BrainManager) (set : String → Bool) (n : ℕ) (e : MemoryEntry) (now : ℕ) (text : String)
    → IsKept m set n e
    → IsKept m set n (after_update e (update_entry now m text e))
unfolding update_entry
update-IsKept m set n e now text h = elim (Bool-cases (ltb m.max_entry_size_bytes (len text))) [
  | inl b ↦ rw (b, update_entry) h
  | inr b ↦
      rw (b, update_entry)
        (record { size = ground arith; once = h.once; members = h.members; accessed = h.accessed })
]

add_contradiction-IsKept :
    (m : BrainManager) (set : String → Bool) (n : ℕ) (e : MemoryEntry) (now : ℕ) (id : String)
    → IsKept m set n e
    → IsKept m (λ i. if id == i then true else set i) n (add_contradiction now id e)
unfolding add_contradiction contains
add_contradiction-IsKept m set n e now id h =
    if_keeps (IsKept m (λ i. if id == i then true else set i) n) (contains id e.contradicts) e
      (record e { contradicts = e.contradicts ++ id ∷ []; updated_at = now })
      (λ b. record {
        size = h.size;
        once = h.once;
        members = λ i. ground (arith, h.members i, eq_iff id i, b);
        accessed = h.accessed;
      })
      (λ b. record {
        size = h.size;
        once = append-NoRepeat id e.contradicts b h.once;
        members = λ i. ground (arith, h.members i, contains-append i e.contradicts (id ∷ []));
        accessed = h.accessed;
      })

resolve_contradiction-IsKept :
    (m : BrainManager) (set : String → Bool) (n : ℕ) (e : MemoryEntry) (now : ℕ) (id : String)
    → IsKept m set n e
    → IsKept m (λ i. if id == i then false else set i) n (resolve_contradiction now id e)
unfolding resolve_contradiction
resolve_contradiction-IsKept m set n e now id h = record {
  size = h.size;
  once = keep-NoRepeat (λ c. not (c == id)) e.contradicts h.once;
  members = λ i. ground (
    arith,
    h.members i,
    contains-keep (λ c. not (c == id)) i e.contradicts,
    eq_iff id i,
    eq_iff i id,
  );
  accessed = h.accessed;
}

change_all-IsKept :
    (m : BrainManager) (cs : List Change) (set : String → Bool) (n : ℕ) (e : MemoryEntry)
    → IsKept m set n e
    → IsKept m (contradicted set cs) (n + access_total cs) (change_all m e cs)
unfolding change_all change mark_accessed link_superseded
change_all-IsKept m [] set n e h = record {
  size = h.size;
  once = h.once;
  members = h.members;
  accessed = omega (arith, h.accessed);
}
change_all-IsKept m (updates now text ∷ cs) set n e h =
    change_all-IsKept m cs set n _ (update-IsKept m set n e now text h)
change_all-IsKept m (accesses now ∷ cs) set n e h =
    subst (λ k. IsKept m (contradicted set cs) k (change_all m (mark_accessed now e) cs))
      (omega arith)
      (change_all-IsKept m cs set (n + 1) (mark_accessed now e) (record {
        size = h.size;
        once = h.once;
        members = h.members;
        accessed = omega (arith, h.accessed);
      }))
change_all-IsKept m (supersedes now id ∷ cs) set n e h =
    change_all-IsKept m cs set n (link_superseded now id e)
      (record { size = h.size; once = h.once; members = h.members; accessed = h.accessed })
change_all-IsKept m (contradicts now id ∷ cs) set n e h =
    change_all-IsKept m cs _ n _ (add_contradiction-IsKept m set n e now id h)
change_all-IsKept m (resolves now id ∷ cs) set n e h =
    change_all-IsKept m cs _ n _ (resolve_contradiction-IsKept m set n e now id h)

done_inj : {a b : MemoryEntry} → done a ≡ done b → a ≡ b
done_inj h = cc

created-IsKept :
    (id : String) (now : ℕ) (m : BrainManager) (project_id : String) (kind : MemoryKind)
    (content : String) (tags : List String) (source : MemorySource) (e : MemoryEntry)
    → create_entry id now m project_id kind content tags source ≡ done e
    → IsKept m (λ i. false) 0 e
unfolding create_entry contains
created-IsKept id now m project_id kind content tags source e h =
    elim (Bool-cases (ltb m.max_entry_size_bytes (len content))) [
      | inl b ↦ absurd (ground arith)
      | inr b ↦
          subst (IsKept m (λ i. false) 0)
            (done_inj (
              ap
                (λ t.
                  if t
                  then failed (too_large m.max_entry_size_bytes)
                  else done (fresh_entry id now project_id kind content tags source))
                (sym b)
              ∙ h))
            (record { size = ground arith; once = tt; members = λ i. refl; accessed = omega arith })
    ]

-- An entry that `create_entry` gave keeps, through any sequence of changes, failed updates included,
-- a content within the manager's size, and a list of contradicted entries in which each stands once
-- and which are those that the last change on each added; its accesses are counted up to the largest
-- `u32`.
pub create_entry-IsKept :
    (id : String) (now : ℕ) (m : BrainManager) (project_id : String) (kind : MemoryKind)
    (content : String) (tags : List String) (source : MemorySource) (e : MemoryEntry)
    (cs : List Change)
    → create_entry id now m project_id kind content tags source ≡ done e
    → IsKept m (contradicted (λ i. false) cs) (access_total cs) (change_all m e cs)
create_entry-IsKept id now m project_id kind content tags source e cs created =
    subst (λ k. IsKept m (contradicted (λ i. false) cs) k (change_all m e cs)) (omega arith)
      (change_all-IsKept m cs (λ i. false) 0 e
        (created-IsKept id now m project_id kind content tags source e created))
