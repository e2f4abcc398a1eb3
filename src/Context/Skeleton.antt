-- ===== src/Context/Skeleton.antt =====
-- context/mod.rs: the skeletons of the relevant files, and the pass that shortens those that the brain
-- covers already.
pub mod Dedup
use memix.Base.{text_le}
use memix.Base.{
  ℕ, zero, suc, ◌+◌, ◌-◌, ◌*◌, ◌/◌, ◌%◌, ◌^◌, ◌≤◌, ◌<◌, min, max, String, ◌≡◌, refl, sym, ap, ◌∙◌,
  subst, ◌≢◌, ◌↔◌, ◌⊎◌, inl, inr, Bool, true, false, not, ◌&&◌, ◌||◌, Option, none, some, List, [],
  ◌∷◌, ◌++◌, map, arith, eq_iff, ltb, leb, nat_beq, if◌then◌else◌, Key, ◌==◌, number_key, text_key,
  pair_key, pair_equal_iff, bool_key, both, same, Bool-cases, Option-cases, length, drop, take,
  length-append, length-drop, keep, count, All, All-append, sum, sum-append, concat, show, some_inj,
  map-eq-some, if_keeps, ℤ, pos, negsuc, negative, whole_units, exceeds, append_none, append_assoc,
  reverse, insert_by, sort_by, Sorted, count-insert_by, count-sort_by, All-insert_by, All-sort_by,
  sort_by-Sorted, All-take, take-Sorted, sort_by-coarse, lines, split_whitespace, trim_matches,
  trim, contains_text, strip_prefix, join, before_first,
}
use Prim.Native.Char.{code}
use Prim.Native.Nat.{Ordering}
use memix.Dict.{contains, dedup}
use memix.Brain.{MemoryEntry}
use memix.Context.{AstNodeFeature, Host}
use memix.Context.Reach.{RelevantFile}

pub record CodeSkeleton : Type 0 where
  pub path : String
  pub signatures : List String
  pub types : List String
  pub exports : List String
  pub full_functions : List String

first_line : List String → String
first_line [] = ""
first_line (l ∷ ls) = l

-- `split('{').next()` gives a text also where there is no brace.
pub signature_head : String → String
unfolding first_line
signature_head body =
    trim (before_first (λ c. nat_beq (code c) 123) (trim (first_line (lines body))))

abbrev is_type : AstNodeFeature → Bool
is_type feature = contains feature.kind ("class" ∷ "interface" ∷ "type" ∷ [])

abbrev more_complex : AstNodeFeature → AstNodeFeature → Bool
more_complex a b = leb b.cyclomatic_complexity a.cyclomatic_complexity

pub build_code_skeleton : (active_file path : String) → List AstNodeFeature → CodeSkeleton
unfolding signature_head
build_code_skeleton active_file path features =
    let heads = λ (fs : List AstNodeFeature). map (λ f. signature_head f.body) fs in
    record {
      path = path;
      signatures = dedup (sort_by text_le (heads (keep (λ f. not (is_type f)) features)));
      types = dedup (sort_by text_le (heads (keep is_type features)));
      exports = dedup (sort_by text_le (map (λ f. f.name) (keep (λ f. f.is_exported) features)));
      full_functions =
          if path == active_file
          then map (λ f. f.body) (take 2 (sort_by more_complex features))
          else [];
    }

-- The files without an entity are skipped, as are those that cannot be read or parsed.
pub skeleton_extraction : Host → (active_file : String) → List RelevantFile → List CodeSkeleton
unfolding build_code_skeleton
skeleton_extraction host active_file [] = []
skeleton_extraction host active_file (file ∷ files) =
    let rest = skeleton_extraction host active_file files in
    elim (host.features file.path) [
      | [] ↦ rest
      | f ∷ fs ↦ build_code_skeleton active_file file.path (f ∷ fs) ∷ rest
    ]

-- The hits of one entry of the brain.
pub entry_hits : CodeSkeleton → MemoryEntry → ℕ
entry_hits skeleton entry =
    (if contains_text entry.content skeleton.path then 1 else 0)
    + count (λ export_name. contains_text entry.content export_name) skeleton.exports

pub coverage_hits : CodeSkeleton → List MemoryEntry → ℕ
unfolding entry_hits
coverage_hits skeleton [] = 0
coverage_hits skeleton (e ∷ es) = entry_hits skeleton e + coverage_hits skeleton es

-- `truncate(3)` leaves a shorter list as it is.
pub shorten : CodeSkeleton → CodeSkeleton
shorten skeleton = record skeleton { signatures = take 3 skeleton.signatures; full_functions = [] }

pub is_empty : CodeSkeleton → Bool
is_empty skeleton =
    both (nat_beq (length skeleton.signatures) 0)
      (both (nat_beq (length skeleton.types) 0) (nat_beq (length skeleton.exports) 0))

-- The skeletons that stay, and the number of those that were shortened.
pub brain_dedup : List CodeSkeleton → List MemoryEntry → List CodeSkeleton × ℕ
unfolding coverage_hits shorten is_empty
brain_dedup [] brain_entries = ([], 0)
brain_dedup (skeleton ∷ skeletons) brain_entries =
    let rest = brain_dedup skeletons brain_entries in
    let covered = leb 3 (coverage_hits skeleton brain_entries) in
    let left = if covered then shorten skeleton else skeleton in
    (if is_empty left then rest.0 else left ∷ rest.0, (if covered then 1 else 0) + rest.1)

-- A part of a rendered skeleton, where there is something to show.
part : (title separator : String) → List String → List String
part title separator [] = []
part title separator (x ∷ xs) = concat title (join separator (x ∷ xs)) ∷ []

pub render_skeleton : CodeSkeleton → String
unfolding part
render_skeleton skeleton = join "\n\n" (
    concat "File: " skeleton.path ∷ part "Exports: " ", " skeleton.exports
    ++ part "Signatures:\n" "\n" skeleton.signatures
    ++ part "Types:\n" "\n" skeleton.types
    ++ part "Included bodies:\n" "\n\n" skeleton.full_functions)
