-- ===== src/Brain/Validator.antt =====
-- brain/validator.rs. The regular expressions are parameters: whether one matches a text, and the
-- text with its matches replaced.
use memix.Base.{
  ℕ, ◌≤◌, String, ◌≡◌, refl, ◌↔◌, Bool, true, false, not, List, [], ◌∷◌, arith, ltb, if◌then◌else◌,
  ◌==◌, number_key, text_key, pair_key, bool_key, length, All, concat, show,
}
use Prim.Native.String.{len}
use memix.Brain.{MemoryEntry, Outcome, done, failed, update_entry, new}

module _ {Regex : Type 0} (is_match : Regex → String → Bool) where
  pub record BrainValidator : Type 0 where
    pub secret_patterns : List Regex
    pub max_content_size : ℕ
    pub max_tags : ℕ

  abbrev pub new_validator : List Regex → BrainValidator
  new_validator patterns = record {
    secret_patterns = patterns;
    max_content_size = 51200;
    max_tags = 20;
  }

  pub any_match : List Regex → String → Bool
  any_match [] content = false
  any_match (p ∷ ps) content = if is_match p content then true else any_match ps content

  pub contains_secret : BrainValidator → String → Bool
  unfolding any_match
  contains_secret v content = any_match v.secret_patterns content

  pub validate_entry : BrainValidator → MemoryEntry → Outcome (Unit {0})
  unfolding contains_secret
  validate_entry v entry =
      if entry.content == ""
      then failed "Entry content cannot be empty"
      else if ltb v.max_content_size (len entry.content)
      then failed (
          concat "Entry content exceeds maximum size of "
            (concat (show v.max_content_size) " bytes"))
      else if ltb v.max_tags (length entry.tags)
      then failed (concat "Entry cannot have more than " (concat (show v.max_tags) " tags"))
      else if contains_secret v entry.content
      then failed "Entry contains potential secrets - blocked for security"
      else done tt

  pub validate_project_id : (valid_chars : Regex) → String → Outcome (Unit {0})
  validate_project_id valid_chars project_id =
      if project_id == ""
      then failed "Project ID cannot be empty"
      else if ltb 100 (len project_id)
      then failed "Project ID cannot exceed 100 characters"
      else if not (is_match valid_chars project_id)
      then failed "Project ID contains invalid characters"
      else done tt

  -- `replace_all pattern text replacement`.
  pub sanitize : (Regex → String → String → String) → List Regex → String → String
  sanitize replace_all [] content = content
  sanitize replace_all (p ∷ ps) content =
      sanitize replace_all ps (replace_all p content "[REDACTED]")

  pub sanitize_content : (Regex → String → String → String) → BrainValidator → String → String
  unfolding sanitize
  sanitize_content replace_all v content = sanitize replace_all v.secret_patterns content

  -- What `validate_entry` promises of an entry.
  pub record Accepts (v : BrainValidator) (entry : MemoryEntry) : Type 0 where
    pub not_empty : (entry.content == "") ≡ false
    pub size : len entry.content ≤ v.max_content_size
    pub tags : length entry.tags ≤ v.max_tags
    pub no_secret : All (λ p. is_match p entry.content ≡ false) v.secret_patterns

  any_match-false :
      (ps : List Regex) (content : String)
      → any_match ps content ≡ false
      → All (λ p. is_match p content ≡ false) ps
  unfolding any_match
  any_match-false [] content h = tt
  any_match-false (p ∷ ps) content h =
      (ground (arith, h), any_match-false ps content (ground (arith, h)))

  any_match-All :
      (ps : List Regex) (content : String)
      → All (λ p. is_match p content ≡ false) ps
      → any_match ps content ≡ false
  unfolding any_match
  any_match-All [] content a = refl
  any_match-All (p ∷ ps) content a = rw (a.0) (any_match-All ps content a.1)

  -- `validate_entry` is well exactly for an entry with a content that is not empty, not larger than
  -- the limit, with no more tags than the limit, and that no secret pattern matches.
  pub validate_entry-Accepts :
      (v : BrainValidator) (entry : MemoryEntry)
      → (validate_entry v entry ≡ done tt) ↔ Accepts v entry
  unfolding validate_entry contains_secret
  validate_entry-Accepts v entry = (
    λ h. record {
      not_empty = ground (arith, h);
      size = ground (arith, h);
      tags = ground (arith, h);
      no_secret = any_match-false v.secret_patterns entry.content (ground (arith, h));
    },
    λ a. ground (
      arith,
      a.not_empty,
      a.size,
      a.tags,
      any_match-All v.secret_patterns entry.content a.no_secret,
    ),
  )

  -- A content that the validator lets through is not too large for the manager: `update_entry` of
  -- the default manager writes it, into any entry.
  pub validate_entry-update_entry :
      (patterns : List Regex) (entry old : MemoryEntry) (now : ℕ)
      → validate_entry (new_validator patterns) entry ≡ done tt
      → update_entry now new entry.content old
        ≡ done (record old { content = entry.content; updated_at = now })
  unfolding update_entry validate_entry
  validate_entry-update_entry patterns entry old now h = ground (arith, h)
