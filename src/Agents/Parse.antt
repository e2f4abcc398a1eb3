-- ===== src/Agents/Parse.antt =====
-- agents/mod.rs: the file of agents.
pub mod Trigger
pub mod Yaml
mod Tests
use memix.Base.{
  ℕ, zero, suc, ◌+◌, ◌-◌, ◌*◌, ◌/◌, ◌%◌, ◌^◌, ◌≤◌, ◌<◌, min, max, String, ◌≡◌, refl, sym, ap, ◌∙◌,
  subst, ◌≢◌, ◌↔◌, ◌⊎◌, inl, inr, Bool, true, false, not, ◌&&◌, ◌||◌, Option, none, some, List, [],
  ◌∷◌, ◌++◌, map, arith, eq_iff, ltb, leb, nat_beq, if◌then◌else◌, Key, ◌==◌, number_key, text_key,
  pair_key, pair_equal_iff, bool_key, both, same, Bool-cases, Option-cases, length, drop, take,
  length-append, length-drop, keep, count, All, All-append, sum, sum-append, concat, show, some_inj,
  map-eq-some, if-some-cases, if-eq-some, chain-eq-some, if_keeps, ℤ, pos, negsuc, negative,
  whole_units, exceeds, append_none, keep-append, append_assoc, reverse, insert_by, sort_by, Sorted,
  count-insert_by, count-sort_by, All-insert_by, All-sort_by, sort_by-Sorted, All-take, take-Sorted,
  sort_by-coarse, OneLine, lines-OneLine, length-lines-join_le, lines, split_whitespace,
  trim_matches, trim, contains_text, strip_prefix, join, before_first,
}
use memix.Dict.{lookup, or_else}
use memix.Agents.{AgentConfig}
use memix.Agents.Parse.Trigger.{Texts, parse_trigger, parse_cooldown_ms}
use memix.Agents.Parse.Yaml.{extract_yaml_block, parse_simple_yaml_map}
use mathlib.Core.Option

unfoldable pub parse_agent_section :
    Texts → String → List String → Option String → Option AgentConfig
unfolding extract_yaml_block parse_simple_yaml_map parse_trigger parse_cooldown_ms
parse_agent_section t name lines source_path =
    Option.map
      (λ yaml.
        let fields = parse_simple_yaml_map yaml in
        record {
          name = name;
          trigger = parse_trigger t (or_else "manual" (lookup "trigger" fields));
          scope = or_else "workspace" (lookup "scope" fields);
          action_description = or_else "" (lookup "action" fields);
          output_key =
              or_else (concat "brain:{project}:" (t.to_lowercase name)) (lookup "output" fields);
          cooldown_ms = parse_cooldown_ms t (or_else "0ms" (lookup "cooldown" fields));
          source_path = source_path;
        })
      (extract_yaml_block lines)

module _ (t : Texts) (source_path : Option String) where
  -- The agent of the section that ends.
  unfoldable pub close_section : Option (String × List String) → List AgentConfig
  unfolding parse_agent_section
  close_section none = []
  close_section (some (name, lines)) = elim (parse_agent_section t name lines source_path) [
    | none ↦ []
    | some config ↦ config ∷ []
  ]

  unfoldable pub keep_line : String → Option (String × List String) → Option (String × List String)
  keep_line line none = none
  keep_line line (some (name, lines)) = some (name, lines ++ line ∷ [])

  unfoldable pub parse_sections : Option (String × List String) → List String → List AgentConfig
  unfolding close_section keep_line
  parse_sections current [] = close_section current
  parse_sections current (line ∷ rest) = elim (strip_prefix "## Agent:" (trim line)) [
    | none ↦ parse_sections (keep_line line current) rest
    | some name ↦ close_section current ++ parse_sections (some (trim name, [])) rest
  ]

  unfoldable pub parse_agents_markdown : String → List AgentConfig
  unfolding parse_sections
  parse_agents_markdown content = parse_sections none (lines content)

  -- A heading ends the agents before it: those after it do not depend on them.
  parse_sections-append :
      (current : Option (String × List String)) (before after : List String) (heading name : String)
      → strip_prefix "## Agent:" (trim heading) ≡ some name
      → parse_sections current (before ++ heading ∷ after)
        ≡ parse_sections current before ++ parse_sections none (heading ∷ after)
  unfolding parse_sections close_section
  parse_sections-append current [] after heading name h = rw (h, parse_sections) refl
  parse_sections-append current (l ∷ ls) after heading name h =
      elim (Option-cases (strip_prefix "## Agent:" (trim l))) [
        | inl n ↦
            rw (n, parse_sections)
              (parse_sections-append (keep_line l current) ls after heading name h)
        | inr (other, s) ↦
            rw
              (
                s,
                parse_sections,
                parse_sections-append (some (trim other, [])) ls after heading name h,
              )
              (sym (
                append_assoc (close_section current) (parse_sections (some (trim other, [])) ls)
                  (parse_sections none (heading ∷ after))))
      ]

unfoldable pub load_from : Texts → List String → List AgentConfig × Option String
unfolding parse_agents_markdown
load_from t [] = ([], none)
load_from t (candidate ∷ rest) = elim (t.read candidate) [
  | none ↦ load_from t rest
  | some content ↦ (parse_agents_markdown t (some candidate) content, some candidate)
]

unfoldable pub load_agent_configs :
    Texts → (workspace_root : String) → List AgentConfig × Option String
unfolding load_from
load_agent_configs t workspace_root =
    load_from t
      (t.join_path workspace_root "AGENTS.md" ∷ t.join_path workspace_root "A*G*E*N*T*S.m*d" ∷ [])
