-- ===== src/Agents/Parse/Tests.antt =====
-- A concrete file of agents.
use memix.Base.{
  String, ◌≡◌, refl, none, some, [], ◌∷◌, if◌then◌else◌, ◌==◌, number_key, text_key, pair_key,
  bool_key, concat, lines, trim_matches, trim, contains_text, strip_prefix, join, chars,
  is_whitespace,
}
use memix.Dict.{lookup, insert}
use memix.Agents.{file_save, interval}
use memix.Agents.Parse.{parse_agents_markdown}
use memix.Agents.Parse.Trigger.{Texts}

abbrev plain : Texts
plain = record {
  join_path = λ a b. concat a (concat "/" b);
  read = λ path. none;
  to_lowercase = λ s. s;
  parse_u64 = λ s. if s == "5" then some 5 else none;
  interval_groups = λ s. if s == "every 5 minutes" then some ("5", "minutes") else none;
  cooldown_groups = λ s. if s == "5s" then some ("5", "s") else none;
}

abbrev document : String
document =
    "# Agents\n## Agent: Notes\nText\n```yaml\ntrigger: on_file_save\naction: |\n  one\n  two\ncooldown: 5s\n```\n## Agent: Empty\n## Agent: Clock\n```yaml\ntrigger: every 5 minutes\noutput: o\n```\n"

two_agents :
    parse_agents_markdown plain none document
    ≡ record {
      name = "Notes";
      trigger = file_save;
      scope = "workspace";
      action_description = "one\ntwo";
      output_key = "brain:{project}:Notes";
      cooldown_ms = 5000;
      source_path = none;
    }
      ∷ record {
        name = "Clock";
        trigger = interval 300;
        scope = "workspace";
        action_description = "";
        output_key = "o";
        cooldown_ms = 0;
        source_path = none;
      }
      ∷ []
unfolding parse_agents_markdown lines chars strip_prefix trim trim_matches is_whitespace
    contains_text lookup insert join
two_agents = refl
