-- ===== src/Settings/PromptFilter.antt =====
-- ui/src/features/settings/lib/prompt-filter.ts: the rules of the prompt filter, a new one, and when
-- two configurations are the same.
pub mod Fresh
pub mod Same
mod Tests
use kiro_reverse_api.Prelude.{
  ℕ, zero, suc, Bool, not, List, [], ◌∷◌, ◌++◌, map, Option, none, some, or_else, if◌then◌else◌,
  any, length, true, false,
}
use kiro_reverse_api.Text.{Text, codes, text_eq}
use kiro_reverse_api.Text.Decimal.{print_ℕ}
use kiro_reverse_api.Settings.Draft.Equal.{
  Value, undefined, flag, str, arr, obj, Values, nil, cons, end, entry, is_equal,
}
use kiro_reverse_api.Settings.Regex.Compiles.{compiles_in_go}

pub data PromptFilterRuleType : Type 0 where
  regex lines_containing contains : PromptFilterRuleType

pub record PromptFilterRule : Type 0 where
  pub id : Text
  pub name : Text
  pub type : PromptFilterRuleType
  pub match : Text
  pub replace : Option Text
  pub enabled : Bool

pub record PromptFilterConfig : Type 0 where
  pub filter_claude_code : Bool
  pub filter_env_noise : Bool
  pub filter_strip_boundaries : Bool
  pub rules : List PromptFilterRule

abbrev pub is_regex_rule : PromptFilterRule → Bool
is_regex_rule rule = is_regex rule.type
  where
    is_regex : PromptFilterRuleType → Bool
    is_regex regex = true
    is_regex lines_containing = false
    is_regex contains = false

abbrev pub rule_id : ℕ → Text
rule_id stamp = codes "rule-" ++ print_ℕ stamp

-- `existing.some((rule) => rule.id === id)`
abbrev pub is_used : List PromptFilterRule → Text → Bool
is_used existing id = any (λ rule. text_eq rule.id id) existing

-- The `while` of `newRule`, on fuel.
abbrev pub next_stamp : ℕ → List PromptFilterRule → ℕ → ℕ
next_stamp zero existing stamp = stamp
next_stamp (suc fuel) existing stamp =
    let rest = next_stamp fuel existing (suc stamp) in
    if is_used existing (rule_id stamp) then rest else stamp

unfoldable pub new_rule : PromptFilterRuleType → List PromptFilterRule → ℕ → PromptFilterRule
new_rule type existing now = record {
  id = rule_id (next_stamp (length existing) existing now);
  name = [];
  type = type;
  match = [];
  replace = some [];
  enabled = true;
}

-- The value that `isEqual` sees.
abbrev pub type_text : PromptFilterRuleType → Text
type_text regex = codes "regex"
type_text lines_containing = codes "lines-containing"
type_text contains = codes "contains"

abbrev pub replace_value : Option Text → Value
replace_value none = undefined
replace_value (some s) = str s

abbrev pub rule_value : PromptFilterRule → Value
rule_value rule = obj (
    entry (codes "id") (str rule.id) (
      entry (codes "name") (str rule.name) (
        entry (codes "type") (str (type_text rule.type)) (
          entry (codes "match") (str rule.match) (
            entry (codes "replace") (replace_value rule.replace)
              (entry (codes "enabled") (flag rule.enabled) end))))))

abbrev pub rule_values : List PromptFilterRule → Values
rule_values [] = nil
rule_values (rule ∷ rules) = cons (rule_value rule) (rule_values rules)

abbrev pub config_value : PromptFilterConfig → Value
config_value config = obj (
    entry (codes "filterClaudeCode") (flag config.filter_claude_code) (
      entry (codes "filterEnvNoise") (flag config.filter_env_noise) (
        entry (codes "filterStripBoundaries") (flag config.filter_strip_boundaries)
          (entry (codes "rules") (arr (rule_values config.rules)) end))))

abbrev pub normalized_rule : PromptFilterRule → PromptFilterRule
normalized_rule rule = record rule { replace = some (or_else rule.replace []) }

abbrev pub normalized : PromptFilterConfig → PromptFilterConfig
normalized config = record config { rules = map normalized_rule config.rules }

-- Go rejects the pattern; `lower`, `upper` and `has_script` are those of the scanner.
abbrev pub regex_fails : (Text → Text) → (Text → Text) → (Text → Bool) → Text → Option Bool
regex_fails lower upper has_script match = failed (compiles_in_go lower upper has_script match)
  where
    failed : Option Bool → Option Bool
    failed none = none
    failed (some compiles) = some (not compiles)

unfoldable pub same_prompt_filter : PromptFilterConfig → PromptFilterConfig → Bool
unfolding is_equal
same_prompt_filter a b = is_equal (config_value (normalized a)) (config_value (normalized b))

abbrev pub prompt_filter_body : PromptFilterConfig → PromptFilterConfig
prompt_filter_body config = record {
  filter_claude_code = config.filter_claude_code;
  filter_env_noise = config.filter_env_noise;
  filter_strip_boundaries = config.filter_strip_boundaries;
  rules = config.rules;
}
