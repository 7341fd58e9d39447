-- ===== src/Settings/PromptFilter/Tests.antt =====
-- Rules of ui/src/features/settings/lib/prompt-filter.ts that are added within one millisecond.
use kiro_reverse_api.Prelude.{
  ◌≡◌, ◌≤◌, ◌+◌, ℕ, refl, true, false, List, [], ◌∷◌, none, some, length,
}
use kiro_reverse_api.Text.{codes}
use kiro_reverse_api.Text.Decimal.{print_ℕ}
use kiro_reverse_api.Settings.PromptFilter.{
  PromptFilterRule, PromptFilterConfig, regex, lines_containing, rule_id, is_used, new_rule,
  same_prompt_filter,
}
use kiro_reverse_api.Settings.PromptFilter.Fresh.{all_used, new_rule-first_free}

abbrev rule : ℕ → PromptFilterRule
rule stamp = record {
  id = rule_id stamp;
  name = codes "noise";
  type = lines_containing;
  match = codes "env";
  replace = none;
  enabled = true;
}

abbrev existing : List PromptFilterRule
existing = rule 8 ∷ rule 7 ∷ rule 12 ∷ []

third : (new_rule regex existing 7).id ≡ codes "rule-9"
unfolding new_rule print_ℕ
third = refl

new_rule-first_free_example :
    (is_used existing (new_rule regex existing 7).id ≡ false)
    × ((steps : ℕ) × (steps ≤ length existing)
        × ((new_rule regex existing 7).id ≡ rule_id (7 + steps))
        × (all_used existing 7 steps ≡ true))
new_rule-first_free_example = new_rule-first_free regex existing 7

abbrev config : List PromptFilterRule → PromptFilterConfig
config rules = record {
  filter_claude_code = true;
  filter_env_noise = false;
  filter_strip_boundaries = false;
  rules = rules;
}

-- The server leaves an empty `replace` out.
omitted :
    (same_prompt_filter (config (rule 1 ∷ [])) (config (record (rule 1) { replace = some [] } ∷ []))
      ≡ true)
    × (same_prompt_filter (config (rule 1 ∷ [])) (config (rule 2 ∷ [])) ≡ false)
unfolding same_prompt_filter print_ℕ
omitted = (refl, refl)
