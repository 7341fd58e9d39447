-- ===== src/Settings/PromptFilter/Same.antt =====
-- `samePromptFilter` of ui/src/features/settings/lib/prompt-filter.ts compares what the server keeps.
use mathlib.Core.Path.{subst}
use kiro_reverse_api.Prelude.{
  ◌≡◌, refl, sym, ◌↔◌, Bool, true, false, ◌&&◌, List, [], ◌∷◌, map, or_else, ◌==◌, arith,
}
use kiro_reverse_api.Text.{text_eq}
use kiro_reverse_api.Text.Equality.{text_eq_iff}
use kiro_reverse_api.Settings.Draft.Equal.{arr, is_equal, every_equal, same_flag, values_length}
use kiro_reverse_api.Settings.Draft.Equal.Laws.{IsPlain, ArePlain, and_both, is_equal_refl}
use kiro_reverse_api.Settings.PromptFilter.{
  PromptFilterRuleType, regex, lines_containing, contains, PromptFilterRule, PromptFilterConfig,
  type_text, rule_value, rule_values, config_value, normalized_rule, normalized, same_prompt_filter,
}

same_flag_sound : (a b : Bool) → same_flag a b ≡ true → a ≡ b
same_flag_sound true b e = sym e
same_flag_sound false true e = absurd (cc)
same_flag_sound false false e = refl

type_text_inj : (s t : PromptFilterRuleType) → type_text s ≡ type_text t → s ≡ t
type_text_inj regex regex e = refl
type_text_inj regex lines_containing e = absurd (cc)
type_text_inj regex contains e = absurd (cc)
type_text_inj lines_containing regex e = absurd (cc)
type_text_inj lines_containing lines_containing e = refl
type_text_inj lines_containing contains e = absurd (cc)
type_text_inj contains regex e = absurd (cc)
type_text_inj contains lines_containing e = absurd (cc)
type_text_inj contains contains e = refl

-- The conjunctions that `isEqual` makes of six entries, and of four.
six_hold :
    (a b c d e f : Bool)
    → (a && (b && (c && (d && (e && (f && true)))))) ≡ true
    → (a ≡ true) × (b ≡ true) × (c ≡ true) × (d ≡ true) × (e ≡ true) × (f ≡ true)
six_hold a b c d e f h = ground (arith, h)

four_hold :
    (a b c d : Bool)
    → (a && (b && (c && (d && true)))) ≡ true
    → (a ≡ true) × (b ≡ true) × (c ≡ true) × (d ≡ true)
four_hold a b c d h = ground (arith, h)

-- Two rules agree, where a missing `replace` is the empty text.
pub record SameRule (a b : PromptFilterRule) : Type 0 where
  id : a.id ≡ b.id
  name : a.name ≡ b.name
  type : a.type ≡ b.type
  match : a.match ≡ b.match
  replace : or_else a.replace [] ≡ or_else b.replace []
  enabled : a.enabled ≡ b.enabled

rule-SameRule :
    (a b : PromptFilterRule)
    → is_equal (rule_value (normalized_rule a)) (rule_value (normalized_rule b)) ≡ true
    → SameRule a b
unfolding is_equal
rule-SameRule a b h =
    let (i, n, t, m, r, e) =
      six_hold (text_eq a.id b.id) (text_eq a.name b.name)
        (text_eq (type_text a.type) (type_text b.type)) (text_eq a.match b.match)
        (text_eq (or_else a.replace []) (or_else b.replace [])) (same_flag a.enabled b.enabled) h in
    record {
      id = (text_eq_iff a.id b.id).0 i;
      name = (text_eq_iff a.name b.name).0 n;
      type = type_text_inj a.type b.type ((text_eq_iff (type_text a.type) (type_text b.type)).0 t);
      match = (text_eq_iff a.match b.match).0 m;
      replace = (text_eq_iff (or_else a.replace []) (or_else b.replace [])).0 r;
      enabled = same_flag_sound a.enabled b.enabled e;
    }

-- Rule by rule, in the same order.
abbrev pub SameRules : List PromptFilterRule → List PromptFilterRule → Type 0
SameRules [] [] = Unit
SameRules [] (b ∷ ss) = ⊥
SameRules (a ∷ rs) [] = ⊥
SameRules (a ∷ rs) (b ∷ ss) = SameRule a b × SameRules rs ss

pub record SameConfig (a b : PromptFilterConfig) : Type 0 where
  claude_code : a.filter_claude_code ≡ b.filter_claude_code
  env_noise : a.filter_env_noise ≡ b.filter_env_noise
  strip_boundaries : a.filter_strip_boundaries ≡ b.filter_strip_boundaries
  rules : SameRules a.rules b.rules

rules-SameRules :
    (rs ss : List PromptFilterRule)
    → values_length (rule_values (map normalized_rule rs))
      ≡ values_length (rule_values (map normalized_rule ss))
    → every_equal (rule_values (map normalized_rule rs)) (rule_values (map normalized_rule ss))
      ≡ true
    → SameRules rs ss
unfolding is_equal
rules-SameRules [] [] l h = tt
rules-SameRules [] (b ∷ ss) l h = absurd (omega (arith, l))
rules-SameRules (a ∷ rs) [] l h = absurd (omega (arith, l))
rules-SameRules (a ∷ rs) (b ∷ ss) l h =
    let (e, f) =
      and_both {a = is_equal (rule_value (normalized_rule a)) (rule_value (normalized_rule b))}
        {b = every_equal (rule_values (map normalized_rule rs))
          (rule_values (map normalized_rule ss))}
        h in
    (rule-SameRule a b e, rules-SameRules rs ss (omega (arith, l)) f)

-- Rules that agree have the same value.
SameRule-rule_value :
    (a b : PromptFilterRule)
    → SameRule a b
    → rule_value (normalized_rule a) ≡ rule_value (normalized_rule b)
SameRule-rule_value a b s = rw (s.id, s.name, s.type, s.match, s.replace, s.enabled) refl

SameRules-rule_values :
    (rs ss : List PromptFilterRule)
    → SameRules rs ss
    → rule_values (map normalized_rule rs) ≡ rule_values (map normalized_rule ss)
SameRules-rule_values [] [] h = refl
SameRules-rule_values [] (b ∷ ss) h = elim h [ ]
SameRules-rule_values (a ∷ rs) [] h = elim h [ ]
SameRules-rule_values (a ∷ rs) (b ∷ ss) h =
    rw (SameRule-rule_value a b h.0, SameRules-rule_values rs ss h.1) refl

rule_values-ArePlain :
    (rules : List PromptFilterRule) → ArePlain (rule_values (map normalized_rule rules))
unfolding IsPlain
rule_values-ArePlain [] = tt
rule_values-ArePlain (r ∷ rules) = (
  (refl, tt, (refl, tt, (refl, tt, (refl, tt, (refl, tt, (refl, tt, tt)))))),
  rule_values-ArePlain rules,
)

config-IsPlain : (config : PromptFilterConfig) → IsPlain (config_value (normalized config))
unfolding IsPlain
config-IsPlain config =
    (refl, tt, (refl, tt, (refl, tt, (refl, rule_values-ArePlain config.rules, tt))))

same-SameConfig : (a b : PromptFilterConfig) → same_prompt_filter a b ≡ true → SameConfig a b
unfolding same_prompt_filter is_equal
same-SameConfig a b h =
    let xs = rule_values (map normalized_rule a.rules) in
    let ys = rule_values (map normalized_rule b.rules) in
    let (c, e, s, r) =
      four_hold (same_flag a.filter_claude_code b.filter_claude_code)
        (same_flag a.filter_env_noise b.filter_env_noise)
        (same_flag a.filter_strip_boundaries b.filter_strip_boundaries) (is_equal (arr xs) (arr ys))
        h in
    let (l, q) = and_both {a = values_length xs == values_length ys} {b = every_equal xs ys} r in
    record {
      claude_code = same_flag_sound a.filter_claude_code b.filter_claude_code c;
      env_noise = same_flag_sound a.filter_env_noise b.filter_env_noise e;
      strip_boundaries = same_flag_sound a.filter_strip_boundaries b.filter_strip_boundaries s;
      rules = rules-SameRules a.rules b.rules (ground (arith, l)) q;
    }

SameConfig-same : (a b : PromptFilterConfig) → SameConfig a b → same_prompt_filter a b ≡ true
unfolding same_prompt_filter
SameConfig-same a b s =
    let one : config_value (normalized a) ≡ config_value (normalized b) =
      rw
        (
          s.claude_code,
          s.env_noise,
          s.strip_boundaries,
          SameRules-rule_values a.rules b.rules s.rules,
        )
        refl in
    subst (λ v. is_equal v (config_value (normalized b)) ≡ true) (sym one)
      (is_equal_refl (config_value (normalized b)) (config-IsPlain b))

-- Two configurations are the same exactly when their three switches agree and their rules do, one
-- by one and in order, where a missing `replace` is the empty text.
pub same_prompt_filter_iff :
    (a b : PromptFilterConfig) → (same_prompt_filter a b ≡ true) ↔ SameConfig a b
same_prompt_filter_iff a b = (same-SameConfig a b, SameConfig-same a b)
