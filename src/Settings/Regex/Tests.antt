-- ===== src/Settings/Regex/Tests.antt =====
-- Patterns that Go takes and patterns that it does not.
use kiro_reverse_api.Prelude.{◌≡◌, arith, refl, true, false, some, Bool, Option}
use kiro_reverse_api.Text.{Text, codes}
use kiro_reverse_api.Settings.Regex.{parse_escape, parse_unicode_class}
use kiro_reverse_api.Settings.Regex.Patterns.{
  parse_class, class_item, parse_perl_group, parse_count, parse_repeat,
}
use kiro_reverse_api.Settings.Regex.Compiles.{
  compiles_in_go, rounds, round, repeat_weight, start_scan,
}
use kiro_reverse_api.Settings.Regex.Ending.{SameVerdict, compiles_in_go-SameVerdict}

regex_runs : Unit {0}
unfolding parse_escape parse_unicode_class parse_class class_item parse_perl_group parse_count
    parse_repeat compiles_in_go rounds round repeat_weight
regex_runs = tt

abbrev kept : Text → Text
kept s = s

abbrev result : Text → Option Bool
result = compiles_in_go kept kept (λ s. false)

flags_and_groups : result (codes "(?i)a(?P<n>b|c)*") ≡ some true
unfolding regex_runs
flags_and_groups = refl

lookahead : result (codes "(?=a)") ≡ some false
unfolding regex_runs
lookahead = refl

nested_counts : result (codes "(a{100}){11}") ≡ some false
unfolding regex_runs
nested_counts = refl

counts : result (codes "(a{100}){10}") ≡ some true
unfolding regex_runs
counts = refl

classes : result (codes "[]a-z[:alpha:]\\d]+?") ≡ some true
unfolding regex_runs
classes = refl

backreference : result (codes "(a)\\1") ≡ some false
unfolding regex_runs
backreference = refl

octal : result (codes "\\11") ≡ some true
unfolding regex_runs
octal = refl

compiles_in_go-SameVerdict_example :
    SameVerdict
      (result (codes "a{2,}("))
      (rounds kept kept (λ s. false) 9 (codes "a{2,}(") start_scan)
compiles_in_go-SameVerdict_example =
    compiles_in_go-SameVerdict kept kept (λ s. false) (codes "a{2,}(") 9 (omega arith)
