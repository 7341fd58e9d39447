-- ===== src/ApiKeys/Tests.antt =====
-- Two keys of which one is enabled, and a token limit with a fraction.
use kiro_reverse_api.Prelude.{◌≡◌, refl, true, false, List, [], ◌∷◌, some, none}
use kiro_reverse_api.Prelude.Int.{pos}
use kiro_reverse_api.Text.{codes}
use kiro_reverse_api.Text.Trim.{trim, trim_end, trim_start, is_space}
use kiro_reverse_api.ApiKeys.{
  ApiKey, units, ApiKeyFormValues, accepted, invalid_limits, token_limit_field,
  form_values_from_key, parse_api_key_form, build_create_request, build_update_request,
  is_limit_reached, count_enabled_keys, would_lock_out_clients,
}
use kiro_reverse_api.ApiKeys.Form.{Explains, parse_api_key_form-Explains}
use kiro_reverse_api.ApiKeys.Lockout.{Distinct}

keys_run : Unit {0}
unfolding form_values_from_key parse_api_key_form build_create_request build_update_request
    is_limit_reached count_enabled_keys would_lock_out_clients trim trim_end trim_start is_space
keys_run = tt

abbrev first : ApiKey
first = record {
  id = codes "a";
  name = none;
  enabled = true;
  token_limit = some (pos 100);
  credit_limit = none;
  tokens_used = pos 100;
  credits_used = pos 0;
}

abbrev second : ApiKey
second = record {
  id = codes "b";
  name = none;
  enabled = false;
  token_limit = none;
  credit_limit = none;
  tokens_used = pos 7;
  credits_used = pos 0;
}

abbrev keys : List ApiKey
keys = first ∷ second ∷ []

reached : (is_limit_reached first ≡ true) × (is_limit_reached second ≡ false)
unfolding keys_run
reached = (refl, refl)

warns :
    (would_lock_out_clients keys (codes "a") true ≡ true)
    × (would_lock_out_clients keys (codes "b") true ≡ false)
unfolding keys_run
warns = (refl, refl)

-- 12.5 tokens, in tenths.
abbrev fraction : ApiKeyFormValues
fraction = record {
  name = codes " n ";
  key = [];
  token_limit = some (units (pos 125));
  credit_limit = none;
}

refuses_fraction : parse_api_key_form 10 fraction ≡ invalid_limits token_limit_field
unfolding keys_run
refuses_fraction = refl

-- No tokens, and a credit limit of half a credit.
abbrev unlimited : ApiKeyFormValues
unlimited = record {
  name = codes " n ";
  key = codes "sk ";
  token_limit = some (units (pos 0));
  credit_limit = some (units (pos 5));
}

accepts_zero :
    parse_api_key_form 10 unlimited
    ≡ accepted (record {
      name = codes "n";
      key = codes "sk";
      token_limit = units (pos 0);
      credit_limit = units (pos 5);
    })
unfolding keys_run
accepts_zero = refl

parse_api_key_form-Explains_example : Explains 10 unlimited (parse_api_key_form 10 unlimited)
parse_api_key_form-Explains_example = parse_api_key_form-Explains 10 unlimited

keys-Distinct : Distinct keys
keys-Distinct = ((refl, tt), (tt, tt))
