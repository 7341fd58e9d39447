-- ===== src/ApiKeys.antt =====
-- ui/src/features/api/api-key-form.ts: the dialog of an API key, its limits, and the warning before
-- the last key goes.
pub mod Form
pub mod Lockout
mod Tests
use kiro_reverse_api.Prelude.{
  ℕ, zero, suc, ◌%◌, Bool, true, false, ◌&&◌, ◌||◌, not, List, [], ◌∷◌, Option, none, some,
  if◌then◌else◌, ◌==◌, leb, ltb, length, keep, or_else,
}
use kiro_reverse_api.Prelude.Int.{ℤ, pos, negsuc, ltb_ℤ}
use kiro_reverse_api.Text.{Text, text_eq, is_full, or_text}
use kiro_reverse_api.Text.Trim.{trim}

pub record ApiKey : Type 0 where
  pub id : Text
  pub name : Option Text
  pub enabled : Bool
  pub token_limit : Option ℤ
  pub credit_limit : Option ℤ
  pub tokens_used : ℤ
  pub credits_used : ℤ

-- A number of the form: `units z` is z of the parts that `unit` of make one.
pub data FormNumber : Type 0 where
  not_finite : FormNumber
  units : ℤ → FormNumber

pub record ApiKeyFormValues : Type 0 where
  pub name : Text
  pub key : Text
  pub token_limit : Option FormNumber
  pub credit_limit : Option FormNumber

pub record ApiKeyFormData : Type 0 where
  pub name : Text
  pub key : Text
  pub token_limit : FormNumber
  pub credit_limit : FormNumber

pub data ApiKeyLimitField : Type 0 where
  token_limit_field credit_limit_field : ApiKeyLimitField

pub data ApiKeyFormResult : Type 0 where
  accepted : ApiKeyFormData → ApiKeyFormResult
  invalid_limits : ApiKeyLimitField → ApiKeyFormResult

unfoldable pub form_values_from_key : ApiKey → ApiKeyFormValues
form_values_from_key k = record {
  name = or_else k.name [];
  key = [];
  token_limit = some (units (or_else k.token_limit (pos 0)));
  credit_limit = some (units (or_else k.credit_limit (pos 0)));
}

abbrev pub is_positive_or_zero : FormNumber → Bool
is_positive_or_zero not_finite = false
is_positive_or_zero (units (pos n)) = true
is_positive_or_zero (units (negsuc n)) = false

abbrev pub is_whole : ℕ → FormNumber → Bool
is_whole unit not_finite = false
is_whole unit (units (pos n)) = n % unit == 0
is_whole unit (units (negsuc n)) = suc n % unit == 0

abbrev pub limit_of : Option FormNumber → FormNumber
limit_of l = or_else l (units (pos 0))

unfoldable pub parse_api_key_form : ℕ → ApiKeyFormValues → ApiKeyFormResult
parse_api_key_form unit values =
    let token_limit = limit_of values.token_limit in
    let credit_limit = limit_of values.credit_limit in
    if not (is_positive_or_zero token_limit && is_whole unit token_limit)
    then invalid_limits token_limit_field
    else if not (is_positive_or_zero credit_limit)
    then invalid_limits credit_limit_field
    else accepted (record {
      name = trim values.name;
      key = trim values.key;
      token_limit = token_limit;
      credit_limit = credit_limit;
    })

-- A request that creates a key (`enabled` is sent) or one that updates it.
pub record ApiKeyRequest : Type 0 where
  pub name : Text
  pub enabled : Option Bool
  pub token_limit : FormNumber
  pub credit_limit : FormNumber
  pub key : Option Text

unfoldable pub build_create_request : ApiKeyFormData → ApiKeyRequest
build_create_request d = record {
  name = d.name;
  enabled = some true;
  token_limit = d.token_limit;
  credit_limit = d.credit_limit;
  key = if is_full d.key then some d.key else none;
}

unfoldable pub build_update_request : ApiKeyFormData → ApiKeyRequest
build_update_request d = record {
  name = d.name;
  enabled = none;
  token_limit = d.token_limit;
  credit_limit = d.credit_limit;
  key = some (or_text d.key []);
}

abbrev reaches : ℤ → ℤ → Bool
reaches limit used = ltb_ℤ (pos 0) limit && not (ltb_ℤ used limit)

unfoldable pub is_limit_reached : ApiKey → Bool
is_limit_reached k =
    reaches (or_else k.token_limit (pos 0)) k.tokens_used
    || reaches (or_else k.credit_limit (pos 0)) k.credits_used

abbrev pub is_enabled : ApiKey → Bool
is_enabled k = k.enabled

unfoldable pub count_enabled_keys : List ApiKey → ℕ
count_enabled_keys keys = length (keep is_enabled keys)

abbrev pub find_key : Text → List ApiKey → Option ApiKey
find_key id [] = none
find_key id (k ∷ ks) = if text_eq k.id id then some k else find_key id ks

-- `Boolean(target?.enabled)`
abbrev pub target_enabled : Option ApiKey → Bool
target_enabled none = false
target_enabled (some k) = k.enabled

unfoldable pub would_lock_out_clients : List ApiKey → Text → Bool → Bool
unfolding count_enabled_keys
would_lock_out_clients keys id require_api_key =
    if not require_api_key
    then false
    else target_enabled (find_key id keys) && count_enabled_keys keys == 1
