-- ===== src/Accounts/Tests.antt =====
-- The Accounts page at concrete accounts.
use kiro_reverse_api.Prelude.{
  ℕ, ◌≡◌, refl, true, false, some, [], ◌∷◌, List, map, length, arith, ◌-◌,
}
use kiro_reverse_api.Prelude.Int.{ℤ, pos, minus_ℤ, minus_ℕ}
use kiro_reverse_api.Prelude.Sort.{sort_by, insert_sorted}
use kiro_reverse_api.Text.{Text, codes}
use kiro_reverse_api.Search.Values.{by_usage, by_account, active, expired, disabled}
use kiro_reverse_api.Accounts.{
  Account, auth_key, auth_label, subscription_tier, plan_key, pro_plus, format_auth_method,
  supports_kiro_profiles, is_api_key_account,
}
use kiro_reverse_api.Accounts.Standing.{account_status}
use kiro_reverse_api.Accounts.Filters.{
  filter_options, FilterOption, of_auth, dimension_value, tally, count_option, option_label,
}
use kiro_reverse_api.Accounts.Sorting.{sort_accounts, sort_on, number_key, usage_fraction}
use kiro_reverse_api.Accounts.Order.{IsColumn, sort_accounts-IsColumn}
use kiro_reverse_api.Accounts.Comparing.{IsOrder, minus_ℤ-IsOrder}
use kiro_reverse_api.Accounts.Expiry.{token_expiry, token_expiry-Says, Says}

abbrev kept : Text → Text
kept s = s

abbrev anna : Account
anna = record {
  id = codes "a1";
  email = codes "anna@x.org";
  nickname = [];
  auth_method = codes "idc";
  provider = codes "enterprise";
  region = [];
  enabled = true;
  ban_status = codes "ACTIVE";
  expires_at = pos 5000;
  has_token = true;
  subscription_type = codes "Q_DEVELOPER_STANDALONE_PRO_PLUS";
  subscription_title = [];
  usage_current = pos 5;
  usage_limit = pos 10;
  usage_percent = pos 500;
  trial_usage_limit = pos 0;
  trial_usage_percent = pos 0;
  request_count = pos 12;
  last_used = pos 0;
}

abbrev ben : Account
ben = record anna {
  id = codes "b2";
  email = [];
  provider = [];
  usage_limit = pos 0;
  last_used = pos 900;
}

abbrev carl : Account
carl = record anna {
  id = codes "c3";
  provider = codes "github";
  enabled = false;
  usage_percent = pos 700;
  ban_status = codes "DISABLED";
}

abbrev accounts : List Account
accounts = ben ∷ anna ∷ carl ∷ []

-- Stands for `localeCompare`: shorter texts first.
abbrev by_length : Text → Text → ℤ
by_length s r = minus_ℤ (pos (length s)) (pos (length r))

statuses :
    (account_status anna (pos 4999) ≡ active)
    × (account_status anna (pos 5001) ≡ expired)
    × (account_status carl (pos 4999) ≡ disabled)
unfolding account_status
statuses = (refl, refl, refl)

tiers :
    (subscription_tier kept anna.subscription_type ≡ some pro_plus)
    × (plan_key kept anna ≡ codes "proPlus")
unfolding subscription_tier plan_key
tiers = (refl, refl)

sign_in_methods :
    (auth_key kept ben ≡ codes "enterprise")
    × (format_auth_method kept kept (codes "azuread") ≡ codes "auth.microsoft")
    × (supports_kiro_profiles kept carl ≡ false)
    × (is_api_key_account kept anna ≡ false)
unfolding auth_key format_auth_method supports_kiro_profiles is_api_key_account
sign_in_methods = (refl, refl, refl, refl)

by_usage_desc :
    sort_accounts kept by_length true (pos 0) accounts (some by_usage) ≡ carl ∷ anna ∷ ben ∷ []
unfolding sort_accounts sort_on number_key usage_fraction sort_by insert_sorted minus_ℕ
by_usage_desc = refl

by_usage_asc :
    sort_accounts kept by_length false (pos 0) accounts (some by_usage) ≡ anna ∷ carl ∷ ben ∷ []
unfolding sort_accounts sort_on number_key usage_fraction sort_by insert_sorted minus_ℕ
by_usage_asc = refl

abbrev counts_of : List FilterOption → List ℕ
counts_of os = map (λ (o : FilterOption). o.count) os

methods_counted :
    counts_of (filter_options kept kept kept of_auth (pos 0) by_length accounts) ≡ 1 ∷ 2 ∷ []
unfolding filter_options tally count_option option_label dimension_value auth_key auth_label
    format_auth_method sort_by insert_sorted minus_ℕ
methods_counted = refl

by_length-IsOrder : IsOrder by_length
by_length-IsOrder = record {
  flips = λ s r. minus_ℤ-IsOrder.flips (pos (length s)) (pos (length r));
  joins = λ s r q h k. minus_ℤ-IsOrder.joins (pos (length s)) (pos (length r)) (pos (length q)) h k;
}

sort_accounts-IsColumn_example :
    IsColumn kept by_length true
      (pos 0)
      accounts
      by_account
      (sort_accounts kept by_length true (pos 0) accounts (some by_account))
sort_accounts-IsColumn_example =
    sort_accounts-IsColumn kept by_length by_length-IsOrder true (pos 0) accounts by_account

token_expiry-Says_example : Says (token_expiry (pos 90000) (pos 10000)) (90000 - 10000)
token_expiry-Says_example = token_expiry-Says 90000 10000 (omega arith)
