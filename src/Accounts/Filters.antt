-- ===== src/Accounts/Filters.antt =====
-- The filters of the Accounts page, and the values of one filter with their counts.
use kiro_reverse_api.Prelude.{
  ℕ, suc, Bool, true, false, not, ◌&&◌, ◌||◌, List, [], ◌∷◌, ◌++◌, Option, none, some, or_else,
  is_some, if◌then◌else◌, all, keep,
}
use kiro_reverse_api.Prelude.Int.{ℤ, pos, negsuc, minus_ℤ}
use kiro_reverse_api.Prelude.Sort.{sort_by}
use kiro_reverse_api.Text.{Text, codes, text_eq, is_full, includes}
use kiro_reverse_api.Text.Trim.{trim}
use kiro_reverse_api.Search.Values.{
  AccountStatus, AccountStatusFilter, OnOff, account_statuses, status_name, on_off_name, on, off,
}
use kiro_reverse_api.Accounts.{Account, plan_key, auth_key, region_key, plan_label, auth_label}
use kiro_reverse_api.Accounts.Standing.{account_status, matches_status}

pub data FilterDimension : Type 0 where
  of_status of_plan of_auth of_region of_enabled : FilterDimension

abbrev pub filter_dimensions : List FilterDimension
filter_dimensions = of_status ∷ of_plan ∷ of_auth ∷ of_region ∷ of_enabled ∷ []

pub record AccountFilters : Type 0 where
  pub q : Option Text
  pub status : Option AccountStatusFilter
  pub plan : Option Text
  pub auth : Option Text
  pub region : Option Text
  pub enabled : Option OnOff

abbrev pub on_or_off : Bool → OnOff
on_or_off true = on
on_or_off false = off

abbrev is_filter : Option Text → Text → Bool
is_filter none value = false
is_filter (some filter) value = text_eq value filter

abbrev is_status : Option AccountStatusFilter → AccountStatus → Bool
is_status none status = false
is_status (some filter) status = matches_status status filter

abbrev is_on_off : Option OnOff → Text → Bool
is_on_off none value = false
is_on_off (some filter) value = text_eq value (on_off_name filter)

abbrev is_set : AccountFilters → FilterDimension → Bool
is_set filters of_status = is_some filters.status
is_set filters of_plan = is_some filters.plan
is_set filters of_auth = is_some filters.auth
is_set filters of_region = is_some filters.region
is_set filters of_enabled = is_some filters.enabled

-- `ACCOUNT_STATUSES.indexOf(value)`
abbrev pub rank_from : ℕ → List AccountStatus → Text → ℤ
rank_from i [] value = negsuc 0
rank_from i (s ∷ ss) value =
    if text_eq (status_name s) value then pos i else rank_from (suc i) ss value

abbrev pub rank_of_name : Text → ℤ
rank_of_name value = rank_from 0 account_statuses value

pub record FilterOption : Type 0 where
  pub value : Text
  pub label : Text
  pub count : ℕ

-- The comparators of `filterOptions`; `compare` is `localeCompare`.
abbrev pub option_order : (Text → Text → ℤ) → FilterDimension → FilterOption → FilterOption → ℤ
option_order compare of_status a b = minus_ℤ (rank_of_name a.value) (rank_of_name b.value)
option_order compare of_enabled a b =
    if text_eq a.value (codes "on")
    then negsuc 0
    else if text_eq b.value (codes "on")
    then pos 1
    else pos 0
option_order compare of_plan a b = compare a.label b.label
option_order compare of_auth a b = compare a.label b.label
option_order compare of_region a b = compare a.label b.label

module _ (lower upper : Text → Text) where
  unfoldable pub dimension_value : Account → FilterDimension → ℤ → Text
  dimension_value account of_status now = status_name (account_status account now)
  dimension_value account of_plan now = plan_key upper account
  dimension_value account of_auth now = auth_key lower account
  dimension_value account of_region now = region_key account
  dimension_value account of_enabled now = on_off_name (on_or_off account.enabled)

  abbrev matches_dimension : Account → AccountFilters → ℤ → FilterDimension → Bool
  matches_dimension account filters now of_status =
      is_status filters.status (account_status account now)
  matches_dimension account filters now of_plan = is_filter filters.plan (plan_key upper account)
  matches_dimension account filters now of_auth = is_filter filters.auth (auth_key lower account)
  matches_dimension account filters now of_region = is_filter filters.region (region_key account)
  matches_dimension account filters now of_enabled =
      is_on_off filters.enabled (on_off_name (on_or_off account.enabled))

  abbrev matches_query : Text → Account → Bool
  matches_query needle account =
      not (is_full needle)
      || includes (lower account.email) needle
      || includes (lower account.nickname) needle

  unfoldable pub passes : AccountFilters → ℤ → Account → Bool
  unfolding trim
  passes filters now account =
      all (matches_dimension account filters now) (keep (is_set filters) filter_dimensions)
      && matches_query (lower (trim (or_else filters.q []))) account

  unfoldable pub filter_accounts : List Account → AccountFilters → ℤ → List Account
  unfolding passes
  filter_accounts accounts filters now = keep (passes filters now) accounts

  module _ (t : Text → Text) (dimension : FilterDimension) (now : ℤ) where
    abbrev option_label_of : FilterDimension → Account → Text → Text
    option_label_of of_status account value = t (codes "health." ++ value)
    option_label_of of_plan account value = plan_label t upper account
    option_label_of of_auth account value = auth_label lower t account
    option_label_of of_region account value = value
    option_label_of of_enabled account value =
        if text_eq value (codes "on")
        then t (codes "filter.enabledOn")
        else t (codes "filter.enabledOff")

    unfoldable pub option_label : Account → Text → Text
    option_label account value = option_label_of dimension account value

    -- One round of the loop over the accounts, for the account's value.
    unfoldable pub count_option : Account → Text → List FilterOption → List FilterOption
    unfolding option_label
    count_option account value [] =
        record { value = value; label = option_label account value; count = 1 } ∷ []
    count_option account value (o ∷ os) =
        let rest = count_option account value os in
        if text_eq o.value value then record o { count = suc o.count } ∷ os else o ∷ rest

    unfoldable pub tally : List FilterOption → List Account → List FilterOption
    unfolding count_option
    tally options [] = options
    tally options (account ∷ accounts) =
        tally (count_option account (dimension_value account dimension now) options) accounts

    unfoldable pub filter_options : (Text → Text → ℤ) → List Account → List FilterOption
    unfolding tally
    filter_options compare accounts = sort_by (option_order compare dimension) (tally [] accounts)
