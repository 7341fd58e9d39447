-- ===== src/Accounts/Sorting.antt =====
-- The sorted rows of the Accounts page.
use kiro_reverse_api.Prelude.{ℕ, suc, Bool, ◌||◌, List, [], ◌∷◌, Option, none, some, if◌then◌else◌}
use kiro_reverse_api.Prelude.Int.{ℤ, pos, negsuc, is_zero, ltb_ℤ, minus_ℕ, minus_ℤ, neg_ℤ}
use kiro_reverse_api.Prelude.Sort.{sort_by}
use kiro_reverse_api.Text.{Text, codes, text_eq, or_text}
use kiro_reverse_api.Search.Values.{
  AccountSort, by_account, by_status, by_usage, by_requests, by_last_used, by_expiry,
}
use kiro_reverse_api.Accounts.{Account}
use kiro_reverse_api.Accounts.Standing.{account_status, status_rank}

-- The fraction of the subscription, else of the trial; -1 without either.
unfoldable pub usage_fraction : Account → ℤ
usage_fraction account =
    if ltb_ℤ (pos 0) account.usage_limit
    then account.usage_percent
    else if ltb_ℤ (pos 0) account.trial_usage_limit
    then account.trial_usage_percent
    else negsuc 0

unfoldable pub default_sort_desc : Text → Bool
default_sort_desc column =
    text_eq column (codes "usage")
    || text_eq column (codes "requests")
    || text_eq column (codes "lastUsed")

-- An account with its place in the server's order and its key; `none` is null.
pub record Keyed {κ} (K : Type κ) : Type κ where
  pub account : Account
  pub index : ℕ
  pub key : Option K

-- `a || b` on numbers
abbrev pub or_number : ℤ → ℤ → ℤ
or_number a b = if is_zero a then b else a

-- `z` unless the number is 0, then null
abbrev pub non_zero : ℤ → Option ℤ
non_zero z = if is_zero z then none else some z

abbrev pub non_negative : ℤ → Option ℤ
non_negative z = if ltb_ℤ z (pos 0) then none else some z

module _ {κ} {K : Type κ} where
  abbrev pub key_from : (Account → Option K) → ℕ → List Account → List (Keyed K)
  key_from key i [] = []
  key_from key i (a ∷ rest) =
      record { account = a; index = i; key = key a } ∷ key_from key (suc i) rest

  abbrev pub accounts_of : List (Keyed K) → List Account
  accounts_of [] = []
  accounts_of (k ∷ ks) = k.account ∷ accounts_of ks

module _ {κ} {K : Type κ} (compare : K → K → ℤ) (desc : Bool) where
  abbrev pub directed : K → K → ℤ
  directed k l = if desc then neg_ℤ (compare k l) else compare k l

  abbrev pub order_keys : Option K → ℕ → Option K → ℕ → ℤ
  order_keys none i none j = minus_ℕ i j
  order_keys none i (some l) j = pos 1
  order_keys (some k) i none j = negsuc 0
  order_keys (some k) i (some l) j = or_number (directed k l) (minus_ℕ i j)

  -- The comparator
  abbrev pub order_keyed : Keyed K → Keyed K → ℤ
  order_keyed a b = order_keys a.key a.index b.key b.index

  unfoldable pub sort_on : (Account → Option K) → List Account → List Account
  sort_on key accounts = accounts_of (sort_by order_keyed (key_from key 0 accounts))

abbrev pub text_key : (Text → Text) → Account → Option Text
text_key lower a = some (lower (or_text a.email a.id))

unfoldable pub number_key : ℤ → AccountSort → Account → Option ℤ
unfolding usage_fraction
number_key now by_account a = none
number_key now by_status a = some (pos (status_rank (account_status a now)))
number_key now by_usage a = non_negative (usage_fraction a)
number_key now by_requests a = some a.request_count
number_key now by_last_used a = non_zero a.last_used
number_key now by_expiry a = non_zero a.expires_at

-- `compare` is `localeCompare`. The keys of one column are all texts or all numbers.
module _ (lower : Text → Text) (compare : Text → Text → ℤ) (desc : Bool) (now : ℤ) where
  abbrev sort_column : List Account → AccountSort → List Account
  sort_column accounts by_account = sort_on compare desc (text_key lower) accounts
  sort_column accounts by_status = sort_on minus_ℤ desc (number_key now by_status) accounts
  sort_column accounts by_usage = sort_on minus_ℤ desc (number_key now by_usage) accounts
  sort_column accounts by_requests = sort_on minus_ℤ desc (number_key now by_requests) accounts
  sort_column accounts by_last_used = sort_on minus_ℤ desc (number_key now by_last_used) accounts
  sort_column accounts by_expiry = sort_on minus_ℤ desc (number_key now by_expiry) accounts

  unfoldable pub sort_accounts : List Account → Option AccountSort → List Account
  unfolding sort_on number_key
  sort_accounts accounts none = accounts
  sort_accounts accounts (some sort) = sort_column accounts sort
