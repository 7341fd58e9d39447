-- ===== src/Accounts.antt =====
-- ui/src/features/accounts/account-model.ts: the status of an account row, its labels and the values
-- of the filters. `lower` and `upper` are `toLowerCase` and `toUpperCase`.
pub mod Standing
pub mod InOrder
pub mod Filters
pub mod Tallies
pub mod Counts
pub mod Sorting
pub mod Comparing
pub mod Order
pub mod Expiry
pub mod Status
pub mod Labels
pub mod Copy
pub mod Export
pub mod Failures
pub mod Models
mod Tests
use kiro_reverse_api.Prelude.{
  ℕ, zero, suc, Bool, true, false, not, ◌&&◌, ◌||◌, List, [], ◌∷◌, ◌++◌, Option, none, some,
  or_else, is_some, if◌then◌else◌,
}
use kiro_reverse_api.Prelude.Int.{ℤ, pos, negsuc, is_zero, ltb_ℤ}
use kiro_reverse_api.Text.{Text, codes, text_eq, is_full, or_text, includes, one_of_texts}
use kiro_reverse_api.Search.Values.{
  AccountStatus, banned, suspended, no_token, out_of_credits, expired, disabled, active,
  AccountStatusFilter, just, attention, account_statuses, status_name, filter_name,
}

-- The fields that the page's rules read. Credits and fractions are whole numbers of one small unit,
-- since the code only compares them; times are in seconds.
pub record Account : Type 0 where
  pub id : Text
  pub email : Text
  pub nickname : Text
  pub auth_method : Text
  pub provider : Text
  pub region : Text
  pub enabled : Bool
  pub ban_status : Text
  pub expires_at : ℤ
  pub has_token : Bool
  pub subscription_type : Text
  pub subscription_title : Text
  pub usage_current : ℤ
  pub usage_limit : ℤ
  pub usage_percent : ℤ
  pub trial_usage_limit : ℤ
  pub trial_usage_percent : ℤ
  pub request_count : ℤ
  pub last_used : ℤ

pub data SubscriptionTier : Type 0 where
  power pro_plus pro free : SubscriptionTier

abbrev pub tier_name : SubscriptionTier → Text
tier_name power = codes "power"
tier_name pro_plus = codes "proPlus"
tier_name pro = codes "pro"
tier_name free = codes "free"

-- The tier of the type in upper case
tier_of : Text → Option SubscriptionTier
tier_of upper =
    if includes upper (codes "POWER")
    then some power
    else if includes upper (codes "PRO_PLUS") || includes upper (codes "PROPLUS")
    then some pro_plus
    else if includes upper (codes "PRO")
    then some pro
    else if includes upper (codes "FREE") || not (is_full upper)
    then some free
    else none

unfoldable pub subscription_tier : (Text → Text) → Text → Option SubscriptionTier
unfolding tier_of
subscription_tier upper type = tier_of (upper type)

abbrev pub empty_mark : Text
empty_mark = 0x2014 ∷ []

-- The parameter `t` is the translation of a key.
module _ (t : Text → Text) where
  abbrev tier_label : Text → Option SubscriptionTier → Text
  tier_label type none = type
  tier_label type (some tier) = t (codes "subscription." ++ tier_name tier)

  unfoldable pub subscription_label : (Text → Text) → Text → Text
  subscription_label upper type = tier_label type (subscription_tier upper type)

  abbrev plan_label_of : Account → Option SubscriptionTier → Text
  plan_label_of account (some tier) = tier_label account.subscription_type (some tier)
  plan_label_of account none =
      or_text account.subscription_title (or_text account.subscription_type empty_mark)

  unfoldable pub plan_label : (Text → Text) → Account → Text
  plan_label upper account =
      plan_label_of account (subscription_tier upper account.subscription_type)

abbrev pub find_text : List (Text × Text) → Text → Option Text
find_text [] key = none
find_text ((k, v) ∷ es) key = if text_eq k key then some v else find_text es key

abbrev pub auth_keys : List (Text × Text)
auth_keys =
    (codes "idc", codes "auth.enterprise")
    ∷ (codes "enterprise", codes "auth.enterprise")
    ∷ (codes "external_idp", codes "auth.microsoft")
    ∷ (codes "azuread", codes "auth.microsoft")
    ∷ (codes "apikey", codes "auth.apiKey")
    ∷ (codes "api_key", codes "auth.apiKey")
    ∷ (codes "social", codes "auth.social")
    ∷ (codes "builderid", codes "auth.builderId")
    ∷ (codes "github", codes "auth.github")
    ∷ (codes "google", codes "auth.google")
    ∷ []

abbrev pub auth_ids : List (Text × Text)
auth_ids =
    (codes "idc", codes "enterprise")
    ∷ (codes "enterprise", codes "enterprise")
    ∷ (codes "external_idp", codes "microsoft")
    ∷ (codes "azuread", codes "microsoft")
    ∷ (codes "microsoft", codes "microsoft")
    ∷ (codes "apikey", codes "apiKey")
    ∷ (codes "api_key", codes "apiKey")
    ∷ (codes "social", codes "social")
    ∷ (codes "builderid", codes "builderId")
    ∷ (codes "github", codes "github")
    ∷ (codes "google", codes "google")
    ∷ []

abbrev auth_text : (Text → Text) → Text → Option Text → Text
auth_text t value none = value
auth_text t value (some key) = t key

-- A value that is a member of every object ("constructor") is read as an unknown one.
unfoldable pub format_auth_method : (Text → Text) → (Text → Text) → Text → Text
format_auth_method lower t value =
    if is_full value then auth_text t value (find_text auth_keys (lower value)) else empty_mark

unfoldable pub auth_label : (Text → Text) → (Text → Text) → Account → Text
auth_label lower t account =
    format_auth_method lower t (or_text account.provider account.auth_method)

unfoldable pub is_api_key_account : (Text → Text) → Account → Bool
is_api_key_account lower account = text_eq (lower account.auth_method) (codes "api_key")

unfoldable pub auth_key : (Text → Text) → Account → Text
auth_key lower account =
    let raw = lower (or_text account.provider account.auth_method) in
    or_else (find_text auth_ids raw) raw

abbrev no_profile_auth : List Text
no_profile_auth =
    codes "builderId" ∷ codes "social" ∷ codes "github" ∷ codes "google" ∷ codes "apiKey" ∷ []

unfoldable pub supports_kiro_profiles : (Text → Text) → Account → Bool
supports_kiro_profiles lower account = not (one_of_texts no_profile_auth (auth_key lower account))

-- A plan tier, or the raw subscription type when the tier is unknown.
abbrev plan_of : Text → Option SubscriptionTier → Text
plan_of type none = type
plan_of type (some tier) = tier_name tier

unfoldable pub plan_key : (Text → Text) → Account → Text
plan_key upper account =
    plan_of account.subscription_type (subscription_tier upper account.subscription_type)

abbrev pub region_key : Account → Text
region_key account = or_text account.region (codes "us-east-1")
