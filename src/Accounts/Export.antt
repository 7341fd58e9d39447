-- ===== src/Accounts/Export.antt =====
-- ui/src/features/accounts/account-model.ts: what the export dialog copies, and the small labels of a
-- row.
use kiro_reverse_api.Prelude.{
  ℕ, List, [], ◌∷◌, ◌++◌, Option, none, some, or_else, map, if◌then◌else◌, ltb, length,
}
use kiro_reverse_api.Text.{Text, codes, text_eq}
use kiro_reverse_api.Text.Decimal.{print_ℕ}
use kiro_reverse_api.Text.Params.{Param, param}
use kiro_reverse_api.Accounts.{empty_mark}
use kiro_reverse_api.Accounts.Expiry.{TokenExpiry, no_expiry, token_expired, minutes, hours, days}

-- `none` is undefined.
pub record ExportCredentials : Type 0 where
  pub client_id : Option Text
  pub client_secret : Option Text
  pub access_token : Option Text
  pub refresh_token : Option Text
  pub auth_method : Option Text
  pub region : Option Text

abbrev no_credentials : ExportCredentials
no_credentials = record {
  client_id = none;
  client_secret = none;
  access_token = none;
  refresh_token = none;
  auth_method = none;
  region = none;
}

-- An object by its keys and values, of which JSON drops those that are undefined.
abbrev pub Copied : Type 0
Copied = List (Text × Option Text)

abbrev export_copy : ExportCredentials → Copied
export_copy c =
    if text_eq (or_else c.auth_method []) (codes "api_key")
    then (codes "kiroApiKey", c.access_token)
      ∷ (codes "region", c.region)
      ∷ (codes "authMethod", c.auth_method)
      ∷ []
    else (codes "clientId", c.client_id)
      ∷ (codes "clientSecret", c.client_secret)
      ∷ (codes "accessToken", c.access_token)
      ∷ (codes "refreshToken", c.refresh_token)
      ∷ []

abbrev pub credentials_or_none : Option ExportCredentials → ExportCredentials
credentials_or_none none = no_credentials
credentials_or_none (some c) = c

-- The accounts of the data, each by its credentials; `none` where there is no list.
unfoldable pub build_export_copy : Option (List (Option ExportCredentials)) → List Copied
build_export_copy accounts = map (λ c. export_copy (credentials_or_none c)) (or_else accounts [])

-- `String(n).padStart(2, "0")`
abbrev pad : ℕ → Text
pad n = if ltb (length (print_ℕ n)) 2 then b'0' ∷ print_ℕ n else print_ℕ n

-- The day of the month and the month from 1 on.
unfoldable pub export_filename : ℕ → ℕ → ℕ → Text
unfolding print_ℕ
export_filename year month day =
    codes "kiro-accounts-"
    ++ (print_ℕ year ++ (b'-' ∷ (pad month ++ (b'-' ∷ (pad day ++ codes ".json")))))

pub data CreditTone : Type 0 where
  default warning destructive : CreditTone

-- A percentage in thousandths of a percent.
unfoldable pub credit_tone : ℕ → CreditTone
credit_tone pct = if ltb 90000 pct then destructive else if ltb 70000 pct then warning else default

-- The parameter `t` is the translation of a key with its parameters.
unfoldable pub format_token_expiry : (Text → List Param → Text) → TokenExpiry → Text
unfolding print_ℕ
format_token_expiry t no_expiry = empty_mark
format_token_expiry t token_expired = t (codes "time.expired") []
format_token_expiry t (minutes n) =
    t (codes "time.minutes") (param (codes "value") (print_ℕ n) ∷ [])
format_token_expiry t (hours n) = t (codes "time.hours") (param (codes "value") (print_ℕ n) ∷ [])
format_token_expiry t (days n) = t (codes "time.days") (param (codes "value") (print_ℕ n) ∷ [])
