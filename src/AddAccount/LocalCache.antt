-- ===== src/AddAccount/LocalCache.antt =====
-- ui/src/features/add-account/lib/local-cache.ts: the import request of the files that Kiro IDE
-- keeps, and the first problem that they have.
pub mod Complete
pub mod Build
pub mod Checks
mod Tests
use kiro_reverse_api.Prelude.{
  ℕ, zero, suc, ◌-◌, ◌%◌, Bool, true, false, ◌&&◌, ◌||◌, not, List, [], ◌∷◌, ◌++◌, map, Option,
  none, some, if◌then◌else◌, ◌==◌, leb, is_some, length, get_elem?, any, drop, ◌+◌,
}
use kiro_reverse_api.Text.{Text, codes, is_full, one_of_texts, or_text, split_on, starts_with}
use kiro_reverse_api.Text.Trim.{trim}
use kiro_reverse_api.Json.{
  Json, null, flag, num, str, arr, obj, Items, nil, cons, Fields, end, get_field,
}
use kiro_reverse_api.AddAccount.Credentials.{
  CredentialsImportRequest, empty_request, is_microsoft_credential,
}
use kiro_reverse_api.AddAccount.Credentials.Sources.{
  CredentialSource, is_record, object_or_empty, text_field, text_at,
}

pub data LocalProvider : Type 0 where
  builder_id enterprise google github microsoft : LocalProvider

abbrev pub provider_name : LocalProvider → Text
provider_name builder_id = codes "BuilderId"
provider_name enterprise = codes "Enterprise"
provider_name google = codes "Google"
provider_name github = codes "Github"
provider_name microsoft = codes "Microsoft"

abbrev pub is_social_provider : LocalProvider → Bool
is_social_provider google = true
is_social_provider github = true
is_social_provider builder_id = false
is_social_provider enterprise = false
is_social_provider microsoft = false

abbrev pub is_microsoft_provider : LocalProvider → Bool
is_microsoft_provider microsoft = true
is_microsoft_provider google = false
is_microsoft_provider github = false
is_microsoft_provider builder_id = false
is_microsoft_provider enterprise = false

pub data LocalCacheErrorKey : Type 0 where
  token_missing token_invalid refresh_token_missing client_invalid : LocalCacheErrorKey
  microsoft_client_id_missing microsoft_tenant_missing : LocalCacheErrorKey
  client_missing_named client_missing client_secret_missing : LocalCacheErrorKey

-- `file` is the parameter of the message, and `hint` says whether it has the hint.
pub record LocalCacheError : Type 0 where
  pub key : LocalCacheErrorKey
  pub file : Option Text
  pub hint : Bool

abbrev pub plain : LocalCacheErrorKey → LocalCacheError
plain key = record { key = key; file = none; hint = false }

pub data FilesField : Type 0 where
  token_field client_field : FilesField

abbrev pub is_client_error : LocalCacheErrorKey → Bool
is_client_error client_invalid = true
is_client_error client_secret_missing = true
is_client_error client_missing = true
is_client_error client_missing_named = true
is_client_error microsoft_client_id_missing = true
is_client_error token_missing = false
is_client_error token_invalid = false
is_client_error refresh_token_missing = false
is_client_error microsoft_tenant_missing = false

unfoldable pub local_cache_error_field : LocalCacheErrorKey → Bool → FilesField
local_cache_error_field key client_shown =
    if is_client_error key && client_shown then client_field else token_field

pub data LocalCacheResult : Type 0 where
  payload : CredentialsImportRequest → LocalCacheResult
  failed : LocalCacheError → LocalCacheResult

abbrev is_hex : ℕ → Bool
is_hex c = (leb b'0' c && leb c b'9') || (leb b'a' c && leb c b'f') || (leb b'A' c && leb c b'F')

abbrev pub all_hex : Text → Bool
all_hex [] = true
all_hex (c ∷ s) = is_hex c && all_hex s

abbrev hex_part : ℕ → Text → Bool
hex_part n s = length s == n && all_hex s

abbrev uuid_parts : List Text → Bool
uuid_parts (a ∷ b ∷ c ∷ d ∷ e ∷ []) =
    hex_part 8 a && hex_part 4 b && hex_part 4 c && hex_part 4 d && hex_part 12 e
uuid_parts s = false

abbrev is_dash : ℕ → Bool
is_dash c = c == b'-'

-- `UUID_RE.test(s)`: five runs of hexadecimal digits with dashes between them.
unfoldable pub is_uuid : Text → Bool
is_uuid s = uuid_parts (split_on is_dash s)

abbrev pub from_base64url : ℕ → ℕ
from_base64url c = if c == b'-' then b'+' else if c == b'_' then b'/' else c

abbrev pub times : ℕ → ℕ → Text
times zero c = []
times (suc n) c = c ∷ times n c

abbrev pub is_dot : ℕ → Bool
is_dot c = c == b'.'

-- `b64 + "=".repeat((4 - (b64.length % 4)) % 4)`
unfoldable pub padded : Text → Text
padded b64 = b64 ++ times ((4 - length b64 % 4) % 4) b'='

abbrev pub local_microsoft_aliases : List Text
local_microsoft_aliases =
    codes "externalidp"
    ∷ codes "external"
    ∷ codes "microsoft"
    ∷ codes "m365"
    ∷ codes "office365"
    ∷ codes "azure"
    ∷ codes "azuread"
    ∷ codes "entra"
    ∷ codes "entraid"
    ∷ []

abbrev is_alias_unit : ℕ → Bool
is_alias_unit c = (leb b'a' c && leb c b'z') || (leb b'0' c && leb c b'9')

-- `.replace(/[^a-z0-9]/g, "")`
abbrev pub alias_units : Text → Text
alias_units [] = []
alias_units (c ∷ s) = if is_alias_unit c then c ∷ alias_units s else alias_units s

abbrev is_line_end : ℕ → Bool
is_line_end c = c == 10 || c == 13 || c == 0x2028 || c == 0x2029

-- `.replace(/\/.*$/, "")`, where the dot matches no line end.
abbrev pub before_slash : Text → Text
before_slash [] = []
before_slash (c ∷ s) = if c == b'/' && not (any is_line_end s) then [] else c ∷ before_slash s

-- A unit in either case; `d` is a small letter.
abbrev is_letter : ℕ → ℕ → Bool
is_letter d c = c == d || c + 32 == d

-- `.replace(/^api:\/\//i, "")`
abbrev pub without_api : Text → Text
without_api (a ∷ p ∷ i ∷ rest) =
    if is_letter b'a' a && is_letter b'p' p && is_letter b'i' i && starts_with rest (codes "://")
    then drop 3 rest
    else a ∷ p ∷ i ∷ rest
without_api (a ∷ p ∷ []) = a ∷ p ∷ []
without_api (a ∷ []) = a ∷ []
without_api [] = []

abbrev first_item : Items → Option Json
first_item nil = none
first_item (cons v vs) = some v

-- `Array.isArray(aud) ? aud[0] : aud`
abbrev pub audience : Option Json → Option Json
audience (some (arr items)) = first_item items
audience (some null) = some null
audience (some (flag b)) = some (flag b)
audience (some (num n)) = some (num n)
audience (some (str s)) = some (str s)
audience (some (obj fs)) = some (obj fs)
audience none = none

-- `.find((v) => UUID_RE.test(v)) ?? ""`
abbrev pub first_uuid : List Text → Text
first_uuid [] = []
first_uuid (v ∷ vs) = if is_uuid v then v else first_uuid vs

-- `client?.[key]` as text
abbrev pub client_text : Text → Option CredentialSource → Text
client_text key none = []
client_text key (some client) = text_at key client

-- The test of `!claims.iss`.
abbrev pub is_truthy : Option Json → Bool
is_truthy none = false
is_truthy (some null) = false
is_truthy (some (flag b)) = b
is_truthy (some (num n)) = not (one_of_texts (codes "0" ∷ codes "-0" ∷ codes "NaN" ∷ []) n)
is_truthy (some (str s)) = is_full s
is_truthy (some (arr xs)) = true
is_truthy (some (obj fs)) = true
