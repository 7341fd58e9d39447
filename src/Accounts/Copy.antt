-- ===== src/Accounts/Copy.antt =====
-- ui/src/features/accounts/account-model.ts: the credentials that an account is copied as, and the
-- checks of its settings.
pub mod Paste
mod Tests
use kiro_reverse_api.Prelude.{
  ◌&&◌, ◌||◌, not, Bool, List, [], ◌∷◌, map, Option, none, some, if◌then◌else◌, ◌==◌, length,
}
use kiro_reverse_api.Text.{Text, codes, text_eq, is_full, or_text, starts_with}
use kiro_reverse_api.Text.Trim.{trim}
use kiro_reverse_api.Json.{Fields, end, field, str}
use kiro_reverse_api.AddAccount.LocalCache.{is_uuid, all_hex}

-- The fields that a copy reads.
pub record AccountFull : Type 0 where
  pub auth_method : Text
  pub provider : Text
  pub region : Text
  pub user_id : Text
  pub profile_arn : Text
  pub access_token : Text
  pub refresh_token : Text
  pub kiro_api_key : Text
  pub client_id : Text
  pub client_secret : Text
  pub token_endpoint : Text
  pub issuer_url : Text
  pub scopes : Text

abbrev pub key_copy : AccountFull → Fields
key_copy a =
    field (codes "kiroApiKey") (str (or_text a.kiro_api_key a.access_token)) (
      field (codes "region") (str a.region)
        (field (codes "authMethod") (str (codes "api_key")) end))

abbrev pub microsoft_copy : AccountFull → Fields
microsoft_copy a = field (codes "clientId") (str a.client_id) (
    field (codes "accessToken") (str a.access_token) (
      field (codes "refreshToken") (str a.refresh_token) (
        field (codes "authMethod") (str a.auth_method) (
          field (codes "provider") (str a.provider) (
            field (codes "userId") (str a.user_id) (
              field (codes "profileArn") (str a.profile_arn) (
                field (codes "tokenEndpoint") (str a.token_endpoint) (
                  field (codes "issuerUrl") (str a.issuer_url)
                    (field (codes "scopes") (str a.scopes) end)))))))))

abbrev pub token_copy : AccountFull → Fields
token_copy a = field (codes "clientId") (str a.client_id) (
    field (codes "clientSecret") (str a.client_secret) (
      field (codes "accessToken") (str a.access_token)
        (field (codes "refreshToken") (str a.refresh_token) end)))

unfoldable pub build_copy_json : AccountFull → Fields
build_copy_json a =
    if text_eq a.auth_method (codes "api_key")
    then key_copy a
    else if text_eq a.auth_method (codes "external_idp")
    then microsoft_copy a
    else token_copy a

abbrev hex_32 : Text → Bool
hex_32 s = length s == 32 && all_hex s

unfoldable pub is_valid_machine_id : Text → Bool
unfolding is_uuid
is_valid_machine_id value =
    let trimmed = trim value in not (is_full trimmed) || is_uuid trimmed || hex_32 trimmed

unfoldable pub is_valid_proxy_url : Text → Bool
is_valid_proxy_url value =
    let trimmed = trim value in
    not (is_full trimmed)
    || starts_with trimmed (codes "socks5://")
    || starts_with trimmed (codes "socks5h://")
    || starts_with trimmed (codes "http://")
    || starts_with trimmed (codes "https://")
