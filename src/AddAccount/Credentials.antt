-- ===== src/AddAccount/Credentials.antt =====
-- ui/src/features/add-account/lib/credentials-mapping.ts: the import request of a pasted
-- credentials item.
pub mod Sources
pub mod Usable
mod Tests
use kiro_reverse_api.Prelude.{
  Bool, true, false, ◌&&◌, ◌||◌, not, List, [], ◌∷◌, Option, none, some, if◌then◌else◌,
}
use kiro_reverse_api.Text.{Text, codes, text_eq, is_full, starts_with, one_of_texts, or_text}
use kiro_reverse_api.Json.{
  Json, null, flag, num, str, arr, obj, Items, nil, cons, Fields, end, field, get_field,
}
use kiro_reverse_api.AddAccount.Credentials.Sources.{CredentialSource, text_at}

pub record CredentialsImportRequest : Type 0 where
  pub access_token : Option Text
  pub refresh_token : Option Text
  pub kiro_api_key : Option Text
  pub client_id : Option Text
  pub client_secret : Option Text
  pub auth_method : Option Text
  pub provider : Option Text
  pub region : Option Text
  pub email : Option Text
  pub nickname : Option Text
  pub user_id : Option Text
  pub profile_arn : Option Text
  pub token_endpoint : Option Text
  pub issuer_url : Option Text
  pub scopes : Option Text

abbrev pub empty_request : CredentialsImportRequest
empty_request = record {
  access_token = none;
  refresh_token = none;
  kiro_api_key = none;
  client_id = none;
  client_secret = none;
  auth_method = none;
  provider = none;
  region = none;
  email = none;
  nickname = none;
  user_id = none;
  profile_arn = none;
  token_endpoint = none;
  issuer_url = none;
  scopes = none;
}

pub data MappedCredential : Type 0 where
  request : CredentialsImportRequest → MappedCredential
  missing_refresh_token : MappedCredential

abbrev pub microsoft_aliases : List Text
microsoft_aliases =
    codes "external_idp"
    ∷ codes "external-idp"
    ∷ codes "external"
    ∷ codes "microsoft"
    ∷ codes "m365"
    ∷ codes "office365"
    ∷ codes "azure"
    ∷ codes "azuread"
    ∷ codes "azure-ad"
    ∷ codes "azure_ad"
    ∷ codes "entra"
    ∷ codes "entra-id"
    ∷ []

-- The parameter `lower` is `toLowerCase`.
module _ (lower : Text → Text) where
  unfoldable pub is_microsoft_credential : CredentialSource → Bool
  is_microsoft_credential item =
      one_of_texts microsoft_aliases (lower (text_at (codes "authMethod") item))
      || one_of_texts microsoft_aliases (lower (text_at (codes "provider") item))
      || is_full (or_text (text_at (codes "tokenEndpoint") item) (text_at (codes "issuerUrl") item))

  abbrev pub looks_like_api_key : CredentialSource → Bool
  looks_like_api_key item =
      let method = lower (text_at (codes "authMethod") item) in
      text_eq method (codes "api_key")
      || text_eq method (codes "apikey")
      || starts_with (text_at (codes "accessToken") item) (codes "ksk_")

  abbrev pub api_key_of : CredentialSource → Text
  api_key_of item = or_text (text_at (codes "kiroApiKey") item) (
      if looks_like_api_key item && not (is_full (text_at (codes "refreshToken") item))
      then text_at (codes "accessToken") item
      else [])

  abbrev pub api_key_request : CredentialSource → CredentialsImportRequest
  api_key_request item = record empty_request {
    kiro_api_key = some (api_key_of item);
    auth_method = some (codes "api_key");
    region = some (text_at (codes "region") item);
  }

  abbrev pub microsoft_request : CredentialSource → CredentialsImportRequest
  microsoft_request item = record empty_request {
    refresh_token = some (text_at (codes "refreshToken") item);
    access_token = some (text_at (codes "accessToken") item);
    client_id = some (text_at (codes "clientId") item);
    auth_method = some (codes "external_idp");
    provider = some (codes "AzureAD");
    region = some (text_at (codes "region") item);
    user_id = some (text_at (codes "userId") item);
    profile_arn = some (text_at (codes "profileArn") item);
    token_endpoint = some (text_at (codes "tokenEndpoint") item);
    issuer_url = some (text_at (codes "issuerUrl") item);
    scopes = some (text_at (codes "scopes") item);
  }

  abbrev pub auth_method_of : CredentialSource → Text
  auth_method_of item =
      if is_full (text_at (codes "clientId") item) && is_full (text_at (codes "clientSecret") item)
      then codes "idc"
      else if text_eq (lower (text_at (codes "authMethod") item)) (codes "idc")
      then codes "idc"
      else codes "social"

  abbrev pub sign_in_request : CredentialSource → CredentialsImportRequest
  sign_in_request item =
      let method = auth_method_of item in
      record empty_request {
        refresh_token = some (text_at (codes "refreshToken") item);
        access_token = some (text_at (codes "accessToken") item);
        client_id = some (text_at (codes "clientId") item);
        client_secret = some (text_at (codes "clientSecret") item);
        auth_method = some method;
        provider = some (
            or_text (text_at (codes "provider") item)
              (if text_eq method (codes "idc") then codes "BuilderId" else codes "Google"));
        region = some (or_text (text_at (codes "region") item) (codes "us-east-1"));
      }

  unfoldable pub map_credential : CredentialSource → MappedCredential
  unfolding is_microsoft_credential
  map_credential item =
      if is_full (api_key_of item)
      then request (api_key_request item)
      else if not (is_full (text_at (codes "refreshToken") item))
      then missing_refresh_token
      else if is_microsoft_credential item
      then request (microsoft_request item)
      else request (sign_in_request item)
