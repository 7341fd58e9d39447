-- ===== src/AddAccount/Credentials/Tests.antt =====
-- A pasted item with a client, and one with an API key as its access token.
use kiro_reverse_api.Prelude.{◌≡◌, refl, some, [], ◌⊎◌, ◌↔◌, false}
use kiro_reverse_api.Text.{Text, codes}
use kiro_reverse_api.Json.{Json, str, obj, end, field}
use kiro_reverse_api.AddAccount.Credentials.{
  CredentialsImportRequest, request, missing_refresh_token, is_microsoft_credential,
  api_key_request, looks_like_api_key, sign_in_request, map_credential,
}
use kiro_reverse_api.AddAccount.Credentials.Sources.{
  CredentialSource, text_at, text_field, from_account_manager,
}
use kiro_reverse_api.AddAccount.Credentials.Usable.{IsUsable, map_credential_outcome}

credentials_run : Unit {0}
unfolding map_credential is_microsoft_credential from_account_manager text_field
credentials_run = tt

abbrev lower : Text → Text
lower s = s

-- An entry whose own region the credentials override.
abbrev entry : Json
entry = obj (
    field (codes "region") (str (codes "us-east-1")) (
      field (codes "credentials")
        (obj (
          field (codes "refreshToken") (str (codes "r1"))
            (field (codes "region") (str (codes "eu-central-1")) end)))
        end))

abbrev item : CredentialSource
item = from_account_manager entry

maps_entry : map_credential lower item ≡ request (sign_in_request lower item)
unfolding credentials_run
maps_entry = refl

entry_region : (sign_in_request lower item).region ≡ some (codes "eu-central-1")
unfolding credentials_run
entry_region = refl

abbrev key_item : CredentialSource
key_item = field (codes "accessToken") (str (codes "ksk_1")) end

maps_key : map_credential lower key_item ≡ request (api_key_request lower key_item)
unfolding credentials_run
maps_key = refl

map_credential_outcome_example :
    ((map_credential lower item ≡ missing_refresh_token) ↔ (
      (text_at (codes "refreshToken") item ≡ [])
      × (text_at (codes "kiroApiKey") item ≡ [])
      × ((looks_like_api_key lower item ≡ false) ⊎ (text_at (codes "accessToken") item ≡ []))))
    × ((q : CredentialsImportRequest) → map_credential lower item ≡ request q → IsUsable q)
map_credential_outcome_example = map_credential_outcome lower item
