-- ===== src/AddAccount/LocalCache/Build.antt =====
-- `buildLocalCachePayload` of ui/src/features/add-account/lib/local-cache.ts, with the claims of a
-- token. The parameters are `toLowerCase`, and `JSON.parse` and `atob`, `none` where they throw.
use kiro_reverse_api.Prelude.{
  ◌&&◌, ◌||◌, not, [], ◌∷◌, map, Option, none, some, if◌then◌else◌, is_some, get_elem?, Bool, true,
  false,
}
use kiro_reverse_api.Text.{Text, codes, is_full, one_of_texts, or_text, split_on}
use kiro_reverse_api.Text.Trim.{trim}
use kiro_reverse_api.Json.{Json, end, get_field}
use kiro_reverse_api.AddAccount.Credentials.{
  CredentialsImportRequest, empty_request, is_microsoft_credential,
}
use kiro_reverse_api.AddAccount.Credentials.Sources.{
  CredentialSource, is_record, object_or_empty, text_field, text_at,
}
use kiro_reverse_api.AddAccount.LocalCache.{
  LocalProvider, provider_name, is_social_provider, is_microsoft_provider, LocalCacheError, plain,
  token_missing, token_invalid, refresh_token_missing, client_invalid, microsoft_client_id_missing,
  microsoft_tenant_missing, client_missing_named, client_missing, client_secret_missing,
  LocalCacheResult, payload, failed, is_uuid, from_base64url, is_dot, padded,
  local_microsoft_aliases, alias_units, before_slash, without_api, audience, first_uuid,
  client_text, is_truthy,
}

module _ (lower : Text → Text) (json_parse : Text → Option Json) (atob : Text → Option Text) where
  abbrev claims_from : Option Text → CredentialSource
  claims_from none = end
  claims_from (some s) = object_or_empty (json_parse s)

  abbrev claims_of : Option Text → CredentialSource
  claims_of none = end
  claims_of (some part) =
      if is_full part then claims_from (atob (padded (map from_base64url part))) else end

  unfoldable pub jwt_claims : Text → CredentialSource
  unfolding padded
  jwt_claims token = claims_of (get_elem? (split_on is_dot token) 1)

  abbrev fold_alias : Text → Text
  fold_alias s = alias_units (lower s)

  unfoldable pub is_local_microsoft_token : CredentialSource → Bool
  is_local_microsoft_token item =
      is_microsoft_credential lower item
      || one_of_texts local_microsoft_aliases (fold_alias (text_at (codes "authMethod") item))
      || one_of_texts local_microsoft_aliases (fold_alias (text_at (codes "provider") item))

  unfoldable pub microsoft_client_id_from_token : Text → Text
  unfolding jwt_claims is_uuid text_field
  microsoft_client_id_from_token access_token =
      let claims = jwt_claims access_token in
      let aud = text_field (audience (get_field (codes "aud") claims)) in
      first_uuid (
        before_slash (without_api aud)
        ∷ text_at (codes "azp") claims
        ∷ text_at (codes "appid") claims
        ∷ [])

  -- `pick` of `microsoftPayload`
  abbrev pick : Text → CredentialSource → Option CredentialSource → Text
  pick key token client = trim (or_text (text_at key token) (client_text key client))

  abbrev pub microsoft_client_id : CredentialSource → Option CredentialSource → Text
  microsoft_client_id token client =
      or_text (pick (codes "clientId") token client)
        (microsoft_client_id_from_token (text_at (codes "accessToken") token))

  -- What names the tenant of a Microsoft sign-in.
  abbrev pub has_tenant : CredentialSource → Option CredentialSource → Bool
  has_tenant token client =
      is_full (pick (codes "tokenEndpoint") token client)
      || is_full (pick (codes "issuerUrl") token client)
      || is_full (trim (text_at (codes "userId") token))
      || is_truthy (get_field (codes "iss") (jwt_claims (text_at (codes "accessToken") token)))

  abbrev pub microsoft_request :
      CredentialSource → Option CredentialSource → CredentialsImportRequest
  microsoft_request token client = record empty_request {
    refresh_token = some (text_at (codes "refreshToken") token);
    access_token = some (text_at (codes "accessToken") token);
    client_id = some (microsoft_client_id token client);
    auth_method = some (codes "external_idp");
    provider = some (codes "AzureAD");
    region = some (text_at (codes "region") token);
    user_id = some (trim (text_at (codes "userId") token));
    profile_arn = some (text_at (codes "profileArn") token);
    token_endpoint = some (pick (codes "tokenEndpoint") token client);
    issuer_url = some (pick (codes "issuerUrl") token client);
    scopes = some (pick (codes "scopes") token client);
  }

  unfoldable pub microsoft_payload : CredentialSource → Option CredentialSource → LocalCacheResult
  microsoft_payload token client =
      if not (is_uuid (microsoft_client_id token client))
      then failed (plain microsoft_client_id_missing)
      else if not (has_tenant token client)
      then failed (plain microsoft_tenant_missing)
      else payload (microsoft_request token client)

  abbrev pub as_record : Option Json → Option CredentialSource
  as_record none = none
  as_record (some v) = is_record v

  abbrev pub parse_object : Text → Option CredentialSource
  parse_object s = as_record (json_parse s)

  -- The request of a sign-in that is no Microsoft one.
  abbrev pub plain_request :
      LocalProvider → CredentialSource → Option CredentialSource → CredentialsImportRequest
  plain_request provider token client = record empty_request {
    refresh_token = some (text_at (codes "refreshToken") token);
    access_token = some (text_at (codes "accessToken") token);
    client_id = some (client_text (codes "clientId") client);
    client_secret = some (client_text (codes "clientSecret") client);
    region = some (text_at (codes "region") token);
    auth_method = some (if is_some client then codes "idc" else codes "social");
    provider = some (provider_name provider);
  }

  -- The failure where there is no client file.
  abbrev pub no_client : CredentialSource → LocalCacheError
  no_client token =
      let hash = trim (text_at (codes "clientIdHash") token) in
      if is_full hash
      then record { key = client_missing_named; file = some hash; hint = true }
      else record { key = client_missing; file = none; hint = true }

  abbrev pub has_secret : CredentialSource → Bool
  has_secret client =
      is_full (text_at (codes "clientId") client) && is_full (text_at (codes "clientSecret") client)

  abbrev pub check_client :
      LocalProvider → CredentialSource → Option CredentialSource → LocalCacheResult
  check_client provider token none =
      if is_social_provider provider
      then payload (plain_request provider token none)
      else failed (no_client token)
  check_client provider token (some client) =
      if not (is_social_provider provider) && not (has_secret client)
      then failed (plain client_secret_missing)
      else payload (plain_request provider token (some client))

  abbrev pub client_is_microsoft : Option CredentialSource → Bool
  client_is_microsoft none = false
  client_is_microsoft (some client) =
      not (is_full (text_at (codes "clientSecret") client)) && is_local_microsoft_token client

  abbrev pub is_microsoft : LocalProvider → CredentialSource → Option CredentialSource → Bool
  is_microsoft provider token client =
      is_microsoft_provider provider || is_local_microsoft_token token || client_is_microsoft client

  -- The checks once both files are read; `client` is `none` where there is no client file.
  unfoldable pub check_files :
      LocalProvider → CredentialSource → Option CredentialSource → LocalCacheResult
  unfolding microsoft_payload is_local_microsoft_token
  check_files provider token client =
      if is_microsoft provider token client
      then microsoft_payload token client
      else check_client provider token client

  abbrev pub with_client :
      LocalProvider → CredentialSource → Option CredentialSource → LocalCacheResult
  with_client provider token none = failed (plain client_invalid)
  with_client provider token (some client) = check_files provider token (some client)

  abbrev pub with_token : LocalProvider → Option CredentialSource → Text → LocalCacheResult
  with_token provider none client_json = failed (plain token_invalid)
  with_token provider (some token) client_json =
      if not (is_full (text_at (codes "refreshToken") token))
      then failed (plain refresh_token_missing)
      else if is_full client_json && not (is_social_provider provider)
      then with_client provider token (parse_object client_json)
      else check_files provider token none

  unfoldable pub build_local_cache_payload : LocalProvider → Text → Text → LocalCacheResult
  unfolding check_files
  build_local_cache_payload provider token_json client_json =
      if not (is_full (trim token_json))
      then failed (plain token_missing)
      else with_token provider (parse_object (trim token_json)) (trim client_json)
