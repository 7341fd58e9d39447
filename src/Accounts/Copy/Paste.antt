-- ===== src/Accounts/Copy/Paste.antt =====
-- An account that was copied (ui/src/features/accounts/account-model.ts) and pasted into the
-- add-account dialog (ui/src/features/add-account/lib/credentials-mapping.ts).
use kiro_reverse_api.Prelude.{
  ◌≡◌, refl, Bool, true, false, ◌&&◌, [], ◌∷◌, some, if◌then◌else◌, Bool-cases, inl, inr,
}
use kiro_reverse_api.Text.{Text, codes, text_eq, is_full, or_text, starts_with}
use kiro_reverse_api.Text.Equality.{text_eq_iff}
use kiro_reverse_api.AddAccount.Credentials.{
  CredentialsImportRequest, empty_request, request, is_microsoft_credential, map_credential,
}
use kiro_reverse_api.AddAccount.Credentials.Sources.{text_field}
use kiro_reverse_api.Accounts.Copy.{
  AccountFull, key_copy, microsoft_copy, token_copy, build_copy_json,
}

-- What a pasted copy asks the server to import.
abbrev pub key_import : AccountFull → CredentialsImportRequest
key_import a = record empty_request {
  kiro_api_key = some (or_text a.kiro_api_key a.access_token);
  auth_method = some (codes "api_key");
  region = some a.region;
}

abbrev pub microsoft_import : AccountFull → CredentialsImportRequest
microsoft_import a = record empty_request {
  refresh_token = some a.refresh_token;
  access_token = some a.access_token;
  client_id = some a.client_id;
  auth_method = some (codes "external_idp");
  provider = some (codes "AzureAD");
  region = some [];
  user_id = some a.user_id;
  profile_arn = some a.profile_arn;
  token_endpoint = some a.token_endpoint;
  issuer_url = some a.issuer_url;
  scopes = some a.scopes;
}

abbrev pub has_client : AccountFull → Bool
has_client a = is_full a.client_id && is_full a.client_secret

abbrev pub token_import : AccountFull → CredentialsImportRequest
token_import a = record empty_request {
  refresh_token = some a.refresh_token;
  access_token = some a.access_token;
  client_id = some a.client_id;
  client_secret = some a.client_secret;
  auth_method = some (if has_client a then codes "idc" else codes "social");
  provider = some (if has_client a then codes "BuilderId" else codes "Google");
  region = some (codes "us-east-1");
}

abbrev pub imported : AccountFull → CredentialsImportRequest
imported a =
    if text_eq a.auth_method (codes "api_key")
    then key_import a
    else if text_eq a.auth_method (codes "external_idp")
    then microsoft_import a
    else token_import a

-- The secret that the account's sign-in needs is there.
abbrev pub has_secret : AccountFull → Bool
has_secret a =
    if text_eq a.auth_method (codes "api_key")
    then is_full (or_text a.kiro_api_key a.access_token)
    else is_full a.refresh_token

or_text_full : (s t : Text) → is_full s ≡ true → or_text s t ≡ s
or_text_full [] t h = absurd (cc)
or_text_full (c ∷ s) t h = refl

and_false : (b : Bool) → (b && false) ≡ false
and_false true = refl
and_false false = refl

module _ (lower : Text → Text) (a : AccountFull) where
  paste_key :
      is_full (or_text a.kiro_api_key a.access_token) ≡ true
      → map_credential lower (key_copy a) ≡ request (key_import a)
  unfolding map_credential text_field is_microsoft_credential
  paste_key h = rw (or_text_full (or_text a.kiro_api_key a.access_token) _ h, h) refl

  paste_tokens :
      lower [] ≡ []
      → is_full a.refresh_token ≡ true
      → map_credential lower (token_copy a) ≡ request (token_import a)
  unfolding map_credential text_field is_microsoft_credential
  paste_tokens e h = elim (Bool-cases (has_client a)) [
    | inl c ↦ rw (e, h, and_false (starts_with a.access_token (codes "ksk_")), c) refl
    | inr c ↦ rw (e, h, and_false (starts_with a.access_token (codes "ksk_")), c) refl
  ]

  paste_microsoft :
      lower (codes "external_idp") ≡ codes "external_idp"
      → a.auth_method ≡ codes "external_idp"
      → is_full a.refresh_token ≡ true
      → map_credential lower (microsoft_copy a) ≡ request (microsoft_import a)
  unfolding map_credential text_field is_microsoft_credential
  paste_microsoft e m h = rw (m, e, h, and_false (starts_with a.access_token (codes "ksk_"))) refl

  -- An account that has its secret and is copied can be pasted into the add-account dialog: what is
  -- imported has the same tokens, or the same API key in its region. An API-key account is imported
  -- as one and a Microsoft account as one; of any other the copy names no sign-in, provider or region,
  -- so it is imported as a Builder ID one where it has a client and its secret and as a Google one
  -- where not, in the default region. `toLowerCase` leaves the empty text and "external_idp" as
  -- they are.
  pub map_credential-build_copy_json :
      lower [] ≡ []
      → lower (codes "external_idp") ≡ codes "external_idp"
      → has_secret a ≡ true
      → map_credential lower (build_copy_json a) ≡ request (imported a)
  unfolding build_copy_json
  map_credential-build_copy_json e m h =
      elim (Bool-cases (text_eq a.auth_method (codes "api_key"))) [
        | inl k ↦
            let secret : is_full (or_text a.kiro_api_key a.access_token) ≡ true = rw k at h in
            rw k (paste_key secret)
        | inr k ↦
            let secret : is_full a.refresh_token ≡ true = rw k at h in
            elim (Bool-cases (text_eq a.auth_method (codes "external_idp"))) [
              | inl x ↦
                  rw (k, x)
                    (paste_microsoft m ((text_eq_iff a.auth_method (codes "external_idp")).0 x)
                      secret)
              | inr x ↦ rw (k, x) (paste_tokens e secret)
            ]
      ]
