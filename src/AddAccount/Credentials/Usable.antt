-- ===== src/AddAccount/Credentials/Usable.antt =====
-- What the requests of ui/src/features/add-account/lib/credentials-mapping.ts hold.
use mathlib.Core.Path.{subst}
use kiro_reverse_api.Prelude.{
  ◌≡◌, refl, ◌↔◌, ◌⊎◌, inl, inr, Bool, true, false, not, ◌&&◌, [], ◌∷◌, none, some, if◌then◌else◌,
}
use kiro_reverse_api.Text.{Text, codes, is_full, or_text, text_eq}
use kiro_reverse_api.Text.Equality.{IsListed}
use kiro_reverse_api.AddAccount.Credentials.{
  CredentialsImportRequest, request, missing_refresh_token, is_microsoft_credential,
  looks_like_api_key, api_key_of, api_key_request, microsoft_request, auth_method_of,
  sign_in_request, map_credential,
}
use kiro_reverse_api.AddAccount.Credentials.Sources.{CredentialSource, text_at}

-- One of the three ways to sign in, or an API key alone.
pub record HoldsKey (q : CredentialsImportRequest) : Type 0 where
  pub key : Text
  pub key_full : is_full key ≡ true
  pub key_sent : q.kiro_api_key ≡ some key
  pub method_sent : q.auth_method ≡ some (codes "api_key")
  pub no_tokens : (q.refresh_token ≡ none) × (q.access_token ≡ none)

pub record HoldsTokens (q : CredentialsImportRequest) : Type 0 where
  pub token : Text
  pub method : Text
  pub token_full : is_full token ≡ true
  pub token_sent : q.refresh_token ≡ some token
  pub method_sent : q.auth_method ≡ some method
  pub method_known : IsListed (codes "external_idp" ∷ codes "idc" ∷ codes "social" ∷ []) method
  pub no_key : q.kiro_api_key ≡ none

abbrev pub IsUsable : CredentialsImportRequest → Type 0
IsUsable q = HoldsKey q ⊎ HoldsTokens q

-- The three requests and the failure, told apart by the tests before them.
chosen :
    (key token microsoft : Bool) (a b c q : CredentialsImportRequest)
    → (if key
        then request a
        else if not token
        then missing_refresh_token
        else if microsoft
        then request b
        else request c)
      ≡ request q
    → ((key ≡ true) × (a ≡ q)) ⊎ ((token ≡ true) × ((b ≡ q) ⊎ (c ≡ q)))
chosen true token microsoft a b c q e = inl (refl, cc)
chosen false true true a b c q e = inr (refl, inl (cc))
chosen false true false a b c q e = inr (refl, inr (cc))
chosen false false microsoft a b c q e = absurd (cc)

method-IsListed :
    (a b : Bool)
    → IsListed
        (codes "external_idp" ∷ codes "idc" ∷ codes "social" ∷ [])
        (if a then codes "idc" else if b then codes "idc" else codes "social")
method-IsListed true b = inr (inl refl)
method-IsListed false true = inr (inl refl)
method-IsListed false false = inr (inr (inl refl))

missing_iff :
    (key token access : Text) (looks microsoft : Bool) (a b c : CredentialsImportRequest)
    → ((if is_full (or_text key (if looks && not (is_full token) then access else []))
          then request a
          else if not (is_full token)
          then missing_refresh_token
          else if microsoft
          then request b
          else request c)
        ≡ missing_refresh_token)
      ↔ ((token ≡ []) × (key ≡ []) × ((looks ≡ false) ⊎ (access ≡ [])))
missing_iff (k ∷ key) token access looks microsoft a b c = (λ e. absurd (cc), λ h. absurd (cc))
missing_iff [] (t ∷ token) access true true a b c = (λ e. absurd (cc), λ h. absurd (cc))
missing_iff [] (t ∷ token) access true false a b c = (λ e. absurd (cc), λ h. absurd (cc))
missing_iff [] (t ∷ token) access false true a b c = (λ e. absurd (cc), λ h. absurd (cc))
missing_iff [] (t ∷ token) access false false a b c = (λ e. absurd (cc), λ h. absurd (cc))
missing_iff [] [] [] true microsoft a b c = (λ e. (refl, refl, inr refl), λ h. refl)
missing_iff [] [] (d ∷ access) true microsoft a b c =
    (λ e. absurd (cc), λ h. elim h.2 [ inl e ↦ absurd (cc) | inr e ↦ absurd (cc) ])
missing_iff [] [] access false microsoft a b c = (λ e. (refl, refl, inl refl), λ h. refl)

module _ (lower : Text → Text) (item : CredentialSource) where
  key-IsUsable : is_full (api_key_of lower item) ≡ true → IsUsable (api_key_request lower item)
  key-IsUsable h = inl (record {
    key = api_key_of lower item;
    key_full = h;
    key_sent = refl;
    method_sent = refl;
    no_tokens = (refl, refl);
  })

  microsoft-IsUsable :
      is_full (text_at (codes "refreshToken") item) ≡ true → IsUsable (microsoft_request lower item)
  microsoft-IsUsable h = inr (record {
    token = text_at (codes "refreshToken") item;
    method = codes "external_idp";
    token_full = h;
    token_sent = refl;
    method_sent = refl;
    method_known = inl refl;
    no_key = refl;
  })

  sign_in-IsUsable :
      is_full (text_at (codes "refreshToken") item) ≡ true → IsUsable (sign_in_request lower item)
  sign_in-IsUsable h = inr (record {
    token = text_at (codes "refreshToken") item;
    method = auth_method_of lower item;
    token_full = h;
    token_sent = refl;
    method_sent = refl;
    method_known =
        method-IsListed
          (is_full (text_at (codes "clientId") item)
            && is_full (text_at (codes "clientSecret") item))
          (text_eq (lower (text_at (codes "authMethod") item)) (codes "idc"));
    no_key = refl;
  })

  map_credential-IsUsable :
      (q : CredentialsImportRequest) → map_credential lower item ≡ request q → IsUsable q
  unfolding map_credential
  map_credential-IsUsable q e =
      elim (chosen (is_full (api_key_of lower item)) (is_full (text_at (codes "refreshToken") item))
        (is_microsoft_credential lower item) (api_key_request lower item)
        (microsoft_request lower item) (sign_in_request lower item) q e) [
          | inl (h, k) ↦ subst IsUsable k (key-IsUsable h)
          | inr (h, inl k) ↦ subst IsUsable k (microsoft-IsUsable h)
          | inr (h, inr k) ↦ subst IsUsable k (sign_in-IsUsable h)
        ]

  map_credential_missing : (map_credential lower item ≡ missing_refresh_token) ↔ (
      (text_at (codes "refreshToken") item ≡ [])
      × (text_at (codes "kiroApiKey") item ≡ [])
      × ((looks_like_api_key lower item ≡ false) ⊎ (text_at (codes "accessToken") item ≡ [])))
  unfolding map_credential
  map_credential_missing =
      missing_iff (text_at (codes "kiroApiKey") item) (text_at (codes "refreshToken") item)
        (text_at (codes "accessToken") item) (looks_like_api_key lower item)
        (is_microsoft_credential lower item) (api_key_request lower item)
        (microsoft_request lower item) (sign_in_request lower item)

  -- An item is refused exactly when it has no refresh token, no API key, and no access token that
  -- looks like an API key. The request for any other item holds an API key and no token, or a
  -- refresh token with one of the three ways to sign in and no API key; neither is the empty text.
  pub map_credential_outcome :
      ((map_credential lower item ≡ missing_refresh_token) ↔ (
        (text_at (codes "refreshToken") item ≡ [])
        × (text_at (codes "kiroApiKey") item ≡ [])
        × ((looks_like_api_key lower item ≡ false) ⊎ (text_at (codes "accessToken") item ≡ []))))
      × ((q : CredentialsImportRequest) → map_credential lower item ≡ request q → IsUsable q)
  map_credential_outcome = (map_credential_missing, map_credential-IsUsable)
