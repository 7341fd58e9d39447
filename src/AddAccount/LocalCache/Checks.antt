-- ===== src/AddAccount/LocalCache/Checks.antt =====
-- What a request built from the files of ui/src/features/add-account/lib/local-cache.ts holds.
use mathlib.Core.Path.{subst}
use kiro_reverse_api.Prelude.{
  ◌≡◌, refl, inl, inr, Bool, true, false, not, ◌&&◌, Option, none, some, arith, if◌then◌else◌,
  Bool-cases, is_some, sym, if_keeps,
}
use kiro_reverse_api.Text.{Text, codes, is_full}
use kiro_reverse_api.Text.Trim.{trim}
use kiro_reverse_api.Json.{Json, null, flag, num, str, arr, obj}
use kiro_reverse_api.AddAccount.Credentials.{CredentialsImportRequest}
use kiro_reverse_api.AddAccount.Credentials.Sources.{CredentialSource, text_at}
use kiro_reverse_api.AddAccount.LocalCache.{
  LocalProvider, is_social_provider, plain, payload, failed, client_secret_missing, is_uuid,
}
use kiro_reverse_api.AddAccount.LocalCache.Build.{
  microsoft_client_id, has_tenant, microsoft_payload, plain_request, no_client, has_secret,
  check_client, is_microsoft, check_files, with_client, with_token, as_record, parse_object,
  build_local_cache_payload,
}
use kiro_reverse_api.AddAccount.LocalCache.Complete.{IsComplete, Holds, Gives, gives_of, checked}

module _ (lower : Text → Text) (json_parse : Text → Option Json) (atob : Text → Option Text)
    (provider : LocalProvider) (token : CredentialSource) (Token Client : CredentialSource → Type 0)
    (read : Token token) (full : is_full (text_at (codes "refreshToken") token) ≡ true) where
  abbrev Good : CredentialsImportRequest → Type 0
  Good = IsComplete provider Token Client

  microsoft-Gives :
      (client : Option CredentialSource)
      → Gives Good (microsoft_payload lower json_parse atob token client)
  unfolding microsoft_payload
  microsoft-Gives client =
      let id = microsoft_client_id lower json_parse atob token client in
      checked Good (is_uuid id) _ _ λ h.
        checked Good (has_tenant lower json_parse atob token client) _ _ λ t. record {
          token = token;
          token_read = read;
          token_sent = refl;
          token_full = full;
          way =
              inl (record { client = id; method_sent = refl; client_sent = refl; client_uuid = h });
        }

  social-Gives :
      (client : Option CredentialSource)
      → is_some client ≡ false
      → is_social_provider provider ≡ true
      → Gives Good (check_client lower json_parse atob provider token client)
  social-Gives none n social =
      subst
        (λ b. Gives Good (
          if b
          then payload (plain_request lower json_parse atob provider token none)
          else failed (no_client lower json_parse atob token)))
        (sym social)
        (record {
          token = token;
          token_read = read;
          token_sent = refl;
          token_full = full;
          way = inr (inr (record { social = social; method_sent = refl; no_secret = refl }));
        })
  social-Gives (some client) n social = absurd (cc)

  client-Gives :
      (client : Option CredentialSource)
      → (is_social_provider provider ≡ true → client ≡ none)
      → ((c : CredentialSource) → client ≡ some c → Client c)
      → Gives Good (check_client lower json_parse atob provider token client)
  client-Gives none alone found = elim (Bool-cases (is_social_provider provider)) [
    | inl social ↦ social-Gives none refl social
    | inr other ↦
        subst
          (λ b. Gives Good (
            if b
            then payload (plain_request lower json_parse atob provider token none)
            else failed (no_client lower json_parse atob token)))
          (sym other) tt
  ]
  client-Gives (some client) alone found = elim (Bool-cases (is_social_provider provider)) [
    | inl social ↦ absurd (ground (arith, alone social))
    | inr other ↦
        subst
          (λ b. Gives Good (
            if not b && not (has_secret lower json_parse atob client)
            then failed (plain client_secret_missing)
            else payload (plain_request lower json_parse atob provider token (some client))))
          (sym other)
          (secret_gives client (is_full (text_at (codes "clientId") client))
            (is_full (text_at (codes "clientSecret") client)) refl refl (found client refl) other)
  ]
    where
      secret_gives :
          (client : CredentialSource) (a b : Bool)
          → is_full (text_at (codes "clientId") client) ≡ a
          → is_full (text_at (codes "clientSecret") client) ≡ b
          → Client client
          → is_social_provider provider ≡ false
          → Gives Good (
              if not (a && b)
              then failed (plain client_secret_missing)
              else payload (plain_request lower json_parse atob provider token (some client)))
      secret_gives client true true e f from_file no_social = record {
        token = token;
        token_read = read;
        token_sent = refl;
        token_full = full;
        way = inr (
            inl (record {
              client = client;
              client_read = from_file;
              other = no_social;
              method_sent = refl;
              client_sent = refl;
              secret_sent = refl;
              client_full = e;
              secret_full = f;
            }));
      }
      secret_gives client true false e f from_file no_social = tt
      secret_gives client false b e f from_file no_social = tt

  files_give :
      (client : Option CredentialSource)
      → (is_social_provider provider ≡ true → client ≡ none)
      → ((c : CredentialSource) → client ≡ some c → Client c)
      → Gives Good (check_files lower json_parse atob provider token client)
  unfolding check_files
  files_give client alone found =
      if_keeps (Gives Good) (is_microsoft lower json_parse atob provider token client)
        (microsoft-Gives client) (client-Gives client alone found)

module _ (lower : Text → Text) (json_parse : Text → Option Json) (atob : Text → Option Text)
    (provider : LocalProvider) where
  object_read :
      (v : Option Json) (fields : CredentialSource)
      → as_record lower json_parse atob v ≡ some fields
      → v ≡ some (obj fields)
  object_read none fields h = absurd (cc)
  object_read (some null) fields h = absurd (cc)
  object_read (some (flag b)) fields h = absurd (cc)
  object_read (some (num n)) fields h = absurd (cc)
  object_read (some (str t)) fields h = absurd (cc)
  object_read (some (arr vs)) fields h = absurd (cc)
  object_read (some (obj fs)) fields h = cc

  module _ (token_text client_text : Text) where
    abbrev Built : CredentialsImportRequest → Type 0
    Built = IsComplete provider (Holds json_parse token_text) (Holds json_parse client_text)

    with_client-Gives :
        (token : CredentialSource) (client : Option CredentialSource)
        → Holds json_parse token_text token
        → is_full (text_at (codes "refreshToken") token) ≡ true
        → is_social_provider provider ≡ false
        → ((c : CredentialSource) → client ≡ some c → Holds json_parse client_text c)
        → Gives Built (with_client lower json_parse atob provider token client)
    with_client-Gives token none read full other found = tt
    with_client-Gives token (some client) read full other found =
        files_give lower json_parse atob provider token (Holds json_parse token_text)
          (Holds json_parse client_text) read full (some client) (λ s. absurd (cc)) found

    no_client-Gives :
        (token : CredentialSource)
        → Holds json_parse token_text token
        → is_full (text_at (codes "refreshToken") token) ≡ true
        → Gives Built (check_files lower json_parse atob provider token none)
    no_client-Gives token read full =
        files_give lower json_parse atob provider token (Holds json_parse token_text)
          (Holds json_parse client_text) read full none (λ s. refl) (λ c e. absurd (cc))

    with_token-Gives :
        (token : Option CredentialSource)
        → ((t : CredentialSource) → token ≡ some t → Holds json_parse token_text t)
        → Gives Built (with_token lower json_parse atob provider token client_text)
    with_token-Gives none read = tt
    with_token-Gives (some token) read =
        checked Built (is_full (text_at (codes "refreshToken") token)) _ _ λ full.
          files_read token (read token refl) full (is_full client_text)
            (is_social_provider provider) refl
      where
        files_read :
            (token : CredentialSource)
            → Holds json_parse token_text token
            → is_full (text_at (codes "refreshToken") token) ≡ true
            → (given social : Bool) → is_social_provider provider ≡ social
            → Gives Built (
                if given && not social
                then with_client lower json_parse atob provider token
                    (parse_object lower json_parse atob client_text)
                else check_files lower json_parse atob provider token none)
        files_read token read full true false other =
            with_client-Gives token (parse_object lower json_parse atob client_text) read full other
              (λ c e. object_read (json_parse client_text) c e)
        files_read token read full true true social = no_client-Gives token read full
        files_read token read full false social e = no_client-Gives token read full

  -- A request built from the two files holds the refresh token of the token file. It is a Microsoft
  -- sign-in with a UUID as its client, or, of no social provider, one with the client and the secret
  -- that the client file names, or belongs to a social provider and has no secret.
  pub build_local_cache_payload-IsComplete :
      (token_json client_json : Text) (q : CredentialsImportRequest)
      → build_local_cache_payload lower json_parse atob provider token_json client_json ≡ payload q
      → IsComplete provider
          (Holds json_parse (trim token_json))
          (Holds json_parse (trim client_json))
          q
  unfolding build_local_cache_payload
  build_local_cache_payload-IsComplete token_json client_json q e =
      let complete = Built (trim token_json) (trim client_json) in
      gives_of complete _ q
        (checked complete (is_full (trim token_json)) _ _ λ h.
          with_token-Gives (trim token_json) (trim client_json)
            (parse_object lower json_parse atob (trim token_json))
            (λ t r. object_read (json_parse (trim token_json)) t r))
        e
