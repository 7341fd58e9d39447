-- ===== src/AddAccount/LocalCache/Complete.antt =====
-- What an import request of ui/src/features/add-account/lib/local-cache.ts should hold.
use mathlib.Core.Path.{subst}
use kiro_reverse_api.Prelude.{
  ◌≡◌, refl, ◌⊎◌, Bool, true, false, not, [], Option, some, arith, if◌then◌else◌,
}
use kiro_reverse_api.Text.{Text, codes, is_full}
use kiro_reverse_api.Json.{Json, obj}
use kiro_reverse_api.AddAccount.Credentials.{CredentialsImportRequest}
use kiro_reverse_api.AddAccount.Credentials.Sources.{CredentialSource, text_at}
use kiro_reverse_api.AddAccount.LocalCache.{
  LocalProvider, is_social_provider, LocalCacheError, LocalCacheResult, payload, failed, is_uuid,
}

-- A Microsoft sign-in with the identifier of its client.
pub record IsMicrosoft (q : CredentialsImportRequest) : Type 0 where
  pub client : Text
  pub method_sent : q.auth_method ≡ some (codes "external_idp")
  pub client_sent : q.client_id ≡ some client
  pub client_uuid : is_uuid client ≡ true

-- A sign-in with a client file: the client and its secret are the ones that the file names.
pub record IsIdc (provider : LocalProvider) (Client : CredentialSource → Type 0)
    (q : CredentialsImportRequest) : Type 0 where
  pub client : CredentialSource
  pub client_read : Client client
  pub other : is_social_provider provider ≡ false
  pub method_sent : q.auth_method ≡ some (codes "idc")
  pub client_sent : q.client_id ≡ some (text_at (codes "clientId") client)
  pub secret_sent : q.client_secret ≡ some (text_at (codes "clientSecret") client)
  pub client_full : is_full (text_at (codes "clientId") client) ≡ true
  pub secret_full : is_full (text_at (codes "clientSecret") client) ≡ true

pub record IsSocial (provider : LocalProvider) (q : CredentialsImportRequest) : Type 0 where
  pub social : is_social_provider provider ≡ true
  pub method_sent : q.auth_method ≡ some (codes "social")
  pub no_secret : q.client_secret ≡ some []

-- `Token` and `Client` say what the two files hold.
pub record IsComplete (provider : LocalProvider) (Token Client : CredentialSource → Type 0)
    (q : CredentialsImportRequest) : Type 0 where
  pub token : CredentialSource
  pub token_read : Token token
  pub token_sent : q.refresh_token ≡ some (text_at (codes "refreshToken") token)
  pub token_full : is_full (text_at (codes "refreshToken") token) ≡ true
  pub way : IsMicrosoft q ⊎ (IsIdc provider Client q ⊎ IsSocial provider q)

-- The text is JSON of an object with these fields.
abbrev pub Holds : (Text → Option Json) → Text → CredentialSource → Type 0
Holds json_parse s fields = json_parse s ≡ some (obj fields)

-- What holds of a request where the outcome is one.
abbrev pub Gives : (CredentialsImportRequest → Type 0) → LocalCacheResult → Type 0
Gives P (payload q) = P q
Gives P (failed e) = Unit

pub gives_of :
    (P : CredentialsImportRequest → Type 0) (r : LocalCacheResult) (q : CredentialsImportRequest)
    → Gives P r
    → r ≡ payload q
    → P q
gives_of P (payload p) q g e = subst P (ground arith) g
gives_of P (failed x) q g e = absurd (cc)

-- A check passes on what holds where it does not fail.
pub checked :
    (P : CredentialsImportRequest → Type 0) (b : Bool) (x : LocalCacheError) (r : LocalCacheResult)
    → (b ≡ true → Gives P r)
    → Gives P (if not b then failed x else r)
checked P true x r g = g refl
checked P false x r g = tt
