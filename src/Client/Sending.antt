-- ===== src/Client/Sending.antt =====
-- ui/src/lib/api/client.ts: the request that `send` hands to `fetch`.
pub mod Token
mod Tests
use kiro_reverse_api.Prelude.{
  ℕ, Bool, true, false, ◌&&◌, List, [], ◌∷◌, ◌++◌, Option, none, some, if◌then◌else◌,
}
use kiro_reverse_api.Text.{Text, codes, text_eq, is_full}
use kiro_reverse_api.Json.{Json}
use kiro_reverse_api.Session.{Store}
use kiro_reverse_api.Client.{Outcome, ok, ◌>>=◌, QueryValue, build_url, send_start}

pub data Method : Type 0 where
  get_method post put delete : Method

-- What is sent: nothing, a form as it is, or a value as JSON.
pub data RequestBody {ℓ} (Form : Type ℓ) : Type ℓ where
  no_body : RequestBody Form
  form_data : Form → RequestBody Form
  json_value : Json → RequestBody Form

pub record RequestOptions {ℓ} (Form : Type ℓ) : Type ℓ where
  pub method : Method
  pub body : RequestBody Form
  pub query : Option (List (Text × QueryValue))
  pub auth : Bool

pub data Payload {ℓ} (Form : Type ℓ) : Type ℓ where
  no_payload : Payload Form
  form_payload : Form → Payload Form
  text_payload : Text → Payload Form

pub record Request {ℓ} (Form : Type ℓ) : Type ℓ where
  pub url : Text
  pub method : Method
  pub headers : List (Text × Text)
  pub payload : Payload Form

abbrev pub get_header : Text → List (Text × Text) → Option Text
get_header name [] = none
get_header name ((k, v) ∷ headers) = if text_eq k name then some v else get_header name headers

-- `headers.set`
abbrev pub set_header : Text → Text → List (Text × Text) → List (Text × Text)
set_header name value [] = (name, value) ∷ []
set_header name value ((k, v) ∷ headers) =
    if text_eq k name then (k, value) ∷ headers else (k, v) ∷ set_header name value headers

abbrev pub token_header : Text
token_header = codes "X-Admin-Token"

abbrev pub type_header : Text
type_header = codes "Content-Type"

-- `if (token) headers.set(...)` on new headers
abbrev pub token_headers : Option Text → List (Text × Text)
token_headers none = []
token_headers (some token) = if is_full token then set_header token_header token [] else []

module _ {ℓ} {Form : Type ℓ} where
  abbrev pub with_content_type : RequestBody Form → List (Text × Text) → List (Text × Text)
  with_content_type no_body headers = headers
  with_content_type (form_data form) headers = headers
  with_content_type (json_value v) headers =
      set_header type_header (codes "application/json") headers

  -- `stringify` is `JSON.stringify`.
  abbrev pub payload_of : (Json → Text) → RequestBody Form → Payload Form
  payload_of stringify no_body = no_payload
  payload_of stringify (form_data form) = form_payload form
  payload_of stringify (json_value v) = text_payload (stringify v)

  -- `encode` is `URLSearchParams.toString`.
  module _ (encode : List (Text × Text) → Text) (stringify : Json → Text) where
    abbrev pub request_of : Text → RequestOptions Form → Option Text → Request Form
    request_of path options token = record {
      url = build_url encode path options.query;
      method = options.method;
      headers = with_content_type options.body (token_headers token);
      payload = payload_of stringify options.body;
    }

    -- `send` up to its `fetch`: the request, or the error thrown when there is no session.
    unfoldable pub send_request :
        ℕ → Text → RequestOptions Form → Store → Store × Outcome (Request Form)
    unfolding build_url
    send_request now path options st =
        let (st', token) = send_start now options.auth st in
        (st', token >>= λ t. ok (request_of path options t))
