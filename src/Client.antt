-- ===== src/Client.antt =====
-- ui/src/lib/api/client.ts and ui/src/lib/api/errors.ts: requests to the admin API, what is thrown,
-- and which 401 ends the session. `fetch`, `JSON.parse` and the serialisation of URLSearchParams
-- are the browser's: their answers are arguments.
pub mod Bodies
pub mod Downloads
pub mod Sending
pub mod Unauthorized
pub mod Outcomes
mod Tests
use kiro_reverse_api.Prelude.{
  ℕ, ◌+◌, Bool, true, false, not, ◌&&◌, ◌||◌, List, [], ◌∷◌, ◌++◌, Option, none, some, or_else,
  if◌then◌else◌, leb, ltb, ◌==◌,
}
use kiro_reverse_api.Prelude.Int.{ℤ}
use kiro_reverse_api.Text.{Text, codes, text_eq, is_full, or_text}
use kiro_reverse_api.Text.Decimal.{print_ℤ, parse_int}
use kiro_reverse_api.Text.Trim.{trim}
use kiro_reverse_api.Json.{Json, null, flag, num, str, arr, obj, Fields, get_field}
use kiro_reverse_api.Session.{Store, expired, get_token, clear_session}
use kiro_reverse_api.Client.Bodies.{
  Response, is_ok, parse_retry_after, record_of, string_of, number_of, is_false, body_field,
  non_null, text_or_empty,
}

-- `body` is `none` for null; `index` is the text of a number.
pub record ApiError : Type 0 where
  pub status : ℕ
  pub server_message : Text
  pub body : Option Json
  pub retry_after : Option ℤ
  pub index : Option Text

-- What a caller of the client gets: a value, an ApiError, or the abort error as it was.
pub data Outcome {ℓ} (A : Type ℓ) : Type ℓ where
  ok : A → Outcome A
  thrown : ApiError → Outcome A
  aborted : Outcome A

pub data QueryValue : Type 0 where
  text : Text → QueryValue
  number : ℤ → QueryValue
  boolean : Bool → QueryValue
  null_value : QueryValue
  undefined : QueryValue

-- `String(value)`, `none` for the entries that are skipped.
query_text : QueryValue → Option Text
query_text (text s) = if is_full s then some s else none
query_text (number n) = some (print_ℤ n)
query_text (boolean true) = some (codes "true")
query_text (boolean false) = some (codes "false")
query_text null_value = none
query_text undefined = none

abbrev add_param : Text → Option Text → List (Text × Text) → List (Text × Text)
add_param key none params = params
add_param key (some value) params = (key, value) ∷ params

unfoldable pub query_params : List (Text × QueryValue) → List (Text × Text)
unfolding query_text
query_params [] = []
query_params ((key, value) ∷ query) = add_param key (query_text value) (query_params query)

with_search : Text → Text → Text
with_search url search = if is_full search then url ++ (codes "?" ++ search) else url

-- `encode` is `URLSearchParams.toString`.
unfoldable pub build_url :
    (List (Text × Text) → Text) → Text → Option (List (Text × QueryValue)) → Text
unfolding with_search query_params
build_url encode path none = codes "/admin/api" ++ path
build_url encode path (some query) =
    with_search (codes "/admin/api" ++ path) (encode (query_params query))

-- The parameter `json_parse` is `JSON.parse`, `none` where it throws.
module _ (json_parse : Text → Option Json) where
  -- `parseJson`, `none` for `{ ok: false }`
  unfoldable pub parse_json : Text → Option Json
  parse_json [] = none
  parse_json (c ∷ s) = json_parse (c ∷ s)

  -- `body.error` if it is a string, nothing for another JSON body, and the text of any other body.
  from_body : Text → Option Json → Text
  from_body s none = trim s
  from_body s (some v) = or_else (string_of (body_field (codes "error") (record_of (some v)))) []

  unfoldable pub to_api_error : Response → ApiError
  unfolding parse_json from_body
  to_api_error r =
      let s = text_or_empty r.body_text in
      let body = parse_json s in
      record {
        status = r.status;
        server_message = or_text (from_body s body) r.status_text;
        body = non_null body;
        retry_after = parse_retry_after r.retry_after_header;
        index = number_of (body_field (codes "index") (record_of body));
      }

abbrev pub unauthorized : ApiError
unauthorized = record {
  status = 401;
  server_message = codes "Unauthorized";
  body = none;
  retry_after = none;
  index = none;
}

abbrev pub network_error : ApiError
network_error = record {
  status = 0;
  server_message = codes "network";
  body = none;
  retry_after = none;
  index = none;
}

-- How `fetch` ended: with a response, or with an error that is an abort or not.
pub data Fetched : Type 0 where
  replied : Response → Fetched
  failed : Bool → Fetched

abbrev need_token : Option Text → Outcome (Option Text)
need_token none = thrown unauthorized
need_token (some t) = if is_full t then ok (some t) else thrown unauthorized

-- The part of `send` before `fetch`: the token of X-Admin-Token, or the error thrown when there is
-- no session. Between it and the rest of `send` anything may happen to the session.
unfoldable pub send_start : ℕ → Bool → Store → Store × Outcome (Option Text)
send_start now false st = (st, ok none)
send_start now true st = let (st', token) = get_token now st in (st', need_token token)

abbrev pub same_token : Option Text → Text → Bool
same_token none t = false
same_token (some s) t = text_eq s t

-- The handling of a 401 for a request that sent `token`.
expire_token : ℕ → Text → Store → Store
expire_token now token st =
    let (st', current) = get_token now st in
    if same_token current token then clear_session expired st' else st'

-- The token is read again only for a 401 of a request that sent one.
after_reply : ℕ → Option Text → Response → Store → Store
unfolding expire_token
after_reply now none r st = st
after_reply now (some token) r st = if r.status == 401 then expire_token now token st else st

-- The part of `send` after `fetch`, for a request that sent `token`.
unfoldable pub send_finish :
    (Text → Option Json) → ℕ → Option Text → Fetched → Store → Store × Outcome Response
unfolding after_reply
send_finish json_parse now token (failed true) st = (st, aborted)
send_finish json_parse now token (failed false) st = (st, thrown network_error)
send_finish json_parse now token (replied r) st =
    (after_reply now token r st, if is_ok r then ok r else thrown (to_api_error json_parse r))

-- What `apiRequest` returns: undefined, the text of a body that is not JSON, or the parsed body.
pub data Answer : Type 0 where
  undefined_answer : Answer
  text_answer : Text → Answer
  json_answer : Json → Answer

rejected_error : Response → Json → Fields → ApiError
rejected_error r v fs = record {
  status = r.status;
  server_message = or_else (string_of (get_field (codes "error") fs)) r.status_text;
  body = non_null (some v);
  retry_after = none;
  index = number_of (get_field (codes "index") fs);
}

abbrev answer_record : Response → Json → Option Fields → Outcome Answer
answer_record r v none = ok (json_answer v)
answer_record r v (some fs) =
    if is_false (get_field (codes "success") fs)
    then thrown (rejected_error r v fs)
    else ok (json_answer v)

abbrev answer_json : Response → Text → Option Json → Outcome Answer
answer_json r s none = ok (text_answer s)
answer_json r s (some v) = answer_record r v (record_of (some v))

-- The part of `apiRequest` after `send`.
unfoldable pub read_answer : (Text → Option Json) → Response → Outcome Answer
unfolding rejected_error
read_answer json_parse r =
    let s = text_or_empty r.body_text in
    if is_full s then answer_json r s (parse_json json_parse s) else ok undefined_answer

infixl 5 ◌>>=◌
abbrev pub ◌>>=◌ {ℓ κ} : {A : Type ℓ} {B : Type κ} → Outcome A → (A → Outcome B) → Outcome B
ok a >>= f = f a
thrown e >>= f = thrown e
aborted >>= f = aborted

-- `apiRequest` from the end of its `fetch` on.
unfoldable pub request_finish :
    (Text → Option Json) → ℕ → Option Text → Fetched → Store → Store × Outcome Answer
request_finish json_parse now token fetched st =
    let (st', sent) = send_finish json_parse now token fetched st in
    (st', sent >>= λ r. read_answer json_parse r)
