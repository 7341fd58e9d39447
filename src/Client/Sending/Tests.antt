-- ===== src/Client/Sending/Tests.antt =====
-- Requests handed to `fetch`, from concrete stores.
use kiro_reverse_api.Prelude.{◌≡◌, refl, true, List, [], ◌∷◌, none}
use kiro_reverse_api.Text.{Text, codes}
use kiro_reverse_api.Json.{Json, null}
use kiro_reverse_api.Session.{get_token}
use kiro_reverse_api.Session.Tests.{session_runs, signed_in}
use kiro_reverse_api.Client.{ok, send_start}
use kiro_reverse_api.Client.Sending.{
  RequestOptions, json_value, text_payload, post, send_request, token_header, type_header,
}
use kiro_reverse_api.Client.Sending.Token.{Sends, send_request-Sends}

-- A serialisation that gives nothing, and one that gives "null".
abbrev no_query : List (Text × Text) → Text
no_query params = []

abbrev null_text : Json → Text
null_text v = codes "null"

abbrev post_null : RequestOptions Text
post_null = record { method = post; body = json_value null; query = none; auth = true }

posted :
    (send_request no_query null_text 50 (codes "/status") post_null signed_in).1
    ≡ ok (record {
      url = codes "/admin/api/status";
      method = post;
      headers = (token_header, codes "abc") ∷ (type_header, codes "application/json") ∷ [];
      payload = text_payload (codes "null");
    })
unfolding session_runs send_request send_start get_token
posted = refl

send_request-Sends_example :
    Sends 50 signed_in true
      (send_request no_query null_text 50 (codes "/status") post_null signed_in).1
send_request-Sends_example =
    send_request-Sends no_query null_text 50 (codes "/status") signed_in post_null
