-- ===== src/Client/Tests.antt =====
-- Requests of the client at concrete stores, and its theorems there.
use kiro_reverse_api.Prelude.{
  ℕ, ◌≢◌, ◌++◌, List, ◌≡◌, refl, ap, true, false, [], ◌∷◌, Option, none, some,
}
use kiro_reverse_api.Text.{Text, codes, text_eq}
use kiro_reverse_api.Json.{Json}
use kiro_reverse_api.Session.{notices_for, expired, get_session, get_token, value_of}
use kiro_reverse_api.Session.Tests.{session_runs, signed_in}
use kiro_reverse_api.Client.{Fetched, replied, failed, send_finish, request_finish}
use kiro_reverse_api.Client.Bodies.{Response}
use kiro_reverse_api.Client.Outcomes.{ComesFrom, request_finish-ComesFrom}
use kiro_reverse_api.Client.Unauthorized.{
  late_unauthorized, current_unauthorized, settle_replies, parallel_unauthorized,
}

-- A `JSON.parse` that takes nothing.
abbrev no_json : Text → Option Json
no_json s = none

abbrev refusal : Response
refusal = record {
  status = 401;
  status_text = codes "Unauthorized";
  body_text = some (codes "no");
  retry_after_header = none;
}

signed_in_token : (get_token 50 signed_in).1 ≡ some (codes "abc")
unfolding session_runs get_token
signed_in_token = refl

old-replaced : codes "abc" ≢ codes "old"
old-replaced e = let different : false ≡ true = ap (λ t. text_eq t (codes "old")) e in absurd (cc)

late_unauthorized_example :
    value_of
      (get_session 50 (send_finish no_json 50 (some (codes "old")) (replied refusal) signed_in).0).1
    ≡ value_of (get_session 50 signed_in).1
late_unauthorized_example =
    (late_unauthorized no_json 50 (codes "old") (codes "abc") refusal signed_in refl old-replaced
      signed_in_token).1

current_unauthorized_example :
    value_of
      (get_session 60 (send_finish no_json 50 (some (codes "abc")) (replied refusal) signed_in).0).1
    ≡ none
current_unauthorized_example =
    (current_unauthorized no_json 50 60 (codes "abc") refusal signed_in refl signed_in_token).0

-- Two more 401s for the same token and a lost connection.
abbrev under_way : List (ℕ × Option Text × Fetched)
under_way =
    (51, some (codes "abc"), replied refusal)
    ∷ (52, none, failed false)
    ∷ (120, some (codes "abc"), replied refusal)
    ∷ []

parallel_unauthorized_example :
    (settle_replies no_json
      ((50, some (codes "abc"), replied refusal) ∷ under_way)
      signed_in).notices
    ≡ signed_in.notices ++ notices_for none expired signed_in.listeners
parallel_unauthorized_example =
    (parallel_unauthorized no_json 50 (codes "abc") refusal under_way signed_in refl
      signed_in_token).1

request_finish-ComesFrom_example :
    ComesFrom no_json (failed false) (request_finish no_json 50 none (failed false) signed_in).1
request_finish-ComesFrom_example = request_finish-ComesFrom no_json 50 none (failed false) signed_in
