-- ===== src/SignIn/Tests.antt =====
-- Signing in, out and in again at concrete stores.
use kiro_reverse_api.Prelude.{◌≡◌, true, false, none}
use kiro_reverse_api.Prelude.Int.{pos}
use kiro_reverse_api.Text.{codes}
use kiro_reverse_api.Json.{obj, end}
use kiro_reverse_api.Session.{Session, get_session, value_of}
use kiro_reverse_api.Session.Tests.{signed_in}
use kiro_reverse_api.Client.{failed}
use kiro_reverse_api.SignIn.{Created, sign_out}
use kiro_reverse_api.SignIn.Laws.{sign_out-get_session}

abbrev created : Created
created = record { answer = obj end; token = codes "t2"; expires_at = pos 900 }

sign_out-get_session_example :
    value_of (get_session 60 (sign_out (λ s. none) 50 55 (λ st. st) (failed false) signed_in)).1
    ≡ none
sign_out-get_session_example =
    sign_out-get_session (λ s. none) 50 55 60 (λ st. st) (failed false) signed_in

abbrev new_session : Session
new_session = record { token = codes "t2"; expires_at = pos 900; remember = true }
