-- ===== src/SignIn.antt =====
-- The asynchronous half of ui/src/lib/auth/session.ts: signing in, signing out, and signing in again
-- after a password change, over the client. `meanwhile` is what happens to the store while a
-- request is under way.
pub mod Laws
pub mod Countdown
mod Tests
use kiro_reverse_api.Prelude.{
  ℕ, Bool, true, false, List, [], ◌∷◌, Option, none, some, if◌then◌else◌,
}
use kiro_reverse_api.Prelude.Int.{ℤ}
use kiro_reverse_api.Text.{Text, is_full}
use kiro_reverse_api.Json.{Json}
use kiro_reverse_api.Session.{
  Session, Store, Reason, signin, signout, expired, password_changed, get_token, set_session,
  clear_session, remember_preference,
}
use kiro_reverse_api.Client.{
  Outcome, ok, thrown, aborted, unauthorized, Fetched, send_start, send_finish,
}

-- SessionCreateResponse, the whole answer and its fields; `expires_at` is
-- `Number(res.expiresAt) || 0`.
pub record Created : Type 0 where
  pub answer : Json
  pub token : Text
  pub expires_at : ℤ

abbrev accept : ℕ → Bool → Reason → Store → Created → Store × Outcome (Unit {0})
accept now remember reason st res =
    if is_full res.token
    then (
      set_session now
          (record { token = res.token; expires_at = res.expires_at; remember = remember }) reason
          st,
      ok tt,
    )
    else (st, thrown (record unauthorized { body = some res.answer }))

-- `startSession`, given how `createSession` ended: `none` is an empty answer.
unfoldable pub start_session :
    ℕ → Outcome (Option Created) → Bool → Reason → Store → Store × Outcome (Unit {0})
start_session now (ok none) remember reason st = (st, thrown unauthorized)
start_session now (ok (some res)) remember reason st = accept now remember reason st res
start_session now (thrown e) remember reason st = (st, thrown e)
start_session now aborted remember reason st = (st, aborted)

unfoldable pub sign_in : ℕ → Outcome (Option Created) → Bool → Store → Store × Outcome (Unit {0})
unfolding start_session
sign_in now answer remember st = start_session now answer remember signin st

-- The DELETE of a session, once its token is known or refused.
finish_delete :
    (Text → Option Json) → ℕ → (Store → Store) → Fetched → Store × Outcome (Option Text) → Store
finish_delete parse now meanwhile fetched (st, ok token) =
    (send_finish parse now token fetched (meanwhile st)).0
finish_delete parse now meanwhile fetched (st, thrown e) = st
finish_delete parse now meanwhile fetched (st, aborted) = st

delete_session :
    (Text → Option Json) → ℕ → ℕ → (Store → Store) → Fetched → Option Text → Store → Store
unfolding finish_delete
delete_session parse now later meanwhile fetched none st = st
delete_session parse now later meanwhile fetched (some token) st =
    if is_full token
    then finish_delete parse later meanwhile fetched (send_start now true st)
    else st

-- `signOut`: errors of the DELETE are dropped.
unfoldable pub sign_out : (Text → Option Json) → ℕ → ℕ → (Store → Store) → Fetched → Store → Store
unfolding delete_session
sign_out parse now later meanwhile fetched st =
    let (st', token) = get_token now st in
    clear_session signout (delete_session parse now later meanwhile fetched token st')

-- `reauthenticate` after its `createSession` has ended: the preference is read before the request,
-- from the store `before`.
abbrev clear_on_error : Store × Outcome (Unit {0}) → Store × Outcome (Unit {0})
clear_on_error (st, ok u) = (st, ok u)
clear_on_error (st, thrown e) = (clear_session expired st, thrown e)
clear_on_error (st, aborted) = (clear_session expired st, aborted)

unfoldable pub reauthenticate :
    ℕ → Outcome (Option Created) → (Store → Store) → Store → Store × Outcome (Unit {0})
unfolding start_session
reauthenticate now answer meanwhile st =
    let remember = remember_preference st in
    clear_on_error (start_session now answer remember password_changed (meanwhile st))
