-- ===== src/Client/Sending/Token.antt =====
-- Which token a request carries.
use kiro_reverse_api.Prelude.{
  ℕ, ◌≡◌, refl, Bool, true, false, List, [], ◌∷◌, Option, none, some, Bool-cases, inl, inr,
}
use kiro_reverse_api.Text.{Text}
use kiro_reverse_api.Json.{Json}
use kiro_reverse_api.Session.{Store, Handle, get_session, get_token, token_of}
use kiro_reverse_api.Session.Expiry.{IsLive, get_session-IsLive}
use kiro_reverse_api.Client.{
  Outcome, ok, thrown, aborted, ◌>>=◌, send_start, need_token, unauthorized,
}
use kiro_reverse_api.Client.Sending.{
  RequestBody, no_body, form_data, json_value, RequestOptions, Request, get_header, token_header,
  token_headers, with_content_type, request_of, send_request,
}

module _ {ℓ} {Form : Type ℓ} where
  -- What a call of `send` hands to `fetch`, from a store.
  abbrev pub Sends : ℕ → Store → Bool → Outcome (Request Form) → Type 0
  Sends now st true (ok q) =
      (h : Handle) × ((get_session now st).1 ≡ some h)
      × IsLive now h.value
      × (get_header token_header q.headers ≡ some h.value.token)
  Sends now st true (thrown e) = (e ≡ unauthorized) × ((get_session now st).1 ≡ none)
  Sends now st true aborted = ⊥
  Sends now st false (ok q) = get_header token_header q.headers ≡ none
  Sends now st false (thrown e) = ⊥
  Sends now st false aborted = ⊥

  header_with_token :
      (body : RequestBody Form) (c : ℕ) (t : Text)
      → get_header token_header (with_content_type body (token_headers (some (c ∷ t))))
        ≡ some (c ∷ t)
  header_with_token no_body c t = refl
  header_with_token (form_data form) c t = refl
  header_with_token (json_value v) c t = refl

  header_without_token :
      (body : RequestBody Form)
      → get_header token_header (with_content_type body (token_headers none)) ≡ none
  header_without_token no_body = refl
  header_without_token (form_data form) = refl
  header_without_token (json_value v) = refl

  module _ (encode : List (Text × Text) → Text) (stringify : Json → Text) (now : ℕ) (path : Text)
      (st : Store) where
    sent_live :
        (options : RequestOptions Form) (h : Handle) (token : Text)
        → h.value.token ≡ token
        → (get_session now st).1 ≡ some h
        → IsLive now h.value
        → Sends now st true
            (need_token (some token) >>= λ t. ok (request_of encode stringify path options t))
    sent_live options h [] e found live = absurd (live.0 e)
    sent_live options h (c ∷ t) e found live =
        (h, found, live, rw e (header_with_token options.body c t))

    sent_found :
        (options : RequestOptions Form) (found : Option Handle)
        → (get_session now st).1 ≡ found
        → Sends now st true
            (need_token (token_of found) >>= λ t. ok (request_of encode stringify path options t))
    sent_found options none e = (refl, e)
    sent_found options (some h) e =
        sent_live options h h.value.token refl e (get_session-IsLive now st h e)

    -- A request with authentication carries the token of the live session, and without a session
    -- nothing is sent and the call ends with a 401; a request without authentication carries no
    -- token.
    pub send_request-Sends :
        (options : RequestOptions Form)
        → Sends now st options.auth (send_request encode stringify now path options st).1
    unfolding send_request send_start get_token
    send_request-Sends options = elim (Bool-cases options.auth) [
      | inl e ↦ rw e (sent_found options (get_session now st).1 refl)
      | inr e ↦ rw e (header_without_token options.body)
    ]
