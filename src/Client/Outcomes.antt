-- ===== src/Client/Outcomes.antt =====
-- What a caller of the client gets for each way in which a request can end.
use kiro_reverse_api.Prelude.{
  ℕ, ◌≡◌, ◌≢◌, refl, sym, ap, true, false, ◌⊎◌, inl, inr, Option, none, some, [], ◌∷◌, arith,
  Bool-cases, Option-cases,
}
use kiro_reverse_api.Text.{Text, codes, is_full}
use kiro_reverse_api.Json.{Json, Fields, get_field}
use kiro_reverse_api.Session.{Store}
use kiro_reverse_api.Client.{
  Fetched, replied, failed, Outcome, ok, thrown, aborted, ApiError, Answer, parse_json,
  to_api_error, rejected_error, send_finish, read_answer, request_finish, answer_record,
}
use kiro_reverse_api.Client.Bodies.{Response, is_ok, is_false, record_of, text_or_empty}

abbrev thrown_status : Outcome Answer → ℕ
thrown_status (thrown e) = e.status
thrown_status (ok a) = 0
thrown_status aborted = 0

module _ (parse : Text → Option Json) where
  -- The body says that the operation failed.
  abbrev pub SaysFailed : Response → Type 0
  SaysFailed r =
      (v : Json) × (fs : Fields) × (parse_json parse (text_or_empty r.body_text) ≡ some v)
      × (record_of (some v) ≡ some fs)
      × (is_false (get_field (codes "success") fs) ≡ true)

  answer_record-thrown :
      (r : Response) (v : Json) (o : Option Fields) (e : ApiError)
      → answer_record r v o ≡ thrown e
      → (e.status ≡ r.status)
        × ((fs : Fields) × (o ≡ some fs) × (is_false (get_field (codes "success") fs) ≡ true))
  unfolding rejected_error
  answer_record-thrown r v none e h = absurd (cc)
  answer_record-thrown r v (some fs) e h =
      elim (Bool-cases (is_false (get_field (codes "success") fs))) [
        | inl says ↦ (sym (ap thrown_status (rw says at h)), (fs, refl, says))
        | inr fine ↦ absurd (ground arith)
      ]

  read_answer-thrown :
      (r : Response) (e : ApiError)
      → read_answer parse r ≡ thrown e
      → (e.status ≡ r.status) × SaysFailed r
  unfolding read_answer
  read_answer-thrown r e h = elim (Bool-cases (is_full (text_or_empty r.body_text))) [
    | inr empty ↦ absurd (ground arith)
    | inl full ↦ elim (Option-cases (parse_json parse (text_or_empty r.body_text))) [
      | inl not_json ↦ absurd (ground arith)
      | inr (v, parsed) ↦
          let h' = rw (full, parsed) at h in
          let (status, found) = answer_record-thrown r v (record_of (some v)) e h' in
          (status, (v, found.0, parsed, found.1, found.2))
    ]
  ]

  -- An empty body is no JSON.
  parse_json_full : (s : Text) (v : Json) → parse_json parse s ≡ some v → is_full s ≡ true
  unfolding parse_json
  parse_json_full [] v h = absurd (cc)
  parse_json_full (c ∷ s) v h = refl

  read_answer-SaysFailed :
      (r : Response) → SaysFailed r → (e : ApiError) × (read_answer parse r ≡ thrown e)
  unfolding read_answer
  read_answer-SaysFailed r (v, fs, parsed, rec, says) = (
    rejected_error r v fs,
    rw (parse_json_full (text_or_empty r.body_text) v parsed, parsed, rec, answer_record, says),
  )

  read_answer-ne-aborted : (r : Response) → read_answer parse r ≢ aborted
  unfolding read_answer
  read_answer-ne-aborted r h = ground arith

  -- Where an outcome comes from. A value comes from a 2xx reply whose body does not say that the
  -- operation failed; an ApiError of status 0 from a network failure, one of another status from a
  -- reply with that status that is not 2xx or says so; and the abort error from an abort.
  abbrev pub ComesFrom : Fetched → Outcome Answer → Type 0
  ComesFrom f (ok a) = (r : Response) × (f ≡ replied r) × (is_ok r ≡ true) × (¬ SaysFailed r)
  ComesFrom f (thrown e) =
      ((f ≡ failed false) × (e.status ≡ 0))
      ⊎ ((r : Response) × (f ≡ replied r)
          × (e.status ≡ r.status)
          × ((is_ok r ≡ false) ⊎ SaysFailed r))
  ComesFrom f aborted = f ≡ failed true

  read_ComesFrom :
      (r : Response)
      → is_ok r ≡ true
      → (o : Outcome Answer) → read_answer parse r ≡ o
      → ComesFrom (replied r) o
  read_ComesFrom r fine (ok a) e =
      (r, refl, fine, λ says. let (error, thrown_) = read_answer-SaysFailed r says in absurd (cc))
  read_ComesFrom r fine (thrown error) e =
      let (status, says) = read_answer-thrown r error e in inr (r, refl, status, inr says)
  read_ComesFrom r fine aborted e = absurd (read_answer-ne-aborted r e)

  -- Every outcome of a request comes from where it should, for each way in which its fetch can end.
  pub request_finish-ComesFrom :
      (now : ℕ) (token : Option Text) (f : Fetched) (st : Store)
      → ComesFrom f (request_finish parse now token f st).1
  unfolding request_finish send_finish
  request_finish-ComesFrom now token (failed true) st = refl
  request_finish-ComesFrom now token (failed false) st = inl (refl, refl)
  request_finish-ComesFrom now token (replied r) st = elim (Bool-cases (is_ok r)) [
    | inl fine ↦ rw fine (read_ComesFrom r fine (read_answer parse r) refl)
    | inr bad ↦ rw bad (inr (r, refl, unfold to_api_error in refl, inl bad))
  ]
