-- ===== src/Client/Unauthorized.antt =====
-- Which 401 ends the session.
use kiro_reverse_api.Prelude.{
  ℕ, ◌≡◌, ◌≢◌, suc, refl, ap, sym, ◌∙◌, Bool, true, false, ◌&&◌, if◌then◌else◌, Option-cases, List,
  [], ◌∷◌, ◌++◌, Option, none, some, ◌==◌, arith, Bool-cases, inl, inr,
}
use kiro_reverse_api.Text.{Text}
use kiro_reverse_api.Text.Equality.{text_eq_iff, text_eq_self}
use kiro_reverse_api.Json.{Json}
use kiro_reverse_api.Session.{
  Store, Handle, get_session, get_token, token_of, value_of, clear_session, expired, notices_for,
  notify,
}
use kiro_reverse_api.Session.Closing.{
  IsEmpty, find_session-IsEmpty, clear_session-IsEmpty, clear_session-get_session,
  get_session-queued,
}
use kiro_reverse_api.Session.Expiry.{
  find_session, get_session_again, get_session-value, swept_store,
}
use kiro_reverse_api.Session.Reads.{lapsed_any, swept_of_clean}
use kiro_reverse_api.Session.Changes.{get_session-notices, get_session-browser}
use kiro_reverse_api.Client.{
  Fetched, replied, failed, same_token, expire_token, send_finish, thrown, ApiError, to_api_error,
}
use kiro_reverse_api.Client.Bodies.{Response, is_ok}

same_token_sound : (o : Option Text) (t : Text) → same_token o t ≡ true → o ≡ some t
same_token_sound none t h = absurd (cc)
same_token_sound (some s) t h = ap some ((text_eq_iff s t).0 h)

same_token_self : (t : Text) → same_token (some t) t ≡ true
same_token_self t = text_eq_self t

expire_token_other :
    (now : ℕ) (token : Text) (st : Store)
    → (get_token now st).1 ≢ some token
    → expire_token now token st ≡ (get_token now st).0
unfolding expire_token
expire_token_other now token st h = elim (Bool-cases (same_token (get_token now st).1 token)) [
  | inl same ↦ absurd (h (same_token_sound _ token same))
  | inr other ↦ rw other
]

expire_token_current :
    (now : ℕ) (token : Text) (st : Store)
    → (get_token now st).1 ≡ some token
    → expire_token now token st ≡ clear_session expired (get_token now st).0
unfolding expire_token
expire_token_current now token st h = rw (h, same_token_self token)

get_token-notices :
    (now : ℕ) (st : Store)
    → ((get_token now st).0.notices ≡ st.notices) × ((get_token now st).0.listeners ≡ st.listeners)
unfolding get_token
get_token-notices now st = get_session-notices now st

is_401 : (r : Response) → r.status ≡ 401 → (r.status == 401) ≡ true
is_401 r e = ground arith

not_ok : (r : Response) → r.status ≡ 401 → is_ok r ≡ false
not_ok r e = ground arith

token_of-value : (h : Option Handle) → value_of h ≡ none → token_of h ≡ none
token_of-value none e = refl
token_of-value (some h) e = absurd (cc)

-- A read that finds a session queues nothing.
get_token-queued :
    (now : ℕ) (token : Text) (st : Store)
    → (get_token now st).1 ≡ some token
    → (get_token now st).0.queued ≡ st.queued
unfolding get_token swept_store
get_token-queued now token st h = elim (Option-cases (find_session now st.browser)) [
  | inl e ↦
      let gone : value_of (get_session now st).1 ≡ none = get_session-value now st ∙ e in
      let no_token : some token ≡ none = sym h ∙ token_of-value (get_session now st).1 gone in
      absurd (cc)
  | inr (s, e) ↦ rw (get_session-queued now st, e) (no_queue (lapsed_any now st.browser) st.queued)
]
  where
    no_queue : (b : Bool) (n : ℕ) → (if b && false then suc n else n) ≡ n
    no_queue true n = refl
    no_queue false n = refl

-- A 401 for a token that another session has replaced does not end that session: the store is as a
-- read at that time leaves it, the session that a read finds is the same as without the reply,
-- nobody is told anything, and no expiry is queued that would tell somebody later.
pub late_unauthorized :
    (parse : Text → Option Json) (now : ℕ) (token other : Text) (r : Response) (st : Store)
    → r.status ≡ 401
    → other ≢ token
    → (get_token now st).1 ≡ some other
    → let st' = (send_finish parse now (some token) (replied r) st).0 in
      (st' ≡ (get_token now st).0)
      × (value_of (get_session now st').1 ≡ value_of (get_session now st).1)
      × (st'.notices ≡ st.notices)
      × (st'.queued ≡ st.queued)
unfolding send_finish get_token
late_unauthorized parse now token other r st e new current =
    let replaced : (get_token now st).1 ≢ some token =
      λ same. new (some_inj (sym current ∙ same)) in
    let kept = expire_token_other now token st replaced in
    rw (is_401 r e, kept)
      (
        refl,
        ap (λ (p : Store × Option Handle). value_of p.1) (get_session_again now st),
        (get_session-notices now st).0,
        get_token-queued now other st current,
      )
  where
    some_inj : {a b : Text} → some a ≡ some b → a ≡ b
    some_inj q = cc

to_api_error-status :
    (parse : Text → Option Json) (r : Response) → (to_api_error parse r).status ≡ r.status
unfolding to_api_error
to_api_error-status parse r = refl

-- A 401 for the stored token ends the session: no later read finds one, each listener is told once
-- that it expired, and the request throws an error of status 401.
pub current_unauthorized :
    (parse : Text → Option Json) (now later : ℕ) (token : Text) (r : Response) (st : Store)
    → r.status ≡ 401
    → (get_token now st).1 ≡ some token
    → let (st', outcome) = send_finish parse now (some token) (replied r) st in
      (value_of (get_session later st').1 ≡ none)
      × (st'.notices ≡ st.notices ++ notices_for none expired st.listeners)
      × ((error : ApiError) × (outcome ≡ thrown error) × (error.status ≡ 401))
unfolding send_finish
current_unauthorized parse now later token r st e current =
    let ended = clear_session-get_session later expired (get_token now st).0 in
    let (told, heard) = get_token-notices now st in
    let notices = rw (told, heard) at ended.3 in
    let gone = expire_token_current now token st current in
    (
      rw (is_401 r e, gone) ended.0,
      rw (is_401 r e, gone) notices,
      (to_api_error parse r, rw (not_ok r e), to_api_error-status parse r ∙ e),
    )

-- Replies as they come in: the time, the token that was sent, and how the fetch ended.
pub settle_replies : (Text → Option Json) → List (ℕ × Option Text × Fetched) → Store → Store
settle_replies parse [] st = st
settle_replies parse ((now, token, fetched) ∷ rest) st =
    settle_replies parse rest (send_finish parse now token fetched st).0

get_token-IsEmpty :
    (now : ℕ) (st : Store)
    → IsEmpty st.browser
    → ((get_token now st).1 ≡ none)
      × IsEmpty (get_token now st).0.browser
      × ((get_token now st).0.queued ≡ st.queued)
unfolding get_token swept_store
get_token-IsEmpty now st h =
    let (none_found, clean) = find_session-IsEmpty now st.browser h in
    (
      token_of-value (get_session now st).1 (get_session-value now st ∙ none_found),
      rw (get_session-browser now st, swept_of_clean now st.browser clean) h,
      rw (get_session-queued now st, clean) refl,
    )

-- A reply that finds no session changes nothing that a listener would hear of.
record IsUntold (st st' : Store) : Type 0 where
  empty : IsEmpty st'.browser
  notices : st'.notices ≡ st.notices
  queued : st'.queued ≡ st.queued

finish-IsUntold :
    (parse : Text → Option Json) (now : ℕ) (token : Option Text) (f : Fetched) (st : Store)
    → IsEmpty st.browser
    → IsUntold st (send_finish parse now token f st).0
unfolding send_finish
finish-IsUntold parse now token (failed true) st h = record {
  empty = h;
  notices = refl;
  queued = refl;
}
finish-IsUntold parse now token (failed false) st h = record {
  empty = h;
  notices = refl;
  queued = refl;
}
finish-IsUntold parse now none (replied r) st h = record {
  empty = h;
  notices = refl;
  queued = refl;
}
finish-IsUntold parse now (some token) (replied r) st h =
    let (gone, empty, quiet) = get_token-IsEmpty now st h in
    let other = expire_token_other now token st (rw gone (λ z. absurd (cc))) in
    let (told, heard) = get_token-notices now st in
    elim (Bool-cases (r.status == 401)) [
      | inl e ↦ rw (e, other) (record { empty = empty; notices = told; queued = quiet })
      | inr e ↦ rw e (record { empty = h; notices = refl; queued = refl })
    ]

settle_replies-IsUntold :
    (parse : Text → Option Json) (replies : List (ℕ × Option Text × Fetched)) (st : Store)
    → IsEmpty st.browser
    → IsUntold st (settle_replies parse replies st)
unfolding settle_replies
settle_replies-IsUntold parse [] st h = record { empty = h; notices = refl; queued = refl }
settle_replies-IsUntold parse ((now, token, f) ∷ rest) st h =
    let one = finish-IsUntold parse now token f st h in
    let more = settle_replies-IsUntold parse rest _ one.empty in
    record {
      empty = more.empty;
      notices = more.notices ∙ one.notices;
      queued = more.queued ∙ one.queued;
    }

-- The reply that ends the session.
ended_by :
    (parse : Text → Option Json) (now : ℕ) (token : Text) (r : Response) (st : Store)
    → r.status ≡ 401
    → (get_token now st).1 ≡ some token
    → let st' = (send_finish parse now (some token) (replied r) st).0 in
      IsEmpty st'.browser
      × (st'.notices ≡ st.notices ++ notices_for none expired st.listeners)
      × (st'.queued ≡ st.queued)
unfolding send_finish clear_session notify
ended_by parse now token r st e current =
    let before = (get_token now st).0 in
    let gone = expire_token_current now token st current in
    let (told, heard) = get_token-notices now st in
    let notices : (clear_session expired before).notices
        ≡ st.notices ++ notices_for none expired st.listeners =
      rw (told, heard) refl in
    rw (is_401 r e, gone)
      (clear_session-IsEmpty expired before, notices, get_token-queued now token st current)

-- Parallel 401s report one expiry: the first 401 for the stored token tells each listener once, and
-- whatever other replies come in after it, 401s for the same token among them, nobody is told
-- anything more, no expiry is queued, and no token is stored.
pub parallel_unauthorized :
    (parse : Text → Option Json) (now : ℕ) (token : Text) (r : Response)
    (replies : List (ℕ × Option Text × Fetched)) (st : Store)
    → r.status ≡ 401
    → (get_token now st).1 ≡ some token
    → let st' = settle_replies parse ((now, some token, replied r) ∷ replies) st in
      IsEmpty st'.browser
      × (st'.notices ≡ st.notices ++ notices_for none expired st.listeners)
      × (st'.queued ≡ st.queued)
unfolding settle_replies
parallel_unauthorized parse now token r replies st e current =
    let (empty, told, quiet) = ended_by parse now token r st e current in
    let more = settle_replies-IsUntold parse replies _ empty in
    (more.empty, more.notices ∙ told, more.queued ∙ quiet)
