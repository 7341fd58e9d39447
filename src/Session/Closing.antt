-- ===== src/Session/Closing.antt =====
-- The end of a session: by `clearSession`, and by expiry.
use kiro_reverse_api.Prelude.{
  ℕ, suc, ◌<◌, ◌≤◌, ◌≡◌, ◌≢◌, refl, Bool, true, false, [], ◌++◌, none, inr, le→leb, ◌∷◌, zero,
}
use kiro_reverse_api.Prelude.Int.{ℤ, pos}
use kiro_reverse_api.Storage.{get_area, local, session, Browser, read_storage}
use kiro_reverse_api.Storage.Laws.{IsOpen}
use kiro_reverse_api.Session.{
  Session, Store, Reason, token_key, remember_key, remove_token, notices_for, get_session,
  clear_session, value_of, expired, area_for, set_session, run_microtask, remember_preference,
}
use kiro_reverse_api.Session.Reads.{
  live_in, lapsed_in, swept, lapsed_any, read_storage-remove_token,
}
use kiro_reverse_api.Text.{Text}
use kiro_reverse_api.Text.Decimal.{parse_int-print_ℤ}
use kiro_reverse_api.Session.Changes.{
  get_session-browser, get_session-notices, Stored, set_session-Stored,
}
use kiro_reverse_api.Session.Expiry.{
  settle-queued, swept_store, find_session, get_session-value, get_session_lem,
}

-- No area holds a token.
pub record IsEmpty (b : Browser) : Type 0 where
  pub session_token : read_storage b token_key session ≡ none
  pub local_token : read_storage b token_key local ≡ none

pub find_session-IsEmpty :
    (now : ℕ) (b : Browser) → IsEmpty b → (find_session now b ≡ none) × (lapsed_any now b ≡ false)
unfolding find_session lapsed_any live_in lapsed_in
find_session-IsEmpty now b e = rw (e.session_token, e.local_token) (refl, refl)

pub clear_session-IsEmpty :
    (reason : Reason) (st : Store) → IsEmpty (clear_session reason st).browser
unfolding clear_session
clear_session-IsEmpty reason st =
    let b = remove_token st.browser session in
    record {
      session_token = rw (
        read_storage-remove_token b local token_key session,
        read_storage-remove_token st.browser session token_key session,
      );
      local_token = rw (read_storage-remove_token b local token_key local);
    }

pub get_session-queued :
    (now : ℕ) (st : Store) → (get_session now st).0.queued ≡ (swept_store now st).queued
get_session-queued now st = rw get_session_lem (settle-queued _ _ _)

-- After `clearSession` no read gives a session and no read queues an expiry; the "Stay signed in"
-- choice is as it was, and each listener is told once of the end, with the given reason.
pub clear_session-get_session :
    (now : ℕ) (reason : Reason) (st : Store)
    → let st' = clear_session reason st in
      (value_of (get_session now st').1 ≡ none)
      × ((get_session now st').0.queued ≡ st.queued)
      × (remember_preference st' ≡ remember_preference st)
      × (st'.notices ≡ st.notices ++ notices_for none reason st.listeners)
unfolding clear_session remember_preference swept_store
clear_session-get_session now reason st =
    let st' = clear_session reason st in
    let (gone, quiet) = find_session-IsEmpty now st'.browser (clear_session-IsEmpty reason st) in
    let b = remove_token st.browser session in
    (
      rw (get_session-value now st') gone,
      rw (get_session-queued now st', quiet),
      rw (
        read_storage-remove_token b local remember_key local,
        read_storage-remove_token st.browser session remember_key local,
      ),
      refl,
    )

lapsed-Stored :
    (later : ℕ) (m : Bool) (t : Text) (x : ℤ) (e : ℕ) (b : Browser)
    → t ≢ []
    → x ≡ pos (suc e)
    → suc e ≤ later
    → let s : Session = record { token = t; expires_at = x; remember = m } in
      Stored s b
      → (find_session later b ≡ none) × (lapsed_any later b ≡ true) × IsEmpty (swept later b)
unfolding find_session lapsed_any live_in lapsed_in swept
lapsed-Stored later m [] x e b full at over w = absurd (full refl)
lapsed-Stored later true (c ∷ t) x e b full at over w =
    rw (w.other, w.chosen, w.expiry, parse_int-print_ℤ x, at, le→leb (suc e) later over)
      (
        refl,
        refl,
        record {
          session_token = rw (read_storage-remove_token b local token_key session) w.other;
          local_token = rw (read_storage-remove_token b local token_key local);
        },
      )
lapsed-Stored later false (c ∷ t) x e b full at over w =
    rw (w.other, w.chosen, w.expiry, parse_int-print_ℤ x, at, le→leb (suc e) later over)
      (
        refl,
        refl,
        record {
          session_token = rw (read_storage-remove_token b session token_key session);
          local_token = rw (read_storage-remove_token b session token_key local) w.other;
        },
      )

-- A session with an expiry ends at that time: the first read from then on gives nothing, removes
-- the token from storage and queues one microtask, which tells each listener once that the session
-- expired. The chosen area took the writes of `setSession`, at a time before the expiry.
pub set_session-expires :
    (now later e : ℕ) (s : Session) (reason : Reason) (st : Store)
    → IsOpen (get_area st.browser (area_for s.remember))
    → s.token ≢ []
    → s.expires_at ≡ pos e
    → now < e
    → e ≤ later
    → let st' = set_session now s reason st in
      let r = (get_session later st').0 in
      (value_of (get_session later st').1 ≡ none)
      × IsEmpty r.browser
      × (r.queued ≡ suc st.queued)
      × ((run_microtask r).notices ≡ st'.notices ++ notices_for none expired st'.listeners)
      × ((run_microtask r).queued ≡ st.queued)
unfolding run_microtask swept_store
set_session-expires now later zero s reason st h full at early over = elim early [ ]
set_session-expires now later (suc e) s reason st h full at early over =
    let st' = set_session now s reason st in
    let (w, quiet) = set_session-Stored now s reason st h (full, inr (suc e, at, early)) in
    let (gone, dropped, empty) =
      lapsed-Stored later s.remember s.token s.expires_at e st'.browser full at over w in
    let (told, heard) = get_session-notices later st' in
    let count : (get_session later st').0.queued ≡ suc st.queued =
      rw (get_session-queued later st', dropped, gone, quiet) in
    (
      rw (get_session-value later st') gone,
      rw (get_session-browser later st') empty,
      count,
      rw (count, run_microtask, told, heard),
      rw (count, run_microtask),
    )
