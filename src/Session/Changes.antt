-- ===== src/Session/Changes.antt =====
-- Signing in, signing out, and what listeners are told.
use kiro_reverse_api.Prelude.{
  ℕ, ◌<◌, ◌≡◌, refl, ◌∙◌, ◌⊎◌, Bool, true, false, not, [], ◌∷◌, ◌++◌, Option, none, some, arith,
}
use kiro_reverse_api.Prelude.Int.{ℤ, pos}
use kiro_reverse_api.Text.{Text, codes}
use kiro_reverse_api.Text.Decimal.{print_ℤ, parse_int-print_ℤ}
use kiro_reverse_api.Storage.{
  StorageArea, local, session, Browser, get_area, read_storage, write_storage,
}
use kiro_reverse_api.Storage.Laws.{
  same_area, IsOpen, write_storage-IsOpen, read_storage_written, read_storage_other,
}
use kiro_reverse_api.Session.{
  Session, Store, Handle, Reason, token_key, token_exp_key, remember_key, area_for, remove_token,
  notices_for, settle, get_session, set_session, store_session, value_of, is_over,
}
use kiro_reverse_api.Session.Reads.{
  live_in, lapsed_in, swept, swept_of_clean, lapsed_any, read_storage-remove_token,
}
use kiro_reverse_api.Session.Expiry.{
  settle-browser, settle-queued, swept_store, IsLive, find_session, get_session-value,
  get_session_lem,
}

-- What `setSession` leaves in the area that it chose, and in the other one.
pub record Stored (s : Session) (b : Browser) : Type 0 where
  pub chosen : read_storage b token_key (area_for s.remember) ≡ some s.token
  pub expiry : read_storage b token_exp_key (area_for s.remember) ≡ some (print_ℤ s.expires_at)
  pub other : read_storage b token_key (area_for (not s.remember)) ≡ none

remove_token-IsOpen :
    (b : Browser) (w r : StorageArea)
    → IsOpen (get_area b r)
    → IsOpen (get_area (remove_token b w) r)
unfolding remove_token
remove_token-IsOpen b w r h =
    write_storage-IsOpen _ token_exp_key none w r (write_storage-IsOpen b token_key none w r h)

-- The four writes, for a chosen area `a` and another area `o`.
module _ (a o : StorageArea) (b : Browser) (t x : Text) (v : Option Text) where
  cleared : Browser
  cleared = remove_token b o

  with_token : Browser
  unfolding cleared
  with_token = write_storage cleared token_key (some t) a

  with_expiry : Browser
  unfolding with_token
  with_expiry = write_storage with_token token_exp_key (some x) a

  with_choice : Browser
  unfolding with_expiry
  with_choice = write_storage with_expiry remember_key v local

  with_choice_other :
      same_area o o ≡ true → same_area a o ≡ false → read_storage with_choice token_key o ≡ none
  unfolding with_choice
  with_choice_other oo ao = ground (
    arith,
    read_storage_other with_expiry remember_key token_key v local o,
    read_storage_other with_token token_exp_key token_key (some x) a o,
    read_storage_other cleared token_key token_key (some t) a o,
    read_storage-remove_token b o token_key o,
  )

  with_choice_reads :
      same_area a a ≡ true
      → same_area o o ≡ true
      → same_area a o ≡ false
      → IsOpen (get_area b a)
      → (read_storage with_choice token_key a ≡ some t)
        × (read_storage with_choice token_exp_key a ≡ some x)
        × (read_storage with_choice token_key o ≡ none)
  unfolding with_choice
  with_choice_reads aa oo ao h =
      let open1 : IsOpen (get_area cleared a) = remove_token-IsOpen b o a h in
      let open2 : IsOpen (get_area with_token a) =
        write_storage-IsOpen cleared token_key (some t) a a open1 in
      ground (
        arith,
        read_storage_other with_expiry remember_key token_key v local a,
        read_storage_other with_expiry remember_key token_exp_key v local a,
        with_choice_other oo ao,
        read_storage_written with_token token_exp_key token_key x a a open2,
        read_storage_written with_token token_exp_key token_exp_key x a a open2,
        read_storage_written cleared token_key token_key t a a open1,
      )

-- The area that `setSession` does not choose holds no token, whatever storage refuses.
pub store_session-other :
    (m : Bool) (t : Text) (e : ℤ) (b : Browser)
    → let s : Session = record { token = t; expires_at = e; remember = m } in
      read_storage (store_session s b) token_key (area_for (not m)) ≡ none
unfolding store_session with_choice
store_session-other true t e b =
    with_choice_other local session b t (print_ℤ e) (some (codes "1")) refl refl
store_session-other false t e b = with_choice_other session local b t (print_ℤ e) none refl refl

-- The chosen area holds the token and its expiry, and the other one no token.
store_session-Stored :
    (m : Bool) (t : Text) (e : ℤ) (b : Browser)
    → IsOpen (get_area b (area_for m))
    → let s : Session = record { token = t; expires_at = e; remember = m } in
      Stored s (store_session s b)
unfolding store_session with_choice
store_session-Stored true t e b h =
    let (x, y, z) =
      with_choice_reads local session b t (print_ℤ e) (some (codes "1")) refl refl refl h in
    record { chosen = x; expiry = y; other = z }
store_session-Stored false t e b h =
    let (x, y, z) = with_choice_reads session local b t (print_ℤ e) none refl refl refl h in
    record { chosen = x; expiry = y; other = z }

is_over_of_live :
    (now : ℕ) (e : ℤ) → (e ≡ pos 0) ⊎ ((n : ℕ) × (e ≡ pos n) × (now < n)) → is_over now e ≡ false
is_over_of_live now e h = ground arith

find_session-Stored :
    (now : ℕ) (m : Bool) (t : Text) (e : ℤ) (b : Browser)
    → let s : Session = record { token = t; expires_at = e; remember = m } in
      IsLive now s → Stored s b → find_session now b ≡ some s
unfolding find_session live_in
find_session-Stored now m [] e b (full, live) w = absurd (full refl)
find_session-Stored now true (c ∷ t) e b (full, live) w =
    rw (w.other, w.chosen, w.expiry, parse_int-print_ℤ e, is_over_of_live now e live)
find_session-Stored now false (c ∷ t) e b (full, live) w =
    rw (w.chosen, w.expiry, parse_int-print_ℤ e, is_over_of_live now e live)

lapsed_any-Stored :
    (now : ℕ) (m : Bool) (t : Text) (e : ℤ) (b : Browser)
    → let s : Session = record { token = t; expires_at = e; remember = m } in
      IsLive now s → Stored s b → lapsed_any now b ≡ false
unfolding lapsed_any live_in lapsed_in
lapsed_any-Stored now m [] e b (full, live) w = absurd (full refl)
lapsed_any-Stored now true (c ∷ t) e b (full, live) w =
    rw (w.other, w.chosen, w.expiry, parse_int-print_ℤ e, is_over_of_live now e live)
lapsed_any-Stored now false (c ∷ t) e b (full, live) w =
    rw (w.chosen, w.expiry, parse_int-print_ℤ e, is_over_of_live now e live)

pub get_session-browser :
    (now : ℕ) (st : Store) → (get_session now st).0.browser ≡ swept now st.browser
unfolding swept_store
get_session-browser now st = rw get_session_lem (settle-browser _ _ _)

pub settle-notices :
    (st : Store) (found : Option Session) (old : Option Handle)
    → ((settle st found old).0.notices ≡ st.notices)
      × ((settle st found old).0.listeners ≡ st.listeners)
unfolding settle
settle-notices st none old = (refl, refl)
settle-notices st (some next) none = (refl, refl)
settle-notices st (some next) (some old) = ground arith

pub get_session-notices :
    (now : ℕ) (st : Store)
    → ((get_session now st).0.notices ≡ st.notices)
      × ((get_session now st).0.listeners ≡ st.listeners)
unfolding swept_store
get_session-notices now st = rw get_session_lem (settle-notices _ _ _)

-- `setSession` leaves the session in the browser, and queues no expiry.
pub set_session-Stored :
    (now : ℕ) (s : Session) (reason : Reason) (st : Store)
    → IsOpen (get_area st.browser (area_for s.remember))
    → IsLive now s
    → Stored s (set_session now s reason st).browser
      × ((set_session now s reason st).queued ≡ st.queued)
unfolding set_session swept_store
set_session-Stored now s reason st h live =
    let b = store_session s st.browser in
    let st1 : Store = record st { browser = b } in
    let w = store_session-Stored s.remember s.token s.expires_at st.browser h in
    let clean = lapsed_any-Stored now s.remember s.token s.expires_at b live w in
    let same : (get_session now st1).0.browser ≡ b =
      get_session-browser now st1 ∙ swept_of_clean now b clean in
    (rw same w, rw (get_session_lem, settle-queued, clean))

set_session-notices :
    (now : ℕ) (s : Session) (reason : Reason) (st : Store)
    → IsOpen (get_area st.browser (area_for s.remember))
    → IsLive now s
    → (set_session now s reason st).notices ≡ st.notices ++ notices_for (some s) reason st.listeners
unfolding set_session
set_session-notices now s reason st h live =
    let b = store_session s st.browser in
    let st1 : Store = record st { browser = b } in
    let w = store_session-Stored s.remember s.token s.expires_at st.browser h in
    let found = find_session-Stored now s.remember s.token s.expires_at b live w in
    let (told, heard) = get_session-notices now st1 in rw (told, heard, get_session-value, found)

-- Signing in with a live session, where the chosen area takes writes: as long as the session is
-- live every later read gives it, the other area holds no token, and each listener is told of it
-- once, in order, with the given reason.
pub set_session-get_session :
    (now later : ℕ) (s : Session) (reason : Reason) (st : Store)
    → IsOpen (get_area st.browser (area_for s.remember))
    → IsLive now s
    → IsLive later s
    → let st' = set_session now s reason st in
      (value_of (get_session later st').1 ≡ some s)
      × (read_storage st'.browser token_key (area_for (not s.remember)) ≡ none)
      × (st'.notices ≡ st.notices ++ notices_for (some s) reason st.listeners)
set_session-get_session now later s reason st h live live' =
    let st' = set_session now s reason st in
    let (w, quiet) = set_session-Stored now s reason st h live in
    (
      rw (get_session-value later st')
          (find_session-Stored later s.remember s.token s.expires_at st'.browser live' w),
      w.other,
      set_session-notices now s reason st h live,
    )
