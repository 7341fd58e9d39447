-- ===== src/Session/Expiry.antt =====
-- Reading the session: what it gives, what it drops, and that a second read changes nothing.
use kiro_reverse_api.Prelude.{
  ℕ, zero, suc, ◌<◌, ◌≡◌, ◌≢◌, refl, sym, ap, ◌∙◌, [], ◌∷◌, ◌⊎◌, inl, inr, true, false, not, ◌&&◌,
  Option, none, some, is_some, if◌then◌else◌, arith, Option-cases, Bool-cases,
}
use kiro_reverse_api.Prelude.Int.{ℤ, pos, negsuc, eq_ℤ_iff}
use kiro_reverse_api.Text.{Text}
use kiro_reverse_api.Text.Equality.{text_eq_iff}
use kiro_reverse_api.Storage.{StorageArea, local, session, Browser}
use kiro_reverse_api.Session.{
  Session, Store, Handle, read_stored, after_scan, settle, get_session, value_of, is_over,
  expiry_of, same_session,
}
use kiro_reverse_api.Session.Reads.{
  live_token, live_in, first_some, swept, lapsed_any, swept_clean, swept_of_clean, scan_areas_lem,
}

-- What a read finds.
unfoldable pub find_session : ℕ → Browser → Option Session
find_session now b = first_some (live_in now b session) (live_in now b local)

-- The state after a read, its snapshot aside.
unfoldable pub swept_store : ℕ → Store → Store
swept_store now st = record st {
  browser = swept now st.browser;
  queued =
      if lapsed_any now st.browser && not (is_some (find_session now st.browser))
      then suc st.queued
      else st.queued;
}

pub read_stored_lem :
    (now : ℕ) (st : Store) → read_stored now st ≡ (swept_store now st, find_session now st.browser)
unfolding read_stored swept_store find_session after_scan
read_stored_lem now st = simp scan_areas_lem

pub get_session_lem :
    (now : ℕ) (st : Store)
    → get_session now st ≡ settle (swept_store now st) (find_session now st.browser) st.snapshot
unfolding get_session swept_store
get_session_lem now st = simp read_stored_lem

same_session_sound : (a b : Session) → same_session a b ≡ true → a ≡ b
same_session_sound a b h =
    ground (arith, text_eq_iff a.token b.token, eq_ℤ_iff a.expires_at b.expires_at)

settle_value :
    (st : Store) (found : Option Session) (old : Option Handle)
    → value_of (settle st found old).1 ≡ found
unfolding settle
settle_value st none old = refl
settle_value st (some next) none = refl
settle_value st (some next) (some old) = ground (arith, same_session_sound next old.value)

-- The value of `getSession` is what the areas hold, sessionStorage first; the cached snapshot
-- never stands in for it.
pub get_session-value :
    (now : ℕ) (st : Store) → value_of (get_session now st).1 ≡ find_session now st.browser
get_session-value now st = rw get_session_lem (settle_value _ _ _)

-- A session that may be used at `now`: its token is not empty, and no expiry is recorded or the
-- recorded one is still to come.
abbrev pub IsLive : ℕ → Session → Type 0
IsLive now s =
    (s.token ≢ []) × ((s.expires_at ≡ pos 0) ⊎ ((e : ℕ) × (s.expires_at ≡ pos e) × (now < e)))

is_over_sound :
    (now : ℕ) (e : ℤ) → is_over now e ≡ false → (e ≡ pos 0) ⊎ ((n : ℕ) × (e ≡ pos n) × (now < n))
is_over_sound now (pos zero) h = inl refl
is_over_sound now (pos (suc n)) h = inr (suc n, refl, ground arith)
is_over_sound now (negsuc n) h = absurd (cc)

live_token-IsLive :
    (now : ℕ) (area : StorageArea) (token raw : Option Text) (s : Session)
    → live_token now area token raw ≡ some s
    → IsLive now s
live_token-IsLive now area none raw s h = absurd (cc)
live_token-IsLive now area (some []) raw s h = absurd (cc)
live_token-IsLive now area (some (c ∷ t)) raw s h =
    elim (Bool-cases (is_over now (expiry_of raw))) [
      | inl over ↦ absurd (ground arith)
      | inr fine ↦
          let e : s.expires_at ≡ expiry_of raw = ground arith in
          let k : s.token ≡ c ∷ t = ground arith in
          (λ z. absurd (cc), rw e (is_over_sound now (expiry_of raw) fine))
    ]

find_session-IsLive :
    (now : ℕ) (b : Browser) (s : Session) → find_session now b ≡ some s → IsLive now s
unfolding find_session live_in
find_session-IsLive now b s h = elim (Option-cases (live_in now b session)) [
  | inl missing ↦ live_token-IsLive now local _ _ s (rw missing at h)
  | inr (f, e) ↦
      let same : f ≡ s = ground arith in rw (← same) (live_token-IsLive now session _ _ f e)
]

-- Whatever `getSession` hands out is live at the time of the read: its token is not empty and it
-- has not expired.
pub get_session-IsLive :
    (now : ℕ) (st : Store) (h : Handle) → (get_session now st).1 ≡ some h → IsLive now h.value
get_session-IsLive now st h e =
    find_session-IsLive now st.browser h.value (sym (get_session-value now st) ∙ ap value_of e)

same_session_refl : (a : Session) → same_session a a ≡ true
same_session_refl a =
    ground (arith, text_eq_iff a.token a.token, eq_ℤ_iff a.expires_at a.expires_at)

pub settle-browser :
    (st : Store) (found : Option Session) (old : Option Handle)
    → (settle st found old).0.browser ≡ st.browser
unfolding settle
settle-browser st none old = refl
settle-browser st (some next) none = refl
settle-browser st (some next) (some old) = ground arith

pub settle-queued :
    (st : Store) (found : Option Session) (old : Option Handle)
    → (settle st found old).0.queued ≡ st.queued
unfolding settle
settle-queued st none old = refl
settle-queued st (some next) none = refl
settle-queued st (some next) (some old) = ground arith

-- A second `settle` with the same session keeps the state and the object.
settle_again :
    (st : Store) (found : Option Session) (old : Option Handle)
    → st.snapshot ≡ old
    → let r = settle st found old in (settle r.0 found r.0.snapshot ≡ r)
unfolding settle
settle_again st none old e = refl
settle_again st (some next) none e = rw (same_session_refl next)
settle_again st (some next) (some old) e = elim (Bool-cases (same_session next old.value)) [
  | inl same ↦ simp (same, e)
  | inr other ↦ rw (other, same_session_refl next)
]

swept_store_of_clean :
    (now : ℕ) (st : Store) → lapsed_any now st.browser ≡ false → swept_store now st ≡ st
unfolding swept_store
swept_store_of_clean now st h = rw (h, swept_of_clean now st.browser h)

settle_twice :
    (now : ℕ) (st : Store) (found : Option Session) (old : Option Handle)
    → st.snapshot ≡ old
    → lapsed_any now st.browser ≡ false
    → find_session now st.browser ≡ found
    → get_session now (settle st found old).0 ≡ settle st found old
unfolding settle
settle_twice now st found old s clean same =
    rw
      (
        get_session_lem,
        swept_store_of_clean now (settle st found old).0 (rw (settle-browser st found old) clean),
        settle-browser st found old,
        same,
      )
      (settle_again st found old s)

-- A second read at the same time changes nothing: the state is the one that the first read left,
-- no second expiry is queued, and the object handed out is the same one.
pub get_session_again :
    (now : ℕ) (st : Store) → get_session now (get_session now st).0 ≡ get_session now st
get_session_again now st = rw (get_session_lem now st) (
    settle_twice now (swept_store now st) _ st.snapshot (unfold swept_store in refl)
      (unfold swept_store in (swept_clean now st.browser).1)
      (unfold swept_store find_session in (swept_clean now st.browser).0))
