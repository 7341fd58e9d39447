-- ===== src/SignIn/Laws.antt =====
-- What signing in, out and in again leave behind.
use Prim.Native.String.{String}
use text.Mathlib.Text.{◌==◌}
use kiro_reverse_api.Prelude.{
  ℕ, ◌≡◌, refl, ◌∙◌, Bool, true, false, ◌&&◌, Option, none, some, ◌⊎◌, inl, inr, if◌then◌else◌,
  arith, Bool-cases,
}
use kiro_reverse_api.Text.{Text, is_full, codes}
use kiro_reverse_api.Json.{Json}
use kiro_reverse_api.Storage.{
  StorageArea, Browser, local, session, read_storage, write_storage, get_area,
}
use kiro_reverse_api.Storage.Laws.{
  IsOpen, same_area, read_storage-write_storage, read_storage_other, read_storage_removed, takes,
}
use kiro_reverse_api.Session.Reads.{read_storage-remove_token, swept}
use kiro_reverse_api.Session.{
  Session, Store, Reason, signin, signout, expired, password_changed, get_session, set_session,
  remember_preference, value_of, is_one, remove_token, store_session, area_for, token_key,
  token_exp_key, remember_key,
}
use kiro_reverse_api.Session.Expiry.{IsLive}
use kiro_reverse_api.Session.Changes.{set_session-get_session, get_session-browser}
use kiro_reverse_api.Session.Closing.{clear_session-get_session}
use kiro_reverse_api.Client.{Outcome, ok, thrown, aborted, Fetched}
use kiro_reverse_api.SignIn.{Created, sign_in, sign_out, reauthenticate}

-- Signing out ends the local session however the DELETE ends, whatever happens meanwhile: no later
-- read finds a session.
pub sign_out-get_session :
    (parse : Text → Option Json) (now later last : ℕ) (meanwhile : Store → Store) (f : Fetched)
    (st : Store)
    → value_of (get_session last (sign_out parse now later meanwhile f st)).1 ≡ none
unfolding sign_out
sign_out-get_session parse now later last meanwhile f st =
    (clear_session-get_session last signout _).0

abbrev pub Failed : Outcome (Unit {0}) → Type 0
Failed (ok u) = ⊥
Failed (thrown e) = Unit
Failed aborted = Unit

-- A sign-in that fails leaves the store as it was; one that succeeds with a live session, in an area
-- that takes writes, makes that session the one that later reads give.
pub sign_in-get_session :
    (now later : ℕ) (answer : Outcome (Option Created)) (remember : Bool) (st : Store)
    → IsOpen (get_area st.browser (area_for remember))
    → let r = sign_in now answer remember st in
      (Failed r.1 × (r.0 ≡ st))
      ⊎ ((res : Created) × (answer ≡ ok (some res))
          × (let s : Session = record {
            token = res.token;
            expires_at = res.expires_at;
            remember = remember;
          } in
              IsLive now s → IsLive later s → value_of (get_session later r.0).1 ≡ some s))
unfolding sign_in
sign_in-get_session now later (ok none) remember st h = inl (tt, refl)
sign_in-get_session now later (thrown e) remember st h = inl (tt, refl)
sign_in-get_session now later aborted remember st h = inl (tt, refl)
sign_in-get_session now later (ok (some res)) remember st h =
    elim (Bool-cases (is_full res.token)) [
      | inr empty ↦ inl (rw empty (tt, refl))
      | inl full ↦ inr (
        res,
        refl,
        λ live live'. rw full (set_session-get_session now later _ signin st h live live').0,
      )
    ]

-- The preference that storage shows.
abbrev shown : Browser → Bool
shown b = is_one (read_storage b remember_key local)

remove_token-shown : (b : Browser) (a : StorageArea) → shown (remove_token b a) ≡ shown b
remove_token-shown b a =
    rw (read_storage-remove_token b a remember_key local) (no_test (same_area a local) b)
  where
    no_test :
        (t : Bool) (b : Browser)
        → is_one (if t && false then none else read_storage b remember_key local) ≡ shown b
    no_test true b = refl
    no_test false b = refl

swept-shown : (now : ℕ) (b : Browser) → shown (swept now b) ≡ shown b
unfolding swept
swept-shown now b = ground (
  arith,
  remove_token-shown b session,
  remove_token-shown b local,
  remove_token-shown (remove_token b session) local,
)

write_other-shown :
    (b : Browser) (k : String) (v : Option Text) (w : StorageArea)
    → (k == remember_key) ≡ false
    → shown (write_storage b k v w) ≡ shown b
write_other-shown b k v w h =
    rw (read_storage_other b k remember_key v w local (and_false (same_area w local) _ h))
  where
    and_false : (t u : Bool) → u ≡ false → (t && u) ≡ false
    and_false t u e = ground arith

-- Writing the shown preference keeps it, also where the write is refused.
write_choice-shown :
    (m : Bool) (b : Browser)
    → shown b ≡ m
    → shown (write_storage b remember_key (if m then some (codes "1") else none) local) ≡ m
write_choice-shown true b h =
    rw (read_storage-write_storage b remember_key remember_key (some (codes "1")) local local)
      (kept (takes (get_area b local) remember_key (some (codes "1"))))
  where
    kept :
        (t : Bool)
        → is_one (if t then some (codes "1") else read_storage b remember_key local) ≡ true
    kept true = refl
    kept false = h
write_choice-shown false b h = rw (read_storage_removed b remember_key remember_key local local)

store_session-shown :
    (s : Session) (b : Browser) → shown b ≡ s.remember → shown (store_session s b) ≡ s.remember
unfolding store_session
store_session-shown s b h = write_choice-shown s.remember _ (
    write_other-shown _ token_exp_key _ _ refl
    ∙ write_other-shown _ token_key _ _ refl
    ∙ remove_token-shown b _
    ∙ h)

set_session-shown :
    (now : ℕ) (s : Session) (reason : Reason) (st : Store)
    → shown st.browser ≡ s.remember
    → shown (set_session now s reason st).browser ≡ s.remember
unfolding set_session
set_session-shown now s reason st h =
    let st1 : Store = record st { browser = store_session s st.browser } in
    rw (get_session-browser now st1, swept-shown now (store_session s st.browser))
      (store_session-shown s st.browser h)

-- Signing in again after a password change keeps the "Stay signed in" choice, whatever the outcome
-- and whatever storage refuses, if nothing changed the choice during the request. When it fails,
-- no later read finds a session.
pub reauthenticate-remember :
    (now last : ℕ) (answer : Outcome (Option Created)) (meanwhile : Store → Store) (st : Store)
    → remember_preference (meanwhile st) ≡ remember_preference st
    → let r = reauthenticate now answer meanwhile st in
      (remember_preference r.0 ≡ remember_preference st)
      × (Failed r.1 → value_of (get_session last r.0).1 ≡ none)
unfolding reauthenticate remember_preference
reauthenticate-remember now last (ok none) meanwhile st h =
    let e = clear_session-get_session last expired (meanwhile st) in (e.2 ∙ h, λ z. e.0)
reauthenticate-remember now last (thrown error) meanwhile st h =
    let e = clear_session-get_session last expired (meanwhile st) in (e.2 ∙ h, λ z. e.0)
reauthenticate-remember now last aborted meanwhile st h =
    let e = clear_session-get_session last expired (meanwhile st) in (e.2 ∙ h, λ z. e.0)
reauthenticate-remember now last (ok (some res)) meanwhile st h =
    elim (Bool-cases (is_full res.token)) [
      | inr empty ↦
          let e = clear_session-get_session last expired (meanwhile st) in
          rw empty (e.2 ∙ h, λ z. e.0)
      | inl full ↦
          rw full (set_session-shown now _ password_changed (meanwhile st) h, λ z. absurd z)
    ]
