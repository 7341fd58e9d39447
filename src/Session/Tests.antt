-- ===== src/Session/Tests.antt =====
-- Runs of the session store, and its theorems at concrete states.
use kiro_reverse_api.Prelude.{
  ℕ, suc, ◌≤◌, ◌≡◌, refl, inl, inr, true, false, [], ◌∷◌, none, some, arith,
}
use kiro_reverse_api.Prelude.Int.{pos}
use kiro_reverse_api.Text.{codes}
use kiro_reverse_api.Text.Trim.{trim_start}
use kiro_reverse_api.Text.Decimal.{print_ℤ, parse_int}
use kiro_reverse_api.Storage.{Area, read_storage, write_storage, get_area}
use kiro_reverse_api.Session.{
  Session, Store, Handle, signin, get_session, set_session, clear_session, value_of, remove_token,
  settle, read_stored, scan_rest, scan_area,
}
use kiro_reverse_api.Session.Expiry.{IsLive, get_session-IsLive, get_session_again}
use kiro_reverse_api.Session.Changes.{set_session-get_session}
use kiro_reverse_api.Session.Closing.{set_session-expires}
use kiro_reverse_api.Session.Single.{HasOne, here, next, sets, Reach-HasOne}

-- All that a run of the store computes with.
unfoldable pub session_runs : Unit {0}
unfolding get_session set_session clear_session read_storage write_storage parse_int print_ℤ
    trim_start remove_token settle read_stored scan_rest scan_area
session_runs = tt

abbrev pub open_area : Area
open_area = record { items = []; available = true; accepts = λ items k v. true }

-- Private mode: the accessor throws.
abbrev closed_area : Area
closed_area = record { items = []; available = false; accepts = λ items k v. false }

abbrev pub empty_store : Store
empty_store = record {
  browser = record { local_area = open_area; session_area = open_area };
  listeners = 4 ∷ 5 ∷ [];
  snapshot = none;
  queued = 0;
  fresh = 0;
  notices = [];
}

abbrev pub remembered : Session
remembered = record { token = codes "abc"; expires_at = pos 100; remember = true }

abbrev pub signed_in : Store
signed_in = set_session 7 remembered signin empty_store

abbrev handle : Handle
handle = record { ref = 0; value = remembered }

signed_in_reads : (get_session 99 signed_in).1 ≡ some handle
unfolding session_runs
signed_in_reads = refl

signed_in_ends : (get_session 100 signed_in).1 ≡ none
unfolding session_runs
signed_in_ends = refl

-- In private mode a sign-in is not kept.
blocked :
    value_of
      (get_session 8 (
        set_session 7 remembered signin (record empty_store {
          browser = record { local_area = closed_area; session_area = open_area };
        }))).1
    ≡ none
unfolding session_runs
blocked = refl

get_session-IsLive_example : IsLive 99 remembered
get_session-IsLive_example = get_session-IsLive 99 signed_in handle signed_in_reads

get_session_again_example :
    get_session 100 (get_session 100 signed_in).0 ≡ get_session 100 signed_in
get_session_again_example = get_session_again 100 signed_in

remembered-IsLive : (now : ℕ) → suc now ≤ 100 → IsLive now remembered
remembered-IsLive now h = (λ e. absurd (cc), inr (100, refl, h))

set_session-get_session_example :
    value_of (get_session 99 (set_session 7 remembered signin empty_store)).1 ≡ some remembered
unfolding get_area
set_session-get_session_example =
    (set_session-get_session 7 99 remembered signin empty_store (refl, λ items k v. refl)
      (remembered-IsLive 7 (omega arith)) (remembered-IsLive 99 (omega arith))).0

set_session-expires_example :
    value_of (get_session 250 (set_session 7 remembered signin empty_store)).1 ≡ none
unfolding get_area
set_session-expires_example =
    (set_session-expires 7 250 100 remembered signin empty_store (refl, λ items k v. refl)
      (λ e. absurd (cc)) refl (omega arith) (omega arith)).0

Reach-HasOne_example : HasOne signed_in.browser
Reach-HasOne_example =
    Reach-HasOne {st = empty_store} (inl (unfold session_runs in refl))
      (next here (sets 7 remembered signin empty_store))
