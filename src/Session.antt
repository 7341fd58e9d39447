-- ===== src/Session.antt =====
-- ui/src/lib/auth/session.ts: the admin session kept in Web Storage, its cached snapshot and its
-- listeners. `now` is `Date.now()` at the read.
pub mod Reads
pub mod Expiry
pub mod Changes
pub mod Closing
pub mod Single
pub mod Tests
use Prim.Native.String.{String}
use kiro_reverse_api.Prelude.{
  ℕ, zero, suc, Bool, true, false, not, ◌&&◌, ◌||◌, List, [], ◌∷◌, ◌++◌, map, Option, none, some,
  or_else, is_some, if◌then◌else◌, ◌==◌,
}
use kiro_reverse_api.Prelude.Int.{ℤ, pos, is_zero, leb_ℤ_ℕ, eq_ℤ}
use kiro_reverse_api.Text.{Text, codes, text_eq, is_full}
use kiro_reverse_api.Text.Decimal.{print_ℤ, parse_int}
use kiro_reverse_api.Storage.{StorageArea, local, session, Browser, read_storage, write_storage}

-- `expires_at` is in ms since the epoch; 0 means that no expiry is recorded.
pub record Session : Type 0 where
  pub token : Text
  pub expires_at : ℤ
  pub remember : Bool

pub data Reason : Type 0 where
  signin signout expired restored password_changed : Reason

abbrev pub token_key : String
token_key = "kiro_admin_token"

abbrev pub token_exp_key : String
token_exp_key = "kiro_admin_token_exp"

abbrev pub remember_key : String
remember_key = "kiro_remember"

-- A session object with its identity: two reads that hand out the same object have the same `ref`.
pub record Handle : Type 0 where
  pub ref : ℕ
  pub value : Session

-- One call of a listener.
pub record Notice : Type 0 where
  pub listener : ℕ
  pub news : Option Session
  pub reason : Reason

-- `queued` counts the microtasks that will report an expiry, `fresh` is the next object identity,
-- and `notices` are the calls made so far, the oldest first.
pub record Store : Type 0 where
  pub browser : Browser
  pub listeners : List ℕ
  pub snapshot : Option Handle
  pub queued : ℕ
  pub fresh : ℕ
  pub notices : List Notice

unfoldable pub notices_for : Option Session → Reason → List ℕ → List Notice
notices_for news reason [] = []
notices_for news reason (l ∷ ls) =
    record { listener = l; news = news; reason = reason } ∷ notices_for news reason ls

unfoldable pub notify : Option Session → Reason → Store → Store
unfolding notices_for
notify news reason st = record st { notices = st.notices ++ notices_for news reason st.listeners }

unfoldable pub remove_token : Browser → StorageArea → Browser
remove_token b area = write_storage (write_storage b token_key none area) token_exp_key none area

-- `Number.parseInt(raw ?? "0", 10) || 0`
abbrev pub expiry_of : Option Text → ℤ
expiry_of raw = or_else (parse_int (or_else raw (codes "0"))) (pos 0)

-- `expiresAt && Date.now() >= expiresAt`
abbrev pub is_over : ℕ → ℤ → Bool
is_over now expires_at = not (is_zero expires_at) && leb_ℤ_ℕ expires_at now

abbrev pub is_local : StorageArea → Bool
is_local local = true
is_local session = false

-- The variables of the loop in `readStored`.
pub record Scan : Type 0 where
  pub browser : Browser
  pub dropped : Bool
  pub found : Option Session

-- One round of the loop, with what `getItem` gave for the token.
unfoldable pub scan_token : ℕ → StorageArea → Scan → Option Text → Scan
scan_token now area s none = s
scan_token now area s (some token) =
    let expires_at = expiry_of (read_storage s.browser token_exp_key area) in
    if not (is_full token)
    then s
    else if is_over now expires_at
    then record s { browser = remove_token s.browser area; dropped = true }
    else record s {
      found = some (record { token = token; expires_at = expires_at; remember = is_local area });
    }

unfoldable pub scan_area : ℕ → StorageArea → Scan → Scan
unfolding scan_token
scan_area now area s = scan_token now area s (read_storage s.browser token_key area)

-- The rest of the loop runs only if the round before found nothing (`break`).
unfoldable pub scan_rest : ℕ → Scan → Option Session → Scan
scan_rest now s (some found) = s
scan_rest now s none = scan_area now local s

unfoldable pub scan_areas : ℕ → Browser → Scan
scan_areas now b =
    let first = scan_area now session (record { browser = b; dropped = false; found = none }) in
    scan_rest now first first.found

unfoldable pub after_scan : Store → Scan → Store
after_scan st s = record st {
  browser = s.browser;
  queued = if s.dropped && not (is_some s.found) then suc st.queued else st.queued;
}

-- `readStored`: the state after it, and what it found.
unfoldable pub read_stored : ℕ → Store → Store × Option Session
unfolding scan_areas after_scan
read_stored now st = let s = scan_areas now st.browser in (after_scan st s, s.found)

-- The `queued` microtasks, one of which runs.
report_expiry : ℕ → Store → Store
unfolding notify
report_expiry zero st = st
report_expiry (suc n) st = notify none expired (record st { queued = n })

-- The microtask that `readStored` queued.
unfoldable pub run_microtask : Store → Store
unfolding report_expiry
run_microtask st = report_expiry st.queued st

abbrev pub same_flag : Bool → Bool → Bool
same_flag true c = c
same_flag false c = not c

abbrev pub same_session : Session → Session → Bool
same_session a b =
    text_eq a.token b.token && eq_ℤ a.expires_at b.expires_at && same_flag a.remember b.remember

-- The new object becomes the snapshot.
unfoldable pub hand_out : Store → Session → Store × Option Handle
hand_out st next =
    let h : Handle = record { ref = st.fresh; value = next } in
    (record st { snapshot = some h; fresh = suc st.fresh }, some h)

-- The snapshot is kept when the read gave an equal session.
unfoldable pub settle : Store → Option Session → Option Handle → Store × Option Handle
unfolding hand_out
settle st none old = (record st { snapshot = none }, none)
settle st (some next) none = hand_out st next
settle st (some next) (some old) =
    if same_session next old.value then (st, some old) else hand_out st next

unfoldable pub get_session : ℕ → Store → Store × Option Handle
get_session now st = let (st', next) = read_stored now st in settle st' next st'.snapshot

abbrev pub token_of : Option Handle → Option Text
token_of none = none
token_of (some h) = some h.value.token

unfoldable pub get_token : ℕ → Store → Store × Option Text
get_token now st = let (st', h) = get_session now st in (st', token_of h)

unfoldable pub is_authenticated : ℕ → Store → Store × Bool
is_authenticated now st = let (st', h) = get_session now st in (st', is_some h)

abbrev pub is_one : Option Text → Bool
is_one none = false
is_one (some s) = text_eq s (codes "1")

-- The "Stay signed in" choice of the last sign-in.
unfoldable pub remember_preference : Store → Bool
remember_preference st = is_one (read_storage st.browser remember_key local)

abbrev pub area_for : Bool → StorageArea
area_for true = local
area_for false = session

abbrev pub value_of : Option Handle → Option Session
value_of none = none
value_of (some h) = some h.value

-- The writes of `setSession`.
unfoldable pub store_session : Session → Browser → Browser
store_session s b0 =
    let area = area_for s.remember in
    let b1 = remove_token b0 (area_for (not s.remember)) in
    let b2 = write_storage b1 token_key (some s.token) area in
    let b3 = write_storage b2 token_exp_key (some (print_ℤ s.expires_at)) area in
    write_storage b3 remember_key (if s.remember then some (codes "1") else none) local

unfoldable pub set_session : ℕ → Session → Reason → Store → Store
unfolding store_session notify
set_session now s reason st =
    let (st', h) = get_session now (record st { browser = store_session s st.browser }) in
    notify (value_of h) reason st'

unfoldable pub clear_session : Reason → Store → Store
unfolding notify
clear_session reason st =
    notify none reason (record st {
      browser = remove_token (remove_token st.browser session) local;
      snapshot = none;
    })

abbrev has_listener : ℕ → List ℕ → Bool
has_listener l [] = false
has_listener l (m ∷ ms) = m == l || has_listener l ms

abbrev drop_listener : ℕ → List ℕ → List ℕ
drop_listener l [] = []
drop_listener l (m ∷ ms) = if m == l then drop_listener l ms else m ∷ drop_listener l ms

-- `listeners` is a set, in the order of insertion.
unfoldable pub subscribe_session : ℕ → Store → Store
subscribe_session l st =
    if has_listener l st.listeners then st else record st { listeners = st.listeners ++ l ∷ [] }

-- The function that `subscribeSession` returns.
unfoldable pub unsubscribe_session : ℕ → Store → Store
unsubscribe_session l st = record st { listeners = drop_listener l st.listeners }
