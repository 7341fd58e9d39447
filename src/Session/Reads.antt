-- ===== src/Session/Reads.antt =====
-- What `readStored` finds, told from the contents of the two areas alone.
use Prim.Native.String.{String}
use text.Mathlib.Text.{◌==◌}
use kiro_reverse_api.Prelude.{
  ℕ, ◌≡◌, refl, Bool, true, false, not, ◌&&◌, ◌||◌, Option, none, some, is_some, if◌then◌else◌,
  arith, Bool-cases, Option-cases, inl, inr,
}
use kiro_reverse_api.Text.{Text, is_full}
use kiro_reverse_api.Storage.{StorageArea, local, session, Browser, read_storage, write_storage}
use kiro_reverse_api.Storage.Laws.{same_area, read_storage_removed}
use kiro_reverse_api.Session.{
  Session, Scan, token_key, token_exp_key, remove_token, expiry_of, is_over, is_local, scan_area,
  scan_rest, scan_areas,
}

-- A removed token is gone from its area, and nothing else is.
pub read_storage-remove_token :
    (b : Browser) (a : StorageArea) (j : String) (r : StorageArea)
    → read_storage (remove_token b a) j r ≡ (
        if same_area a r && (token_key == j || token_exp_key == j)
        then none
        else read_storage b j r)
unfolding remove_token
read_storage-remove_token b a j r = ground (
  arith,
  read_storage_removed (write_storage b token_key none a) token_exp_key j a r,
  read_storage_removed b token_key j a r,
)

-- The session that one area holds: its token is not empty and not over.
abbrev pub live_token : ℕ → StorageArea → Option Text → Option Text → Option Session
live_token now area none raw = none
live_token now area (some token) raw =
    if is_full token && not (is_over now (expiry_of raw))
    then some (record { token = token; expires_at = expiry_of raw; remember = is_local area })
    else none

unfoldable pub live_in : ℕ → Browser → StorageArea → Option Session
live_in now b area =
    live_token now area (read_storage b token_key area) (read_storage b token_exp_key area)

-- Whether an area holds a token that is over.
abbrev pub lapsed_token : ℕ → Option Text → Option Text → Bool
lapsed_token now none raw = false
lapsed_token now (some token) raw = is_full token && is_over now (expiry_of raw)

unfoldable pub lapsed_in : ℕ → Browser → StorageArea → Bool
lapsed_in now b area =
    lapsed_token now (read_storage b token_key area) (read_storage b token_exp_key area)

abbrev pub first_some : Option Session → Option Session → Option Session
first_some none b = b
first_some (some s) b = some s

first_some-none : (a : Option Session) → first_some a none ≡ a
first_some-none none = refl
first_some-none (some s) = refl

or_false : (b : Bool) → (b || false) ≡ b
or_false true = refl
or_false false = refl

-- One round of the loop drops a token that is over and finds one that is not.
pub scan_area_lem :
    (now : ℕ) (area : StorageArea) (s : Scan)
    → scan_area now area s ≡ record {
      browser = if lapsed_in now s.browser area then remove_token s.browser area else s.browser;
      dropped = s.dropped || lapsed_in now s.browser area;
      found = first_some (live_in now s.browser area) s.found;
    }
unfolding scan_area live_in lapsed_in
scan_area_lem now area s = ground arith

local_reads :
    (now : ℕ) (b : Browser)
    → (live_in now (remove_token b session) local ≡ live_in now b local)
      × (lapsed_in now (remove_token b session) local ≡ lapsed_in now b local)
unfolding live_in lapsed_in
local_reads now b =
    let t = read_storage-remove_token b session token_key local in
    let x = read_storage-remove_token b session token_exp_key local in (rw (t, x), rw (t, x))

-- What the loop leaves in the browser: a token that is over is removed from sessionStorage, and
-- one in localStorage only if sessionStorage has no session.
unfoldable pub swept : ℕ → Browser → Browser
swept now b =
    let first = if lapsed_in now b session then remove_token b session else b in
    if not (is_some (live_in now b session)) && lapsed_in now b local
    then remove_token first local
    else first

unfoldable pub lapsed_any : ℕ → Browser → Bool
lapsed_any now b =
    lapsed_in now b session || (not (is_some (live_in now b session)) && lapsed_in now b local)

-- The whole loop: sessionStorage before localStorage, and localStorage is not looked at when the
-- first has a session.
pub scan_areas_lem :
    (now : ℕ) (b : Browser)
    → scan_areas now b ≡ record {
      browser = swept now b;
      dropped = lapsed_any now b;
      found = first_some (live_in now b session) (live_in now b local);
    }
unfolding scan_areas scan_rest swept lapsed_any
scan_areas_lem now b =
    let (live, lapsed) = local_reads now b in
    elim (Option-cases (live_in now b session)) [
      | inl none_live ↦ elim (Bool-cases (lapsed_in now b session)) [
        | inl over ↦ simp (scan_area_lem, none_live, over, live, lapsed, first_some-none)
        | inr fine ↦ simp (scan_area_lem, none_live, fine, first_some-none)
      ]
      | inr (s, found) ↦ simp (scan_area_lem, found, or_false)
    ]

live_in-remove_token :
    (now : ℕ) (b : Browser) (a r : StorageArea)
    → live_in now (remove_token b a) r ≡ (if same_area a r then none else live_in now b r)
unfolding live_in
live_in-remove_token now b a r = ground (
  arith,
  read_storage-remove_token b a token_key r,
  read_storage-remove_token b a token_exp_key r,
)

lapsed_in-remove_token :
    (now : ℕ) (b : Browser) (a r : StorageArea)
    → lapsed_in now (remove_token b a) r ≡ (if same_area a r then false else lapsed_in now b r)
unfolding lapsed_in
lapsed_in-remove_token now b a r = ground (
  arith,
  read_storage-remove_token b a token_key r,
  read_storage-remove_token b a token_exp_key r,
)

-- No token is both over and not.
live_of_lapsed :
    (now : ℕ) (b : Browser) (a : StorageArea) → lapsed_in now b a ≡ true → live_in now b a ≡ none
unfolding live_in lapsed_in
live_of_lapsed now b a h = ground arith

-- After the loop the areas hold the same sessions, and no token that the loop would drop.
pub swept_clean :
    (now : ℕ) (b : Browser)
    → (first_some (live_in now (swept now b) session) (live_in now (swept now b) local)
        ≡ first_some (live_in now b session) (live_in now b local))
      × (lapsed_any now (swept now b) ≡ false)
unfolding swept lapsed_any
swept_clean now b = ground (
  arith,
  live_of_lapsed now b session,
  live_of_lapsed now b local,
  live_in-remove_token now b session session,
  live_in-remove_token now b session local,
  live_in-remove_token now b local session,
  live_in-remove_token now b local local,
  live_in-remove_token now (remove_token b session) local session,
  live_in-remove_token now (remove_token b session) local local,
  lapsed_in-remove_token now b session session,
  lapsed_in-remove_token now b session local,
  lapsed_in-remove_token now b local session,
  lapsed_in-remove_token now b local local,
  lapsed_in-remove_token now (remove_token b session) local session,
  lapsed_in-remove_token now (remove_token b session) local local,
)

or_false_parts : (a b : Bool) → (a || b) ≡ false → (a ≡ false) × (b ≡ false)
or_false_parts a b h = ground arith

pub swept_of_clean : (now : ℕ) (b : Browser) → lapsed_any now b ≡ false → swept now b ≡ b
unfolding swept lapsed_any
swept_of_clean now b h =
    let (first, second) = or_false_parts (lapsed_in now b session) _ h in rw (second, first)
