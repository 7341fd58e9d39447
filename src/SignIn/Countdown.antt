-- ===== src/SignIn/Countdown.antt =====
-- ui/src/features/auth/rate-limit.ts: how long the login form waits after a 429. Times are
-- milliseconds, and a tick is one of the interval that the last start has set.
pub mod Shown
mod Tests
use kiro_reverse_api.Prelude.{
  ℕ, zero, suc, ◌+◌, ◌-◌, ◌*◌, ◌/◌, ◌≤◌, ◌<◌, ◌≡◌, ◌↔◌, refl, List, [], ◌∷◌, Option, none, some,
  if◌then◌else◌, leb, arith, Bool-cases, inl, inr, leb→le, le→leb, tests, true, false,
}
use kiro_reverse_api.Prelude.Int.{ℤ, pos, negsuc}

abbrev pub default_retry_seconds : ℕ
default_retry_seconds = 60

-- `parseRetryAfter` gives whole numbers only, so `Math.ceil` leaves one as it is.
unfoldable pub retry_seconds : Option ℤ → ℕ
retry_seconds none = default_retry_seconds
retry_seconds (some (pos zero)) = default_retry_seconds
retry_seconds (some (pos (suc n))) = suc n
retry_seconds (some (negsuc n)) = default_retry_seconds

unfoldable pub remaining_seconds : ℕ → ℕ → ℕ
remaining_seconds until now = (until - now + 999) / 1000

-- The state of `useRetryCountdown`; the interval runs while `until` is there.
pub record Countdown : Type 0 where
  pub until : Option ℕ
  pub now : ℕ

unfoldable pub start_countdown : ℕ → ℕ → Countdown → Countdown
start_countdown seconds current st = record {
  until = some (current + seconds * 1000);
  now = current;
}

abbrev pub still_until : ℕ → ℕ → Option ℕ
still_until until current = if leb until current then none else some until

-- The callback of the interval
unfoldable pub tick : ℕ → Countdown → Countdown
tick current st = on_tick st.until
  where
    on_tick : Option ℕ → Countdown
    on_tick none = st
    on_tick (some until) = record { until = still_until until current; now = current }

abbrev pub tick_all : List ℕ → Countdown → Countdown
tick_all [] st = st
tick_all (t ∷ ts) st = tick_all ts (tick t st)

-- The `seconds` that the hook returns.
unfoldable pub shown_seconds : Countdown → ℕ
unfolding remaining_seconds
shown_seconds st = shown st.until
  where
    shown : Option ℕ → ℕ
    shown none = 0
    shown (some until) = remaining_seconds until st.now
