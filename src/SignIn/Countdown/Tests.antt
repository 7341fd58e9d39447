-- ===== src/SignIn/Countdown/Tests.antt =====
-- A wait of two seconds after a 429 (ui/src/features/auth/rate-limit.ts).
use kiro_reverse_api.Prelude.{
  ℕ, ◌+◌, ◌-◌, ◌*◌, ◌≤◌, ◌<◌, ◌≡◌, refl, List, [], ◌∷◌, none, some, arith,
}
use kiro_reverse_api.Prelude.Int.{pos, negsuc}
use kiro_reverse_api.SignIn.Countdown.{
  Countdown, retry_seconds, start_countdown, tick, tick_all, shown_seconds, remaining_seconds,
}
use kiro_reverse_api.SignIn.Countdown.Shown.{last_time, countdown_shows}

abbrev idle : Countdown
idle = record { until = none; now = 0 }

abbrev ticks : List ℕ
ticks = 5250 ∷ 6000 ∷ 6750 ∷ 7000 ∷ 7250 ∷ []

waits :
    (retry_seconds (some (pos 2)) ≡ 2)
    × (retry_seconds (some (negsuc 0)) ≡ 60)
    × (shown_seconds (tick_all (5250 ∷ []) (start_countdown 2 5000 idle)) ≡ 2)
    × (shown_seconds (tick_all (5250 ∷ 6001 ∷ []) (start_countdown 2 5000 idle)) ≡ 1)
    × (shown_seconds (tick_all ticks (start_countdown 2 5000 idle)) ≡ 0)
unfolding retry_seconds shown_seconds start_countdown tick remaining_seconds
waits = (refl, refl, refl, refl, refl)

countdown_shows_example :
    let shown = shown_seconds (tick_all ticks (start_countdown 2 5000 idle)) in
    let left = 5000 + 2 * 1000 - last_time 5000 ticks in
    (shown ≤ 2) × (left ≤ shown * 1000) × (shown * 1000 < left + 1000)
countdown_shows_example =
    countdown_shows 2 5000 ticks idle
      (omega arith, (omega arith, (omega arith, (omega arith, (omega arith, tt)))))
