-- ===== src/SignIn/Countdown/Shown.antt =====
-- What the countdown of ui/src/features/auth/rate-limit.ts shows while it ticks.
use kiro_reverse_api.Prelude.{
  ℕ, ◌+◌, ◌-◌, ◌*◌, ◌≤◌, ◌<◌, ◌≡◌, ◌∙◌, sym, ap, refl, Bool, if◌then◌else◌, List, [], ◌∷◌, none,
  some, leb, arith, Bool-cases, inl, inr, leb→le,
}
use kiro_reverse_api.SignIn.Countdown.{
  Countdown, remaining_seconds, start_countdown, tick, tick_all, shown_seconds,
}

-- The times of the ticks, from this one on, do not fall.
abbrev pub InOrder : ℕ → List ℕ → Type 0
InOrder t [] = Unit
InOrder t (u ∷ us) = (t ≤ u) × InOrder u us

abbrev pub last_time : ℕ → List ℕ → ℕ
last_time t [] = t
last_time t (u ∷ us) = last_time u us

last_time-after : (t : ℕ) (ts : List ℕ) → InOrder t ts → t ≤ last_time t ts
last_time-after t [] h = omega arith
last_time-after t (u ∷ us) h = omega (arith, h.0, last_time-after u us h.1)

stopped :
    (ts : List ℕ) (now : ℕ) → shown_seconds (tick_all ts (record { until = none; now = now })) ≡ 0
unfolding shown_seconds tick
stopped [] now = refl
stopped (t ∷ ts) now = stopped ts now

over : (until now : ℕ) → until ≤ now → remaining_seconds until now ≡ 0
unfolding remaining_seconds
over until now h = omega (arith, h)

ticks_show :
    (ts : List ℕ) (until now : ℕ)
    → InOrder now ts
    → shown_seconds (tick_all ts (record { until = some until; now = now }))
      ≡ remaining_seconds until (last_time now ts)
unfolding shown_seconds tick
ticks_show [] until now h = refl
ticks_show (t ∷ ts) until now h =
    let shows : Bool → ℕ = λ b.
      shown_seconds (tick_all ts (record { until = if b then none else some until; now = t })) in
    elim (Bool-cases (leb until t)) [
      | inl e ↦
          let late : until ≤ last_time t ts =
            omega (arith, leb→le until t e, last_time-after t ts h.1) in
          ap shows e ∙ stopped ts t ∙ sym (over until (last_time t ts) late)
      | inr e ↦ ap shows e ∙ ticks_show ts until t h.1
    ]

-- The whole seconds left are the milliseconds left, rounded up.
remaining_bounds :
    (until now seconds : ℕ)
    → until ≤ now + seconds * 1000
    → (remaining_seconds until now ≤ seconds)
      × (until - now ≤ remaining_seconds until now * 1000)
      × (remaining_seconds until now * 1000 < until - now + 1000)
unfolding remaining_seconds
remaining_bounds until now seconds h = (omega (arith, h), omega arith, omega arith)

-- After a start and any ticks, in the order of their times, the countdown shows the seconds from the
-- last tick to the end, rounded up: also where the interval has stopped itself, and never more than
-- it started with.
pub countdown_shows :
    (seconds current : ℕ) (ticks : List ℕ) (st : Countdown)
    → InOrder current ticks
    → let shown = shown_seconds (tick_all ticks (start_countdown seconds current st)) in
      let left = current + seconds * 1000 - last_time current ticks in
      (shown ≤ seconds) × (left ≤ shown * 1000) × (shown * 1000 < left + 1000)
unfolding start_countdown
countdown_shows seconds current ticks st h =
    let last = last_time current ticks in
    rw (ticks_show ticks (current + seconds * 1000) current h) (
      remaining_bounds (current + seconds * 1000) last seconds
        (omega (arith, last_time-after current ticks h)))
