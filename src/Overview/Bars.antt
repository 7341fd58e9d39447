-- ===== src/Overview/Bars.antt =====
-- ui/src/features/overview/aggregate.ts: the bars of the sparklines, from the series of the last half
-- hour. A bar is known by its value.
pub mod Totals
pub mod Outcomes
use kiro_reverse_api.Prelude.{
  ℕ, zero, suc, ◌+◌, ◌-◌, max, min, List, [], ◌∷◌, Option, none, some, or_else, if◌then◌else◌, ltb,
  ◌==◌, get_elem?, length,
}

abbrev pub series_minutes : ℕ
series_minutes = 30

abbrev pub bar_minutes : ℕ
bar_minutes = 2

-- `values[index - missing] ?? 0`
abbrev pub value_at : List ℕ → ℕ → ℕ → ℕ
value_at values missing index =
    if ltb index missing then 0 else or_else (get_elem? values (index - missing)) 0

-- The inner loop: the sum of `n` minutes from `index` on.
abbrev pub sum_range : List ℕ → ℕ → ℕ → ℕ → ℕ
sum_range values missing zero index = 0
sum_range values missing (suc n) index =
    value_at values missing index + sum_range values missing n (suc index)

abbrev pub bar_before : List ℕ → ℕ → ℕ → ℕ
bar_before values missing end =
    sum_range values missing (end - (end - bar_minutes)) (end - bar_minutes)

-- The outer loop, on fuel: `end` falls in each round.
abbrev pub bars_from : ℕ → List ℕ → ℕ → ℕ → List ℕ → List ℕ
bars_from zero values missing end bars = bars
bars_from (suc fuel) values missing end bars =
    let rest =
      bars_from fuel values missing (end - bar_minutes) (bar_before values missing end ∷ bars) in
    if end == 0 then bars else rest

abbrev pub series_length : List ℕ → ℕ
series_length values = max (length values) series_minutes

unfoldable pub sum_bars : List ℕ → List ℕ
sum_bars values =
    bars_from (series_length values) values (series_length values - length values)
      (series_length values) []

-- `rounded` is `Math.round(reqs * rate)`, of a count and an error rate.
module _ {ℓ} {Rate : Type ℓ} (rounded : ℕ → Rate → ℕ) where
  abbrev pub failures_of : ℕ → Option Rate → ℕ
  failures_of reqs none = min reqs 0
  failures_of reqs (some rate) = min reqs (rounded reqs rate)

  abbrev pub failures_per_minute : List ℕ → List Rate → List ℕ
  failures_per_minute [] rates = []
  failures_per_minute (reqs ∷ rpm) [] = failures_of reqs none ∷ failures_per_minute rpm []
  failures_per_minute (reqs ∷ rpm) (rate ∷ rates) =
      failures_of reqs (some rate) ∷ failures_per_minute rpm rates

-- `rpm.map((reqs, index) => Math.max(0, reqs - failed[index]))`
abbrev pub succeeded_per_minute : List ℕ → List ℕ → List ℕ
succeeded_per_minute [] failed = []
succeeded_per_minute (reqs ∷ rpm) [] = reqs ∷ succeeded_per_minute rpm []
succeeded_per_minute (reqs ∷ rpm) (f ∷ failed) = (reqs - f) ∷ succeeded_per_minute rpm failed

pub record OutcomeBars : Type 0 where
  pub requests : List ℕ
  pub succeeded : List ℕ
  pub failed : List ℕ

unfoldable pub outcome_bars {ℓ} :
    {Rate : Type ℓ} → (ℕ → Rate → ℕ) → List ℕ → List Rate → OutcomeBars
unfolding sum_bars
outcome_bars rounded rpm rates =
    let failed = failures_per_minute rounded rpm rates in
    record {
      requests = sum_bars rpm;
      succeeded = sum_bars (succeeded_per_minute rpm failed);
      failed = sum_bars failed;
    }
