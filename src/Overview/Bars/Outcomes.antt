-- ===== src/Overview/Bars/Outcomes.antt =====
-- The outcome bars add up: each bar of requests is the succeeded ones and the failed ones.
use kiro_reverse_api.Prelude.{
  ℕ, zero, suc, ◌+◌, ◌-◌, ◌≤◌, ◌≡◌, refl, List, [], ◌∷◌, arith, length, ap, Bool-cases, inl, inr,
  ◌==◌, get_elem?, or_else, ltb,
}
use kiro_reverse_api.Overview.Bars.{
  value_at, sum_range, bar_before, bars_from, series_length, sum_bars, failures_per_minute,
  succeeded_per_minute, outcome_bars, bar_minutes,
}
use kiro_reverse_api.Overview.Bars.Totals.{total, total-sum_bars, length-sum_bars}

-- Each count is the sum of the two at its place.
abbrev pub AddUp : List ℕ → List ℕ → List ℕ → Type 0
AddUp [] [] [] = Unit
AddUp (a ∷ ks) (b ∷ ls) (c ∷ ms) = (a ≡ b + c) × AddUp ks ls ms
AddUp [] [] (c ∷ ms) = ⊥
AddUp [] (b ∷ ls) ms = ⊥
AddUp (a ∷ ks) [] ms = ⊥
AddUp (a ∷ ks) (b ∷ ls) [] = ⊥

AddUp-length :
    (ks ls ms : List ℕ) → AddUp ks ls ms → (length ls ≡ length ks) × (length ms ≡ length ks)
AddUp-length [] [] [] h = (refl, refl)
AddUp-length (a ∷ ks) (b ∷ ls) (c ∷ ms) h =
    let r = AddUp-length ks ls ms h.1 in (ap suc r.0, ap suc r.1)
AddUp-length [] [] (c ∷ ms) h = elim h [ ]
AddUp-length [] (b ∷ ls) ms h = elim h [ ]
AddUp-length (a ∷ ks) [] ms h = elim h [ ]
AddUp-length (a ∷ ks) (b ∷ ls) [] h = elim h [ ]

AddUp-get_elem? :
    (ks ls ms : List ℕ) (i : ℕ)
    → AddUp ks ls ms
    → or_else (get_elem? ks i) 0 ≡ or_else (get_elem? ls i) 0 + or_else (get_elem? ms i) 0
AddUp-get_elem? [] [] [] i h = omega arith
AddUp-get_elem? (a ∷ ks) (b ∷ ls) (c ∷ ms) zero h = h.0
AddUp-get_elem? (a ∷ ks) (b ∷ ls) (c ∷ ms) (suc i) h = AddUp-get_elem? ks ls ms i h.1
AddUp-get_elem? [] [] (c ∷ ms) i h = elim h [ ]
AddUp-get_elem? [] (b ∷ ls) ms i h = elim h [ ]
AddUp-get_elem? (a ∷ ks) [] ms i h = elim h [ ]
AddUp-get_elem? (a ∷ ks) (b ∷ ls) [] i h = elim h [ ]

module _ (ks ls ms : List ℕ) (h : AddUp ks ls ms) (missing : ℕ) where
  value_at-AddUp : (i : ℕ) → value_at ks missing i ≡ value_at ls missing i + value_at ms missing i
  value_at-AddUp i = elim (Bool-cases (ltb i missing)) [
    | inl e ↦ rw e (omega arith)
    | inr e ↦ rw e (AddUp-get_elem? ks ls ms (i - missing) h)
  ]

  sum_range-AddUp :
      (n i : ℕ) → sum_range ks missing n i ≡ sum_range ls missing n i + sum_range ms missing n i
  sum_range-AddUp zero i = omega arith
  sum_range-AddUp (suc n) i = omega (arith, value_at-AddUp i, sum_range-AddUp n (suc i))

  bars_from-AddUp :
      (fuel end : ℕ) (xs ys zs : List ℕ)
      → AddUp xs ys zs
      → AddUp
          (bars_from fuel ks missing end xs)
          (bars_from fuel ls missing end ys)
          (bars_from fuel ms missing end zs)
  bars_from-AddUp zero end xs ys zs k = k
  bars_from-AddUp (suc fuel) end xs ys zs k = elim (Bool-cases (end == 0)) [
    | inl e ↦ rw e k
    | inr e ↦ rw e (
        bars_from-AddUp fuel (end - bar_minutes) (bar_before ks missing end ∷ xs)
          (bar_before ls missing end ∷ ys) (bar_before ms missing end ∷ zs)
          (sum_range-AddUp (end - (end - bar_minutes)) (end - bar_minutes), k))
  ]

sum_bars-AddUp :
    (ks ls ms : List ℕ) → AddUp ks ls ms → AddUp (sum_bars ks) (sum_bars ls) (sum_bars ms)
unfolding sum_bars
sum_bars-AddUp ks ls ms h =
    let (b, c) = AddUp-length ks ls ms h in
    rw (b, c)
      (bars_from-AddUp ks ls ms h (series_length ks - length ks) (series_length ks)
        (series_length ks) [] [] [] tt)

module _ {ℓ} {Rate : Type ℓ} (rounded : ℕ → Rate → ℕ) where
  minutes-AddUp :
      (rpm : List ℕ) (rates : List Rate)
      → let failed = failures_per_minute rounded rpm rates in
        AddUp rpm (succeeded_per_minute rpm failed) failed
  minutes-AddUp [] rates = tt
  minutes-AddUp (reqs ∷ rpm) [] = (omega arith, minutes-AddUp rpm [])
  minutes-AddUp (reqs ∷ rpm) (rate ∷ rates) = (omega arith, minutes-AddUp rpm rates)

  -- The three rows of bars of the KPI strip are equally many, at least 15, and every request of the
  -- series is in one bar. Each bar of requests is the sum of the succeeded and the failed ones,
  -- however the error rate is rounded, also where the series of rates is too short.
  pub outcome_bars-AddUp :
      (rpm : List ℕ) (rates : List Rate)
      → let bars = outcome_bars rounded rpm rates in
        (15 ≤ length bars.requests)
        × (total bars.requests ≡ total rpm)
        × AddUp bars.requests bars.succeeded bars.failed
  unfolding outcome_bars
  outcome_bars-AddUp rpm rates =
      let failed = failures_per_minute rounded rpm rates in
      (
        omega (arith, length-sum_bars rpm),
        total-sum_bars rpm,
        sum_bars-AddUp rpm (succeeded_per_minute rpm failed) failed (minutes-AddUp rpm rates),
      )
