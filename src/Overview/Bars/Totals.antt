-- ===== src/Overview/Bars/Totals.antt =====
-- The bars of the sparklines lose no request, and the bars of the outcomes add up.
use kiro_reverse_api.Prelude.{
  ℕ, zero, suc, ◌+◌, ◌-◌, ◌≤◌, ◌<◌, ◌/◌, false, ◌≡◌, refl, List, [], ◌∷◌, arith, length, Bool-cases,
  inl, inr, ◌==◌, get_elem?, ltb,
}
use kiro_reverse_api.Overview.Bars.{
  value_at, sum_range, bar_before, bars_from, series_length, sum_bars, bar_minutes,
}

abbrev pub total : List ℕ → ℕ
total [] = 0
total (x ∷ xs) = x + total xs

-- The sum of the minutes before `end`, the empty ones of the padding included.
abbrev sum_before : List ℕ → ℕ → ℕ → ℕ
sum_before values missing end = sum_range values missing end 0

sum_range_split :
    (values : List ℕ) (missing a b i : ℕ)
    → sum_range values missing (a + b) i
      ≡ sum_range values missing a i + sum_range values missing b (i + a)
sum_range_split values missing zero b i =
    let e : i + 0 ≡ i = omega arith in let k : 0 + b ≡ b = omega arith in rw (k, e) (omega arith)
sum_range_split values missing (suc a) b i =
    let e : suc a + b ≡ suc (a + b) = omega arith in
    let k : i + suc a ≡ suc i + a = omega arith in
    rw (e, k) (omega (arith, sum_range_split values missing a b (suc i)))

sum_before_step :
    (values : List ℕ) (missing end : ℕ)
    → sum_before values missing end
      ≡ sum_before values missing (end - bar_minutes) + bar_before values missing end
sum_before_step values missing end =
    let start = end - bar_minutes in
    let e : start + (end - start) ≡ end = omega arith in
    let k : 0 + start ≡ start = omega arith in
    let h = sum_range_split values missing start (end - start) 0 in rw (e, k) at h

total-bars_from :
    (fuel : ℕ) (values : List ℕ) (missing end : ℕ) (bars : List ℕ)
    → end ≤ fuel
    → total (bars_from fuel values missing end bars) ≡ sum_before values missing end + total bars
total-bars_from zero values missing end bars h = let e : end ≡ 0 = omega arith in rw e (omega arith)
total-bars_from (suc fuel) values missing end bars h = elim (Bool-cases (end == 0)) [
  | inl e ↦ let z : end ≡ 0 = ground arith in rw z (omega arith)
  | inr e ↦
      let r =
        total-bars_from fuel values missing (end - bar_minutes)
          (bar_before values missing end ∷ bars) (ground arith) in
      rw e (omega (arith, r, sum_before_step values missing end))
]

length-bars_from :
    (fuel : ℕ) (values : List ℕ) (missing end : ℕ) (bars : List ℕ)
    → end ≤ fuel
    → length (bars_from fuel values missing end bars) ≡ (end + 1) / bar_minutes + length bars
length-bars_from zero values missing end bars h =
    let e : end ≡ 0 = omega arith in rw e (omega arith)
length-bars_from (suc fuel) values missing end bars h = elim (Bool-cases (end == 0)) [
  | inl e ↦ let z : end ≡ 0 = ground arith in rw z (omega arith)
  | inr e ↦
      let some_left : 0 < end = ground arith in
      rw e (
        omega (
          arith,
          some_left,
          length-bars_from fuel values missing (end - bar_minutes)
              (bar_before values missing end ∷ bars) (omega (arith, some_left, h)),
        ))
]

padding_empty :
    (values : List ℕ) (missing n i : ℕ) → i + n ≤ missing → sum_range values missing n i ≡ 0
padding_empty values missing zero i h = refl
padding_empty values missing (suc n) i h =
    let e : value_at values missing i ≡ 0 = ground arith in
    omega (arith, e, padding_empty values missing n (suc i) (omega (arith, h)))

values_summed :
    (xs values : List ℕ) (missing j : ℕ)
    → ((k : ℕ) → get_elem? values (j + k) ≡ get_elem? xs k)
    → sum_range values missing (length xs) (missing + j) ≡ total xs
values_summed [] values missing j h = refl
values_summed (x ∷ xs) values missing j h =
    let e : missing + j - missing ≡ j + 0 = omega arith in
    let t : ltb (missing + j) missing ≡ false = ground arith in
    let here : value_at values missing (missing + j) ≡ x = rw (t, e, h 0) refl in
    let s : suc (missing + j) ≡ missing + suc j = omega arith in
    let later =
      values_summed xs values missing (suc j)
        (λ k. let c : suc j + k ≡ j + suc k = omega arith in rw c (h (suc k))) in
    rw s (omega (arith, here, later))

pub total-sum_bars : (values : List ℕ) → total (sum_bars values) ≡ total values
unfolding sum_bars
total-sum_bars values =
    let len = series_length values in
    let missing = len - length values in
    let r = total-bars_from len values missing len [] (omega arith) in
    let e : missing + length values ≡ len = omega arith in
    let h = sum_range_split values missing missing (length values) 0 in
    let k : 0 + missing ≡ missing + 0 = omega arith in
    let v =
      values_summed values values missing 0 (λ k. let z : 0 + k ≡ k = omega arith in rw z refl) in
    let h' = rw (e, k) at h in
    omega (arith, r, h', v, padding_empty values missing missing 0 (omega arith))

pub length-sum_bars : (values : List ℕ) → length (sum_bars values) ≡ (series_length values + 1) / 2
unfolding sum_bars
length-sum_bars values =
    let len = series_length values in
    omega (arith, length-bars_from len values (len - length values) len [] (omega arith))
