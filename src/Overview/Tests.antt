-- ===== src/Overview/Tests.antt =====
-- The traffic chart on concrete cells.
use kiro_reverse_api.Prelude.{
  ◌≡◌, refl, List, [], ◌∷◌, some, none, map, ℕ, ◌*◌, ◌/◌, ◌≤◌, drop, length,
}
use kiro_reverse_api.Prelude.Int.{ℤ, pos, negsuc, minus_ℕ}
use kiro_reverse_api.Overview.{
  HeatmapCell, TrafficPoint, bucket_global, with_previous_window, peak_count, hour_delta,
  window_cells, busy_accounts,
}
use kiro_reverse_api.Overview.Buckets.{
  bucket_global_totals, total_succeeded, span_sum, succeeded_of,
}
use kiro_reverse_api.Overview.Bars.{sum_bars, outcome_bars}
use kiro_reverse_api.Overview.Bars.Totals.{total}
use kiro_reverse_api.Overview.Bars.Outcomes.{AddUp, outcome_bars-AddUp}
use kiro_reverse_api.Overview.Merge.{merge_cells, cells_total, reqs_of, failures_in, retries_of}
use kiro_reverse_api.Overview.Merge.Groups.{AreGroups, merge_cells_totals}
use kiro_reverse_api.Overview.Slices.{ModelMixEntry, ModelSlice, model_slices}

abbrev cell_at : ℤ → ℕ → ℕ → HeatmapCell
cell_at offset reqs failures = record {
  offset = offset;
  reqs = reqs;
  failures = failures;
  retries = none;
}

-- Two cells of the newest bucket, one of the oldest, one past the window and one in the future.
abbrev cells : List HeatmapCell
cells =
    cell_at (pos 0) 5 1
    ∷ cell_at (pos 1) 2 0
    ∷ cell_at (pos 5) 3 3
    ∷ cell_at (pos 6) 9 0
    ∷ cell_at (negsuc 0) 9 9
    ∷ []

abbrev successes : List TrafficPoint → List ℕ
successes points = map (λ (p : TrafficPoint). p.succeeded) points

buckets : successes (bucket_global cells 1000 2 6) ≡ 0 ∷ 0 ∷ 6 ∷ []
unfolding bucket_global minus_ℕ
buckets = refl

compared :
    map (λ (p : TrafficPoint). p.previous) (with_previous_window cells 1000 2 6)
    ≡ some 0 ∷ some 0 ∷ some 9 ∷ []
unfolding with_previous_window bucket_global minus_ℕ
compared = refl

peak : peak_count (with_previous_window cells 1000 2 6) ≡ 9
unfolding peak_count with_previous_window bucket_global minus_ℕ
peak = refl

hours : hour_delta (λ (c : HeatmapCell). c.reqs) (cell_at (pos 60) 4 0 ∷ cells) ≡ (19, 4)
unfolding hour_delta
hours = refl

filled : map (λ (c : HeatmapCell). c.reqs) (window_cells cells 3) ≡ 0 ∷ 2 ∷ 5 ∷ []
unfolding window_cells
filled = refl

busy :
    busy_accounts ((cell_at (pos 4) 0 0 ∷ []) ∷ cells ∷ (cell_at (pos 90) 1 0 ∷ []) ∷ []) 60 5
    ≡ cells ∷ []
unfolding busy_accounts
busy = refl

bucket_global_totals_example :
    total_succeeded (bucket_global cells 1000 2 5) ≡ span_sum succeeded_of 6 cells
bucket_global_totals_example = (bucket_global_totals cells 1000 2 5).3

-- Three minutes: the last bar holds the newest two, and the one before the oldest.
bars : drop 12 (sum_bars (4 ∷ 1 ∷ 2 ∷ [])) ≡ 0 ∷ 4 ∷ 3 ∷ []
unfolding sum_bars
bars = refl

-- A rate in percent, rounded down here.
abbrev percent_of : ℕ → ℕ → ℕ
percent_of reqs rate = reqs * rate / 100

abbrev three_minutes : List ℕ
three_minutes = 4 ∷ 10 ∷ 2 ∷ []

outcome_bars-AddUp_example :
    let bars = outcome_bars percent_of three_minutes (50 ∷ 30 ∷ []) in
    (15 ≤ length bars.requests)
    × (total bars.requests ≡ 16)
    × AddUp bars.requests bars.succeeded bars.failed
outcome_bars-AddUp_example = outcome_bars-AddUp percent_of three_minutes (50 ∷ 30 ∷ [])

merged : map (λ (c : HeatmapCell). c.reqs) (merge_cells cells 2) ≡ 5 ∷ 5 ∷ 18 ∷ []
unfolding merge_cells
merged = refl

merge_cells_totals_example :
    let merged = merge_cells cells 2 in
    (cells_total reqs_of merged ≡ 28)
    × (cells_total failures_in merged ≡ 13)
    × (cells_total retries_of merged ≡ 0)
    × AreGroups 5 2 (length merged)
merge_cells_totals_example = merge_cells_totals cells 2

abbrev used : ℕ → ℕ → ModelMixEntry
used reqs credits = record { model = []; reqs = reqs; credits = credits }

slices :
    map
      (λ (s : ModelSlice). s.value)
      (model_slices (used 9 1 ∷ used 1 5 ∷ used 0 3 ∷ []) 1 []).slices
    ≡ 5 ∷ 4 ∷ []
unfolding model_slices minus_ℕ
slices = refl
