-- ===== src/Overview.antt =====
-- ui/src/features/overview/aggregate.ts: the buckets of the traffic chart and what the status cards
-- compare, from the per-minute cells of the heatmap.
pub mod Buckets
pub mod Bars
pub mod Slices
pub mod Merge
mod Tests
use kiro_reverse_api.Prelude.{
  ℕ, zero, suc, ◌+◌, ◌*◌, ◌-◌, ◌/◌, max, Bool, true, false, not, ◌&&◌, ◌||◌, List, [], ◌∷◌, ◌++◌,
  Option, none, some, or_else, if◌then◌else◌, ltb, leb, ◌==◌, any, keep, take, length,
}
use kiro_reverse_api.Prelude.Int.{ℤ, pos, negsuc, minus_ℤ, ltb_ℤ, eq_ℤ}
use kiro_reverse_api.Search.Values.{OverviewRange, hour, six_hours, day}

-- Counts of one minute; `offset` is in minutes before now.
pub record HeatmapCell : Type 0 where
  pub offset : ℤ
  pub reqs : ℕ
  pub failures : ℕ
  pub retries : Option ℕ

abbrev pub window_of : OverviewRange → ℕ
window_of hour = 60
window_of six_hours = 360
window_of day = 1440

abbrev pub bucket_of : OverviewRange → ℕ
bucket_of hour = 2
bucket_of six_hours = 5
bucket_of day = 15

-- `date` is in seconds.
pub record TrafficPoint : Type 0 where
  pub date : ℤ
  pub succeeded : ℕ
  pub failed : ℕ
  pub previous : Option ℕ

abbrev pub bucket_size : ℕ → ℕ
bucket_size bucket_min = max 1 bucket_min

-- `Math.ceil(windowMin / size)`
abbrev pub bucket_count : ℕ → ℕ → ℕ
bucket_count window_min size = (window_min + (size - 1)) / size

-- The last `n` of the `count` points, before the cells are added.
abbrev empty_points : ℕ → ℕ → ℕ → List TrafficPoint
empty_points now size zero = []
empty_points now size (suc n) =
    record {
      date = minus_ℤ (pos now) (pos ((suc n * size - 1) * 60));
      succeeded = 0;
      failed = 0;
      previous = none;
    }
    ∷ empty_points now size n

abbrev add_cell : HeatmapCell → TrafficPoint → TrafficPoint
add_cell cell point = record point {
  failed = point.failed + cell.failures;
  succeeded = point.succeeded + (cell.reqs - cell.failures);
}

-- The point at an index, changed.
abbrev add_at : HeatmapCell → ℕ → List TrafficPoint → List TrafficPoint
add_at cell i [] = []
add_at cell zero (p ∷ ps) = add_cell cell p ∷ ps
add_at cell (suc i) (p ∷ ps) = p ∷ add_at cell i ps

-- The bucket of a cell, `none` where the loop skips it.
abbrev pub bucket_index : ℕ → ℕ → ℤ → Option ℕ
bucket_index size count (negsuc n) = none
bucket_index size count (pos offset) =
    if leb count (offset / size) then none else some (offset / size)

abbrev add_in : ℕ → HeatmapCell → Option ℕ → List TrafficPoint → List TrafficPoint
add_in count cell none points = points
add_in count cell (some bucket) points = add_at cell (count - 1 - bucket) points

abbrev add_cells : ℕ → ℕ → List HeatmapCell → List TrafficPoint → List TrafficPoint
add_cells size count [] points = points
add_cells size count (cell ∷ cells) points =
    add_cells size count cells (add_in count cell (bucket_index size count cell.offset) points)

unfoldable pub bucket_global : List HeatmapCell → ℕ → ℕ → ℕ → List TrafficPoint
bucket_global cells now bucket_min window_min =
    let size = bucket_size bucket_min in
    let count = bucket_count window_min size in
    add_cells size count cells (empty_points now size count)

abbrev earlier_offset : ℕ → ℤ → Option ℤ
earlier_offset window (negsuc n) = none
earlier_offset window (pos offset) =
    if leb window offset && ltb offset (2 * window) then some (pos (offset - window)) else none

abbrev shift_cell : HeatmapCell → Option ℤ → List HeatmapCell → List HeatmapCell
shift_cell cell none cells = cells
shift_cell cell (some offset) cells = record cell { offset = offset } ∷ cells

-- The cells of the window before, at their offsets in it
abbrev pub earlier_cells : ℕ → List HeatmapCell → List HeatmapCell
earlier_cells window [] = []
earlier_cells window (cell ∷ cells) =
    shift_cell cell (earlier_offset window cell.offset) (earlier_cells window cells)

abbrev lay_under : List TrafficPoint → List TrafficPoint → List TrafficPoint
lay_under [] previous = []
lay_under (p ∷ ps) [] = record p { previous = some 0 } ∷ lay_under ps []
lay_under (p ∷ ps) (q ∷ qs) = record p { previous = some q.succeeded } ∷ lay_under ps qs

unfoldable pub with_previous_window : List HeatmapCell → ℕ → ℕ → ℕ → List TrafficPoint
unfolding bucket_global
with_previous_window cells now bucket_min window_min =
    lay_under (bucket_global cells now bucket_min window_min)
      (bucket_global (earlier_cells window_min cells) now bucket_min window_min)

unfoldable pub peak_count : List TrafficPoint → ℕ
peak_count [] = 0
peak_count (p ∷ ps) = max (max (max p.succeeded p.failed) (or_else p.previous 0)) (peak_count ps)

-- The sums of the current hour and of the one before.
abbrev count_hour : ℤ → ℕ → ℕ × ℕ → ℕ × ℕ
count_hour (negsuc n) value sums = sums
count_hour (pos offset) value (current, previous) =
    if ltb offset 60
    then (current + value, previous)
    else if ltb offset 120
    then (current, previous + value)
    else (current, previous)

-- `value` picks the count of a cell.
abbrev hour_sums : (HeatmapCell → ℕ) → List HeatmapCell → ℕ × ℕ → ℕ × ℕ
hour_sums value [] sums = sums
hour_sums value (cell ∷ cells) sums =
    hour_sums value cells (count_hour cell.offset (value cell) sums)

unfoldable pub hour_delta : (HeatmapCell → ℕ) → List HeatmapCell → ℕ × ℕ
hour_delta value cells = hour_sums value cells (0, 0)

abbrev is_busy_cell : ℕ → HeatmapCell → Bool
is_busy_cell window cell =
    ltb_ℤ cell.offset (pos window) && (ltb 0 cell.reqs || ltb 0 (or_else cell.retries 0))

-- An account is known by its cells.
unfoldable pub busy_accounts : List (List HeatmapCell) → ℕ → ℕ → List (List HeatmapCell)
busy_accounts accounts window limit = take limit (keep (any (is_busy_cell window)) accounts)

-- `new Map(...)`: the last cell of an offset stands.
abbrev find_cell : ℕ → List HeatmapCell → Option HeatmapCell → Option HeatmapCell
find_cell offset [] found = found
find_cell offset (cell ∷ cells) found =
    find_cell offset cells (if eq_ℤ cell.offset (pos offset) then some cell else found)

abbrev filled_cell : ℕ → Option HeatmapCell → HeatmapCell
filled_cell offset none = record { offset = pos offset; reqs = 0; failures = 0; retries = some 0 }
filled_cell offset (some cell) = record {
  offset = pos offset;
  reqs = cell.reqs;
  failures = cell.failures;
  retries = some (or_else cell.retries 0);
}

unfoldable pub window_cells : List HeatmapCell → ℕ → List HeatmapCell
window_cells cells zero = []
window_cells cells (suc n) = filled_cell n (find_cell n cells none) ∷ window_cells cells n
