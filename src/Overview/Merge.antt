-- ===== src/Overview/Merge.antt =====
-- ui/src/features/overview/aggregate.ts: the cells of the account heatmap, merged several minutes at a
-- time.
pub mod Groups
use kiro_reverse_api.Prelude.{
  ℕ, zero, suc, ◌+◌, ◌-◌, max, List, [], ◌∷◌, some, or_else, if◌then◌else◌, ◌==◌, take, drop,
  length,
}
use kiro_reverse_api.Prelude.Int.{ℤ, ltb_ℤ}
use kiro_reverse_api.Overview.{HeatmapCell}

abbrev pub cells_total : (HeatmapCell → ℕ) → List HeatmapCell → ℕ
cells_total value [] = 0
cells_total value (cell ∷ cells) = value cell + cells_total value cells

abbrev pub reqs_of : HeatmapCell → ℕ
reqs_of cell = cell.reqs

abbrev pub failures_in : HeatmapCell → ℕ
failures_in cell = cell.failures

abbrev pub retries_of : HeatmapCell → ℕ
retries_of cell = or_else cell.retries 0

-- `Math.min` of an offset and those of the cells
abbrev pub least_offset : ℤ → List HeatmapCell → ℤ
least_offset least [] = least
least_offset least (cell ∷ cells) =
    least_offset (if ltb_ℤ cell.offset least then cell.offset else least) cells

-- The cell of a group, before those merged so far. No group is empty.
abbrev pub merge_group : List HeatmapCell → List HeatmapCell → List HeatmapCell
merge_group [] merged = merged
merge_group (cell ∷ cells) merged =
    record {
      offset = least_offset cell.offset cells;
      reqs = cells_total reqs_of (cell ∷ cells);
      failures = cells_total failures_in (cell ∷ cells);
      retries = some (cells_total retries_of (cell ∷ cells));
    }
    ∷ merged

-- `cells.slice(Math.max(0, end - step), end)`
abbrev pub group_before : List HeatmapCell → ℕ → ℕ → List HeatmapCell
group_before cells step end = take (end - (end - step)) (drop (end - step) cells)

-- The loop, on fuel: `end` falls in each round, since a step is at least 1.
abbrev pub groups_from : ℕ → List HeatmapCell → ℕ → ℕ → List HeatmapCell → List HeatmapCell
groups_from zero cells step end merged = merged
groups_from (suc fuel) cells step end merged =
    let rest =
      groups_from fuel cells step (end - step) (merge_group (group_before cells step end) merged) in
    if end == 0 then merged else rest

abbrev pub step_of : ℕ → ℕ
step_of size = max 1 size

unfoldable pub merge_cells : List HeatmapCell → ℕ → List HeatmapCell
merge_cells cells size = groups_from (length cells) cells (step_of size) (length cells) []
