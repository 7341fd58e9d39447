-- ===== src/Overview/Slices.antt =====
-- ui/src/features/overview/aggregate.ts: the slices of the model ring. Credits are whole numbers of one
-- small unit.
pub mod Shares
use kiro_reverse_api.Prelude.{
  ℕ, ◌+◌, List, [], ◌∷◌, ◌++◌, map, if◌then◌else◌, ltb, take, drop, length,
}
use kiro_reverse_api.Prelude.Int.{ℤ, pos, minus_ℤ}
use kiro_reverse_api.Prelude.Sort.{sort_by}
use kiro_reverse_api.Text.{Text}

pub record ModelMixEntry : Type 0 where
  pub model : Text
  pub reqs : ℕ
  pub credits : ℕ

pub record ModelSlice : Type 0 where
  pub label : Text
  pub value : ℕ
  pub max_value : ℕ

pub data Metric : Type 0 where
  by_credits by_reqs : Metric

pub record ModelSlices : Type 0 where
  pub slices : List ModelSlice
  pub total : ℕ
  pub metric : Metric

abbrev pub metric_of : Metric → ModelMixEntry → ℕ
metric_of by_credits m = m.credits
metric_of by_reqs m = m.reqs

abbrev pub sum_of : (ModelMixEntry → ℕ) → List ModelMixEntry → ℕ
sum_of value [] = 0
sum_of value (m ∷ ms) = value m + sum_of value ms

abbrev pub chosen_metric : List ModelMixEntry → Metric
chosen_metric models = if ltb 0 (sum_of (metric_of by_credits) models) then by_credits else by_reqs

abbrev pub by_metric : Metric → ModelMixEntry → ModelMixEntry → ℤ
by_metric metric a b = minus_ℤ (pos (metric_of metric b)) (pos (metric_of metric a))

abbrev pub slice_of : Metric → ℕ → ModelMixEntry → ModelSlice
slice_of metric total m = record { label = m.model; value = metric_of metric m; max_value = total }

unfoldable pub model_slices : List ModelMixEntry → ℕ → Text → ModelSlices
unfolding sort_by
model_slices models limit other_label =
    let metric = chosen_metric models in
    let sorted = sort_by (by_metric metric) models in
    let total = sum_of (metric_of metric) models in
    let slices = map (slice_of metric total) (take limit sorted) in
    let rest = sum_of (metric_of metric) (drop limit sorted) in
    record {
      slices =
          if ltb limit (length sorted)
          then slices ++ record { label = other_label; value = rest; max_value = total } ∷ []
          else slices;
      total = total;
      metric = metric;
    }
