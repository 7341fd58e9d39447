-- ===== src/Overview/Slices/Shares.antt =====
-- The slices of the model ring share out the total, the largest models first.
use kiro_reverse_api.Prelude.{
  ℕ, zero, suc, ◌+◌, ◌≤◌, ◌<◌, ◌≡◌, refl, true, false, List, [], ◌∷◌, ◌++◌, map, arith, length,
  take, drop, ltb, Bool-cases, inl, inr, All, ap, take-append-drop, ltb→lt, length-append,
}
use kiro_reverse_api.Prelude.Int.{ℤ}
use kiro_reverse_api.Prelude.Sort.{
  is_before, insert_sorted, sort_by, Sorted, sort_by-Sorted, minus_ℕ-before, minus_ℕ-after,
  take-above, take-Sorted,
}
use kiro_reverse_api.Text.{Text}
use kiro_reverse_api.Overview.Slices.{
  ModelMixEntry, ModelSlice, Metric, metric_of, sum_of, chosen_metric, by_metric, slice_of,
  model_slices,
}

abbrev pub slices_total : List ModelSlice → ℕ
slices_total [] = 0
slices_total (s ∷ ss) = s.value + slices_total ss

sum_of-append :
    (value : ModelMixEntry → ℕ) (xs ys : List ModelMixEntry)
    → sum_of value (xs ++ ys) ≡ sum_of value xs + sum_of value ys
sum_of-append value [] ys = omega arith
sum_of-append value (x ∷ xs) ys = omega (arith, sum_of-append value xs ys)

sum_of-insert_sorted :
    (value : ModelMixEntry → ℕ) (order : ModelMixEntry → ModelMixEntry → ℤ) (x : ModelMixEntry)
    (ys : List ModelMixEntry)
    → sum_of value (insert_sorted order x ys) ≡ value x + sum_of value ys
unfolding insert_sorted
sum_of-insert_sorted value order x [] = refl
sum_of-insert_sorted value order x (y ∷ ys) = ground (arith, sum_of-insert_sorted value order x ys)

sum_of-sort_by :
    (value : ModelMixEntry → ℕ) (order : ModelMixEntry → ModelMixEntry → ℤ)
    (xs : List ModelMixEntry)
    → sum_of value (sort_by order xs) ≡ sum_of value xs
unfolding sort_by
sum_of-sort_by value order [] = refl
sum_of-sort_by value order (x ∷ xs) =
    omega
      (arith, sum_of-insert_sorted value order x (sort_by order xs), sum_of-sort_by value order xs)

slices_total-append :
    (xs ys : List ModelSlice) → slices_total (xs ++ ys) ≡ slices_total xs + slices_total ys
slices_total-append [] ys = omega arith
slices_total-append (x ∷ xs) ys = omega (arith, slices_total-append xs ys)

slices_total-map :
    (metric : Metric) (total : ℕ) (xs : List ModelMixEntry)
    → slices_total (map (slice_of metric total) xs) ≡ sum_of (metric_of metric) xs
slices_total-map metric total [] = refl
slices_total-map metric total (x ∷ xs) = omega (arith, slices_total-map metric total xs)

abbrev NoSmaller : Metric → ModelMixEntry → ModelMixEntry → Type 0
NoSmaller metric a b = metric_of metric b ≤ metric_of metric a

models-Sorted :
    (metric : Metric) (models : List ModelMixEntry)
    → Sorted (NoSmaller metric) (sort_by (by_metric metric) models)
models-Sorted metric models =
    sort_by-Sorted (by_metric metric) (NoSmaller metric) before after
      (λ a b c h k. omega (arith, h, k)) models
  where
    before :
        (a b : ModelMixEntry)
        → is_before (by_metric metric a b) ≡ true
        → metric_of metric b ≤ metric_of metric a
    before a b h = minus_ℕ-before (metric_of metric b) (metric_of metric a) h

    after :
        (a b : ModelMixEntry)
        → is_before (by_metric metric a b) ≡ false
        → metric_of metric a ≤ metric_of metric b
    after a b h = minus_ℕ-after (metric_of metric b) (metric_of metric a) h

-- The values fall.
abbrev pub Falling : List ModelSlice → Type 0
Falling ss = Sorted (λ (a b : ModelSlice). b.value ≤ a.value) ss

falls :
    (metric : Metric) (total : ℕ) (xs : List ModelMixEntry)
    → Sorted (NoSmaller metric) xs
    → Falling (map (slice_of metric total) xs)
falls metric total [] h = tt
falls metric total (x ∷ xs) h = (slices_below xs h.0, falls metric total xs h.1)
  where
    slices_below :
        (ys : List ModelMixEntry)
        → All (NoSmaller metric x) ys
        → All (λ (b : ModelSlice). b.value ≤ metric_of metric x) (map (slice_of metric total) ys)
    slices_below [] k = tt
    slices_below (y ∷ ys) k = (k.0, slices_below ys k.1)

-- Slices that are all at least as large as the models left out.
abbrev pub NoSmallerThan : Metric → List ModelMixEntry → List ModelSlice → Type 0
NoSmallerThan metric left ss =
    All (λ (s : ModelSlice). All (λ (m : ModelMixEntry). metric_of metric m ≤ s.value) left) ss

no_smaller :
    (metric : Metric) (total : ℕ) (left xs : List ModelMixEntry)
    → All (λ a. All (NoSmaller metric a) left) xs
    → NoSmallerThan metric left (map (slice_of metric total) xs)
no_smaller metric total left [] h = tt
no_smaller metric total left (x ∷ xs) h = (h.0, no_smaller metric total left xs h.1)

take-map :
    (metric : Metric) (total limit : ℕ) (xs : List ModelMixEntry) (ss : List ModelSlice)
    → limit < length xs
    → take limit (map (slice_of metric total) (take limit xs) ++ ss)
      ≡ map (slice_of metric total) (take limit xs)
take-map metric total zero xs ss h = refl
take-map metric total (suc n) [] ss h = absurd (omega (arith, h))
take-map metric total (suc n) (x ∷ xs) ss h =
    ap (λ ys. slice_of metric total x ∷ ys) (take-map metric total n xs ss (omega (arith, h)))

take-map_all :
    (metric : Metric) (total n : ℕ) (xs : List ModelMixEntry)
    → take n (map (slice_of metric total) (take n xs)) ≡ map (slice_of metric total) (take n xs)
take-map_all metric total zero xs = refl
take-map_all metric total (suc n) [] = refl
take-map_all metric total (suc n) (x ∷ xs) =
    ap (λ ys. slice_of metric total x ∷ ys) (take-map_all metric total n xs)

length-take-map :
    (metric : Metric) (total n : ℕ) (xs : List ModelMixEntry)
    → length (map (slice_of metric total) (take n xs)) ≤ n
length-take-map metric total zero xs = omega arith
length-take-map metric total (suc n) [] = omega arith
length-take-map metric total (suc n) (x ∷ xs) = omega (arith, length-take-map metric total n xs)

length-drop_all : (n : ℕ) (xs : List ModelMixEntry) → length xs ≤ n → drop n xs ≡ []
length-drop_all zero [] h = refl
length-drop_all zero (x ∷ xs) h = absurd (omega (arith, h))
length-drop_all (suc n) [] h = refl
length-drop_all (suc n) (x ∷ xs) h = length-drop_all n xs (omega (arith, h))

-- The slices share out the total of the chosen metric, the models in "Other" included, and they are at
-- most `limit` and that one. The first `limit` slices fall in size, and no model that is left out is
-- larger than one of them.
pub model_slices_shares :
    (models : List ModelMixEntry) (limit : ℕ) (other_label : Text)
    → let ring = model_slices models limit other_label in
      let left = drop limit (sort_by (by_metric ring.metric) models) in
      (slices_total ring.slices ≡ sum_of (metric_of ring.metric) models)
      × (length ring.slices ≤ limit + 1)
      × Falling (take limit ring.slices)
      × NoSmallerThan ring.metric left (take limit ring.slices)
unfolding model_slices
model_slices_shares models limit other_label =
    let metric = chosen_metric models in
    let value = metric_of metric in
    let total = sum_of value models in
    let sorted = sort_by (by_metric metric) models in
    let shown = take limit sorted in
    let slices = map (slice_of metric total) shown in
    let is_sorted = models-Sorted metric models in
    let few = length-take-map metric total limit sorted in
    let parts = sum_of-append value shown (drop limit sorted) in
    let whole = ap (sum_of value) (take-append-drop limit sorted) in
    let kept = sum_of-sort_by value (by_metric metric) models in
    let mapped = slices_total-map metric total shown in
    let fall = falls metric total shown (take-Sorted (NoSmaller metric) limit sorted is_sorted) in
    let above =
      no_smaller metric total (drop limit sorted) shown
        (take-above (NoSmaller metric) limit sorted is_sorted) in
    elim (Bool-cases (ltb limit (length sorted))) [
      | inl e ↦
          let rest : ModelSlice = record {
            label = other_label;
            value = sum_of value (drop limit sorted);
            max_value = total;
          } in
          rw (e, take-map metric total limit sorted (rest ∷ []) (ltb→lt limit (length sorted) e))
            (
              omega (arith, slices_total-append slices (rest ∷ []), mapped, parts, whole, kept),
              omega (arith, length-append slices (rest ∷ []), few),
              fall,
              above,
            )
      | inr e ↦
          let none_left : drop limit sorted ≡ [] = length-drop_all limit sorted (ground arith) in
          let nothing = ap (sum_of value) none_left in
          rw (e, take-map_all metric total limit sorted)
            (omega (arith, mapped, parts, whole, kept, nothing), omega (arith, few), fall, above)
    ]
