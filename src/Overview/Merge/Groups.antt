-- ===== src/Overview/Merge/Groups.antt =====
-- Merging cells loses no count, and the groups are full but for the oldest one.
use kiro_reverse_api.Prelude.{
  ℕ, zero, suc, ◌+◌, ◌-◌, ◌*◌, ◌≤◌, ◌<◌, ◌≡◌, refl, List, [], ◌∷◌, ◌++◌, arith, length, take, drop,
  Bool-cases, inl, inr, ◌==◌, ap,
}
use mathlib.Core.Path.{subst}
use kiro_reverse_api.Overview.{HeatmapCell}
use kiro_reverse_api.Overview.Merge.{
  cells_total, reqs_of, failures_in, retries_of, merge_group, group_before, groups_from, step_of,
  merge_cells,
}

cells_total-append :
    (value : HeatmapCell → ℕ) (xs ys : List HeatmapCell)
    → cells_total value (xs ++ ys) ≡ cells_total value xs + cells_total value ys
cells_total-append value [] ys = omega arith
cells_total-append value (x ∷ xs) ys = omega (arith, cells_total-append value xs ys)

take_split : (a b : ℕ) (xs : List HeatmapCell) → take (a + b) xs ≡ take a xs ++ take b (drop a xs)
take_split zero b xs = let e : 0 + b ≡ b = omega arith in rw e refl
take_split (suc a) zero [] = let e : suc a + zero ≡ suc a = omega arith in rw e refl
take_split (suc a) (suc b) [] = let e : suc a + suc b ≡ suc (a + suc b) = omega arith in rw e refl
take_split (suc a) b (x ∷ xs) =
    let e : suc a + b ≡ suc (a + b) = omega arith in rw (e, take_split a b xs) refl

take_all : (xs : List HeatmapCell) → take (length xs) xs ≡ xs
take_all [] = refl
take_all (x ∷ xs) = ap (λ ys. x ∷ ys) (take_all xs)

-- Counts that a group's cell sums up.
record IsSummed (value : HeatmapCell → ℕ) : Type 0 where
  summed :
      (cells merged : List HeatmapCell)
      → cells_total value (merge_group cells merged)
        ≡ cells_total value cells + cells_total value merged

reqs-IsSummed : IsSummed reqs_of
reqs-IsSummed = record { summed = reqs_summed }
  where
    reqs_summed :
        (cells merged : List HeatmapCell)
        → cells_total reqs_of (merge_group cells merged)
          ≡ cells_total reqs_of cells + cells_total reqs_of merged
    reqs_summed [] merged = omega arith
    reqs_summed (cell ∷ cells) merged = omega arith

failures-IsSummed : IsSummed failures_in
failures-IsSummed = record { summed = failures_summed }
  where
    failures_summed :
        (cells merged : List HeatmapCell)
        → cells_total failures_in (merge_group cells merged)
          ≡ cells_total failures_in cells + cells_total failures_in merged
    failures_summed [] merged = omega arith
    failures_summed (cell ∷ cells) merged = omega arith

retries-IsSummed : IsSummed retries_of
retries-IsSummed = record { summed = retries_summed }
  where
    retries_summed :
        (cells merged : List HeatmapCell)
        → cells_total retries_of (merge_group cells merged)
          ≡ cells_total retries_of cells + cells_total retries_of merged
    retries_summed [] merged = omega arith
    retries_summed (cell ∷ cells) merged = omega arith

module _ (value : HeatmapCell → ℕ) (h : IsSummed value) (cells : List HeatmapCell) (step : ℕ)
    (positive : 0 < step) where
  groups_from_total :
      (fuel end : ℕ) (merged : List HeatmapCell)
      → end ≤ fuel
      → cells_total value (groups_from fuel cells step end merged)
        ≡ cells_total value (take end cells) + cells_total value merged
  groups_from_total zero end merged k = let e : end ≡ 0 = omega arith in rw e (omega arith)
  groups_from_total (suc fuel) end merged k = elim (Bool-cases (end == 0)) [
    | inl e ↦ let z : end ≡ 0 = ground arith in rw z (omega arith)
    | inr e ↦
        let some_left : 0 < end = ground arith in
        let group = group_before cells step end in
        let parts : (end - step) + (end - (end - step)) ≡ end = omega arith in
        let s = rw parts at (take_split (end - step) (end - (end - step)) cells) in
        let t = cells_total-append value (take (end - step) cells) group in
        rw e (
          omega (
            arith,
            groups_from_total fuel (end - step) (merge_group group merged)
                (omega (arith, positive, some_left, k)),
            h.summed group merged,
            ap (cells_total value) s,
            t,
          ))
  ]

length-take-drop :
    (n m : ℕ) (xs : List HeatmapCell)
    → m + n ≤ length xs
    → 0 < n
    → (merged : List HeatmapCell)
    → length (merge_group (take n (drop m xs)) merged) ≡ suc (length merged)
length-take-drop zero m xs h p merged = absurd (omega (arith, p))
length-take-drop (suc n) zero [] h p merged = absurd (omega (arith, h))
length-take-drop (suc n) zero (x ∷ xs) h p merged = refl
length-take-drop (suc n) (suc m) [] h p merged = absurd (omega (arith, h))
length-take-drop (suc n) (suc m) (x ∷ xs) h p merged =
    length-take-drop (suc n) m xs (omega (arith, h)) p merged

-- There are `n` groups of `step` minutes but for one that may be shorter.
abbrev pub AreGroups : ℕ → ℕ → ℕ → Type 0
AreGroups minutes step n = (minutes ≤ n * step) × (n * step < minutes + step)

AreGroups-suc :
    (minutes step n : ℕ)
    → 0 < minutes
    → AreGroups (minutes - step) step n
    → AreGroups minutes step (suc n)
AreGroups-suc minutes step zero p h = (omega (arith, p, h), omega (arith, p))
AreGroups-suc minutes step (suc n) p h = (omega (arith, h), omega (arith, p, h))

module _ (cells : List HeatmapCell) (step : ℕ) (positive : 0 < step) where
  groups_from_count :
      (fuel end : ℕ) (merged : List HeatmapCell)
      → end ≤ fuel
      → end ≤ length cells
      → (n : ℕ) × (length (groups_from fuel cells step end merged) ≡ n + length merged)
        × AreGroups end step n
  groups_from_count zero end merged k l =
      let e : end ≡ 0 = omega arith in rw e (0, omega arith, (omega arith, omega (arith, positive)))
  groups_from_count (suc fuel) end merged k l = elim (Bool-cases (end == 0)) [
    | inl e ↦
        let z : end ≡ 0 = ground arith in
        rw z (0, omega arith, (omega arith, omega (arith, positive)))
    | inr e ↦
        let some_left : 0 < end = ground arith in
        let (n, count, groups) =
          groups_from_count fuel (end - step) (merge_group (group_before cells step end) merged)
            (omega (arith, positive, some_left, k)) (omega (arith, l)) in
        let one =
          length-take-drop (end - (end - step)) (end - step) cells (omega (arith, l))
            (omega (arith, positive, some_left)) merged in
        (suc n, rw e (omega (arith, count, one)), AreGroups-suc end step n some_left groups)
  ]

-- Merging the cells of the heatmap loses no request, failure or retry and counts none twice, and
-- there are as many groups as the minutes fill, the last one perhaps in part. A size of 0 merges
-- minute by minute.
pub merge_cells_totals :
    (cells : List HeatmapCell) (size : ℕ)
    → let merged = merge_cells cells size in
      (cells_total reqs_of merged ≡ cells_total reqs_of cells)
      × (cells_total failures_in merged ≡ cells_total failures_in cells)
      × (cells_total retries_of merged ≡ cells_total retries_of cells)
      × AreGroups (length cells) (step_of size) (length merged)
unfolding merge_cells
merge_cells_totals cells size =
    let step = step_of size in
    let n = length cells in
    let positive : 0 < step = omega arith in
    let whole : (value : HeatmapCell → ℕ)
        → IsSummed value
        → cells_total value (groups_from n cells step n []) ≡ cells_total value cells =
      λ value h. omega (
        arith,
        groups_from_total value h cells step positive n n [] (omega arith),
        ap (cells_total value) (take_all cells),
      ) in
    let (k, count, groups) =
      groups_from_count cells step positive n n [] (omega arith) (omega arith) in
    let e : k ≡ length (groups_from n cells step n []) = omega (arith, count) in
    (
      whole reqs_of reqs-IsSummed,
      whole failures_in failures-IsSummed,
      whole retries_of retries-IsSummed,
      subst (λ m. AreGroups n step m) e groups,
    )
