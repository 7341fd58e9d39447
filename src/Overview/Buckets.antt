-- ===== src/Overview/Buckets.antt =====
-- No request of the window is lost in the buckets, and none counts twice.
use native.Mathlib.Nat.{le-div_iff_mul-le, div-lt_iff_lt-mul, lt-div-mul-add}
use kiro_reverse_api.Prelude.{
  ltb, ltb→lt, ℕ, zero, suc, ◌+◌, ◌*◌, ◌-◌, ◌/◌, ◌≤◌, ◌<◌, ◌≡◌, refl, ◌⊎◌, ◌∙◌, Bool, false, List,
  [], ◌∷◌, Option, none, some, if◌then◌else◌, arith, length, leb, Bool-cases, inl, inr,
}
use kiro_reverse_api.Prelude.Int.{ℤ, pos, negsuc}
use kiro_reverse_api.Overview.{
  HeatmapCell, TrafficPoint, bucket_size, bucket_count, empty_points, add_at, bucket_index, add_in,
  add_cells, bucket_global,
}

abbrev pub total_failed : List TrafficPoint → ℕ
total_failed [] = 0
total_failed (p ∷ ps) = p.failed + total_failed ps

abbrev pub total_succeeded : List TrafficPoint → ℕ
total_succeeded [] = 0
total_succeeded (p ∷ ps) = p.succeeded + total_succeeded ps

abbrev one_cell : Option ℕ → ℕ → ℕ
one_cell none n = 0
one_cell (some bucket) n = n

add_at-failed :
    (cell : HeatmapCell) (i : ℕ) (ps : List TrafficPoint)
    → i < length ps
    → total_failed (add_at cell i ps) ≡ cell.failures + total_failed ps
add_at-failed cell i [] h = omega (arith, h)
add_at-failed cell zero (p ∷ ps) h = omega arith
add_at-failed cell (suc i) (p ∷ ps) h = omega (arith, add_at-failed cell i ps (omega (arith, h)))

add_at-succeeded :
    (cell : HeatmapCell) (i : ℕ) (ps : List TrafficPoint)
    → i < length ps
    → total_succeeded (add_at cell i ps) ≡ (cell.reqs - cell.failures) + total_succeeded ps
add_at-succeeded cell i [] h = omega (arith, h)
add_at-succeeded cell zero (p ∷ ps) h = omega arith
add_at-succeeded cell (suc i) (p ∷ ps) h =
    omega (arith, add_at-succeeded cell i ps (omega (arith, h)))

length-add_at :
    (cell : HeatmapCell) (i : ℕ) (ps : List TrafficPoint) → length (add_at cell i ps) ≡ length ps
length-add_at cell i [] = refl
length-add_at cell zero (p ∷ ps) = refl
length-add_at cell (suc i) (p ∷ ps) = omega (arith, length-add_at cell i ps)

length-empty_points : (now size n : ℕ) → length (empty_points now size n) ≡ n
length-empty_points now size zero = refl
length-empty_points now size (suc n) = omega (arith, length-empty_points now size n)

-- The sum over the cells that fall into a bucket.
abbrev bucket_sum : (HeatmapCell → ℕ) → ℕ → ℕ → List HeatmapCell → ℕ
bucket_sum value size count [] = 0
bucket_sum value size count (cell ∷ cells) =
    one_cell (bucket_index size count cell.offset) (value cell) + bucket_sum value size count cells

abbrev pub succeeded_of : HeatmapCell → ℕ
succeeded_of cell = cell.reqs - cell.failures

bucket_index_lt :
    (size count : ℕ) (offset : ℤ)
    → (bucket_index size count offset ≡ none)
      ⊎ ((i : ℕ) × (bucket_index size count offset ≡ some i) × (i < count))
bucket_index_lt size count (negsuc n) = inl refl
bucket_index_lt size count (pos o) = elim (Bool-cases (leb count (o / size))) [
  | inl e ↦ inl (rw e refl)
  | inr e ↦ inr (o / size, rw e refl, ground arith)
]

module _ (size count : ℕ) where
  Totals : HeatmapCell → List TrafficPoint → List TrafficPoint → Type 0
  Totals cell ps qs =
      (length qs ≡ length ps)
      × (total_failed qs
          ≡ one_cell (bucket_index size count cell.offset) cell.failures + total_failed ps)
      × (total_succeeded qs
          ≡ one_cell (bucket_index size count cell.offset) (succeeded_of cell) + total_succeeded ps)

  add_in-Totals :
      (cell : HeatmapCell) (ps : List TrafficPoint)
      → length ps ≡ count
      → Totals cell ps (add_in count cell (bucket_index size count cell.offset) ps)
  unfolding Totals
  add_in-Totals cell ps h = elim (bucket_index_lt size count cell.offset) [
    | inl e ↦ rw e (refl, omega arith, omega arith)
    | inr (i, e, l) ↦
        let k : count - 1 - i < length ps = omega (arith, l, h) in
        rw e (
          length-add_at cell (count - 1 - i) ps,
          add_at-failed cell (count - 1 - i) ps k,
          add_at-succeeded cell (count - 1 - i) ps k,
        )
  ]

  add_cells_totals :
      (cells : List HeatmapCell) (ps : List TrafficPoint)
      → length ps ≡ count
      → (length (add_cells size count cells ps) ≡ count)
        × (total_failed (add_cells size count cells ps)
            ≡ bucket_sum (λ (c : HeatmapCell). c.failures) size count cells + total_failed ps)
        × (total_succeeded (add_cells size count cells ps)
            ≡ bucket_sum succeeded_of size count cells + total_succeeded ps)
  unfolding Totals
  add_cells_totals [] ps h = (h, omega arith, omega arith)
  add_cells_totals (cell ∷ cells) ps h =
      let t = add_in-Totals cell ps h in
      let qs = add_in count cell (bucket_index size count cell.offset) ps in
      let r = add_cells_totals cells qs (t.0 ∙ h) in
      (r.0, omega (arith, r.1, t.1), omega (arith, r.2, t.2))

empty_totals :
    (now size n : ℕ)
    → (total_failed (empty_points now size n) ≡ 0) × (total_succeeded (empty_points now size n) ≡ 0)
empty_totals now size zero = (refl, refl)
empty_totals now size (suc n) =
    (omega (arith, empty_totals now size n), omega (arith, empty_totals now size n))

-- Whether a minute is one of the last `span` minutes.
abbrev pub is_within : ℕ → ℤ → Bool
is_within span (negsuc n) = false
is_within span (pos offset) = ltb offset span

-- The sum over the cells of the last `span` minutes.
abbrev pub span_sum : (HeatmapCell → ℕ) → ℕ → List HeatmapCell → ℕ
span_sum value span [] = 0
span_sum value span (cell ∷ cells) =
    (if is_within span cell.offset then value cell else 0) + span_sum value span cells

one_inside :
    (size count v o : ℕ) → o / size < count → one_cell (bucket_index size count (pos o)) v ≡ v
one_inside size count v o h = ground arith

none_outside :
    (size count v o : ℕ) → count ≤ o / size → one_cell (bucket_index size count (pos o)) v ≡ 0
none_outside size count v o h = ground arith

-- The buckets cover the window.
count_covers : (w size : ℕ) → 0 < size → w ≤ bucket_count w size * size
count_covers w size p = let h = lt-div-mul-add {a = w + (size - 1)} p in omega (arith, h)

one_cell-within :
    (size count v : ℕ) (offset : ℤ)
    → 0 < size
    → one_cell (bucket_index size count offset) v
      ≡ (if is_within (count * size) offset then v else 0)
one_cell-within size count v (negsuc n) p = refl
one_cell-within size count v (pos o) p = elim (Bool-cases (ltb o (count * size))) [
  | inl e ↦
      let inside : o / size < count = (div-lt_iff_lt-mul p).1 (ltb→lt o (count * size) e) in
      rw e (one_inside size count v o inside)
  | inr e ↦
      let outside : count ≤ o / size = (le-div_iff_mul-le p).1 (ground arith) in
      rw e (none_outside size count v o outside)
]

bucket_sum-span_sum :
    (value : HeatmapCell → ℕ) (size count : ℕ) (cells : List HeatmapCell)
    → 0 < size
    → bucket_sum value size count cells ≡ span_sum value (count * size) cells
bucket_sum-span_sum value size count [] p = refl
bucket_sum-span_sum value size count (cell ∷ cells) p = omega (
  arith,
  one_cell-within size count (value cell) cell.offset p,
  bucket_sum-span_sum value size count cells p,
)

-- The traffic chart has the buckets of its window, whatever the cells, and they cover the window.
-- No count is lost and none counts twice: the failed requests of all buckets are those of the
-- minutes that the buckets cover, and so are the succeeded ones.
pub bucket_global_totals :
    (cells : List HeatmapCell) (now bucket_min window_min : ℕ)
    → let size = bucket_size bucket_min in
      let span = bucket_count window_min size * size in
      let points = bucket_global cells now bucket_min window_min in
      (length points ≡ bucket_count window_min size)
      × (window_min ≤ span)
      × (total_failed points ≡ span_sum (λ (c : HeatmapCell). c.failures) span cells)
      × (total_succeeded points ≡ span_sum succeeded_of span cells)
unfolding bucket_global
bucket_global_totals cells now bucket_min window_min =
    let size = bucket_size bucket_min in
    let count = bucket_count window_min size in
    let some_size : 0 < size = omega arith in
    let r =
      add_cells_totals size count cells (empty_points now size count)
        (length-empty_points now size count) in
    let e = empty_totals now size count in
    let f = bucket_sum-span_sum (λ (c : HeatmapCell). c.failures) size count cells some_size in
    let g = bucket_sum-span_sum succeeded_of size count cells some_size in
    (
      r.0,
      count_covers window_min size some_size,
      omega (arith, r.1, e, f),
      omega (arith, r.2, e, g),
    )
