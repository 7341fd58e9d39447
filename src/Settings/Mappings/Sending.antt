-- ===== src/Settings/Mappings/Sending.antt =====
-- What is sent for the rows, and how the server's row index finds the local row.
use kiro_reverse_api.Prelude.{
  ℕ, zero, suc, ◌+◌, ◌≤◌, ◌≡◌, refl, sym, ap, ◌∙◌, ◌↔◌, Bool, true, false, ◌||◌, List, [], ◌∷◌, map,
  keep, Option, none, some, if◌then◌else◌, leb, length, get_elem?, arith, leb→le, Bool-cases, inl,
  inr,
}
use kiro_reverse_api.Prelude.Int.{pos}
use kiro_reverse_api.Text.{is_full}
use kiro_reverse_api.Text.Trim.{trim}
use kiro_reverse_api.Settings.Mappings.{
  MappingRow, ModelMappingRule, Prepared, prepare_row, prepare_from, prepare_mappings,
  local_row_for_server_index,
}

abbrev pub trimmed : MappingRow → ModelMappingRule
trimmed row = record { key = trim row.key; value = trim row.value }

-- Something is left of one of the two fields.
abbrev pub is_filled : MappingRow → Bool
is_filled row = is_full (trim row.key) || is_full (trim row.value)

prepare_row_lem :
    (row : MappingRow) (index : ℕ) (rest : Prepared)
    → prepare_row row index rest ≡ (
        if is_filled row
        then record {
          mappings = trimmed row ∷ rest.mappings;
          row_indexes = index ∷ rest.row_indexes;
        }
        else rest)
unfolding prepare_row
prepare_row_lem row index rest = ground arith

-- The rules sent are the trimmed rows that have something in them, in order.
prepare_from-mappings :
    (index : ℕ) (rows : List MappingRow)
    → (prepare_from index rows).mappings ≡ map trimmed (keep is_filled rows)
unfolding prepare_from
prepare_from-mappings index [] = refl
prepare_from-mappings index (row ∷ rows) = elim (Bool-cases (is_filled row)) [
  | inl full ↦ rw (prepare_row_lem, full, prepare_from-mappings (suc index) rows)
  | inr blank ↦ rw (prepare_row_lem, blank, prepare_from-mappings (suc index) rows)
]

-- Rule `m` is the trimmed row that stands at place `j`, counted from `index`.
abbrev pub Stands : ℕ → List MappingRow → ℕ → Option ModelMappingRule → Type 0
Stands index rows j m =
    (i : ℕ) × (row : MappingRow) × (j ≡ index + i)
    × (get_elem? rows i ≡ some row)
    × (is_filled row ≡ true)
    × (m ≡ some (trimmed row))

Stands-cons :
    (index : ℕ) (row : MappingRow) (rows : List MappingRow) (j : ℕ) (m : Option ModelMappingRule)
    → Stands (suc index) rows j m
    → Stands index (row ∷ rows) j m
Stands-cons index row rows j m (i, r, e, at, full, sent) = (suc i, r, omega arith, at, full, sent)

prepare_row_blank :
    (row : MappingRow) (index : ℕ) (rest : Prepared)
    → is_filled row ≡ false
    → prepare_row row index rest ≡ rest
prepare_row_blank row index rest h = rw (prepare_row_lem row index rest, h)

prepare_row_filled :
    (row : MappingRow) (index : ℕ) (rest : Prepared)
    → is_filled row ≡ true
    → prepare_row row index rest
      ≡ record { mappings = trimmed row ∷ rest.mappings; row_indexes = index ∷ rest.row_indexes }
prepare_row_filled row index rest h = rw (prepare_row_lem row index rest, h)

-- The claim about one list of rows.
abbrev AllStand : ℕ → List MappingRow → Type 0
AllStand index rows =
    (n j : ℕ)
    → get_elem? (prepare_from index rows).row_indexes n ≡ some j
    → Stands index rows j (get_elem? (prepare_from index rows).mappings n)

AllStand-filled :
    (index : ℕ) (row : MappingRow) (rows : List MappingRow)
    → is_filled row ≡ true
    → AllStand (suc index) rows
    → AllStand index (row ∷ rows)
unfolding prepare_from
AllStand-filled index row rows full ih zero j h =
    let h' = rw (prepare_row_filled row index (prepare_from (suc index) rows) full) at h in
    rw (prepare_row_filled row index (prepare_from (suc index) rows) full)
      (0, row, ground arith, refl, full, refl)
AllStand-filled index row rows full ih (suc n) j h =
    rw (prepare_row_filled row index (prepare_from (suc index) rows) full) (
      Stands-cons index row rows j _
        (ih n j (rw (prepare_row_filled row index (prepare_from (suc index) rows) full) at h)))

AllStand-blank :
    (index : ℕ) (row : MappingRow) (rows : List MappingRow)
    → is_filled row ≡ false
    → AllStand (suc index) rows
    → AllStand index (row ∷ rows)
unfolding prepare_from
AllStand-blank index row rows blank ih n j h =
    rw (prepare_row_blank row index (prepare_from (suc index) rows) blank) (
      Stands-cons index row rows j _
        (ih n j (rw (prepare_row_blank row index (prepare_from (suc index) rows) blank) at h)))

prepare_from-AllStand : (index : ℕ) (rows : List MappingRow) → AllStand index rows
prepare_from-AllStand index [] = λ n j h. absurd (unfold prepare_from in cc)
prepare_from-AllStand index (row ∷ rows) = elim (Bool-cases (is_filled row)) [
  | inl full ↦ AllStand-filled index row rows full (prepare_from-AllStand (suc index) rows)
  | inr blank ↦ AllStand-blank index row rows blank (prepare_from-AllStand (suc index) rows)
]

length-row_indexes :
    (index : ℕ) (rows : List MappingRow)
    → length (prepare_from index rows).row_indexes ≡ length (prepare_from index rows).mappings
unfolding prepare_from
length-row_indexes index [] = refl
length-row_indexes index (row ∷ rows) = elim (Bool-cases (is_filled row)) [
  | inl full ↦
      rw (prepare_row_filled row index (prepare_from (suc index) rows) full)
        (ap suc (length-row_indexes (suc index) rows))
  | inr blank ↦
      rw (prepare_row_blank row index (prepare_from (suc index) rows) blank)
        (length-row_indexes (suc index) rows)
]

get_elem?_beyond {ℓ} : {A : Type ℓ} (xs : List A) (n : ℕ) → length xs ≤ n → get_elem? xs n ≡ none
get_elem?_beyond [] n h = refl
get_elem?_beyond (x ∷ xs) zero h = elim h [ ]
get_elem?_beyond (x ∷ xs) (suc n) h = get_elem?_beyond xs n (omega arith)

get_elem?_missing {ℓ} : {A : Type ℓ} (xs : List A) (n : ℕ) → get_elem? xs n ≡ none → length xs ≤ n
get_elem?_missing [] n h = omega arith
get_elem?_missing (x ∷ xs) zero h = absurd (cc)
get_elem?_missing (x ∷ xs) (suc n) h = let k = get_elem?_missing xs n h in omega arith

local_row_lem :
    (is : List ℕ) (n : ℕ) → local_row_for_server_index is (some (pos n)) ≡ get_elem? is n
unfolding local_row_for_server_index
local_row_lem is n = elim (Bool-cases (leb (length is) n)) [
  | inl out ↦ rw out (sym (get_elem?_beyond is n (leb→le _ n out)))
  | inr inside ↦ rw inside
]

-- The rules sent are the trimmed rows with something in them, in order. The row found for the
-- server's index `n` is the one that was sent as rule `n`: it is filled, and rule `n` is its
-- trimmed form. A row is found for every index of a rule that was sent, and for no other.
pub prepare_mappings-local_row :
    (rows : List MappingRow) (n : ℕ)
    → let sent = prepare_mappings rows in
      (sent.mappings ≡ map trimmed (keep is_filled rows))
      × ((j : ℕ)
          → local_row_for_server_index sent.row_indexes (some (pos n)) ≡ some j
          → Stands 0 rows j (get_elem? sent.mappings n))
      × ((local_row_for_server_index sent.row_indexes (some (pos n)) ≡ none)
          ↔ (length sent.mappings ≤ n))
unfolding prepare_mappings
prepare_mappings-local_row rows n =
    let is = (prepare_from 0 rows).row_indexes in
    let size = length-row_indexes 0 rows in
    (
      prepare_from-mappings 0 rows,
      λ j h. prepare_from-AllStand 0 rows n j (sym (local_row_lem is n) ∙ h),
      (
        λ h. let k = get_elem?_missing is n (sym (local_row_lem is n) ∙ h) in omega arith,
        λ h. local_row_lem is n ∙ get_elem?_beyond is n (omega arith),
      ),
    )
