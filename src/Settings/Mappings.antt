-- ===== src/Settings/Mappings.antt =====
-- ui/src/features/settings/lib/model-mappings.ts: the editable rows of the model-mapping card, the
-- list that is sent to the server, and its answer's row index.
pub mod Rows
pub mod Sending
pub mod Moving
mod Tests
use kiro_reverse_api.Prelude.{
  ℕ, zero, suc, ◌+◌, Bool, true, false, not, ◌&&◌, ◌||◌, List, [], ◌∷◌, ◌++◌, Option, none, some,
  if◌then◌else◌, ltb, leb, ◌==◌, length, get_elem?,
}
use kiro_reverse_api.Prelude.Int.{ℤ, pos, negsuc}
use kiro_reverse_api.Text.{Text, codes, text_eq, is_full}
use kiro_reverse_api.Text.Decimal.{print_ℕ}
use kiro_reverse_api.Text.Trim.{trim}

pub record MappingRow : Type 0 where
  pub id : Text
  pub key : Text
  pub value : Text

pub record ModelMappingRule : Type 0 where
  pub key : Text
  pub value : Text

-- `newRowId` for the counter `nextRowId`, which it raises first.
unfoldable pub new_row_id : ℕ → ℕ × Text
new_row_id counter = (suc counter, codes "mapping-" ++ print_ℕ (suc counter))

-- `lower` is `toLowerCase`.
unfoldable pub same_rule : (Text → Text) → Option MappingRow → ModelMappingRule → Bool
same_rule lower none rule = false
same_rule lower (some before) rule =
    text_eq (lower before.key) (lower rule.key) && text_eq before.value rule.value

abbrev tail_of : List MappingRow → List MappingRow
tail_of [] = []
tail_of (r ∷ rs) = rs

-- The id of a row, and the counter after it.
lend_id : Bool → Option MappingRow → ℕ → ℕ × Text
unfolding new_row_id
lend_id false before counter = new_row_id counter
lend_id true none counter = new_row_id counter
lend_id true (some before) counter = (counter, before.id)

-- `rowsFromRules(rules, previous)` with the counter before and after it.
unfoldable pub rows_from_rules :
    (Text → Text) → List ModelMappingRule → List MappingRow → ℕ → ℕ × List MappingRow
unfolding same_rule lend_id
rows_from_rules lower [] previous counter = (counter, [])
rows_from_rules lower (rule ∷ rules) previous counter =
    let before = get_elem? previous 0 in
    let (next, id) = lend_id (same_rule lower before rule) before counter in
    let (last, rows) = rows_from_rules lower rules (tail_of previous) next in
    (last, record { id = id; key = rule.key; value = rule.value } ∷ rows)

-- Same rules in the same order; row ids do not count.
unfoldable pub same_mappings : List MappingRow → List MappingRow → Bool
same_mappings [] [] = true
same_mappings [] (b ∷ bs) = false
same_mappings (a ∷ as') [] = false
same_mappings (a ∷ as') (b ∷ bs) =
    (text_eq a.key b.key && text_eq a.value b.value) && same_mappings as' bs

pub record Prepared : Type 0 where
  pub mappings : List ModelMappingRule
  pub row_indexes : List ℕ

-- One round of the `forEach` of `prepareMappings`, before the later ones.
prepare_row : MappingRow → ℕ → Prepared → Prepared
prepare_row row index rest =
    let key = trim row.key in
    let value = trim row.value in
    if not (is_full key) && not (is_full value) then rest else record {
      mappings = record { key = key; value = value } ∷ rest.mappings;
      row_indexes = index ∷ rest.row_indexes;
    }

prepare_from : ℕ → List MappingRow → Prepared
unfolding prepare_row
prepare_from index [] = record { mappings = []; row_indexes = [] }
prepare_from index (row ∷ rows) = prepare_row row index (prepare_from (suc index) rows)

unfoldable pub prepare_mappings : List MappingRow → Prepared
unfolding prepare_from
prepare_mappings rows = prepare_from 0 rows

-- The local row for a server error `index`; `none` for a missing, negative or too large index.
unfoldable pub local_row_for_server_index : List ℕ → Option ℤ → Option ℕ
local_row_for_server_index row_indexes none = none
local_row_for_server_index row_indexes (some (negsuc n)) = none
local_row_for_server_index row_indexes (some (pos n)) =
    if leb (length row_indexes) n then none else get_elem? row_indexes n

module _ {ℓ} {T : Type ℓ} where
  -- `rows.splice(i, 1)`: what is left.
  unfoldable pub remove_at : ℕ → List T → List T
  remove_at i [] = []
  remove_at zero (x ∷ xs) = xs
  remove_at (suc i) (x ∷ xs) = x ∷ remove_at i xs

  -- `rows.splice(i, 0, a)`
  unfoldable pub insert_at : ℕ → T → List T → List T
  insert_at zero a xs = a ∷ xs
  insert_at (suc i) a [] = a ∷ []
  insert_at (suc i) a (x ∷ xs) = x ∷ insert_at i a xs

  place : Option T → ℕ → List T → List T → List T
  unfolding insert_at
  place none to rows rest = rows
  place (some moved) to rows rest = insert_at to moved rest

  move_inside : ℕ → ℕ → List T → List T
  unfolding place remove_at
  move_inside from to rows =
      if from == to || leb (length rows) from || leb (length rows) to
      then rows
      else place (get_elem? rows from) to rows (remove_at from rows)

  -- The same list when `to` is out of bounds.
  unfoldable pub move_row : List T → ℤ → ℤ → List T
  unfolding move_inside
  move_row rows (pos from) (pos to) = move_inside from to rows
  move_row rows (negsuc from) to = rows
  move_row rows (pos from) (negsuc to) = rows
