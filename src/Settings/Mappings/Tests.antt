-- ===== src/Settings/Mappings/Tests.antt =====
-- Mapping rows at concrete lists.
use kiro_reverse_api.Prelude.{ℕ, ◌≡◌, ◌↔◌, ◌≤◌, length, refl, List, [], ◌∷◌, none, some}
use kiro_reverse_api.Prelude.Int.{pos, negsuc}
use kiro_reverse_api.Text.{codes}
use kiro_reverse_api.Text.Trim.{trim}
use kiro_reverse_api.Settings.Mappings.{
  MappingRow, move_row, prepare_mappings, local_row_for_server_index,
}
use kiro_reverse_api.Settings.Mappings.Sending.{prepare_mappings-local_row}

abbrev row_a : MappingRow
row_a = record { id = codes "mapping-1"; key = codes " gpt "; value = codes "auto" }

abbrev blank : MappingRow
blank = record { id = codes "mapping-2"; key = codes " "; value = [] }

abbrev row_b : MappingRow
row_b = record { id = codes "mapping-3"; key = []; value = codes "x" }

abbrev rows : List MappingRow
rows = row_a ∷ blank ∷ row_b ∷ []

sent_rows : (prepare_mappings rows).row_indexes ≡ 0 ∷ 2 ∷ []
unfolding prepare_mappings trim
sent_rows = refl

second_sent : local_row_for_server_index (0 ∷ 2 ∷ []) (some (pos 1)) ≡ some 2
unfolding local_row_for_server_index
second_sent = refl

none_for_minus_one : local_row_for_server_index (0 ∷ 2 ∷ []) (some (negsuc 0)) ≡ none
unfolding local_row_for_server_index
none_for_minus_one = refl

moved : move_row {T = ℕ} (1 ∷ 2 ∷ 3 ∷ []) (pos 0) (pos 2) ≡ 2 ∷ 3 ∷ 1 ∷ []
unfolding move_row
moved = refl

prepare_mappings-local_row_example :
    (local_row_for_server_index (prepare_mappings rows).row_indexes (some (pos 5)) ≡ none)
    ↔ (length (prepare_mappings rows).mappings ≤ 5)
prepare_mappings-local_row_example = (prepare_mappings-local_row rows 5).2
