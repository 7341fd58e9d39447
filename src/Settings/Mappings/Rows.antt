-- ===== src/Settings/Mappings/Rows.antt =====
-- Rows made from the server's rules, and when two lists hold the same rules.
use kiro_reverse_api.Prelude.{ℕ, ◌≡◌, refl, ap, ◌↔◌, true, List, [], ◌∷◌, map, some, arith}
use kiro_reverse_api.Text.{Text}
use kiro_reverse_api.Text.Equality.{text_eq_iff, text_eq_self}
use kiro_reverse_api.Settings.Mappings.{
  MappingRow, ModelMappingRule, rows_from_rules, lend_id, same_rule, same_mappings, tail_of,
}

-- The rule that a row shows.
abbrev pub rule_of : MappingRow → ModelMappingRule
rule_of row = record { key = row.key; value = row.value }

-- The rows show exactly the server's rules, in their order, whichever ids they are lent.
pub map-rows_from_rules :
    (lower : Text → Text) (rules : List ModelMappingRule) (previous : List MappingRow) (counter : ℕ)
    → map rule_of (rows_from_rules lower rules previous counter).1 ≡ rules
unfolding rows_from_rules
map-rows_from_rules lower [] previous counter = refl
map-rows_from_rules lower (rule ∷ rules) previous counter =
    ap (◌∷◌ rule) (map-rows_from_rules lower rules (tail_of previous) _)

same_mappings_sound :
    (xs ys : List MappingRow) → same_mappings xs ys ≡ true → map rule_of xs ≡ map rule_of ys
unfolding same_mappings
same_mappings_sound [] [] h = refl
same_mappings_sound [] (y ∷ ys) h = cc
same_mappings_sound (x ∷ xs) [] h = cc
same_mappings_sound (x ∷ xs) (y ∷ ys) h =
    ground (arith, text_eq_iff x.key y.key, text_eq_iff x.value y.value, same_mappings_sound xs ys)

same_mappings_complete :
    (xs ys : List MappingRow) → map rule_of xs ≡ map rule_of ys → same_mappings xs ys ≡ true
unfolding same_mappings
same_mappings_complete [] [] h = refl
same_mappings_complete [] (y ∷ ys) h = cc
same_mappings_complete (x ∷ xs) [] h = cc
same_mappings_complete (x ∷ xs) (y ∷ ys) h =
    ground
      (arith, text_eq_iff x.key y.key, text_eq_iff x.value y.value, same_mappings_complete xs ys)

-- Two lists of rows are the same mappings exactly when they show the same rules in the same order.
pub same_mappings_iff :
    (xs ys : List MappingRow) → (same_mappings xs ys ≡ true) ↔ (map rule_of xs ≡ map rule_of ys)
same_mappings_iff xs ys = (same_mappings_sound xs ys, same_mappings_complete xs ys)

-- The list as the server stores it: with lowercased keys.
abbrev pub saved_rules : (Text → Text) → List MappingRow → List ModelMappingRule
saved_rules lower [] = []
saved_rules lower (row ∷ rows) =
    record { key = lower row.key; value = row.value } ∷ saved_rules lower rows

abbrev pub ids : List MappingRow → List Text
ids [] = []
ids (row ∷ rows) = row.id ∷ ids rows

-- Re-reading a list that was saved keeps every row mounted: where `toLowerCase` is idempotent, the
-- rows made from the stored list over the local rows have the local rows' ids, and none is new.
pub ids-rows_from_rules :
    (lower : Text → Text)
    → ((s : Text) → lower (lower s) ≡ lower s)
    → (rows : List MappingRow) (counter : ℕ)
    → let r = rows_from_rules lower (saved_rules lower rows) rows counter in
      (ids r.1 ≡ ids rows) × (r.0 ≡ counter)
unfolding rows_from_rules
ids-rows_from_rules lower idem [] counter = (refl, refl)
ids-rows_from_rules lower idem (row ∷ rows) counter =
    let same : same_rule lower (some row) (record { key = lower row.key; value = row.value })
        ≡ true =
      rw (idem row.key, text_eq_self (lower row.key)) (text_eq_self row.value) in
    let lent : lend_id
          (same_rule lower (some row) (record { key = lower row.key; value = row.value }))
          (some row) counter
        ≡ (counter, row.id) =
      rw same in
    let (kept, count) = ids-rows_from_rules lower idem rows counter in
    (rw lent (ap (◌∷◌ row.id) kept), rw (lent, rows_from_rules) count)
