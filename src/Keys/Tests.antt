-- ===== src/Keys/Tests.antt =====
-- Lines of code of which one repeats.
use kiro_reverse_api.Prelude.{◌≡◌, refl, List, [], ◌∷◌}
use kiro_reverse_api.Text.{Text, codes}
use kiro_reverse_api.Text.Decimal.{print_ℕ}
use kiro_reverse_api.Keys.{key_of, key_by_text_from, key_by_text, placeholder_keys}
use kiro_reverse_api.Keys.Distinct.{keys_of}

abbrev items : List Text
items = codes "a" ∷ codes "b" ∷ codes "a" ∷ []

abbrev same_text : Text → Text
same_text s = s

keyed : keys_of (key_by_text same_text items) ≡ codes "0:a" ∷ codes "0:b" ∷ codes "1:a" ∷ []
unfolding key_by_text key_by_text_from key_of print_ℕ
keyed = refl

placeholders : placeholder_keys (codes "row") 2 ≡ codes "row-1" ∷ codes "row-2" ∷ []
unfolding placeholder_keys print_ℕ
placeholders = refl
