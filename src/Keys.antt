-- ===== src/Keys.antt =====
-- ui/src/lib/utils.ts: React keys for lists without identifiers.
pub mod Distinct
mod Tests
use kiro_reverse_api.Prelude.{
  ℕ, zero, suc, List, [], ◌∷◌, ◌++◌, map, Option, none, some, if◌then◌else◌, or_else,
}
use kiro_reverse_api.Text.{Text, text_eq}
use kiro_reverse_api.Text.Decimal.{print_ℕ}

-- How often each text was seen, the latest entry first, as in a `Map` that is only added to.
abbrev pub Seen : Type 0
Seen = List (Text × ℕ)

abbrev pub seen_get : Text → Seen → Option ℕ
seen_get s [] = none
seen_get s ((t, n) ∷ seen) = if text_eq t s then some n else seen_get s seen

abbrev pub seen_count : Text → Seen → ℕ
seen_count s seen = or_else (seen_get s seen) 0

-- `${count}:${text}`
unfoldable pub key_of : ℕ → Text → Text
key_of count s = print_ℕ count ++ b':' ∷ s

module _ {ℓ} {A : Type ℓ} (text_of : A → Text) where
  unfoldable pub key_by_text_from : Seen → List A → List (Text × A)
  unfolding key_of
  key_by_text_from seen [] = []
  key_by_text_from seen (x ∷ xs) =
      let s = text_of x in
      let count = seen_count s seen in
      (key_of count s, x) ∷ key_by_text_from ((s, suc count) ∷ seen) xs

  unfoldable pub key_by_text : List A → List (Text × A)
  unfolding key_by_text_from
  key_by_text xs = key_by_text_from [] xs

placeholder_keys_from : ℕ → Text → ℕ → List Text
placeholder_keys_from index name zero = []
placeholder_keys_from index name (suc n) =
    (name ++ b'-' ∷ print_ℕ (suc index)) ∷ placeholder_keys_from (suc index) name n

unfoldable pub placeholder_keys : Text → ℕ → List Text
unfolding placeholder_keys_from
placeholder_keys name count = placeholder_keys_from 0 name count
