-- ===== src/Translation/Interpolation.antt =====
-- ui/src/lib/i18n/index.tsx: the parameters of a message, and their values in its text.
use kiro_reverse_api.Prelude.{
  ℕ, Bool, true, false, ◌&&◌, ◌||◌, List, [], ◌∷◌, ◌++◌, Option, none, some, if◌then◌else◌, ◌==◌,
  leb,
}
use kiro_reverse_api.Text.{Text, text_eq, is_full}

-- The parameters of a message: each as it is printed, and `count` where it is a number.
pub record TParams : Type 0 where
  pub values : List (Text × Text)
  pub count : Option ℕ

abbrev pub entry_of : Text → List (Text × Text) → Option Text
entry_of name [] = none
entry_of name ((k, v) ∷ es) = if text_eq k name then some v else entry_of name es

-- `\w`
abbrev pub is_word : ℕ → Bool
is_word c =
    (leb b'a' c && leb c b'z')
    || (leb b'A' c && leb c b'Z')
    || (leb b'0' c && leb c b'9')
    || c == b'_'

-- What a unit is after an open brace and the word units that follow it.
pub data UnitKind : Type 0 where
  word_unit closing opening other : UnitKind

abbrev pub kind_of : ℕ → Text → UnitKind
kind_of c name =
    if is_word c
    then word_unit
    else if c == b'}' && is_full name
    then closing
    else if c == b'{'
    then opening
    else other

-- `{name}`
abbrev pub placeholder : Text → Text
placeholder name = b'{' ∷ name ++ b'}' ∷ []

abbrev pub value_or : Text → Option Text → Text
value_or name none = placeholder name
value_or name (some v) = v

abbrev pub value_of : List (Text × Text) → Text → Text
value_of values name = value_or name (entry_of name values)

-- The replacement, with the word units after an open brace, if there is one.
unfoldable pub replace_from : List (Text × Text) → Option Text → Text → Text
replace_from values none [] = []
replace_from values none (c ∷ s) = elim (c == b'{') [
  | true ↦ replace_from values (some []) s
  | false ↦ c ∷ replace_from values none s
]
replace_from values (some name) [] = b'{' ∷ name
replace_from values (some name) (c ∷ s) = elim (kind_of c name) [
  | word_unit ↦ replace_from values (some (name ++ c ∷ [])) s
  | closing ↦ value_of values name ++ replace_from values none s
  | opening ↦ b'{' ∷ name ++ replace_from values (some []) s
  | other ↦ b'{' ∷ name ++ c ∷ replace_from values none s
]

unfoldable pub interpolate : Text → Option TParams → Text
unfolding replace_from
interpolate s none = s
interpolate s (some ps) = replace_from ps.values none s
