-- ===== src/Settings/Regex.antt =====
-- ui/src/features/settings/lib/go-regex.ts: the parts of Go's regular expressions. A position of the
-- source is the text that is left there.
pub mod Tables
pub mod Patterns
pub mod Compiles
pub mod Progress
pub mod Classes
pub mod Groups
pub mod Ending
pub mod Literals
mod Tests
use kiro_reverse_api.Prelude.{
  ℕ, zero, suc, ◌+◌, ◌*◌, ◌-◌, Bool, true, false, not, ◌&&◌, ◌||◌, List, [], ◌∷◌, ◌++◌, map, Option,
  none, some, if◌then◌else◌, ltb, leb, ◌==◌, all, any, length, drop,
}
use kiro_reverse_api.Text.{Text, codes, text_eq, is_full, starts_with, one_of_texts, split_on}
use kiro_reverse_api.Settings.Regex.Tables.{
  control_escape, category_names, in_range, is_octal, is_hex, is_alnum, is_capture_name,
  is_separator, canonical_name,
}

abbrev pub join_words : List Text → Text
join_words [] = []
join_words (w ∷ []) = w
join_words (w ∷ v ∷ ws) = w ++ b'_' ∷ join_words (v ∷ ws)

abbrev pub keep_full : List Text → List Text
keep_full [] = []
keep_full (w ∷ ws) = if is_full w then w ∷ keep_full ws else keep_full ws

-- The text before the first `c` and the text after it: `indexOf` with two slices.
abbrev pub break_at : ℕ → Text → Option (Text × Text)
break_at c [] = none
break_at c (d ∷ s) =
    let rest = break_at c s in
    if d == c then some ([], s) else elim rest [ none ↦ none | some (a, b) ↦ some (d ∷ a, b) ]

-- The same for a pair of units.
abbrev pub break_at_pair : ℕ → ℕ → Text → Option (Text × Text)
break_at_pair c d [] = none
break_at_pair c d (e ∷ []) = none
break_at_pair c d (e ∷ f ∷ s) =
    let rest = break_at_pair c d (f ∷ s) in
    if e == c && f == d
    then some ([], s)
    else elim rest [ none ↦ none | some (a, b) ↦ some (e ∷ a, b) ]

-- The number that `Number.parseInt(s, 16)` gives for hex digits, after `n`.
abbrev pub hex_digit : ℕ → ℕ
hex_digit c =
    if in_range b'0' b'9' c then c - b'0' else if in_range b'A' b'F' c then c - 55 else c - 87

abbrev pub read_hex : ℕ → Text → ℕ
read_hex n [] = n
read_hex n (c ∷ s) = read_hex (n * 16 + hex_digit c) s

-- Up to `k` more octal digits.
abbrev pub octal_more : ℕ → ℕ → Text → ℕ × Text
octal_more zero cp s = (cp, s)
octal_more (suc k) cp [] = (cp, [])
octal_more (suc k) cp (c ∷ s) =
    let rest = octal_more k (cp * 8 + (c - b'0')) s in if is_octal c then rest else (cp, c ∷ s)

abbrev pub first_is : (ℕ → Bool) → Text → Bool
first_is p [] = false
first_is p (c ∷ s) = p c

abbrev pub hex_braces : Option (Text × Text) → Option (ℕ × Text)
hex_braces none = none
hex_braces (some (digits, rest)) =
    if is_full digits && all is_hex digits && leb (read_hex 0 digits) 0x10ffff
    then some (read_hex 0 digits, rest)
    else none

abbrev pub hex_pair : Text → Option (ℕ × Text)
hex_pair (c ∷ d ∷ s) = if is_hex c && is_hex d then some (read_hex 0 (c ∷ d ∷ []), s) else none
hex_pair (c ∷ []) = none
hex_pair [] = none

abbrev pub hex_escape : Text → Option (ℕ × Text)
hex_escape [] = none
hex_escape (c ∷ s) = if c == b'{' then hex_braces (break_at b'}' s) else hex_pair (c ∷ s)

abbrev pub single_escape : ℕ → Text → Option ℕ → Option (ℕ × Text)
single_escape c s (some control) = some (control, s)
single_escape c s none = if ltb c 0x80 && not (is_alnum c) then some (c, s) else none

-- `parseEscape` for the text after the backslash: the character and what is left.
unfoldable pub parse_escape : Text → Option (ℕ × Text)
parse_escape [] = none
parse_escape (c ∷ s) =
    if c == b'0' || (in_range b'1' b'7' c && first_is is_octal s)
    then some (octal_more 2 (c - b'0') s)
    else if c == b'x'
    then hex_escape s
    else single_escape c s (control_escape c)

abbrev pub is_surrogate_pair : ℕ → ℕ → Bool
is_surrogate_pair c d = in_range 0xd800 0xdbff c && in_range 0xdc00 0xdfff d

-- `p.codePointAt(at)` with the text after it
abbrev pub code_point : Text → Option (ℕ × Text)
code_point [] = none
code_point (c ∷ []) = some (c, [])
code_point (c ∷ d ∷ s) =
    if is_surrogate_pair c d
    then some (0x10000 + ((c - 0xd800) * 0x400 + (d - 0xdc00)), s)
    else some (c, d ∷ s)

-- `String.fromCodePoint(cp)` with the text after it
abbrev pub one_character : Text → Option (Text × Text)
one_character [] = none
one_character (c ∷ []) = some (c ∷ [], [])
one_character (c ∷ d ∷ s) =
    if is_surrogate_pair c d then some (c ∷ d ∷ [], s) else some (c ∷ [], d ∷ s)

abbrev pub class_name : Text → Option (Text × Text)
class_name [] = none
class_name (c ∷ s) = if c == b'{' then break_at b'}' s else one_character (c ∷ s)

abbrev pub drop_caret : Text → Text
drop_caret [] = []
drop_caret (c ∷ s) = if c == b'^' then s else c ∷ s

-- `lower` and `upper` are `toLowerCase` and `toUpperCase`; `has_script` says whether JavaScript takes
-- `\p{Script=...}` with the name.
module _ (lower upper : Text → Text) (has_script : Text → Bool) where
  abbrev pub titled : Text → Text
  titled [] = []
  titled (c ∷ s) = upper (c ∷ []) ++ lower s

  abbrev pub is_candidate : Text → Bool
  is_candidate name = is_capture_name name && has_script name

  is_script : Text → Bool
  is_script name =
      is_candidate name
      || is_candidate (join_words (map titled (keep_full (split_on is_separator name))))

  unfoldable pub is_unicode_class_name : Text → Bool
  unfolding canonical_name category_names is_script
  is_unicode_class_name name =
      is_full name
      && (one_of_texts (map canonical_name (split_on (λ c. c == b' ') category_names))
            (canonical_name name)
          || is_script name)

  abbrev pub known_class : Option (Text × Text) → Option Text
  known_class none = none
  known_class (some (name, rest)) =
      if is_unicode_class_name (drop_caret name) then some rest else none

  -- `parseUnicodeClass` for the text after `\p`: what is left
  unfoldable pub parse_unicode_class : Text → Option Text
  parse_unicode_class s = known_class (class_name s)
