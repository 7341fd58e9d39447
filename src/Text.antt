-- ===== src/Text.antt =====
-- JavaScript strings as lists of UTF-16 code units, with the operations of `String.prototype` that
-- the panel uses.
pub mod Equality
pub mod Decimal
pub mod Trim
pub mod Trimmed
pub mod Params
pub mod Lines
use Prim.Native.Char.{code}
use Prim.Native.String.{String}
use kiro_reverse_api.Prelude.{
  ℕ, suc, Bool, true, false, ◌&&◌, ◌||◌, List, [], ◌∷◌, Option, none, some, ◌==◌, if◌then◌else◌,
}

abbrev pub Text : Type 0
Text = List ℕ

-- The code units of a literal (every literal of the source is in the basic plane).
abbrev pub codes : String → Text
codes String.[] = []
codes (String.◌∷◌ c s) = code c ∷ codes s

-- `a === b`
abbrev pub text_eq : Text → Text → Bool
text_eq [] [] = true
text_eq [] (d ∷ t) = false
text_eq (c ∷ s) [] = false
text_eq (c ∷ s) (d ∷ t) = c == d && text_eq s t

-- The test of `if (s)`.
abbrev pub is_full : Text → Bool
is_full [] = false
is_full (c ∷ s) = true

-- `s.startsWith(p)`
abbrev pub starts_with : Text → Text → Bool
starts_with s [] = true
starts_with [] (d ∷ p) = false
starts_with (c ∷ s) (d ∷ p) = c == d && starts_with s p

-- `s.includes(p)`
abbrev pub includes : Text → Text → Bool
includes [] p = starts_with [] p
includes (c ∷ s) p = starts_with (c ∷ s) p || includes s p

-- The index one further on, for a search that starts one unit later.
abbrev pub next_index : Option ℕ → Option ℕ
next_index none = none
next_index (some i) = some (suc i)

-- `s.indexOf(c)` for one code unit, `none` for -1.
abbrev pub index_of : Text → ℕ → Option ℕ
index_of [] d = none
index_of (c ∷ s) d = if c == d then some 0 else next_index (index_of s d)

-- `[...].includes(s)`
abbrev pub one_of_texts : List Text → Text → Bool
one_of_texts [] s = false
one_of_texts (t ∷ ts) s = text_eq t s || one_of_texts ts s

-- `a || b` on strings
abbrev pub or_text : Text → Text → Text
or_text [] b = b
or_text (c ∷ a) b = c ∷ a

abbrev pub onto_first : ℕ → List Text → List Text
onto_first c [] = (c ∷ []) ∷ []
onto_first c (w ∷ ws) = (c ∷ w) ∷ ws

-- The pieces between the units that are separators.
abbrev pub split_on : (ℕ → Bool) → Text → List Text
split_on sep [] = [] ∷ []
split_on sep (c ∷ s) = if sep c then [] ∷ split_on sep s else onto_first c (split_on sep s)

-- `s.indexOf(p)`, `none` for -1.
abbrev pub index_of_text : Text → Text → Option ℕ
index_of_text [] p = if starts_with [] p then some 0 else none
index_of_text (c ∷ s) p = if starts_with (c ∷ s) p then some 0 else next_index (index_of_text s p)
