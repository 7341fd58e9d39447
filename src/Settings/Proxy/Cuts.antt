-- ===== src/Settings/Proxy/Cuts.antt =====
-- ui/src/features/settings/lib/proxy-url.ts: text cut at a unit, and the kinds of units the
-- regular expressions and splits of the file name.
use kiro_reverse_api.Prelude.{
  ℕ, Bool, true, false, ◌&&◌, ◌||◌, [], ◌∷◌, Option, none, some, if◌then◌else◌, ◌==◌, leb,
}
use kiro_reverse_api.Text.{Text}

abbrev onto_left : ℕ → Option (Text × Text) → Option (Text × Text)
onto_left c none = none
onto_left c (some (a, b)) = some (c ∷ a, b)

-- The text before the first unit of a kind and after it, `none` where there is none.
abbrev pub cut_first : (ℕ → Bool) → Text → Option (Text × Text)
cut_first p [] = none
cut_first p (c ∷ s) = if p c then some ([], s) else onto_left c (cut_first p s)

abbrev here_or_later : Bool → ℕ → Text → Option (Text × Text) → Option (Text × Text)
here_or_later b c s (some (a, t)) = some (c ∷ a, t)
here_or_later true c s none = some ([], s)
here_or_later false c s none = none

-- The same for the last one.
abbrev pub cut_last : (ℕ → Bool) → Text → Option (Text × Text)
cut_last p [] = none
cut_last p (c ∷ s) = here_or_later (p c) c s (cut_last p s)

abbrev pub is_unit : ℕ → ℕ → Bool
is_unit d c = c == d

abbrev pub is_letter : ℕ → Bool
is_letter c = (leb b'a' c && leb c b'z') || (leb b'A' c && leb c b'Z')

abbrev pub is_scheme_unit : ℕ → Bool
is_scheme_unit c = is_letter c || (leb b'0' c && leb c b'9') || c == b'+' || c == b'.' || c == b'-'

abbrev pub is_line_end : ℕ → Bool
is_line_end c = c == 10 || c == 13 || c == 0x2028 || c == 0x2029

abbrev pub ends_authority : ℕ → Bool
ends_authority c = c == b'/' || c == b'?' || c == b'#'
