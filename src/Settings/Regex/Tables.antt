-- ===== src/Settings/Regex/Tables.antt =====
-- ui/src/features/settings/lib/go-regex.ts: the classes, the control escapes and the kinds of
-- units.
use kiro_reverse_api.Prelude.{
  ℕ, ◌+◌, ◌-◌, Bool, ◌&&◌, ◌||◌, List, [], ◌∷◌, ◌++◌, Option, none, some, if◌then◌else◌, leb, ◌==◌,
  all,
}
use kiro_reverse_api.Text.{Text, codes, is_full}

abbrev pub posix_classes : List Text
posix_classes =
    codes "alnum"
    ∷ codes "alpha"
    ∷ codes "ascii"
    ∷ codes "blank"
    ∷ codes "cntrl"
    ∷ codes "digit"
    ∷ codes "graph"
    ∷ codes "lower"
    ∷ codes "print"
    ∷ codes "punct"
    ∷ codes "space"
    ∷ codes "upper"
    ∷ codes "word"
    ∷ codes "xdigit"
    ∷ []

abbrev pub is_perl_class : ℕ → Bool
is_perl_class c = c == b'd' || c == b'D' || c == b's' || c == b'S' || c == b'w' || c == b'W'

abbrev pub control_escape : ℕ → Option ℕ
control_escape c =
    if c == b'a'
    then some 7
    else if c == b'f'
    then some 12
    else if c == b'n'
    then some 10
    else if c == b'r'
    then some 13
    else if c == b't'
    then some 9
    else if c == b'v'
    then some 11
    else none

-- unicode.Categories and unicode.CategoryAliases
unfoldable pub category_names : Text
category_names =
    codes "C Cc Cf Cn Co Cs L Ll Lm Lo Lt Lu M Mc Me Mn N Nd Nl No "
    ++ codes "P Pc Pd Pe Pf Pi Po Ps S Sc Sk Sm So Z Zl Zp Zs "
    ++ codes
        "Cased_Letter Close_Punctuation Combining_Mark Connector_Punctuation Control Currency_Symbol "
    ++ codes
        "Dash_Punctuation Decimal_Number Enclosing_Mark Final_Punctuation Format Initial_Punctuation "
    ++ codes
        "Letter Letter_Number Line_Separator Lowercase_Letter Mark Math_Symbol Modifier_Letter "
    ++ codes
        "Modifier_Symbol Nonspacing_Mark Number Open_Punctuation Other Other_Letter Other_Number "
    ++ codes "Other_Punctuation Other_Symbol Paragraph_Separator Private_Use Punctuation Separator "
    ++ codes
        "Space_Separator Spacing_Mark Surrogate Symbol Titlecase_Letter Unassigned Uppercase_Letter "
    ++ codes "cntrl digit punct Any Assigned ASCII LC"

abbrev pub in_range : ℕ → ℕ → ℕ → Bool
in_range lo hi c = leb lo c && leb c hi

abbrev pub is_octal : ℕ → Bool
is_octal c = in_range b'0' b'7' c

abbrev pub is_hex : ℕ → Bool
is_hex c = in_range b'0' b'9' c || in_range b'A' b'F' c || in_range b'a' b'f' c

abbrev pub is_alnum : ℕ → Bool
is_alnum c = in_range b'A' b'Z' c || in_range b'a' b'z' c || in_range b'0' b'9' c

-- `CAPTURE_NAME.test(s)`
abbrev pub is_capture_name : Text → Bool
is_capture_name s = is_full s && all (λ c. is_alnum c || c == b'_') s

abbrev pub is_separator : ℕ → Bool
is_separator c = c == b'_' || c == b'-' || c == b' '

abbrev pub lower_ascii : ℕ → ℕ
lower_ascii c = if in_range b'A' b'Z' c then c + 32 else c

abbrev pub upper_ascii : ℕ → ℕ
upper_ascii c = if in_range b'a' b'z' c then c - 32 else c

-- The letters after the first one.
canonical_rest : Text → Text
canonical_rest [] = []
canonical_rest (c ∷ s) =
    if is_separator c then canonical_rest s else lower_ascii c ∷ canonical_rest s

unfoldable pub canonical_name : Text → Text
unfolding canonical_rest
canonical_name [] = []
canonical_name (c ∷ s) =
    if is_separator c then canonical_name s else upper_ascii c ∷ canonical_rest s
