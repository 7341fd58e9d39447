-- ===== src/Translation.antt =====
-- ui/src/lib/i18n/index.tsx: the text of a translation key. The catalog of a production build, which
-- has no pseudo language.
pub mod Interpolation
pub mod Pieces
mod Tests
use kiro_reverse_api.Prelude.{
  ℕ, Bool, true, false, ◌&&◌, ◌||◌, List, [], ◌∷◌, ◌++◌, Option, none, some, if◌then◌else◌, ◌==◌,
  leb, not, any,
}
use kiro_reverse_api.Text.{Text, codes, text_eq, is_full, starts_with}
use kiro_reverse_api.Translation.Interpolation.{entry_of, TParams, is_word, other, interpolate}

pub data SupportedLang : Type 0 where
  en zh vi pt_br : SupportedLang

abbrev pub lang_code : SupportedLang → Text
lang_code en = codes "en"
lang_code zh = codes "zh"
lang_code vi = codes "vi"
lang_code pt_br = codes "pt-BR"

unfoldable pub intl_locale : SupportedLang → Text
intl_locale en = codes "en-US"
intl_locale zh = codes "zh-CN"
intl_locale vi = codes "vi-VN"
intl_locale pt_br = codes "pt-BR"

abbrev pub Dict : Type 0
Dict = List (Text × Text)

-- `catalog[lang][namespace]`
abbrev pub Catalog : Type 0
Catalog = SupportedLang → Text → Option Dict

abbrev is_zero_count : SupportedLang → ℕ → Bool
is_zero_count pt_br count = count == 0
is_zero_count en count = false
is_zero_count zh count = false
is_zero_count vi count = false

abbrev is_letter : ℕ → Bool
is_letter c = (leb b'a' c && leb c b'z') || (leb b'A' c && leb c b'Z')

abbrev is_line_end : ℕ → Bool
is_line_end c = c == 10 || c == 13 || c == 0x2028 || c == 0x2029

-- The rest of the match, after the units of the namespace so far.
abbrev after_namespace : Text → Text → Option (Text × Text)
after_namespace ns [] = none
after_namespace ns (c ∷ s) =
    if is_word c || c == b'-'
    then after_namespace (ns ++ c ∷ []) s
    else if c == b':' && is_full s && not (any is_line_end s)
    then some (ns, s)
    else none

-- `NAMESPACED_KEY.exec(key)`, the namespace and the name
unfoldable pub namespaced_key : Text → Option (Text × Text)
namespaced_key [] = none
namespaced_key (c ∷ s) = if is_letter c then after_namespace (c ∷ []) s else none

-- The parameter `plural` is `Intl.PluralRules(locale).select`.
module _ (plural : Text → ℕ → Text) where
  unfoldable pub plural_category : SupportedLang → ℕ → Text
  unfolding intl_locale
  plural_category lang count =
      if is_zero_count lang count then codes "other" else plural (intl_locale lang) count

  abbrev count_candidates : SupportedLang → Text → Option ℕ → List Text
  count_candidates lang key none = key ∷ []
  count_candidates lang key (some count) =
      (key ++ b'_' ∷ plural_category lang count) ∷ (key ++ codes "_other") ∷ key ∷ []

  abbrev count_of : Option TParams → Option ℕ
  count_of none = none
  count_of (some ps) = ps.count

  unfoldable pub candidates : SupportedLang → Text → Option TParams → List Text
  unfolding plural_category
  candidates lang key ps = count_candidates lang key (count_of ps)

  abbrev pub first_entry : Dict → List Text → Option Text
  first_entry dict [] = none
  first_entry dict (name ∷ names) = elim (entry_of name dict) [
    | none ↦ first_entry dict names
    | some s ↦ some s
  ]

  abbrev dict_entry : Option Dict → List Text → Option Text
  dict_entry none names = none
  dict_entry (some dict) names = first_entry dict names

  abbrev or_entry : Option Text → Option Text → Option Text
  or_entry none b = b
  or_entry (some s) b = some s

  abbrev pub found_in : Catalog → Text → Text → Option TParams → SupportedLang → Option Text
  found_in catalog ns name ps lang = dict_entry (catalog lang ns) (candidates lang name ps)

  abbrev interpolated : Option TParams → Option Text → Option Text
  interpolated ps none = none
  interpolated ps (some s) = some (interpolate s ps)

  -- English is looked up once, and last.
  unfoldable pub lookup : Catalog → SupportedLang → Text → Text → Option TParams → Option Text
  unfolding candidates interpolate
  lookup catalog en ns name ps = interpolated ps (found_in catalog ns name ps en)
  lookup catalog zh ns name ps =
      interpolated ps (or_entry (found_in catalog ns name ps zh) (found_in catalog ns name ps en))
  lookup catalog vi ns name ps =
      interpolated ps (or_entry (found_in catalog ns name ps vi) (found_in catalog ns name ps en))
  lookup catalog pt_br ns name ps =
      interpolated ps
        (or_entry (found_in catalog ns name ps pt_br) (found_in catalog ns name ps en))

  abbrev text_or_key : Text → Option Text → Text
  text_or_key key none = key
  text_or_key key (some s) = s

  abbrev name_of : Text → Text → Option (Text × Text) → Text × Text
  name_of namespace key none = (namespace, key)
  name_of namespace key (some split) = split

  unfoldable pub translate : Catalog → SupportedLang → Text → Text → Option TParams → Text
  unfolding lookup namespaced_key
  translate catalog lang namespace key ps =
      let named = name_of namespace key (namespaced_key key) in
      text_or_key key (lookup catalog lang named.0 named.1 ps)

-- The parameter `lower` is `toLowerCase`.
unfoldable pub match_lang : (Text → Text) → Text → Option SupportedLang
match_lang lower tag =
    let s = lower tag in
    if starts_with s (codes "zh")
    then some zh
    else if starts_with s (codes "vi")
    then some vi
    else if starts_with s (codes "pt")
    then some pt_br
    else if starts_with s (codes "en")
    then some en
    else none

abbrev lang_of_code : Text → Option SupportedLang
lang_of_code s =
    if text_eq s (codes "en")
    then some en
    else if text_eq s (codes "zh")
    then some zh
    else if text_eq s (codes "vi")
    then some vi
    else if text_eq s (codes "pt-BR")
    then some pt_br
    else none

abbrev first_lang : (Text → Text) → List Text → SupportedLang
first_lang lower [] = en
first_lang lower (tag ∷ tags) = elim (match_lang lower tag) [
  | none ↦ first_lang lower tags
  | some lang ↦ lang
]

abbrev stored_lang : Option Text → Option SupportedLang
stored_lang none = none
stored_lang (some s) = lang_of_code s

-- `stored` is what storage holds, and `preferred` are the languages of the browser.
unfoldable pub get_initial_lang : (Text → Text) → Option Text → List Text → SupportedLang
unfolding match_lang
get_initial_lang lower stored preferred = elim (stored_lang stored) [
  | none ↦ first_lang lower preferred
  | some lang ↦ lang
]
