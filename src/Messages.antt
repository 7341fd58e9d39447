-- ===== src/Messages.antt =====
-- ui/src/lib/api/server-errors.ts: the message that the user reads for a thrown value.
mod Tables
pub mod Phrases
pub mod Full
mod Tests
pub use Tables.*
use kiro_reverse_api.Prelude.{
  ℕ, suc, ◌+◌, Bool, true, false, ◌&&◌, ◌||◌, not, List, [], ◌∷◌, ◌++◌, map, Option, none, some,
  if◌then◌else◌, ◌==◌, length, drop, any, is_some, or_else,
}
use kiro_reverse_api.Prelude.Int.{ℤ, minus_ℕ}
use kiro_reverse_api.Prelude.Sort.{sort_by}
use kiro_reverse_api.Text.{Text, codes, text_eq, is_full, starts_with, index_of_text, onto_first}
use kiro_reverse_api.Text.Params.{Param, param}
use kiro_reverse_api.Text.Trim.{trim, trim_start}
use kiro_reverse_api.Client.{ApiError}
use kiro_reverse_api.Client.Bodies.{record_of, string_of, body_field}

-- An entry's value, the last one with the key, as in a `Map` made of the entries.
abbrev pub map_get : Text → List (Text × Text) → Option Text
map_get key [] = none
map_get key ((k, v) ∷ es) = elim (map_get key es) [
  | none ↦ if text_eq k key then some v else none
  | some w ↦ some w
]

abbrev full_text : Option Text → Option Text
full_text none = none
full_text (some s) = if is_full s then some s else none

-- `error` is `none` for a value that is no ApiError.
unfoldable pub server_error_code : Option ApiError → Option Text
server_error_code none = none
server_error_code (some e) = full_text (string_of (body_field (codes "code") (record_of e.body)))

-- Phrases of the server and the rest of a message after one.
pub record Phrase : Type 0 where
  pub key : Text
  pub detail : Text

-- A longer phrase comes first.
abbrev pub by_length : Text × Text → Text × Text → ℤ
by_length a b = minus_ℕ (length b.0) (length a.0)

unfoldable pub phrases : List (Text × Text)
phrases = sort_by by_length server_error_phrases

abbrev is_colon : ℕ → Bool
is_colon c = c == b':' || c == 0xff1a

-- `.replace(/^\s*[:：]\s*/, "")` after the spaces at the start; `whole` is the text with them.
abbrev after_colon : Text → Text → Text
after_colon whole [] = whole
after_colon whole (c ∷ s) = if is_colon c then trim_start s else whole

abbrev pub detail_of : Text → Text
detail_of s = trim (after_colon s (trim_start s))

-- `text.split("; ")`
abbrev pub split_parts : Text → List Text
split_parts [] = [] ∷ []
split_parts (c ∷ []) = (c ∷ []) ∷ []
split_parts (c ∷ d ∷ s) =
    let after = split_parts s in
    let rest = split_parts (d ∷ s) in
    if c == b';' && d == b' ' then [] ∷ after else onto_first c rest

-- The parameters are `toLowerCase` and the translation function.
module _ (lower : Text → Text) where
  abbrev lower_key : Text × Text → Text × Text
  lower_key e = (lower e.0, e.1)

  unfoldable pub server_error_key : Text → Option Text
  server_error_key message = map_get (lower (trim message)) (map lower_key server_error_keys)

  abbrev phrase_at : Text → Text × Text → ℕ → Phrase
  phrase_at s e index = record { key = e.1; detail = detail_of (drop (index + length e.0) s) }

  abbrev pub phrase_or : Text → Text × Text → Option Phrase → Option ℕ → Option Phrase
  phrase_or s e later none = later
  phrase_or s e later (some index) = some (phrase_at s e index)

  -- The loop over the phrases.
  abbrev pub first_phrase : Text → List (Text × Text) → Option Phrase
  first_phrase s [] = none
  first_phrase s (e ∷ es) = phrase_or s e (first_phrase s es) (index_of_text (lower s) (lower e.0))

  unfoldable pub server_error_phrase : Text → Option Phrase
  unfolding phrases
  server_error_phrase message = first_phrase (trim message) phrases

  module _ (t : Text → List Param → Text) where
    abbrev pub phrase_text : Phrase → Text
    phrase_text p =
        let s = t p.key [] in
        if is_full p.detail
        then t (codes "common:text.joinSentences") (
            param (codes "first") s
            ∷ param (codes "second")
                (t (codes "errors:serverError.detail") (param (codes "detail") p.detail ∷ []))
            ∷ [])
        else s

    abbrev pub translated_phrase : Option Phrase → Option Text
    translated_phrase none = none
    translated_phrase (some p) = some (phrase_text p)

    abbrev pub translated_or : Option Text → Text → Option Text
    translated_or (some key) message = some (t key [])
    translated_or none message = translated_phrase (server_error_phrase message)

    unfoldable pub translate_server_message : Text → Option Text
    unfolding server_error_key server_error_phrase
    translate_server_message message = translated_or (server_error_key message) message

    -- `translated.map((part, index) => part ?? parts[index]).join(" ")`
    abbrev pub join_translated : List Text → Text
    join_translated [] = []
    join_translated (p ∷ []) = or_else (translate_server_message p) p
    join_translated (p ∷ q ∷ ps) =
        or_else (translate_server_message p) p ++ b' ' ∷ join_translated (q ∷ ps)

    abbrev pub is_translated : Text → Bool
    is_translated p = is_some (translate_server_message p)

    abbrev pub of_parts : Text → Text
    of_parts message =
        if any is_translated (split_parts message)
        then join_translated (split_parts message)
        else message

    abbrev pub of_message : Text → Option Text → Text
    of_message message (some key) = t key []
    of_message message none = of_parts message

    abbrev pub code_key : Option Text → Option Text
    code_key none = none
    code_key (some code) = map_get code server_error_codes

    abbrev pub of_code : ApiError → Text → Option Text → Text
    of_code e fallback_key (some key) = t key []
    of_code e fallback_key none =
        let message = trim e.server_message in
        if not (is_full message)
        then t fallback_key []
        else of_message message (server_error_key message)

    unfoldable pub error_message : Option ApiError → Text → Text
    unfolding server_error_code server_error_key translate_server_message
    error_message none fallback_key = t fallback_key []
    error_message (some e) fallback_key =
        if e.status == 0
        then t (codes "errors:network") []
        else of_code e fallback_key (code_key (server_error_code (some e)))
