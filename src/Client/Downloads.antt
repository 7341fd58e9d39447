-- ===== src/Client/Downloads.antt =====
-- ui/src/lib/api/client.ts: a download and the name that its Content-Disposition header gives it. The
-- regular expression of `filenameFrom` is matched from left to right, with its one way back.
pub mod Names
mod Tests
use kiro_reverse_api.Prelude.{
  ℕ, ◌+◌, Bool, true, false, not, ◌&&◌, ◌||◌, List, [], ◌∷◌, Option, none, some, or_else,
  if◌then◌else◌, ◌==◌, leb, drop,
}
use kiro_reverse_api.Text.{Text, codes}
use kiro_reverse_api.Text.Trim.{trim}
use kiro_reverse_api.Json.{Json}
use kiro_reverse_api.Session.{Store}
use kiro_reverse_api.Client.{Outcome, ok, ◌>>=◌, Fetched, send_finish}
use kiro_reverse_api.Client.Bodies.{Response}

-- The flag `i`: units are compared without the case of ASCII letters.
abbrev pub fold_case : ℕ → ℕ
fold_case c = if leb b'A' c && leb c b'Z' then c + 32 else c

-- The text after a word that it starts with.
abbrev pub after_word : Text → Text → Option Text
after_word [] s = some s
after_word (w ∷ ws) [] = none
after_word (w ∷ ws) (c ∷ s) = if fold_case c == fold_case w then after_word ws s else none

-- `[^";]`
abbrev pub is_name_unit : ℕ → Bool
is_name_unit c = not (c == b'"') && not (c == b';')

abbrev pub name_units : Text → Text
name_units [] = []
name_units (c ∷ s) = if is_name_unit c then c ∷ name_units s else []

-- A group of one unit at least
abbrev full_name : Text → Option Text
full_name [] = none
full_name (c ∷ s) = some (c ∷ s)

abbrev drop_quote : Text → Text
drop_quote [] = []
drop_quote (c ∷ s) = if c == b'"' then s else c ∷ s

-- `"?([^";]+)"?`: where the quote is taken and no name follows, the name cannot start at it either.
abbrev pub quoted_name : Text → Option Text
quoted_name s = full_name (name_units (drop_quote s))

abbrev or_name : Option Text → Option Text → Option Text
or_name none other = other
or_name (some name) other = some name

abbrev after_prefix : Text → Option Text → Option Text
after_prefix s none = quoted_name s
after_prefix s (some rest) = or_name (quoted_name rest) (quoted_name s)

-- `(?:UTF-8'')?` and the name: the prefix is taken if a name follows it.
abbrev pub encoded_name : Text → Option Text
encoded_name s = after_prefix s (after_word (codes "UTF-8''") s)

abbrev drop_star : Text → Text
drop_star [] = []
drop_star (c ∷ s) = if c == b'*' then s else c ∷ s

abbrev after_equals : Text → Option Text
after_equals [] = none
after_equals (c ∷ s) = if c == b'=' then encoded_name s else none

abbrev after_key : Option Text → Option Text
after_key none = none
after_key (some s) = after_equals (drop_star s)

-- The match at this place
abbrev pub name_here : Text → Option Text
name_here s = after_key (after_word (codes "filename") s)

-- The first match
abbrev pub find_name : Text → Option Text
find_name [] = name_here []
find_name (c ∷ s) = or_name (name_here (c ∷ s)) (find_name s)

-- The parameter `decode` is `decodeURIComponent`, `none` where it throws.
module _ (decode : Text → Option Text) where
  abbrev decoded_name : Option Text → Option Text
  decoded_name none = none
  decoded_name (some name) = some (or_else (decode (trim name)) (trim name))

  unfoldable pub filename_from : Option Text → Option Text
  filename_from none = none
  filename_from (some []) = none
  filename_from (some (c ∷ s)) = decoded_name (find_name (c ∷ s))

-- `apiBlob` from the end of its `fetch` on. `blob` is the body of a response, and `disposition` its
-- Content-Disposition header.
unfoldable pub blob_finish {ℓ} :
    {Blob : Type ℓ}
    → (Text → Option Json)
    → (Text → Option Text)
    → (Response → Outcome Blob)
    → (Response → Option Text)
    → ℕ
    → Option Text
    → Fetched
    → Store
    → Store × Outcome (Blob × Option Text)
unfolding filename_from
blob_finish json_parse decode blob disposition now token fetched st =
    let (st', sent) = send_finish json_parse now token fetched st in
    (st', sent >>= λ r. blob r >>= λ b. ok (b, filename_from decode (disposition r)))
