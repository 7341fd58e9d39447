-- ===== src/Client/Bodies.antt =====
-- ui/src/lib/api/client.ts: a response, and what is read from its headers and its body.
use kiro_reverse_api.Prelude.{
  ℕ, Bool, false, not, ◌&&◌, [], Option, none, some, or_else, if◌then◌else◌, leb, ltb,
}
use kiro_reverse_api.Prelude.Int.{ℤ}
use kiro_reverse_api.Text.{Text, is_full}
use kiro_reverse_api.Text.Decimal.{parse_int}
use kiro_reverse_api.Json.{Json, null, flag, num, str, arr, obj, Fields, get_field}

-- A response: its text is `none` when reading the body fails.
pub record Response : Type 0 where
  pub status : ℕ
  pub status_text : Text
  pub body_text : Option Text
  pub retry_after_header : Option Text

abbrev pub is_ok : Response → Bool
is_ok r = leb 200 r.status && ltb r.status 300

unfoldable pub parse_retry_after : Option Text → Option ℤ
parse_retry_after none = none
parse_retry_after (some header) = if is_full header then parse_int header else none

-- `isRecord(body)`, with its entries
abbrev pub record_of : Option Json → Option Fields
record_of (some (obj fs)) = some fs
record_of (some null) = none
record_of (some (flag b)) = none
record_of (some (num n)) = none
record_of (some (str s)) = none
record_of (some (arr xs)) = none
record_of none = none

abbrev pub string_of : Option Json → Option Text
string_of (some (str s)) = some s
string_of (some null) = none
string_of (some (flag b)) = none
string_of (some (num n)) = none
string_of (some (arr xs)) = none
string_of (some (obj fs)) = none
string_of none = none

abbrev pub number_of : Option Json → Option Text
number_of (some (num n)) = some n
number_of (some null) = none
number_of (some (flag b)) = none
number_of (some (str s)) = none
number_of (some (arr xs)) = none
number_of (some (obj fs)) = none
number_of none = none

abbrev pub is_false : Option Json → Bool
is_false (some (flag b)) = not b
is_false (some null) = false
is_false (some (num n)) = false
is_false (some (str s)) = false
is_false (some (arr xs)) = false
is_false (some (obj fs)) = false
is_false none = false

-- `body.key` where the body is a record
abbrev pub body_field : Text → Option Fields → Option Json
body_field key none = none
body_field key (some fs) = get_field key fs

-- A parsed null is the same body as no body.
abbrev pub non_null : Option Json → Option Json
non_null (some null) = none
non_null (some (flag b)) = some (flag b)
non_null (some (num n)) = some (num n)
non_null (some (str s)) = some (str s)
non_null (some (arr xs)) = some (arr xs)
non_null (some (obj fs)) = some (obj fs)
non_null none = none

abbrev pub text_or_empty : Option Text → Text
text_or_empty o = or_else o []
