-- ===== src/AddAccount/Lines.antt =====
-- ui/src/features/add-account/lib/api-key-lines.ts and region.ts: pasted API keys, one per line, and
-- a region typed by hand.
pub mod Keys
pub mod Again
mod Tests
use kiro_reverse_api.Prelude.{
  ℕ, Bool, true, false, not, ◌&&◌, ◌||◌, List, [], ◌∷◌, map, some, if◌then◌else◌, ◌==◌, leb, length,
  all, keep,
}
use kiro_reverse_api.Text.{Text, codes, is_full, includes, split_on}
use kiro_reverse_api.Text.Trim.{trim}
use kiro_reverse_api.AddAccount.Credentials.{CredentialsImportRequest, empty_request}

abbrev pub is_newline : ℕ → Bool
is_newline c = c == 10

abbrev pub line_request : Text → Text → CredentialsImportRequest
line_request region key = record empty_request {
  kiro_api_key = some key;
  auth_method = some (codes "api_key");
  region = some (if includes key (codes "|") then [] else region);
}

unfoldable pub parse_api_key_lines : Text → Text → List CredentialsImportRequest
parse_api_key_lines s region =
    map (line_request region) (keep is_full (map trim (split_on is_newline s)))

abbrev pub default_region : Text
default_region = codes "us-east-1"

abbrev pub is_dash : ℕ → Bool
is_dash c = c == b'-'

abbrev pub is_small : ℕ → Bool
is_small c = leb b'a' c && leb c b'z'

abbrev pub is_number : ℕ → Bool
is_number c = leb b'0' c && leb c b'9'

abbrev pub is_small_or_number : ℕ → Bool
is_small_or_number c = is_small c || is_number c

-- One middle part or more, then a number.
abbrev pub rest_parts : List Text → Bool
rest_parts [] = false
rest_parts (w ∷ []) = false
rest_parts (w ∷ v ∷ []) = is_full w && all is_small_or_number w && is_full v && all is_number v
rest_parts (w ∷ v ∷ u ∷ ws) = is_full w && all is_small_or_number w && rest_parts (v ∷ u ∷ ws)

abbrev pub region_parts : List Text → Bool
region_parts [] = false
region_parts (w ∷ ws) = length w == 2 && all is_small w && rest_parts ws

-- `REGION_RE.test(s)`, by the parts between dashes.
unfoldable pub is_region : Text → Bool
is_region s = region_parts (split_on is_dash s)

pub data ParsedRegion : Type 0 where
  valid : Text → ParsedRegion
  invalid : ParsedRegion

-- The parameter `lower` is `toLowerCase`.
unfoldable pub parse_region : (Text → Text) → Text → ParsedRegion
parse_region lower raw =
    let region = lower (trim raw) in
    if not (is_full region)
    then valid default_region
    else if is_region region
    then valid region
    else invalid
