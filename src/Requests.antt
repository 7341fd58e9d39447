-- ===== src/Requests.antt =====
-- ui/src/features/requests/request-model.ts: the query of the Requests page, the search that its
-- URL carries, the tone of an error and the mask of an API key.
pub mod Query
pub mod Mask
mod Tests
use kiro_reverse_api.Prelude.{
  ℕ, Bool, true, false, not, ◌&&◌, ◌||◌, List, [], ◌∷◌, ◌++◌, ◌-◌, Option, none, some, or_else,
  is_some, if◌then◌else◌, leb, take, drop, length,
}
use kiro_reverse_api.Prelude.Int.{ℤ, pos, eq_ℤ}
use kiro_reverse_api.Text.{Text, codes, text_eq, is_full, includes, one_of_texts}
use kiro_reverse_api.Text.Decimal.{print_ℕ, print_ℤ}
use kiro_reverse_api.Text.Trim.{trim}
use kiro_reverse_api.Search.{RequestsSearch}
use kiro_reverse_api.Search.Values.{
  RequestSort, time, request_sort_name, RequestStatus, SortOrder, desc, order_name,
}

abbrev pub default_page : ℤ
default_page = pos 1

abbrev pub default_page_size : ℤ
default_page_size = pos 25

abbrev pub default_sort : RequestSort
default_sort = time

abbrev pub default_order : SortOrder
default_order = desc

abbrev error_types : List Text
error_types =
    codes "client_closed"
    ∷ codes "api_key_limit"
    ∷ codes "overage"
    ∷ codes "quota"
    ∷ codes "suspended"
    ∷ codes "profile"
    ∷ codes "auth"
    ∷ codes "stream"
    ∷ codes "no_accounts"
    ∷ codes "invalid_request"
    ∷ codes "rate_limit"
    ∷ codes "timeout"
    ∷ codes "upstream"
    ∷ codes "unknown"
    ∷ []

abbrev endpoints : List Text
endpoints = codes "claude" ∷ codes "openai" ∷ codes "responses" ∷ []

pub data ErrorTone : Type 0 where
  muted warning destructive : ErrorTone

abbrev muted_types : List Text
muted_types = codes "client_closed" ∷ codes "invalid_request" ∷ codes "api_key_limit" ∷ []

abbrev warning_types : List Text
warning_types =
    codes "stream" ∷ codes "timeout" ∷ codes "rate_limit" ∷ codes "upstream" ∷ codes "unknown" ∷ []

abbrev is_in : List Text → Option Text → Bool
is_in ts none = false
is_in ts (some t) = is_full t && one_of_texts ts t

unfoldable pub error_type_tone : Option Text → ErrorTone
error_type_tone type =
    if is_in muted_types type
    then muted
    else if is_in warning_types type
    then warning
    else destructive

abbrev is_one_of : List Text → Option Text → Bool
is_one_of ts none = false
is_one_of ts (some t) = one_of_texts ts t

unfoldable pub is_known_error_type : Option Text → Bool
is_known_error_type type = is_one_of error_types type

unfoldable pub is_known_endpoint : Option Text → Bool
is_known_endpoint endpoint = is_one_of endpoints endpoint

abbrev pub mask : Text
mask = codes "****"

-- A key that is there.
unfoldable pub mask_key : Text → Text
mask_key value =
    if includes value mask || leb (length value) 10
    then value
    else take 6 value ++ (mask ++ drop (length value - 4) value)

unfoldable pub normalize_api_key_mask : Option Text → Text
unfolding mask_key
normalize_api_key_mask none = []
normalize_api_key_mask (some value) = if is_full value then mask_key value else []

unfoldable pub row_key : Option ℤ → ℤ → ℕ → Text
row_key none ts index = print_ℤ ts ++ (codes "-" ++ print_ℕ index)
row_key (some id) ts index = print_ℤ id

pub record RecentRequestsParams : Type 0 where
  pub page : ℤ
  pub page_size : ℤ
  pub sort : RequestSort
  pub order : SortOrder
  pub search : Option Text
  pub status : Option RequestStatus

-- `search?.trim()` where it is not empty
abbrev full_text : Text → Option Text
full_text s = if is_full s then some s else none

unfoldable pub search_text : Option Text → Option Text
search_text none = none
search_text (some s) = full_text (trim s)

unfoldable pub to_query_params : RequestsSearch → RecentRequestsParams
unfolding search_text
to_query_params s = record {
  page = or_else s.page default_page;
  page_size = or_else s.page_size default_page_size;
  sort = or_else s.sort default_sort;
  order = or_else s.order default_order;
  search = search_text s.search;
  status = s.status;
}

-- A value that is not the default.
abbrev unless_default : ℤ → Option ℤ → Option ℤ
unless_default d none = none
unless_default d (some n) = if eq_ℤ n d then none else some n

abbrev is_default_sort : RequestSort → SortOrder → Bool
is_default_sort sort order =
    text_eq (request_sort_name sort) (request_sort_name default_sort)
    && text_eq (order_name order) (order_name default_order)

unfoldable pub clean_search : RequestsSearch → RequestsSearch
unfolding search_text
clean_search s =
    let sort = or_else s.sort default_sort in
    let order = or_else s.order default_order in
    record {
      page = unless_default default_page s.page;
      page_size = unless_default default_page_size s.page_size;
      search = search_text s.search;
      status = s.status;
      sort = if is_default_sort sort order then none else some sort;
      order = if is_default_sort sort order then none else some order;
    }

-- A newly sorted column starts descending for time and ascending for everything else.
unfoldable pub default_sort_desc : Text → Bool
default_sort_desc column = text_eq column (codes "time")

unfoldable pub has_filters : RequestsSearch → Bool
unfolding search_text
has_filters s = is_some (search_text s.search) || is_some s.status
