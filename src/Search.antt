-- ===== src/Search.antt =====
-- ui/src/routes/-search.ts: the search parameters of the routes, validated from the raw URL search.
pub mod Values
pub mod Fields
pub mod Reading
pub mod Again
mod Tests
use Prim.Native.String.{String}
use kiro_reverse_api.Prelude.{
  ℕ, zero, suc, Bool, true, false, not, ◌&&◌, ◌||◌, List, [], ◌∷◌, ◌++◌, map, Option, none, some,
  if◌then◌else◌, ◌==◌, take, drop,
}
use kiro_reverse_api.Prelude.Int.{ℤ, pos, negsuc, eq_ℤ}
use kiro_reverse_api.Text.{Text, codes, text_eq, is_full, starts_with, index_of}
use kiro_reverse_api.Text.Decimal.{print_ℤ}
use kiro_reverse_api.Search.Values.{
  OverviewRange, AccountStatusFilter, AccountSort, RequestSort, status, RequestStatus, success,
  failed, SortOrder, asc, desc, OnOff, on, off, range_name, filter_name, account_sort_name,
  request_sort_name, request_status_name, order_name, on_off_name, overview_ranges,
  account_status_filters, account_sorts, request_sorts, page_sizes,
}

-- A JavaScript number: a whole one, another finite one by its text (not empty), or NaN and the
-- infinities.
pub data Number : Type 0 where
  whole : ℤ → Number
  fraction : ℕ → Text → Number
  not_finite : Number

-- A value of the raw search; `other` is null, an array or an object.
pub data Raw : Type 0 where
  missing other : Raw
  boolean : Bool → Raw
  number : Number → Raw
  string : Text → Raw

module _ {ℓ} {T : Type ℓ} (name : T → Text) where
  abbrev pub named : Text → List T → Option T
  named s [] = none
  named s (t ∷ ts) = if text_eq (name t) s then some t else named s ts

  unfoldable pub one_of : Raw → List T → Option T
  one_of (string s) allowed = named s allowed
  one_of missing allowed = none
  one_of other allowed = none
  one_of (boolean b) allowed = none
  one_of (number n) allowed = none

unfoldable pub text : Raw → Option Text
text (number (whole z)) = some (print_ℤ z)
text (number (fraction c s)) = some (c ∷ s)
text (number not_finite) = none
text (string s) = if is_full s then some s else none
text missing = none
text other = none
text (boolean b) = none

abbrev pub whole_part : Number → Option ℤ
whole_part (whole z) = some z
whole_part (fraction c s) = none
whole_part not_finite = none

abbrev one_or_more : Option ℤ → Option ℤ
one_or_more (some (pos (suc n))) = some (pos (suc n))
one_or_more (some (pos zero)) = none
one_or_more (some (negsuc n)) = none
one_or_more none = none

abbrev one_of_sizes : Option ℤ → List ℤ → Option ℤ
one_of_sizes none sizes = none
one_of_sizes (some n) [] = none
one_of_sizes (some n) (m ∷ ms) = if eq_ℤ m n then some n else one_of_sizes (some n) ms

pub record OverviewSearch : Type 0 where
  pub range : Option OverviewRange

-- `add` is `true` where the source has the key.
pub record AccountsSearch : Type 0 where
  pub add : Bool
  pub q : Option Text
  pub status : Option AccountStatusFilter
  pub plan : Option Text
  pub auth : Option Text
  pub region : Option Text
  pub enabled : Option OnOff
  pub sort : Option AccountSort
  pub order : Option SortOrder
  pub page : Option ℤ
  pub page_size : Option ℤ

pub record RequestsSearch : Type 0 where
  pub page : Option ℤ
  pub page_size : Option ℤ
  pub search : Option Text
  pub status : Option RequestStatus
  pub sort : Option RequestSort
  pub order : Option SortOrder

unfoldable pub validate_overview_search : (Text → Raw) → OverviewSearch
unfolding one_of
validate_overview_search input = record {
  range = one_of range_name (input (codes "range")) overview_ranges;
}

abbrev pub is_add : Raw → Bool
is_add (boolean b) = b
is_add (number (whole z)) = eq_ℤ z (pos 1)
is_add (number (fraction c s)) = false
is_add (number not_finite) = false
is_add (string s) = text_eq s (codes "1") || text_eq s (codes "true")
is_add missing = false
is_add other = false

abbrev pub legacy_enabled : Raw → Option OnOff
legacy_enabled (string s) = if text_eq s (codes "enabled") then some on else none
legacy_enabled missing = none
legacy_enabled other = none
legacy_enabled (boolean b) = none
legacy_enabled (number n) = none

-- `a ?? b` where `b` may be undefined too
abbrev pub either {ℓ} : {T : Type ℓ} → Option T → Option T → Option T
either none b = b
either (some a) b = some a

-- The parameter `to_number` is `Number(s)` on strings.
module _ (to_number : Text → Number) where
  unfoldable pub integer : Raw → Option ℤ
  integer (number n) = whole_part n
  integer (string s) = whole_part (to_number s)
  integer missing = none
  integer other = none
  integer (boolean b) = none

  unfoldable pub page_number : Raw → Option ℤ
  unfolding integer
  page_number value = one_or_more (integer value)

  unfoldable pub page_size_of : Raw → Option ℤ
  unfolding integer
  page_size_of value = one_of_sizes (integer value) page_sizes

  unfoldable pub validate_accounts_search : (Text → Raw) → AccountsSearch
  unfolding one_of text page_number page_size_of
  validate_accounts_search input = record {
    add = is_add (input (codes "add"));
    q = text (input (codes "q"));
    status = one_of filter_name (input (codes "status")) account_status_filters;
    plan = text (input (codes "plan"));
    auth = text (input (codes "auth"));
    region = text (input (codes "region"));
    enabled =
        either (one_of on_off_name (input (codes "enabled")) (on ∷ off ∷ []))
          (legacy_enabled (input (codes "status")));
    sort = one_of account_sort_name (input (codes "sort")) account_sorts;
    order = one_of order_name (input (codes "order")) (asc ∷ desc ∷ []);
    page = page_number (input (codes "page"));
    page_size = page_size_of (input (codes "pageSize"));
  }

  unfoldable pub validate_requests_search : (Text → Raw) → RequestsSearch
  unfolding one_of text page_number page_size_of
  validate_requests_search input = record {
    page = page_number (input (codes "page"));
    page_size = page_size_of (input (codes "pageSize"));
    search = text (input (codes "search"));
    status = one_of request_status_name (input (codes "status")) (success ∷ failed ∷ []);
    sort = one_of request_sort_name (input (codes "sort")) request_sorts;
    order = one_of order_name (input (codes "order")) (asc ∷ desc ∷ []);
  }
