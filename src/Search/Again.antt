-- ===== src/Search/Again.antt =====
-- A validated search, read back as the raw search of the next navigation, is valid as it is.
use kiro_reverse_api.Prelude.{ℕ, ◌<◌, ◌≡◌, ◌↔◌, some, [], ◌∷◌}
use kiro_reverse_api.Prelude.Int.{pos}
use kiro_reverse_api.Text.{Text, codes}
use kiro_reverse_api.Search.{
  Raw, string, Number, one_of, page_number, integer, validate_accounts_search,
  validate_requests_search, legacy_enabled, either, is_add,
}
use kiro_reverse_api.Search.Values.{
  AccountStatusFilter, filter_name, account_status_filters, account_sort_name, account_sorts,
  request_sort_name, request_sorts, request_status_name, success, failed, order_name, asc, desc,
  on_off_name, on, off,
}
use kiro_reverse_api.Search.Reading.{IsWhole, IsOn, page_number_iff, one_of_iff, enabled_on_iff}
use kiro_reverse_api.Search.Fields.{
  IsPage, account_sorts_read, add_again, either-none, enabled_again, filters_read, not_legacy,
  one_of_again, one_or_more-IsPage, orders_read, page_again, page_size_again, raw_accounts,
  raw_requests, request_sorts_read, request_statuses_read, text_again,
}

validate_requests-again :
    (f : Text → Number) (input : Text → Raw)
    → validate_requests_search f (raw_requests (validate_requests_search f input))
      ≡ validate_requests_search f input
unfolding validate_requests_search
validate_requests-again f input = rw (
  page_again f (input (codes "page")),
  page_size_again f (input (codes "pageSize")),
  text_again (input (codes "search")),
  one_of_again request_status_name (success ∷ failed ∷ []) request_statuses_read
      (input (codes "status")),
  one_of_again request_sort_name request_sorts request_sorts_read (input (codes "sort")),
  one_of_again order_name (asc ∷ desc ∷ []) orders_read (input (codes "order")),
)

validate_accounts-again :
    (f : Text → Number) (input : Text → Raw)
    → validate_accounts_search f (raw_accounts (validate_accounts_search f input))
      ≡ validate_accounts_search f input
unfolding validate_accounts_search
validate_accounts-again f input = rw (
  add_again (is_add (input (codes "add"))),
  text_again (input (codes "q")),
  one_of_again filter_name account_status_filters filters_read (input (codes "status")),
  text_again (input (codes "plan")),
  text_again (input (codes "auth")),
  text_again (input (codes "region")),
  enabled_again (
      either (one_of on_off_name (input (codes "enabled")) (on ∷ off ∷ []))
        (legacy_enabled (input (codes "status")))),
  not_legacy (one_of filter_name (input (codes "status")) account_status_filters),
  either-none (
      either (one_of on_off_name (input (codes "enabled")) (on ∷ off ∷ []))
        (legacy_enabled (input (codes "status")))),
  one_of_again account_sort_name account_sorts account_sorts_read (input (codes "sort")),
  one_of_again order_name (asc ∷ desc ∷ []) orders_read (input (codes "order")),
  page_again f (input (codes "page")),
  page_size_again f (input (codes "pageSize")),
)

-- Whatever the raw search, the validated one of the requests page has a page of 1 or more, and
-- validating it again, as the next navigation does, changes nothing.
pub validate_requests_search-again :
    (to_number : Text → Number) (input : Text → Raw)
    → let s = validate_requests_search to_number input in
      IsPage s.page × (validate_requests_search to_number (raw_requests s) ≡ s)
unfolding validate_requests_search page_number
validate_requests_search-again f input =
    (one_or_more-IsPage (integer f (input (codes "page"))), validate_requests-again f input)

-- Whatever the raw search of the accounts page: the validated one has a page exactly where the raw
-- value is a whole number of 1 or more, or a text of one, and then that page; a status exactly where
-- the raw value is the name of one; and the Enabled filter "on" exactly where the raw value is "on",
-- or is not "off" and the status is the old "enabled". Validating the result again, as the next
-- navigation does, changes nothing.
pub validate_accounts_search-again :
    (to_number : Text → Number) (input : Text → Raw) (n : ℕ) (status : AccountStatusFilter)
    → let s = validate_accounts_search to_number input in
      ((s.page ≡ some (pos n)) ↔ ((0 < n) × IsWhole to_number (input (codes "page")) (pos n)))
      × IsPage s.page
      × ((s.status ≡ some status) ↔ (input (codes "status") ≡ string (filter_name status)))
      × ((s.enabled ≡ some on) ↔ IsOn (input (codes "enabled")) (input (codes "status")))
      × (validate_accounts_search to_number (raw_accounts s) ≡ s)
unfolding validate_accounts_search page_number
validate_accounts_search-again f input n status = (
  page_number_iff f (input (codes "page")) n,
  one_or_more-IsPage (integer f (input (codes "page"))),
  one_of_iff filter_name account_status_filters filters_read (input (codes "status")) status,
  enabled_on_iff (input (codes "enabled")) (input (codes "status")),
  validate_accounts-again f input,
)
