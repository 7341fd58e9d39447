-- ===== src/Search/Tests.antt =====
-- Search parameters at concrete raw searches.
use kiro_reverse_api.Prelude.{◌<◌, ◌↔◌, ◌≡◌, refl, [], ◌∷◌, some, none, true}
use kiro_reverse_api.Prelude.Int.{pos}
use kiro_reverse_api.Text.{Text, codes}
use kiro_reverse_api.Text.Decimal.{print_ℤ}
use kiro_reverse_api.Search.{
  Raw, Number, number, string, whole, not_finite, validate_accounts_search,
  validate_requests_search, validate_overview_search, one_of, text, page_number, page_size_of,
  integer,
}
use kiro_reverse_api.Search.Values.{account, on, six_hours, attention, filter_name}
use kiro_reverse_api.Search.Reading.{IsWhole, IsOn}
use kiro_reverse_api.Search.Again.{validate_accounts_search-again}
use kiro_reverse_api.Search.Fields.{entry, IsPage, raw_accounts}

-- Stands for `Number(s)`.
abbrev to_number : Text → Number
to_number s = not_finite

abbrev old_link : Text → Raw
old_link = entry (
    (codes "status", string (codes "enabled"))
    ∷ (codes "page", number (whole (pos 0)))
    ∷ (codes "pageSize", number (whole (pos 50)))
    ∷ (codes "q", number (whole (pos 42)))
    ∷ (codes "add", string (codes "true"))
    ∷ [])

abbrev sorted : Text → Raw
sorted = entry (
    (codes "sort", string (codes "account"))
    ∷ (codes "order", string (codes "desc"))
    ∷ (codes "page", number (whole (pos 3)))
    ∷ [])

old_link-validated : validate_accounts_search to_number old_link ≡ record {
  add = true;
  q = some (codes "42");
  status = none;
  plan = none;
  auth = none;
  region = none;
  enabled = some on;
  sort = none;
  order = none;
  page = none;
  page_size = some (pos 50);
}
unfolding validate_accounts_search one_of text page_number page_size_of integer print_ℤ
old_link-validated = refl

range-read :
    validate_overview_search (entry ((codes "range", string (codes "6h")) ∷ []))
    ≡ record { range = some six_hours }
unfolding validate_overview_search one_of
range-read = refl

sorted-validated : (validate_requests_search to_number sorted).sort ≡ some account
unfolding validate_requests_search one_of text page_number page_size_of integer
sorted-validated = refl

-- A page and a status.
abbrev page_link : Text → Raw
page_link =
    entry
      ((codes "page", number (whole (pos 4))) ∷ (codes "status", string (codes "attention")) ∷ [])

page_link-read :
    ((validate_accounts_search to_number page_link).page ≡ some (pos 4))
    × ((validate_accounts_search to_number page_link).status ≡ some attention)
unfolding validate_accounts_search one_of text page_number page_size_of integer print_ℤ
page_link-read = (refl, refl)

validate_accounts_search-again_example :
    let s = validate_accounts_search to_number page_link in
    ((s.page ≡ some (pos 4)) ↔ ((0 < 4) × IsWhole to_number (page_link (codes "page")) (pos 4)))
    × IsPage s.page
    × ((s.status ≡ some attention) ↔ (page_link (codes "status") ≡ string (filter_name attention)))
    × ((s.enabled ≡ some on) ↔ IsOn (page_link (codes "enabled")) (page_link (codes "status")))
    × (validate_accounts_search to_number (raw_accounts s) ≡ s)
validate_accounts_search-again_example =
    validate_accounts_search-again to_number page_link 4 attention
