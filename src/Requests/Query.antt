-- ===== src/Requests/Query.antt =====
-- The search that the URL carries asks the server for the same rows.
use kiro_reverse_api.Prelude.{
  ◌≡◌, refl, ap, true, Option, none, some, or_else, if◌then◌else◌, arith, Bool-cases, inl, inr, [],
  ◌∷◌,
}
use kiro_reverse_api.Prelude.Int.{ℤ, eq_ℤ, eq_ℤ_iff}
use kiro_reverse_api.Text.{Text}
use kiro_reverse_api.Text.Trim.{trim}
use kiro_reverse_api.Text.Trimmed.{trim_again}
use kiro_reverse_api.Search.{RequestsSearch}
use kiro_reverse_api.Search.Values.{RequestSort, SortOrder, time, asc, desc}
use kiro_reverse_api.Requests.{
  search_text, full_text, unless_default, is_default_sort, to_query_params, clean_search,
  has_filters, default_sort, default_order, default_page, default_page_size,
}

full_text_again : (s : Text) → trim s ≡ s → search_text (full_text s) ≡ full_text s
unfolding search_text
full_text_again [] h = refl
full_text_again (c ∷ s) h = ap full_text h

search_text_again : (o : Option Text) → search_text (search_text o) ≡ search_text o
unfolding search_text
search_text_again none = refl
search_text_again (some s) = full_text_again (trim s) (trim_again s)

unless_default-or_else : (d : ℤ) (o : Option ℤ) → or_else (unless_default d o) d ≡ or_else o d
unless_default-or_else d none = refl
unless_default-or_else d (some n) = ground (arith, eq_ℤ_iff n d)

unless_default_again :
    (d : ℤ) (o : Option ℤ) → unless_default d (unless_default d o) ≡ unless_default d o
unless_default_again d none = refl
unless_default_again d (some n) = elim (Bool-cases (eq_ℤ n d)) [ inl e ↦ rw e | inr e ↦ rw (e, e) ]

is_default_sort_sound :
    (sort : RequestSort) (order : SortOrder)
    → is_default_sort sort order ≡ true
    → (sort ≡ default_sort) × (order ≡ default_order)
is_default_sort_sound time desc h = (refl, refl)
is_default_sort_sound time asc h = absurd (cc)
is_default_sort_sound RequestSort.status o h = absurd (cc)
is_default_sort_sound RequestSort.account o h = absurd (cc)
is_default_sort_sound RequestSort.api_key o h = absurd (cc)
is_default_sort_sound RequestSort.model o h = absurd (cc)
is_default_sort_sound RequestSort.tokens o h = absurd (cc)
is_default_sort_sound RequestSort.credits o h = absurd (cc)
is_default_sort_sound RequestSort.duration o h = absurd (cc)

sort_cleaned :
    (sort : RequestSort) (order : SortOrder)
    → or_else (if is_default_sort sort order then none else some sort) default_sort ≡ sort
sort_cleaned sort order = elim (Bool-cases (is_default_sort sort order)) [
  | inl e ↦ rw (e, (is_default_sort_sound sort order e).0)
  | inr e ↦ rw e
]

order_cleaned :
    (sort : RequestSort) (order : SortOrder)
    → or_else (if is_default_sort sort order then none else some order) default_order ≡ order
order_cleaned sort order = elim (Bool-cases (is_default_sort sort order)) [
  | inl e ↦ rw (e, (is_default_sort_sound sort order e).1)
  | inr e ↦ rw e
]

query_cleaned : (s : RequestsSearch) → to_query_params (clean_search s) ≡ to_query_params s
unfolding to_query_params clean_search
query_cleaned s = rw (
  unless_default-or_else default_page s.page,
  unless_default-or_else default_page_size s.page_size,
  search_text_again s.search,
  sort_cleaned (or_else s.sort default_sort) (or_else s.order default_order),
  order_cleaned (or_else s.sort default_sort) (or_else s.order default_order),
)

cleaned_again : (s : RequestsSearch) → clean_search (clean_search s) ≡ clean_search s
unfolding clean_search
cleaned_again s = rw (
  unless_default_again default_page s.page,
  unless_default_again default_page_size s.page_size,
  search_text_again s.search,
  sort_cleaned (or_else s.sort default_sort) (or_else s.order default_order),
  order_cleaned (or_else s.sort default_sort) (or_else s.order default_order),
)

filters_cleaned : (s : RequestsSearch) → has_filters (clean_search s) ≡ has_filters s
unfolding has_filters clean_search
filters_cleaned s = rw (search_text_again s.search)

-- The search that goes into the URL asks for the same rows as the viewer's, says as well whether a
-- filter is set, and cleaning it again changes nothing.
pub clean_search-query :
    (s : RequestsSearch)
    → (to_query_params (clean_search s) ≡ to_query_params s)
      × (has_filters (clean_search s) ≡ has_filters s)
      × (clean_search (clean_search s) ≡ clean_search s)
clean_search-query s = (query_cleaned s, filters_cleaned s, cleaned_again s)
