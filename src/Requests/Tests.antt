-- ===== src/Requests/Tests.antt =====
-- The Requests page at concrete searches and keys.
use kiro_reverse_api.Prelude.{◌≡◌, refl, true, false, none, some, []}
use kiro_reverse_api.Prelude.Int.{pos}
use kiro_reverse_api.Text.{codes}
use kiro_reverse_api.Text.Decimal.{print_ℕ, print_ℤ}
use kiro_reverse_api.Text.Trim.{trim}
use kiro_reverse_api.Search.{RequestsSearch}
use kiro_reverse_api.Search.Values.{duration, desc}
use kiro_reverse_api.Requests.{
  clean_search, search_text, to_query_params, normalize_api_key_mask, mask_key, row_key,
  error_type_tone, warning, muted, destructive, is_known_error_type, is_known_endpoint,
  default_sort_desc,
}
use kiro_reverse_api.Requests.Query.{clean_search-query}

abbrev by_duration : RequestsSearch
by_duration = record {
  page = some (pos 1);
  page_size = some (pos 50);
  search = some (codes "  gpt ");
  status = none;
  sort = some duration;
  order = none;
}

cleaned : clean_search by_duration ≡ record {
  page = none;
  page_size = some (pos 50);
  search = some (codes "gpt");
  status = none;
  sort = some duration;
  order = some desc;
}
unfolding clean_search search_text trim
cleaned = refl

long_key_shown : normalize_api_key_mask (some (codes "sk-abcdefghijkl")) ≡ codes "sk-abc****ijkl"
unfolding normalize_api_key_mask mask_key
long_key_shown = refl

no_key_shown : normalize_api_key_mask none ≡ []
unfolding normalize_api_key_mask
no_key_shown = refl

row_without_id : row_key none (pos 17) 3 ≡ codes "17-3"
unfolding row_key print_ℕ print_ℤ
row_without_id = refl

tones :
    (error_type_tone (some (codes "timeout")) ≡ warning)
    × (error_type_tone (some (codes "client_closed")) ≡ muted)
    × (error_type_tone none ≡ destructive)
unfolding error_type_tone
tones = (refl, refl, refl)

known :
    (is_known_error_type (some (codes "upstream")) ≡ true)
    × (is_known_endpoint (some (codes "other")) ≡ false)
    × (default_sort_desc (codes "time") ≡ true)
unfolding is_known_error_type is_known_endpoint default_sort_desc
known = (refl, refl, refl)

clean_search-query_example :
    to_query_params (clean_search by_duration) ≡ to_query_params by_duration
clean_search-query_example = (clean_search-query by_duration).0
