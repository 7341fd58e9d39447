-- ===== src/Search/Values.antt =====
-- The values that the search parameters of ui/src/routes/-search.ts may have, and their names.
use kiro_reverse_api.Prelude.{List, [], ◌∷◌, ◌++◌, map}
use kiro_reverse_api.Prelude.Int.{ℤ, pos}
use kiro_reverse_api.Text.{Text, codes}

pub data OverviewRange : Type 0 where
  hour six_hours day : OverviewRange

-- The statuses of an account row, the worst first.
pub data AccountStatus : Type 0 where
  banned suspended no_token out_of_credits expired disabled active : AccountStatus

pub data AccountStatusFilter : Type 0 where
  just : AccountStatus → AccountStatusFilter
  attention : AccountStatusFilter

pub data AccountSort : Type 0 where
  by_account by_status by_usage by_requests by_last_used by_expiry : AccountSort

pub data RequestSort : Type 0 where
  time status account api_key model tokens credits duration : RequestSort

pub data RequestStatus : Type 0 where
  success failed : RequestStatus

pub data SortOrder : Type 0 where
  asc desc : SortOrder

pub data OnOff : Type 0 where
  on off : OnOff

abbrev pub range_name : OverviewRange → Text
range_name hour = codes "1h"
range_name six_hours = codes "6h"
range_name day = codes "24h"

abbrev pub status_name : AccountStatus → Text
status_name banned = codes "banned"
status_name suspended = codes "suspended"
status_name no_token = codes "noToken"
status_name out_of_credits = codes "outOfCredits"
status_name expired = codes "expired"
status_name disabled = codes "disabled"
status_name active = codes "active"

abbrev pub filter_name : AccountStatusFilter → Text
filter_name (just s) = status_name s
filter_name attention = codes "attention"

abbrev pub account_sort_name : AccountSort → Text
account_sort_name by_account = codes "account"
account_sort_name by_status = codes "status"
account_sort_name by_usage = codes "usage"
account_sort_name by_requests = codes "requests"
account_sort_name by_last_used = codes "lastUsed"
account_sort_name by_expiry = codes "expiry"

abbrev pub request_sort_name : RequestSort → Text
request_sort_name time = codes "time"
request_sort_name status = codes "status"
request_sort_name account = codes "account"
request_sort_name api_key = codes "api_key"
request_sort_name model = codes "model"
request_sort_name tokens = codes "tokens"
request_sort_name credits = codes "credits"
request_sort_name duration = codes "duration"

abbrev pub request_status_name : RequestStatus → Text
request_status_name success = codes "success"
request_status_name failed = codes "failed"

abbrev pub order_name : SortOrder → Text
order_name asc = codes "asc"
order_name desc = codes "desc"

abbrev pub on_off_name : OnOff → Text
on_off_name on = codes "on"
on_off_name off = codes "off"

abbrev pub overview_ranges : List OverviewRange
overview_ranges = hour ∷ six_hours ∷ day ∷ []

abbrev pub account_statuses : List AccountStatus
account_statuses = banned ∷ suspended ∷ no_token ∷ out_of_credits ∷ expired ∷ disabled ∷ active ∷ []

abbrev pub account_status_filters : List AccountStatusFilter
account_status_filters = map just account_statuses ++ attention ∷ []

abbrev pub account_sorts : List AccountSort
account_sorts = by_account ∷ by_status ∷ by_usage ∷ by_requests ∷ by_last_used ∷ by_expiry ∷ []

abbrev pub request_sorts : List RequestSort
request_sorts = time ∷ status ∷ account ∷ api_key ∷ model ∷ tokens ∷ credits ∷ duration ∷ []

abbrev pub page_sizes : List ℤ
page_sizes = pos 25 ∷ pos 50 ∷ pos 100 ∷ []
