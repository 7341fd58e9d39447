-- ===== src/Accounts/Counts.antt =====
-- The count of a filter's option is the number of rows that the filter shows.
use kiro_reverse_api.Prelude.{
  ◌&&◌, ◌≡◌, refl, sym, ap, ◌∙◌, Bool, true, false, List, [], ◌∷◌, none, some, All, All-both,
  keep_same, length,
}
use kiro_reverse_api.Prelude.Int.{ℤ}
use kiro_reverse_api.Prelude.Sort.{sort_by-All}
use kiro_reverse_api.Text.{Text, text_eq}
use kiro_reverse_api.Text.Trim.{trim, trim_end}
use kiro_reverse_api.Search.{named}
use kiro_reverse_api.Search.Values.{
  AccountStatus, just, OnOff, on, off, filter_name, account_status_filters, status_name,
  on_off_name,
}
use kiro_reverse_api.Accounts.{Account}
use kiro_reverse_api.Accounts.Standing.{account_status}
use kiro_reverse_api.Accounts.Filters.{
  FilterDimension, of_status, of_plan, of_auth, of_region, of_enabled, AccountFilters, FilterOption,
  dimension_value, tally, filter_options, filter_accounts, passes, option_order, on_or_off,
}
use kiro_reverse_api.Accounts.Tallies.{All-tallied, counts-tallied}

-- The filters with one value of one dimension, as a link of that option sets them.
abbrev pub only : FilterDimension → Text → AccountFilters
only of_status v = record {
  q = none;
  status = named filter_name v account_status_filters;
  plan = none;
  auth = none;
  region = none;
  enabled = none;
}
only of_plan v = record {
  q = none;
  status = none;
  plan = some v;
  auth = none;
  region = none;
  enabled = none;
}
only of_auth v = record {
  q = none;
  status = none;
  plan = none;
  auth = some v;
  region = none;
  enabled = none;
}
only of_region v = record {
  q = none;
  status = none;
  plan = none;
  auth = none;
  region = some v;
  enabled = none;
}
only of_enabled v = record {
  q = none;
  status = none;
  plan = none;
  auth = none;
  region = none;
  enabled = named on_off_name v (on ∷ off ∷ []);
}

-- The values that a dimension can have.
IsValue : FilterDimension → Text → Type 0
IsValue of_status v = (s : AccountStatus) × (v ≡ status_name s)
IsValue of_plan v = Unit
IsValue of_auth v = Unit
IsValue of_region v = Unit
IsValue of_enabled v = (b : OnOff) × (v ≡ on_off_name b)

status_named :
    (s : AccountStatus) → named filter_name (status_name s) account_status_filters ≡ some (just s)
status_named AccountStatus.banned = refl
status_named AccountStatus.suspended = refl
status_named AccountStatus.no_token = refl
status_named AccountStatus.out_of_credits = refl
status_named AccountStatus.expired = refl
status_named AccountStatus.disabled = refl
status_named AccountStatus.active = refl

on_off_named : (b : OnOff) → named on_off_name (on_off_name b) (on ∷ off ∷ []) ≡ some b
on_off_named on = refl
on_off_named off = refl

and_true : (b : Bool) → ((b && true) && true) ≡ b
and_true true = refl
and_true false = refl

module _ (lower upper : Text → Text) (empty : lower [] ≡ []) where
  passes-only :
      (dimension : FilterDimension) (v : Text) (now : ℤ)
      → IsValue dimension v
      → (a : Account)
      → passes lower upper (only dimension v) now a
        ≡ text_eq (dimension_value lower upper a dimension now) v
  unfolding passes dimension_value IsValue trim trim_end
  passes-only of_status v now h a = rw (h.1, status_named h.0, empty) (and_true _)
  passes-only of_plan v now h a = rw empty (and_true _)
  passes-only of_auth v now h a = rw empty (and_true _)
  passes-only of_region v now h a = rw empty (and_true _)
  passes-only of_enabled v now h a = rw (h.1, on_off_named h.0, empty) (and_true _)

  dimension_value-IsValue :
      (dimension : FilterDimension) (now : ℤ) (a : Account)
      → IsValue dimension (dimension_value lower upper a dimension now)
  unfolding dimension_value IsValue
  dimension_value-IsValue of_status now a = (account_status a now, refl)
  dimension_value-IsValue of_plan now a = tt
  dimension_value-IsValue of_auth now a = tt
  dimension_value-IsValue of_region now a = tt
  dimension_value-IsValue of_enabled now a = (on_or_off a.enabled, refl)

  -- Each option of a filter shows how many rows the page lists when that option alone is chosen,
  -- whatever the order of the options. Lower case of the empty text is empty.
  pub filter_options-count :
      (t : Text → Text) (compare : Text → Text → ℤ) (dimension : FilterDimension) (now : ℤ)
      (accounts : List Account)
      → All
          (λ (o : FilterOption).
            o.count ≡ length (filter_accounts lower upper accounts (only dimension o.value) now))
          (filter_options lower upper t dimension now compare accounts)
  unfolding filter_options filter_accounts
  filter_options-count t compare dimension now accounts =
      let os = tally lower upper t dimension now [] accounts in
      sort_by-All (option_order compare dimension) _ os (
        All-both os
          (λ o e h.
            e ∙ ap length (sym (keep_same _ _ accounts (passes-only dimension o.value now h))))
          (counts-tallied lower upper t dimension now accounts)
          (All-tallied lower upper t dimension now (IsValue dimension) [] accounts
            (dimension_value-IsValue dimension now) tt))
