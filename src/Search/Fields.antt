-- ===== src/Search/Fields.antt =====
-- A validated value, passed on and validated again, stays the same.
use kiro_reverse_api.Prelude.{
  zero, suc, ◌≡◌, ◌⊎◌, refl, ap, sym, ◌∙◌, Bool, true, false, List, [], ◌∷◌, Option, none, some,
  arith, Option-cases, inl, inr, if◌then◌else◌,
}
use kiro_reverse_api.Prelude.Int.{ℤ, pos, negsuc}
use kiro_reverse_api.Text.{Text, codes, text_eq}
use kiro_reverse_api.Text.Decimal.{print_ℤ, is_full-print_ℤ}
use kiro_reverse_api.Search.{
  Raw, missing, boolean, number, string, other, Number, whole, fraction, not_finite, one_of, text,
  page_number, page_size_of, integer, AccountsSearch, RequestsSearch, legacy_enabled, either,
  is_add, one_or_more, one_of_sizes,
}
use kiro_reverse_api.Search.Values.{
  page_sizes, AccountStatusFilter, just, attention, filter_name, account_status_filters,
  AccountStatus, AccountSort, account_sort_name, account_sorts, RequestSort, request_sort_name,
  request_sorts, RequestStatus, request_status_name, success, failed, SortOrder, order_name, asc,
  desc, OnOff, on_off_name, on, off,
}

-- How the router passes an optional value on.
abbrev pub raw_text : Option Text → Raw
raw_text none = missing
raw_text (some s) = string s

abbrev pub raw_whole : Option ℤ → Raw
raw_whole none = missing
raw_whole (some z) = number (whole z)

abbrev pub raw_add : Bool → Raw
raw_add true = boolean true
raw_add false = missing

abbrev pub raw_name {ℓ} : {T : Type ℓ} → (T → Text) → Option T → Raw
raw_name name none = missing
raw_name name (some t) = string (name t)

-- The value of a key, of `missing` where no entry has it.
abbrev pub entry : List (Text × Raw) → Text → Raw
entry [] key = missing
entry ((k, v) ∷ es) key = if text_eq k key then v else entry es key

-- A validated search as the raw search of the next navigation.
abbrev pub raw_requests : RequestsSearch → Text → Raw
raw_requests s = entry (
    (codes "page", raw_whole s.page)
    ∷ (codes "pageSize", raw_whole s.page_size)
    ∷ (codes "search", raw_text s.search)
    ∷ (codes "status", raw_name request_status_name s.status)
    ∷ (codes "sort", raw_name request_sort_name s.sort)
    ∷ (codes "order", raw_name order_name s.order)
    ∷ [])

abbrev pub raw_accounts : AccountsSearch → Text → Raw
raw_accounts s = entry (
    (codes "add", raw_add s.add)
    ∷ (codes "q", raw_text s.q)
    ∷ (codes "status", raw_name filter_name s.status)
    ∷ (codes "plan", raw_text s.plan)
    ∷ (codes "auth", raw_text s.auth)
    ∷ (codes "region", raw_text s.region)
    ∷ (codes "enabled", raw_name on_off_name s.enabled)
    ∷ (codes "sort", raw_name account_sort_name s.sort)
    ∷ (codes "order", raw_name order_name s.order)
    ∷ (codes "page", raw_whole s.page)
    ∷ (codes "pageSize", raw_whole s.page_size)
    ∷ [])

pub text_again : (v : Raw) → text (raw_text (text v)) ≡ text v
unfolding text
text_again missing = refl
text_again other = refl
text_again (boolean b) = refl
text_again (number (whole z)) =
    ap (λ (b : Bool). if b then some (print_ℤ z) else none) (is_full-print_ℤ z)
text_again (number (fraction c s)) = refl
text_again (number not_finite) = refl
text_again (string []) = refl
text_again (string (c ∷ s)) = refl

module _ {ℓ} {T : Type ℓ} (name : T → Text) (allowed : List T) where
  pub one_of_again :
      ((t : T) → one_of name (string (name t)) allowed ≡ some t)
      → (v : Raw)
      → one_of name (raw_name name (one_of name v allowed)) allowed ≡ one_of name v allowed
  unfolding one_of
  one_of_again h v = elim (Option-cases (one_of name v allowed)) [
    | inl e ↦ rw (e, one_of)
    | inr (t, e) ↦ rw (e, h t)
  ]

pub filters_read :
    (t : AccountStatusFilter)
    → one_of filter_name (string (filter_name t)) account_status_filters ≡ some t
unfolding one_of
filters_read (just AccountStatus.banned) = refl
filters_read (just AccountStatus.suspended) = refl
filters_read (just AccountStatus.no_token) = refl
filters_read (just AccountStatus.out_of_credits) = refl
filters_read (just AccountStatus.expired) = refl
filters_read (just AccountStatus.disabled) = refl
filters_read (just AccountStatus.active) = refl
filters_read attention = refl

pub account_sorts_read :
    (t : AccountSort)
    → one_of account_sort_name (string (account_sort_name t)) account_sorts ≡ some t
unfolding one_of
account_sorts_read AccountSort.by_account = refl
account_sorts_read AccountSort.by_status = refl
account_sorts_read AccountSort.by_usage = refl
account_sorts_read AccountSort.by_requests = refl
account_sorts_read AccountSort.by_last_used = refl
account_sorts_read AccountSort.by_expiry = refl

pub request_sorts_read :
    (t : RequestSort)
    → one_of request_sort_name (string (request_sort_name t)) request_sorts ≡ some t
unfolding one_of
request_sorts_read RequestSort.time = refl
request_sorts_read RequestSort.status = refl
request_sorts_read RequestSort.account = refl
request_sorts_read RequestSort.api_key = refl
request_sorts_read RequestSort.model = refl
request_sorts_read RequestSort.tokens = refl
request_sorts_read RequestSort.credits = refl
request_sorts_read RequestSort.duration = refl

pub orders_read :
    (t : SortOrder) → one_of order_name (string (order_name t)) (asc ∷ desc ∷ []) ≡ some t
unfolding one_of
orders_read asc = refl
orders_read desc = refl

pub on_off_read : (t : OnOff) → one_of on_off_name (string (on_off_name t)) (on ∷ off ∷ []) ≡ some t
unfolding one_of
on_off_read on = refl
on_off_read off = refl

pub request_statuses_read :
    (t : RequestStatus)
    → one_of request_status_name (string (request_status_name t)) (success ∷ failed ∷ []) ≡ some t
unfolding one_of
request_statuses_read success = refl
request_statuses_read failed = refl

one_or_more_again :
    (o : Option ℤ) (f : Text → Number)
    → one_or_more (integer f (raw_whole (one_or_more o))) ≡ one_or_more o
unfolding integer
one_or_more_again none f = refl
one_or_more_again (some (pos zero)) f = refl
one_or_more_again (some (pos (suc n))) f = refl
one_or_more_again (some (negsuc n)) f = refl

pub page_again :
    (f : Text → Number) (v : Raw) → page_number f (raw_whole (page_number f v)) ≡ page_number f v
unfolding page_number
page_again f v = one_or_more_again (integer f v) f

one_of_sizes-keeps :
    (o : Option ℤ) (sizes : List ℤ) → (one_of_sizes o sizes ≡ none) ⊎ (one_of_sizes o sizes ≡ o)
one_of_sizes-keeps none sizes = inl refl
one_of_sizes-keeps (some n) [] = inl refl
one_of_sizes-keeps (some n) (m ∷ ms) = ground (arith, one_of_sizes-keeps (some n) ms)

one_of_sizes_again :
    (o : Option ℤ) → one_of_sizes (one_of_sizes o page_sizes) page_sizes ≡ one_of_sizes o page_sizes
one_of_sizes_again o = elim (one_of_sizes-keeps o page_sizes) [
  | inl h ↦ ap (λ (p : Option ℤ). one_of_sizes p page_sizes) h ∙ sym h
  | inr h ↦ ap (λ (p : Option ℤ). one_of_sizes p page_sizes) h
]

integer_again : (o : Option ℤ) (f : Text → Number) → integer f (raw_whole o) ≡ o
unfolding integer
integer_again none f = refl
integer_again (some z) f = refl

pub page_size_again :
    (f : Text → Number) (v : Raw) → page_size_of f (raw_whole (page_size_of f v)) ≡ page_size_of f v
unfolding page_size_of
page_size_again f v =
    ap (λ (o : Option ℤ). one_of_sizes o page_sizes)
      (integer_again (one_of_sizes (integer f v) page_sizes) f)
    ∙ one_of_sizes_again (integer f v)

pub not_legacy : (o : Option AccountStatusFilter) → legacy_enabled (raw_name filter_name o) ≡ none
not_legacy none = refl
not_legacy (some (just AccountStatus.banned)) = refl
not_legacy (some (just AccountStatus.suspended)) = refl
not_legacy (some (just AccountStatus.no_token)) = refl
not_legacy (some (just AccountStatus.out_of_credits)) = refl
not_legacy (some (just AccountStatus.expired)) = refl
not_legacy (some (just AccountStatus.disabled)) = refl
not_legacy (some (just AccountStatus.active)) = refl
not_legacy (some attention) = refl

pub enabled_again :
    (o : Option OnOff) → one_of on_off_name (raw_name on_off_name o) (on ∷ off ∷ []) ≡ o
unfolding one_of
enabled_again none = refl
enabled_again (some on) = refl
enabled_again (some off) = refl

pub either-none {ℓ} : {T : Type ℓ} (o : Option T) → either o none ≡ o
either-none none = refl
either-none (some t) = refl

pub add_again : (b : Bool) → is_add (raw_add b) ≡ b
add_again true = refl
add_again false = refl

-- The page of a validated search is 1 or more.
abbrev pub IsPage : Option ℤ → Type 0
IsPage none = Unit
IsPage (some (pos zero)) = ⊥
IsPage (some (pos (suc n))) = Unit
IsPage (some (negsuc n)) = ⊥

pub one_or_more-IsPage : (o : Option ℤ) → IsPage (one_or_more o)
one_or_more-IsPage none = tt
one_or_more-IsPage (some (pos zero)) = tt
one_or_more-IsPage (some (pos (suc n))) = tt
one_or_more-IsPage (some (negsuc n)) = tt
