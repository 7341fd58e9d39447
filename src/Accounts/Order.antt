-- ===== src/Accounts/Order.antt =====
-- The sorted rows are in the order that the column asks for.
use mathlib.Core.List.{Perm}
use kiro_reverse_api.Prelude.{◌≡◌, refl, Bool, List, Option, some}
use kiro_reverse_api.Prelude.Int.{ℤ, minus_ℤ}
use kiro_reverse_api.Prelude.Sort.{sort_by, sort_by-Perm, sort_by-Sorted, Sorted}
use kiro_reverse_api.Text.{Text}
use kiro_reverse_api.Search.Values.{AccountSort, by_account}
use kiro_reverse_api.Accounts.{Account}
use kiro_reverse_api.Accounts.Sorting.{
  Keyed, order_keyed, key_from, accounts_of, sort_on, text_key, number_key, sort_accounts,
}
use kiro_reverse_api.Accounts.Comparing.{IsOrder, minus_ℤ-IsOrder}
use kiro_reverse_api.Accounts.InOrder.{InOrder, order_keys-before, order_keys-after, InOrder-trans}

-- The rows with their keys and their places in the server's order, sorted.
abbrev pub IsSortedBy {κ} :
    {K : Type κ} (compare : K → K → ℤ) (desc : Bool) (key : Account → Option K)
    → List Account
    → List Account
    → Type κ
IsSortedBy {K} compare desc key accounts result =
    (ks : List (Keyed K)) × Perm ks (key_from key 0 accounts)
    × Sorted (λ (a b : Keyed K). InOrder compare desc a.key a.index b.key b.index) ks
    × (result ≡ accounts_of ks)

sort_on-IsSortedBy {κ} :
    {K : Type κ} (compare : K → K → ℤ)
    → IsOrder compare
    → (desc : Bool) (key : Account → Option K) (accounts : List Account)
    → IsSortedBy compare desc key accounts (sort_on compare desc key accounts)
unfolding sort_on
sort_on-IsSortedBy {K} compare law desc key accounts =
    let keyed = key_from key 0 accounts in
    (
      sort_by (order_keyed compare desc) keyed,
      sort_by-Perm (order_keyed compare desc) keyed,
      sort_by-Sorted (order_keyed compare desc)
          (λ (a b : Keyed K). InOrder compare desc a.key a.index b.key b.index)
          (λ a b h. order_keys-before compare law desc a.key b.key a.index b.index h)
          (λ a b h. order_keys-after compare law desc a.key b.key a.index b.index h)
          (λ a b c h k.
            InOrder-trans compare law desc a.key b.key c.key a.index b.index c.index h k)
          keyed,
      refl,
    )

-- What the column asks for.
abbrev pub IsColumn :
    (Text → Text)
    → (Text → Text → ℤ)
    → Bool
    → ℤ
    → List Account
    → AccountSort
    → List Account
    → Type 0
IsColumn lower compare desc now accounts by_account result =
    IsSortedBy compare desc (text_key lower) accounts result
IsColumn lower compare desc now accounts sort result =
    IsSortedBy minus_ℤ desc (number_key now sort) accounts result

-- Sorting by a column keeps every row and puts the rows in the column's order, descending or not:
-- rows without a key stand last either way, and rows with equal keys are in the server's order.
-- The comparison of texts is an order.
pub sort_accounts-IsColumn :
    (lower : Text → Text) (compare : Text → Text → ℤ)
    → IsOrder compare
    → (desc : Bool) (now : ℤ) (accounts : List Account) (sort : AccountSort)
    → IsColumn lower compare desc now accounts sort
        (sort_accounts lower compare desc now accounts (some sort))
unfolding sort_accounts
sort_accounts-IsColumn lower compare law desc now accounts by_account =
    sort_on-IsSortedBy compare law desc (text_key lower) accounts
sort_accounts-IsColumn lower compare law desc now accounts sort =
    sort_on-IsSortedBy minus_ℤ minus_ℤ-IsOrder desc (number_key now sort) accounts
