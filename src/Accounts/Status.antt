-- ===== src/Accounts/Status.antt =====
-- The status of a row is the worst one that applies.
use kiro_reverse_api.Prelude.{◌≡◌, ◌≤◌, ◌↔◌, refl, Bool, true, not, ◌&&◌, ◌||◌, arith}
use kiro_reverse_api.Prelude.Int.{ℤ}
use kiro_reverse_api.Text.{codes, text_eq}
use kiro_reverse_api.Text.Equality.{text_eq_iff}
use kiro_reverse_api.Search.Values.{
  AccountStatus, banned, suspended, no_token, out_of_credits, expired, disabled, active,
}
use kiro_reverse_api.Accounts.{Account}
use kiro_reverse_api.Accounts.Standing.{
  account_status, status_rank, is_banned, is_held, is_out_of_credits, has_expired,
  disabled_ban_status,
}

-- The state of the account that a status stands for.
abbrev pub applies : AccountStatus → Account → ℤ → Bool
applies banned a now = is_banned a && not (text_eq a.ban_status (codes "SUSPENDED"))
applies suspended a now = is_banned a && text_eq a.ban_status (codes "SUSPENDED")
applies no_token a now = not a.has_token
applies out_of_credits a now = is_out_of_credits a
applies expired a now = has_expired a now
applies disabled a now = not a.enabled || text_eq a.ban_status disabled_ban_status
applies active a now =
    a.enabled
    && a.has_token
    && not (is_held a)
    && not (is_out_of_credits a)
    && not (has_expired a now)

disabled-is_held :
    (a : Account) → text_eq a.ban_status disabled_ban_status ≡ true → is_held a ≡ true
disabled-is_held a h = rw ((text_eq_iff a.ban_status disabled_ban_status).0 h) refl

account_status-applies : (a : Account) (now : ℤ) → applies (account_status a now) a now ≡ true
unfolding account_status
account_status-applies a now = ground (arith, disabled-is_held a)

account_status-rank :
    (a : Account) (now : ℤ) (s : AccountStatus)
    → applies s a now ≡ true
    → status_rank (account_status a now) ≤ status_rank s
unfolding account_status
account_status-rank a now banned h = ground arith
account_status-rank a now suspended h = ground arith
account_status-rank a now no_token h = ground arith
account_status-rank a now out_of_credits h = ground arith
account_status-rank a now expired h = ground arith
account_status-rank a now disabled h = ground arith
account_status-rank a now active h = ground arith

account_status-active :
    (a : Account) (now : ℤ) → (account_status a now ≡ active) ↔ (applies active a now ≡ true)
unfolding account_status
account_status-active a now = ground (arith, disabled-is_held a)

-- The status of a row applies to the account, and no worse one does; it is active exactly when the
-- account is on, has a token, is not held back, has credits left and a token that has not expired.
pub account_status-worst :
    (a : Account) (now : ℤ) (s : AccountStatus)
    → applies s a now ≡ true
    → (applies (account_status a now) a now ≡ true)
      × (status_rank (account_status a now) ≤ status_rank s)
      × ((account_status a now ≡ active) ↔ (applies active a now ≡ true))
account_status-worst a now s h =
    (account_status-applies a now, account_status-rank a now s h, account_status-active a now)
