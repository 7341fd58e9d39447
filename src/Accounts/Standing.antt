-- ===== src/Accounts/Standing.antt =====
-- ui/src/features/accounts/account-model.ts: the status of an account row, and the groups of the
-- status filter.
use kiro_reverse_api.Prelude.{
  ℕ, Bool, true, false, not, ◌&&◌, ◌||◌, Option, none, some, if◌then◌else◌,
}
use kiro_reverse_api.Prelude.Int.{ℤ, pos, is_zero, ltb_ℤ}
use kiro_reverse_api.Text.{Text, codes, text_eq, is_full}
use kiro_reverse_api.Accounts.{Account}
use kiro_reverse_api.Search.Values.{
  AccountStatus, banned, suspended, no_token, out_of_credits, expired, disabled, active,
  AccountStatusFilter, just, attention, status_name,
}

abbrev pub disabled_ban_status : Text
disabled_ban_status = codes "DISABLED"

abbrev pub is_held : Account → Bool
is_held account = is_full account.ban_status && not (text_eq account.ban_status (codes "ACTIVE"))

abbrev pub is_banned : Account → Bool
is_banned account = is_held account && not (text_eq account.ban_status disabled_ban_status)

abbrev pub is_out_of_credits : Account → Bool
is_out_of_credits account =
    ltb_ℤ (pos 0) account.usage_limit && not (ltb_ℤ account.usage_current account.usage_limit)

abbrev pub has_expired : Account → ℤ → Bool
has_expired account now = not (is_zero account.expires_at) && ltb_ℤ account.expires_at now

unfoldable pub account_status : Account → ℤ → AccountStatus
account_status account now =
    if is_banned account
    then if text_eq account.ban_status (codes "SUSPENDED") then suspended else banned
    else if not account.has_token
    then no_token
    else if is_out_of_credits account
    then out_of_credits
    else if has_expired account now
    then expired
    else if not account.enabled || text_eq account.ban_status disabled_ban_status
    then disabled
    else active

-- `ACCOUNT_STATUSES.indexOf(status)`
abbrev pub status_rank : AccountStatus → ℕ
status_rank banned = 0
status_rank suspended = 1
status_rank no_token = 2
status_rank out_of_credits = 3
status_rank expired = 4
status_rank disabled = 5
status_rank active = 6

pub data StatusGroup : Type 0 where
  active_group attention_group disabled_group : StatusGroup

abbrev pub status_group : AccountStatus → StatusGroup
status_group active = active_group
status_group disabled = disabled_group
status_group banned = attention_group
status_group suspended = attention_group
status_group no_token = attention_group
status_group out_of_credits = attention_group
status_group expired = attention_group

abbrev pub status_filter_group : Option AccountStatusFilter → Option StatusGroup
status_filter_group none = none
status_filter_group (some attention) = some attention_group
status_filter_group (some (just status)) = some (status_group status)

abbrev is_attention : StatusGroup → Bool
is_attention attention_group = true
is_attention active_group = false
is_attention disabled_group = false

abbrev pub matches_status : AccountStatus → AccountStatusFilter → Bool
matches_status status attention = is_attention (status_group status)
matches_status status (just wanted) = text_eq (status_name status) (status_name wanted)
