-- ===== src/AddAccount/Microsoft/Tests.antt =====
-- A sign-in that the user leaves while a request is under way.
use kiro_reverse_api.Prelude.{◌≡◌, refl, true, [], ◌∷◌, some}
use kiro_reverse_api.Text.{codes}
use kiro_reverse_api.Text.Trim.{trim, trim_end, trim_start, is_space}
use kiro_reverse_api.AddAccount.{canceled, is_current, reset, stop_builder_id, cancel_microsoft}
use kiro_reverse_api.AddAccount.Microsoft.{
  idle, kiro, start_sso, complete_sso, started, selecting, Pending, Dialog, begin_step, submit,
  leave, finish, accept, cancel_late, end_step, Reach, here, next, submits, leaves, replies,
  new_dialog,
}
use kiro_reverse_api.AddAccount.Microsoft.Single.{Reach-IsValid}
use kiro_reverse_api.AddAccount.Microsoft.Valid.{IsValid}
use kiro_reverse_api.AddAccount.Microsoft.Logins.{Changes, view, Reach-Changes}
use kiro_reverse_api.AddAccount.Microsoft.Balance.{count_text, leave-ended}

flow_runs : Unit {0}
unfolding submit begin_step leave finish accept cancel_late end_step is_current reset
    stop_builder_id cancel_microsoft trim trim_end trim_start is_space
flow_runs = tt

abbrev first : Pending
first = record { generation = 0; request = start_sso }

abbrev second : Pending
second = record { generation = 0; request = complete_sso }

abbrev asked : Dialog
asked = submit idle [] [] new_dialog

abbrev held : Dialog
held = end_step first start_sso (started (codes "s1")) (record (asked) { pending = [] })

abbrev completing : Dialog
completing = submit kiro (codes " https://localhost/?code=1 ") [] held

abbrev left : Dialog
left = leave true completing

abbrev late : Dialog
late = end_step second complete_sso (selecting (codes "p1")) (record (left) { pending = [] })

held_at_first : view held ≡ record { held = some (codes "s1"); begun = codes "s1" ∷ []; over = [] }
unfolding flow_runs
held_at_first = refl

cancels : late.sessions.ended ≡ canceled [] (codes "p1") ∷ canceled (codes "s1") [] ∷ []
unfolding flow_runs
cancels = refl

Reach-completing : Reach new_dialog completing
unfolding flow_runs
Reach-completing =
    next
      (next (next here (submits new_dialog [] []))
        (replies [] [] first (started (codes "s1")) asked refl))
      (submits held (codes " https://localhost/?code=1 ") [])

Reach-late : Reach new_dialog late
unfolding flow_runs
Reach-late =
    next (next Reach-completing (leaves completing))
      (replies [] [] second (selecting (codes "p1")) left refl)

Reach-IsValid_example : IsValid late
Reach-IsValid_example = Reach-IsValid Reach-late

Reach-Changes_example : Changes (view new_dialog) (view late)
Reach-Changes_example = Reach-Changes Reach-late

leave-ended_example :
    count_text (codes "s1") (view left).begun ≡ count_text (codes "s1") (view left).over
leave-ended_example = leave-ended Reach-completing (codes "s1")
