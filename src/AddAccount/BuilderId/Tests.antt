-- ===== src/AddAccount/BuilderId/Tests.antt =====
-- A login that is polled twice, and left while the second poll is under way.
use kiro_reverse_api.Prelude.{◌≡◌, refl, true, [], ◌∷◌}
use kiro_reverse_api.Text.{codes}
use kiro_reverse_api.AddAccount.{is_current, stop_builder_id, reset, cancel_microsoft}
use kiro_reverse_api.AddAccount.BuilderId.{
  Armed, Poll, Flow, new_flow, schedule, begin_start, opened, end_start, fire, pending, leave,
  end_poll, Reach, here, next, starts_login, replies_start, fires, replies_poll,
}
use kiro_reverse_api.AddAccount.BuilderId.Chain.{IsSingle, IsStopped}
use kiro_reverse_api.AddAccount.BuilderId.Single.{Reach-leave}

polling_runs : Unit {0}
unfolding schedule begin_start end_start fire leave end_poll is_current stop_builder_id reset
    cancel_microsoft
polling_runs = tt

abbrev started : Flow
started = end_start 0 (opened (codes "s1") 0) (record (begin_start new_flow) { starts = [] })

abbrev first_timer : Armed
first_timer = record { timer = 0; generation = 0; interval = 5; failures = 0 }

abbrev first_poll : Poll
first_poll = record { generation = 0; session = codes "s1"; interval = 5; failures = 0 }

abbrev polling : Flow
polling = fire first_timer started

abbrev slower : Flow
slower = end_poll first_poll (pending 10) (record (polling) { polls = [] })

abbrev second_timer : Armed
second_timer = record { timer = 1; generation = 0; interval = 10; failures = 0 }

-- The reply raised the interval.
waits : slower.armed ≡ second_timer ∷ first_timer ∷ []
unfolding polling_runs
waits = refl

Reach-slower : Reach new_flow slower
unfolding polling_runs
Reach-slower =
    next
      (next
        (next (next here (starts_login new_flow))
          (replies_start [] [] 0 (opened (codes "s1") 0) (begin_start new_flow) refl tt))
        (fires [] [] first_timer started refl refl))
      (replies_poll [] [] first_poll (pending 10) polling refl)

Reach-leave_example : IsSingle slower × IsStopped (leave true slower)
Reach-leave_example = Reach-leave Reach-slower
