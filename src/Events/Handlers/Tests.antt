-- ===== src/Events/Handlers/Tests.antt =====
-- Handlers of ui/src/lib/events/admin-events.tsx that come and go.
use kiro_reverse_api.Prelude.{◌≡◌, ◌≢◌, refl, List, [], ◌∷◌, some, none, arith}
use kiro_reverse_api.Text.{Text, codes}
use kiro_reverse_api.Events.Kinds.{AdminEvent, observe_tick, backup_created}
use kiro_reverse_api.Events.Handlers.{
  new_registry, Change, mounts, unmounts, connects, arrives, apply_all, mount, unmount, apply,
  take_event, call_handlers,
}
use kiro_reverse_api.Events.Handlers.Held.{heard}
use kiro_reverse_api.Events.Handlers.Telling.{told}
use kiro_reverse_api.Events.Handlers.Hearing.{handler_hears}

abbrev tick : Text → AdminEvent
tick counter = record { type = observe_tick; payload = some counter }

abbrev created : AdminEvent
created = record { type = backup_created; payload = none }

-- Another handler of the same type is mounted, and a tick arrives before ours.
abbrev earlier : List Change
earlier = mounts observe_tick ∷ arrives (tick (codes "7")) ∷ []

-- The tick is repeated, the other handler goes, and the stream reconnects.
abbrev meanwhile : List Change
meanwhile =
    arrives (tick (codes "7"))
    ∷ unmounts observe_tick 0
    ∷ arrives created
    ∷ arrives (tick (codes "8"))
    ∷ arrives (tick (codes "8"))
    ∷ connects
    ∷ arrives (tick (codes "8"))
    ∷ []

abbrev later : List Change
later = arrives (tick (codes "9")) ∷ arrives created ∷ []

all_heard :
    heard 1
      (apply_all later (
        unmount observe_tick 1
          (apply_all meanwhile (mount observe_tick (apply_all earlier new_registry))))).calls
    ≡ tick (codes "8") ∷ tick (codes "8") ∷ []
unfolding mount unmount call_handlers take_event apply
all_heard = refl

others : 0 ≢ (apply_all earlier new_registry).fresh
unfolding mount call_handlers take_event apply
others = ground arith

handler_hears_example :
    heard
      (apply_all earlier new_registry).fresh
      (apply_all later (
        unmount observe_tick
          (apply_all earlier new_registry).fresh
          (apply_all meanwhile (mount observe_tick (apply_all earlier new_registry))))).calls
    ≡ told observe_tick (apply_all earlier new_registry).observe_seq meanwhile
handler_hears_example =
    handler_hears observe_tick earlier meanwhile later
      (tt, (others, (tt, (tt, (tt, (tt, (tt, tt)))))))
