-- ===== src/Events/Tests.antt =====
-- The event stream on concrete events.
use kiro_reverse_api.Prelude.{◌≡◌, refl, true, false, none, some, [], ◌∷◌, ◌++◌, arith}
use kiro_reverse_api.Text.{codes}
use kiro_reverse_api.Json.{obj, field, str, end}
use kiro_reverse_api.Events.{
  Events, start, connect, ticket_arrived, on_error, on_event, on_open, react, dispatch,
  set_change_timer, schedule_reconnect, reconnect_fires, dispose, change_fires, parse_payload,
  refetch_all,
}
use kiro_reverse_api.Events.Kinds.{accounts_changed, hello, closed, change_invalidations}
use kiro_reverse_api.Events.Connection.{
  Step, replies, fails, Reach, here, next, HasOneConnection, Reach-HasOneConnection,
}
use kiro_reverse_api.Events.Ending.{IsQuiet, dispose-IsQuiet, Connects, Reach-Connects}
use kiro_reverse_api.Events.Bursts.{react_all, of_type, react_all-change_fires}

-- Unfolds the functions of the stream.
event_runs : Unit {0}
unfolding start connect ticket_arrived on_error on_event on_open react dispatch set_change_timer
    schedule_reconnect reconnect_fires dispose change_fires
event_runs = tt

abbrev first_request : Events
first_request = start closed

abbrev connected : Events
connected = ticket_arrived true first_request

abbrev failed_once : Events
failed_once = on_error 0 connected

abbrev again : Events
again = ticket_arrived true (reconnect_fires failed_once)

second_source : (again.source ≡ some 1) × (again.live ≡ 1 ∷ []) × (failed_once.status ≡ closed)
unfolding event_runs
second_source = (refl, refl, refl)

late_event : (on_event 0 (record { type = hello; payload = none }) again) ≡ again
unfolding event_runs
late_event = refl

payload_read :
    parse_payload
      (λ s. some (obj (field (codes "payload") (str (codes "7")) end)))
      (some (codes "x"))
    ≡ some (codes "7")
unfolding parse_payload
payload_read = refl

has_request : first_request.requests ≡ 1
unfolding event_runs
has_request = refl

first_reply : Step first_request connected
unfolding event_runs
first_reply = replies true first_request (omega arith)

history : Reach (start closed) failed_once
history = next (next here first_reply) (fails 0 connected)

not_disposed : failed_once.disposed ≡ false
unfolding event_runs
not_disposed = refl

Reach-HasOneConnection_example : HasOneConnection failed_once
Reach-HasOneConnection_example = Reach-HasOneConnection closed history

dispose-IsQuiet_example : IsQuiet again (on_error 1 (dispose again))
dispose-IsQuiet_example = dispose-IsQuiet again (next here (fails 1 (dispose again)))

Reach-Connects_example : Connects failed_once
Reach-Connects_example = Reach-Connects closed history not_disposed

react_all-change_fires_example :
    change_fires accounts_changed
      (react_all (of_type accounts_changed (none ∷ none ∷ none ∷ [])) again)
    ≡ record again {
      refetched = again.refetched ++ refetch_all (change_invalidations accounts_changed);
      handled = again.handled ++ of_type accounts_changed (none ∷ none ∷ none ∷ []);
    }
unfolding event_runs
react_all-change_fires_example =
    react_all-change_fires accounts_changed none (none ∷ none ∷ []) again refl refl
