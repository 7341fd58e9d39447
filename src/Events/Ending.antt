-- ===== src/Events/Ending.antt =====
-- The cleanup ends everything, and until then a connection can always come.
use kiro_reverse_api.Prelude.{
  ◌<◌, ◌≡◌, refl, true, false, List, [], ◌∷◌, none, is_some, arith, ◌⊎◌, inl, inr,
}
use kiro_reverse_api.Events.{
  Events, start, connect, ticket_arrived, schedule_reconnect, on_open, on_error, on_event,
  reconnect_fires, observe_fires, change_fires, dispose, has_timer,
}
use kiro_reverse_api.Events.Kinds.{EventType, EventsStatus}
use kiro_reverse_api.Events.Connection.{
  Step, replies, opens, fails, sends, reconnects, observes, changes, stops, Reach, here, next,
  HasOneConnection, Reach-HasOneConnection,
}

-- A state after the cleanup, in which nothing was refetched or handled since `old`.
abbrev pub IsQuiet : Events → Events → Type 0
IsQuiet old st =
    (st.disposed ≡ true)
    × (st.source ≡ none)
    × (st.reconnect_timer ≡ false)
    × (st.observe_timer ≡ false)
    × (st.change_timers ≡ [])
    × (st.refetched ≡ old.refetched)
    × (st.handled ≡ old.handled)
    × (st.status ≡ old.status)

no_timer : (t : EventType) (timers : List EventType) → timers ≡ [] → has_timer t timers ≡ true → ⊥
no_timer t [] e h = absurd (cc)
no_timer t (u ∷ us) e h = absurd (cc)

Step-IsQuiet : {st st' : Events} (old : Events) → Step st st' → IsQuiet old st → IsQuiet old st'
unfolding ticket_arrived schedule_reconnect on_open on_error on_event reconnect_fires connect
    observe_fires change_fires dispose
Step-IsQuiet old (replies true st p) h = ground arith
Step-IsQuiet old (replies false st p) h = ground arith
Step-IsQuiet old (opens es st) h = ground arith
Step-IsQuiet old (fails es st) h = ground arith
Step-IsQuiet old (sends es e st) h = ground arith
Step-IsQuiet old (reconnects st e) h = ground arith
Step-IsQuiet old (observes st e) h = ground arith
Step-IsQuiet old (changes t st e) h = absurd (no_timer t st.change_timers h.4 e)
Step-IsQuiet old (stops st) h = ground arith

Reach-IsQuiet : (old : Events) {st st' : Events} → Reach st st' → IsQuiet old st → IsQuiet old st'
Reach-IsQuiet old here h = h
Reach-IsQuiet old (next r s) h = Step-IsQuiet old s (Reach-IsQuiet old r h)

dispose-IsQuiet' : (st : Events) → IsQuiet st (dispose st)
unfolding dispose
dispose-IsQuiet' st = (refl, refl, refl, refl, refl, refl, refl, refl)

ticket-source :
    (st : Events)
    → st.disposed ≡ false
    → ((ticket_arrived true st).disposed ≡ false) × (is_some (ticket_arrived true st).source ≡ true)
unfolding ticket_arrived
ticket-source st d = ground arith

timer-request :
    (st : Events)
    → st.disposed ≡ false
    → ((reconnect_fires st).disposed ≡ false) × (0 < (reconnect_fires st).requests)
unfolding reconnect_fires connect
timer-request st d = ground arith

abbrev pub Connects : Events → Type 0
Connects st = (st' : Events) × Reach st st' × (st'.disposed ≡ false) × (is_some st'.source ≡ true)

by_ticket : (st : Events) → st.disposed ≡ false → 0 < st.requests → Connects st
by_ticket st d p = (
  ticket_arrived true st,
  next here (replies true st p),
  (ticket-source st d).0,
  (ticket-source st d).1,
)

by_timer : (st : Events) → st.disposed ≡ false → st.reconnect_timer ≡ true → Connects st
by_timer st d e =
    let u = reconnect_fires st in
    let (d', p) = timer-request st d in
    (
      ticket_arrived true u,
      next (next here (reconnects st e)) (replies true u p),
      (ticket-source u d').0,
      (ticket-source u d').1,
    )

one_of_three :
    (st : Events)
    → st.disposed ≡ false
    → HasOneConnection st
    → (0 < st.requests) ⊎ ((st.reconnect_timer ≡ true) ⊎ (is_some st.source ≡ true))
one_of_three st d h = ground arith

connects : (st : Events) → st.disposed ≡ false → HasOneConnection st → Connects st
connects st d h = elim (one_of_three st d h) [
  | inl p ↦ by_ticket st d p
  | inr (inl e) ↦ by_timer st d e
  | inr (inr e) ↦ (st, here, d, e)
]

-- After the cleanup nothing comes any more, whatever replies and callbacks are still under way: no
-- query is refetched, no handler is called, the status stays, and no source and no timer is set.
pub dispose-IsQuiet : (st : Events) {st' : Events} → Reach (dispose st) st' → IsQuiet st st'
dispose-IsQuiet st r = Reach-IsQuiet st r (dispose-IsQuiet' st)

-- The stream is never stuck: before the cleanup, from every state that the effect can reach, a few
-- steps lead to an open source.
pub Reach-Connects :
    (status : EventsStatus) {st : Events}
    → Reach (start status) st
    → st.disposed ≡ false
    → Connects st
Reach-Connects status {st} r d = connects st d (Reach-HasOneConnection status r)
