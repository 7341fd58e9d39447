-- ===== src/Events/Connection.antt =====
-- One connection at a time, over every order of replies, errors, events and timers.
use kiro_reverse_api.Prelude.{
  ℕ, ◌+◌, ◌<◌, ◌≤◌, ◌≡◌, refl, Bool, true, false, List, [], ◌∷◌, Option, none, some, is_some, arith,
  if_keeps,
}
use kiro_reverse_api.Events.{
  Events, start, connect, ticket_arrived, schedule_reconnect, on_open, on_error, on_event,
  reconnect_fires, observe_fires, change_fires, dispose, has_timer, is_source, react,
  set_change_timer, dispatch,
}
use kiro_reverse_api.Events.Kinds.{EventType, AdminEvent, EventsStatus}

abbrev pub one_if : Bool → ℕ
one_if true = 1
one_if false = 0

abbrev pub sources : Option ℕ → List ℕ
sources none = []
sources (some s) = s ∷ []

-- Before the cleanup exactly one of the three is there: a ticket request under way, a timer for the
-- next one, an open source. After it at most a request is left.
abbrev pub IsSingle : Bool → ℕ → Bool → Option ℕ → Type 0
IsSingle false requests timer source = requests + one_if timer + one_if (is_some source) ≡ 1
IsSingle true requests timer source = (requests ≤ 1) × (timer ≡ false) × (source ≡ none)

-- The open sources are the current one and no other.
abbrev pub HasOneConnection : Events → Type 0
HasOneConnection st =
    IsSingle st.disposed st.requests st.reconnect_timer st.source × (st.live ≡ sources st.source)

-- What can happen next: a reply only to a request under way, a timer only where one is set, a
-- callback of any source that was ever opened.
pub data Step : Events → Events → Type 0 where
  replies : (b : Bool) (st : Events) → 0 < st.requests → Step st (ticket_arrived b st)
  opens : (es : ℕ) (st : Events) → Step st (on_open es st)
  fails : (es : ℕ) (st : Events) → Step st (on_error es st)
  sends : (es : ℕ) (e : AdminEvent) (st : Events) → Step st (on_event es e st)
  reconnects : (st : Events) → st.reconnect_timer ≡ true → Step st (reconnect_fires st)
  observes : (st : Events) → st.observe_timer ≡ true → Step st (observe_fires st)
  changes :
      (t : EventType) (st : Events)
      → has_timer t st.change_timers ≡ true
      → Step st (change_fires t st)
  stops : (st : Events) → Step st (dispose st)

pub data Reach (st : Events) : Events → Type 0 where
  here : Reach st st
  next : {t u : Events} → Reach st t → Step t u → Reach st u

react-HasOneConnection :
    (e : AdminEvent) (st : Events) → HasOneConnection st → HasOneConnection (react e st)
unfolding react set_change_timer dispatch
react-HasOneConnection e st h = ground arith

replies-HasOneConnection :
    (b : Bool) (st : Events)
    → 0 < st.requests
    → HasOneConnection st
    → HasOneConnection (ticket_arrived b st)
unfolding ticket_arrived schedule_reconnect
replies-HasOneConnection true st p h = ground arith
replies-HasOneConnection false st p h = ground arith

opens-HasOneConnection :
    (es : ℕ) (st : Events) → HasOneConnection st → HasOneConnection (on_open es st)
unfolding on_open
opens-HasOneConnection es st h = ground arith

fails-HasOneConnection :
    (es : ℕ) (st : Events) → HasOneConnection st → HasOneConnection (on_error es st)
unfolding on_error schedule_reconnect
fails-HasOneConnection es st h = ground arith

sends-HasOneConnection :
    (es : ℕ) (e : AdminEvent) (st : Events)
    → HasOneConnection st
    → HasOneConnection (on_event es e st)
unfolding on_event
sends-HasOneConnection es e st h =
    if_keeps HasOneConnection (is_source es st.source) (react-HasOneConnection e st h) h

reconnects-HasOneConnection :
    (st : Events)
    → st.reconnect_timer ≡ true
    → HasOneConnection st
    → HasOneConnection (reconnect_fires st)
unfolding reconnect_fires connect
reconnects-HasOneConnection st e h = ground arith

stops-HasOneConnection : (st : Events) → HasOneConnection st → HasOneConnection (dispose st)
unfolding dispose
stops-HasOneConnection st h = ground arith

Step-HasOneConnection : {st st' : Events} → Step st st' → HasOneConnection st → HasOneConnection st'
unfolding observe_fires change_fires
Step-HasOneConnection (replies b st p) h = replies-HasOneConnection b st p h
Step-HasOneConnection (opens es st) h = opens-HasOneConnection es st h
Step-HasOneConnection (fails es st) h = fails-HasOneConnection es st h
Step-HasOneConnection (sends es e st) h = sends-HasOneConnection es e st h
Step-HasOneConnection (reconnects st e) h = reconnects-HasOneConnection st e h
Step-HasOneConnection (observes st e) h = h
Step-HasOneConnection (changes t st e) h = h
Step-HasOneConnection (stops st) h = stops-HasOneConnection st h

start-HasOneConnection : (status : EventsStatus) → HasOneConnection (start status)
unfolding start connect
start-HasOneConnection status = (omega arith, refl)

-- Over every order of ticket replies, failures, events and timers, late callbacks of old sources
-- among them: until the cleanup exactly one ticket request, reconnection timer or open source is
-- there; after it no timer and no source is, and one request at most; and the sources that were
-- opened and not closed are the current one and no other.
pub Reach-HasOneConnection :
    (status : EventsStatus) {st : Events} → Reach (start status) st → HasOneConnection st
Reach-HasOneConnection status here = start-HasOneConnection status
Reach-HasOneConnection status (next r s) = Step-HasOneConnection s (Reach-HasOneConnection status r)
