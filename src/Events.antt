-- ===== src/Events.antt =====
-- ui/src/lib/events/admin-events.tsx: the event stream of one session, from the effect's start to
-- its cleanup. Timers fire and replies arrive as calls of the functions below, in any order.
pub mod Kinds
pub mod Handlers
pub mod Connection
pub mod Ending
pub mod Bursts
mod Tests
use kiro_reverse_api.Prelude.{
  ℕ, suc, ◌-◌, Bool, true, false, not, ◌&&◌, ◌||◌, List, [], ◌∷◌, ◌++◌, Option, none, some, is_some,
  if◌then◌else◌, ◌==◌, any,
}
use kiro_reverse_api.Text.{Text, codes, text_eq, is_full}
use kiro_reverse_api.Json.{Json}
use kiro_reverse_api.Client.Bodies.{body_field, record_of, string_of}
use kiro_reverse_api.Events.Kinds.{
  EventType, hello, observe_tick, backup_created, backup_restored, backup_deleted, accounts_changed,
  api_keys_changed, settings_changed, stats_reset, AdminEvent, EventsStatus, connecting, opened,
  closed, QueryKey, accounts_all, status_key, observe_all, settings_all, backups_all, Refetch,
  every_query, active_queries, live_queries, change_invalidations, is_change_event, same_type,
}

-- The variables of the effect and what it does outside: `live` are the event sources that were
-- opened and not closed, `created` counts the sources (its value is the next one's number), and
-- `requests` the ticket requests under way. `refetched` and `handled` are the invalidations and the
-- events given to the registered handlers so far, the oldest first.
pub record Events : Type 0 where
  pub disposed : Bool
  pub source : Option ℕ
  pub live : List ℕ
  pub created : ℕ
  pub requests : ℕ
  pub reconnect_timer : Bool
  pub observe_timer : Bool
  pub observe_seq : Option Text
  pub change_timers : List EventType
  pub status : EventsStatus
  pub refetched : List Refetch
  pub handled : List AdminEvent

abbrev payload_text : Option Text → Option Text
payload_text none = none
payload_text (some s) = if is_full s then some s else none

-- The parameter `json_parse` is `JSON.parse`, `none` where it throws.
unfoldable pub parse_payload : (Text → Option Json) → Option Text → Option Text
parse_payload json_parse none = none
parse_payload json_parse (some data_text) =
    if is_full data_text
    then payload_text (string_of (body_field (codes "payload") (record_of (json_parse data_text))))
    else none

abbrev pub refetch_all : List QueryKey → List Refetch
refetch_all [] = []
refetch_all (k ∷ ks) = every_query k ∷ refetch_all ks

abbrev pub has_timer : EventType → List EventType → Bool
has_timer type timers = any (same_type type) timers

abbrev pub drop_timer : EventType → List EventType → List EventType
drop_timer type [] = []
drop_timer type (t ∷ ts) = if same_type type t then drop_timer type ts else t ∷ drop_timer type ts

-- The first part of `react`: one pending timer per type of change.
unfoldable pub set_change_timer : EventType → Events → Events
set_change_timer type st =
    if is_change_event type && not (has_timer type st.change_timers)
    then record st { change_timers = st.change_timers ++ type ∷ [] }
    else st

abbrev same_seq : Text → Option Text → Bool
same_seq payload none = false
same_seq payload (some seq) = text_eq payload seq

-- A tick that repeats the last change counter of this connection.
abbrev pub is_repeat : EventType → Option Text → Option Text → Bool
is_repeat observe_tick (some payload) seq = same_seq payload seq
is_repeat type payload seq = false

abbrev pub seq_after : EventType → Option Text → Option Text → Option Text
seq_after observe_tick (some payload) seq = some payload
seq_after type payload seq = seq

-- The `switch` of `react`.
unfoldable pub dispatch : EventType → Events → Events
dispatch hello st = record st { status = opened }
dispatch observe_tick st = record st { observe_timer = true }
dispatch backup_created st = record st {
  refetched = st.refetched ++ active_queries backups_all ∷ [];
}
dispatch backup_restored st = record st {
  refetched =
      st.refetched ++ refetch_all (accounts_all ∷ settings_all ∷ backups_all ∷ status_key ∷ []);
}
dispatch backup_deleted st = st
dispatch accounts_changed st = st
dispatch api_keys_changed st = st
dispatch settings_changed st = st
dispatch stats_reset st = st

unfoldable pub react : AdminEvent → Events → Events
unfolding set_change_timer dispatch
react event st0 =
    let st = set_change_timer event.type st0 in
    if is_repeat event.type event.payload st.observe_seq
    then st
    else let seq = seq_after event.type event.payload st.observe_seq in
      let st' = dispatch event.type (record st { observe_seq = seq }) in
      record st' { handled = st'.handled ++ event ∷ [] }

unfoldable pub schedule_reconnect : Events → Events
schedule_reconnect st =
    if st.disposed || st.reconnect_timer then st else record st { reconnect_timer = true }

-- `connect` up to its `await`
unfoldable pub connect : Events → Events
connect st =
    if st.disposed then st else record st { status = connecting; requests = suc st.requests }

-- The rest of `connect`: `false` when `createTicket` rejected.
unfoldable pub ticket_arrived : Bool → Events → Events
unfolding schedule_reconnect
ticket_arrived false st0 =
    let st = record st0 { requests = st0.requests - 1 } in
    if st.disposed then st else schedule_reconnect (record st { status = closed })
ticket_arrived true st0 =
    let st = record st0 { requests = st0.requests - 1 } in
    if st.disposed then st else record st {
      source = some st.created;
      live = st.created ∷ st.live;
      created = suc st.created;
      observe_seq = none;
    }

abbrev pub is_source : ℕ → Option ℕ → Bool
is_source es none = false
is_source es (some s) = s == es

abbrev pub drop_live : ℕ → List ℕ → List ℕ
drop_live es [] = []
drop_live es (s ∷ ss) = if s == es then drop_live es ss else s ∷ drop_live es ss

unfoldable pub on_open : ℕ → Events → Events
on_open es st = if is_source es st.source then record st { status = opened } else st

unfoldable pub on_error : ℕ → Events → Events
unfolding schedule_reconnect
on_error es st0 =
    let st = record st0 { live = drop_live es st0.live } in
    if is_source es st.source
    then schedule_reconnect (record st { source = none; status = closed })
    else st

unfoldable pub on_event : ℕ → AdminEvent → Events → Events
unfolding react
on_event es event st = if is_source es st.source then react event st else st

-- The callbacks of the timers
unfoldable pub reconnect_fires : Events → Events
unfolding connect
reconnect_fires st = connect (record st { reconnect_timer = false })

unfoldable pub observe_fires : Events → Events
observe_fires st = record st {
  observe_timer = false;
  refetched = st.refetched ++ live_queries observe_all ∷ [];
}

unfoldable pub change_fires : EventType → Events → Events
change_fires type st = record st {
  change_timers = drop_timer type st.change_timers;
  refetched = st.refetched ++ refetch_all (change_invalidations type);
}

abbrev drop_source : Option ℕ → List ℕ → List ℕ
drop_source none live = live
drop_source (some s) live = drop_live s live

-- The cleanup of the effect
unfoldable pub dispose : Events → Events
dispose st = record st {
  disposed = true;
  reconnect_timer = false;
  observe_timer = false;
  change_timers = [];
  live = drop_source st.source st.live;
  source = none;
}

-- The effect for a session with a token, when the browser has EventSource.
unfoldable pub start : EventsStatus → Events
unfolding connect
start status = connect (record {
  disposed = false;
  source = none;
  live = [];
  created = 0;
  requests = 0;
  reconnect_timer = false;
  observe_timer = false;
  observe_seq = none;
  change_timers = [];
  status = status;
  refetched = [];
  handled = [];
})
