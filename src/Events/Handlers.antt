-- ===== src/Events/Handlers.antt =====
-- ui/src/lib/events/admin-events.tsx: the registry of `useAdminEvent` and the calls of its handlers.
-- An entry is known by a number, and its handler is whatever the component rendered last.
pub mod Numbers
pub mod Held
pub mod Telling
pub mod Hearing
mod Tests
use kiro_reverse_api.Prelude.{
  ℕ, suc, Bool, not, ◌&&◌, List, [], ◌∷◌, ◌++◌, Option, none, if◌then◌else◌, ◌==◌,
}
use kiro_reverse_api.Text.{Text}
use kiro_reverse_api.Events.{is_repeat, seq_after}
use kiro_reverse_api.Events.Kinds.{EventType, AdminEvent, same_type}

pub record Entry : Type 0 where
  pub type : EventType
  pub id : ℕ

pub record Called : Type 0 where
  pub id : ℕ
  pub event : AdminEvent

-- The sets of all types as one list, in the order of their mounts. `fresh` is the number of the next
-- entry, `observe_seq` the last counter of this connection, and `calls` the calls so far, the oldest
-- first.
pub record Registry : Type 0 where
  pub entries : List Entry
  pub fresh : ℕ
  pub observe_seq : Option Text
  pub calls : List Called

abbrev pub new_registry : Registry
new_registry = record { entries = []; fresh = 0; observe_seq = none; calls = [] }

-- The effect of `useAdminEvent`
unfoldable pub mount : EventType → Registry → Registry
mount type r = record r {
  entries = r.entries ++ record { type = type; id = r.fresh } ∷ [];
  fresh = suc r.fresh;
}

abbrev pub remove_entry : EventType → ℕ → List Entry → List Entry
remove_entry type id [] = []
remove_entry type id (e ∷ es) =
    if same_type e.type type && e.id == id then es else e ∷ remove_entry type id es

-- Its cleanup
unfoldable pub unmount : EventType → ℕ → Registry → Registry
unmount type id r = record r { entries = remove_entry type id r.entries }

abbrev pub calls_for : AdminEvent → List Entry → List Called
calls_for event [] = []
calls_for event (e ∷ es) =
    if same_type e.type event.type
    then record { id = e.id; event = event } ∷ calls_for event es
    else calls_for event es

-- The last line of `react`
unfoldable pub call_handlers : AdminEvent → Registry → Registry
call_handlers event r = record r { calls = r.calls ++ calls_for event r.entries }

-- `react`, its timers and refetches aside: a tick that repeats the last counter returns before the
-- handlers.
unfoldable pub take_event : AdminEvent → Registry → Registry
unfolding call_handlers
take_event event r =
    if is_repeat event.type event.payload r.observe_seq
    then r
    else call_handlers event
        (record r { observe_seq = seq_after event.type event.payload r.observe_seq })

-- `connects` is a new event source, which `connect` opens with no counter.
pub data Change : Type 0 where
  mounts : EventType → Change
  unmounts : EventType → ℕ → Change
  connects : Change
  arrives : AdminEvent → Change

unfoldable pub apply : Change → Registry → Registry
unfolding mount unmount take_event
apply (mounts type) r = mount type r
apply (unmounts type id) r = unmount type id r
apply connects r = record r { observe_seq = none }
apply (arrives event) r = take_event event r

abbrev pub apply_all : List Change → Registry → Registry
apply_all [] r = r
apply_all (c ∷ cs) r = apply_all cs (apply c r)
