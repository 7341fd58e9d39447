-- ===== src/Events/Kinds.antt =====
-- ui/src/lib/events/admin-events.tsx: the events of the server, and the queries that a change
-- refetches.
use kiro_reverse_api.Prelude.{ℕ, Bool, true, false, List, [], ◌∷◌, Option, ◌==◌}
use kiro_reverse_api.Text.{Text}

pub data EventType : Type 0 where
  hello observe_tick backup_created backup_restored backup_deleted : EventType
  accounts_changed api_keys_changed settings_changed stats_reset : EventType

pub record AdminEvent : Type 0 where
  pub type : EventType
  pub payload : Option Text

pub data EventsStatus : Type 0 where
  connecting opened closed : EventsStatus

-- The query keys that are refetched.
pub data QueryKey : Type 0 where
  accounts_all accounts_list status_key observe_all observe_overview : QueryKey
  api_keys_all settings_all requests_all backups_all : QueryKey

-- `invalidateQueries` for all queries under a key, for the active ones, or for the active ones that
-- do not poll on their own.
pub data Refetch : Type 0 where
  every_query active_queries live_queries : QueryKey → Refetch

abbrev pub change_invalidations : EventType → List QueryKey
change_invalidations accounts_changed = accounts_list ∷ status_key ∷ observe_overview ∷ []
change_invalidations api_keys_changed = api_keys_all ∷ []
change_invalidations settings_changed = settings_all ∷ observe_overview ∷ []
change_invalidations stats_reset = status_key ∷ observe_all ∷ requests_all ∷ []
change_invalidations backup_deleted = backups_all ∷ []
change_invalidations hello = []
change_invalidations observe_tick = []
change_invalidations backup_created = []
change_invalidations backup_restored = []

abbrev pub is_change_event : EventType → Bool
is_change_event accounts_changed = true
is_change_event api_keys_changed = true
is_change_event settings_changed = true
is_change_event stats_reset = true
is_change_event backup_deleted = true
is_change_event hello = false
is_change_event observe_tick = false
is_change_event backup_created = false
is_change_event backup_restored = false

-- A number per type, to compare types by.
abbrev type_code : EventType → ℕ
type_code hello = 0
type_code observe_tick = 1
type_code backup_created = 2
type_code backup_restored = 3
type_code backup_deleted = 4
type_code accounts_changed = 5
type_code api_keys_changed = 6
type_code settings_changed = 7
type_code stats_reset = 8

abbrev pub same_type : EventType → EventType → Bool
same_type a b = type_code a == type_code b
