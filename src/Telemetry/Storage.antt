-- ===== src/Telemetry/Storage.antt =====
-- ctask_lib/telemetry/core/telemetry_storage.h and telemetry_storage.cpp, run by one thread. The
-- locks and the interleavings are in Concurrency.
pub mod Laws
pub mod Query
pub mod History
pub mod Abstract
use ctask.Common.{Bytes, ℕ, List, [], Option, none, some}
use ctask.Common.Assoc
use ctask.Common.Assoc.{lookup, modify}
use ctask.Telemetry.Types.{InteractionTimesCollection, InteractionTimesEventModel}
use ctask.Telemetry.Events.{emplace, interactions}

-- The map of one event, from timestamps to values. Its mutex is a matter of Concurrency.
abbrev pub EventEntriesSortedByTimestamp : Type 0
EventEntriesSortedByTimestamp = List (ℕ × InteractionTimesCollection)

pub record TelemetryStorage : Type 0 where
  pub event_entries : List (Bytes × EventEntriesSortedByTimestamp)

abbrev pub new_storage : TelemetryStorage
new_storage = record { event_entries = [] }

-- The write through the pointer that the lookup found.
unfoldable pub write_entry :
    Bytes → InteractionTimesEventModel → TelemetryStorage → TelemetryStorage
write_entry name event s = record s {
  event_entries = modify name (emplace event.date event.values) s.event_entries;
}

-- The last block: an entry is made if the name has none, and the event is written into it.
unfoldable pub create_entry :
    Bytes → InteractionTimesEventModel → TelemetryStorage → TelemetryStorage
create_entry name event s = record s {
  event_entries =
      modify name (emplace event.date event.values) (Assoc.emplace name [] s.event_entries);
}

unfoldable pub store_event :
    Bytes → InteractionTimesEventModel → TelemetryStorage → TelemetryStorage
unfolding write_entry create_entry
store_event name event s = elim (lookup name s.event_entries) [
  | none ↦ create_entry name event s
  | some _ ↦ write_entry name event s
]

-- `none` stands for undefined behaviour.
unfoldable pub get_event_interactions :
    Bytes → ℕ → ℕ → TelemetryStorage → Option (List InteractionTimesCollection)
get_event_interactions name from to s = elim (lookup name s.event_entries) [
  | none ↦ some []
  | some entry ↦ interactions from to entry
]
