-- ===== src/Telemetry/Storage/Laws.antt =====
-- The abstract view of the storage, a value for each name and timestamp, and the invariant.
use ctask.Common.{
  ℕ, Bytes, bytes_eq, bytes_eq_iff, ◌≡◌, ◌&&◌, ◌==◌, [], Option, some, arith, if◌then◌else◌,
}
use ctask.Common.Assoc
use ctask.Common.Assoc.{lookup, or_else, map_option, lookup-emplace, lookup-modify}
use ctask.Telemetry.Types.{InteractionTimesCollection, InteractionTimesEventModel}
use ctask.Telemetry.Events.{emplace, IsSorted, at}
use ctask.Telemetry.Events.Laws.{emplace-IsSorted, at-emplace}
use ctask.Telemetry.Storage.{
  EventEntriesSortedByTimestamp, TelemetryStorage, new_storage, store_event,
}

-- The entries of a name; no entry is as good as an empty one.
abbrev pub entries : Bytes → TelemetryStorage → EventEntriesSortedByTimestamp
entries name s = or_else (lookup name s.event_entries) []

-- The value that the storage holds for a name and a timestamp.
unfoldable pub recorded : Bytes → ℕ → TelemetryStorage → Option InteractionTimesCollection
recorded name date s = at date (entries name s)

-- The entries of each name are in the order of their timestamps.
pub record IsValid (s : TelemetryStorage) : Type 0 where
  pub sorted : (name : Bytes) → IsSorted (entries name s)

pub new_storage-IsValid : IsValid new_storage
unfolding lookup
new_storage-IsValid = record { sorted = λ name. tt }

-- Whether the name is there or not, storing writes the event into its entries.
entries-store_event :
    (n k : Bytes) (e : InteractionTimesEventModel) (s : TelemetryStorage)
    → entries k (store_event n e s)
      ≡ (if bytes_eq n k then emplace e.date e.values (entries k s) else entries k s)
unfolding store_event
entries-store_event n k e s = ground (
  arith,
  bytes_eq_iff n k,
  lookup-modify n k (emplace e.date e.values) s.event_entries,
  lookup-modify n k (emplace e.date e.values) (Assoc.emplace n [] s.event_entries),
  lookup-emplace n k [] s.event_entries,
)

pub store_event-IsValid :
    (n : Bytes) (e : InteractionTimesEventModel) (s : TelemetryStorage)
    → IsValid s
    → IsValid (store_event n e s)
store_event-IsValid n e s v = record {
  sorted = λ k.
      rw (entries-store_event n k e s)
        (ground (arith, v.sorted k, emplace-IsSorted e.date e.values (entries k s)));
}

-- Storing an event sets the value of its name and timestamp if they have none yet. A value that is
-- there stays, and so does every other name and timestamp.
pub recorded-store_event :
    (n k : Bytes) (e : InteractionTimesEventModel) (d : ℕ) (s : TelemetryStorage)
    → IsValid s
    → recorded k d (store_event n e s) ≡ (
        if bytes_eq n k && (e.date == d)
        then some (or_else (recorded k d s) e.values)
        else recorded k d s)
unfolding recorded
recorded-store_event n k e d s v =
    rw (entries-store_event n k e s)
      (ground (arith, at-emplace e.date d e.values (entries k s) (v.sorted k)))
