-- ===== src/Telemetry/Storage/History.antt =====
-- The storage after a history of stores, against the history itself.
use ctask.Common.{
  ℕ, suc, ◌-◌, ◌≤◌, ◌≡◌, refl, Bytes, bytes_eq, ◌&&◌, ◌==◌, List, [], ◌∷◌, ◌++◌, Option, none, some,
  arith, if◌then◌else◌, ◌∙◌, ap,
}
use ctask.Common.Assoc.{lookup}
use ctask.Telemetry.Types.{InteractionTimesCollection, InteractionTimesEventModel}
use ctask.Telemetry.Events.{at}
use ctask.Telemetry.Events.Range.{values_from, values_from_congr}
use ctask.Telemetry.Storage.{TelemetryStorage, new_storage, store_event, get_event_interactions}
use ctask.Telemetry.Storage.Laws.{
  recorded, IsValid, new_storage-IsValid, store_event-IsValid, recorded-store_event,
}
use ctask.Telemetry.Storage.Query.{get_event_interactions_ordered}

abbrev pub History : Type 0
History = List (Bytes × InteractionTimesEventModel)

-- A run of stores, the first of the list first.
unfoldable pub store_all : History → TelemetryStorage → TelemetryStorage
store_all [] s = s
store_all ((n, e) ∷ h) s = store_all h (store_event n e s)

-- The values of the first event of the history with the name and the timestamp.
unfoldable pub first_values : Bytes → ℕ → History → Option InteractionTimesCollection
first_values k d [] = none
first_values k d ((n, e) ∷ h) =
    if bytes_eq n k && (e.date == d) then some e.values else first_values k d h

abbrev or_later :
    Option InteractionTimesCollection
    → Option InteractionTimesCollection
    → Option InteractionTimesCollection
or_later none later = later
or_later (some v) later = some v

pub store_all-append :
    (h k : History) (s : TelemetryStorage) → store_all (h ++ k) s ≡ store_all k (store_all h s)
unfolding store_all
store_all-append [] k s = refl
store_all-append ((n, e) ∷ h) k s = store_all-append h k (store_event n e s)

-- Stores keep the entries of each name in the order of their timestamps.
pub store_all-IsValid : (h : History) (s : TelemetryStorage) → IsValid s → IsValid (store_all h s)
unfolding store_all
store_all-IsValid [] s v = v
store_all-IsValid ((n, e) ∷ h) s v = store_all-IsValid h _ (store_event-IsValid n e s v)

recorded-store_all :
    (h : History) (k : Bytes) (d : ℕ) (s : TelemetryStorage)
    → IsValid s
    → recorded k d (store_all h s) ≡ or_later (recorded k d s) (first_values k d h)
unfolding store_all first_values
recorded-store_all [] k d s v = ground arith
recorded-store_all ((n, e) ∷ h) k d s v = ground (
  arith,
  recorded-store_all h k d (store_event n e s) (store_event-IsValid n e s v),
  recorded-store_event n k e d s v,
)

pub recorded_new : (k : Bytes) (d : ℕ) → recorded k d new_storage ≡ none
unfolding recorded lookup at
recorded_new k d = refl

-- After any history the storage holds, for each name and timestamp, the values of the first event
-- of the history that has them, and nothing else.
pub recorded_history :
    (h : History) (k : Bytes) (d : ℕ) → recorded k d (store_all h new_storage) ≡ first_values k d h
recorded_history h k d =
    recorded-store_all h k d new_storage new_storage-IsValid
    ∙ ap (λ o. or_later o (first_values k d h)) (recorded_new k d)

-- After any history, a query with its bounds in order returns, timestamp by timestamp, the values
-- of the first event of the history with that name and timestamp.
pub get_event_interactions_history :
    (h : History) (name : Bytes) (from to : ℕ)
    → from ≤ to
    → get_event_interactions name from to (store_all h new_storage)
      ≡ some (values_from (λ d. first_values name d h) from (suc to - from))
get_event_interactions_history h name from to ordered =
    get_event_interactions_ordered name from to _
      (store_all-IsValid h new_storage new_storage-IsValid) ordered
    ∙ ap some (values_from_congr _ _ from (suc to - from) (recorded_history h name))
