-- ===== src/Telemetry/Storage/Query.antt =====
-- What a range query returns, in terms of the values that the storage holds.
use ctask.Common.{
  ℕ, suc, ◌-◌, ◌<◌, ◌≤◌, ◌≡◌, refl, ◌≢◌, ◌↔◌, Bytes, none, some, inl, inr, arith, Option-cases,
  if◌then◌else◌,
}
use ctask.Common.Assoc.{lookup}
use ctask.Telemetry.Events.{within, between}
use ctask.Telemetry.Events.Range.{
  interactions_lem, between_ordered, between_sound, between_complete, values_from,
  within-eq-values_from,
}
use ctask.Telemetry.Storage.{TelemetryStorage, get_event_interactions}
use ctask.Telemetry.Storage.Laws.{entries, recorded, IsValid}

pub get_event_interactions_lem :
    (name : Bytes) (from to : ℕ) (s : TelemetryStorage)
    → IsValid s
    → get_event_interactions name from to s
      ≡ (if between to from (entries name s) then none else some (within from to (entries name s)))
unfolding get_event_interactions between within
get_event_interactions_lem name from to s v = elim (Option-cases (lookup name s.event_entries)) [
  | inl missing ↦ rw (missing, get_event_interactions) refl
  | inr (m, found) ↦
      rw (found, get_event_interactions)
        (interactions_lem from to m (ground (arith, v.sorted name)))
]

-- With the bounds in order, a query returns the values that the storage holds for the name at the
-- timestamps from the first bound to the second, both included, in the order of the timestamps.
pub get_event_interactions_ordered :
    (name : Bytes) (from to : ℕ) (s : TelemetryStorage)
    → IsValid s
    → from ≤ to
    → get_event_interactions name from to s
      ≡ some (values_from (λ d. recorded name d s) from (suc to - from))
unfolding recorded
get_event_interactions_ordered name from to s v h =
    rw (get_event_interactions_lem name from to s v, between_ordered to from (entries name s) h)
      (rw (
        within-eq-values_from (suc to - from) from to (entries name s) (v.sorted name)
          (omega arith)))

-- A query leaves defined behaviour exactly when the storage holds a value of the name at a
-- timestamp strictly between the second bound and the first.
pub get_event_interactions-eq-none_iff :
    (name : Bytes) (from to : ℕ) (s : TelemetryStorage)
    → IsValid s
    → (get_event_interactions name from to s ≡ none)
      ↔ ((d : ℕ) × (to < d) × (d < from) × (recorded name d s ≢ none))
unfolding recorded
get_event_interactions-eq-none_iff name from to s v = (
  λ e.
      between_sound to from (entries name s) (v.sorted name)
        (ground (arith, get_event_interactions_lem name from to s v)),
  λ w. rw (
    get_event_interactions_lem name from to s v,
    between_complete to from w.0 (entries name s) w.1 w.2 w.3,
  ),
)
