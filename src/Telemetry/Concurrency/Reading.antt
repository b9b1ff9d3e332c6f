-- ===== src/Telemetry/Concurrency/Reading.antt =====
-- What a query reads while other threads store.
use ctask.Common.{ℕ, suc, ◌-◌, ◌≤◌, ◌≡◌, ◌∙◌, ap, Bytes, some, arith}
use mathlib.Core.Path.{subst}
use ctask.Telemetry.Events.{interactions}
use ctask.Telemetry.Events.Range.{
  interactions_lem, between_ordered, within-eq-values_from, values_from, values_from_congr,
}
use ctask.Telemetry.Storage.{TelemetryStorage, new_storage}
use ctask.Telemetry.Storage.Laws.{entries, recorded, IsValid, new_storage-IsValid}
use ctask.Telemetry.Storage.History.{
  History, store_all, first_values, store_all-IsValid, recorded_history,
}
use ctask.Telemetry.Concurrency.{System, IsThere, reading, Reach}
use ctask.Telemetry.Concurrency.Linear.{HasEntry, Reach-HasEntry, Reach-store_all}

entries_ordered :
    (name : Bytes) (from to : ℕ) (s : TelemetryStorage)
    → IsValid s
    → from ≤ to
    → interactions from to (entries name s)
      ≡ some (values_from (λ d. recorded name d s) from (suc to - from))
unfolding recorded
entries_ordered name from to s v h =
    rw
      (
        interactions_lem from to (entries name s) (v.sorted name),
        between_ordered to from (entries name s) h,
      )
      (rw (
        within-eq-values_from (suc to - from) from to (entries name s) (v.sorted name)
          (omega arith)))

-- In every interleaving, as long as no thread makes an entry that a thread has found by then, a
-- thread that reads the entry of a name reads one that is there; and with its bounds in order the
-- loop gives, timestamp by timestamp, the values of the first event with the name among the stores
-- whose writes were made before.
pub reading_lem :
    {σ : System} {h : History} (i : ℕ) (name : Bytes) (from to : ℕ)
    → Reach σ h
    → σ.phase i ≡ reading name
    → from ≤ to
    → IsThere name σ.storage
      × (interactions from to (entries name σ.storage)
          ≡ some (values_from (λ d. first_values name d h) from (suc to - from)))
reading_lem {σ} {h} i name from to r at_read ordered =
    let valid = store_all-IsValid h new_storage new_storage-IsValid in
    (
      subst (HasEntry σ.storage) at_read (Reach-HasEntry r i),
      ap (λ s. interactions from to (entries name s)) (Reach-store_all r)
          ∙ entries_ordered name from to (store_all h new_storage) valid ordered
          ∙ ap some (values_from_congr _ _ from (suc to - from) (recorded_history h name)),
    )
