-- ===== src/Telemetry/Concurrency/Tests.antt =====
-- Interleavings of the storage on concrete input.
use ctask.Common.{ℕ, ◌≡◌, refl, Bytes, bytes_eq, codes, List, [], ◌∷◌, some, none, arith}
use ctask.Common.Assoc
use ctask.Common.Assoc.{lookup, modify}
use ctask.Common.Int.{pos}
use ctask.Telemetry.Types.{InteractionTimesEventModel}
use ctask.Telemetry.Storage.{new_storage, create_entry}
use ctask.Telemetry.Storage.History.{store_all}
use ctask.Telemetry.Events.{interactions, lower_bound, upper_bound, collect, emplace}
use ctask.Telemetry.Concurrency.{
  System, IsThere, writing, creating, call_store, miss, lock_map, create, call_get, get_hit,
  lock_read, pick, Reach,
}
use ctask.Telemetry.Concurrency.Replay.{
  Call, stored, queried, Log, empty, step, query, stores, Replays, Log-Replays,
}
use ctask.Telemetry.Concurrency.Exclusion.{IsExclusive, Reach-IsExclusive}
use ctask.Telemetry.Concurrency.Race.{race_reachable}

abbrev login : Bytes
login = codes "login"

abbrev at_date : ℕ → InteractionTimesEventModel
at_date date = record { date = date; values = pos 1 ∷ [] }

-- Thread 0 creates an entry while thread 2 writes in it.
raced :
    (σ : System) × Reach σ ((login, at_date 2) ∷ [])
    × (σ.phase 0 ≡ creating login (at_date 1))
    × (σ.phase 2 ≡ writing login (at_date 3))
raced = race_reachable login (at_date 1) (at_date 2) (at_date 3)

race_reachable_example :
    (σ : System) × Reach σ ((login, at_date 2) ∷ [])
    × (σ.phase 0 ≡ creating login (at_date 1))
    × (σ.phase 2 ≡ writing login (at_date 3))
race_reachable_example = race_reachable login (at_date 1) (at_date 2) (at_date 3)

-- The thread that writes.
abbrev writer : ℕ
writer = 2

Reach-IsExclusive_example : IsExclusive raced.0.phase
Reach-IsExclusive_example = Reach-IsExclusive raced.1

-- A thread that stores, and another that has come to read what the first has stored.
absent : lookup login new_storage.event_entries ≡ none
unfolding lookup
absent = refl

there : IsThere login (create_entry login (at_date 1) new_storage)
unfolding create_entry lookup modify Assoc.emplace bytes_eq
there = λ e. cc

abbrev calls : List Call
calls = stored (login, at_date 1) ∷ queried login 0 9 (some ((pos 1 ∷ []) ∷ [])) ∷ []

read_after : (σ : System) × Log σ calls
unfolding create_entry lookup modify Assoc.emplace bytes_eq interactions lower_bound upper_bound
    collect emplace
read_after = (
  _,
  query 1 login 0 9
      (step
        (step
          (step
            (step
              (step
                (step (step empty (pick 0 (call_store login (at_date 1) (λ j h. h))))
                  (pick 0 (miss login (at_date 1) absent)))
                (pick 0 (lock_map login (at_date 1) (λ j h. ground arith))))
              (pick 0 (create login (at_date 1) tt)))
            (pick 1 (call_get login (λ j h. ground arith))))
          (pick 1 (get_hit login there)))
        (pick 1 (lock_read login (λ j h. ground arith))))
      refl,
)

Log-Replays_example :
    Replays new_storage calls × (read_after.0.storage ≡ store_all (stores calls) new_storage)
Log-Replays_example = Log-Replays read_after.1
