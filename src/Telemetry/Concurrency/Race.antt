-- ===== src/Telemetry/Concurrency/Race.antt =====
-- The last block of `storeEvent` writes an entry without the lock of the entry.
use ctask.Common.{ℕ, Bytes, bytes_eq_refl, ◌≡◌, refl, [], ◌∷◌, none, arith}
use ctask.Common.Assoc
use ctask.Common.Assoc.{lookup, modify}
use ctask.Telemetry.Types.{InteractionTimesEventModel}
use ctask.Telemetry.Storage.{TelemetryStorage, new_storage, create_entry}
use ctask.Telemetry.Concurrency.{
  Phase, idle, searching, found, missing, writing, creating, System, call_store, hit, miss,
  lock_entry, lock_map, create, pick, Reach, begin, next, update, IsThere,
}

module _ (n : Bytes) (e0 e1 e2 : InteractionTimesEventModel) where
  -- The phases of the threads: after threads 0 and 1 missed the name, after thread 1 made its entry,
  -- after thread 2 found the entry, and when threads 0 and 2 both write.
  abbrev both_missed : ℕ → Phase
  both_missed =
      update
        (update (update (update (λ _. idle) 0 (searching n e0)) 0 (missing n e0)) 1
          (searching n e1))
        1 (missing n e1)

  abbrev entry_made : ℕ → Phase
  entry_made = update (update both_missed 1 (creating n e1)) 1 idle

  abbrev entry_found : ℕ → Phase
  entry_found = update (update entry_made 2 (searching n e2)) 2 (found n e2)

  abbrev both_write : ℕ → Phase
  both_write = update (update entry_found 2 (writing n e2)) 0 (creating n e0)

  abbrev stored : TelemetryStorage
  stored = create_entry n e1 new_storage

  absent : lookup n new_storage.event_entries ≡ none
  unfolding lookup
  absent = refl

  there : IsThere n stored
  unfolding create_entry lookup modify Assoc.emplace
  there = ground (arith, bytes_eq_refl n)

  Reach-both_missed : Reach (record { storage = new_storage; phase = both_missed; known = [] }) []
  Reach-both_missed =
      next
        (next (next (next begin (pick 0 (call_store n e0 (λ j h. h)))) (pick 0 (miss n e0 absent)))
          (pick 1 (call_store n e1 (λ j h. ground arith))))
        (pick 1 (miss n e1 absent))

  Reach-entry_made :
      Reach (record { storage = stored; phase = entry_made; known = [] }) ((n, e1) ∷ [])
  Reach-entry_made =
      next (next Reach-both_missed (pick 1 (lock_map n e1 (λ j h. ground arith))))
        (pick 1 (create n e1 tt))

  Reach-entry_found :
      Reach (record { storage = stored; phase = entry_found; known = n ∷ [] }) ((n, e1) ∷ [])
  Reach-entry_found =
      next (next Reach-entry_made (pick 2 (call_store n e2 (λ j h. ground arith))))
        (pick 2 (hit n e2 there))

  Reach-both_write :
      Reach (record { storage = stored; phase = both_write; known = n ∷ [] }) ((n, e1) ∷ [])
  Reach-both_write =
      next (next Reach-entry_found (pick 2 (lock_entry n e2 (λ j h. ground arith))))
        (pick 0 (lock_map n e0 (λ j h. ground arith)))

-- Two threads that miss the same new name, and a third that finds it in between: whatever the name
-- and the three events, an interleaving lets a thread make the entry again, which writes into it,
-- while another thread writes the same entry under the lock of the entry.
pub race_reachable :
    (n : Bytes) (e0 e1 e2 : InteractionTimesEventModel)
    → (σ : System) × Reach σ ((n, e1) ∷ [])
      × (σ.phase 0 ≡ creating n e0)
      × (σ.phase 2 ≡ writing n e2)
race_reachable n e0 e1 e2 = (_, Reach-both_write n e0 e1 e2, refl, refl)
