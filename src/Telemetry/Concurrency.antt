-- ===== src/Telemetry/Concurrency.antt =====
-- ctask_lib/telemetry/core/telemetry_storage.cpp, run by any number of threads: each call is cut
-- where it takes or gives back a lock. `mutex_` and the mutex of each entry are shared mutexes; who
-- holds them is read off the phases of the threads.
pub mod Exclusion
pub mod Linear
pub mod Ordered
pub mod Race
pub mod Reading
pub mod Replay
pub mod Tests
use ctask.Common.{ℕ, Bytes, ◌≡◌, ◌≢◌, ◌==◌, List, [], ◌∷◌, ◌++◌, Option, none, some, if◌then◌else◌}
use ctask.Common.Assoc.{lookup}
use ctask.Telemetry.Types.{InteractionTimesEventModel}
use ctask.Telemetry.Storage.{TelemetryStorage, new_storage, write_entry, create_entry}
use ctask.Telemetry.Storage.History.{History}

-- Where a thread stands in `storeEvent` or `getEventInteractions`.
pub data Phase : Type 0 where
  idle : Phase
  -- In the first block of `storeEvent`, under the shared lock of `mutex_`.
  searching : Bytes → InteractionTimesEventModel → Phase
  -- After it, with the pointer to the entry, or without one; no lock is held.
  found missing : Bytes → InteractionTimesEventModel → Phase
  -- In the second block, under the unique lock of the entry.
  writing : Bytes → InteractionTimesEventModel → Phase
  -- In the last block, under the unique lock of `mutex_`.
  creating : Bytes → InteractionTimesEventModel → Phase
  -- In the first block of `getEventInteractions`, under the shared lock of `mutex_`.
  querying : Bytes → Phase
  -- After it, with the pointer to the entry; no lock is held.
  located : Bytes → Phase
  -- In the second block, under the shared lock of the entry.
  reading : Bytes → Phase

pub record System : Type 0 where
  pub storage : TelemetryStorage
  pub phase : ℕ → Phase
  -- For the bounds of the model: the names whose entries were found by some thread.
  pub known : List Bytes

abbrev pub start : System
start = record { storage = new_storage; phase = λ _. idle; known = [] }

abbrev pub update : (ℕ → Phase) → ℕ → Phase → ℕ → Phase
update f i p j = if i == j then p else f j

-- The locks that a phase holds.
abbrev pub HoldsMapUnique : Phase → Type 0
HoldsMapUnique (creating n e) = Unit
HoldsMapUnique _ = ⊥

abbrev pub HoldsMap : Phase → Type 0
HoldsMap (creating n e) = Unit
HoldsMap (searching n e) = Unit
HoldsMap (querying n) = Unit
HoldsMap _ = ⊥

abbrev pub HoldsEntryUnique : Bytes → Phase → Type 0
HoldsEntryUnique k (writing n e) = n ≡ k
HoldsEntryUnique k _ = ⊥

abbrev pub HoldsEntry : Bytes → Phase → Type 0
HoldsEntry k (writing n e) = n ≡ k
HoldsEntry k (reading n) = n ≡ k
HoldsEntry k _ = ⊥

abbrev pub Nobody : (Phase → Type 0) → (ℕ → Phase) → Type 0
Nobody P phase = (j : ℕ) → ¬ P (phase j)

abbrev pub IsThere : Bytes → TelemetryStorage → Type 0
IsThere n s = lookup n s.event_entries ≢ none

-- The names known after a thread has come to a phase: a pointer to an entry comes from finding it.
abbrev pub learn : Phase → List Bytes → List Bytes
learn (found n e) known = n ∷ known
learn (located n) known = n ∷ known
learn _ known = known

abbrev pub IsUnknown : Bytes → List Bytes → Type 0
IsUnknown n [] = Unit
IsUnknown n (k ∷ known) = (k ≢ n) × IsUnknown n known

-- What one thread does to its phase and the storage. The last index is the event that the move has
-- stored, if any. `create` is for an entry that no thread has found: whatever was done to it before
-- was done under the unique lock of `mutex_`, and whoever finds it later takes that mutex after the
-- move, so the move is one for all threads. There is no move for a thread that is in this block
-- when another has found the entry by then. It writes into the entry under `mutex_` alone, and
-- nothing orders that write against the threads that go by the mutex of the entry, which is outside
-- the defined behaviour of C++.
pub data Move (σ : System) : Phase → Phase → TelemetryStorage → History → Type 0 where
  call_store :
      (n : Bytes) (e : InteractionTimesEventModel)
      → Nobody HoldsMapUnique σ.phase
      → Move σ idle (searching n e) σ.storage []
  hit :
      (n : Bytes) (e : InteractionTimesEventModel)
      → IsThere n σ.storage
      → Move σ (searching n e) (found n e) σ.storage []
  miss :
      (n : Bytes) (e : InteractionTimesEventModel)
      → lookup n σ.storage.event_entries ≡ none
      → Move σ (searching n e) (missing n e) σ.storage []
  lock_entry :
      (n : Bytes) (e : InteractionTimesEventModel)
      → Nobody (HoldsEntry n) σ.phase
      → Move σ (found n e) (writing n e) σ.storage []
  write :
      (n : Bytes) (e : InteractionTimesEventModel)
      → Move σ (writing n e) idle (write_entry n e σ.storage) ((n, e) ∷ [])
  lock_map :
      (n : Bytes) (e : InteractionTimesEventModel)
      → Nobody HoldsMap σ.phase
      → Move σ (missing n e) (creating n e) σ.storage []
  create :
      (n : Bytes) (e : InteractionTimesEventModel)
      → IsUnknown n σ.known
      → Move σ (creating n e) idle (create_entry n e σ.storage) ((n, e) ∷ [])
  call_get : (n : Bytes) → Nobody HoldsMapUnique σ.phase → Move σ idle (querying n) σ.storage []
  get_hit : (n : Bytes) → IsThere n σ.storage → Move σ (querying n) (located n) σ.storage []
  get_miss :
      (n : Bytes) → lookup n σ.storage.event_entries ≡ none → Move σ (querying n) idle σ.storage []
  lock_read :
      (n : Bytes)
      → Nobody (HoldsEntryUnique n) σ.phase
      → Move σ (located n) (reading n) σ.storage []
  read : (n : Bytes) → Move σ (reading n) idle σ.storage []

-- One thread makes one move.
pub data Step (σ : System) : System → History → Type 0 where
  pick :
      (i : ℕ) {p : Phase} {s : TelemetryStorage} {h : History}
      → Move σ (σ.phase i) p s h
      → Step σ (record { storage = s; phase = update σ.phase i p; known = learn p σ.known }) h

-- The systems that any interleaving of these moves reaches, with the events stored on the way, in
-- order.
pub data Reach : System → History → Type 0 where
  begin : Reach start []
  next : {σ τ : System} {h k : History} → Reach σ h → Step σ τ k → Reach τ (h ++ k)
