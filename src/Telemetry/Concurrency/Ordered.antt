-- ===== src/Telemetry/Concurrency/Ordered.antt =====
-- That a thread which may write an entry has the entry for itself.
use ctask.Common.{Bytes, ◌≡◌, List}
use ctask.Telemetry.Storage.History.{History}
use ctask.Telemetry.Concurrency.{Phase, found, writing, creating, located, reading, IsUnknown}

-- The phases in which a thread has a pointer to the entry of a name.
abbrev PointsTo : Bytes → Phase → Type 0
PointsTo n (found m e) = m ≡ n
PointsTo n (writing m e) = m ≡ n
PointsTo n (located m) = m ≡ n
PointsTo n (reading m) = m ≡ n
PointsTo n _ = ⊥

-- Where a thread is at a write to the entry of a name, in the block of the entry or in the last
-- block, when so many names are known.
abbrev pub Writes : Bytes → List Bytes → Phase → Type 0
Writes n known (writing m e) = m ≡ n
Writes n known (creating m e) = (m ≡ n) × IsUnknown n known
Writes n known _ = ⊥

-- Where it is at a write or a read of the entry.
abbrev pub Accesses : Bytes → List Bytes → Phase → Type 0
Accesses n known (reading m) = m ≡ n
Accesses n known (writing m e) = m ≡ n
Accesses n known (creating m e) = (m ≡ n) × IsUnknown n known
Accesses n known _ = ⊥
