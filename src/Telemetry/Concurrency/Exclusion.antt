-- ===== src/Telemetry/Concurrency/Exclusion.antt =====
-- What the two levels of locks exclude, in every interleaving.
use ctask.Common.{ℕ, Bytes, ◌≡◌, ◌==◌, Bool-cases, inl, inr, arith}
use ctask.Telemetry.Storage.{TelemetryStorage}
use ctask.Telemetry.Storage.History.{History}
use ctask.Telemetry.Concurrency.{
  Phase, idle, writing, creating, System, update, HoldsMapUnique, HoldsMap, HoldsEntryUnique,
  HoldsEntry, Nobody, Move, call_store, lock_entry, lock_map, call_get, lock_read, Step, pick,
  Reach, begin, next,
}

-- A thread for which `U` holds is the only one for which `H` holds.
abbrev pub Exclusive : (Phase → Type 0) → (Phase → Type 0) → (ℕ → Phase) → Type 0
Exclusive U H f = (a b : ℕ) → U (f a) → H (f b) → a ≡ b

-- What a new phase needs so that `U` stays exclusive.
abbrev MayTake : (Phase → Type 0) → (Phase → Type 0) → (ℕ → Phase) → Phase → Type 0
MayTake U H f p = (U p → Nobody H f) × (H p → Nobody U f)

update-Exclusive :
    (U H : Phase → Type 0) (f : ℕ → Phase) (i : ℕ) (p : Phase)
    → Exclusive U H f
    → MayTake U H f p
    → Exclusive U H (update f i p)
update-Exclusive U H f i p ex may a b = elim (Bool-cases (i == a)) [
  | inl at_a ↦ rw at_a (elim (Bool-cases (i == b)) [
    | inl at_b ↦ λ _ _. ground arith
    | inr off_b ↦ rw off_b (λ u h. absurd (may.0 u b h))
  ])
  | inr off_a ↦ rw off_a (elim (Bool-cases (i == b)) [
    | inl at_b ↦ rw at_b (λ u h. absurd (may.1 h a u))
    | inr off_b ↦ rw off_b (λ u h. ex a b u h)
  ])
]

abbrev nothing : {A : Type 0} → ⊥ → A
nothing x = absurd x

HoldsMapUnique-HoldsMap : (p : Phase) → HoldsMapUnique p → HoldsMap p
HoldsMapUnique-HoldsMap (creating n e) h = tt
HoldsMapUnique-HoldsMap idle h = h
HoldsMapUnique-HoldsMap _ h = absurd h

HoldsEntryUnique-HoldsEntry : (k : Bytes) (p : Phase) → HoldsEntryUnique k p → HoldsEntry k p
HoldsEntryUnique-HoldsEntry k (writing n e) h = h
HoldsEntryUnique-HoldsEntry k idle h = h
HoldsEntryUnique-HoldsEntry k _ h = absurd h

Move-MayTake_map :
    {σ : System} {s : TelemetryStorage} {p q : Phase} {h : History}
    → Move σ p q s h
    → MayTake HoldsMapUnique HoldsMap σ.phase q
Move-MayTake_map (call_store n e g) = (λ u. absurd u, λ _. g)
Move-MayTake_map {σ} (lock_map n e g) =
    (λ _. g, λ _ j u. g j (HoldsMapUnique-HoldsMap (σ.phase j) u))
Move-MayTake_map (call_get n g) = (λ u. absurd u, λ _. g)
Move-MayTake_map _ = (λ u. absurd u, λ u. absurd u)

Move-MayTake_entry :
    (k : Bytes) {σ : System} {s : TelemetryStorage} {p q : Phase} {h : History}
    → Move σ p q s h
    → MayTake (HoldsEntryUnique k) (HoldsEntry k) σ.phase q
Move-MayTake_entry k {σ} (lock_entry n e g) = (
  λ same j u. g j (rw same u),
  λ same j u. g j (rw same (HoldsEntryUnique-HoldsEntry k (σ.phase j) u)),
)
Move-MayTake_entry k (lock_read n g) = (λ u. absurd u, λ same j u. g j (rw same u))
Move-MayTake_entry k _ = (λ u. absurd u, λ u. absurd u)

-- The two levels of locks: the map of all entries, and each entry.
pub record IsExclusive (f : ℕ → Phase) : Type 0 where
  pub map : Exclusive HoldsMapUnique HoldsMap f
  pub entry : (k : Bytes) → Exclusive (HoldsEntryUnique k) (HoldsEntry k) f

Step-IsExclusive :
    {σ τ : System} {h : History} → Step σ τ h → IsExclusive σ.phase → IsExclusive τ.phase
Step-IsExclusive {σ} (pick i {p} m) ex = record {
  map = update-Exclusive HoldsMapUnique HoldsMap σ.phase i p ex.map (Move-MayTake_map m);
  entry = λ k.
      update-Exclusive (HoldsEntryUnique k) (HoldsEntry k) σ.phase i p (ex.entry k)
        (Move-MayTake_entry k m);
}

-- In every interleaving, as long as no thread makes an entry that a thread has found by then, while
-- one thread is in the block that makes an entry no other is in it or searches the map; and while
-- one thread writes an entry through the pointer that it found, no other does so or reads it.
pub Reach-IsExclusive : {σ : System} {h : History} → Reach σ h → IsExclusive σ.phase
Reach-IsExclusive begin = record { map = λ a b u _. absurd u; entry = λ k a b u _. absurd u }
Reach-IsExclusive (next r st) = Step-IsExclusive st (Reach-IsExclusive r)

-- In every interleaving, while one thread writes an entry through the pointer that it found, no
-- other thread does so or reads the entry.
pub writing_exclusive :
    {σ : System} {h : History} (k : Bytes) (a b : ℕ)
    → Reach σ h
    → HoldsEntryUnique k (σ.phase a)
    → HoldsEntry k (σ.phase b)
    → a ≡ b
writing_exclusive k a b r = (Reach-IsExclusive r).entry k a b

-- In every interleaving, while one thread makes an entry, no other thread makes one or searches
-- the map of the entries.
pub creating_exclusive :
    {σ : System} {h : History} (a b : ℕ)
    → Reach σ h
    → HoldsMapUnique (σ.phase a)
    → HoldsMap (σ.phase b)
    → a ≡ b
creating_exclusive a b r = (Reach-IsExclusive r).map a b
