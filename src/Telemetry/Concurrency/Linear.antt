-- ===== src/Telemetry/Concurrency/Linear.antt =====
-- An interleaving of the threads stores what some sequence of `storeEvent` calls stores.
use ctask.Common.{
  ℕ, Bytes, ◌≡◌, ◌==◌, refl, ◌∙◌, sym, ap, [], ◌∷◌, Bool-cases, Option-cases, inl, inr, arith,
}
use ctask.Common.Assoc
use ctask.Common.Assoc.{
  lookup, emplace_present, lookup-modify, lookup-emplace, map_option, map_option-ne-none,
}
use ctask.Telemetry.Types.{InteractionTimesEventModel}
use ctask.Telemetry.Events.{emplace}
use ctask.Telemetry.Storage.{TelemetryStorage, new_storage, store_event, write_entry, create_entry}
use ctask.Telemetry.Storage.History.{History, store_all, store_all-append}
use ctask.Telemetry.Concurrency.{
  Phase, idle, found, writing, located, reading, System, IsThere, Move, hit, lock_entry, get_hit,
  lock_read, write, create, Step, pick, Reach, begin, next,
}

write_entry-eq-store_event :
    (n : Bytes) (e : InteractionTimesEventModel) (s : TelemetryStorage)
    → IsThere n s
    → write_entry n e s ≡ store_event n e s
unfolding store_event
write_entry-eq-store_event n e s h = ground arith

create_entry-eq-store_event :
    (n : Bytes) (e : InteractionTimesEventModel) (s : TelemetryStorage)
    → create_entry n e s ≡ store_event n e s
unfolding store_event
create_entry-eq-store_event n e s = elim (Option-cases (lookup n s.event_entries)) [
  | inl missing ↦ rw (missing, store_event) refl
  | inr (m, there) ↦
      rw (there, store_event) (rw (emplace_present n [] s.event_entries (λ z. cc)) refl)
]

store_event-IsThere :
    (n k : Bytes) (e : InteractionTimesEventModel) (s : TelemetryStorage)
    → IsThere k s
    → IsThere k (store_event n e s)
unfolding store_event
store_event-IsThere n k e s h = ground (
  arith,
  lookup-modify n k (emplace e.date e.values) s.event_entries,
  lookup-modify n k (emplace e.date e.values) (Assoc.emplace n [] s.event_entries),
  lookup-emplace n k [] s.event_entries,
)

-- A pointer that a thread holds points to an entry.
abbrev pub HasEntry : TelemetryStorage → Phase → Type 0
HasEntry s (found n e) = IsThere n s
HasEntry s (writing n e) = IsThere n s
HasEntry s (located n) = IsThere n s
HasEntry s (reading n) = IsThere n s
HasEntry s _ = Unit

-- A move stores its event as one call of `storeEvent` would.
Move-store :
    {σ : System} {s : TelemetryStorage} {p q : Phase} {h : History}
    → Move σ p q s h
    → HasEntry σ.storage p
    → s ≡ store_all h σ.storage
unfolding store_all
Move-store {σ} (write n e) there = write_entry-eq-store_event n e σ.storage there
Move-store {σ} (create n e unknown) _ = create_entry-eq-store_event n e σ.storage
Move-store _ _ = refl

store_all-IsThere :
    (h : History) (k : Bytes) (s : TelemetryStorage) → IsThere k s → IsThere k (store_all h s)
unfolding store_all
store_all-IsThere [] k s t = t
store_all-IsThere ((n, e) ∷ h) k s t = store_all-IsThere h k _ (store_event-IsThere n k e s t)

HasEntry-store_all :
    (h : History) (p : Phase) (s : TelemetryStorage) → HasEntry s p → HasEntry (store_all h s) p
HasEntry-store_all h (found n e) s t = store_all-IsThere h n s t
HasEntry-store_all h (writing n e) s t = store_all-IsThere h n s t
HasEntry-store_all h (located n) s t = store_all-IsThere h n s t
HasEntry-store_all h (reading n) s t = store_all-IsThere h n s t
HasEntry-store_all h idle s t = tt
HasEntry-store_all h _ s t = tt

Move-HasEntry :
    {σ : System} {s : TelemetryStorage} {p q : Phase} {h : History}
    → Move σ p q s h
    → HasEntry σ.storage p
    → HasEntry s q
Move-HasEntry (hit n e there) _ = there
Move-HasEntry (lock_entry n e g) there = there
Move-HasEntry (get_hit n there) _ = there
Move-HasEntry (lock_read n g) there = there
Move-HasEntry _ _ = tt

record IsLinear (σ : System) (h : History) : Type 0 where
  stored : σ.storage ≡ store_all h new_storage
  pointers : (i : ℕ) → HasEntry σ.storage (σ.phase i)

Step-pointers :
    {σ τ : System} {h : History}
    → Step σ τ h
    → ((i : ℕ) → HasEntry σ.storage (σ.phase i))
    → (j : ℕ) → HasEntry τ.storage (τ.phase j)
Step-pointers {σ} (pick i {p} {s} {h} m) there j = elim (Bool-cases (i == j)) [
  | inl here ↦ rw here (Move-HasEntry m (there i))
  | inr other ↦
      rw other (rw (Move-store m (there i)) (HasEntry-store_all h (σ.phase j) σ.storage (there j)))
]

Step-store :
    {σ τ : System} {h : History}
    → Step σ τ h
    → ((i : ℕ) → HasEntry σ.storage (σ.phase i))
    → τ.storage ≡ store_all h σ.storage
Step-store (pick i m) there = Move-store m (there i)

Reach-IsLinear : {σ : System} {h : History} → Reach σ h → IsLinear σ h
Reach-IsLinear begin = record { stored = unfold store_all in refl; pointers = λ i. tt }
Reach-IsLinear (next {σ} {τ} {h} {k} r st) =
    let prior = Reach-IsLinear r in
    record {
      stored =
          Step-store st prior.pointers
          ∙ ap (store_all k) prior.stored
          ∙ sym (store_all-append h k new_storage);
      pointers = Step-pointers st prior.pointers;
    }

-- A pointer that a thread holds points to an entry, in every interleaving, as long as no thread
-- makes an entry that a thread has found by then.
pub Reach-HasEntry :
    {σ : System} {h : History} → Reach σ h → (i : ℕ) → HasEntry σ.storage (σ.phase i)
Reach-HasEntry r = (Reach-IsLinear r).pointers

-- In every interleaving, as long as no thread makes an entry that a thread has found by then, the
-- storage is what the calls of `storeEvent` would have left, one after the other, in the order in
-- which their writes were made.
pub Reach-store_all : {σ : System} {h : History} → Reach σ h → σ.storage ≡ store_all h new_storage
Reach-store_all r = (Reach-IsLinear r).stored
