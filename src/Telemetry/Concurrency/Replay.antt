-- ===== src/Telemetry/Concurrency/Replay.antt =====
-- The calls of many threads, with what the queries return, as calls of one thread.
use mathlib.Core.Path.{subst}
use ctask.Common.{
  ℕ, ◌≡◌, refl, ap, sym, ◌∙◌, Bytes, List, [], ◌∷◌, ◌++◌, map, Option, none, some, Option-cases,
  inl, inr,
}
use ctask.Common.Assoc.{lookup}
use ctask.Telemetry.Types.{InteractionTimesCollection, InteractionTimesEventModel}
use ctask.Telemetry.Events.{interactions}
use ctask.Telemetry.Storage.{TelemetryStorage, new_storage, store_event, get_event_interactions}
use ctask.Telemetry.Storage.Laws.{entries}
use ctask.Telemetry.Storage.History.{History, store_all}
use ctask.Telemetry.Concurrency.{
  Phase, System, start, idle, querying, reading, update, read, get_miss, IsThere, Move, Step, pick,
  Reach, begin, next,
}
use ctask.Telemetry.Concurrency.Linear.{HasEntry, Reach-HasEntry, Reach-store_all}

-- A call in its effect: an event that is stored, or a query with its bounds and what it returns.
pub data Call : Type 0 where
  stored : Bytes × InteractionTimesEventModel → Call
  queried : Bytes → ℕ → ℕ → Option (List InteractionTimesCollection) → Call

-- An interleaving with its stores and those of its queries that are recorded, in the order in which
-- they write or read: a store at its write, a query at its loop, under the lock of the entry, or at
-- its lookup, where that finds none.
pub data Log : System → List Call → Type 0 where
  empty : Log start []
  step :
      {σ τ : System} {calls : List Call} {h : History}
      → Log σ calls
      → Step σ τ h
      → Log τ (calls ++ map stored h)
  query :
      {σ : System} {calls : List Call} (i : ℕ) (name : Bytes) (from to : ℕ)
      → Log σ calls
      → σ.phase i ≡ reading name
      → Log
          (record σ { phase = update σ.phase i idle })
          (calls ++ queried name from to (interactions from to (entries name σ.storage)) ∷ [])
  query_none :
      {σ : System} {calls : List Call} (i : ℕ) (name : Bytes) (from to : ℕ)
      → Log σ calls
      → σ.phase i ≡ querying name
      → lookup name σ.storage.event_entries ≡ none
      → Log
          (record σ { phase = update σ.phase i idle })
          (calls ++ queried name from to (some []) ∷ [])

-- The stores among the calls.
abbrev pub stores : List Call → History
stores [] = []
stores (stored x ∷ calls) = x ∷ stores calls
stores (queried name from to result ∷ calls) = stores calls

-- That one thread which makes the calls in this order gets these results.
abbrev pub Replays : TelemetryStorage → List Call → Type 0
Replays s [] = Unit
Replays s (stored (name, event) ∷ calls) = Replays (store_event name event s) calls
Replays s (queried name from to result ∷ calls) =
    (result ≡ get_event_interactions name from to s) × Replays s calls

stores-append : (a b : List Call) → stores (a ++ b) ≡ stores a ++ stores b
stores-append [] b = refl
stores-append (stored x ∷ a) b = ap (λ h. x ∷ h) (stores-append a b)
stores-append (queried n f t r ∷ a) b = stores-append a b

stores-map : (h : History) → stores (map stored h) ≡ h
stores-map [] = refl
stores-map (x ∷ h) = ap (λ h. x ∷ h) (stores-map h)

Replays-append :
    (s : TelemetryStorage) (a b : List Call)
    → Replays s a
    → Replays (store_all (stores a) s) b
    → Replays s (a ++ b)
unfolding store_all
Replays-append s [] b left right = right
Replays-append s (stored (n, e) ∷ a) b left right =
    Replays-append (store_event n e s) a b left right
Replays-append s (queried n f t r ∷ a) b left right = (left.0, Replays-append s a b left.1 right)

Replays-stored : (s : TelemetryStorage) (h : History) → Replays s (map stored h)
Replays-stored s [] = tt
Replays-stored s ((n, e) ∷ h) = Replays-stored (store_event n e s) h

-- What the loop under the lock of the entry reads is what a query of one thread returns.
pub found_query :
    (s : TelemetryStorage) (name : Bytes) (from to : ℕ)
    → IsThere name s
    → interactions from to (entries name s) ≡ get_event_interactions name from to s
unfolding get_event_interactions
found_query s name from to there = elim (Option-cases (lookup name s.event_entries)) [
  | inl e ↦ absurd (there e)
  | inr (entry, e) ↦ rw (e, get_event_interactions) refl
]

pub missed_query :
    (s : TelemetryStorage) (name : Bytes) (from to : ℕ)
    → lookup name s.event_entries ≡ none
    → some [] ≡ get_event_interactions name from to s
unfolding get_event_interactions
missed_query s name from to absent = rw (absent, get_event_interactions) refl

-- A move of a thread, by the phase that it is known to be in.
pub moves :
    (σ : System) (i : ℕ) {phase : Phase}
    → phase ≡ σ.phase i
    → Move σ phase idle σ.storage []
    → Move σ (σ.phase i) idle σ.storage []
moves σ i e move = subst (λ p. Move σ p idle σ.storage []) e move

Log-Reach : {σ : System} {calls : List Call} → Log σ calls → Reach σ (stores calls)
Log-Reach empty = begin
Log-Reach (step {τ = τ} {calls} {h} log s) =
    subst (Reach τ)
      (ap (λ k. stores calls ++ k) (sym (stores-map h)) ∙ sym (stores-append calls (map stored h)))
      (next (Log-Reach log) s)
Log-Reach (query {σ} {calls} i name from to log at_read) =
    subst (Reach _) (sym (stores-append calls _))
      (next (Log-Reach log) (pick i (moves σ i (sym at_read) (read name))))
Log-Reach (query_none {σ} {calls} i name from to log at_query absent) =
    subst (Reach _) (sym (stores-append calls _))
      (next (Log-Reach log) (pick i (moves σ i (sym at_query) (get_miss name absent))))

-- In every interleaving, as long as no thread makes an entry that a thread has found by then, one
-- thread that makes the same calls in the order in which they write or read gets the same results
-- from its queries, undefined behaviour included, and leaves the same storage.
pub Log-Replays :
    {σ : System} {calls : List Call}
    → Log σ calls
    → Replays new_storage calls × (σ.storage ≡ store_all (stores calls) new_storage)
Log-Replays log = (replays log, Reach-store_all (Log-Reach log))
  where
    after :
        {σ : System} {calls : List Call}
        → Log σ calls
        → σ.storage ≡ store_all (stores calls) new_storage
    after log = Reach-store_all (Log-Reach log)

    replays : {σ : System} {calls : List Call} → Log σ calls → Replays new_storage calls
    replays empty = tt
    replays (step {calls = calls} {h} log s) =
        Replays-append new_storage calls (map stored h) (replays log) (Replays-stored _ h)
    replays (query {σ} {calls} i name from to log at_read) =
        Replays-append new_storage calls _ (replays log) (
          found_query σ.storage name from to
                (subst (HasEntry σ.storage) at_read (Reach-HasEntry (Log-Reach log) i))
              ∙ ap (get_event_interactions name from to) (after log),
          tt,
        )
    replays (query_none {σ} {calls} i name from to log at_query absent) =
        Replays-append new_storage calls _ (replays log) (
          missed_query σ.storage name from to absent
              ∙ ap (get_event_interactions name from to) (after log),
          tt,
        )
