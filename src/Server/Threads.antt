-- ===== src/Server/Threads.antt =====
-- ctask_lib/service/http_server/http_server.cpp and ctask_lib/telemetry/core/telemetry_storage.cpp
-- together: the sessions of many connections on many threads, where a turn that calls the storage is
-- cut at its locks. What a turn does besides its call of the storage touches its own connection only,
-- so that its reply is given with the last step of the call. The steps of a call are the moves of
-- Telemetry.Concurrency, which stop in front of the one access that nothing orders.
pub mod Plans
pub mod Routes
pub mod Turns
pub mod Refines
pub mod Tests
use ctask.Common.{ℕ, Bytes, ◌≡◌, ◌≢◌, List, [], ◌∷◌, ◌++◌, Option, some, none}
use ctask.Common.Assoc.{lookup}
use ctask.Telemetry.Types.{InteractionTimesEventModel}
use ctask.Telemetry.Events.{interactions}
use ctask.Telemetry.Storage.{TelemetryStorage}
use ctask.Telemetry.Storage.Laws.{entries}
use ctask.Telemetry.Concurrency.{System, Phase, idle, searching, querying, reading, Move}
use ctask.Telemetry.Concurrency as Concurrency
use ctask.Common.Result.{Result}
use ctask.Utils.{HttpRequest}
use ctask.Server.{IRouter, Turn, client_session}
use ctask.Server.Connections.{Connections, left_after, update}
use ctask.Server.Threads.Plans.{Plan, answers, stores, asks, run}
use ctask.Server.Threads.Turns.{Reply, replied}

-- The storage with the phase of the thread that serves each connection, what each connection has
-- still to go through, its turn that is under way included, and what it has been sent.
pub record Threads : Type 0 where
  pub system : System
  pub pending : ℕ → List Turn
  pub sent : ℕ → List Bytes

-- The threads as connections alone.
abbrev pub seen : Threads → Connections TelemetryStorage
seen σ = record { world = σ.system.storage; pending = σ.pending; sent = σ.sent }

abbrev pub enter : Threads → ℕ → Phase → TelemetryStorage → Threads
enter σ i phase storage = record σ {
  system = record {
    storage = storage;
    phase = Concurrency.update σ.system.phase i phase;
    known = Concurrency.learn phase σ.system.known;
  };
}

-- A turn is at its end, with its reply.
abbrev pub reply : Threads → ℕ → Reply → List Turn → Threads
reply σ i (texts, ending) ts = record σ {
  pending = update σ.pending i (left_after ending ts);
  sent = update σ.sent i (σ.sent i ++ texts);
}

module _ (parse : Bytes → Result HttpRequest) (empty_object : Bytes)
    (router : IRouter TelemetryStorage) where
  -- A plan of a turn: on every storage it does what the session does in this turn.
  pub record IsPlan (t : Turn) (plan : Plan Reply) : Type 0 where
    pub agrees :
        (s : TelemetryStorage)
        → replied (client_session parse empty_object router (t ∷ []) s) ≡ run plan s

  pub data ThreadStep (σ : Threads) : Threads → Type 0 where
    -- A turn without a call of the storage.
    serves :
        {t : Turn} {ts : List Turn} {r : Reply} (i : ℕ)
        → σ.pending i ≡ t ∷ ts
        → IsPlan t (answers r)
        → σ.system.phase i ≡ idle
        → ThreadStep σ (reply σ i r ts)
    -- A turn calls `storeEvent` or `getEventInteractions`.
    calls_store :
        {t : Turn} {ts : List Turn} {n : Bytes} {e : InteractionTimesEventModel} {r : Reply}
        {s : TelemetryStorage} (i : ℕ)
        → σ.pending i ≡ t ∷ ts
        → IsPlan t (stores n e r)
        → Move σ.system (σ.system.phase i) (searching n e) s []
        → ThreadStep σ (enter σ i (searching n e) s)
    calls_query :
        {t : Turn} {ts : List Turn} {n : Bytes} {from to : ℕ} {next : _ → Reply}
        {s : TelemetryStorage} (i : ℕ)
        → σ.pending i ≡ t ∷ ts
        → IsPlan t (asks n from to next)
        → Move σ.system (σ.system.phase i) (querying n) s []
        → ThreadStep σ (enter σ i (querying n) s)
    -- A call goes on.
    goes_on :
        {phase : Phase} {s : TelemetryStorage} (i : ℕ)
        → σ.system.phase i ≢ idle
        → phase ≢ idle
        → Move σ.system (σ.system.phase i) phase s []
        → ThreadStep σ (enter σ i phase s)
    -- A call ends, and the turn with it.
    ends_store :
        {t : Turn} {ts : List Turn} {n : Bytes} {e : InteractionTimesEventModel} {r : Reply}
        {s : TelemetryStorage} (i : ℕ)
        → σ.pending i ≡ t ∷ ts
        → IsPlan t (stores n e r)
        → Move σ.system (σ.system.phase i) idle s ((n, e) ∷ [])
        → ThreadStep σ (reply (enter σ i idle s) i r ts)
    ends_query :
        {t : Turn} {ts : List Turn} {n : Bytes} {from to : ℕ} {next : _ → Reply} (i : ℕ)
        → σ.pending i ≡ t ∷ ts
        → IsPlan t (asks n from to next)
        → σ.system.phase i ≡ reading n
        → ThreadStep σ (
            reply
              (enter σ i idle σ.system.storage)
              i
              (next (interactions from to (entries n σ.system.storage)))
              ts)
    ends_unknown :
        {t : Turn} {ts : List Turn} {n : Bytes} {from to : ℕ} {next : _ → Reply} (i : ℕ)
        → σ.pending i ≡ t ∷ ts
        → IsPlan t (asks n from to next)
        → σ.system.phase i ≡ querying n
        → lookup n σ.system.storage.event_entries ≡ none
        → ThreadStep σ (reply (enter σ i idle σ.system.storage) i (next (some [])) ts)

  pub data ThreadReach (σ : Threads) : Threads → Type 0 where
    begin : ThreadReach σ σ
    then_step : {τ υ : Threads} → ThreadReach σ τ → ThreadStep τ υ → ThreadReach σ υ
