-- ===== src/Server/Lifecycle.antt =====
-- ctask_lib/service/http_server/http_server.cpp: `start`, `stop` and the destructor, in the steps
-- of the threads of the pool. The context is that of asio: `run` returns once the context is
-- stopped, and a handler starts on a thread that runs the context, while it is not stopped. The
-- connection handler keeps it in work.
pub mod Results
pub mod Stopping
pub mod Tests
use ctask.Common.{ℕ, suc, ◌≡◌, Bool, true, false, Option, none, some}
use ctask.Common.Result.{Result, ok, thrown, Exception}

-- Where the thread stands that calls `start`: in front of the call, in `join`, or behind it.
pub data Progress : Type 0 where
  unstarted joining : Progress
  returned : Result (Unit {0}) → Progress

-- The connection handler: spawned but not run, at its accepts, or ended by an exception.
pub data HandlerState : Type 0 where
  spawned accepting threw : HandlerState

pub record Service : Type 0 where
  pub progress : Progress
  pub handler : HandlerState
  -- The threads of the pool inside `run`.
  pub running : ℕ
  pub stopped : Bool
  -- `errorPromise`
  pub error : Option Exception
  -- For the statements: whether `stop` was called.
  pub asked : Bool

abbrev pub new_service : Service
new_service = record {
  progress = unstarted;
  handler = spawned;
  running = 0;
  stopped = false;
  error = none;
  asked = false;
}

abbrev pub stop_context : Service → Service
stop_context s = record s { stopped = true }

-- `stop`, which the destructor and the handler of the interrupt call.
abbrev pub stop : Service → Service
stop s = stop_context (record s { asked = true })

-- What `start` gives after `join`.
abbrev pub rethrow : Option Exception → Result (Unit {0})
rethrow none = ok tt
rethrow (some e) = thrown e

-- What the threads of the pool and the thread that joins them do by themselves, for what the
-- connection handler makes of its set-up.
pub data OwnMove (listens : Result (Unit {0})) (s : Service) : Service → Type 0 where
  hear :
      (others : ℕ)
      → s.running ≡ suc others
      → s.stopped ≡ false
      → s.handler ≡ spawned
      → listens ≡ ok tt
      → OwnMove listens s (record s { handler = accepting })
  fail :
      (others : ℕ) (e : Exception)
      → s.running ≡ suc others
      → s.stopped ≡ false
      → s.handler ≡ spawned
      → listens ≡ thrown e
      → OwnMove listens s (stop_context (record s { handler = threw; error = some e }))
  leave_run :
      (others : ℕ)
      → s.running ≡ suc others
      → s.stopped ≡ true
      → OwnMove listens s (record s { running = others })
  join_returns :
      s.progress ≡ joining
      → s.running ≡ 0
      → OwnMove listens s (record s { progress = returned (rethrow s.error) })

-- One step, for a number of threads.
pub data ServiceMove (threads : ℕ) (listens : Result (Unit {0})) (s : Service)
    : Service → Type 0 where
  call_start :
      s.progress ≡ unstarted
      → ServiceMove threads listens s (record s { progress = joining; running = threads })
  call_stop : ServiceMove threads listens s (stop s)
  by_itself : {t : Service} → OwnMove listens s t → ServiceMove threads listens s t

pub data ServiceRun (threads : ℕ) (listens : Result (Unit {0})) : Service → Type 0 where
  service_begins : ServiceRun threads listens new_service
  service_moves :
      {s t : Service}
      → ServiceRun threads listens s
      → ServiceMove threads listens s t
      → ServiceRun threads listens t
