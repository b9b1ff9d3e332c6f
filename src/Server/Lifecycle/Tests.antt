-- ===== src/Server/Lifecycle/Tests.antt =====
-- Services that are started and stopped on concrete input.
use ctask.Common.{ℕ, suc, ◌+◌, ◌≤◌, ◌≡◌, ◌⊎◌, refl, true, false, codes, some}
use ctask.Common.Result.{Result, ok, thrown, runtime_error}
use ctask.Server.{HttpServer}
use ctask.Server.Tests.{counter}
use ctask.Server.Listening.{Network, listen_on, start}
use ctask.Server.Lifecycle.{
  joining, returned, threw, Service, fail, leave_run, join_returns, call_start, by_itself, stop,
  ServiceRun, service_begins, service_moves,
}
use ctask.Server.Lifecycle.Results.{start_returns}
use ctask.Server.Lifecycle.Stopping.{settled, moving, Returns, Promised, stop_completes}

-- A network on which the port is taken.
abbrev taken : Network
taken = record {
  Address = ℕ;
  from_string = λ s. ok 0;
  open_acceptor = λ a. ok tt;
  set_reuse_address = ok tt;
  bind = λ a port. thrown (runtime_error (codes "address in use"));
  listen = ok tt;
}

abbrev server : HttpServer ℕ
server = record {
  address = codes "0.0.0.0";
  port = 80;
  threads = 1;
  keep_alive_sec = 5;
  router = counter;
}

abbrev failed : Service
failed = record {
  progress = joining;
  handler = threw;
  running = 1;
  stopped = true;
  error = some (runtime_error (codes "address in use"));
  asked = false;
}

listen_fails :
    listen_on taken (codes "0.0.0.0") 80 ≡ thrown (runtime_error (codes "address in use"))
unfolding listen_on
listen_fails = refl

failed_run : ServiceRun 1 (listen_on taken (codes "0.0.0.0") 80) failed
failed_run =
    service_moves (service_moves service_begins (call_start refl))
      (by_itself (fail 0 (runtime_error (codes "address in use")) refl refl refl listen_fails))

abbrev over : Service
over = record failed {
  progress = returned (thrown (runtime_error (codes "address in use")));
  running = 0;
}

over_run : ServiceRun 1 (listen_on taken (codes "0.0.0.0") 80) over
over_run =
    service_moves (service_moves failed_run (by_itself (leave_run 0 refl refl)))
      (by_itself (join_returns refl refl))

-- What `start` gives here, and where nothing goes wrong.
abbrev in_use : Result (Unit {0})
in_use = thrown (runtime_error (codes "address in use"))

abbrev quiet : Result (Unit {0})
quiet = ok tt

start_returns_example :
    ((over.stopped ≡ true) ⊎ (server.threads ≡ 0))
    × ((in_use ≡ start taken server) ⊎ ((in_use ≡ quiet) × (over.asked ≡ true)))
start_returns_example = start_returns taken server in_use over_run refl

-- It is stopped once more, and its thread leaves the context.
stop_completes_example :
    (left : ℕ) × (r : Result (Unit {0})) × (1 + left ≡ suc failed.running)
    × (failed.running ≤ 1)
    × Returns (listen_on taken (codes "0.0.0.0") 80) (record (stop failed) { running = 0 }) left r
    × Promised threw (listen_on taken (codes "0.0.0.0") 80) r
stop_completes_example = stop_completes failed_run refl (moving (leave_run 0 refl refl) settled)
