-- ===== src/Application/Tests.antt =====
-- The number of threads, and a run of the program, on concrete input.
use ctask.Common.{ℕ, zero, suc, ap, ◌∙◌, codes, none, ◌≡◌, ◌↔◌, refl, Bytes}
use ctask.Common.Result.{Result, ok}
use ctask.Utils.{CliArgs}
use ctask.Router.{PathHandlerMap}
use ctask.Cli.Laws.{Gives}
use ctask.Cli.Tests.{environment, parser, argv}
use ctask.Telemetry.Storage.{TelemetryStorage}
use ctask.Telemetry.Tests.{fractions}
use ctask.Telemetry.Api.Tests.{sample}
use ctask.Server.{HttpServer}
use ctask.Server.Listening.{Network, listen_on}
use ctask.Server.Lifecycle.{
  returned, Service, hear, join_returns, call_start, call_stop, by_itself, ServiceRun,
  service_begins, service_moves,
}
use ctask.Server.Lifecycle.Stopping.{settled, stop_completes, OwnMoves-ServiceRun}
use ctask.Application.{thread_count, Machine, run_main, exit_success}
use ctask.Logger.{Spdlog, Logging, get_logger}
use ctask.Application.Program.{program}
use ctask.Application.Program.Ending.{Ends, program-Ends}
use ctask.Application.Startup.{StartRun, main_server, Runs, run_main-eq-success_iff}

thread_count_tests :
    (thread_count 8 ≡ 6) × (thread_count 2 ≡ 0) × (thread_count 1 ≡ 65535) × (thread_count 0 ≡ 2)
unfolding thread_count
thread_count_tests = (refl, refl, refl, refl)

abbrev network : Network
network = record {
  Address = Bytes;
  from_string = λ s. ok s;
  open_acceptor = λ a. ok tt;
  set_reuse_address = ok tt;
  bind = λ a port. ok tt;
  listen = ok tt;
}

abbrev machine : Machine
machine = record {
  environment = environment;
  network = network;
  hardware_concurrency = 8;
  make_pool = λ threads. ok tt;
  watch_interrupt = ok tt;
}

-- The order of a map that is kept in order, for the one entry of each map here.
abbrev walk : PathHandlerMap TelemetryStorage → PathHandlerMap TelemetryStorage
walk m = m

heard : (address : Bytes) (port : ℕ) → listen_on network address port ≡ ok tt
unfolding listen_on
heard address port = refl

-- A service whose handler listens, where it has a thread, until it is stopped.
ended_run :
    (listens : Result (Unit {0})) (threads : ℕ)
    → listens ≡ ok tt
    → (s : Service) × ServiceRun threads listens s × (s.progress ≡ returned (ok tt))
ended_run listens zero hears = (
  _,
  service_moves (service_moves service_begins (call_start refl))
      (by_itself (join_returns refl refl)),
  refl,
)
ended_run listens (suc n) hears =
    let started_run = service_moves service_begins (call_start refl) in
    let run = service_moves started_run (by_itself (hear n refl refl refl hears)) in
    let (left, r, count, within, returns, promised) = stop_completes run refl settled in
    (
      returns.final,
      OwnMoves-ServiceRun (service_moves run call_stop) returns.moves,
      returns.at_end ∙ ap returned promised,
    )

abbrev quiet : HttpServer TelemetryStorage → Result (Unit {0})
quiet server = ok tt

abbrev quiet_runs :
    (server : HttpServer TelemetryStorage)
    → StartRun fractions sample walk (λ x. refl) machine quiet server
quiet_runs server =
    let (s, run, over) =
      ended_run (listen_on network server.address server.port) server.threads
        (heard server.address server.port) in
    record { service = s; run = run; returns = over }

run_main-eq-success_iff_example :
    (run_main fractions sample walk machine quiet parser argv ≡ ok exit_success) ↔ (
      (args : CliArgs) × Gives environment parser argv args
      × Runs fractions sample walk
          (λ x. refl)
          machine
          quiet
          args
          (quiet_runs (main_server fractions sample walk (λ x. refl) machine quiet args)).service)
run_main-eq-success_iff_example =
    run_main-eq-success_iff fractions sample walk (λ x. refl) machine quiet quiet_runs parser argv

-- A logging library that numbers its loggers.
abbrev numbering : Spdlog
numbering = record {
  State = ℕ;
  AsyncLogger = ℕ;
  Level = Bytes;
  debug = codes "debug";
  init_thread_pool = λ size threads s. (ok tt, s);
  stdout_color_sink = λ s. (ok tt, s);
  async_logger = λ name s. (ok s, suc s);
  set_pattern = λ pattern logger s. s;
  register_logger = λ logger s. (ok tt, s);
  set_default_logger = λ logger s. s;
  set_level = λ level s. s;
  set_level_of = λ level logger s. s;
  from_str = λ name. name;
}

abbrev fresh : Logging numbering
fresh = record { logger = none; state = 7 }

program-Ends_example :
    Ends numbering fractions sample walk
      (λ x. refl)
      machine
      quiet
      quiet_runs
      parser
      argv
      (get_logger numbering fresh)
      (program numbering fractions sample walk machine quiet 2 parser argv fresh)
program-Ends_example =
    program-Ends numbering fractions sample walk (λ x. refl) machine quiet quiet_runs 2 parser argv
      fresh
