-- ===== src/Application/Startup.antt =====
-- When the program ends with success.
use ctask.Common.{
  ℕ, ◌-◌, ◌%◌, ◌^◌, ◌<◌, ◌≤◌, ◌≡◌, ◌≢◌, ◌↔◌, ◌⊎◌, true, false, inl, inr, refl, Bytes, List, [], ◌∷◌,
  ◌==◌, Option, some, Bool-cases, arith,
}
use ctask.Common.Result.{Result, ok, thrown, undefined, ◌>>=◌, ◌>>◌, bind_iff}
use ctask.Utils.{CliArgs, HttpServerArgs}
use ctask.Cli.{CliParser, cli_parse}
use ctask.Cli.Laws.{Gives, cli_parse-eq-ok_iff}
use ctask.Router.{PathHandlerMap, HttpHandlerFn}
use ctask.Telemetry.Storage.{TelemetryStorage}
use ctask.Telemetry.Mean.{Doubles}
use ctask.Telemetry.Api.{Json}
use ctask.Telemetry.Api.Routing.{telemetry_router, build-register_routes}
use ctask.Server.{IRouter, HttpServer, construct, create_service}
use ctask.Server.Service.{custom_router}
use ctask.Server.Listening.{listen_on}
use ctask.Server.Lifecycle.{returned, HandlerState, spawned, accepting, threw, Service, ServiceRun}
use ctask.Server.Lifecycle.Results.{EndsWith, start_ends}
use ctask.Application.{
  Machine, thread_count, exit_success, start_service, exit_code, serve, run_main,
}

-- With fewer than 2 ^ 16 hardware threads, the server has fewer threads than there are, and at least
-- one, exactly from three hardware threads on; it has no thread exactly with two of them, and
-- 2 ^ 16 - 1 threads exactly with one.
pub thread_count_iff :
    (n : ℕ)
    → n < 2 ^ 16
    → (((1 ≤ thread_count n) × (thread_count n < n)) ↔ (3 ≤ n))
      × ((thread_count n ≡ 0) ↔ (n ≡ 2))
      × ((thread_count n ≡ 2 ^ 16 - 1) ↔ (n ≡ 1))
unfolding thread_count
thread_count_iff n h = ground arith

thread_count-eq-zero_iff : (n : ℕ) → (thread_count n ≡ 0) ↔ (n % 2 ^ 16 ≡ 2)
unfolding thread_count
thread_count-eq-zero_iff n = ground arith

exit_code_iff : (r : Result (Unit {0})) → (exit_code r ≡ ok exit_success) ↔ (r ≡ ok tt)
unfolding exit_code
exit_code_iff (ok u) = (λ e. refl, λ e. refl)
exit_code_iff (thrown x) = (λ e. ground arith, λ e. cc)
exit_code_iff undefined = (λ e. cc, λ e. cc)

-- The server that the constructor makes.
abbrev pub server_of : {W : Type 0} → HttpServerArgs → IRouter W → HttpServer W
server_of args router = record {
  address = args.address;
  port = args.port;
  threads = args.threads;
  keep_alive_sec = args.keep_alive_sec;
  router = router;
}

-- The first call of `createService` constructs the server; the rest goes on where it succeeds.
created_iff :
    {W : Type 0} (make_pool : ℕ → Result (Unit {0})) (args : HttpServerArgs) (router : IRouter W)
    (rest : Option (HttpServer W) → Result (Unit {0}))
    → (((create_service make_pool false args (some router)).0 >>= rest) ≡ ok tt) ↔ (
        (make_pool args.threads ≡ ok tt)
        × (args.keep_alive_sec ≢ 0)
        × (rest (some (server_of args router)) ≡ ok tt))
unfolding create_service construct
created_iff make_pool args router rest = by_pool (make_pool args.threads) refl
  where
    by_pool :
        (pool : Result (Unit {0}))
        → make_pool args.threads ≡ pool
        → (((create_service make_pool false args (some router)).0 >>= rest) ≡ ok tt) ↔ (
            (make_pool args.threads ≡ ok tt)
            × (args.keep_alive_sec ≢ 0)
            × (rest (some (server_of args router)) ≡ ok tt))
    by_pool (thrown x) made = rw (made, create_service, construct) (λ e. cc, λ w. cc (w.0))
    by_pool undefined made = rw (made, create_service, construct) (λ e. cc, λ w. cc (w.0))
    by_pool (ok done) made = elim (Bool-cases (args.keep_alive_sec == 0)) [
      | inl zero ↦
          rw (made, zero, create_service, construct) (λ e. cc, λ w. absurd (w.1 (ground arith)))
      | inr above ↦
          rw (made, above, create_service, construct) (λ e. (refl, ground arith, e), λ w. w.2)
    ]

seq_iff :
    (first second : Result (Unit {0}))
    → ((first >> second) ≡ ok tt) ↔ ((first ≡ ok tt) × (second ≡ ok tt))
seq_iff (ok u) second = (λ e. (refl, e), λ w. w.1)
seq_iff (thrown x) second = (λ e. cc, λ w. cc (w.0))
seq_iff undefined second = (λ e. cc, λ w. cc (w.0))

module _ (d : Doubles) (json : Json d)
    (walk : PathHandlerMap TelemetryStorage → PathHandlerMap TelemetryStorage)
    (single : (x : Bytes × HttpHandlerFn TelemetryStorage) → walk (x ∷ []) ≡ x ∷ []) (m : Machine)
    (started : HttpServer TelemetryStorage → Result (Unit {0})) where
  -- A run of the service, at whose end `start` has returned what is given.
  pub record StartRun (server : HttpServer TelemetryStorage) : Type 0 where
    pub service : Service
    pub run : ServiceRun server.threads (listen_on m.network server.address server.port) service
    pub returns : service.progress ≡ returned (started server)

  -- The server that the arguments lead to.
  abbrev pub main_server : CliArgs → HttpServer TelemetryStorage
  main_server args =
      server_of (record args.server_args { threads = thread_count m.hardware_concurrency })
        (custom_router (telemetry_router d json))

  -- The run of the service ends without an exception: its connection handler has set up the acceptor,
  -- or was never run, for want of a thread or since the service was stopped before.
  abbrev pub EndsWell : CliArgs → Service → Type 0
  EndsWell args s =
      ((s.handler ≡ accepting)
        × (listen_on m.network args.server_args.address args.server_args.port ≡ ok tt))
      ⊎ ((s.handler ≡ spawned) × ((m.hardware_concurrency % 2 ^ 16 ≡ 2) ⊎ (s.asked ≡ true)))

  started_iff :
      (args : CliArgs) (r : StartRun (main_server args))
      → (started (main_server args) ≡ ok tt) ↔ EndsWell args r.service
  started_iff args r =
      by_handler r.service.handler refl (start_ends (started (main_server args)) r.run r.returns)
    where
      by_handler :
          (h : HandlerState)
          → r.service.handler ≡ h
          → EndsWith
              (thread_count m.hardware_concurrency)
              (listen_on m.network args.server_args.address args.server_args.port)
              r.service
              (started (main_server args))
              h
          → (started (main_server args) ≡ ok tt) ↔ EndsWell args r.service
      by_handler accepting here ends = (λ e. inl (here, ends.0), λ w. ends.1)
      by_handler spawned here ends = (
        λ e. inr (
          here,
          elim ends.0 [
            | inl idle ↦ inl ((thread_count-eq-zero_iff m.hardware_concurrency).0 idle)
            | inr asked ↦ inr asked
          ],
        ),
        λ w. ends.1,
      )
      by_handler threw here ends =
          (λ e. absurd (ends.1 e), λ w. elim w [ inl (other, e) ↦ cc | inr (other, e) ↦ cc ])

  -- The arguments let the server run, in the given run of the service.
  pub record Runs (args : CliArgs) (s : Service) : Type 0 where
    pub pool : m.make_pool (thread_count m.hardware_concurrency) ≡ ok tt
    pub keep_alive : args.server_args.keep_alive_sec ≢ 0
    pub interrupt : m.watch_interrupt ≡ ok tt
    pub ends : EndsWell args s

  module _ (runs : (server : HttpServer TelemetryStorage) → StartRun server) where
    serve_iff :
        (args : CliArgs)
        → (serve d json walk m started args ≡ ok tt) ↔ Runs args (runs (main_server args)).service
    unfolding serve start_service
    serve_iff args = rw (build-register_routes d json walk single) (
      λ e.
          let (made, alive, e1) = (created_iff m.make_pool _ _ _).0 e in
          let (watched, e2) = (seq_iff m.watch_interrupt _).0 e1 in
          record {
            pool = made;
            keep_alive = alive;
            interrupt = watched;
            ends = (started_iff args (runs (main_server args))).0 e2;
          },
      λ r. (created_iff m.make_pool _ _ _).1 (
        r.pool,
        r.keep_alive,
        (seq_iff m.watch_interrupt _).1
            (r.interrupt, (started_iff args (runs (main_server args))).1 r.ends),
      ),
    )

    -- Where what `start` returns is what it returns in some run of the service, the program ends
    -- with success exactly when the command line gives arguments, a pool of as many threads as the
    -- server has can be made, the keep-alive time is not zero, the interrupt can be watched, and
    -- the connection handler, in that run, has come to listen at the address and port of the
    -- arguments, or was never run: since `stop` was called before, or since there are two hardware
    -- threads modulo 2 ^ 16.
    pub run_main-eq-success_iff :
        (parser : CliParser) (argv : List Bytes)
        → (run_main d json walk m started parser argv ≡ ok exit_success) ↔ (
            (args : CliArgs) × Gives m.environment parser argv args
            × Runs args (runs (main_server args)).service)
    unfolding run_main
    run_main-eq-success_iff parser argv = (
      λ e.
          let served = (exit_code_iff _).0 e in
          let (args, given, e1) = (bind_iff (cli_parse m.environment parser argv) _ tt).0 served in
          (
            args,
            (cli_parse-eq-ok_iff m.environment parser argv args).0 given,
            (serve_iff args).0 e1,
          ),
      λ (args, gives, good). (exit_code_iff _).1 (
          (bind_iff (cli_parse m.environment parser argv) _ tt).1 (
            args,
            (cli_parse-eq-ok_iff m.environment parser argv args).1 gives,
            (serve_iff args).1 good,
          )),
    )
