-- ===== src/Application.antt =====
-- app/main.cpp: the number of threads, the set-up of the parts, and the exit code.
pub mod Startup
pub mod Program
pub mod Tests
use ctask.Common.{
  ℕ, ◌+◌, ◌-◌, ◌%◌, ◌^◌, Bytes, List, ◌==◌, Option, none, some, false, if◌then◌else◌,
}
use ctask.Common.Result.{Result, ok, thrown, undefined, ◌>>=◌, ◌>>◌}
use ctask.Utils.{CliArgs}
use ctask.Cli.{Environment, CliParser, cli_parse}
use ctask.Router.{PathHandlerMap, HttpRouter, new_builder, build}
use ctask.Telemetry.Storage.{TelemetryStorage}
use ctask.Telemetry.Mean.{Doubles}
use ctask.Telemetry.Api.{Json, register_routes}
use ctask.Server.{HttpServer, create_service}
use ctask.Server.Service.{custom_router}
use ctask.Server.Listening.{Network}

-- `hardware_concurrency` as an unsigned number, cast to `uint16_t`, four where it is 0, less two in
-- the arithmetic of `uint16_t`.
unfoldable pub thread_count : ℕ → ℕ
thread_count hardware_concurrency =
    let count = hardware_concurrency % 2 ^ 16 in
    let threads = if count == 0 then 4 else count in (threads + 2 ^ 16 - 2) % 2 ^ 16

abbrev pub exit_success : ℕ
exit_success = 0

abbrev pub exit_failure : ℕ
exit_failure = 1

-- What the program takes of the machine: what making a thread pool gives, and whether SIGINT can be
-- watched, among others.
pub record Machine : Type 1 where
  pub environment : Environment
  pub network : Network
  pub hardware_concurrency : ℕ
  pub make_pool : ℕ → Result (Unit {0})
  pub watch_interrupt : Result (Unit {0})

-- A call of `start` through the pointer that `createService` has returned, for what `start` of each
-- server returns in this run.
unfoldable pub start_service :
    {W : Type 0} → (HttpServer W → Result (Unit {0})) → Option (HttpServer W) → Result (Unit {0})
start_service started none = undefined
start_service started (some server) = started server

unfoldable pub exit_code : Result (Unit {0}) → Result ℕ
exit_code (ok done) = ok exit_success
exit_code (thrown e) = ok exit_failure
exit_code undefined = undefined

module _ (d : Doubles) (json : Json d)
    (walk : PathHandlerMap TelemetryStorage → PathHandlerMap TelemetryStorage) (m : Machine)
    (started : HttpServer TelemetryStorage → Result (Unit {0})) where
  -- What follows the parsing of the command line. `started` is what `start` returns in this run,
  -- which depends on the stops that come meanwhile: Server.Lifecycle has its runs.
  unfoldable pub serve : CliArgs → Result (Unit {0})
  unfolding start_service
  serve args = do
    router ← build walk (register_routes d json new_builder)
    server ←
        (create_service m.make_pool false
          (record args.server_args { threads = thread_count m.hardware_concurrency })
          (some (custom_router router))).0
    m.watch_interrupt
    start_service started server

  unfoldable pub run_main : CliParser → List Bytes → Result ℕ
  unfolding serve exit_code
  run_main parser argv = exit_code (cli_parse m.environment parser argv >>= serve)
