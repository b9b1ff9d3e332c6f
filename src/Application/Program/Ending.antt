-- ===== src/Application/Program/Ending.antt =====
-- How the program ends, with its logger.
use ctask.Common.{ℕ, ◌≡◌, ◌≢◌, ◌↔◌, refl, ap, Bytes, List, [], ◌∷◌}
use ctask.Common.Result.{Result, ok, thrown, undefined, Exception}
use ctask.Utils.{CliArgs}
use ctask.Cli.{CliParser}
use ctask.Cli.Laws.{Gives, cli_parse-eq-ok_iff}
use ctask.Logger.{Spdlog, Logging, get_logger}
use ctask.Router.{PathHandlerMap, HttpHandlerFn}
use ctask.Telemetry.Storage.{TelemetryStorage}
use ctask.Telemetry.Mean.{Doubles}
use ctask.Telemetry.Api.{Json}
use ctask.Server.{HttpServer}
use ctask.Application.{Machine, exit_success, exit_code, run_main}
use ctask.Application.Startup.{StartRun, main_server, Runs, run_main-eq-success_iff}
use ctask.Application.Program.{
  Outcome, exited, terminated, outcome_of, leveled, logged_main, program, program_lem,
}

module _ (d : Doubles) (json : Json d)
    (walk : PathHandlerMap TelemetryStorage → PathHandlerMap TelemetryStorage) (m : Machine)
    (started : HttpServer TelemetryStorage → Result (Unit {0})) where
  run_main-ne-thrown :
      (parser : CliParser) (argv : List Bytes) (e : Exception)
      → run_main d json walk m started parser argv ≢ thrown e
  unfolding run_main exit_code
  run_main-ne-thrown parser argv e = caught_all _
    where
      caught_all : (r : Result (Unit {0})) → exit_code r ≢ thrown e
      caught_all (ok done) h = cc
      caught_all (thrown x) h = cc
      caught_all undefined h = cc

outcome_of-eq-exited_iff : (r : Result ℕ) (code : ℕ) → (outcome_of r ≡ exited code) ↔ (r ≡ ok code)
outcome_of-eq-exited_iff (ok c) code = (λ e. cc, λ e. cc)
outcome_of-eq-exited_iff (thrown x) code = (λ e. cc, λ e. cc)
outcome_of-eq-exited_iff undefined code = (λ e. cc, λ e. cc)

outcome_of-eq-terminated_iff :
    (r : Result ℕ) (e : Exception) → (outcome_of r ≡ terminated e) ↔ (r ≡ thrown e)
outcome_of-eq-terminated_iff (ok c) e = (λ h. cc, λ h. cc)
outcome_of-eq-terminated_iff (thrown x) e = (λ h. cc, λ h. cc)
outcome_of-eq-terminated_iff undefined e = (λ h. cc, λ h. cc)

module _ (spdlog : Spdlog) (d : Doubles) (json : Json d)
    (walk : PathHandlerMap TelemetryStorage → PathHandlerMap TelemetryStorage)
    (single : (x : Bytes × HttpHandlerFn TelemetryStorage) → walk (x ∷ []) ≡ x ∷ []) (m : Machine)
    (started : HttpServer TelemetryStorage → Result (Unit {0}))
    (runs : (server : HttpServer TelemetryStorage)
      → StartRun d json walk single m started server) where
  open spdlog use {AsyncLogger, set_level_of, from_str}

  -- What the program does, by what the first request for the logger gives.
  pub record Ends (parser : CliParser) (argv : List Bytes)
      (made : Result AsyncLogger × Logging spdlog) (end : Outcome × Logging spdlog) : Type 0 where
    pub succeeds : (end.0 ≡ exited exit_success) ↔ (
        ((logger : AsyncLogger) × (made.0 ≡ ok logger))
        × ((args : CliArgs) × Gives m.environment parser argv args
            × Runs d json walk single m started args
                (runs (main_server d json walk single m started args)).service))
    pub terminates : (e : Exception) → (end.0 ≡ terminated e) ↔ (made.0 ≡ thrown e)
    pub levels :
        (logger : AsyncLogger) (args : CliArgs)
        → made.0 ≡ ok logger
        → Gives m.environment parser argv args
        → end.1 ≡ record made.1 {
          state = set_level_of (from_str args.logger_args.level) logger made.1.state;
        }

  logged_main-Ends :
      (parser : CliParser) (argv : List Bytes) (r : Result AsyncLogger) (l : Logging spdlog)
      → Ends parser argv (r, l) (logged_main spdlog d json walk m started parser argv (r, l))
  unfolding logged_main leveled
  logged_main-Ends parser argv (ok logger) l = record {
    succeeds = (
      λ e. (
        (logger, refl),
        (run_main-eq-success_iff d json walk single m started runs parser argv).0
            ((outcome_of-eq-exited_iff _ _).0 e),
      ),
      λ w.
          (outcome_of-eq-exited_iff _ _).1
            ((run_main-eq-success_iff d json walk single m started runs parser argv).1 w.1),
    );
    terminates = λ e. (
      λ h. absurd (
          run_main-ne-thrown d json walk m started parser argv e
            ((outcome_of-eq-terminated_iff _ e).0 h)),
      λ h. cc,
    );
    levels = λ same args made gives.
        let parsed = (cli_parse-eq-ok_iff m.environment parser argv args).1 gives in
        let one : logger ≡ same = cc in
        rw (parsed, leveled)
          (ap (λ x. record l { state = set_level_of (from_str args.logger_args.level) x l.state })
            one);
  }
  logged_main-Ends parser argv (thrown x) l = record {
    succeeds = (λ e. cc, λ (w, more). absurd (let none_made = w.1 in cc));
    terminates = λ e. (λ h. cc, λ h. cc);
    levels = λ logger args h. cc;
  }
  logged_main-Ends parser argv undefined l = record {
    succeeds = (λ e. cc, λ (w, more). absurd (let none_made = w.1 in cc));
    terminates = λ e. (λ h. cc, λ h. cc);
    levels = λ logger args h. cc;
  }

  -- Where what `start` returns is what it returns in some run of the service: in however many files a
  -- global `log` asks for the logger before `main` does, the program ends with success exactly when
  -- the logger can be made, the command line gives arguments, the server can be created with them and
  -- its thread pool, the interrupt can be watched, and the connection handler has come to listen or
  -- was never run; it is terminated by an exception exactly when making the logger throws it; and
  -- where the logger is made and the command line gives arguments, the level that they name is set on
  -- the one logger that every file has, after everything else that is done to it.
  pub program-Ends :
      (files : ℕ) (parser : CliParser) (argv : List Bytes) (l : Logging spdlog)
      → Ends parser argv
          (get_logger spdlog l)
          (program spdlog d json walk m started files parser argv l)
  program-Ends files parser argv l =
      rw (program_lem spdlog d json walk m started files parser argv l)
        (logged_main-Ends parser argv (get_logger spdlog l).0 (get_logger spdlog l).1)
