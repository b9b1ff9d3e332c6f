-- ===== src/Application/Program.antt =====
-- app/main.cpp with the logger: what runs before the `try` block, and the level of the logger.
pub mod Ending
use ctask.Common.{ℕ, zero, suc, ◌≡◌, refl, ap, ◌∙◌, Bytes, List}
use ctask.Common.Result.{Result, ok, thrown, undefined, Exception}
use ctask.Cli.{CliParser, cli_parse}
use ctask.Logger.{Spdlog, Logging, get_logger}
use ctask.Logger.Sharing.{get_logger_again, get_logger_keeps}
use ctask.Router.{PathHandlerMap}
use ctask.Telemetry.Storage.{TelemetryStorage}
use ctask.Telemetry.Mean.{Doubles}
use ctask.Telemetry.Api.{Json}
use ctask.Server.{HttpServer}
use ctask.Application.{Machine, run_main}

-- How the program ends: with an exit code, by an exception that nothing catches, or outside the
-- defined behaviour.
pub data Outcome : Type 0 where
  exited : ℕ → Outcome
  terminated : Exception → Outcome
  strayed : Outcome

abbrev pub outcome_of : Result ℕ → Outcome
outcome_of (ok code) = exited code
outcome_of (thrown e) = terminated e
outcome_of undefined = strayed

module _ (spdlog : Spdlog) (d : Doubles) (json : Json d)
    (walk : PathHandlerMap TelemetryStorage → PathHandlerMap TelemetryStorage) (m : Machine)
    (started : HttpServer TelemetryStorage → Result (Unit {0})) where
  open spdlog use {AsyncLogger, set_level_of, from_str}

  -- `log->set_level`, which stands behind the parsing of the command line.
  unfoldable pub leveled : CliParser → List Bytes → AsyncLogger → Logging spdlog → Logging spdlog
  leveled parser argv logger l = elim (cli_parse m.environment parser argv) [
    | ok args ↦ record l { state = set_level_of (from_str args.logger_args.level) logger l.state }
    | thrown e ↦ l
    | undefined ↦ l
  ]

  -- `main`, from a call for the logger, which stands outside of the `try` block.
  unfoldable pub logged_main :
      CliParser → List Bytes → Result AsyncLogger × Logging spdlog → Outcome × Logging spdlog
  unfolding leveled
  logged_main parser argv (ok logger, l) =
      (outcome_of (run_main d json walk m started parser argv), leveled parser argv logger l)
  logged_main parser argv (thrown e, l) = (terminated e, l)
  logged_main parser argv (undefined, l) = (strayed, l)

  -- The program: the global `log` of so many files, then `main`.
  unfoldable pub program : ℕ → CliParser → List Bytes → Logging spdlog → Outcome × Logging spdlog
  unfolding logged_main
  program zero parser argv l = logged_main parser argv (get_logger spdlog l)
  program (suc files) parser argv l =
      let rest = program files parser argv (get_logger spdlog l).1 in
      elim (get_logger spdlog l).0 [
        | ok logger ↦ rest
        | thrown e ↦ (terminated e, (get_logger spdlog l).1)
        | undefined ↦ (strayed, (get_logger spdlog l).1)
      ]

  -- In however many files a global `log` asks for the logger before `main` does, the program ends as
  -- `main` does by itself: where the logger cannot be made it is terminated by that exception, and
  -- otherwise the level of the command line is set, if there is one, and the exit code is that of
  -- `run_main`.
  pub program_lem :
      (files : ℕ) (parser : CliParser) (argv : List Bytes) (l : Logging spdlog)
      → program files parser argv l ≡ logged_main parser argv (get_logger spdlog l)
  unfolding program logged_main
  program_lem zero parser argv l = refl
  program_lem (suc files) parser argv l =
      by_result (get_logger spdlog l).0 refl (program_lem files parser argv (get_logger spdlog l).1)
    where
      by_result :
          (r : Result AsyncLogger)
          → (get_logger spdlog l).0 ≡ r
          → program files parser argv (get_logger spdlog l).1
            ≡ logged_main parser argv (get_logger spdlog (get_logger spdlog l).1)
          → program (suc files) parser argv l ≡ logged_main parser argv (get_logger spdlog l)
      by_result (ok logger) e later =
          let again =
            get_logger_again spdlog (get_logger spdlog l).1 logger
              (get_logger_keeps spdlog l logger e) in
          rw (e, program) (later ∙ ap (logged_main parser argv) again)
      by_result (thrown x) e later = rw (e, program) refl
      by_result undefined e later = rw (e, program) refl
