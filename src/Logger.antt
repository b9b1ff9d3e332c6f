-- ===== src/Logger.antt =====
-- ctask_lib/logger.h: the one logger of the program. spdlog is a parameter: its calls over a state of
-- its own, its registry of loggers included; some of them may throw.
pub mod Sharing
use ctask.Common.{ℕ, zero, suc, Bytes, codes, List, [], ◌∷◌, Option, none, some}
use ctask.Common.Result.{Result, ok, thrown, undefined}

pub record Spdlog : Type 1 where
  pub State : Type 0
  pub AsyncLogger : Type 0
  pub Level : Type 0
  pub debug : Level
  -- A queue of so many messages, and so many threads.
  pub init_thread_pool : ℕ → ℕ → State → Result (Unit {0}) × State
  pub stdout_color_sink : State → Result (Unit {0}) × State
  -- An asynchronous logger of this name, over the sink and the pool, that blocks where the queue is
  -- full.
  pub async_logger : Bytes → State → Result AsyncLogger × State
  pub set_pattern : Bytes → AsyncLogger → State → State
  pub register_logger : AsyncLogger → State → Result (Unit {0}) × State
  pub set_default_logger : AsyncLogger → State → State
  pub set_level : Level → State → State
  -- The level of one logger, and the level of a name.
  pub set_level_of : Level → AsyncLogger → State → State
  pub from_str : Bytes → Level

-- What follows a call that has not thrown.
abbrev pub then_do : {S A B : Type 0} → Result A × S → (A → S → Result B × S) → Result B × S
then_do (ok a, s) next = next a s
then_do (thrown e, s) next = (thrown e, s)
then_do (undefined, s) next = (undefined, s)

module _ (spdlog : Spdlog) where
  open spdlog use {
    State, AsyncLogger, debug, init_thread_pool, stdout_color_sink, async_logger, set_pattern,
    register_logger, set_default_logger, set_level,
  }

  -- The static object of `instance`, once it is there, and spdlog.
  pub record Logging : Type 0 where
    pub logger : Option AsyncLogger
    pub state : State

  abbrev pub pattern_text : Bytes
  pattern_text = codes "[%Y-%m-%d %H:%M:%S] [%^%l%$] [Thread ID: %t] %v"

  -- The constructor: the logger that it leaves in `logger_`.
  unfoldable pub construct_logger : State → Result AsyncLogger × State
  construct_logger s0 = then_do (init_thread_pool 8192 1 s0) (λ pool s1.
      then_do (stdout_color_sink s1) (λ sink s2.
        then_do (async_logger (codes "global_logger") s2) (λ logger s3.
          then_do (register_logger logger (set_pattern pattern_text logger s3))
            (λ registered s4. (ok logger, set_level debug (set_default_logger logger s4))))))

  -- `Logger::instance().getLogger()`. The static object is made by the first call that does not
  -- throw.
  unfoldable pub get_logger : Logging → Result AsyncLogger × Logging
  unfolding construct_logger
  get_logger l = elim l.logger [
    | some logger ↦ (ok logger, l)
    | none ↦ elim (construct_logger l.state).0 [
      | ok logger ↦
          (ok logger, record { logger = some logger; state = (construct_logger l.state).1 })
      | thrown e ↦ (thrown e, record { logger = none; state = (construct_logger l.state).1 })
      | undefined ↦ (undefined, record { logger = none; state = (construct_logger l.state).1 })
    ]
  ]

  -- So many calls, one after the other, and what they give.
  unfoldable pub get_loggers : ℕ → Logging → List (Result AsyncLogger) × Logging
  unfolding get_logger
  get_loggers zero l = ([], l)
  get_loggers (suc n) l =
      let (result, l') = get_logger l in
      let (results, l'') = get_loggers n l' in (result ∷ results, l'')
