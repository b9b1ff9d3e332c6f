-- ===== src/Logger/Sharing.antt =====
-- All parts of the program share one logger.
use ctask.Common.{ℕ, zero, suc, ◌≡◌, refl, List, [], ◌∷◌, All, Option, none, some}
use ctask.Common.Result.{Result, ok, thrown, undefined}
use ctask.Logger.{Spdlog, Logging, construct_logger, get_logger, get_loggers}

module _ (spdlog : Spdlog) where
  open spdlog use {AsyncLogger}

  -- A call that gives a logger is followed by calls that give the same one.
  abbrev pub AreShared : List (Result AsyncLogger) → Type 0
  AreShared [] = Unit
  AreShared (ok logger ∷ results) = All (λ r. r ≡ ok logger) results
  AreShared (_ ∷ results) = AreShared results

  pub get_logger_again :
      (l : Logging spdlog) (logger : AsyncLogger)
      → l.logger ≡ some logger
      → get_logger spdlog l ≡ (ok logger, l)
  unfolding get_logger
  get_logger_again l logger e = rw e refl

  get_loggers_again :
      (n : ℕ) (l : Logging spdlog) (logger : AsyncLogger)
      → l.logger ≡ some logger
      → All (λ r. r ≡ ok logger) (get_loggers spdlog n l).0 × ((get_loggers spdlog n l).1 ≡ l)
  unfolding get_loggers
  get_loggers_again zero l logger e = (tt, refl)
  get_loggers_again (suc n) l logger e =
      let (shared, same) = get_loggers_again n l logger e in
      rw (get_logger_again l logger e) ((refl, shared), same)

  -- A call that gives a logger leaves it in the static object.
  pub get_logger_keeps :
      (l : Logging spdlog) (logger : AsyncLogger)
      → (get_logger spdlog l).0 ≡ ok logger
      → (get_logger spdlog l).1.logger ≡ some logger
  unfolding get_logger
  get_logger_keeps l logger = by_static l.logger l.state
    where
      by_result :
          (state : spdlog.State) (r : Result AsyncLogger)
          → (construct_logger spdlog state).0 ≡ r
          → (get_logger spdlog (record { logger = none; state = state })).0 ≡ ok logger
          → (get_logger spdlog (record { logger = none; state = state })).1.logger ≡ some logger
      by_result state (ok made) e = rw (e, get_logger) (λ g. cc)
      by_result state (thrown x) e = rw (e, get_logger) (λ g. cc)
      by_result state undefined e = rw (e, get_logger) (λ g. cc)

      by_static :
          (static : Option AsyncLogger) (state : spdlog.State)
          → (get_logger spdlog (record { logger = static; state = state })).0 ≡ ok logger
          → (get_logger spdlog (record { logger = static; state = state })).1.logger ≡ some logger
      by_static (some made) state = λ g. cc
      by_static none state = by_result state (construct_logger spdlog state).0 refl

  AreShared-cons :
      (r : Result AsyncLogger) (results : List (Result AsyncLogger))
      → ((logger : AsyncLogger) → r ≡ ok logger → All (λ r. r ≡ ok logger) results)
      → AreShared results
      → AreShared (r ∷ results)
  AreShared-cons (ok logger) results same shared = same logger refl
  AreShared-cons (thrown e) results same shared = shared
  AreShared-cons undefined results same shared = shared

  -- However often the logger is asked for, and whatever of it throws, all calls from the first one
  -- that gives a logger give this logger.
  pub get_loggers-AreShared : (n : ℕ) (l : Logging spdlog) → AreShared (get_loggers spdlog n l).0
  unfolding get_loggers
  get_loggers-AreShared zero l = tt
  get_loggers-AreShared (suc n) l =
      AreShared-cons (get_logger spdlog l).0 _
        (λ logger e.
          (get_loggers_again n (get_logger spdlog l).1 logger (get_logger_keeps l logger e)).0)
        (get_loggers-AreShared n (get_logger spdlog l).1)
