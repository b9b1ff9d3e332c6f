-- ===== src/Telemetry/Types.antt =====
-- ctask_lib/telemetry/core/models.h, the types and constants of ctask_lib/telemetry/core/misc.h, and
-- the data that ctask_lib/telemetry/dto/dto.h declares.
use ctask.Common.{ℕ, Bytes, codes, bytes_eq, List, if◌then◌else◌}
use ctask.Common.Int.{ℤ}
use ctask.Common.Result.{Result, ok, thrown, invalid_argument}

abbrev pub interaction_times_len : ℕ
interaction_times_len = 10

-- `std::array<int32_t, INTERACTION_TIMES_LEN>`; Server.Connections.Ranges has its length and the
-- range of its values.
abbrev pub InteractionTimesCollection : Type 0
InteractionTimesCollection = List ℤ

pub record InteractionTimesEventModel : Type 0 where
  pub date : ℕ
  pub values : InteractionTimesCollection

pub data TimeUnit : Type 0 where
  seconds milliseconds : TimeUnit

pub record MeanLengthQueryModel : Type 0 where
  pub result_unit : TimeUnit
  pub start_timestamp : ℕ
  pub end_timestamp : ℕ

unfoldable pub parse_time_unit : Bytes → Result TimeUnit
parse_time_unit str =
    if bytes_eq str (codes "seconds")
    then ok seconds
    else if bytes_eq str (codes "milliseconds")
    then ok milliseconds
    else thrown (invalid_argument (codes "Invalid time unit"))
