-- ===== src/Telemetry/Api/Means/Tests.antt =====
-- A query over several events on concrete input.
use ctask.Common.{
  ℕ, suc, ◌-◌, ◌≤◌, ◌<◌, ◌^◌, ◌≡◌, refl, codes, bytes_eq, [], ◌∷◌, length, All, arith,
}
use ctask.Telemetry.Types.{milliseconds}
use ctask.Telemetry.Events.Range.{values_from}
use ctask.Telemetry.Storage.{new_storage}
use ctask.Telemetry.Storage.History.{History, store_all, first_values}
use ctask.Telemetry.Mean.{in_unit}
use ctask.Telemetry.Mean.Bounds.{gains, losses, total_gains}
use ctask.Telemetry.Tests.{fractions}
use ctask.Telemetry.Api.{handle_mean_length}
use ctask.Telemetry.Api.Handlers.{start, end}
use ctask.Telemetry.Api.Flow.{mean_answer}
use ctask.Telemetry.Api.Means.{IsPlainCollection, IsPlainEvent, mean_of_history}
use ctask.Telemetry.Api.Tests.{sample, login, ten_times, get, get_queried}

-- The third event is dropped: its timestamp is there.
abbrev history : History
history =
    (login, record { date = 5; values = ten_times 3 })
    ∷ (codes "exit", record { date = 5; values = ten_times 7 })
    ∷ (login, record { date = 5; values = ten_times 4 })
    ∷ []

ten_times-IsPlain : (n : ℕ) → n ≤ 10 → IsPlainCollection (ten_times n)
unfolding losses
ten_times-IsPlain n h = ground arith

history_plain : All IsPlainEvent history
history_plain = (
  ten_times-IsPlain 3 (omega arith),
  (ten_times-IsPlain 7 (omega arith), (ten_times-IsPlain 4 (omega arith), tt)),
)

history_found :
    values_from
      (λ date. first_values login date history)
      (start fractions sample get_queried)
      (suc (end fractions sample get_queried) - start fractions sample get_queried)
    ≡ ten_times 3 ∷ []
unfolding values_from first_values bytes_eq
history_found = refl

total_bounded : total_gains (ten_times 3 ∷ []) < 2 ^ 64
unfolding total_gains gains
total_bounded = omega arith

mean_of_history_example :
    (handle_mean_length fractions sample get (store_all history new_storage)).0
    ≡ mean_answer fractions sample (
        in_unit fractions milliseconds (
          fractions.divide
            (fractions.of_u64 (total_gains (ten_times 3 ∷ [])))
            (fractions.of_u64 (length (ten_times 3 ∷ [])))))
mean_of_history_example =
    mean_of_history fractions sample history get get_queried (ten_times 3) [] history_plain
      (omega arith) history_found total_bounded
