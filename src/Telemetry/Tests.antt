-- ===== src/Telemetry/Tests.antt =====
-- Runs of the storage and of the mean on concrete input.
use ctask.Common.{
  ℕ, ◌<◌, ◌*◌, ◌+◌, ◌%◌, ◌≡◌, ◌≢◌, ◌↔◌, refl, Bytes, codes, bytes_eq, [], ◌∷◌, none, some, suc, ◌-◌,
  arith,
}
use ctask.Common.Assoc
use ctask.Common.Assoc.{lookup, modify, or_else}
use ctask.Common.Int.{pos, negsuc, u64_mod}
use ctask.Telemetry.Types.{InteractionTimesCollection, milliseconds}
use ctask.Telemetry.Events.{emplace, interactions, lower_bound, upper_bound, collect}
use ctask.Telemetry.Events.Range.{values_from}
use ctask.Telemetry.Storage.{
  TelemetryStorage, new_storage, store_event, write_entry, create_entry, get_event_interactions,
}
use ctask.Telemetry.Storage.Laws.{store_event-IsValid, recorded, IsValid, new_storage-IsValid}
use ctask.Telemetry.Storage.Abstract.{IsSame, AnswerAlike, AnswerAlike-iff}
use ctask.Telemetry.Storage.Query.{get_event_interactions-eq-none_iff}
use ctask.Telemetry.Storage.History.{
  History, store_all, first_values, store_all-IsValid, recorded_history,
  get_event_interactions_history,
}
use ctask.Telemetry.Mean.{Doubles, accumulate, total_time, in_unit, calculate_mean_path_length}
use ctask.Telemetry.Mean.Bounds.{total_gains, total_losses, total_time_congr}

abbrev ones : InteractionTimesCollection
ones = pos 1 ∷ pos 1 ∷ pos 1 ∷ pos 1 ∷ pos 1 ∷ pos 1 ∷ pos 1 ∷ pos 1 ∷ pos 1 ∷ pos 1 ∷ []

abbrev twos : InteractionTimesCollection
twos = pos 2 ∷ pos 2 ∷ pos 2 ∷ pos 2 ∷ pos 2 ∷ pos 2 ∷ pos 2 ∷ pos 2 ∷ pos 2 ∷ pos 2 ∷ []

abbrev login : Bytes
login = codes "login"

-- The second and the fourth event have the same name and timestamp.
abbrev visits : History
visits =
    (login, record { date = 7; values = ones })
    ∷ (login, record { date = 3; values = twos })
    ∷ (codes "exit", record { date = 5; values = twos })
    ∷ (login, record { date = 3; values = ones })
    ∷ []

abbrev visited : TelemetryStorage
visited = store_all visits new_storage

visited-IsValid : IsValid visited
visited-IsValid = store_all-IsValid visits new_storage new_storage-IsValid

storage_tests :
    (get_event_interactions login 0 10 visited ≡ some (twos ∷ ones ∷ []))
    × (get_event_interactions login 3 3 visited ≡ some (twos ∷ []))
    × (get_event_interactions login 4 6 visited ≡ some [])
    × (get_event_interactions (codes "none") 0 10 visited ≡ some [])
    × (get_event_interactions login 8 6 visited ≡ none)
unfolding store_all store_event write_entry create_entry get_event_interactions interactions
    lower_bound upper_bound collect lookup modify Assoc.emplace emplace bytes_eq
storage_tests = (refl, refl, refl, refl, refl)

get_event_interactions-eq-none_iff_example :
    (get_event_interactions login 8 6 visited ≡ none)
    ↔ ((d : ℕ) × (6 < d) × (d < 8) × (recorded login d visited ≢ none))
get_event_interactions-eq-none_iff_example =
    get_event_interactions-eq-none_iff login 8 6 visited visited-IsValid

recorded_history_example :
    recorded login 3 (store_all visits new_storage) ≡ first_values login 3 visits
recorded_history_example = recorded_history visits login 3

get_event_interactions_history_example :
    get_event_interactions login 2 7 (store_all visits new_storage)
    ≡ some (values_from (λ d. first_values login d visits) 2 (suc 7 - 2))
get_event_interactions_history_example =
    get_event_interactions_history visits login 2 7 (omega arith)

-- Doubles that are pairs of a numerator and a denominator.
abbrev pub fractions : Doubles
fractions = record {
  Double = ℕ × ℕ;
  zero_double = (0, 1);
  of_u64 = λ n. (n, 1);
  divide = λ (a, b) (c, d). (a * d, b * c);
  times_thousand = λ (a, b). (1000 * a, b);
}

mean_tests :
    (calculate_mean_path_length fractions (twos ∷ ones ∷ []) milliseconds ≡ some (30000, 2))
    × (calculate_mean_path_length fractions [] milliseconds ≡ some (0, 1))
    × (total_time 0 ((negsuc 0 ∷ []) ∷ []) ≡ some (u64_mod - 1))
    × (total_time 0 ((pos 2147483647 ∷ pos 1 ∷ []) ∷ []) ≡ none)
unfolding calculate_mean_path_length total_time accumulate in_unit
mean_tests = (refl, refl, refl, refl)

negative_total : total_time 0 ((negsuc 0 ∷ []) ∷ []) ≡ some (u64_mod - 1)
unfolding total_time
negative_total = refl

total_time_congr_example :
    (u64_mod - 1 + total_losses ((negsuc 0 ∷ []) ∷ [])) % u64_mod
    ≡ (0 + total_gains ((negsuc 0 ∷ []) ∷ [])) % u64_mod
total_time_congr_example = total_time_congr ((negsuc 0 ∷ []) ∷ []) 0 (u64_mod - 1) negative_total

-- The storage of the same visits with the last one, which is dropped, left out.
abbrev shorter : TelemetryStorage
shorter =
    store_event (codes "exit") (record { date = 5; values = twos })
      (store_event login (record { date = 3; values = twos })
        (store_event login (record { date = 7; values = ones }) new_storage))

shorter-IsValid : IsValid shorter
shorter-IsValid =
    store_event-IsValid _ _ _
      (store_event-IsValid _ _ _ (store_event-IsValid _ _ _ new_storage-IsValid))

AnswerAlike-iff_example : AnswerAlike visited shorter ↔ IsSame visited shorter
AnswerAlike-iff_example = AnswerAlike-iff visited shorter visited-IsValid shorter-IsValid
