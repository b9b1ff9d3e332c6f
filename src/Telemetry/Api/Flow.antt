-- ===== src/Telemetry/Api/Flow.antt =====
-- The two routes together: through the router, and one after the other.
use ctask.Common.{
  ℕ, suc, ◌-◌, ◌*◌, ◌≤◌, ◌≡◌, refl, Bytes, bytes_eq_refl, List, [], ◌∷◌, length, All, some, arith,
}
use ctask.Common.Assoc
use ctask.Common.Assoc.{lookup, modify}
use ctask.Common.Int.{ℤ}
use ctask.Common.Result.{Result, ok, ◌>>=◌}
use ctask.Utils.{HttpRequest, HttpResponse, response, http_status_ok}
use ctask.Telemetry.Types.{TimeUnit, InteractionTimesCollection, InteractionTimesEventModel}
use ctask.Telemetry.Events.{emplace, interactions}
use ctask.Telemetry.Storage.{new_storage, store_event, get_event_interactions}
use ctask.Telemetry.Events.Range.{values_from}
use ctask.Telemetry.Storage.History.{
  History, store_all, first_values, get_event_interactions_history,
}
use ctask.Telemetry.Mean.{Doubles, in_unit, calculate_mean_path_length}
use ctask.Telemetry.Mean.Bounds.{
  gains, losses, total_gains, total_losses, IsSmall, small_value, calculate_mean_path_length_lem,
}
use ctask.Telemetry.Api.{
  Json, defined, mean_of_event, caught_bad_request, handle_mean_length, handle_store,
}
use ctask.Telemetry.Api.Handlers.{
  Accepts, event, handle_store_accepted, Queries, start, end, try_mean_length_lem,
}

-- One event in an empty storage is what a query of its name and timestamp returns.
one_event :
    (name : Bytes) (e : InteractionTimesEventModel) (from to : ℕ)
    → from ≤ e.date
    → e.date ≤ to
    → get_event_interactions name from to (store_event name e new_storage) ≡ some (e.values ∷ [])
unfolding get_event_interactions store_event lookup modify Assoc.emplace emplace interactions
one_event name e from to low high = ground (arith, bytes_eq_refl name)

gains_small : (vs : List ℤ) → All IsSmall vs → gains vs ≤ length vs * small_value
unfolding gains
gains_small [] h = omega arith
gains_small (v ∷ vs) h = omega (arith, gains_small vs h.1)

module _ (d : Doubles) (json : Json d) where
  -- What the GET handler answers with a mean.
  abbrev pub mean_answer : d.Double → Result HttpResponse
  mean_answer mean =
      caught_bad_request d json
        (json.dump_mean mean >>= λ message. ok (response http_status_ok message))

  -- The answer to a query, from the values that it finds.
  abbrev pub answer_of : TimeUnit → List InteractionTimesCollection → Result HttpResponse
  answer_of unit values = caught_bad_request d json (do
    mean ← defined (calculate_mean_path_length d values unit)
    message ← json.dump_mean mean
    ok (response http_status_ok message))

  -- After any history of stores, a query with its bounds in order is answered by the mean over the
  -- values, timestamp by timestamp, of the first event of the history with its name and that
  -- timestamp.
  pub handle_mean_length_history :
      (h : History) (request : HttpRequest) (q : Queries d json request)
      → start d json q ≤ end d json q
      → (handle_mean_length d json request (store_all h new_storage)).0
        ≡ answer_of q.unit (
            values_from
              (λ date. first_values q.name date h)
              (start d json q)
              (suc (end d json q) - start d json q))
  unfolding handle_mean_length mean_of_event
  handle_mean_length_history h request q ordered =
      rw
        (
          try_mean_length_lem d json request _ q,
          q.unit_known,
          get_event_interactions_history h q.name _ _ ordered,
        )
        refl

  -- After one accepted POST of ten values, none negative or above 214748364, into an empty storage,
  -- a query of the event's name whose bounds include its timestamp is answered by the sum of the
  -- values, divided by one, in the unit of the query.
  pub store_then_mean :
      (post get : HttpRequest) (a : Accepts d json post) (q : Queries d json get)
      → q.name ≡ a.name
      → start d json q ≤ a.dto.date
      → a.dto.date ≤ end d json q
      → All IsSmall a.dto.values
      → losses a.dto.values ≡ 0
      → (handle_mean_length d json get (handle_store d json post new_storage).1).0
        ≡ mean_answer (in_unit d q.unit (d.divide (d.of_u64 (gains a.dto.values)) (d.of_u64 1)))
  unfolding handle_mean_length
  store_then_mean post get a q same low high small nonneg =
      let found : get_event_interactions q.name (start d json q) (end d json q)
            (store_event a.name (event d json a) new_storage)
          ≡ some (a.dto.values ∷ []) =
        rw same (one_event a.name (event d json a) (start d json q) (end d json q) low high) in
      let total : total_gains (a.dto.values ∷ []) ≡ gains a.dto.values =
        unfold total_gains in omega arith in
      let mean =
        calculate_mean_path_length_lem d a.dto.values [] q.unit ((omega (arith, a.ten), small), tt)
          (unfold total_losses in omega (arith, nonneg))
          (omega (arith, total, gains_small a.dto.values small, a.ten)) in
      rw (handle_store_accepted d json post new_storage a) (
        rw (try_mean_length_lem d json get _ q)
          (unfold mean_of_event in rw (q.unit_known, found, mean, total) refl))
