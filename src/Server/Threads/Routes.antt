-- ===== src/Server/Threads/Routes.antt =====
-- The plans of the handlers of the telemetry, of the router, and of one turn of a session.
use ctask.Common.{
  ◌≡◌, refl, Bytes, codes, true, Bool-cases, List, [], Option, none, some, inl, inr, length, ◌==◌,
}
use ctask.Common.Assoc.{lookup}
use ctask.Common.Result.{Result, ok, thrown, undefined, ◌>>=◌}
use ctask.Utils.{HttpRequest, HttpResponse, response, http_status_ok}
use ctask.Telemetry.Types.{
  InteractionTimesCollection, TimeUnit, parse_time_unit, interaction_times_len,
}
use ctask.Telemetry.Mean.{Doubles, calculate_mean_path_length}
use ctask.Telemetry.Api.{
  Json, InteractionTimesEventDto, MeanLengthQueryDto, max_u64, value_or, defined, bad_request,
  decode_query, decode_event, caught_bad_request, mean_of_event, try_mean_length,
  handle_mean_length, store_decoded, try_store, handle_store,
}
use ctask.Server.Threads.Plans.{Plan, answers, stores, asks, Planned}

module _ (d : Doubles) (json : Json d) where
  -- An answer that does not depend on the storage.
  abbrev fixed : Result HttpResponse → Plan (Result HttpResponse)
  fixed r = answers (caught_bad_request d json r)

  -- What the GET handler makes of the collections that its query has returned.
  abbrev mean_reply : TimeUnit → Option (List InteractionTimesCollection) → Result HttpResponse
  mean_reply unit found = caught_bad_request d json (do
    interactions ← defined found
    mean ← defined (calculate_mean_path_length d interactions unit)
    message ← json.dump_mean mean
    ok (response http_status_ok message))

  pub handle_mean_length-Planned :
      (request : HttpRequest) → Planned (handle_mean_length d json request)
  unfolding handle_mean_length try_mean_length mean_of_event
  handle_mean_length-Planned request = by_decoding (decode_query d json request) refl
    where
      by_unit :
          (dto : MeanLengthQueryDto) (name : Bytes) (unit : Result TimeUnit)
          → decode_query d json request ≡ ok dto
          → lookup (codes "event") request.parameters ≡ some name
          → parse_time_unit dto.result_unit ≡ unit
          → Planned (handle_mean_length d json request)
      by_unit dto name (ok unit) e named u = record {
        plan =
            asks name (value_or dto.start_timestamp 0) (value_or dto.end_timestamp max_u64)
              (mean_reply unit);
        runs = λ s. rw (e, named, u) refl;
      }
      by_unit dto name (thrown x) e named u = record {
        plan = fixed (thrown x);
        runs = λ s. rw (e, named, u) refl;
      }
      by_unit dto name undefined e named u = record {
        plan = fixed undefined;
        runs = λ s. rw (e, named, u) refl;
      }

      by_name :
          (dto : MeanLengthQueryDto) (name : Option Bytes)
          → decode_query d json request ≡ ok dto
          → lookup (codes "event") request.parameters ≡ name
          → Planned (handle_mean_length d json request)
      by_name dto none e named = record {
        plan = fixed (bad_request d json (codes "No event name"));
        runs = λ s. rw (e, named) refl;
      }
      by_name dto (some name) e named =
          by_unit dto name (parse_time_unit dto.result_unit) e named refl

      by_decoding :
          (r : Result MeanLengthQueryDto)
          → decode_query d json request ≡ r
          → Planned (handle_mean_length d json request)
      by_decoding (ok dto) e = by_name dto (lookup (codes "event") request.parameters) e refl
      by_decoding (thrown x) e = record { plan = fixed (thrown x); runs = λ s. rw e refl }
      by_decoding undefined e = record { plan = fixed undefined; runs = λ s. rw e refl }

  pub handle_store-Planned : (request : HttpRequest) → Planned (handle_store d json request)
  unfolding handle_store try_store store_decoded
  handle_store-Planned request = by_decoding (decode_event d json request) refl
    where
      by_name :
          (dto : InteractionTimesEventDto) (name : Option Bytes)
          → decode_event d json request ≡ ok dto
          → (length dto.values == interaction_times_len) ≡ true
          → lookup (codes "event") request.parameters ≡ name
          → Planned (handle_store d json request)
      by_name dto none e ten named = record {
        plan = fixed (bad_request d json (codes "No event name"));
        runs = λ s. rw (e, ten, named, try_store, store_decoded) refl;
      }
      by_name dto (some name) e ten named = record {
        plan =
            stores name (record { date = dto.date; values = dto.values })
              (caught_bad_request d json (ok (response http_status_ok [])));
        runs = λ s. rw (e, ten, named, try_store, store_decoded) refl;
      }

      by_decoding :
          (r : Result InteractionTimesEventDto)
          → decode_event d json request ≡ r
          → Planned (handle_store d json request)
      by_decoding (ok dto) e = elim (Bool-cases (length dto.values == interaction_times_len)) [
        | inl ten ↦ by_name dto (lookup (codes "event") request.parameters) e ten refl
        | inr other ↦ record {
          plan = fixed (bad_request d json (codes "Invalid values len"));
          runs = λ s. rw (e, other, try_store, store_decoded) refl;
        }
      ]
      by_decoding (thrown x) e = record {
        plan = fixed (thrown x);
        runs = λ s. rw (e, try_store) refl;
      }
      by_decoding undefined e = record {
        plan = fixed undefined;
        runs = λ s. rw (e, try_store) refl;
      }
