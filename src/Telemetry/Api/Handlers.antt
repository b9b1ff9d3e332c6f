-- ===== src/Telemetry/Api/Handlers.antt =====
-- What the two handlers answer, and what they store.
use ctask.Common.{
  ℕ, ◌<◌, ◌≡◌, ◌≢◌, ◌⊎◌, refl, sym, Bytes, codes, bytes_eq_iff, ◌==◌, [], length, none, some,
  Option-cases, Bool-cases, inl, inr, arith,
}
use mathlib.Core.Path.{subst}
use ctask.Common.Assoc.{lookup}
use ctask.Common.Result.{Result, ok, thrown, undefined, what, ◌>>=◌}
use ctask.Utils.{HttpRequest, HttpResponse, response, http_status_ok, http_status_bad_request}
use ctask.Telemetry.Types.{
  InteractionTimesEventModel, TimeUnit, interaction_times_len, parse_time_unit,
}
use ctask.Telemetry.Storage.{TelemetryStorage, store_event, get_event_interactions}
use ctask.Telemetry.Storage.Laws.{recorded, IsValid, recorded-store_event}
use ctask.Telemetry.Storage.Query.{get_event_interactions-eq-none_iff}
use ctask.Telemetry.Mean.{Doubles}
use ctask.Telemetry.Api.{
  Json, InteractionTimesEventDto, MeanLengthQueryDto, max_u64, value_or, decode_query, bad_request,
  caught_bad_request, mean_of_event, try_mean_length, handle_mean_length, decode_event,
  store_decoded, try_store, handle_store,
}

-- No answer but 400: else an exception or undefined behaviour.
abbrev pub IsRefusal : Result HttpResponse → Type 0
IsRefusal (ok a) = a.code ≡ http_status_bad_request
IsRefusal (thrown e) = Unit
IsRefusal undefined = Unit

module _ (d : Doubles) (json : Json d) where
  open json use {parse, dump_error}

  -- A request that the POST handler accepts: the event and the name that it gives.
  pub record Accepts (request : HttpRequest) : Type 0 where
    pub dto : InteractionTimesEventDto
    pub name : Bytes
    pub decoded : decode_event d json request ≡ ok dto
    pub ten : length dto.values ≡ interaction_times_len
    pub named : lookup (codes "event") request.parameters ≡ some name

  abbrev pub event : {request : HttpRequest} → Accepts request → InteractionTimesEventModel
  event a = record { date = a.dto.date; values = a.dto.values }

  bad_request-IsRefusal : (text : Bytes) → IsRefusal (bad_request d json text)
  unfolding bad_request
  bad_request-IsRefusal text = refuses (dump_error text)
    where
      refuses :
          (m : Result Bytes)
          → IsRefusal (m >>= λ message. ok (response http_status_bad_request message))
      refuses (ok m) = refl
      refuses (thrown e) = tt
      refuses undefined = tt

  caught-IsRefusal :
      (r : Result HttpResponse) → IsRefusal r → IsRefusal (caught_bad_request d json r)
  unfolding caught_bad_request
  caught-IsRefusal (ok a) h = h
  caught-IsRefusal (thrown e) h = bad_request-IsRefusal (what e)
  caught-IsRefusal undefined h = tt

  -- A request that the POST handler accepts is answered by 200 and stored as one event.
  pub handle_store_accepted :
      (request : HttpRequest) (s : TelemetryStorage) (a : Accepts request)
      → handle_store d json request s
        ≡ (ok (response http_status_ok []), store_event a.name (event a) s)
  unfolding handle_store try_store store_decoded caught_bad_request
  handle_store_accepted request s a = ground (arith, a.decoded, a.ten, a.named)

  -- What came of a POST request.
  abbrev pub Outcome :
      HttpRequest → TelemetryStorage → Result HttpResponse × TelemetryStorage → Type 0
  Outcome request s (answer, s') =
      (IsRefusal answer × (s' ≡ s))
      ⊎ ((a : Accepts request) × (answer ≡ ok (response http_status_ok []))
          × (s' ≡ store_event a.name (event a) s))

  store_decoded-Outcome :
      (request : HttpRequest) (s : TelemetryStorage) (dto : InteractionTimesEventDto)
      → decode_event d json request ≡ ok dto
      → (IsRefusal (store_decoded d json dto request s).0
          × ((store_decoded d json dto request s).1 ≡ s))
        ⊎ ((a : Accepts request) × ((store_decoded d json dto request s).0
              ≡ ok (response http_status_ok []))
            × ((store_decoded d json dto request s).1 ≡ store_event a.name (event a) s))
  unfolding store_decoded
  store_decoded-Outcome request s dto decoded =
      elim (Bool-cases (length dto.values == interaction_times_len)) [
        | inr wrong ↦ rw wrong (inl (bad_request-IsRefusal (codes "Invalid values len"), refl))
        | inl ten ↦ rw ten (elim (Option-cases (lookup (codes "event") request.parameters)) [
          | inl unnamed ↦ rw unnamed (inl (bad_request-IsRefusal (codes "No event name"), refl))
          | inr (name, named) ↦ rw named (
              inr (
                record {
                  dto = dto;
                  name = name;
                  decoded = decoded;
                  ten = ground arith;
                  named = named;
                },
                refl,
                refl,
              ))
        ])
      ]

  -- A POST request is either refused, by an answer of status 400 or by an exception or undefined
  -- behaviour of the JSON library, and the storage stays as it is; or it decodes to an event of ten
  -- values with a name, is answered by 200, and its event is stored under the name.
  pub handle_store-Outcome :
      (request : HttpRequest) (s : TelemetryStorage)
      → Outcome request s (handle_store d json request s)
  handle_store-Outcome request s = by_decoding (decode_event d json request) refl
    where
      caught_outcome :
          (answer : Result HttpResponse) (s' : TelemetryStorage)
          → Outcome request s (answer, s')
          → Outcome request s (caught_bad_request d json answer, s')
      caught_outcome answer s' (inl (refused, same)) = inl (caught-IsRefusal answer refused, same)
      caught_outcome answer s' (inr (a, done, stored)) =
          inr (a, unfold caught_bad_request in rw done refl, stored)

      by_decoding :
          (r : Result InteractionTimesEventDto)
          → decode_event d json request ≡ r
          → Outcome request s (handle_store d json request s)
      by_decoding (ok dto) e =
          let (answer, s') = store_decoded d json dto request s in
          let whole : handle_store d json request s ≡ (caught_bad_request d json answer, s') =
            unfold handle_store try_store in rw (e, try_store) refl in
          subst (Outcome request s) (sym whole)
            (caught_outcome answer s' (store_decoded-Outcome request s dto e))
      by_decoding (thrown x) e =
          let whole : handle_store d json request s ≡ (caught_bad_request d json (thrown x), s) =
            unfold handle_store try_store in rw (e, try_store) refl in
          subst (Outcome request s) (sym whole) (caught_outcome (thrown x) s (inl (tt, refl)))
      by_decoding undefined e =
          let whole : handle_store d json request s ≡ (caught_bad_request d json undefined, s) =
            unfold handle_store try_store in rw (e, try_store) refl in
          subst (Outcome request s) (sym whole) (caught_outcome undefined s (inl (tt, refl)))

  -- An event whose name and timestamp have values already is answered by 200 and changes nothing
  -- that the storage holds.
  pub handle_store_repeated :
      (request : HttpRequest) (s : TelemetryStorage) (a : Accepts request) (k : Bytes) (date : ℕ)
      → IsValid s
      → recorded a.name a.dto.date s ≢ none
      → ((handle_store d json request s).0 ≡ ok (response http_status_ok []))
        × (recorded k date (handle_store d json request s).1 ≡ recorded k date s)
  handle_store_repeated request s a k date valid there = rw (handle_store_accepted request s a) (
    refl,
    ground (arith, recorded-store_event a.name k (event a) date s valid, bytes_eq_iff a.name k),
  )

  -- A request that the GET handler decodes: the query, the name and the unit.
  pub record Queries (request : HttpRequest) : Type 0 where
    pub dto : MeanLengthQueryDto
    pub name : Bytes
    pub unit : TimeUnit
    pub decoded : decode_query d json request ≡ ok dto
    pub named : lookup (codes "event") request.parameters ≡ some name
    pub unit_known : parse_time_unit dto.result_unit ≡ ok unit

  abbrev pub start : {request : HttpRequest} → Queries request → ℕ
  start q = value_or q.dto.start_timestamp 0

  abbrev pub end : {request : HttpRequest} → Queries request → ℕ
  end q = value_or q.dto.end_timestamp max_u64

  pub try_mean_length_lem :
      (request : HttpRequest) (s : TelemetryStorage) (q : Queries request)
      → try_mean_length d json request s ≡ mean_of_event d json q.dto q.name s
  unfolding try_mean_length
  try_mean_length_lem request s q = rw (q.decoded, q.named) refl

  -- A query whose start lies behind its end leaves the defined behaviour of the language as soon as
  -- the storage holds values of the event at a timestamp strictly between the two.
  pub handle_mean_length_undefined :
      (request : HttpRequest) (s : TelemetryStorage) (q : Queries request) (date : ℕ)
      → IsValid s
      → end q < date
      → date < start q
      → recorded q.name date s ≢ none
      → (handle_mean_length d json request s).0 ≡ undefined
  unfolding handle_mean_length
  handle_mean_length_undefined request s q date valid low high there =
      let lost : get_event_interactions q.name (start q) (end q) s ≡ none =
        (get_event_interactions-eq-none_iff q.name (start q) (end q) s valid).1
          (date, low, high, there) in
      rw (try_mean_length_lem request s q)
        (unfold mean_of_event caught_bad_request in rw (q.unit_known, lost) refl)
