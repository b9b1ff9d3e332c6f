-- ===== src/Telemetry/Api/Decoding/Query.antt =====
-- Which GET requests are answered by 200, and by what, down to the JSON of their bodies.
use mathlib.Core.Path.{subst}
use ctask.Common.{
  ℕ, ◌≡◌, ◌↔◌, refl, ap, ◌∙◌, Bytes, codes, List, true, false, Bool-cases, Option, none, some, inl,
  inr,
}
use ctask.Common.Assoc.{lookup}
use ctask.Common.Result.{Result, ok, thrown, undefined, ◌>>=◌, bind_iff, what}
use ctask.Utils.{HttpRequest, HttpResponse, response, http_status_ok}
use ctask.Telemetry.Types.{InteractionTimesCollection, TimeUnit, parse_time_unit}
use ctask.Telemetry.Storage.{TelemetryStorage, get_event_interactions}
use ctask.Telemetry.Mean.{Doubles, calculate_mean_path_length}
use ctask.Telemetry.Api.{
  Json, MeanLengthQueryDto, optional_u64, query_of_json, decode_query, value_or, max_u64, defined,
  bad_request, caught_bad_request, mean_of_event, try_mean_length, handle_mean_length,
}
use ctask.Telemetry.Api.Decoding.{Holds, at_key_iff}

defined_iff :
    {A B : Type 0} (o : Option A) (rest : A → Result B) (out : B)
    → ((defined o >>= rest) ≡ ok out) ↔ ((a : A) × (o ≡ some a) × (rest a ≡ ok out))
defined_iff none rest out = (λ e. cc, λ w. cc (w.1))
defined_iff (some a) rest out =
    (λ e. (a, refl, e), λ w. let same : a ≡ w.0 = cc (w.1) in rw same (w.2))

module _ (d : Doubles) (json : Json d) where
  open json use {Value, parse, at_key, contains, get_string, get_u64, dump_error, dump_mean}

  -- A JSON object has a number under a key, or does not have the key.
  pub HoldsOptional : Value → Bytes → Option ℕ → Type 0
  HoldsOptional object key none = contains object key ≡ false
  HoldsOptional object key (some n) =
      (contains object key ≡ true) × Holds d json object key get_u64 n

  optional_u64_iff :
      (object : Value) (key : Bytes) (o : Option ℕ)
      → (optional_u64 d json object key ≡ ok o) ↔ HoldsOptional object key o
  unfolding optional_u64 HoldsOptional
  optional_u64_iff object key none = elim (Bool-cases (contains object key)) [
    | inl there ↦
        rw (there, optional_u64, HoldsOptional)
          (
            λ e. let (n, holds, e1) = (at_key_iff d json object key get_u64 _ none).0 e in cc e1,
            λ e. cc,
          )
    | inr missing ↦ rw (missing, optional_u64, HoldsOptional) (λ e. refl, λ e. refl)
  ]
  optional_u64_iff object key (some m) = elim (Bool-cases (contains object key)) [
    | inl there ↦
        rw (there, optional_u64, HoldsOptional)
          (
            λ e.
                let (n, holds, e1) = (at_key_iff d json object key get_u64 _ (some m)).0 e in
                let same : n ≡ m = cc e1 in
                (refl, subst (Holds d json object key get_u64) same holds),
            λ w. (at_key_iff d json object key get_u64 _ (some m)).1 (m, w.1, refl),
          )
    | inr missing ↦ rw (missing, optional_u64, HoldsOptional) (λ e. cc, λ w. cc (w.0))
  ]

  -- The body of a request is the JSON of a query.
  pub record IsQueryBody (body : Bytes) (dto : MeanLengthQueryDto) : Type 0 where
    pub object : Value
    pub parsed : parse body ≡ ok object
    pub unit : Holds d json object (codes "resultUnit") get_string dto.result_unit
    pub start : HoldsOptional object (codes "startTimestamp") dto.start_timestamp
    pub end : HoldsOptional object (codes "endTimestamp") dto.end_timestamp

  decode_query_iff :
      (request : HttpRequest) (dto : MeanLengthQueryDto)
      → (decode_query d json request ≡ ok dto) ↔ IsQueryBody request.body dto
  unfolding decode_query query_of_json
  decode_query_iff request dto = (
    λ e.
        let (object, parsed, e1) = (bind_iff (parse request.body) _ dto).0 e in
        let (unit, has_unit, e2) = (at_key_iff d json object _ get_string _ dto).0 e1 in
        let (start, at_start, e3) = (bind_iff (optional_u64 d json object _) _ dto).0 e2 in
        let (end, at_end, e4) = (bind_iff (optional_u64 d json object _) _ dto).0 e3 in
        let same : record { result_unit = unit; start_timestamp = start; end_timestamp = end }
            ≡ dto =
          cc e4 in
        subst (IsQueryBody request.body) same (record {
          object = object;
          parsed = parsed;
          unit = has_unit;
          start = (optional_u64_iff object _ start).0 at_start;
          end = (optional_u64_iff object _ end).0 at_end;
        }),
    λ b. (bind_iff (parse request.body) _ dto).1 (
      b.object,
      b.parsed,
      (at_key_iff d json b.object _ get_string _ dto).1 (
        dto.result_unit,
        b.unit,
        (bind_iff (optional_u64 d json b.object _) _ dto).1 (
          dto.start_timestamp,
          (optional_u64_iff b.object _ dto.start_timestamp).1 b.start,
          (bind_iff (optional_u64 d json b.object _) _ dto).1
              (dto.end_timestamp, (optional_u64_iff b.object _ dto.end_timestamp).1 b.end, refl),
        ),
      ),
    ),
  )

  bad_request-ne-ok :
      (text message : Bytes) → (bad_request d json text ≡ ok (response http_status_ok message)) → ⊥
  unfolding bad_request
  bad_request-ne-ok text message e =
      let (m, dumped, e1) = (bind_iff (dump_error text) _ _).0 e in cc e1

  caught_bad_request_iff :
      (r : Result HttpResponse) (message : Bytes)
      → (caught_bad_request d json r ≡ ok (response http_status_ok message))
        ↔ (r ≡ ok (response http_status_ok message))
  unfolding caught_bad_request
  caught_bad_request_iff (ok a) message = (λ e. e, λ e. e)
  caught_bad_request_iff (thrown x) message =
      (λ e. absurd (bad_request-ne-ok (what x) message e), λ e. cc)
  caught_bad_request_iff undefined message = (λ e. cc, λ e. cc)

  -- A request asks for the mean of an event that it names, and gets a message with it.
  pub record Asks (request : HttpRequest) (s : TelemetryStorage) (message : Bytes) : Type 0 where
    pub dto : MeanLengthQueryDto
    pub name : Bytes
    pub unit : TimeUnit
    pub values : List InteractionTimesCollection
    pub mean : d.Double
    pub body : IsQueryBody request.body dto
    pub named : lookup (codes "event") request.parameters ≡ some name
    pub unit_known : parse_time_unit dto.result_unit ≡ ok unit
    pub found :
        get_event_interactions name
          (value_or dto.start_timestamp 0)
          (value_or dto.end_timestamp max_u64)
          s
        ≡ some values
    pub computed : calculate_mean_path_length d values unit ≡ some mean
    pub dumped : dump_mean mean ≡ ok message

  by_name :
      (request : HttpRequest) (dto : MeanLengthQueryDto) (s : TelemetryStorage) (message : Bytes)
      (found_name : Option Bytes)
      → lookup (codes "event") request.parameters ≡ found_name
      → IsQueryBody request.body dto
      → (elim found_name as (λ o. Result HttpResponse) [
        | none ↦ bad_request d json (codes "No event name")
        | some name ↦ mean_of_event d json dto name s
      ])
        ≡ ok (response http_status_ok message)
      → Asks request s message
  unfolding mean_of_event
  by_name request dto s message none named body e =
      absurd (bad_request-ne-ok (codes "No event name") message e)
  by_name request dto s message (some name) named body e =
      let (unit, known, e1) = (bind_iff (parse_time_unit dto.result_unit) _ _).0 e in
      let (values, found, e2) = (defined_iff (get_event_interactions name _ _ s) _ _).0 e1 in
      let (mean, computed, e3) =
        (defined_iff (calculate_mean_path_length d values unit) _ _).0 e2 in
      let (text, dumped, e4) = (bind_iff (dump_mean mean) _ _).0 e3 in
      let same : text ≡ message = cc e4 in
      record {
        dto = dto;
        name = name;
        unit = unit;
        values = values;
        mean = mean;
        body = body;
        named = named;
        unit_known = known;
        found = found;
        computed = computed;
        dumped = dumped ∙ ap ok same;
      }

  -- A GET request is answered by 200 with a message exactly when its body parses to JSON with a
  -- unit that is known and with bounds that, where they are there, read as unsigned numbers, its
  -- parameter `event` is there, the query is defined and so is the mean of what it finds, and the
  -- message is the JSON of the mean.
  pub handle_mean_length-eq-ok_iff :
      (request : HttpRequest) (s : TelemetryStorage) (message : Bytes)
      → ((handle_mean_length d json request s).0 ≡ ok (response http_status_ok message))
        ↔ Asks request s message
  unfolding handle_mean_length try_mean_length mean_of_event
  handle_mean_length-eq-ok_iff request s message = (
    λ e.
        let tried = (caught_bad_request_iff (try_mean_length d json request s) message).0 e in
        let (dto, decoded, e1) = (bind_iff (decode_query d json request) _ _).0 tried in
        by_name request dto s message (lookup (codes "event") request.parameters) refl
          ((decode_query_iff request dto).0 decoded) e1,
    λ a. (caught_bad_request_iff (try_mean_length d json request s) message).1 (
        rw
          (
            (decode_query_iff request a.dto).1 a.body,
            a.named,
            a.unit_known,
            a.found,
            a.computed,
            a.dumped,
          )
          refl),
  )
