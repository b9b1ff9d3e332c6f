-- ===== src/Telemetry/Api.antt =====
-- ctask_lib/telemetry/api/routes.cpp and the decoding of ctask_lib/telemetry/dto/dto.h. The JSON
-- library is a parameter; the logger leaves no trace in the answers.
pub mod Handlers
pub mod Flow
pub mod Routing
pub mod Effects
pub mod Means
pub mod Decoding
pub mod Tests
use ctask.Common.{
  ℕ, ◌-◌, ◌^◌, Bytes, codes, Bool, not, ◌==◌, List, [], length, Option, none, some, if◌then◌else◌,
}
use ctask.Common.Assoc.{lookup}
use ctask.Common.Int.{ℤ}
use ctask.Common.Result.{Result, ok, thrown, undefined, what, ◌>>=◌}
use ctask.Utils.{HttpRequest, HttpResponse, response, http_status_ok, http_status_bad_request}
use ctask.Router.{HttpHandlerFn, RouterBuilder, register_get, register_post}
use ctask.Telemetry.Types.{
  InteractionTimesEventModel, MeanLengthQueryModel, interaction_times_len, parse_time_unit,
}
use ctask.Telemetry.Storage.{TelemetryStorage, store_event, get_event_interactions}
use ctask.Telemetry.Mean.{Doubles, calculate_mean_path_length}

pub record InteractionTimesEventDto : Type 0 where
  pub date : ℕ
  pub values : List ℤ

pub record MeanLengthQueryDto : Type 0 where
  pub result_unit : Bytes
  pub start_timestamp : Option ℕ
  pub end_timestamp : Option ℕ

-- What the program uses of the JSON library, whose functions may throw: a dump too, at a text that
-- is no UTF-8.
pub record Json (d : Doubles) : Type 1 where
  pub Value : Type 0
  pub parse : Bytes → Result Value
  pub at_key : Value → Bytes → Result Value
  pub contains : Value → Bytes → Bool
  pub get_string : Value → Result Bytes
  pub get_u64 : Value → Result ℕ
  pub get_ints : Value → Result (List ℤ)
  -- `json{{"error", text}}.dump()` and `json{{"mean", mean}}.dump()`
  pub dump_error : Bytes → Result Bytes
  pub dump_mean : d.Double → Result Bytes

abbrev pub max_u64 : ℕ
max_u64 = 2 ^ 64 - 1

abbrev pub value_or : Option ℕ → ℕ → ℕ
value_or none n = n
value_or (some m) n = m

-- A value that the language defines, or the departure from what it defines.
abbrev pub defined {ℓ} : {A : Type ℓ} → Option A → Result A
defined none = undefined
defined (some a) = ok a

module _ (d : Doubles) (json : Json d) where
  open json use {
    Value, parse, at_key, contains, get_string, get_u64, get_ints, dump_error, dump_mean,
  }

  unfoldable pub event_of_json : Value → Result InteractionTimesEventDto
  event_of_json j = do
    date_value ← at_key j (codes "date")
    date ← get_u64 date_value
    values_value ← at_key j (codes "values")
    values ← get_ints values_value
    ok (record { date = date; values = values })

  unfoldable pub optional_u64 : Value → Bytes → Result (Option ℕ)
  optional_u64 j key =
      if contains j key then (do value ← at_key j key; n ← get_u64 value; ok (some n)) else ok none

  unfoldable pub query_of_json : Value → Result MeanLengthQueryDto
  unfolding optional_u64
  query_of_json j = do
    unit_value ← at_key j (codes "resultUnit")
    unit ← get_string unit_value
    start ← optional_u64 j (codes "startTimestamp")
    end ← optional_u64 j (codes "endTimestamp")
    ok (record { result_unit = unit; start_timestamp = start; end_timestamp = end })

  unfoldable pub bad_request : Bytes → Result HttpResponse
  bad_request text = do message ← dump_error text; ok (response http_status_bad_request message)

  -- The `catch` block of both handlers, which may throw anew.
  unfoldable pub caught_bad_request : Result HttpResponse → Result HttpResponse
  caught_bad_request (ok answer) = ok answer
  caught_bad_request (thrown e) = bad_request (what e)
  caught_bad_request undefined = undefined

  -- The `try` block of the GET handler, once the body is decoded and the event's name is there.
  unfoldable pub mean_of_event : MeanLengthQueryDto → Bytes → TelemetryStorage → Result HttpResponse
  mean_of_event dto name storage = do
    unit ← parse_time_unit dto.result_unit
    interactions ← defined (
        get_event_interactions name (value_or dto.start_timestamp 0)
          (value_or dto.end_timestamp max_u64) storage)
    mean ← defined (calculate_mean_path_length d interactions unit)
    message ← dump_mean mean
    ok (response http_status_ok message)

  -- The decoding of the GET handler.
  unfoldable pub decode_query : HttpRequest → Result MeanLengthQueryDto
  decode_query request = do value ← parse request.body; query_of_json value

  -- Its `try` block.
  unfoldable pub try_mean_length : HttpRequest → TelemetryStorage → Result HttpResponse
  try_mean_length request storage = do
    dto ← decode_query request
    elim (lookup (codes "event") request.parameters) [
      | none ↦ bad_request (codes "No event name")
      | some name ↦ mean_of_event dto name storage
    ]

  unfoldable pub handle_mean_length : HttpHandlerFn TelemetryStorage
  handle_mean_length request storage =
      (caught_bad_request (try_mean_length request storage), storage)

  -- The decoding of the POST handler.
  unfoldable pub decode_event : HttpRequest → Result InteractionTimesEventDto
  decode_event request = do value ← parse request.body; event_of_json value

  -- The rest of its `try` block.
  unfoldable pub store_decoded :
      InteractionTimesEventDto
      → HttpRequest
      → TelemetryStorage
      → Result HttpResponse × TelemetryStorage
  store_decoded dto request storage =
      if not (length dto.values == interaction_times_len)
      then (bad_request (codes "Invalid values len"), storage)
      else elim (lookup (codes "event") request.parameters) [
        | none ↦ (bad_request (codes "No event name"), storage)
        | some name ↦ (
          ok (response http_status_ok []),
          store_event name (record { date = dto.date; values = dto.values }) storage,
        )
      ]

  unfoldable pub try_store : HttpRequest → TelemetryStorage → Result HttpResponse × TelemetryStorage
  try_store request storage = elim (decode_event request) [
    | ok dto ↦ store_decoded dto request storage
    | thrown e ↦ (thrown e, storage)
    | undefined ↦ (undefined, storage)
  ]

  unfoldable pub handle_store : HttpHandlerFn TelemetryStorage
  handle_store request storage =
      let (answer, storage') = try_store request storage in (caught_bad_request answer, storage')

  unfoldable pub register_routes : RouterBuilder TelemetryStorage → RouterBuilder TelemetryStorage
  register_routes builder =
      register_post (codes "/paths/{event}") handle_store
        (register_get (codes "/paths/{event}/meanLength") handle_mean_length builder)
