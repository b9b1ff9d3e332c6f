-- ===== src/Telemetry/Api/Tests.antt =====
-- Runs of the handlers and of the routes on concrete input.
use ctask.Common.{
  ◌↔◌, ℕ, ◌≡◌, ◌≢◌, refl, Bytes, codes, bytes_eq, List, [], ◌∷◌, length, All, none, some, true,
  arith, if◌then◌else◌, ◌==◌,
}
use ctask.Common.Assoc
use ctask.Common.Assoc.{lookup, modify}
use ctask.Common.Int.{ℤ, pos}
use ctask.Common.Result.{Result, ok, thrown, external}
use ctask.Utils.{HttpRequest, response, HttpMethod, get_method, post_method, http_status_ok}
use ctask.Telemetry.Types.{milliseconds, interaction_times_len, parse_time_unit}
use ctask.Telemetry.Events.{emplace, at}
use ctask.Telemetry.Storage.{TelemetryStorage, new_storage, store_event, create_entry}
use ctask.Telemetry.Storage.Laws.{recorded, IsValid, new_storage-IsValid, store_event-IsValid}
use ctask.Telemetry.Mean.Bounds.{losses, IsSmall}
use ctask.Telemetry.Tests.{fractions}
use ctask.Router.{route}
use ctask.Telemetry.Api.{
  Json, decode_event, decode_query, event_of_json, query_of_json, optional_u64, handle_store,
  handle_mean_length,
}
use ctask.Telemetry.Api.Handlers.{Accepts, event, Queries}
use ctask.Telemetry.Api.Decoding.{Posts, handle_store-eq-ok_iff}
use ctask.Telemetry.Api.Decoding.Query.{Asks, handle_mean_length-eq-ok_iff}
use ctask.Telemetry.Api.Routing.{telemetry_router, telemetry_outcome, telemetry_route_lem}

-- A stand-in for the JSON library: a text is its own value, byte 0 is its date and its
-- first bound, byte 1 its second bound and the value that comes ten times; the empty text is no JSON.
abbrev parse_sample : Bytes → Result Bytes
parse_sample [] = thrown (external (codes "parse error"))
parse_sample (a ∷ rest) = ok (a ∷ rest)

abbrev head : Bytes → ℕ
head [] = 0
head (a ∷ rest) = a

abbrev tail : Bytes → Bytes
tail [] = []
tail (a ∷ rest) = rest

abbrev pub ten_times : ℕ → List ℤ
ten_times n = pos n ∷ pos n ∷ pos n ∷ pos n ∷ pos n ∷ pos n ∷ pos n ∷ pos n ∷ pos n ∷ pos n ∷ []

abbrev pub sample : Json fractions
sample = record {
  Value = Bytes;
  parse = parse_sample;
  at_key = λ v key. ok (if head key == b'e' then tail v else v);
  contains = λ v key. true;
  get_string = λ v. ok (codes "milliseconds");
  get_u64 = λ v. ok (head v);
  get_ints = λ v. ok (ten_times (head (tail v)));
  dump_error = ok;
  dump_mean = λ mean. ok (mean.0 ∷ mean.1 ∷ []);
}

abbrev pub login : Bytes
login = codes "login"

abbrev pub named : HttpMethod → Bytes → HttpRequest
named method body = record {
  method = method;
  path = codes "/paths/login";
  version = codes "1.1";
  headers = [];
  parameters = (codes "event", login) ∷ [];
  body = body;
}

-- An event of ten values 3 at the timestamp 5.
abbrev post : HttpRequest
post = named post_method (5 ∷ 3 ∷ [])

abbrev pub get : HttpRequest
get = named get_method (5 ∷ 5 ∷ [])

post_decoded : decode_event fractions sample post ≡ ok (record { date = 5; values = ten_times 3 })
unfolding decode_event event_of_json
post_decoded = refl

pub event_named : lookup (codes "event") post.parameters ≡ some login
unfolding lookup bytes_eq
event_named = refl

ten_values : length (ten_times 3) ≡ interaction_times_len
ten_values = refl

abbrev post_accepted : Accepts fractions sample post
post_accepted = record {
  dto = record { date = 5; values = ten_times 3 };
  name = login;
  decoded = post_decoded;
  ten = ten_values;
  named = event_named;
}

pub get_decoded :
    decode_query fractions sample get
    ≡ ok (record {
      result_unit = codes "milliseconds";
      start_timestamp = some 5;
      end_timestamp = some 5;
    })
unfolding decode_query query_of_json optional_u64
get_decoded = refl

pub unit_named : parse_time_unit (codes "milliseconds") ≡ ok milliseconds
unfolding parse_time_unit bytes_eq
unit_named = refl

abbrev pub get_queried : Queries fractions sample get
get_queried = record {
  dto = record {
    result_unit = codes "milliseconds";
    start_timestamp = some 5;
    end_timestamp = some 5;
  };
  name = login;
  unit = milliseconds;
  decoded = get_decoded;
  named = event_named;
  unit_known = unit_named;
}

-- The storage that holds the event of `post`.
abbrev stored : TelemetryStorage
stored = store_event login (event fractions sample post_accepted) new_storage

stored-IsValid : IsValid stored
stored-IsValid =
    store_event-IsValid login (event fractions sample post_accepted) new_storage new_storage-IsValid

stored_there : recorded login 5 stored ≢ none
unfolding recorded store_event create_entry lookup Assoc.emplace modify emplace at bytes_eq
stored_there = λ e. cc

-- A query from 7 to 4.
abbrev backward : HttpRequest
backward = named get_method (7 ∷ 4 ∷ [])

backward_decoded :
    decode_query fractions sample backward
    ≡ ok (record {
      result_unit = codes "milliseconds";
      start_timestamp = some 7;
      end_timestamp = some 4;
    })
unfolding decode_query query_of_json optional_u64
backward_decoded = refl

abbrev backward_queried : Queries fractions sample backward
backward_queried = record {
  dto = record {
    result_unit = codes "milliseconds";
    start_timestamp = some 7;
    end_timestamp = some 4;
  };
  name = login;
  unit = milliseconds;
  decoded = backward_decoded;
  named = event_named;
  unit_known = unit_named;
}

ten_times-IsSmall : All IsSmall (ten_times 3)
ten_times-IsSmall = ground arith

nonneg_values : losses (ten_times 3) ≡ 0
unfolding losses
nonneg_values = refl

abbrev stray : HttpMethod → HttpRequest
stray method = record post { method = method; path = codes "/a/b/c" }

telemetry_route_lem_example :
    route (telemetry_router fractions sample) (stray post_method) new_storage
    ≡ telemetry_outcome fractions sample post_method (stray post_method) new_storage
telemetry_route_lem_example =
    telemetry_route_lem fractions sample (stray post_method) new_storage (λ e. cc e)

handle_store-eq-ok_iff_example :
    ((handle_store fractions sample post stored).0 ≡ ok (response http_status_ok []))
    ↔ Posts fractions sample post
handle_store-eq-ok_iff_example = handle_store-eq-ok_iff fractions sample post stored

handle_mean_length-eq-ok_iff_example :
    ((handle_mean_length fractions sample get stored).0
      ≡ ok (response http_status_ok (30000 ∷ 1 ∷ [])))
    ↔ Asks fractions sample get stored (30000 ∷ 1 ∷ [])
handle_mean_length-eq-ok_iff_example =
    handle_mean_length-eq-ok_iff fractions sample get stored (30000 ∷ 1 ∷ [])
