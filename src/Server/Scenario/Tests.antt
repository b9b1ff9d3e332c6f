-- ===== src/Server/Scenario/Tests.antt =====
-- A POST and a GET over one connection on concrete input.
use ctask.Common.{
  ◌≡◌, refl, Bytes, codes, bytes_eq, is_empty, false, true, [], ◌∷◌, length, take_all, some, arith,
}
use ctask.Common.Assoc.{lookup}
use ctask.Common.Result.{ok}
use ctask.Parser.{parse_request}
use ctask.Parser.Tests.{platform}
use ctask.Telemetry.Types.{milliseconds, parse_time_unit}
use ctask.Telemetry.Mean.{in_unit}
use ctask.Telemetry.Mean.Bounds.{losses, gains}
use ctask.Telemetry.Storage.{new_storage, store_event}
use ctask.Telemetry.Tests.{fractions}
use ctask.Telemetry.Api.{decode_event, decode_query, event_of_json, query_of_json, optional_u64}
use ctask.Telemetry.Api.Handlers.{Accepts, event, Queries}
use ctask.Telemetry.Api.Tests.{sample, ten_times}
use ctask.Telemetry.Api.Routing.{telemetry_router, event_parameter, handed}
use ctask.Router.Paths.Split.{segments}
use ctask.Server.{received, Turn, keeps_alive, client_session, waiting}
use ctask.Server.Service.{custom_router}
use ctask.Server.Scenario.{Sends, ok_text, store_and_ask}
use ctask.Server.Scenario.Messages.{empty_object, llhttp, post, get, post_parses, get_parses}

abbrev pub post_turn : Turn
post_turn = record {
  read = received (codes "P");
  written = length (ok_text platform llhttp empty_object fractions sample post []);
  write_error = false;
}

-- What a mean of 30 over 1 reads as.
abbrev message : Bytes
message = 30000 ∷ 1 ∷ []

abbrev pub get_turn : Turn
get_turn = record {
  read = received (codes "GE");
  written = length (ok_text platform llhttp empty_object fractions sample get message);
  write_error = false;
}

pub filled : (is_empty (codes "P") ≡ false) × (is_empty (codes "GE") ≡ false)
unfolding is_empty
filled = (refl, refl)

kept : (keeps_alive post ≡ true) × (keeps_alive get ≡ true)
unfolding keeps_alive lookup bytes_eq
kept = (refl, refl)

pub post_sent :
    Sends platform llhttp empty_object fractions sample post_turn post
      (ok_text platform llhttp empty_object fractions sample post [])
post_sent = record {
  raw = codes "P";
  read = refl;
  filled = filled.0;
  parses = post_parses;
  kept = kept.0;
  whole = take_all _ (ok_text platform llhttp empty_object fractions sample post []) (omega arith);
  no_error = refl;
}

get_sent :
    Sends platform llhttp empty_object fractions sample get_turn get
      (ok_text platform llhttp empty_object fractions sample get message)
get_sent = record {
  raw = codes "GE";
  read = refl;
  filled = filled.1;
  parses = get_parses;
  kept = kept.1;
  whole =
      take_all _ (ok_text platform llhttp empty_object fractions sample get message) (omega arith);
  no_error = refl;
}

pub post_decoded :
    decode_event fractions sample (handed fractions sample post)
    ≡ ok (record { date = 5; values = ten_times 3 })
unfolding decode_event event_of_json
post_decoded = refl

pub get_decoded :
    decode_query fractions sample (handed fractions sample get)
    ≡ ok (record {
      result_unit = codes "milliseconds";
      start_timestamp = some 5;
      end_timestamp = some 5;
    })
unfolding decode_query query_of_json optional_u64
get_decoded = refl

pub names :
    (lookup (codes "event") (event_parameter post.path) ≡ some (codes "login"))
    × (lookup (codes "event") (event_parameter get.path) ≡ some (codes "login"))
unfolding event_parameter segments lookup bytes_eq
names = (refl, refl)

pub unit_named : parse_time_unit (codes "milliseconds") ≡ ok milliseconds
unfolding parse_time_unit bytes_eq
unit_named = refl

abbrev pub accepted : Accepts fractions sample (handed fractions sample post)
accepted = record {
  dto = record { date = 5; values = ten_times 3 };
  name = codes "login";
  decoded = post_decoded;
  ten = refl;
  named = names.0;
}

abbrev pub queried : Queries fractions sample (handed fractions sample get)
queried = record {
  dto = record {
    result_unit = codes "milliseconds";
    start_timestamp = some 5;
    end_timestamp = some 5;
  };
  name = codes "login";
  unit = milliseconds;
  decoded = get_decoded;
  named = names.1;
  unit_known = unit_named;
}

no_losses : losses (ten_times 3) ≡ 0
unfolding losses
no_losses = refl

dumped :
    sample.dump_mean (
      in_unit fractions milliseconds
        (fractions.divide (fractions.of_u64 (gains (ten_times 3))) (fractions.of_u64 1)))
    ≡ ok message
unfolding in_unit gains
dumped = refl

store_and_ask_example :
    client_session
      (parse_request platform llhttp)
      empty_object
      (custom_router (telemetry_router fractions sample))
      (post_turn ∷ get_turn ∷ [])
      new_storage
    ≡ record {
      sent =
          ok_text platform llhttp empty_object fractions sample post []
          ∷ ok_text platform llhttp empty_object fractions sample get message
          ∷ [];
      world = store_event (codes "login") (event fractions sample accepted) new_storage;
      ending = waiting;
    }
store_and_ask_example =
    store_and_ask platform llhttp empty_object fractions sample post_turn get_turn post get message
      post_sent get_sent refl (λ e. cc) refl (λ e. cc) accepted queried refl (omega arith)
      (omega arith) (ground arith) no_losses dumped
