-- ===== src/Server/Scenario/Messages.antt =====
-- The two messages of a client, and what the parser makes of them.
use ctask.Common.{◌≡◌, refl, Bytes, codes, bytes_eq, List, [], ◌∷◌, ◌++◌, arith}
use ctask.Common.Result.{ok}
use ctask.Utils.{
  HttpRequest, HttpMethod, get_method, post_method, content_length_header, content_type_header,
  json_content_type, connection_header, keep_alive_connection,
}
use ctask.Parser.{
  ParserEvent, on_method, on_url, on_version, on_header_field, on_header_value,
  on_header_value_complete, on_body, Llhttp, parse_request, validate_path, validate_version,
  validate_headers, validate_body, validate_content_length, validate_content_type,
}
use ctask.Parser.Stoll.{stoll}
use ctask.Common.Int.{to_u64}
use ctask.Parser.Tests.{platform}

abbrev pub empty_object : Bytes
empty_object = codes "{}"

abbrev pub keep_alive_events : List ParserEvent
keep_alive_events =
    on_header_field connection_header
    ∷ on_header_value keep_alive_connection
    ∷ on_header_value_complete
    ∷ []

-- The callbacks of the two messages of the client.
abbrev pub post_events : List ParserEvent
post_events =
    on_method (codes "POST")
    ∷ on_url (codes "/paths/login")
    ∷ on_version (codes "1.1")
    ∷ on_header_field content_length_header
    ∷ on_header_value (codes "2")
    ∷ on_header_value_complete
    ∷ on_header_field content_type_header
    ∷ on_header_value json_content_type
    ∷ on_header_value_complete
    ∷ (keep_alive_events ++ (on_body (5 ∷ 3 ∷ []) ∷ []))

abbrev pub get_events : List ParserEvent
get_events =
    on_method (codes "GET")
    ∷ on_url (codes "/paths/login/meanLength")
    ∷ on_version (codes "1.1")
    ∷ (keep_alive_events ++ (on_body (5 ∷ 5 ∷ []) ∷ []))

-- A text of one byte is the first message, any other the second.
abbrev pub events : Bytes → List ParserEvent
events (c ∷ []) = post_events
events _ = get_events

abbrev pub llhttp : Llhttp
llhttp = record {
  events = events;
  errno = λ raw. 0;
  errno_name = λ code. codes "HPE_USER";
  hpe_invalid_header_token = 10;
  callback_error = 28;
  hpe_invalid_header_token-ne-ok = λ e. omega arith;
  callback_error-ne-ok = λ e. omega arith;
}

abbrev pub kept_alive : HttpMethod → Bytes → List (Bytes × Bytes) → Bytes → HttpRequest
kept_alive method path headers body = record {
  method = method;
  path = path;
  version = codes "1.1";
  headers = headers;
  parameters = [];
  body = body;
}

abbrev pub post : HttpRequest
post =
    kept_alive post_method (codes "/paths/login")
      ((content_length_header, codes "2")
        ∷ (content_type_header, json_content_type)
        ∷ (connection_header, keep_alive_connection)
        ∷ [])
      (5 ∷ 3 ∷ [])

abbrev pub get : HttpRequest
get =
    kept_alive get_method (codes "/paths/login/meanLength")
      ((connection_header, keep_alive_connection) ∷ []) (5 ∷ 5 ∷ [])

pub post_parses : parse_request platform llhttp (codes "P") ≡ ok post
unfolding parse_request bytes_eq validate_path validate_version validate_headers validate_body
    validate_content_length validate_content_type stoll to_u64
post_parses = refl

pub get_parses : parse_request platform llhttp (codes "GE") ≡ ok get
unfolding parse_request bytes_eq validate_path validate_version validate_headers validate_body
    validate_content_length validate_content_type
get_parses = refl
